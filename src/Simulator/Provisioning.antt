-- ===== src/Simulator/Provisioning.antt =====
-- Demo funding is posted once.
use achflow.Prelude.{
  ℕ, ◌≡◌, refl, String, false, find, arith, ◌==◌, ◌&&◌, if◌then◌else◌, str_eq_iff, eq_refl,
}
use achflow.Prelude.Int.{ℤ, pos, ◌+ℤ◌, int_laws}
use achflow.Schema.{Db, ok, create_entry, entry_key_discrete}
use achflow.Ledger.{posted_balance, sum_entries, entry_impact}
use achflow.Simulator.Funding.{Provisioned, create_account, fund, provision_demo_funding}

-- The provisioning of demo funding adds the amount to the posted balance of the account that it
-- names, where it says that it provisioned, and otherwise changes no posted balance.
provisioned-balances :
    (a merchant : ℕ) (currency : String) (amount : ℤ) (db db' : Db) (p : Provisioned)
    → provision_demo_funding merchant currency amount db ≡ ok (p, db')
    → posted_balance a db'
      ≡ posted_balance a db
        +ℤ (if p.provisioned && (p.funding_account_id == a) then amount else pos 0)
unfolding provision_demo_funding create_account fund create_entry posted_balance sum_entries
    entry_impact
provisioned-balances a merchant currency amount db db' p h = grind int_laws

-- Demo funding that is provisioned again for a merchant and currency, whatever the amount, says
-- that it did not, gives the account and the amount of the first time, and changes nothing.
provision_twice :
    (merchant : ℕ) (currency : String) (amount again : ℤ) (db db' db2 : Db) (p q : Provisioned)
    → provision_demo_funding merchant currency amount db ≡ ok (p, db')
    → provision_demo_funding merchant currency again db' ≡ ok (q, db2)
    → (db2 ≡ db') × (q ≡ record p { provisioned = false })
unfolding provision_demo_funding create_account fund create_entry find entry_key_discrete
provision_twice merchant currency amount again db db' db2 p q h k =
    ground (arith, (str_eq_iff currency currency).1 refl, eq_refl merchant)
