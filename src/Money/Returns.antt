-- ===== src/Money/Returns.antt =====
-- The balances after a return, and the round trip of a debit.
use achflow.Prelude.{ℕ, String, ◌≡◌, refl, Option, none, some, ◌==◌, find, if◌then◌else◌, arith}
use achflow.Prelude.Int.{pos, ◌+ℤ◌, int_laws}
use achflow.Schema.{
  Db, Payment, PaymentStatus, Reservation, ReservationStatus, LedgerEntry, LedgerEntryType, has_id,
  FundingAccount, ok, debit_posted_key, find_reservation, find_payment, find_account, find_entry,
  update_reservation, update_payments, update_payment, create_entry, create_event, for_payment,
  entry_key_discrete,
}
use achflow.Schema.Ids.{WellFormed, find_by_id, find-update_same}
use achflow.Events.{create_lifecycle_event}
use achflow.Ledger.{posted_balance, active_reserved, sum_entries, entry_impact}
use achflow.Ledger.Sums.{held, sum_active-update}
use achflow.Lifecycle.Settling.{settle_reservation}
use achflow.Lifecycle.Returning.{mark_returned, return_settlement, return_settled}
use achflow.Money.Settlements.{debit-balances}

held-returned :
    (a now : ℕ) (code : String) (r : Reservation) → held a (mark_returned code now r) ≡ pos 0
unfolding held
held-returned a now code r = ground arith

held-settled : (a : ℕ) (r : Reservation) → r.status ≡ ReservationStatus.settled → held a r ≡ pos 0
unfolding held
held-settled a r s = ground arith

settled-balances :
    (a id : ℕ) (code : String) (db db' : Db) (r : Reservation) (x : Option Reservation)
    → WellFormed db
    → find_reservation id db ≡ some r
    → r.status ≡ ReservationStatus.settled
    → return_settled id code r db ≡ ok (x, db')
    → (posted_balance a db'
        ≡ posted_balance a db +ℤ (if r.funding_account_id == a then r.amount else pos 0))
      × (active_reserved a db' ≡ active_reserved a db)
unfolding return_settled update_reservation update_payments create_entry create_event
    create_lifecycle_event posted_balance active_reserved sum_entries entry_impact
settled-balances a id code db db' r x w e s h = grind (
  int_laws,
  held-returned a db.clock code r,
  held-settled a r s,
  find_by_id Reservation.id (for_payment id) db.next_id db.reservations r w.reservations_below e,
  sum_active-update a db.next_id id (mark_returned code db.clock) db.reservations r
      w.reservations_below e,
)

run_settled :
    (id : ℕ) (code : String) (db db' : Db) (r : Reservation) (x : Option Reservation)
    → find_reservation id db ≡ some r
    → r.status ≡ ReservationStatus.settled
    → return_settlement id code db ≡ ok (x, db')
    → return_settled id code r db ≡ ok (x, db')
unfolding return_settlement
run_settled id code db db' r x e s h = ground arith

-- The return of a settled credit adds its amount to the posted balance of its account.
credit_return-balances :
    (a id : ℕ) (code : String) (db db' : Db) (r : Reservation) (x : Option Reservation)
    → WellFormed db
    → find_reservation id db ≡ some r
    → r.status ≡ ReservationStatus.settled
    → return_settlement id code db ≡ ok (x, db')
    → (posted_balance a db'
        ≡ posted_balance a db +ℤ (if r.funding_account_id == a then r.amount else pos 0))
      × (active_reserved a db' ≡ active_reserved a db)
credit_return-balances a id code db db' r x w e s h =
    settled-balances a id code db db' r x w e s (run_settled id code db db' r x e s h)

debit_return-balances :
    (a id : ℕ) (code : String) (db db' : Db) (p : Payment) (entry : LedgerEntry)
    (x : Option Reservation)
    → find_reservation id db ≡ none
    → find_payment id db ≡ some p
    → p.status ≡ PaymentStatus.settled
    → find_entry (debit_posted_key id) db ≡ some entry
    → return_settlement id code db ≡ ok (x, db')
    → (posted_balance a db'
        ≡ posted_balance a db +ℤ (if entry.funding_account_id == a then entry.amount else pos 0))
      × (active_reserved a db' ≡ active_reserved a db)
unfolding return_settlement update_payments create_entry create_event create_lifecycle_event
    posted_balance active_reserved sum_entries entry_impact
debit_return-balances a id code db db' p entry x e ep s ee h = grind int_laws

-- What the settlement of a debit leaves for its return.
settled_debit :
    (id : ℕ) (db db1 : Db) (p : Payment) (account : FundingAccount) (x : Option Reservation)
    → find_reservation id db ≡ none
    → find_payment id db ≡ some p
    → p.status ≡ PaymentStatus.submitted
    → find_account p.merchant_id p.currency db ≡ some account
    → settle_reservation id db ≡ ok (x, db1)
    → (find_reservation id db1 ≡ none)
      × (find_payment id db1
          ≡ some (record p { status = PaymentStatus.settled; updated_at = db.clock }))
      × ((e : LedgerEntry) × (find_entry (debit_posted_key id) db1 ≡ some e)
          × (e.funding_account_id ≡ account.id)
          × (e.amount ≡ p.amount_cents))
unfolding settle_reservation update_payment create_entry create_event create_lifecycle_event find
    entry_key_discrete
settled_debit id db db1 p account x e ep s ea h = (
  ground arith,
  ground (
    arith,
    find-update_same (has_id id)
        (λ y. record y { status = PaymentStatus.settled; updated_at = db.clock }) db.payments p
        (λ y. refl) ep,
  ),
  (posted, ground arith, refl, refl),
)
  where
    posted : LedgerEntry
    posted = record {
      id = db.next_id;
      entry_key = debit_posted_key id;
      funding_account_id = account.id;
      payment_id = some id;
      entry_type = LedgerEntryType.debit_posted;
      amount = p.amount_cents;
      created_at = db.clock;
    }

-- A debit that is settled and then returned leaves every balance as it was.
pub debit_round_trip :
    (a id : ℕ) (code : String) (db db1 db2 : Db) (p : Payment) (account : FundingAccount)
    (x y : Option Reservation)
    → find_reservation id db ≡ none
    → find_payment id db ≡ some p
    → p.status ≡ PaymentStatus.submitted
    → find_account p.merchant_id p.currency db ≡ some account
    → settle_reservation id db ≡ ok (x, db1)
    → return_settlement id code db1 ≡ ok (y, db2)
    → (posted_balance a db2 ≡ posted_balance a db) × (active_reserved a db2 ≡ active_reserved a db)
debit_round_trip a id code db db1 db2 p account x y e ep s ea h k =
    let (free, paid, (entry, ee, at, of)) = settled_debit id db db1 p account x e ep s ea h in
    let settled = debit-balances a id db db1 p account x e ep s ea h in
    let returned = debit_return-balances a id code db1 db2 _ entry y free paid refl ee k in
    grind (int_laws, settled, returned, at, of)
