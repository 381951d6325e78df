-- ===== src/Merchants/Balances.antt =====
-- The balances that an administrator reads, `detail` of the API's admin/admin-merchants.service.ts,
-- against those by which payments are reserved.
use achflow.Prelude.{ℕ, ◌≡◌, refl, List, [], ◌∷◌, ◌++◌, select, map, ◌==◌, All}
use achflow.Prelude.Int.{ℤ, pos, ◌+ℤ◌, ◌-ℤ◌, int_laws}
use achflow.Schema.{
  Db, LedgerEntry, LedgerEntryType, FundingAccount, Reservation, entry_type_discrete,
}
use achflow.Ledger.{
  entry_impact, sum_entries, sum_active, posted_balance, active_reserved, available_balance,
}
use achflow.Merchants.Details.{
  ledger_balance_impact, entries_of, reservations_of, sum_impacts, is_reserved, sum_reserved,
  flat_map, AccountBalance, account_balance, accounts_of_merchant, funding,
}

impact_agrees :
    (t : LedgerEntryType) (e : LedgerEntry)
    → e.entry_type ≡ t
    → ledger_balance_impact e ≡ entry_impact e.entry_type e.amount
unfolding ledger_balance_impact entry_impact entry_type_discrete
impact_agrees LedgerEntryType.initial_credit e h = rw h refl
impact_agrees LedgerEntryType.credit_posted e h = rw h refl
impact_agrees LedgerEntryType.return e h = rw h refl
impact_agrees LedgerEntryType.reversal e h = rw h refl
impact_agrees LedgerEntryType.adjustment e h = rw h refl
impact_agrees LedgerEntryType.debit_posted e h = rw h refl
impact_agrees LedgerEntryType.reservation e h = rw h refl
impact_agrees LedgerEntryType.reservation_release e h = rw h refl
impact_agrees LedgerEntryType.settlement e h = rw h refl

module _ (account : ℕ) where
  posted_agrees :
      (es : List LedgerEntry)
      → sum_impacts (select (λ e. e.funding_account_id == account) es) ≡ sum_entries account es
  unfolding sum_impacts sum_entries select
  posted_agrees [] = refl
  posted_agrees (e ∷ es) = grind (int_laws, impact_agrees e.entry_type e refl, posted_agrees es)

  reserved_agrees :
      (rs : List Reservation)
      → sum_reserved (select is_reserved (select (λ r. r.funding_account_id == account) rs))
        ≡ sum_active account rs
  unfolding sum_reserved sum_active select
  reserved_agrees [] = refl
  reserved_agrees (r ∷ rs) = grind (int_laws, reserved_agrees rs)

sum_impacts-append :
    (xs ys : List LedgerEntry) → sum_impacts (xs ++ ys) ≡ sum_impacts xs +ℤ sum_impacts ys
unfolding sum_impacts
sum_impacts-append [] ys = grind int_laws
sum_impacts-append (x ∷ xs) ys = grind (int_laws, sum_impacts-append xs ys)

sum_reserved-append :
    (xs ys : List Reservation)
    → sum_reserved (select is_reserved (xs ++ ys))
      ≡ sum_reserved (select is_reserved xs) +ℤ sum_reserved (select is_reserved ys)
unfolding sum_reserved select
sum_reserved-append [] ys = grind int_laws
sum_reserved-append (x ∷ xs) ys = grind (int_laws, sum_reserved-append xs ys)

-- The three sums of a list of accounts.
abbrev pub total_of : (AccountBalance → ℤ) → List AccountBalance → ℤ
total_of f [] = pos 0
total_of f (a ∷ accounts) = f a +ℤ total_of f accounts

module _ (db : Db) where
  posted_total :
      (accounts : List FundingAccount)
      → sum_impacts (flat_map (entries_of db) accounts)
        ≡ total_of AccountBalance.posted_balance_cents (map (account_balance db) accounts)
  unfolding flat_map account_balance sum_impacts
  posted_total [] = refl
  posted_total (a ∷ accounts) = grind (
    int_laws,
    sum_impacts-append (entries_of db a) (flat_map (entries_of db) accounts),
    posted_total accounts,
  )

  reserved_total :
      (accounts : List FundingAccount)
      → sum_reserved (select is_reserved (flat_map (reservations_of db) accounts))
        ≡ total_of AccountBalance.reserved_balance_cents (map (account_balance db) accounts)
  unfolding flat_map account_balance sum_reserved select
  reserved_total [] = refl
  reserved_total (a ∷ accounts) = grind (
    int_laws,
    sum_reserved-append (reservations_of db a) (flat_map (reservations_of db) accounts),
    reserved_total accounts,
  )

  available_total :
      (accounts : List FundingAccount)
      → total_of AccountBalance.available_balance_cents (map (account_balance db) accounts)
        ≡ total_of AccountBalance.posted_balance_cents (map (account_balance db) accounts)
          -ℤ total_of AccountBalance.reserved_balance_cents (map (account_balance db) accounts)
  unfolding account_balance
  available_total [] = grind int_laws
  available_total (a ∷ accounts) = grind (int_laws, available_total accounts)

  -- The three balances of an account, as the code that reserves money takes them.
  abbrev pub IsBalance : AccountBalance → Type 0
  IsBalance b =
      (b.posted_balance_cents ≡ posted_balance b.id db)
      × (b.reserved_balance_cents ≡ active_reserved b.id db)
      × (b.available_balance_cents ≡ available_balance b.id db)

  each-IsBalance :
      (accounts : List FundingAccount) → All IsBalance (map (account_balance db) accounts)
  unfolding account_balance posted_balance active_reserved available_balance
  each-IsBalance [] = tt
  each-IsBalance (a ∷ accounts) =
      let p = posted_agrees a.id db.ledger_entries in
      let r = reserved_agrees a.id db.reservations in
      ((p, r, rw (p, r) refl), each-IsBalance accounts)

-- The balances that an administrator reads of each account of a merchant are those by which the
-- worker reserves and settles, and the merchant's balances are their sums.
pub funding_balances :
    (m : ℕ) (db : Db)
    → let f = funding m db in
      All (IsBalance db) f.accounts
      × (f.posted_balance_cents ≡ total_of AccountBalance.posted_balance_cents f.accounts)
      × (f.reserved_balance_cents ≡ total_of AccountBalance.reserved_balance_cents f.accounts)
      × (f.available_balance_cents ≡ total_of AccountBalance.available_balance_cents f.accounts)
unfolding funding
funding_balances m db =
    let accounts = accounts_of_merchant m db in
    let p = posted_total db accounts in
    let r = reserved_total db accounts in
    let a = available_total db accounts in (each-IsBalance db accounts, p, r, rw (p, r, a) refl)
