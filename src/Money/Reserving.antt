-- ===== src/Money/Reserving.antt =====
-- The balances after a reservation by the worker's validation.
use achflow.Prelude.{ℕ, ◌≡◌, true, false, some, ◌==◌, Option-cases, inl, inr, if◌then◌else◌, arith}
use achflow.Prelude.Int.{ℤ, pos, ◌+ℤ◌, ◌≤ℤ◌, int_laws}
use achflow.Schema.{
  Db, Payment, Merchant, PaymentStatus, FundingAccount, ok, find_payment, find_account, find_usage,
  update_payments, save_usage, update_events, create_entry, create_event, create_reservation,
}
use achflow.Events.{create_lifecycle_event}
use achflow.Ledger.{
  posted_balance, active_reserved, available_balance, sum_entries, sum_active, entry_impact,
}
use achflow.Lifecycle.Transition.{
  PaymentForValidation, ValidationResult, is_validated, transition, complete_outbox,
}
use achflow.Lifecycle.Reserving.{
  utc_business_date, reserve_funds, reserve_and_transition, check_limits, is_credit, utilized,
  reserve_daily_usage,
}

reserve_funds-balances :
    (a : ℕ) (p : Payment) (db db' : Db) (account : FundingAccount) (result : ValidationResult)
    → find_account p.merchant_id p.currency db ≡ some account
    → reserve_funds p db ≡ ok (result, db')
    → is_validated result.status ≡ true
    → (posted_balance a db' ≡ posted_balance a db)
      × (active_reserved a db'
          ≡ active_reserved a db +ℤ (if account.id == a then p.amount_cents else pos 0))
      × (pos 0 ≤ℤ available_balance account.id db')
unfolding reserve_funds create_reservation create_entry posted_balance active_reserved
    available_balance sum_entries sum_active entry_impact
reserve_funds-balances a p db db' account result ea h v = grind int_laws

check_limits-balances :
    (a : ℕ) (p : Payment) (m : Merchant) (used : ℤ) (db db' : Db) (account : FundingAccount)
    (result : ValidationResult)
    → find_account p.merchant_id p.currency db ≡ some account
    → is_credit p ≡ true
    → check_limits p m used db ≡ ok (result, db')
    → is_validated result.status ≡ true
    → (posted_balance a db' ≡ posted_balance a db)
      × (active_reserved a db'
          ≡ active_reserved a db +ℤ (if account.id == a then p.amount_cents else pos 0))
      × (pos 0 ≤ℤ available_balance account.id db')
unfolding check_limits
check_limits-balances a p m used db db' account result ea c h v =
    ground (arith, reserve_funds-balances a p db db' account result ea)

-- What follows the limits leaves the ledger and the reservations as they are.
after_limits :
    (p : Payment) (m : Merchant) (event : ℕ) (db db' : Db) (result : ValidationResult)
    → reserve_and_transition p m event db ≡ ok (result, db')
    → (db1 : Db) × (check_limits p m
          (utilized (find_usage p.merchant_id (utc_business_date p.created_at) db))
          db
        ≡ ok (result, db1))
      × (db'.ledger_entries ≡ db1.ledger_entries)
      × (db'.reservations ≡ db1.reservations)
unfolding reserve_and_transition transition complete_outbox update_payments update_events save_usage
    create_event create_lifecycle_event
after_limits p m event db db' result h = ground arith

-- A credit that the worker validates is held in full on the merchant's account, on no other, and
-- only where the balance that is left is not negative; no posted balance changes.
pub reserve-balances :
    (a event : ℕ) (pv : PaymentForValidation) (m : Merchant) (current : Payment) (db db' : Db)
    (account : FundingAccount) (result : ValidationResult)
    → pv.merchant ≡ some m
    → find_payment pv.payment.id db ≡ some current
    → current.status ≡ PaymentStatus.received
    → find_account pv.payment.merchant_id pv.payment.currency db ≡ some account
    → is_credit pv.payment ≡ true
    → reserve_daily_usage pv event db ≡ ok (result, db')
    → is_validated result.status ≡ true
    → (posted_balance a db' ≡ posted_balance a db)
      × (active_reserved a db'
          ≡ active_reserved a db +ℤ (if account.id == a then pv.payment.amount_cents else pos 0))
      × (pos 0 ≤ℤ available_balance account.id db')
unfolding reserve_daily_usage posted_balance active_reserved available_balance
reserve-balances a event pv m current db db' account result em ep s ea c h v =
    let run : reserve_and_transition pv.payment m event db ≡ ok (result, db') = ground arith in
    let (db1, limits, entries, holds) = after_limits pv.payment m event db db' result run in
    let money = check_limits-balances a pv.payment m _ db db1 account result ea c limits v in
    rw (entries, holds) money

limits_refused :
    (p : Payment) (m : Merchant) (used : ℤ) (db db' : Db) (result : ValidationResult)
    → check_limits p m used db ≡ ok (result, db')
    → is_validated result.status ≡ false
    → db' ≡ db
unfolding check_limits reserve_funds create_reservation create_entry
limits_refused p m used db db' result h v = ground arith

usage_after_refusal :
    (p : Payment) (m : Merchant) (event : ℕ) (db db1 db' : Db) (result : ValidationResult)
    → check_limits p m (utilized (find_usage p.merchant_id (utc_business_date p.created_at) db)) db
      ≡ ok (result, db1)
    → is_validated result.status ≡ false
    → reserve_and_transition p m event db ≡ ok (result, db')
    → db'.daily_usage ≡ db1.daily_usage
unfolding reserve_and_transition transition complete_outbox update_payments update_events save_usage
    create_event create_lifecycle_event
usage_after_refusal p m event db db1 db' result e v h = ground arith

-- What money rests on: the entries, the reservations and the usage.
abbrev pub SameMoney : Db → Db → Type 0
SameMoney db db' =
    (db'.ledger_entries ≡ db.ledger_entries)
    × (db'.reservations ≡ db.reservations)
    × (db'.daily_usage ≡ db.daily_usage)

transition_refused :
    (p : Payment) (m : Merchant) (event : ℕ) (db db' : Db) (result : ValidationResult)
    → reserve_and_transition p m event db ≡ ok (result, db')
    → is_validated result.status ≡ false
    → SameMoney db db'
transition_refused p m event db db' result h v =
    let (db1, limits, entries, holds) = after_limits p m event db db' result h in
    let same_db = limits_refused p m _ db db1 result limits v in
    let usage = usage_after_refusal p m event db db1 db' result limits v h in
    ground (arith, same_db, entries, holds, usage)

-- A payment that the worker refuses to validate changes no ledger entry, no reservation and no
-- daily usage.
refused-SameMoney :
    (event : ℕ) (pv : PaymentForValidation) (db db' : Db) (result : ValidationResult)
    → reserve_daily_usage pv event db ≡ ok (result, db')
    → is_validated result.status ≡ false
    → SameMoney db db'
unfolding reserve_daily_usage complete_outbox update_events
refused-SameMoney event pv db db' result h v = elim (Option-cases pv.merchant) [
  | inl e ↦ ground arith
  | inr (m, e) ↦ ground (arith, transition_refused pv.payment m event db db' result)
]
