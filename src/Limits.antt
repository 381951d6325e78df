-- ===== src/Limits.antt =====
-- The daily limit of a merchant, as the worker's validation keeps it.
use achflow.Prelude.{
  ℕ, Bool, ◌≡◌, refl, true, none, some, List, ◌==◌, ◌&&◌, find, Option-cases, inl, inr, arith,
}
use achflow.Prelude.Int.{ℤ, ◌+ℤ◌, ◌≤ℤ◌}
use achflow.Schema.{
  Db, Payment, Merchant, MerchantDailyUsage, PaymentStatus, ok, find_usage, find_payment,
  save_usage, usage_rows, create_reservation, create_entry, update_payments, update_events,
  create_event,
}
use achflow.Schema.Ids.{WellFormed, Below, find-update_own}
use achflow.Events.{create_lifecycle_event}
use achflow.Lifecycle.Transition.{
  PaymentForValidation, ValidationResult, is_validated, transition, complete_outbox,
}
use achflow.Lifecycle.Reserving.{
  utc_business_date, utilized, reserve_funds, check_limits, reserve_and_transition,
  reserve_daily_usage,
}

abbrev of_day : ℕ → ℕ → MerchantDailyUsage → Bool
of_day m d u = u.merchant_id == m && u.business_date == d

saved_row :
    (m d i n : ℕ) (amount : ℤ) (rows : List MerchantDailyUsage) (u : MerchantDailyUsage)
    → Below MerchantDailyUsage.id n rows
    → find (of_day m d) rows ≡ some u
    → utilized (find (of_day m d) (usage_rows (some u) m d amount i rows)) ≡ amount
unfolding usage_rows
saved_row m d i n amount rows u w e = ground (
  arith,
  find-update_own MerchantDailyUsage.id (of_day m d) n (λ v. record v { utilized_amount = amount })
      rows u w (λ x. refl) e,
)

saved_new :
    (m d i : ℕ) (amount : ℤ) (rows : List MerchantDailyUsage)
    → utilized (find (of_day m d) (usage_rows none m d amount i rows)) ≡ amount
unfolding usage_rows find
saved_new m d i amount rows = ground arith

-- The row that was saved is the one that the next query finds.
pub saved :
    (m d i n : ℕ) (amount : ℤ) (rows : List MerchantDailyUsage)
    → Below MerchantDailyUsage.id n rows
    → utilized (find (of_day m d) (usage_rows (find (of_day m d) rows) m d amount i rows)) ≡ amount
saved m d i n amount rows w = elim (Option-cases (find (of_day m d) rows)) [
  | inl e ↦ rw e (saved_new m d i amount rows)
  | inr (u, e) ↦ rw e (saved_row m d i n amount rows u w e)
]

limits-usage :
    (p : Payment) (m : Merchant) (used : ℤ) (db db' : Db) (result : ValidationResult)
    → check_limits p m used db ≡ ok (result, db')
    → is_validated result.status ≡ true
    → (db'.daily_usage ≡ db.daily_usage) × (used +ℤ p.amount_cents ≤ℤ m.daily_amount_limit)
unfolding check_limits reserve_funds create_reservation create_entry
limits-usage p m used db db' result h v = ground arith

-- What follows the limits writes the new usage.
counted :
    (p : Payment) (m : Merchant) (event : ℕ) (db db' : Db) (result : ValidationResult)
    → reserve_and_transition p m event db ≡ ok (result, db')
    → is_validated result.status ≡ true
    → let date = utc_business_date p.created_at in
      let usage = find_usage p.merchant_id date db in
      (db1 : Db) × (check_limits p m (utilized usage) db ≡ ok (result, db1))
      × (db'.daily_usage
          ≡ usage_rows usage p.merchant_id date
              (utilized usage +ℤ p.amount_cents)
              db1.next_id
              db1.daily_usage)
unfolding reserve_and_transition save_usage transition complete_outbox update_payments update_events
    create_event create_lifecycle_event
counted p m event db db' result h v = ground arith

-- When the worker validates a received payment, the day's usage of its merchant grows by the
-- amount, and stays within the merchant's daily limit.
pub daily_limit :
    (event : ℕ) (pv : PaymentForValidation) (m : Merchant) (current : Payment) (db db' : Db)
    (result : ValidationResult)
    → WellFormed db
    → pv.merchant ≡ some m
    → find_payment pv.payment.id db ≡ some current
    → current.status ≡ PaymentStatus.received
    → reserve_daily_usage pv event db ≡ ok (result, db')
    → is_validated result.status ≡ true
    → let date = utc_business_date pv.payment.created_at in
      let used = utilized (find_usage pv.payment.merchant_id date db') in
      (used ≡ utilized (find_usage pv.payment.merchant_id date db) +ℤ pv.payment.amount_cents)
      × (used ≤ℤ m.daily_amount_limit)
unfolding reserve_daily_usage
daily_limit event pv m current db db' result w em ep s h v =
    let p = pv.payment in
    let date = utc_business_date p.created_at in
    let run : reserve_and_transition p m event db ≡ ok (result, db') = ground arith in
    let (db1, limits, rows) = counted p m event db db' result run v in
    let (kept, within) = limits-usage p m _ db db1 result limits v in
    let grown =
      saved p.merchant_id date db1.next_id db.next_id
        (utilized (find_usage p.merchant_id date db) +ℤ p.amount_cents) db.daily_usage
        w.usage_below in
    rw (rows, kept) (grown, rw grown within)
