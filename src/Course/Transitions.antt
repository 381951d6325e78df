-- ===== src/Course/Transitions.antt =====
-- A validation by the worker, on the machine.
use achflow.Prelude.{
  ℕ, ◌≡◌, refl, Bool, ◌&&◌, ◌⊎◌, inl, inr, none, List, ◌∷◌, update, Option-cases, Bool-cases, arith,
  same,
}
use achflow.Prelude.Int.{ℤ, ltb_ℤ, ◌+ℤ◌}
use achflow.Schema.{
  Db, Payment, Merchant, PaymentStatus, status_discrete, Reservation, ReservationStatus, ok,
  find_payment, has_id, update_payments, update_events, create_reservation, create_entry,
  create_event, save_usage, find_account, find_usage,
}
use achflow.Events.{create_lifecycle_event}
use achflow.Lifecycle.Transition.{
  PaymentForValidation, ValidationResult, transition_data, is_validated, transition,
  complete_outbox,
}
use achflow.Lifecycle.Reserving.{
  reserve_daily_usage, reserve_and_transition, check_limits, reserve_funds, utilized,
  utc_business_date, is_credit,
}
use achflow.Course.Machine.{is_edge, Move, Coherent, CoherentRows}
use achflow.Course.Tables.{update-MovedRows, settled_stays, active_added}
use achflow.Course.Settling.{Course, Course-same}

abbrev pub is_received : Payment → Bool
is_received p = same (status_discrete p.status PaymentStatus.received)

abbrev pub transitioned : ValidationResult → Db → Payment → Payment
transitioned result db p = record (transition_data result db.clock p) { updated_at = db.clock }

abbrev pub IsOutcome : PaymentStatus → Type 0
IsOutcome s = (s ≡ PaymentStatus.validated) ⊎ (s ≡ PaymentStatus.validation_failed)

pub received_moves : (s : PaymentStatus) → IsOutcome s → Move PaymentStatus.received s
unfolding is_edge
received_moves s o = ground arith

-- The change of a payment that was received.
pub transition-Course :
    (id : ℕ) (result : ValidationResult) (db db' : Db)
    → Coherent db
    → IsOutcome result.status
    → db'.payments ≡ update (λ p. has_id id p && is_received p) (transitioned result db) db.payments
    → db'.reservations ≡ db.reservations
    → Course db db'
transition-Course id result db db' co o ps rs =
    let c : Payment → Bool = λ p. has_id id p && is_received p in
    let g = transitioned result db in
    rw (ps, rs)
      (
        update-MovedRows c g db.payments (λ y. refl)
            (λ j y _ t.
              let s : y.status ≡ PaymentStatus.received = ground (arith, t) in
              rw s (received_moves result.status o)),
        settled_stays c g db.payments db.reservations (λ y. refl)
            (λ y s t. absurd (ground (arith, s, t))) co,
      )

-- The reservations stay, or one is added that is active.
abbrev pub Held : Db → Db → Type 0
Held db db' =
    (db'.reservations ≡ db.reservations)
    ⊎ ((r : Reservation) × (r.status ≡ ReservationStatus.active)
        × (db'.reservations ≡ r ∷ db.reservations))

pub Held-CoherentRows :
    (ps : List Payment) (db db' : Db)
    → Held db db'
    → CoherentRows ps db.reservations
    → CoherentRows ps db'.reservations
Held-CoherentRows ps db db' (inl e) co = rw e co
Held-CoherentRows ps db db' (inr (r, a, e)) co = rw e (active_added ps db.reservations r a co)

abbrev pub new_reservation : (id payment account : ℕ) → ℤ → Reservation
new_reservation id payment account amount = record {
  id = id;
  payment_id = payment;
  funding_account_id = account;
  amount = amount;
  status = ReservationStatus.active;
  released_at = none;
  settled_at = none;
  returned_at = none;
  return_code = none;
}

funds_hold :
    (p : Payment) (db db1 : Db) (result : ValidationResult)
    → reserve_funds p db ≡ ok (result, db1)
    → Held db db1
unfolding reserve_funds create_reservation create_entry
funds_hold p db db1 result h = elim (Option-cases (find_account p.merchant_id p.currency db)) [
  | inl e ↦ inl (ground arith)
  | inr (a, e) ↦ elim (Bool-cases (is_validated result.status)) [
    | inl v ↦ inr (new_reservation db.next_id p.id a.id p.amount_cents, refl, ground arith)
    | inr v ↦ inl (ground arith)
  ]
]

limits_hold :
    (p : Payment) (m : Merchant) (used : ℤ) (db db1 : Db) (result : ValidationResult)
    → check_limits p m used db ≡ ok (result, db1)
    → Held db db1
unfolding check_limits
limits_hold p m used db db1 result h =
    elim (Bool-cases (ltb_ℤ m.daily_amount_limit (used +ℤ p.amount_cents))) [
      | inl over ↦ inl (ground arith)
      | inr within ↦ elim (Bool-cases (is_credit p)) [
        | inl credit ↦ funds_hold p db db1 result (ground arith)
        | inr debit ↦ inl (ground arith)
      ]
    ]

limits_rows :
    (p : Payment) (m : Merchant) (used : ℤ) (db db1 : Db) (result : ValidationResult)
    → check_limits p m used db ≡ ok (result, db1)
    → (db1.payments ≡ db.payments) × (db1.clock ≡ db.clock) × IsOutcome result.status
unfolding check_limits reserve_funds create_reservation create_entry
limits_rows p m used db db1 result h = (ground arith, ground arith, ground arith)

-- What follows the limits.
after_limits :
    (p : Payment) (m : Merchant) (event : ℕ) (db db' : Db) (result : ValidationResult)
    → reserve_and_transition p m event db ≡ ok (result, db')
    → (db1 : Db) × (check_limits p m
          (utilized (find_usage p.merchant_id (utc_business_date p.created_at) db))
          db
        ≡ ok (result, db1))
      × (db'.payments
          ≡ update (λ x. has_id p.id x && is_received x) (transitioned result db1) db1.payments)
      × (db'.reservations ≡ db1.reservations)
unfolding reserve_and_transition transition complete_outbox update_payments update_events save_usage
    create_event create_lifecycle_event
after_limits p m event db db' result h = ground arith

reserve-Course :
    (p : Payment) (m : Merchant) (event : ℕ) (db db' : Db) (result : ValidationResult)
    → Coherent db
    → reserve_and_transition p m event db ≡ ok (result, db')
    → Course db db'
reserve-Course p m event db db' result co h =
    let (db1, limits, ps, rs) = after_limits p m event db db' result h in
    let (same_payments, same_clock, o) = limits_rows p m _ db db1 result limits in
    let (moved, kept) =
      transition-Course p.id result db
        (record db {
          payments =
              update (λ x. has_id p.id x && is_received x) (transitioned result db) db.payments;
        })
        co o refl refl in
    let payments : db'.payments
        ≡ update (λ x. has_id p.id x && is_received x) (transitioned result db) db.payments =
      ground (arith, ps, same_payments, same_clock) in
    rw (payments, rs)
      (moved, Held-CoherentRows _ db db1 (limits_hold p m _ db db1 result limits) kept)

pub daily-Course :
    (pv : PaymentForValidation) (event : ℕ) (db db' : Db) (result : ValidationResult)
    → Coherent db
    → reserve_daily_usage pv event db ≡ ok (result, db')
    → Course db db'
unfolding reserve_daily_usage complete_outbox update_events
daily-Course pv event db db' result co h = elim (Option-cases (find_payment pv.payment.id db)) [
  | inl e ↦ absurd (ground arith)
  | inr (p, e) ↦ elim (Bool-cases (is_received p)) [
    | inr other ↦ Course-same db db' co (ground arith) (ground arith)
    | inl own ↦ elim (Option-cases pv.merchant) [
      | inl none_found ↦ absurd (ground arith)
      | inr (m, em) ↦ reserve-Course pv.payment m event db db' result co (ground arith)
    ]
  ]
]
