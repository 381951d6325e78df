-- ===== src/Course/Validating.antt =====
-- The validations as whole calls, by the worker and by the API, and the reservation by the API, on
-- the machine.
use achflow.Prelude.{
  ℕ, ◌≡◌, refl, sym, ◌&&◌, inl, inr, some, none, Option, update, subst, Option-cases, Bool-cases,
  arith,
}
use achflow.Schema.{
  Db, Payment, PaymentStatus, Reservation, Result, ok, err, Tx, transact, find_payment,
  find_merchant, find_reservation, has_id, update_payments, update_payment, create_reservation,
  create_entry, create_event, save_usage,
}
use achflow.Events.{create_lifecycle_event}
use achflow.Lifecycle.Transition.{
  PaymentForValidation, ValidationResult, is_validated, transition, transition_transaction,
  transition_from_received, find_for_validation,
}
use achflow.Lifecycle.Reserving.{reserve_daily_usage}
use achflow.Validation.{validate_payment, validate}
use achflow.Engine.Validating.{
  validate as api_validate, assess, commit_validated, fails_requirements,
}
use achflow.Engine.Reserving.{reserve}
use achflow.Course.Machine.{Coherent}
use achflow.Course.Tables.{same_row, update-MovedRows, unsettled_changes}
use achflow.Course.Settling.{Course, Course-same}
use achflow.Course.Transitions.{
  is_received, transitioned, IsOutcome, received_moves, transition-Course, daily-Course, Held,
  Held-CoherentRows,
}

at_end : (P : Db → Type 0) (d d' : Db) → d' ≡ d → P d → P d'
at_end P d d' e k = subst P (sym e) k

-- What holds of the store after a transaction, whether it commits or not.
pub transact_left :
    (P : Db → Type 0) {A : Type 0} (m : Tx A) (db : Db)
    → P db
    → ((a : A) (d : Db) → m db ≡ ok (a, d) → P d)
    → P (transact m db).1
unfolding transact
transact_left P {A} m db co k = go (m db) refl
  where
    go : (s : Result (A × Db)) → m db ≡ s → P (transact m db).1
    go (ok (a, d)) e = at_end P d (transact m db).1 (ground (arith, e)) (k a d e)
    go (err x) e = at_end P db (transact m db).1 (ground (arith, e)) co

refused_rows :
    (id : ℕ) (result : ValidationResult) (n : ℕ) (db db' : Db)
    → transition_transaction id result db ≡ ok (n, db')
    → (db'.payments
        ≡ update (λ p. has_id id p && is_received p) (transitioned result db) db.payments)
      × (db'.reservations ≡ db.reservations)
unfolding transition_transaction transition update_payments create_event create_lifecycle_event
refused_rows id result n db db' h = ground arith

-- The outcome of the basic validation.
basic-IsOutcome : (pv : PaymentForValidation) → IsOutcome (validate_payment pv).status
unfolding validate_payment
basic-IsOutcome pv = ground arith

-- The read that follows the transaction changes nothing.
refused_left :
    (id : ℕ) (result : ValidationResult) (db : Db)
    → (transact (transition_transaction id result) db).1 ≡ (transition_from_received id result db).1
unfolding transition_from_received transact
refused_left id result db = go (transition_transaction id result db) refl
  where
    go :
        (y : Result (ℕ × Db))
        → transition_transaction id result db ≡ y
        → (transact (transition_transaction id result) db).1
          ≡ (transition_from_received id result db).1
    go (ok (n, d)) e = ground (arith, e)
    go (err x) e = ground (arith, e)

refused_ends :
    (P : Db → Type 0) (id : ℕ) (result : ValidationResult) (db : Db)
    → P db
    → ((n : ℕ) (d : Db) → transition_transaction id result db ≡ ok (n, d) → P d)
    → P (transition_from_received id result db).1
refused_ends P id result db co k =
    subst P (refused_left id result db) (transact_left P (transition_transaction id result) db co k)

-- How a validation by the worker can end.
pub validate_ends :
    (P : Db → Type 0) (id event : ℕ) (db : Db)
    → P db
    → ((pv : PaymentForValidation) (result : ValidationResult) (d : Db)
        → reserve_daily_usage pv event db ≡ ok (result, d)
        → P d)
    → ((i : ℕ) (result : ValidationResult) (n : ℕ) (d : Db)
        → IsOutcome result.status
        → transition_transaction i result db ≡ ok (n, d)
        → P d)
    → P (validate id event db).1
unfolding validate find_for_validation
validate_ends P id event db co daily refused = elim (Option-cases (find_payment id db)) [
  | inl e ↦ at_end P db (validate id event db).1 (ground (arith, e)) co
  | inr (p, e) ↦
      let pv : PaymentForValidation = record {
        payment = p;
        merchant = find_merchant p.merchant_id db;
      } in
      let basic = validate_payment pv in
      elim (Bool-cases (is_validated basic.status)) [
        | inl v ↦
            at_end P (transact (reserve_daily_usage pv event) db).1 (validate id event db).1
              (ground (arith, e, v))
              (transact_left P (reserve_daily_usage pv event) db co (daily pv))
        | inr v ↦
            at_end P (transition_from_received p.id basic db).1 (validate id event db).1
              (ground (arith, e, v))
              (refused_ends P p.id basic db co
                (λ n d h. refused p.id basic n d (basic-IsOutcome pv) h))
      ]
]

pub validate-Course : (id event : ℕ) (db : Db) → Coherent db → Course db (validate id event db).1
validate-Course id event db co =
    validate_ends (Course db) id event db (Course-same db db co refl refl)
      (λ pv result d h. daily-Course pv event db d result co h)
      λ i result n d o h.
        let (ps, rs) = refused_rows i result n db d h in transition-Course i result db d co o ps rs

abbrev validated_payment : Db → Payment → Payment
validated_payment db x = record x {
  status = PaymentStatus.validated;
  validated_at = some db.clock;
  validation_code = none;
  validation_message = none;
  failure_code = none;
  failure_reason = none;
  updated_at = db.clock;
}

commit_rows :
    (id : ℕ) (v : Payment) (db db' : Db)
    → commit_validated id db ≡ ok (v, db')
    → (db'.payments ≡ update (has_id id) (validated_payment db) db.payments)
      × (db'.reservations ≡ db.reservations)
unfolding commit_validated update_payment create_event create_lifecycle_event
commit_rows id v db db' h = ground arith

commit-Course :
    (id : ℕ) (p v : Payment) (db db' : Db)
    → Coherent db
    → find_payment id db ≡ some p
    → p.status ≡ PaymentStatus.received
    → commit_validated id db ≡ ok (v, db')
    → Course db db'
commit-Course id p v db db' co e s h =
    let (ps, rs) = commit_rows id v db db' h in
    let g = validated_payment db in
    rw (ps, rs)
      (
        update-MovedRows (has_id id) g db.payments (λ y. refl)
            (λ j y at t.
              rw (same_row db.payments id j p y e at t, s)
                (received_moves PaymentStatus.validated (inl refl))),
        unsettled_changes (has_id id) g db.payments id db.reservations (λ y. refl)
            (λ y t. ground (arith, t))
            (λ r at t.
              let (q, found, q_settled) = co id r at t in ground (arith, found, e, q_settled, s))
            co,
      )

-- How a validation by the API can end.
pub api_validate_ends :
    (P : Db → Type 0) (id : ℕ) (db : Db)
    → P db
    → ((p v : Payment) (d : Db)
        → find_payment id db ≡ some p
        → p.status ≡ PaymentStatus.received
        → commit_validated id db ≡ ok (v, d)
        → P d)
    → P (api_validate id db).1
unfolding api_validate assess
api_validate_ends P id db co commits = elim (Option-cases (find_payment id db)) [
  | inl e ↦ at_end P db (api_validate id db).1 (ground (arith, e)) co
  | inr (p, e) ↦ elim (Option-cases (find_merchant p.merchant_id db)) [
    | inl none_found ↦ at_end P db (api_validate id db).1 (ground (arith, e, none_found)) co
    | inr (m, found) ↦ elim (Bool-cases (is_received p)) [
      | inr other ↦ at_end P db (api_validate id db).1 (ground (arith, e, found, other)) co
      | inl own ↦ elim (Bool-cases (fails_requirements p m)) [
        | inl fails ↦ at_end P db (api_validate id db).1 (ground (arith, e, found, own, fails)) co
        | inr fits ↦
            at_end P (transact (commit_validated id) db).1 (api_validate id db).1
              (ground (arith, e, found, own, fits))
              (transact_left P (commit_validated id) db co
                (λ v d h. commits p v d e (ground (arith, own)) h))
      ]
    ]
  ]
]

pub api_validate-Course : (id : ℕ) (db : Db) → Coherent db → Course db (api_validate id db).1
api_validate-Course id db co =
    api_validate_ends (Course db) id db (Course-same db db co refl refl)
      (λ p v d e s h. commit-Course id p v db d co e s h)

reserve_payments :
    (id : ℕ) (x : Option Reservation) (db db' : Db)
    → reserve id db ≡ ok (x, db')
    → db'.payments ≡ db.payments
unfolding reserve create_reservation create_entry save_usage create_event create_lifecycle_event
reserve_payments id x db db' h = ground arith

-- What is answered where there was a reservation is that one, and otherwise the one that is made.
reserve_holds :
    (id : ℕ) (x : Option Reservation) (db db' : Db) → reserve id db ≡ ok (x, db') → Held db db'
unfolding reserve create_reservation create_entry save_usage create_event create_lifecycle_event
reserve_holds id x db db' h = elim (Option-cases (find_reservation id db)) [
  | inr (r, e) ↦ inl (ground arith)
  | inl e ↦ elim (Option-cases x) [
    | inl no_hold ↦ inl (ground arith)
    | inr (r, held) ↦ inr (r, ground arith, ground arith)
  ]
]

-- The reservation by the API.
pub reserve-Course :
    (id : ℕ) (x : Option Reservation) (db db' : Db)
    → Coherent db
    → reserve id db ≡ ok (x, db')
    → Course db db'
reserve-Course id x db db' co h =
    let held = reserve_holds id x db db' h in
    rw (reserve_payments id x db db' h)
      ((λ j p e. (p, e, inl refl)), Held-CoherentRows db.payments db db' held co)
