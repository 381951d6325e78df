-- ===== src/Course/Returning.antt =====
-- A return, and the release of a reservation, on the machine.
use achflow.Prelude.{
  ℕ, String, ◌≡◌, refl, Bool, ◌&&◌, ◌⊎◌, inl, inr, some, none, Option, update, ap, Option-cases,
  Bool-cases, arith, same, ◌==◌, ◌∙◌,
}
use achflow.Schema.{
  Db, Payment, PaymentStatus, status_discrete, Reservation, ReservationStatus,
  reservation_status_discrete, text, ok, find_payment, find_reservation, has_id, update_payments,
  update_reservation, create_entry, create_event,
}
use achflow.Schema.Ids.{WellFormed}
use achflow.Events.{create_lifecycle_event}
use achflow.Lifecycle.Releasing.{mark_released, release_reservation}
use achflow.Lifecycle.Returning.{
  is_returnable, mark_returned, return_settled, return_held, return_debit_payment,
  return_settlement,
}
use achflow.Course.Machine.{is_edge, Move, Coherent, CoherentRows}
use achflow.Course.Tables.{
  same_row, update-MovedRows, unsettled_changes, changed_own, changed-CoherentRows,
}
use achflow.Course.Settling.{Course, Course-same}

abbrev returned_payment : Db → Payment → Payment
returned_payment db p = record p { status = PaymentStatus.returned; updated_at = db.clock }

abbrev returned_debit : String → Db → Payment → Payment
returned_debit code db p = record p {
  status = PaymentStatus.returned;
  failure_code = some code;
  failure_reason = some (text "ACH debit return");
  updated_at = db.clock;
}

abbrev is_settled : Payment → Bool
is_settled p = same (status_discrete p.status PaymentStatus.settled)

settled_moves :
    (p : Payment) → p.status ≡ PaymentStatus.settled → Move p.status PaymentStatus.returned
unfolding is_edge
settled_moves p s = rw s (inr refl)

credit_rows :
    (id : ℕ) (code : String) (r : Reservation) (x : Option Reservation) (db db' : Db)
    → return_settled id code r db ≡ ok (x, db')
    → (db'.payments
        ≡ update (λ p. has_id id p && is_returnable p.status) (returned_payment db) db.payments)
      × (db'.reservations
          ≡ update (λ y. y.id == r.id) (mark_returned code db.clock) db.reservations)
unfolding return_settled update_reservation update_payments create_entry create_event
    create_lifecycle_event
credit_rows id code r x db db' h = ground arith

credit-Course :
    (id : ℕ) (code : String) (r : Reservation) (x : Option Reservation) (db db' : Db)
    → WellFormed db
    → Coherent db
    → find_reservation id db ≡ some r
    → r.status ≡ ReservationStatus.settled
    → return_settled id code r db ≡ ok (x, db')
    → Course db db'
credit-Course id code r x db db' w co e s h =
    let (ps, rs) = credit_rows id code r x db db' h in
    let c : Payment → Bool = λ p. has_id id p && is_returnable p.status in
    let g = returned_payment db in
    let f = mark_returned code db.clock in
    let (p, found, p_settled) = co id r e s in
    let own =
      changed_own db.payments db.reservations db.next_id id f r w.reservations_below (λ y. refl)
        e in
    let kept : CoherentRows db.payments (update (λ y. y.id == r.id) f db.reservations) =
      changed-CoherentRows db.payments db.reservations db.next_id id f r w.reservations_below
        (λ y. refl) e (λ t. absurd (ground (arith, t))) co in
    rw (ps, rs)
      (
        update-MovedRows c g db.payments (λ y. refl)
            (λ j y at t. settled_moves y (
              ap Payment.status (same_row db.payments id j p y found at (ground (arith, t)))
              ∙ p_settled)),
        unsettled_changes c g db.payments id (update (λ y. y.id == r.id) f db.reservations)
            (λ y. refl) (λ y t. ground (arith, t)) (λ y at t. ground (arith, own, at, t)) kept,
      )

debit_rows :
    (id : ℕ) (code : String) (x : Option Reservation) (db db' : Db)
    → return_debit_payment id code db ≡ ok (x, db')
    → (db' ≡ db)
      ⊎ ((db'.payments
            ≡ update (λ p. has_id id p && is_settled p) (returned_debit code db) db.payments)
          × (db'.reservations ≡ db.reservations))
unfolding return_debit_payment update_payments create_entry create_event create_lifecycle_event
debit_rows id code x db db' h = elim (Option-cases (find_payment id db)) [
  | inl e ↦ absurd (ground arith)
  | inr (p, e) ↦ elim (Bool-cases (is_settled p)) [
    | inl s ↦ inr (ground arith, ground arith)
    | inr s ↦ inl (ground arith)
  ]
]

debit-Course :
    (id : ℕ) (code : String) (x : Option Reservation) (db db' : Db)
    → Coherent db
    → find_reservation id db ≡ none
    → return_debit_payment id code db ≡ ok (x, db')
    → Course db db'
debit-Course id code x db db' co none_found h = elim (debit_rows id code x db db' h) [
  | inl e ↦ Course-same db db' co (ap Db.payments e) (ap Db.reservations e)
  | inr (ps, rs) ↦
      let c : Payment → Bool = λ p. has_id id p && is_settled p in
      let g = returned_debit code db in
      rw (ps, rs)
        (
          update-MovedRows c g db.payments (λ y. refl)
              (λ j y _ t. settled_moves y (ground (arith, t))),
          unsettled_changes c g db.payments id db.reservations (λ y. refl)
              (λ y t. ground (arith, t)) (λ y at t. ground (arith, none_found, at)) co,
        )
]

pub return-Course :
    (id : ℕ) (code : String) (x : Option Reservation) (db db' : Db)
    → WellFormed db
    → Coherent db
    → return_settlement id code db ≡ ok (x, db')
    → Course db db'
unfolding return_settlement return_held
return-Course id code x db db' w co h = elim (Option-cases (find_reservation id db)) [
  | inl e ↦ debit-Course id code x db db' co e (ground arith)
  | inr (r, e) ↦ elim (reservation_status_discrete r.status ReservationStatus.returned) [
    | yes s ↦
        let e' : db' ≡ db = ground arith in
        Course-same db db' co (ap Db.payments e') (ap Db.reservations e')
    | no s ↦ elim (reservation_status_discrete r.status ReservationStatus.settled) [
      | yes t ↦ credit-Course id code r x db db' w co e t (ground arith)
      | no t ↦ absurd (ground arith)
    ]
  ]
]

released_rows :
    (id : ℕ) (r x : Reservation) (db db' : Db)
    → find_reservation id db ≡ some r
    → release_reservation id db ≡ ok (x, db')
    → (db'.payments ≡ db.payments)
      × ((db'.reservations ≡ db.reservations)
          ⊎ (db'.reservations
              ≡ update (λ y. y.id == r.id) (mark_released db.clock) db.reservations))
unfolding release_reservation update_reservation create_entry
released_rows id r x db db' e h =
    elim (reservation_status_discrete r.status ReservationStatus.released) [
      | yes s ↦ (ground arith, inl (ground arith))
      | no s ↦ (ground arith, inr (ground arith))
    ]

pub release-Course :
    (id : ℕ) (x : Reservation) (db db' : Db)
    → WellFormed db
    → Coherent db
    → release_reservation id db ≡ ok (x, db')
    → Course db db'
unfolding release_reservation
release-Course id x db db' w co h = elim (Option-cases (find_reservation id db)) [
  | inl e ↦ absurd (ground arith)
  | inr (r, e) ↦
      let (ps, rs) = released_rows id r x db db' e h in
      elim rs [
        | inl kept ↦ Course-same db db' co ps kept
        | inr changed ↦
            rw (ps, changed)
              (
                (λ j p at. (p, at, inl refl)),
                changed-CoherentRows db.payments db.reservations db.next_id id
                    (mark_released db.clock) r w.reservations_below (λ y. refl) e
                    (λ t. absurd (ground (arith, t))) co,
              )
      ]
]
