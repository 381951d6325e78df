-- ===== src/Course/Settling.antt =====
-- A settlement, by the worker or by the API, on the machine.
use achflow.Prelude.{
  ℕ, ◌≡◌, refl, Bool, true, ◌&&◌, inl, inr, some, Option, update, count, Option-cases, Bool-cases,
  arith, same, ◌==◌, ap, ◌⊎◌,
}
use achflow.Schema.{
  Db, Payment, PaymentStatus, status_discrete, Reservation, ReservationStatus,
  reservation_status_discrete, ok, find_payment, find_reservation, has_id, update_payments,
  update_payment, update_reservation, create_entry, create_event,
}
use achflow.Schema.Ids.{WellFormed, guarded_missing, guarded_fails, find-holds}
use achflow.Events.{create_lifecycle_event}
use achflow.Lifecycle.Settling.{
  mark_settled, settle_active, settle_held, settle_debit_payment, settle_reservation,
}
use achflow.Course.Machine.{is_edge, Move, Coherent, CoherentRows, MovedRows}
use achflow.Course.Tables.{
  same_row, found_after, update-MovedRows, settled_stays, changed-CoherentRows,
}

abbrev is_submitted : Payment → Bool
is_submitted p = same (status_discrete p.status PaymentStatus.submitted)

abbrev settled_payment : Db → Payment → Payment
settled_payment db p = record p { status = PaymentStatus.settled; updated_at = db.clock }

-- What a step does to the payments, and to what the store must be like.
abbrev pub Course : Db → Db → Type 0
Course db db' = MovedRows db.payments db'.payments × Coherent db'

pub Course-same :
    (db db' : Db)
    → Coherent db
    → db'.payments ≡ db.payments
    → db'.reservations ≡ db.reservations
    → Course db db'
Course-same db db' co p r = rw (p, r) (λ j x e. (x, e, inl refl), co)

active_rows :
    (id : ℕ) (r : Reservation) (x : Option Reservation) (db db' : Db)
    → settle_active id r db ≡ ok (x, db')
    → (db'.payments ≡ update (λ p. has_id id p && is_submitted p) (settled_payment db) db.payments)
      × (db'.reservations ≡ update (λ y. y.id == r.id) (mark_settled db.clock) db.reservations)
      × (count (λ p. has_id id p && is_submitted p) db.payments ≡ 1)
unfolding settle_active update_reservation update_payments create_entry create_event
    create_lifecycle_event
active_rows id r x db db' h = ground arith

-- One payment was settled, so it is there.
settled_one :
    (id : ℕ) (db : Db)
    → WellFormed db
    → count (λ p. has_id id p && is_submitted p) db.payments ≡ 1
    → (p : Payment) × (find_payment id db ≡ some p) × (is_submitted p ≡ true)
settled_one id db w one = elim (Option-cases (find_payment id db)) [
  | inl e ↦ absurd (
      ground
        (arith, guarded_missing Payment.id id is_submitted (settled_payment db) db.payments e, one))
  | inr (p, e) ↦ elim (Bool-cases (is_submitted p)) [
    | inl s ↦ (p, e, s)
    | inr s ↦ absurd (
        ground (
          arith,
          guarded_fails Payment.id id db.next_id is_submitted (settled_payment db) db.payments p
              w.payments_below e s,
          one,
        ))
  ]
]

submitted_moves : (p : Payment) → is_submitted p ≡ true → Move p.status PaymentStatus.settled
unfolding is_edge
submitted_moves p s = ground arith

active-Course :
    (id : ℕ) (r : Reservation) (x : Option Reservation) (db db' : Db)
    → WellFormed db
    → Coherent db
    → find_reservation id db ≡ some r
    → settle_active id r db ≡ ok (x, db')
    → Course db db'
active-Course id r x db db' w co e h =
    let (ps, rs, one) = active_rows id r x db db' h in
    let c : Payment → Bool = λ p. has_id id p && is_submitted p in
    let g = settled_payment db in
    let (p, found, s) = settled_one id db w one in
    let moved : MovedRows db.payments (update c g db.payments) =
      update-MovedRows c g db.payments (λ y. refl)
        (λ j y _ t. submitted_moves y (ground (arith, t))) in
    let kept : CoherentRows (update c g db.payments) db.reservations =
      settled_stays c g db.payments db.reservations (λ y. refl) (λ y _ _. refl) co in
    let own = found_after c g db.payments id p (λ y. refl) found in
    let all : CoherentRows (update c g db.payments)
        (update (λ y. y.id == r.id) (mark_settled db.clock) db.reservations) =
      changed-CoherentRows (update c g db.payments) db.reservations db.next_id id
        (mark_settled db.clock) r w.reservations_below (λ y. refl) e
        (λ _. (g p, ground (arith, own, s, find-holds (has_id id) db.payments p found), refl))
        kept in
    rw (ps, rs) (moved, all)

debit_rows :
    (id : ℕ) (x : Option Reservation) (db db' : Db)
    → settle_debit_payment id db ≡ ok (x, db')
    → (db' ≡ db)
      ⊎ ((p : Payment) × (find_payment id db ≡ some p)
          × (is_submitted p ≡ true)
          × (db'.payments ≡ update (has_id id) (settled_payment db) db.payments)
          × (db'.reservations ≡ db.reservations))
unfolding settle_debit_payment update_payment create_entry create_event create_lifecycle_event
debit_rows id x db db' h = elim (Option-cases (find_payment id db)) [
  | inl e ↦ absurd (ground arith)
  | inr (p, e) ↦ elim (Bool-cases (is_submitted p)) [
    | inl s ↦ inr (p, e, s, ground arith, ground arith)
    | inr s ↦ inl (ground arith)
  ]
]

debit-Course :
    (id : ℕ) (x : Option Reservation) (db db' : Db)
    → Coherent db
    → settle_debit_payment id db ≡ ok (x, db')
    → Course db db'
debit-Course id x db db' co h = elim (debit_rows id x db db' h) [
  | inl e ↦ Course-same db db' co (ap Db.payments e) (ap Db.reservations e)
  | inr (p, found, s, ps, rs) ↦
      let g = settled_payment db in
      rw (ps, rs)
        (
          update-MovedRows (has_id id) g db.payments (λ y. refl)
              (λ j y at t. submitted_moves y (rw (same_row db.payments id j p y found at t) s)),
          settled_stays (has_id id) g db.payments db.reservations (λ y. refl) (λ y _ _. refl) co,
        )
]

pub settle-Course :
    (id : ℕ) (x : Option Reservation) (db db' : Db)
    → WellFormed db
    → Coherent db
    → settle_reservation id db ≡ ok (x, db')
    → Course db db'
unfolding settle_reservation settle_held
settle-Course id x db db' w co h = elim (Option-cases (find_reservation id db)) [
  | inl e ↦ debit-Course id x db db' co (ground arith)
  | inr (r, e) ↦ elim (reservation_status_discrete r.status ReservationStatus.settled) [
    | yes s ↦
        let e' : db' ≡ db = ground arith in
        Course-same db db' co (ap Db.payments e') (ap Db.reservations e')
    | no s ↦ elim (reservation_status_discrete r.status ReservationStatus.active) [
      | yes a ↦ active-Course id r x db db' w co e (ground arith)
      | no a ↦ absurd (ground arith)
    ]
  ]
]
