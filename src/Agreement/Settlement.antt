-- ===== src/Agreement/Settlement.antt =====
-- `settleReservationForPayment` of the worker against `settle` of the API.
use achflow.Prelude.{
  ℕ, ◌≡◌, Bool, Option, none, some, ◌==◌, find, arith, same, inl, inr, Option-cases, Bool-cases,
  ==_iff,
}
use achflow.Schema.{
  Db, Payment, PaymentStatus, status_discrete, Reservation, Result, ok, err, find_reservation,
  find_payment, update_reservation, update_payments, update_payment, for_payment,
}
use achflow.Schema.Ids.{
  WellFormed, find-holds, find_by_id, update_guarded, guarded_fails, guarded_missing,
}
use achflow.Lifecycle.Settling.{
  settle_reservation, settle_held as worker_held, settle_active as worker_active,
}
use achflow.Engine.Settling.{settle, settle_held as engine_held, settle_active as engine_active}

-- What a transaction commits, with the error that it may end in forgotten.
unfoldable pub committed : {A : Type 0} → Result A → Option A
committed (ok a) = some a
committed (err e) = none

abbrev is_submitted : Payment → Bool
is_submitted p = same (status_discrete p.status PaymentStatus.submitted)

abbrev settled_payment : Db → Payment → Payment
settled_payment db p = record p { status = PaymentStatus.settled; updated_at = db.clock }

debit_agrees :
    (id : ℕ) (db : Db)
    → find_reservation id db ≡ none
    → committed (settle_reservation id db) ≡ committed (settle id db)
unfolding settle_reservation settle committed
debit_agrees id db e = ground arith

active_agrees :
    (id : ℕ) (db : Db) (r : Reservation) (p : Payment)
    → WellFormed db
    → r.payment_id ≡ id
    → find (λ x. x.id == r.id) db.reservations ≡ some r
    → find_payment id db ≡ some p
    → committed (worker_active id r db) ≡ committed (engine_active id r db)
unfolding worker_active engine_active committed update_payments update_payment update_reservation
active_agrees id db r p w er own ep = elim (Bool-cases (is_submitted p)) [
  | inl s ↦ ground (
    arith,
    update_guarded Payment.id id db.next_id is_submitted (settled_payment db) db.payments p
        w.payments_below ep s,
  )
  | inr s ↦ ground (
    arith,
    guarded_fails Payment.id id db.next_id is_submitted (settled_payment db) db.payments p
        w.payments_below ep s,
  )
]

missing_agrees :
    (id : ℕ) (db : Db) (r : Reservation)
    → find_payment id db ≡ none
    → committed (worker_active id r db) ≡ committed (engine_active id r db)
unfolding worker_active engine_active committed update_payments update_payment update_reservation
missing_agrees id db r ep =
    ground (arith, guarded_missing Payment.id id is_submitted (settled_payment db) db.payments ep)

held_agrees :
    (id : ℕ) (db : Db) (r : Reservation)
    → committed (worker_active id r db) ≡ committed (engine_active id r db)
    → committed (worker_held id r db) ≡ committed (engine_held id r db)
unfolding worker_held engine_held committed
held_agrees id db r e = ground arith

credit_agrees :
    (id : ℕ) (db : Db) (r : Reservation)
    → WellFormed db
    → find_reservation id db ≡ some r
    → committed (worker_active id r db) ≡ committed (engine_active id r db)
credit_agrees id db r w e = elim (Option-cases (find_payment id db)) [
  | inl none_found ↦ missing_agrees id db r none_found
  | inr (p, found) ↦
      active_agrees id db r p w
        ((==_iff r.payment_id id).0 (find-holds (for_payment id) db.reservations r e))
        (find_by_id Reservation.id (for_payment id) db.next_id db.reservations r
          w.reservations_below e)
        found
]

found_agrees :
    (id : ℕ) (db : Db) (r : Reservation)
    → find_reservation id db ≡ some r
    → committed (worker_held id r db) ≡ committed (engine_held id r db)
    → committed (settle_reservation id db) ≡ committed (settle id db)
unfolding settle_reservation settle
found_agrees id db r e h = rw (e) h

-- The worker and the API settle the same payments in the same way: either both refuse, or both
-- commit the same rows and give the same answer.
pub settle_agrees :
    (id : ℕ) (db : Db)
    → WellFormed db
    → committed (settle_reservation id db) ≡ committed (settle id db)
settle_agrees id db w = elim (Option-cases (find_reservation id db)) [
  | inl e ↦ debit_agrees id db e
  | inr (r, e) ↦ found_agrees id db r e (held_agrees id db r (credit_agrees id db r w e))
]
