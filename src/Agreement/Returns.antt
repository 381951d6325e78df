-- ===== src/Agreement/Returns.antt =====
-- `returnSettlementForPayment` of the worker against `returnSettlement` of the API.
use achflow.Prelude.{
  ℕ, String, ◌≡◌, Bool, true, none, some, ◌==◌, find, arith, inl, inr, Option-cases, ==_iff,
}
use achflow.Schema.{
  Db, Payment, PaymentStatus, Reservation, ReservationStatus, reservation_status_discrete,
  find_reservation, find_payment, update_reservation, update_payments, update_payment, for_payment,
}
use achflow.Schema.Ids.{WellFormed, find-holds, find_by_id, update_guarded, guarded_missing}
use achflow.Lifecycle.Returning.{
  is_returnable, return_settlement as worker_return, return_held as worker_held,
  return_settled as worker_settled,
}
use achflow.Engine.Returning.{
  return_settlement as engine_return, return_held as engine_held, return_settled as engine_settled,
}
use achflow.Agreement.Settlement.{committed}

abbrev may_return : Payment → Bool
may_return p = is_returnable p.status

abbrev returned_payment : Db → Payment → Payment
returned_payment db p = record p { status = PaymentStatus.returned; updated_at = db.clock }

debit_agrees :
    (id : ℕ) (code : String) (db : Db)
    → find_reservation id db ≡ none
    → committed (worker_return id code db) ≡ committed (engine_return id code db)
unfolding worker_return engine_return committed
debit_agrees id code db e = ground arith

settled_agrees :
    (id : ℕ) (code : String) (db : Db) (r : Reservation) (p : Payment)
    → WellFormed db
    → r.payment_id ≡ id
    → find (λ x. x.id == r.id) db.reservations ≡ some r
    → find_payment id db ≡ some p
    → may_return p ≡ true
    → committed (worker_settled id code r db) ≡ committed (engine_settled id code r db)
unfolding worker_settled engine_settled committed update_payments update_payment update_reservation
settled_agrees id code db r p w er own ep s = ground (
  arith,
  update_guarded Payment.id id db.next_id may_return (returned_payment db) db.payments p
      w.payments_below ep s,
)

missing_agrees :
    (id : ℕ) (code : String) (db : Db) (r : Reservation)
    → find_payment id db ≡ none
    → committed (worker_settled id code r db) ≡ committed (engine_settled id code r db)
unfolding worker_settled engine_settled committed update_payments update_payment update_reservation
missing_agrees id code db r ep =
    ground (arith, guarded_missing Payment.id id may_return (returned_payment db) db.payments ep)

held_agrees :
    (id : ℕ) (code : String) (db : Db) (r : Reservation)
    → (r.status ≡ ReservationStatus.settled
        → committed (worker_settled id code r db) ≡ committed (engine_settled id code r db))
    → committed (worker_held id code r db) ≡ committed (engine_held id code r db)
unfolding worker_held engine_held committed
held_agrees id code db r e = elim (reservation_status_discrete r.status ReservationStatus.settled) [
  | yes s ↦ ground (arith, e s)
  | no s ↦ ground arith
]

credit_agrees :
    (id : ℕ) (code : String) (db : Db) (r : Reservation)
    → WellFormed db
    → find_reservation id db ≡ some r
    → ((p : Payment) → find_payment id db ≡ some p → may_return p ≡ true)
    → committed (worker_settled id code r db) ≡ committed (engine_settled id code r db)
credit_agrees id code db r w e h = elim (Option-cases (find_payment id db)) [
  | inl none_found ↦ missing_agrees id code db r none_found
  | inr (p, found) ↦
      settled_agrees id code db r p w
        ((==_iff r.payment_id id).0 (find-holds (for_payment id) db.reservations r e))
        (find_by_id Reservation.id (for_payment id) db.next_id db.reservations r
          w.reservations_below e)
        found (h p found)
]

found_agrees :
    (id : ℕ) (code : String) (db : Db) (r : Reservation)
    → find_reservation id db ≡ some r
    → committed (worker_held id code r db) ≡ committed (engine_held id code r db)
    → committed (worker_return id code db) ≡ committed (engine_return id code db)
unfolding worker_return engine_return
found_agrees id code db r e h = rw e h

-- Where a settled reservation belongs to a payment that is settled (or validated), the worker and
-- the API return the same payments in the same way: either both refuse, or both commit the same
-- rows and give the same answer.
pub return_agrees :
    (id : ℕ) (code : String) (db : Db)
    → WellFormed db
    → ((r : Reservation) (p : Payment)
        → find_reservation id db ≡ some r
        → r.status ≡ ReservationStatus.settled
        → find_payment id db ≡ some p
        → is_returnable p.status ≡ true)
    → committed (worker_return id code db) ≡ committed (engine_return id code db)
return_agrees id code db w h = elim (Option-cases (find_reservation id db)) [
  | inl e ↦ debit_agrees id code db e
  | inr (r, e) ↦
      found_agrees id code db r e
        (held_agrees id code db r (λ s. credit_agrees id code db r w e (λ p. λ f. h r p e s f)))
]
