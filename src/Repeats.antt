-- ===== src/Repeats.antt =====
-- A transition that is delivered twice takes effect once.
use achflow.Prelude.{
  ℕ, Bool, same, Bool-cases, String, ◌≡◌, refl, Option, none, some, find, Option-cases, inl, inr,
  arith,
}
use achflow.Schema.{
  Db, Payment, PaymentStatus, status_discrete, text, Reservation, ProcessedBankEvent, ok,
  find_reservation, find_payment, for_payment, has_id, update_reservation, update_payments,
  update_payment, create_entry, create_event, create_bank_event,
}
use achflow.Schema.Ids.{WellFormed, update_guarded, find-update_own, find-update_same, find_by_id}
use achflow.Events.{create_lifecycle_event}
use achflow.Lifecycle.Releasing.{mark_released, release_reservation}
use achflow.Lifecycle.Settling.{mark_settled, settle_reservation}
use achflow.Lifecycle.Returning.{mark_returned, return_settlement}
use achflow.Lifecycle.BankEvents.{process_bank_event}

module _ (id : ℕ) (db db' : Db) where
  -- A release that is repeated answers as the first did and changes nothing.
  release_twice :
      (r : Reservation)
      → WellFormed db
      → release_reservation id db ≡ ok (r, db')
      → release_reservation id db' ≡ ok (r, db')
  unfolding release_reservation update_reservation create_entry
  release_twice r w h = elim (Option-cases (find_reservation id db)) [
    | inl e ↦ ground arith
    | inr (r0, e) ↦ ground (
      arith,
      find-update_own Reservation.id (for_payment id) db.next_id (mark_released db.clock)
          db.reservations r0 w.reservations_below (λ x. refl) e,
      find_by_id Reservation.id (for_payment id) db.next_id db.reservations r0 w.reservations_below
          e,
    )
  ]

-- A bank event that is delivered again answers with the row of the first delivery.
bank_event_twice :
    (event stored : ProcessedBankEvent) (db db' : Db)
    → process_bank_event event db ≡ ok (stored, db')
    → process_bank_event event db' ≡ ok (stored, db')
unfolding process_bank_event create_bank_event find
bank_event_twice event stored db db' h = ground arith

module _ (id : ℕ) (db db' : Db) (x : Option Reservation) where
  settle_credit_twice :
      (r : Reservation)
      → WellFormed db
      → find_reservation id db ≡ some r
      → settle_reservation id db ≡ ok (x, db')
      → settle_reservation id db' ≡ ok (x, db')
  unfolding settle_reservation update_reservation update_payments create_entry create_event
      create_lifecycle_event
  settle_credit_twice r w e h = ground (
    arith,
    find-update_own Reservation.id (for_payment id) db.next_id (mark_settled db.clock)
        db.reservations r w.reservations_below (λ y. refl) e,
    find_by_id Reservation.id (for_payment id) db.next_id db.reservations r w.reservations_below e,
  )

  settle_debit_twice :
      (p : Payment)
      → find_reservation id db ≡ none
      → find_payment id db ≡ some p
      → settle_reservation id db ≡ ok (x, db')
      → settle_reservation id db' ≡ ok (x, db')
  unfolding settle_reservation update_payment create_entry create_event create_lifecycle_event
  settle_debit_twice p e ep h = ground (
    arith,
    find-update_same (has_id id)
        (λ y. record y { status = PaymentStatus.settled; updated_at = db.clock }) db.payments p
        (λ y. refl) ep,
  )

  settle_missing :
      find_reservation id db ≡ none
      → find_payment id db ≡ none
      → settle_reservation id db ≡ ok (x, db')
      → ⊥
  unfolding settle_reservation
  settle_missing e ep h = ground arith

  -- A settlement that is repeated answers as the first did and changes nothing.
  pub settle_twice :
      WellFormed db
      → settle_reservation id db ≡ ok (x, db')
      → settle_reservation id db' ≡ ok (x, db')
  settle_twice w h = elim (Option-cases (find_reservation id db)) [
    | inr (r, e) ↦ settle_credit_twice r w e h
    | inl e ↦ elim (Option-cases (find_payment id db)) [
      | inr (p, ep) ↦ settle_debit_twice p e ep h
      | inl ep ↦ absurd (settle_missing e ep h)
    ]
  ]

abbrev is_settled : Payment → Bool
is_settled p = same (status_discrete p.status PaymentStatus.settled)

abbrev mark_debit_returned : String → ℕ → Payment → Payment
mark_debit_returned code now p = record p {
  status = PaymentStatus.returned;
  failure_code = some code;
  failure_reason = some (text "ACH debit return");
  updated_at = now;
}

module _ (id : ℕ) (code other : String) (db db' : Db) (x : Option Reservation) where
  return_credit_twice :
      (r : Reservation)
      → WellFormed db
      → find_reservation id db ≡ some r
      → return_settlement id code db ≡ ok (x, db')
      → return_settlement id other db' ≡ ok (x, db')
  unfolding return_settlement update_reservation update_payments create_entry create_event
      create_lifecycle_event
  return_credit_twice r w e h = ground (
    arith,
    find-update_own Reservation.id (for_payment id) db.next_id (mark_returned code db.clock)
        db.reservations r w.reservations_below (λ y. refl) e,
    find_by_id Reservation.id (for_payment id) db.next_id db.reservations r w.reservations_below e,
  )

  return_debit_twice :
      (p : Payment)
      → WellFormed db
      → find_reservation id db ≡ none
      → find_payment id db ≡ some p
      → return_settlement id code db ≡ ok (x, db')
      → return_settlement id other db' ≡ ok (x, db')
  unfolding return_settlement update_payments create_entry create_event create_lifecycle_event
  return_debit_twice p w e ep h = elim (Bool-cases (is_settled p)) [
    | inl s ↦ ground (
      arith,
      update_guarded Payment.id id db.next_id is_settled (mark_debit_returned code db.clock)
          db.payments p w.payments_below ep s,
      find-update_same (has_id id) (mark_debit_returned code db.clock) db.payments p (λ y. refl) ep,
    )
    | inr s ↦ ground arith
  ]

  return_missing :
      find_reservation id db ≡ none
      → find_payment id db ≡ none
      → return_settlement id code db ≡ ok (x, db')
      → ⊥
  unfolding return_settlement
  return_missing e ep h = ground arith

  -- A return that is repeated, under whatever code, answers as the first did and changes nothing.
  return_twice :
      WellFormed db
      → return_settlement id code db ≡ ok (x, db')
      → return_settlement id other db' ≡ ok (x, db')
  return_twice w h = elim (Option-cases (find_reservation id db)) [
    | inr (r, e) ↦ return_credit_twice r w e h
    | inl e ↦ elim (Option-cases (find_payment id db)) [
      | inr (p, ep) ↦ return_debit_twice p w e ep h
      | inl ep ↦ absurd (return_missing e ep h)
    ]
  ]
