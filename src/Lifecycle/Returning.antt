-- ===== src/Lifecycle/Returning.antt =====
-- `returnSettlementForPayment` and `returnDebitPayment` of the worker's
-- payments/payment-lifecycle.repository.ts.
use achflow.Prelude.{
  ℕ, String, Bool, ◌&&◌, ◌||◌, not, Option, none, some, if◌then◌else◌, same, ◌==◌,
}
use achflow.Prelude.Int.{ℤ, eq_ℤ}
use achflow.Schema.{
  Payment, PaymentDirection, PaymentStatus, direction_discrete, status_discrete, Reservation,
  ReservationStatus, reservation_status_discrete, LedgerEntry, LedgerEntryType, entry_type_discrete,
  return_key, debit_posted_key, debit_return_key, OutboxEventType, text, Tx, pure, gets, or_throw,
  throw, throw_if, ◌>>=◌, ◌>>◌, when◌then◌else◌, either_row, outbox_processing, record_missing,
  reservation_not_found, reservation_not_settled, payment_not_settled, posted_debit_invalid,
  find_payment, find_reservation, find_entry, has_id, update_payments, update_reservation,
  create_entry,
}
use achflow.Events.{create_lifecycle_event}

-- `{ in: [SETTLED, VALIDATED] }`
abbrev pub is_returnable : PaymentStatus → Bool
is_returnable s =
    same (status_discrete s PaymentStatus.settled)
    || same (status_discrete s PaymentStatus.validated)

-- `{ status: RETURNED, returnedAt: new Date(), returnCode }`
abbrev pub mark_returned : String → ℕ → Reservation → Reservation
mark_returned code now r = record r {
  status = ReservationStatus.returned;
  returned_at = some now;
  return_code = some code;
}

unfoldable pub return_settled : ℕ → String → Reservation → Tx (Option Reservation)
return_settled id code r = do
  now ← gets (λ db. db.clock)
  returned ← update_reservation r.id (mark_returned code now)
  updated ←
      update_payments (λ p. has_id id p && is_returnable p.status)
        (λ p. record p { status = PaymentStatus.returned })
  throw_if (not (updated == 1)) (outbox_processing payment_not_settled)
  create_entry (return_key id) returned.funding_account_id (some returned.payment_id)
      LedgerEntryType.return returned.amount
  found ← gets (find_payment id)
  payment ← or_throw found record_missing
  create_lifecycle_event payment OutboxEventType.payment_returned payment.updated_at
      returned.return_code
  pure (some returned)

unfoldable pub return_held : ℕ → String → Reservation → Tx (Option Reservation)
unfolding return_settled
return_held id code r =
    when same (reservation_status_discrete r.status ReservationStatus.returned)
    then pure (some r)
    else when same (reservation_status_discrete r.status ReservationStatus.settled)
    then return_settled id code r
    else throw (outbox_processing reservation_not_settled)

-- The test on the `debit-posted` entry, passed: the entry belongs to the payment, posts a debit,
-- and is of the payment's amount.
abbrev pub posts_debit : ℕ → ℤ → LedgerEntry → Bool
posts_debit id amount e =
    elim e.payment_id [ none ↦ Bool.false | some i ↦ i == id ]
    && same (entry_type_discrete e.entry_type LedgerEntryType.debit_posted)
    && eq_ℤ e.amount amount

return_posted_debit : ℕ → String → Payment → Tx (Option Reservation)
return_posted_debit id code p = do
  entry ← gets (find_entry (debit_posted_key id))
  posted ← or_throw entry (outbox_processing posted_debit_invalid)
  throw_if (not (posts_debit id p.amount_cents posted)) (outbox_processing posted_debit_invalid)
  updated ←
      update_payments (λ x. has_id id x && same (status_discrete x.status PaymentStatus.settled))
        λ x. record x {
          status = PaymentStatus.returned;
          failure_code = some code;
          failure_reason = some (text "ACH debit return");
        }
  throw_if (not (updated == 1)) (outbox_processing payment_not_settled)
  create_entry (debit_return_key id) posted.funding_account_id (some id) LedgerEntryType.return
      posted.amount
  found ← gets (find_payment id)
  returned ← or_throw found record_missing
  create_lifecycle_event returned OutboxEventType.payment_returned returned.updated_at (some code)
  pure none

unfoldable pub return_debit_payment : ℕ → String → Tx (Option Reservation)
unfolding return_posted_debit
return_debit_payment id code = do
  found ← gets (find_payment id)
  p ← or_throw found (outbox_processing reservation_not_found)
  throw_if (not (same (direction_discrete p.direction PaymentDirection.debit)))
      (outbox_processing reservation_not_found)
  when same (status_discrete p.status PaymentStatus.returned)
      then pure none
      else when same (status_discrete p.status PaymentStatus.settled)
      then return_posted_debit id code p
      else throw (outbox_processing payment_not_settled)

unfoldable pub return_settlement : ℕ → String → Tx (Option Reservation)
unfolding return_held return_debit_payment
return_settlement id code = do
  found ← gets (find_reservation id)
  either_row found (return_debit_payment id code) λ r. return_held id code r
