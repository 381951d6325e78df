-- ===== src/Engine/Returning.antt =====
-- `returnSettlement` and `returnDebitPayment` of the API's payments/payment-engine.service.ts.
use achflow.Prelude.{ℕ, String, ◌&&◌, not, Option, none, some, if◌then◌else◌, same, ◌==◌}
use achflow.Schema.{
  Payment, PaymentDirection, PaymentStatus, direction_discrete, status_discrete, Reservation,
  ReservationStatus, reservation_status_discrete, LedgerEntryType, return_key, debit_posted_key,
  debit_return_key, OutboxEventType, text, Tx, pure, gets, or_throw, throw, throw_if, ◌>>=◌, ◌>>◌,
  when◌then◌else◌, either_row, bad_request, not_found, record_missing, reservation_not_found,
  reservation_not_settled, payment_not_settled, posted_debit_invalid, find_payment,
  find_reservation, find_entry, has_id, update_payments, update_payment, update_reservation,
  create_entry,
}
use achflow.Events.{create_lifecycle_event}
use achflow.Lifecycle.Returning.{mark_returned, posts_debit}

unfoldable pub return_settled : ℕ → String → Reservation → Tx (Option Reservation)
return_settled id code r = do
  now ← gets (λ db. db.clock)
  returned ← update_reservation r.id (mark_returned code now)
  update_payment id (λ p. record p { status = PaymentStatus.returned })
  create_entry (return_key id) returned.funding_account_id (some id) LedgerEntryType.return
      returned.amount
  found ← gets (find_payment id)
  payment ← or_throw found record_missing
  create_lifecycle_event payment OutboxEventType.payment_returned payment.updated_at
      returned.return_code
  pure (some returned)

unfoldable pub return_held : ℕ → String → Reservation → Tx (Option Reservation)
unfolding return_settled
return_held id code r =
    when same (reservation_status_discrete r.status ReservationStatus.returned)
    then pure (some r)
    else when not (same (reservation_status_discrete r.status ReservationStatus.settled))
    then throw (bad_request reservation_not_settled)
    else return_settled id code r

return_posted_debit : ℕ → String → Payment → Tx (Option Reservation)
return_posted_debit id code p = do
  entry ← gets (find_entry (debit_posted_key id))
  posted ← or_throw entry (bad_request posted_debit_invalid)
  throw_if (not (posts_debit id p.amount_cents posted)) (bad_request posted_debit_invalid)
  updated ←
      update_payments (λ x. has_id id x && same (status_discrete x.status PaymentStatus.settled))
        λ x. record x {
          status = PaymentStatus.returned;
          failure_code = some code;
          failure_reason = some (text "ACH debit return");
        }
  throw_if (not (updated == 1)) (bad_request payment_not_settled)
  create_entry (debit_return_key id) posted.funding_account_id (some id) LedgerEntryType.return
      posted.amount
  found ← gets (find_payment id)
  returned ← or_throw found record_missing
  create_lifecycle_event returned OutboxEventType.payment_returned returned.updated_at (some code)
  pure none

unfoldable pub return_debit_payment : ℕ → String → Tx (Option Reservation)
unfolding return_posted_debit
return_debit_payment id code = do
  found ← gets (find_payment id)
  p ← or_throw found (not_found reservation_not_found)
  throw_if (not (same (direction_discrete p.direction PaymentDirection.debit)))
      (not_found reservation_not_found)
  when same (status_discrete p.status PaymentStatus.returned)
      then pure none
      else when not (same (status_discrete p.status PaymentStatus.settled))
      then throw (bad_request payment_not_settled)
      else return_posted_debit id code p

unfoldable pub return_settlement : ℕ → String → Tx (Option Reservation)
unfolding return_held return_debit_payment
return_settlement id code = do
  found ← gets (find_reservation id)
  either_row found (return_debit_payment id code) λ r. return_held id code r
