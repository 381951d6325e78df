-- ===== src/Engine/Settling.antt =====
-- `settle` and `settleDebitPayment` of the API's payments/payment-engine.service.ts.
use achflow.Prelude.{ℕ, not, Option, none, some, if◌then◌else◌, same}
use achflow.Schema.{
  Payment, PaymentDirection, PaymentStatus, direction_discrete, status_discrete, Reservation,
  ReservationStatus, reservation_status_discrete, LedgerEntryType, settlement_key, debit_posted_key,
  OutboxEventType, Tx, pure, gets, or_throw, throw, throw_if, ◌>>=◌, ◌>>◌, when◌then◌else◌,
  either_row, bad_request, not_found, record_missing, reservation_not_found, reservation_not_active,
  payment_not_submitted, no_active_funding_account, find_payment, find_reservation, find_account,
  update_payment, update_reservation, create_entry,
}
use achflow.Events.{create_lifecycle_event}
use achflow.Lifecycle.Settling.{mark_settled}
use achflow.Engine.Reserving.{usable}

unfoldable pub settle_active : ℕ → Reservation → Tx (Option Reservation)
settle_active id r = do
  first ← gets (find_payment id)
  payment ← or_throw first record_missing
  throw_if (not (same (status_discrete payment.status PaymentStatus.submitted)))
      (bad_request payment_not_submitted)
  now ← gets (λ db. db.clock)
  settled ← update_reservation r.id (mark_settled now)
  update_payment id (λ p. record p { status = PaymentStatus.settled })
  create_entry (settlement_key id) settled.funding_account_id (some id) LedgerEntryType.settlement
      settled.amount
  again ← gets (find_payment id)
  settled_payment ← or_throw again record_missing
  create_lifecycle_event settled_payment OutboxEventType.payment_settled settled_payment.updated_at
      none
  pure (some settled)

unfoldable pub settle_held : ℕ → Reservation → Tx (Option Reservation)
unfolding settle_active
settle_held id r =
    when same (reservation_status_discrete r.status ReservationStatus.settled)
    then pure (some r)
    else when not (same (reservation_status_discrete r.status ReservationStatus.active))
    then throw (bad_request reservation_not_active)
    else settle_active id r

settle_submitted_debit : ℕ → Payment → Tx (Option Reservation)
settle_submitted_debit id p = do
  found ← gets (find_account p.merchant_id p.currency)
  account ← or_throw (usable found) (bad_request (no_active_funding_account p.currency))
  update_payment id (λ x. record x { status = PaymentStatus.settled })
  create_entry (debit_posted_key id) account.id (some id) LedgerEntryType.debit_posted
      p.amount_cents
  again ← gets (find_payment id)
  settled ← or_throw again record_missing
  create_lifecycle_event settled OutboxEventType.payment_settled settled.updated_at none
  pure none

unfoldable pub settle_debit_payment : ℕ → Tx (Option Reservation)
unfolding settle_submitted_debit
settle_debit_payment id = do
  found ← gets (find_payment id)
  p ← or_throw found (not_found reservation_not_found)
  throw_if (not (same (direction_discrete p.direction PaymentDirection.debit)))
      (not_found reservation_not_found)
  when same (status_discrete p.status PaymentStatus.settled)
      then pure none
      else when not (same (status_discrete p.status PaymentStatus.submitted))
      then throw (bad_request payment_not_submitted)
      else settle_submitted_debit id p

unfoldable pub settle : ℕ → Tx (Option Reservation)
unfolding settle_held settle_debit_payment
settle id = do
  found ← gets (find_reservation id)
  either_row found (settle_debit_payment id) λ r. settle_held id r
