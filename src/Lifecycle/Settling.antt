-- ===== src/Lifecycle/Settling.antt =====
-- `settleReservationForPayment` and `settleDebitPayment` of the worker's
-- payments/payment-lifecycle.repository.ts.
use achflow.Prelude.{ℕ, ◌&&◌, not, Option, none, some, if◌then◌else◌, same, ◌==◌}
use achflow.Schema.{
  Payment, PaymentDirection, PaymentStatus, direction_discrete, status_discrete, Reservation,
  ReservationStatus, reservation_status_discrete, FundingAccount, FundingAccountStatus,
  account_status_discrete, LedgerEntryType, settlement_key, debit_posted_key, OutboxEventType, Tx,
  pure, gets, or_throw, throw, throw_if, ◌>>=◌, ◌>>◌, when◌then◌else◌, either_row,
  outbox_processing, record_missing, reservation_not_found, reservation_not_active,
  payment_not_submitted, no_active_funding_account, find_payment, find_reservation, find_account,
  has_id, update_payments, update_payment, update_reservation, create_entry,
}
use achflow.Events.{create_lifecycle_event}

-- `{ status: SETTLED, settledAt: new Date() }`
abbrev pub mark_settled : ℕ → Reservation → Reservation
mark_settled now r = record r { status = ReservationStatus.settled; settled_at = some now }

unfoldable pub settle_active : ℕ → Reservation → Tx (Option Reservation)
settle_active id r = do
  now ← gets (λ db. db.clock)
  settled ← update_reservation r.id (mark_settled now)
  updated ←
      update_payments (λ p. has_id id p && same (status_discrete p.status PaymentStatus.submitted))
        (λ p. record p { status = PaymentStatus.settled })
  throw_if (not (updated == 1)) (outbox_processing payment_not_submitted)
  create_entry (settlement_key id) settled.funding_account_id (some settled.payment_id)
      LedgerEntryType.settlement settled.amount
  found ← gets (find_payment id)
  payment ← or_throw found record_missing
  create_lifecycle_event payment OutboxEventType.payment_settled payment.updated_at none
  pure (some settled)

unfoldable pub settle_held : ℕ → Reservation → Tx (Option Reservation)
unfolding settle_active
settle_held id r =
    when same (reservation_status_discrete r.status ReservationStatus.settled)
    then pure (some r)
    else when same (reservation_status_discrete r.status ReservationStatus.active)
    then settle_active id r
    else throw (outbox_processing reservation_not_active)

-- `!account || account.status !== ACTIVE`
abbrev is_usable : Option FundingAccount → Option FundingAccount
is_usable none = none
is_usable (some a) =
    if same (account_status_discrete a.status FundingAccountStatus.active) then some a else none

settle_submitted_debit : ℕ → Payment → Tx (Option Reservation)
settle_submitted_debit id p = do
  found ← gets (find_account p.merchant_id p.currency)
  account ← or_throw (is_usable found) (outbox_processing (no_active_funding_account p.currency))
  update_payment id (λ x. record x { status = PaymentStatus.settled })
  create_entry (debit_posted_key id) account.id (some id) LedgerEntryType.debit_posted
      p.amount_cents
  again ← gets (find_payment id)
  settled ← or_throw again record_missing
  create_lifecycle_event settled OutboxEventType.payment_settled settled.updated_at none
  pure none

unfoldable pub settle_debit_payment : ℕ → Tx (Option Reservation)
unfolding settle_submitted_debit
settle_debit_payment id = do
  found ← gets (find_payment id)
  p ← or_throw found (outbox_processing reservation_not_found)
  throw_if (not (same (direction_discrete p.direction PaymentDirection.debit)))
      (outbox_processing reservation_not_found)
  when same (status_discrete p.status PaymentStatus.settled)
      then pure none
      else when same (status_discrete p.status PaymentStatus.submitted)
      then settle_submitted_debit id p
      else throw (outbox_processing payment_not_submitted)

unfoldable pub settle_reservation : ℕ → Tx (Option Reservation)
unfolding settle_held settle_debit_payment
settle_reservation id = do
  found ← gets (find_reservation id)
  either_row found (settle_debit_payment id) λ r. settle_held id r
