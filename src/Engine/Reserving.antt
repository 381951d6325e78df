-- ===== src/Engine/Reserving.antt =====
-- `reserve` of the API's payments/payment-engine.service.ts.
use achflow.Prelude.{ℕ, not, Option, none, some, if◌then◌else◌, same}
use achflow.Prelude.Int.{◌+ℤ◌, ltb_ℤ, ℤ}
use achflow.Schema.{
  Payment, Merchant, PaymentStatus, status_discrete, Reservation, FundingAccount,
  MerchantDailyUsage, LedgerEntryType, reservation_key, OutboxEventType, Tx, pure, gets, or_throw,
  throw_if, ◌>>=◌, ◌>>◌, when◌then◌else◌, either_row, bad_request, not_found, record_missing,
  payment_not_found, not_validated, exceeds_daily_limit, no_active_funding_account,
  insufficient_funding, find_payment, find_merchant, find_reservation, find_account, find_usage,
  create_reservation, create_entry, save_usage,
}
use achflow.Events.{create_lifecycle_event}
use achflow.Ledger.{available_balance}
use achflow.Lifecycle.Reserving.{utc_business_date, utilized, is_credit, is_open}

-- `!account || account.status !== ACTIVE` is refused.
abbrev pub usable : Option FundingAccount → Option FundingAccount
usable none = none
usable (some a) = if is_open a then some a else none

-- `utilized + payment.amountCents` on a row, the amount alone on a new one.
abbrev next_usage : Payment → Option MerchantDailyUsage → ℤ
next_usage p none = p.amount_cents
next_usage p (some u) = u.utilized_amount +ℤ p.amount_cents

reserve_credit : ℕ → Payment → Merchant → Tx (Option Reservation)
reserve_credit id p m = do
  let date = utc_business_date p.created_at
  usage ← gets (find_usage p.merchant_id date)
  throw_if (ltb_ℤ m.daily_amount_limit (utilized usage +ℤ p.amount_cents))
      (bad_request exceeds_daily_limit)
  found ← gets (find_account p.merchant_id p.currency)
  account ← or_throw (usable found) (bad_request (no_active_funding_account p.currency))
  available ← gets (available_balance account.id)
  throw_if (ltb_ℤ available p.amount_cents) (bad_request insufficient_funding)
  reservation ← create_reservation id account.id p.amount_cents
  create_entry (reservation_key id) account.id (some id) LedgerEntryType.reservation p.amount_cents
  save_usage usage p.merchant_id date (next_usage p usage)
  now ← gets (λ db. db.clock)
  create_lifecycle_event p OutboxEventType.payment_reserved now none
  pure (some reservation)

reserve_new : ℕ → Payment → Merchant → Tx (Option Reservation)
unfolding reserve_credit
reserve_new id p m = do
  throw_if (not (same (status_discrete p.status PaymentStatus.validated)))
      (bad_request not_validated)
  when not (is_credit p) then pure none else reserve_credit id p m

unfoldable pub reserve : ℕ → Tx (Option Reservation)
unfolding reserve_new
reserve id = do
  found ← gets (find_payment id)
  p ← or_throw found (not_found payment_not_found)
  merchant ← gets (find_merchant p.merchant_id)
  m ← or_throw merchant record_missing
  existing ← gets (find_reservation id)
  either_row existing (reserve_new id p m) λ r. pure (some r)
