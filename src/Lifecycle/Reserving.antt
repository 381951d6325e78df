-- ===== src/Lifecycle/Reserving.antt =====
-- `reserveDailyUsageAndTransition` of the worker's payments/payment-lifecycle.repository.ts.
use achflow.Prelude.{ℕ, ◌*◌, ◌/◌, ◌&&◌, not, Bool, Option, none, some, if◌then◌else◌, same}
use achflow.Prelude.Int.{ℤ, pos, ◌+ℤ◌, ltb_ℤ}
use achflow.Schema.{
  Payment, Merchant, PaymentDirection, PaymentStatus, direction_discrete, status_discrete,
  FundingAccount, FundingAccountStatus, account_status_discrete, MerchantDailyUsage,
  LedgerEntryType, reservation_key, no_active_account, insufficient, OutboxEventType, Tx, pure,
  gets, or_throw, ◌>>=◌, ◌>>◌, when◌then◌else◌, either_row, outbox_processing, record_missing,
  payment_not_found, payment_not_eligible, find_payment, find_account, find_usage,
  create_reservation, create_entry, save_usage,
}
use achflow.Events.{create_lifecycle_event}
use achflow.Ledger.{available_balance}
use achflow.Lifecycle.Transition.{
  PaymentForValidation, ValidationResult, passed, failed, daily_limit_failure, is_validated,
  outcome_event, transition, complete_outbox,
}

-- Midnight (UTC) of the day that holds a time.
unfoldable pub utc_business_date : ℕ → ℕ
utc_business_date created_at = created_at / 86400000 * 86400000

abbrev pub is_open : FundingAccount → Bool
is_open a = same (account_status_discrete a.status FundingAccountStatus.active)

-- The branch of a usable account: compare the available balance, and hold the amount.
hold_amount : Payment → FundingAccount → Tx ValidationResult
hold_amount p account = do
  available ← gets (available_balance account.id)
  when ltb_ℤ available p.amount_cents
      then pure (failed "INSUFFICIENT_FUNDS" (insufficient available p.amount_cents p.currency))
      else do
        create_reservation p.id account.id p.amount_cents
        create_entry (reservation_key p.id) account.id (some p.id) LedgerEntryType.reservation
            p.amount_cents
        pure passed

no_account : Payment → Tx ValidationResult
no_account p = pure (failed "FUNDING_ACCOUNT_UNAVAILABLE" (no_active_account p.currency))

unfoldable pub reserve_funds : Payment → Tx ValidationResult
unfolding hold_amount no_account
reserve_funds p = do
  found ← gets (find_account p.merchant_id p.currency)
  either_row found (no_account p) λ a. when is_open a then hold_amount p a else no_account p

abbrev pub is_credit : Payment → Bool
is_credit p = same (direction_discrete p.direction PaymentDirection.credit)

-- `usage?.utilizedAmount ?? 0`
abbrev pub utilized : Option MerchantDailyUsage → ℤ
utilized none = pos 0
utilized (some u) = u.utilized_amount

-- The daily limit, then the funds of a credit.
unfoldable pub check_limits : Payment → Merchant → ℤ → Tx ValidationResult
unfolding reserve_funds
check_limits p m used =
    when ltb_ℤ m.daily_amount_limit (used +ℤ p.amount_cents)
    then pure (daily_limit_failure m.daily_amount_limit used p.amount_cents)
    else when is_credit p
    then reserve_funds p
    else pure passed

-- Usage is counted for a payment that passed.
abbrev count_usage : Payment → ℕ → Option MerchantDailyUsage → ValidationResult → Tx (Unit {0})
count_usage p date usage result =
    when is_validated result.status
    then save_usage usage p.merchant_id date (utilized usage +ℤ p.amount_cents)
    else pure tt

abbrev announce_reserved : Payment → Payment → ValidationResult → Tx (Unit {0})
announce_reserved p updated result =
    when is_validated result.status && is_credit p
    then create_lifecycle_event updated OutboxEventType.payment_reserved updated.updated_at none
      >> pure tt
    else pure tt

unfoldable pub reserve_and_transition :
    Payment → Merchant → (outbox_event : ℕ) → Tx ValidationResult
unfolding check_limits
reserve_and_transition p m event = do
  let date = utc_business_date p.created_at
  usage ← gets (find_usage p.merchant_id date)
  result ← check_limits p m (utilized usage)
  count_usage p date usage result
  transition p.id result
  found ← gets (find_payment p.id)
  updated ← or_throw found record_missing
  create_lifecycle_event updated (outcome_event result) updated.updated_at none
  announce_reserved p updated result
  complete_outbox event
  pure result

-- The answer for a payment that an earlier attempt has moved on.
abbrev earlier_result : PaymentStatus → Payment → ValidationResult
earlier_result status p =
    if same (status_discrete status PaymentStatus.validation_failed)
    then record {
      status = PaymentStatus.validation_failed;
      code = p.validation_code;
      message = p.validation_message;
    }
    else passed

-- The branch of a payment that has left `RECEIVED`.
repeat_outcome : PaymentStatus → Payment → (outbox_event : ℕ) → Tx ValidationResult
repeat_outcome status p event = do complete_outbox event; pure (earlier_result status p)

unfoldable pub reserve_daily_usage : PaymentForValidation → (outbox_event : ℕ) → Tx ValidationResult
unfolding reserve_and_transition repeat_outcome
reserve_daily_usage pv event = do
  found ← gets (find_payment pv.payment.id)
  current ← or_throw found (outbox_processing payment_not_found)
  when not (same (status_discrete current.status PaymentStatus.received))
      then repeat_outcome current.status pv.payment event
      else do
        m ← or_throw pv.merchant (outbox_processing payment_not_eligible)
        reserve_and_transition pv.payment m event
