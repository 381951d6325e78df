-- ===== src/Validation.antt =====
-- The worker's payments/payment-validation.service.ts.
use achflow.Prelude.{
  ℕ, String, Bool, true, ◌&&◌, ◌||◌, not, Option, none, some, if◌then◌else◌, same, str_eq, is_blank,
}
use achflow.Prelude.Int.{pos, leb_ℤ, ltb_ℤ}
use achflow.Schema.{
  Payment, Merchant, MerchantStatus, merchant_status_discrete, PaymentDirection, direction_discrete,
  text, Action, transact, err, outbox_processing, payment_not_found,
}
use achflow.Schema.Actions.{return, ◌>>◌}
use achflow.Lifecycle.Transition.{
  PaymentForValidation, ValidationResult, passed, failed, is_validated, find_for_validation,
  transition_from_received,
}
use achflow.Lifecycle.Reserving.{reserve_daily_usage}

-- `!payment.externalReference?.trim()`
abbrev pub is_missing : Option String → Bool
is_missing none = true
is_missing (some s) = is_blank s

abbrev pub is_debit : Payment → Bool
is_debit p = same (direction_discrete p.direction PaymentDirection.debit)

abbrev pub pays_out : Payment → Bool
pays_out p = same (direction_discrete p.direction PaymentDirection.credit)

abbrev pub is_trading : Merchant → Bool
is_trading m = same (merchant_status_discrete m.status MerchantStatus.active)

-- The tests that read the merchant, and those below them.
validate_with_merchant : Payment → Merchant → ValidationResult
validate_with_merchant p m =
    if not (is_trading m)
    then failed "MERCHANT_NOT_ACTIVE" (text "Payment merchant is not active")
    else if is_debit p && not m.allow_ach_debit
    then failed "ACH_DEBIT_NOT_ALLOWED" (text "Merchant is not allowed to initiate ACH debits")
    else if pays_out p && not m.allow_ach_credit
    then failed "ACH_CREDIT_NOT_ALLOWED" (text "Merchant is not allowed to initiate ACH credits")
    else if ltb_ℤ m.per_payment_limit p.amount_cents
    then failed "PER_PAYMENT_LIMIT_EXCEEDED"
        (text "Payment amount exceeds the merchant per-payment limit")
    else if is_blank p.receiver_account_ref || is_blank p.routing_number
    then failed "MISSING_ACCOUNT_REFERENCE" (text "Payment account reference is required")
    else passed

-- `validatePayment`; the enum has no third direction, which the code tests for too.
unfoldable pub validate_payment : PaymentForValidation → ValidationResult
unfolding validate_with_merchant
validate_payment pv =
    let p = pv.payment in
    if leb_ℤ p.amount_cents (pos 0)
    then failed "INVALID_AMOUNT" (text "Payment amount must be greater than zero")
    else if not (str_eq p.currency "USD")
    then failed "UNSUPPORTED_CURRENCY" (text "Payment currency must be USD")
    else if not (is_debit p) && not (pays_out p)
    then failed "UNSUPPORTED_DIRECTION" (text "Payment direction is unsupported")
    else if is_missing p.external_reference
    then failed "MISSING_EXTERNAL_REFERENCE" (text "Payment external reference is required")
    else elim pv.merchant [
      | none ↦ failed "MERCHANT_NOT_FOUND" (text "Payment merchant was not found")
      | some m ↦ validate_with_merchant p m
    ]

abbrev transition_and_complete : ℕ → ValidationResult → Action ValidationResult
transition_and_complete id result = do transition_from_received id result; return result

abbrev decide_payment : PaymentForValidation → (outbox_event : ℕ) → Action ValidationResult
decide_payment pv event db =
    let basic = validate_payment pv in
    if is_validated basic.status
    then transact (reserve_daily_usage pv event) db
    else transition_and_complete pv.payment.id basic db

-- `validate`; the read of the payment is not in the transaction that follows.
unfoldable pub validate : (payment outbox_event : ℕ) → Action ValidationResult
validate id event db = elim (find_for_validation id db) [
  | none ↦ (err (outbox_processing payment_not_found), db)
  | some pv ↦ decide_payment pv event db
]
