-- ===== src/Lifecycle/Transition.antt =====
-- The types of validation, `findForValidation`, `transitionData`, `transitionFromReceived` and
-- `completeOutbox` of the worker's payments/payment-lifecycle.repository.ts.
use achflow.Prelude.{
  ℕ, String, Bool, ◌&&◌, ◌||◌, not, Option, none, some, if◌then◌else◌, same, ◌==◌,
}
use achflow.Prelude.Int.{ℤ}
use achflow.Schema.{
  Db, Payment, Merchant, PaymentStatus, status_discrete, Message, daily_limit_exceeded,
  OutboxEventStatus, event_status_discrete, OutboxEventType, Result, Tx, pure, gets, or_throw,
  throw_if, ◌>>=◌, ◌>>◌, when◌then◌else◌, Action, transact, ok, err, outbox_processing,
  record_missing, payment_not_found, payment_not_eligible, event_not_claimed, find_payment,
  find_merchant, has_id, update_payments, update_events,
}
use achflow.Events.{create_lifecycle_event}

-- The snapshot of a payment that validation works on.
pub record PaymentForValidation : Type 0 where
  pub payment : Payment
  pub merchant : Option Merchant

pub record ValidationResult : Type 0 where
  pub status : PaymentStatus
  pub code : Option String
  pub message : Option Message

abbrev pub passed : ValidationResult
passed = record { status = PaymentStatus.validated; code = none; message = none }

abbrev pub failed : String → Message → ValidationResult
failed code message = record {
  status = PaymentStatus.validation_failed;
  code = some code;
  message = some message;
}

abbrev pub daily_limit_failure : (limit utilized requested : ℤ) → ValidationResult
daily_limit_failure limit utilized requested =
    failed "EXCEEDS_DAILY_AMOUNT_LIMIT" (daily_limit_exceeded limit utilized requested)

unfoldable pub find_for_validation : ℕ → Db → Option PaymentForValidation
find_for_validation id db = elim (find_payment id db) [
  | none ↦ none
  | some p ↦ some (record { payment = p; merchant = find_merchant p.merchant_id db })
]

abbrev pub is_validated : PaymentStatus → Bool
is_validated s = same (status_discrete s PaymentStatus.validated)

-- The change that `transitionData` describes, made at a time.
abbrev pub transition_data : ValidationResult → ℕ → Payment → Payment
transition_data result now p = record p {
  status = result.status;
  validation_code = result.code;
  validation_message = result.message;
  failure_code = result.code;
  failure_reason = result.message;
  validated_at = if is_validated result.status then some now else none;
}

-- `result.status === VALIDATED ? PAYMENT_VALIDATED : PAYMENT_VALIDATION_FAILED`
abbrev pub outcome_event : ValidationResult → OutboxEventType
outcome_event result =
    if is_validated result.status
    then OutboxEventType.payment_validated
    else OutboxEventType.payment_validation_failed

-- `updateMany({ where: { id, status: RECEIVED }, data: this.transitionData(result) })`
unfoldable pub transition : ℕ → ValidationResult → Tx ℕ
transition id result = do
  now ← gets (λ db. db.clock)
  update_payments (λ p. has_id id p && same (status_discrete p.status PaymentStatus.received))
      (transition_data result now)

record_transition : ℕ → ValidationResult → ℕ → Tx ℕ
record_transition id result count = do
  found ← gets (find_payment id)
  payment ← or_throw found record_missing
  create_lifecycle_event payment (outcome_event result) payment.updated_at none
  pure count

unfoldable pub transition_transaction : ℕ → ValidationResult → Tx ℕ
unfolding transition record_transition
transition_transaction id result = do
  count ← transition id result
  when count == 1 then record_transition id result count else pure count

-- What is read after a transaction that moved no payment.
abbrev check_terminal : ℕ → Db → Result (Unit {0})
check_terminal id db = elim (find_payment id db) [
  | none ↦ err (outbox_processing payment_not_found)
  | some p ↦
      if same (status_discrete p.status PaymentStatus.validated)
        || same (status_discrete p.status PaymentStatus.validation_failed)
      then ok tt
      else err (outbox_processing payment_not_eligible)
]

unfoldable pub transition_from_received : ℕ → ValidationResult → Action (Unit {0})
unfolding transition_transaction transact
transition_from_received id result db =
    let (r, db') = transact (transition_transaction id result) db in
    elim r [
      | err e ↦ (err e, db')
      | ok count ↦ if count == 1 then (ok tt, db') else (check_terminal id db', db')
    ]

unfoldable pub complete_outbox : ℕ → Tx (Unit {0})
complete_outbox event = do
  now ← gets (λ db. db.clock)
  updated ←
      update_events
        (λ e. e.id == event && same (event_status_discrete e.status OutboxEventStatus.processing))
        λ e. record e {
          status = OutboxEventStatus.processed;
          processed_at = some now;
          claimed_at = none;
          last_error = none;
        }
  throw_if (not (updated == 1)) (outbox_processing event_not_claimed)
