-- ===== src/Outbox/Polling.antt =====
-- The worker's outbox/outbox-polling.service.ts: one poll, over a handler of events. Timers and
-- logging are left out.
use achflow.Prelude.{ℕ, String, List, [], ◌∷◌}
use Prim.Native.String.{◌++◌}
use achflow.Schema.{OutboxEvent, Error, Problem, outbox_processing, ok, err, Action, transact}
use achflow.Outbox.Repository.{recover_expired_claims, claim_pending, mark_processed, mark_failed}

-- The settings of `WorkerConfigService` for the outbox.
pub record OutboxConfig : Type 0 where
  pub max_attempts : ℕ
  pub claim_lease_ms : ℕ
  pub batch_size : ℕ

-- The texts of the errors.
unfoldable pub problem_text : Problem → String
problem_text Problem.payment_not_found = "Payment not found for validation"
problem_text Problem.payment_not_eligible = "Payment is not eligible for validation"
problem_text Problem.requirements_not_met = "Payment does not satisfy validation requirements."
problem_text Problem.not_validated = "Payment must be validated before reservation."
problem_text Problem.reservation_not_found = "Reservation not found for payment"
problem_text Problem.reservation_not_active = "Reservation is not active for settlement"
problem_text Problem.reservation_not_settled = "Reservation is not settled for return"
problem_text Problem.payment_not_submitted = "Payment is not submitted for settlement"
problem_text Problem.payment_not_settled = "Payment is not settled for return"
problem_text Problem.posted_debit_invalid = "Posted debit ledger entry is invalid for return"
problem_text Problem.exceeds_daily_limit = "Payment exceeds the merchant daily limit."
problem_text Problem.insufficient_funding = "Insufficient funding balance."
problem_text Problem.bank_event_payment_not_found = "Payment not found for bank settlement event"
problem_text Problem.bank_event_payment_not_settled =
    "Payment is not settled for bank settlement event"
problem_text Problem.event_not_claimed = "Outbox event is not claimed"
problem_text Problem.unsupported_event = "Unsupported outbox event type"
problem_text Problem.invalid_received_payload = "Invalid PAYMENT_RECEIVED payload"
problem_text Problem.invalid_payload = "Invalid lifecycle outbox payload"
problem_text Problem.not_webhook_eligible = "Outbox event is not webhook eligible"
problem_text Problem.demo_funding_not_positive = "Demo funding amount must be positive."
problem_text Problem.merchant_not_found = "Merchant was not found."
problem_text Problem.funding_account_not_active = "Funding account is not active."
problem_text Problem.eligible_payments_changed = "Eligible payments changed during NACHA generation"
problem_text Problem.idempotency_key_required = "Idempotency-Key header is required."
problem_text Problem.idempotency_key_reused =
    "Idempotency key reused with a different request payload."
problem_text Problem.payment_unreadable =
    "Payment could not be read after a concurrent idempotency conflict."
problem_text Problem.webhook_url_invalid = "Webhook endpoint URL is invalid."
problem_text Problem.webhook_url_not_https = "Webhook endpoint URL must use HTTPS."
problem_text Problem.webhook_endpoint_not_found = "Webhook endpoint was not found."
problem_text Problem.webhook_endpoint_disabled = "Webhook endpoint is disabled."
problem_text Problem.nacha_file_not_found = "NACHA file was not found."
problem_text Problem.nacha_file_payments_not_found = "NACHA file payments were not found."
problem_text Problem.not_an_integer = "Cannot convert to a BigInt"
problem_text Problem.merchant_code_exists = "Merchant code already exists."
problem_text Problem.bearer_key_required = "Bearer merchant API key is required."
problem_text Problem.invalid_api_key = "Invalid merchant API key."
problem_text Problem.amount_range_invalid = "The amount range is invalid."
problem_text Problem.date_range_invalid = "The date range is invalid."
problem_text Problem.custom_range_incomplete =
    "Custom date filtering requires a startDate or endDate."
problem_text (Problem.merchant_code_not_found code) = "Merchant " ++ code ++ " was not found."
problem_text (Problem.no_active_funding_account currency) =
    "No active " ++ currency ++ " funding account exists for merchant"

-- `safeErrorMessage`
unfoldable pub safe_error_message : Error → String
unfolding problem_text
safe_error_message (outbox_processing p) = problem_text p
safe_error_message _ = "Outbox event processing failed"

module _ (config : OutboxConfig) (handle : OutboxEvent → Action (Unit {0})) where
  -- The `try`: the handler, then the mark; each commits by itself.
  unfoldable pub handle_and_mark : OutboxEvent → Action ℕ
  unfolding transact
  handle_and_mark event db =
      let (r, db1) = handle event db in
      elim r [ ok u ↦ transact (mark_processed event.id) db1 | err e ↦ (err e, db1) ]

  -- `processClaimedEvent`
  unfoldable pub process_claimed_event : OutboxEvent → Action ℕ
  unfolding handle_and_mark safe_error_message transact
  process_claimed_event event db =
      let (r, db1) = handle_and_mark event db in
      elim r [
        | ok n ↦ (ok n, db1)
        | err e ↦ transact (mark_failed event config.max_attempts (safe_error_message e)) db1
      ]

  unfoldable pub process_events : List OutboxEvent → Action (Unit {0})
  unfolding process_claimed_event
  process_events [] db = (ok tt, db)
  process_events (e ∷ es) db =
      let (r, db1) = process_claimed_event e db in
      elim r [ ok n ↦ process_events es db1 | err x ↦ (err x, db1) ]

  -- `processOnce`
  unfoldable pub process_once : Action (Unit {0})
  unfolding process_events transact
  process_once db =
      let (r, db1) =
        transact (recover_expired_claims config.max_attempts config.claim_lease_ms) db in
      elim r [
        | err e ↦ (err e, db1)
        | ok n ↦
            let (c, db2) = transact (claim_pending config.batch_size) db1 in
            elim c [ ok events ↦ process_events events db2 | err e ↦ (err e, db2) ]
      ]
