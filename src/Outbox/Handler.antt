-- ===== src/Outbox/Handler.antt =====
-- The worker's outbox/outbox.handler.ts.
use achflow.Prelude.{Option, none, some}
use achflow.Prelude.Int.{ℤ, pos, negsuc}
use achflow.Schema.{
  OutboxEvent, OutboxEventType, LifecyclePayload, Payload, lifecycle, malformed, err, Action,
  outbox_processing, invalid_received_payload,
}
use achflow.Schema.Actions.{return, ◌>>◌}
use achflow.Validation.{validate}
use achflow.Webhooks.Materializer.{materialize}

-- `/^\d+$/.test(amountCents)` on the digits of a `bigint`.
abbrev pub with_digits : ℤ → LifecyclePayload → Option LifecyclePayload
with_digits (pos n) payload = some payload
with_digits (negsuc n) payload = none

-- `parsePaymentReceivedPayload`: of the payloads that the code writes, it refuses those with a
-- negative amount and those that are not of a payment.
unfoldable pub parse_payment_received_payload : Payload → Option LifecyclePayload
parse_payment_received_payload malformed = none
parse_payment_received_payload (lifecycle payload) = with_digits payload.amount_cents payload

-- The branch of `PAYMENT_RECEIVED`.
unfoldable pub handle_received : OutboxEvent → Action (Unit {0})
unfolding parse_payment_received_payload
handle_received event db = elim (parse_payment_received_payload event.payload) [
  | none ↦ (err (outbox_processing invalid_received_payload), db)
  | some payload ↦ (do validate payload.payment_id event.id; materialize event; return tt) db
]

-- `handle`; every event type but `PAYMENT_RECEIVED` is in the list of the types that are only
-- materialized.
unfoldable pub handle : OutboxEvent → Action (Unit {0})
unfolding handle_received
handle event db = elim event.event_type [
  | OutboxEventType.payment_received ↦ handle_received event db
  | _ ↦ (do materialize event; return tt) db
]
