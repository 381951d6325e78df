-- ===== src/Events.antt =====
-- apps/api/prisma/payment-lifecycle-event.factory.ts: the outbox event of a lifecycle transition.
use achflow.Prelude.{ℕ, String, Option}
use achflow.Schema.{
  Payment, OutboxEvent, OutboxEventType, payment_event, lifecycle, Tx, create_event,
}

-- `outboxEvent.create({ data: paymentLifecycleOutboxEvent(payment, type, at, returnCode) })`
unfoldable pub create_lifecycle_event :
    Payment → OutboxEventType → (occurred_at : ℕ) → (return_code : Option String) → Tx OutboxEvent
create_lifecycle_event p type at code = create_event (payment_event p.id type) type p.id (
    lifecycle (record {
      payment_id = p.id;
      merchant_id = p.merchant_id;
      payment_status = p.status;
      amount_cents = p.amount_cents;
      currency = p.currency;
      direction = p.direction;
      validation_code = p.validation_code;
      return_code = code;
      occurred_at = at;
    }))
