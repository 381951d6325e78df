-- ===== src/Webhooks/Testing.antt =====
-- `enqueueTest` of the API's webhooks/merchant-webhook-endpoints.service.ts.
use achflow.Prelude.{ℕ, suc, none, some, ◌∷◌, not, find}
use achflow.Schema.{
  Db, OutboxEvent, OutboxEventType, MerchantWebhookEndpoint, WebhookDelivery, WebhookDeliveryStatus,
  test_notice, webhook_test_key, malformed, Tx, ok, err, gets, throw_if, ◌>>=◌, ◌>>◌, bad_request,
  unique_constraint, create_event, webhook_endpoint_disabled,
}
use achflow.Webhooks.Materializer.{is_delivery_of}
use achflow.Webhooks.Endpoints.{scoped_endpoint}

abbrev test_delivery :
    (merchant : ℕ) → MerchantWebhookEndpoint → OutboxEvent → (now : ℕ) → Db → WebhookDelivery
test_delivery merchant endpoint outbox now db = record {
  id = db.next_id;
  merchant_id = merchant;
  webhook_endpoint_id = endpoint.id;
  outbox_event_id = outbox.id;
  event_type = "webhook.test";
  payload = test_notice outbox.id endpoint.id now merchant;
  status = WebhookDeliveryStatus.pending;
  attempt_count = 0;
  next_attempt_at = some db.clock;
  last_attempt_at = none;
  delivered_at = none;
  response_status = none;
  last_error_code = none;
  claimed_at = none;
  claimed_by = none;
  created_at = db.clock;
}

-- `tx.webhookDelivery.create`, where the pair of endpoint and event is unique.
unfoldable pub create_test_delivery :
    (merchant : ℕ) → MerchantWebhookEndpoint → OutboxEvent → (now : ℕ) → Tx WebhookDelivery
create_test_delivery merchant endpoint outbox now db =
    let d = test_delivery merchant endpoint outbox now db in
    elim (find (is_delivery_of endpoint.id outbox.id) db.webhook_deliveries) [
      | some _ ↦ err unique_constraint
      | none ↦ ok (
        d,
        record db { next_id = suc db.next_id; webhook_deliveries = d ∷ db.webhook_deliveries },
      )
    ]

-- The payload of the event is no lifecycle payload.
unfoldable pub enqueue_test : (id merchant : ℕ) → Tx WebhookDelivery
unfolding create_test_delivery
enqueue_test id merchant = do
  endpoint ← scoped_endpoint id merchant
  throw_if (not endpoint.is_active) (bad_request webhook_endpoint_disabled)
  now ← gets (λ db. db.clock)
  outbox ←
      create_event (webhook_test_key endpoint.id now) OutboxEventType.webhook_test endpoint.id
        malformed
  create_test_delivery merchant endpoint outbox now
