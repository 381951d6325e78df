-- ===== src/Webhooks/Materializer.antt =====
-- The worker's webhooks/webhook-delivery-materializer.service.ts.
use achflow.Prelude.{
  ℕ, suc, String, Bool, true, ◌&&◌, none, some, List, [], ◌∷◌, ◌==◌, if◌then◌else◌, select, find,
}
use achflow.Schema.{
  Db, OutboxEvent, OutboxEventType, LifecyclePayload, Payload, lifecycle, malformed,
  MerchantWebhookEndpoint, DeliveryPayload, payment_notice, WebhookDelivery, WebhookDeliveryStatus,
  Tx, ok, gets, modify, ◌>>=◌, ◌>>◌, Action, transact, err, outbox_processing, invalid_payload,
}

-- `externalEventTypes`, which has a name for every event type.
unfoldable pub external_event_type : OutboxEventType → String
external_event_type OutboxEventType.payment_received = "payment.created"
external_event_type OutboxEventType.payment_validated = "payment.validated"
external_event_type OutboxEventType.payment_validation_failed = "payment.validation_failed"
external_event_type OutboxEventType.payment_reserved = "payment.reserved"
external_event_type OutboxEventType.payment_submitted = "payment.submitted"
external_event_type OutboxEventType.payment_settled = "payment.settled"
external_event_type OutboxEventType.payment_returned = "payment.returned"
external_event_type OutboxEventType.webhook_test = "webhook.test"

abbrev pub is_endpoint_of : ℕ → MerchantWebhookEndpoint → Bool
is_endpoint_of merchant endpoint = endpoint.merchant_id == merchant && endpoint.is_active

-- `merchantWebhookEndpoint.findMany({ where: { merchantId, isActive: true } })`
abbrev pub active_endpoints : ℕ → Db → List MerchantWebhookEndpoint
active_endpoints merchant db = select (is_endpoint_of merchant) db.webhook_endpoints

-- The unique key of a delivery, which its `eventId` spells out.
abbrev pub is_delivery_of : (endpoint event : ℕ) → WebhookDelivery → Bool
is_delivery_of endpoint event d = d.webhook_endpoint_id == endpoint && d.outbox_event_id == event

unfoldable pub delivery_payload : OutboxEvent → LifecyclePayload → ℕ → DeliveryPayload
delivery_payload event source endpoint = record {
  event = event.id;
  endpoint = endpoint;
  type = external_event_type event.event_type;
  created_at = event.created_at;
  merchant_id = source.merchant_id;
  payment_id = source.payment_id;
  payment_status = source.payment_status;
  amount_cents = source.amount_cents;
  currency = source.currency;
  direction = source.direction;
  validation_code = source.validation_code;
  return_code = source.return_code;
}

unfoldable pub new_delivery : OutboxEvent → LifecyclePayload → ℕ → Db → WebhookDelivery
unfolding delivery_payload
new_delivery event source endpoint db = record {
  id = db.next_id;
  merchant_id = source.merchant_id;
  webhook_endpoint_id = endpoint;
  outbox_event_id = event.id;
  event_type = external_event_type event.event_type;
  payload = payment_notice (delivery_payload event source endpoint);
  status = WebhookDeliveryStatus.pending;
  attempt_count = 0;
  next_attempt_at = some db.clock;
  last_attempt_at = none;
  delivered_at = none;
  response_status = none;
  last_error_code = none;
  claimed_at = none;
  claimed_by = none;
  created_at = db.clock;
}

-- One row of `createMany` with `skipDuplicates`.
unfoldable pub create_delivery : OutboxEvent → LifecyclePayload → ℕ → Db → Db
unfolding new_delivery
create_delivery event source endpoint db =
    elim (find (is_delivery_of endpoint event.id) db.webhook_deliveries) [
      | some d ↦ db
      | none ↦ record db {
        next_id = suc db.next_id;
        webhook_deliveries = new_delivery event source endpoint db ∷ db.webhook_deliveries;
      }
    ]

unfoldable pub create_deliveries :
    OutboxEvent → LifecyclePayload → List MerchantWebhookEndpoint → Db → Db
unfolding create_delivery
create_deliveries event source [] db = db
create_deliveries event source (e ∷ es) db =
    create_deliveries event source es (create_delivery event source e.id db)

unfoldable pub is_endpoint_among : List MerchantWebhookEndpoint → ℕ → Bool
is_endpoint_among [] i = Bool.false
is_endpoint_among (e ∷ es) i = if e.id == i then true else is_endpoint_among es i

-- `webhookDelivery.findMany({ where: { outboxEventId, webhookEndpointId: { in } } })`
abbrev pub deliveries_to : ℕ → List MerchantWebhookEndpoint → Db → List WebhookDelivery
deliveries_to event endpoints db =
    select (λ d. d.outbox_event_id == event && is_endpoint_among endpoints d.webhook_endpoint_id)
      db.webhook_deliveries

unfoldable pub deliver_to_all : OutboxEvent → LifecyclePayload → Tx (List WebhookDelivery)
unfolding create_deliveries
deliver_to_all event source = do
  endpoints ← gets (active_endpoints source.merchant_id)
  modify (create_deliveries event source endpoints)
  gets (deliveries_to event.id endpoints)

-- What `materialize` does with an event that is not a test.
unfoldable pub materialize_payload : OutboxEvent → Payload → Action (List WebhookDelivery)
unfolding deliver_to_all transact
materialize_payload event malformed db = (err (outbox_processing invalid_payload), db)
materialize_payload event (lifecycle source) db = transact (deliver_to_all event source) db

unfoldable pub materialize : OutboxEvent → Action (List WebhookDelivery)
unfolding materialize_payload
materialize event db = elim event.event_type [
  | OutboxEventType.webhook_test ↦
      (ok (select (λ d. d.outbox_event_id == event.id) db.webhook_deliveries), db)
  | _ ↦ materialize_payload event event.payload db
]
