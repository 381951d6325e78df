-- ===== src/Tests/Outboxes.antt =====
-- Instances of the theorems on the outbox and the webhooks.
use achflow.Prelude.{
  min, length, ℕ, ◌≡◌, refl, true, none, some, List, [], ◌∷◌, arith, ◌==◌, All, select, find,
  update, count, ℕ_discrete, String_discrete,
}
use achflow.Prelude.Int.{pos}
use achflow.Schema.{
  Db, OutboxEvent, OutboxEventStatus, OutboxEventType, PaymentDirection, PaymentStatus, lifecycle,
  LifecyclePayload, MerchantWebhookEndpoint, WebhookDelivery, WebhookDeliveryStatus, ok, transact,
  update_events, event_status_discrete, event_type_discrete, delivery_status_discrete,
}
use achflow.Schema.Ids.{WellFormed}
use achflow.Outbox.Repository.{
  is_due, due_events, claim_pending, mark_failed, insert, in_order, is_among, update_claimed_event,
}
use achflow.Outbox.Queue.{IsBefore, claim_oldest}
use achflow.Outbox.Bounds.{Bounded}
use achflow.Outbox.Attempts.{OutboxReach, here, next, claims, attempts-Bounded}
use achflow.Outbox.Handler.{handle}
use achflow.Outbox.Polling.{OutboxConfig, process_once}
use achflow.Outbox.Progress.{poll_completes}
use achflow.Webhooks.Materializer.{
  active_endpoints, materialize, materialize_payload, deliver_to_all, create_deliveries,
  create_delivery, new_delivery, is_endpoint_among, delivery_payload, external_event_type,
}
use achflow.Webhooks.Processor.{WebhookConfig, Reply, response, process}
use achflow.Webhooks.Once.{HasDelivery, materialized_everywhere}
use achflow.Webhooks.Outcomes.{Attempted, processed-Attempted}
use achflow.Tests.Sample.{store, left, event}

-- Names what the runs below compute through.
unfoldable runs : Unit {0}
unfolding claim_pending due_events insert in_order is_among update_events mark_failed
    update_claimed_event select find update count materialize materialize_payload deliver_to_all
    create_deliveries create_delivery new_delivery delivery_payload external_event_type
    is_endpoint_among transact event_status_discrete event_type_discrete delivery_status_discrete
    ℕ_discrete String_discrete
runs = tt

abbrev claimed_event : OutboxEvent
claimed_event = event 30 12 OutboxEventStatus.processing

-- Two events wait, and one is being processed.
abbrev busy : Db
busy = record store {
  outbox_events =
      event 32 10 OutboxEventStatus.pending
      ∷ event 31 11 OutboxEventStatus.pending
      ∷ claimed_event
      ∷ [];
}

busy-WellFormed : WellFormed busy
busy-WellFormed = omega arith

abbrev after_claim : Db
after_claim = left (claim_pending 1) busy

abbrev config : OutboxConfig
config = record { max_attempts = 5; claim_lease_ms = 30000; batch_size = 10 }

abbrev claimed_first : OutboxEvent
claimed_first = record (event 32 10 OutboxEventStatus.pending) {
  status = OutboxEventStatus.processing;
  attempts = 2;
  claimed_at = some 1000;
}

claim_oldest_example :
    All
      (λ e. All (λ x. IsBefore e x) (select (is_due 1000) after_claim.outbox_events))
      (claimed_first ∷ [])
    × (1 ≡ min 1 (length (select (is_due 1000) busy.outbox_events)))
unfolding runs
claim_oldest_example = claim_oldest 1 busy after_claim (claimed_first ∷ []) refl

busy-Bounded : Bounded 5 busy
busy-Bounded = (
  (omega arith, λ e. omega arith),
  ((omega arith, λ e. omega arith), ((omega arith, λ e. omega arith), tt)),
)

claimed_once : OutboxReach 5 busy after_claim
unfolding runs
claimed_once = next here (claims 1 _ refl)

attempts-Bounded_example : Bounded 5 after_claim
attempts-Bounded_example =
    attempts-Bounded 5 busy after_claim busy-WellFormed busy-Bounded claimed_once

abbrev after_failure : Db
after_failure = left (mark_failed claimed_event 5 "Payment not found for validation") busy

poll_completes_example : (db' : Db) × (process_once config handle busy ≡ (ok tt, db'))
poll_completes_example = poll_completes config handle busy

abbrev endpoint : MerchantWebhookEndpoint
endpoint = record { id = 40; merchant_id = 1; url = "https://example.com/hook"; is_active = true }

abbrev source : LifecyclePayload
source = record {
  payment_id = 12;
  merchant_id = 1;
  payment_status = PaymentStatus.validated;
  amount_cents = pos 3000;
  currency = "USD";
  direction = PaymentDirection.credit;
  validation_code = none;
  return_code = none;
  occurred_at = 900;
}

abbrev validated_event : OutboxEvent
validated_event = record claimed_event {
  event_type = OutboxEventType.payment_validated;
  payload = lifecycle source;
}

abbrev hooked : Db
hooked = record store { webhook_endpoints = endpoint ∷ [] }

abbrev new_deliveries : List WebhookDelivery
new_deliveries = new_delivery validated_event source 40 hooked ∷ []

abbrev after_materialize : Db
after_materialize = (materialize validated_event hooked).1

materialized_everywhere_example : All (HasDelivery 30 after_materialize) (active_endpoints 1 hooked)
unfolding runs
materialized_everywhere_example =
    materialized_everywhere validated_event source hooked after_materialize new_deliveries
      (λ e. ground arith) refl refl

abbrev webhook_config : WebhookConfig
webhook_config = record {
  claim_timeout_seconds = 60;
  batch_size = 10;
  worker_id = "worker";
  max_attempts = 8;
  initial_retry_seconds = 30;
  max_retry_seconds = 3600;
}

-- An endpoint that is unavailable.
abbrev unavailable : MerchantWebhookEndpoint → WebhookDelivery → ℕ → Reply
unavailable at d now = response 503

abbrev delivery : WebhookDelivery
delivery = record (new_delivery validated_event source 40 hooked) {
  status = WebhookDeliveryStatus.processing;
  claimed_at = some 1000;
  claimed_by = some "worker";
}

abbrev delivering : Db
delivering = record hooked { webhook_deliveries = delivery ∷ [] }

processed-Attempted_example :
    (db' : Db) × (process webhook_config unavailable delivery delivering ≡ ok (tt, db'))
    × ((after : WebhookDelivery) × (find (λ x. x.id == delivery.id) db'.webhook_deliveries
          ≡ some after)
        × Attempted webhook_config 1000 delivery after)
unfolding runs
processed-Attempted_example =
    processed-Attempted webhook_config unavailable delivery delivering refl
