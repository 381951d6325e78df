-- ===== src/Tests/Hooks.antt =====
-- An instance of the theorem on endpoints and their deliveries.
use achflow.Prelude.{refl, String, false, Option, some, find, update, select, count}
use achflow.Schema.{
  Db, OutboxEvent, transact, lifecycle, PaymentDirection, PaymentStatus, OutboxEventStatus,
}
use achflow.Webhooks.Materializer.{
  materialize, materialize_payload, deliver_to_all, create_deliveries, create_delivery,
  new_delivery, is_endpoint_among,
}
use achflow.Webhooks.Endpoints.{
  Url, create, validate_url, validate_parsed, remove, scoped_endpoint, update_endpoint,
  delete_endpoint,
}
use achflow.Webhooks.References.{Referenced}
use achflow.Webhooks.Hooks.{
  HookSteps, unhooked, hooked, creates, removes, materializes, hooks-Referenced,
}
use achflow.Tests.Sample.{store, left, event}
use achflow.Prelude.Int.{pos}

unfoldable runs : Unit {0}
unfolding create validate_url validate_parsed remove scoped_endpoint update_endpoint delete_endpoint
    find update select count materialize materialize_payload deliver_to_all create_deliveries
    create_delivery new_delivery transact is_endpoint_among
runs = tt

abbrev parse : String → Option Url
parse s = some (record { username = ""; password = ""; protocol = "https:" })

-- Merchant 1 registers an endpoint, an event is delivered to it, and the merchant removes it, which
-- disables it.
abbrev registered : Db
registered = left (create parse false 1 "https://acme.test") store

abbrev notice : OutboxEvent
notice = record (event 30 12 OutboxEventStatus.processing) {
  payload = lifecycle (record {
    payment_id = 12;
    merchant_id = 1;
    payment_status = PaymentStatus.received;
    amount_cents = pos 3000;
    currency = "USD";
    direction = PaymentDirection.credit;
    validation_code = Option.none;
    return_code = Option.none;
    occurred_at = 0;
  });
}

abbrev notified : Db
notified = (materialize notice registered).1

abbrev removed : Db
removed = left (remove 100 1) notified

history : HookSteps parse false store removed
unfolding runs
history =
    hooked
      (hooked (hooked unhooked (creates 1 "https://acme.test" _ refl)) (materializes notice refl))
      (removes 100 1 _ refl)

hooks-Referenced_example : Referenced removed
hooks-Referenced_example = hooks-Referenced tt history
