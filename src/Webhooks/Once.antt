-- ===== src/Webhooks/Once.antt =====
-- Every active endpoint of the merchant gets one delivery of an event, however often it is handled.
use achflow.Prelude.{
  ℕ, ◌≡◌, ◌≢◌, refl, sym, some, List, [], ◌∷◌, All, find, arith, inl, inr, Option-cases,
}
use achflow.Schema.{
  Db, OutboxEvent, OutboxEventType, Payload, LifecyclePayload, lifecycle, malformed,
  MerchantWebhookEndpoint, WebhookDelivery, Result, ok, err, transact,
}
use achflow.Webhooks.Materializer.{
  is_delivery_of, active_endpoints, create_delivery, create_deliveries, deliver_to_all, materialize,
  materialize_payload, new_delivery,
}

-- There is a delivery of the event to the endpoint.
abbrev pub HasDelivery : ℕ → Db → MerchantWebhookEndpoint → Type 0
HasDelivery event db endpoint =
    (d : WebhookDelivery) × (find (is_delivery_of endpoint.id event) db.webhook_deliveries ≡ some d)

module _ (event : OutboxEvent) (source : LifecyclePayload) where
  creates :
      (i : ℕ) (db : Db)
      → (d : WebhookDelivery) × (find
            (is_delivery_of i event.id)
            (create_delivery event source i db).webhook_deliveries
          ≡ some d)
  unfolding create_delivery new_delivery find
  creates i db = elim (Option-cases (find (is_delivery_of i event.id) db.webhook_deliveries)) [
    | inl e ↦ (new_delivery event source i db, ground (arith, e))
    | inr (d, e) ↦ (d, ground (arith, e))
  ]

  keeps :
      (i : ℕ) (db : Db) (e : MerchantWebhookEndpoint)
      → HasDelivery event.id db e
      → HasDelivery event.id (create_delivery event source i db) e
  unfolding create_delivery new_delivery find
  keeps i db e (d, h) = (d, ground (arith, h))

  keeps_all :
      (es : List MerchantWebhookEndpoint) (db : Db) (e : MerchantWebhookEndpoint)
      → HasDelivery event.id db e
      → HasDelivery event.id (create_deliveries event source es db) e
  unfolding create_deliveries
  keeps_all [] db e h = h
  keeps_all (x ∷ es) db e h =
      keeps_all es (create_delivery event source x.id db) e (keeps x.id db e h)

  -- Afterwards every endpoint of the list has a delivery.
  covers :
      (es : List MerchantWebhookEndpoint) (db : Db)
      → All (HasDelivery event.id (create_deliveries event source es db)) es
  unfolding create_deliveries
  covers [] db = tt
  covers (e ∷ es) db = (
    keeps_all es (create_delivery event source e.id db) e (creates e.id db),
    covers es (create_delivery event source e.id db),
  )

  -- Where every endpoint has one, nothing is created.
  creates_none :
      (es : List MerchantWebhookEndpoint) (db : Db)
      → All (HasDelivery event.id db) es
      → create_deliveries event source es db ≡ db
  unfolding create_deliveries create_delivery
  creates_none [] db a = refl
  creates_none (e ∷ es) db a = let had = a.0.1 in ground (arith, had, creates_none es db a.1)

  same_endpoints :
      (es : List MerchantWebhookEndpoint) (db : Db)
      → (create_deliveries event source es db).webhook_endpoints ≡ db.webhook_endpoints
  unfolding create_deliveries create_delivery
  same_endpoints [] db = refl
  same_endpoints (e ∷ es) db =
      ground (arith, same_endpoints es (create_delivery event source e.id db))

  pub delivered_to_all :
      (db db' : Db) (ds : List WebhookDelivery)
      → deliver_to_all event source db ≡ ok (ds, db')
      → All (HasDelivery event.id db') (active_endpoints source.merchant_id db)
  unfolding deliver_to_all
  delivered_to_all db db' ds h =
      let at : create_deliveries event source (active_endpoints source.merchant_id db) db ≡ db' =
        ground arith in
      rw (sym at) (covers (active_endpoints source.merchant_id db) db)

  pub delivered_again :
      (db db' : Db) (ds : List WebhookDelivery)
      → deliver_to_all event source db ≡ ok (ds, db')
      → deliver_to_all event source db' ≡ ok (ds, db')
  unfolding deliver_to_all
  delivered_again db db' ds h =
      let es = active_endpoints source.merchant_id db in
      let at : create_deliveries event source es db ≡ db' = ground arith in
      let again = creates_none es db' (delivered_to_all db db' ds h) in
      ground (arith, again, at, same_endpoints es db)

-- When an event of a payment is materialized, every active endpoint of the payment's merchant has
-- a delivery of it.
pub materialized_everywhere :
    (event : OutboxEvent) (source : LifecyclePayload) (db db' : Db) (ds : List WebhookDelivery)
    → event.event_type ≢ OutboxEventType.webhook_test
    → event.payload ≡ lifecycle source
    → materialize event db ≡ (ok ds, db')
    → All (HasDelivery event.id db') (active_endpoints source.merchant_id db)
unfolding materialize materialize_payload transact
materialized_everywhere event source db db' ds t p h =
    delivered_to_all event source db db' ds (ground arith)

again_by_payload :
    (event : OutboxEvent) (payload : Payload) (db db' : Db) (r : Result (List WebhookDelivery))
    → materialize_payload event payload db ≡ (r, db')
    → materialize_payload event payload db' ≡ (r, db')
unfolding materialize_payload transact
again_by_payload event malformed db db' r h = ground arith
again_by_payload event (lifecycle source) db db' (ok ds) h =
    ground (arith, delivered_again event source db db' ds (ground arith))
again_by_payload event (lifecycle source) db db' (err e) h = ground arith

-- An event that is materialized again gives the same answer and creates no delivery.
materialize_twice :
    (event : OutboxEvent) (db db' : Db) (r : Result (List WebhookDelivery))
    → materialize event db ≡ (r, db')
    → materialize event db' ≡ (r, db')
unfolding materialize
materialize_twice event db db' r h = ground (arith, again_by_payload event event.payload db db' r)
