-- ===== src/Webhooks/Delivering.antt =====
-- The worker's materialization of an event adds deliveries to endpoints of the table.
use achflow.Prelude.{
  ℕ, Bool, true, ◌≡◌, refl, subst, List, [], ◌∷◌, All, Bool-cases, Option-cases, inl, inr, arith,
  find, select, eq_refl,
}
use achflow.Schema.{
  Db, OutboxEvent, LifecyclePayload, Payload, lifecycle, malformed, MerchantWebhookEndpoint,
  transact, OutboxEventType, event_type_discrete,
}
use achflow.Webhooks.Materializer.{
  is_endpoint_among, create_delivery, create_deliveries, new_delivery, materialize,
  materialize_payload, deliver_to_all, active_endpoints, is_endpoint_of, is_delivery_of,
}
use achflow.Webhooks.References.{Referenced, among_more}

-- The endpoints that an event is delivered to are in the table.
abbrev Among : List MerchantWebhookEndpoint → MerchantWebhookEndpoint → Type 0
Among es e = is_endpoint_among es e.id ≡ true

more-Among :
    (x : MerchantWebhookEndpoint) (es ts : List MerchantWebhookEndpoint)
    → All (Among es) ts
    → All (Among (x ∷ es)) ts
more-Among x es [] h = tt
more-Among x es (t ∷ ts) h = (among_more x es t.id h.0, more-Among x es ts h.1)

self-Among : (es : List MerchantWebhookEndpoint) → All (Among es) es
unfolding is_endpoint_among
self-Among [] = tt
self-Among (e ∷ es) = (ground (arith, eq_refl e.id), more-Among e es es (self-Among es))

select-Among :
    (q : MerchantWebhookEndpoint → Bool) (es ts : List MerchantWebhookEndpoint)
    → All (Among es) ts
    → All (Among es) (select q ts)
unfolding select
select-Among q es [] h = tt
select-Among q es (t ∷ ts) h = elim (Bool-cases (q t)) [
  | inl yes_q ↦ rw yes_q (h.0, select-Among q es ts h.1)
  | inr no_q ↦ rw no_q (select-Among q es ts h.1)
]

module _ (event : OutboxEvent) (source : LifecyclePayload) where
  delivery_made :
      (db : Db) (i : ℕ)
      → is_endpoint_among db.webhook_endpoints i ≡ true
      → Referenced db
      → ((create_delivery event source i db).webhook_endpoints ≡ db.webhook_endpoints)
        × Referenced (create_delivery event source i db)
  unfolding create_delivery new_delivery
  delivery_made db i a r =
      elim (Option-cases (find (is_delivery_of i event.id) db.webhook_deliveries)) [
        | inl e ↦ rw (create_delivery, e) (refl, (a, r))
        | inr (d, e) ↦ rw (create_delivery, e) (refl, r)
      ]

  deliveries_made :
      (es : List MerchantWebhookEndpoint) (db : Db)
      → All (Among db.webhook_endpoints) es
      → Referenced db
      → Referenced (create_deliveries event source es db)
  unfolding create_deliveries
  deliveries_made [] db a r = r
  deliveries_made (e ∷ es) db a r =
      let (same_table, kept) = delivery_made db e.id a.0 r in
      deliveries_made es (create_delivery event source e.id db) (rw same_table a.1) kept

  payload-Referenced :
      (db : Db) → Referenced db → Referenced (materialize_payload event (lifecycle source) db).1
  unfolding materialize_payload deliver_to_all transact
  payload-Referenced db r =
      deliveries_made (active_endpoints source.merchant_id db) db
        (select-Among (is_endpoint_of source.merchant_id) db.webhook_endpoints db.webhook_endpoints
          (self-Among db.webhook_endpoints))
        r

pub materialize-Referenced :
    (event : OutboxEvent) (db : Db) → Referenced db → Referenced (materialize event db).1
unfolding materialize materialize_payload
materialize-Referenced event db r =
    elim (event_type_discrete event.event_type OutboxEventType.webhook_test) [
      | yes test ↦ subst Referenced {x = db} {y = (materialize event db).1} (ground (arith, test)) r
      | no other ↦
          subst Referenced {x = (materialize_payload event event.payload db).1}
            {y = (materialize event db).1} (ground (arith, other)) (any_payload event.payload)
    ]
  where
    any_payload : (p : Payload) → Referenced (materialize_payload event p db).1
    any_payload malformed = r
    any_payload (lifecycle source) = payload-Referenced event source db r
