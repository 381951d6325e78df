-- ===== src/Webhooks/References.antt =====
-- What merchants do with their endpoints leaves every delivery its endpoint.
use achflow.Prelude.{
  ℕ, String, Bool, true, false, ◌&&◌, not, ◌≡◌, refl, Option, List, [], ◌∷◌, ◌==◌, All, Bool-cases,
  Option-cases, inl, inr, ◌⊎◌, arith, find, update, select, count,
}
use achflow.Schema.{Db, MerchantWebhookEndpoint, WebhookDelivery, ok}
use achflow.Webhooks.Materializer.{is_endpoint_among}
use achflow.Webhooks.Endpoints.{
  Url, UpdateWebhookEndpointDto, Removal, endpoint_with, delivered_to, scoped_endpoint,
  update_endpoint, delete_endpoint, remove, create, update_owned, apply_update,
}

-- A delivery's endpoint is in the table.
abbrev pub References : List MerchantWebhookEndpoint → List WebhookDelivery → Type 0
References es ds = All (λ d. is_endpoint_among es d.webhook_endpoint_id ≡ true) ds

abbrev pub Referenced : Db → Type 0
Referenced db = References db.webhook_endpoints db.webhook_deliveries

-- The deliveries stay referenced where no id that they have is lost.
References-map :
    (es es' : List MerchantWebhookEndpoint) (ds : List WebhookDelivery)
    → All
        (λ d.
          is_endpoint_among es d.webhook_endpoint_id ≡ true
          → is_endpoint_among es' d.webhook_endpoint_id ≡ true)
        ds
    → References es ds
    → References es' ds
References-map es es' [] h r = tt
References-map es es' (d ∷ ds) h r = (h.0 r.0, References-map es es' ds h.1 r.1)

every :
    {P : WebhookDelivery → Type 0} (ds : List WebhookDelivery)
    → ((d : WebhookDelivery) → P d)
    → All P ds
every [] h = tt
every (d ∷ ds) h = (h d, every ds h)

among-update :
    (c : MerchantWebhookEndpoint → Bool) (f : MerchantWebhookEndpoint → MerchantWebhookEndpoint)
    (es : List MerchantWebhookEndpoint) (i : ℕ)
    → ((e : MerchantWebhookEndpoint) → MerchantWebhookEndpoint.id (f e) ≡ e.id)
    → is_endpoint_among (update c f es) i ≡ is_endpoint_among es i
unfolding is_endpoint_among update
among-update c f [] i k = refl
among-update c f (e ∷ es) i k = ground (arith, k e, among-update c f es i k)

among-select :
    (k : ℕ) (es : List MerchantWebhookEndpoint) (i : ℕ)
    → (i == k) ≡ false
    → is_endpoint_among (select (λ e. not (endpoint_with k e)) es) i ≡ is_endpoint_among es i
unfolding is_endpoint_among select
among-select k [] i ne = refl
among-select k (e ∷ es) i ne = ground (arith, ne, among-select k es i ne)

undelivered :
    (k : ℕ) (es : List MerchantWebhookEndpoint) (ds : List WebhookDelivery)
    → count (delivered_to k) ds ≡ 0
    → References es ds
    → References (select (λ e. not (endpoint_with k e)) es) ds
unfolding count
undelivered k es [] z r = tt
undelivered k es (d ∷ ds) z r = (
  ground (arith, z, r.0, among-select k es d.webhook_endpoint_id),
  undelivered k es ds (ground (arith, z)) r.1,
)

updated-Referenced :
    (db : Db) (k : ℕ) (f : MerchantWebhookEndpoint → MerchantWebhookEndpoint)
    → ((x : MerchantWebhookEndpoint) → MerchantWebhookEndpoint.id (f x) ≡ x.id)
    → Referenced db
    → References (update (endpoint_with k) f db.webhook_endpoints) db.webhook_deliveries
updated-Referenced db k f keep r =
    References-map db.webhook_endpoints _ db.webhook_deliveries
      (every db.webhook_deliveries (λ d a.
        rw (among-update (endpoint_with k) f db.webhook_endpoints d.webhook_endpoint_id keep) a))
      r

pub among_more :
    (e : MerchantWebhookEndpoint) (es : List MerchantWebhookEndpoint) (i : ℕ)
    → is_endpoint_among es i ≡ true
    → is_endpoint_among (e ∷ es) i ≡ true
unfolding is_endpoint_among
among_more e es i h = ground (arith, h)

module _ (parse : String → Option Url) (production : Bool) (db db' : Db)
    (e : MerchantWebhookEndpoint) where
  created :
      (merchant : ℕ) (url : String)
      → create parse production merchant url db ≡ ok (e, db')
      → (db'.webhook_endpoints ≡ e ∷ db.webhook_endpoints)
        × (db'.webhook_deliveries ≡ db.webhook_deliveries)
  unfolding create
  created merchant url h = (ground arith, ground arith)

  pub create-Referenced :
      (merchant : ℕ) (url : String)
      → Referenced db
      → create parse production merchant url db ≡ ok (e, db')
      → Referenced db'
  create-Referenced merchant url r h =
      let (es, ds) = created merchant url h in
      rw (es, ds)
        (References-map db.webhook_endpoints (e ∷ db.webhook_endpoints) db.webhook_deliveries
          (every db.webhook_deliveries
            (λ d a. among_more e db.webhook_endpoints d.webhook_endpoint_id a))
          r)

  changed :
      (id merchant : ℕ) (dto : UpdateWebhookEndpointDto)
      → update_owned parse production id merchant dto db ≡ ok (e, db')
      → (k : ℕ) × (db'.webhook_endpoints
          ≡ update (endpoint_with k) (apply_update parse production dto) db.webhook_endpoints)
        × (db'.webhook_deliveries ≡ db.webhook_deliveries)
  unfolding update_owned scoped_endpoint update_endpoint
  changed id merchant dto h =
      elim (Option-cases
        (find (λ x. x.id == id && x.merchant_id == merchant) db.webhook_endpoints)) [
          | inl missing ↦ absurd (ground arith)
          | inr (x, found) ↦ (x.id, ground arith, ground arith)
        ]

  pub update-Referenced :
      (id merchant : ℕ) (dto : UpdateWebhookEndpointDto)
      → Referenced db
      → update_owned parse production id merchant dto db ≡ ok (e, db')
      → Referenced db'
  update-Referenced id merchant dto r h =
      let (k, es, ds) = changed id merchant dto h in
      rw (es, ds) (updated-Referenced db k (apply_update parse production dto) (λ x. refl) r)

module _ (id merchant : ℕ) (db db' : Db) (a : Removal) where
  -- A removal disables the endpoint, or deletes it where nothing was delivered to it.
  removed :
      remove id merchant db ≡ ok (a, db')
      → (k : ℕ) × (db'.webhook_deliveries ≡ db.webhook_deliveries)
        × ((db'.webhook_endpoints
              ≡ update (endpoint_with k) (λ e. record e { is_active = false }) db.webhook_endpoints)
            ⊎ ((count (delivered_to k) db.webhook_deliveries ≡ 0)
                × (db'.webhook_endpoints
                    ≡ select (λ e. not (endpoint_with k e)) db.webhook_endpoints)))
  unfolding remove scoped_endpoint update_endpoint delete_endpoint
  removed h =
      elim (Option-cases
        (find (λ x. x.id == id && x.merchant_id == merchant) db.webhook_endpoints)) [
          | inl missing ↦ absurd (ground arith)
          | inr (x, found) ↦
              elim (Bool-cases (count (delivered_to x.id) db.webhook_deliveries == 0)) [
                | inl empty ↦ (x.id, ground arith, inr (ground arith, ground arith))
                | inr some_left ↦ (x.id, ground arith, inl (ground arith))
              ]
        ]

  pub remove-Referenced : Referenced db → remove id merchant db ≡ ok (a, db') → Referenced db'
  remove-Referenced r h =
      let (k, ds, es) = removed h in
      elim es [
        | inl disabled ↦
            rw (disabled, ds)
              (updated-Referenced db k (λ e. record e { is_active = false }) (λ x. refl) r)
        | inr (empty, deleted) ↦
            rw (deleted, ds) (undelivered k db.webhook_endpoints db.webhook_deliveries empty r)
      ]
