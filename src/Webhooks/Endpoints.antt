-- ===== src/Webhooks/Endpoints.antt =====
-- `create`, `update` and `remove` of the API's webhooks/merchant-webhook-endpoints.service.ts. The
-- parser of URLs is a parameter; the encryption of signing secrets is left out, as the secrets are.
use achflow.Prelude.{
  ℕ, suc, String, Bool, true, false, ◌&&◌, ◌||◌, not, Option, none, some, ◌∷◌, ◌==◌, if◌then◌else◌,
  find, update, select, count, str_eq,
}
use achflow.Schema.{
  MerchantWebhookEndpoint, WebhookDelivery, Tx, ok, pure, gets, or_throw, throw_if, ◌>>=◌, ◌>>◌,
  when◌then◌else◌, bad_request, not_found, record_missing, webhook_url_invalid,
  webhook_url_not_https, webhook_endpoint_not_found, err,
}

-- The parts of a `URL` that the code reads.
pub record Url : Type 0 where
  pub username : String
  pub password : String
  pub protocol : String

pub record UpdateWebhookEndpointDto : Type 0 where
  pub url : Option String
  pub is_active : Option Bool

-- What `remove` answers.
pub record Removal : Type 0 where
  pub id : ℕ
  pub deleted : Bool
  pub disabled : Bool

abbrev pub endpoint_with : ℕ → MerchantWebhookEndpoint → Bool
endpoint_with i e = e.id == i

-- `scopedEndpoint`
unfoldable pub scoped_endpoint : (id merchant : ℕ) → Tx MerchantWebhookEndpoint
scoped_endpoint id merchant = do
  found ← gets (λ db. find (λ e. e.id == id && e.merchant_id == merchant) db.webhook_endpoints)
  or_throw found (not_found webhook_endpoint_not_found)

-- `merchantWebhookEndpoint.update({ where: { id } })`
unfoldable pub update_endpoint :
    ℕ → (MerchantWebhookEndpoint → MerchantWebhookEndpoint) → Tx MerchantWebhookEndpoint
update_endpoint i f db = elim (find (endpoint_with i) db.webhook_endpoints) [
  | none ↦ err record_missing
  | some e ↦
      ok (f e, record db { webhook_endpoints = update (endpoint_with i) f db.webhook_endpoints })
]

-- `merchantWebhookEndpoint.delete({ where: { id } })`
unfoldable pub delete_endpoint : ℕ → Tx (Unit {0})
delete_endpoint i db = ok (
  tt,
  record db { webhook_endpoints = select (λ e. not (endpoint_with i e)) db.webhook_endpoints },
)

abbrev pub delivered_to : ℕ → WebhookDelivery → Bool
delivered_to i d = d.webhook_endpoint_id == i

unfoldable pub remove : (id merchant : ℕ) → Tx Removal
unfolding scoped_endpoint update_endpoint delete_endpoint
remove id merchant = do
  endpoint ← scoped_endpoint id merchant
  deliveries ← gets (λ db. count (delivered_to endpoint.id) db.webhook_deliveries)
  when not (deliveries == 0)
      then (do
        update_endpoint endpoint.id (λ e. record e { is_active = false })
        pure (record { id = endpoint.id; deleted = false; disabled = true }))
      else do
        delete_endpoint endpoint.id
        pure (record { id = endpoint.id; deleted = true; disabled = false })

module _ (parse_url : String → Option Url) (production : Bool) where
  -- The protocol is checked without user and password.
  unfoldable pub validate_parsed : Url → Tx (Unit {0})
  validate_parsed u = do
    throw_if
        (not (str_eq u.username "")
          || not (str_eq u.password "")
          || not (str_eq u.protocol "http:" || str_eq u.protocol "https:"))
        (bad_request webhook_url_invalid)
    throw_if (production && not (str_eq u.protocol "https:")) (bad_request webhook_url_not_https)

  -- `validateUrl`
  unfoldable pub validate_url : String → Tx (Unit {0})
  unfolding validate_parsed
  validate_url value = do
    u ← or_throw (parse_url value) (bad_request webhook_url_invalid)
    validate_parsed u

  unfoldable pub create : (merchant : ℕ) → String → Tx MerchantWebhookEndpoint
  unfolding validate_url
  create merchant url = validate_url url >> λ db.
      let e : MerchantWebhookEndpoint = record {
        id = db.next_id;
        merchant_id = merchant;
        url = url;
        is_active = true;
      } in
      ok (e, record db { next_id = suc db.next_id; webhook_endpoints = e ∷ db.webhook_endpoints })

  -- `dto.url ? … : {}`
  abbrev given : Option String → Option String
  given none = none
  given (some url) = if str_eq url "" then none else some url

  abbrev validate_given : Option String → Tx (Unit {0})
  validate_given none = pure tt
  validate_given (some url) = validate_url url

  abbrev pub apply_update :
      UpdateWebhookEndpointDto → MerchantWebhookEndpoint → MerchantWebhookEndpoint
  apply_update dto e = record e {
    url = elim (given dto.url) [ none ↦ e.url | some url ↦ url ];
    is_active = elim dto.is_active [ none ↦ e.is_active | some active ↦ active ];
  }

  unfoldable pub update_owned :
      (id merchant : ℕ) → UpdateWebhookEndpointDto → Tx MerchantWebhookEndpoint
  unfolding validate_url scoped_endpoint update_endpoint
  update_owned id merchant dto = do
    endpoint ← scoped_endpoint id merchant
    validate_given (given dto.url)
    update_endpoint endpoint.id (apply_update dto)
