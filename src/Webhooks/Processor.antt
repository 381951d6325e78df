-- ===== src/Webhooks/Processor.antt =====
-- The worker's webhooks/webhook-delivery-processor.service.ts: the claim of deliveries and the
-- outcome of an attempt. The request itself, with the decryption of the secret and the signature,
-- is a parameter.
use achflow.Prelude.{
  ℕ, suc, ◌+◌, ◌-◌, ◌*◌, ◌^◌, min, String, Bool, true, false, ◌&&◌, ◌||◌, not, Option, none, some,
  List, [], ◌∷◌, map, ltb, leb, ◌==◌, if◌then◌else◌, same, select, take, find, update,
}
use achflow.Schema.{
  Db, WebhookDelivery, WebhookDeliveryStatus, delivery_status_discrete, MerchantWebhookEndpoint,
  DeliveryError, Tx, ok, err, gets, pure, modify, ◌>>=◌, ◌>>◌, when◌then◌else◌, record_missing,
  Action, transact,
}

-- The webhook settings of `WorkerConfigService`.
pub record WebhookConfig : Type 0 where
  pub claim_timeout_seconds : ℕ
  pub batch_size : ℕ
  pub worker_id : String
  pub max_attempts : ℕ
  pub initial_retry_seconds : ℕ
  pub max_retry_seconds : ℕ

abbrev pub is_pending : WebhookDelivery → Bool
is_pending d = same (delivery_status_discrete d.status WebhookDeliveryStatus.pending)

abbrev pub is_processing : WebhookDelivery → Bool
is_processing d = same (delivery_status_discrete d.status WebhookDeliveryStatus.processing)

-- A comparison with a column that may be NULL fails on NULL.
abbrev pub at_most : Option ℕ → ℕ → Bool
at_most none now = false
at_most (some t) now = leb t now

-- `"claimedAt" IS NULL OR "claimedAt" < stale`
abbrev pub is_stale : WebhookConfig → ℕ → Option ℕ → Bool
is_stale config now none = true
is_stale config now (some t) = ltb (t + config.claim_timeout_seconds * 1000) now

abbrev pub is_claimable : WebhookConfig → ℕ → WebhookDelivery → Bool
is_claimable config now d =
    (is_pending d && at_most d.next_attempt_at now)
    || (is_processing d && is_stale config now d.claimed_at)

-- `ORDER BY "nextAttemptAt", "createdAt"`, where NULL comes last.
abbrev pub due_before : Option ℕ → Option ℕ → Bool
due_before none u = false
due_before (some t) none = true
due_before (some t) (some u) = ltb t u

abbrev pub earlier : WebhookDelivery → WebhookDelivery → Bool
earlier a b =
    due_before a.next_attempt_at b.next_attempt_at
    || (not (due_before b.next_attempt_at a.next_attempt_at) && leb a.created_at b.created_at)

unfoldable pub insert : WebhookDelivery → List WebhookDelivery → List WebhookDelivery
insert d [] = d ∷ []
insert d (x ∷ xs) = if earlier d x then d ∷ x ∷ xs else x ∷ insert d xs

unfoldable pub in_order : List WebhookDelivery → List WebhookDelivery
in_order [] = []
in_order (d ∷ ds) = insert d (in_order ds)

unfoldable pub claimable : WebhookConfig → Db → List WebhookDelivery
claimable config db =
    take config.batch_size (in_order (select (is_claimable config db.clock) db.webhook_deliveries))

unfoldable pub is_among : List WebhookDelivery → WebhookDelivery → Bool
is_among [] d = false
is_among (x ∷ xs) d = x.id == d.id || is_among xs d

abbrev pub mark_claimed : WebhookConfig → ℕ → WebhookDelivery → WebhookDelivery
mark_claimed config now d = record d {
  status = WebhookDeliveryStatus.processing;
  claimed_at = some now;
  claimed_by = some config.worker_id;
}

-- `claim`
unfoldable pub claim : WebhookConfig → Tx (List WebhookDelivery)
claim config = do
  now ← gets (λ db. db.clock)
  claimed ← gets (claimable config)
  modify λ db. record db {
    webhook_deliveries = update (is_among claimed) (mark_claimed config now) db.webhook_deliveries;
  }
  pure (map (mark_claimed config now) claimed)

-- `webhookDelivery.update({ where: { id } })`
unfoldable pub update_delivery : ℕ → (WebhookDelivery → WebhookDelivery) → Tx (Unit {0})
update_delivery id f db = elim (find (λ d. d.id == id) db.webhook_deliveries) [
  | none ↦ err record_missing
  | some d ↦
      ok (tt, record db { webhook_deliveries = update (λ x. x.id == id) f db.webhook_deliveries })
]

abbrev pub delivered : (status now : ℕ) → WebhookDelivery → WebhookDelivery
delivered status now d = record d {
  status = WebhookDeliveryStatus.delivered;
  attempt_count = suc d.attempt_count;
  last_attempt_at = some now;
  delivered_at = some now;
  next_attempt_at = none;
  response_status = some status;
  last_error_code = none;
  claimed_at = none;
  claimed_by = none;
}

unfoldable pub complete : WebhookDelivery → (response_status : ℕ) → Tx (Unit {0})
unfolding update_delivery
complete d status = do now ← gets (λ db. db.clock); update_delivery d.id (delivered status now)

-- `Math.min(initial * 1000 * 2 ** (attempts - 1), max * 1000)`, where attempts is one at least.
unfoldable pub retry_delay : WebhookConfig → ℕ → ℕ
retry_delay config attempts =
    min (config.initial_retry_seconds * 1000 * 2 ^ (attempts - 1)) (config.max_retry_seconds * 1000)

-- `retryable && !exhausted`
abbrev pub tries_again : WebhookConfig → WebhookDelivery → Bool → Bool
tries_again config d retryable = retryable && not (leb config.max_attempts (suc d.attempt_count))

abbrev pub failed_attempt :
    WebhookConfig
    → WebhookDelivery
    → Option ℕ
    → DeliveryError
    → Bool
    → ℕ
    → WebhookDelivery
    → WebhookDelivery
failed_attempt config d status code retryable now row = record row {
  status =
      if tries_again config d retryable
      then WebhookDeliveryStatus.pending
      else WebhookDeliveryStatus.failed;
  attempt_count = suc row.attempt_count;
  last_attempt_at = some now;
  next_attempt_at =
      if tries_again config d retryable
      then some (now + retry_delay config (suc d.attempt_count))
      else none;
  response_status = status;
  last_error_code = some code;
  claimed_at = none;
  claimed_by = none;
}

unfoldable pub fail :
    WebhookConfig → WebhookDelivery → Option ℕ → DeliveryError → Bool → Tx (Unit {0})
unfolding update_delivery
fail config d status code retryable = do
  now ← gets (λ db. db.clock)
  update_delivery d.id (failed_attempt config d status code retryable now)

-- What the request ends in: a response with its status, a timeout, or any other error.
pub data Reply : Type 0 where
  response : ℕ → Reply
  timed_out broken : Reply

-- `response.ok`
abbrev pub is_ok : ℕ → Bool
is_ok status = leb 200 status && ltb status 300

-- `status === 408 || status === 429 || status >= 500`
abbrev pub is_retryable : ℕ → Bool
is_retryable status = status == 408 || status == 429 || leb 500 status

module _ (config : WebhookConfig)
    (send : MerchantWebhookEndpoint → WebhookDelivery → (now : ℕ) → Reply) where
  -- `complete` stands in the `try`, so its failure is a NETWORK_ERROR under the status received.
  unfoldable pub settle_reply : WebhookDelivery → Reply → Tx (Unit {0})
  unfolding complete fail
  settle_reply d (response status) db =
      if is_ok status
      then elim (complete d status db) [
        | ok r ↦ ok r
        | err e ↦ fail config d (some status) DeliveryError.network_error true db
      ]
      else fail config d (some status) (DeliveryError.http status) (is_retryable status) db
  settle_reply d timed_out db = fail config d none DeliveryError.timeout true db
  settle_reply d broken db = fail config d none DeliveryError.network_error true db

  -- The reply of an endpoint that is there and active; otherwise the error of the lookup.
  unfoldable pub reply_for : WebhookDelivery → Db → Reply
  reply_for d db = elim (find (λ e. e.id == d.webhook_endpoint_id) db.webhook_endpoints) [
    | none ↦ broken
    | some e ↦ if e.is_active then send e d db.clock else broken
  ]

  -- `process`
  unfoldable pub process : WebhookDelivery → Tx (Unit {0})
  unfolding settle_reply reply_for
  process d db = settle_reply d (reply_for d db) db

  -- `Promise.all` over the batch: an attempt that fails does not stop the others.
  unfoldable pub process_all : List WebhookDelivery → Action (Unit {0})
  unfolding process transact
  process_all [] db = (ok tt, db)
  process_all (d ∷ ds) db =
      let (r, db1) = transact (process d) db in
      let (rest, db2) = process_all ds db1 in (elim r [ ok u ↦ rest | err e ↦ err e ], db2)

  -- `processClaimedDeliveries`, with the deliveries of a batch one after another.
  unfoldable pub process_claimed_deliveries : Action (Unit {0})
  unfolding claim process_all transact
  process_claimed_deliveries db =
      let (r, db1) = transact (claim config) db in
      elim r [ ok claimed ↦ process_all claimed db1 | err e ↦ (err e, db1) ]
