-- ===== src/Webhooks/Outcomes.antt =====
-- What an attempt at a delivery leaves.
use achflow.Prelude.{
  ℕ, suc, ◌+◌, ◌*◌, ◌≤◌, ◌<◌, ◌≡◌, ◌≢◌, refl, Bool, true, Option, none, some, find, update, arith,
  ◌==◌, inl, inr, Bool-cases,
}
use achflow.Schema.{
  Db, WebhookDelivery, WebhookDeliveryStatus, MerchantWebhookEndpoint, DeliveryError, ok,
}
use achflow.Schema.Ids.{find-update_same}
use achflow.Webhooks.Processor.{
  WebhookConfig, Reply, response, timed_out, broken, update_delivery, delivered, complete,
  failed_attempt, fail, retry_delay, settle_reply, reply_for, process, is_ok, is_retryable,
}

-- A delivery after an attempt: one attempt more, no claim, and either an end or a retry, which is
-- due within the longest delay and leaves an attempt.
pub record Attempted (config : WebhookConfig) (now : ℕ) (before after : WebhookDelivery)
    : Type 0 where
  pub counted : after.attempt_count ≡ suc before.attempt_count
  pub unclaimed : after.claimed_at ≡ none
  pub moved : after.status ≢ WebhookDeliveryStatus.processing
  pub retried :
      after.status ≡ WebhookDeliveryStatus.pending
      → (suc before.attempt_count < config.max_attempts)
        × ((t : ℕ) × (after.next_attempt_at ≡ some t)
            × (now ≤ t)
            × (t ≤ now + config.max_retry_seconds * 1000))

module _ (config : WebhookConfig) where
  retry_delay_bound : (n : ℕ) → retry_delay config n ≤ config.max_retry_seconds * 1000
  unfolding retry_delay
  retry_delay_bound n = omega arith

  delivered-Attempted :
      (status now : ℕ) (d : WebhookDelivery) → Attempted config now d (delivered status now d)
  delivered-Attempted status now d = record {
    counted = refl;
    unclaimed = refl;
    moved = λ e. ground arith;
    retried = λ e. absurd (ground arith);
  }

  failed-Attempted :
      (status : Option ℕ) (code : DeliveryError) (retryable : Bool) (now : ℕ) (d : WebhookDelivery)
      → Attempted config now d (failed_attempt config d status code retryable now d)
  failed-Attempted status code retryable now d = record {
    counted = refl;
    unclaimed = refl;
    moved = λ e. ground arith;
    retried = λ e. (
      ground arith,
      (
        now + retry_delay config (suc d.attempt_count),
        ground arith,
        omega arith,
        omega (arith, retry_delay_bound (suc d.attempt_count)),
      ),
    );
  }

abbrev HasOutcome : WebhookConfig → WebhookDelivery → Db → Db → Type 0
HasOutcome config d db db' =
    (after : WebhookDelivery) × (find (λ x. x.id == d.id) db'.webhook_deliveries ≡ some after)
    × Attempted config db.clock d after

-- An update of the row that was claimed leaves what the update makes of it.
updated-HasOutcome :
    (config : WebhookConfig) (d : WebhookDelivery) (db : Db) (f : WebhookDelivery → WebhookDelivery)
    → find (λ x. x.id == d.id) db.webhook_deliveries ≡ some d
    → ((x : WebhookDelivery) → WebhookDelivery.id (f x) ≡ x.id)
    → Attempted config db.clock d (f d)
    → (db' : Db) × (update_delivery d.id f db ≡ ok (tt, db')) × HasOutcome config d db db'
unfolding update_delivery
updated-HasOutcome config d db f found k a = (
  record db { webhook_deliveries = update (λ x. x.id == d.id) f db.webhook_deliveries },
  ground (arith, found),
  (
    f d,
    find-update_same (λ x. x.id == d.id) f db.webhook_deliveries d (λ x. rw (k x) refl) found,
    a,
  ),
)

module _ (config : WebhookConfig) (d : WebhookDelivery) (db : Db) where
  failed-HasOutcome :
      (status : Option ℕ) (code : DeliveryError) (retryable : Bool)
      → find (λ x. x.id == d.id) db.webhook_deliveries ≡ some d
      → (db' : Db) × (fail config d status code retryable db ≡ ok (tt, db'))
        × HasOutcome config d db db'
  unfolding fail
  failed-HasOutcome status code retryable found =
      updated-HasOutcome config d db (failed_attempt config d status code retryable db.clock) found
        (λ x. refl) (failed-Attempted config status code retryable db.clock d)

  ok-HasOutcome :
      (send : MerchantWebhookEndpoint → WebhookDelivery → (now : ℕ) → Reply) (status : ℕ)
      → find (λ x. x.id == d.id) db.webhook_deliveries ≡ some d
      → is_ok status ≡ true
      → (db' : Db) × (settle_reply config send d (response status) db ≡ ok (tt, db'))
        × HasOutcome config d db db'
  unfolding settle_reply complete
  ok-HasOutcome send status found good =
      let (db', done, outcome) =
        updated-HasOutcome config d db (delivered status db.clock) found (λ x. refl)
          (delivered-Attempted config status db.clock d) in
      (db', ground (arith, done, good), outcome)

  reply-HasOutcome :
      (send : MerchantWebhookEndpoint → WebhookDelivery → (now : ℕ) → Reply) (reply : Reply)
      → find (λ x. x.id == d.id) db.webhook_deliveries ≡ some d
      → (db' : Db) × (settle_reply config send d reply db ≡ ok (tt, db'))
        × HasOutcome config d db db'
  unfolding settle_reply
  reply-HasOutcome send (response status) found = elim (Bool-cases (is_ok status)) [
    | inl good ↦ ok-HasOutcome send status found good
    | inr bad ↦
        rw bad
          (failed-HasOutcome (some status) (DeliveryError.http status) (is_retryable status) found)
  ]
  reply-HasOutcome send timed_out found = failed-HasOutcome none DeliveryError.timeout true found
  reply-HasOutcome send broken found = failed-HasOutcome none DeliveryError.network_error true found

-- Whatever the endpoint replies, an attempt at a delivery that was claimed is recorded: it counts
-- one attempt more, the claim is gone, and the delivery has ended or waits for a retry that is due
-- within the longest delay and leaves an attempt.
pub processed-Attempted :
    (config : WebhookConfig) (send : MerchantWebhookEndpoint → WebhookDelivery → (now : ℕ) → Reply)
    (d : WebhookDelivery) (db : Db)
    → find (λ x. x.id == d.id) db.webhook_deliveries ≡ some d
    → (db' : Db) × (process config send d db ≡ ok (tt, db'))
      × ((after : WebhookDelivery) × (find (λ x. x.id == d.id) db'.webhook_deliveries ≡ some after)
          × Attempted config db.clock d after)
unfolding process
processed-Attempted config send d db found =
    reply-HasOutcome config d db send (reply_for config send d db) found
