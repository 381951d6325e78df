-- ===== src/Outbox/Attempts.antt =====
-- The number of attempts at an event, over any sequence of the worker's steps on the outbox.
use achflow.Prelude.{ℕ, ◌<◌, ◌≡◌, String, some, List, find, ◌==◌}
use achflow.Schema.{Db, OutboxEvent, EventKey, OutboxEventType, Payload, ok, create_event}
use achflow.Schema.Ids.{WellFormed}
use achflow.Schema.Keeping.{Keeps, keeping, create_event-Keeps}
use achflow.Outbox.Repository.{
  claim_pending, recover_expired_claims, update_claimed_event, mark_processed, mark_failed,
}
use achflow.Outbox.Bounds.{
  Bounded, claim-Bounded, recover-Bounded, processed-Bounded, failed-Bounded, announced-Bounded,
}

-- A step of the worker on the outbox, or a new event. An event that fails does so under the claim
-- that the row still carries.
pub data OutboxStep (max : ℕ) (db db' : Db) : Type 0 where
  claims :
      (batch_size : ℕ) (events : List OutboxEvent)
      → claim_pending batch_size db ≡ ok (events, db')
      → OutboxStep max db db'
  recovers :
      (lease n : ℕ) → recover_expired_claims max lease db ≡ ok (n, db') → OutboxStep max db db'
  completes : (id n : ℕ) → mark_processed id db ≡ ok (n, db') → OutboxStep max db db'
  fails :
      (event row : OutboxEvent) (error : String) (n : ℕ)
      → find (λ e. e.id == event.id) db.outbox_events ≡ some row
      → row.attempts ≡ event.attempts
      → mark_failed event max error db ≡ ok (n, db')
      → OutboxStep max db db'
  announces :
      (key : EventKey) (type : OutboxEventType) (aggregate : ℕ) (payload : Payload)
      (event : OutboxEvent)
      → 0 < max
      → create_event key type aggregate payload db ≡ ok (event, db')
      → OutboxStep max db db'

pub data OutboxReach (max : ℕ) (db : Db) : Db → Type 0 where
  here : OutboxReach max db db
  next : {db1 db2 : Db} → OutboxReach max db db1 → OutboxStep max db1 db2 → OutboxReach max db db2

pub claim-Keeps : (batch_size : ℕ) → Keeps (claim_pending batch_size)
unfolding claim_pending
claim-Keeps batch_size = search keeping depth 12

pub recover-Keeps : (max lease : ℕ) → Keeps (recover_expired_claims max lease)
unfolding recover_expired_claims
recover-Keeps max lease = search keeping depth 12

pub processed-Keeps : (id : ℕ) → Keeps (mark_processed id)
unfolding mark_processed update_claimed_event
processed-Keeps id = search keeping depth 12

pub failed-Keeps :
    (event : OutboxEvent) (max : ℕ) (error : String) → Keeps (mark_failed event max error)
unfolding mark_failed update_claimed_event
failed-Keeps event max error = search keeping depth 12

module _ (max : ℕ) where
  step-WellFormed : (db db' : Db) → OutboxStep max db db' → WellFormed db → WellFormed db'
  step-WellFormed db db' (claims n events e) w = ((claim-Keeps n).apply db db' events e).ordered w
  step-WellFormed db db' (recovers lease n e) w =
      ((recover-Keeps max lease).apply db db' n e).ordered w
  step-WellFormed db db' (completes id n e) w = ((processed-Keeps id).apply db db' n e).ordered w
  step-WellFormed db db' (fails event row error n f s e) w =
      ((failed-Keeps event max error).apply db db' n e).ordered w
  step-WellFormed db db' (announces key type aggregate payload event p e) w =
      ((create_event-Keeps key type aggregate payload).apply db db' event e).ordered w

  step-Bounded :
      (db db' : Db) → OutboxStep max db db' → WellFormed db → Bounded max db → Bounded max db'
  step-Bounded db db' (claims n events e) w b = claim-Bounded max n db db' events w e b
  step-Bounded db db' (recovers lease n e) w b = recover-Bounded max lease n db db' e b
  step-Bounded db db' (completes id n e) w b = processed-Bounded max id n db db' e b
  step-Bounded db db' (fails event row error n f s e) w b =
      failed-Bounded max n event row error db db' w f s e b
  step-Bounded db db' (announces key type aggregate payload event p e) w b =
      announced-Bounded max key type aggregate payload event db db' p e b

  reach-Bounded :
      (db db' : Db)
      → OutboxReach max db db'
      → WellFormed db × Bounded max db
      → WellFormed db' × Bounded max db'
  reach-Bounded db db' here b = b
  reach-Bounded db db' (next {db1} r s) b =
      let (w, c) = reach-Bounded db db1 r b in
      (step-WellFormed db1 db' s w, step-Bounded db1 db' s w c)

-- Over any sequence of steps no event is attempted more often than the limit, and a pending event
-- has an attempt left.
pub attempts-Bounded :
    (max : ℕ) (db db' : Db)
    → WellFormed db
    → Bounded max db
    → OutboxReach max db db'
    → Bounded max db'
attempts-Bounded max db db' w b r = (reach-Bounded max db db' r (w, b)).1
