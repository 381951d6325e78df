-- ===== src/Outbox/Repository.antt =====
-- The worker's outbox/outbox.repository.ts. `NOW()` and `Date.now()` read the same clock.
use achflow.Prelude.{
  ℕ, suc, ◌+◌, ◌-◌, ◌*◌, ◌^◌, min, String, Bool, false, ◌&&◌, ◌||◌, none, some, List, [], ◌∷◌, map,
  ltb, leb, ◌==◌, if◌then◌else◌, same, select, take,
}
use achflow.Schema.{
  Db, OutboxEvent, OutboxEventStatus, event_status_discrete, Tx, pure, gets, ◌>>=◌, ◌>>◌,
  when◌then◌else◌, update_events,
}

abbrev pub is_pending : OutboxEvent → Bool
is_pending e = same (event_status_discrete e.status OutboxEventStatus.pending)

abbrev pub is_processing : OutboxEvent → Bool
is_processing e = same (event_status_discrete e.status OutboxEventStatus.processing)

-- `WHERE "status" = 'PENDING' AND "availableAt" <= NOW()`
abbrev pub is_due : ℕ → OutboxEvent → Bool
is_due now e = is_pending e && leb e.available_at now

-- `ORDER BY "availableAt" ASC, "createdAt" ASC`
abbrev pub earlier : OutboxEvent → OutboxEvent → Bool
earlier a b =
    ltb a.available_at b.available_at
    || (a.available_at == b.available_at && leb a.created_at b.created_at)

unfoldable pub insert : OutboxEvent → List OutboxEvent → List OutboxEvent
insert e [] = e ∷ []
insert e (x ∷ xs) = if earlier e x then e ∷ x ∷ xs else x ∷ insert e xs

unfoldable pub in_order : List OutboxEvent → List OutboxEvent
in_order [] = []
in_order (e ∷ es) = insert e (in_order es)

unfoldable pub due_events : Db → List OutboxEvent
due_events db = in_order (select (is_due db.clock) db.outbox_events)

-- The rows of `claimable`.
abbrev pub claimable : ℕ → Db → List OutboxEvent
claimable batch_size db = take batch_size (due_events db)

unfoldable pub is_among : List OutboxEvent → OutboxEvent → Bool
is_among [] e = false
is_among (x ∷ xs) e = x.id == e.id || is_among xs e

abbrev pub mark_claimed : ℕ → OutboxEvent → OutboxEvent
mark_claimed now e = record e {
  status = OutboxEventStatus.processing;
  attempts = suc e.attempts;
  claimed_at = some now;
}

-- `claimPending`: the rows are returned as they are after the update.
unfoldable pub claim_pending : ℕ → Tx (List OutboxEvent)
unfolding update_events
claim_pending batch_size = do
  now ← gets (λ db. db.clock)
  claimed ← gets (claimable batch_size)
  update_events (is_among claimed) (mark_claimed now)
  pure (map (mark_claimed now) claimed)

-- `"claimedAt" < expiredBefore`, where `expiredBefore` is the lease before now.
abbrev pub has_expired : (lease now : ℕ) → OutboxEvent → Bool
has_expired lease now e =
    is_processing e && (elim e.claimed_at [ none ↦ false | some at ↦ ltb (at + lease) now ])

abbrev pub recover : (max_attempts now : ℕ) → OutboxEvent → OutboxEvent
recover max_attempts now e = record e {
  status =
      if leb max_attempts e.attempts then OutboxEventStatus.failed else OutboxEventStatus.pending;
  available_at = if leb max_attempts e.attempts then e.available_at else now;
  claimed_at = none;
  last_error = some "Previous worker claim expired";
}

unfoldable pub recover_expired_claims : (max_attempts lease : ℕ) → Tx ℕ
unfolding update_events
recover_expired_claims max_attempts lease = do
  now ← gets (λ db. db.clock)
  update_events (has_expired lease now) (recover max_attempts now)

-- `updateClaimedEvent`
unfoldable pub update_claimed_event : ℕ → (OutboxEvent → OutboxEvent) → Tx ℕ
unfolding update_events
update_claimed_event id f = update_events (λ e. e.id == id && is_processing e) f

abbrev pub processed : ℕ → OutboxEvent → OutboxEvent
processed now e = record e {
  status = OutboxEventStatus.processed;
  processed_at = some now;
  claimed_at = none;
  last_error = none;
}

unfoldable pub mark_processed : ℕ → Tx ℕ
unfolding update_claimed_event
mark_processed id = do now ← gets (λ db. db.clock); update_claimed_event id (processed now)

-- `Math.min(1_000 * 2 ** Math.max(0, attempts - 1), 60_000)`
unfoldable pub retry_delay_ms : ℕ → ℕ
retry_delay_ms attempts = min (1000 * 2 ^ (attempts - 1)) 60000

abbrev pub give_up : String → OutboxEvent → OutboxEvent
give_up error e = record e {
  status = OutboxEventStatus.failed;
  claimed_at = none;
  last_error = some error;
}

abbrev pub retry_at : ℕ → String → OutboxEvent → OutboxEvent
retry_at time error e = record e {
  status = OutboxEventStatus.pending;
  available_at = time;
  claimed_at = none;
  last_error = some error;
}

-- `markFailed`, which goes by the attempts of the event that was claimed.
unfoldable pub mark_failed : OutboxEvent → (max_attempts : ℕ) → String → Tx ℕ
unfolding update_claimed_event
mark_failed event max_attempts error =
    when leb max_attempts event.attempts then update_claimed_event event.id (give_up error) else do
      now ← gets (λ db. db.clock)
      update_claimed_event event.id (retry_at (now + retry_delay_ms event.attempts) error)
