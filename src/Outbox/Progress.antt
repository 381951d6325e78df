-- ===== src/Outbox/Progress.antt =====
-- A poll goes through, and no event that it handled stays claimed.
use achflow.Prelude.{
  ℕ, ◌+◌, ◌≡◌, ◌≢◌, refl, false, ◌&&◌, some, List, [], ◌∷◌, find, update, arith, ◌==◌, Bool-cases,
  inl, inr, leb, String,
}
use achflow.Schema.{
  Db, OutboxEvent, OutboxEventStatus, Result, ok, err, Action, transact, update_events,
}
use achflow.Outbox.Repository.{
  is_processing, update_claimed_event, mark_processed, mark_failed, give_up, retry_at, processed,
  recover_expired_claims, claim_pending, retry_delay_ms,
}
use achflow.Outbox.Polling.{
  OutboxConfig, handle_and_mark, process_claimed_event, process_events, process_once,
  safe_error_message,
}

-- No row of this id is being processed.
abbrev pub IsIdle : ℕ → List OutboxEvent → Type 0
IsIdle i rows =
    (row : OutboxEvent)
    → find (λ e. e.id == i) rows ≡ some row
    → row.status ≢ OutboxEventStatus.processing

updated-IsIdle :
    (i : ℕ) (f : OutboxEvent → OutboxEvent) (rows : List OutboxEvent)
    → ((x : OutboxEvent) → OutboxEvent.id (f x) ≡ x.id)
    → ((x : OutboxEvent) → is_processing (f x) ≡ false)
    → IsIdle i (update (λ e. e.id == i && is_processing e) f rows)
unfolding find update
updated-IsIdle i f [] k q row h = cc
updated-IsIdle i f (x ∷ rows) k q row h = ground (arith, k x, q x, updated-IsIdle i f rows k q row)

marked-IsIdle :
    (i n : ℕ) (db db' : Db) → mark_processed i db ≡ ok (n, db') → IsIdle i db'.outbox_events
unfolding mark_processed update_claimed_event update_events
marked-IsIdle i n db db' h row found = ground (
  arith,
  updated-IsIdle i (processed db.clock) db.outbox_events (λ x. refl) (λ x. ground arith) row,
)

failed-IsIdle :
    (event : OutboxEvent) (max n : ℕ) (error : String) (db db' : Db)
    → mark_failed event max error db ≡ ok (n, db')
    → IsIdle event.id db'.outbox_events
unfolding mark_failed update_claimed_event update_events
failed-IsIdle event max n error db db' h row found = ground (
  arith,
  updated-IsIdle event.id (give_up error) db.outbox_events (λ x. refl) (λ x. ground arith) row,
  updated-IsIdle event.id (retry_at (db.clock + retry_delay_ms event.attempts) error)
      db.outbox_events (λ x. refl) (λ x. ground arith) row,
)

marks : (i : ℕ) (db : Db) → (n : ℕ) × (db' : Db) × (mark_processed i db ≡ ok (n, db'))
unfolding mark_processed update_claimed_event update_events
marks i db = (_, _, refl)

fails :
    (event : OutboxEvent) (max : ℕ) (error : String) (db : Db)
    → (n : ℕ) × (db' : Db) × (mark_failed event max error db ≡ ok (n, db'))
unfolding mark_failed update_claimed_event update_events
fails event max error db = elim (Bool-cases (leb max event.attempts)) [
  | inl b ↦ rw b (_, _, refl)
  | inr b ↦ rw b (_, _, refl)
]

module _ (config : OutboxConfig) (handle : OutboxEvent → Action (Unit {0})) where
  -- Whatever the handler does, the outcome of a claimed event is recorded: it is no longer being
  -- processed.
  event_ends :
      (event : OutboxEvent) (db : Db)
      → (n : ℕ) × (db' : Db) × (process_claimed_event config handle event db ≡ (ok n, db'))
        × IsIdle event.id db'.outbox_events
  unfolding process_claimed_event handle_and_mark transact
  event_ends event db = go (handle event db) refl
    where
      go :
          (x : Result (Unit {0}) × Db)
          → handle event db ≡ x
          → (n : ℕ) × (db' : Db) × (process_claimed_event config handle event db ≡ (ok n, db'))
            × IsIdle event.id db'.outbox_events
      go (ok u, db1) e =
          let (n, db2, m) = marks event.id db1 in
          (n, db2, ground (arith, e, m), marked-IsIdle event.id n db1 db2 m)
      go (err x, db1) e =
          let (n, db2, m) = fails event config.max_attempts (safe_error_message x) db1 in
          (
            n,
            db2,
            ground (arith, e, m),
            failed-IsIdle event config.max_attempts n (safe_error_message x) db1 db2 m,
          )

  events_end :
      (events : List OutboxEvent) (db : Db)
      → (db' : Db) × (process_events config handle events db ≡ (ok tt, db'))
  unfolding process_events
  events_end [] db = (db, refl)
  events_end (e ∷ es) db =
      let (n, db1, done, idle) = event_ends e db in
      let (db', rest) = events_end es db1 in (db', ground (arith, done, rest))

  -- A poll goes through whatever the handler does with the events: none of its failures is one of
  -- the poll.
  pub poll_completes : (db : Db) → (db' : Db) × (process_once config handle db ≡ (ok tt, db'))
  unfolding process_once transact recover_expired_claims claim_pending update_events
  poll_completes db =
      let (n, db1, recovered) = recovers db in
      let (events, db2, claimed) = claims db1 in
      let (db', done) = events_end events db2 in (db', ground (arith, recovered, claimed, done))
    where
      recovers :
          (d : Db)
          → (n : ℕ) × (d' : Db) × (recover_expired_claims config.max_attempts config.claim_lease_ms
                d
              ≡ ok (n, d'))
      recovers d = (_, _, refl)

      claims :
          (d : Db)
          → (events : List OutboxEvent) × (d' : Db) × (claim_pending config.batch_size d
              ≡ ok (events, d'))
      claims d = (_, _, refl)
