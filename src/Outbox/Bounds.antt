-- ===== src/Outbox/Bounds.antt =====
-- Each step on the outbox keeps the attempts of every event within the limit.
use achflow.Prelude.{
  ℕ, ◌+◌, ◌≤◌, ◌<◌, ◌≡◌, String, Bool, true, false, some, List, [], ◌∷◌, select, All, find, update,
  arith, ◌==◌, leb, ◌&&◌,
}
use achflow.Schema.{
  Db, OutboxEvent, OutboxEventStatus, EventKey, OutboxEventType, Payload, ok, update_events,
  create_event,
}
use achflow.Schema.Ids.{WellFormed}
use achflow.Outbox.Repository.{
  is_due, is_processing, in_order, is_among, due_events, claimable, claim_pending, mark_claimed,
  recover, has_expired, recover_expired_claims, update_claimed_event, processed, mark_processed,
  give_up, retry_at, mark_failed, retry_delay_ms,
}
use achflow.Outbox.Rows.{
  All-select, All-take, All-update, All-in_order, select-All, among, IsRowOf, rows-IsRowOf,
}

-- No more attempts than the limit, and one left where the event is pending.
abbrev pub Within : ℕ → OutboxEvent → Type 0
Within max e = (e.attempts ≤ max) × (e.status ≡ OutboxEventStatus.pending → e.attempts < max)

abbrev pub Bounded : ℕ → Db → Type 0
Bounded max db = All (Within max) db.outbox_events

-- A claimable event is a row, and due.
claimable-rows :
    (n : ℕ) (db : Db)
    → WellFormed db
    → All (λ e. IsRowOf db.outbox_events e × (is_due db.clock e ≡ true)) (claimable n db)
unfolding due_events
claimable-rows n db w =
    let rows = db.outbox_events in
    let P : OutboxEvent → Type 0 = λ e. IsRowOf rows e × (is_due db.clock e ≡ true) in
    All-take P n (in_order (select (is_due db.clock) rows)) (
      All-in_order P (select (is_due db.clock) rows) (
        both (select (is_due db.clock) rows)
          (All-select (IsRowOf rows) (is_due db.clock) rows
            (rows-IsRowOf db.next_id rows w.events_below))
          (select-All (is_due db.clock) rows)))
  where
    both :
        (es : List OutboxEvent)
        → All (IsRowOf db.outbox_events) es
        → All (λ e. is_due db.clock e ≡ true) es
        → All (λ e. IsRowOf db.outbox_events e × (is_due db.clock e ≡ true)) es
    both [] a b = tt
    both (e ∷ es) a b = ((a.0, b.0), both es a.1 b.1)

-- A row that a claim takes is pending.
among-pending :
    (n : ℕ) (db : Db) (e : OutboxEvent)
    → WellFormed db
    → IsRowOf db.outbox_events e
    → is_among (claimable n db) e ≡ true
    → e.status ≡ OutboxEventStatus.pending
among-pending n db e w r h =
    let (x, (row, due), own) =
      among (λ x. IsRowOf db.outbox_events x × (is_due db.clock x ≡ true)) (claimable n db) e
        (claimable-rows n db w) h in
    ground (arith, row, due, own, r)

pub claim-Bounded :
    (max n : ℕ) (db db' : Db) (events : List OutboxEvent)
    → WellFormed db
    → claim_pending n db ≡ ok (events, db')
    → Bounded max db
    → Bounded max db'
unfolding claim_pending update_events
claim-Bounded max n db db' events w h b =
    let taken =
      All-update (Within max) (is_among (claimable n db)) (mark_claimed db.clock)
        (IsRowOf db.outbox_events) db.outbox_events
        (λ e r q m. ground (arith, q, among-pending n db e w r m))
        (rows-IsRowOf db.next_id db.outbox_events w.events_below) b in
    ground (arith, taken)

pub recover-Bounded :
    (max lease n : ℕ) (db db' : Db)
    → recover_expired_claims max lease db ≡ ok (n, db')
    → Bounded max db
    → Bounded max db'
unfolding recover_expired_claims update_events
recover-Bounded max lease n db db' h b =
    let recovered =
      All-update (Within max) (has_expired lease db.clock) (recover max db.clock) (Within max)
        db.outbox_events (λ e r q m. ground (arith, q)) b b in
    ground (arith, recovered)

pub processed-Bounded :
    (max id n : ℕ) (db db' : Db)
    → mark_processed id db ≡ ok (n, db')
    → Bounded max db
    → Bounded max db'
unfolding mark_processed update_claimed_event update_events
processed-Bounded max id n db db' h b =
    let done =
      All-update (Within max) (λ e. e.id == id && is_processing e) (processed db.clock) (Within max)
        db.outbox_events (λ e r q m. ground (arith, q)) b b in
    ground (arith, done)

-- The row that a failed event names has the attempts of the event.
failed-attempts :
    (event row e : OutboxEvent) (db : Db)
    → find (λ x. x.id == event.id) db.outbox_events ≡ some row
    → row.attempts ≡ event.attempts
    → IsRowOf db.outbox_events e
    → (e.id == event.id && is_processing e) ≡ true
    → e.attempts ≡ event.attempts
failed-attempts event row e db found same_attempts r m = ground (arith, found, r)

pub failed-Bounded :
    (max n : ℕ) (event row : OutboxEvent) (error : String) (db db' : Db)
    → WellFormed db
    → find (λ e. e.id == event.id) db.outbox_events ≡ some row
    → row.attempts ≡ event.attempts
    → mark_failed event max error db ≡ ok (n, db')
    → Bounded max db
    → Bounded max db'
unfolding mark_failed update_claimed_event update_events
failed-Bounded max n event row error db db' w found same_attempts h b =
    let rows = db.outbox_events in
    let own = rows-IsRowOf db.next_id rows w.events_below in
    let claimed : OutboxEvent → Bool = λ e. e.id == event.id && is_processing e in
    let dead =
      All-update (Within max) claimed (give_up error) (IsRowOf rows) rows
        (λ e r q m. ground (arith, q)) own b in
    let time = db.clock + retry_delay_ms event.attempts in
    let again : leb max event.attempts ≡ false
        → All (Within max) (update claimed (retry_at time error) rows) =
      λ low.
        All-update (Within max) claimed (retry_at time error) (IsRowOf rows) rows
          (λ e r q m.
            ground (arith, q, low, failed-attempts event row e db found same_attempts r m))
          own b in
    ground (arith, dead, again)

pub announced-Bounded :
    (max : ℕ) (key : EventKey) (type : OutboxEventType) (aggregate : ℕ) (payload : Payload)
    (event : OutboxEvent) (db db' : Db)
    → 0 < max
    → create_event key type aggregate payload db ≡ ok (event, db')
    → Bounded max db
    → Bounded max db'
unfolding create_event
announced-Bounded max key type aggregate payload event db db' p h b = ground (arith, b)
