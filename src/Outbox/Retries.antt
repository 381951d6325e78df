-- ===== src/Outbox/Retries.antt =====
-- What becomes of an event whose handling fails.
use achflow.Prelude.{
  ℕ, suc, zero, ◌+◌, ◌-◌, ◌^◌, ◌≤◌, ◌<◌, ◌≡◌, ◌⊎◌, inl, inr, refl, String, Bool, some, find, arith,
  ◌==◌, leb, ◌&&◌, Bool-cases,
}
use achflow.Schema.{Db, OutboxEvent, OutboxEventStatus, ok, update_events}
use achflow.Schema.Ids.{find-update_any, find-holds}
use achflow.Outbox.Repository.{
  is_processing, update_claimed_event, mark_failed, retry_delay_ms, give_up, retry_at,
}

power_positive : (n : ℕ) → 1 ≤ 2 ^ n
power_positive zero = omega arith
power_positive (suc n) = omega (arith, power_positive n)

-- A delay is a second at least and a minute at most.
pub retry_delay_bounds : (n : ℕ) → (1000 ≤ retry_delay_ms n) × (retry_delay_ms n ≤ 60000)
unfolding retry_delay_ms
retry_delay_bounds n =
    (omega (arith, power_positive (n - 1)), omega (arith, power_positive (n - 1)))

-- A claimed event that fails is given up where its attempts are at the limit, and otherwise waits
-- for a second at least and a minute at most.
failed_event :
    (event row : OutboxEvent) (max n : ℕ) (error : String) (db db' : Db)
    → find (λ e. e.id == event.id) db.outbox_events ≡ some row
    → row.status ≡ OutboxEventStatus.processing
    → mark_failed event max error db ≡ ok (n, db')
    → (row' : OutboxEvent) × (find (λ e. e.id == event.id) db'.outbox_events ≡ some row')
      × (((max ≤ event.attempts) × (row'.status ≡ OutboxEventStatus.failed))
          ⊎ ((event.attempts < max)
              × (row'.status ≡ OutboxEventStatus.pending)
              × (db.clock + 1000 ≤ row'.available_at)
              × (row'.available_at ≤ db.clock + 60000)))
unfolding mark_failed update_claimed_event update_events
failed_event event row max n error db db' found s h =
    let claimed : OutboxEvent → Bool = λ e. e.id == event.id && is_processing e in
    let own : OutboxEvent → Bool = λ e. e.id == event.id in
    let time = db.clock + retry_delay_ms event.attempts in
    elim (Bool-cases (leb max event.attempts)) [
      | inl dead ↦ (
        give_up error row,
        ground (
          arith,
          find-update_any own claimed (give_up error) db.outbox_events row (λ x. refl) found,
          find-holds own db.outbox_events row found,
        ),
        inl (ground arith, refl),
      )
      | inr alive ↦ (
        retry_at time error row,
        ground (
          arith,
          find-update_any own claimed (retry_at time error) db.outbox_events row (λ x. refl) found,
          find-holds own db.outbox_events row found,
        ),
        inr (
          ground arith,
          refl,
          ground (arith, retry_delay_bounds event.attempts),
          ground (arith, retry_delay_bounds event.attempts),
        ),
      )
    ]
