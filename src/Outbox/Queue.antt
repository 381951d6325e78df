-- ===== src/Outbox/Queue.antt =====
-- Which events a claim takes: the oldest that are due, as many as the batch has room for.
use achflow.Prelude.{
  ℕ, suc, zero, ◌≡◌, refl, true, List, [], ◌∷◌, map, length, take, select, All, min, arith, ltb,
  update, Bool, false, ◌<◌, ◌≤◌, ◌⊎◌, Bool-cases, inl, inr,
}
use achflow.Schema.{Db, OutboxEvent, ok, update_events, event_status_discrete}
use achflow.Outbox.Sorting.{skip, Leads, in_order-Ordered, prefix-Leads, length-in_order}
use achflow.Outbox.Repository.{
  is_due, earlier, insert, in_order, due_events, claimable, claim_pending, mark_claimed, is_among,
}

-- The order of two events as numbers: by when they became available, then by when they were created.
abbrev pub IsBefore : OutboxEvent → OutboxEvent → Type 0
IsBefore e x =
    (e.available_at < x.available_at)
    ⊎ ((e.available_at ≡ x.available_at) × (e.created_at ≤ x.created_at))

-- Reads the Boolean test of the query.
Leads-IsBefore : (e x : OutboxEvent) → earlier e x ≡ true → IsBefore e x
Leads-IsBefore e x h = elim (Bool-cases (ltb e.available_at x.available_at)) [
  | inl l ↦ inl (ground (arith, l))
  | inr l ↦ inr (ground (arith, l, h), ground (arith, l, h))
]

select-nil :
    (now : ℕ) (c : OutboxEvent → Bool) → select (is_due now) (update c (mark_claimed now) []) ≡ []
unfolding select update
select-nil now c = refl

module _ (now : ℕ) (c : OutboxEvent → Bool) (x : OutboxEvent) (es : List OutboxEvent) where
  select-due : is_due now x ≡ true → select (is_due now) (x ∷ es) ≡ x ∷ select (is_due now) es
  unfolding select
  select-due h = ground (arith, h)

  select-later : is_due now x ≡ false → select (is_due now) (x ∷ es) ≡ select (is_due now) es
  unfolding select
  select-later h = ground (arith, h)

  select-claimed :
      c x ≡ true
      → select (is_due now) (update c (mark_claimed now) (x ∷ es))
        ≡ select (is_due now) (update c (mark_claimed now) es)
  unfolding select update event_status_discrete
  select-claimed h = ground (arith, h)

  update-unclaimed :
      c x ≡ false → update c (mark_claimed now) (x ∷ es) ≡ x ∷ update c (mark_claimed now) es
  unfolding update
  update-unclaimed h = ground (arith, h)

module _ (P : OutboxEvent → Type 0) where
  All-join : (n : ℕ) (es : List OutboxEvent) → All P (take n es) → All P (skip n es) → All P es
  unfolding skip
  All-join zero es a b = b
  All-join (suc n) [] a b = tt
  All-join (suc n) (e ∷ es) a b = (a.0, All-join n es a.1 b)

  insert-All : (e : OutboxEvent) (es : List OutboxEvent) → All P (insert e es) → P e × All P es
  unfolding insert
  insert-All e [] = λ a. a
  insert-All e (x ∷ es) = elim (Bool-cases (earlier e x)) [
    | inl b ↦ rw b (λ a. a)
    | inr b ↦ rw b (λ a. let (y, ys) = insert-All e es a.1 in (y, (a.0, ys)))
  ]

  in_order-All : (es : List OutboxEvent) → All P (in_order es) → All P es
  unfolding in_order
  in_order-All [] a = tt
  in_order-All (e ∷ es) a = let (y, ys) = insert-All e (in_order es) a in (y, in_order-All es ys)

  -- What is due after the update is what was due and is not updated.
  still_due :
      (now : ℕ) (c : OutboxEvent → Bool) (es : List OutboxEvent)
      → All (λ x. (c x ≡ true) ⊎ P x) (select (is_due now) es)
      → All P (select (is_due now) (update c (mark_claimed now) es))
  still_due now c [] = λ a. rw (select-nil now c) tt
  still_due now c (x ∷ es) = elim (Bool-cases (is_due now x)) [
    | inl due ↦ elim (Bool-cases (c x)) [
      | inl y ↦
          rw (select-due now c x es due, select-claimed now c x es y) (λ a. still_due now c es a.1)
      | inr y ↦
          rw
            (
              select-due now c x es due,
              update-unclaimed now c x es y,
              select-due now c x (update c (mark_claimed now) es) due,
            )
            (λ a. (kept y a.0, still_due now c es a.1))
    ]
    | inr later ↦ elim (Bool-cases (c x)) [
      | inl y ↦ rw (select-later now c x es later, select-claimed now c x es y) (still_due now c es)
      | inr y ↦
          rw
            (
              select-later now c x es later,
              update-unclaimed now c x es y,
              select-later now c x (update c (mark_claimed now) es) later,
            )
            (still_due now c es)
    ]
  ]
    where
      kept : (c x ≡ false) → (c x ≡ true) ⊎ P x → P x
      kept y (inl z) = absurd (ground (arith, y, z))
      kept y (inr p) = p

All-imp :
    {P Q : OutboxEvent → Type 0} (es : List OutboxEvent)
    → ((e : OutboxEvent) → P e → Q e)
    → All P es
    → All Q es
All-imp [] f a = tt
All-imp (e ∷ es) f a = (f e a.0, All-imp es f a.1)

among_self : (es : List OutboxEvent) → All (λ x. is_among es x ≡ true) es
unfolding is_among
among_self [] = tt
among_self (e ∷ es) = (ground arith, All-imp es (λ x h. ground (arith, h)) (among_self es))

map-All :
    (P : OutboxEvent → Type 0) (now : ℕ) (es : List OutboxEvent)
    → All (λ e. P (mark_claimed now e)) es
    → All P (map (mark_claimed now) es)
map-All P now [] a = tt
map-All P now (e ∷ es) a = (a.0, map-All P now es a.1)

length-claimed :
    (n now : ℕ) (es : List OutboxEvent)
    → length (map (mark_claimed now) (take n es)) ≡ min n (length es)
length-claimed zero now es = omega arith
length-claimed (suc n) now [] = omega arith
length-claimed (suc n) now (e ∷ es) = omega (arith, length-claimed n now es)

-- What a claim takes, before what it leaves to claim.
ahead_of_the_rest :
    (n : ℕ) (db : Db) (e : OutboxEvent)
    → Leads e (skip n (due_events db))
    → All
        (λ x. IsBefore e x)
        (select
          (is_due db.clock)
          (update (is_among (claimable n db)) (mark_claimed db.clock) db.outbox_events))
unfolding due_events
ahead_of_the_rest n db e leads =
    let due = select (is_due db.clock) db.outbox_events in
    let taken = claimable n db in
    still_due (λ x. IsBefore e x) db.clock (is_among taken) db.outbox_events
      (in_order-All (λ x. (is_among taken x ≡ true) ⊎ IsBefore e x) due
        (All-join (λ x. (is_among taken x ≡ true) ⊎ IsBefore e x) n (in_order due)
          (All-imp taken (λ x h. inl h) (among_self taken))
          (All-imp (skip n (in_order due)) (λ x h. inr (Leads-IsBefore e x h)) leads)))

-- A claim takes as many events as are due, up to the size of the batch, and none that is due and
-- that it leaves in the store became available before one that it takes, or at the same time and
-- was created before it.
pub claim_oldest :
    (batch_size : ℕ) (db db' : Db) (events : List OutboxEvent)
    → claim_pending batch_size db ≡ ok (events, db')
    → All (λ e. All (λ x. IsBefore e x) (select (is_due db.clock) db'.outbox_events)) events
      × (length events ≡ min batch_size (length (select (is_due db.clock) db.outbox_events)))
unfolding claim_pending due_events update_events
claim_oldest n db db' events h =
    let due = select (is_due db.clock) db.outbox_events in
    let rows : db'.outbox_events
        ≡ update (is_among (claimable n db)) (mark_claimed db.clock) db.outbox_events =
      ground (arith, h) in
    let taken : events ≡ map (mark_claimed db.clock) (claimable n db) = ground (arith, h) in
    (
      rw (rows, taken)
          (map-All
            (λ e.
              All (λ x. IsBefore e x)
                (select (is_due db.clock)
                  (update (is_among (claimable n db)) (mark_claimed db.clock) db.outbox_events)))
            db.clock (claimable n db)
            (All-imp (claimable n db) (ahead_of_the_rest n db)
              (prefix-Leads n (in_order due) (in_order-Ordered due)))),
      rw taken (omega (arith, length-claimed n db.clock (in_order due), length-in_order due)),
    )
