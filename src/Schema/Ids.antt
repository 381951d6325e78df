-- ===== src/Schema/Ids.antt =====
-- Rows are added in front, under ids that grow. What that gives for queries and updates by id.
use achflow.Prelude.{
  ℕ, ◌<◌, ◌≤◌, ◌≡◌, refl, Bool, true, false, ◌&&◌, none, some, List, [], ◌∷◌, arith, ◌==◌, find,
  update, count, Bool-cases, inl, inr, if◌then◌else◌,
}
use achflow.Schema.Rows.{Payment, Reservation, MerchantDailyUsage, OutboxEvent}
use achflow.Schema.Store.{Db}

-- Ids fall along the list and stay under the bound.
abbrev pub Below {ℓ} : {A : Type ℓ} → (A → ℕ) → ℕ → List A → Type 0
Below key n [] = Unit {0}
Below key n (x ∷ xs) = (key x < n) × Below key (key x) xs

-- What a query finds passes its test.
pub find-holds : {A : Type 0} (p : A → Bool) (xs : List A) (r : A) → find p xs ≡ some r → p r ≡ true
unfolding find
find-holds p [] r e = cc
find-holds p (x ∷ xs) r e = ground (arith, find-holds p xs r)

-- An update of the rows that pass a test, which still pass it, changes the row that is found.
pub find-update_same :
    {A : Type 0} (p : A → Bool) (f : A → A) (xs : List A) (r : A)
    → ((x : A) → p (f x) ≡ p x)
    → find p xs ≡ some r
    → find p (update p f xs) ≡ some (f r)
unfolding find update
find-update_same p f [] r k e = cc
find-update_same p f (x ∷ xs) r k e = ground (arith, k x, find-update_same p f xs r k)

-- An update that keeps a query's test changes the row found or leaves it.
pub find-update_any :
    {A : Type 0} (p q : A → Bool) (f : A → A) (xs : List A) (r : A)
    → ((x : A) → p (f x) ≡ p x)
    → find p xs ≡ some r
    → find p (update q f xs) ≡ some (if q r then f r else r)
unfolding find update
find-update_any p q f [] r k e = cc
find-update_any p q f (x ∷ xs) r k e = ground (arith, k x, find-update_any p q f xs r k)

module _ {A : Type 0} (key : A → ℕ) where
  pub Below-mono : (m n : ℕ) (xs : List A) → m ≤ n → Below key m xs → Below key n xs
  Below-mono m n [] h b = tt
  Below-mono m n (x ∷ xs) h b = (omega arith, b.1)

  pub find-lt :
      (p : A → Bool) (n : ℕ) (xs : List A) (r : A) → Below key n xs → find p xs ≡ some r → key r < n
  unfolding find
  find-lt p n [] r b e = cc
  find-lt p n (x ∷ xs) r b e = ground (arith, find-lt p (key x) xs r b.1)

  -- The row that a query finds is the row of its id.
  pub find_by_id :
      (p : A → Bool) (n : ℕ) (xs : List A) (r : A)
      → Below key n xs
      → find p xs ≡ some r
      → find (λ x. key x == key r) xs ≡ some r
  unfolding find
  find_by_id p n [] r b e = cc
  find_by_id p n (x ∷ xs) r b e =
      ground (arith, find-lt p (key x) xs r b.1, find_by_id p (key x) xs r b.1)

  -- An update of an id that the list does not reach changes nothing.
  pub update_above :
      (n i : ℕ) (f : A → A) (xs : List A)
      → Below key n xs
      → n ≤ i
      → update (λ x. key x == i) f xs ≡ xs
  unfolding update
  update_above n i f [] b h = refl
  update_above n i f (x ∷ xs) b h = ground (arith, update_above (key x) i f xs b.1)

  -- An update that keeps the ids keeps them in order.
  pub update-Below :
      (n : ℕ) (p : A → Bool) (f : A → A) (xs : List A)
      → ((x : A) → key (f x) ≡ key x)
      → Below key n xs
      → Below key n (update p f xs)
  unfolding update
  update-Below n p f [] k b = tt
  update-Below n p f (x ∷ xs) k b = elim (Bool-cases (p x)) [
    | inl e ↦ rw (e, k x) (b.0, update-Below (key x) p f xs k b.1)
    | inr e ↦ rw e (b.0, update-Below (key x) p f xs k b.1)
  ]

  -- The row that a query finds is the one that an update by its id changes.
  pub find-update_own :
      (p : A → Bool) (n : ℕ) (f : A → A) (xs : List A) (r : A)
      → Below key n xs
      → ((x : A) → p (f x) ≡ p x)
      → find p xs ≡ some r
      → find p (update (λ x. key x == key r) f xs) ≡ some (f r)
  unfolding find update
  find-update_own p n f [] r b k e = cc
  find-update_own p n f (x ∷ xs) r b k e =
      ground (arith, k x, find-lt p (key x) xs r b.1, find-update_own p (key x) f xs r b.1 k)

  -- A query that does not find that row finds what it found before.
  pub find-update_other :
      (p q : A → Bool) (n : ℕ) (f : A → A) (xs : List A) (r : A)
      → Below key n xs
      → ((x : A) → q (f x) ≡ q x)
      → find p xs ≡ some r
      → q r ≡ false
      → find q (update (λ x. key x == key r) f xs) ≡ find q xs
  unfolding find update
  find-update_other p q n f [] r b k e ne = refl
  find-update_other p q n f (x ∷ xs) r b k e ne = ground (
    arith,
    k x,
    find-lt p (key x) xs r b.1,
    update_above (key x) (key x) f xs b.1,
    find-update_other p q (key x) f xs r b.1 k,
  )

  pub guarded_above :
      (n i : ℕ) (q : A → Bool) (f : A → A) (xs : List A)
      → Below key n xs
      → n ≤ i
      → (update (λ x. key x == i && q x) f xs ≡ xs) × (count (λ x. key x == i && q x) xs ≡ 0)
  unfolding update count
  guarded_above n i q f [] b h = (refl, refl)
  guarded_above n i q f (x ∷ xs) b h = ground (arith, guarded_above (key x) i q f xs b.1)

  -- Where the row fails the guard, nothing is updated.
  pub guarded_fails :
      (i n : ℕ) (q : A → Bool) (f : A → A) (xs : List A) (r : A)
      → Below key n xs
      → find (λ x. key x == i) xs ≡ some r
      → q r ≡ false
      → (update (λ x. key x == i && q x) f xs ≡ xs) × (count (λ x. key x == i && q x) xs ≡ 0)
  unfolding find update count
  guarded_fails i n q f [] r b e g = cc
  guarded_fails i n q f (x ∷ xs) r b e g = ground (
    arith,
    find-lt (λ y. key y == i) (key x) xs r b.1,
    guarded_above (key x) i q f xs b.1,
    guarded_fails i (key x) q f xs r b.1,
  )

  -- So where there is no such row.
  pub guarded_missing :
      (i : ℕ) (q : A → Bool) (f : A → A) (xs : List A)
      → find (λ x. key x == i) xs ≡ none
      → (update (λ x. key x == i && q x) f xs ≡ xs) × (count (λ x. key x == i && q x) xs ≡ 0)
  unfolding find update count
  guarded_missing i q f [] e = (refl, refl)
  guarded_missing i q f (x ∷ xs) e = ground (arith, guarded_missing i q f xs)

  -- A guarded update by id, where the row passes the guard, is the update by id, of one row.
  pub update_guarded :
      (i n : ℕ) (q : A → Bool) (f : A → A) (xs : List A) (r : A)
      → Below key n xs
      → find (λ x. key x == i) xs ≡ some r
      → q r ≡ true
      → (update (λ x. key x == i && q x) f xs ≡ update (λ x. key x == i) f xs)
        × (count (λ x. key x == i && q x) xs ≡ 1)
  unfolding find update count
  update_guarded i n q f [] r b e g = cc
  update_guarded i n q f (x ∷ xs) r b e g = ground (
    arith,
    find-lt (λ y. key y == i) (key x) xs r b.1,
    guarded_above (key x) i q f xs b.1,
    update_above (key x) i f xs b.1,
    update_guarded i (key x) q f xs r b.1,
  )

-- The invariant of the store: rows are in the order of their ids, which the supply is above.
pub record WellFormed (db : Db) : Type 0 where
  pub payments_below : Below Payment.id db.next_id db.payments
  pub reservations_below : Below Reservation.id db.next_id db.reservations
  pub usage_below : Below MerchantDailyUsage.id db.next_id db.daily_usage
  pub events_below : Below OutboxEvent.id db.next_id db.outbox_events
