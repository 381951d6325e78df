-- ===== src/Tests/Rates.antt =====
-- An instance of the theorem on the rate limit, over a store of counters in memory.
use achflow.Prelude.{
  ℕ, suc, ◌+◌, ◌≤◌, ◌<◌, ◌≡◌, ◌≢◌, refl, ap, Bool, true, ◌&&◌, Option, none, some, [], ◌∷◌, ltb,
  ◌==◌, if◌then◌else◌, arith, count, Bool-cases, inl, inr,
}
use achflow.RateLimit.Redis.{Key, Redis, number_of}
use achflow.RateLimit.Window.{allowed_count, window_bound}

record Cell : Type 0 where
  number : ℕ
  expiry : Option ℕ

abbrev Memory : Type 0
Memory = Key → Option Cell

abbrev same_key : Key → Key → Bool
same_key j k = j.merchant == k.merchant && j.window == k.window

abbrev is_alive : ℕ → Option ℕ → Bool
is_alive t none = true
is_alive t (some u) = ltb t u

abbrev read : ℕ → Option Cell → Option ℕ
read t none = none
read t (some c) = if is_alive t c.expiry then some c.number else none

abbrev counted : ℕ → Option Cell → Option Cell
counted t none = some (record { number = 1; expiry = none })
counted t (some c) =
    if is_alive t c.expiry
    then some (record { number = suc c.number; expiry = c.expiry })
    else some (record { number = 1; expiry = none })

abbrev expiring : (seconds now : ℕ) → Option Cell → Option Cell
expiring n t none = none
expiring n t (some c) =
    if is_alive t c.expiry then some (record { number = c.number; expiry = some (t + n) }) else none

abbrev expiry_of : Option Cell → Option ℕ
expiry_of none = none
expiry_of (some c) = c.expiry

abbrev put : Key → Option Cell → Memory → Memory
put k c s j = if same_key j k then c else s j

own_key : (k : Key) (c : Option Cell) (s : Memory) → put k c s k ≡ c
own_key k c s = let same : same_key k k ≡ true = ground arith in rw same refl

other_key : (k j : Key) (c : Option Cell) (s : Memory) → j ≢ k → put k c s j ≡ s j
other_key k j c s differs = elim (Bool-cases (same_key j k)) [
  | inl e ↦
      let m : j.merchant ≡ k.merchant = ground (arith, e) in
      let w : j.window ≡ k.window = ground (arith, e) in
      absurd (differs (λ i. record { merchant = m i; window = w i }))
  | inr e ↦ rw e refl
]

read-counted : (t : ℕ) (c : Option Cell) → read t (counted t c) ≡ some (suc (number_of (read t c)))
read-counted t none = refl
read-counted t (some c) = elim (Bool-cases (is_alive t c.expiry)) [
  | inl e ↦ rw (e, e) refl
  | inr e ↦ rw e refl
]

counted-expiry :
    (t n : ℕ) (c : Option Cell) → read t c ≡ some n → expiry_of (counted t c) ≡ expiry_of c
counted-expiry t n none h = cc
counted-expiry t n (some c) h = elim (Bool-cases (is_alive t c.expiry)) [
  | inl e ↦ rw e refl
  | inr e ↦ absurd (ground (arith, e, h))
]

read-expiring : (n t : ℕ) (c : Option Cell) → 0 < n → read t (expiring n t c) ≡ read t c
read-expiring n t none h = refl
read-expiring n t (some c) h = elim (Bool-cases (is_alive t c.expiry)) [
  | inl e ↦ let before : ltb t (t + n) ≡ true = ground (arith, h) in rw (e, before) refl
  | inr e ↦ rw e refl
]

expiring-expiry :
    (n t m : ℕ) (c : Option Cell) → read t c ≡ some m → expiry_of (expiring n t c) ≡ some (t + n)
expiring-expiry n t m none h = cc
expiring-expiry n t m (some c) h = elim (Bool-cases (is_alive t c.expiry)) [
  | inl e ↦ rw e refl
  | inr e ↦ absurd (ground (arith, e, h))
]

read-later :
    (u t t' : ℕ) (c : Option Cell) → expiry_of c ≡ some u → t ≤ t' → t' < u → read t' c ≡ read t c
read-later u t t' none e h l = refl
read-later u t t' (some c) e h l =
    let now : ltb t u ≡ true = ground (arith, h, l) in
    let later : ltb t' u ≡ true = ground (arith, l) in rw (e, now, later) refl

memory : Redis Memory
memory = record {
  incr = λ k t s. put k (counted t (s k)) s;
  expire = λ k n t s. put k (expiring n t (s k)) s;
  ttl = λ k t s. 0;
  get = λ k t s. read t (s k);
  expires_at = λ k s. expiry_of (s k);
  get-incr = λ k t s. rw (own_key k (counted t (s k)) s) (read-counted t (s k));
  expires-incr = λ k t n s h. rw (own_key k (counted t (s k)) s) (counted-expiry t n (s k) h);
  get-expire = λ k n t s h. rw (own_key k (expiring n t (s k)) s) (read-expiring n t (s k) h);
  expires-expire =
      λ k n t m s h. rw (own_key k (expiring n t (s k)) s) (expiring-expiry n t m (s k) h);
  get-later = λ u t t' k s e h l. read-later u t t' (s k) e h l;
  get-incr_other = λ k j t t' s d. ap (read t') (other_key k j (counted t (s k)) s d);
  get-expire_other = λ k j n t t' s d. ap (read t') (other_key k j (expiring n t (s k)) s d);
  expires-incr_other = λ k j t s d. ap expiry_of (other_key k j (counted t (s k)) s d);
  expires-expire_other = λ k j n t s d. ap expiry_of (other_key k j (expiring n t (s k)) s d);
}

-- Three requests of a merchant in a window of a minute with a limit of two, and one of another.
window_bound_example :
    allowed_count memory 2 60 1 5
      (record { merchant = 1; time = 300 }
        ∷ record { merchant = 2; time = 310 }
        ∷ record { merchant = 1; time = 320 }
        ∷ record { merchant = 1; time = 359 }
        ∷ [])
      (λ k. none)
    ≡ 2
unfolding count memory
window_bound_example =
    window_bound memory 2 60 1 5 300
      (record { merchant = 1; time = 300 }
        ∷ record { merchant = 2; time = 310 }
        ∷ record { merchant = 1; time = 320 }
        ∷ record { merchant = 1; time = 359 }
        ∷ [])
      (λ k. none) (omega arith) (omega arith) (λ t. refl)
