-- ===== src/RateLimit/Redis.antt =====
-- What the API's rate-limit/payment-rate-limit.service.ts relies on of Redis: the commands of its
-- script, and what they are documented to do. Times are seconds of one clock.
use achflow.Prelude.{ℕ, suc, ◌+◌, ◌≤◌, ◌<◌, ◌≡◌, Option, none, some, ◌≢◌}

-- `<namespace>:merchant:<merchant>:window:<window>`, under one namespace.
pub record Key : Type 0 where
  pub merchant : ℕ
  pub window : ℕ

-- The number of a key, where it has one.
abbrev pub number_of : Option ℕ → ℕ
number_of none = 0
number_of (some n) = n

pub record Redis (S : Type 0) : Type 0 where
  pub incr : Key → (now : ℕ) → S → S
  pub expire : Key → (seconds now : ℕ) → S → S
  pub ttl : Key → (now : ℕ) → S → ℕ
  pub get : Key → (now : ℕ) → S → Option ℕ
  pub expires_at : Key → S → Option ℕ
  -- `INCR` counts a missing key from 0, and keeps the expiry of another.
  pub get-incr :
      (k : Key) (t : ℕ) (s : S) → get k t (incr k t s) ≡ some (suc (number_of (get k t s)))
  pub expires-incr :
      (k : Key) (t n : ℕ) (s : S) → get k t s ≡ some n → expires_at k (incr k t s) ≡ expires_at k s
  -- `EXPIRE` keeps the number, which stays until then.
  pub get-expire : (k : Key) (n t : ℕ) (s : S) → 0 < n → get k t (expire k n t s) ≡ get k t s
  pub expires-expire :
      (k : Key) (n t m : ℕ) (s : S)
      → get k t s ≡ some m
      → expires_at k (expire k n t s) ≡ some (t + n)
  pub get-later :
      (u t t' : ℕ) (k : Key) (s : S)
      → expires_at k s ≡ some u
      → t ≤ t'
      → t' < u
      → get k t' s ≡ get k t s
  -- The commands of a key leave the others.
  pub get-incr_other : (k j : Key) (t t' : ℕ) (s : S) → j ≢ k → get j t' (incr k t s) ≡ get j t' s
  pub get-expire_other :
      (k j : Key) (n t t' : ℕ) (s : S) → j ≢ k → get j t' (expire k n t s) ≡ get j t' s
  pub expires-incr_other :
      (k j : Key) (t : ℕ) (s : S) → j ≢ k → expires_at j (incr k t s) ≡ expires_at j s
  pub expires-expire_other :
      (k j : Key) (n t : ℕ) (s : S) → j ≢ k → expires_at j (expire k n t s) ≡ expires_at j s
