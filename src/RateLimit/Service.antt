-- ===== src/RateLimit/Service.antt =====
-- The API's rate-limit/payment-rate-limit.service.ts and rate-limit/payment-rate-limit.guard.ts, over
-- the commands of Redis.
use achflow.Prelude.{
  ℕ, suc, ◌-◌, ◌/◌, ◌%◌, max, Bool, true, false, ◌||◌, not, Option, none, some, [], ◌∷◌, leb, ltb,
  ◌==◌, if◌then◌else◌,
}
use achflow.Nacha.Text.{Units, digits, big_int}
use achflow.RateLimit.Redis.{Key, Redis, number_of}

unfoldable pub same_units : Units → Units → Bool
same_units [] [] = true
same_units (x ∷ xs) (y ∷ ys) = let rest = same_units xs ys in if x == y then rest else false
same_units _ _ = false

-- `getPositiveInteger`, of the configured text: nothing where it throws.
unfoldable pub positive_integer : (fallback : ℕ) → (value : Option Units) → Option ℕ
unfolding big_int digits same_units
positive_integer fallback none = some fallback
positive_integer fallback (some value) = elim (big_int value) [
  | none ↦ none
  | some n ↦
      if n == 0 || ltb 9007199254740991 n || not (same_units (digits (suc n) n) value)
      then none
      else some n
]

pub record RateLimitConfig : Type 0 where
  pub max_requests : Option Units
  pub window_seconds : Option Units

pub record PaymentRateLimitResult : Type 0 where
  pub allowed : Bool
  pub retry_after_seconds : ℕ

abbrev pub key_at : (merchant window_seconds now : ℕ) → Key
key_at merchant window_seconds now = record { merchant = merchant; window = now / window_seconds }

module _ {S : Type 0} (redis : Redis S) where
  -- The script: the count, and the seconds left.
  unfoldable pub increment_with_expiry : Key → (seconds now : ℕ) → S → (ℕ × ℕ) × S
  increment_with_expiry key seconds now s =
      let counted = redis.incr key now s in
      let count = number_of (redis.get key now counted) in
      let s' = if count == 1 then redis.expire key seconds now counted else counted in
      ((count, redis.ttl key now s'), s')

  -- `consume`, of the two numbers of the configuration.
  unfoldable pub consume_within :
      (max_requests window_seconds merchant now : ℕ) → S → PaymentRateLimitResult × S
  unfolding increment_with_expiry
  consume_within max_requests window_seconds merchant now s =
      let expires_in = max 1 (window_seconds - now % window_seconds) in
      let ((count, ttl), s') =
        increment_with_expiry (key_at merchant window_seconds now) expires_in now s in
      (record { allowed = leb count max_requests; retry_after_seconds = max 1 ttl }, s')

  unfoldable pub consume :
      RateLimitConfig → (merchant now : ℕ) → S → Option PaymentRateLimitResult × S
  unfolding positive_integer consume_within
  consume config merchant now s = elim (positive_integer 100 config.max_requests) [
    | none ↦ (none, s)
    | some max_requests ↦ elim (positive_integer 60 config.window_seconds) [
      | none ↦ (none, s)
      | some window_seconds ↦
          let (result, s') = consume_within max_requests window_seconds merchant now s in
          (some result, s')
    ]
  ]

  -- `canActivate`: it passes, or answers 429 with `Retry-After`, or 503.
  pub data Activation : Type 0 where
    passes unavailable : Activation
    limit_exceeded : (retry_after : ℕ) → Activation

  unfoldable pub can_activate : RateLimitConfig → (merchant now : ℕ) → S → Activation × S
  unfolding consume
  can_activate config merchant now s =
      let (result, s') = consume config merchant now s in
      (
        elim result [
          | none ↦ unavailable
          | some r ↦ if r.allowed then passes else limit_exceeded r.retry_after_seconds
        ],
        s',
      )
