-- ===== src/RateLimit/Window.antt =====
-- How many requests a window of the rate limit takes: `consume` of the API's
-- rate-limit/payment-rate-limit.service.ts, over any sequence of requests.
use achflow.Prelude.{
  ℕ, suc, ◌+◌, ◌*◌, ◌-◌, ◌/◌, ◌%◌, ◌≤◌, ◌<◌, ◌≡◌, ◌≢◌, inl, inr, refl, ap, subst, ◌∙◌, min, max,
  Bool, false, ◌&&◌, none, some, List, [], ◌∷◌, count, leb, ◌==◌, arith, if◌then◌else◌, Bool-cases,
}
use achflow.RateLimit.Redis.{Key, Redis, number_of}
use achflow.RateLimit.Service.{
  PaymentRateLimitResult, increment_with_expiry, key_at, consume_within,
}

pub record Request : Type 0 where
  pub merchant : ℕ
  pub time : ℕ

-- The requests come in time.
abbrev pub Since : ℕ → List Request → Type 0
Since t [] = Unit {0}
Since t (r ∷ rs) = (t ≤ r.time) × Since r.time rs

abbrev pub in_window : (window_seconds merchant window : ℕ) → Request → Bool
in_window window_seconds merchant window r =
    r.merchant == merchant && r.time / window_seconds == window

module _ {S : Type 0} (redis : Redis S) (max_requests window_seconds merchant window : ℕ) where
  abbrev mine : Request → Bool
  mine = in_window window_seconds merchant window

  -- How many requests of the merchant in the window are allowed.
  unfoldable pub allowed_count : List Request → S → ℕ
  unfolding consume_within
  allowed_count [] s = 0
  allowed_count (r ∷ rs) s =
      let (result, s') = consume_within redis max_requests window_seconds r.merchant r.time s in
      let rest = allowed_count rs s' in if mine r && result.allowed then suc rest else rest

  abbrev own_key : Key
  own_key = record { merchant = merchant; window = window }

  abbrev window_end : ℕ
  window_end = window * window_seconds + window_seconds

  -- Redis has counted n requests of the window up to a time.
  data Counted (t : ℕ) (s : S) : ℕ → Type 0 where
    unseen : ((t' : ℕ) → redis.get own_key t' s ≡ none) → Counted t s 0
    seen :
        {n : ℕ} (at : ℕ)
        → at ≤ t
        → redis.get own_key at s ≡ some (suc n)
        → redis.expires_at own_key s ≡ some window_end
        → Counted t s (suc n)

  module _ (positive : 0 < window_seconds) where
    -- The seconds left, and the window that a time is in.
    ends :
        (t : ℕ)
        → t / window_seconds ≡ window
        → t + max 1 (window_seconds - t % window_seconds) ≡ window_end
    ends t here =
        let whole : t + max 1 (window_seconds - t % window_seconds)
            ≡ t / window_seconds * window_seconds + window_seconds =
          omega (arith, positive) in
        whole ∙ ap (λ w. w * window_seconds + window_seconds) here

    inside : (t : ℕ) → t / window_seconds ≡ window → t < window_end
    inside t here =
        let whole : t < t / window_seconds * window_seconds + window_seconds =
          omega (arith, positive) in
        subst (λ w. t < w * window_seconds + window_seconds) here whole

    own_request :
        (t0 t n : ℕ) (s : S)
        → t0 ≤ t
        → t / window_seconds ≡ window
        → Counted t0 s n
        → let (result, s') = consume_within redis max_requests window_seconds merchant t s in
          (result.allowed ≡ leb (suc n) max_requests) × Counted t s' (suc n)
    unfolding consume_within increment_with_expiry
    own_request t0 t n s later here (unseen fresh) =
        let seconds = max 1 (window_seconds - t % window_seconds) in
        let counted = redis.incr own_key t s in
        let some_time : 0 < seconds = omega arith in
        let got : redis.get own_key t counted ≡ some 1 =
          redis.get-incr own_key t s ∙ ap (λ o. some (suc (number_of o))) (fresh t) in
        rw (here, got)
          (
            refl,
            seen t (omega arith) (redis.get-expire own_key seconds t counted some_time ∙ got)
                (redis.expires-expire own_key seconds t 1 counted got ∙ ap some (ends t here)),
          )
    own_request t0 t n s later here (seen {n = k} at before got until) =
        let there : redis.get own_key t s ≡ some (suc k) =
          redis.get-later window_end at t own_key s until (omega (arith, before, later))
            (inside t here)
          ∙ got in
        let counted : redis.get own_key t (redis.incr own_key t s) ≡ some (suc (suc k)) =
          redis.get-incr own_key t s ∙ ap (λ o. some (suc (number_of o))) there in
        let again : (suc (suc k) == 1) ≡ false = ground arith in
        rw (here, counted, again)
          (
            refl,
            seen t (omega arith) counted (redis.expires-incr own_key t (suc k) s there ∙ until),
          )

  counted_still :
      (t0 t n : ℕ) (s s' : S)
      → t0 ≤ t
      → ((t' : ℕ) → redis.get own_key t' s' ≡ redis.get own_key t' s)
      → redis.expires_at own_key s' ≡ redis.expires_at own_key s
      → Counted t0 s n
      → Counted t s' n
  counted_still t0 t n s s' later gets expiry (unseen fresh) = unseen (λ t'. gets t' ∙ fresh t')
  counted_still t0 t n s s' later gets expiry (seen {n = k} at before got until) =
      seen at (omega (arith, before, later)) (gets at ∙ got) (expiry ∙ until)

  other_request :
      (t0 t n m : ℕ) (s : S)
      → t0 ≤ t
      → own_key ≢ key_at m window_seconds t
      → Counted t0 s n
      → Counted t (consume_within redis max_requests window_seconds m t s).1 n
  unfolding consume_within increment_with_expiry
  other_request t0 t n m s later other c =
      let k = key_at m window_seconds t in
      let seconds = max 1 (window_seconds - t % window_seconds) in
      let counted = redis.incr k t s in
      let gets : (t' : ℕ) → redis.get own_key t' counted ≡ redis.get own_key t' s =
        λ t'. redis.get-incr_other k own_key t t' s other in
      let expiry = redis.expires-incr_other k own_key t s other in
      elim (Bool-cases (number_of (redis.get k t counted) == 1)) [
        | inl first ↦ rw first (
            counted_still t0 t n s (redis.expire k seconds t counted) later
              (λ t'. redis.get-expire_other k own_key seconds t t' counted other ∙ gets t')
              (redis.expires-expire_other k own_key seconds t counted other ∙ expiry) c)
        | inr again ↦ rw again (counted_still t0 t n s counted later gets expiry c)
      ]

  abbrev count_one : Request → List Request → PaymentRateLimitResult × S → ℕ
  count_one r rs p =
      if mine r && p.0.allowed then suc (allowed_count rs p.1) else allowed_count rs p.1

  count-cons :
      (r : Request) (rs : List Request) (s : S) (p : PaymentRateLimitResult × S)
      → consume_within redis max_requests window_seconds r.merchant r.time s ≡ p
      → allowed_count (r ∷ rs) s ≡ count_one r rs p
  unfolding allowed_count
  count-cons r rs s p e = ap (count_one r rs) e

  none_allowed : (s : S) → allowed_count [] s ≡ 0
  unfolding allowed_count
  none_allowed s = refl

  add_own :
      (n c x m : ℕ)
      → min (suc n) m + x ≡ min (suc n + c) m
      → min n m + (if leb (suc n) m then suc x else x) ≡ min (n + suc c) m
  add_own n c x m h = ground (arith, h)

  allowed_after :
      (t n : ℕ) (rs : List Request) (s : S)
      → 0 < window_seconds
      → Since t rs
      → Counted t s n
      → min n max_requests + allowed_count rs s ≡ min (n + count mine rs) max_requests
  unfolding count
  allowed_after t n [] s positive ordered c = omega (arith, none_allowed s)
  allowed_after t n (r ∷ rs) s positive ordered c = elim (Bool-cases (mine r)) [
    | inl own ↦
        let same_merchant : r.merchant ≡ merchant = ground (arith, own) in
        let here : r.time / window_seconds ≡ window = ground (arith, own) in
        let p = consume_within redis max_requests window_seconds merchant r.time s in
        let run : consume_within redis max_requests window_seconds r.merchant r.time s ≡ p =
          ap (λ m. consume_within redis max_requests window_seconds m r.time s) same_merchant in
        let (allowed, c') = own_request positive t r.time n s ordered.0 here c in
        let rest = allowed_after r.time (suc n) rs p.1 positive ordered.1 c' in
        rw (count-cons r rs s p run, own, allowed)
          (add_own n (count mine rs) (allowed_count rs p.1) max_requests rest)
    | inr other ↦
        let p = consume_within redis max_requests window_seconds r.merchant r.time s in
        let differs : own_key ≢ key_at r.merchant window_seconds r.time = λ e.
          let same_merchant = ap Key.merchant e in
          let same_window = ap Key.window e in ground (arith, same_merchant, same_window, other) in
        let c' : Counted r.time p.1 n = other_request t r.time n r.merchant s ordered.0 differs c in
        let rest = allowed_after r.time n rs p.1 positive ordered.1 c' in
        rw (count-cons r rs s p refl, other) rest
  ]

-- Of the requests of a merchant that come in a window of the rate limit, in any sequence of requests in
-- the order of time, as many are allowed as there are, up to the limit.
pub window_bound :
    {S : Type 0} (redis : Redis S) (max_requests window_seconds merchant window start : ℕ)
    (requests : List Request) (s : S)
    → 0 < window_seconds
    → Since start requests
    → ((t : ℕ) → redis.get (record { merchant = merchant; window = window }) t s ≡ none)
    → allowed_count redis max_requests window_seconds merchant window requests s
      ≡ min (count (in_window window_seconds merchant window) requests) max_requests
window_bound redis max_requests window_seconds merchant window start requests s positive ordered
      fresh =
    let bound =
      allowed_after redis max_requests window_seconds merchant window start 0 requests s positive
        ordered (unseen fresh) in
    omega (arith, bound)
