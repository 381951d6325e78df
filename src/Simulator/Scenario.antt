-- ===== src/Simulator/Scenario.antt =====
-- The configuration of a run and what it makes of an index: `validate`, `validateAmountRanges`,
-- `directionFor`, `amountFor` and `percent` of the API's admin/admin-simulator.service.ts.
use achflow.Prelude.{
  ℕ, ◌+◌, ◌*◌, ◌%◌, String, Bool, ◌&&◌, ◌||◌, not, Option, none, some, List, [], ◌∷◌, ltb, ◌==◌,
  if◌then◌else◌,
}
use achflow.Prelude.Int.{ℤ, pos, negsuc, ◌+ℤ◌, ◌-ℤ◌, ltb_ℤ, leb_ℤ}
use achflow.Schema.{PaymentDirection}

pub data SimulatorDirection : Type 0 where
  debit credit mixed : SimulatorDirection

pub record Scenario : Type 0 where
  pub successful_percent : ℕ
  pub validation_failure_percent : ℕ
  pub return_percent : ℕ
  pub insufficient_funds_percent : ℕ
  pub duplicate_percent : ℕ
  pub delayed_processing_percent : ℕ
  pub webhook_failure_percent : ℕ

pub record RunConfig : Type 0 where
  pub merchant_ids : List ℕ
  pub direction : SimulatorDirection
  pub transaction_count : ℕ
  pub minimum_amount_cents : ℕ
  pub maximum_amount_cents : ℕ
  pub scenario : Scenario

pub record SimulatorMerchant : Type 0 where
  pub id : ℕ
  pub merchant_code : String
  pub allow_ach_debit : Bool
  pub allow_ach_credit : Bool
  pub per_payment_limit : ℤ

-- The refusals, with HTTP 400.
pub data Refusal : Type 0 where
  minimum_above_maximum percentages_not_100 returns_unavailable : Refusal
  insufficient_funds_unavailable injection_unavailable : Refusal
  no_direction_enabled amount_above_maximum merchant_missing : Refusal
  no_successful_amount no_failure_amount : String → Refusal

-- `MAX_SIMULATOR_AMOUNT_CENTS`
abbrev pub max_amount_cents : ℤ
max_amount_cents = pos 1000000

unfoldable pub total_percent : Scenario → ℕ
total_percent s =
    s.successful_percent + s.validation_failure_percent + s.duplicate_percent
    + s.insufficient_funds_percent + s.return_percent + s.delayed_processing_percent
    + s.webhook_failure_percent

-- `validate`: the first refusal, if there is one.
unfoldable pub validate : RunConfig → Option Refusal
unfolding total_percent
validate c =
    if ltb c.maximum_amount_cents c.minimum_amount_cents
    then some Refusal.minimum_above_maximum
    else if not (total_percent c.scenario == 100)
    then some Refusal.percentages_not_100
    else if ltb 0 c.scenario.return_percent
    then some Refusal.returns_unavailable
    else if ltb 0 c.scenario.insufficient_funds_percent
    then some Refusal.insufficient_funds_unavailable
    else if ltb 0 c.scenario.delayed_processing_percent || ltb 0 c.scenario.webhook_failure_percent
    then some Refusal.injection_unavailable
    else none

-- The body of the loop of `validateAmountRanges`.
unfoldable pub check_amount_range : RunConfig → SimulatorMerchant → Option Refusal
check_amount_range c m =
    if ltb c.scenario.validation_failure_percent 100
      && ltb_ℤ m.per_payment_limit (pos c.minimum_amount_cents)
    then some (Refusal.no_successful_amount m.merchant_code)
    else if ltb 0 c.scenario.validation_failure_percent
        && leb_ℤ max_amount_cents m.per_payment_limit
    then some (Refusal.no_failure_amount m.merchant_code)
    else none

unfoldable pub validate_amount_ranges : RunConfig → List SimulatorMerchant → Option Refusal
unfolding check_amount_range
validate_amount_ranges c [] = none
validate_amount_ranges c (m ∷ ms) =
    let rest = validate_amount_ranges c ms in
    elim (check_amount_range c m) [ some r ↦ some r | none ↦ rest ]

-- `(index * 37 + 17) % 100 < percent`
unfoldable pub percent : ℕ → ℕ → Bool
percent p index = ltb ((index * 37 + 17) % 100) p

-- `requested` in `directionFor`
abbrev pub requested : SimulatorDirection → ℕ → PaymentDirection
requested SimulatorDirection.debit index = PaymentDirection.debit
requested SimulatorDirection.credit index = PaymentDirection.credit
requested SimulatorDirection.mixed index =
    if index % 2 == 0 then PaymentDirection.debit else PaymentDirection.credit

abbrev pub allows : SimulatorMerchant → PaymentDirection → Bool
allows m PaymentDirection.debit = m.allow_ach_debit
allows m PaymentDirection.credit = m.allow_ach_credit

-- `directionFor`; without a direction the code throws.
unfoldable pub direction_for : SimulatorDirection → SimulatorMerchant → ℕ → Option PaymentDirection
direction_for mode m index =
    if allows m (requested mode index)
    then some (requested mode index)
    else if m.allow_ach_debit
    then some PaymentDirection.debit
    else if m.allow_ach_credit
    then some PaymentDirection.credit
    else none

-- A JavaScript number, as it comes out of the arithmetic of `amountFor`.
pub data Amount : Type 0 where
  cents : ℤ → Amount
  not_a_number : Amount
  refused : Refusal → Amount

-- `minimum + (index % span)`: the remainder takes the sign of the index, and is NaN for 0.
abbrev pub spread : ℕ → ℕ → ℤ → Amount
spread minimum index (pos n) = if n == 0 then not_a_number else cents (pos (minimum + index % n))
spread minimum index (negsuc n) = cents (pos (minimum + index % (n + 1)))

-- The smaller of the merchant's limit and the configured maximum.
abbrev pub maximum_for : RunConfig → SimulatorMerchant → ℤ
maximum_for c m =
    if ltb_ℤ m.per_payment_limit (pos c.maximum_amount_cents)
    then m.per_payment_limit
    else pos c.maximum_amount_cents

-- `amountFor`
unfoldable pub amount_for : RunConfig → SimulatorMerchant → ℕ → (validation_failure : Bool) → Amount
amount_for c m index validation_failure =
    if not validation_failure
    then spread c.minimum_amount_cents index
        (maximum_for c m -ℤ pos c.minimum_amount_cents +ℤ pos 1)
    else if ltb_ℤ max_amount_cents (m.per_payment_limit +ℤ pos 1)
    then refused Refusal.amount_above_maximum
    else cents (m.per_payment_limit +ℤ pos 1)
