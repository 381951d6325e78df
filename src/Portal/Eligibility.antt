-- ===== src/Portal/Eligibility.antt =====
-- The portal's lib/simulator-eligibility.ts. The limits, which come as texts of numbers, are
-- numbers; a reason keeps what fills its text.
use achflow.Prelude.{
  ℕ, ◌+◌, ◌-◌, ◌*◌, ◌/◌, max, String, Bool, false, true, ◌&&◌, ◌||◌, not, Option, none, some, List,
  [], ◌∷◌, ◌++◌, length, ◌==◌, ltb, str_eq, same, if◌then◌else◌,
}
use achflow.Prelude.Int.{ℤ, pos, ◌-ℤ◌, ltb_ℤ}
use achflow.Schema.{MerchantStatus, merchant_status_discrete}
use achflow.Simulator.Scenario.{SimulatorDirection}

pub record PortalMerchant : Type 0 where
  pub id : ℕ
  pub merchant_code : String
  pub status : MerchantStatus
  pub allow_ach_debit : Bool
  pub allow_ach_credit : Bool
  pub per_payment_limit : ℤ
  pub daily_amount_limit : ℤ
  pub daily_utilized_amount : ℤ
  pub active_funding_currencies : List String

pub record EligibilityConfig : Type 0 where
  pub direction : SimulatorDirection
  pub minimum_amount_cents : ℕ
  pub maximum_amount_cents : ℕ
  pub transaction_count : ℕ
  pub selected_merchant_count : ℕ
  pub validation_failure_percent : ℕ

pub data Reason : Type 0 where
  not_active debit_not_enabled credit_not_enabled funding_account_required : Reason
  minimum_exceeds_limit : (minimum : ℕ) → (limit : ℤ) → Reason
  capacity_too_small : (remaining : ℤ) → (payments : ℕ) → Reason

pub record MerchantEligibility : Type 0 where
  pub merchant_id : ℕ
  pub eligible : Bool
  pub safe_maximum_amount_cents : Option ℤ
  pub reasons : List Reason

abbrev pub requires_debit : SimulatorDirection → Bool
requires_debit SimulatorDirection.debit = true
requires_debit SimulatorDirection.credit = false
requires_debit SimulatorDirection.mixed = true

abbrev pub requires_credit : SimulatorDirection → Bool
requires_credit SimulatorDirection.debit = false
requires_credit SimulatorDirection.credit = true
requires_credit SimulatorDirection.mixed = true

-- `currencies.includes(currency)`
unfoldable pub includes : String → List String → Bool
includes c [] = false
includes c (x ∷ xs) = str_eq x c || includes c xs

-- `Math.ceil(count / Math.max(1, selected))`
abbrev pub payments_for_merchant : EligibilityConfig → ℕ
payments_for_merchant c =
    let share = max 1 c.selected_merchant_count in (c.transaction_count + (share - 1)) / share

abbrev pub remaining_daily_capacity : PortalMerchant → ℤ
remaining_daily_capacity m = m.daily_amount_limit -ℤ m.daily_utilized_amount

abbrev not_negative : ℤ → ℤ
not_negative n = if ltb_ℤ (pos 0) n then n else pos 0

-- `if (condition) reasons.push(reason)`
abbrev pub reason_if : Bool → Reason → List Reason
reason_if c r = if c then r ∷ [] else []

unfoldable pub has_successful_traffic : EligibilityConfig → Bool
has_successful_traffic c = ltb c.validation_failure_percent 100

unfoldable pub reasons_against : PortalMerchant → EligibilityConfig → List Reason
unfolding includes has_successful_traffic
reasons_against m c =
    reason_if (not (same (merchant_status_discrete m.status MerchantStatus.active)))
      Reason.not_active
    ++ (reason_if (requires_debit c.direction && not m.allow_ach_debit) Reason.debit_not_enabled
        ++ (reason_if (requires_credit c.direction && not m.allow_ach_credit)
              Reason.credit_not_enabled
            ++ (reason_if
                  (requires_credit c.direction && not (includes "USD" m.active_funding_currencies))
                  Reason.funding_account_required
                ++ (reason_if
                      (has_successful_traffic c
                        && ltb_ℤ m.per_payment_limit (pos c.minimum_amount_cents))
                      (Reason.minimum_exceeds_limit c.minimum_amount_cents m.per_payment_limit)
                    ++ reason_if
                        (has_successful_traffic c
                          && ltb_ℤ (remaining_daily_capacity m)
                              (pos (c.minimum_amount_cents * payments_for_merchant c)))
                        (Reason.capacity_too_small (not_negative (remaining_daily_capacity m))
                          (payments_for_merchant c))))))

abbrev pub safe_maximum : PortalMerchant → EligibilityConfig → ℤ
safe_maximum m c =
    if ltb_ℤ m.per_payment_limit (pos c.maximum_amount_cents)
    then m.per_payment_limit
    else pos c.maximum_amount_cents

-- `merchantEligibility`
unfoldable pub merchant_eligibility : PortalMerchant → EligibilityConfig → MerchantEligibility
unfolding reasons_against
merchant_eligibility m c =
    let reasons = reasons_against m c in
    let eligible = length reasons == 0 in
    record {
      merchant_id = m.id;
      eligible = eligible;
      safe_maximum_amount_cents = if eligible then some (safe_maximum m c) else none;
      reasons = reasons;
    }
