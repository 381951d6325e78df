-- ===== src/Portal/Runs.antt =====
-- What the portal calls eligible, in the runs of the API.
use achflow.Prelude.{ℕ, ◌≡◌, true, ◌&&◌, some, none, ltb, if◌then◌else◌, arith}
use achflow.Prelude.Int.{leb_ℤ}
use achflow.Simulator.Scenario.{
  RunConfig, SimulatorMerchant, Refusal, check_amount_range, max_amount_cents, direction_for,
  requested, maximum_for,
}
use achflow.Portal.Eligibility.{
  PortalMerchant, EligibilityConfig, reasons_against, merchant_eligibility, has_successful_traffic,
}

-- The merchant and the configuration, as the API has them.
abbrev pub seen : PortalMerchant → SimulatorMerchant
seen m = record {
  id = m.id;
  merchant_code = m.merchant_code;
  allow_ach_debit = m.allow_ach_debit;
  allow_ach_credit = m.allow_ach_credit;
  per_payment_limit = m.per_payment_limit;
}

abbrev pub form_of : RunConfig → (selected : ℕ) → EligibilityConfig
form_of c selected = record {
  direction = c.direction;
  minimum_amount_cents = c.minimum_amount_cents;
  maximum_amount_cents = c.maximum_amount_cents;
  transaction_count = c.transaction_count;
  selected_merchant_count = selected;
  validation_failure_percent = c.scenario.validation_failure_percent;
}

-- A merchant that the portal calls eligible takes every payment of the API's run in the direction
-- that was asked for and has the portal's safe maximum as the maximum of its amounts; and the API's
-- check of the amounts refuses it exactly where the run has validation failures and the merchant's
-- per-payment limit is the simulator's maximum or more.
pub eligible_runs :
    (m : PortalMerchant) (c : RunConfig) (selected index : ℕ)
    → (merchant_eligibility m (form_of c selected)).eligible ≡ true
    → (direction_for c.direction (seen m) index ≡ some (requested c.direction index))
      × ((merchant_eligibility m (form_of c selected)).safe_maximum_amount_cents
          ≡ some (maximum_for c (seen m)))
      × (check_amount_range c (seen m) ≡ (
          if ltb 0 c.scenario.validation_failure_percent
            && leb_ℤ max_amount_cents m.per_payment_limit
          then some (Refusal.no_failure_amount m.merchant_code)
          else none))
unfolding merchant_eligibility reasons_against has_successful_traffic direction_for
    check_amount_range
eligible_runs m c selected index e = (ground arith, ground arith, ground arith)
