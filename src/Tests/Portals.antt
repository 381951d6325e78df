-- ===== src/Tests/Portals.antt =====
-- An instance of the theorem on the merchants of a simulator run.
use achflow.Prelude.{◌≡◌, refl, true, some, none, [], ◌∷◌}
use achflow.Prelude.Int.{pos, ◌-ℤ◌, ◌+ℤ◌}
use achflow.Schema.{MerchantStatus, merchant_status_discrete}
use achflow.Simulator.Scenario.{
  RunConfig, SimulatorDirection, direction_for, requested, maximum_for,
}
use achflow.Portal.Eligibility.{
  PortalMerchant, merchant_eligibility, reasons_against, includes, has_successful_traffic,
}
use achflow.Simulator.Scenario.{check_amount_range}
use achflow.Portal.Runs.{seen, form_of, eligible_runs}

abbrev acme : PortalMerchant
acme = record {
  id = 1;
  merchant_code = "acme";
  status = MerchantStatus.active;
  allow_ach_debit = true;
  allow_ach_credit = true;
  per_payment_limit = pos 5000;
  daily_amount_limit = pos 9000;
  daily_utilized_amount = pos 1000;
  active_funding_currencies = "USD" ∷ [];
}

abbrev config : RunConfig
config = record {
  merchant_ids = 1 ∷ [];
  direction = SimulatorDirection.mixed;
  transaction_count = 4;
  minimum_amount_cents = 2000;
  maximum_amount_cents = 8000;
  scenario = record {
    successful_percent = 100;
    validation_failure_percent = 0;
    return_percent = 0;
    insufficient_funds_percent = 0;
    duplicate_percent = 0;
    delayed_processing_percent = 0;
    webhook_failure_percent = 0;
  };
}

eligible_runs_example :
    (direction_for SimulatorDirection.mixed (seen acme) 3
      ≡ some (requested SimulatorDirection.mixed 3))
    × ((merchant_eligibility acme (form_of config 1)).safe_maximum_amount_cents
        ≡ some (maximum_for config (seen acme)))
    × (check_amount_range config (seen acme) ≡ none)
unfolding merchant_eligibility reasons_against includes has_successful_traffic
    merchant_status_discrete ◌-ℤ◌ ◌+ℤ◌
eligible_runs_example = eligible_runs acme config 1 3 refl
