-- ===== src/Tests/Simulations.antt =====
-- Instances of the theorems on the simulator.
use achflow.Prelude.{refl, true, some, [], ◌∷◌, All, find}
use achflow.Prelude.Int.{pos}
use achflow.Schema.{SimulatorRunStatus, run_status_discrete}
use achflow.Simulator.Scenario.{
  RunConfig, Scenario, SimulatorDirection, SimulatorMerchant, validate, total_percent,
  check_amount_range, validate_amount_ranges,
}
use achflow.Simulator.Runs.{create_run, new_run, selected, distinct, is_id_among}
use achflow.Simulator.Runs.{SimulatorRun}
use achflow.Simulator.Amounts.{IsPlanned, created-IsPlanned}
use achflow.Simulator.Ends.{IsOver}
use achflow.Simulator.Funding.{Provisioned, provision_demo_funding}
use achflow.Prelude.{select}
use achflow.Schema.{Db}
use achflow.Tests.Sample.{store, left}

abbrev scenario : Scenario
scenario = record {
  successful_percent = 70;
  validation_failure_percent = 20;
  return_percent = 0;
  insufficient_funds_percent = 0;
  duplicate_percent = 10;
  delayed_processing_percent = 0;
  webhook_failure_percent = 0;
}

abbrev config : RunConfig
config = record {
  merchant_ids = 1 ∷ [];
  direction = SimulatorDirection.mixed;
  transaction_count = 100;
  minimum_amount_cents = 100;
  maximum_amount_cents = 9000;
  scenario = scenario;
}

abbrev simulated : SimulatorMerchant
simulated = record {
  id = 1;
  merchant_code = "acme";
  allow_ach_debit = true;
  allow_ach_credit = true;
  per_payment_limit = pos 5000;
}

created-IsPlanned_example : All (IsPlanned config 3) (selected config (simulated ∷ []))
unfolding create_run validate total_percent validate_amount_ranges check_amount_range selected
    distinct is_id_among select
created-IsPlanned_example =
    created-IsPlanned 9 3 config (simulated ∷ []) [] (new_run 9 config ∷ []) (new_run 9 config) refl

abbrev stopped_run : SimulatorRun
stopped_run = record {
  id = 1;
  status = SimulatorRunStatus.stopped;
  configuration = config;
  completed_at = some 10;
}

stopped-IsOver : IsOver 1 (stopped_run ∷ [])
unfolding find run_status_discrete
stopped-IsOver = (stopped_run, refl, refl)

abbrev funded : Db
funded = left (provision_demo_funding 1 "USD" (pos 500)) store

abbrev first_answer : Provisioned
first_answer = record {
  funding_account_id = 2;
  currency = "USD";
  amount_cents = pos 500;
  provisioned = true;
}
