-- ===== src/Tests/Exports.antt =====
-- Instances of the theorems on the generation of NACHA files.
use achflow.Prelude.{
  ◌≡◌, refl, true, false, Option, some, [], ◌∷◌, find, update, count, select, ℕ_discrete, arith,
}
use achflow.Prelude.Int.{pos, ◌+ℤ◌}
use achflow.Schema.{
  Db, Payment, AchFile, Result, transact, PaymentDirection, PaymentStatus, find_payment,
  update_payments, create_event, create_ach_file, status_discrete, direction_discrete,
  event_key_discrete, event_type_discrete,
}
use achflow.Schema.Ids.{WellFormed}
use achflow.Events.{create_lifecycle_event}
use achflow.Nacha.Generator.{
  generate, first_merchant, eligible_payments, insert, by_id, is_among, announce_all,
  export_payments, total, routing_sum,
}
use achflow.Nacha.Text.{utf16, big_int, digits_value}
use achflow.Nacha.Submission.{generate_submits}
use achflow.Nacha.Batches.{
  generate_all, with_file, exported, process_once, NachaGenerationRun, RunStatus,
}
use achflow.Nacha.Counting.{exportable_count}
use achflow.Nacha.Ending.{run_ends, run_exports}
use achflow.Tests.Sample.{store, left, payment}

-- Names what the runs below compute through.
unfoldable pub runs : Unit {0}
unfolding generate first_merchant eligible_payments insert by_id is_among announce_all
    export_payments total routing_sum utf16 big_int digits_value update_payments create_event
    create_ach_file create_lifecycle_event find update count select status_discrete
    direction_discrete event_key_discrete event_type_discrete ℕ_discrete ◌+ℤ◌
runs = tt

abbrev pub credit : Payment
credit = payment 15 PaymentDirection.credit PaymentStatus.validated 900

abbrev pub debit : Payment
debit = payment 14 PaymentDirection.debit PaymentStatus.validated 600

abbrev pub validated_store : Db
validated_store = record store { payments = credit ∷ debit ∷ [] }

pub validated_store-WellFormed : WellFormed validated_store
validated_store-WellFormed = omega arith

abbrev pub file : AchFile
file = record {
  id = 100;
  company_id = 1;
  effective_entry_date = 86400000;
  status = "GENERATED";
  total_entries = 2;
  debit_total_cents = pos 600;
  credit_total_cents = pos 900;
  created_at = 1000;
}

abbrev pub after_export : Db
after_export = left (generate 100000000) validated_store

generate_submits_example :
    find_payment 14 after_export
    ≡ some (record debit {
      status = PaymentStatus.submitted;
      exported_at = some 1000;
      ach_file_id = some 100;
      updated_at = 1000;
    })
unfolding runs
generate_submits_example =
    generate_submits 100000000 14 validated_store after_export file debit validated_store-WellFormed
      refl refl

abbrev scheduled : Option (Result NachaGenerationRun) × Db
scheduled = process_once true false 3 100000000 validated_store

abbrev run : NachaGenerationRun
run = record { status = RunStatus.completed; file_count = 1; payment_count = 2 }

run_ends_example : (r : Result NachaGenerationRun) × (scheduled.0 ≡ some r)
unfolding runs process_once generate_all transact with_file exported
run_ends_example = run_ends true false 3 100000000 validated_store (omega arith)

run_exports_example : (2 ≡ exportable_count validated_store) × (exportable_count scheduled.1 ≡ 0)
unfolding runs process_once generate_all transact with_file exported
run_exports_example = run_exports true false 3 100000000 validated_store scheduled.1 run refl refl
