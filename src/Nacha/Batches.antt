-- ===== src/Nacha/Batches.antt =====
-- `generateAll` of the worker's ach/nacha-file-generator.service.ts, and `generate` and
-- `processOnce` of nacha-generation-scheduler.service.ts. The endless loop takes fuel, and gives
-- none where it runs out. The timer that calls the scheduler is left out.
use achflow.Prelude.{
  ℕ, zero, suc, ◌+◌, Bool, not, Option, none, some, List, [], ◌∷◌, length, if◌then◌else◌,
}
use achflow.Schema.{Db, AchFile, Result, ok, err, transact}
use achflow.Nacha.Generator.{generate}

unfoldable pub with_file : AchFile → Option (Result (List AchFile)) → Option (Result (List AchFile))
with_file f none = none
with_file f (some (err e)) = some (err e)
with_file f (some (ok files)) = some (ok (f ∷ files))

unfoldable pub generate_all : (fuel effective_date : ℕ) → Db → Option (Result (List AchFile)) × Db
unfolding transact with_file
generate_all zero date db = (none, db)
generate_all (suc fuel) date db =
    let (generated, db') = transact (generate date) db in
    elim generated [
      | err e ↦ (some (err e), db')
      | ok none ↦ (some (ok []), db')
      | ok (some f) ↦ let (rest, db'') = generate_all fuel date db' in (with_file f rest, db'')
    ]

pub data RunStatus : Type 0 where
  disabled skipped completed : RunStatus

pub record NachaGenerationRun : Type 0 where
  pub status : RunStatus
  pub file_count : ℕ
  pub payment_count : ℕ

-- The `reduce` over the files.
unfoldable pub exported : List AchFile → ℕ
exported [] = 0
exported (f ∷ files) = f.total_entries + exported files

abbrev pub run_of : Result (List AchFile) → Result NachaGenerationRun
run_of (err e) = err e
run_of (ok files) = ok (record {
  status = RunStatus.completed;
  file_count = length files;
  payment_count = exported files;
})

abbrev idle : RunStatus → NachaGenerationRun
idle s = record { status = s; file_count = 0; payment_count = 0 }

-- `processOnce`, while a run is active or not. The run that it starts is not active any more when it
-- has ended.
unfoldable pub process_once :
    (enabled active : Bool) → (fuel now : ℕ) → Db → Option (Result NachaGenerationRun) × Db
unfolding generate_all exported
process_once enabled active fuel now db =
    if not enabled
    then (some (ok (idle RunStatus.disabled)), db)
    else if active
    then (some (ok (idle RunStatus.skipped)), db)
    else (let (r, db') = generate_all fuel now db in
        elim r [ none ↦ (none, db') | some files ↦ (some (run_of files), db') ])
