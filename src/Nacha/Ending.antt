-- ===== src/Nacha/Ending.antt =====
-- The generation of all files ends, with every payment exported.
use achflow.Prelude.{
  ℕ, zero, suc, ◌<◌, ◌≡◌, refl, Bool, true, false, Option, none, some, List, [], ◌∷◌, count, arith,
  All,
}
use achflow.Schema.{Db, Payment, AchFile, Result, ok, err, transact}
use achflow.Nacha.Generator.{is_exportable, generate}
use achflow.Nacha.Submission.{nothing_left}
use achflow.Nacha.Batches.{
  generate_all, with_file, exported, process_once, NachaGenerationRun, RunStatus, run_of,
}
use achflow.Nacha.Counting.{exportable_count, generate_exports}

count-none : (q : Payment → Bool) (ps : List Payment) → All (λ p. q p ≡ false) ps → count q ps ≡ 0
unfolding count
count-none q [] h = refl
count-none q (p ∷ ps) h = ground (arith, h.0, count-none q ps h.1)

-- A file in front of the files of the rest.
with_file-some :
    (f : AchFile) (o : Option (Result (List AchFile)))
    → ((r : Result (List AchFile)) × (o ≡ some r))
    → (r : Result (List AchFile)) × (with_file f o ≡ some r)
unfolding with_file
with_file-some f none (r, e) = cc
with_file-some f (some (err x)) e = (err x, refl)
with_file-some f (some (ok files)) e = (ok (f ∷ files), refl)

with_file-ok :
    (f : AchFile) (o : Option (Result (List AchFile))) (files : List AchFile)
    → with_file f o ≡ some (ok files)
    → (fs : List AchFile) × (o ≡ some (ok fs)) × (files ≡ f ∷ fs)
unfolding with_file
with_file-ok f none files e = cc
with_file-ok f (some (err x)) files e = cc
with_file-ok f (some (ok fs)) files e = (fs, refl, ground (arith, e))

pub generate_all_ends :
    (fuel date : ℕ) (db : Db)
    → exportable_count db < fuel
    → (r : Result (List AchFile)) × ((generate_all fuel date db).0 ≡ some r)
unfolding generate_all transact
generate_all_ends zero date db h = absurd (omega (arith, h))
generate_all_ends (suc fuel) date db h =
    go (λ d k. generate_all_ends fuel date d k) (generate date db) refl
  where
    go :
        ((d : Db)
          → exportable_count d < fuel
          → (r : Result (List AchFile)) × ((generate_all fuel date d).0 ≡ some r))
        → (y : Result (Option AchFile × Db)) → generate date db ≡ y
        → (r : Result (List AchFile)) × ((generate_all (suc fuel) date db).0 ≡ some r)
    go rest (err x) e = (err x, ground (arith, e))
    go rest (ok (none, d)) e = (ok [], ground (arith, e))
    go rest (ok (some f, d)) e =
        let (fewer, one) = generate_exports date db d f e in
        let (r, ended) =
          with_file-some f (generate_all fuel date d).0 (rest d (omega (arith, fewer, one, h))) in
        (r, ground (arith, e, ended))

pub generate_all_exports :
    (fuel date : ℕ) (db db' : Db) (files : List AchFile)
    → generate_all fuel date db ≡ (some (ok files), db')
    → (exported files ≡ exportable_count db) × (exportable_count db' ≡ 0)
unfolding generate_all transact exported with_file
generate_all_exports zero date db db' files h = cc
generate_all_exports (suc fuel) date db db' files h =
    go (λ d fs k. generate_all_exports fuel date d db' fs k) (generate date db) refl
  where
    go :
        ((d : Db) (fs : List AchFile)
          → generate_all fuel date d ≡ (some (ok fs), db')
          → (exported fs ≡ exportable_count d) × (exportable_count db' ≡ 0))
        → (y : Result (Option AchFile × Db)) → generate date db ≡ y
        → (exported files ≡ exportable_count db) × (exportable_count db' ≡ 0)
    go rest (err x) e = absurd (ground (arith, e, h))
    go rest (ok (none, d)) e =
        let (same_db, all) = nothing_left date db d e in
        let zero_left = count-none is_exportable db.payments all in
        ground (arith, e, h, same_db, zero_left)
    go rest (ok (some f, d)) e =
        let (fewer, _) = generate_exports date db d f e in
        let left : (with_file f (generate_all fuel date d).0 ≡ some (ok files))
            × ((generate_all fuel date d).1 ≡ db') =
          (ground (arith, e, h), ground (arith, e, h)) in
        let (fs, ended, files_are) = with_file-ok f (generate_all fuel date d).0 files left.0 in
        let (exports, nothing) = rest d fs (ground (arith, ended, left.1)) in
        (ground (arith, files_are, exports, fewer), nothing)

-- A run of the scheduler ends, with a result or an error, where the fuel is more than the number of
-- payments that are left to export.
pub run_ends :
    (enabled active : Bool) (fuel now : ℕ) (db : Db)
    → exportable_count db < fuel
    → (r : Result NachaGenerationRun) × ((process_once enabled active fuel now db).0 ≡ some r)
unfolding process_once
run_ends false active fuel now db h = (_, refl)
run_ends true true fuel now db h = (_, refl)
run_ends true false fuel now db h =
    let (r, ended) = generate_all_ends fuel now db h in (run_of r, ground (arith, ended))

-- A run of the scheduler that completes has exported as many payments as it says, which are all
-- that there were to export: it leaves none.
pub run_exports :
    (enabled active : Bool) (fuel now : ℕ) (db db' : Db) (run : NachaGenerationRun)
    → process_once enabled active fuel now db ≡ (some (ok run), db')
    → run.status ≡ RunStatus.completed
    → (run.payment_count ≡ exportable_count db) × (exportable_count db' ≡ 0)
unfolding process_once
run_exports false active fuel now db db' run h s = absurd (ground (arith, h, s))
run_exports true true fuel now db db' run h s = absurd (ground (arith, h, s))
run_exports true false fuel now db db' run h s = go (generate_all fuel now db) refl
  where
    go :
        (y : Option (Result (List AchFile)) × Db)
        → generate_all fuel now db ≡ y
        → (run.payment_count ≡ exportable_count db) × (exportable_count db' ≡ 0)
    go (none, d) e = absurd (ground (arith, e, h))
    go (some (err x), d) e = absurd (ground (arith, e, h))
    go (some (ok files), d) e =
        let (all, nothing) = generate_all_exports fuel now db d files e in
        (ground (arith, e, h, all), ground (arith, e, h, nothing))
