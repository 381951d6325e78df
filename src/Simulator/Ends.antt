-- ===== src/Simulator/Ends.antt =====
-- A run that has ended stays so.
use achflow.Prelude.{
  ℕ, ◌≡◌, refl, Bool, true, false, ◌&&◌, ◌||◌, some, List, find, update, arith, ◌==◌, if◌then◌else◌,
  ℕ_discrete,
}
use achflow.Schema.{SimulatorRunStatus}
use achflow.Schema.Ids.{find-update_any, find-holds}
use achflow.Simulator.Scenario.{SimulatorMerchant}
use achflow.Simulator.Runs.{
  SimulatorRun, has_status, move, transition, answer, pause, resume, stop, complete, abort,
}

-- What may happen to the table of runs.
pub data RunStep (runs runs' : List SimulatorRun) : Type 0 where
  pauses : (id now : ℕ) (r : SimulatorRun) → pause id now runs ≡ answer r runs' → RunStep runs runs'
  resumes :
      (id now : ℕ) (merchants : List SimulatorMerchant) (r : SimulatorRun)
      → resume id merchants now runs ≡ answer r runs'
      → RunStep runs runs'
  stops : (id now : ℕ) (r : SimulatorRun) → stop id now runs ≡ answer r runs' → RunStep runs runs'
  completes : (id now : ℕ) → runs' ≡ complete id now runs → RunStep runs runs'
  aborts : (id now : ℕ) → runs' ≡ abort id now runs → RunStep runs runs'

pub data RunReach (runs : List SimulatorRun) : List SimulatorRun → Type 0 where
  here : RunReach runs runs
  next :
      {runs1 runs2 : List SimulatorRun}
      → RunReach runs runs1
      → RunStep runs1 runs2
      → RunReach runs runs2

abbrev pub is_over : SimulatorRun → Bool
is_over r =
    has_status SimulatorRunStatus.stopped r
    || has_status SimulatorRunStatus.completed r
    || has_status SimulatorRunStatus.failed r

abbrev pub IsOver : ℕ → List SimulatorRun → Type 0
IsOver id runs = (r : SimulatorRun) × (find (λ x. x.id == id) runs ≡ some r) × (is_over r ≡ true)

-- An update of runs that are over only to runs that are over.
updated-IsOver :
    (id : ℕ) (p : SimulatorRun → Bool) (f : SimulatorRun → SimulatorRun) (runs : List SimulatorRun)
    → ((x : SimulatorRun) → SimulatorRun.id (f x) ≡ x.id)
    → ((x : SimulatorRun) → p x ≡ true → is_over x ≡ true → is_over (f x) ≡ true)
    → IsOver id runs
    → IsOver id (update p f runs)
updated-IsOver id p f runs k q (r, e, o) = (
  if p r then f r else r,
  find-update_any (λ x. x.id == id) p f runs r (λ x. rw (k x) refl) e,
  ground (arith, q r),
)

moved-IsOver :
    (id i now : ℕ) (status : SimulatorRunStatus) (expected : SimulatorRun → Bool)
    (runs runs' : List SimulatorRun) (r : SimulatorRun)
    → ((x : SimulatorRun) → expected x ≡ true → is_over x ≡ false)
    → transition i status expected now runs ≡ answer r runs'
    → IsOver id runs
    → IsOver id runs'
unfolding transition
moved-IsOver id i now status expected runs runs' r going h (x, e, o) = elim (ℕ_discrete i id) [
  | yes own ↦ absurd (ground (arith, own, e, o, going x))
  | no other ↦
      let kept =
        find-update_any (λ y. y.id == id) (λ y. y.id == i) (move status now) runs x (λ y. refl) e in
      let found = find-holds (λ y. y.id == id) runs x e in
      (x, ground (arith, kept, other, found), o)
]

resumed :
    (i now : ℕ) (merchants : List SimulatorMerchant) (runs runs' : List SimulatorRun)
    (r : SimulatorRun)
    → resume i merchants now runs ≡ answer r runs'
    → transition i SimulatorRunStatus.running (has_status SimulatorRunStatus.paused) now runs
      ≡ answer r runs'
unfolding resume
resumed i now merchants runs runs' r h = ground arith

step-IsOver :
    (id : ℕ) (runs runs' : List SimulatorRun)
    → RunStep runs runs'
    → IsOver id runs
    → IsOver id runs'
unfolding pause resume stop complete abort
step-IsOver id runs runs' (pauses i now r h) o =
    moved-IsOver id i now SimulatorRunStatus.paused (has_status SimulatorRunStatus.running) runs
      runs' r (λ x e. ground arith) h o
step-IsOver id runs runs' (resumes i now merchants r h) o =
    moved-IsOver id i now SimulatorRunStatus.running (has_status SimulatorRunStatus.paused) runs
      runs' r (λ x e. ground arith) (resumed i now merchants runs runs' r h) o
step-IsOver id runs runs' (stops i now r h) o =
    moved-IsOver id i now SimulatorRunStatus.stopped
      (λ x. has_status SimulatorRunStatus.running x || has_status SimulatorRunStatus.paused x) runs
      runs' r (λ x e. ground arith) h o
step-IsOver id runs runs' (completes i now h) o = rw h (
    updated-IsOver id (λ r. r.id == i && has_status SimulatorRunStatus.running r)
      (λ r. record r { status = SimulatorRunStatus.completed; completed_at = some now }) runs
      (λ x. refl) (λ x e f. ground arith) o)
step-IsOver id runs runs' (aborts i now h) o = rw h (
    updated-IsOver id (λ r. r.id == i)
      (λ r. record r { status = SimulatorRunStatus.failed; completed_at = some now }) runs
      (λ x. refl) (λ x e f. ground arith) o)

-- A run that was stopped, has completed or has failed never runs or waits again.
run_stays-IsOver :
    (id : ℕ) (runs runs' : List SimulatorRun)
    → RunReach runs runs'
    → IsOver id runs
    → IsOver id runs'
run_stays-IsOver id runs runs' here o = o
run_stays-IsOver id runs runs' (next {runs1} r s) o =
    step-IsOver id runs1 runs' s (run_stays-IsOver id runs runs1 r o)
