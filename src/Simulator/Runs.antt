-- ===== src/Simulator/Runs.antt =====
-- The states of a run: `createRun`, `transition`, `pause`, `resume` and `stop` of the API's
-- admin/admin-simulator.service.ts, and the updates at the end of `execute`.
use achflow.Prelude.{
  ℕ, suc, ◌∷◌, [], List, Bool, false, not, length, select, ◌&&◌, ◌||◌, Option, none, some, ◌==◌,
  if◌then◌else◌, same, find, update,
}
use achflow.Simulator.Scenario.{
  RunConfig, SimulatorMerchant, Refusal, validate, validate_amount_ranges,
}
use achflow.Schema.{SimulatorRunStatus, run_status_discrete}

-- `SimulatorRun`, without the counters.
pub record SimulatorRun : Type 0 where
  pub id : ℕ
  pub status : SimulatorRunStatus
  pub configuration : RunConfig
  pub completed_at : Option ℕ

pub data RunError : Type 0 where
  run_not_found : RunError
  cannot_transition_from : SimulatorRunStatus → RunError
  bad_configuration : Refusal → RunError

-- The answer of a request, with the table that it leaves.
pub data Answer : Type 0 where
  answer : SimulatorRun → List SimulatorRun → Answer
  refusal : RunError → Answer

abbrev pub has_status : SimulatorRunStatus → SimulatorRun → Bool
has_status s r = same (run_status_discrete r.status s)

abbrev pub move : SimulatorRunStatus → ℕ → SimulatorRun → SimulatorRun
move status now r = record r {
  status = status;
  completed_at =
      if same (run_status_discrete status SimulatorRunStatus.stopped)
      then some now
      else r.completed_at;
}

unfoldable pub is_id_among : List ℕ → ℕ → Bool
is_id_among [] i = false
is_id_among (j ∷ js) i = j == i || is_id_among js i

-- `new Set(ids).size`
unfoldable pub distinct : List ℕ → ℕ
unfolding is_id_among
distinct [] = 0
distinct (i ∷ is) = let rest = distinct is in if is_id_among is i then rest else suc rest

-- `transition`, where `expected` is the test `expected.includes(run.status)`.
unfoldable pub transition :
    ℕ → SimulatorRunStatus → (SimulatorRun → Bool) → (now : ℕ) → List SimulatorRun → Answer
transition id status expected now runs = elim (find (λ r. r.id == id) runs) [
  | none ↦ refusal run_not_found
  | some r ↦
      if expected r
      then answer (move status now r) (update (λ x. x.id == id) (move status now) runs)
      else refusal (cannot_transition_from r.status)
]

unfoldable pub pause : ℕ → (now : ℕ) → List SimulatorRun → Answer
unfolding transition
pause id = transition id SimulatorRunStatus.paused (has_status SimulatorRunStatus.running)

-- The active merchants of a configuration, which `findMany` gives.
unfoldable pub selected : RunConfig → List SimulatorMerchant → List SimulatorMerchant
selected c merchants = select (λ m. is_id_among c.merchant_ids m.id) merchants

-- `resume`, over the table of active merchants.
unfoldable pub resume : ℕ → List SimulatorMerchant → (now : ℕ) → List SimulatorRun → Answer
unfolding transition selected
resume id merchants now runs = elim (find (λ r. r.id == id) runs) [
  | none ↦ refusal run_not_found
  | some r ↦ elim (validate_amount_ranges r.configuration (selected r.configuration merchants)) [
    | some x ↦ refusal (bad_configuration x)
    | none ↦
        transition id SimulatorRunStatus.running (has_status SimulatorRunStatus.paused) now runs
  ]
]

unfoldable pub stop : ℕ → (now : ℕ) → List SimulatorRun → Answer
unfolding transition
stop id =
    transition id SimulatorRunStatus.stopped
      λ r. has_status SimulatorRunStatus.running r || has_status SimulatorRunStatus.paused r

-- The `updateMany` after the loop of `execute`.
unfoldable pub complete : ℕ → (now : ℕ) → List SimulatorRun → List SimulatorRun
complete id now runs =
    update (λ r. r.id == id && has_status SimulatorRunStatus.running r)
      (λ r. record r { status = SimulatorRunStatus.completed; completed_at = some now }) runs

-- The update after a fatal error in `execute`, whatever the status of the run.
unfoldable pub abort : ℕ → (now : ℕ) → List SimulatorRun → List SimulatorRun
abort id now runs =
    update (λ r. r.id == id)
      (λ r. record r { status = SimulatorRunStatus.failed; completed_at = some now }) runs

abbrev pub new_run : ℕ → RunConfig → SimulatorRun
new_run id c = record {
  id = id;
  status = SimulatorRunStatus.running;
  configuration = c;
  completed_at = none;
}

-- `createRun`, over the table of active merchants and a fresh id.
unfoldable pub create_run :
    (fresh : ℕ) → RunConfig → List SimulatorMerchant → List SimulatorRun → Answer
unfolding selected distinct
create_run fresh c merchants runs = elim (validate c) [
  | some x ↦ refusal (bad_configuration x)
  | none ↦
      if not (length (selected c merchants) == distinct c.merchant_ids)
      then refusal (bad_configuration Refusal.merchant_missing)
      else elim (validate_amount_ranges c (selected c merchants)) [
        | some x ↦ refusal (bad_configuration x)
        | none ↦ answer (new_run fresh c) (new_run fresh c ∷ runs)
      ]
]
