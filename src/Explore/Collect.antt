-- ===== src/Explore/Collect.antt =====
-- src/model/checker.cpp: `collect_naive_schedules_dfs`, the schedules that the exhaustive
-- exploration runs, in their order. The fuel is the depth, as it is for `dfs`.
use dpor_concurrency_model_c.Common.{
  ℕ, zero, suc, Bool, List, [], ◌∷◌, ◌++◌, none, some, if◌then◌else◌, leb, is_empty, length,
}
use dpor_concurrency_model_c.Common.Result.{Result, ok, throw, ◌>>=◌, out_of_fuel}
use dpor_concurrency_model_c.Action.{Program, Schedule, ScheduleStep}
use dpor_concurrency_model_c.State.{ExecutionState, MemoryModel}
use dpor_concurrency_model_c.State.Threads.{initial_state, requires_cycle_detection}
use dpor_concurrency_model_c.Enabled.Steps.{enabled_steps}
use dpor_concurrency_model_c.Fingerprint.History.{StateHistory}
use dpor_concurrency_model_c.Step.{execute_enabled_step}
use dpor_concurrency_model_c.Replay.{step_bound_reached, is_terminal, observe_if, initial_history}
use dpor_concurrency_model_c.Explore.{search_depth}

-- The collection below a state.
abbrev pub Collection : Type 0
Collection = ExecutionState → StateHistory → List Schedule → Result (List Schedule)

unfoldable pub collect_successor :
    Collection
    → Program
    → Bool
    → StateHistory
    → List Schedule
    → ExecutionState
    → Result (List Schedule)
unfolding observe_if
collect_successor below program detect_cycles history schedules t =
    let (cycle_start, seen) = observe_if detect_cycles program t history in
    elim cycle_start [
      | none ↦ below t seen schedules
      | some start ↦ ok (schedules ++ t.schedule ∷ [])
    ]

unfoldable pub collect_step :
    Collection
    → Program
    → ℕ
    → Bool
    → ExecutionState
    → StateHistory
    → List Schedule
    → ScheduleStep
    → Result (List Schedule)
unfolding step_bound_reached execute_enabled_step collect_successor
collect_step below program step_bound detect_cycles s history schedules step =
    if step_bound_reached s step.thread step_bound
    then ok (schedules ++ (s.schedule ++ step ∷ []) ∷ [])
    else (execute_enabled_step program s step >>= λ (t, report).
        if is_terminal report
        then ok (schedules ++ t.schedule ∷ [])
        else collect_successor below program detect_cycles history schedules t)

unfoldable pub collect_steps :
    Collection
    → Program
    → ℕ
    → ℕ
    → Bool
    → ExecutionState
    → StateHistory
    → List ScheduleStep
    → List Schedule
    → Result (List Schedule)
unfolding collect_step
collect_steps below program max_schedules step_bound detect_cycles s history [] schedules =
    ok schedules
collect_steps below program max_schedules step_bound detect_cycles s history (step ∷ rest)
      schedules =
    collect_step below program step_bound detect_cycles s history schedules step >>= λ longer.
    if leb max_schedules (length longer)
    then ok longer
    else collect_steps below program max_schedules step_bound detect_cycles s history rest longer

unfoldable pub collect_naive_schedules_dfs : ℕ → Program → ℕ → ℕ → Bool → Collection
unfolding enabled_steps collect_steps
collect_naive_schedules_dfs zero program max_schedules step_bound detect_cycles s history
      schedules =
    throw out_of_fuel
collect_naive_schedules_dfs (suc fuel) program max_schedules step_bound detect_cycles s history
      schedules =
    let below : Collection =
      collect_naive_schedules_dfs fuel program max_schedules step_bound detect_cycles in
    if leb max_schedules (length schedules)
    then ok schedules
    else if is_empty (enabled_steps program s)
    then ok (schedules ++ s.schedule ∷ [])
    else collect_steps below program max_schedules step_bound detect_cycles s history
        (enabled_steps program s) schedules

-- ModelChecker::collect_naive_schedules
unfoldable pub collect_naive_schedules : Program → ℕ → MemoryModel → ℕ → Result (List Schedule)
unfolding initial_state initial_history collect_naive_schedules_dfs
collect_naive_schedules program step_bound memory_model max_schedules =
    let s : ExecutionState = initial_state program memory_model in
    collect_naive_schedules_dfs (search_depth program step_bound) program max_schedules step_bound
      (requires_cycle_detection program) s (initial_history program s) []
