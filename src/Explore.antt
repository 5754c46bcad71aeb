-- ===== src/Explore.antt =====
-- src/model/checker.cpp: `dfs` and `collect_naive_schedules_dfs`, the exhaustive exploration. Each
-- level of the search runs one step, and the fuel is the depth: `out_of_fuel` is no outcome of the
-- program.
pub mod Collect
pub mod Walk
pub mod Ends
pub mod Agreement
use dpor_concurrency_model_c.Common.{
  ℕ, zero, suc, ◌*◌, Bool, List, [], ◌∷◌, none, some, if◌then◌else◌, leb, is_empty,
}
use dpor_concurrency_model_c.Common.Result.{Result, ok, throw, ◌>>=◌, out_of_fuel}
use dpor_concurrency_model_c.Action.{Program, ScheduleStep}
use dpor_concurrency_model_c.State.{ExecutionState, MemoryModel, thread_count}
use dpor_concurrency_model_c.State.Threads.{initial_state, all_finished, requires_cycle_detection}
use dpor_concurrency_model_c.Enabled.Steps.{enabled_steps}
use dpor_concurrency_model_c.Report.{CheckResult, empty_result, record_step_report}
use dpor_concurrency_model_c.Fingerprint.History.{StateHistory}
use dpor_concurrency_model_c.Step.{execute_enabled_step}
use dpor_concurrency_model_c.Deadlock.{make_deadlock_report}
use dpor_concurrency_model_c.Replay.{
  step_bound_reached, record_bound_exceeded, explored_one, is_terminal, observe_if, initial_history,
}
use dpor_concurrency_model_c.Replay.Lasso.{make_nontermination_report, record_nontermination}

-- The search below a state: the state, its history, and the result so far.
abbrev Search : Type 0
Search = ExecutionState → StateHistory → CheckResult → Result CheckResult

-- The outcome of a step that was run, behind its report.
unfoldable pub explore_successor :
    Search → Program → Bool → StateHistory → CheckResult → ExecutionState → Result CheckResult
unfolding observe_if make_nontermination_report record_nontermination
explore_successor below program detect_cycles history recorded t =
    let (cycle_start, seen) = observe_if detect_cycles program t history in
    elim cycle_start [
      | none ↦ below t seen recorded
      | some start ↦ make_nontermination_report program t.schedule start t.memory_model >>= λ lasso.
          ok (record_nontermination recorded lasso)
    ]

unfoldable pub explore_step :
    Search
    → Program
    → ℕ
    → Bool
    → ExecutionState
    → StateHistory
    → CheckResult
    → ScheduleStep
    → Result CheckResult
unfolding step_bound_reached record_bound_exceeded execute_enabled_step record_step_report
    explore_successor
explore_step below program step_bound detect_cycles s history result step =
    if step_bound_reached s step.thread step_bound
    then ok (record_bound_exceeded result)
    else (execute_enabled_step program s step >>= λ (t, report).
        let recorded : CheckResult = record_step_report result report in
        if is_terminal report
        then ok (explored_one recorded)
        else explore_successor below program detect_cycles history recorded t)

-- The children in order, until the cap is reached.
unfoldable pub explore_steps :
    Search
    → Program
    → ℕ
    → ℕ
    → Bool
    → ExecutionState
    → StateHistory
    → List ScheduleStep
    → CheckResult
    → Result CheckResult
unfolding explore_step
explore_steps below program max_schedules step_bound detect_cycles s history [] result = ok result
explore_steps below program max_schedules step_bound detect_cycles s history (step ∷ rest) result =
    explore_step below program step_bound detect_cycles s history result step >>= λ r.
    if leb max_schedules r.schedules_explored
    then ok r
    else explore_steps below program max_schedules step_bound detect_cycles s history rest r

-- A state with no enabled step ends a schedule, and is a deadlock unless all have finished.
unfoldable pub explore_leaf : Program → ExecutionState → CheckResult → Result CheckResult
unfolding all_finished make_deadlock_report
explore_leaf program s result =
    if all_finished program s then ok (explored_one result) else elim result.first_deadlock [
      | some report ↦ ok (explored_one result)
      | none ↦ make_deadlock_report program s >>= λ report.
          ok (record (explored_one result) { first_deadlock = some report })
    ]

unfoldable pub dfs : ℕ → Program → ℕ → ℕ → Bool → Search
unfolding enabled_steps explore_steps explore_leaf
dfs zero program max_schedules step_bound detect_cycles s history result = throw out_of_fuel
dfs (suc fuel) program max_schedules step_bound detect_cycles s history result =
    let below : Search = dfs fuel program max_schedules step_bound detect_cycles in
    if leb max_schedules result.schedules_explored
    then ok result
    else if is_empty (enabled_steps program s)
    then explore_leaf program s result
    else explore_steps below program max_schedules step_bound detect_cycles s history
        (enabled_steps program s) result

-- Every level adds to the steps of one thread, and no thread runs past the bound.
abbrev pub search_depth : Program → ℕ → ℕ
search_depth program step_bound = suc (thread_count program * step_bound)

-- `explore_naive`, before its reports are minimized.
unfoldable pub explore_naive_raw : Program → ℕ → MemoryModel → ℕ → Result CheckResult
unfolding initial_state initial_history dfs
explore_naive_raw program step_bound memory_model max_schedules =
    let s : ExecutionState = initial_state program memory_model in
    dfs (search_depth program step_bound) program max_schedules step_bound
      (requires_cycle_detection program) s (initial_history program s) empty_result
    >>= λ r. ok (record r { exploration_capped = leb max_schedules r.schedules_explored })
