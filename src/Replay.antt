-- ===== src/Replay.antt =====
-- src/model/checker.cpp: `validate_replay_step`, `replay_schedule`, and the counters of a result.
pub mod Lasso
pub mod Accepts
pub mod Closes
use dpor_concurrency_model_c.Common.{
  ℕ, suc, ◌+◌, Bool, true, false, List, [], ◌∷◌, ◌++◌, Option, none, some, String, if◌then◌else◌,
  not, ◌||◌, ◌&&◌, eqb, leb, length, any, get_elem?, has_value, is_empty,
}
use dpor_concurrency_model_c.Common.Result.{
  Result, ok, throw, ◌>>=◌, invalid_schedule, Message, text, number,
}
use dpor_concurrency_model_c.Action.{Program, ScheduleStep, Schedule, step_eq}
use dpor_concurrency_model_c.State.{ExecutionState, MemoryModel, thread_count, thread_at}
use dpor_concurrency_model_c.State.Threads.{initial_state, all_finished, requires_cycle_detection}
use dpor_concurrency_model_c.State.Buffers.{is_flush_step}
use dpor_concurrency_model_c.Enabled.{any_enabled}
use dpor_concurrency_model_c.Report.{
  CheckResult, StepReport, empty_result, record_step_report, DeadlockReport,
}
use dpor_concurrency_model_c.Fingerprint.History.{
  StateHistory, initial_state_history, observe_path_behavioral_state,
}
use dpor_concurrency_model_c.Step.{execute_enabled_step}
use dpor_concurrency_model_c.Deadlock.{make_deadlock_report}
use Lasso.{validate_replay_step, make_nontermination_report, record_nontermination}

unfoldable pub step_bound_reached : ExecutionState → ℕ → ℕ → Bool
step_bound_reached s tid step_bound = leb step_bound (s.thread_steps tid)

unfoldable pub record_bound_exceeded : CheckResult → CheckResult
record_bound_exceeded result = record result {
  schedules_explored = result.schedules_explored + 1;
  bound_exceeded_executions = result.bound_exceeded_executions + 1;
}

abbrev pub explored_one : CheckResult → CheckResult
explored_one result = record result { schedules_explored = result.schedules_explored + 1 }

-- An outcome that ends the execution has to be the last step of the schedule.
abbrev pub ends_here : ℕ → Schedule → String → CheckResult → Result CheckResult
ends_here index [] reason result = ok result
ends_here index (step ∷ rest) reason result =
    throw (invalid_schedule (suc index) (text reason ∷ []))

abbrev pub is_terminal : StepReport → Bool
is_terminal report = has_value report.error || has_value report.assertion

-- Behind the last step: a terminal state counts as a schedule, and may be a deadlock.
unfoldable pub finish_replay : Program → ExecutionState → CheckResult → Result CheckResult
unfolding any_enabled all_finished make_deadlock_report
finish_replay program s result =
    if any_enabled program s
    then ok result
    else if all_finished program s
    then ok (explored_one result)
    else make_deadlock_report program s >>= λ report.
        ok (record (explored_one result) { first_deadlock = some report })

-- `detect_cycles ? observe(state, history) : nullopt`
unfoldable pub observe_if : Bool → Program → ExecutionState → StateHistory → Option ℕ × StateHistory
unfolding observe_path_behavioral_state
observe_if true program s history = observe_path_behavioral_state program s history
observe_if false program s history = (none, history)

-- The loop of `replay_schedule` from the step of that index on.
unfoldable pub replay_from :
    Program
    → ℕ
    → Bool
    → Schedule
    → ℕ
    → ExecutionState
    → StateHistory
    → CheckResult
    → Result CheckResult
unfolding validate_replay_step step_bound_reached record_bound_exceeded execute_enabled_step
    record_step_report observe_if make_nontermination_report record_nontermination finish_replay
replay_from program step_bound detect_cycles [] index s history result =
    finish_replay program s result
replay_from program step_bound detect_cycles (step ∷ rest) index s history result =
    validate_replay_step program s step index >>= λ _.
    if step_bound_reached s step.thread step_bound
    then ends_here index rest "schedule continues after a step-bound outcome"
        (record_bound_exceeded result)
    else (execute_enabled_step program s step >>= λ (t, report).
        let recorded : CheckResult = record_step_report result report in
        let (cycle_start, seen) = observe_if detect_cycles program t history in
        let onward : Result CheckResult =
          replay_from program step_bound detect_cycles rest (suc index) t seen recorded in
        if is_terminal report
        then ends_here index rest "schedule continues after a terminal execution report"
            (explored_one recorded)
        else elim cycle_start [
          | none ↦ onward
          | some start ↦
              ends_here index rest "schedule continues after a nontermination cycle" recorded
              >>= λ r.
                  make_nontermination_report program t.schedule start t.memory_model >>= λ lasso.
                  ok (record_nontermination r lasso)
        ])

unfoldable pub initial_history : Program → ExecutionState → StateHistory
unfolding requires_cycle_detection initial_state_history
initial_history program s =
    if requires_cycle_detection program then initial_state_history program s else []

unfoldable pub replay_schedule : Program → Schedule → ℕ → MemoryModel → Result CheckResult
unfolding initial_state initial_history replay_from
replay_schedule program schedule step_bound memory_model =
    let s : ExecutionState = initial_state program memory_model in
    replay_from program step_bound (requires_cycle_detection program) schedule 0 s
      (initial_history program s) empty_result
