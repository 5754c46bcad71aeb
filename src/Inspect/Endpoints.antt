-- ===== src/Inspect/Endpoints.antt =====
-- src/model/checker.cpp: the trace that `inspect_replay_schedule` returns shows the schedule.
use dpor_concurrency_model_c.Common.{
  ℕ, suc, Bool, List, [], ◌∷◌, ◌≡◌, refl, map, String, has_value, if-rule,
}
use dpor_concurrency_model_c.Common.Result.{Result, ok, IfOk, IfOk->>=, IfOk-then, IfOk-ok}
use dpor_concurrency_model_c.Action.{Program, Schedule, ScheduleStep}
use dpor_concurrency_model_c.State.{ExecutionState, MemoryModel}
use dpor_concurrency_model_c.State.Threads.{initial_state, requires_cycle_detection}
use dpor_concurrency_model_c.Fingerprint.History.{StateHistory}
use dpor_concurrency_model_c.Report.{StepReport}
use dpor_concurrency_model_c.Replay.{is_terminal, observe_if, initial_history, step_bound_reached}
use dpor_concurrency_model_c.Replay.Lasso.{validate_replay_step}
use dpor_concurrency_model_c.Step.{execute_enabled_step}
use dpor_concurrency_model_c.Inspect.{
  InspectedScheduleStep, must_end, behind_step, inspect_from, inspect_replay_schedule,
  effective_step, inspected_before, inspected_after,
}

-- The trace has one entry for each step of the schedule, in its order.
abbrev pub Shows : Schedule → List InspectedScheduleStep → Type 0
Shows schedule trace = map (λ shown. shown.endpoint) trace ≡ schedule

must_end-Shows :
    (index : ℕ) (rest : Schedule) (reason : String) (shown : InspectedScheduleStep)
    (step : ScheduleStep)
    → shown.endpoint ≡ step
    → IfOk (Shows (step ∷ rest)) (must_end index rest reason (shown ∷ []))
must_end-Shows index [] reason shown step same = rw same refl
must_end-Shows index (next ∷ rest) reason shown step same = tt

behind_step-Shows :
    (below : ExecutionState → StateHistory → Result (List InspectedScheduleStep))
    (program : Program) (detect_cycles : Bool) (rest : Schedule) (index : ℕ)
    (history : StateHistory) (t : ExecutionState) (report : StepReport)
    (shown : InspectedScheduleStep) (step : ScheduleStep)
    → shown.endpoint ≡ step
    → ((s : ExecutionState) (seen : StateHistory) → IfOk (Shows rest) (below s seen))
    → IfOk
        (Shows (step ∷ rest))
        (behind_step below program detect_cycles rest index history t report shown)
unfolding behind_step
behind_step-Shows below program detect_cycles rest index history t report shown step same shows =
    if-rule (IfOk (Shows (step ∷ rest))) (is_terminal report)
      (λ _. must_end-Shows index rest _ shown step same)
      (λ _.
        if-rule (IfOk (Shows (step ∷ rest)))
          (has_value (observe_if detect_cycles program t history).0)
          (λ _. must_end-Shows index rest _ shown step same)
          (λ _.
            IfOk->>= (Shows rest) (Shows (step ∷ rest)) _ _
              (shows t (observe_if detect_cycles program t history).1)
              (λ trace shown_rest _. rw (same, shown_rest) refl)))

inspect_from-Shows :
    (program : Program) (step_bound : ℕ) (detect_cycles : Bool) (schedule : Schedule) (index : ℕ)
    (s : ExecutionState) (history : StateHistory)
    → IfOk (Shows schedule) (inspect_from program step_bound detect_cycles schedule index s history)
unfolding inspect_from inspected_before inspected_after
inspect_from-Shows program step_bound detect_cycles [] index s history = refl
inspect_from-Shows program step_bound detect_cycles (step ∷ rest) index s history =
    IfOk-then _ (validate_replay_step program s step index) _ (λ _ _.
      IfOk-then _ (effective_step program s step) _ (λ effective _.
        if-rule (IfOk (Shows (step ∷ rest))) (step_bound_reached s step.thread step_bound)
          (λ _. must_end-Shows index rest _ (inspected_before program s step effective) step refl)
          (λ _. IfOk-then _ (execute_enabled_step program s step) _ (λ (t, report) _.
            behind_step-Shows _ program detect_cycles rest index history t report
              (inspected_after program s t (inspected_before program s step effective)) step refl
              (λ t seen.
                inspect_from-Shows program step_bound detect_cycles rest (suc index) t seen)))))

-- A trace that inspect_replay_schedule returns has exactly one entry for each step of the schedule,
-- in the order of the schedule: none is dropped, also where the last one ends the execution or
-- was not run because its thread has reached the step bound.
pub inspect_replay_schedule-Shows :
    (program : Program) (schedule : Schedule) (step_bound : ℕ) (memory_model : MemoryModel)
    (trace : List InspectedScheduleStep)
    → inspect_replay_schedule program schedule step_bound memory_model ≡ ok trace
    → Shows schedule trace
unfolding inspect_replay_schedule
inspect_replay_schedule-Shows program schedule step_bound memory_model trace returned =
    IfOk-ok (Shows schedule) (inspect_replay_schedule program schedule step_bound memory_model)
      (inspect_from-Shows program step_bound (requires_cycle_detection program) schedule 0
        (initial_state program memory_model)
        (initial_history program (initial_state program memory_model)))
      returned
