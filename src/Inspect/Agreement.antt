-- ===== src/Inspect/Agreement.antt =====
-- src/model/checker.cpp: `inspect_replay_schedule` and `replay_effective_trace` see the same steps.
use dpor_concurrency_model_c.Common.{
  ℕ, suc, Bool, true, false, List, [], ◌∷◌, ◌≡◌, refl, String, has_value, subst, sym, ap,
  if◌then◌else◌,
}
use dpor_concurrency_model_c.Common.Result.{
  Result, ok, throw, ◌>>=◌, IfOk, IfOk-then, IfOk-ok, or_out_of_range,
}
use dpor_concurrency_model_c.Action.{Program, Schedule, ScheduleStep}
use dpor_concurrency_model_c.State.{ExecutionState, MemoryModel}
use dpor_concurrency_model_c.State.Threads.{initial_state, requires_cycle_detection}
use dpor_concurrency_model_c.Fingerprint.History.{StateHistory}
use dpor_concurrency_model_c.Report.{StepReport}
use dpor_concurrency_model_c.Replay.{is_terminal, observe_if, initial_history, step_bound_reached}
use dpor_concurrency_model_c.Replay.Lasso.{validate_replay_step}
use dpor_concurrency_model_c.Dpor.Occurrence.{timed_wait_occurrence_for}
use dpor_concurrency_model_c.Enabled.Steps.{effective_action_for_step}
use dpor_concurrency_model_c.Step.{execute_enabled_step}
use dpor_concurrency_model_c.Inspect.{
  InspectedScheduleStep, EffectiveScheduleStep, must_end, behind_step, inspect_from, effective_from,
  inspect_replay_schedule, replay_effective_trace, effective_step, inspected_before,
  inspected_after,
}

-- What an inspected step says of the action it took.
abbrev pub effective_part : InspectedScheduleStep → EffectiveScheduleStep
effective_part shown = record {
  endpoint = shown.endpoint;
  effective_action = shown.effective_action;
  broadcast_waking_set = shown.broadcast_waking_set;
  timed_wait_occurrence = shown.timed_wait_occurrence;
}

-- The steps of a trace that were run.
abbrev pub executed_part : List InspectedScheduleStep → List EffectiveScheduleStep
executed_part [] = []
executed_part (shown ∷ trace) =
    let rest = executed_part trace in if shown.executed then effective_part shown ∷ rest else rest

abbrev Follows : Result (List InspectedScheduleStep) → Result (List EffectiveScheduleStep) → Type 0
Follows (ok trace) other = other ≡ ok (executed_part trace)
Follows (throw e) other = Unit

Follows->>= :
    {A : Type 0} (first : Result A) (f : A → Result (List InspectedScheduleStep))
    (g : A → Result (List EffectiveScheduleStep))
    → ((a : A) → first ≡ ok a → Follows (f a) (g a))
    → Follows (first >>= f) (first >>= g)
Follows->>= (ok a) f g go = go a refl
Follows->>= (throw e) f g go = tt

-- The inspection looks at the action also where the thread has reached its bound.
Follows-bounded :
    {A : Type 0} (bounded : Bool) (first : Result A) (x : A → Result (List InspectedScheduleStep))
    (y : Result (List EffectiveScheduleStep)) (f : A → Result (List InspectedScheduleStep))
    (g : A → Result (List EffectiveScheduleStep))
    → ((a : A) → Follows (x a) y)
    → ((a : A) → first ≡ ok a → Follows (f a) (g a))
    → Follows (first >>= λ a. if bounded then x a else f a) (if bounded then y else (first >>= g))
Follows-bounded true (ok a) x y f g at_bound below = at_bound a
Follows-bounded true (throw e) x y f g at_bound below = tt
Follows-bounded false (ok a) x y f g at_bound below = below a refl
Follows-bounded false (throw e) x y f g at_bound below = tt

Follows-if :
    (test : Bool) (x f : Result (List InspectedScheduleStep))
    (y g : Result (List EffectiveScheduleStep))
    → Follows x y
    → Follows f g
    → Follows (if test then x else f) (if test then y else g)
Follows-if true x f y g then_case else_case = then_case
Follows-if false x f y g then_case else_case = else_case

must_end-Follows :
    (index : ℕ) (rest : Schedule) (reason : String) (trace : List InspectedScheduleStep)
    → Follows (must_end index rest reason trace) (must_end index rest reason (executed_part trace))
must_end-Follows index [] reason trace = refl
must_end-Follows index (next ∷ rest) reason trace = tt

-- A step that was run, in front of traces that agree.
Follows-∷ :
    (shown : InspectedScheduleStep) (below : Result (List InspectedScheduleStep))
    (other : Result (List EffectiveScheduleStep))
    → shown.executed ≡ true
    → Follows below other
    → Follows
        (below >>= λ trace. ok (shown ∷ trace))
        (other >>= λ trace. ok (effective_part shown ∷ trace))
Follows-∷ shown (ok trace) other ran agree = rw (agree, ran) refl
Follows-∷ shown (throw e) other ran agree = tt

behind_step-Follows :
    (below : ExecutionState → StateHistory → Result (List InspectedScheduleStep))
    (other : ExecutionState → StateHistory → Result (List EffectiveScheduleStep))
    (program : Program) (detect_cycles : Bool) (rest : Schedule) (index : ℕ)
    (history : StateHistory) (t : ExecutionState) (report : StepReport)
    (shown : InspectedScheduleStep)
    → shown.executed ≡ true
    → ((s : ExecutionState) (seen : StateHistory) → Follows (below s seen) (other s seen))
    → Follows
        (behind_step below program detect_cycles rest index history t report shown)
        (behind_step other program detect_cycles rest index history t report (effective_part shown))
unfolding behind_step
behind_step-Follows below other program detect_cycles rest index history t report shown ran agree =
    let last : (reason : String)
        → Follows (must_end index rest reason (shown ∷ []))
            (must_end index rest reason (effective_part shown ∷ [])) =
      λ reason.
        subst
          (λ b.
            Follows (must_end index rest reason (shown ∷ []))
              (must_end index rest reason (if b then effective_part shown ∷ [] else [])))
          ran (must_end-Follows index rest reason (shown ∷ [])) in
    Follows-if (is_terminal report) _ _ _ _ (last _) (
      Follows-if (has_value (observe_if detect_cycles program t history).0) _ _ _ _ (last _)
        (Follows-∷ shown _ _ ran (agree t (observe_if detect_cycles program t history).1)))

effective_step-endpoint :
    (program : Program) (s : ExecutionState) (step : ScheduleStep)
    → IfOk (λ effective. effective.endpoint ≡ step) (effective_step program s step)
unfolding effective_step
effective_step-endpoint program s step =
    IfOk-then _ (or_out_of_range (effective_action_for_step program s step)) _
      (λ action _. IfOk-then _ (timed_wait_occurrence_for s step action) _ (λ timed_wait _. refl))

-- The inspection shows of a step that was run what the effective trace has of it.
effective_part-inspected_after :
    (program : Program) (s t : ExecutionState) (step : ScheduleStep)
    (effective : EffectiveScheduleStep)
    → effective_step program s step ≡ ok effective
    → effective_part (inspected_after program s t (inspected_before program s step effective))
      ≡ effective
unfolding inspected_after inspected_before
effective_part-inspected_after program s t step effective taken =
    ap (λ (endpoint : ScheduleStep). record effective { endpoint = endpoint })
      (sym (
        IfOk-ok (λ (e : EffectiveScheduleStep). e.endpoint ≡ step) (effective_step program s step)
          (effective_step-endpoint program s step) taken))

inspect_from-Follows :
    (program : Program) (step_bound : ℕ) (detect_cycles : Bool) (schedule : Schedule) (index : ℕ)
    (s : ExecutionState) (history : StateHistory)
    → Follows
        (inspect_from program step_bound detect_cycles schedule index s history)
        (effective_from program step_bound detect_cycles schedule index s history)
unfolding inspect_from effective_from inspected_before inspected_after
inspect_from-Follows program step_bound detect_cycles [] index s history = refl
inspect_from-Follows program step_bound detect_cycles (step ∷ rest) index s history =
    Follows->>= (validate_replay_step program s step index) _ _ (λ _ _.
      Follows-bounded (step_bound_reached s step.thread step_bound) (effective_step program s step)
        _ _ _ _
        (λ effective.
          must_end-Follows index rest _ (inspected_before program s step effective ∷ []))
        (λ effective taken. Follows->>= (execute_enabled_step program s step) _ _ (λ (t, report) _.
          subst
            (λ shown.
              Follows
                (behind_step (inspect_from program step_bound detect_cycles rest (suc index))
                  program detect_cycles rest index history t report
                  (inspected_after program s t (inspected_before program s step effective)))
                (behind_step (effective_from program step_bound detect_cycles rest (suc index))
                  program detect_cycles rest index history t report shown))
            (effective_part-inspected_after program s t step effective taken)
            (behind_step-Follows _ _ program detect_cycles rest index history t report
              (inspected_after program s t (inspected_before program s step effective)) refl
              (λ t seen.
                inspect_from-Follows program step_bound detect_cycles rest (suc index) t seen)))))

-- If inspect_replay_schedule returns a trace, replay_effective_trace returns the endpoint, the
-- effective action, the waking set and the timed wait of the entries that were run, in their order.
pub inspect_replay_schedule-replay_effective_trace :
    (program : Program) (schedule : Schedule) (step_bound : ℕ) (memory_model : MemoryModel)
    (trace : List InspectedScheduleStep)
    → inspect_replay_schedule program schedule step_bound memory_model ≡ ok trace
    → replay_effective_trace program schedule step_bound memory_model ≡ ok (executed_part trace)
unfolding inspect_replay_schedule replay_effective_trace
inspect_replay_schedule-replay_effective_trace program schedule step_bound memory_model trace
      returned =
    subst (λ r. Follows r (replay_effective_trace program schedule step_bound memory_model))
      returned
      (inspect_from-Follows program step_bound (requires_cycle_detection program) schedule 0
        (initial_state program memory_model)
        (initial_history program (initial_state program memory_model)))
