-- ===== src/Dpor/Occurrence/Ends.antt =====
-- src/model/checker.cpp: naming the occurrence of an action runs no loop on fuel.
use dpor_concurrency_model_c.Common.{
  ℕ, List, [], ◌∷◌, Option, none, some, ◌||◌, if-rule, eqb, if◌then◌else◌,
}
use dpor_concurrency_model_c.Common.Order.{name_ord}
use dpor_concurrency_model_c.Common.OrdMap.{OrdMap, lookup, emplace}
use dpor_concurrency_model_c.Common.Result.{
  Result, ok, throw, overflow_error, ◌>>=◌, or_out_of_range, Finishes, Finishes->>=,
  Finishes-or_out_of_range,
}
use dpor_concurrency_model_c.Action.{Action, ActionKind, Program, ScheduleStep}
use dpor_concurrency_model_c.Action.StepOrder.{step_ord}
use dpor_concurrency_model_c.State.{ExecutionState, WaitPhase}
use dpor_concurrency_model_c.State.Threads.{next_action}
use dpor_concurrency_model_c.Enabled.Steps.{effective_action_for_step}
use dpor_concurrency_model_c.Dpor.{EnabledTransition, WaitEpisodeIdentity, is_kind}
use dpor_concurrency_model_c.Dpor.Occurrence.{
  size_max, first_only, wait_episode_identity_for, wake_targets_of, condition_wake_targets_for,
  timed_wait_in_phase, timed_wait_occurrence_for, transition_occurrence_identity_for,
  enabled_transition_for, transitions_onto, enabled_transitions,
}

wake_targets_of-Finishes :
    (program : Program) (s : ExecutionState) (waiters : List ℕ)
    → Finishes (wake_targets_of program s waiters)
unfolding wake_targets_of wait_episode_identity_for
wake_targets_of-Finishes program s [] = tt
wake_targets_of-Finishes program s (waiter ∷ waiters) =
    Finishes->>= (wait_episode_identity_for program s waiter) _
      (Finishes->>= (or_out_of_range (next_action program s waiter)) _
        (Finishes-or_out_of_range (next_action program s waiter)) (λ action _. tt))
      (λ target _.
        Finishes->>= (wake_targets_of program s waiters) _
          (wake_targets_of-Finishes program s waiters) (λ targets _. tt))

condition_wake_targets_for-Finishes :
    (program : Program) (s : ExecutionState) (action : Action)
    → Finishes (condition_wake_targets_for program s action)
unfolding condition_wake_targets_for
condition_wake_targets_for-Finishes program s action =
    if-rule Finishes
      (is_kind action.kind ActionKind.signal || is_kind action.kind ActionKind.broadcast)
      {y = ok none}
      (λ _.
        elim (lookup action.condition s.condition_waiters)
          as (λ found.
            Finishes {0} (elim found as (λ _. Result (Option (List WaitEpisodeIdentity))) [
              | none ↦ ok (some [])
              | some waiters ↦
                  wake_targets_of program s
                    (if is_kind action.kind ActionKind.signal then first_only waiters else waiters)
                  >>= λ targets. ok (some targets)
            ])) [
              | none ↦ tt
              | some waiters ↦
                  let woken : List ℕ =
                    if is_kind action.kind ActionKind.signal then first_only waiters else waiters in
                  Finishes->>= {B = Option (List WaitEpisodeIdentity)}
                    (wake_targets_of program s woken) (λ targets. ok (some targets))
                    (wake_targets_of-Finishes program s woken) (λ targets _. tt)
            ])
      (λ _. tt)

timed_wait_in_phase-Finishes :
    (phase : WaitPhase) (steps : ℕ) → Finishes (timed_wait_in_phase phase steps)
unfolding timed_wait_in_phase
timed_wait_in_phase-Finishes WaitPhase.idle steps =
    if-rule Finishes (eqb steps size_max)
      {x = throw (overflow_error "timed-wait episode ordinal overflow")} {y = ok _} (λ _. tt)
      (λ _. tt)
timed_wait_in_phase-Finishes WaitPhase.waiting steps = tt
timed_wait_in_phase-Finishes WaitPhase.woken steps = tt

timed_wait_occurrence_for-Finishes :
    (s : ExecutionState) (step : ScheduleStep) (action : Action)
    → Finishes (timed_wait_occurrence_for s step action)
unfolding timed_wait_occurrence_for
timed_wait_occurrence_for-Finishes s step action =
    if-rule Finishes (is_kind action.kind ActionKind.timed_wait) {y = ok none}
      (λ _. timed_wait_in_phase-Finishes (s.wait_phase step.thread) (s.thread_steps step.thread))
      (λ _. tt)

pub transition_occurrence_identity_for-Finishes :
    (program : Program) (s : ExecutionState) (step : ScheduleStep) (action : Action)
    → Finishes (transition_occurrence_identity_for program s step action)
unfolding transition_occurrence_identity_for
transition_occurrence_identity_for-Finishes program s step action =
    Finishes->>= (condition_wake_targets_for program s action) _
      (condition_wake_targets_for-Finishes program s action)
      (λ targets _.
        Finishes->>= (timed_wait_occurrence_for s step action) _
          (timed_wait_occurrence_for-Finishes s step action) (λ timed_wait _. tt))

enabled_transition_for-Finishes :
    (program : Program) (s : ExecutionState) (step : ScheduleStep)
    → Finishes (enabled_transition_for program s step)
unfolding enabled_transition_for
enabled_transition_for-Finishes program s step =
    Finishes->>= (or_out_of_range (effective_action_for_step program s step)) _
      (Finishes-or_out_of_range (effective_action_for_step program s step))
      (λ action _.
        Finishes->>= (transition_occurrence_identity_for program s step action) _
          (transition_occurrence_identity_for-Finishes program s step action) (λ occurrence _. tt))

transitions_onto-Finishes :
    (program : Program) (s : ExecutionState) (steps : List ScheduleStep)
    (transitions : OrdMap ScheduleStep EnabledTransition)
    → Finishes (transitions_onto program s steps transitions)
unfolding transitions_onto
transitions_onto-Finishes program s [] transitions = tt
transitions_onto-Finishes program s (step ∷ steps) transitions =
    Finishes->>= (enabled_transition_for program s step) _
      (enabled_transition_for-Finishes program s step)
      (λ transition _.
        transitions_onto-Finishes program s steps (emplace step transition transitions))

pub enabled_transitions-Finishes :
    (program : Program) (s : ExecutionState) (steps : List ScheduleStep)
    → Finishes (enabled_transitions program s steps)
unfolding enabled_transitions
enabled_transitions-Finishes program s steps = transitions_onto-Finishes program s steps []
