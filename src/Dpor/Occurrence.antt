-- ===== src/Dpor/Occurrence.antt =====
-- src/model/checker.cpp: which occurrence of an action a transition is, and the transitions that a
-- state enables (`transition_occurrence_identity_for`, `enabled_transitions`).
pub mod Keys
pub mod Ends
use dpor_concurrency_model_c.Common.{
  ℕ, ◌+◌, ◌-◌, ◌^◌, List, [], ◌∷◌, Option, none, some, if◌then◌else◌, ◌||◌, eqb,
}
use dpor_concurrency_model_c.Common.Order.{name_ord}
use dpor_concurrency_model_c.Common.OrdMap.{OrdMap, lookup, emplace}
use dpor_concurrency_model_c.Common.Result.{
  Result, ok, throw, overflow_error, ◌>>=◌, or_out_of_range,
}
use dpor_concurrency_model_c.Action.{Action, ActionKind, Program, ScheduleStep}
use dpor_concurrency_model_c.Action.StepOrder.{step_ord}
use dpor_concurrency_model_c.State.{ExecutionState, WaitPhase}
use dpor_concurrency_model_c.State.Threads.{next_action}
use dpor_concurrency_model_c.Enabled.Steps.{effective_action_for_step}
use dpor_concurrency_model_c.Dpor.{
  TimedWaitTransition, TimedWaitOccurrence, WaitEpisodeIdentity, TransitionOccurrenceIdentity,
  EnabledTransition, is_kind,
}

-- The largest std::size_t.
abbrev pub size_max : ℕ
size_max = 2 ^ 64 - 1

-- A std::size_t is a std::uint64_t: the test of `checked_episode` never fails.
unfoldable pub wait_episode_identity_for : Program → ExecutionState → ℕ → Result WaitEpisodeIdentity
unfolding next_action
wait_episode_identity_for program s waiter =
    or_out_of_range (next_action program s waiter) >>= λ action.
    ok (record { thread = waiter; action_index = s.pc waiter; episode = s.thread_steps waiter })

unfoldable pub wake_targets_of :
    Program → ExecutionState → List ℕ → Result (List WaitEpisodeIdentity)
unfolding wait_episode_identity_for
wake_targets_of program s [] = ok []
wake_targets_of program s (waiter ∷ waiters) =
    wait_episode_identity_for program s waiter >>= λ target.
    wake_targets_of program s waiters >>= λ targets. ok (target ∷ targets)

abbrev pub first_only : List ℕ → List ℕ
first_only [] = []
first_only (waiter ∷ waiters) = waiter ∷ []

-- A signal wakes the first waiter, a broadcast all.
unfoldable pub condition_wake_targets_for :
    Program → ExecutionState → Action → Result (Option (List WaitEpisodeIdentity))
unfolding is_kind wake_targets_of lookup
condition_wake_targets_for program s action =
    if is_kind action.kind ActionKind.signal || is_kind action.kind ActionKind.broadcast
    then elim (lookup action.condition s.condition_waiters) [
      | none ↦ ok (some [])
      | some waiters ↦
          wake_targets_of program s
            (if is_kind action.kind ActionKind.signal then first_only waiters else waiters)
          >>= λ targets. ok (some targets)
    ]
    else ok none

unfoldable pub timed_wait_in_phase : WaitPhase → ℕ → Result (Option TimedWaitOccurrence)
timed_wait_in_phase WaitPhase.idle steps =
    if eqb steps size_max
    then throw (overflow_error "timed-wait episode ordinal overflow")
    else ok (some (record { transition = TimedWaitTransition.park; episode = steps + 1 }))
timed_wait_in_phase WaitPhase.waiting steps =
    ok (some (record { transition = TimedWaitTransition.timeout; episode = steps }))
timed_wait_in_phase WaitPhase.woken steps = ok none

unfoldable pub timed_wait_occurrence_for :
    ExecutionState → ScheduleStep → Action → Result (Option TimedWaitOccurrence)
unfolding is_kind timed_wait_in_phase
timed_wait_occurrence_for s step effective_action =
    if is_kind effective_action.kind ActionKind.timed_wait
    then timed_wait_in_phase (s.wait_phase step.thread) (s.thread_steps step.thread)
    else ok none

-- Every barrier of the program has an entry from the start.
unfoldable pub barrier_generation_for : ExecutionState → Action → Option ℕ
unfolding is_kind lookup
barrier_generation_for s action =
    if is_kind action.kind ActionKind.barrier_wait
    then elim (lookup action.barrier s.barriers) [
      | none ↦ none
      | some barrier ↦ some barrier.generation
    ]
    else none

unfoldable pub transition_occurrence_identity_for :
    Program → ExecutionState → ScheduleStep → Action → Result TransitionOccurrenceIdentity
unfolding barrier_generation_for condition_wake_targets_for timed_wait_occurrence_for
transition_occurrence_identity_for program s step action =
    condition_wake_targets_for program s action >>= λ targets.
    timed_wait_occurrence_for s step action >>= λ timed_wait. ok (record {
      barrier_generation = barrier_generation_for s action;
      wake_targets = targets;
      timed_wait_occurrence = timed_wait;
    })

unfoldable pub enabled_transition_for :
    Program → ExecutionState → ScheduleStep → Result EnabledTransition
unfolding transition_occurrence_identity_for effective_action_for_step
enabled_transition_for program s step =
    or_out_of_range (effective_action_for_step program s step) >>= λ action.
    transition_occurrence_identity_for program s step action >>= λ occurrence.
    ok (record { endpoint = step; effective_action = action; occurrence = occurrence })

unfoldable pub transitions_onto :
    Program
    → ExecutionState
    → List ScheduleStep
    → OrdMap ScheduleStep EnabledTransition
    → Result (OrdMap ScheduleStep EnabledTransition)
unfolding enabled_transition_for emplace
transitions_onto program s [] transitions = ok transitions
transitions_onto program s (step ∷ steps) transitions =
    enabled_transition_for program s step >>= λ transition.
    transitions_onto program s steps (emplace step transition transitions)

unfoldable pub enabled_transitions :
    Program → ExecutionState → List ScheduleStep → Result (OrdMap ScheduleStep EnabledTransition)
unfolding transitions_onto
enabled_transitions program s enabled = transitions_onto program s enabled []
