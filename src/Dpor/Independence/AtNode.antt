-- ===== src/Dpor/Independence/AtNode.antt =====
-- src/model/checker.cpp: `transitions_independent_at_node`, where the node knows who holds a mutex
-- and who has arrived at a barrier.
use dpor_concurrency_model_c.Common.{
  ℕ, ◌+◌, Bool, false, none, some, if◌then◌else◌, not, ◌&&◌, ◌||◌, eqb, ltb, length, option_eq,
}
use dpor_concurrency_model_c.Common.Order.{◌==◌, name_ord, nat_ord}
use dpor_concurrency_model_c.Common.OrdMap.{lookup}
use dpor_concurrency_model_c.Common.OrdSet.{contains}
use dpor_concurrency_model_c.Action.{Action, ActionKind, Program, ScheduleStep, step_eq}
use dpor_concurrency_model_c.Action.StepOrder.{step_ord}
use dpor_concurrency_model_c.Action.Pairs.{empty_name}
use dpor_concurrency_model_c.State.{MemoryModel, BarrierState}
use dpor_concurrency_model_c.Dpor.{
  TransitionOccurrenceIdentity, EnabledTransition, DporNode, ExecutedTransition, no_occurrence,
  is_kind, action_eq, occurrence_eq,
}
use dpor_concurrency_model_c.Dpor.Independence.{transitions_independent}

-- What the functions take of a transition: its thread, action, endpoint and occurrence.
pub record Side : Type 0 where
  pub thread : ℕ
  pub action : Action
  pub endpoint : ScheduleStep
  pub occurrence : TransitionOccurrenceIdentity

is_entry : Action → ScheduleStep → TransitionOccurrenceIdentity → EnabledTransition → Bool
unfolding action_eq occurrence_eq
is_entry action endpoint occurrence found =
    step_eq found.endpoint endpoint
    && action_eq found.effective_action action
    && occurrence_eq found.occurrence occurrence

unfoldable pub node_has_transition :
    DporNode → Action → ScheduleStep → TransitionOccurrenceIdentity → Bool
unfolding is_entry lookup
node_has_transition node action endpoint occurrence =
    elim (lookup endpoint node.enabled_transitions) [
      | none ↦ false
      | some found ↦ is_entry action endpoint occurrence found
    ]

unfoldable pub transition_enabled_at_node : DporNode → ExecutedTransition → Bool
unfolding node_has_transition
transition_enabled_at_node node transition =
    node_has_transition node transition.effective_action transition.endpoint transition.occurrence

unfoldable pub node_enabled_transition_matches : DporNode → Side → Bool
unfolding node_has_transition
node_enabled_transition_matches node side =
    eqb side.endpoint.thread side.thread
    && node_has_transition node side.action side.endpoint side.occurrence

-- The mutex has an owner, who is neither of the two threads.
unfoldable pub owned_by_third : DporNode → Side → Side → Bool
unfolding lookup
owned_by_third node lhs rhs = elim (lookup lhs.action.mutex node.mutex_owner) [
  | none ↦ false
  | some owner ↦ not (eqb owner lhs.thread) && not (eqb owner rhs.thread)
]

unfoldable pub same_mutex_try_locks_independent_at_node : DporNode → Side → Side → Bool
unfolding is_kind occurrence_eq node_enabled_transition_matches owned_by_third
same_mutex_try_locks_independent_at_node node lhs rhs =
    if eqb lhs.thread rhs.thread
      || not (is_kind lhs.action.kind ActionKind.try_lock)
      || not (is_kind rhs.action.kind ActionKind.try_lock)
      || empty_name lhs.action.mutex
      || not (lhs.action.mutex == rhs.action.mutex)
      || not (occurrence_eq lhs.occurrence no_occurrence)
      || not (occurrence_eq rhs.occurrence no_occurrence)
      || not (node_enabled_transition_matches node lhs)
      || not (node_enabled_transition_matches node rhs)
    then false
    else owned_by_third node lhs rhs

unfoldable pub arrivals_commute : DporNode → Side → Side → BarrierState → Bool
unfolding occurrence_eq node_enabled_transition_matches contains
arrivals_commute node lhs rhs barrier =
    if eqb lhs.action.parties 0
      || not (eqb lhs.action.parties barrier.parties)
      || not (eqb rhs.action.parties barrier.parties)
      || not (occurrence_eq lhs.occurrence rhs.occurrence)
      || not (option_eq eqb lhs.occurrence.barrier_generation (some barrier.generation))
      || not (node_enabled_transition_matches node lhs)
      || not (node_enabled_transition_matches node rhs)
      || contains lhs.thread barrier.arrivals
      || contains rhs.thread barrier.arrivals
    then false
    else ltb (length barrier.arrivals + 2) barrier.parties

unfoldable pub same_barrier_arrivals_independent_at_node : DporNode → Side → Side → Bool
unfolding lookup arrivals_commute
same_barrier_arrivals_independent_at_node node lhs rhs =
    elim (lookup lhs.action.barrier node.barriers) [
      | none ↦ false
      | some barrier ↦ arrivals_commute node lhs rhs barrier
    ]

-- The last arrival, of a generation in which the other thread waits.
unfoldable pub arrival_releases : Side → ℕ → BarrierState → Bool
unfolding contains
arrival_releases side other_thread barrier =
    if eqb side.action.parties 0
      || not (eqb side.action.parties barrier.parties)
      || not (option_eq eqb side.occurrence.barrier_generation (some barrier.generation))
    then false
    else eqb (length barrier.arrivals + 1) barrier.parties && contains other_thread barrier.arrivals

unfoldable pub barrier_arrival_releases_parked_thread : DporNode → Side → ℕ → Bool
unfolding is_kind node_enabled_transition_matches lookup arrival_releases
barrier_arrival_releases_parked_thread node side other_thread =
    if not (is_kind side.action.kind ActionKind.barrier_wait)
      || not (node_enabled_transition_matches node side)
    then false
    else elim (lookup side.action.barrier node.barriers) [
      | none ↦ false
      | some barrier ↦ arrival_releases side other_thread barrier
    ]

unfoldable pub transitions_independent_at_node :
    Program → MemoryModel → DporNode → Side → Side → Bool
unfolding is_kind same_mutex_try_locks_independent_at_node same_barrier_arrivals_independent_at_node
    barrier_arrival_releases_parked_thread transitions_independent
transitions_independent_at_node program memory_model node lhs rhs =
    if is_kind lhs.action.kind ActionKind.try_lock
      && is_kind rhs.action.kind ActionKind.try_lock
      && lhs.action.mutex == rhs.action.mutex
    then same_mutex_try_locks_independent_at_node node lhs rhs
    else if is_kind lhs.action.kind ActionKind.barrier_wait
        && is_kind rhs.action.kind ActionKind.barrier_wait
        && lhs.action.barrier == rhs.action.barrier
    then same_barrier_arrivals_independent_at_node node lhs rhs
    else if barrier_arrival_releases_parked_thread node lhs rhs.thread
        || barrier_arrival_releases_parked_thread node rhs lhs.thread
    then false
    else transitions_independent program memory_model lhs.thread lhs.action rhs.thread rhs.action
