-- ===== src/Dpor/Persistent.antt =====
-- src/model/checker.cpp: `initialize_dpor_backtrack`, the persistent set that a node starts from,
-- and `next_unexplored_backtrack`.
pub mod Missing
pub mod Closed
use dpor_concurrency_model_c.Common.{
  ℕ, zero, suc, Bool, true, false, List, [], ◌∷◌, Option, none, some, if◌then◌else◌, not, ◌&&◌,
  ◌||◌, eqb, find, is_empty, length, option_eq,
}
use dpor_concurrency_model_c.Common.Order.{◌==◌, name_ord}
use dpor_concurrency_model_c.Common.OrdMap.{lookup}
use dpor_concurrency_model_c.Common.Result.{Result, ok, throw, out_of_fuel, ◌>>=◌, or_out_of_range}
use dpor_concurrency_model_c.Action.{ActionKind, Program, ScheduleStep}
use dpor_concurrency_model_c.Action.StepOrder.{step_ord}
use dpor_concurrency_model_c.State.{ExecutionState, BarrierState}
use dpor_concurrency_model_c.Dpor.{DporNode, EnabledTransition, is_kind}
use dpor_concurrency_model_c.Dpor.StepSet.{contains_step, insert_step}
use dpor_concurrency_model_c.Dpor.Independence.AtNode.{Side, transitions_independent_at_node}

abbrev pub side_of : ScheduleStep → EnabledTransition → Side
side_of step transition = record {
  thread = step.thread;
  action = transition.effective_action;
  endpoint = transition.endpoint;
  occurrence = transition.occurrence;
}

-- Two drains of one thread, to two addresses.
unfoldable pub sibling_drains : Side → Side → Bool
unfolding is_kind
sibling_drains candidate selected =
    eqb candidate.thread selected.thread
    && is_kind candidate.action.kind ActionKind.flush
    && is_kind selected.action.kind ActionKind.flush
    && not (candidate.action.address == selected.action.address)

same_generation_arrivals : Side → Side → BarrierState → Bool
same_generation_arrivals candidate selected barrier =
    not (eqb candidate.action.parties 0)
    && eqb candidate.action.parties barrier.parties
    && eqb selected.action.parties barrier.parties
    && option_eq eqb candidate.occurrence.barrier_generation selected.occurrence.barrier_generation
    && option_eq eqb candidate.occurrence.barrier_generation (some barrier.generation)

-- Two arrivals of one generation of a barrier.
unfoldable pub sibling_arrivals : ExecutionState → Side → Side → Bool
unfolding is_kind lookup same_generation_arrivals
sibling_arrivals s candidate selected =
    is_kind candidate.action.kind ActionKind.barrier_wait
    && is_kind selected.action.kind ActionKind.barrier_wait
    && candidate.action.barrier == selected.action.barrier
    && elim (lookup candidate.action.barrier s.barriers) [
      | none ↦ false
      | some barrier ↦ same_generation_arrivals candidate selected barrier
    ]

-- A candidate is kept beside a selected transition.
unfoldable pub must_keep : Program → ExecutionState → DporNode → Side → Side → Bool
unfolding sibling_drains sibling_arrivals transitions_independent_at_node
must_keep program s node candidate selected =
    sibling_drains candidate selected
    || sibling_arrivals s candidate selected
    || not (transitions_independent_at_node program s.memory_model node candidate selected)

-- `node.enabled_transitions.at(step)`
unfoldable pub transition_at : DporNode → ScheduleStep → Result EnabledTransition
unfolding lookup
transition_at node step = or_out_of_range (lookup step node.enabled_transitions)

unfoldable pub keeps_beside :
    Program → ExecutionState → DporNode → ScheduleStep → ScheduleStep → Result Bool
unfolding transition_at must_keep
keeps_beside program s node candidate selected =
    transition_at node candidate >>= λ candidate_transition.
    transition_at node selected >>= λ selected_transition. ok (
      must_keep program s node (side_of candidate candidate_transition)
        (side_of selected selected_transition))

unfoldable pub keeps_beside_any :
    Program → ExecutionState → DporNode → ScheduleStep → List ScheduleStep → Result Bool
unfolding keeps_beside
keeps_beside_any program s node candidate [] = ok false
keeps_beside_any program s node candidate (selected ∷ rest) =
    keeps_beside program s node candidate selected >>= λ kept.
    if kept then ok true else keeps_beside_any program s node candidate rest

-- One candidate, with the backtrack set so far and the flag `changed`. The test of independence
-- reads nothing of the node that the loop writes.
unfoldable pub consider :
    Program
    → ExecutionState
    → DporNode
    → ScheduleStep
    → List ScheduleStep × Bool
    → Result (List ScheduleStep × Bool)
unfolding contains_step insert_step keeps_beside_any
consider program s node candidate (backtrack, changed) =
    if contains_step backtrack candidate || contains_step node.sleep candidate
    then ok (backtrack, changed)
    else keeps_beside_any program s node candidate backtrack >>= λ kept.
        ok (if kept then (insert_step backtrack candidate, true) else (backtrack, changed))

unfoldable pub consider_all :
    Program
    → ExecutionState
    → DporNode
    → List ScheduleStep
    → List ScheduleStep × Bool
    → Result (List ScheduleStep × Bool)
unfolding consider
consider_all program s node [] found = ok found
consider_all program s node (candidate ∷ rest) found =
    consider program s node candidate found >>= consider_all program s node rest

-- `while (changed)`
unfoldable pub grow_backtrack :
    ℕ → Program → ExecutionState → DporNode → List ScheduleStep → Result (List ScheduleStep)
unfolding consider_all
grow_backtrack zero program s node backtrack = throw out_of_fuel
grow_backtrack (suc fuel) program s node backtrack =
    consider_all program s node node.enabled (backtrack, false) >>= λ (grown, changed).
    elim changed [ true ↦ grow_backtrack fuel program s node grown | false ↦ ok grown ]

-- Every round but the last adds an enabled step.
unfoldable pub initialize_dpor_backtrack : Program → ExecutionState → DporNode → Result DporNode
unfolding contains_step insert_step grow_backtrack
initialize_dpor_backtrack program s node =
    if not (is_empty node.backtrack) || is_empty node.enabled
    then ok node
    else elim (find (λ step. not (contains_step node.sleep step)) node.enabled) [
      | none ↦ ok node
      | some first_awake ↦
          grow_backtrack (suc (length node.enabled)) program s node
            (insert_step node.backtrack first_awake)
          >>= λ backtrack. ok (record node { backtrack = backtrack })
    ]

unfoldable pub next_unexplored_backtrack : DporNode → Option ScheduleStep
unfolding contains_step
next_unexplored_backtrack node = find (λ step. not (contains_step node.done step)) node.backtrack
