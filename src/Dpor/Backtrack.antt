-- ===== src/Dpor/Backtrack.antt =====
-- src/model/checker.cpp: where the trace asks for another choice (`add_backtracks_for_transition`,
-- `add_disabled_backtracks`), and the sleep set that a child inherits.
use dpor_concurrency_model_c.Common.{
  ℕ, zero, suc, ◌-◌, Bool, false, List, [], ◌∷◌, ◌++◌, Option, none, some, if◌then◌else◌, not, ◌&&◌,
  ◌||◌, eqb, leb, is_empty, length, range, get_elem?, option_eq, modify_at,
}
use dpor_concurrency_model_c.Common.OrdMap.{OrdMap, lookup}
use dpor_concurrency_model_c.Common.Result.{Result, ok, ◌>>=◌, or_out_of_range}
use dpor_concurrency_model_c.Clock
use dpor_concurrency_model_c.Action.{Program, ScheduleStep, step_eq}
use dpor_concurrency_model_c.Action.StepOrder.{step_ord}
use dpor_concurrency_model_c.State.{ExecutionState, MemoryModel}
use dpor_concurrency_model_c.State.Threads.{is_finished, has_next_action}
use dpor_concurrency_model_c.Enabled.Steps.{
  enabled_steps, enabled_steps_for_thread, effective_next_action, source_step,
}
use dpor_concurrency_model_c.Dpor.{
  DporNode, EnabledTransition, ExecutedTransition, action_eq, occurrence_eq,
}
use dpor_concurrency_model_c.Dpor.StepSet.{insert_step, remove_step}
use dpor_concurrency_model_c.Dpor.Occurrence.{
  enabled_transitions, transition_occurrence_identity_for,
}
use dpor_concurrency_model_c.Dpor.Independence.AtNode.{
  Side, transition_enabled_at_node, transitions_independent_at_node,
}
use dpor_concurrency_model_c.Dpor.Enablers.Repair.{disabled_repair_steps, repaired}
use dpor_concurrency_model_c.Dpor.Persistent.{side_of}

abbrev pub executed_side : ExecutedTransition → Side
executed_side transition = record {
  thread = transition.thread;
  action = transition.effective_action;
  endpoint = transition.endpoint;
  occurrence = transition.occurrence;
}

-- What one earlier transition asks of the current one.
pub data Verdict : Type 0 where
  pass disabled reverse : Verdict

at_or_before : ℕ → Option ℕ → Bool
at_or_before index none = false
at_or_before index (some enabler) = leb index enabler

unfoldable pub prefix_verdict :
    Program
    → MemoryModel
    → DporNode
    → ExecutedTransition
    → ExecutedTransition
    → Option ℕ
    → ℕ
    → Verdict
unfolding transitions_independent_at_node transition_enabled_at_node at_or_before
    Clock.happens_before_or_equal
prefix_verdict program memory_model node previous current spawn_enabler_index previous_index =
    if eqb previous.thread current.thread
    then Verdict.pass
    else if transitions_independent_at_node program memory_model node (executed_side previous)
        (executed_side current)
    then Verdict.pass
    else if not (transition_enabled_at_node node current)
    then (if at_or_before previous_index spawn_enabler_index
        then Verdict.pass
        else Verdict.disabled)
    else if Clock.happens_before_or_equal previous.clock current.clock
    then Verdict.pass
    else Verdict.reverse

-- The last transition before `prefix_size` that spawned the thread.
spawn_enabler : List ExecutedTransition → ℕ → ℕ → ℕ → Option ℕ
spawn_enabler trace index zero thread = none
spawn_enabler [] index (suc n) thread = none
spawn_enabler (previous ∷ trace) index (suc n) thread =
    elim (spawn_enabler trace (suc index) n thread) [
      | some later ↦ some later
      | none ↦ if option_eq eqb previous.spawned_thread (some thread) then some index else none
    ]

unfoldable pub reverse_at : ScheduleStep → DporNode → DporNode
unfolding insert_step remove_step
reverse_at endpoint node = record node {
  backtrack = insert_step node.backtrack endpoint;
  sleep = remove_step node.sleep endpoint;
}

unfoldable pub repair_prefixes :
    Program → ExecutedTransition → List ℕ → List DporNode → Result (List DporNode)
unfolding disabled_repair_steps repaired
repair_prefixes program current [] nodes = ok nodes
repair_prefixes program current (index ∷ indices) nodes =
    or_out_of_range (get_elem? nodes index) >>= λ node.
    disabled_repair_steps program node current >>= λ steps.
    repair_prefixes program current indices (modify_at index (λ n. repaired n steps) nodes)

-- The scan from `index` down to 0, with the prefixes at which the transition was disabled.
unfoldable pub scan_prefixes :
    Program
    → MemoryModel
    → List ExecutedTransition
    → ExecutedTransition
    → Option ℕ
    → ℕ
    → List ℕ
    → List DporNode
    → Result (List DporNode)
unfolding prefix_verdict reverse_at repair_prefixes
scan_prefixes program memory_model trace current spawn_enabler_index zero indices nodes =
    repair_prefixes program current indices nodes
scan_prefixes program memory_model trace current spawn_enabler_index (suc index) indices nodes =
    or_out_of_range (get_elem? trace index) >>= λ previous.
    or_out_of_range (get_elem? nodes index) >>= λ node.
    elim (prefix_verdict program memory_model node previous current spawn_enabler_index index) [
      | Verdict.pass ↦
          scan_prefixes program memory_model trace current spawn_enabler_index index indices nodes
      | Verdict.disabled ↦
          scan_prefixes program memory_model trace current spawn_enabler_index index
            (indices ++ index ∷ []) nodes
      | Verdict.reverse ↦ ok (modify_at index (reverse_at current.endpoint) nodes)
    ]

unfoldable pub add_backtracks_for_transition_against_prefix :
    Program
    → MemoryModel
    → List ExecutedTransition
    → ExecutedTransition
    → ℕ
    → List DporNode
    → Result (List DporNode)
unfolding scan_prefixes spawn_enabler
add_backtracks_for_transition_against_prefix program memory_model trace current prefix_size nodes =
    scan_prefixes program memory_model trace current
      (spawn_enabler trace 0 prefix_size current.thread) prefix_size [] nodes

unfoldable pub add_backtracks_for_transition :
    Program → MemoryModel → List ExecutedTransition → List DporNode → Result (List DporNode)
unfolding add_backtracks_for_transition_against_prefix
add_backtracks_for_transition program memory_model trace nodes =
    elim (get_elem? trace (length trace - 1)) [
      | none ↦ ok nodes
      | some current ↦
          add_backtracks_for_transition_against_prefix program memory_model trace current
            (length trace - 1) nodes
    ]

-- The next action of a thread that has none enabled.
unfoldable pub blocked_transition : Program → ExecutionState → ℕ → Result ExecutedTransition
unfolding effective_next_action transition_occurrence_identity_for
blocked_transition program s tid =
    or_out_of_range (effective_next_action program s tid) >>= λ action.
    transition_occurrence_identity_for program s (source_step tid (s.pc tid)) action
    >>= λ occurrence. ok (record {
      thread = tid;
      effective_action = action;
      endpoint = source_step tid (s.pc tid);
      clock = s.thread_clock tid;
      spawned_thread = none;
      occurrence = occurrence;
    })

unfoldable pub add_disabled_backtracks_for :
    Program → ExecutionState → List ExecutedTransition → ℕ → List DporNode → Result (List DporNode)
unfolding is_finished enabled_steps_for_thread has_next_action blocked_transition
    add_backtracks_for_transition_against_prefix
add_disabled_backtracks_for program s trace tid nodes =
    if is_finished program s tid || not (is_empty (enabled_steps_for_thread program s tid))
    then ok nodes
    else if not (has_next_action program s tid)
    then ok nodes
    else blocked_transition program s tid >>= λ blocked.
        add_backtracks_for_transition_against_prefix program s.memory_model trace blocked
          (length trace) nodes

unfoldable pub disabled_backtracks_among :
    Program
    → ExecutionState
    → List ExecutedTransition
    → List ℕ
    → List DporNode
    → Result (List DporNode)
unfolding add_disabled_backtracks_for
disabled_backtracks_among program s trace [] nodes = ok nodes
disabled_backtracks_among program s trace (tid ∷ tids) nodes =
    add_disabled_backtracks_for program s trace tid nodes
    >>= disabled_backtracks_among program s trace tids

unfoldable pub add_disabled_backtracks :
    Program → ExecutionState → List ExecutedTransition → List DporNode → Result (List DporNode)
unfolding disabled_backtracks_among
add_disabled_backtracks program s trace nodes =
    disabled_backtracks_among program s trace (range (length program.threads)) nodes

-- A slept transition stays asleep: the child has the same occurrence of it, and it commutes with
-- the transition that was run.
unfoldable pub stays_asleep :
    Program
    → MemoryModel
    → DporNode
    → ExecutedTransition
    → OrdMap ScheduleStep EnabledTransition
    → ScheduleStep
    → Bool
unfolding lookup action_eq occurrence_eq transitions_independent_at_node
stays_asleep program memory_model parent transition child_transitions slept =
    elim (lookup slept parent.enabled_transitions) [
      | none ↦ false
      | some before ↦ elim (lookup slept child_transitions) [
        | none ↦ false
        | some after ↦
            action_eq after.effective_action before.effective_action
            && occurrence_eq after.occurrence before.occurrence
            && transitions_independent_at_node program memory_model parent (side_of slept before)
                (executed_side transition)
      ]
    ]

inherit_from :
    (ScheduleStep → Bool) → ScheduleStep → List ScheduleStep → List ScheduleStep → List ScheduleStep
unfolding insert_step
inherit_from stays endpoint [] inherited = inherited
inherit_from stays endpoint (slept ∷ rest) inherited = inherit_from stays endpoint rest (
    if step_eq slept endpoint
    then inherited
    else if stays slept
    then insert_step inherited slept
    else inherited)

unfoldable pub inherited_sleep_set :
    Program → ExecutionState → DporNode → ExecutedTransition → Result (List ScheduleStep)
unfolding inherit_from stays_asleep enabled_transitions enabled_steps
inherited_sleep_set program after parent transition =
    if is_empty parent.sleep
    then ok []
    else enabled_transitions program after (enabled_steps program after) >>= λ child_transitions.
        ok (
          inherit_from (stays_asleep program after.memory_model parent transition child_transitions)
            transition.endpoint parent.sleep [])
