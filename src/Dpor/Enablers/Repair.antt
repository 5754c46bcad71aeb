-- ===== src/Dpor/Enablers/Repair.antt =====
-- src/model/checker.cpp: `disabled_repair_steps`, `add_repair_steps` and
-- `add_all_enabled_repair_steps`, what is run at a node at which a later transition is disabled.
use dpor_concurrency_model_c.Common.{
  ℕ, suc, true, false, List, [], ◌∷◌, Option, none, some, if◌then◌else◌, not, eqb, leb, ltb,
}
use dpor_concurrency_model_c.Common.Result.{ok, ◌>>=◌}
use dpor_concurrency_model_c.Action.{Action, ActionKind, Program, ScheduleStep}
use dpor_concurrency_model_c.State.{thread_count}
use dpor_concurrency_model_c.Dpor.{DporNode, ExecutedTransition, action_eq}
use dpor_concurrency_model_c.Dpor.StepSet.{contains_step, insert_step, remove_step}
use dpor_concurrency_model_c.Dpor.Enablers.{
  Heads, enabler_heads_for_spawn_target, enabler_heads_for_rwlock_writer, enabler_heads_for_w_lock,
  enabler_heads_for_rwlock_readers, enabler_heads_for_join, enabler_heads_for_wait,
  enabler_heads_for_thread, has_next_action_at_node, next_action_at_node, effective_at_node,
}

-- The switch of `disabled_repair_steps`, on the kind of the effective action.
unfoldable pub repair_for_kind : ActionKind → (ℕ → Heads) → Program → DporNode → ℕ → Action → Heads
unfolding enabler_heads_for_rwlock_writer enabler_heads_for_w_lock enabler_heads_for_rwlock_readers
    enabler_heads_for_join enabler_heads_for_wait
repair_for_kind ActionKind.r_lock heads_of program node tid action =
    enabler_heads_for_rwlock_writer heads_of node action.rwlock tid
repair_for_kind ActionKind.w_lock heads_of program node tid action =
    enabler_heads_for_w_lock heads_of node action.rwlock tid
repair_for_kind ActionKind.upgrade heads_of program node tid action =
    enabler_heads_for_rwlock_readers heads_of node action.rwlock tid true
repair_for_kind ActionKind.join heads_of program node tid action =
    enabler_heads_for_join heads_of program tid action
repair_for_kind ActionKind.wait heads_of program node tid action =
    enabler_heads_for_wait heads_of program node tid action
repair_for_kind _ heads_of program node tid action = ok none

unfoldable pub repair_at_action :
    (ℕ → Heads) → Program → DporNode → ExecutedTransition → Action → Heads
unfolding effective_at_node action_eq repair_for_kind
repair_at_action heads_of program node current action =
    let effective = effective_at_node node current.thread action in
    if action_eq action current.effective_action
    then repair_for_kind effective.kind heads_of program node current.thread action
    else ok none

unfoldable pub repair_with : (ℕ → Heads) → Program → DporNode → ExecutedTransition → Heads
unfolding enabler_heads_for_spawn_target has_next_action_at_node next_action_at_node
    repair_at_action
repair_with heads_of program node current =
    if not (node.started current.thread)
    then enabler_heads_for_spawn_target heads_of program node current.thread
    else if ltb (node.pc current.thread) current.endpoint.action_index
    then heads_of current.thread
    else if not (has_next_action_at_node program node current.thread)
    then ok none
    else if not (eqb (node.pc current.thread) current.endpoint.action_index)
    then ok none
    else next_action_at_node program node current.thread
      >>= repair_at_action heads_of program node current

-- Every call marks one more thread: the number of threads bounds the depth.
unfoldable pub disabled_repair_steps : Program → DporNode → ExecutedTransition → Heads
unfolding repair_with enabler_heads_for_thread
disabled_repair_steps program node current =
    if leb (thread_count program) current.thread
    then ok none
    else repair_with
        (enabler_heads_for_thread (suc (thread_count program)) program node (λ _. false)) program
        node current

unfoldable pub add_repair_step : DporNode → ScheduleStep → DporNode
unfolding contains_step insert_step remove_step
add_repair_step node step =
    if contains_step node.enabled step
    then record node {
      backtrack = insert_step node.backtrack step;
      sleep = remove_step node.sleep step;
    }
    else node

unfoldable pub add_repair_steps : DporNode → List ScheduleStep → DporNode
unfolding add_repair_step
add_repair_steps node [] = node
add_repair_steps node (step ∷ steps) = add_repair_steps (add_repair_step node step) steps

unfoldable pub add_all_enabled_repair_steps : DporNode → DporNode
unfolding add_repair_steps
add_all_enabled_repair_steps node = add_repair_steps node node.enabled

-- The repair of one node.
unfoldable pub repaired : DporNode → Option (List ScheduleStep) → DporNode
unfolding add_repair_steps add_all_enabled_repair_steps
repaired node none = add_all_enabled_repair_steps node
repaired node (some steps) = add_repair_steps node steps
