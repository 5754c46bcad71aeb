-- ===== src/Dpor/Enablers/Ends.antt =====
-- src/model/checker.cpp: `disabled_repair_steps` ends, whatever the node.
use dpor_concurrency_model_c.Common.{
  ℕ, zero, suc, ◌≤◌, Bool, true, false, [], none, some, Option, arith, if-rule, leb, ltb, not, eqb,
  keep, range, get_elem?,
}
use dpor_concurrency_model_c.Common.Result.{
  ok, throw, out_of_range, out_of_fuel, logic_error, overflow_error, invalid_argument,
  invalid_schedule, Finishes, ◌>>=◌, or_out_of_range,
}
use dpor_concurrency_model_c.Action.{Action, ActionKind, Program}
use dpor_concurrency_model_c.State.{thread_count, thread_at}
use dpor_concurrency_model_c.Dpor.{DporNode, ExecutedTransition, action_eq}
use dpor_concurrency_model_c.Dpor.Enablers.{
  Heads, enabler_heads_for_spawn_target, enabler_heads_for_thread, has_remaining_spawn_to,
  has_next_action_at_node, next_action_at_node,
}
use dpor_concurrency_model_c.Dpor.Enablers.Heads.{
  AreHeads, gather_heads-AreHeads, enabler_heads_for_rwlock_writer-AreHeads,
  enabler_heads_for_rwlock_readers-AreHeads, enabler_heads_for_w_lock-AreHeads,
  enabler_heads_for_join-AreHeads, enabler_heads_for_wait-AreHeads,
}
use dpor_concurrency_model_c.Dpor.Enablers.Laws.{unvisited, enabler_heads_for_thread-AreHeads}
use dpor_concurrency_model_c.Dpor.Enablers.Repair.{
  repair_for_kind, repair_at_action, repair_with, disabled_repair_steps,
}

module _ (node : DporNode) (heads_of : ℕ → Heads)
    (heads_of-AreHeads : (tid : ℕ) → AreHeads node.enabled (heads_of tid)) where
  repair_for_kind-AreHeads :
      (kind : ActionKind) (program : Program) (tid : ℕ) (action : Action)
      → AreHeads node.enabled (repair_for_kind kind heads_of program node tid action)
  unfolding repair_for_kind
  repair_for_kind-AreHeads ActionKind.r_lock program tid action =
      enabler_heads_for_rwlock_writer-AreHeads node.enabled heads_of heads_of-AreHeads node
        action.rwlock tid
  repair_for_kind-AreHeads ActionKind.w_lock program tid action =
      enabler_heads_for_w_lock-AreHeads node.enabled heads_of heads_of-AreHeads node action.rwlock
        tid
  repair_for_kind-AreHeads ActionKind.upgrade program tid action =
      enabler_heads_for_rwlock_readers-AreHeads node.enabled heads_of heads_of-AreHeads node
        action.rwlock tid true
  repair_for_kind-AreHeads ActionKind.join program tid action =
      enabler_heads_for_join-AreHeads node.enabled heads_of heads_of-AreHeads program tid action
  repair_for_kind-AreHeads ActionKind.wait program tid action =
      enabler_heads_for_wait-AreHeads node.enabled heads_of heads_of-AreHeads program node tid
        action
  repair_for_kind-AreHeads _ program tid action = tt

  at_action-AreHeads :
      (program : Program) (current : ExecutedTransition) (next : Option Action)
      → AreHeads node.enabled
          (or_out_of_range next >>= repair_at_action heads_of program node current)
  unfolding repair_at_action
  at_action-AreHeads program current none = tt
  at_action-AreHeads program current (some action) =
      if-rule (AreHeads node.enabled) (action_eq action current.effective_action) {y = ok none}
        (λ _. repair_for_kind-AreHeads _ program current.thread action) (λ _. tt)

  repair_with-AreHeads :
      (program : Program) (current : ExecutedTransition)
      → AreHeads node.enabled (repair_with heads_of program node current)
  unfolding repair_with enabler_heads_for_spawn_target next_action_at_node
  repair_with-AreHeads program current =
      if-rule (AreHeads node.enabled) (not (node.started current.thread))
        (λ _.
          gather_heads-AreHeads node.enabled heads_of heads_of-AreHeads
            (keep (λ source. has_remaining_spawn_to program node source current.thread)
              (range (thread_count program)))
            [] tt)
        (λ _.
          if-rule (AreHeads node.enabled)
            (ltb (node.pc current.thread) current.endpoint.action_index)
            (λ _. heads_of-AreHeads current.thread)
            (λ _.
              if-rule (AreHeads node.enabled)
                (not (has_next_action_at_node program node current.thread)) {x = ok none} (λ _. tt)
                (λ _.
                  if-rule (AreHeads node.enabled)
                    (not (eqb (node.pc current.thread) current.endpoint.action_index)) {x = ok none}
                    (λ _. tt)
                    (λ _.
                      at_action-AreHeads program current
                        (get_elem? (thread_at program current.thread) (node.pc current.thread))))))

unvisited-at_most : (visiting : ℕ → Bool) (start n : ℕ) → unvisited visiting start n ≤ n
unvisited-at_most visiting start zero = omega arith
unvisited-at_most visiting start (suc n) = ground (arith, unvisited-at_most visiting (suc start) n)

disabled_repair_steps-AreHeads :
    (program : Program) (node : DporNode) (current : ExecutedTransition)
    → AreHeads node.enabled (disabled_repair_steps program node current)
unfolding disabled_repair_steps
disabled_repair_steps-AreHeads program node current =
    if-rule (AreHeads node.enabled) (leb (thread_count program) current.thread) {x = ok none}
      (λ _. tt)
      (λ _.
        repair_with-AreHeads node
          (enabler_heads_for_thread (suc (thread_count program)) program node (λ _. false))
          (λ tid.
            enabler_heads_for_thread-AreHeads (suc (thread_count program)) program node (λ _. false)
              tid (omega (arith, unvisited-at_most (λ _. false) 0 (thread_count program))))
          program current)

AreHeads-Finishes : (enabled : _) (heads : Heads) → AreHeads enabled heads → Finishes heads
AreHeads-Finishes enabled (ok heads) are = tt
AreHeads-Finishes enabled (throw out_of_range) are = tt
AreHeads-Finishes enabled (throw out_of_fuel) are = are
AreHeads-Finishes enabled (throw (logic_error m)) are = tt
AreHeads-Finishes enabled (throw (overflow_error m)) are = tt
AreHeads-Finishes enabled (throw (invalid_argument m)) are = tt
AreHeads-Finishes enabled (throw (invalid_schedule i m)) are = tt

pub disabled_repair_steps-Finishes :
    (program : Program) (node : DporNode) (current : ExecutedTransition)
    → Finishes (disabled_repair_steps program node current)
disabled_repair_steps-Finishes program node current =
    AreHeads-Finishes node.enabled (disabled_repair_steps program node current)
      (disabled_repair_steps-AreHeads program node current)
