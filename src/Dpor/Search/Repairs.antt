-- ===== src/Dpor/Search/Repairs.antt =====
-- src/model/checker.cpp: what adds backtracking points to the nodes ends and keeps the nodes fit.
use dpor_concurrency_model_c.Common.{
  ℕ, zero, suc, ◌-◌, not, ◌||◌, is_empty, true, List, [], ◌∷◌, ◌++◌, Option, none, some, ◌≡◌, refl,
  sym, ap, subst, arith, if-rule, length, get_elem?, modify_at,
}
use dpor_concurrency_model_c.Common.Result.{
  ok, throw, or_out_of_range, Ends, Ends->>=, Ends-then, Finishes, Finishes->>=,
  Finishes-or_out_of_range,
}
use dpor_concurrency_model_c.Action.{Program}
use dpor_concurrency_model_c.State.{ExecutionState, MemoryModel}
use dpor_concurrency_model_c.State.Threads.{is_finished, has_next_action}
use dpor_concurrency_model_c.Enabled.Steps.{
  enabled_steps_for_thread, effective_next_action, source_step, enabled_steps,
}
use dpor_concurrency_model_c.Dpor.{DporNode, ExecutedTransition}
use dpor_concurrency_model_c.Dpor.Occurrence.{
  transition_occurrence_identity_for, enabled_transitions,
}
use dpor_concurrency_model_c.Dpor.Occurrence.Ends.{
  transition_occurrence_identity_for-Finishes, enabled_transitions-Finishes,
}
use dpor_concurrency_model_c.Dpor.Independence.AtNode.{transition_enabled_at_node}
use dpor_concurrency_model_c.Dpor.Enablers.Repair.{disabled_repair_steps, repaired}
use dpor_concurrency_model_c.Dpor.Enablers.Ends.{disabled_repair_steps-Finishes}
use dpor_concurrency_model_c.Dpor.Backtrack.{
  blocked_transition, Verdict, prefix_verdict, reverse_at, repair_prefixes, scan_prefixes,
  add_backtracks_for_transition_against_prefix, add_backtracks_for_transition,
  add_disabled_backtracks_for, disabled_backtracks_among, add_disabled_backtracks,
  inherited_sleep_set,
}
use dpor_concurrency_model_c.Dpor.Search.Fit.{
  Mark, Fit, modify_at-Fit, repaired-IsFit, reverse_at-IsFit,
}

same_node :
    {found : Option DporNode} {n node : DporNode}
    → found ≡ some n
    → or_out_of_range found ≡ ok node
    → node ≡ n
same_node {n = n} there returned =
    sym (ap (λ r. elim r [ ok k ↦ k | throw e ↦ n ]) (rw there at returned))

module _ (base : List Mark) where
  repair_prefixes-Fit :
      (program : Program) (current : ExecutedTransition) (indices : List ℕ) (nodes : List DporNode)
      → Fit base nodes
      → Ends (Fit base) (repair_prefixes program current indices nodes)
  unfolding repair_prefixes
  repair_prefixes-Fit program current [] nodes fit = fit
  repair_prefixes-Fit program current (index ∷ indices) nodes fit =
      Ends-then (Fit base) (or_out_of_range (get_elem? nodes index)) _
        (Finishes-or_out_of_range (get_elem? nodes index))
        (λ node _.
          Ends-then (Fit base) (disabled_repair_steps program node current) _
            (disabled_repair_steps-Finishes program node current)
            (λ steps _.
              repair_prefixes-Fit program current indices
                (modify_at index (λ n. repaired n steps) nodes)
                (modify_at-Fit base nodes index (λ n. repaired n steps)
                  (λ mark n _ here. repaired-IsFit mark steps n here) fit)))

  -- Only a transition that is enabled at the node asks for its other order there.
  prefix_verdict-reverse :
      (program : Program) (m : MemoryModel) (node : DporNode)
      (previous current : ExecutedTransition) (enabler : Option ℕ) (index : ℕ)
      → prefix_verdict program m node previous current enabler index ≡ Verdict.reverse
      → transition_enabled_at_node node current ≡ true
  unfolding prefix_verdict
  prefix_verdict-reverse program m node previous current enabler index h = ground (arith, h)

  scan_prefixes-Fit :
      (program : Program) (m : MemoryModel) (trace : List ExecutedTransition)
      (current : ExecutedTransition) (enabler : Option ℕ) (index : ℕ) (indices : List ℕ)
      (nodes : List DporNode)
      → Fit base nodes
      → Ends (Fit base) (scan_prefixes program m trace current enabler index indices nodes)
  unfolding scan_prefixes
  scan_prefixes-Fit program m trace current enabler zero indices nodes fit =
      repair_prefixes-Fit program current indices nodes fit
  scan_prefixes-Fit program m trace current enabler (suc index) indices nodes fit =
      Ends-then (Fit base) (or_out_of_range (get_elem? trace index)) _
        (Finishes-or_out_of_range (get_elem? trace index))
        (λ previous _.
          Ends-then (Fit base) (or_out_of_range (get_elem? nodes index)) _
            (Finishes-or_out_of_range (get_elem? nodes index))
            (λ node found.
              go (λ more. scan_prefixes-Fit program m trace current enabler index more nodes fit)
                previous node found (prefix_verdict program m node previous current enabler index)
                refl))
    where
      go :
          ((more : List ℕ)
            → Ends (Fit base) (scan_prefixes program m trace current enabler index more nodes))
          → (previous : ExecutedTransition) (node : DporNode)
          → or_out_of_range (get_elem? nodes index) ≡ ok node
          → (verdict : Verdict)
          → prefix_verdict program m node previous current enabler index ≡ verdict
          → Ends (Fit base) (elim verdict [
            | Verdict.pass ↦ scan_prefixes program m trace current enabler index indices nodes
            | Verdict.disabled ↦
                scan_prefixes program m trace current enabler index (indices ++ index ∷ []) nodes
            | Verdict.reverse ↦ ok (modify_at index (reverse_at current.endpoint) nodes)
          ])
      go onward previous node found Verdict.pass e = onward indices
      go onward previous node found Verdict.disabled e = onward (indices ++ index ∷ [])
      go onward previous node found Verdict.reverse e =
          modify_at-Fit base nodes index (reverse_at current.endpoint)
            (λ mark n there here.
              reverse_at-IsFit mark current n
                (prefix_verdict-reverse program m n previous current enabler index (
                  subst
                    (λ k.
                      prefix_verdict program m k previous current enabler index ≡ Verdict.reverse)
                    (same_node there found) e))
                here)
            fit

  against_prefix-Fit :
      (program : Program) (m : MemoryModel) (trace : List ExecutedTransition)
      (current : ExecutedTransition) (size : ℕ) (nodes : List DporNode)
      → Fit base nodes
      → Ends
          (Fit base)
          (add_backtracks_for_transition_against_prefix program m trace current size nodes)
  unfolding add_backtracks_for_transition_against_prefix
  against_prefix-Fit program m trace current size nodes fit =
      scan_prefixes-Fit program m trace current _ size [] nodes fit

  pub add_backtracks-Fit :
      (program : Program) (m : MemoryModel) (trace : List ExecutedTransition)
      (nodes : List DporNode)
      → Fit base nodes
      → Ends (Fit base) (add_backtracks_for_transition program m trace nodes)
  unfolding add_backtracks_for_transition
  add_backtracks-Fit program m trace nodes fit =
      elim (get_elem? trace (length trace - 1))
        as (λ last. Ends (Fit base) (elim last [
          | none ↦ ok nodes
          | some current ↦
              add_backtracks_for_transition_against_prefix program m trace current
                (length trace - 1) nodes
        ])) [ none ↦ fit | some current ↦ against_prefix-Fit program m trace current _ nodes fit ]

  blocked_transition-Finishes :
      (program : Program) (s : ExecutionState) (tid : ℕ)
      → Finishes (blocked_transition program s tid)
  unfolding blocked_transition
  blocked_transition-Finishes program s tid =
      Finishes->>= (or_out_of_range (effective_next_action program s tid)) _
        (Finishes-or_out_of_range (effective_next_action program s tid))
        (λ action _.
          Finishes->>=
            (transition_occurrence_identity_for program s (source_step tid (s.pc tid)) action) _
            (transition_occurrence_identity_for-Finishes program s (source_step tid (s.pc tid))
              action)
            (λ occurrence _. tt))

  disabled_for-Fit :
      (program : Program) (s : ExecutionState) (trace : List ExecutedTransition) (tid : ℕ)
      (nodes : List DporNode)
      → Fit base nodes
      → Ends (Fit base) (add_disabled_backtracks_for program s trace tid nodes)
  unfolding add_disabled_backtracks_for
  disabled_for-Fit program s trace tid nodes fit =
      if-rule (Ends (Fit base))
        (is_finished program s tid || not (is_empty (enabled_steps_for_thread program s tid)))
        {x = ok nodes} (λ _. fit)
        (λ _.
          if-rule (Ends (Fit base)) (not (has_next_action program s tid)) {x = ok nodes} (λ _. fit)
            (λ _.
              Ends-then (Fit base) (blocked_transition program s tid)
                (λ blocked.
                  add_backtracks_for_transition_against_prefix program s.memory_model trace blocked
                    (length trace) nodes)
                (blocked_transition-Finishes program s tid)
                (λ blocked _.
                  against_prefix-Fit program s.memory_model trace blocked (length trace) nodes
                    fit)))

  among-Fit :
      (program : Program) (s : ExecutionState) (trace : List ExecutedTransition) (tids : List ℕ)
      (nodes : List DporNode)
      → Fit base nodes
      → Ends (Fit base) (disabled_backtracks_among program s trace tids nodes)
  unfolding disabled_backtracks_among
  among-Fit program s trace [] nodes fit = fit
  among-Fit program s trace (tid ∷ tids) nodes fit =
      Ends->>= (Fit base) (Fit base) (add_disabled_backtracks_for program s trace tid nodes) _
        (disabled_for-Fit program s trace tid nodes fit)
        (λ between still _. among-Fit program s trace tids between still)

  pub add_disabled-Fit :
      (program : Program) (s : ExecutionState) (trace : List ExecutedTransition)
      (nodes : List DporNode)
      → Fit base nodes
      → Ends (Fit base) (add_disabled_backtracks program s trace nodes)
  unfolding add_disabled_backtracks
  add_disabled-Fit program s trace nodes fit = among-Fit program s trace _ nodes fit

pub inherited_sleep_set-Finishes :
    (program : Program) (after : ExecutionState) (parent : DporNode)
    (transition : ExecutedTransition)
    → Finishes (inherited_sleep_set program after parent transition)
unfolding inherited_sleep_set
inherited_sleep_set-Finishes program after parent transition =
    if-rule Finishes (is_empty parent.sleep) {x = ok []} (λ _. tt)
      (λ _.
        Finishes->>= (enabled_transitions program after (enabled_steps program after)) _
          (enabled_transitions-Finishes program after (enabled_steps program after))
          (λ child_transitions _. tt))
