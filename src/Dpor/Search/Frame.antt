-- ===== src/Dpor/Search/Frame.antt =====
-- src/model/checker.cpp: what changes the nodes leaves their enabled steps as they are.
use dpor_concurrency_model_c.Common.{
  ℕ, zero, suc, ◌-◌, not, ◌||◌, is_empty, List, [], ◌∷◌, ◌++◌, Option, none, some, ◌≡◌, refl, ap,
  ◌∙◌, if-rule, length, get_elem?, modify_at, pop_back,
}
use dpor_concurrency_model_c.Common.Result.{
  Result, ok, or_out_of_range, IfOk, IfOk->>=, IfOk-then, IfOk-weaken,
}
use dpor_concurrency_model_c.Action.{Program, ScheduleStep}
use dpor_concurrency_model_c.State.{ExecutionState, MemoryModel}
use dpor_concurrency_model_c.State.Threads.{is_finished, has_next_action}
use dpor_concurrency_model_c.Enabled.Steps.{enabled_steps_for_thread}
use dpor_concurrency_model_c.Dpor.{DporNode, ExecutedTransition}
use dpor_concurrency_model_c.Dpor.StepSet.{contains_step}
use dpor_concurrency_model_c.Dpor.Enablers.Repair.{
  disabled_repair_steps, add_repair_step, add_repair_steps, add_all_enabled_repair_steps, repaired,
}
use dpor_concurrency_model_c.Dpor.Backtrack.{
  blocked_transition, Verdict, prefix_verdict, reverse_at, repair_prefixes, scan_prefixes,
  add_backtracks_for_transition_against_prefix, add_backtracks_for_transition,
  add_disabled_backtracks_for, disabled_backtracks_among, add_disabled_backtracks,
}
use dpor_concurrency_model_c.Dpor.Search.{mark_done, put_to_sleep, wake_all}

-- The enabled steps of each node.
abbrev pub choices : List DporNode → List (List ScheduleStep)
choices [] = []
choices (node ∷ nodes) = node.enabled ∷ choices nodes

pub length-choices : (nodes : List DporNode) → length (choices nodes) ≡ length nodes
length-choices [] = refl
length-choices (node ∷ nodes) = ap suc (length-choices nodes)

pub choices-append :
    (nodes : List DporNode) (node : DporNode)
    → choices (nodes ++ node ∷ []) ≡ choices nodes ++ node.enabled ∷ []
choices-append [] node = refl
choices-append (first ∷ nodes) node = ap (λ rest. first.enabled ∷ rest) (choices-append nodes node)

pub get_elem?-choices :
    (nodes : List DporNode) (index : ℕ) {node : DporNode}
    → get_elem? nodes index ≡ some node
    → get_elem? (choices nodes) index ≡ some node.enabled
get_elem?-choices [] index h = cc
get_elem?-choices (first ∷ nodes) zero h =
    ap (λ o. elim o [ none ↦ none | some n ↦ some n.enabled ]) h
get_elem?-choices (first ∷ nodes) (suc index) h = get_elem?-choices nodes index h

pub choices-modify_at :
    (nodes : List DporNode) (index : ℕ) (change : DporNode → DporNode)
    → ((node : DporNode) → (change node).enabled ≡ node.enabled)
    → choices (modify_at index change nodes) ≡ choices nodes
choices-modify_at [] index change same = refl
choices-modify_at (node ∷ nodes) zero change same = ap (λ e. e ∷ choices nodes) (same node)
choices-modify_at (node ∷ nodes) (suc index) change same =
    ap (λ rest. node.enabled ∷ rest) (choices-modify_at nodes index change same)

pub choices-pop_back : (nodes : List DporNode) → choices (pop_back nodes) ≡ pop_back (choices nodes)
choices-pop_back [] = refl
choices-pop_back (node ∷ []) = refl
choices-pop_back (node ∷ next ∷ nodes) =
    ap (λ rest. node.enabled ∷ rest) (choices-pop_back (next ∷ nodes))

add_repair_steps-enabled :
    (node : DporNode) (steps : List ScheduleStep)
    → (add_repair_steps node steps).enabled ≡ node.enabled
unfolding add_repair_steps add_repair_step
add_repair_steps-enabled node [] = refl
add_repair_steps-enabled node (step ∷ steps) =
    add_repair_steps-enabled (add_repair_step node step) steps
    ∙ if-rule (λ (n : DporNode). n.enabled ≡ node.enabled) (contains_step node.enabled step)
        (λ _. refl) (λ _. refl)

repaired-enabled :
    (node : DporNode) (steps : Option (List ScheduleStep))
    → (repaired node steps).enabled ≡ node.enabled
unfolding repaired add_all_enabled_repair_steps
repaired-enabled node none = add_repair_steps-enabled node node.enabled
repaired-enabled node (some steps) = add_repair_steps-enabled node steps

pub mark_done-enabled :
    (step : ScheduleStep) (node : DporNode) → (mark_done step node).enabled ≡ node.enabled
unfolding mark_done
mark_done-enabled step node = refl

pub put_to_sleep-enabled :
    (step : ScheduleStep) (node : DporNode) → (put_to_sleep step node).enabled ≡ node.enabled
unfolding put_to_sleep
put_to_sleep-enabled step node = refl

pub wake_all-enabled : (node : DporNode) → (wake_all node).enabled ≡ node.enabled
unfolding wake_all
wake_all-enabled node = refl

-- Nodes that come back with the same enabled steps.
abbrev pub SameChoices : List DporNode → Result (List DporNode) → Type 0
SameChoices nodes = IfOk (λ after. choices after ≡ choices nodes)

repair_prefixes-SameChoices :
    (program : Program) (current : ExecutedTransition) (indices : List ℕ) (nodes : List DporNode)
    → SameChoices nodes (repair_prefixes program current indices nodes)
unfolding repair_prefixes
repair_prefixes-SameChoices program current [] nodes = refl
repair_prefixes-SameChoices program current (index ∷ indices) nodes =
    IfOk-then _ (or_out_of_range (get_elem? nodes index)) _ (λ node _.
      IfOk-then _ (disabled_repair_steps program node current) _ (λ steps _.
        IfOk-weaken _ _
          (repair_prefixes program current indices (modify_at index (λ n. repaired n steps) nodes))
          (repair_prefixes-SameChoices program current indices _)
          (λ after same. same ∙ choices-modify_at nodes index _ (λ n. repaired-enabled n steps))))

scan_prefixes-SameChoices :
    (program : Program) (m : MemoryModel) (trace : List ExecutedTransition)
    (current : ExecutedTransition) (enabler : Option ℕ) (index : ℕ) (indices : List ℕ)
    (nodes : List DporNode)
    → SameChoices nodes (scan_prefixes program m trace current enabler index indices nodes)
unfolding scan_prefixes
scan_prefixes-SameChoices program m trace current enabler zero indices nodes =
    repair_prefixes-SameChoices program current indices nodes
scan_prefixes-SameChoices program m trace current enabler (suc index) indices nodes =
    IfOk-then _ (or_out_of_range (get_elem? trace index)) _ (λ previous _.
      IfOk-then _ (or_out_of_range (get_elem? nodes index)) _ (λ node _.
        elim (prefix_verdict program m node previous current enabler index)
          as (λ verdict. SameChoices nodes (elim verdict [
            | Verdict.pass ↦ scan_prefixes program m trace current enabler index indices nodes
            | Verdict.disabled ↦
                scan_prefixes program m trace current enabler index (indices ++ index ∷ []) nodes
            | Verdict.reverse ↦ ok (modify_at index (reverse_at current.endpoint) nodes)
          ])) [
            | Verdict.pass ↦
                scan_prefixes-SameChoices program m trace current enabler index indices nodes
            | Verdict.disabled ↦
                scan_prefixes-SameChoices program m trace current enabler index
                  (indices ++ index ∷ []) nodes
            | Verdict.reverse ↦ choices-modify_at nodes index _ (λ n. unfold reverse_at in refl)
          ]))

against_prefix-SameChoices :
    (program : Program) (m : MemoryModel) (trace : List ExecutedTransition)
    (current : ExecutedTransition) (size : ℕ) (nodes : List DporNode)
    → SameChoices nodes
        (add_backtracks_for_transition_against_prefix program m trace current size nodes)
unfolding add_backtracks_for_transition_against_prefix
against_prefix-SameChoices program m trace current size nodes =
    scan_prefixes-SameChoices program m trace current _ size [] nodes

pub add_backtracks-SameChoices :
    (program : Program) (m : MemoryModel) (trace : List ExecutedTransition) (nodes : List DporNode)
    → SameChoices nodes (add_backtracks_for_transition program m trace nodes)
unfolding add_backtracks_for_transition
add_backtracks-SameChoices program m trace nodes =
    elim (get_elem? trace (length trace - 1))
      as (λ last. SameChoices nodes (elim last [
        | none ↦ ok nodes
        | some current ↦
            add_backtracks_for_transition_against_prefix program m trace current (length trace - 1)
              nodes
      ])) [
        | none ↦ refl
        | some current ↦ against_prefix-SameChoices program m trace current _ nodes
      ]

disabled_for-SameChoices :
    (program : Program) (s : ExecutionState) (trace : List ExecutedTransition) (tid : ℕ)
    (nodes : List DporNode)
    → SameChoices nodes (add_disabled_backtracks_for program s trace tid nodes)
unfolding add_disabled_backtracks_for
disabled_for-SameChoices program s trace tid nodes =
    if-rule (SameChoices nodes)
      (is_finished program s tid || not (is_empty (enabled_steps_for_thread program s tid)))
      {x = ok nodes} (λ _. refl)
      (λ _.
        if-rule (SameChoices nodes) (not (has_next_action program s tid)) {x = ok nodes} (λ _. refl)
          (λ _.
            IfOk-then (λ after. choices after ≡ choices nodes) (blocked_transition program s tid)
              (λ blocked.
                add_backtracks_for_transition_against_prefix program s.memory_model trace blocked
                  (length trace) nodes)
              (λ blocked _.
                against_prefix-SameChoices program s.memory_model trace blocked (length trace)
                  nodes)))

among-SameChoices :
    (program : Program) (s : ExecutionState) (trace : List ExecutedTransition) (tids : List ℕ)
    (nodes : List DporNode)
    → SameChoices nodes (disabled_backtracks_among program s trace tids nodes)
unfolding disabled_backtracks_among
among-SameChoices program s trace [] nodes = refl
among-SameChoices program s trace (tid ∷ tids) nodes =
    IfOk->>= _ _ (add_disabled_backtracks_for program s trace tid nodes) _
      (disabled_for-SameChoices program s trace tid nodes)
      (λ between same _.
        IfOk-weaken _ _ (disabled_backtracks_among program s trace tids between)
          (among-SameChoices program s trace tids between) (λ after more. more ∙ same))

pub add_disabled-SameChoices :
    (program : Program) (s : ExecutionState) (trace : List ExecutedTransition)
    (nodes : List DporNode)
    → SameChoices nodes (add_disabled_backtracks program s trace nodes)
unfolding add_disabled_backtracks
add_disabled-SameChoices program s trace nodes = among-SameChoices program s trace _ nodes
