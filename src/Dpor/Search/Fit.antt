-- ===== src/Dpor/Search/Fit.antt =====
-- src/model/checker.cpp: an invariant of the nodes of `dpor_dfs`. A node is known by its enabled
-- steps and its `done` set; its backtrack set and its transitions name enabled steps only.
use dpor_concurrency_model_c.Common.{
  ℕ, zero, suc, true, List, [], ◌∷◌, ◌++◌, Option, none, some, ◌≡◌, refl, ap, subst, arith, if-rule,
  length, get_elem?, has_value, modify_at, pop_back,
}
use dpor_concurrency_model_c.Common.OrdMap.{lookup}
use dpor_concurrency_model_c.Common.Result.{ok, throw, or_out_of_range}
use dpor_concurrency_model_c.Action.{ScheduleStep}
use dpor_concurrency_model_c.Action.StepOrder.{step_ord}
use dpor_concurrency_model_c.Dpor.{DporNode, ExecutedTransition}
use dpor_concurrency_model_c.Dpor.StepSet.{contains_step, insert_step, holds}
use dpor_concurrency_model_c.Dpor.Independence.AtNode.{transition_enabled_at_node}
use dpor_concurrency_model_c.Dpor.Enablers.Heads.{
  All-insert_step, All-append_steps, IsWithin, IsWithin-refl,
}
use dpor_concurrency_model_c.Dpor.Enablers.Repair.{
  add_repair_step, add_repair_steps, add_all_enabled_repair_steps, repaired,
}
use dpor_concurrency_model_c.Dpor.Backtrack.{reverse_at}
use dpor_concurrency_model_c.Dpor.Search.{mark_done, put_to_sleep, wake_all}
use dpor_concurrency_model_c.Dpor.Search.Kept.{contains_step-found}

-- The enabled steps and the `done` set of a node.
abbrev pub Mark : Type 0
Mark = List ScheduleStep × List ScheduleStep

abbrev pub IsFit : Mark → DporNode → Type 0
IsFit (enabled, done) node =
    (node.enabled ≡ enabled)
    × (node.done ≡ done)
    × IsWithin node.enabled node.backtrack
    × ((step : ScheduleStep)
        → has_value (lookup step node.enabled_transitions) ≡ true
        → holds node.enabled step ≡ true)

abbrev pub Fit : List Mark → List DporNode → Type 0
Fit [] [] = Unit
Fit (mark ∷ base) (node ∷ nodes) = IsFit mark node × Fit base nodes
Fit _ _ = ⊥

pub modify_at-Fit :
    (base : List Mark) (nodes : List DporNode) (index : ℕ) (change : DporNode → DporNode)
    → ((mark : Mark) (node : DporNode)
        → get_elem? nodes index ≡ some node
        → IsFit mark node
        → IsFit mark (change node))
    → Fit base nodes
    → Fit base (modify_at index change nodes)
modify_at-Fit base [] index change kept fit = fit
modify_at-Fit [] (node ∷ nodes) index change kept fit = absurd fit
modify_at-Fit (mark ∷ base) (node ∷ nodes) zero change kept (here, fit) =
    (kept mark node refl here, fit)
modify_at-Fit (mark ∷ base) (node ∷ nodes) (suc index) change kept (here, fit) =
    (here, modify_at-Fit base nodes index change kept fit)

-- The last node may get another mark.
pub modify_last-Fit :
    (base : List Mark) (nodes : List DporNode) (mark next : Mark) (change : DporNode → DporNode)
    → ((node : DporNode) → IsFit mark node → IsFit next (change node))
    → Fit (base ++ mark ∷ []) nodes
    → Fit (base ++ next ∷ []) (modify_at (length base) change nodes)
modify_last-Fit [] [] mark next change kept fit = absurd fit
modify_last-Fit [] (node ∷ []) mark next change kept (here, fit) = (kept node here, tt)
modify_last-Fit [] (node ∷ other ∷ nodes) mark next change kept (here, fit) = absurd fit
modify_last-Fit (first ∷ base) [] mark next change kept fit = absurd fit
modify_last-Fit (first ∷ base) (node ∷ nodes) mark next change kept (here, fit) =
    (here, modify_last-Fit base nodes mark next change kept fit)

pub last-IsFit :
    (base : List Mark) (nodes : List DporNode) (mark : Mark) (node : DporNode)
    → Fit (base ++ mark ∷ []) nodes
    → or_out_of_range (get_elem? nodes (length base)) ≡ ok node
    → IsFit mark node
last-IsFit [] [] mark node fit found = absurd fit
last-IsFit [] (first ∷ nodes) mark node (here, fit) found =
    subst (IsFit mark) (ap (λ r. elim r [ ok n ↦ n | throw e ↦ first ]) found) here
last-IsFit (other ∷ base) [] mark node fit found = absurd fit
last-IsFit (other ∷ base) (first ∷ nodes) mark node (here, fit) found =
    last-IsFit base nodes mark node fit found

pub append-Fit :
    (base : List Mark) (nodes : List DporNode) (mark : Mark) (node : DporNode)
    → Fit base nodes
    → IsFit mark node
    → Fit (base ++ mark ∷ []) (nodes ++ node ∷ [])
append-Fit [] [] mark node fit here = (here, tt)
append-Fit [] (first ∷ nodes) mark node fit here = absurd fit
append-Fit (other ∷ base) [] mark node fit here = absurd fit
append-Fit (other ∷ base) (first ∷ nodes) mark node (top, fit) here =
    (top, append-Fit base nodes mark node fit here)

pub pop_back-Fit :
    (base : List Mark) (nodes : List DporNode) (mark : Mark)
    → Fit (base ++ mark ∷ []) nodes
    → Fit base (pop_back nodes)
pop_back-Fit [] [] mark fit = absurd fit
pop_back-Fit [] (node ∷ []) mark fit = tt
pop_back-Fit [] (node ∷ other ∷ nodes) mark (here, fit) = absurd fit
pop_back-Fit (first ∷ base) [] mark fit = absurd fit
pop_back-Fit (first ∷ []) (node ∷ []) mark (here, fit) = absurd fit
pop_back-Fit (first ∷ second ∷ base) (node ∷ []) mark (here, fit) = absurd fit
pop_back-Fit (first ∷ base) (node ∷ other ∷ nodes) mark (here, fit) =
    (here, pop_back-Fit base (other ∷ nodes) mark fit)

pub length-Fit :
    (base : List Mark) (nodes : List DporNode) → Fit base nodes → length nodes ≡ length base
length-Fit [] [] fit = refl
length-Fit [] (node ∷ nodes) fit = absurd fit
length-Fit (mark ∷ base) [] fit = absurd fit
length-Fit (mark ∷ base) (node ∷ nodes) (here, fit) = ap suc (length-Fit base nodes fit)

pub put_to_sleep-IsFit :
    (mark : Mark) (step : ScheduleStep) (node : DporNode)
    → IsFit mark node
    → IsFit mark (put_to_sleep step node)
unfolding put_to_sleep
put_to_sleep-IsFit mark step node fit = fit

pub wake_all-IsFit : (mark : Mark) (node : DporNode) → IsFit mark node → IsFit mark (wake_all node)
unfolding wake_all
wake_all-IsFit mark node (enabled, done, within, keys) = (
  enabled,
  done,
  All-append_steps _ node.backtrack node.enabled within (IsWithin-refl node.enabled),
  keys,
)

pub mark_done-IsFit :
    (enabled done : List ScheduleStep) (step : ScheduleStep) (node : DporNode)
    → IsFit (enabled, done) node
    → IsFit (enabled, insert_step done step) (mark_done step node)
unfolding mark_done
mark_done-IsFit enabled done step node (same, marked, within, keys) =
    (same, ap (λ steps. insert_step steps step) marked, within, keys)

-- A transition that is enabled at the node is one of its enabled steps.
pub reverse_at-IsFit :
    (mark : Mark) (transition : ExecutedTransition) (node : DporNode)
    → transition_enabled_at_node node transition ≡ true
    → IsFit mark node
    → IsFit mark (reverse_at transition.endpoint node)
unfolding reverse_at transition_enabled_at_node
reverse_at-IsFit mark transition node enabled_here (enabled, done, within, keys) = (
  enabled,
  done,
  All-insert_step _ node.backtrack transition.endpoint within
      (keys transition.endpoint (ground (arith, enabled_here))),
  keys,
)

add_repair_steps-IsFit :
    (mark : Mark) (steps : List ScheduleStep) (node : DporNode)
    → IsFit mark node
    → IsFit mark (add_repair_steps node steps)
unfolding add_repair_steps add_repair_step
add_repair_steps-IsFit mark [] node fit = fit
add_repair_steps-IsFit mark (step ∷ steps) node (enabled, done, within, keys) =
    add_repair_steps-IsFit mark steps (add_repair_step node step) (
      if-rule (IsFit mark) (contains_step node.enabled step)
        (λ found. (
          enabled,
          done,
          All-insert_step _ node.backtrack step within
              (contains_step-found node.enabled step found),
          keys,
        ))
        (λ _. (enabled, done, within, keys)))

pub repaired-IsFit :
    (mark : Mark) (steps : Option (List ScheduleStep)) (node : DporNode)
    → IsFit mark node
    → IsFit mark (repaired node steps)
unfolding repaired add_all_enabled_repair_steps
repaired-IsFit mark none node fit = add_repair_steps-IsFit mark node.enabled node fit
repaired-IsFit mark (some steps) node fit = add_repair_steps-IsFit mark steps node fit
