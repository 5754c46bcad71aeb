-- ===== src/Dpor/Search/NewNode.antt =====
-- src/model/checker.cpp: a new node of `dpor_dfs` is fit, also behind `initialize_dpor_backtrack`, and
-- each choice at a node leaves fewer of its enabled steps to try.
use dpor_concurrency_model_c.Common.{
  ℕ, suc, ◌<◌, Bool, true, false, List, [], ◌∷◌, Option, none, some, ◌≡◌, refl, sym, ap, subst, ◌∙◌,
  arith, not, find, All, All-mono, Bool-cases, inl, inr,
}
use dpor_concurrency_model_c.Common.OrdMap.{OrdMap}
use dpor_concurrency_model_c.Common.Result.{ok, Ends}
use dpor_concurrency_model_c.Action.{Program, ScheduleStep}
use dpor_concurrency_model_c.Action.StepOrder.{step_ord, step_eq_iff}
use dpor_concurrency_model_c.State.{ExecutionState}
use dpor_concurrency_model_c.Enabled.Steps.{enabled_steps}
use dpor_concurrency_model_c.Replay.{}
use dpor_concurrency_model_c.Invariant.Fuel.{}
use dpor_concurrency_model_c.Dpor.{DporNode, EnabledTransition}
use dpor_concurrency_model_c.Dpor.StepSet.{
  contains_step, insert_step, holds, IsAscending, contains_step-holds, holds-insert_step,
}
use dpor_concurrency_model_c.Dpor.Occurrence.{enabled_transitions}
use dpor_concurrency_model_c.Dpor.Occurrence.Keys.{enabled_transitions-keys}
use dpor_concurrency_model_c.Dpor.Enablers.Heads.{IsWithin, IsWithin-refl}
use dpor_concurrency_model_c.Dpor.Persistent.{initialize_dpor_backtrack, next_unexplored_backtrack}
use dpor_concurrency_model_c.Dpor.Persistent.Missing.{missing, missing_less}
use dpor_concurrency_model_c.Dpor.Persistent.Closed.{
  IsInitial, HasEntry, initialize_dpor_backtrack-IsInitial,
}
use dpor_concurrency_model_c.Dpor.Backtrack.{}
use dpor_concurrency_model_c.Dpor.Search.{dpor_node}
use dpor_concurrency_model_c.Dpor.Search.Fit.{IsFit}
use dpor_concurrency_model_c.Dpor.Search.Repairs.{}

-- What is found is in the list and passes the test.
find-All :
    (P : ScheduleStep → Type 0) (test : ScheduleStep → Bool) (steps : List ScheduleStep)
    (step : ScheduleStep)
    → All P steps
    → find test steps ≡ some step
    → P step × (test step ≡ true)
find-All P test [] step all h = cc
find-All P test (x ∷ steps) step (here, all) h = elim (Bool-cases (test x)) [
  | inl passes ↦
      let same : x ≡ step =
        ap (λ (o : Option ScheduleStep). elim o [ none ↦ x | some y ↦ y ]) (rw passes at h) in
      (subst P same here, subst (λ y. test y ≡ true) same passes)
  | inr fails ↦ find-All P test steps step all (rw fails at h)
]

-- A choice of the node puts one more enabled step into `done`.
pub fewer :
    (enabled done : List ScheduleStep) (rounds : ℕ) (node : DporNode) (step : ScheduleStep)
    → missing done enabled < suc rounds
    → IsAscending done
    → IsFit (enabled, done) node
    → next_unexplored_backtrack node ≡ some step
    → missing (insert_step done step) (enabled) < rounds
unfolding next_unexplored_backtrack
fewer enabled done rounds node step few ascending (same, marked, within, keys) chosen =
    let (inside, untried) =
      find-All (λ x. holds node.enabled x ≡ true) (λ x. not (contains_step node.done x))
        node.backtrack step within chosen in
    let fresh : contains_step done step ≡ false =
      subst (λ steps. contains_step steps step ≡ false) marked (ground (arith, untried)) in
    omega (
      arith,
      few,
      missing_less done (insert_step done step) (enabled) step
          (λ x h. holds-insert_step done step x ∙ ground (arith, h))
          (subst (λ steps. holds steps step ≡ true) same inside)
          (sym (contains_step-holds done step ascending) ∙ fresh)
          (holds-insert_step done step step ∙ ground (arith, step_eq_iff step step)),
    )

module _ (program : Program) where
  -- A new node, with the entries that `enabled_transitions` gives it, and any set of enabled steps.
  pub new-IsFit :
      (s : ExecutionState) (transitions : OrdMap ScheduleStep EnabledTransition)
      (sleep_set backtrack : List ScheduleStep)
      → enabled_transitions program s (enabled_steps program s) ≡ ok transitions
      → IsWithin (enabled_steps program s) backtrack
      → IsFit
          (enabled_steps program s, [])
          (record (dpor_node s (enabled_steps program s) transitions sleep_set) {
            backtrack = backtrack;
          })
  unfolding dpor_node
  new-IsFit s transitions sleep_set backtrack built within = (
    refl,
    refl,
    within,
    λ step entry.
        sym (enabled_transitions-keys program s (enabled_steps program s) step transitions built)
        ∙ entry,
  )

  new-HasEntry :
      (s : ExecutionState) (transitions : OrdMap ScheduleStep EnabledTransition)
      (sleep_set steps : List ScheduleStep)
      → enabled_transitions program s (enabled_steps program s) ≡ ok transitions
      → IsWithin (enabled_steps program s) steps
      → All (HasEntry program s (dpor_node s (enabled_steps program s) transitions sleep_set)) steps
  unfolding dpor_node
  new-HasEntry s transitions sleep_set steps built within =
      All-mono steps
        (λ step listed.
          enabled_transitions-keys program s (enabled_steps program s) step transitions built
          ∙ listed)
        within

  IsInitial-IsWithin :
      (s : ExecutionState) (node : DporNode) (backtrack : List ScheduleStep)
      → IsInitial program s node backtrack
      → IsWithin node.enabled backtrack
  IsInitial-IsWithin s node backtrack (inl (nothing, asleep)) =
      subst (IsWithin node.enabled) (sym nothing) tt
  IsInitial-IsWithin s node backtrack (inr (first, awake, kept, ascending, within, covered)) =
      within

  -- `initialize_dpor_backtrack` returns for a new node.
  pub initialize-Fit :
      (s : ExecutionState) (transitions : OrdMap ScheduleStep EnabledTransition)
      (sleep_set : List ScheduleStep)
      → enabled_transitions program s (enabled_steps program s) ≡ ok transitions
      → Ends (IsFit (enabled_steps program s, [])) (
          initialize_dpor_backtrack program s
            (dpor_node s (enabled_steps program s) transitions sleep_set))
  unfolding dpor_node
  initialize-Fit s transitions sleep_set built =
      let node = dpor_node s (enabled_steps program s) transitions sleep_set in
      let (backtrack, returned, initial) = initialize_dpor_backtrack-IsInitial program s node (
        new-HasEntry s transitions sleep_set (enabled_steps program s) built
          (IsWithin-refl (enabled_steps program s))) in
      subst (Ends (IsFit (enabled_steps program s, []))) (sym returned) (
        new-IsFit s transitions sleep_set backtrack built
          (IsInitial-IsWithin s (record node { backtrack = [] }) backtrack initial))
