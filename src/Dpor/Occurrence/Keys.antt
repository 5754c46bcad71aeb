-- ===== src/Dpor/Occurrence/Keys.antt =====
-- src/model/checker.cpp: the keys of the map that `enabled_transitions` builds, and what it throws.
use dpor_concurrency_model_c.Common.{
  List, [], ◌∷◌, ◌≡◌, refl, arith, ◌||◌, has_value, Option-cases, inl, inr, any,
}
use dpor_concurrency_model_c.Common.Order.{name_ord}
use dpor_concurrency_model_c.Common.OrdMap.{OrdMap, lookup, emplace, lookup-insert}
use dpor_concurrency_model_c.Common.Result.{ok, IfOk, IfOk-then, IfOk-weaken, IfOk-ok}
use dpor_concurrency_model_c.Action.{Program, ScheduleStep, step_eq}
use dpor_concurrency_model_c.Action.StepOrder.{step_ord, step_eq_iff}
use dpor_concurrency_model_c.State.{ExecutionState}
use dpor_concurrency_model_c.Dpor.{EnabledTransition}
use dpor_concurrency_model_c.Dpor.Occurrence.{
  transitions_onto, enabled_transitions, enabled_transition_for,
}

emplace-keys :
    (stored wanted : ScheduleStep) (v : EnabledTransition)
    (m : OrdMap ScheduleStep EnabledTransition)
    → has_value (lookup wanted (emplace stored v m))
      ≡ (step_eq wanted stored || has_value (lookup wanted m))
unfolding emplace
emplace-keys stored wanted v m = elim (Option-cases (lookup stored m)) [
  | inl free ↦
      rw (free, emplace, lookup-insert stored wanted v m)
        (ground (arith, free, step_eq_iff stored wanted, step_eq_iff wanted stored))
  | inr (there, e) ↦ rw (e, emplace) (ground (arith, e, step_eq_iff wanted stored))
]

transitions_onto-keys :
    (program : Program) (s : ExecutionState) (steps : List ScheduleStep)
    (transitions : OrdMap ScheduleStep EnabledTransition) (wanted : ScheduleStep)
    → IfOk
        (λ built.
          has_value (lookup wanted built)
          ≡ (any (step_eq wanted) steps || has_value (lookup wanted transitions)))
        (transitions_onto program s steps transitions)
unfolding transitions_onto
transitions_onto-keys program s [] transitions wanted = refl
transitions_onto-keys program s (step ∷ steps) transitions wanted =
    IfOk-then _ (enabled_transition_for program s step) _ (λ transition _.
      IfOk-weaken _ _ (transitions_onto program s steps (emplace step transition transitions))
        (transitions_onto-keys program s steps (emplace step transition transitions) wanted)
        (λ built keys. ground (arith, keys, emplace-keys step wanted transition transitions)))

-- The map has an entry for exactly the steps that it is built from.
pub enabled_transitions-keys :
    (program : Program) (s : ExecutionState) (steps : List ScheduleStep) (wanted : ScheduleStep)
    (built : OrdMap ScheduleStep EnabledTransition)
    → enabled_transitions program s steps ≡ ok built
    → has_value (lookup wanted built) ≡ any (step_eq wanted) steps
unfolding enabled_transitions
enabled_transitions-keys program s steps wanted built returned =
    let keys =
      IfOk-ok _ (transitions_onto program s steps [])
        (transitions_onto-keys program s steps [] wanted) returned in
    ground (arith, keys)
