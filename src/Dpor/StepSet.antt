-- ===== src/Dpor/StepSet.antt =====
-- src/model/checker.cpp: `contains_step`, `insert_step`, `remove_step` and `append_steps`, the sets
-- of schedule steps as ascending vectors under binary search. The position that std::lower_bound
-- finds in an ascending vector is that of the first step that is not below the given one.
use dpor_concurrency_model_c.Common.{
  Bool, true, false, List, [], ◌∷◌, if◌then◌else◌, ◌≡◌, refl, sym, ap, ◌∙◌, arith, any, All,
  All-mono, if-rule, ◌||◌, not, ◌&&◌,
}
use dpor_concurrency_model_c.Action.{ScheduleStep, step_eq, step_lt}
use dpor_concurrency_model_c.Action.StepOrder.{
  step_eq_iff, step_lt_irrefl, step_lt_trans, step_lt_total,
}

unfoldable pub contains_step : List ScheduleStep → ScheduleStep → Bool
contains_step [] step = false
contains_step (s ∷ steps) step =
    if step_lt s step then contains_step steps step else not (step_lt step s)

unfoldable pub insert_step : List ScheduleStep → ScheduleStep → List ScheduleStep
insert_step [] step = step ∷ []
insert_step (s ∷ steps) step =
    if step_lt s step
    then s ∷ insert_step steps step
    else if step_eq s step
    then s ∷ steps
    else step ∷ s ∷ steps

unfoldable pub remove_step : List ScheduleStep → ScheduleStep → List ScheduleStep
remove_step [] step = []
remove_step (s ∷ steps) step =
    if step_lt s step
    then s ∷ remove_step steps step
    else if step_eq s step
    then steps
    else s ∷ steps

unfoldable pub append_steps : List ScheduleStep → List ScheduleStep → List ScheduleStep
unfolding insert_step
append_steps destination [] = destination
append_steps destination (step ∷ source) = append_steps (insert_step destination step) source

-- An ascending vector.
abbrev pub IsAscending : List ScheduleStep → Type 0
IsAscending [] = Unit
IsAscending (s ∷ steps) = All (λ t. step_lt s t ≡ true) steps × IsAscending steps

-- The abstract view: the steps that a vector holds.
abbrev pub holds : List ScheduleStep → ScheduleStep → Bool
holds steps step = any (step_eq step) steps

above_holds-not :
    (s step : ScheduleStep) (steps : List ScheduleStep)
    → All (λ t. step_lt s t ≡ true) steps
    → step_lt s step ≡ false
    → holds steps step ≡ false
above_holds-not s step [] a h = refl
above_holds-not s step (t ∷ steps) (lt, a) h =
    grind (arith, step_eq_iff step t, above_holds-not s step steps a h)

pub contains_step-holds :
    (steps : List ScheduleStep) (step : ScheduleStep)
    → IsAscending steps
    → contains_step steps step ≡ holds steps step
unfolding contains_step
contains_step-holds [] step a = refl
contains_step-holds (s ∷ steps) step (above, a) = ground (
  arith,
  step_eq_iff step s,
  step_lt_irrefl s,
  step_lt_total s step,
  contains_step-holds steps step a,
  above_holds-not s step steps above,
)

-- A step that stands below all of `steps`.
abbrev IsBelow : ScheduleStep → List ScheduleStep → Type 0
IsBelow bottom steps = All (λ t. step_lt bottom t ≡ true) steps

IsBelow-trans :
    (bottom s : ScheduleStep) (steps : List ScheduleStep)
    → step_lt bottom s ≡ true
    → IsBelow s steps
    → IsBelow bottom steps
IsBelow-trans bottom s steps h below = All-mono steps (λ t. step_lt_trans bottom s t h) below

IsBelow-insert_step :
    (bottom step : ScheduleStep) (steps : List ScheduleStep)
    → step_lt bottom step ≡ true
    → IsBelow bottom steps
    → IsBelow bottom (insert_step steps step)
unfolding insert_step
IsBelow-insert_step bottom step [] h below = (h, tt)
IsBelow-insert_step bottom step (s ∷ steps) h (lt, below) =
    if-rule (IsBelow bottom) (step_lt s step)
      (λ _. (lt, IsBelow-insert_step bottom step steps h below))
      (λ _. if-rule (IsBelow bottom) (step_eq s step) (λ _. (lt, below)) (λ _. (h, (lt, below))))

IsBelow-remove_step :
    (bottom step : ScheduleStep) (steps : List ScheduleStep)
    → IsBelow bottom steps
    → IsBelow bottom (remove_step steps step)
unfolding remove_step
IsBelow-remove_step bottom step [] below = tt
IsBelow-remove_step bottom step (s ∷ steps) (lt, below) =
    if-rule (IsBelow bottom) (step_lt s step)
      (λ _. (lt, IsBelow-remove_step bottom step steps below))
      (λ _. if-rule (IsBelow bottom) (step_eq s step) (λ _. below) (λ _. (lt, below)))

pub IsAscending-insert_step :
    (steps : List ScheduleStep) (step : ScheduleStep)
    → IsAscending steps
    → IsAscending (insert_step steps step)
unfolding insert_step
IsAscending-insert_step [] step a = (tt, tt)
IsAscending-insert_step (s ∷ steps) step (below, a) =
    if-rule IsAscending (step_lt s step)
      (λ lt. (IsBelow-insert_step s step steps lt below, IsAscending-insert_step steps step a))
      (λ ge.
        if-rule IsAscending (step_eq s step) (λ _. (below, a))
          (λ ne.
            let under = step_lt_total s step ge ne in
            ((under, IsBelow-trans step s steps under below), (below, a))))

pub IsAscending-remove_step :
    (steps : List ScheduleStep) (step : ScheduleStep)
    → IsAscending steps
    → IsAscending (remove_step steps step)
unfolding remove_step
IsAscending-remove_step [] step a = tt
IsAscending-remove_step (s ∷ steps) step (below, a) =
    if-rule IsAscending (step_lt s step)
      (λ _. (IsBelow-remove_step s step steps below, IsAscending-remove_step steps step a))
      (λ _. if-rule IsAscending (step_eq s step) (λ _. a) (λ _. (below, a)))

pub holds-insert_step :
    (steps : List ScheduleStep) (step wanted : ScheduleStep)
    → holds (insert_step steps step) wanted ≡ (step_eq wanted step || holds steps wanted)
unfolding insert_step
holds-insert_step [] step wanted = refl
holds-insert_step (s ∷ steps) step wanted =
    ground (arith, step_eq_iff s step, holds-insert_step steps step wanted)

pub holds-remove_step :
    (steps : List ScheduleStep) (step wanted : ScheduleStep)
    → IsAscending steps
    → holds (remove_step steps step) wanted ≡ (not (step_eq wanted step) && holds steps wanted)
unfolding remove_step
holds-remove_step [] step wanted a = ground arith
holds-remove_step (s ∷ steps) step wanted (below, a) =
    if-rule (λ rest. holds rest wanted ≡ (not (step_eq wanted step) && holds (s ∷ steps) wanted))
      (step_lt s step)
      (λ lt. grind (
        arith,
        step_eq_iff wanted s,
        step_eq_iff wanted step,
        step_lt_irrefl s,
        holds-remove_step steps step wanted a,
      ))
      (λ ge.
        if-rule
          (λ rest. holds rest wanted ≡ (not (step_eq wanted step) && holds (s ∷ steps) wanted))
          (step_eq s step)
          (λ same. grind (
            arith,
            step_eq_iff s step,
            step_eq_iff wanted s,
            step_eq_iff wanted step,
            above_holds-not s wanted steps below,
            step_lt_irrefl s,
          ))
          (λ other. grind (
            arith,
            step_eq_iff s step,
            step_eq_iff wanted s,
            step_eq_iff wanted step,
            step_lt_total s step ge other,
            step_lt_trans,
            step_lt_irrefl,
            above_holds-not s wanted steps below,
          )))

-- On an ascending vector, `insert_step` and `remove_step` give an ascending vector, in which the
-- binary search finds what it found before, with the step added, or without it.
pub contains_step-refines :
    (steps : List ScheduleStep) (step wanted : ScheduleStep)
    → IsAscending steps
    → (IsAscending (insert_step steps step))
      × (contains_step (insert_step steps step) wanted
          ≡ (step_eq wanted step || contains_step steps wanted))
      × (IsAscending (remove_step steps step))
      × (contains_step (remove_step steps step) wanted
          ≡ (not (step_eq wanted step) && contains_step steps wanted))
contains_step-refines steps step wanted a =
    let more = IsAscending-insert_step steps step a in
    let fewer = IsAscending-remove_step steps step a in
    let before = contains_step-holds steps wanted a in
    (
      more,
      contains_step-holds (insert_step steps step) wanted more
          ∙ holds-insert_step steps step wanted
          ∙ ap (λ b. step_eq wanted step || b) (sym before),
      fewer,
      contains_step-holds (remove_step steps step) wanted fewer
          ∙ holds-remove_step steps step wanted a
          ∙ ap (λ b. not (step_eq wanted step) && b) (sym before),
    )
