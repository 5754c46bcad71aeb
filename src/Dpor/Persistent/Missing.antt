-- ===== src/Dpor/Persistent/Missing.antt =====
-- src/model/checker.cpp: how many enabled steps a backtrack set lacks.
use dpor_concurrency_model_c.Common.{
  ℕ, suc, ◌≤◌, ◌<◌, true, false, List, [], ◌∷◌, ◌≡◌, arith, if◌then◌else◌, length,
}
use dpor_concurrency_model_c.Action.{ScheduleStep}
use dpor_concurrency_model_c.Action.StepOrder.{step_ord, step_eq_iff}
use dpor_concurrency_model_c.Dpor.StepSet.{holds}
use dpor_concurrency_model_c.Dpor.Persistent.{}

-- How many of the steps are not in the set.
abbrev pub missing : List ScheduleStep → List ScheduleStep → ℕ
missing backtrack [] = 0
missing backtrack (s ∷ steps) =
    let rest = missing backtrack steps in if holds backtrack s then rest else suc rest

pub missing_mono :
    (b c steps : List ScheduleStep)
    → ((s : ScheduleStep) → holds b s ≡ true → holds c s ≡ true)
    → missing c steps ≤ missing b steps
missing_mono b c [] more = omega arith
missing_mono b c (s ∷ steps) more = ground (arith, more s, missing_mono b c steps more)

pub missing_less :
    (b c steps : List ScheduleStep) (new : ScheduleStep)
    → ((s : ScheduleStep) → holds b s ≡ true → holds c s ≡ true)
    → holds steps new ≡ true
    → holds b new ≡ false
    → holds c new ≡ true
    → missing c steps < missing b steps
missing_less b c [] new more inside before after = cc
missing_less b c (s ∷ steps) new more inside before after =
    grind (
      arith,
      step_eq_iff new s,
      more s,
      missing_mono b c steps more,
      missing_less b c steps new more,
    )

pub missing-length : (b steps : List ScheduleStep) → missing b steps ≤ length steps
missing-length b [] = omega arith
missing-length b (s ∷ steps) = ground (arith, missing-length b steps)
