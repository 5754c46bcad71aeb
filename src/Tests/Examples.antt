-- ===== src/Tests/Examples.antt =====
-- Each theorem of the development that has a hypothesis or a binder, applied to concrete arguments.
use dpor_concurrency_model_c.Common.{
  ◌≢◌, ℕ, ◌<◌, ◌≤◌, true, false, [], ◌∷◌, none, some, ◌≡◌, ◌↔◌, ◌⊎◌, refl, any,
}
use dpor_concurrency_model_c.Common.Order.{name_ord, nat_ord, pair_ord, bytes_ord}
use dpor_concurrency_model_c.Common.Result.{ok, throw, Exception}
use dpor_concurrency_model_c.Clock.{happens_before_or_equal, join}
use dpor_concurrency_model_c.Clock.Laws.{happens_before_iff, join_least, ◌⊑◌}
use dpor_concurrency_model_c.Action.{Schedule, step_eq}
use dpor_concurrency_model_c.Action.Pairs.{
  may_conflict, independent, is_memory_action, is_write_like,
}
use dpor_concurrency_model_c.Action.Symmetry.{independent_comm, conflict_dependent}
use dpor_concurrency_model_c.State.{MemoryModel, thread_count}
use dpor_concurrency_model_c.State.Threads.{initial_state, normalized, is_label_action}
use dpor_concurrency_model_c.State.Labels.{normalized-first_action}
use dpor_concurrency_model_c.Enabled.Steps.{enabled_steps, source_step}
use dpor_concurrency_model_c.Enabled.Membership.{enabled_steps_iff, Offers}
use dpor_concurrency_model_c.Minimize.Identity.{BugIdentitySet}
use dpor_concurrency_model_c.Minimize.Defs.{minimize_schedule_for_identities}
use dpor_concurrency_model_c.Minimize.Termination.{
  IsMinimized, Rethrown, minimize_schedule-IsMinimized,
}
use dpor_concurrency_model_c.Replay.{replay_schedule}
use dpor_concurrency_model_c.Construct.{construct}
use dpor_concurrency_model_c.Construct.Kinds.{ObjectsApart, construct-ObjectsApart}
use dpor_concurrency_model_c.Tests.Programs.{racy, racy_schedule, looping, store, load, locked}

happens_before_iff_example :
    (happens_before_or_equal ((0, 1) ∷ (2, 3) ∷ []) ((0, 1) ∷ (1, 7) ∷ (2, 4) ∷ []) ≡ true)
    ↔ ◌⊑◌ ((0, 1) ∷ (2, 3) ∷ []) ((0, 1) ∷ (1, 7) ∷ (2, 4) ∷ [])
happens_before_iff_example =
    happens_before_iff ((0, 1) ∷ (2, 3) ∷ []) ((0, 1) ∷ (1, 7) ∷ (2, 4) ∷ []) ((refl, tt), (tt, tt))

join_least_example :
    (happens_before_or_equal (join ((0, 1) ∷ []) ((0, 2) ∷ (1, 7) ∷ [])) ((0, 2) ∷ (1, 8) ∷ [])
      ≡ true)
    ↔ ((happens_before_or_equal ((0, 1) ∷ []) ((0, 2) ∷ (1, 8) ∷ []) ≡ true)
        × (happens_before_or_equal ((0, 2) ∷ (1, 7) ∷ []) ((0, 2) ∷ (1, 8) ∷ []) ≡ true))
join_least_example =
    join_least ((0, 1) ∷ []) ((0, 2) ∷ (1, 7) ∷ []) ((0, 2) ∷ (1, 8) ∷ []) (tt, tt)
      ((refl, tt), (tt, tt))

independent_comm_example :
    independent (store "x" 1) (load "x") ≡ independent (load "x") (store "x" 1)
independent_comm_example = independent_comm (store "x" 1) (load "x")

conflict_dependent_example : independent (store "x" 1) (load "x") ≡ false
unfolding may_conflict is_memory_action is_write_like
conflict_dependent_example = conflict_dependent (store "x" 1) (load "x") refl

normalized-first_action_example :
    (1 ≤ normalized looping 0 1)
    × (is_label_action looping 0 (normalized looping 0 1) ≡ false)
    × ((i : ℕ) → 1 ≤ i → i < normalized looping 0 1 → is_label_action looping 0 i ≡ true)
normalized-first_action_example = normalized-first_action looping 0 1

enabled_steps_iff_example :
    (any (step_eq (source_step 1 0)) (enabled_steps racy (initial_state racy MemoryModel.sc))
      ≡ true)
    ↔ ((tid : ℕ) × (tid < thread_count racy)
        × Offers racy (initial_state racy MemoryModel.sc) (source_step 1 0) tid)
enabled_steps_iff_example =
    enabled_steps_iff racy (initial_state racy MemoryModel.sc) (source_step 1 0)

-- The bug that the race schedule shows.
abbrev racy_target : BugIdentitySet
racy_target = record {
  race = some (record { address = "x"; first = source_step 0 0; second = source_step 1 1 });
  deadlock = none;
  error = none;
  assertion = none;
}

minimize_schedule-IsMinimized_example :
    let run = minimize_schedule_for_identities racy racy_schedule racy_target 10 MemoryModel.sc in
    let replay = λ (s : Schedule). replay_schedule racy s 10 MemoryModel.sc in
    ((result : Schedule) × (run ≡ ok result)
      × IsMinimized replay racy_target (thread_count racy) racy_schedule result)
    ⊎ ((e : Exception) × (run ≡ throw e) × Rethrown replay racy_target e)
minimize_schedule-IsMinimized_example =
    minimize_schedule-IsMinimized racy racy_schedule racy_target 10 MemoryModel.sc

abbrev step_bound_ten : ℕ
step_bound_ten = 10

construct-ObjectsApart_example :
    (construct locked step_bound_ten ≡ ok tt) ↔ ((step_bound_ten ≢ 0) × ObjectsApart locked)
construct-ObjectsApart_example = construct-ObjectsApart locked step_bound_ten
