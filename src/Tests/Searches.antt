-- ===== src/Tests/Searches.antt =====
-- Runs of the DPOR search.
use dpor_concurrency_model_c.Common.{ℕ, List, [], ◌∷◌, length, ◌≡◌, refl}
use dpor_concurrency_model_c.Common.Result.{Result, ok, throw}
use dpor_concurrency_model_c.Common.Order.{name_ord, nat_ord, pair_ord, bytes_ord}
use dpor_concurrency_model_c.Action.{Schedule}
use dpor_concurrency_model_c.State.{MemoryModel}
use dpor_concurrency_model_c.Action.Pairs.{
  is_thread_local_action, is_memory_action, sync_independent, is_join, is_condition_action,
  is_mutex_action, is_rwlock_action, is_semaphore_action, memory_verdict, may_conflict,
  is_write_like,
}
use dpor_concurrency_model_c.Clock.{tick}
use dpor_concurrency_model_c.Enabled.{is_program_action_enabled}
use dpor_concurrency_model_c.State.Buffers.{has_pending_store, is_buffered_memory_model}
use dpor_concurrency_model_c.Step.Plain.{exec_write}
use dpor_concurrency_model_c.Checker.{collect_dpor_schedules}
use dpor_concurrency_model_c.Explore.Collect.{collect_naive_schedules}
use dpor_concurrency_model_c.Tests.Programs.{racy}

abbrev numbers : Result (List Schedule) → List (List ℕ)
numbers (ok ss) = names ss
  where
    names : List Schedule → List (List ℕ)
    names [] = []
    names (s ∷ rest) = one s ∷ names rest
      where
        one : Schedule → List ℕ
        one [] = []
        one (x ∷ xs) = x.thread ∷ one xs
numbers (throw e) = []

-- The two writes of `x` are tried in both orders.
collect_dpor_schedules-racy :
    numbers (collect_dpor_schedules racy 10 MemoryModel.sc 100)
    ≡ (0 ∷ 1 ∷ 1 ∷ 2 ∷ []) ∷ (1 ∷ 1 ∷ 0 ∷ 2 ∷ []) ∷ (1 ∷ 0 ∷ 1 ∷ 2 ∷ []) ∷ []
unfolding collect_dpor_schedules is_program_action_enabled has_pending_store is_thread_local_action
    is_memory_action sync_independent is_join is_condition_action is_mutex_action is_rwlock_action
    is_semaphore_action exec_write memory_verdict may_conflict is_write_like tick
collect_dpor_schedules-racy = refl

-- The exhaustive exploration has all twelve orders.
collect_naive_schedules-racy :
    length (numbers (collect_naive_schedules racy 10 MemoryModel.sc 100)) ≡ 12
unfolding collect_naive_schedules is_program_action_enabled has_pending_store exec_write tick
    is_buffered_memory_model
collect_naive_schedules-racy = refl
