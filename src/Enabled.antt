-- ===== src/Enabled.antt =====
-- src/model/checker.cpp: which transitions a state enables.
pub mod Steps
pub mod Membership
pub mod Terminal
use dpor_concurrency_model_c.Common.{
  ℕ, suc, ◌+◌, Bool, true, false, List, [], ◌∷◌, Option, none, some, String, if◌then◌else◌, not,
  eqb, leb, ltb, ◌&&◌, ◌||◌, value_or, is_empty, length, any, range, has_value,
}
use dpor_concurrency_model_c.Common.Order.{◌==◌, name_ord, nat_ord, Ord}
use dpor_concurrency_model_c.Common.OrdMap.{lookup}
use dpor_concurrency_model_c.Common.OrdSet.{contains}
use dpor_concurrency_model_c.Action.{Action, ActionKind, Program}
use dpor_concurrency_model_c.State.{
  ExecutionState, MemoryModel, RwLockState, WaitPhase, BarrierState, thread_count,
}
use dpor_concurrency_model_c.State.Threads.{next_action, is_finished}
use dpor_concurrency_model_c.State.Buffers.{
  is_buffered_memory_model, has_pending_store, is_buffered_ordered_point, find_rwlock,
  holds_rwlock_read, holds_rwlock_write,
}

unfoldable pub join_target_is_invalid : Program → ℕ → Action → Bool
join_target_is_invalid program tid action =
    leb (thread_count program) action.target || eqb action.target tid

unfoldable pub spawn_target_is_invalid : Program → ℕ → Action → Bool
spawn_target_is_invalid program tid action =
    leb (thread_count program) action.target || eqb action.target tid

-- `state.mutex_owner.find(mutex) == state.mutex_owner.end()`
unfoldable pub mutex_free : ExecutionState → String → Bool
unfolding lookup
mutex_free s mutex = not (has_value (lookup mutex s.mutex_owner))

unfoldable pub r_lock_enabled : Option RwLockState → ℕ → Bool
r_lock_enabled none tid = true
r_lock_enabled (some rwlock) tid = elim rwlock.writer_holder [ none ↦ true | some w ↦ eqb w tid ]

unfoldable pub w_lock_enabled : Option RwLockState → ℕ → Bool
w_lock_enabled none tid = true
w_lock_enabled (some rwlock) tid = elim rwlock.writer_holder [
  | none ↦ is_empty rwlock.reader_holders
  | some w ↦ eqb w tid
]

unfoldable pub upgrade_enabled : Option RwLockState → ℕ → Bool
unfolding holds_rwlock_read
upgrade_enabled none tid = true
upgrade_enabled (some rwlock) tid =
    if holds_rwlock_read rwlock tid then eqb (length rwlock.reader_holders) 1 else true

unfoldable pub sem_wait_enabled : ExecutionState → String → Bool
unfolding lookup
sem_wait_enabled s name = elim (lookup name s.semaphores) [
  | none ↦ false
  | some semaphore ↦ ltb 0 semaphore.permits
]

-- Every barrier of the program has an entry from the start.
unfoldable pub barrier_enabled : Option BarrierState → Action → ℕ → Bool
unfolding contains
barrier_enabled none action tid = true
barrier_enabled (some barrier) action tid =
    if eqb action.parties 0 || not (eqb action.parties barrier.parties)
    then true
    else not (contains tid barrier.arrivals)

unfoldable pub wait_enabled : WaitPhase → ExecutionState → Action → Bool
unfolding mutex_free
wait_enabled WaitPhase.waiting s action = false
wait_enabled WaitPhase.woken s action = mutex_free s action.mutex
wait_enabled WaitPhase.idle s action = true

unfoldable pub timed_wait_enabled : WaitPhase → ExecutionState → Action → Bool
unfolding mutex_free
timed_wait_enabled WaitPhase.waiting s action = true
timed_wait_enabled WaitPhase.woken s action = mutex_free s action.mutex
timed_wait_enabled WaitPhase.idle s action = true

-- The switch of `is_program_action_enabled`.
unfoldable pub enabled_by_kind : ActionKind → Program → ExecutionState → ℕ → Action → Bool
unfolding mutex_free r_lock_enabled w_lock_enabled upgrade_enabled sem_wait_enabled barrier_enabled
    join_target_is_invalid wait_enabled timed_wait_enabled
enabled_by_kind ActionKind.label program s tid action = false
enabled_by_kind ActionKind.flush program s tid action = false
enabled_by_kind ActionKind.lock program s tid action = mutex_free s action.mutex
enabled_by_kind ActionKind.r_lock program s tid action =
    r_lock_enabled (find_rwlock s action.rwlock) tid
enabled_by_kind ActionKind.w_lock program s tid action =
    w_lock_enabled (find_rwlock s action.rwlock) tid
enabled_by_kind ActionKind.upgrade program s tid action =
    upgrade_enabled (find_rwlock s action.rwlock) tid
enabled_by_kind ActionKind.sem_wait program s tid action = sem_wait_enabled s action.semaphore
enabled_by_kind ActionKind.barrier_wait program s tid action =
    barrier_enabled (lookup action.barrier s.barriers) action tid
enabled_by_kind ActionKind.join program s tid action =
    if join_target_is_invalid program tid action then true else is_finished program s action.target
enabled_by_kind ActionKind.wait program s tid action = wait_enabled (s.wait_phase tid) s action
enabled_by_kind ActionKind.timed_wait program s tid action =
    timed_wait_enabled (s.wait_phase tid) s action
enabled_by_kind _ program s tid action = true

unfoldable pub action_enabled : Program → ExecutionState → ℕ → Action → Bool
unfolding enabled_by_kind
action_enabled program s tid action =
    if is_buffered_memory_model s.memory_model
      && is_buffered_ordered_point action.kind
      && has_pending_store s tid
    then false
    else enabled_by_kind action.kind program s tid action

unfoldable pub is_program_action_enabled : Program → ExecutionState → ℕ → Bool
unfolding next_action action_enabled
is_program_action_enabled program s tid =
    if not (s.started tid) then false else elim (next_action program s tid) [
      | none ↦ false
      | some action ↦ action_enabled program s tid action
    ]

unfoldable pub any_enabled : Program → ExecutionState → Bool
unfolding is_program_action_enabled
any_enabled program s =
    any (λ tid. has_pending_store s tid || is_program_action_enabled program s tid)
      (range (thread_count program))
