-- ===== src/Deadlock.antt =====
-- src/model/checker.cpp: `make_deadlock_report`, the threads that a terminal state leaves blocked.
use dpor_concurrency_model_c.Common.{
  ℕ, List, [], ◌∷◌, ◌++◌, Option, none, some, String, if◌then◌else◌, not, ◌||◌, value_or, range,
}
use dpor_concurrency_model_c.Common.Order.{name_ord}
use dpor_concurrency_model_c.Common.OrdMap.{lookup}
use dpor_concurrency_model_c.Common.Result.{Result, ok, ◌>>=◌, or_out_of_range}
use dpor_concurrency_model_c.Action.{Action, ActionKind, Program}
use dpor_concurrency_model_c.State.{
  ExecutionState, RwLockState, WaitPhase, thread_count, empty_rwlock,
}
use dpor_concurrency_model_c.State.Threads.{next_action, is_finished}
use dpor_concurrency_model_c.State.Buffers.{find_rwlock, holds_rwlock_read}
use dpor_concurrency_model_c.Enabled.{join_target_is_invalid}
use dpor_concurrency_model_c.Report.{BlockedThread, BlockedOnKind, blocked_on, DeadlockReport}

blocked_on_mutex : ExecutionState → ℕ → String → BlockedThread
blocked_on_mutex s tid mutex = record (blocked_on tid BlockedOnKind.mutex) {
  mutex = mutex;
  owner = lookup mutex s.mutex_owner;
}

blocked_on_holders : Option ℕ → RwLockState → ℕ → String → BlockedThread
blocked_on_holders (some w) rwlock tid name = record (blocked_on tid BlockedOnKind.rw_lock_writer) {
  rwlock = name;
  owner = some w;
}
blocked_on_holders none rwlock tid name = record (blocked_on tid BlockedOnKind.rw_lock_readers) {
  rwlock = name;
  self_wait = holds_rwlock_read rwlock tid;
}

-- A blocked thread has an entry for its rwlock; the source asserts it.
blocked_on_rwlock : ExecutionState → ℕ → String → BlockedThread
unfolding blocked_on_holders
blocked_on_rwlock s tid name =
    let rwlock : RwLockState = value_or (find_rwlock s name) empty_rwlock in
    blocked_on_holders rwlock.writer_holder rwlock tid name

blocked_in_phase : WaitPhase → ExecutionState → ℕ → Action → List BlockedThread
unfolding blocked_on_mutex
blocked_in_phase WaitPhase.waiting s tid action =
    record (blocked_on tid BlockedOnKind.condition_variable) {
      condition = action.condition;
      mutex = action.mutex;
    }
    ∷ []
blocked_in_phase WaitPhase.woken s tid action = blocked_on_mutex s tid action.mutex ∷ []
blocked_in_phase WaitPhase.idle s tid action = []

-- The entries of one blocked thread, by the action that it stands at.
unfoldable pub blocked_by_kind :
    ActionKind → Program → ExecutionState → ℕ → Action → List BlockedThread
unfolding blocked_on_mutex blocked_on_rwlock blocked_in_phase
blocked_by_kind ActionKind.lock p s tid action = blocked_on_mutex s tid action.mutex ∷ []
blocked_by_kind ActionKind.r_lock p s tid action = blocked_on_rwlock s tid action.rwlock ∷ []
blocked_by_kind ActionKind.w_lock p s tid action = blocked_on_rwlock s tid action.rwlock ∷ []
blocked_by_kind ActionKind.upgrade p s tid action =
    record (blocked_on tid BlockedOnKind.rw_lock_upgrade) { rwlock = action.rwlock } ∷ []
blocked_by_kind ActionKind.join p s tid action =
    if join_target_is_invalid p tid action
    then []
    else record (blocked_on tid BlockedOnKind.thread) { target = some action.target } ∷ []
blocked_by_kind ActionKind.wait p s tid action = blocked_in_phase (s.wait_phase tid) s tid action
blocked_by_kind ActionKind.timed_wait p s tid action =
    blocked_in_phase (s.wait_phase tid) s tid action
blocked_by_kind ActionKind.sem_wait p s tid action =
    record (blocked_on tid BlockedOnKind.semaphore) { semaphore = action.semaphore } ∷ []
blocked_by_kind ActionKind.barrier_wait p s tid action =
    record (blocked_on tid BlockedOnKind.barrier) { barrier = action.barrier } ∷ []
blocked_by_kind _ p s tid action = []

unfoldable pub blocked_among : Program → ExecutionState → List ℕ → Result (List BlockedThread)
unfolding blocked_by_kind
blocked_among program s [] = ok []
blocked_among program s (tid ∷ tids) =
    let rest = blocked_among program s tids in
    if not (s.started tid) || is_finished program s tid
    then rest
    else (or_out_of_range (next_action program s tid) >>= λ action.
        rest >>= λ blocked. ok (blocked_by_kind action.kind program s tid action ++ blocked))

unfoldable pub make_deadlock_report : Program → ExecutionState → Result DeadlockReport
unfolding blocked_among
make_deadlock_report program s =
    blocked_among program s (range (thread_count program)) >>= λ blocked.
    ok (record { blocked_threads = blocked; schedule = s.schedule })
