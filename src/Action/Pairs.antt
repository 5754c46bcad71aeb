-- ===== src/Action/Pairs.antt =====
-- src/model/action.cpp: the classes of actions, `may_conflict` and `independent`.
use dpor_concurrency_model_c.Common.{
  Bool, true, false, not, ◌&&◌, ◌||◌, String, Option, none, some, value_or, if◌then◌else◌,
}
use dpor_concurrency_model_c.Common.Order.{◌==◌, name_ord}
use dpor_concurrency_model_c.Action.{Action, ActionKind}

unfoldable pub is_plain_memory_action : ActionKind → Bool
is_plain_memory_action ActionKind.read = true
is_plain_memory_action ActionKind.write = true
is_plain_memory_action ActionKind.flush = true
is_plain_memory_action _ = false

unfoldable pub is_atomic_action : ActionKind → Bool
is_atomic_action ActionKind.atomic_load = true
is_atomic_action ActionKind.atomic_store = true
is_atomic_action ActionKind.atomic_rmw = true
is_atomic_action ActionKind.compare_exchange = true
is_atomic_action _ = false

unfoldable pub is_memory_action : ActionKind → Bool
unfolding is_plain_memory_action is_atomic_action
is_memory_action k = is_plain_memory_action k || is_atomic_action k

unfoldable pub is_write_like : ActionKind → Bool
is_write_like ActionKind.write = true
is_write_like ActionKind.flush = true
is_write_like ActionKind.atomic_store = true
is_write_like ActionKind.atomic_rmw = true
is_write_like ActionKind.compare_exchange = true
is_write_like _ = false

unfoldable pub is_mutex_action : ActionKind → Bool
is_mutex_action ActionKind.lock = true
is_mutex_action ActionKind.try_lock = true
is_mutex_action ActionKind.unlock = true
is_mutex_action ActionKind.wait = true
is_mutex_action ActionKind.timed_wait = true
is_mutex_action _ = false

unfoldable pub is_rwlock_action : ActionKind → Bool
is_rwlock_action ActionKind.r_lock = true
is_rwlock_action ActionKind.r_unlock = true
is_rwlock_action ActionKind.w_lock = true
is_rwlock_action ActionKind.w_unlock = true
is_rwlock_action ActionKind.upgrade = true
is_rwlock_action ActionKind.downgrade = true
is_rwlock_action _ = false

unfoldable pub is_semaphore_action : ActionKind → Bool
is_semaphore_action ActionKind.sem_post = true
is_semaphore_action ActionKind.sem_wait = true
is_semaphore_action _ = false

unfoldable pub is_barrier_action : ActionKind → Bool
is_barrier_action ActionKind.barrier_wait = true
is_barrier_action _ = false

unfoldable pub is_condition_action : ActionKind → Bool
is_condition_action ActionKind.wait = true
is_condition_action ActionKind.timed_wait = true
is_condition_action ActionKind.signal = true
is_condition_action ActionKind.broadcast = true
is_condition_action _ = false

unfoldable pub is_thread_local_action : ActionKind → Bool
is_thread_local_action ActionKind.set = true
is_thread_local_action ActionKind.branch_nonzero = true
is_thread_local_action ActionKind.assert = true
is_thread_local_action ActionKind.label = true
is_thread_local_action ActionKind.fence = true
is_thread_local_action _ = false

-- `action.kind == ActionKind::AtomicLoad`, and the like.
unfoldable pub is_atomic_load : ActionKind → Bool
is_atomic_load ActionKind.atomic_load = true
is_atomic_load _ = false

unfoldable pub is_join : ActionKind → Bool
is_join ActionKind.join = true
is_join _ = false

unfoldable pub is_spawn : ActionKind → Bool
is_spawn ActionKind.spawn = true
is_spawn _ = false

unfoldable pub is_sem_post : ActionKind → Bool
is_sem_post ActionKind.sem_post = true
is_sem_post _ = false

-- `name.empty()`
abbrev pub empty_name : String → Bool
empty_name s = s == ""

unfoldable pub may_conflict : Action → Action → Bool
may_conflict l r =
    if not (is_memory_action l.kind) || not (is_memory_action r.kind)
    then false
    else if empty_name l.address || empty_name r.address || not (l.address == r.address)
    then false
    else if is_atomic_action l.kind && is_atomic_action r.kind
    then false
    else is_write_like l.kind || is_write_like r.kind

-- The returns of `independent` for two memory actions on one location, if it returns there.
unfoldable pub memory_verdict : Action → Action → Option Bool
memory_verdict l r =
    if is_atomic_action l.kind && is_atomic_action r.kind
    then some (is_atomic_load l.kind && is_atomic_load r.kind)
    else if is_atomic_action l.kind || is_atomic_action r.kind
    then some false
    else if may_conflict l r
    then some false
    else none

-- The tests of `independent` behind the memory part, in their order.
unfoldable pub sync_independent : Action → Action → Bool
sync_independent l r =
    if is_join l.kind || is_join r.kind
    then false
    else if is_spawn l.kind || is_spawn r.kind
    then false
    else if is_condition_action l.kind && is_condition_action r.kind && l.condition == r.condition
    then false
    else if is_mutex_action l.kind && is_mutex_action r.kind && l.mutex == r.mutex
    then false
    else if is_rwlock_action l.kind && is_rwlock_action r.kind && l.rwlock == r.rwlock
    then false
    else if is_semaphore_action l.kind && is_semaphore_action r.kind && l.semaphore == r.semaphore
    then is_sem_post l.kind && is_sem_post r.kind
    else if is_barrier_action l.kind && is_barrier_action r.kind && l.barrier == r.barrier
    then false
    else true

unfoldable pub independent : Action → Action → Bool
independent l r =
    if is_thread_local_action l.kind || is_thread_local_action r.kind
    then true
    else if is_memory_action l.kind
        && is_memory_action r.kind
        && not (empty_name l.address)
        && l.address == r.address
    then value_or (memory_verdict l r) (sync_independent l r)
    else sync_independent l r
