-- ===== src/Invariant/Frame.antt =====
-- src/model/checker.cpp: the parts of the state that a case of `execute_enabled_step` leaves alone.
use dpor_concurrency_model_c.Common.{Bool, true, false, ◌≡◌, arith, Bool-cases, inl, inr}
use dpor_concurrency_model_c.Common.Order.{name_ord}
use dpor_concurrency_model_c.Common.Result.{ok}
use dpor_concurrency_model_c.Action.{Action, ActionKind, Program, ScheduleStep}
use dpor_concurrency_model_c.Action.Pairs.{is_rwlock_action, is_memory_action}
use dpor_concurrency_model_c.State.{ExecutionState}
use dpor_concurrency_model_c.Report.{StepReport}
use dpor_concurrency_model_c.Step.{exec_action}
use dpor_concurrency_model_c.Step.Base.{exec_advance}
use dpor_concurrency_model_c.Step.Mutex.{exec_lock, exec_try_lock, exec_unlock}
use dpor_concurrency_model_c.Step.RwLock.{
  exec_r_lock, exec_w_lock, exec_upgrade, exec_r_unlock, exec_w_unlock, exec_downgrade,
}
use dpor_concurrency_model_c.Step.Threads.{
  exec_set, exec_branch_nonzero, exec_assert, exec_join, exec_spawn, exec_sem_post, exec_sem_wait,
}
use dpor_concurrency_model_c.Step.Wait.{exec_wait, exec_timed_wait, exec_signal}
use dpor_concurrency_model_c.Step.Barrier.{exec_barrier_wait}
use dpor_concurrency_model_c.Step.Atomic.{
  exec_atomic_load, exec_atomic_store, exec_atomic_rmw, exec_compare_exchange,
}
use dpor_concurrency_model_c.Step.Plain.{exec_read, exec_write, exec_flush}
use dpor_concurrency_model_c.Invariant.Wakes.{broadcast-Untouched, barrier-Untouched}

-- Only the operations on rwlocks touch them.
pub exec_action-rwlocks :
    (k : ActionKind) (p : Program) (step : ScheduleStep) (a : Action) (s t : ExecutionState)
    (r : StepReport)
    → is_rwlock_action k ≡ false
    → exec_action k p step a s ≡ ok (t, r)
    → t.rwlocks ≡ s.rwlocks
unfolding exec_action exec_set exec_branch_nonzero exec_assert exec_lock exec_try_lock exec_unlock
    exec_join exec_spawn exec_sem_post exec_sem_wait exec_wait exec_timed_wait exec_signal
    exec_barrier_wait exec_atomic_load exec_atomic_store exec_atomic_rmw exec_compare_exchange
    exec_read exec_write exec_flush exec_advance is_rwlock_action
exec_action-rwlocks ActionKind.broadcast p step a s t r n h =
    (broadcast-Untouched p step a s t r h).rwlocks
exec_action-rwlocks ActionKind.barrier_wait p step a s t r n h =
    (barrier-Untouched p step a s t r h).rwlocks
exec_action-rwlocks k p step a s t r n h = ground arith

unfoldable pub is_store_or_flush : ActionKind → Bool
is_store_or_flush ActionKind.write = true
is_store_or_flush ActionKind.flush = true
is_store_or_flush _ = false

sync-memory_model :
    (k : ActionKind) (p : Program) (step : ScheduleStep) (a : Action) (s t : ExecutionState)
    (r : StepReport)
    → is_memory_action k ≡ false
    → exec_action k p step a s ≡ ok (t, r)
    → t.memory_model ≡ s.memory_model
unfolding exec_action exec_set exec_branch_nonzero exec_assert exec_lock exec_try_lock exec_unlock
    exec_join exec_spawn exec_sem_post exec_sem_wait exec_wait exec_timed_wait exec_signal
    exec_advance exec_r_lock exec_w_lock exec_upgrade exec_r_unlock exec_w_unlock exec_downgrade
    is_memory_action
sync-memory_model ActionKind.broadcast p step a s t r n h =
    (broadcast-Untouched p step a s t r h).memory_model
sync-memory_model ActionKind.barrier_wait p step a s t r n h =
    (barrier-Untouched p step a s t r h).memory_model
sync-memory_model k p step a s t r n h = ground arith

module _ (p : Program) (step : ScheduleStep) (a : Action) (s t : ExecutionState)
    (r : StepReport) where
  load-memory_model : exec_atomic_load p step a s ≡ ok (t, r) → t.memory_model ≡ s.memory_model
  unfolding exec_atomic_load
  load-memory_model h = ground arith

  store-memory_model : exec_atomic_store p step a s ≡ ok (t, r) → t.memory_model ≡ s.memory_model
  unfolding exec_atomic_store
  store-memory_model h = ground arith

  rmw-memory_model : exec_atomic_rmw p step a s ≡ ok (t, r) → t.memory_model ≡ s.memory_model
  unfolding exec_atomic_rmw
  rmw-memory_model h = ground arith

  cas-memory_model : exec_compare_exchange p step a s ≡ ok (t, r) → t.memory_model ≡ s.memory_model
  unfolding exec_compare_exchange
  cas-memory_model h = ground arith

  read-memory_model : exec_read p step a s ≡ ok (t, r) → t.memory_model ≡ s.memory_model
  unfolding exec_read
  read-memory_model h = ground arith

  write-memory_model : exec_write p step a s ≡ ok (t, r) → t.memory_model ≡ s.memory_model
  unfolding exec_write
  write-memory_model h = ground arith

  flush-memory_model : exec_flush p step a s ≡ ok (t, r) → t.memory_model ≡ s.memory_model
  unfolding exec_flush
  flush-memory_model h = ground arith

memory-memory_model :
    (k : ActionKind) (p : Program) (step : ScheduleStep) (a : Action) (s t : ExecutionState)
    (r : StepReport)
    → is_memory_action k ≡ true
    → exec_action k p step a s ≡ ok (t, r)
    → t.memory_model ≡ s.memory_model
unfolding exec_action is_memory_action
memory-memory_model ActionKind.atomic_load p step a s t r n h = load-memory_model p step a s t r h
memory-memory_model ActionKind.atomic_store p step a s t r n h = store-memory_model p step a s t r h
memory-memory_model ActionKind.atomic_rmw p step a s t r n h = rmw-memory_model p step a s t r h
memory-memory_model ActionKind.compare_exchange p step a s t r n h =
    cas-memory_model p step a s t r h
memory-memory_model ActionKind.read p step a s t r n h = read-memory_model p step a s t r h
memory-memory_model ActionKind.write p step a s t r n h = write-memory_model p step a s t r h
memory-memory_model ActionKind.flush p step a s t r n h = flush-memory_model p step a s t r h
memory-memory_model k p step a s t r n h = cc

-- No step changes the memory model.
pub exec_action-memory_model :
    (k : ActionKind) (p : Program) (step : ScheduleStep) (a : Action) (s t : ExecutionState)
    (r : StepReport)
    → exec_action k p step a s ≡ ok (t, r)
    → t.memory_model ≡ s.memory_model
exec_action-memory_model k p step a s t r h = elim (Bool-cases (is_memory_action k)) [
  | inl n ↦ memory-memory_model k p step a s t r n h
  | inr n ↦ sync-memory_model k p step a s t r n h
]

sync-buffers :
    (k : ActionKind) (p : Program) (step : ScheduleStep) (a : Action) (s t : ExecutionState)
    (r : StepReport)
    → is_memory_action k ≡ false
    → exec_action k p step a s ≡ ok (t, r)
    → t.store_buffers ≡ s.store_buffers
unfolding exec_action exec_set exec_branch_nonzero exec_assert exec_lock exec_try_lock exec_unlock
    exec_join exec_spawn exec_sem_post exec_sem_wait exec_wait exec_timed_wait exec_signal
    exec_advance exec_r_lock exec_w_lock exec_upgrade exec_r_unlock exec_w_unlock exec_downgrade
    is_memory_action
sync-buffers ActionKind.broadcast p step a s t r n h =
    (broadcast-Untouched p step a s t r h).store_buffers
sync-buffers ActionKind.barrier_wait p step a s t r n h =
    (barrier-Untouched p step a s t r h).store_buffers
sync-buffers k p step a s t r n h = ground arith

atomic-buffers :
    (k : ActionKind) (p : Program) (step : ScheduleStep) (a : Action) (s t : ExecutionState)
    (r : StepReport)
    → is_memory_action k ≡ true
    → is_store_or_flush k ≡ false
    → exec_action k p step a s ≡ ok (t, r)
    → t.store_buffers ≡ s.store_buffers
unfolding exec_action exec_atomic_load exec_atomic_store exec_atomic_rmw exec_compare_exchange
    exec_read is_memory_action is_store_or_flush
atomic-buffers ActionKind.yield p step a s t r n m h = cc
atomic-buffers k p step a s t r n m h = ground arith

-- Only Write and Flush touch the TSO store buffers.
pub exec_action-store_buffers :
    (k : ActionKind) (p : Program) (step : ScheduleStep) (a : Action) (s t : ExecutionState)
    (r : StepReport)
    → is_store_or_flush k ≡ false
    → exec_action k p step a s ≡ ok (t, r)
    → t.store_buffers ≡ s.store_buffers
exec_action-store_buffers k p step a s t r m h = elim (Bool-cases (is_memory_action k)) [
  | inl n ↦ atomic-buffers k p step a s t r n m h
  | inr n ↦ sync-buffers k p step a s t r n h
]
