-- ===== src/Step.antt =====
-- src/model/checker.cpp: `execute_enabled_step`, with one function for each case of its switch. Each
-- takes the state behind the prologue, in which the step is on the schedule and the thread's clock
-- has ticked.
pub mod Base
pub mod Mutex
pub mod RwLock
pub mod Threads
pub mod Wait
pub mod Barrier
pub mod Atomic
pub mod Plain
pub mod Forwarding
pub mod Draining
use dpor_concurrency_model_c.Common.{
  ℕ, ◌+◌, ◌%◌, ◌^◌, Bool, true, false, List, [], ◌∷◌, ◌++◌, Option, none, some, if◌then◌else◌,
  update,
}
use dpor_concurrency_model_c.Common.Result.{Result, ok, throw, logic_error, ◌>>=◌, or_out_of_range}
use dpor_concurrency_model_c.Clock
use dpor_concurrency_model_c.Action.{Action, ActionKind, Program, ScheduleStep}
use dpor_concurrency_model_c.State.{ExecutionState, thread_at}
use dpor_concurrency_model_c.State.Threads.{action_at}
use dpor_concurrency_model_c.State.Buffers.{is_flush_step}
use dpor_concurrency_model_c.Enabled.Steps.{effective_action_for_step}
use dpor_concurrency_model_c.Report.{StepReport, empty_report}
use Base.{Outcome, begin_step, exec_advance}
use Mutex.{exec_lock, exec_try_lock, exec_unlock}
use RwLock.{exec_r_lock, exec_w_lock, exec_upgrade, exec_r_unlock, exec_w_unlock, exec_downgrade}
use Threads.{
  exec_set, exec_branch_nonzero, exec_assert, exec_join, exec_spawn, exec_sem_post, exec_sem_wait,
}
use Wait.{exec_wait, exec_timed_wait, exec_signal, exec_broadcast}
use Barrier.{exec_barrier_wait}
use Atomic.{exec_atomic_load, exec_atomic_store, exec_atomic_rmw, exec_compare_exchange}
use Plain.{exec_read, exec_write, exec_flush}

-- The switch. A Label never reaches it, as program counters are kept off labels.
unfoldable pub exec_action :
    ActionKind → Program → ScheduleStep → Action → ExecutionState → Result Outcome
exec_action ActionKind.label p step a s = ok (s, empty_report)
exec_action ActionKind.set p step a s = exec_set p step a s
exec_action ActionKind.branch_nonzero p step a s = exec_branch_nonzero p step a s
exec_action ActionKind.assert p step a s = exec_assert p step a s
exec_action ActionKind.lock p step a s = ok (exec_lock p step a s)
exec_action ActionKind.try_lock p step a s = exec_try_lock p step a s
exec_action ActionKind.r_lock p step a s = ok (exec_r_lock p step a s)
exec_action ActionKind.w_lock p step a s = ok (exec_w_lock p step a s)
exec_action ActionKind.upgrade p step a s = ok (exec_upgrade p step a s)
exec_action ActionKind.join p step a s = ok (exec_join p step a s)
exec_action ActionKind.spawn p step a s = ok (exec_spawn p step a s)
exec_action ActionKind.unlock p step a s = ok (exec_unlock p step a s)
exec_action ActionKind.r_unlock p step a s = ok (exec_r_unlock p step a s)
exec_action ActionKind.w_unlock p step a s = ok (exec_w_unlock p step a s)
exec_action ActionKind.downgrade p step a s = ok (exec_downgrade p step a s)
exec_action ActionKind.sem_post p step a s = ok (exec_sem_post p step a s)
exec_action ActionKind.sem_wait p step a s = ok (exec_sem_wait p step a s)
exec_action ActionKind.barrier_wait p step a s = exec_barrier_wait p step a s
exec_action ActionKind.wait p step a s = ok (exec_wait p step a s)
exec_action ActionKind.timed_wait p step a s = exec_timed_wait p step a s
exec_action ActionKind.signal p step a s = exec_signal p step a s
exec_action ActionKind.broadcast p step a s = exec_broadcast p step a s
exec_action ActionKind.atomic_load p step a s = exec_atomic_load p step a s
exec_action ActionKind.atomic_store p step a s = exec_atomic_store p step a s
exec_action ActionKind.atomic_rmw p step a s = exec_atomic_rmw p step a s
exec_action ActionKind.compare_exchange p step a s = exec_compare_exchange p step a s
exec_action ActionKind.fence p step a s = ok (exec_advance p step s)
exec_action ActionKind.flush p step a s = exec_flush p step a s
exec_action ActionKind.read p step a s = exec_read p step a s
exec_action ActionKind.write p step a s = exec_write p step a s
exec_action ActionKind.yield p step a s = ok (exec_advance p step s)

-- The action that a step runs: the flush of a buffer entry, or the action at the step's index.
unfoldable pub executed_action : Program → ExecutionState → ScheduleStep → Result Action
unfolding effective_action_for_step
executed_action program s step =
    if is_flush_step step
    then or_out_of_range (effective_action_for_step program s step)
    else or_out_of_range (action_at (thread_at program step.thread) step.action_index)

unfoldable pub execute_enabled_step : Program → ExecutionState → ScheduleStep → Result Outcome
unfolding exec_action executed_action begin_step
execute_enabled_step program s step = do
  action ← executed_action program s step
  exec_action action.kind program step action (begin_step s step)
