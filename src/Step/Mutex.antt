-- ===== src/Step/Mutex.antt =====
-- src/model/checker.cpp: Lock, TryLock and Unlock.
use dpor_concurrency_model_c.Common.{ℕ, some, String, if◌then◌else◌, value_or}
use dpor_concurrency_model_c.Common.Order.{name_ord}
use dpor_concurrency_model_c.Common.OrdMap.{insert, erase, emplace}
use dpor_concurrency_model_c.Common.Result.{Result, ok, ◌>>=◌}
use dpor_concurrency_model_c.Clock
use dpor_concurrency_model_c.Action.{Action, Program, ScheduleStep}
use dpor_concurrency_model_c.State.{ExecutionState}
use dpor_concurrency_model_c.State.Threads.{advance_pc}
use dpor_concurrency_model_c.State.Registers.{write_register}
use dpor_concurrency_model_c.State.Buffers.{owns_mutex}
use dpor_concurrency_model_c.Enabled.{mutex_free}
use dpor_concurrency_model_c.Report.Errors.{make_unlock_error}
use dpor_concurrency_model_c.Step.Base.{Outcome, no_report, with_error, join_clock, clock_at}

-- The acquire edge: ownership, and the clock of the last release.
unfoldable pub acquire_mutex : ExecutionState → ℕ → String → ExecutionState
unfolding insert emplace join_clock clock_at
acquire_mutex s tid mutex =
    join_clock
      (record s {
        mutex_owner = insert mutex tid s.mutex_owner;
        mutex_clock = emplace mutex Clock.empty s.mutex_clock;
      })
      tid (clock_at mutex s.mutex_clock)

-- The release edge: the thread's clock is stored, and the mutex becomes free.
unfoldable pub release_mutex : ExecutionState → ℕ → String → ExecutionState
unfolding insert erase
release_mutex s tid mutex = record s {
  mutex_clock = insert mutex (s.thread_clock tid) s.mutex_clock;
  mutex_owner = erase mutex s.mutex_owner;
}

unfoldable pub exec_lock : Program → ScheduleStep → Action → ExecutionState → Outcome
unfolding acquire_mutex advance_pc
exec_lock program step action s =
    no_report (acquire_mutex (advance_pc program s step.thread) step.thread action.mutex)

unfoldable pub exec_try_lock : Program → ScheduleStep → Action → ExecutionState → Result Outcome
unfolding acquire_mutex mutex_free write_register advance_pc
exec_try_lock program step action s = do
  let success = mutex_free s action.mutex
  t ←
      write_register (advance_pc program s step.thread) step.thread
        (some (value_or action.destination 0)) (if success then 1 else 0)
  ok (no_report (if success then acquire_mutex t step.thread action.mutex else t))

unfoldable pub exec_unlock : Program → ScheduleStep → Action → ExecutionState → Outcome
unfolding release_mutex owns_mutex advance_pc
exec_unlock program step action s =
    let t : ExecutionState = advance_pc program s step.thread in
    if owns_mutex t step.thread action.mutex
    then no_report (release_mutex t step.thread action.mutex)
    else with_error t (make_unlock_error action step t.schedule t)
