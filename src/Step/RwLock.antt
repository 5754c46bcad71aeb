-- ===== src/Step/RwLock.antt =====
-- src/model/checker.cpp: RLock, WLock, Upgrade, RUnlock, WUnlock and Downgrade.
use dpor_concurrency_model_c.Common.{ℕ, Bool, none, some, String, if◌then◌else◌, value_or, ◌||◌}
use dpor_concurrency_model_c.Common.Order.{name_ord, nat_ord}
use dpor_concurrency_model_c.Common.OrdMap.{insert}
use dpor_concurrency_model_c.Common.OrdSet
use dpor_concurrency_model_c.Clock
use dpor_concurrency_model_c.Action.{Action, Program, ScheduleStep}
use dpor_concurrency_model_c.State.{ExecutionState, RwLockState, empty_rwlock}
use dpor_concurrency_model_c.State.Threads.{advance_pc}
use dpor_concurrency_model_c.State.Buffers.{holds_rwlock_read, holds_rwlock_write, find_rwlock}
use dpor_concurrency_model_c.Report.Errors.{make_rwlock_mode_error, make_rwlock_reentrancy_error}
use dpor_concurrency_model_c.Step.Base.{Outcome, no_report, with_error, join_clock}

-- `state.rwlocks[name]`
unfoldable pub rwlock_at : ExecutionState → String → RwLockState
unfolding find_rwlock
rwlock_at s name = value_or (find_rwlock s name) empty_rwlock

unfoldable pub set_rwlock : ExecutionState → String → RwLockState → ExecutionState
unfolding insert
set_rwlock s name rwlock = record s { rwlocks = insert name rwlock s.rwlocks }

-- A lock that is not in the map is held by nobody.
unfoldable pub reads : ExecutionState → String → ℕ → Bool
unfolding holds_rwlock_read rwlock_at
reads s name tid = holds_rwlock_read (rwlock_at s name) tid

unfoldable pub writes : ExecutionState → String → ℕ → Bool
unfolding holds_rwlock_write rwlock_at
writes s name tid = holds_rwlock_write (rwlock_at s name) tid

-- A reader acquires the last writer release, and no reader release.
unfoldable pub read_acquire : ExecutionState → String → ℕ → RwLockState → ExecutionState
unfolding set_rwlock join_clock OrdSet.insert
read_acquire s name tid rwlock =
    join_clock
      (set_rwlock s name
        (record rwlock { reader_holders = OrdSet.insert tid rwlock.reader_holders }))
      tid rwlock.writer_release

-- A writer acquires both release clocks, and starts the next reader epoch. The readers that stay
-- are given: none are there for WLock; Upgrade takes itself out.
unfoldable pub write_acquire : ExecutionState → String → ℕ → RwLockState → ExecutionState
unfolding set_rwlock join_clock
write_acquire s name tid rwlock =
    join_clock
      (join_clock
        (set_rwlock s name
          (record rwlock { reader_releases = Clock.empty; writer_holder = some tid }))
        tid rwlock.writer_release)
      tid rwlock.reader_releases

unfoldable pub exec_r_lock : Program → ScheduleStep → Action → ExecutionState → Outcome
unfolding advance_pc reads writes read_acquire rwlock_at
exec_r_lock program step action s =
    let t : ExecutionState = advance_pc program s step.thread in
    if reads t action.rwlock step.thread || writes t action.rwlock step.thread
    then with_error t (make_rwlock_reentrancy_error action step t.schedule)
    else no_report (read_acquire t action.rwlock step.thread (rwlock_at t action.rwlock))

unfoldable pub exec_w_lock : Program → ScheduleStep → Action → ExecutionState → Outcome
unfolding advance_pc writes write_acquire rwlock_at
exec_w_lock program step action s =
    let t : ExecutionState = advance_pc program s step.thread in
    if writes t action.rwlock step.thread
    then with_error t (make_rwlock_reentrancy_error action step t.schedule)
    else no_report (write_acquire t action.rwlock step.thread (rwlock_at t action.rwlock))

unfoldable pub without_reader : RwLockState → ℕ → RwLockState
unfolding OrdSet.erase
without_reader rwlock tid = record rwlock {
  reader_holders = OrdSet.erase tid rwlock.reader_holders;
}

unfoldable pub exec_upgrade : Program → ScheduleStep → Action → ExecutionState → Outcome
unfolding advance_pc reads write_acquire rwlock_at without_reader
exec_upgrade program step action s =
    let t : ExecutionState = advance_pc program s step.thread in
    if reads t action.rwlock step.thread
    then no_report (
        write_acquire t action.rwlock step.thread
          (without_reader (rwlock_at t action.rwlock) step.thread))
    else with_error t (make_rwlock_mode_error action step t.schedule)

unfoldable pub exec_r_unlock : Program → ScheduleStep → Action → ExecutionState → Outcome
unfolding advance_pc reads rwlock_at without_reader set_rwlock
exec_r_unlock program step action s =
    let t : ExecutionState = advance_pc program s step.thread in
    let rwlock : RwLockState = rwlock_at t action.rwlock in
    if reads t action.rwlock step.thread
    then no_report (
        set_rwlock t action.rwlock (record (without_reader rwlock step.thread) {
          reader_releases = Clock.join rwlock.reader_releases (t.thread_clock step.thread);
        }))
    else with_error t (make_rwlock_mode_error action step t.schedule)

-- The release of a writer replaces the release clock.
unfoldable pub write_release : ExecutionState → ℕ → RwLockState → RwLockState
write_release s tid rwlock = record rwlock {
  writer_release = s.thread_clock tid;
  writer_holder = none;
}

unfoldable pub exec_w_unlock : Program → ScheduleStep → Action → ExecutionState → Outcome
unfolding advance_pc writes rwlock_at write_release set_rwlock
exec_w_unlock program step action s =
    let t : ExecutionState = advance_pc program s step.thread in
    if writes t action.rwlock step.thread
    then no_report
        (set_rwlock t action.rwlock (write_release t step.thread (rwlock_at t action.rwlock)))
    else with_error t (make_rwlock_mode_error action step t.schedule)

unfoldable pub exec_downgrade : Program → ScheduleStep → Action → ExecutionState → Outcome
unfolding advance_pc writes rwlock_at write_release set_rwlock OrdSet.insert
exec_downgrade program step action s =
    let t : ExecutionState = advance_pc program s step.thread in
    let rwlock : RwLockState = rwlock_at t action.rwlock in
    if writes t action.rwlock step.thread
    then no_report (
        set_rwlock t action.rwlock (record (write_release t step.thread rwlock) {
          reader_holders = OrdSet.insert step.thread rwlock.reader_holders;
        }))
    else with_error t (make_rwlock_mode_error action step t.schedule)
