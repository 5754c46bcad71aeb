-- ===== src/Step/Wait.antt =====
-- src/model/checker.cpp: Wait and TimedWait in their phases, Signal and Broadcast.
use dpor_concurrency_model_c.Common.{
  ℕ, List, [], ◌∷◌, some, String, if◌then◌else◌, value_or, ltb, update,
}
use dpor_concurrency_model_c.Common.Order.{name_ord}
use dpor_concurrency_model_c.Common.OrdMap.{lookup, insert, emplace}
use dpor_concurrency_model_c.Common.Result.{Result, ok, ◌>>=◌, or_out_of_range}
use dpor_concurrency_model_c.Action.{Action, ActionKind, Program, ScheduleStep}
use dpor_concurrency_model_c.State.{ExecutionState, WaitPhase}
use dpor_concurrency_model_c.State.Threads.{advance_pc, next_action}
use dpor_concurrency_model_c.State.Registers.{write_register}
use dpor_concurrency_model_c.State.Buffers.{owns_mutex}
use dpor_concurrency_model_c.Report.Errors.{make_wait_error}
use dpor_concurrency_model_c.Step.Base.{Outcome, no_report, with_error, join_clock}
use dpor_concurrency_model_c.Step.Mutex.{acquire_mutex, release_mutex}

-- `waiters.insert(lower_bound(tid), tid)`
unfoldable pub insert_at_lower_bound : ℕ → List ℕ → List ℕ
insert_at_lower_bound tid [] = tid ∷ []
insert_at_lower_bound tid (u ∷ us) =
    if ltb u tid then u ∷ insert_at_lower_bound tid us else tid ∷ u ∷ us

-- `waiters.erase(lower_bound(tid))`
unfoldable pub erase_at_lower_bound : ℕ → List ℕ → List ℕ
erase_at_lower_bound tid [] = []
erase_at_lower_bound tid (u ∷ us) = if ltb u tid then u ∷ erase_at_lower_bound tid us else us

-- `state.condition_waiters[condition]`
unfoldable pub waiters_at : ExecutionState → String → List ℕ
unfolding lookup
waiters_at s condition = value_or (lookup condition s.condition_waiters) []

unfoldable pub set_waiters : ExecutionState → String → List ℕ → ExecutionState
unfolding insert
set_waiters s condition waiters = record s {
  condition_waiters = insert condition waiters s.condition_waiters;
}

unfoldable pub insert_waiter : ExecutionState → String → ℕ → ExecutionState
unfolding set_waiters waiters_at insert_at_lower_bound
insert_waiter s condition tid =
    set_waiters s condition (insert_at_lower_bound tid (waiters_at s condition))

unfoldable pub remove_waiter : ExecutionState → String → ℕ → ExecutionState
unfolding set_waiters waiters_at erase_at_lower_bound
remove_waiter s condition waiter =
    set_waiters s condition (erase_at_lower_bound waiter (waiters_at s condition))

unfoldable pub set_phase : ExecutionState → ℕ → WaitPhase → ExecutionState
set_phase s tid phase = record s { wait_phase = update s.wait_phase tid phase }

-- A woken TimedWait gets the result 1.
report_wake : ActionKind → ExecutionState → ℕ → Action → Result ExecutionState
unfolding write_register
report_wake ActionKind.timed_wait s waiter action =
    write_register s waiter (some (value_or action.destination 0)) 1
report_wake _ s waiter action = ok s

unfoldable pub wake_waiter : Program → ExecutionState → ℕ → ℕ → Result ExecutionState
unfolding set_phase join_clock next_action report_wake
wake_waiter program s signaler waiter = do
  action ← or_out_of_range (next_action program s waiter)
  report_wake action.kind
      (join_clock (set_phase s waiter WaitPhase.woken) waiter (s.thread_clock signaler)) waiter
      action

wake_first : Program → ExecutionState → String → ℕ → List ℕ → Result ExecutionState
unfolding set_waiters wake_waiter emplace
wake_first program s condition signaler [] =
    ok (record s { condition_waiters = emplace condition [] s.condition_waiters })
wake_first program s condition signaler (waiter ∷ rest) =
    wake_waiter program (set_waiters s condition rest) signaler waiter

unfoldable pub signal_one_waiter : Program → ExecutionState → Action → ℕ → Result ExecutionState
unfolding wake_first waiters_at
signal_one_waiter program s action signaler =
    wake_first program s action.condition signaler (waiters_at s action.condition)

unfoldable pub wake_all : Program → ExecutionState → ℕ → List ℕ → Result ExecutionState
unfolding wake_waiter
wake_all program s signaler [] = ok s
wake_all program s signaler (waiter ∷ rest) =
    wake_waiter program s signaler waiter >>= λ t. wake_all program t signaler rest

unfoldable pub broadcast_waiters : Program → ExecutionState → Action → ℕ → Result ExecutionState
unfolding wake_all waiters_at set_waiters
broadcast_waiters program s action signaler =
    wake_all program (set_waiters s action.condition []) signaler (waiters_at s action.condition)

-- The woken phase takes the mutex back and leaves the action.
unfoldable pub reacquire : Program → ScheduleStep → Action → ExecutionState → Outcome
unfolding acquire_mutex set_phase advance_pc
reacquire program step action s = no_report (
    advance_pc program
      (set_phase (acquire_mutex s step.thread action.mutex) step.thread WaitPhase.idle) step.thread)

-- The first phase releases the mutex and parks the thread, at the same program counter.
unfoldable pub park : Program → ScheduleStep → Action → ExecutionState → Outcome
unfolding owns_mutex advance_pc release_mutex insert_waiter set_phase
park program step action s =
    if owns_mutex s step.thread action.mutex
    then no_report (
        set_phase
          (insert_waiter (release_mutex s step.thread action.mutex) action.condition step.thread)
          step.thread WaitPhase.waiting)
    else (let t : ExecutionState = advance_pc program s step.thread in
        with_error t (make_wait_error action step t.schedule t))

-- The timeout of a parked TimedWait gives the result 0 and no clock.
unfoldable pub time_out : ScheduleStep → Action → ExecutionState → Result Outcome
unfolding remove_waiter set_phase write_register
time_out step action s = do
  t ←
      write_register
        (set_phase (remove_waiter s action.condition step.thread) step.thread WaitPhase.woken)
        step.thread (some (value_or action.destination 0)) 0
  ok (no_report t)

unfoldable pub wait_in_phase :
    WaitPhase → Program → ScheduleStep → Action → ExecutionState → Outcome
unfolding reacquire park
wait_in_phase WaitPhase.woken program step action s = reacquire program step action s
wait_in_phase _ program step action s = park program step action s

unfoldable pub exec_wait : Program → ScheduleStep → Action → ExecutionState → Outcome
unfolding wait_in_phase
exec_wait program step action s = wait_in_phase (s.wait_phase step.thread) program step action s

unfoldable pub timed_wait_in_phase :
    WaitPhase → Program → ScheduleStep → Action → ExecutionState → Result Outcome
unfolding reacquire park time_out
timed_wait_in_phase WaitPhase.woken program step action s = ok (reacquire program step action s)
timed_wait_in_phase WaitPhase.waiting program step action s = time_out step action s
timed_wait_in_phase WaitPhase.idle program step action s = ok (park program step action s)

unfoldable pub exec_timed_wait : Program → ScheduleStep → Action → ExecutionState → Result Outcome
unfolding timed_wait_in_phase
exec_timed_wait program step action s =
    timed_wait_in_phase (s.wait_phase step.thread) program step action s

unfoldable pub exec_signal : Program → ScheduleStep → Action → ExecutionState → Result Outcome
unfolding advance_pc signal_one_waiter
exec_signal program step action s = do
  t ← signal_one_waiter program (advance_pc program s step.thread) action step.thread
  ok (no_report t)

unfoldable pub exec_broadcast : Program → ScheduleStep → Action → ExecutionState → Result Outcome
unfolding advance_pc broadcast_waiters
exec_broadcast program step action s = do
  t ← broadcast_waiters program (advance_pc program s step.thread) action step.thread
  ok (no_report t)
