-- ===== src/Step/Barrier.antt =====
-- src/model/checker.cpp: BarrierWait.
use dpor_concurrency_model_c.Common.{
  ℕ, ◌+◌, ◌%◌, ◌^◌, List, [], ◌∷◌, String, if◌then◌else◌, not, ◌||◌, eqb, ltb, length,
}
use dpor_concurrency_model_c.Common.Order.{name_ord, nat_ord}
use dpor_concurrency_model_c.Common.OrdMap.{lookup, insert}
use dpor_concurrency_model_c.Common.OrdSet
use dpor_concurrency_model_c.Common.Result.{Result, ok, ◌>>=◌, or_out_of_range}
use dpor_concurrency_model_c.Clock.{VectorClock}
use dpor_concurrency_model_c.Clock
use dpor_concurrency_model_c.Action.{Action, Program, ScheduleStep}
use dpor_concurrency_model_c.State.{ExecutionState, BarrierState}
use dpor_concurrency_model_c.State.Threads.{advance_pc}
use dpor_concurrency_model_c.Report.Errors.{make_barrier_error}
use dpor_concurrency_model_c.Step.Base.{Outcome, no_report, with_error, join_clock}

-- The arrival of a thread, before the test whether it is the last one.
unfoldable pub arrive : BarrierState → ℕ → VectorClock → BarrierState
unfolding OrdSet.insert
arrive barrier tid clock = record barrier {
  arrivals = OrdSet.insert tid barrier.arrivals;
  arrival_releases = Clock.join barrier.arrival_releases clock;
}

-- Every participant takes the joined clock and leaves the action.
unfoldable pub release_all : Program → VectorClock → List ℕ → ExecutionState → ExecutionState
unfolding advance_pc join_clock
release_all program clock [] s = s
release_all program clock (tid ∷ tids) s =
    release_all program clock tids (advance_pc program (join_clock s tid clock) tid)

unfoldable pub next_generation : BarrierState → BarrierState
next_generation barrier = record barrier {
  arrivals = [];
  arrival_releases = Clock.empty;
  generation = (barrier.generation + 1) % 2 ^ 64;
}

unfoldable pub set_barrier : ExecutionState → String → BarrierState → ExecutionState
unfolding insert
set_barrier s name barrier = record s { barriers = insert name barrier s.barriers }

unfoldable pub exec_arrival :
    Program → ScheduleStep → Action → ExecutionState → BarrierState → Outcome
unfolding advance_pc arrive release_all next_generation set_barrier
exec_arrival program step action s barrier =
    if eqb action.parties 0 || not (eqb action.parties barrier.parties)
    then (let t : ExecutionState = advance_pc program s step.thread in
        with_error t (make_barrier_error action barrier.parties step t.schedule))
    else (let arrived : BarrierState = arrive barrier step.thread (s.thread_clock step.thread) in
        no_report (
          if ltb (length arrived.arrivals) arrived.parties
          then set_barrier s action.barrier arrived
          else set_barrier (release_all program arrived.arrival_releases arrived.arrivals s)
              action.barrier (next_generation arrived)))

unfoldable pub exec_barrier_wait : Program → ScheduleStep → Action → ExecutionState → Result Outcome
unfolding exec_arrival lookup
exec_barrier_wait program step action s = do
  barrier ← or_out_of_range (lookup action.barrier s.barriers)
  ok (exec_arrival program step action s barrier)
