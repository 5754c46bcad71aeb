-- ===== src/Step/Base.antt =====
-- src/model/checker.cpp: the prologue of `execute_enabled_step`, and what several cases share.
use dpor_concurrency_model_c.Common.{
  ℕ, ◌+◌, ◌%◌, ◌^◌, [], ◌∷◌, ◌++◌, Option, some, update, String, value_or,
}
use dpor_concurrency_model_c.Common.Order.{name_ord}
use dpor_concurrency_model_c.Common.OrdMap.{OrdMap, lookup}
use dpor_concurrency_model_c.Clock.{VectorClock}
use dpor_concurrency_model_c.Clock
use dpor_concurrency_model_c.Action.{Program, ScheduleStep}
use dpor_concurrency_model_c.State.{ExecutionState}
use dpor_concurrency_model_c.State.Threads.{advance_pc}
use dpor_concurrency_model_c.Report.{StepReport, empty_report, ModelErrorReport, RaceReport}

abbrev pub Outcome : Type 0
Outcome = ExecutionState × StepReport

-- The schedule grows, the step counter rises, and the clock of the thread ticks.
unfoldable pub begin_step : ExecutionState → ScheduleStep → ExecutionState
begin_step s step = record s {
  schedule = s.schedule ++ step ∷ [];
  thread_steps = update s.thread_steps step.thread ((s.thread_steps step.thread + 1) % 2 ^ 64);
  thread_clock =
      update s.thread_clock step.thread (Clock.tick (s.thread_clock step.thread) step.thread);
}

abbrev pub no_report : ExecutionState → Outcome
no_report s = (s, empty_report)

abbrev pub with_error : ExecutionState → ModelErrorReport → Outcome
with_error s e = (s, record empty_report { error = some e })

abbrev pub with_race : ExecutionState × Option RaceReport → Outcome
with_race (s, race) = (s, record empty_report { race = race })

-- `state.thread_clock.at(tid).join(clock)`
unfoldable pub join_clock : ExecutionState → ℕ → VectorClock → ExecutionState
join_clock s tid clock = record s {
  thread_clock = update s.thread_clock tid (Clock.join (s.thread_clock tid) clock);
}

-- `clocks[name]` as a value; the access leaves an entry behind, which is `emplace name`.
unfoldable pub clock_at : String → OrdMap String VectorClock → VectorClock
unfolding lookup
clock_at name clocks = value_or (lookup name clocks) Clock.empty

unfoldable pub exec_advance : Program → ScheduleStep → ExecutionState → Outcome
unfolding advance_pc
exec_advance program step s = no_report (advance_pc program s step.thread)
