-- ===== src/Invariant/System.antt =====
-- src/model/checker.cpp: an execution is a sequence of enabled steps from the initial state, as the
-- explorers and replay make them.
use dpor_concurrency_model_c.Common.{true, ◌≡◌, any}
use dpor_concurrency_model_c.Common.Result.{ok}
use dpor_concurrency_model_c.Action.{Program, ScheduleStep, step_eq}
use dpor_concurrency_model_c.State.{ExecutionState, MemoryModel}
use dpor_concurrency_model_c.State.Threads.{initial_state}
use dpor_concurrency_model_c.Enabled.Steps.{enabled_steps}
use dpor_concurrency_model_c.Report.{StepReport}
use dpor_concurrency_model_c.Step.{execute_enabled_step}

abbrev pub IsEnabled : Program → ExecutionState → ScheduleStep → Type 0
IsEnabled program s step = any (step_eq step) (enabled_steps program s) ≡ true

pub data Step (program : Program) (s t : ExecutionState) : Type 0 where
  run :
      (step : ScheduleStep) (report : StepReport)
      → IsEnabled program s step
      → execute_enabled_step program s step ≡ ok (t, report)
      → Step program s t

pub data Reach (program : Program) (memory_model : MemoryModel) : ExecutionState → Type 0 where
  start : Reach program memory_model (initial_state program memory_model)
  next :
      {s t : ExecutionState}
      → Reach program memory_model s
      → Step program s t
      → Reach program memory_model t
