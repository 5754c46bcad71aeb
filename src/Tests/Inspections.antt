-- ===== src/Tests/Inspections.antt =====
-- The theorems on the inspection of schedules, at concrete arguments.
use dpor_concurrency_model_c.Common.{List, [], ◌≡◌, refl, length}
use dpor_concurrency_model_c.Common.Result.{Result, ok, throw}
use dpor_concurrency_model_c.State.{MemoryModel}
use dpor_concurrency_model_c.State.Buffers.{is_buffered_memory_model, has_pending_store}
use dpor_concurrency_model_c.Clock.{tick}
use dpor_concurrency_model_c.Step.Plain.{exec_write}
use dpor_concurrency_model_c.Enabled.{is_program_action_enabled}
use dpor_concurrency_model_c.Inspect.{
  InspectedScheduleStep, inspect_replay_schedule, replay_effective_trace,
}
use dpor_concurrency_model_c.Inspect.Endpoints.{Shows, inspect_replay_schedule-Shows}
use dpor_concurrency_model_c.Inspect.Agreement.{
  executed_part, inspect_replay_schedule-replay_effective_trace,
}
use dpor_concurrency_model_c.Tests.Programs.{racy, racy_schedule}

abbrev trace_of : Result (List InspectedScheduleStep) → List InspectedScheduleStep
trace_of (ok trace) = trace
trace_of (throw e) = []

-- With a step bound of one action, the last step of the schedule is shown and not run.
abbrev racy_trace : List InspectedScheduleStep
racy_trace = trace_of (inspect_replay_schedule racy racy_schedule 1 MemoryModel.sc)

racy_inspected : inspect_replay_schedule racy racy_schedule 1 MemoryModel.sc ≡ ok racy_trace
unfolding inspect_replay_schedule is_program_action_enabled is_buffered_memory_model
    has_pending_store exec_write tick
racy_inspected = refl

racy_shown : (length racy_trace ≡ 4) × (length (executed_part racy_trace) ≡ 3)
unfolding inspect_replay_schedule is_program_action_enabled is_buffered_memory_model
    has_pending_store exec_write tick
racy_shown = (refl, refl)

inspect_replay_schedule-Shows_example : Shows racy_schedule racy_trace
inspect_replay_schedule-Shows_example =
    inspect_replay_schedule-Shows racy racy_schedule 1 MemoryModel.sc racy_trace racy_inspected

inspect_replay_schedule-replay_effective_trace_example :
    replay_effective_trace racy racy_schedule 1 MemoryModel.sc ≡ ok (executed_part racy_trace)
inspect_replay_schedule-replay_effective_trace_example =
    inspect_replay_schedule-replay_effective_trace racy racy_schedule 1 MemoryModel.sc racy_trace
      racy_inspected
