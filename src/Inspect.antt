-- ===== src/Inspect.antt =====
-- src/model/checker.cpp: `replay_effective_trace` and `inspect_replay_schedule`, what a replay of a
-- schedule observes at each step.
pub mod Agreement
pub mod Endpoints
use dpor_concurrency_model_c.Common.{
  ℕ, suc, Bool, true, false, List, [], ◌∷◌, ◌++◌, Option, none, some, String, if◌then◌else◌, not,
  ◌&&◌, eqb, has_value, is_empty, length, list_eq, option_eq, map, range, value_or,
}
use dpor_concurrency_model_c.Common.Order.{◌==◌, name_ord}
use dpor_concurrency_model_c.Common.OrdMap.{lookup}
use dpor_concurrency_model_c.Common.Result.{
  Result, ok, throw, ◌>>=◌, or_out_of_range, invalid_schedule, text,
}
use dpor_concurrency_model_c.Clock.{VectorClock, get}
use dpor_concurrency_model_c.Action.{
  Action, ActionKind, Program, Schedule, ScheduleStep, k_register_count,
}
use dpor_concurrency_model_c.State.{
  ExecutionState, MemoryModel, StoreBufferEntry, PsoAddressBuffer, thread_count,
}
use dpor_concurrency_model_c.State.Threads.{
  initial_state, program_addresses, requires_cycle_detection,
}
use dpor_concurrency_model_c.Enabled.Steps.{enabled_steps, effective_action_for_step}
use dpor_concurrency_model_c.Report.{StepReport}
use dpor_concurrency_model_c.Fingerprint.History.{StateHistory}
use dpor_concurrency_model_c.Step.{execute_enabled_step}
use dpor_concurrency_model_c.Replay.{step_bound_reached, is_terminal, observe_if, initial_history}
use dpor_concurrency_model_c.Replay.Lasso.{validate_replay_step}
use dpor_concurrency_model_c.Dpor.{TimedWaitOccurrence, is_kind}
use dpor_concurrency_model_c.Dpor.Occurrence.{timed_wait_occurrence_for}

pub record EffectiveScheduleStep : Type 0 where
  pub endpoint : ScheduleStep
  pub effective_action : Action
  pub broadcast_waking_set : Option (List ℕ)
  pub timed_wait_occurrence : Option TimedWaitOccurrence

pub record RegisterEffect : Type 0 where
  pub thread : ℕ
  pub reg : ℕ
  pub before : ℕ
  pub after : ℕ

pub record MemoryEffect : Type 0 where
  pub address : String
  pub before : Option ℕ
  pub after : Option ℕ

pub record BufferedStoreObservation : Type 0 where
  pub address : String
  pub value : ℕ

pub record BufferEffect : Type 0 where
  pub thread : ℕ
  pub before : List BufferedStoreObservation
  pub after : List BufferedStoreObservation

pub record InspectedScheduleStep : Type 0 where
  pub endpoint : ScheduleStep
  pub effective_action : Action
  pub executed : Bool
  pub enabled_before : List ScheduleStep
  pub clock_before : List ℕ
  pub clock_after : List ℕ
  pub register_effects : List RegisterEffect
  pub memory_effects : List MemoryEffect
  pub buffer_effects : List BufferEffect
  pub broadcast_waking_set : Option (List ℕ)
  pub timed_wait_occurrence : Option TimedWaitOccurrence

unfoldable pub broadcast_waking_set_for : ExecutionState → Action → Option (List ℕ)
unfolding is_kind lookup
broadcast_waking_set_for s action =
    if is_kind action.kind ActionKind.broadcast
    then some (value_or (lookup action.condition s.condition_waiters) [])
    else none

-- An outcome that ends the replay has to be that of the last step of the schedule.
abbrev must_end {ℓ} : {A : Type ℓ} → ℕ → Schedule → String → A → Result A
must_end index [] reason value = ok value
must_end index (step ∷ rest) reason value = throw (invalid_schedule (suc index) (text reason ∷ []))

unfoldable pub dense_clock : VectorClock → ℕ → List ℕ
unfolding get
dense_clock clock threads = map (get clock) (range threads)

of_address : String → List ℕ → List BufferedStoreObservation
of_address address values = map (λ value. record { address = address; value = value }) values

of_pso_buffer : PsoAddressBuffer → List BufferedStoreObservation
unfolding of_address
of_pso_buffer [] = []
of_pso_buffer ((address, values) ∷ rest) = of_address address values ++ of_pso_buffer rest

buffer_under : MemoryModel → ExecutionState → ℕ → List BufferedStoreObservation
unfolding of_pso_buffer
buffer_under MemoryModel.tso s tid =
    map (λ (e : StoreBufferEntry). record { address = e.address; value = e.value })
      (s.store_buffers tid)
buffer_under MemoryModel.pso s tid = of_pso_buffer (s.pso_store_buffers tid)
buffer_under MemoryModel.sc s tid = []

unfoldable pub observed_buffer : ExecutionState → ℕ → List BufferedStoreObservation
unfolding buffer_under
observed_buffer s tid = buffer_under s.memory_model s tid

unfoldable pub observed_memory_value : ExecutionState → String → Option ℕ
unfolding lookup
observed_memory_value s address = some (value_or (lookup address s.memory_values) 0)

store_eq : BufferedStoreObservation → BufferedStoreObservation → Bool
store_eq l r = l.address == r.address && eqb l.value r.value

registers_changed : ExecutionState → ExecutionState → ℕ → List ℕ → List RegisterEffect
registers_changed s t tid [] = []
registers_changed s t tid (reg ∷ regs) =
    let rest = registers_changed s t tid regs in
    if eqb (s.registers tid reg) (t.registers tid reg)
    then rest
    else record {
      thread = tid;
      reg = reg;
      before = s.registers tid reg;
      after = t.registers tid reg;
    }
      ∷ rest

unfoldable pub register_effects_of : ExecutionState → ExecutionState → List ℕ → List RegisterEffect
unfolding registers_changed
register_effects_of s t [] = []
register_effects_of s t (tid ∷ tids) =
    registers_changed s t tid (range k_register_count) ++ register_effects_of s t tids

unfoldable pub buffer_effects_of : ExecutionState → ExecutionState → List ℕ → List BufferEffect
unfolding observed_buffer store_eq
buffer_effects_of s t [] = []
buffer_effects_of s t (tid ∷ tids) =
    let rest = buffer_effects_of s t tids in
    if list_eq store_eq (observed_buffer s tid) (observed_buffer t tid)
    then rest
    else record { thread = tid; before = observed_buffer s tid; after = observed_buffer t tid }
      ∷ rest

unfoldable pub memory_effects_of : ExecutionState → ExecutionState → List String → List MemoryEffect
unfolding observed_memory_value
memory_effects_of s t [] = []
memory_effects_of s t (address ∷ addresses) =
    let rest = memory_effects_of s t addresses in
    if option_eq eqb (observed_memory_value s address) (observed_memory_value t address)
    then rest
    else record {
      address = address;
      before = observed_memory_value s address;
      after = observed_memory_value t address;
    }
      ∷ rest

unfoldable pub effective_step :
    Program → ExecutionState → ScheduleStep → Result EffectiveScheduleStep
unfolding effective_action_for_step timed_wait_occurrence_for broadcast_waking_set_for
effective_step program s step =
    or_out_of_range (effective_action_for_step program s step) >>= λ action.
    timed_wait_occurrence_for s step action >>= λ timed_wait. ok (record {
      endpoint = step;
      effective_action = action;
      broadcast_waking_set = broadcast_waking_set_for s action;
      timed_wait_occurrence = timed_wait;
    })

-- How both loops go on behind a step that was run: `shown` is what they show of it, and `below` is
-- the rest of the trace.
unfoldable pub behind_step :
    {A : Type 0}
    → (ExecutionState → StateHistory → Result (List A))
    → Program
    → Bool
    → Schedule
    → ℕ
    → StateHistory
    → ExecutionState
    → StepReport
    → A
    → Result (List A)
unfolding observe_if
behind_step below program detect_cycles rest index history t report shown =
    let (cycle_start, seen) = observe_if detect_cycles program t history in
    let onward = below t seen >>= λ trace. ok (shown ∷ trace) in
    if is_terminal report
    then must_end index rest "schedule continues after a terminal execution report" (shown ∷ [])
    else if has_value cycle_start
    then must_end index rest "schedule continues after a nontermination cycle" (shown ∷ [])
    else onward

unfoldable pub effective_from :
    Program
    → ℕ
    → Bool
    → Schedule
    → ℕ
    → ExecutionState
    → StateHistory
    → Result (List EffectiveScheduleStep)
unfolding validate_replay_step step_bound_reached effective_step execute_enabled_step behind_step
effective_from program step_bound detect_cycles [] index s history = ok []
effective_from program step_bound detect_cycles (step ∷ rest) index s history =
    validate_replay_step program s step index >>= λ _.
    if step_bound_reached s step.thread step_bound
    then must_end index rest "schedule continues after a step-bound outcome" []
    else (effective_step program s step >>= λ shown.
        execute_enabled_step program s step >>= λ (t, report).
        behind_step (effective_from program step_bound detect_cycles rest (suc index)) program
          detect_cycles rest index history t report shown)

unfoldable pub replay_effective_trace :
    Program → Schedule → ℕ → MemoryModel → Result (List EffectiveScheduleStep)
unfolding initial_state initial_history requires_cycle_detection effective_from
replay_effective_trace program schedule step_bound memory_model =
    let s : ExecutionState = initial_state program memory_model in
    effective_from program step_bound (requires_cycle_detection program) schedule 0 s
      (initial_history program s)

-- What is known of a step before it is run.
unfoldable pub inspected_before :
    Program → ExecutionState → ScheduleStep → EffectiveScheduleStep → InspectedScheduleStep
unfolding enabled_steps dense_clock
inspected_before program s step effective = record {
  endpoint = step;
  effective_action = effective.effective_action;
  executed = false;
  enabled_before = enabled_steps program s;
  clock_before = dense_clock (s.thread_clock step.thread) (thread_count program);
  clock_after = dense_clock (s.thread_clock step.thread) (thread_count program);
  register_effects = [];
  memory_effects = [];
  buffer_effects = [];
  broadcast_waking_set = effective.broadcast_waking_set;
  timed_wait_occurrence = effective.timed_wait_occurrence;
}

unfoldable pub inspected_after :
    Program → ExecutionState → ExecutionState → InspectedScheduleStep → InspectedScheduleStep
unfolding dense_clock register_effects_of buffer_effects_of memory_effects_of program_addresses
inspected_after program s t inspected = record inspected {
  executed = true;
  clock_after = dense_clock (t.thread_clock inspected.endpoint.thread) (thread_count program);
  register_effects = register_effects_of s t (range (thread_count program));
  buffer_effects = buffer_effects_of s t (range (thread_count program));
  memory_effects = memory_effects_of s t (program_addresses program);
}

unfoldable pub inspect_from :
    Program
    → ℕ
    → Bool
    → Schedule
    → ℕ
    → ExecutionState
    → StateHistory
    → Result (List InspectedScheduleStep)
unfolding validate_replay_step effective_step step_bound_reached execute_enabled_step
    inspected_before inspected_after behind_step
inspect_from program step_bound detect_cycles [] index s history = ok []
inspect_from program step_bound detect_cycles (step ∷ rest) index s history =
    validate_replay_step program s step index >>= λ _.
    effective_step program s step >>= λ effective.
    let inspected : InspectedScheduleStep = inspected_before program s step effective in
    if step_bound_reached s step.thread step_bound
    then must_end index rest "schedule continues after a step-bound outcome" (inspected ∷ [])
    else (execute_enabled_step program s step >>= λ (t, report).
        behind_step (inspect_from program step_bound detect_cycles rest (suc index)) program
          detect_cycles rest index history t report (inspected_after program s t inspected))

unfoldable pub inspect_replay_schedule :
    Program → Schedule → ℕ → MemoryModel → Result (List InspectedScheduleStep)
unfolding initial_state initial_history requires_cycle_detection inspect_from
inspect_replay_schedule program schedule step_bound memory_model =
    let s : ExecutionState = initial_state program memory_model in
    inspect_from program step_bound (requires_cycle_detection program) schedule 0 s
      (initial_history program s)
