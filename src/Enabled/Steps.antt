-- ===== src/Enabled/Steps.antt =====
-- src/model/checker.cpp: the list of enabled steps, and the action that a step runs.
use dpor_concurrency_model_c.Common.{
  ℕ, suc, Bool, true, false, List, [], ◌∷◌, ◌++◌, Option, none, some, String, if◌then◌else◌, not,
  ◌&&◌, range, get_elem?,
}
use dpor_concurrency_model_c.Common.Order.{name_ord, nat_ord, name_lt}
use dpor_concurrency_model_c.Action.{
  Action, ActionKind, Program, ScheduleStep, k_flush_action_index, step_lt, default_action,
}
use dpor_concurrency_model_c.State.{
  ExecutionState, MemoryModel, PsoAddressBuffer, StoreBufferEntry, WaitPhase, thread_count,
}
use dpor_concurrency_model_c.State.Threads.{next_action}
use dpor_concurrency_model_c.State.Buffers.{has_pending_store, is_flush_step}
use dpor_concurrency_model_c.Enabled.{is_program_action_enabled}

-- std::lower_bound, as the distance from the front.
unfoldable pub lower_bound : List String → String → ℕ
unfolding name_lt
lower_bound [] address = 0
lower_bound (a ∷ rest) address = if name_lt a address then suc (lower_bound rest address) else 0

unfoldable pub pso_flush_steps : List String → ℕ → PsoAddressBuffer → List ScheduleStep
unfolding lower_bound
pso_flush_steps flush_addresses tid [] = []
pso_flush_steps flush_addresses tid ((address, values) ∷ rest) =
    record {
      thread = tid;
      action_index = k_flush_action_index;
      flush_address = some (lower_bound flush_addresses address);
    }
    ∷ pso_flush_steps flush_addresses tid rest

unfoldable pub flush_steps : MemoryModel → ExecutionState → ℕ → List ScheduleStep
unfolding pso_flush_steps
flush_steps MemoryModel.tso s tid =
    record { thread = tid; action_index = k_flush_action_index; flush_address = none } ∷ []
flush_steps _ s tid = pso_flush_steps s.flush_addresses tid (s.pso_store_buffers tid)

abbrev pub source_step : ℕ → ℕ → ScheduleStep
source_step tid index = record { thread = tid; action_index = index; flush_address = none }

unfoldable pub enabled_steps_for_thread : Program → ExecutionState → ℕ → List ScheduleStep
unfolding flush_steps
enabled_steps_for_thread program s tid =
    if not (s.started tid)
    then []
    else (if is_program_action_enabled program s tid then source_step tid (s.pc tid) ∷ [] else [])
      ++ (if has_pending_store s tid then flush_steps s.memory_model s tid else [])

unfoldable pub steps_of_threads : Program → ExecutionState → List ℕ → List ScheduleStep
unfolding enabled_steps_for_thread
steps_of_threads program s [] = []
steps_of_threads program s (tid ∷ tids) =
    enabled_steps_for_thread program s tid ++ steps_of_threads program s tids

unfoldable pub insert_sorted : ScheduleStep → List ScheduleStep → List ScheduleStep
insert_sorted x [] = x ∷ []
insert_sorted x (y ∷ ys) = if step_lt y x then y ∷ insert_sorted x ys else x ∷ y ∷ ys

-- std::sort by `operator<`.
unfoldable pub sort_steps : List ScheduleStep → List ScheduleStep
unfolding insert_sorted
sort_steps [] = []
sort_steps (x ∷ xs) = insert_sorted x (sort_steps xs)

unfoldable pub enabled_steps : Program → ExecutionState → List ScheduleStep
unfolding steps_of_threads sort_steps
enabled_steps program s = sort_steps (steps_of_threads program s (range (thread_count program)))

abbrev pub flush_action_for : String → Action
flush_action_for address = record default_action { kind = ActionKind.flush; address = address }

is_wait : ActionKind → Bool
is_wait ActionKind.wait = true
is_wait ActionKind.timed_wait = true
is_wait _ = false

is_woken : WaitPhase → Bool
is_woken WaitPhase.woken = true
is_woken _ = false

-- A woken Wait or TimedWait is the reacquisition of its mutex.
unfoldable pub effective_next_action : Program → ExecutionState → ℕ → Option Action
unfolding next_action is_wait is_woken
effective_next_action program s tid = elim (next_action program s tid) [
  | none ↦ none
  | some action ↦ some (
      if is_wait action.kind && is_woken (s.wait_phase tid)
      then record default_action { kind = ActionKind.lock; mutex = action.mutex }
      else action)
]

front_address : List StoreBufferEntry → Option String
front_address [] = none
front_address (e ∷ entries) = some e.address

-- The address that a flush step commits: the front of the TSO buffer, or the PSO address id.
flushed_address : MemoryModel → ExecutionState → ScheduleStep → Option String
unfolding front_address
flushed_address MemoryModel.tso s step = front_address (s.store_buffers step.thread)
flushed_address _ s step = elim step.flush_address [
  | none ↦ none
  | some id ↦ get_elem? s.flush_addresses id
]

unfoldable pub effective_action_for_step : Program → ExecutionState → ScheduleStep → Option Action
unfolding flushed_address effective_next_action is_flush_step
effective_action_for_step program s step =
    if is_flush_step step
    then elim (flushed_address s.memory_model s step) [
      | none ↦ none
      | some address ↦ some (flush_action_for address)
    ]
    else effective_next_action program s step.thread
