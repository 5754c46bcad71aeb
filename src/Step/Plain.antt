-- ===== src/Step/Plain.antt =====
-- src/model/checker.cpp: Read, Write and Flush under the three memory models.
use dpor_concurrency_model_c.Common.{
  ℕ, Bool, true, false, List, [], ◌∷◌, ◌++◌, Option, none, some, String, value_or, update,
  get_elem?,
}
use dpor_concurrency_model_c.Common.Order.{name_ord}
use dpor_concurrency_model_c.Common.OrdMap.{lookup, insert, erase}
use dpor_concurrency_model_c.Common.Result.{Result, ok, ◌>>=◌, or_out_of_range}
use dpor_concurrency_model_c.Action.{Action, Program, ScheduleStep}
use dpor_concurrency_model_c.State.{
  ExecutionState, MemoryModel, MemoryAccess, StoreBufferEntry, PsoAddressBuffer,
}
use dpor_concurrency_model_c.State.Threads.{advance_pc}
use dpor_concurrency_model_c.State.Registers.{write_register, evaluate_operand_or}
use dpor_concurrency_model_c.State.Buffers.{read_plain_value}
use dpor_concurrency_model_c.Report.Races.{record_read, record_write}
use dpor_concurrency_model_c.Step.Base.{Outcome, no_report, with_race}
use dpor_concurrency_model_c.Step.Atomic.{at_address}

abbrev pub plain_access : ExecutionState → ScheduleStep → Bool → MemoryAccess
plain_access s step is_write = record {
  clock = s.thread_clock step.thread;
  endpoint = step;
  is_atomic = false;
  is_write = is_write;
}

unfoldable pub read_cell : ScheduleStep → Action → ExecutionState → Result Outcome
unfolding write_register record_read
read_cell step action s = do
  t ←
      write_register s step.thread action.destination
        (read_plain_value s step.thread action.address)
  ok (with_race (record_read t action.address (plain_access t step false)))

unfoldable pub exec_read : Program → ScheduleStep → Action → ExecutionState → Result Outcome
unfolding read_cell advance_pc
exec_read = at_address read_cell

-- A store reaches the shared cell, with its race check.
unfoldable pub commit : ExecutionState → ScheduleStep → String → ℕ → Outcome
unfolding record_write insert
commit s step address value =
    let t : ExecutionState = record s { memory_values = insert address value s.memory_values } in
    with_race (record_write t address (plain_access t step true))

unfoldable pub push_pso : PsoAddressBuffer → String → ℕ → PsoAddressBuffer
unfolding lookup insert
push_pso buffers address value =
    insert address (value_or (lookup address buffers) [] ++ value ∷ []) buffers

-- A store enters the thread's buffer; under SC it is visible at once.
unfoldable pub store_under : MemoryModel → ExecutionState → ScheduleStep → String → ℕ → Outcome
unfolding commit push_pso
store_under MemoryModel.tso s step address value = no_report (record s {
  store_buffers =
      update s.store_buffers step.thread
        (s.store_buffers step.thread ++ record { address = address; value = value } ∷ []);
})
store_under MemoryModel.pso s step address value = no_report (record s {
  pso_store_buffers =
      update s.pso_store_buffers step.thread
        (push_pso (s.pso_store_buffers step.thread) address value);
})
store_under MemoryModel.sc s step address value = commit s step address value

unfoldable pub write_cell : ScheduleStep → Action → ExecutionState → Result Outcome
unfolding store_under evaluate_operand_or
write_cell step action s = do
  value ← evaluate_operand_or s step.thread action.value 0
  ok (store_under s.memory_model s step action.address value)

unfoldable pub exec_write : Program → ScheduleStep → Action → ExecutionState → Result Outcome
unfolding write_cell advance_pc
exec_write = at_address write_cell

unfoldable pub flush_tso : ExecutionState → ScheduleStep → List StoreBufferEntry → Option Outcome
unfolding commit
flush_tso s step [] = none
flush_tso s step (entry ∷ rest) = some (
    commit (record s { store_buffers = update s.store_buffers step.thread rest }) step entry.address
      entry.value)

-- The queue of an address without its front; an empty queue leaves the map.
unfoldable pub pop_pso : PsoAddressBuffer → String → List ℕ → PsoAddressBuffer
unfolding insert erase
pop_pso buffers address [] = erase address buffers
pop_pso buffers address (v ∷ vs) = insert address (v ∷ vs) buffers

unfoldable pub flush_queue :
    ExecutionState → ScheduleStep → String → PsoAddressBuffer → Option (List ℕ) → Option Outcome
unfolding commit pop_pso
flush_queue s step address buffers none = none
flush_queue s step address buffers (some []) = none
flush_queue s step address buffers (some (value ∷ rest)) = some (
    commit
      (record s {
        pso_store_buffers = update s.pso_store_buffers step.thread (pop_pso buffers address rest);
      })
      step address value)

unfoldable pub flush_pso : ExecutionState → ScheduleStep → Option String → Option Outcome
unfolding flush_queue lookup
flush_pso s step none = none
flush_pso s step (some address) =
    flush_queue s step address (s.pso_store_buffers step.thread)
      (lookup address (s.pso_store_buffers step.thread))

unfoldable pub flush_under : MemoryModel → ExecutionState → ScheduleStep → Option Outcome
unfolding flush_tso flush_pso
flush_under MemoryModel.tso s step = flush_tso s step (s.store_buffers step.thread)
flush_under _ s step =
    flush_pso s step
      (elim step.flush_address [ none ↦ none | some id ↦ get_elem? s.flush_addresses id ])

unfoldable pub exec_flush : Program → ScheduleStep → Action → ExecutionState → Result Outcome
unfolding flush_under
exec_flush program step action s = or_out_of_range (flush_under s.memory_model s step)
