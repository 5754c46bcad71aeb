-- ===== src/Step/Atomic.antt =====
-- src/model/checker.cpp: AtomicLoad, AtomicStore, AtomicRmw and CompareExchange.
use dpor_concurrency_model_c.Common.{
  ℕ, ◌+◌, ◌%◌, ◌^◌, Bool, true, false, String, if◌then◌else◌, eqb,
}
use dpor_concurrency_model_c.Common.Order.{name_ord}
use dpor_concurrency_model_c.Common.OrdMap.{insert, emplace}
use dpor_concurrency_model_c.Common.Result.{Result, ok, ◌>>=◌}
use dpor_concurrency_model_c.Clock
use dpor_concurrency_model_c.Action.{Action, Program, ScheduleStep}
use dpor_concurrency_model_c.Action.Pairs.{empty_name}
use dpor_concurrency_model_c.State.{ExecutionState, MemoryAccess}
use dpor_concurrency_model_c.State.Threads.{advance_pc}
use dpor_concurrency_model_c.State.Registers.{write_register, evaluate_operand_or}
use dpor_concurrency_model_c.State.Buffers.{memory_value}
use dpor_concurrency_model_c.Report.Races.{record_atomic}
use dpor_concurrency_model_c.Step.Base.{Outcome, no_report, with_race, join_clock, clock_at}

abbrev pub atomic_access : ExecutionState → ScheduleStep → Bool → MemoryAccess
atomic_access s step is_write = record {
  clock = s.thread_clock step.thread;
  endpoint = step;
  is_atomic = true;
  is_write = is_write;
}

-- `memory_values[address]` leaves a zero cell behind.
unfoldable pub touch_value : ExecutionState → String → ExecutionState
unfolding emplace
touch_value s address = record s { memory_values = emplace address 0 s.memory_values }

-- The acquire edge of a location.
unfoldable pub acquire_location : ExecutionState → ℕ → String → ExecutionState
unfolding join_clock clock_at emplace
acquire_location s tid address =
    join_clock
      (record s { atomic_location_clock = emplace address Clock.empty s.atomic_location_clock }) tid
      (clock_at address s.atomic_location_clock)

-- A new value, and the thread's clock in place of the location's.
unfoldable pub publish : ExecutionState → ℕ → String → ℕ → ExecutionState
unfolding insert
publish s tid address value = record s {
  memory_values = insert address value s.memory_values;
  atomic_location_clock = insert address (s.thread_clock tid) s.atomic_location_clock;
}

unfoldable pub load_location : ScheduleStep → Action → ExecutionState → Result Outcome
unfolding acquire_location memory_value write_register record_atomic touch_value
load_location step action s = do
  let loaded = memory_value s action.address
  t ←
      write_register (acquire_location (touch_value s action.address) step.thread action.address)
        step.thread action.destination loaded
  ok (with_race (record_atomic t action.address (atomic_access t step false)))

unfoldable pub store_location : ScheduleStep → Action → ExecutionState → Result Outcome
unfolding publish evaluate_operand_or record_atomic
store_location step action s = do
  value ← evaluate_operand_or s step.thread action.value 0
  let t = publish s step.thread action.address value
  ok (with_race (record_atomic t action.address (atomic_access t step true)))

unfoldable pub rmw_location : ScheduleStep → Action → ExecutionState → Result Outcome
unfolding acquire_location publish memory_value evaluate_operand_or write_register record_atomic
    touch_value
rmw_location step action s = do
  let old_value = memory_value s action.address
  addend ← evaluate_operand_or s step.thread action.value 1
  t ←
      write_register (acquire_location (touch_value s action.address) step.thread action.address)
        step.thread action.destination old_value
  let u = publish t step.thread action.address ((old_value + addend) % 2 ^ 64)
  ok (with_race (record_atomic u action.address (atomic_access u step true)))

unfoldable pub cas_location : ScheduleStep → Action → ExecutionState → Result Outcome
unfolding acquire_location publish memory_value evaluate_operand_or write_register record_atomic
    touch_value
cas_location step action s = do
  let old_value = memory_value s action.address
  expected ← evaluate_operand_or s step.thread action.expected 0
  desired ← evaluate_operand_or s step.thread action.value 0
  let success = eqb old_value expected
  t ←
      write_register (acquire_location (touch_value s action.address) step.thread action.address)
        step.thread action.destination (if success then 1 else 0)
  let u = if success then publish t step.thread action.address desired else t
  ok (with_race (record_atomic u action.address (atomic_access u step success)))

-- Every case leaves the action first, and does nothing else at an empty address.
abbrev pub at_address :
    (ScheduleStep → Action → ExecutionState → Result Outcome)
    → Program
    → ScheduleStep
    → Action
    → ExecutionState
    → Result Outcome
at_address body program step action s =
    let t : ExecutionState = advance_pc program s step.thread in
    if empty_name action.address then ok (no_report t) else body step action t

unfoldable pub exec_atomic_load : Program → ScheduleStep → Action → ExecutionState → Result Outcome
unfolding load_location advance_pc
exec_atomic_load = at_address load_location

unfoldable pub exec_atomic_store : Program → ScheduleStep → Action → ExecutionState → Result Outcome
unfolding store_location advance_pc
exec_atomic_store = at_address store_location

unfoldable pub exec_atomic_rmw : Program → ScheduleStep → Action → ExecutionState → Result Outcome
unfolding rmw_location advance_pc
exec_atomic_rmw = at_address rmw_location

unfoldable pub exec_compare_exchange :
    Program → ScheduleStep → Action → ExecutionState → Result Outcome
unfolding cas_location advance_pc
exec_compare_exchange = at_address cas_location
