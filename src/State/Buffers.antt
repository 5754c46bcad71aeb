-- ===== src/State/Buffers.antt =====
-- src/model/checker.cpp: store buffers of TSO and PSO, ownership tests, and the plain read that
-- looks into the thread's own buffer first.
use dpor_concurrency_model_c.Common.{
  ℕ, Bool, true, false, List, [], ◌∷◌, Option, none, some, String, if◌then◌else◌, not, eqb,
  value_or, is_empty,
}
use dpor_concurrency_model_c.Common.Order.{◌==◌, name_ord, nat_ord}
use dpor_concurrency_model_c.Common.OrdMap.{lookup}
use dpor_concurrency_model_c.Common.OrdSet.{contains}
use dpor_concurrency_model_c.Action.{ActionKind, ScheduleStep, k_flush_action_index}
use dpor_concurrency_model_c.State.{ExecutionState, MemoryModel, RwLockState, StoreBufferEntry}

unfoldable pub is_flush_step : ScheduleStep → Bool
is_flush_step step = eqb step.action_index k_flush_action_index

unfoldable pub is_buffered_memory_model : MemoryModel → Bool
is_buffered_memory_model MemoryModel.tso = true
is_buffered_memory_model MemoryModel.pso = true
is_buffered_memory_model MemoryModel.sc = false

pending_under : MemoryModel → ExecutionState → ℕ → Bool
pending_under MemoryModel.tso s tid = not (is_empty (s.store_buffers tid))
pending_under MemoryModel.pso s tid = not (is_empty (s.pso_store_buffers tid))
pending_under MemoryModel.sc s tid = false

unfoldable pub has_pending_store : ExecutionState → ℕ → Bool
unfolding pending_under
has_pending_store s tid = pending_under s.memory_model s tid

unfoldable pub is_buffered_ordered_point : ActionKind → Bool
is_buffered_ordered_point ActionKind.set = false
is_buffered_ordered_point ActionKind.label = false
is_buffered_ordered_point ActionKind.branch_nonzero = false
is_buffered_ordered_point ActionKind.assert = false
is_buffered_ordered_point ActionKind.read = false
is_buffered_ordered_point ActionKind.write = false
is_buffered_ordered_point ActionKind.flush = false
is_buffered_ordered_point ActionKind.yield = false
is_buffered_ordered_point _ = true

unfoldable pub owns_mutex : ExecutionState → ℕ → String → Bool
unfolding lookup
owns_mutex s tid mutex = elim (lookup mutex s.mutex_owner) [
  | none ↦ false
  | some owner ↦ eqb owner tid
]

unfoldable pub find_rwlock : ExecutionState → String → Option RwLockState
unfolding lookup
find_rwlock s name = lookup name s.rwlocks

unfoldable pub holds_rwlock_read : RwLockState → ℕ → Bool
unfolding contains
holds_rwlock_read rwlock tid = contains tid rwlock.reader_holders

unfoldable pub holds_rwlock_write : RwLockState → ℕ → Bool
holds_rwlock_write rwlock tid = elim rwlock.writer_holder [ none ↦ false | some w ↦ eqb w tid ]

-- The value of the youngest entry for an address: the list is oldest first.
unfoldable pub latest : String → List StoreBufferEntry → Option ℕ
latest address [] = none
latest address (e ∷ entries) = elim (latest address entries) [
  | some v ↦ some v
  | none ↦ if e.address == address then some e.value else none
]

unfoldable pub last : List ℕ → Option ℕ
last [] = none
last (v ∷ vs) = elim (last vs) [ none ↦ some v | some w ↦ some w ]

unfoldable pub buffered : MemoryModel → ExecutionState → ℕ → String → Option ℕ
unfolding latest last lookup
buffered MemoryModel.tso s tid address = latest address (s.store_buffers tid)
buffered MemoryModel.pso s tid address = elim (lookup address (s.pso_store_buffers tid)) [
  | none ↦ none
  | some values ↦ last values
]
buffered MemoryModel.sc s tid address = none

unfoldable pub memory_value : ExecutionState → String → ℕ
unfolding lookup
memory_value s address = value_or (lookup address s.memory_values) 0

unfoldable pub read_plain_value : ExecutionState → ℕ → String → ℕ
unfolding buffered memory_value
read_plain_value s tid address =
    value_or (buffered s.memory_model s tid address) (memory_value s address)
