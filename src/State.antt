-- ===== src/State.antt =====
-- src/model/checker.cpp: struct ExecutionState and what it is made of, and the initial state.
-- A vector indexed by thread is a function of the thread id; its size is the program's number of
-- threads, below which every id is that the interpreter uses. The asserts are not modelled: a
-- build with NDEBUG has none.
pub mod Threads
pub mod Registers
pub mod Buffers
pub mod Labels
use dpor_concurrency_model_c.Common.{
  ℕ, Bool, true, false, List, [], ◌∷◌, Option, none, some, String, length, range, value_or,
  get_elem?, if◌then◌else◌, not, ◌&&◌, ltb, any, eqb, map,
}
use dpor_concurrency_model_c.Common.Order.{◌==◌, name_ord, pair_ord, Ord}
use dpor_concurrency_model_c.Common.OrdMap.{OrdMap, emplace, insert}
use dpor_concurrency_model_c.Clock.{VectorClock}
use dpor_concurrency_model_c.Clock
use dpor_concurrency_model_c.Action.{Action, ActionKind, Program, ScheduleStep, Schedule}
use dpor_concurrency_model_c.Action.Pairs.{empty_name}

pub data MemoryModel : Type 0 where
  sc tso pso : MemoryModel

pub record MemoryAccess : Type 0 where
  pub clock : VectorClock
  pub endpoint : ScheduleStep
  pub is_atomic : Bool
  pub is_write : Bool

pub record AddressState : Type 0 where
  pub last_write : Option MemoryAccess
  pub reads_since_last_write : OrdMap (ℕ × ℕ) MemoryAccess
  pub plain_accesses : List MemoryAccess
  pub atomic_accesses : List MemoryAccess

abbrev pub empty_address_state : AddressState
empty_address_state = record {
  last_write = none;
  reads_since_last_write = [];
  plain_accesses = [];
  atomic_accesses = [];
}

pub record StoreBufferEntry : Type 0 where
  pub address : String
  pub value : ℕ

abbrev pub PsoAddressBuffer : Type 0
PsoAddressBuffer = OrdMap String (List ℕ)

pub data WaitPhase : Type 0 where
  idle waiting woken : WaitPhase

pub record RwLockState : Type 0 where
  pub reader_holders : List ℕ
  pub writer_holder : Option ℕ
  pub writer_release : VectorClock
  pub reader_releases : VectorClock

abbrev pub empty_rwlock : RwLockState
empty_rwlock = record {
  reader_holders = [];
  writer_holder = none;
  writer_release = Clock.empty;
  reader_releases = Clock.empty;
}

pub record SemaphoreState : Type 0 where
  pub permits : ℕ
  pub post_releases : VectorClock

abbrev pub empty_semaphore : SemaphoreState
empty_semaphore = record { permits = 0; post_releases = Clock.empty }

pub record BarrierState : Type 0 where
  pub generation : ℕ
  pub parties : ℕ
  pub arrivals : List ℕ
  pub arrival_releases : VectorClock

abbrev pub new_barrier : ℕ → BarrierState
new_barrier parties = record {
  generation = 0;
  parties = parties;
  arrivals = [];
  arrival_releases = Clock.empty;
}

pub record ExecutionState : Type 0 where
  pub memory_model : MemoryModel
  pub pc : ℕ → ℕ
  pub started : ℕ → Bool
  pub mutex_owner : OrdMap String ℕ
  pub mutex_clock : OrdMap String VectorClock
  pub rwlocks : OrdMap String RwLockState
  pub semaphores : OrdMap String SemaphoreState
  pub barriers : OrdMap String BarrierState
  pub condition_waiters : OrdMap String (List ℕ)
  pub thread_clock : ℕ → VectorClock
  pub registers : ℕ → ℕ → ℕ
  pub thread_steps : ℕ → ℕ
  pub wait_phase : ℕ → WaitPhase
  pub memory : OrdMap String AddressState
  pub memory_values : OrdMap String ℕ
  pub atomic_location_clock : OrdMap String VectorClock
  pub store_buffers : ℕ → List StoreBufferEntry
  pub pso_store_buffers : ℕ → PsoAddressBuffer
  pub flush_addresses : List String
  pub schedule : Schedule

abbrev pub thread_count : Program → ℕ
thread_count p = length p.threads

-- `program.threads.at(tid)`
abbrev pub thread_at : Program → ℕ → List Action
thread_at p tid = value_or (get_elem? p.threads tid) []
