-- ===== src/Action.antt =====
-- include/model/action.hpp and src/model/action.cpp: actions, programs, schedule steps, and the
-- predicates on pairs of actions. A thread id, an action index and a register id are numbers; a
-- `Value` is the 64-bit pattern of an int64_t, since the program only adds values and compares
-- them for equality and with zero; std::string is String.
pub mod Pairs
pub mod Symmetry
pub mod StepOrder
use dpor_concurrency_model_c.Common.{
  ℕ, ◌-◌, ◌^◌, Bool, true, false, List, Option, none, some, ◌&&◌, ◌||◌, eqb, ltb, String,
  if◌then◌else◌,
}

abbrev pub k_register_count : ℕ
k_register_count = 8

-- std::numeric_limits<std::uint32_t>::max()
abbrev pub k_flush_action_index : ℕ
k_flush_action_index = 2 ^ 32 - 1

pub data ValueOperandKind : Type 0 where
  immediate register : ValueOperandKind

pub record ValueOperand : Type 0 where
  pub kind : ValueOperandKind
  pub immediate : ℕ
  pub reg : ℕ

pub data ActionKind : Type 0 where
  set label branch_nonzero assert read write : ActionKind
  atomic_load atomic_store atomic_rmw compare_exchange fence flush : ActionKind
  lock try_lock unlock spawn join wait signal broadcast yield : ActionKind
  r_lock r_unlock w_lock w_unlock sem_post sem_wait barrier_wait : ActionKind
  upgrade downgrade timed_wait : ActionKind

pub record Action : Type 0 where
  pub kind : ActionKind
  pub address : String
  pub mutex : String
  pub rwlock : String
  pub semaphore : String
  pub condition : String
  pub target : ℕ
  pub destination : Option ℕ
  pub source_register : Option ℕ
  pub value : Option ValueOperand
  pub expected : Option ValueOperand
  pub label : String
  pub barrier : String
  pub parties : ℕ

-- `Action action;`
abbrev pub default_action : Action
default_action = record {
  kind = ActionKind.yield;
  address = "";
  mutex = "";
  rwlock = "";
  semaphore = "";
  condition = "";
  target = 0;
  destination = none;
  source_register = none;
  value = none;
  expected = none;
  label = "";
  barrier = "";
  parties = 0;
}

pub record Program : Type 0 where
  pub threads : List (List Action)

pub record ScheduleStep : Type 0 where
  pub thread : ℕ
  pub action_index : ℕ
  pub flush_address : Option ℕ

abbrev pub Schedule : Type 0
Schedule = List ScheduleStep

abbrev address_eq : Option ℕ → Option ℕ → Bool
address_eq none none = true
address_eq (some a) (some b) = eqb a b
address_eq _ _ = false

-- std::optional orders the empty value first.
abbrev address_lt : Option ℕ → Option ℕ → Bool
address_lt none (some b) = true
address_lt (some a) (some b) = ltb a b
address_lt a none = false

-- ScheduleStep::operator==
abbrev pub step_eq : ScheduleStep → ScheduleStep → Bool
step_eq s t =
    eqb s.thread t.thread
    && eqb s.action_index t.action_index
    && address_eq s.flush_address t.flush_address

-- ScheduleStep::operator<
abbrev pub step_lt : ScheduleStep → ScheduleStep → Bool
step_lt s t =
    if eqb s.thread t.thread
    then (if eqb s.action_index t.action_index
        then address_lt s.flush_address t.flush_address
        else ltb s.action_index t.action_index)
    else ltb s.thread t.thread
