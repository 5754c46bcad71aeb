-- ===== src/Dpor.antt =====
-- src/model/checker.cpp: the data of the DPOR search, its nodes and transitions. The node of the
-- source repeats parts of the state that it was made from; so does this one.
pub mod StepSet
pub mod Occurrence
pub mod Independence
pub mod Enablers
pub mod Persistent
pub mod Backtrack
pub mod Search
use dpor_concurrency_model_c.Common.{
  ℕ, Bool, true, false, List, [], Option, none, some, String, ◌&&◌, eqb, option_eq, list_eq,
}
use dpor_concurrency_model_c.Common.Order.{◌==◌, name_ord}
use dpor_concurrency_model_c.Common.OrdMap.{OrdMap}
use dpor_concurrency_model_c.Clock.{VectorClock}
use dpor_concurrency_model_c.Action.{
  Action, ActionKind, ScheduleStep, ValueOperand, ValueOperandKind, step_eq,
}
use dpor_concurrency_model_c.State.{
  RwLockState, WaitPhase, StoreBufferEntry, PsoAddressBuffer, BarrierState,
}

pub data TimedWaitTransition : Type 0 where
  park timeout : TimedWaitTransition

pub record TimedWaitOccurrence : Type 0 where
  pub transition : TimedWaitTransition
  pub episode : ℕ

pub record WaitEpisodeIdentity : Type 0 where
  pub thread : ℕ
  pub action_index : ℕ
  pub episode : ℕ

-- The shared pointer to the wake targets is the optional vector that it points to: the equality
-- of the source compares what it points to.
pub record TransitionOccurrenceIdentity : Type 0 where
  pub barrier_generation : Option ℕ
  pub wake_targets : Option (List WaitEpisodeIdentity)
  pub timed_wait_occurrence : Option TimedWaitOccurrence

-- `TransitionOccurrenceIdentity{}`
abbrev pub no_occurrence : TransitionOccurrenceIdentity
no_occurrence = record {
  barrier_generation = none;
  wake_targets = none;
  timed_wait_occurrence = none;
}

pub record EnabledTransition : Type 0 where
  pub endpoint : ScheduleStep
  pub effective_action : Action
  pub occurrence : TransitionOccurrenceIdentity

pub record DporNode : Type 0 where
  pub enabled : List ScheduleStep
  pub enabled_transitions : OrdMap ScheduleStep EnabledTransition
  pub backtrack : List ScheduleStep
  pub done : List ScheduleStep
  pub sleep : List ScheduleStep
  pub pc : ℕ → ℕ
  pub started : ℕ → Bool
  pub mutex_owner : OrdMap String ℕ
  pub rwlocks : OrdMap String RwLockState
  pub wait_phase : ℕ → WaitPhase
  pub store_buffers : ℕ → List StoreBufferEntry
  pub pso_store_buffers : ℕ → PsoAddressBuffer
  pub barriers : OrdMap String BarrierState

pub record ExecutedTransition : Type 0 where
  pub thread : ℕ
  pub effective_action : Action
  pub endpoint : ScheduleStep
  pub clock : VectorClock
  pub spawned_thread : Option ℕ
  pub occurrence : TransitionOccurrenceIdentity

-- Equality of enumerators is that of their positions.
unfoldable pub kind_number : ActionKind → ℕ
kind_number ActionKind.set = 0
kind_number ActionKind.label = 1
kind_number ActionKind.branch_nonzero = 2
kind_number ActionKind.assert = 3
kind_number ActionKind.read = 4
kind_number ActionKind.write = 5
kind_number ActionKind.atomic_load = 6
kind_number ActionKind.atomic_store = 7
kind_number ActionKind.atomic_rmw = 8
kind_number ActionKind.compare_exchange = 9
kind_number ActionKind.fence = 10
kind_number ActionKind.flush = 11
kind_number ActionKind.lock = 12
kind_number ActionKind.try_lock = 13
kind_number ActionKind.unlock = 14
kind_number ActionKind.spawn = 15
kind_number ActionKind.join = 16
kind_number ActionKind.wait = 17
kind_number ActionKind.signal = 18
kind_number ActionKind.broadcast = 19
kind_number ActionKind.yield = 20
kind_number ActionKind.r_lock = 21
kind_number ActionKind.r_unlock = 22
kind_number ActionKind.w_lock = 23
kind_number ActionKind.w_unlock = 24
kind_number ActionKind.sem_post = 25
kind_number ActionKind.sem_wait = 26
kind_number ActionKind.barrier_wait = 27
kind_number ActionKind.upgrade = 28
kind_number ActionKind.downgrade = 29
kind_number ActionKind.timed_wait = 30

unfoldable pub is_kind : ActionKind → ActionKind → Bool
unfolding kind_number
is_kind k l = eqb (kind_number k) (kind_number l)

operand_kind_eq : ValueOperandKind → ValueOperandKind → Bool
operand_kind_eq ValueOperandKind.immediate ValueOperandKind.immediate = true
operand_kind_eq ValueOperandKind.register ValueOperandKind.register = true
operand_kind_eq _ _ = false

operand_eq : ValueOperand → ValueOperand → Bool
unfolding operand_kind_eq
operand_eq l r = operand_kind_eq l.kind r.kind && eqb l.immediate r.immediate && eqb l.reg r.reg

-- Action::operator==
unfoldable pub action_eq : Action → Action → Bool
unfolding is_kind operand_eq
action_eq l r =
    is_kind l.kind r.kind
    && l.address == r.address
    && l.mutex == r.mutex
    && l.rwlock == r.rwlock
    && l.semaphore == r.semaphore
    && l.condition == r.condition
    && eqb l.target r.target
    && option_eq eqb l.destination r.destination
    && option_eq eqb l.source_register r.source_register
    && option_eq operand_eq l.value r.value
    && option_eq operand_eq l.expected r.expected
    && l.label == r.label
    && l.barrier == r.barrier
    && eqb l.parties r.parties

transition_eq : TimedWaitTransition → TimedWaitTransition → Bool
transition_eq TimedWaitTransition.park TimedWaitTransition.park = true
transition_eq TimedWaitTransition.timeout TimedWaitTransition.timeout = true
transition_eq _ _ = false

unfoldable pub timed_wait_eq : TimedWaitOccurrence → TimedWaitOccurrence → Bool
unfolding transition_eq
timed_wait_eq l r = transition_eq l.transition r.transition && eqb l.episode r.episode

unfoldable pub episode_eq : WaitEpisodeIdentity → WaitEpisodeIdentity → Bool
episode_eq l r =
    eqb l.thread r.thread && eqb l.action_index r.action_index && eqb l.episode r.episode

-- TransitionOccurrenceIdentity::operator==
unfoldable pub occurrence_eq : TransitionOccurrenceIdentity → TransitionOccurrenceIdentity → Bool
unfolding timed_wait_eq episode_eq
occurrence_eq l r =
    option_eq eqb l.barrier_generation r.barrier_generation
    && option_eq timed_wait_eq l.timed_wait_occurrence r.timed_wait_occurrence
    && option_eq (list_eq episode_eq) l.wake_targets r.wake_targets
