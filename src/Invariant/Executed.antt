-- ===== src/Invariant/Executed.antt =====
-- src/model/checker.cpp: the action that an enabled step runs.
use dpor_concurrency_model_c.Common.{
  ℕ, true, false, List, [], ◌∷◌, String, ◌≡◌, sym, subst, arith, inl, inr, any, Bool-cases,
}
use dpor_concurrency_model_c.Common.Result.{ok}
use dpor_concurrency_model_c.Action.{Action, ActionKind, Program, ScheduleStep, step_eq}
use dpor_concurrency_model_c.State.{ExecutionState, MemoryModel, PsoAddressBuffer}
use dpor_concurrency_model_c.State.Threads.{next_action}
use dpor_concurrency_model_c.State.Buffers.{is_flush_step}
use dpor_concurrency_model_c.Enabled.{enabled_by_kind, is_program_action_enabled, action_enabled}
use dpor_concurrency_model_c.Enabled.Steps.{
  pso_flush_steps, flush_steps, effective_action_for_step, source_step,
}
use dpor_concurrency_model_c.Enabled.Membership.{enabled_steps_iff}
use dpor_concurrency_model_c.Step.{executed_action}
use dpor_concurrency_model_c.Invariant.System.{IsEnabled}

-- A step runs a flush, or the action at the program counter of its thread, which is enabled.
pub data Runs (program : Program) (s : ExecutionState) (step : ScheduleStep) (a : Action)
    : Type 0 where
  flushes : a.kind ≡ ActionKind.flush → Runs program s step a
  acts : enabled_by_kind a.kind program s step.thread a ≡ true → Runs program s step a

pso_flush_steps-flush :
    (names : List String) (tid : ℕ) (b : PsoAddressBuffer) (step : ScheduleStep)
    → any (step_eq step) (pso_flush_steps names tid b) ≡ true
    → is_flush_step step ≡ true
unfolding pso_flush_steps is_flush_step
pso_flush_steps-flush names tid [] step h = cc
pso_flush_steps-flush names tid ((k, v) ∷ b) step h =
    ground (arith, pso_flush_steps-flush names tid b step)

flush_steps-flush :
    (m : MemoryModel) (s : ExecutionState) (tid : ℕ) (step : ScheduleStep)
    → any (step_eq step) (flush_steps m s tid) ≡ true
    → is_flush_step step ≡ true
unfolding flush_steps is_flush_step
flush_steps-flush MemoryModel.tso s tid step h = ground arith
flush_steps-flush MemoryModel.sc s tid step h =
    pso_flush_steps-flush s.flush_addresses tid (s.pso_store_buffers tid) step h
flush_steps-flush MemoryModel.pso s tid step h =
    pso_flush_steps-flush s.flush_addresses tid (s.pso_store_buffers tid) step h

flush-runs :
    (program : Program) (s : ExecutionState) (step : ScheduleStep) (a : Action)
    → is_flush_step step ≡ true
    → executed_action program s step ≡ ok a
    → a.kind ≡ ActionKind.flush
unfolding executed_action effective_action_for_step
flush-runs program s step a f h = ground arith

source-runs :
    (program : Program) (s : ExecutionState) (tid : ℕ) (a : Action)
    → is_flush_step (source_step tid (s.pc tid)) ≡ false
    → is_program_action_enabled program s tid ≡ true
    → executed_action program s (source_step tid (s.pc tid)) ≡ ok a
    → enabled_by_kind a.kind program s tid a ≡ true
unfolding executed_action is_program_action_enabled next_action action_enabled
source-runs program s tid a f e h = ground arith

pub executed-Runs :
    (program : Program) (s : ExecutionState) (step : ScheduleStep) (a : Action)
    → IsEnabled program s step
    → executed_action program s step ≡ ok a
    → Runs program s step a
executed-Runs program s step a enabled h = elim (Bool-cases (is_flush_step step)) [
  | inl f ↦ flushes (flush-runs program s step a f h)
  | inr f ↦
      let (tid, lt, offer) = (enabled_steps_iff program s step).0 enabled in
      elim (offer.1) [
        | inr (pending, listed) ↦ cc (flush_steps-flush s.memory_model s tid step listed)
        | inl (on, same) ↦ acts (
            subst (λ (u : ScheduleStep). enabled_by_kind a.kind program s u.thread a ≡ true)
              (sym same)
              (source-runs program s tid a
                (subst (λ (u : ScheduleStep). is_flush_step u ≡ false) same f) on
                (subst (λ (u : ScheduleStep). executed_action program s u ≡ ok a) same h)))
      ]
]
