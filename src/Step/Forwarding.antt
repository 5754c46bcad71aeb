-- ===== src/Step/Forwarding.antt =====
-- src/model/checker.cpp: a thread reads its own stores back, under each memory model.
use dpor_concurrency_model_c.Common.{
  ℕ, false, List, [], ◌∷◌, ◌++◌, some, String, ◌≡◌, refl, sym, ap, ◌∙◌, subst, arith, value_or,
  update,
}
use dpor_concurrency_model_c.Common.Order.{name_ord}
use dpor_concurrency_model_c.Common.OrdMap.{OrdMap, lookup, insert, lookup-insert}
use dpor_concurrency_model_c.Common.Result.{Result, ok, throw}
use dpor_concurrency_model_c.Action.{Action, Program, ScheduleStep}
use dpor_concurrency_model_c.Action.Pairs.{empty_name}
use dpor_concurrency_model_c.State.{ExecutionState, MemoryModel, StoreBufferEntry, PsoAddressBuffer}
use dpor_concurrency_model_c.State.Threads.{advance_pc}
use dpor_concurrency_model_c.State.Registers.{evaluate_operand_or}
use dpor_concurrency_model_c.State.Buffers.{latest, last, buffered, memory_value, read_plain_value}
use dpor_concurrency_model_c.Report.{StepReport}
use dpor_concurrency_model_c.Step.Base.{Outcome}
use dpor_concurrency_model_c.Step.Plain.{exec_write, write_cell, store_under, push_pso, commit}

latest-append :
    (address : String) (entries : List StoreBufferEntry) (value : ℕ)
    → latest address (entries ++ record { address = address; value = value } ∷ []) ≡ some value
unfolding latest
latest-append address [] value = ground (arith, name_ord.beq_iff address address)
latest-append address (e ∷ entries) value = rw (latest-append address entries value) refl

last-append : (vs : List ℕ) (v : ℕ) → last (vs ++ v ∷ []) ≡ some v
unfolding last
last-append [] v = refl
last-append (w ∷ vs) v = rw (last-append vs v) refl

lookup-insert-same {κ} :
    {V : Type κ} (k : String) (v : V) (m : OrdMap String V) → lookup k (insert k v m) ≡ some v
lookup-insert-same k v m = ground (arith, lookup-insert k k v m, name_ord.beq_iff k k)

update-same {ℓ} : {A : Type ℓ} (f : ℕ → A) (k : ℕ) (a : A) → update f k a k ≡ a
update-same f k a = ground arith

buffered_pso :
    (s : ExecutionState) (tid : ℕ) (address : String) (buffers : PsoAddressBuffer) (values : List ℕ)
    (value : ℕ)
    → s.pso_store_buffers tid ≡ buffers
    → lookup address buffers ≡ some values
    → last values ≡ some value
    → buffered MemoryModel.pso s tid address ≡ some value
unfolding buffered
buffered_pso s tid address buffers values value b e l = ground arith

store_under-reads :
    (m : MemoryModel) (s : ExecutionState) (step : ScheduleStep) (address : String) (value : ℕ)
    → s.memory_model ≡ m
    → read_plain_value (store_under m s step address value).0 step.thread address ≡ value
unfolding store_under read_plain_value buffered memory_value commit push_pso
store_under-reads MemoryModel.sc s step address value h =
    rw (h, lookup-insert-same address value s.memory_values) refl
store_under-reads MemoryModel.tso s step address value h =
    rw
      (
        h,
        update-same s.store_buffers step.thread _,
        latest-append address (s.store_buffers step.thread) value,
      )
      refl
store_under-reads MemoryModel.pso s step address value h =
    rw
      (
        h,
        buffered_pso (store_under MemoryModel.pso s step address value).0 step.thread address _ _
            value
            (update-same s.pso_store_buffers step.thread
              (push_pso (s.pso_store_buffers step.thread) address value))
            (lookup-insert-same address _ (s.pso_store_buffers step.thread))
            (last-append (value_or (lookup address (s.pso_store_buffers step.thread)) []) value),
      )
      refl

outcome_state : (o : Outcome) (t : ExecutionState) (r : StepReport) → ok o ≡ ok (t, r) → o.0 ≡ t
outcome_state o t r h = ap state_of h
  where
    state_of : Result Outcome → ExecutionState
    state_of (ok u) = u.0
    state_of (throw e) = t

written :
    (program : Program) (step : ScheduleStep) (action : Action) (s : ExecutionState) (value : ℕ)
    → empty_name action.address ≡ false
    → evaluate_operand_or (advance_pc program s step.thread) step.thread action.value 0 ≡ ok value
    → exec_write program step action s
      ≡ ok (store_under s.memory_model (advance_pc program s step.thread) step action.address value)
unfolding exec_write write_cell advance_pc
written program step action s value named operand = ground arith

-- A Write with an address that returns leaves a state in which its thread reads back the value of
-- its operand, whichever the memory model.
pub exec_write-read_plain_value :
    (program : Program) (step : ScheduleStep) (action : Action) (s t : ExecutionState)
    (report : StepReport) (value : ℕ)
    → empty_name action.address ≡ false
    → evaluate_operand_or (advance_pc program s step.thread) step.thread action.value 0 ≡ ok value
    → exec_write program step action s ≡ ok (t, report)
    → read_plain_value t step.thread action.address ≡ value
unfolding advance_pc
exec_write-read_plain_value program step action s t report value named operand ran =
    let u : ExecutionState = advance_pc program s step.thread in
    let same =
      outcome_state (store_under s.memory_model u step action.address value) t report
        (sym (written program step action s value named operand) ∙ ran) in
    subst (λ (v : ExecutionState). read_plain_value v step.thread action.address ≡ value) same
      (store_under-reads s.memory_model u step action.address value refl)
