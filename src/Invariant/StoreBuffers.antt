-- ===== src/Invariant/StoreBuffers.antt =====
-- src/model/checker.cpp: the TSO store buffers stay empty under the other memory models.
use dpor_concurrency_model_c.Common.{
  ℕ, true, List, [], ◌∷◌, ◌≡◌, ◌≢◌, refl, sym, ◌∙◌, arith, inl, inr, Bool-cases, range,
}
use dpor_concurrency_model_c.Common.Result.{ok, >>=-eq-ok}
use dpor_concurrency_model_c.Action.{Action, ActionKind, Program, ScheduleStep}
use dpor_concurrency_model_c.State.{ExecutionState, MemoryModel, thread_count}
use dpor_concurrency_model_c.State.Threads.{
  normalize_from, normalize_pc, normalize_all_pcs, initial_state,
}
use dpor_concurrency_model_c.Report.{StepReport}
use dpor_concurrency_model_c.Step.{exec_action, executed_action, execute_enabled_step}
use dpor_concurrency_model_c.Step.Base.{begin_step}
use dpor_concurrency_model_c.Step.Plain.{
  exec_write, exec_flush, store_under, flush_under, flush_pso, flush_queue, commit,
}
use dpor_concurrency_model_c.Invariant.System.{run, Reach, start, next}
use dpor_concurrency_model_c.Invariant.Frame.{
  is_store_or_flush, exec_action-memory_model, exec_action-store_buffers,
}

write-store_buffers :
    (m : MemoryModel) (p : Program) (step : ScheduleStep) (a : Action) (s t : ExecutionState)
    (r : StepReport)
    → s.memory_model ≡ m
    → m ≢ MemoryModel.tso
    → exec_write p step a s ≡ ok (t, r)
    → t.store_buffers ≡ s.store_buffers
unfolding exec_write store_under
write-store_buffers MemoryModel.tso p step a s t r e n h = absurd (n refl)
write-store_buffers MemoryModel.sc p step a s t r e n h = ground arith
write-store_buffers MemoryModel.pso p step a s t r e n h = ground arith

flush-store_buffers :
    (m : MemoryModel) (p : Program) (step : ScheduleStep) (a : Action) (s t : ExecutionState)
    (r : StepReport)
    → s.memory_model ≡ m
    → m ≢ MemoryModel.tso
    → exec_flush p step a s ≡ ok (t, r)
    → t.store_buffers ≡ s.store_buffers
unfolding exec_flush flush_under flush_pso flush_queue commit
flush-store_buffers MemoryModel.tso p step a s t r e n h = absurd (n refl)
flush-store_buffers MemoryModel.sc p step a s t r e n h = ground arith
flush-store_buffers MemoryModel.pso p step a s t r e n h = ground arith

store-store_buffers :
    (k : ActionKind) (p : Program) (step : ScheduleStep) (a : Action) (s t : ExecutionState)
    (r : StepReport)
    → s.memory_model ≢ MemoryModel.tso
    → is_store_or_flush k ≡ true
    → exec_action k p step a s ≡ ok (t, r)
    → t.store_buffers ≡ s.store_buffers
unfolding exec_action is_store_or_flush
store-store_buffers ActionKind.write p step a s t r n k h =
    write-store_buffers s.memory_model p step a s t r refl n h
store-store_buffers ActionKind.flush p step a s t r n k h =
    flush-store_buffers s.memory_model p step a s t r refl n h
store-store_buffers k p step a s t r n y h = cc

step-store_buffers :
    (p : Program) (step : ScheduleStep) (s t : ExecutionState) (r : StepReport)
    → s.memory_model ≢ MemoryModel.tso
    → execute_enabled_step p s step ≡ ok (t, r)
    → t.store_buffers ≡ s.store_buffers
unfolding execute_enabled_step begin_step
step-store_buffers p step s t r n h =
    let (a, found, e) = >>=-eq-ok (executed_action p s step) _ h in
    elim (Bool-cases (is_store_or_flush a.kind)) [
      | inr other ↦ exec_action-store_buffers a.kind p step a (begin_step s step) t r other e
      | inl store ↦ store-store_buffers a.kind p step a (begin_step s step) t r n store e
    ]

step-memory_model :
    (p : Program) (step : ScheduleStep) (s t : ExecutionState) (r : StepReport)
    → execute_enabled_step p s step ≡ ok (t, r)
    → t.memory_model ≡ s.memory_model
unfolding execute_enabled_step begin_step
step-memory_model p step s t r h =
    let (a, found, e) = >>=-eq-ok (executed_action p s step) _ h in
    exec_action-memory_model a.kind p step a (begin_step s step) t r e

normalize_from-same :
    (p : Program) (tids : List ℕ) (s : ExecutionState)
    → ((normalize_from p tids s).memory_model ≡ s.memory_model)
      × ((normalize_from p tids s).store_buffers ≡ s.store_buffers)
unfolding normalize_from
normalize_from-same p [] s = (refl, refl)
normalize_from-same p (tid ∷ tids) s = normalize_from-same p tids (normalize_pc p s tid)

initial-same :
    (p : Program) (m : MemoryModel)
    → ((initial_state p m).memory_model ≡ m) × ((initial_state p m).store_buffers ≡ (λ _. []))
unfolding initial_state normalize_all_pcs
initial-same p m = normalize_from-same p (range (thread_count p)) _

-- In every state that an execution under SC or PSO reaches, the TSO store buffer of each thread is
-- empty, and the memory model is still the one that the execution began with.
pub Reach-store_buffers :
    (p : Program) (m : MemoryModel) (s : ExecutionState)
    → Reach p m s
    → m ≢ MemoryModel.tso
    → (s.memory_model ≡ m) × (s.store_buffers ≡ (λ _. []))
Reach-store_buffers p m s start n = initial-same p m
Reach-store_buffers p m s (next {s = u} earlier (run step report enabled ran)) n =
    let (same, buffers) = Reach-store_buffers p m u earlier n in
    (
      step-memory_model p step u s report ran ∙ same,
      step-store_buffers p step u s report (λ e. n (sym same ∙ e)) ran ∙ buffers,
    )
