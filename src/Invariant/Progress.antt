-- ===== src/Invariant/Progress.antt =====
-- src/model/checker.cpp: each step adds one to the steps of its thread, and to no other count.
use dpor_concurrency_model_c.Common.{
  ℕ, suc, zero, ◌+◌, ◌-◌, ◌%◌, ◌^◌, ◌<◌, ◌≤◌, true, false, ◌≡◌, refl, ap, ◌∙◌, arith, Bool-cases,
  inl, inr, update,
}
use dpor_concurrency_model_c.Common.Order.{name_ord}
use dpor_concurrency_model_c.Common.Result.{ok, >>=-eq-ok}
use dpor_concurrency_model_c.Action.{Action, ActionKind, Program, ScheduleStep}
use dpor_concurrency_model_c.Action.Pairs.{is_memory_action}
use dpor_concurrency_model_c.State.{ExecutionState, thread_count}
use dpor_concurrency_model_c.Report.{StepReport}
use dpor_concurrency_model_c.Step.{exec_action, executed_action, execute_enabled_step}
use dpor_concurrency_model_c.Step.Base.{exec_advance, begin_step}
use dpor_concurrency_model_c.Step.Mutex.{exec_lock, exec_try_lock, exec_unlock}
use dpor_concurrency_model_c.Step.RwLock.{
  exec_r_lock, exec_w_lock, exec_upgrade, exec_r_unlock, exec_w_unlock, exec_downgrade,
}
use dpor_concurrency_model_c.Step.Threads.{
  exec_set, exec_branch_nonzero, exec_assert, exec_join, exec_spawn, exec_sem_post, exec_sem_wait,
}
use dpor_concurrency_model_c.Step.Wait.{exec_wait, exec_timed_wait, exec_signal}
use dpor_concurrency_model_c.Step.Atomic.{
  exec_atomic_load, exec_atomic_store, exec_atomic_rmw, exec_compare_exchange,
}
use dpor_concurrency_model_c.Step.Plain.{exec_read, exec_write, exec_flush}
use dpor_concurrency_model_c.Invariant.Wakes.{broadcast-Untouched, barrier-Untouched}

sync-thread_steps :
    (k : ActionKind) (p : Program) (step : ScheduleStep) (a : Action) (s t : ExecutionState)
    (r : StepReport)
    → is_memory_action k ≡ false
    → exec_action k p step a s ≡ ok (t, r)
    → t.thread_steps ≡ s.thread_steps
unfolding exec_action exec_set exec_branch_nonzero exec_assert exec_lock exec_try_lock exec_unlock
    exec_join exec_spawn exec_sem_post exec_sem_wait exec_wait exec_timed_wait exec_signal
    exec_advance exec_r_lock exec_w_lock exec_upgrade exec_r_unlock exec_w_unlock exec_downgrade
    is_memory_action
sync-thread_steps ActionKind.broadcast p step a s t r n h =
    (broadcast-Untouched p step a s t r h).thread_steps
sync-thread_steps ActionKind.barrier_wait p step a s t r n h =
    (barrier-Untouched p step a s t r h).thread_steps
sync-thread_steps k p step a s t r n h = ground arith

module _ (p : Program) (step : ScheduleStep) (a : Action) (s t : ExecutionState)
    (r : StepReport) where
  load-thread_steps : exec_atomic_load p step a s ≡ ok (t, r) → t.thread_steps ≡ s.thread_steps
  unfolding exec_atomic_load
  load-thread_steps h = ground arith

  store-thread_steps : exec_atomic_store p step a s ≡ ok (t, r) → t.thread_steps ≡ s.thread_steps
  unfolding exec_atomic_store
  store-thread_steps h = ground arith

  rmw-thread_steps : exec_atomic_rmw p step a s ≡ ok (t, r) → t.thread_steps ≡ s.thread_steps
  unfolding exec_atomic_rmw
  rmw-thread_steps h = ground arith

  cas-thread_steps : exec_compare_exchange p step a s ≡ ok (t, r) → t.thread_steps ≡ s.thread_steps
  unfolding exec_compare_exchange
  cas-thread_steps h = ground arith

  read-thread_steps : exec_read p step a s ≡ ok (t, r) → t.thread_steps ≡ s.thread_steps
  unfolding exec_read
  read-thread_steps h = ground arith

  write-thread_steps : exec_write p step a s ≡ ok (t, r) → t.thread_steps ≡ s.thread_steps
  unfolding exec_write
  write-thread_steps h = ground arith

  flush-thread_steps : exec_flush p step a s ≡ ok (t, r) → t.thread_steps ≡ s.thread_steps
  unfolding exec_flush
  flush-thread_steps h = ground arith

memory-thread_steps :
    (k : ActionKind) (p : Program) (step : ScheduleStep) (a : Action) (s t : ExecutionState)
    (r : StepReport)
    → is_memory_action k ≡ true
    → exec_action k p step a s ≡ ok (t, r)
    → t.thread_steps ≡ s.thread_steps
unfolding exec_action is_memory_action
memory-thread_steps ActionKind.atomic_load p step a s t r n h = load-thread_steps p step a s t r h
memory-thread_steps ActionKind.atomic_store p step a s t r n h = store-thread_steps p step a s t r h
memory-thread_steps ActionKind.atomic_rmw p step a s t r n h = rmw-thread_steps p step a s t r h
memory-thread_steps ActionKind.compare_exchange p step a s t r n h =
    cas-thread_steps p step a s t r h
memory-thread_steps ActionKind.read p step a s t r n h = read-thread_steps p step a s t r h
memory-thread_steps ActionKind.write p step a s t r n h = write-thread_steps p step a s t r h
memory-thread_steps ActionKind.flush p step a s t r n h = flush-thread_steps p step a s t r h
memory-thread_steps k p step a s t r n h = cc

-- Only the beginning of a step counts it.
pub exec_action-thread_steps :
    (k : ActionKind) (p : Program) (step : ScheduleStep) (a : Action) (s t : ExecutionState)
    (r : StepReport)
    → exec_action k p step a s ≡ ok (t, r)
    → t.thread_steps ≡ s.thread_steps
exec_action-thread_steps k p step a s t r h = elim (Bool-cases (is_memory_action k)) [
  | inl n ↦ memory-thread_steps k p step a s t r n h
  | inr n ↦ sync-thread_steps k p step a s t r n h
]

execute_enabled_step-thread_steps :
    (p : Program) (s t : ExecutionState) (step : ScheduleStep) (r : StepReport)
    → execute_enabled_step p s step ≡ ok (t, r)
    → t.thread_steps ≡ update s.thread_steps step.thread ((s.thread_steps step.thread + 1) % 2 ^ 64)
unfolding execute_enabled_step begin_step
execute_enabled_step-thread_steps p s t step r h =
    let (a, e, f) = >>=-eq-ok (executed_action p s step) _ h in
    exec_action-thread_steps a.kind p step a (begin_step s step) t r f

-- The steps that a bound leaves to the threads from `start` on.
abbrev pub steps_left : (ℕ → ℕ) → ℕ → ℕ → ℕ → ℕ
steps_left steps bound start zero = 0
steps_left steps bound start (suc n) = (bound - steps start) + steps_left steps bound (suc start) n

steps_left-update_past :
    (steps : ℕ → ℕ) (bound start n tid more : ℕ)
    → tid < start
    → steps_left (update steps tid more) bound start n ≡ steps_left steps bound start n
steps_left-update_past steps bound start zero tid more h = refl
steps_left-update_past steps bound start (suc n) tid more h =
    ground (arith, h, steps_left-update_past steps bound (suc start) n tid more)

-- One step more of a thread is one step less that is left.
steps_left-update :
    (steps : ℕ → ℕ) (bound start n tid : ℕ)
    → start ≤ tid
    → tid < start + n
    → steps tid < bound
    → suc (steps_left (update steps tid (steps tid + 1)) bound start n)
      ≡ steps_left steps bound start n
steps_left-update steps bound start zero tid low high room = omega (arith, low, high)
steps_left-update steps bound start (suc n) tid low high room = grind (
  arith,
  steps_left-update_past steps bound (suc start) n tid (steps tid + 1),
  steps_left-update steps bound (suc start) n tid,
)

-- A step that stays within the bound of a 64-bit counter uses up one of the steps left.
pub execute_enabled_step-steps_left :
    (p : Program) (s t : ExecutionState) (step : ScheduleStep) (r : StepReport) (bound : ℕ)
    → execute_enabled_step p s step ≡ ok (t, r)
    → step.thread < thread_count p
    → s.thread_steps step.thread < bound
    → bound < 2 ^ 64
    → suc (steps_left t.thread_steps bound 0 (thread_count p))
      ≡ steps_left s.thread_steps bound 0 (thread_count p)
execute_enabled_step-steps_left p s t step r bound h inside room small =
    ap (λ steps. suc (steps_left steps bound 0 (thread_count p)))
      (execute_enabled_step-thread_steps p s t step r h
        ∙ ap (update s.thread_steps step.thread) (omega (arith, room, small)))
    ∙ steps_left-update s.thread_steps bound 0 (thread_count p) step.thread (omega arith)
        (omega (arith, inside)) room
