-- ===== src/Invariant/Fuel.antt =====
-- src/model/checker.cpp: the interpreter and the makers of reports run no loop on fuel.
use dpor_concurrency_model_c.Common.{
  ℕ, suc, leb, if◌then◌else◌, List, [], ◌∷◌, Option, none, some, String, if-rule, not, ◌||◌,
  has_value, range, subst, ◌≢◌, Bool, true, false, ◌≡◌, arith, Bool-cases, inl, inr,
}
use dpor_concurrency_model_c.Common.Order.{name_ord, bytes_ord, ◌==◌}
use dpor_concurrency_model_c.Common.Result.{
  ok, throw, Result, Finishes, Message, Finishes->>=, Finishes-from, logic_error,
  Finishes-or_out_of_range, or_out_of_range, out_of_fuel, text, number, ◌>>=◌,
}
use dpor_concurrency_model_c.Common.OrdMap.{lookup}
use dpor_concurrency_model_c.Action.StepOrder.{step_ord}
use dpor_concurrency_model_c.Dpor.Occurrence.{enabled_transitions}
use dpor_concurrency_model_c.Dpor.Occurrence.Ends.{enabled_transitions-Finishes}
use dpor_concurrency_model_c.Action.{Action, ActionKind, Program, Schedule, ScheduleStep}
use dpor_concurrency_model_c.Action.Pairs.{is_memory_action}
use dpor_concurrency_model_c.State.{ExecutionState}
use dpor_concurrency_model_c.Step.{exec_action, executed_action, execute_enabled_step}
use dpor_concurrency_model_c.Step.Base.{exec_advance, begin_step}
use dpor_concurrency_model_c.Step.Mutex.{exec_lock, exec_try_lock, exec_unlock}
use dpor_concurrency_model_c.Step.RwLock.{
  exec_r_lock, exec_w_lock, exec_upgrade, exec_r_unlock, exec_w_unlock, exec_downgrade,
}
use dpor_concurrency_model_c.Step.Threads.{
  exec_set, exec_branch_nonzero, exec_assert, exec_join, exec_spawn, exec_sem_post, exec_sem_wait,
}
use dpor_concurrency_model_c.State.{MemoryModel, thread_at, thread_count}
use dpor_concurrency_model_c.State.Threads.{
  action_at, advance_pc, initial_state, is_finished, next_action,
}
use dpor_concurrency_model_c.State.Buffers.{is_flush_step}
use dpor_concurrency_model_c.Enabled.Steps.{effective_action_for_step, enabled_steps}
use dpor_concurrency_model_c.Fingerprint.{behavioral_state_fingerprint}
use dpor_concurrency_model_c.Deadlock.{blocked_among, make_deadlock_report}
use dpor_concurrency_model_c.Replay.Lasso.{
  Observed, refusal, refused, shape_reason, validate_replay_step, lasso_step, run_stem, run_cycle,
  take, drop, make_nontermination_report,
}
use dpor_concurrency_model_c.Step.Wait.{
  exec_broadcast, broadcast_waiters, wake_all, wake_waiter, exec_wait, exec_timed_wait, exec_signal,
}
use dpor_concurrency_model_c.Step.Barrier.{exec_barrier_wait}
use dpor_concurrency_model_c.Step.Atomic.{
  exec_atomic_load, exec_atomic_store, exec_atomic_rmw, exec_compare_exchange,
}
use dpor_concurrency_model_c.Step.Plain.{exec_read, exec_write, exec_flush}

wake_waiter-fuel :
    (p : Program) (s : ExecutionState) (signaler waiter : ℕ)
    → wake_waiter p s signaler waiter ≢ throw out_of_fuel
unfolding wake_waiter
wake_waiter-fuel p s signaler waiter h = ground arith

wake_all-Finishes :
    (p : Program) (s : ExecutionState) (signaler : ℕ) (waiters : List ℕ)
    → Finishes (wake_all p s signaler waiters)
unfolding wake_all
wake_all-Finishes p s signaler [] = tt
wake_all-Finishes p s signaler (waiter ∷ rest) =
    Finishes->>= (wake_waiter p s signaler waiter) _
      (Finishes-from _ (wake_waiter-fuel p s signaler waiter))
      (λ t _. wake_all-Finishes p t signaler rest)

broadcast-Finishes :
    (p : Program) (step : ScheduleStep) (a : Action) (s : ExecutionState)
    → Finishes (exec_broadcast p step a s)
unfolding exec_broadcast broadcast_waiters
broadcast-Finishes p step a s =
    Finishes->>= (broadcast_waiters p (advance_pc p s step.thread) a step.thread) _
      (wake_all-Finishes p _ step.thread _) (λ t _. tt)

module _ (p : Program) (step : ScheduleStep) (a : Action) (s : ExecutionState) where
  sync-fuel :
      (k : ActionKind) → is_memory_action k ≡ false → exec_action k p step a s ≢ throw out_of_fuel
  unfolding exec_action exec_set exec_branch_nonzero exec_assert exec_lock exec_try_lock exec_unlock
      exec_join exec_spawn exec_sem_post exec_sem_wait exec_wait exec_timed_wait exec_signal
      exec_advance exec_r_lock exec_w_lock exec_upgrade exec_r_unlock exec_w_unlock exec_downgrade
      is_memory_action exec_barrier_wait
  sync-fuel ActionKind.broadcast n h =
      subst Finishes h (unfold exec_action in broadcast-Finishes p step a s)
  sync-fuel k n h = ground arith

  load-fuel : exec_atomic_load p step a s ≢ throw out_of_fuel
  unfolding exec_atomic_load
  load-fuel h = ground arith

  store-fuel : exec_atomic_store p step a s ≢ throw out_of_fuel
  unfolding exec_atomic_store
  store-fuel h = ground arith

  rmw-fuel : exec_atomic_rmw p step a s ≢ throw out_of_fuel
  unfolding exec_atomic_rmw
  rmw-fuel h = ground arith

  cas-fuel : exec_compare_exchange p step a s ≢ throw out_of_fuel
  unfolding exec_compare_exchange
  cas-fuel h = ground arith

  read-fuel : exec_read p step a s ≢ throw out_of_fuel
  unfolding exec_read
  read-fuel h = ground arith

  write-fuel : exec_write p step a s ≢ throw out_of_fuel
  unfolding exec_write
  write-fuel h = ground arith

  flush-fuel : exec_flush p step a s ≢ throw out_of_fuel
  unfolding exec_flush
  flush-fuel h = ground arith

  memory-fuel :
      (k : ActionKind) → is_memory_action k ≡ true → exec_action k p step a s ≢ throw out_of_fuel
  unfolding exec_action is_memory_action
  memory-fuel ActionKind.atomic_load n h = load-fuel h
  memory-fuel ActionKind.atomic_store n h = store-fuel h
  memory-fuel ActionKind.atomic_rmw n h = rmw-fuel h
  memory-fuel ActionKind.compare_exchange n h = cas-fuel h
  memory-fuel ActionKind.read n h = read-fuel h
  memory-fuel ActionKind.write n h = write-fuel h
  memory-fuel ActionKind.flush n h = flush-fuel h
  memory-fuel k n h = cc

  exec_action-Finishes : (k : ActionKind) → Finishes (exec_action k p step a s)
  exec_action-Finishes k = elim (Bool-cases (is_memory_action k)) [
    | inl n ↦ Finishes-from (exec_action k p step a s) (memory-fuel k n)
    | inr n ↦ Finishes-from (exec_action k p step a s) (sync-fuel k n)
  ]

executed_action-Finishes :
    (p : Program) (s : ExecutionState) (step : ScheduleStep) → Finishes (executed_action p s step)
unfolding executed_action
executed_action-Finishes p s step =
    if-rule Finishes (is_flush_step step)
      (λ _. Finishes-or_out_of_range (effective_action_for_step p s step))
      (λ _. Finishes-or_out_of_range (action_at (thread_at p step.thread) step.action_index))

pub execute_enabled_step-Finishes :
    (p : Program) (s : ExecutionState) (step : ScheduleStep)
    → Finishes (execute_enabled_step p s step)
unfolding execute_enabled_step
execute_enabled_step-Finishes p s step =
    Finishes->>= (executed_action p s step) _ (executed_action-Finishes p s step)
      (λ a _. exec_action-Finishes p step a (begin_step s step) a.kind)

blocked_among-Finishes :
    (p : Program) (s : ExecutionState) (tids : List ℕ) → Finishes (blocked_among p s tids)
unfolding blocked_among
blocked_among-Finishes p s [] = tt
blocked_among-Finishes p s (tid ∷ tids) =
    if-rule Finishes (not (s.started tid) || is_finished p s tid)
      (λ _. blocked_among-Finishes p s tids)
      (λ _.
        Finishes->>= (or_out_of_range (next_action p s tid)) _
          (Finishes-or_out_of_range (next_action p s tid))
          (λ a _.
            Finishes->>= (blocked_among p s tids) _ (blocked_among-Finishes p s tids)
              (λ blocked _. tt)))

pub make_deadlock_report-Finishes :
    (p : Program) (s : ExecutionState) → Finishes (make_deadlock_report p s)
unfolding make_deadlock_report
make_deadlock_report-Finishes p s =
    Finishes->>= (blocked_among p s (range (thread_count p))) _ (blocked_among-Finishes p s _)
      (λ blocked _. tt)

refusal-Finishes :
    (p : Program) (s : ExecutionState) (step : ScheduleStep) → Finishes (refusal p s step)
unfolding refusal
refusal-Finishes p s step =
    if-rule Finishes (leb (thread_count p) step.thread) {x = ok _} (λ _. tt)
      (λ _. go (shape_reason p s step))
  where
    go :
        (shape : Option Message)
        → Finishes {0} (elim shape as (λ _. Result (Option Message)) [
          | some reason ↦ ok (some reason)
          | none ↦ enabled_transitions p s (enabled_steps p s) >>= λ transitions. ok (
              if has_value (lookup step transitions)
              then none
              else some
                  (text "schedule names a disabled action for thread " ∷ number step.thread ∷ []))
        ])
    go (some reason) = tt
    go none =
        Finishes->>= (enabled_transitions p s (enabled_steps p s)) _
          (enabled_transitions-Finishes p s (enabled_steps p s)) (λ transitions _. tt)

refused-Finishes : (index : ℕ) (o : Option Message) → Finishes (refused index o)
refused-Finishes index none = tt
refused-Finishes index (some reason) = tt

validate-Finishes :
    (p : Program) (s : ExecutionState) (step : ScheduleStep) (index : ℕ)
    → Finishes (validate_replay_step p s step index)
unfolding validate_replay_step
validate-Finishes p s step index =
    Finishes->>= (refusal p s step) _ (refusal-Finishes p s step) (λ o _. refused-Finishes index o)

lasso_step-Finishes :
    (p : Program) (s : ExecutionState) (step : ScheduleStep) (index : ℕ) (reason : String)
    → Finishes (lasso_step p s step index reason)
unfolding lasso_step
lasso_step-Finishes p s step index reason =
    Finishes->>= (validate_replay_step p s step index) _ (validate-Finishes p s step index) (λ _ _.
      Finishes->>= (execute_enabled_step p s step) _ (execute_enabled_step-Finishes p s step)
        (λ (t, report) _.
          if-rule Finishes (has_value report.error || has_value report.assertion)
            {x = throw (logic_error reason)} {y = ok t} (λ _. tt) (λ _. tt)))

run_stem-Finishes :
    (p : Program) (stem : Schedule) (index : ℕ) (s : ExecutionState)
    → Finishes (run_stem p stem index s)
unfolding run_stem
run_stem-Finishes p [] index s = tt
run_stem-Finishes p (step ∷ rest) index s =
    Finishes->>= (lasso_step p s step index _) _ (lasso_step-Finishes p s step index _)
      (λ t _. run_stem-Finishes p rest (suc index) t)

run_cycle-Finishes :
    (p : Program) (participant : ℕ → Bool) (cycle : Schedule) (index : ℕ) (s : ExecutionState)
    (o : Observed)
    → Finishes (run_cycle p participant cycle index s o)
unfolding run_cycle
run_cycle-Finishes p participant [] index s o = tt
run_cycle-Finishes p participant (step ∷ rest) index s o =
    Finishes->>= (lasso_step p s step index _) _ (lasso_step-Finishes p s step index _)
      (λ t _. run_cycle-Finishes p participant rest (suc index) t _)

pub make_nontermination_report-Finishes :
    (p : Program) (schedule : Schedule) (start : ℕ) (m : MemoryModel)
    → Finishes (make_nontermination_report p schedule start m)
unfolding make_nontermination_report
make_nontermination_report-Finishes p schedule start m =
    Finishes->>= (run_stem p (take start schedule) 0 (initial_state p m)) _
      (run_stem-Finishes p (take start schedule) 0 (initial_state p m))
      (λ s _.
        Finishes->>= (run_cycle p _ (drop start schedule) start s _) _
          (run_cycle-Finishes p _ (drop start schedule) start s _)
          (λ (t, o) _.
            if-rule Finishes (behavioral_state_fingerprint p t == behavioral_state_fingerprint p s)
              (λ _. tt) (λ _. tt)))
