-- ===== src/Invariant/Mutexes.antt =====
-- src/model/checker.cpp: how a step changes the owners of the mutexes.
use dpor_concurrency_model_c.Common.{
  ℕ, true, false, Option, none, some, String, ◌≡◌, refl, ap, arith, inl, inr, ◌⊎◌, Bool-cases,
}
use dpor_concurrency_model_c.Common.Order.{name_ord}
use dpor_concurrency_model_c.Common.OrdMap.{lookup, lookup-insert, lookup-erase}
use dpor_concurrency_model_c.Common.Result.{ok, >>=-eq-ok}
use dpor_concurrency_model_c.Action.{Action, ActionKind, Program, ScheduleStep}
use dpor_concurrency_model_c.Action.Pairs.{is_mutex_action}
use dpor_concurrency_model_c.State.{ExecutionState, WaitPhase}
use dpor_concurrency_model_c.State.Buffers.{owns_mutex}
use dpor_concurrency_model_c.Enabled.{enabled_by_kind, mutex_free, wait_enabled, timed_wait_enabled}
use dpor_concurrency_model_c.Report.{StepReport}
use dpor_concurrency_model_c.Step.{exec_action, executed_action, execute_enabled_step}
use dpor_concurrency_model_c.Step.Base.{begin_step, exec_advance}
use dpor_concurrency_model_c.Step.Mutex.{exec_lock, exec_try_lock, exec_unlock}
use dpor_concurrency_model_c.Step.RwLock.{
  exec_r_lock, exec_w_lock, exec_upgrade, exec_r_unlock, exec_w_unlock, exec_downgrade,
}
use dpor_concurrency_model_c.Step.Threads.{
  exec_set, exec_branch_nonzero, exec_assert, exec_join, exec_spawn, exec_sem_post, exec_sem_wait,
}
use dpor_concurrency_model_c.Step.Wait.{
  exec_wait, exec_timed_wait, exec_signal, wait_in_phase, timed_wait_in_phase, reacquire, park,
  time_out,
}
use dpor_concurrency_model_c.Step.Atomic.{
  exec_atomic_load, exec_atomic_store, exec_atomic_rmw, exec_compare_exchange,
}
use dpor_concurrency_model_c.Step.Plain.{exec_read, exec_write, exec_flush}
use dpor_concurrency_model_c.Invariant.System.{IsEnabled}
use dpor_concurrency_model_c.Invariant.Executed.{flushes, acts, executed-Runs}
use dpor_concurrency_model_c.Invariant.Wakes.{broadcast-Untouched, barrier-Untouched}

-- What a step of a thread may do to the owner of a mutex: nothing, take the free mutex for itself,
-- or release its own.
abbrev pub OwnerMove : ℕ → Option ℕ → Option ℕ → Type 0
OwnerMove tid before after =
    (after ≡ before)
    ⊎ (((before ≡ none) × (after ≡ some tid)) ⊎ ((before ≡ some tid) × (after ≡ none)))

exec_action-mutex_owner :
    (k : ActionKind) (p : Program) (step : ScheduleStep) (a : Action) (s t : ExecutionState)
    (r : StepReport)
    → is_mutex_action k ≡ false
    → exec_action k p step a s ≡ ok (t, r)
    → t.mutex_owner ≡ s.mutex_owner
unfolding exec_action exec_set exec_branch_nonzero exec_assert exec_join exec_spawn exec_sem_post
    exec_sem_wait exec_signal exec_r_lock exec_w_lock exec_upgrade exec_r_unlock exec_w_unlock
    exec_downgrade exec_atomic_load exec_atomic_store exec_atomic_rmw exec_compare_exchange
    exec_read exec_write exec_flush exec_advance is_mutex_action
exec_action-mutex_owner ActionKind.broadcast p step a s t r n h =
    (broadcast-Untouched p step a s t r h).mutex_owner
exec_action-mutex_owner ActionKind.barrier_wait p step a s t r n h =
    (barrier-Untouched p step a s t r h).mutex_owner
exec_action-mutex_owner k p step a s t r n h = ground arith

module _ (p : Program) (step : ScheduleStep) (a : Action) (s t : ExecutionState) (r : StepReport)
    (name : String) where
  -- The owner of the mutex before, and after.
  abbrev Moved : Type 0
  Moved = OwnerMove step.thread (lookup name s.mutex_owner) (lookup name t.mutex_owner)

  lock-Moved : mutex_free s a.mutex ≡ true → ok (exec_lock p step a s) ≡ ok (t, r) → Moved
  unfolding exec_lock mutex_free
  lock-Moved free h =
      ground
        (arith, lookup-insert a.mutex name step.thread s.mutex_owner, name_ord.beq_iff a.mutex name)

  try_lock-Moved : exec_try_lock p step a s ≡ ok (t, r) → Moved
  unfolding exec_try_lock mutex_free
  try_lock-Moved h =
      ground
        (arith, lookup-insert a.mutex name step.thread s.mutex_owner, name_ord.beq_iff a.mutex name)

  unlock-Moved : ok (exec_unlock p step a s) ≡ ok (t, r) → Moved
  unfolding exec_unlock owns_mutex
  unlock-Moved h =
      ground (arith, lookup-erase a.mutex name s.mutex_owner, name_ord.beq_iff a.mutex name)

  reacquire-Moved : mutex_free s a.mutex ≡ true → ok (reacquire p step a s) ≡ ok (t, r) → Moved
  unfolding reacquire mutex_free
  reacquire-Moved free h =
      ground
        (arith, lookup-insert a.mutex name step.thread s.mutex_owner, name_ord.beq_iff a.mutex name)

  park-Moved : ok (park p step a s) ≡ ok (t, r) → Moved
  unfolding park owns_mutex
  park-Moved h =
      ground (arith, lookup-erase a.mutex name s.mutex_owner, name_ord.beq_iff a.mutex name)

  time_out-Moved : time_out step a s ≡ ok (t, r) → Moved
  unfolding time_out
  time_out-Moved h = ground arith

  wait-Moved :
      (phase : WaitPhase)
      → wait_enabled phase s a ≡ true
      → ok (wait_in_phase phase p step a s) ≡ ok (t, r)
      → Moved
  unfolding wait_in_phase wait_enabled
  wait-Moved WaitPhase.idle on h = park-Moved h
  wait-Moved WaitPhase.waiting on h = cc
  wait-Moved WaitPhase.woken on h = reacquire-Moved on h

  timed_wait-Moved :
      (phase : WaitPhase)
      → timed_wait_enabled phase s a ≡ true
      → timed_wait_in_phase phase p step a s ≡ ok (t, r)
      → Moved
  unfolding timed_wait_in_phase timed_wait_enabled
  timed_wait-Moved WaitPhase.idle on h = park-Moved h
  timed_wait-Moved WaitPhase.waiting on h = time_out-Moved h
  timed_wait-Moved WaitPhase.woken on h = reacquire-Moved on h

  kind-Moved :
      (k : ActionKind)
      → is_mutex_action k ≡ true
      → enabled_by_kind k p s step.thread a ≡ true
      → exec_action k p step a s ≡ ok (t, r)
      → Moved
  unfolding is_mutex_action exec_action enabled_by_kind exec_wait exec_timed_wait
  kind-Moved ActionKind.lock m on h = lock-Moved on h
  kind-Moved ActionKind.try_lock m on h = try_lock-Moved h
  kind-Moved ActionKind.unlock m on h = unlock-Moved h
  kind-Moved ActionKind.wait m on h = wait-Moved (s.wait_phase step.thread) on h
  kind-Moved ActionKind.timed_wait m on h = timed_wait-Moved (s.wait_phase step.thread) on h
  kind-Moved k m on h = cc

enabled_by_kind-begin_step :
    (k : ActionKind) (p : Program) (step : ScheduleStep) (a : Action) (s : ExecutionState)
    → is_mutex_action k ≡ true
    → enabled_by_kind k p s step.thread a ≡ true
    → enabled_by_kind k p (begin_step s step) step.thread a ≡ true
unfolding enabled_by_kind begin_step is_mutex_action mutex_free wait_enabled timed_wait_enabled
enabled_by_kind-begin_step ActionKind.lock p step a s m on = on
enabled_by_kind-begin_step ActionKind.try_lock p step a s m on = refl
enabled_by_kind-begin_step ActionKind.unlock p step a s m on = refl
enabled_by_kind-begin_step ActionKind.wait p step a s m on = ground arith
enabled_by_kind-begin_step ActionKind.timed_wait p step a s m on = ground arith
enabled_by_kind-begin_step k p step a s m on = cc

not-mutex : (k : ActionKind) → k ≡ ActionKind.flush → is_mutex_action k ≡ false
unfolding is_mutex_action
not-mutex k h = cc

-- An enabled step leaves the owner of each mutex as it was, or its thread takes the mutex while
-- nobody owns it, or its thread gives up the mutex that it owns.
pub execute_enabled_step-OwnerMove :
    (p : Program) (step : ScheduleStep) (s t : ExecutionState) (r : StepReport) (name : String)
    → IsEnabled p s step
    → execute_enabled_step p s step ≡ ok (t, r)
    → OwnerMove step.thread (lookup name s.mutex_owner) (lookup name t.mutex_owner)
unfolding execute_enabled_step begin_step
execute_enabled_step-OwnerMove p step s t r name enabled h =
    let (a, found, e) = >>=-eq-ok (executed_action p s step) _ h in
    elim (Bool-cases (is_mutex_action a.kind)) [
      | inr n ↦
          inl
            (ap (lookup name) (exec_action-mutex_owner a.kind p step a (begin_step s step) t r n e))
      | inl y ↦ elim (executed-Runs p s step a enabled found) [
        | flushes f ↦ cc (not-mutex a.kind f)
        | acts on ↦
            kind-Moved p step a (begin_step s step) t r name a.kind y
              (enabled_by_kind-begin_step a.kind p step a s y on) e
      ]
    ]
