-- ===== src/Invariant/Wakes.antt =====
-- src/model/checker.cpp: what waking waiters and releasing a barrier leave alone.
use dpor_concurrency_model_c.Common.{ℕ, List, [], ◌∷◌, ◌≡◌, ap, ◌∙◌, subst, arith}
use dpor_concurrency_model_c.Common.Order.{name_ord}
use dpor_concurrency_model_c.Common.OrdMap.{lookup}
use dpor_concurrency_model_c.Common.Result.{Result, ok, throw, >>=-eq-ok, or_out_of_range}
use dpor_concurrency_model_c.Action.{Action, Program, ScheduleStep}
use dpor_concurrency_model_c.Clock.{VectorClock}
use dpor_concurrency_model_c.State.{ExecutionState, BarrierState}
use dpor_concurrency_model_c.State.Threads.{advance_pc}
use dpor_concurrency_model_c.Report.{StepReport}
use dpor_concurrency_model_c.Step.Base.{Outcome, join_clock}
use dpor_concurrency_model_c.Step.RwLock.{}
use dpor_concurrency_model_c.Step.Threads.{}
use dpor_concurrency_model_c.Step.Wait.{
  exec_broadcast, wake_all, wake_waiter, broadcast_waiters, set_waiters,
}
use dpor_concurrency_model_c.Step.Barrier.{exec_barrier_wait, release_all, exec_arrival, arrive}
use dpor_concurrency_model_c.Step.Atomic.{}

-- What waking a waiter and releasing a barrier leave alone.
pub record Untouched (s t : ExecutionState) : Type 0 where
  pub memory_model : t.memory_model ≡ s.memory_model
  pub flush_addresses : t.flush_addresses ≡ s.flush_addresses
  pub rwlocks : t.rwlocks ≡ s.rwlocks
  pub mutex_owner : t.mutex_owner ≡ s.mutex_owner
  pub store_buffers : t.store_buffers ≡ s.store_buffers
  pub pso_store_buffers : t.pso_store_buffers ≡ s.pso_store_buffers
  pub thread_steps : t.thread_steps ≡ s.thread_steps

Untouched-trans : {s t u : ExecutionState} → Untouched s t → Untouched t u → Untouched s u
Untouched-trans f g = record {
  memory_model = g.memory_model ∙ f.memory_model;
  flush_addresses = g.flush_addresses ∙ f.flush_addresses;
  rwlocks = g.rwlocks ∙ f.rwlocks;
  mutex_owner = g.mutex_owner ∙ f.mutex_owner;
  store_buffers = g.store_buffers ∙ f.store_buffers;
  pso_store_buffers = g.pso_store_buffers ∙ f.pso_store_buffers;
  thread_steps = g.thread_steps ∙ f.thread_steps;
}

wake_waiter-Untouched :
    (p : Program) (s t : ExecutionState) (signaler waiter : ℕ)
    → wake_waiter p s signaler waiter ≡ ok t
    → Untouched s t
unfolding wake_waiter
wake_waiter-Untouched p s t signaler waiter h = ground arith

wake_all-Untouched :
    (p : Program) (s t : ExecutionState) (signaler : ℕ) (waiters : List ℕ)
    → wake_all p s signaler waiters ≡ ok t
    → Untouched s t
unfolding wake_all
wake_all-Untouched p s t signaler [] h = ground arith
wake_all-Untouched p s t signaler (waiter ∷ rest) h =
    let (u, first, later) = >>=-eq-ok (wake_waiter p s signaler waiter) _ h in
    Untouched-trans (wake_waiter-Untouched p s u signaler waiter first)
      (wake_all-Untouched p u t signaler rest later)

release_all-Untouched :
    (p : Program) (clock : VectorClock) (tids : List ℕ) (s : ExecutionState)
    → Untouched s (release_all p clock tids s)
unfolding release_all
release_all-Untouched p clock [] s = ground arith
release_all-Untouched p clock (tid ∷ tids) s =
    Untouched-trans (step_release s)
      (release_all-Untouched p clock tids (advance_pc p (join_clock s tid clock) tid))
  where
    step_release : (s : ExecutionState) → Untouched s (advance_pc p (join_clock s tid clock) tid)
    step_release s = ground arith

pub broadcast-Untouched :
    (p : Program) (step : ScheduleStep) (a : Action) (s t : ExecutionState) (r : StepReport)
    → exec_broadcast p step a s ≡ ok (t, r)
    → Untouched s t
unfolding exec_broadcast
broadcast-Untouched p step a s t r h =
    let (u, woken, e) =
      >>=-eq-ok (broadcast_waiters p (advance_pc p s step.thread) a step.thread) _ h in
    let w = wake_all-Untouched p _ u step.thread _ (unfold broadcast_waiters in woken) in
    let same : u ≡ t = cc in subst (Untouched s) same (Untouched-trans cleared w)
  where
    cleared : Untouched s (set_waiters (advance_pc p s step.thread) a.condition [])
    cleared = ground arith

arrival-Untouched :
    (p : Program) (step : ScheduleStep) (a : Action) (s : ExecutionState) (b : BarrierState)
    → Untouched s (exec_arrival p step a s b).0
unfolding exec_arrival
arrival-Untouched p step a s b = ground (
  arith,
  release_all-Untouched p (arrive b step.thread (s.thread_clock step.thread)).arrival_releases
      (arrive b step.thread (s.thread_clock step.thread)).arrivals s,
)

pub barrier-Untouched :
    (p : Program) (step : ScheduleStep) (a : Action) (s t : ExecutionState) (r : StepReport)
    → exec_barrier_wait p step a s ≡ ok (t, r)
    → Untouched s t
unfolding exec_barrier_wait
barrier-Untouched p step a s t r h =
    let (b, found, e) = >>=-eq-ok (or_out_of_range (lookup a.barrier s.barriers)) _ h in
    let same : (exec_arrival p step a s b).0 ≡ t = ap (λ (o : Result Outcome). state_of o s) e in
    subst (Untouched s) same (arrival-Untouched p step a s b)
  where
    state_of : Result Outcome → ExecutionState → ExecutionState
    state_of (ok (t, r)) s = t
    state_of (throw e) s = s
