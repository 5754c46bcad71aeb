-- ===== src/Invariant/RwLocks.antt =====
-- src/model/checker.cpp: the readers and the writer of a lock exclude each other.
use dpor_concurrency_model_c.Common.{
  ℕ, Bool, true, false, List, [], ◌∷◌, none, String, ◌≡◌, refl, sym, ap, subst, arith, inl, inr,
  eqb, Bool-cases, length, value_or, if◌then◌else◌, ◌||◌, range,
}
use dpor_concurrency_model_c.Common.Order.{◌==◌, name_ord, nat_ord}
use dpor_concurrency_model_c.Common.OrdMap.{OrdMap, lookup, insert, lookup-insert}
use dpor_concurrency_model_c.Common.OrdSet.{contains, erase}
use dpor_concurrency_model_c.Common.Result.{Result, ok, throw, >>=-eq-ok}
use dpor_concurrency_model_c.Action.{Action, ActionKind, Program, ScheduleStep}
use dpor_concurrency_model_c.Action.Pairs.{is_rwlock_action}
use dpor_concurrency_model_c.Clock.{VectorClock}
use dpor_concurrency_model_c.State.{
  ExecutionState, RwLockState, empty_rwlock, MemoryModel, thread_count,
}
use dpor_concurrency_model_c.State.Threads.{
  advance_pc, normalize_from, normalize_pc, normalize_all_pcs, initial_state,
}
use dpor_concurrency_model_c.State.Buffers.{find_rwlock}
use dpor_concurrency_model_c.Enabled.{
  enabled_by_kind, r_lock_enabled, w_lock_enabled, upgrade_enabled,
}
use dpor_concurrency_model_c.Report.{StepReport}
use dpor_concurrency_model_c.Step.{exec_action, executed_action, execute_enabled_step}
use dpor_concurrency_model_c.Step.Base.{Outcome, begin_step}
use dpor_concurrency_model_c.Step.RwLock.{
  exec_r_lock, exec_w_lock, exec_upgrade, exec_r_unlock, exec_w_unlock, exec_downgrade, rwlock_at,
  without_reader, reads, writes,
}
use dpor_concurrency_model_c.Invariant.System.{IsEnabled, run, Reach, start, next}
use dpor_concurrency_model_c.Invariant.Executed.{flushes, acts, executed-Runs}
use dpor_concurrency_model_c.Invariant.Frame.{exec_action-rwlocks}

-- No thread writes, or no thread reads.
pub data Exclusive (r : RwLockState) : Type 0 where
  unwritten : r.writer_holder ≡ none → Exclusive r
  unread : r.reader_holders ≡ [] → Exclusive r

abbrev pub AllExclusive : OrdMap String RwLockState → Type 0
AllExclusive m = (name : String) → Exclusive (value_or (lookup name m) empty_rwlock)

insert-AllExclusive :
    (m : OrdMap String RwLockState) (name : String) (r : RwLockState)
    → AllExclusive m
    → Exclusive r
    → AllExclusive (insert name r m)
insert-AllExclusive m name r all new other =
    rw (lookup-insert name other r m)
      (elim (Bool-cases (name == other)) [ inl e ↦ rw e new | inr e ↦ rw e (all other) ])

erase_only_reader :
    (tid : ℕ) (readers : List ℕ)
    → contains tid readers ≡ true
    → eqb (length readers) 1 ≡ true
    → erase tid readers ≡ []
unfolding contains erase
erase_only_reader tid [] c l = refl
erase_only_reader tid (t ∷ []) c l = ground arith
erase_only_reader tid (t ∷ u ∷ us) c l = absurd (ground arith)

erase_none : (tid : ℕ) (readers : List ℕ) → readers ≡ [] → erase tid readers ≡ []
unfolding erase
erase_none tid [] h = refl
erase_none tid (x ∷ xs) h = cc

release_reader-Exclusive :
    (r : RwLockState) (tid : ℕ) (c : VectorClock)
    → Exclusive r
    → Exclusive (record (without_reader r tid) { reader_releases = c })
unfolding without_reader
release_reader-Exclusive r tid c (unwritten e) = unwritten e
release_reader-Exclusive r tid c (unread e) = unread (erase_none tid _ e)

if-AllExclusive :
    (b : Bool) (x y : Outcome)
    → (b ≡ true → AllExclusive x.0.rwlocks)
    → (b ≡ false → AllExclusive y.0.rwlocks)
    → AllExclusive (if b then x else y).0.rwlocks
if-AllExclusive true x y f g = f refl
if-AllExclusive false x y f g = g refl

normalize_from-rwlocks :
    (p : Program) (tids : List ℕ) (s : ExecutionState)
    → (normalize_from p tids s).rwlocks ≡ s.rwlocks
unfolding normalize_from
normalize_from-rwlocks p [] s = refl
normalize_from-rwlocks p (tid ∷ tids) s = normalize_from-rwlocks p tids (normalize_pc p s tid)

normalize_all_pcs-rwlocks :
    (p : Program) (s : ExecutionState) → (normalize_all_pcs p s).rwlocks ≡ s.rwlocks
unfolding normalize_all_pcs
normalize_all_pcs-rwlocks p s = normalize_from-rwlocks p (range (thread_count p)) s

-- The cases of the switch, each from the enabledness of its action.
module _ (p : Program) (step : ScheduleStep) (a : Action) (s : ExecutionState)
    (all : AllExclusive s.rwlocks) where
  r_lock-AllExclusive :
      r_lock_enabled (find_rwlock s a.rwlock) step.thread ≡ true
      → AllExclusive (exec_r_lock p step a s).0.rwlocks
  unfolding exec_r_lock
  r_lock-AllExclusive on =
      if-AllExclusive _ _ _ (λ held. all)
        (λ free. insert-AllExclusive s.rwlocks a.rwlock _ all (unwritten (no_writer free)))
    where
      no_writer :
          (reads s a.rwlock step.thread || writes s a.rwlock step.thread) ≡ false
          → (rwlock_at s a.rwlock).writer_holder ≡ none
      no_writer free = unfold r_lock_enabled in ground arith

  w_lock-AllExclusive :
      w_lock_enabled (find_rwlock s a.rwlock) step.thread ≡ true
      → AllExclusive (exec_w_lock p step a s).0.rwlocks
  unfolding exec_w_lock
  w_lock-AllExclusive on =
      if-AllExclusive _ _ _ (λ held. all)
        (λ free. insert-AllExclusive s.rwlocks a.rwlock _ all (unread (no_reader free)))
    where
      no_reader : writes s a.rwlock step.thread ≡ false → (rwlock_at s a.rwlock).reader_holders ≡ []
      no_reader free = unfold w_lock_enabled in ground arith

  upgrade-AllExclusive :
      upgrade_enabled (find_rwlock s a.rwlock) step.thread ≡ true
      → AllExclusive (exec_upgrade p step a s).0.rwlocks
  unfolding exec_upgrade
  upgrade-AllExclusive on =
      if-AllExclusive _ _ _
        (λ held. insert-AllExclusive s.rwlocks a.rwlock _ all (
          unread (
            erase_only_reader step.thread (rwlock_at s a.rwlock).reader_holders held (alone held))))
        (λ free. all)
    where
      alone :
          reads s a.rwlock step.thread ≡ true
          → eqb (length (rwlock_at s a.rwlock).reader_holders) 1 ≡ true
      alone held = unfold upgrade_enabled in ground arith

  r_unlock-AllExclusive : AllExclusive (exec_r_unlock p step a s).0.rwlocks
  unfolding exec_r_unlock
  r_unlock-AllExclusive =
      if-AllExclusive (reads (advance_pc p s step.thread) a.rwlock step.thread) _ _
        (λ held.
          insert-AllExclusive s.rwlocks a.rwlock _ all
            (release_reader-Exclusive (rwlock_at s a.rwlock) step.thread _ (all a.rwlock)))
        (λ free. all)

  w_unlock-AllExclusive : AllExclusive (exec_w_unlock p step a s).0.rwlocks
  unfolding exec_w_unlock
  w_unlock-AllExclusive =
      if-AllExclusive (writes (advance_pc p s step.thread) a.rwlock step.thread) _ _
        (λ held. insert-AllExclusive s.rwlocks a.rwlock _ all (unwritten refl)) (λ free. all)

  downgrade-AllExclusive : AllExclusive (exec_downgrade p step a s).0.rwlocks
  unfolding exec_downgrade
  downgrade-AllExclusive =
      if-AllExclusive (writes (advance_pc p s step.thread) a.rwlock step.thread) _ _
        (λ held. insert-AllExclusive s.rwlocks a.rwlock _ all (unwritten refl)) (λ free. all)

not-rwlock : (k : ActionKind) → k ≡ ActionKind.flush → is_rwlock_action k ≡ false
unfolding is_rwlock_action
not-rwlock k h = cc

of_outcome :
    (o : Outcome) (t : ExecutionState) (r : StepReport)
    → AllExclusive o.0.rwlocks
    → ok o ≡ ok (t, r)
    → AllExclusive t.rwlocks
of_outcome o t r all h = subst (λ (u : ExecutionState). AllExclusive u.rwlocks) same all
  where
    state_of : Result Outcome → ExecutionState
    state_of (ok u) = u.0
    state_of (throw e) = t

    same : o.0 ≡ t
    same = ap state_of h

by_kind :
    (k : ActionKind) (p : Program) (step : ScheduleStep) (a : Action) (s t : ExecutionState)
    (r : StepReport)
    → is_rwlock_action k ≡ true
    → enabled_by_kind k p s step.thread a ≡ true
    → AllExclusive s.rwlocks
    → exec_action k p step a (begin_step s step) ≡ ok (t, r)
    → AllExclusive t.rwlocks
unfolding is_rwlock_action exec_action enabled_by_kind begin_step
by_kind ActionKind.r_lock p step a s t r is_lock on all h =
    of_outcome _ t r
      (r_lock-AllExclusive p step a (begin_step s step) all (unfold find_rwlock in on)) h
by_kind ActionKind.w_lock p step a s t r is_lock on all h =
    of_outcome _ t r
      (w_lock-AllExclusive p step a (begin_step s step) all (unfold find_rwlock in on)) h
by_kind ActionKind.upgrade p step a s t r is_lock on all h =
    of_outcome _ t r
      (upgrade-AllExclusive p step a (begin_step s step) all (unfold find_rwlock in on)) h
by_kind ActionKind.r_unlock p step a s t r is_lock on all h =
    of_outcome _ t r (r_unlock-AllExclusive p step a (begin_step s step) all) h
by_kind ActionKind.w_unlock p step a s t r is_lock on all h =
    of_outcome _ t r (w_unlock-AllExclusive p step a (begin_step s step) all) h
by_kind ActionKind.downgrade p step a s t r is_lock on all h =
    of_outcome _ t r (downgrade-AllExclusive p step a (begin_step s step) all) h
by_kind k p step a s t r is_lock on all h = cc

step-AllExclusive :
    (p : Program) (step : ScheduleStep) (s t : ExecutionState) (r : StepReport)
    → IsEnabled p s step
    → AllExclusive s.rwlocks
    → execute_enabled_step p s step ≡ ok (t, r)
    → AllExclusive t.rwlocks
unfolding execute_enabled_step begin_step
step-AllExclusive p step s t r enabled all h =
    let (a, found, e) = >>=-eq-ok (executed_action p s step) _ h in
    elim (Bool-cases (is_rwlock_action a.kind)) [
      | inr n ↦
          subst AllExclusive (sym (exec_action-rwlocks a.kind p step a (begin_step s step) t r n e))
            all
      | inl y ↦ elim (executed-Runs p s step a enabled found) [
        | flushes f ↦ cc (not-rwlock a.kind f)
        | acts on ↦ by_kind a.kind p step a s t r y on all e
      ]
    ]

initial-rwlocks : (p : Program) (m : MemoryModel) → (initial_state p m).rwlocks ≡ []
unfolding initial_state
initial-rwlocks p m = normalize_all_pcs-rwlocks p _

-- In a state that an execution reaches, no rwlock has a writer and a reader at once.
pub Reach-Exclusive :
    (p : Program) (m : MemoryModel) (s : ExecutionState)
    → Reach p m s
    → (name : String) → Exclusive (rwlock_at s name)
unfolding rwlock_at find_rwlock
Reach-Exclusive p m s start name = rw (initial-rwlocks p m) (unwritten refl)
Reach-Exclusive p m s (next {s = u} earlier (run step report enabled ran)) name =
    step-AllExclusive p step u s report enabled (Reach-Exclusive p m u earlier) ran name
