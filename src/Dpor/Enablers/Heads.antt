-- ===== src/Dpor/Enablers/Heads.antt =====
-- src/model/checker.cpp: what the heads of one blocked thread are, if those of the threads that it
-- waits for are enabled steps.
use dpor_concurrency_model_c.Common.{
  ℕ, Bool, true, false, List, [], ◌∷◌, Option, none, some, String, ◌≡◌, arith, if◌then◌else◌, not,
  eqb, keep, range, All, All-mono, if-rule, get_elem?,
}
use dpor_concurrency_model_c.Common.Order.{name_ord}
use dpor_concurrency_model_c.Common.OrdMap.{lookup}
use dpor_concurrency_model_c.Common.Result.{ok, throw, out_of_range, ◌>>=◌, or_out_of_range}
use dpor_concurrency_model_c.Action.{Action, ActionKind, Program, ScheduleStep, step_eq, step_lt}
use dpor_concurrency_model_c.Action.StepOrder.{step_eq_iff}
use dpor_concurrency_model_c.State.{RwLockState, thread_at, thread_count}
use dpor_concurrency_model_c.Dpor.{DporNode}
use dpor_concurrency_model_c.Dpor.StepSet.{holds, insert_step, append_steps}
use dpor_concurrency_model_c.Dpor.Enablers.{
  is_waiting, has_remaining_wake_on, has_remaining_spawn_to, is_finished_at_node, enabled_at_node,
  Heads, unless_empty, gather_heads, enabler_heads_for_spawn_target, enabler_heads_for_waiter,
  enabler_heads_for_mutex_owner, heads_for_writer, enabler_heads_for_rwlock_writer,
  heads_for_readers, enabler_heads_for_rwlock_readers, enabler_heads_for_w_lock,
  enabler_heads_for_join, enabler_heads_for_wait, enabler_heads_for_kind, heads_when_blocked,
  heads_of_thread, enabled_steps_for_thread_at_node, next_action_at_node,
}

pub All-insert_step {κ} :
    (P : ScheduleStep → Type κ) (steps : List ScheduleStep) (step : ScheduleStep)
    → All P steps
    → P step
    → All P (insert_step steps step)
unfolding insert_step
All-insert_step P [] step all here = (here, tt)
All-insert_step P (s ∷ steps) step (first, all) here =
    if-rule (All P) (step_lt s step) (λ _. (first, All-insert_step P steps step all here))
      (λ _. if-rule (All P) (step_eq s step) (λ _. (first, all)) (λ _. (here, (first, all))))

pub All-append_steps {κ} :
    (P : ScheduleStep → Type κ) (steps more : List ScheduleStep)
    → All P steps
    → All P more
    → All P (append_steps steps more)
unfolding append_steps
All-append_steps P steps [] all added = all
All-append_steps P steps (step ∷ more) all (here, added) =
    All-append_steps P (insert_step steps step) more (All-insert_step P steps step all here) added

-- Every step of `steps` is in `enabled`.
abbrev pub IsWithin : List ScheduleStep → List ScheduleStep → Type 0
IsWithin enabled steps = All (λ step. holds enabled step ≡ true) steps

-- Heads that are enabled steps, and an index that is out of range as the only exception.
abbrev pub AreHeads : List ScheduleStep → Heads → Type 0
AreHeads enabled (ok none) = Unit
AreHeads enabled (ok (some heads)) = IsWithin enabled heads
AreHeads enabled (throw out_of_range) = Unit
AreHeads enabled (throw _) = ⊥

module _ (enabled : List ScheduleStep) (heads_of : ℕ → Heads)
    (heads_of-AreHeads : (tid : ℕ) → AreHeads enabled (heads_of tid)) where
  unless_empty-AreHeads :
      (heads : List ScheduleStep)
      → IsWithin enabled heads
      → AreHeads enabled (ok (unless_empty heads))
  unless_empty-AreHeads [] within = tt
  unless_empty-AreHeads (head ∷ heads) within = within

  -- What goes on from heads that one thread has.
  onward-AreHeads :
      (found : Heads) (onward : List ScheduleStep → Heads)
      → AreHeads enabled found
      → ((heads : List ScheduleStep) → IsWithin enabled heads → AreHeads enabled (onward heads))
      → AreHeads enabled (found >>= λ o. elim o [ none ↦ ok none | some heads ↦ onward heads ])
  onward-AreHeads (ok none) onward found go = tt
  onward-AreHeads (ok (some heads)) onward found go = go heads found
  onward-AreHeads (throw e) onward found go = found

  pub gather_heads-AreHeads :
      (sources : List ℕ) (heads : List ScheduleStep)
      → IsWithin enabled heads
      → AreHeads enabled (gather_heads heads_of sources heads)
  unfolding gather_heads
  gather_heads-AreHeads [] heads within = unless_empty-AreHeads heads within
  gather_heads-AreHeads (source ∷ sources) heads within =
      onward-AreHeads (heads_of source) _ (heads_of-AreHeads source) (λ more found.
        gather_heads-AreHeads sources (append_steps heads more)
          (All-append_steps _ heads more within found))

  heads_for_readers-AreHeads :
      (blocked_thread : ℕ) (skip : Bool) (readers : List ℕ) (heads : List ScheduleStep)
      → IsWithin enabled heads
      → AreHeads enabled (heads_for_readers heads_of blocked_thread skip readers heads)
  unfolding heads_for_readers
  heads_for_readers-AreHeads blocked_thread skip [] heads within =
      unless_empty-AreHeads heads within
  heads_for_readers-AreHeads blocked_thread skip (reader ∷ readers) heads within =
      elim (eqb reader blocked_thread)
        as (λ self. AreHeads enabled (elim self [
          | true ↦
              if skip then heads_for_readers heads_of blocked_thread skip readers heads else ok none
          | false ↦ heads_of reader >>= λ found. elim found [
            | none ↦ ok none
            | some reader_heads ↦
                heads_for_readers heads_of blocked_thread skip readers
                  (append_steps heads reader_heads)
          ]
        ])) [
          | true ↦
              if-rule (AreHeads enabled) skip {y = ok none}
                (λ _. heads_for_readers-AreHeads blocked_thread skip readers heads within) (λ _. tt)
          | false ↦ onward-AreHeads (heads_of reader) _ (heads_of-AreHeads reader) (λ more found.
              heads_for_readers-AreHeads blocked_thread skip readers (append_steps heads more)
                (All-append_steps _ heads more within found))
        ]

  other_thread-AreHeads :
      (owner blocked_thread : ℕ)
      → AreHeads enabled (if eqb owner blocked_thread then ok none else heads_of owner)
  other_thread-AreHeads owner blocked_thread =
      if-rule (AreHeads enabled) (eqb owner blocked_thread) {x = ok none} (λ _. tt)
        (λ _. heads_of-AreHeads owner)

  heads_for_writer-AreHeads :
      (rwlock : Option RwLockState) (blocked_thread : ℕ)
      → AreHeads enabled (heads_for_writer heads_of rwlock blocked_thread)
  unfolding heads_for_writer
  heads_for_writer-AreHeads none blocked_thread = tt
  heads_for_writer-AreHeads (some rwlock) blocked_thread =
      elim rwlock.writer_holder
        as (λ holder. AreHeads enabled (elim holder [
          | none ↦ ok none
          | some writer ↦ if eqb writer blocked_thread then ok none else heads_of writer
        ])) [ none ↦ tt | some writer ↦ other_thread-AreHeads writer blocked_thread ]

  pub enabler_heads_for_rwlock_writer-AreHeads :
      (node : DporNode) (name : String) (blocked_thread : ℕ)
      → AreHeads enabled (enabler_heads_for_rwlock_writer heads_of node name blocked_thread)
  unfolding enabler_heads_for_rwlock_writer
  enabler_heads_for_rwlock_writer-AreHeads node name blocked_thread =
      heads_for_writer-AreHeads (lookup name node.rwlocks) blocked_thread

  pub enabler_heads_for_rwlock_readers-AreHeads :
      (node : DporNode) (name : String) (blocked_thread : ℕ) (skip : Bool)
      → AreHeads enabled (enabler_heads_for_rwlock_readers heads_of node name blocked_thread skip)
  unfolding enabler_heads_for_rwlock_readers
  enabler_heads_for_rwlock_readers-AreHeads node name blocked_thread skip =
      elim (lookup name node.rwlocks)
        as (λ found. AreHeads enabled (elim found [
          | none ↦ ok none
          | some rwlock ↦ heads_for_readers heads_of blocked_thread skip rwlock.reader_holders []
        ])) [
          | none ↦ tt
          | some rwlock ↦ heads_for_readers-AreHeads blocked_thread skip rwlock.reader_holders [] tt
        ]

  pub enabler_heads_for_w_lock-AreHeads :
      (node : DporNode) (name : String) (tid : ℕ)
      → AreHeads enabled (enabler_heads_for_w_lock heads_of node name tid)
  unfolding enabler_heads_for_w_lock
  enabler_heads_for_w_lock-AreHeads node name tid =
      if-rule (AreHeads enabled) _ (λ _. enabler_heads_for_rwlock_writer-AreHeads node name tid)
        (λ _. enabler_heads_for_rwlock_readers-AreHeads node name tid false)

  enabler_heads_for_mutex_owner-AreHeads :
      (node : DporNode) (mutex : String) (tid : ℕ)
      → AreHeads enabled (enabler_heads_for_mutex_owner heads_of node mutex tid)
  unfolding enabler_heads_for_mutex_owner
  enabler_heads_for_mutex_owner-AreHeads node mutex tid =
      elim (lookup mutex node.mutex_owner)
        as (λ found. AreHeads enabled (elim found [
          | none ↦ ok none
          | some owner ↦ if eqb owner tid then ok none else heads_of owner
        ])) [ none ↦ tt | some owner ↦ other_thread-AreHeads owner tid ]

  pub enabler_heads_for_join-AreHeads :
      (program : Program) (tid : ℕ) (action : Action)
      → AreHeads enabled (enabler_heads_for_join heads_of program tid action)
  unfolding enabler_heads_for_join
  enabler_heads_for_join-AreHeads program tid action =
      if-rule (AreHeads enabled) _ {x = ok none} (λ _. tt) (λ _. heads_of-AreHeads action.target)

  pub enabler_heads_for_wait-AreHeads :
      (program : Program) (node : DporNode) (tid : ℕ) (action : Action)
      → AreHeads enabled (enabler_heads_for_wait heads_of program node tid action)
  unfolding enabler_heads_for_wait enabler_heads_for_waiter
  enabler_heads_for_wait-AreHeads program node tid action =
      if-rule (AreHeads enabled) (is_waiting (node.wait_phase tid))
        {x = enabler_heads_for_waiter heads_of program node action} {y = ok none}
        (λ _.
          gather_heads-AreHeads
            (keep (λ source. has_remaining_wake_on program node source action.condition)
              (range (thread_count program)))
            [] tt)
        (λ _. tt)

  enabler_heads_for_kind-AreHeads :
      (kind : ActionKind) (program : Program) (node : DporNode) (tid : ℕ) (a effective : Action)
      → AreHeads enabled (enabler_heads_for_kind kind heads_of program node tid a effective)
  unfolding enabler_heads_for_kind
  enabler_heads_for_kind-AreHeads ActionKind.lock program node tid a effective =
      enabler_heads_for_mutex_owner-AreHeads node effective.mutex tid
  enabler_heads_for_kind-AreHeads ActionKind.r_lock program node tid a effective =
      enabler_heads_for_rwlock_writer-AreHeads node effective.rwlock tid
  enabler_heads_for_kind-AreHeads ActionKind.w_lock program node tid a effective =
      enabler_heads_for_w_lock-AreHeads node effective.rwlock tid
  enabler_heads_for_kind-AreHeads ActionKind.upgrade program node tid a effective =
      enabler_heads_for_rwlock_readers-AreHeads node effective.rwlock tid true
  enabler_heads_for_kind-AreHeads ActionKind.join program node tid a effective =
      enabler_heads_for_join-AreHeads program tid effective
  enabler_heads_for_kind-AreHeads ActionKind.wait program node tid a effective =
      enabler_heads_for_wait-AreHeads program node tid a
  enabler_heads_for_kind-AreHeads _ program node tid a effective = tt

  heads_when_blocked-AreHeads :
      (program : Program) (node : DporNode) (tid : ℕ) (action : Action)
      → AreHeads enabled (heads_when_blocked heads_of program node tid action)
  unfolding heads_when_blocked
  heads_when_blocked-AreHeads program node tid action =
      enabler_heads_for_kind-AreHeads _ program node tid action _

  at_next_action-AreHeads :
      (program : Program) (node : DporNode) (tid : ℕ) (next : Option Action)
      → AreHeads enabled (or_out_of_range next >>= heads_when_blocked heads_of program node tid)
  at_next_action-AreHeads program node tid none = tt
  at_next_action-AreHeads program node tid (some action) =
      heads_when_blocked-AreHeads program node tid action

keep-All {ℓ κ} :
    {A : Type ℓ} (P : A → Type κ) (test : A → Bool) (xs : List A) → All P xs → All P (keep test xs)
keep-All P test [] all = tt
keep-All P test (x ∷ xs) (here, all) =
    if-rule (All P) (test x) (λ _. (here, keep-All P test xs all)) (λ _. keep-All P test xs all)

pub IsWithin-refl : (steps : List ScheduleStep) → IsWithin steps steps
IsWithin-refl [] = tt
IsWithin-refl (s ∷ steps) = (
  ground (arith, step_eq_iff s s),
  All-mono steps (λ t h. ground (arith, h)) (IsWithin-refl steps),
)

pub heads_of_thread-AreHeads :
    (heads_of : ℕ → Heads) (program : Program) (node : DporNode) (tid : ℕ)
    → ((other : ℕ) → AreHeads node.enabled (heads_of other))
    → AreHeads node.enabled (heads_of_thread heads_of program node tid)
unfolding heads_of_thread enabler_heads_for_spawn_target next_action_at_node
    enabled_steps_for_thread_at_node
heads_of_thread-AreHeads heads_of program node tid below =
    if-rule (AreHeads node.enabled) (not (node.started tid))
      (λ _.
        gather_heads-AreHeads node.enabled heads_of below
          (keep (λ source. has_remaining_spawn_to program node source tid)
            (range (thread_count program)))
          [] tt)
      (λ _.
        if-rule (AreHeads node.enabled) (is_finished_at_node program node tid) {x = ok none}
          (λ _. tt)
          (λ _.
            if-rule (AreHeads node.enabled) (enabled_at_node node tid)
              (λ _. keep-All _ _ node.enabled (IsWithin-refl node.enabled))
              (λ _.
                at_next_action-AreHeads node.enabled heads_of below program node tid
                  (get_elem? (thread_at program tid) (node.pc tid)))))
