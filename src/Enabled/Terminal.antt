-- ===== src/Enabled/Terminal.antt =====
-- src/model/checker.cpp: `any_enabled`, with which replay finds the end of an execution, and the list
-- `enabled_steps`, with which the explorer does.
use dpor_concurrency_model_c.Common.{
  ℕ, zero, suc, ◌+◌, ◌≤◌, ◌<◌, Bool, true, false, List, [], ◌∷◌, ◌≡◌, refl, sym, subst, arith, ◌||◌,
  any, count_up, is_empty, Bool-cases, inl, inr, ◌↔◌, String, eqb,
}
use dpor_concurrency_model_c.Action.{Program, ScheduleStep, step_eq}
use dpor_concurrency_model_c.State.{ExecutionState, MemoryModel, PsoAddressBuffer, thread_count}
use dpor_concurrency_model_c.State.Buffers.{has_pending_store}
use dpor_concurrency_model_c.Enabled.{is_program_action_enabled, any_enabled}
use dpor_concurrency_model_c.Enabled.Steps.{
  enabled_steps, flush_steps, pso_flush_steps, source_step,
}
use dpor_concurrency_model_c.Enabled.Membership.{enabled_steps_iff, Offers, step_eq_refl}

module _ (p : ℕ → Bool) where
  any-count_up :
      (start n : ℕ)
      → any p (count_up start n) ≡ true
      → (i : ℕ) × (start ≤ i) × (i < start + n) × (p i ≡ true)
  any-count_up start zero h = cc
  any-count_up start (suc n) h = elim (Bool-cases (p start)) [
    | inl e ↦ (start, omega arith, omega arith, e)
    | inr e ↦
        let (i, lo, hi, q) = any-count_up (suc start) n (ground arith) in
        (i, omega arith, omega arith, q)
  ]

  count_up-any :
      (start n i : ℕ) → start ≤ i → i < start + n → p i ≡ true → any p (count_up start n) ≡ true
  count_up-any start zero i lo hi q = absurd (omega arith)
  count_up-any start (suc n) i lo hi q = elim (Bool-cases (eqb start i)) [
    | inl e ↦ ground (arith, subst (λ j. p j ≡ true) (sym (same e)) q)
    | inr e ↦ ground (arith, count_up-any (suc start) n i (ground arith) (omega arith) q)
  ]
    where
      same : eqb start i ≡ true → start ≡ i
      same e = ground arith

nonempty-any :
    (xs : List ScheduleStep) (x : ScheduleStep) → any (step_eq x) xs ≡ true → is_empty xs ≡ false
nonempty-any [] x h = cc
nonempty-any (y ∷ xs) x h = refl

any-nonempty :
    (xs : List ScheduleStep)
    → is_empty xs ≡ false
    → (x : ScheduleStep) × (any (step_eq x) xs ≡ true)
any-nonempty [] h = cc
any-nonempty (x ∷ xs) h = (x, rw (step_eq_refl x) refl)

pso_flush_steps-nonempty :
    (names : List String) (tid : ℕ) (b : PsoAddressBuffer)
    → is_empty b ≡ false
    → is_empty (pso_flush_steps names tid b) ≡ false
unfolding pso_flush_steps
pso_flush_steps-nonempty names tid [] h = cc
pso_flush_steps-nonempty names tid ((address, values) ∷ b) h = refl

flush_steps-nonempty :
    (m : MemoryModel) (s : ExecutionState) (tid : ℕ)
    → s.memory_model ≡ m
    → has_pending_store s tid ≡ true
    → is_empty (flush_steps m s tid) ≡ false
unfolding flush_steps has_pending_store
flush_steps-nonempty MemoryModel.sc s tid m h = absurd (ground arith)
flush_steps-nonempty MemoryModel.tso s tid m h = refl
flush_steps-nonempty MemoryModel.pso s tid m h =
    pso_flush_steps-nonempty s.flush_addresses tid (s.pso_store_buffers tid) (ground arith)

-- Only started threads have buffered stores.
abbrev pub PendingStarted : ExecutionState → Type 0
PendingStarted s = (tid : ℕ) → has_pending_store s tid ≡ true → s.started tid ≡ true

enabled_started :
    (program : Program) (s : ExecutionState) (tid : ℕ)
    → is_program_action_enabled program s tid ≡ true
    → s.started tid ≡ true
unfolding is_program_action_enabled
enabled_started program s tid h = ground arith

offer_of :
    (program : Program) (s : ExecutionState) (tid : ℕ)
    → PendingStarted s
    → (has_pending_store s tid || is_program_action_enabled program s tid) ≡ true
    → (step : ScheduleStep) × Offers program s step tid
offer_of program s tid fine h = elim (Bool-cases (has_pending_store s tid)) [
  | inl pending ↦
      let (step, listed) =
        any-nonempty (flush_steps s.memory_model s tid)
          (flush_steps-nonempty s.memory_model s tid refl pending) in
      (step, (fine tid pending, inr (pending, listed)))
  | inr none_pending ↦
      let on : is_program_action_enabled program s tid ≡ true = ground arith in
      (source_step tid (s.pc tid), (enabled_started program s tid on, inl (on, refl)))
]

offer_any :
    (program : Program) (s : ExecutionState) (step : ScheduleStep) (tid : ℕ)
    → Offers program s step tid
    → (has_pending_store s tid || is_program_action_enabled program s tid) ≡ true
offer_any program s step tid (started, inl (on, same)) = ground arith
offer_any program s step tid (started, inr (pending, listed)) = ground arith

-- If only started threads have buffered stores, `any_enabled` holds exactly if the list of enabled
-- steps is not empty.
pub any_enabled-enabled_steps :
    (program : Program) (s : ExecutionState)
    → PendingStarted s
    → (any_enabled program s ≡ true) ↔ (is_empty (enabled_steps program s) ≡ false)
unfolding any_enabled
any_enabled-enabled_steps program s fine = (
  λ h.
      let (tid, lo, hi, q) = any-count_up _ 0 (thread_count program) h in
      let (step, offer) = offer_of program s tid fine q in
      nonempty-any (enabled_steps program s) step
        ((enabled_steps_iff program s step).1 (tid, omega arith, offer)),
  λ h.
      let (step, listed) = any-nonempty (enabled_steps program s) h in
      let (tid, lt, offer) = (enabled_steps_iff program s step).0 listed in
      count_up-any (λ t. has_pending_store s t || is_program_action_enabled program s t) 0
        (thread_count program) tid (omega arith) (omega arith) (offer_any program s step tid offer),
)
