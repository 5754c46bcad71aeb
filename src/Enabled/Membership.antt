-- ===== src/Enabled/Membership.antt =====
-- src/model/checker.cpp: which steps `enabled_steps` lists.
use dpor_concurrency_model_c.Common.{
  ℕ, zero, suc, ◌+◌, ◌≤◌, ◌<◌, Bool, true, false, List, [], ◌∷◌, ◌++◌, ◌≡◌, refl, sym, ◌∙◌, subst,
  arith, ◌&&◌, ◌||◌, eqb, any, range, count_up, if◌then◌else◌, Bool-cases, inl, inr, ◌⊎◌, ◌↔◌,
}
use dpor_concurrency_model_c.Action.{Program, ScheduleStep, step_eq}
use dpor_concurrency_model_c.State.{ExecutionState, thread_count}
use dpor_concurrency_model_c.State.Buffers.{has_pending_store}
use dpor_concurrency_model_c.Enabled.{is_program_action_enabled}
use dpor_concurrency_model_c.Enabled.Steps.{
  enabled_steps, enabled_steps_for_thread, steps_of_threads, sort_steps, insert_sorted, flush_steps,
  source_step,
}

pub step_eq→eq : (s t : ScheduleStep) → step_eq s t ≡ true → s ≡ t
step_eq→eq s t h = ground arith

pub step_eq_refl : (s : ScheduleStep) → step_eq s s ≡ true
step_eq_refl s = ground arith

module _ {ℓ} {A : Type ℓ} (p : A → Bool) where
  pub any-append : (xs ys : List A) → any p (xs ++ ys) ≡ (any p xs || any p ys)
  any-append [] ys = refl
  any-append (x ∷ xs) ys = ground (arith, any-append xs ys)

module _ (p : ScheduleStep → Bool) where
  any-insert_sorted :
      (x : ScheduleStep) (ys : List ScheduleStep) → any p (insert_sorted x ys) ≡ (p x || any p ys)
  unfolding insert_sorted
  any-insert_sorted x [] = refl
  any-insert_sorted x (y ∷ ys) = ground (arith, any-insert_sorted x ys)

  any-sort_steps : (xs : List ScheduleStep) → any p (sort_steps xs) ≡ any p xs
  unfolding sort_steps
  any-sort_steps [] = refl
  any-sort_steps (x ∷ xs) = ground (arith, any-insert_sorted x (sort_steps xs), any-sort_steps xs)

-- The transitions of a thread, said of one step: the source action at the program counter, or a
-- flush of what the thread has buffered.
abbrev pub Offers : Program → ExecutionState → ScheduleStep → ℕ → Type 0
Offers program s step tid =
    (s.started tid ≡ true)
    × (((is_program_action_enabled program s tid ≡ true) × (step ≡ source_step tid (s.pc tid)))
        ⊎ ((has_pending_store s tid ≡ true)
            × (any (step_eq step) (flush_steps s.memory_model s tid) ≡ true)))

step_eq_iff : (s t : ScheduleStep) → (step_eq s t ≡ true) ↔ (s ≡ t)
step_eq_iff s t = (step_eq→eq s t, λ e. subst (λ u. step_eq s u ≡ true) e (step_eq_refl s))

any_if :
    (p : ScheduleStep → Bool) (b : Bool) (xs : List ScheduleStep)
    → any p (if b then xs else []) ≡ (b && any p xs)
any_if p true xs = refl
any_if p false xs = refl

any_source : (step src : ScheduleStep) → any (step_eq step) (src ∷ []) ≡ step_eq step src
any_source step src = ground arith

offers_test :
    (program : Program) (s : ExecutionState) (step : ScheduleStep) (tid : ℕ)
    → any (step_eq step) (enabled_steps_for_thread program s tid) ≡ (
        s.started tid
        && ((is_program_action_enabled program s tid && step_eq step (source_step tid (s.pc tid)))
            || (has_pending_store s tid && any (step_eq step) (flush_steps s.memory_model s tid))))
unfolding enabled_steps_for_thread
offers_test program s step tid = elim (Bool-cases (s.started tid)) [
  | inl on ↦ rw (on, any-append, any_if, any_if, any_source) refl
  | inr off ↦ rw off refl
]

bools_iff :
    {P Q : Type 0} (started enabled pending a b : Bool)
    → (a ≡ true) ↔ P
    → (b ≡ true) ↔ Q
    → ((started && ((enabled && a) || (pending && b))) ≡ true)
      ↔ ((started ≡ true) × (((enabled ≡ true) × P) ⊎ ((pending ≡ true) × Q)))
bools_iff false e p a b f g = (λ h. cc, λ h. cc (h.0))
bools_iff true true p true b f g = (λ h. (refl, inl (refl, f.0 refl)), λ t. refl)
bools_iff true true true false b f g =
    (λ h. (refl, inr (refl, g.0 h)), λ t. elim (t.1) [ inl x ↦ cc (f.1 (x.1)) | inr y ↦ g.1 (y.1) ])
bools_iff true true false false b f g =
    (λ h. cc, λ t. elim (t.1) [ inl x ↦ cc (f.1 (x.1)) | inr y ↦ cc (y.0) ])
bools_iff true false true a b f g =
    (λ h. (refl, inr (refl, g.0 h)), λ t. elim (t.1) [ inl x ↦ cc (x.0) | inr y ↦ g.1 (y.1) ])
bools_iff true false false a b f g =
    (λ h. cc, λ t. elim (t.1) [ inl x ↦ cc (x.0) | inr y ↦ cc (y.0) ])

for_thread_iff :
    (program : Program) (s : ExecutionState) (step : ScheduleStep) (tid : ℕ)
    → (any (step_eq step) (enabled_steps_for_thread program s tid) ≡ true)
      ↔ Offers program s step tid
for_thread_iff program s step tid = rw (offers_test program s step tid) (
    bools_iff (s.started tid) (is_program_action_enabled program s tid) (has_pending_store s tid)
      (step_eq step (source_step tid (s.pc tid)))
      (any (step_eq step) (flush_steps s.memory_model s tid))
      (step_eq_iff step (source_step tid (s.pc tid))) (λ h. h, λ h. h))

-- The threads from `start` on, `n` of them.
steps_of_threads-from :
    (program : Program) (s : ExecutionState) (step : ScheduleStep) (start n : ℕ)
    → any (step_eq step) (steps_of_threads program s (count_up start n)) ≡ true
    → (tid : ℕ) × (start ≤ tid)
      × (tid < start + n)
      × (any (step_eq step) (enabled_steps_for_thread program s tid) ≡ true)
unfolding steps_of_threads
steps_of_threads-from program s step start zero h = cc
steps_of_threads-from program s step start (suc n) h =
    elim (Bool-cases (any (step_eq step) (enabled_steps_for_thread program s start))) [
      | inl e ↦ (start, omega arith, omega arith, e)
      | inr e ↦
          let (tid, lo, hi, f) = steps_of_threads-from program s step (suc start) n (
            ground (
              arith,
              any-append (step_eq step) (enabled_steps_for_thread program s start)
                  (steps_of_threads program s (count_up (suc start) n)),
            )) in
          (tid, omega arith, omega arith, f)
    ]

steps_of_threads-to :
    (program : Program) (s : ExecutionState) (step : ScheduleStep) (start n tid : ℕ)
    → start ≤ tid
    → tid < start + n
    → any (step_eq step) (enabled_steps_for_thread program s tid) ≡ true
    → any (step_eq step) (steps_of_threads program s (count_up start n)) ≡ true
unfolding steps_of_threads
steps_of_threads-to program s step start zero tid lo hi h = absurd (omega arith)
steps_of_threads-to program s step start (suc n) tid lo hi h =
    rw
      (any-append (step_eq step) (enabled_steps_for_thread program s start)
        (steps_of_threads program s (count_up (suc start) n)))
      (elim (Bool-cases (eqb start tid)) [
        | inl e ↦ ground (arith, h, start_is e)
        | inr e ↦ ground (
          arith,
          steps_of_threads-to program s step (suc start) n tid (ground arith) (omega arith) h,
        )
      ])
  where
    start_is :
        eqb start tid ≡ true → any (step_eq step) (enabled_steps_for_thread program s start) ≡ true
    start_is e =
        subst (λ t. any (step_eq step) (enabled_steps_for_thread program s t) ≡ true) (ground arith)
          h

-- A step is listed exactly if some thread of the program offers it: the thread is started, and the
-- step is its enabled action at the program counter or one of the flushes of its buffers.
pub enabled_steps_iff :
    (program : Program) (s : ExecutionState) (step : ScheduleStep)
    → (any (step_eq step) (enabled_steps program s) ≡ true)
      ↔ ((tid : ℕ) × (tid < thread_count program) × Offers program s step tid)
unfolding enabled_steps
enabled_steps_iff program s step = (
  λ h.
      let (tid, lo, hi, e) = steps_of_threads-from program s step 0 (thread_count program) (
        sym (
          any-sort_steps (step_eq step) (steps_of_threads program s (range (thread_count program))))
        ∙ h) in
      (tid, omega arith, (for_thread_iff program s step tid).0 e),
  λ (tid, hi, o).
      any-sort_steps (step_eq step) (steps_of_threads program s (range (thread_count program)))
      ∙ steps_of_threads-to program s step 0 (thread_count program) tid (omega arith) (omega arith)
          ((for_thread_iff program s step tid).1 o),
)
