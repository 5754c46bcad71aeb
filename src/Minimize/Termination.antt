-- ===== src/Minimize/Termination.antt =====
-- src/model/checker.cpp: the `while (changed)` loop of `minimize_schedule_for_identities` ends, as
-- every round but the last deletes a step.
use dpor_concurrency_model_c.Common.{
  ℕ, zero, suc, ◌≤◌, ◌<◌, Bool, true, false, List, [], ◌∷◌, some, ◌≡◌, refl, arith, length, range,
  get_elem?, All, ◌≢◌, if◌then◌else◌, ◌||◌, Bool-cases, Option-cases, inl, inr, ◌⊎◌,
}
use dpor_concurrency_model_c.Common.Result.{
  Result, ok, throw, ◌>>=◌, Exception, invalid_schedule, invalid_argument, out_of_fuel, logic_error,
  overflow_error, out_of_range,
}
use dpor_concurrency_model_c.Action.{Schedule, ScheduleStep, Program}
use dpor_concurrency_model_c.State.{MemoryModel, thread_count}
use dpor_concurrency_model_c.Report.{CheckResult}
use dpor_concurrency_model_c.Replay.{replay_schedule}
use dpor_concurrency_model_c.Minimize.Identity.{
  BugIdentitySet, is_report_endpoint, reproduces_identities,
}
use dpor_concurrency_model_c.Minimize.Defs.{
  erase_at, accepts, last_step_index_for_thread, try_thread, try_threads, minimize_rounds,
  minimize_schedule_for_identities,
}
use dpor_concurrency_model_c.Minimize.Laws.{try_threads-Round, rounds-Minimized}

module _ (replay : Schedule → Result CheckResult) (target : BugIdentitySet) where
  -- An exception that a replay throws.
  abbrev pub Rethrown : Exception → Type 0
  Rethrown e = (s : Schedule) × (replay s ≡ throw e)

  -- A result, or an exception of a replay.
  abbrev pub Ends {ℓ} : {A : Type ℓ} → Result A → Type ℓ
  Ends {A} r = ((a : A) × (r ≡ ok a)) ⊎ ((e : Exception) × (r ≡ throw e) × Rethrown e)

  accepts-Ends : (s : Schedule) (r : Result CheckResult) → replay s ≡ r → Ends (accepts r target)
  unfolding accepts
  accepts-Ends s (ok r) h = inl (reproduces_identities r target, refl)
  accepts-Ends s (throw (logic_error m)) h = inr (logic_error m, refl, (s, h))
  accepts-Ends s (throw (overflow_error m)) h = inr (overflow_error m, refl, (s, h))
  accepts-Ends s (throw out_of_range) h = inr (out_of_range, refl, (s, h))
  accepts-Ends s (throw (invalid_argument m)) h = inl (false, refl)
  accepts-Ends s (throw (invalid_schedule i m)) h = inl (false, refl)
  accepts-Ends s (throw out_of_fuel) h = inr (out_of_fuel, refl, (s, h))

  Ends->>= {ℓ κ} :
      {A : Type ℓ} {B : Type κ} (r : Result A) (f : A → Result B)
      → Ends r
      → ((a : A) → r ≡ ok a → Ends (f a))
      → Ends (r >>= f)
  Ends->>= (ok a) f h k = k a refl
  Ends->>= (throw e) f (inl (a, h)) k = cc
  Ends->>= (throw e) f (inr (e', h, w)) k = inr (e', cc, w)

  try_thread-Ends : (m : Schedule) (tid : ℕ) → Ends (try_thread replay target m tid)
  unfolding try_thread
  try_thread-Ends m tid = elim (Option-cases (last_step_index_for_thread m tid)) [
    | inl e ↦ rw (e, try_thread) (inl ((m, false), refl))
    | inr (i, e) ↦
        rw (e, try_thread)
          (elim (Option-cases (get_elem? m i)) [
            | inl f ↦ rw f (inl ((m, false), refl))
            | inr (x, f) ↦ rw f (elim (Bool-cases (is_report_endpoint x target)) [
              | inl b ↦ rw b (inl ((m, false), refl))
              | inr b ↦ rw b (
                  Ends->>= (accepts (replay (erase_at i m)) target) _
                    (accepts-Ends (erase_at i m) (replay (erase_at i m)) refl)
                    (λ reproduced _. inl (_, refl)))
            ])
          ])
  ]

  try_threads-Ends :
      (tids : List ℕ) (m : Schedule) (changed : Bool)
      → Ends (try_threads replay target tids m changed)
  unfolding try_threads
  try_threads-Ends [] m changed = inl ((m, changed), refl)
  try_threads-Ends (tid ∷ tids) m changed =
      Ends->>= (try_thread replay target m tid) _ (try_thread-Ends m tid)
        (λ r _. try_threads-Ends tids r.0 (r.1 || changed))

  minimize_rounds-Ends :
      (fuel threads : ℕ) (m : Schedule)
      → length m < fuel
      → Ends (minimize_rounds replay target fuel threads m)
  unfolding minimize_rounds
  minimize_rounds-Ends zero threads m h = absurd (omega arith)
  minimize_rounds-Ends (suc fuel) threads m h =
      Ends->>= (try_threads replay target (range threads) m false) _
        (try_threads-Ends (range threads) m false)
        (λ r e. go r.0 r.1 e (minimize_rounds-Ends fuel threads r.0))
    where
      go :
          (next : Schedule) (changed : Bool)
          → try_threads replay target (range threads) m false ≡ ok (next, changed)
          → (length next < fuel → Ends (minimize_rounds replay target fuel threads next))
          → Ends (if changed then minimize_rounds replay target fuel threads next else ok next)
      go next false e ih = inl (next, refl)
      go next true e ih = ih (
          omega (
            arith,
            (try_threads-Round replay target (range threads) m next false true e).loud refl refl,
          ))

  -- The last step of a thread cannot go: it is a report endpoint, or the rest loses the bug.
  abbrev pub CannotDelete : Schedule → ℕ → Type 0
  CannotDelete m tid =
      (i : ℕ) (x : ScheduleStep)
      → last_step_index_for_thread m tid ≡ some i
      → get_elem? m i ≡ some x
      → is_report_endpoint x target ≡ false
      → accepts (replay (erase_at i m)) target ≢ ok true

  cannot_delete :
      (m : Schedule) (tid : ℕ) → try_thread replay target m tid ≡ ok (m, false) → CannotDelete m tid
  unfolding try_thread
  cannot_delete m tid h i x e f b r = ground arith

  pub record IsMinimized (threads : ℕ) (m result : Schedule) : Type 0 where
    pub keeps : accepts (replay m) target ≡ ok true → accepts (replay result) target ≡ ok true
    pub shorter : length result ≤ length m
    pub minimal : All (CannotDelete result) (range threads)

  All-map {κ μ} :
      {P : ℕ → Type κ} {Q : ℕ → Type μ} (tids : List ℕ)
      → ((tid : ℕ) → P tid → Q tid)
      → All P tids
      → All Q tids
  All-map [] f h = tt
  All-map (tid ∷ tids) f h = (f tid h.0, All-map tids f h.1)

  rounds-IsMinimized :
      (fuel threads : ℕ) (m result : Schedule)
      → minimize_rounds replay target fuel threads m ≡ ok result
      → IsMinimized threads m result
  rounds-IsMinimized fuel threads m result h =
      let r = rounds-Minimized replay target fuel threads m result h in
      record {
        keeps = r.keeps;
        shorter = r.shorter;
        minimal = All-map (range threads) (cannot_delete result) r.minimal;
      }

  rounds-total :
      (fuel threads : ℕ) (m : Schedule)
      → length m < fuel
      → ((result : Schedule) × (minimize_rounds replay target fuel threads m ≡ ok result)
          × IsMinimized threads m result)
        ⊎ ((e : Exception) × (minimize_rounds replay target fuel threads m ≡ throw e) × Rethrown e)
  rounds-total fuel threads m h = elim (minimize_rounds-Ends fuel threads m h) [
    | inl (result, e) ↦ inl (result, e, rounds-IsMinimized fuel threads m result e)
    | inr thrown ↦ inr thrown
  ]

-- The minimizer always ends. It rethrows an exception of some replay, or it returns a schedule that
-- reproduces the bugs of the target if the given one does, is no longer than the given one, and
-- loses a bug of the target with the last step of any thread, unless that step is an endpoint of
-- the report.
pub minimize_schedule-IsMinimized :
    (program : Program) (schedule : Schedule) (target : BugIdentitySet) (step_bound : ℕ)
    (memory_model : MemoryModel)
    → let run = minimize_schedule_for_identities program schedule target step_bound memory_model in
      let replay = λ (s : Schedule). replay_schedule program s step_bound memory_model in
      ((result : Schedule) × (run ≡ ok result)
        × IsMinimized replay target (thread_count program) schedule result)
      ⊎ ((e : Exception) × (run ≡ throw e) × Rethrown replay target e)
unfolding minimize_schedule_for_identities
minimize_schedule-IsMinimized program schedule target step_bound memory_model =
    rounds-total (λ s. replay_schedule program s step_bound memory_model) target
      (suc (length schedule)) (thread_count program) schedule (omega arith)
