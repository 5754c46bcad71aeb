-- ===== src/Minimize/Laws.antt =====
-- src/model/checker.cpp: what the greedy deletion of `minimize_schedule_for_identities` keeps, that
-- it ends, and that its result is minimal for single deletions at the ends of threads.
use dpor_concurrency_model_c.Common.{
  ℕ, zero, suc, ◌≤◌, ◌<◌, Bool, true, false, List, [], ◌∷◌, some, ◌≡◌, refl, ap, sym, ◌∙◌, subst,
  arith, length, range, get_elem?, All, if◌then◌else◌, ◌||◌, Bool-cases, Option-cases, inl, inr,
  ◌⊎◌,
}
use dpor_concurrency_model_c.Common.Result.{Result, ok, throw, ◌>>=◌, >>=-eq-ok}
use dpor_concurrency_model_c.Action.{Schedule, ScheduleStep}
use dpor_concurrency_model_c.Report.{CheckResult}
use dpor_concurrency_model_c.Minimize.Identity.{BugIdentitySet, is_report_endpoint}
use dpor_concurrency_model_c.Minimize.Defs.{
  erase_at, accepts, last_step_index_for_thread, try_thread, try_threads, minimize_rounds,
}

length-erase_at :
    (i : ℕ) (xs : Schedule) (x : ScheduleStep)
    → get_elem? xs i ≡ some x
    → suc (length (erase_at i xs)) ≡ length xs
unfolding erase_at
length-erase_at i [] x h = cc
length-erase_at zero (y ∷ ys) x h = refl
length-erase_at (suc i) (y ∷ ys) x h = ap suc (length-erase_at i ys x h)

module _ (replay : Schedule → Result CheckResult) (target : BugIdentitySet) where
  -- Replay of the schedule gives each bug of the target again.
  abbrev pub Reproduces : Schedule → Type 0
  Reproduces m = accepts (replay m) target ≡ ok true

  -- An attempt either leaves the schedule alone, or deletes a step and still reproduces.
  abbrev Attempt : Schedule → Schedule → Bool → Type 0
  Attempt m next went =
      ((next ≡ m) × (went ≡ false))
      ⊎ ((went ≡ true) × (suc (length next) ≡ length m) × Reproduces next)

  deletes :
      (m next : Schedule) (went : Bool) (i : ℕ) (x : ScheduleStep) (a : Result Bool)
      → get_elem? m i ≡ some x
      → accepts (replay (erase_at i m)) target ≡ a
      → (◌>>=◌ {B = Schedule × Bool} a (λ b. ok (if b then (erase_at i m, true) else (m, false))))
        ≡ ok (next, went)
      → Attempt m next went
  deletes m next went i x (throw e) g acc h = cc
  deletes m next went i x (ok true) g acc h = ground (arith, length-erase_at i m x)
  deletes m next went i x (ok false) g acc h = ground arith

  try_thread-Attempt :
      (m next : Schedule) (tid : ℕ) (went : Bool)
      → try_thread replay target m tid ≡ ok (next, went)
      → Attempt m next went
  unfolding try_thread
  try_thread-Attempt m next tid went h = elim (Option-cases (last_step_index_for_thread m tid)) [
    | inl e ↦ ground arith
    | inr (i, e) ↦ elim (Option-cases (get_elem? m i)) [
      | inl f ↦ ground arith
      | inr (x, f) ↦ elim (Bool-cases (is_report_endpoint x target)) [
        | inl b ↦ ground arith
        | inr b ↦
            deletes m next went i x (accepts (replay (erase_at i m)) target) f refl (ground arith)
      ]
    ]
  ]

  -- No thread's attempt deletes from the schedule.
  abbrev pub Minimal : List ℕ → Schedule → Type 0
  Minimal tids m = All (λ tid. try_thread replay target m tid ≡ ok (m, false)) tids

  -- What one round does: it deletes nothing and the schedule is minimal, or the schedule is shorter.
  pub record Round (tids : List ℕ) (m next : Schedule) (before after : Bool) : Type 0 where
    keeps : Reproduces m → Reproduces next
    pub shorter : length next ≤ length m
    quiet : after ≡ false → (before ≡ false) × (next ≡ m) × Minimal tids m
    pub loud : before ≡ false → after ≡ true → length next < length m

  Round-nil : (m : Schedule) (before : Bool) → Round [] m m before before
  Round-nil m before = record {
    keeps = λ h. h;
    shorter = omega arith;
    quiet = λ e. (e, refl, tt);
    loud = λ e f. cc;
  }

  -- An attempt that deletes nothing.
  Round-still :
      (tid : ℕ) (tids : List ℕ) (m next : Schedule) (before after : Bool)
      → try_thread replay target m tid ≡ ok (m, false)
      → Round tids m next before after
      → Round (tid ∷ tids) m next before after
  Round-still tid tids m next before after t r = record {
    keeps = r.keeps;
    shorter = r.shorter;
    quiet = λ e. ((r.quiet e).0, (r.quiet e).1, (t, (r.quiet e).2));
    loud = r.loud;
  }

  -- An attempt that deletes a step.
  Round-gone :
      (tid : ℕ) (tids : List ℕ) (m mid next : Schedule) (before after : Bool)
      → suc (length mid) ≡ length m
      → Reproduces mid
      → Round tids mid next true after
      → Round (tid ∷ tids) m next before after
  Round-gone tid tids m mid next before after f g r = record {
    keeps = λ _. r.keeps g;
    shorter = omega (arith, r.shorter);
    quiet = λ e. cc ((r.quiet e).0);
    loud = λ _ _. omega (arith, r.shorter);
  }

  Round-cons :
      (tid : ℕ) (tids : List ℕ) (m mid next : Schedule) (before went after : Bool)
      → try_thread replay target m tid ≡ ok (mid, went)
      → Attempt m mid went
      → Round tids mid next (went || before) after
      → Round (tid ∷ tids) m next before after
  Round-cons tid tids m mid next before true after t (inl (e, f)) r = cc
  Round-cons tid tids m mid next before false after t (inl (e, f)) r =
      Round-still tid tids m next before after
        (subst (λ k. try_thread replay target m tid ≡ ok (k, false)) e t)
        (subst (λ k. Round tids k next before after) e r)
  Round-cons tid tids m mid next before false after t (inr (e, f, g)) r = cc
  Round-cons tid tids m mid next before true after t (inr (e, f, g)) r =
      Round-gone tid tids m mid next before after f g r

  pub try_threads-Round :
      (tids : List ℕ) (m next : Schedule) (before after : Bool)
      → try_threads replay target tids m before ≡ ok (next, after)
      → Round tids m next before after
  unfolding try_threads
  try_threads-Round [] m next before after h =
      let same : m ≡ next = cc in
      let flag : before ≡ after = cc in
      subst (λ k. Round [] m k before after) same
        (subst (λ b. Round [] m m before b) flag (Round-nil m before))
  try_threads-Round (tid ∷ tids) m next before after h =
      let ((mid, went), t, rest) = >>=-eq-ok (try_thread replay target m tid) _ h in
      Round-cons tid tids m mid next before went after t (try_thread-Attempt m mid tid went t)
        (try_threads-Round tids mid next (went || before) after rest)

  -- What the rounds from a schedule on return.
  pub record Minimized (threads : ℕ) (m result : Schedule) : Type 0 where
    pub keeps : Reproduces m → Reproduces result
    pub shorter : length result ≤ length m
    pub minimal : Minimal (range threads) result

  last-Round :
      (threads : ℕ) (m next result : Schedule)
      → Round (range threads) m next false false
      → next ≡ result
      → Minimized threads m result
  last-Round threads m next result r e =
      subst (λ k. Minimized threads m k) (sym ((r.quiet refl).1) ∙ e)
        (record { keeps = λ h. h; shorter = omega arith; minimal = (r.quiet refl).2 })

  more_rounds :
      (threads : ℕ) (m next result : Schedule) (after : Bool)
      → Round (range threads) m next false after
      → Minimized threads next result
      → Minimized threads m result
  more_rounds threads m next result after r rest = record {
    keeps = λ h. rest.keeps (r.keeps h);
    shorter = omega (arith, r.shorter, rest.shorter);
    minimal = rest.minimal;
  }

  pub rounds-Minimized :
      (fuel threads : ℕ) (m result : Schedule)
      → minimize_rounds replay target fuel threads m ≡ ok result
      → Minimized threads m result
  unfolding minimize_rounds
  rounds-Minimized zero threads m result h = cc
  rounds-Minimized (suc fuel) threads m result h =
      let ((next, after), t, rest) =
        >>=-eq-ok (try_threads replay target (range threads) m false) _ h in
      go next after (try_threads-Round (range threads) m next false after t)
        (rounds-Minimized fuel threads next result) rest
    where
      go :
          (next : Schedule) (after : Bool)
          → Round (range threads) m next false after
          → (minimize_rounds replay target fuel threads next ≡ ok result
              → Minimized threads next result)
          → (if after then minimize_rounds replay target fuel threads next else ok next) ≡ ok result
          → Minimized threads m result
      go next true r ih rest = more_rounds threads m next result true r (ih rest)
      go next false r ih rest = last-Round threads m next result r (cc)
