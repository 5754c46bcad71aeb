-- ===== src/Minimize/Preserved.antt =====
-- src/model/checker.cpp: `minimize_result_reports` preserves the bugs of the reports it shortens.
use dpor_concurrency_model_c.Common.{
  ℕ, Bool, true, Option, none, some, String, ◌≡◌, ◌⊎◌, refl, sym, ap, subst, arith, Option-cases,
  inl, inr,
}
use dpor_concurrency_model_c.Common.Result.{
  Result, Exception, ok, throw, ◌>>=◌, logic_error, overflow_error, out_of_range, invalid_argument,
  invalid_schedule, out_of_fuel,
}
use dpor_concurrency_model_c.Action.{Program, Schedule, step_eq}
use dpor_concurrency_model_c.State.{MemoryModel}
use dpor_concurrency_model_c.Report.{
  CheckResult, RaceReport, DeadlockReport, ModelErrorReport, AssertionFailureReport,
}
use dpor_concurrency_model_c.Minimize.Identity.{
  BugIdentitySet, race_identity, deadlock_identity, error_identity, assertion_identity, race_eq,
  assertion_eq, all_blocked_eq, identities_of, reproduces_identities,
}
use dpor_concurrency_model_c.Minimize.Defs.{accepts}
use dpor_concurrency_model_c.Minimize.Termination.{minimize_schedule-IsMinimized}
use dpor_concurrency_model_c.Replay.{replay_schedule}
use dpor_concurrency_model_c.Minimize.Reports.{
  minimized_if_present, no_target, preserved_report, minimized_report, minimized_race_report,
  minimized_deadlock_report, minimized_error_report, minimized_assertion_report,
  minimize_result_reports,
}

-- What each report asks a replay to show.
abbrev pub race_target : RaceReport → BugIdentitySet
race_target report = record no_target { race = some (race_identity report) }

abbrev pub deadlock_target : DeadlockReport → BugIdentitySet
deadlock_target report = record no_target { deadlock = some (deadlock_identity report) }

abbrev pub error_target : ModelErrorReport → BugIdentitySet
error_target report = record no_target { error = some (error_identity report) }

abbrev pub assertion_target : AssertionFailureReport → BugIdentitySet
assertion_target report = record no_target { assertion = some (assertion_identity report) }

-- Nothing in place of nothing, or a report of the same identity.
abbrev pub SameBug : {R I : Type 0} → (I → I → Bool) → (R → I) → Option R → Option R → Type 0
SameBug eq identity none none = Unit
SameBug eq identity (some before) (some after) = eq (identity after) (identity before) ≡ true
SameBug eq identity _ _ = ⊥

accepts-ok :
    (r : Result CheckResult) (target : BugIdentitySet)
    → accepts r target ≡ ok true
    → (replayed : CheckResult) × (r ≡ ok replayed) × (reproduces_identities replayed target ≡ true)
unfolding accepts
accepts-ok (ok replayed) target h =
    (replayed, refl, ap (λ q. elim q [ ok b ↦ b | throw e ↦ true ]) h)
accepts-ok (throw (invalid_schedule index reason)) target h = absurd (cc h)
accepts-ok (throw (invalid_argument reason)) target h = absurd (cc h)
accepts-ok (throw (logic_error reason)) target h = absurd (cc h)
accepts-ok (throw (overflow_error reason)) target h = absurd (cc h)
accepts-ok (throw out_of_range) target h = absurd (cc h)
accepts-ok (throw out_of_fuel) target h = absurd (cc h)

module _ (program : Program) (step_bound : ℕ) (m : MemoryModel) where
  -- A result with the property, or an exception that the replay of some schedule throws.
  abbrev pub Outcome : {A : Type 0} → (A → Type 0) → Result A → Type 0
  Outcome {A} P r =
      ((a : A) × (r ≡ ok a) × P a)
      ⊎ ((e : Exception) × (r ≡ throw e)
          × (s : Schedule) × (replay_schedule program s step_bound m ≡ throw e))

  Outcome->>= :
      {A B : Type 0} (Q : A → Type 0) (P : B → Type 0) (first : Result A) (onward : A → Result B)
      → Outcome Q first
      → ((a : A) → Q a → Outcome P (onward a))
      → Outcome P (first >>= onward)
  Outcome->>= Q P first onward (inl (a, e, held)) go =
      subst (λ r. Outcome P (r >>= onward)) (sym e) (go a held)
  Outcome->>= Q P first onward (inr (thrown, e, s, cause)) go =
      subst (λ r. Outcome P (r >>= onward)) (sym e) (inr (thrown, refl, s, cause))

  -- The replay of the report's schedule shows its bug.
  abbrev pub Shown : {R : Type 0} → (R → Schedule) → (R → BugIdentitySet) → Option R → Type 0
  Shown schedule_of target_of none = Unit
  Shown schedule_of target_of (some report) =
      accepts (replay_schedule program (schedule_of report) step_bound m) (target_of report)
      ≡ ok true

  minimized_report-Outcome :
      {R : Type 0} (report_of : CheckResult → Option R) (failure : String) (P : R → Type 0)
      (schedule : Schedule) (target : BugIdentitySet)
      → ((replayed : CheckResult)
          → reproduces_identities replayed target ≡ true
          → (found : R) × (report_of replayed ≡ some found) × P found)
      → accepts (replay_schedule program schedule step_bound m) target ≡ ok true
      → Outcome P (minimized_report report_of failure program schedule target step_bound m)
  unfolding minimized_report preserved_report
  minimized_report-Outcome report_of failure P schedule target present shown =
      elim (minimize_schedule-IsMinimized program schedule target step_bound m) [
        | inr (thrown, e, (s, cause)) ↦ inr (thrown, rw e refl, s, cause)
        | inl (minimized, e, is_minimized) ↦
            let (replayed, f, same) =
              accepts-ok (replay_schedule program minimized step_bound m) target
                (is_minimized.keeps shown) in
            let (found, there, held) = present replayed same in
            inl (found, rw (e, f, same, there) refl, held)
      ]

  if_present-Outcome :
      {R I : Type 0} (eq : I → I → Bool) (identity : R → I) (schedule_of : R → Schedule)
      (target_of : R → BugIdentitySet) (minimized : R → Result R)
      → ((before : R)
          → Shown schedule_of target_of (some before)
          → Outcome (λ after. eq (identity after) (identity before) ≡ true) (minimized before))
      → (first : Option R) → Shown schedule_of target_of first
      → Outcome (SameBug eq identity first) (minimized_if_present minimized first)
  if_present-Outcome eq identity schedule_of target_of minimized keeps none shown =
      inl (none, refl, tt)
  if_present-Outcome eq identity schedule_of target_of minimized keeps (some before) shown =
      Outcome->>= (λ after. eq (identity after) (identity before) ≡ true)
        (SameBug eq identity (some before)) (minimized before) _ (keeps before shown)
        (λ after same. inl (some after, refl, same))

  race-Outcome :
      (before : RaceReport)
      → Shown (λ r. r.schedule) race_target (some before)
      → Outcome
          (λ after. race_eq (race_identity after) (race_identity before) ≡ true)
          (minimized_race_report program before step_bound m)
  unfolding minimized_race_report reproduces_identities identities_of
  race-Outcome before shown =
      minimized_report-Outcome (λ r. r.first_race) _
        (λ after. race_eq (race_identity after) (race_identity before) ≡ true) before.schedule
        (race_target before)
        (λ replayed same. elim (Option-cases replayed.first_race) [
          | inl absent ↦ absurd (ground (arith, same, absent))
          | inr (found, there) ↦ (found, there, ground (arith, same, there))
        ])
        shown

  deadlock-Outcome :
      (before : DeadlockReport)
      → Shown (λ r. r.schedule) deadlock_target (some before)
      → Outcome
          (λ after. all_blocked_eq (deadlock_identity after) (deadlock_identity before) ≡ true)
          (minimized_deadlock_report program before step_bound m)
  unfolding minimized_deadlock_report reproduces_identities identities_of
  deadlock-Outcome before shown =
      minimized_report-Outcome (λ r. r.first_deadlock) _
        (λ after. all_blocked_eq (deadlock_identity after) (deadlock_identity before) ≡ true)
        before.schedule (deadlock_target before)
        (λ replayed same. elim (Option-cases replayed.first_deadlock) [
          | inl absent ↦ absurd (ground (arith, same, absent))
          | inr (found, there) ↦ (found, there, ground (arith, same, there))
        ])
        shown

  error-Outcome :
      (before : ModelErrorReport)
      → Shown (λ r. r.schedule) error_target (some before)
      → Outcome
          (λ after. step_eq (error_identity after) (error_identity before) ≡ true)
          (minimized_error_report program before step_bound m)
  unfolding minimized_error_report reproduces_identities identities_of
  error-Outcome before shown =
      minimized_report-Outcome (λ r. r.first_error) _
        (λ after. step_eq (error_identity after) (error_identity before) ≡ true) before.schedule
        (error_target before)
        (λ replayed same. elim (Option-cases replayed.first_error) [
          | inl absent ↦ absurd (ground (arith, same, absent))
          | inr (found, there) ↦ (found, there, ground (arith, same, there))
        ])
        shown

  assertion-Outcome :
      (before : AssertionFailureReport)
      → Shown (λ r. r.schedule) assertion_target (some before)
      → Outcome
          (λ after. assertion_eq (assertion_identity after) (assertion_identity before) ≡ true)
          (minimized_assertion_report program before step_bound m)
  unfolding minimized_assertion_report reproduces_identities identities_of
  assertion-Outcome before shown =
      minimized_report-Outcome (λ r. r.first_assertion) _
        (λ after. assertion_eq (assertion_identity after) (assertion_identity before) ≡ true)
        before.schedule (assertion_target before)
        (λ replayed same. elim (Option-cases replayed.first_assertion) [
          | inl absent ↦ absurd (ground (arith, same, absent))
          | inr (found, there) ↦ (found, there, ground (arith, same, there))
        ])
        shown

-- The reports stand for the same bugs, and all else is as it was.
abbrev pub SameReports : CheckResult → CheckResult → Type 0
SameReports before after =
    SameBug race_eq race_identity before.first_race after.first_race
    × SameBug all_blocked_eq deadlock_identity before.first_deadlock after.first_deadlock
    × SameBug step_eq error_identity before.first_error after.first_error
    × SameBug assertion_eq assertion_identity before.first_assertion after.first_assertion
    × (after ≡ record before {
      first_race = after.first_race;
      first_deadlock = after.first_deadlock;
      first_error = after.first_error;
      first_assertion = after.first_assertion;
    })

-- If a replay of its schedule shows the bug of each report of a race, a deadlock, an error or a
-- failed assertion, `minimize_result_reports` never fails to preserve a bug. It returns reports of
-- the same bugs, none lost or new, with all else of the result as it was; or it throws what the
-- replay of some schedule throws.
pub minimize_result_reports-SameReports :
    (program : Program) (before : CheckResult) (step_bound : ℕ) (m : MemoryModel)
    → Shown program step_bound m (λ r. r.schedule) race_target before.first_race
    → Shown program step_bound m (λ r. r.schedule) deadlock_target before.first_deadlock
    → Shown program step_bound m (λ r. r.schedule) error_target before.first_error
    → Shown program step_bound m (λ r. r.schedule) assertion_target before.first_assertion
    → Outcome program step_bound m
        (SameReports before)
        (minimize_result_reports program before step_bound m)
unfolding minimize_result_reports
minimize_result_reports-SameReports program before step_bound m race_shown deadlock_shown
      error_shown assertion_shown =
    Outcome->>= program step_bound m _ (SameReports before) _ _
      (if_present-Outcome program step_bound m race_eq race_identity (λ r. r.schedule) race_target
        (λ r. minimized_race_report program r step_bound m) (race-Outcome program step_bound m)
        before.first_race race_shown)
      (λ race race_same.
        Outcome->>= program step_bound m _ (SameReports before) _ _
          (if_present-Outcome program step_bound m all_blocked_eq deadlock_identity
            (λ r. r.schedule) deadlock_target
            (λ r. minimized_deadlock_report program r step_bound m)
            (deadlock-Outcome program step_bound m) before.first_deadlock deadlock_shown)
          (λ deadlock deadlock_same.
            Outcome->>= program step_bound m _ (SameReports before) _ _
              (if_present-Outcome program step_bound m step_eq error_identity (λ r. r.schedule)
                error_target (λ r. minimized_error_report program r step_bound m)
                (error-Outcome program step_bound m) before.first_error error_shown)
              (λ error error_same.
                Outcome->>= program step_bound m _ (SameReports before) _ _
                  (if_present-Outcome program step_bound m assertion_eq assertion_identity
                    (λ r. r.schedule) assertion_target
                    (λ r. minimized_assertion_report program r step_bound m)
                    (assertion-Outcome program step_bound m) before.first_assertion assertion_shown)
                  (λ assertion assertion_same. inl (
                    record before {
                      first_race = race;
                      first_deadlock = deadlock;
                      first_error = error;
                      first_assertion = assertion;
                    },
                    refl,
                    (race_same, deadlock_same, error_same, assertion_same, refl),
                  )))))
