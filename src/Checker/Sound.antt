-- ===== src/Checker/Sound.antt =====
-- src/model/checker.cpp: the explorers report nothing that no execution shows.
use dpor_concurrency_model_c.Common.{
  ℕ, true, false, List, [], Option, none, some, ◌≡◌, refl, sym, ap, subst, is_empty, ◌+◌, ◌<◌, ◌^◌,
}
use dpor_concurrency_model_c.Common.Result.{ok, throw, IfOk-ok, >>=-eq-ok, Ends, Ends-from}
use dpor_concurrency_model_c.Checker.Ends.{dpor_run-Finishes}
use dpor_concurrency_model_c.Action.{Program, Schedule, ScheduleStep}
use dpor_concurrency_model_c.State.{ExecutionState, MemoryModel}
use dpor_concurrency_model_c.State.Threads.{initial_state, all_finished, requires_cycle_detection}
use dpor_concurrency_model_c.Enabled.Steps.{enabled_steps}
use dpor_concurrency_model_c.Report.{
  CheckResult, Fairness, StepReport, DeadlockReport, NonTerminationReport, empty_result,
  first_of_two, record_step_report,
}
use dpor_concurrency_model_c.Step.{execute_enabled_step}
use dpor_concurrency_model_c.Deadlock.{make_deadlock_report}
use dpor_concurrency_model_c.Replay.{record_bound_exceeded, initial_history}
use dpor_concurrency_model_c.Replay.Lasso.{
  make_nontermination_report, record_nontermination, count_fairness,
}
use dpor_concurrency_model_c.Explore.{search_depth, dfs, explore_naive_raw}
use dpor_concurrency_model_c.Explore.Walk.{dfs-KeepsResult}
use dpor_concurrency_model_c.Invariant.System.{IsEnabled, run, Reach, start, next}
use dpor_concurrency_model_c.Dpor.Search.Kept.{Kept}
use dpor_concurrency_model_c.Dpor.Search.Walk.{dpor_dfs-Keeps}
use dpor_concurrency_model_c.Checker.{dpor_run}

count_fairness-reports :
    (f : Fairness) (r : CheckResult)
    → ((count_fairness f r).first_race ≡ r.first_race)
      × ((count_fairness f r).first_error ≡ r.first_error)
      × ((count_fairness f r).first_assertion ≡ r.first_assertion)
      × ((count_fairness f r).first_deadlock ≡ r.first_deadlock)
      × ((count_fairness f r).first_nontermination ≡ r.first_nontermination)
unfolding count_fairness
count_fairness-reports Fairness.unfair_schedule_witness r = (refl, refl, refl, refl, refl)
count_fairness-reports Fairness.fair_divergence r = (refl, refl, refl, refl, refl)
count_fairness-reports Fairness.strongly_unfair_schedule_witness r = (refl, refl, refl, refl, refl)

-- What holds of a report, if there is one.
abbrev pub IfReported : {R : Type 0} → (R → Type 0) → Option R → Type 0
IfReported Q none = Unit
IfReported Q (some found) = Q found

first_of_two-IfReported :
    {R : Type 0} (Q : R → Type 0) (old new : Option R)
    → IfReported Q old
    → IfReported Q new
    → IfReported Q (first_of_two old new)
first_of_two-IfReported Q none new before now = now
first_of_two-IfReported Q (some a) new before now = before

each-IfReported :
    {R : Type 0} (Q : R → Type 0) (o : Option R)
    → ((found : R) → o ≡ some found → Q found)
    → IfReported Q o
each-IfReported Q none every = tt
each-IfReported Q (some found) every = every found refl

module _ (program : Program) (m : MemoryModel) where
  -- A report of a step: an enabled step of a state that an execution reaches returns it.
  abbrev pub ReportedBy : {R : Type 0} → (StepReport → Option R) → R → Type 0
  ReportedBy field found =
      (s : ExecutionState) × (step : ScheduleStep) × (t : ExecutionState) × (report : StepReport)
      × Reach program m s
      × IsEnabled program s step
      × (execute_enabled_step program s step ≡ ok (t, report))
      × (field report ≡ some found)

  -- A deadlock: an execution reaches a state with no enabled step and an unfinished thread.
  abbrev pub IsDeadlock : DeadlockReport → Type 0
  IsDeadlock found =
      (s : ExecutionState) × Reach program m s
      × (is_empty (enabled_steps program s) ≡ true)
      × (all_finished program s ≡ false)
      × (make_deadlock_report program s ≡ ok found)

  -- A lasso: it is made from the schedule of a state that an execution reaches.
  abbrev pub IsLasso : NonTerminationReport → Type 0
  IsLasso found =
      (t : ExecutionState) × (cycle_start : ℕ) × Reach program m t
      × (make_nontermination_report program t.schedule cycle_start t.memory_model ≡ ok found)

  -- Every report of the result comes from an execution.
  pub record IsSound (r : CheckResult) : Type 0 where
    pub race : IfReported (ReportedBy (λ q. q.race)) r.first_race
    pub error : IfReported (ReportedBy (λ q. q.error)) r.first_error
    pub assertion : IfReported (ReportedBy (λ q. q.assertion)) r.first_assertion
    pub deadlock : IfReported IsDeadlock r.first_deadlock
    pub nontermination : IfReported IsLasso r.first_nontermination

  recorded-IsSound :
      {s t : ExecutionState} {report : StepReport} {r : CheckResult} (step : ScheduleStep)
      → Reach program m s
      → IsEnabled program s step
      → execute_enabled_step program s step ≡ ok (t, report)
      → IsSound r
      → IsSound (record_step_report r report)
  unfolding record_step_report
  recorded-IsSound {s = s} {t = t} {report = report} {r = r} step reached enabled ran sound =
      record {
        race = first_of_two-IfReported _ r.first_race report.race sound.race (
            each-IfReported _ report.race
              (λ found h. (s, step, t, report, reached, enabled, ran, h)));
        error = first_of_two-IfReported _ r.first_error report.error sound.error (
            each-IfReported _ report.error
              (λ found h. (s, step, t, report, reached, enabled, ran, h)));
        assertion = first_of_two-IfReported _ r.first_assertion report.assertion sound.assertion (
            each-IfReported _ report.assertion
              (λ found h. (s, step, t, report, reached, enabled, ran, h)));
        deadlock = sound.deadlock;
        nontermination = sound.nontermination;
      }

  looped-IsSound :
      (r : CheckResult) (lasso : NonTerminationReport)
      → IsSound r
      → IsLasso lasso
      → IsSound (record_nontermination r lasso)
  unfolding record_nontermination
  looped-IsSound r lasso sound found_lasso =
      let (race_same, error_same, assertion_same, deadlock_same, lasso_same) =
        count_fairness-reports lasso.fairness (record r {
          schedules_explored = r.schedules_explored + 1;
          cycles_detected = r.cycles_detected + 1;
        }) in
      record {
        race = subst (IfReported _) (sym race_same) sound.race;
        error = subst (IfReported _) (sym error_same) sound.error;
        assertion = subst (IfReported _) (sym assertion_same) sound.assertion;
        deadlock = subst (IfReported _) (sym deadlock_same) sound.deadlock;
        nontermination =
            first_of_two-IfReported IsLasso _ (some lasso)
              (subst (IfReported IsLasso) (sym lasso_same) sound.nontermination) found_lasso;
      }

  IsSound-Kept :
      (max_schedules : ℕ) → Kept program max_schedules (Reach program m) (λ r ts. IsSound r)
  unfolding record_bound_exceeded
  IsSound-Kept max_schedules = record {
    stepped =
        λ {report = report} step reached enabled ran. next reached (run step report enabled ran);
    recorded = λ step reached enabled ran sound. recorded-IsSound step reached enabled ran sound;
    explored = λ schedule room sound. record {
      race = sound.race;
      error = sound.error;
      assertion = sound.assertion;
      deadlock = sound.deadlock;
      nontermination = sound.nontermination;
    };
    bounded = λ schedule room sound. record {
      race = sound.race;
      error = sound.error;
      assertion = sound.assertion;
      deadlock = sound.deadlock;
      nontermination = sound.nontermination;
    };
    looped = λ {t = t} {r = r} cycle_start lasso reached made room sound.
        looped-IsSound r lasso sound (t, cycle_start, reached, made);
    deadlocked = λ {s = s} {r = r} report reached stuck unfinished made sound. record {
      race = sound.race;
      error = sound.error;
      assertion = sound.assertion;
      deadlock = (s, reached, stuck, unfinished, made);
      nontermination = sound.nontermination;
    };
  }

empty_result-IsSound : (program : Program) (m : MemoryModel) → IsSound program m empty_result
empty_result-IsSound program m = record {
  race = tt;
  error = tt;
  assertion = tt;
  deadlock = tt;
  nontermination = tt;
}

-- For a step bound that a 64-bit word holds, the DPOR search ends: it throws an exception of the
-- program, or every race, error, failed assertion, deadlock and lasso in its result, before
-- minimization, is that of an execution of the program, from its initial state and by enabled
-- steps only.
pub dpor_run-IsSound :
    (program : Program) (step_bound : ℕ) (m : MemoryModel) (max_schedules : ℕ)
    (collector : Option (List Schedule))
    → step_bound < 2 ^ 64
    → Ends
        (λ end. IsSound program m end.result)
        (dpor_run program step_bound m max_schedules collector)
dpor_run-IsSound program step_bound m max_schedules collector small =
    Ends-from (λ end. IsSound program m end.result)
      (dpor_run program step_bound m max_schedules collector)
      (dpor_run-Finishes program step_bound m max_schedules collector small)
      (λ end returned.
        unfold dpor_run in
        (IfOk-ok _ _
          (dpor_dfs-Keeps program _ (Reach program m) (λ r ts. IsSound program m r)
            (IsSound-Kept program m max_schedules) (search_depth program step_bound) []
            (initial_state program m) [] [] (initial_history program (initial_state program m))
            (record { result = empty_result; nodes = []; terminal_schedules = collector }) start
            (refl, empty_result-IsSound program m))
          returned).1)

-- Every race, error, failed assertion, deadlock and lasso in the result of the exhaustive
-- exploration is that of an execution of the program, from its initial state and by enabled steps
-- only; before the reports are minimized.
pub explore_naive_raw-IsSound :
    (program : Program) (step_bound : ℕ) (m : MemoryModel) (max_schedules : ℕ) (r : CheckResult)
    → explore_naive_raw program step_bound m max_schedules ≡ ok r
    → IsSound program m r
unfolding explore_naive_raw
explore_naive_raw-IsSound program step_bound m max_schedules r returned =
    let (raw, ran, e) =
      >>=-eq-ok
        (dfs (search_depth program step_bound) program max_schedules step_bound
          (requires_cycle_detection program) (initial_state program m)
          (initial_history program (initial_state program m)) empty_result)
        _ returned in
    let sound : IsSound program m raw =
      IfOk-ok _ _
        (dfs-KeepsResult program max_schedules step_bound (requires_cycle_detection program)
          (Reach program m) (λ r ts. IsSound program m r) (IsSound-Kept program m max_schedules)
          (search_depth program step_bound) (initial_state program m)
          (initial_history program (initial_state program m)) empty_result start
          (empty_result-IsSound program m))
        ran in
    subst (IsSound program m) (ap (λ result. elim result [ ok q ↦ q | throw e ↦ raw ]) e) (record {
      race = sound.race;
      error = sound.error;
      assertion = sound.assertion;
      deadlock = sound.deadlock;
      nontermination = sound.nontermination;
    })
