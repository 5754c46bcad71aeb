-- ===== src/Dpor/Search/Kept.antt =====
-- src/model/checker.cpp: what a search keeps. `Kept` is the interface between the searches and the
-- properties of their results: each of its laws is one thing that a search does to its result.
use dpor_concurrency_model_c.Common.{
  ℕ, true, false, List, [], ◌∷◌, Option, some, ◌≡◌, refl, arith, leb, is_empty,
}
use dpor_concurrency_model_c.Common.Result.{ok}
use dpor_concurrency_model_c.Action.{Program, Schedule, ScheduleStep}
use dpor_concurrency_model_c.Action.StepOrder.{step_lt_total}
use dpor_concurrency_model_c.State.{ExecutionState}
use dpor_concurrency_model_c.State.Threads.{all_finished}
use dpor_concurrency_model_c.Enabled.Steps.{enabled_steps}
use dpor_concurrency_model_c.Report.{
  CheckResult, StepReport, DeadlockReport, NonTerminationReport, record_step_report,
}
use dpor_concurrency_model_c.Step.{execute_enabled_step}
use dpor_concurrency_model_c.Deadlock.{make_deadlock_report}
use dpor_concurrency_model_c.Replay.{record_bound_exceeded, explored_one}
use dpor_concurrency_model_c.Replay.Lasso.{make_nontermination_report, record_nontermination}
use dpor_concurrency_model_c.Invariant.System.{IsEnabled}
use dpor_concurrency_model_c.Dpor.StepSet.{contains_step, holds}
use dpor_concurrency_model_c.Dpor.Search.{pushed}

pub record Kept (program : Program) (max_schedules : ℕ) (At : ExecutionState → Type 0)
    (P : CheckResult → Option (List Schedule) → Type 0) : Type 0 where
  -- An enabled step is run.
  pub stepped :
      {s t : ExecutionState} {report : StepReport} (step : ScheduleStep)
      → At s
      → IsEnabled program s step
      → execute_enabled_step program s step ≡ ok (t, report)
      → At t
  -- Its report is recorded.
  pub recorded :
      {s t : ExecutionState} {report : StepReport} {r : CheckResult} {ts : Option (List Schedule)}
      (step : ScheduleStep)
      → At s
      → IsEnabled program s step
      → execute_enabled_step program s step ≡ ok (t, report)
      → P r ts
      → P (record_step_report r report) ts
  -- A schedule ends, at a state or behind a terminal report.
  pub explored :
      {r : CheckResult} {ts : Option (List Schedule)} (schedule : Schedule)
      → leb max_schedules r.schedules_explored ≡ false
      → P r ts
      → P (explored_one r) (pushed schedule ts)
  -- A schedule ends at the step bound.
  pub bounded :
      {r : CheckResult} {ts : Option (List Schedule)} (schedule : Schedule)
      → leb max_schedules r.schedules_explored ≡ false
      → P r ts
      → P (record_bound_exceeded r) (pushed schedule ts)
  -- A schedule ends with a cycle.
  pub looped :
      {t : ExecutionState} {r : CheckResult} {ts : Option (List Schedule)} (start : ℕ)
      (lasso : NonTerminationReport)
      → At t
      → make_nontermination_report program t.schedule start t.memory_model ≡ ok lasso
      → leb max_schedules r.schedules_explored ≡ false
      → P r ts
      → P (record_nontermination r lasso) (pushed t.schedule ts)
  -- The first deadlock is reported.
  pub deadlocked :
      {s : ExecutionState} {r : CheckResult} {ts : Option (List Schedule)} (report : DeadlockReport)
      → At s
      → is_empty (enabled_steps program s) ≡ true
      → all_finished program s ≡ false
      → make_deadlock_report program s ≡ ok report
      → P r ts
      → P (record r { first_deadlock = some report }) ts

-- A step that the binary search finds is in the vector, even in one that is not ascending.
pub contains_step-found :
    (steps : List ScheduleStep) (step : ScheduleStep)
    → contains_step steps step ≡ true
    → holds steps step ≡ true
unfolding contains_step
contains_step-found [] step h = h
contains_step-found (s ∷ steps) step h =
    ground (arith, h, step_lt_total s step, step_lt_total step s, contains_step-found steps step)

pub record_step_report-explored :
    (r : CheckResult) (report : StepReport)
    → (record_step_report r report).schedules_explored ≡ r.schedules_explored
unfolding record_step_report
record_step_report-explored r report = refl
