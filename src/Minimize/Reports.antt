-- ===== src/Minimize/Reports.antt =====
-- src/model/checker.cpp: `minimize_result_reports`, which replaces each report of a result by that
-- of its minimized schedule.
use dpor_concurrency_model_c.Common.{ℕ, Option, none, some, String, if◌then◌else◌}
use dpor_concurrency_model_c.Common.Result.{Result, ok, throw, logic_error, ◌>>=◌}
use dpor_concurrency_model_c.Action.{Program, Schedule}
use dpor_concurrency_model_c.State.{MemoryModel}
use dpor_concurrency_model_c.Report.{
  CheckResult, RaceReport, DeadlockReport, ModelErrorReport, AssertionFailureReport,
}
use dpor_concurrency_model_c.Replay.{replay_schedule}
use dpor_concurrency_model_c.Minimize.Identity.{
  BugIdentitySet, race_identity, deadlock_identity, error_identity, assertion_identity,
  reproduces_identities,
}
use dpor_concurrency_model_c.Minimize.Defs.{minimize_schedule_for_identities}

-- `BugIdentitySet target;`
abbrev pub no_target : BugIdentitySet
no_target = record { race = none; deadlock = none; error = none; assertion = none }

-- What the four functions share: minimize, replay, and read the report off the replay.
module _ {R : Type 0} (report_of : CheckResult → Option R) (failure : String) where
  unfoldable pub preserved_report : BugIdentitySet → CheckResult → Result R
  unfolding reproduces_identities
  preserved_report target replayed =
      if reproduces_identities replayed target
      then elim (report_of replayed) [
        | none ↦ throw (logic_error failure)
        | some report ↦ ok report
      ]
      else throw (logic_error failure)

  unfoldable pub minimized_report : Program → Schedule → BugIdentitySet → ℕ → MemoryModel → Result R
  unfolding minimize_schedule_for_identities replay_schedule preserved_report
  minimized_report program schedule target step_bound memory_model =
      minimize_schedule_for_identities program schedule target step_bound memory_model
      >>= λ minimized.
          replay_schedule program minimized step_bound memory_model >>= preserved_report target

unfoldable pub minimized_race_report : Program → RaceReport → ℕ → MemoryModel → Result RaceReport
unfolding minimized_report race_identity
minimized_race_report program report =
    minimized_report (λ r. r.first_race)
      "race schedule minimization failed to preserve bug identity" program report.schedule
      (record no_target { race = some (race_identity report) })

unfoldable pub minimized_deadlock_report :
    Program → DeadlockReport → ℕ → MemoryModel → Result DeadlockReport
unfolding minimized_report deadlock_identity
minimized_deadlock_report program report =
    minimized_report (λ r. r.first_deadlock)
      "deadlock schedule minimization failed to preserve bug identity" program report.schedule
      (record no_target { deadlock = some (deadlock_identity report) })

unfoldable pub minimized_error_report :
    Program → ModelErrorReport → ℕ → MemoryModel → Result ModelErrorReport
unfolding minimized_report
minimized_error_report program report =
    minimized_report (λ r. r.first_error)
      "error schedule minimization failed to preserve bug identity" program report.schedule
      (record no_target { error = some (error_identity report) })

unfoldable pub minimized_assertion_report :
    Program → AssertionFailureReport → ℕ → MemoryModel → Result AssertionFailureReport
unfolding minimized_report
minimized_assertion_report program report =
    minimized_report (λ r. r.first_assertion)
      "assertion schedule minimization failed to preserve bug identity" program report.schedule
      (record no_target { assertion = some (assertion_identity report) })

-- `if (first_x.has_value()) first_x = minimized_x_report(…)`
abbrev pub minimized_if_present {ℓ} : {R : Type ℓ} → (R → Result R) → Option R → Result (Option R)
minimized_if_present minimized none = ok none
minimized_if_present minimized (some report) = minimized report >>= λ shorter. ok (some shorter)

unfoldable pub minimize_result_reports :
    Program → CheckResult → ℕ → MemoryModel → Result CheckResult
unfolding minimized_race_report minimized_deadlock_report minimized_error_report
    minimized_assertion_report
minimize_result_reports program result step_bound memory_model = do
  race ←
      minimized_if_present (λ r. minimized_race_report program r step_bound memory_model)
        result.first_race
  deadlock ←
      minimized_if_present (λ r. minimized_deadlock_report program r step_bound memory_model)
        result.first_deadlock
  error ←
      minimized_if_present (λ r. minimized_error_report program r step_bound memory_model)
        result.first_error
  assertion ←
      minimized_if_present (λ r. minimized_assertion_report program r step_bound memory_model)
        result.first_assertion
  ok (record result {
    first_race = race;
    first_deadlock = deadlock;
    first_error = error;
    first_assertion = assertion;
  })
