-- ===== src/Report.antt =====
-- include/model/checker.hpp and src/model/checker.cpp: the reports of one step and of a check.
pub mod Errors
pub mod Races
use dpor_concurrency_model_c.Common.{
  ℕ, Bool, false, List, Option, none, some, String, if◌then◌else◌,
}
use dpor_concurrency_model_c.Common.Result.{Message}
use dpor_concurrency_model_c.Action.{ScheduleStep, Schedule}

pub record RaceReport : Type 0 where
  pub address : String
  pub first : ScheduleStep
  pub second : ScheduleStep
  pub schedule : Schedule

pub data BlockedOnKind : Type 0 where
  mutex thread condition_variable rw_lock_writer rw_lock_readers semaphore : BlockedOnKind
  barrier rw_lock_upgrade : BlockedOnKind

pub record BlockedThread : Type 0 where
  pub thread : ℕ
  pub mutex : String
  pub rwlock : String
  pub semaphore : String
  pub owner : Option ℕ
  pub kind : BlockedOnKind
  pub target : Option ℕ
  pub condition : String
  pub self_wait : Bool
  pub barrier : String

-- `BlockedThread blocked; blocked.thread = tid; blocked.kind = kind;`
abbrev pub blocked_on : ℕ → BlockedOnKind → BlockedThread
blocked_on tid kind = record {
  thread = tid;
  mutex = "";
  rwlock = "";
  semaphore = "";
  owner = none;
  kind = kind;
  target = none;
  condition = "";
  self_wait = false;
  barrier = "";
}

pub record DeadlockReport : Type 0 where
  pub blocked_threads : List BlockedThread
  pub schedule : Schedule

pub record ModelErrorReport : Type 0 where
  pub endpoint : ScheduleStep
  pub message : Message
  pub schedule : Schedule

pub record AssertionFailureReport : Type 0 where
  pub endpoint : ScheduleStep
  pub reg : ℕ
  pub value : ℕ
  pub schedule : Schedule

pub data Fairness : Type 0 where
  unfair_schedule_witness fair_divergence strongly_unfair_schedule_witness : Fairness

pub record NonTerminationReport : Type 0 where
  pub fairness : Fairness
  pub stem : Schedule
  pub cycle : Schedule
  pub schedule : Schedule

pub record CheckResult : Type 0 where
  pub schedules_explored : ℕ
  pub cycles_detected : ℕ
  pub fair_cycles : ℕ
  pub unfair_cycles : ℕ
  pub bound_exceeded_executions : ℕ
  pub exploration_capped : Bool
  pub first_race : Option RaceReport
  pub first_deadlock : Option DeadlockReport
  pub first_error : Option ModelErrorReport
  pub first_assertion : Option AssertionFailureReport
  pub first_nontermination : Option NonTerminationReport
  pub strongly_unfair_cycles : ℕ

-- `CheckResult result;`
abbrev pub empty_result : CheckResult
empty_result = record {
  schedules_explored = 0;
  cycles_detected = 0;
  fair_cycles = 0;
  unfair_cycles = 0;
  bound_exceeded_executions = 0;
  exploration_capped = false;
  first_race = none;
  first_deadlock = none;
  first_error = none;
  first_assertion = none;
  first_nontermination = none;
  strongly_unfair_cycles = 0;
}

pub record StepReport : Type 0 where
  pub race : Option RaceReport
  pub error : Option ModelErrorReport
  pub assertion : Option AssertionFailureReport
  pub spawned_thread : Option ℕ

-- `StepReport report;`
abbrev pub empty_report : StepReport
empty_report = record { race = none; error = none; assertion = none; spawned_thread = none }

-- `if (report.x.has_value() && !result.first_x.has_value()) result.first_x = report.x;`
abbrev pub first_of_two {ℓ} : {A : Type ℓ} → Option A → Option A → Option A
first_of_two (some a) new = some a
first_of_two none new = new

unfoldable pub record_step_report : CheckResult → StepReport → CheckResult
record_step_report result report = record result {
  first_error = first_of_two result.first_error report.error;
  first_assertion = first_of_two result.first_assertion report.assertion;
  first_race = first_of_two result.first_race report.race;
}
