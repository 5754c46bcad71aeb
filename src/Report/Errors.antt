-- ===== src/Report/Errors.antt =====
-- src/model/checker.cpp: the modelled-error reports. A message is the sequence of pieces that the
-- source streams.
use dpor_concurrency_model_c.Common.{
  ℕ, ◌+◌, List, [], ◌∷◌, ◌++◌, none, some, String, if◌then◌else◌, eqb, leb, ltb, ◌&&◌, value_or,
  length, keep,
}
use dpor_concurrency_model_c.Common.Order.{name_ord}
use dpor_concurrency_model_c.Common.OrdMap.{lookup}
use dpor_concurrency_model_c.Common.Result.{Result, ok, ◌>>=◌, Message, text, number}
use dpor_concurrency_model_c.Action.{Action, ActionKind, Program, ScheduleStep, Schedule}
use dpor_concurrency_model_c.Action.Pairs.{is_spawn}
use dpor_concurrency_model_c.State.{ExecutionState, thread_count}
use dpor_concurrency_model_c.State.Registers.{read_register}
use dpor_concurrency_model_c.Report.{ModelErrorReport, AssertionFailureReport}

abbrev error_report : ScheduleStep → Schedule → Message → ModelErrorReport
error_report endpoint schedule rest = record {
  endpoint = endpoint;
  message = text "thread " ∷ number endpoint.thread ∷ rest;
  schedule = schedule;
}

pub make_unlock_error : Action → ScheduleStep → Schedule → ExecutionState → ModelErrorReport
make_unlock_error action endpoint schedule s = error_report endpoint schedule (
    text " attempted to unlock mutex '"
    ∷ text action.mutex
    ∷ text "'"
    ∷ elim (lookup action.mutex s.mutex_owner) [
      | none ↦ text " but it is not owned" ∷ []
      | some owner ↦ text " owned by thread " ∷ number owner ∷ []
    ])

mode_operation : ActionKind → String
mode_operation ActionKind.r_unlock = "read-unlock"
mode_operation ActionKind.w_unlock = "write-unlock"
mode_operation ActionKind.upgrade = "upgrade"
mode_operation ActionKind.downgrade = "downgrade"
mode_operation _ = "change mode on"

pub make_rwlock_mode_error : Action → ScheduleStep → Schedule → ModelErrorReport
make_rwlock_mode_error action endpoint schedule = error_report endpoint schedule (
    text " attempted to "
    ∷ text (mode_operation action.kind)
    ∷ text " rwlock '"
    ∷ text action.rwlock
    ∷ text "' but it does not hold that mode"
    ∷ [])

acquisition : ActionKind → String
acquisition ActionKind.r_lock = "read"
acquisition _ = "write"

pub make_rwlock_reentrancy_error : Action → ScheduleStep → Schedule → ModelErrorReport
make_rwlock_reentrancy_error action endpoint schedule = error_report endpoint schedule (
    text " attempted a reentrant "
    ∷ text (acquisition action.kind)
    ∷ text " acquisition of rwlock '"
    ∷ text action.rwlock
    ∷ text "'"
    ∷ [])

pub make_join_error : Action → ScheduleStep → Schedule → ModelErrorReport
make_join_error action endpoint schedule = error_report endpoint schedule (
    text " attempted to join "
    ∷ (if eqb action.target endpoint.thread
        then text "itself" ∷ []
        else text "out-of-range thread " ∷ number action.target ∷ []))

count_spawns : ℕ → List Action → ℕ
count_spawns target thread = length (keep (λ a. is_spawn a.kind && eqb a.target target) thread)

spawn_count : ℕ → List (List Action) → ℕ
spawn_count target [] = 0
spawn_count target (thread ∷ rest) = count_spawns target thread + spawn_count target rest

pub make_spawn_error : Program → Action → ScheduleStep → Schedule → ModelErrorReport
make_spawn_error program action endpoint schedule = error_report endpoint schedule (
    text " attempted to spawn "
    ∷ (if eqb action.target endpoint.thread
        then text "itself" ∷ []
        else if leb (thread_count program) action.target
        then text "out-of-range thread " ∷ number action.target ∷ []
        else (text "already started thread " ∷ number action.target ∷ [])
          ++ (if ltb 1 (spawn_count action.target program.threads)
              then text " (target has "
                ∷ number (spawn_count action.target program.threads)
                ∷ text " Spawn actions)"
                ∷ []
              else [])))

wait_name : ActionKind → String
wait_name ActionKind.timed_wait = "timedwait"
wait_name _ = "wait"

pub make_wait_error : Action → ScheduleStep → Schedule → ExecutionState → ModelErrorReport
make_wait_error action endpoint schedule s = error_report endpoint schedule (
    text " attempted to "
    ∷ text (wait_name action.kind)
    ∷ text " on condition '"
    ∷ text action.condition
    ∷ text "' with mutex '"
    ∷ text action.mutex
    ∷ text "'"
    ∷ elim (lookup action.mutex s.mutex_owner) [
      | none ↦ text " but the mutex is not owned" ∷ []
      | some owner ↦ text " but it is owned by thread " ∷ number owner ∷ []
    ])

pub make_branch_error : Action → ScheduleStep → Schedule → ModelErrorReport
make_branch_error action endpoint schedule =
    error_report endpoint schedule
      (text " branched to unknown label '" ∷ text action.label ∷ text "'" ∷ [])

pub make_barrier_error : Action → ℕ → ScheduleStep → Schedule → ModelErrorReport
make_barrier_error action required_parties endpoint schedule = error_report endpoint schedule (
    text " attempted to wait on barrier '"
    ∷ text action.barrier
    ∷ text "' with "
    ∷ number action.parties
    ∷ text " parties"
    ∷ (if eqb action.parties 0
        then text ", but parties must be greater than zero" ∷ []
        else text ", but the program-wide barrier requires " ∷ number required_parties ∷ []))

unfoldable pub make_assertion_failure :
    Action → ScheduleStep → Schedule → ExecutionState → Result AssertionFailureReport
unfolding read_register
make_assertion_failure action endpoint schedule s =
    let reg : ℕ = value_or action.source_register 0 in
    read_register s endpoint.thread reg >>= λ v.
    ok (record { endpoint = endpoint; reg = reg; value = v; schedule = schedule })
