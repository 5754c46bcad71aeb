-- ===== src/Step/Threads.antt =====
-- src/model/checker.cpp: Set, BranchNonzero, Assert, Join, Spawn, SemPost and SemWait.
use dpor_concurrency_model_c.Common.{
  ℕ, ◌+◌, ◌-◌, ◌%◌, ◌^◌, true, none, some, String, if◌then◌else◌, value_or, ◌||◌, eqb, update,
}
use dpor_concurrency_model_c.Common.Order.{name_ord}
use dpor_concurrency_model_c.Common.OrdMap.{lookup, insert}
use dpor_concurrency_model_c.Common.Result.{Result, ok, ◌>>=◌}
use dpor_concurrency_model_c.Clock
use dpor_concurrency_model_c.Action.{Action, Program, ScheduleStep}
use dpor_concurrency_model_c.State.{ExecutionState, SemaphoreState, empty_semaphore}
use dpor_concurrency_model_c.State.Threads.{advance_pc, set_pc, normalize_pc, resolve_label}
use dpor_concurrency_model_c.State.Registers.{read_register, write_register, evaluate_operand_or}
use dpor_concurrency_model_c.Enabled.{join_target_is_invalid, spawn_target_is_invalid}
use dpor_concurrency_model_c.Report.{empty_report}
use dpor_concurrency_model_c.Report.Errors.{
  make_branch_error, make_assertion_failure, make_join_error, make_spawn_error,
}
use dpor_concurrency_model_c.Step.Base.{Outcome, no_report, with_error, join_clock}

unfoldable pub exec_set : Program → ScheduleStep → Action → ExecutionState → Result Outcome
unfolding advance_pc write_register evaluate_operand_or
exec_set program step action s = do
  value ← evaluate_operand_or s step.thread action.value 0
  t ← write_register s step.thread action.destination value
  ok (no_report (advance_pc program t step.thread))

-- A branch that is taken goes to its label, or fails at an unknown one.
unfoldable pub take_branch : Program → ScheduleStep → Action → ExecutionState → Outcome
unfolding advance_pc set_pc resolve_label
take_branch program step action s = elim (resolve_label program step.thread action.label) [
  | none ↦ with_error (advance_pc program s step.thread) (make_branch_error action step s.schedule)
  | some target ↦ no_report (set_pc program s step.thread target)
]

unfoldable pub exec_branch_nonzero :
    Program → ScheduleStep → Action → ExecutionState → Result Outcome
unfolding advance_pc take_branch read_register
exec_branch_nonzero program step action s = do
  value ← read_register s step.thread (value_or action.source_register 0)
  ok (
      if eqb value 0
      then no_report (advance_pc program s step.thread)
      else take_branch program step action s)

fail_assertion : Program → ScheduleStep → Action → ExecutionState → Result Outcome
unfolding advance_pc make_assertion_failure
fail_assertion program step action s = do
  let t = advance_pc program s step.thread
  failure ← make_assertion_failure action step t.schedule t
  ok (t, record empty_report { assertion = some failure })

unfoldable pub exec_assert : Program → ScheduleStep → Action → ExecutionState → Result Outcome
unfolding advance_pc fail_assertion read_register
exec_assert program step action s = do
  value ← read_register s step.thread (value_or action.source_register 0)
  if eqb value 0
      then fail_assertion program step action s
      else ok (no_report (advance_pc program s step.thread))

unfoldable pub exec_join : Program → ScheduleStep → Action → ExecutionState → Outcome
unfolding advance_pc join_target_is_invalid join_clock
exec_join program step action s =
    let t : ExecutionState = advance_pc program s step.thread in
    if join_target_is_invalid program step.thread action
    then with_error t (make_join_error action step t.schedule)
    else no_report (join_clock t step.thread (t.thread_clock action.target))

-- The target starts, with the clock of its spawner.
start_thread : Program → ExecutionState → ℕ → ℕ → ExecutionState
unfolding normalize_pc join_clock
start_thread program s tid target =
    join_clock (normalize_pc program (record s { started = update s.started target true }) target)
      target (s.thread_clock tid)

unfoldable pub exec_spawn : Program → ScheduleStep → Action → ExecutionState → Outcome
unfolding advance_pc spawn_target_is_invalid start_thread
exec_spawn program step action s =
    let t : ExecutionState = advance_pc program s step.thread in
    if spawn_target_is_invalid program step.thread action || t.started action.target
    then with_error t (make_spawn_error program action step t.schedule)
    else (
      start_thread program t step.thread action.target,
      record empty_report { spawned_thread = some action.target },
    )

-- `state.semaphores[name]`
unfoldable pub semaphore_at : ExecutionState → String → SemaphoreState
unfolding lookup
semaphore_at s name = value_or (lookup name s.semaphores) empty_semaphore

unfoldable pub exec_sem_post : Program → ScheduleStep → Action → ExecutionState → Outcome
unfolding advance_pc semaphore_at insert
exec_sem_post program step action s =
    let t : ExecutionState = advance_pc program s step.thread in
    let semaphore : SemaphoreState = semaphore_at t action.semaphore in
    no_report (record t {
      semaphores =
          insert action.semaphore
            (record {
              permits = (semaphore.permits + 1) % 2 ^ 64;
              post_releases = Clock.join semaphore.post_releases (t.thread_clock step.thread);
            })
            t.semaphores;
    })

unfoldable pub exec_sem_wait : Program → ScheduleStep → Action → ExecutionState → Outcome
unfolding advance_pc semaphore_at insert join_clock
exec_sem_wait program step action s =
    let t : ExecutionState = advance_pc program s step.thread in
    let semaphore : SemaphoreState = semaphore_at t action.semaphore in
    no_report (
      join_clock
        (record t {
          semaphores =
              insert action.semaphore
                (record semaphore { permits = (semaphore.permits + 2 ^ 64 - 1) % 2 ^ 64 })
                t.semaphores;
        })
        step.thread semaphore.post_releases)
