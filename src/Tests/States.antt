-- ===== src/Tests/States.antt =====
-- Examples of the theorems about states: fingerprints, steps, replay and the store buffers.
use dpor_concurrency_model_c.Common.{
  ℕ, ◌+◌, true, false, [], ◌∷◌, ◌++◌, String, ◌≡◌, ◌≢◌, ◌↔◌, refl, length, arith,
}
use dpor_concurrency_model_c.Common.Order.{name_ord, nat_ord, pair_ord, bytes_ord, bytes_eq}
use dpor_concurrency_model_c.Common.Result.{ok, throw}
use dpor_concurrency_model_c.Action.{Program, ScheduleStep, default_action, k_flush_action_index}
use dpor_concurrency_model_c.State.{ExecutionState, MemoryModel}
use dpor_concurrency_model_c.State.Threads.{initial_state, normalized}
use dpor_concurrency_model_c.State.Registers.{evaluate_operand_or}
use dpor_concurrency_model_c.State.Buffers.{
  read_plain_value, memory_value, is_buffered_memory_model, has_pending_store, find_rwlock,
}
use dpor_concurrency_model_c.Enabled.Steps.{enabled_steps, source_step}
use dpor_concurrency_model_c.Report.{
  StepReport, empty_report, empty_result, NonTerminationReport, Fairness,
}
use dpor_concurrency_model_c.Fingerprint.{behavioral_state_fingerprint}
use dpor_concurrency_model_c.Step.{execute_enabled_step}
use dpor_concurrency_model_c.Step.RwLock.{rwlock_at}
use dpor_concurrency_model_c.Enabled.{is_program_action_enabled}
use dpor_concurrency_model_c.Step.Threads.{exec_set, exec_branch_nonzero}
use dpor_concurrency_model_c.Step.Plain.{exec_write}
use dpor_concurrency_model_c.Step.Forwarding.{exec_write-read_plain_value}
use dpor_concurrency_model_c.Step.Draining.{drain, drain-read_plain_value}
use dpor_concurrency_model_c.Replay.Lasso.{
  make_nontermination_report, validate_replay_step, record_nontermination,
}
use dpor_concurrency_model_c.Replay.Accepts.{IsListed, validate_replay_step-enabled_steps}
use dpor_concurrency_model_c.Replay.Closes.{
  Run, make_nontermination_report-Run, record_nontermination-counters,
}
use dpor_concurrency_model_c.Invariant.System.{IsEnabled, run, Reach, start, next}
use dpor_concurrency_model_c.Invariant.RwLocks.{Exclusive, Reach-Exclusive}
use dpor_concurrency_model_c.Enabled.{any_enabled, mutex_free}
use dpor_concurrency_model_c.Enabled.Terminal.{PendingStarted, any_enabled-enabled_steps}
use dpor_concurrency_model_c.Common.OrdMap.{lookup}
use dpor_concurrency_model_c.Common.{is_empty}
use dpor_concurrency_model_c.Invariant.Mutexes.{OwnerMove, execute_enabled_step-OwnerMove}
use dpor_concurrency_model_c.Invariant.StoreBuffers.{Reach-store_buffers}
use dpor_concurrency_model_c.Tests.Programs.{
  guarded, racy, locked, looping, looping_schedule, store,
}

-- The outcome of a step, or the state as it was.
abbrev pub after : Program → ExecutionState → ScheduleStep → ExecutionState × StepReport
after p s step = elim (execute_enabled_step p s step) [ ok o ↦ o | throw e ↦ (s, empty_report) ]

abbrev pub locked_start : ExecutionState
locked_start = initial_state locked MemoryModel.sc

abbrev pub locked_read : ExecutionState
locked_read = (after locked locked_start (source_step 0 0)).0

locked-IsEnabled : IsEnabled locked locked_start (source_step 0 0)
unfolding enabled_steps initial_state is_buffered_memory_model has_pending_store
    is_program_action_enabled normalized find_rwlock
locked-IsEnabled = refl

locked_ran :
    execute_enabled_step locked locked_start (source_step 0 0)
    ≡ ok (locked_read, (after locked locked_start (source_step 0 0)).1)
unfolding execute_enabled_step initial_state
locked_ran = refl

-- The reader has the lock.
locked-reached : Reach locked MemoryModel.sc locked_read
locked-reached = next start (
    run (source_step 0 0) (after locked locked_start (source_step 0 0)).1 locked-IsEnabled
      locked_ran)

Reach-Exclusive_example : Exclusive (rwlock_at locked_read "l")
Reach-Exclusive_example = Reach-Exclusive locked MemoryModel.sc locked_read locked-reached "l"

-- The first state of the racy program, its program counters written out.
abbrev racy_start : ExecutionState
racy_start = record (initial_state racy MemoryModel.tso) { pc = λ _. 0 }

off_flush_index : (tid : ℕ) → racy_start.pc tid ≢ k_flush_action_index
off_flush_index tid h = omega arith

validate_replay_step-enabled_steps_example :
    (validate_replay_step racy racy_start (source_step 1 0) 0 ≡ ok tt)
    ↔ IsListed racy racy_start (source_step 1 0)
validate_replay_step-enabled_steps_example =
    validate_replay_step-enabled_steps racy racy_start (source_step 1 0) 0 off_flush_index

abbrev step_1 : ScheduleStep
step_1 = source_step 1 0

abbrev buffered_write : ExecutionState × StepReport
buffered_write = elim (exec_write racy step_1 (store "y" 5) racy_start) [
  | ok o ↦ o
  | throw e ↦ (racy_start, empty_report)
]

exec_write-read_plain_value_example : read_plain_value (buffered_write.0) 1 "y" ≡ 5
unfolding exec_write initial_state evaluate_operand_or
exec_write-read_plain_value_example =
    exec_write-read_plain_value racy step_1 (store "y" 5) racy_start (buffered_write.0)
      (buffered_write.1) 5 refl refl refl

drain-read_plain_value_example :
    (t : ExecutionState) × (drain
        (length ((buffered_write.0).store_buffers 1))
        racy
        step_1
        default_action
        (buffered_write.0)
      ≡ ok t)
    × (t.store_buffers 1 ≡ [])
    × ((address : String) → memory_value t address ≡ read_plain_value (buffered_write.0) 1 address)
unfolding exec_write initial_state
drain-read_plain_value_example =
    drain-read_plain_value racy step_1 default_action (buffered_write.0) refl

abbrev lasso_report : NonTerminationReport
lasso_report = record {
  fairness = Fairness.fair_divergence;
  stem = source_step 0 0 ∷ [];
  cycle = source_step 0 2 ∷ [];
  schedule = looping_schedule;
}

lasso_found : make_nontermination_report looping looping_schedule 1 MemoryModel.sc ≡ ok lasso_report
unfolding make_nontermination_report normalized is_program_action_enabled is_buffered_memory_model
    has_pending_store exec_set exec_branch_nonzero bytes_eq
lasso_found = refl

make_nontermination_report-Run_example :
    (lasso_report.stem ++ lasso_report.cycle ≡ looping_schedule)
    × (s : ExecutionState) × (t : ExecutionState) × Run looping
        (initial_state looping MemoryModel.sc)
        lasso_report.stem
        s
    × Run looping s lasso_report.cycle t
    × (behavioral_state_fingerprint looping t ≡ behavioral_state_fingerprint looping s)
make_nontermination_report-Run_example =
    make_nontermination_report-Run looping looping_schedule 1 MemoryModel.sc lasso_report
      lasso_found

record_nontermination-counters_example :
    let after_one = record_nontermination empty_result lasso_report in
    (after_one.unfair_cycles + after_one.strongly_unfair_cycles + after_one.fair_cycles
      ≡ after_one.cycles_detected)
    × (after_one.cycles_detected ≡ 1)
record_nontermination-counters_example =
    record_nontermination-counters empty_result lasso_report refl

racy_start-PendingStarted : PendingStarted racy_start
unfolding has_pending_store initial_state
racy_start-PendingStarted tid h = cc

any_enabled-enabled_steps_example :
    (any_enabled racy racy_start ≡ true) ↔ (is_empty (enabled_steps racy racy_start) ≡ false)
any_enabled-enabled_steps_example =
    any_enabled-enabled_steps racy racy_start racy_start-PendingStarted

abbrev guarded_start : ExecutionState
guarded_start = initial_state guarded MemoryModel.sc

guarded-IsEnabled : IsEnabled guarded guarded_start (source_step 0 0)
unfolding enabled_steps initial_state is_buffered_memory_model has_pending_store
    is_program_action_enabled normalized mutex_free
guarded-IsEnabled = refl

guarded_ran :
    execute_enabled_step guarded guarded_start (source_step 0 0)
    ≡ ok (after guarded guarded_start (source_step 0 0))
unfolding execute_enabled_step initial_state
guarded_ran = refl

execute_enabled_step-OwnerMove_example :
    OwnerMove 0
      (lookup "m" guarded_start.mutex_owner)
      (lookup "m" (after guarded guarded_start (source_step 0 0)).0.mutex_owner)
execute_enabled_step-OwnerMove_example =
    execute_enabled_step-OwnerMove guarded (source_step 0 0) guarded_start
      (after guarded guarded_start (source_step 0 0)).0
      (after guarded guarded_start (source_step 0 0)).1 "m" guarded-IsEnabled guarded_ran

not_tso : MemoryModel.sc ≢ MemoryModel.tso
not_tso e = cc

Reach-store_buffers_example :
    (locked_read.memory_model ≡ MemoryModel.sc) × (locked_read.store_buffers ≡ (λ _. []))
Reach-store_buffers_example =
    Reach-store_buffers locked MemoryModel.sc locked_read locked-reached not_tso
