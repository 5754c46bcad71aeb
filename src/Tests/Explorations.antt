-- ===== src/Tests/Explorations.antt =====
-- The theorems on the searches, at concrete arguments.
use dpor_concurrency_model_c.Common.{
  ℕ, ◌≤◌, false, List, [], ◌∷◌, Option, none, some, ◌≡◌, refl, ◌||◌, ◌&&◌, not, All, arith,
}
use dpor_concurrency_model_c.Common.Result.{Result, ok, throw, Finishes, Ends}
use dpor_concurrency_model_c.Common.Order.{name_ord, nat_ord, pair_ord, bytes_ord}
use dpor_concurrency_model_c.Action.{Schedule, ScheduleStep, step_eq}
use dpor_concurrency_model_c.Action.StepOrder.{step_ord}
use dpor_concurrency_model_c.Action.Pairs.{
  is_thread_local_action, is_memory_action, sync_independent, is_join, is_condition_action,
  is_mutex_action, is_rwlock_action, is_semaphore_action, memory_verdict, may_conflict,
  is_write_like,
}
use dpor_concurrency_model_c.Clock.{tick}
use dpor_concurrency_model_c.State.{ExecutionState, MemoryModel}
use dpor_concurrency_model_c.State.Threads.{initial_state, normalized}
use dpor_concurrency_model_c.State.Buffers.{has_pending_store, is_buffered_memory_model}
use dpor_concurrency_model_c.Enabled.{is_program_action_enabled}
use dpor_concurrency_model_c.Enabled.Steps.{enabled_steps, source_step}
use dpor_concurrency_model_c.Report.{CheckResult, empty_result}
use dpor_concurrency_model_c.Step.Plain.{exec_write}
use dpor_concurrency_model_c.Explore.{explore_naive_raw}
use dpor_concurrency_model_c.Explore.Collect.{collect_naive_schedules}
use dpor_concurrency_model_c.Explore.Ends.{explore_naive_raw-Finishes}
use dpor_concurrency_model_c.Explore.Agreement.{Agree, explore_naive_raw-Agree}
use dpor_concurrency_model_c.Dpor.{DporNode, no_occurrence}
use dpor_concurrency_model_c.Dpor.StepSet.{
  IsAscending, contains_step, insert_step, remove_step, contains_step-refines,
}
use dpor_concurrency_model_c.Dpor.Occurrence.{enabled_transitions}
use dpor_concurrency_model_c.Dpor.Independence.AtNode.{Side, transitions_independent_at_node}
use dpor_concurrency_model_c.Dpor.Independence.Symmetry.{transitions_independent_at_node_comm}
use dpor_concurrency_model_c.Dpor.Enablers.{enabler_heads_for_thread}
use dpor_concurrency_model_c.Dpor.Enablers.Heads.{AreHeads}
use dpor_concurrency_model_c.Dpor.Enablers.Laws.{enabler_heads_for_thread-AreHeads}
use dpor_concurrency_model_c.Dpor.Persistent.{initialize_dpor_backtrack}
use dpor_concurrency_model_c.Dpor.Persistent.Closed.{
  IsInitial, HasEntry, initialize_dpor_backtrack-IsInitial,
}
use dpor_concurrency_model_c.Dpor.Search.{DporRun, dpor_node}
use dpor_concurrency_model_c.Checker.{dpor_run, collect_dpor_schedules}
use dpor_concurrency_model_c.Checker.Ends.{dpor_run-Finishes}
use dpor_concurrency_model_c.Checker.Counts.{
  CountsCollected, collect_dpor_schedules-length, explored_at_most,
}
use dpor_concurrency_model_c.Checker.Sound.{IsSound, dpor_run-IsSound, explore_naive_raw-IsSound}
use dpor_concurrency_model_c.Report.Races.{write_conflict}
use dpor_concurrency_model_c.Replay.{replay_schedule}
use dpor_concurrency_model_c.Minimize.Identity.{no_identity}
use dpor_concurrency_model_c.Minimize.Reports.{minimize_result_reports}
use dpor_concurrency_model_c.Minimize.Defs.{accepts}
use dpor_concurrency_model_c.Minimize.Preserved.{
  Shown, Outcome, SameReports, race_target, deadlock_target, error_target, assertion_target,
  minimize_result_reports-SameReports,
}
use dpor_concurrency_model_c.Tests.Programs.{racy, racy_schedule, store}

abbrev value_of {ℓ} : {A : Type ℓ} → A → Result A → A
value_of other (ok a) = a
value_of other (throw e) = other

abbrev nothing_run : DporRun
nothing_run = record { result = empty_result; nodes = []; terminal_schedules = none }

abbrev racy_end : Option (List Schedule) → DporRun
racy_end collector = value_of nothing_run (dpor_run racy 10 MemoryModel.sc 100 collector)

racy_run :
    (dpor_run racy 10 MemoryModel.sc 100 none ≡ ok (racy_end none))
    × (dpor_run racy 10 MemoryModel.sc 100 (some []) ≡ ok (racy_end (some [])))
unfolding dpor_run is_program_action_enabled has_pending_store is_thread_local_action
    is_memory_action sync_independent is_join is_condition_action is_mutex_action is_rwlock_action
    is_semaphore_action exec_write memory_verdict may_conflict is_write_like tick
racy_run = (refl, refl)

abbrev racy_result : CheckResult
racy_result = value_of empty_result (explore_naive_raw racy 10 MemoryModel.sc 100)

racy_explored : explore_naive_raw racy 10 MemoryModel.sc 100 ≡ ok racy_result
unfolding explore_naive_raw is_program_action_enabled has_pending_store exec_write tick
    is_buffered_memory_model
racy_explored = refl

dpor_run-Finishes_example : Finishes (dpor_run racy 10 MemoryModel.sc 100 (some []))
dpor_run-Finishes_example = dpor_run-Finishes racy 10 MemoryModel.sc 100 (some []) (omega arith)

dpor_run-IsSound_example :
    Ends
      (λ end. IsSound racy MemoryModel.sc end.result)
      (dpor_run racy 10 MemoryModel.sc 100 (some []))
dpor_run-IsSound_example = dpor_run-IsSound racy 10 MemoryModel.sc 100 (some []) (omega arith)

explore_naive_raw-IsSound_example : IsSound racy MemoryModel.sc racy_result
explore_naive_raw-IsSound_example =
    explore_naive_raw-IsSound racy 10 MemoryModel.sc 100 racy_result racy_explored

explored_at_most_example :
    Ends (λ r. r.schedules_explored ≤ 100) (explore_naive_raw racy 10 MemoryModel.sc 100)
    × Ends (λ end. end.result.schedules_explored ≤ 100) (dpor_run racy 10 MemoryModel.sc 100 none)
explored_at_most_example = explored_at_most racy 10 MemoryModel.sc 100 none (omega arith)

abbrev racy_collected : List Schedule
racy_collected = value_of [] (collect_dpor_schedules racy 10 MemoryModel.sc 100)

racy_collects : collect_dpor_schedules racy 10 MemoryModel.sc 100 ≡ ok racy_collected
unfolding collect_dpor_schedules is_program_action_enabled has_pending_store is_thread_local_action
    is_memory_action sync_independent is_join is_condition_action is_mutex_action is_rwlock_action
    is_semaphore_action exec_write memory_verdict may_conflict is_write_like tick
racy_collects = refl

collect_dpor_schedules-length_example :
    Ends
      (CountsCollected racy 10 MemoryModel.sc 100)
      (collect_dpor_schedules racy 10 MemoryModel.sc 100)
collect_dpor_schedules-length_example =
    collect_dpor_schedules-length racy 10 MemoryModel.sc 100 (omega arith)

abbrev racy_start : ExecutionState
racy_start = initial_state racy MemoryModel.sc

abbrev racy_node : DporNode
racy_node =
    dpor_node racy_start (enabled_steps racy racy_start)
      (value_of [] (enabled_transitions racy racy_start (enabled_steps racy racy_start))) []

racy_entries : All (HasEntry racy racy_start racy_node) racy_node.enabled
unfolding dpor_node enabled_transitions enabled_steps initial_state is_program_action_enabled
    has_pending_store normalized is_buffered_memory_model
racy_entries = (refl, (refl, (refl, tt)))

initialize_dpor_backtrack-IsInitial_example :
    (c : List ScheduleStep) × (initialize_dpor_backtrack racy racy_start
        (record racy_node { backtrack = [] })
      ≡ ok (record racy_node { backtrack = c }))
    × IsInitial racy racy_start (record racy_node { backtrack = [] }) c
initialize_dpor_backtrack-IsInitial_example =
    initialize_dpor_backtrack-IsInitial racy racy_start racy_node racy_entries

enabler_heads_for_thread-AreHeads_example :
    AreHeads racy_node.enabled (enabler_heads_for_thread 4 racy racy_node (λ _. false) 0)
enabler_heads_for_thread-AreHeads_example =
    enabler_heads_for_thread-AreHeads 4 racy racy_node (λ _. false) 0 (omega arith)

abbrev racy_side : ℕ → ℕ → Side
racy_side tid value = record {
  thread = tid;
  action = store "x" value;
  endpoint = source_step tid 0;
  occurrence = no_occurrence;
}

transitions_independent_at_node_comm_example :
    transitions_independent_at_node racy MemoryModel.sc racy_node (racy_side 0 1) (racy_side 1 2)
    ≡ transitions_independent_at_node racy MemoryModel.sc racy_node (racy_side 1 2) (racy_side 0 1)
transitions_independent_at_node_comm_example =
    transitions_independent_at_node_comm racy MemoryModel.sc racy_node (racy_side 0 1)
      (racy_side 1 2)

abbrev two_steps : List ScheduleStep
two_steps = source_step 0 4 ∷ source_step 2 1 ∷ []

contains_step-refines_example :
    (IsAscending (insert_step two_steps (source_step 1 0)))
    × (contains_step (insert_step two_steps (source_step 1 0)) (source_step 2 1) ≡ (
        step_eq (source_step 2 1) (source_step 1 0) || contains_step two_steps (source_step 2 1)))
    × (IsAscending (remove_step two_steps (source_step 1 0)))
    × (contains_step (remove_step two_steps (source_step 1 0)) (source_step 2 1) ≡ (
        not (step_eq (source_step 2 1) (source_step 1 0))
        && contains_step two_steps (source_step 2 1)))
contains_step-refines_example =
    contains_step-refines two_steps (source_step 1 0) (source_step 2 1) ((refl, tt), (tt, tt))

abbrev racy_before : CheckResult
racy_before = value_of empty_result (replay_schedule racy racy_schedule 10 MemoryModel.sc)

racy-Shown :
    Shown racy 10 MemoryModel.sc (λ r. r.schedule) race_target racy_before.first_race
    × Shown racy 10 MemoryModel.sc (λ r. r.schedule) deadlock_target racy_before.first_deadlock
    × Shown racy 10 MemoryModel.sc (λ r. r.schedule) error_target racy_before.first_error
    × Shown racy 10 MemoryModel.sc (λ r. r.schedule) assertion_target racy_before.first_assertion
unfolding replay_schedule is_buffered_memory_model has_pending_store exec_write write_conflict tick
    no_identity accepts
racy-Shown = (refl, tt, tt, tt)

minimize_result_reports-SameReports_example :
    Outcome racy 10 MemoryModel.sc
      (SameReports racy_before)
      (minimize_result_reports racy racy_before 10 MemoryModel.sc)
minimize_result_reports-SameReports_example =
    minimize_result_reports-SameReports racy racy_before 10 MemoryModel.sc racy-Shown.0 racy-Shown.1
      racy-Shown.2 racy-Shown.3

explore_naive_raw-Finishes_example : Finishes (explore_naive_raw racy 10 MemoryModel.sc 100)
explore_naive_raw-Finishes_example =
    explore_naive_raw-Finishes racy 10 MemoryModel.sc 100 (omega arith)

explore_naive_raw-Agree_example :
    Agree
      (explore_naive_raw racy 10 MemoryModel.sc 100)
      (collect_naive_schedules racy 10 MemoryModel.sc 100)
explore_naive_raw-Agree_example = explore_naive_raw-Agree racy 10 MemoryModel.sc 100
