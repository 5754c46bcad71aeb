-- ===== src/Dpor/Search.antt =====
-- src/model/checker.cpp: `dpor_dfs`, the search with persistent sets, backtracking points and sleep
-- sets. The trace and the history are given back as they were, so they are passed down by value;
-- the nodes are not, since a child changes the nodes above it. Each level runs one step, and one
-- fuel is the depth; the other bounds the choices at a node, of which each is an enabled step.
pub mod Frame
pub mod Kept
pub mod Listed
pub mod Walk
pub mod Fit
pub mod NewNode
pub mod Repairs
pub mod Ends
pub mod Counts
use dpor_concurrency_model_c.Common.{
  ℕ, zero, suc, Bool, true, false, List, [], ◌∷◌, ◌++◌, Option, none, some, if◌then◌else◌, not,
  ◌||◌, leb, is_empty, length, get_elem?, has_value, modify_at, pop_back,
}
use dpor_concurrency_model_c.Common.OrdMap.{OrdMap}
use dpor_concurrency_model_c.Common.Result.{Result, ok, throw, out_of_fuel, ◌>>=◌, or_out_of_range}
use dpor_concurrency_model_c.Action.{Program, Schedule, ScheduleStep}
use dpor_concurrency_model_c.State.{ExecutionState}
use dpor_concurrency_model_c.State.Threads.{all_finished}
use dpor_concurrency_model_c.Enabled.Steps.{enabled_steps}
use dpor_concurrency_model_c.Report.{CheckResult, StepReport, record_step_report}
use dpor_concurrency_model_c.Fingerprint.History.{StateHistory}
use dpor_concurrency_model_c.Step.{execute_enabled_step}
use dpor_concurrency_model_c.Deadlock.{make_deadlock_report}
use dpor_concurrency_model_c.Replay.{
  step_bound_reached, record_bound_exceeded, explored_one, is_terminal, observe_if,
}
use dpor_concurrency_model_c.Replay.Lasso.{make_nontermination_report, record_nontermination}
use dpor_concurrency_model_c.Dpor.{DporNode, EnabledTransition, ExecutedTransition}
use dpor_concurrency_model_c.Dpor.StepSet.{contains_step, insert_step, append_steps}
use dpor_concurrency_model_c.Dpor.Occurrence.{enabled_transitions}
use dpor_concurrency_model_c.Dpor.Persistent.{
  transition_at, initialize_dpor_backtrack, next_unexplored_backtrack,
}
use dpor_concurrency_model_c.Dpor.Backtrack.{
  add_backtracks_for_transition, add_disabled_backtracks, inherited_sleep_set,
}

-- What `dpor_dfs` changes by reference: `result`, `nodes` and `terminal_schedules`, which may be
-- the null pointer.
pub record DporRun : Type 0 where
  pub result : CheckResult
  pub nodes : List DporNode
  pub terminal_schedules : Option (List Schedule)

-- The search below a state: the trace, the sleep set and the history, and the run so far.
abbrev pub Descent : Type 0
Descent =
    ExecutionState
    → List ExecutedTransition
    → List ScheduleStep
    → StateHistory
    → DporRun
    → Result DporRun

-- What the whole search keeps fixed.
pub record Limits : Type 0 where
  pub max_schedules : ℕ
  pub step_bound : ℕ
  pub detect_cycles : Bool

-- `if (terminal_schedules != nullptr) terminal_schedules->push_back(schedule)`
abbrev pub pushed : Schedule → Option (List Schedule) → Option (List Schedule)
pushed schedule none = none
pushed schedule (some schedules) = some (schedules ++ schedule ∷ [])

-- A schedule is at its end, with what the result says of it.
abbrev pub ended : Schedule → CheckResult → DporRun → DporRun
ended schedule result run = record run {
  result = result;
  terminal_schedules = pushed schedule run.terminal_schedules;
}

abbrev pub change_node : ℕ → (DporNode → DporNode) → DporRun → DporRun
change_node depth change run = record run { nodes = modify_at depth change run.nodes }

abbrev pub with_nodes : DporRun → List DporNode → DporRun
with_nodes run nodes = record run { nodes = nodes }

-- `nodes.at(depth)`
abbrev pub node_at : DporRun → ℕ → Result DporNode
node_at run depth = or_out_of_range (get_elem? run.nodes depth)

unfoldable pub mark_done : ScheduleStep → DporNode → DporNode
unfolding insert_step
mark_done step node = record node { done = insert_step node.done step }

unfoldable pub put_to_sleep : ScheduleStep → DporNode → DporNode
unfolding insert_step
put_to_sleep step node = record node { sleep = insert_step node.sleep step }

-- Every enabled sibling is a choice, and none sleeps.
unfoldable pub wake_all : DporNode → DporNode
unfolding append_steps
wake_all node = record node { sleep = []; backtrack = append_steps node.backtrack node.enabled }

unfoldable pub dpor_node :
    ExecutionState
    → List ScheduleStep
    → OrdMap ScheduleStep EnabledTransition
    → List ScheduleStep
    → DporNode
dpor_node s enabled transitions sleep_set = record {
  enabled = enabled;
  enabled_transitions = transitions;
  backtrack = [];
  done = [];
  sleep = sleep_set;
  pc = s.pc;
  started = s.started;
  mutex_owner = s.mutex_owner;
  rwlocks = s.rwlocks;
  wait_phase = s.wait_phase;
  store_buffers = s.store_buffers;
  pso_store_buffers = s.pso_store_buffers;
  barriers = s.barriers;
}

-- A step past the bound.
unfoldable pub bounded_choice : ExecutionState → ℕ → ScheduleStep → DporRun → DporRun
unfolding wake_all put_to_sleep record_bound_exceeded
bounded_choice s depth step run =
    change_node depth (λ node. put_to_sleep step (wake_all node))
      (ended (s.schedule ++ step ∷ []) (record_bound_exceeded run.result) run)

-- A step whose report ends the schedule.
unfoldable pub terminal_choice :
    Program
    → ExecutionState
    → List ExecutedTransition
    → ℕ
    → ScheduleStep
    → Schedule
    → DporRun
    → Result DporRun
unfolding add_disabled_backtracks wake_all put_to_sleep
terminal_choice program s trace depth step schedule run =
    add_disabled_backtracks program s trace run.nodes >>= λ nodes. ok (
      change_node depth (λ node. put_to_sleep step (wake_all node))
        (ended schedule (explored_one run.result) (with_nodes run nodes)))

-- A step that closes a cycle, which is not put to sleep.
unfoldable pub cycle_choice : Program → ℕ → ExecutionState → ℕ → DporRun → Result DporRun
unfolding wake_all make_nontermination_report record_nontermination
cycle_choice program depth t start run =
    make_nontermination_report program t.schedule start t.memory_model >>= λ lasso.
    ok (change_node depth wake_all (ended t.schedule (record_nontermination run.result lasso) run))

unfoldable pub descend :
    Descent
    → Program
    → ℕ
    → ExecutedTransition
    → ExecutionState
    → List ExecutedTransition
    → StateHistory
    → DporRun
    → Result DporRun
unfolding inherited_sleep_set put_to_sleep
descend below program depth transition t trace history run = node_at run depth >>= λ node.
    inherited_sleep_set program t node transition >>= λ child_sleep.
    below t trace child_sleep history run >>= λ after.
    ok (change_node depth (put_to_sleep transition.endpoint) after)

-- Behind a step that was run, with its report recorded.
unfoldable pub run_successor :
    Descent
    → Program
    → Limits
    → ExecutionState
    → List ExecutedTransition
    → StateHistory
    → ℕ
    → ExecutedTransition
    → ExecutionState
    → Bool
    → DporRun
    → Result DporRun
unfolding terminal_choice observe_if cycle_choice descend
run_successor below program limits s trace history depth transition t terminal run =
    if terminal
    then terminal_choice program s trace depth transition.endpoint t.schedule run
    else (let (cycle_start, seen) = observe_if limits.detect_cycles program t history in
        elim cycle_start [
          | some start ↦ cycle_choice program depth t start run
          | none ↦ descend below program depth transition t trace seen run
        ])

unfoldable pub executed_transition :
    ScheduleStep → EnabledTransition → ExecutionState → StepReport → ExecutedTransition
executed_transition step selected t report = record {
  thread = step.thread;
  effective_action = selected.effective_action;
  endpoint = step;
  clock = t.thread_clock step.thread;
  spawned_thread = report.spawned_thread;
  occurrence = selected.occurrence;
}

-- Behind a step that was run; `longer` is the trace with its transition.
unfoldable pub record_run :
    Descent
    → Program
    → Limits
    → ExecutionState
    → List ExecutedTransition
    → StateHistory
    → ℕ
    → ExecutedTransition
    → ExecutionState
    → StepReport
    → DporRun
    → Result DporRun
unfolding add_backtracks_for_transition record_step_report run_successor
record_run below program limits s longer history depth transition t report run =
    add_backtracks_for_transition program s.memory_model longer run.nodes >>= λ nodes.
    run_successor below program limits s longer history depth transition t (is_terminal report)
      (record run { nodes = nodes; result = record_step_report run.result report })

unfoldable pub run_choice :
    Descent
    → Program
    → Limits
    → ExecutionState
    → List ExecutedTransition
    → StateHistory
    → ℕ
    → ScheduleStep
    → DporRun
    → Result DporRun
unfolding transition_at execute_enabled_step executed_transition record_run
run_choice below program limits s trace history depth step run = do
  node ← node_at run depth
  selected ← transition_at node step
  (t, report) ← execute_enabled_step program s step
  let transition : ExecutedTransition = executed_transition step selected t report
  record_run below program limits s (trace ++ transition ∷ []) history depth transition t report run

-- One round of the loop over the choices, with the node as it is before `done` changes.
unfoldable pub explore_choice :
    Descent
    → Program
    → Limits
    → ExecutionState
    → List ExecutedTransition
    → StateHistory
    → ℕ
    → DporNode
    → ScheduleStep
    → DporRun
    → Result DporRun
unfolding mark_done contains_step step_bound_reached bounded_choice run_choice
explore_choice below program limits s trace history depth node step run =
    let marked = change_node depth (mark_done step) run in
    if not (contains_step node.enabled step)
    then ok marked
    else if contains_step node.sleep step
    then ok marked
    else if step_bound_reached s step.thread limits.step_bound
    then ok (bounded_choice s depth step marked)
    else run_choice below program limits s trace history depth step marked

unfoldable pub explore_choices :
    ℕ
    → Descent
    → Program
    → Limits
    → ExecutionState
    → List ExecutedTransition
    → StateHistory
    → ℕ
    → DporRun
    → Result DporRun
unfolding next_unexplored_backtrack explore_choice
explore_choices zero below program limits s trace history depth run = throw out_of_fuel
explore_choices (suc fuel) below program limits s trace history depth run =
    if leb limits.max_schedules run.result.schedules_explored
    then ok run
    else node_at run depth >>= λ node. elim (next_unexplored_backtrack node) [
      | none ↦ ok run
      | some step ↦
          explore_choice below program limits s trace history depth node step run
          >>= explore_choices fuel below program limits s trace history depth
    ]

-- `if (!all_finished(program, state)) add_disabled_backtracks(…)`
unfoldable pub repair_unfinished :
    Program → ExecutionState → List ExecutedTransition → DporRun → Result DporRun
unfolding all_finished add_disabled_backtracks
repair_unfinished program s trace run =
    if all_finished program s
    then ok run
    else add_disabled_backtracks program s trace run.nodes >>= λ nodes. ok (with_nodes run nodes)

unfoldable pub deadlock_recorded : Program → ExecutionState → DporRun → Result DporRun
unfolding all_finished make_deadlock_report
deadlock_recorded program s run =
    if all_finished program s || has_value run.result.first_deadlock
    then ok run
    else make_deadlock_report program s >>= λ report.
        ok (record run { result = record run.result { first_deadlock = some report } })

-- No step is enabled: the schedule is at its end.
unfoldable pub explore_end :
    Program → ExecutionState → List ExecutedTransition → DporRun → Result DporRun
unfolding repair_unfinished deadlock_recorded
explore_end program s trace run =
    repair_unfinished program s trace (ended s.schedule (explored_one run.result) run)
    >>= deadlock_recorded program s

-- A node whose enabled steps all sleep adds no schedule.
unfoldable pub explore_node :
    Descent
    → Program
    → Limits
    → ExecutionState
    → List ExecutedTransition
    → StateHistory
    → DporNode
    → DporRun
    → Result DporRun
unfolding explore_end initialize_dpor_backtrack repair_unfinished explore_choices
explore_node below program limits s trace history node run =
    let depth = length run.nodes in
    if is_empty node.enabled
    then explore_end program s trace (with_nodes run (run.nodes ++ node ∷ []))
    else initialize_dpor_backtrack program s node >>= λ ready.
        let run = with_nodes run (run.nodes ++ ready ∷ []) in
        if is_empty ready.backtrack
        then repair_unfinished program s trace run
        else explore_choices (suc (length node.enabled)) below program limits s trace history depth
            run

unfoldable pub dpor_dfs : ℕ → Program → Limits → Descent
unfolding enabled_steps enabled_transitions dpor_node explore_node
dpor_dfs zero program limits s trace sleep_set history run = throw out_of_fuel
dpor_dfs (suc fuel) program limits s trace sleep_set history run =
    if leb limits.max_schedules run.result.schedules_explored
    then ok run
    else enabled_transitions program s (enabled_steps program s) >>= λ transitions.
        explore_node (dpor_dfs fuel program limits) program limits s trace history
          (dpor_node s (enabled_steps program s) transitions sleep_set) run
        >>= λ after. ok (with_nodes after (pop_back after.nodes))
