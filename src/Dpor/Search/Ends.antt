-- ===== src/Dpor/Search/Ends.antt =====
-- src/model/checker.cpp: `dpor_dfs` ends. Each level uses up one of the steps that the bound leaves
-- to the threads, and each choice at a node puts one more of its enabled steps into `done`.
use dpor_concurrency_model_c.Common.{
  ℕ, zero, suc, ◌<◌, ◌^◌, Bool, true, false, List, [], ◌∷◌, ◌++◌, none, some, ◌≡◌, sym, subst,
  arith, if-rule, not, ◌||◌, leb, is_empty, length, get_elem?, has_value, Option-cases, inl, inr,
  any,
}
use dpor_concurrency_model_c.Common.OrdMap.{OrdMap, lookup}
use dpor_concurrency_model_c.Common.Result.{
  ok, Ends, Ends->>=, Ends-then, Ends-weaken, Finishes-or_out_of_range,
}
use dpor_concurrency_model_c.Action.{Program, Schedule, ScheduleStep, step_eq}
use dpor_concurrency_model_c.Action.StepOrder.{step_ord}
use dpor_concurrency_model_c.State.{ExecutionState, thread_count}
use dpor_concurrency_model_c.State.Threads.{all_finished}
use dpor_concurrency_model_c.Enabled.Steps.{enabled_steps}
use dpor_concurrency_model_c.Report.{record_step_report}
use dpor_concurrency_model_c.Fingerprint.History.{StateHistory}
use dpor_concurrency_model_c.Step.{execute_enabled_step}
use dpor_concurrency_model_c.Deadlock.{make_deadlock_report}
use dpor_concurrency_model_c.Replay.{
  step_bound_reached, record_bound_exceeded, explored_one, is_terminal, observe_if,
}
use dpor_concurrency_model_c.Replay.Lasso.{make_nontermination_report}
use dpor_concurrency_model_c.Invariant.System.{IsEnabled}
use dpor_concurrency_model_c.Invariant.Progress.{steps_left, execute_enabled_step-steps_left}
use dpor_concurrency_model_c.Invariant.Fuel.{
  execute_enabled_step-Finishes, make_deadlock_report-Finishes, make_nontermination_report-Finishes,
}
use dpor_concurrency_model_c.Explore.Ends.{IsEnabled-thread, below_bound}
use dpor_concurrency_model_c.Dpor.{DporNode, EnabledTransition, ExecutedTransition}
use dpor_concurrency_model_c.Dpor.StepSet.{
  contains_step, insert_step, IsAscending, IsAscending-insert_step,
}
use dpor_concurrency_model_c.Dpor.Occurrence.{enabled_transitions}
use dpor_concurrency_model_c.Dpor.Occurrence.Ends.{enabled_transitions-Finishes}
use dpor_concurrency_model_c.Dpor.Persistent.{
  transition_at, initialize_dpor_backtrack, next_unexplored_backtrack,
}
use dpor_concurrency_model_c.Dpor.Persistent.Missing.{missing, missing-length}
use dpor_concurrency_model_c.Dpor.Persistent.Closed.{}
use dpor_concurrency_model_c.Dpor.Backtrack.{
  add_backtracks_for_transition, add_disabled_backtracks, inherited_sleep_set,
}
use dpor_concurrency_model_c.Dpor.Search.{
  DporRun, Descent, Limits, ended, change_node, with_nodes, node_at, mark_done, put_to_sleep,
  wake_all, dpor_node, bounded_choice, terminal_choice, cycle_choice, descend, run_successor,
  executed_transition, record_run, run_choice, explore_choice, explore_choices, repair_unfinished,
  deadlock_recorded, explore_end, explore_node, dpor_dfs,
}
use dpor_concurrency_model_c.Dpor.Search.Fit.{
  Mark, IsFit, Fit, modify_at-Fit, modify_last-Fit, last-IsFit, append-Fit, pop_back-Fit,
  length-Fit, put_to_sleep-IsFit, wake_all-IsFit, mark_done-IsFit,
}
use dpor_concurrency_model_c.Dpor.Search.NewNode.{fewer, new-IsFit, initialize-Fit}
use dpor_concurrency_model_c.Dpor.Search.Repairs.{
  add_backtracks-Fit, add_disabled-Fit, inherited_sleep_set-Finishes,
}
use dpor_concurrency_model_c.Dpor.Search.Kept.{contains_step-found}

-- The nodes of a run are fit.
abbrev pub FitRun : List Mark → DporRun → Type 0
FitRun base run = Fit base run.nodes

-- The nodes are fit, whatever the last one has tried.
abbrev pub Tried : List Mark → List ScheduleStep → DporRun → Type 0
Tried base enabled run = (tried : List ScheduleStep) × FitRun (base ++ (enabled, tried) ∷ []) run

module _ (program : Program) (limits : Limits) (small : limits.step_bound < 2 ^ 64) where
  -- The steps that the bound leaves in a state.
  abbrev pub left : ExecutionState → ℕ
  left s = steps_left s.thread_steps limits.step_bound 0 (thread_count program)

  sleeping-Fit :
      (base : List Mark) (depth : ℕ) (step : ScheduleStep) (run : DporRun)
      → FitRun base run
      → FitRun base (change_node depth (λ node. put_to_sleep step (wake_all node)) run)
  sleeping-Fit base depth step run fit =
      modify_at-Fit base run.nodes depth _
        (λ mark node _ here.
          put_to_sleep-IsFit mark step (wake_all node) (wake_all-IsFit mark node here))
        fit

  terminal_choice-Fit :
      (base : List Mark) (s : ExecutionState) (trace : List ExecutedTransition) (depth : ℕ)
      (step : ScheduleStep) (schedule : Schedule) (run : DporRun)
      → FitRun base run
      → Ends (FitRun base) (terminal_choice program s trace depth step schedule run)
  unfolding terminal_choice
  terminal_choice-Fit base s trace depth step schedule run fit =
      Ends->>= (Fit base) (FitRun base) (add_disabled_backtracks program s trace run.nodes) _
        (add_disabled-Fit base program s trace run.nodes fit)
        (λ after still _.
          sleeping-Fit base depth step
            (ended schedule (explored_one run.result) (with_nodes run after)) still)

  cycle_choice-Fit :
      (base : List Mark) (depth : ℕ) (t : ExecutionState) (start : ℕ) (run : DporRun)
      → FitRun base run
      → Ends (FitRun base) (cycle_choice program depth t start run)
  unfolding cycle_choice
  cycle_choice-Fit base depth t start run fit =
      Ends-then (FitRun base) (make_nontermination_report program t.schedule start t.memory_model) _
        (make_nontermination_report-Finishes program t.schedule start t.memory_model)
        (λ lasso _.
          modify_at-Fit base run.nodes depth wake_all
            (λ mark node _ here. wake_all-IsFit mark node here) fit)

  -- A search that ends from every state with fewer steps left than `fuel`.
  abbrev pub EndsWithin : ℕ → Descent → Type 0
  EndsWithin fuel below =
      (base : List Mark) (s : ExecutionState) (trace : List ExecutedTransition)
      (sleep_set : List ScheduleStep) (history : StateHistory) (run : DporRun)
      → left s < fuel
      → FitRun base run
      → Ends (FitRun base) (below s trace sleep_set history run)

  module _ (fuel : ℕ) (below : Descent) (below-EndsWithin : EndsWithin fuel below) where
    descend-Fit :
        (base : List Mark) (depth : ℕ) (transition : ExecutedTransition) (t : ExecutionState)
        (trace : List ExecutedTransition) (history : StateHistory) (run : DporRun)
        → left t < fuel
        → FitRun base run
        → Ends (FitRun base) (descend below program depth transition t trace history run)
    unfolding descend
    descend-Fit base depth transition t trace history run enough fit =
        Ends-then (FitRun base) (node_at run depth) _
          (Finishes-or_out_of_range (get_elem? run.nodes depth))
          (λ node _.
            Ends-then (FitRun base) (inherited_sleep_set program t node transition) _
              (inherited_sleep_set-Finishes program t node transition)
              (λ child_sleep _.
                Ends->>= (FitRun base) (FitRun base) (below t trace child_sleep history run) _
                  (below-EndsWithin base t trace child_sleep history run enough fit)
                  (λ after still _.
                    modify_at-Fit base after.nodes depth _
                      (λ mark n _ here. put_to_sleep-IsFit mark transition.endpoint n here) still)))

    run_successor-Fit :
        (base : List Mark) (s : ExecutionState) (trace : List ExecutedTransition)
        (history : StateHistory) (depth : ℕ) (transition : ExecutedTransition) (t : ExecutionState)
        (terminal : Bool) (run : DporRun)
        → left t < fuel
        → FitRun base run
        → Ends
            (FitRun base)
            (run_successor below program limits s trace history depth transition t terminal run)
    unfolding run_successor
    run_successor-Fit base s trace history depth transition t true run enough fit =
        terminal_choice-Fit base s trace depth transition.endpoint t.schedule run fit
    run_successor-Fit base s trace history depth transition t false run enough fit =
        let (cycle_start, seen) = observe_if limits.detect_cycles program t history in
        elim cycle_start
          as (λ cut. Ends (FitRun base) (elim cut [
            | some start ↦ cycle_choice program depth t start run
            | none ↦ descend below program depth transition t trace seen run
          ])) [
            | some start ↦ cycle_choice-Fit base depth t start run fit
            | none ↦ descend-Fit base depth transition t trace seen run enough fit
          ]

    run_choice-Fit :
        (base : List Mark) (s : ExecutionState) (trace : List ExecutedTransition)
        (history : StateHistory) (depth : ℕ) (step : ScheduleStep) (run : DporRun)
        → IsEnabled program s step
        → step_bound_reached s step.thread limits.step_bound ≡ false
        → left s < suc fuel
        → FitRun base run
        → Ends (FitRun base) (run_choice below program limits s trace history depth step run)
    unfolding run_choice record_run transition_at
    run_choice-Fit base s trace history depth step run enabled room enough fit =
        Ends-then (FitRun base) (node_at run depth) _
          (Finishes-or_out_of_range (get_elem? run.nodes depth))
          (λ node _.
            Ends-then (FitRun base) (transition_at node step) _
              (Finishes-or_out_of_range (lookup step node.enabled_transitions))
              (λ selected _.
                Ends-then (FitRun base) (execute_enabled_step program s step) _
                  (execute_enabled_step-Finishes program s step)
                  (λ (t, report) ran.
                    let transition = executed_transition step selected t report in
                    let longer = trace ++ transition ∷ [] in
                    Ends->>= (Fit base) (FitRun base)
                      (add_backtracks_for_transition program s.memory_model longer run.nodes) _
                      (add_backtracks-Fit base program s.memory_model longer run.nodes fit)
                      (λ after still _.
                        run_successor-Fit base s longer history depth transition t
                          (is_terminal report)
                          (record run {
                            nodes = after;
                            result = record_step_report run.result report;
                          })
                          (omega (
                            arith,
                            enough,
                            execute_enabled_step-steps_left program s t step report
                                limits.step_bound ran (IsEnabled-thread program s step enabled)
                                (below_bound s step room) small,
                          ))
                          still))))

    -- `done` are the steps that the node has tried.
    explore_choice-Fit :
        (base : List Mark) (done : List ScheduleStep) (s : ExecutionState)
        (trace : List ExecutedTransition) (history : StateHistory) (node : DporNode)
        (step : ScheduleStep) (run : DporRun)
        → node.enabled ≡ enabled_steps program s
        → left s < suc fuel
        → FitRun (base ++ (enabled_steps program s, done) ∷ []) run
        → Ends
            (FitRun (base ++ (enabled_steps program s, insert_step done step) ∷ []))
            (explore_choice below program limits s trace history (length base) node step run)
    unfolding explore_choice bounded_choice
    explore_choice-Fit base done s trace history node step run same enough fit =
        let marked = change_node (length base) (mark_done step) run in
        let next = base ++ (enabled_steps program s, insert_step done step) ∷ [] in
        let fit_marked : FitRun next marked =
          modify_last-Fit base run.nodes (enabled_steps program s, done)
            (enabled_steps program s, insert_step done step) (mark_done step)
            (mark_done-IsFit (enabled_steps program s) done step) fit in
        if-rule (Ends (FitRun next)) (not (contains_step node.enabled step)) {x = ok marked}
          (λ _. fit_marked)
          (λ listed.
            if-rule (Ends (FitRun next)) (contains_step node.sleep step) {x = ok marked}
              (λ _. fit_marked)
              (λ _.
                if-rule (Ends (FitRun next)) (step_bound_reached s step.thread limits.step_bound)
                  {x = ok (bounded_choice s (length base) step marked)}
                  (λ _.
                    sleeping-Fit next (length base) step
                      (ended (s.schedule ++ step ∷ []) (record_bound_exceeded marked.result) marked)
                      fit_marked)
                  (λ room.
                    run_choice-Fit next s trace history (length base) step marked
                      (subst (λ steps. any (step_eq step) steps ≡ true) same
                        (contains_step-found node.enabled step (ground (arith, listed))))
                      room enough fit_marked)))

    explore_choices-Fit :
        (rounds : ℕ) (base : List Mark) (done : List ScheduleStep) (s : ExecutionState)
        (trace : List ExecutedTransition) (history : StateHistory) (run : DporRun)
        → missing done (enabled_steps program s) < rounds
        → IsAscending done
        → left s < suc fuel
        → FitRun (base ++ (enabled_steps program s, done) ∷ []) run
        → Ends
            (Tried base (enabled_steps program s))
            (explore_choices rounds below program limits s trace history (length base) run)
    unfolding explore_choices
    explore_choices-Fit zero base done s trace history run few ascending enough fit =
        absurd (omega (arith, few))
    explore_choices-Fit (suc rounds) base done s trace history run few ascending enough fit =
        if-rule (Ends (Tried base (enabled_steps program s)))
          (leb limits.max_schedules run.result.schedules_explored) {x = ok run} (λ _. (done, fit))
          (λ _.
            Ends-then (Tried base (enabled_steps program s)) (node_at run (length base)) _
              (Finishes-or_out_of_range (get_elem? run.nodes (length base)))
              (λ node found.
                let here =
                  last-IsFit base run.nodes (enabled_steps program s, done) node fit found in
                elim (Option-cases (next_unexplored_backtrack node)) [
                  | inl over ↦ rw over (done, fit)
                  | inr (step, chosen) ↦ rw chosen (
                      Ends->>=
                        (FitRun (base ++ (enabled_steps program s, insert_step done step) ∷ []))
                        (Tried base (enabled_steps program s))
                        (explore_choice below program limits s trace history (length base) node step
                          run)
                        _
                        (explore_choice-Fit base done s trace history node step run here.0 enough
                          fit)
                        (λ after still _.
                          explore_choices-Fit rounds base (insert_step done step) s trace history
                            after
                            (fewer (enabled_steps program s) done rounds node step few ascending
                              here chosen)
                            (IsAscending-insert_step done step ascending) enough still))
                ]))

  repair_unfinished-Fit :
      (base : List Mark) (s : ExecutionState) (trace : List ExecutedTransition) (run : DporRun)
      → FitRun base run
      → Ends (FitRun base) (repair_unfinished program s trace run)
  unfolding repair_unfinished
  repair_unfinished-Fit base s trace run fit =
      if-rule (Ends (FitRun base)) (all_finished program s) {x = ok run} (λ _. fit)
        (λ _.
          Ends->>= (Fit base) (FitRun base) (add_disabled_backtracks program s trace run.nodes) _
            (add_disabled-Fit base program s trace run.nodes fit) (λ after still _. still))

  deadlock_recorded-Fit :
      (base : List Mark) (s : ExecutionState) (run : DporRun)
      → FitRun base run
      → Ends (FitRun base) (deadlock_recorded program s run)
  unfolding deadlock_recorded
  deadlock_recorded-Fit base s run fit =
      if-rule (Ends (FitRun base)) (all_finished program s || has_value run.result.first_deadlock)
        {x = ok run} (λ _. fit)
        (λ _.
          Ends-then (FitRun base) (make_deadlock_report program s) _
            (make_deadlock_report-Finishes program s) (λ report _. fit))

  explore_end-Fit :
      (base : List Mark) (s : ExecutionState) (trace : List ExecutedTransition) (run : DporRun)
      → FitRun base run
      → Ends (FitRun base) (explore_end program s trace run)
  unfolding explore_end
  explore_end-Fit base s trace run fit =
      Ends->>= (FitRun base) (FitRun base)
        (repair_unfinished program s trace (ended s.schedule (explored_one run.result) run)) _
        (repair_unfinished-Fit base s trace (ended s.schedule (explored_one run.result) run) fit)
        (λ after still _. deadlock_recorded-Fit base s after still)

  explore_node-Fit :
      (fuel : ℕ) (below : Descent)
      → EndsWithin fuel below
      → (base : List Mark) (s : ExecutionState) (trace : List ExecutedTransition)
        (sleep_set : List ScheduleStep) (history : StateHistory) (run : DporRun)
        (transitions : OrdMap ScheduleStep EnabledTransition)
      → enabled_transitions program s (enabled_steps program s) ≡ ok transitions
      → left s < suc fuel
      → FitRun base run
      → Ends (Tried base (enabled_steps program s)) (
          explore_node below program limits s trace history
            (dpor_node s (enabled_steps program s) transitions sleep_set)
            run)
  unfolding explore_node dpor_node
  explore_node-Fit fuel below ends base s trace sleep_set history run transitions built enough fit =
      let node = dpor_node s (enabled_steps program s) transitions sleep_set in
      let mark : Mark = (enabled_steps program s, []) in
      if-rule (Ends (Tried base (enabled_steps program s))) (is_empty node.enabled)
        (λ _.
          Ends-weaken (FitRun (base ++ mark ∷ [])) (Tried base (enabled_steps program s))
            (explore_end program s trace (with_nodes run (run.nodes ++ node ∷ [])))
            (explore_end-Fit (base ++ mark ∷ []) s trace (with_nodes run (run.nodes ++ node ∷ [])) (
              append-Fit base run.nodes mark node fit
                (new-IsFit program s transitions sleep_set [] built tt)))
            (λ after still. ([], still)))
        (λ _.
          Ends->>= (IsFit mark) (Tried base (enabled_steps program s))
            (initialize_dpor_backtrack program s node) _
            (initialize-Fit program s transitions sleep_set built)
            (λ ready here _.
              let pushed_run = with_nodes run (run.nodes ++ ready ∷ []) in
              let pushed_fit = append-Fit base run.nodes mark ready fit here in
              if-rule (Ends (Tried base (enabled_steps program s))) (is_empty ready.backtrack)
                (λ _.
                  Ends-weaken (FitRun (base ++ mark ∷ [])) (Tried base (enabled_steps program s))
                    (repair_unfinished program s trace pushed_run)
                    (repair_unfinished-Fit (base ++ mark ∷ []) s trace pushed_run pushed_fit)
                    (λ after still. ([], still)))
                (λ _.
                  subst
                    (λ depth. Ends (Tried base (enabled_steps program s)) (
                      explore_choices (suc (length (enabled_steps program s))) below program limits
                        s trace history depth pushed_run))
                    (sym (length-Fit base run.nodes fit))
                    (explore_choices-Fit fuel below ends (suc (length (enabled_steps program s)))
                      base [] s trace history pushed_run
                      (omega (arith, missing-length [] (enabled_steps program s))) tt enough
                      pushed_fit))))

  -- The search ends, and leaves the nodes above it with the marks they had.
  pub dpor_dfs-EndsWithin : (fuel : ℕ) → EndsWithin fuel (dpor_dfs fuel program limits)
  unfolding dpor_dfs
  dpor_dfs-EndsWithin zero base s trace sleep_set history run enough fit =
      absurd (omega (arith, enough))
  dpor_dfs-EndsWithin (suc fuel) base s trace sleep_set history run enough fit =
      if-rule (Ends (FitRun base)) (leb limits.max_schedules run.result.schedules_explored)
        {x = ok run} (λ _. fit)
        (λ _.
          Ends-then (FitRun base) (enabled_transitions program s (enabled_steps program s)) _
            (enabled_transitions-Finishes program s (enabled_steps program s))
            (λ transitions built.
              Ends->>= (Tried base (enabled_steps program s)) (FitRun base)
                (explore_node (dpor_dfs fuel program limits) program limits s trace history
                  (dpor_node s (enabled_steps program s) transitions sleep_set) run)
                _
                (explore_node-Fit fuel (dpor_dfs fuel program limits) (dpor_dfs-EndsWithin fuel)
                  base s trace sleep_set history run transitions built enough fit)
                (λ after (tried, still) _.
                  pop_back-Fit base after.nodes (enabled_steps program s, tried) still)))
