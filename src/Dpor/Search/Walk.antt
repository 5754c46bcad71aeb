-- ===== src/Dpor/Search/Walk.antt =====
-- src/model/checker.cpp: a property of the result that each thing the search does keeps holds of
-- the result of `dpor_dfs`.
use dpor_concurrency_model_c.Common.{
  ℕ, zero, suc, Bool, true, false, List, [], ◌∷◌, ◌++◌, Option, none, some, ◌≡◌, refl, sym, ap, ap₂,
  subst, ◌∙◌, arith, if-rule, not, ◌||◌, leb, is_empty, length, get_elem?, pop_back, has_value,
  Bool-cases, inl, inr, any,
}
use dpor_concurrency_model_c.Common.Result.{ok, ◌>>=◌, IfOk, IfOk->>=, IfOk-then, IfOk-weaken}
use dpor_concurrency_model_c.Action.{Program, Schedule, ScheduleStep, step_eq}
use dpor_concurrency_model_c.State.{ExecutionState}
use dpor_concurrency_model_c.State.Threads.{all_finished}
use dpor_concurrency_model_c.Enabled.Steps.{enabled_steps}
use dpor_concurrency_model_c.Report.{CheckResult, StepReport, record_step_report}
use dpor_concurrency_model_c.Fingerprint.History.{StateHistory}
use dpor_concurrency_model_c.Step.{execute_enabled_step}
use dpor_concurrency_model_c.Deadlock.{make_deadlock_report}
use dpor_concurrency_model_c.Replay.{
  step_bound_reached, record_bound_exceeded, explored_one, is_terminal, observe_if,
}
use dpor_concurrency_model_c.Replay.Lasso.{make_nontermination_report, record_nontermination}
use dpor_concurrency_model_c.Invariant.System.{IsEnabled}
use dpor_concurrency_model_c.Dpor.{DporNode, ExecutedTransition}
use dpor_concurrency_model_c.Dpor.StepSet.{contains_step}
use dpor_concurrency_model_c.Dpor.Occurrence.{enabled_transitions}
use dpor_concurrency_model_c.Dpor.Persistent.{
  transition_at, initialize_dpor_backtrack, next_unexplored_backtrack,
}
use dpor_concurrency_model_c.Dpor.Backtrack.{
  add_backtracks_for_transition, add_disabled_backtracks, inherited_sleep_set,
}
use dpor_concurrency_model_c.Dpor.Search.{
  DporRun, Descent, Limits, ended, change_node, with_nodes, node_at, mark_done, put_to_sleep,
  wake_all, dpor_node, bounded_choice, terminal_choice, cycle_choice, descend, run_successor,
  executed_transition, record_run, run_choice, explore_choice, explore_choices, repair_unfinished,
  deadlock_recorded, explore_end, explore_node, dpor_dfs,
}
use dpor_concurrency_model_c.Dpor.Search.Frame.{
  choices, choices-append, choices-modify_at, choices-pop_back, mark_done-enabled,
  put_to_sleep-enabled, wake_all-enabled, add_backtracks-SameChoices, add_disabled-SameChoices,
}
use dpor_concurrency_model_c.Dpor.Search.Kept.{
  Kept, contains_step-found, record_step_report-explored,
}
use dpor_concurrency_model_c.Dpor.Search.Listed.{
  listed_at, pop_back-append, top_of, initialize-enabled,
}

module _ (program : Program) (limits : Limits) (At : ExecutionState → Type 0)
    (P : CheckResult → Option (List Schedule) → Type 0)
    (kept : Kept program limits.max_schedules At P) where
  -- The nodes have these enabled steps, and the property holds.
  abbrev pub Good : List (List ScheduleStep) → DporRun → Type 0
  Good base run = (choices run.nodes ≡ base) × P run.result run.terminal_schedules

  abbrev BelowMax : DporRun → Type 0
  BelowMax run = leb limits.max_schedules run.result.schedules_explored ≡ false

  change_node-Good :
      (base : List (List ScheduleStep)) (depth : ℕ) (change : DporNode → DporNode) (run : DporRun)
      → ((node : DporNode) → (change node).enabled ≡ node.enabled)
      → Good base run
      → Good base (change_node depth change run)
  change_node-Good base depth change run same (nodes, held) =
      (choices-modify_at run.nodes depth change same ∙ nodes, held)

  bounded_choice-Good :
      (base : List (List ScheduleStep)) (s : ExecutionState) (depth : ℕ) (step : ScheduleStep)
      (run : DporRun)
      → BelowMax run
      → Good base run
      → Good base (bounded_choice s depth step run)
  unfolding bounded_choice
  bounded_choice-Good base s depth step run room (nodes, held) =
      change_node-Good base depth (λ node. put_to_sleep step (wake_all node))
        (ended (s.schedule ++ step ∷ []) (record_bound_exceeded run.result) run)
        (λ node. put_to_sleep-enabled step (wake_all node) ∙ wake_all-enabled node)
        (nodes, kept.bounded (s.schedule ++ step ∷ []) room held)

  terminal_choice-Good :
      (base : List (List ScheduleStep)) (s : ExecutionState) (trace : List ExecutedTransition)
      (depth : ℕ) (step : ScheduleStep) (schedule : Schedule) (run : DporRun)
      → BelowMax run
      → Good base run
      → IfOk (Good base) (terminal_choice program s trace depth step schedule run)
  unfolding terminal_choice
  terminal_choice-Good base s trace depth step schedule run room (nodes, held) =
      IfOk->>= _ (Good base) (add_disabled_backtracks program s trace run.nodes) _
        (add_disabled-SameChoices program s trace run.nodes)
        (λ after same _.
          change_node-Good base depth (λ node. put_to_sleep step (wake_all node))
            (ended schedule (explored_one run.result) (with_nodes run after))
            (λ node. put_to_sleep-enabled step (wake_all node) ∙ wake_all-enabled node)
            (same ∙ nodes, kept.explored schedule room held))

  cycle_choice-Good :
      (base : List (List ScheduleStep)) (depth : ℕ) (t : ExecutionState) (start : ℕ) (run : DporRun)
      → At t
      → BelowMax run
      → Good base run
      → IfOk (Good base) (cycle_choice program depth t start run)
  unfolding cycle_choice
  cycle_choice-Good base depth t start run at room (nodes, held) =
      IfOk-then (Good base) (make_nontermination_report program t.schedule start t.memory_model) _
        (λ lasso made.
          change_node-Good base depth wake_all
            (ended t.schedule (record_nontermination run.result lasso) run) wake_all-enabled
            (nodes, kept.looped start lasso at made room held))

  -- What the search below a state does.
  abbrev pub Keeps : Descent → Type 0
  Keeps below =
      (base : List (List ScheduleStep)) (s : ExecutionState) (trace : List ExecutedTransition)
      (sleep_set : List ScheduleStep) (history : StateHistory) (run : DporRun)
      → At s
      → Good base run
      → IfOk (Good base) (below s trace sleep_set history run)

  module _ (below : Descent) (below-Keeps : Keeps below) where
    descend-Good :
        (base : List (List ScheduleStep)) (depth : ℕ) (transition : ExecutedTransition)
        (t : ExecutionState) (trace : List ExecutedTransition) (history : StateHistory)
        (run : DporRun)
        → At t
        → Good base run
        → IfOk (Good base) (descend below program depth transition t trace history run)
    unfolding descend
    descend-Good base depth transition t trace history run at good =
        IfOk-then (Good base) (node_at run depth) _ (λ node _.
          IfOk-then (Good base) (inherited_sleep_set program t node transition) _ (λ child_sleep _.
            IfOk->>= (Good base) (Good base) (below t trace child_sleep history run) _
              (below-Keeps base t trace child_sleep history run at good)
              (λ after good_after _.
                change_node-Good base depth (put_to_sleep transition.endpoint) after
                  (put_to_sleep-enabled transition.endpoint) good_after)))

    run_successor-Good :
        (base : List (List ScheduleStep)) (s : ExecutionState) (trace : List ExecutedTransition)
        (history : StateHistory) (depth : ℕ) (transition : ExecutedTransition) (t : ExecutionState)
        (terminal : Bool) (run : DporRun)
        → At t
        → BelowMax run
        → Good base run
        → IfOk
            (Good base)
            (run_successor below program limits s trace history depth transition t terminal run)
    unfolding run_successor
    run_successor-Good base s trace history depth transition t true run at room good =
        terminal_choice-Good base s trace depth transition.endpoint t.schedule run room good
    run_successor-Good base s trace history depth transition t false run at room good =
        let (cycle_start, seen) = observe_if limits.detect_cycles program t history in
        elim cycle_start
          as (λ cut. IfOk (Good base) (elim cut [
            | some start ↦ cycle_choice program depth t start run
            | none ↦ descend below program depth transition t trace seen run
          ])) [
            | some start ↦ cycle_choice-Good base depth t start run at room good
            | none ↦ descend-Good base depth transition t trace seen run at good
          ]

    record_run-Good :
        (base : List (List ScheduleStep)) (s : ExecutionState) (longer : List ExecutedTransition)
        (history : StateHistory) (depth : ℕ) (transition : ExecutedTransition) (t : ExecutionState)
        (report : StepReport) (run : DporRun)
        → At t
        → P (record_step_report run.result report) run.terminal_schedules
        → BelowMax run
        → choices run.nodes ≡ base
        → IfOk
            (Good base)
            (record_run below program limits s longer history depth transition t report run)
    unfolding record_run
    record_run-Good base s longer history depth transition t report run at held room nodes =
        IfOk->>= (λ after. choices after ≡ choices run.nodes) (Good base)
          (add_backtracks_for_transition program s.memory_model longer run.nodes) _
          (add_backtracks-SameChoices program s.memory_model longer run.nodes)
          (λ after same _.
            run_successor-Good base s longer history depth transition t (is_terminal report)
              (record run { nodes = after; result = record_step_report run.result report }) at
              (subst (λ n. leb limits.max_schedules n ≡ false)
                (sym (record_step_report-explored run.result report)) room)
              (same ∙ nodes, held))

    run_choice-Good :
        (base : List (List ScheduleStep)) (s : ExecutionState) (trace : List ExecutedTransition)
        (history : StateHistory) (depth : ℕ) (step : ScheduleStep) (run : DporRun)
        → At s
        → IsEnabled program s step
        → BelowMax run
        → Good base run
        → IfOk (Good base) (run_choice below program limits s trace history depth step run)
    unfolding run_choice
    run_choice-Good base s trace history depth step run at enabled room (nodes, held) =
        IfOk-then (Good base) (node_at run depth) _ (λ node _.
          IfOk-then (Good base) (transition_at node step) _ (λ selected _.
            IfOk-then (Good base) (execute_enabled_step program s step) _ (λ (t, report) ran.
              let transition = executed_transition step selected t report in
              record_run-Good base s (trace ++ transition ∷ []) history depth transition t report
                run (kept.stepped step at enabled ran) (kept.recorded step at enabled ran held) room
                nodes)))

    explore_choice-Good :
        (base : List (List ScheduleStep)) (s : ExecutionState) (trace : List ExecutedTransition)
        (history : StateHistory) (depth : ℕ) (node : DporNode) (step : ScheduleStep) (run : DporRun)
        → At s
        → node.enabled ≡ enabled_steps program s
        → BelowMax run
        → Good base run
        → IfOk (Good base) (explore_choice below program limits s trace history depth node step run)
    unfolding explore_choice
    explore_choice-Good base s trace history depth node step run at same room good =
        let marked = change_node depth (mark_done step) run in
        let good_marked : Good base marked =
          change_node-Good base depth (mark_done step) run (mark_done-enabled step) good in
        if-rule (IfOk (Good base)) (not (contains_step node.enabled step)) {x = ok marked}
          (λ _. good_marked)
          (λ listed.
            if-rule (IfOk (Good base)) (contains_step node.sleep step) {x = ok marked}
              (λ _. good_marked)
              (λ _.
                if-rule (IfOk (Good base)) (step_bound_reached s step.thread limits.step_bound)
                  {x = ok (bounded_choice s depth step marked)}
                  (λ _. bounded_choice-Good base s depth step marked room good_marked)
                  (λ _.
                    run_choice-Good base s trace history depth step marked at
                      (subst (λ steps. any (step_eq step) steps ≡ true) same
                        (contains_step-found node.enabled step (ground (arith, listed))))
                      room good_marked)))

    -- The node of the loop lists the enabled steps of its state.
    explore_choices-Good :
        (fuel : ℕ) (base : List (List ScheduleStep)) (s : ExecutionState)
        (trace : List ExecutedTransition) (history : StateHistory) (depth : ℕ) (run : DporRun)
        → At s
        → get_elem? base depth ≡ some (enabled_steps program s)
        → Good base run
        → IfOk (Good base) (explore_choices fuel below program limits s trace history depth run)
    unfolding explore_choices
    explore_choices-Good zero base s trace history depth run at top good = tt
    explore_choices-Good (suc fuel) base s trace history depth run at top good =
        elim (Bool-cases (leb limits.max_schedules run.result.schedules_explored)) [
          | inl full ↦ rw full good
          | inr room ↦ rw room (
              IfOk-then (Good base) (node_at run depth) _ (λ node found.
                elim (next_unexplored_backtrack node)
                  as (λ choice. IfOk (Good base) (elim choice [
                    | none ↦ ok run
                    | some step ↦
                        explore_choice below program limits s trace history depth node step run
                        >>= explore_choices fuel below program limits s trace history depth
                  ])) [
                    | none ↦ good
                    | some step ↦
                        IfOk->>= (Good base) (Good base)
                          (explore_choice below program limits s trace history depth node step run)
                          _
                          (explore_choice-Good base s trace history depth node step run at
                            (listed_at run.nodes base depth node found good.0 top) room good)
                          (λ after good_after _.
                            explore_choices-Good fuel base s trace history depth after at top
                              good_after)
                  ]))
        ]

  repair_unfinished-Good :
      (base : List (List ScheduleStep)) (s : ExecutionState) (trace : List ExecutedTransition)
      (run : DporRun)
      → Good base run
      → IfOk
          (λ after.
            Good base after × (after.result.schedules_explored ≡ run.result.schedules_explored))
          (repair_unfinished program s trace run)
  unfolding repair_unfinished
  repair_unfinished-Good base s trace run (nodes, held) =
      if-rule
        (IfOk (λ after.
          Good base after × (after.result.schedules_explored ≡ run.result.schedules_explored)))
        (all_finished program s) {x = ok run} (λ _. ((nodes, held), refl))
        (λ _.
          IfOk->>= (λ after. choices after ≡ choices run.nodes) _
            (add_disabled_backtracks program s trace run.nodes) _
            (add_disabled-SameChoices program s trace run.nodes)
            (λ after same _. ((same ∙ nodes, held), refl)))

  deadlock_recorded-Good :
      (base : List (List ScheduleStep)) (s : ExecutionState) (run : DporRun)
      → At s
      → is_empty (enabled_steps program s) ≡ true
      → Good base run
      → IfOk (Good base) (deadlock_recorded program s run)
  unfolding deadlock_recorded
  deadlock_recorded-Good base s run at stuck (nodes, held) =
      if-rule (IfOk (Good base)) (all_finished program s || has_value run.result.first_deadlock)
        {x = ok run} (λ _. (nodes, held))
        (λ blocked. IfOk-then (Good base) (make_deadlock_report program s) _ (λ report made.
          (nodes, kept.deadlocked report at stuck (ground (arith, blocked)) made held)))

  explore_end-Good :
      (base : List (List ScheduleStep)) (s : ExecutionState) (trace : List ExecutedTransition)
      (run : DporRun)
      → At s
      → is_empty (enabled_steps program s) ≡ true
      → BelowMax run
      → Good base run
      → IfOk (Good base) (explore_end program s trace run)
  unfolding explore_end
  explore_end-Good base s trace run at stuck room (nodes, held) =
      let over : DporRun = ended s.schedule (explored_one run.result) run in
      IfOk->>= _ (Good base) (repair_unfinished program s trace over) _
        (repair_unfinished-Good base s trace over (nodes, kept.explored s.schedule room held))
        (λ after good _. deadlock_recorded-Good base s after at stuck good.0)

  -- A node that is pushed on the nodes, for a state of the search.
  explore_node-Good :
      (below : Descent)
      → Keeps below
      → (base : List (List ScheduleStep)) (s : ExecutionState) (trace : List ExecutedTransition)
        (history : StateHistory) (node : DporNode) (run : DporRun)
      → At s
      → node.enabled ≡ enabled_steps program s
      → BelowMax run
      → Good base run
      → IfOk
          (Good (base ++ enabled_steps program s ∷ []))
          (explore_node below program limits s trace history node run)
  unfolding explore_node
  explore_node-Good below keeps base s trace history node run at same room (nodes, held) =
      if-rule (IfOk (Good (base ++ enabled_steps program s ∷ []))) (is_empty node.enabled)
        (λ stuck.
          explore_end-Good (base ++ enabled_steps program s ∷ []) s trace
            (with_nodes run (run.nodes ++ node ∷ [])) at
            (subst (λ steps. is_empty steps ≡ true) same stuck) room (pushed_nodes node same, held))
        (λ _.
          IfOk->>= (λ ready. ready.enabled ≡ node.enabled) _
            (initialize_dpor_backtrack program s node) _ (initialize-enabled program s node)
            (λ ready kept_enabled _.
              let pushed_run = with_nodes run (run.nodes ++ ready ∷ []) in
              if-rule (IfOk (Good (base ++ enabled_steps program s ∷ [])))
                (is_empty ready.backtrack)
                (λ _.
                  IfOk-weaken _ _ (repair_unfinished program s trace pushed_run)
                    (repair_unfinished-Good (base ++ enabled_steps program s ∷ []) s trace
                      pushed_run (pushed_nodes ready (kept_enabled ∙ same), held))
                    (λ after good. good.0))
                (λ _.
                  explore_choices-Good below keeps (suc (length node.enabled))
                    (base ++ enabled_steps program s ∷ []) s trace history (length run.nodes)
                    pushed_run at (top_of run.nodes base (enabled_steps program s) nodes)
                    (pushed_nodes ready (kept_enabled ∙ same), held))))
    where
      pushed_nodes :
          (top : DporNode)
          → top.enabled ≡ enabled_steps program s
          → choices (run.nodes ++ top ∷ []) ≡ base ++ enabled_steps program s ∷ []
      pushed_nodes top listed = choices-append run.nodes top ∙ ap₂ (λ b e. b ++ e ∷ []) nodes listed

  -- The search keeps the property from state to state, and leaves the nodes above it with their
  -- enabled steps.
  pub dpor_dfs-Keeps : (fuel : ℕ) → Keeps (dpor_dfs fuel program limits)
  unfolding dpor_dfs
  dpor_dfs-Keeps zero base s trace sleep_set history run at good = tt
  dpor_dfs-Keeps (suc fuel) base s trace sleep_set history run at good =
      if-rule (IfOk (Good base)) (leb limits.max_schedules run.result.schedules_explored)
        {x = ok run} (λ _. good)
        (λ room.
          IfOk-then (Good base) (enabled_transitions program s (enabled_steps program s)) _
            (λ transitions _.
              IfOk->>= (Good (base ++ enabled_steps program s ∷ [])) (Good base)
                (explore_node (dpor_dfs fuel program limits) program limits s trace history
                  (dpor_node s (enabled_steps program s) transitions sleep_set) run)
                _
                (explore_node-Good (dpor_dfs fuel program limits) (dpor_dfs-Keeps fuel) base s trace
                  history (dpor_node s (enabled_steps program s) transitions sleep_set) run at
                  (unfold dpor_node in refl) room good)
                (λ after (nodes, held) _. (
                  choices-pop_back after.nodes ∙ ap pop_back nodes ∙ pop_back-append base _,
                  held,
                ))))
