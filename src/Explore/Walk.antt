-- ===== src/Explore/Walk.antt =====
-- src/model/checker.cpp: a property of the result that each thing a search does keeps holds of the
-- result of `dfs`.
use dpor_concurrency_model_c.Common.{
  ℕ, zero, suc, Bool, true, false, List, [], ◌∷◌, Option, none, some, ◌≡◌, sym, subst, if-rule, leb,
  is_empty,
}
use dpor_concurrency_model_c.Common.Result.{Result, ok, ◌>>=◌, IfOk, IfOk->>=, IfOk-then}
use dpor_concurrency_model_c.Action.{Program, ScheduleStep, Schedule}
use dpor_concurrency_model_c.State.{ExecutionState}
use dpor_concurrency_model_c.State.Threads.{all_finished}
use dpor_concurrency_model_c.Enabled.Steps.{enabled_steps}
use dpor_concurrency_model_c.Report.{CheckResult, record_step_report}
use dpor_concurrency_model_c.Fingerprint.History.{StateHistory}
use dpor_concurrency_model_c.Step.{execute_enabled_step}
use dpor_concurrency_model_c.Deadlock.{make_deadlock_report}
use dpor_concurrency_model_c.Replay.{
  step_bound_reached, record_bound_exceeded, explored_one, is_terminal, observe_if,
}
use dpor_concurrency_model_c.Replay.Lasso.{make_nontermination_report, record_nontermination}
use dpor_concurrency_model_c.Invariant.System.{IsEnabled}
use dpor_concurrency_model_c.Dpor.Enablers.Heads.{IsWithin, IsWithin-refl}
use dpor_concurrency_model_c.Dpor.Search.Kept.{Kept, record_step_report-explored}
use dpor_concurrency_model_c.Explore.{
  Search, explore_successor, explore_step, explore_steps, explore_leaf, dfs,
}

module _ (program : Program) (max_schedules step_bound : ℕ) (detect_cycles : Bool)
    (At : ExecutionState → Type 0) (P : CheckResult → Option (List Schedule) → Type 0)
    (kept : Kept program max_schedules At P) where
  -- The exploration collects no schedules.
  abbrev Stays : Result CheckResult → Type 0
  Stays = IfOk (λ r. P r none)

  abbrev pub KeepsResult : Search → Type 0
  KeepsResult below =
      (s : ExecutionState) (history : StateHistory) (r : CheckResult)
      → At s
      → P r none
      → IfOk (λ after. P after none) (below s history r)

  module _ (below : Search) (below-KeepsResult : KeepsResult below) where
    explore_successor-Stays :
        (history : StateHistory) (r : CheckResult) (t : ExecutionState)
        → At t
        → leb max_schedules r.schedules_explored ≡ false
        → P r none
        → Stays (explore_successor below program detect_cycles history r t)
    unfolding explore_successor
    explore_successor-Stays history r t at room held =
        let (cycle_start, seen) = observe_if detect_cycles program t history in
        elim cycle_start
          as (λ cut. Stays (elim cut [
            | none ↦ below t seen r
            | some start ↦
                make_nontermination_report program t.schedule start t.memory_model >>= λ lasso.
                ok (record_nontermination r lasso)
          ])) [
            | none ↦ below-KeepsResult t seen r at held
            | some start ↦
                IfOk-then (λ after. P after none)
                  (make_nontermination_report program t.schedule start t.memory_model) _
                  (λ lasso made. kept.looped start lasso at made room held)
          ]

    explore_step-Stays :
        (s : ExecutionState) (history : StateHistory) (r : CheckResult) (step : ScheduleStep)
        → At s
        → IsEnabled program s step
        → leb max_schedules r.schedules_explored ≡ false
        → P r none
        → Stays (explore_step below program step_bound detect_cycles s history r step)
    unfolding explore_step
    explore_step-Stays s history r step at enabled room held =
        if-rule Stays (step_bound_reached s step.thread step_bound)
          {x = ok (record_bound_exceeded r)} (λ _. kept.bounded [] room held)
          (λ _.
            IfOk-then (λ after. P after none) (execute_enabled_step program s step) _
              (λ (t, report) ran.
                let recorded = kept.recorded step at enabled ran held in
                let still =
                  subst (λ n. leb max_schedules n ≡ false)
                    (sym (record_step_report-explored r report)) room in
                if-rule Stays (is_terminal report)
                  {x = ok (explored_one (record_step_report r report))}
                  (λ _. kept.explored [] still recorded)
                  (λ _.
                    explore_successor-Stays history (record_step_report r report) t
                      (kept.stepped step at enabled ran) still recorded)))

    explore_steps-Stays :
        (s : ExecutionState) (history : StateHistory) (steps : List ScheduleStep) (r : CheckResult)
        → At s
        → IsWithin (enabled_steps program s) steps
        → leb max_schedules r.schedules_explored ≡ false
        → P r none
        → Stays
            (explore_steps below program max_schedules step_bound detect_cycles s history steps r)
    unfolding explore_steps
    explore_steps-Stays s history [] r at within room held = held
    explore_steps-Stays s history (step ∷ rest) r at (enabled, within) room held =
        IfOk->>= (λ after. P after none) (λ after. P after none)
          (explore_step below program step_bound detect_cycles s history r step) _
          (explore_step-Stays s history r step at enabled room held)
          (λ after held_after _.
            if-rule Stays (leb max_schedules after.schedules_explored) {x = ok after}
              (λ _. held_after)
              (λ still. explore_steps-Stays s history rest after at within still held_after))

  explore_leaf-Stays :
      (s : ExecutionState) (r : CheckResult)
      → At s
      → is_empty (enabled_steps program s) ≡ true
      → leb max_schedules r.schedules_explored ≡ false
      → P r none
      → Stays (explore_leaf program s r)
  unfolding explore_leaf
  explore_leaf-Stays s r at stuck room held =
      if-rule Stays (all_finished program s) {x = ok (explored_one r)}
        (λ _. kept.explored [] room held)
        (λ unfinished.
          elim r.first_deadlock
            as (λ first. Stays (elim first [
              | some report ↦ ok (explored_one r)
              | none ↦ make_deadlock_report program s >>= λ report.
                  ok (record (explored_one r) { first_deadlock = some report })
            ])) [
              | some report ↦ kept.explored [] room held
              | none ↦
                  IfOk-then (λ after. P after none) (make_deadlock_report program s) _
                    (λ report made.
                      kept.deadlocked report at stuck unfinished made (kept.explored [] room held))
            ])

  pub dfs-KeepsResult :
      (fuel : ℕ) → KeepsResult (dfs fuel program max_schedules step_bound detect_cycles)
  unfolding dfs
  dfs-KeepsResult zero s history r at held = tt
  dfs-KeepsResult (suc fuel) s history r at held =
      if-rule Stays (leb max_schedules r.schedules_explored) {x = ok r} (λ _. held)
        (λ room.
          if-rule Stays (is_empty (enabled_steps program s))
            (λ stuck. explore_leaf-Stays s r at stuck room held)
            (λ _.
              explore_steps-Stays (dfs fuel program max_schedules step_bound detect_cycles)
                (dfs-KeepsResult fuel) s history (enabled_steps program s) r at
                (IsWithin-refl (enabled_steps program s)) room held))
