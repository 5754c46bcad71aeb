-- ===== src/Explore/Ends.antt =====
-- src/model/checker.cpp: `dfs` ends. The fuel is enough: each level uses up one of the steps that
-- the bound leaves to the threads.
use dpor_concurrency_model_c.Common.{
  ℕ, zero, suc, ◌*◌, ◌^◌, ◌≤◌, ◌<◌, Bool, true, false, List, [], ◌∷◌, none, some, String, ◌≡◌, inl,
  inr, sym, ap, subst, arith, if-rule, leb, is_empty, any,
}
use dpor_concurrency_model_c.Common.Order.{nat_ord, name_ord}
use dpor_concurrency_model_c.Common.Result.{ok, ◌>>=◌, Finishes, Finishes->>=}
use dpor_concurrency_model_c.Action.{Program, ScheduleStep, step_eq}
use dpor_concurrency_model_c.State.{ExecutionState, MemoryModel, PsoAddressBuffer, thread_count}
use dpor_concurrency_model_c.State.Threads.{all_finished, initial_state, requires_cycle_detection}
use dpor_concurrency_model_c.Enabled.Steps.{enabled_steps, flush_steps, pso_flush_steps}
use dpor_concurrency_model_c.Enabled.Membership.{enabled_steps_iff}
use dpor_concurrency_model_c.Report.{CheckResult, empty_result, record_step_report}
use dpor_concurrency_model_c.Fingerprint.History.{StateHistory}
use dpor_concurrency_model_c.Step.{execute_enabled_step}
use dpor_concurrency_model_c.Deadlock.{make_deadlock_report}
use dpor_concurrency_model_c.Replay.{
  step_bound_reached, record_bound_exceeded, explored_one, is_terminal, observe_if, initial_history,
}
use dpor_concurrency_model_c.Replay.Lasso.{make_nontermination_report, record_nontermination}
use dpor_concurrency_model_c.Invariant.System.{IsEnabled}
use dpor_concurrency_model_c.Invariant.Progress.{steps_left, execute_enabled_step-steps_left}
use dpor_concurrency_model_c.Invariant.Fuel.{
  execute_enabled_step-Finishes, make_deadlock_report-Finishes, make_nontermination_report-Finishes,
}
use dpor_concurrency_model_c.Dpor.Enablers.Heads.{IsWithin, IsWithin-refl}
use dpor_concurrency_model_c.Explore.{
  Search, explore_successor, explore_step, explore_steps, explore_leaf, dfs, explore_naive_raw,
  search_depth,
}

pso_flush_steps-thread :
    (names : List String) (tid : ℕ) (b : PsoAddressBuffer) (step : ScheduleStep)
    → any (step_eq step) (pso_flush_steps names tid b) ≡ true
    → step.thread ≡ tid
unfolding pso_flush_steps
pso_flush_steps-thread names tid [] step h = cc
pso_flush_steps-thread names tid ((address, values) ∷ b) step h =
    ground (arith, h, pso_flush_steps-thread names tid b step)

flush_steps-thread :
    (m : MemoryModel) (s : ExecutionState) (tid : ℕ) (step : ScheduleStep)
    → any (step_eq step) (flush_steps m s tid) ≡ true
    → step.thread ≡ tid
unfolding flush_steps
flush_steps-thread MemoryModel.tso s tid step h = ground arith
flush_steps-thread MemoryModel.sc s tid step h =
    pso_flush_steps-thread s.flush_addresses tid (s.pso_store_buffers tid) step h
flush_steps-thread MemoryModel.pso s tid step h =
    pso_flush_steps-thread s.flush_addresses tid (s.pso_store_buffers tid) step h

-- An enabled step is one of a thread of the program.
pub IsEnabled-thread :
    (program : Program) (s : ExecutionState) (step : ScheduleStep)
    → IsEnabled program s step
    → step.thread < thread_count program
IsEnabled-thread program s step h =
    let (tid, inside, offers) = (enabled_steps_iff program s step).0 h in
    subst (λ n. n < thread_count program)
      (elim offers.1 as (λ _. tid ≡ step.thread) [
        | inl (enabled, same) ↦ sym (ap (λ (u : ScheduleStep). u.thread) same)
        | inr (pending, flush) ↦ sym (flush_steps-thread s.memory_model s tid step flush)
      ])
      inside

pub below_bound :
    {bound : ℕ} (s : ExecutionState) (step : ScheduleStep)
    → step_bound_reached s step.thread bound ≡ false
    → s.thread_steps step.thread < bound
unfolding step_bound_reached
below_bound s step room = ground (arith, room)

module _ (program : Program) (max_schedules step_bound : ℕ) (detect_cycles : Bool)
    (small : step_bound < 2 ^ 64) where
  -- The steps that the bound leaves in a state.
  abbrev pub left : ExecutionState → ℕ
  left s = steps_left s.thread_steps step_bound 0 (thread_count program)

  -- A search that ends from every state with fewer steps left than `fuel`.
  abbrev FinishesWithin : ℕ → Search → Type 0
  FinishesWithin fuel below =
      (s : ExecutionState) (history : StateHistory) (r : CheckResult)
      → left s < fuel
      → Finishes (below s history r)

  module _ (fuel : ℕ) (below : Search) (below-FinishesWithin : FinishesWithin fuel below) where
    explore_successor-Finishes :
        (history : StateHistory) (r : CheckResult) (t : ExecutionState)
        → left t < fuel
        → Finishes (explore_successor below program detect_cycles history r t)
    unfolding explore_successor
    explore_successor-Finishes history r t enough =
        let (cycle_start, seen) = observe_if detect_cycles program t history in
        elim cycle_start
          as (λ cut. Finishes (elim cut [
            | none ↦ below t seen r
            | some start ↦
                make_nontermination_report program t.schedule start t.memory_model >>= λ lasso.
                ok (record_nontermination r lasso)
          ])) [
            | none ↦ below-FinishesWithin t seen r enough
            | some start ↦
                Finishes->>= (make_nontermination_report program t.schedule start t.memory_model) _
                  (make_nontermination_report-Finishes program t.schedule start t.memory_model)
                  (λ lasso made. tt)
          ]

    explore_step-Finishes :
        (s : ExecutionState) (history : StateHistory) (r : CheckResult) (step : ScheduleStep)
        → IsEnabled program s step
        → left s < suc fuel
        → Finishes (explore_step below program step_bound detect_cycles s history r step)
    unfolding explore_step
    explore_step-Finishes s history r step enabled enough =
        if-rule (Finishes) (step_bound_reached s step.thread step_bound)
          {x = ok (record_bound_exceeded r)} (λ _. tt)
          (λ room.
            Finishes->>= (execute_enabled_step program s step) _
              (execute_enabled_step-Finishes program s step)
              (λ (t, report) ran.
                if-rule (Finishes) (is_terminal report)
                  {x = ok (explored_one (record_step_report r report))} (λ _. tt)
                  (λ _. explore_successor-Finishes history (record_step_report r report) t (
                    omega (
                      arith,
                      enough,
                      execute_enabled_step-steps_left program s t step report step_bound ran
                          (IsEnabled-thread program s step enabled) (below_bound s step room) small,
                    )))))

    explore_steps-Finishes :
        (s : ExecutionState) (history : StateHistory) (steps : List ScheduleStep) (r : CheckResult)
        → IsWithin (enabled_steps program s) steps
        → left s < suc fuel
        → Finishes
            (explore_steps below program max_schedules step_bound detect_cycles s history steps r)
    unfolding explore_steps
    explore_steps-Finishes s history [] r within enough = tt
    explore_steps-Finishes s history (step ∷ rest) r (enabled, within) enough =
        Finishes->>= (explore_step below program step_bound detect_cycles s history r step) _
          (explore_step-Finishes s history r step enabled enough)
          (λ after _.
            if-rule (Finishes) (leb max_schedules after.schedules_explored) {x = ok after} (λ _. tt)
              (λ _. explore_steps-Finishes s history rest after within enough))

  explore_leaf-Finishes :
      (s : ExecutionState) (r : CheckResult) → Finishes (explore_leaf program s r)
  unfolding explore_leaf
  explore_leaf-Finishes s r =
      if-rule (Finishes) (all_finished program s) {x = ok (explored_one r)} (λ _. tt)
        (λ _.
          elim r.first_deadlock
            as (λ first. Finishes (elim first [
              | some report ↦ ok (explored_one r)
              | none ↦ make_deadlock_report program s >>= λ report.
                  ok (record (explored_one r) { first_deadlock = some report })
            ])) [
              | some report ↦ tt
              | none ↦
                  Finishes->>= (make_deadlock_report program s) _
                    (make_deadlock_report-Finishes program s) (λ report made. tt)
            ])

  pub dfs-Finishes :
      (fuel : ℕ) → FinishesWithin fuel (dfs fuel program max_schedules step_bound detect_cycles)
  unfolding dfs
  dfs-Finishes zero s history r enough = absurd (omega (arith, enough))
  dfs-Finishes (suc fuel) s history r enough =
      if-rule (Finishes) (leb max_schedules r.schedules_explored) {x = ok r} (λ _. tt)
        (λ _.
          if-rule (Finishes) (is_empty (enabled_steps program s)) (λ _. explore_leaf-Finishes s r)
            (λ _.
              explore_steps-Finishes fuel (dfs fuel program max_schedules step_bound detect_cycles)
                (dfs-Finishes fuel) s history (enabled_steps program s) r
                (IsWithin-refl (enabled_steps program s)) enough))

pub steps_left-at_most :
    (steps : ℕ → ℕ) (bound start n : ℕ) → steps_left steps bound start n ≤ n * bound
steps_left-at_most steps bound start zero = omega arith
steps_left-at_most steps bound start (suc n) =
    omega (arith, steps_left-at_most steps bound (suc start) n)

-- For a step bound that a 64-bit word holds, the exhaustive exploration ends: it returns a result,
-- or it throws an exception of the program, and never runs out of the model's fuel.
pub explore_naive_raw-Finishes :
    (program : Program) (step_bound : ℕ) (m : MemoryModel) (max_schedules : ℕ)
    → step_bound < 2 ^ 64
    → Finishes (explore_naive_raw program step_bound m max_schedules)
unfolding explore_naive_raw
explore_naive_raw-Finishes program step_bound m max_schedules small =
    let s : ExecutionState = initial_state program m in
    Finishes->>=
      (dfs (search_depth program step_bound) program max_schedules step_bound
        (requires_cycle_detection program) s (initial_history program s) empty_result)
      _
      (dfs-Finishes program max_schedules step_bound (requires_cycle_detection program) small
        (search_depth program step_bound) s (initial_history program s) empty_result
        (omega (arith, steps_left-at_most s.thread_steps step_bound 0 (thread_count program))))
      (λ r _. tt)
