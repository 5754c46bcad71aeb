-- ===== src/Explore/Agreement.antt =====
-- src/model/checker.cpp: `collect_naive_schedules_dfs` collects what `dfs` counts.
use dpor_concurrency_model_c.Common.{
  ℕ, zero, suc, Bool, true, false, List, [], ◌∷◌, ◌++◌, none, some, ◌≡◌, refl, sym, ap, ◌∙◌, arith,
  if◌then◌else◌, if-rule, leb, is_empty, length, length-append,
}
use dpor_concurrency_model_c.Common.Result.{Result, ok, throw, ◌>>=◌}
use dpor_concurrency_model_c.Action.{Program, Schedule, ScheduleStep}
use dpor_concurrency_model_c.State.{ExecutionState, MemoryModel}
use dpor_concurrency_model_c.State.Threads.{all_finished, initial_state, requires_cycle_detection}
use dpor_concurrency_model_c.Enabled.Steps.{enabled_steps}
use dpor_concurrency_model_c.Report.{CheckResult, empty_result, record_step_report}
use dpor_concurrency_model_c.Fingerprint.History.{StateHistory}
use dpor_concurrency_model_c.Step.{execute_enabled_step}
use dpor_concurrency_model_c.Step.Base.{Outcome}
use dpor_concurrency_model_c.Deadlock.{make_deadlock_report}
use dpor_concurrency_model_c.Replay.{
  step_bound_reached, record_bound_exceeded, explored_one, is_terminal, observe_if, initial_history,
}
use dpor_concurrency_model_c.Replay.Lasso.{make_nontermination_report, record_nontermination}
use dpor_concurrency_model_c.Dpor.Search.Kept.{record_step_report-explored}
use dpor_concurrency_model_c.Dpor.Search.Counts.{record_nontermination-explored}
use dpor_concurrency_model_c.Explore.{
  Search, explore_successor, explore_step, explore_steps, explore_leaf, dfs, explore_naive_raw,
  search_depth,
}
use dpor_concurrency_model_c.Explore.Collect.{
  Collection, collect_successor, collect_step, collect_steps, collect_naive_schedules_dfs,
  collect_naive_schedules,
}

-- As many schedules are collected as counted.
abbrev pub SameCount : CheckResult → List Schedule → Type 0
SameCount r schedules = length schedules ≡ r.schedules_explored

-- Where the exploration returns, so does the collection, with the same count.
abbrev pub Agree : Result CheckResult → Result (List Schedule) → Type 0
Agree (ok r) (ok schedules) = SameCount r schedules
Agree (ok r) (throw e) = ⊥
Agree (throw e) collected = Unit

Agree->>= :
    (explored : Result CheckResult) (collected : Result (List Schedule))
    (onward : CheckResult → Result CheckResult) (further : List Schedule → Result (List Schedule))
    → Agree explored collected
    → ((r : CheckResult) (schedules : List Schedule)
        → SameCount r schedules
        → Agree (onward r) (further schedules))
    → Agree (explored >>= onward) (collected >>= further)
Agree->>= (ok r) (ok schedules) onward further same go = go r schedules same
Agree->>= (ok r) (throw e) onward further same go = absurd same
Agree->>= (throw e) collected onward further same go = tt

-- The same step of the interpreter comes first.
both-Agree :
    (ran : Result Outcome) (onward : Outcome → Result CheckResult)
    (further : Outcome → Result (List Schedule))
    → ((o : Outcome) → Agree (onward o) (further o))
    → Agree (ran >>= onward) (ran >>= further)
both-Agree (ok o) onward further go = go o
both-Agree (throw e) onward further go = tt

-- The exploration makes a report, and the collection does not.
report-Agree :
    {R : Type 0} (made : Result R) (onward : R → Result CheckResult) (schedules : List Schedule)
    → ((report : R) → Agree (onward report) (ok schedules))
    → Agree (made >>= onward) (ok schedules)
report-Agree (ok report) onward schedules go = go report
report-Agree (throw e) onward schedules go = tt

one_more-SameCount :
    (r q : CheckResult) (schedules : List Schedule) (schedule : Schedule)
    → q.schedules_explored ≡ suc r.schedules_explored
    → SameCount r schedules
    → SameCount q (schedules ++ schedule ∷ [])
one_more-SameCount r q schedules schedule more same =
    omega (arith, length-append schedules (schedule ∷ []), more, same)

-- The same test, of the count and of the length.
if-Agree :
    (test other : Bool) (x y : Result CheckResult) (u v : Result (List Schedule))
    → test ≡ other
    → Agree x u
    → Agree y v
    → Agree (if test then x else y) (if other then u else v)
if-Agree true true x y u v h a b = a
if-Agree false false x y u v h a b = b
if-Agree true false x y u v h a b = cc
if-Agree false true x y u v h a b = cc

same_cap :
    (cap : ℕ) (r : CheckResult) (schedules : List Schedule)
    → SameCount r schedules
    → leb cap r.schedules_explored ≡ leb cap (length schedules)
same_cap cap r schedules same = ap (leb cap) (sym same)

module _ (program : Program) (max_schedules step_bound : ℕ) (detect_cycles : Bool) where
  abbrev AgreeBelow : Search → Collection → Type 0
  AgreeBelow below collect =
      (s : ExecutionState) (history : StateHistory) (r : CheckResult) (schedules : List Schedule)
      → SameCount r schedules
      → Agree (below s history r) (collect s history schedules)

  module _ (below : Search) (collect : Collection) (agree : AgreeBelow below collect) where
    explore_successor-Agree :
        (history : StateHistory) (r : CheckResult) (schedules : List Schedule) (t : ExecutionState)
        → SameCount r schedules
        → Agree
            (explore_successor below program detect_cycles history r t)
            (collect_successor collect program detect_cycles history schedules t)
    unfolding explore_successor collect_successor
    explore_successor-Agree history r schedules t same =
        let (cycle_start, seen) = observe_if detect_cycles program t history in
        elim cycle_start
          as (λ cut.
            Agree
              (elim cut [
                | none ↦ below t seen r
                | some start ↦
                    make_nontermination_report program t.schedule start t.memory_model >>= λ lasso.
                    ok (record_nontermination r lasso)
              ])
              (elim cut [
                | none ↦ collect t seen schedules
                | some start ↦ ok (schedules ++ t.schedule ∷ [])
              ])) [
                | none ↦ agree t seen r schedules same
                | some start ↦
                    report-Agree
                      (make_nontermination_report program t.schedule start t.memory_model)
                      (λ lasso. ok (record_nontermination r lasso)) (schedules ++ t.schedule ∷ [])
                      (λ lasso.
                        one_more-SameCount r (record_nontermination r lasso) schedules t.schedule
                          (record_nontermination-explored r lasso) same)
              ]

    explore_step-Agree :
        (s : ExecutionState) (history : StateHistory) (r : CheckResult) (schedules : List Schedule)
        (step : ScheduleStep)
        → SameCount r schedules
        → Agree
            (explore_step below program step_bound detect_cycles s history r step)
            (collect_step collect program step_bound detect_cycles s history schedules step)
    unfolding explore_step collect_step record_bound_exceeded
    explore_step-Agree s history r schedules step same =
        if-Agree (step_bound_reached s step.thread step_bound)
          (step_bound_reached s step.thread step_bound) (ok (record_bound_exceeded r)) _
          (ok (schedules ++ (s.schedule ++ step ∷ []) ∷ [])) _ refl
          (one_more-SameCount r (record_bound_exceeded r) schedules (s.schedule ++ step ∷ [])
            (omega arith) same)
          (both-Agree (execute_enabled_step program s step) _ _ (λ (t, report).
            let recorded : CheckResult = record_step_report r report in
            let still : SameCount recorded schedules =
              same ∙ sym (record_step_report-explored r report) in
            if-Agree (is_terminal report) (is_terminal report) (ok (explored_one recorded)) _
              (ok (schedules ++ t.schedule ∷ [])) _ refl
              (one_more-SameCount recorded (explored_one recorded) schedules t.schedule
                (omega arith) still)
              (explore_successor-Agree history recorded schedules t still)))

    explore_steps-Agree :
        (s : ExecutionState) (history : StateHistory) (steps : List ScheduleStep) (r : CheckResult)
        (schedules : List Schedule)
        → SameCount r schedules
        → Agree
            (explore_steps below program max_schedules step_bound detect_cycles s history steps r)
            (collect_steps collect program max_schedules step_bound detect_cycles s history steps
              schedules)
    unfolding explore_steps collect_steps
    explore_steps-Agree s history [] r schedules same = same
    explore_steps-Agree s history (step ∷ rest) r schedules same =
        Agree->>= (explore_step below program step_bound detect_cycles s history r step)
          (collect_step collect program step_bound detect_cycles s history schedules step) _ _
          (explore_step-Agree s history r schedules step same)
          (λ q longer still.
            if-Agree (leb max_schedules q.schedules_explored) (leb max_schedules (length longer))
              (ok q) _ (ok longer) _ (same_cap max_schedules q longer still) still
              (explore_steps-Agree s history rest q longer still))

  explore_leaf-Agree :
      (s : ExecutionState) (r : CheckResult) (schedules : List Schedule)
      → SameCount r schedules
      → Agree (explore_leaf program s r) (ok (schedules ++ s.schedule ∷ []))
  unfolding explore_leaf
  explore_leaf-Agree s r schedules same =
      let more = one_more-SameCount r (explored_one r) schedules s.schedule (omega arith) same in
      if-rule (λ x. Agree x (ok (schedules ++ s.schedule ∷ []))) (all_finished program s)
        {x = ok (explored_one r)} (λ _. more)
        (λ _.
          elim r.first_deadlock
            as (λ first.
              Agree
                (elim first [
                  | some report ↦ ok (explored_one r)
                  | none ↦ make_deadlock_report program s >>= λ report.
                      ok (record (explored_one r) { first_deadlock = some report })
                ])
                (ok (schedules ++ s.schedule ∷ []))) [
                  | some report ↦ more
                  | none ↦
                      report-Agree (make_deadlock_report program s)
                        (λ report. ok (record (explored_one r) { first_deadlock = some report }))
                        (schedules ++ s.schedule ∷ []) (λ report. more)
                ])

  pub dfs-Agree :
      (fuel : ℕ)
      → AgreeBelow
          (dfs fuel program max_schedules step_bound detect_cycles)
          (collect_naive_schedules_dfs fuel program max_schedules step_bound detect_cycles)
  unfolding dfs collect_naive_schedules_dfs
  dfs-Agree zero s history r schedules same = tt
  dfs-Agree (suc fuel) s history r schedules same =
      if-Agree (leb max_schedules r.schedules_explored) (leb max_schedules (length schedules))
        (ok r) _ (ok schedules) _ (same_cap max_schedules r schedules same) same
        (if-Agree (is_empty (enabled_steps program s)) (is_empty (enabled_steps program s))
          (explore_leaf program s r) _ (ok (schedules ++ s.schedule ∷ [])) _ refl
          (explore_leaf-Agree s r schedules same)
          (explore_steps-Agree (dfs fuel program max_schedules step_bound detect_cycles)
            (collect_naive_schedules_dfs fuel program max_schedules step_bound detect_cycles)
            (dfs-Agree fuel) s history (enabled_steps program s) r schedules same))

-- If the exhaustive exploration returns, so does the collection of its schedules, and as many are
-- collected as the exploration has counted.
pub explore_naive_raw-Agree :
    (program : Program) (step_bound : ℕ) (m : MemoryModel) (max_schedules : ℕ)
    → Agree
        (explore_naive_raw program step_bound m max_schedules)
        (collect_naive_schedules program step_bound m max_schedules)
unfolding explore_naive_raw collect_naive_schedules
explore_naive_raw-Agree program step_bound m max_schedules =
    let s : ExecutionState = initial_state program m in
    last_field
      (dfs (search_depth program step_bound) program max_schedules step_bound
        (requires_cycle_detection program) s (initial_history program s) empty_result)
      (collect_naive_schedules_dfs (search_depth program step_bound) program max_schedules
        step_bound (requires_cycle_detection program) s (initial_history program s) [])
      (dfs-Agree program max_schedules step_bound (requires_cycle_detection program)
        (search_depth program step_bound) s (initial_history program s) empty_result [] refl)
  where
    last_field :
        (explored : Result CheckResult) (collected : Result (List Schedule))
        → Agree explored collected
        → Agree
            (explored >>= λ r.
              ok (record r { exploration_capped = leb max_schedules r.schedules_explored }))
            collected
    last_field (ok r) (ok schedules) same = same
    last_field (ok r) (throw e) same = same
    last_field (throw e) collected same = tt
