-- ===== src/Replay/Closes.antt =====
-- src/model/checker.cpp: what a report of `make_nontermination_report` and its counters say.
use dpor_concurrency_model_c.Common.{
  ℕ, zero, suc, ◌+◌, Bool, [], ◌∷◌, ◌++◌, ◌≡◌, refl, sym, ap, ap₂, ◌∙◌, subst, arith, String,
}
use dpor_concurrency_model_c.Common.Order.{bytes_ord}
use dpor_concurrency_model_c.Common.Result.{ok, >>=-eq-ok}
use dpor_concurrency_model_c.Action.{Program, ScheduleStep, Schedule}
use dpor_concurrency_model_c.State.{ExecutionState, MemoryModel}
use dpor_concurrency_model_c.State.Threads.{initial_state}
use dpor_concurrency_model_c.Report.{NonTerminationReport, CheckResult}
use dpor_concurrency_model_c.Fingerprint.{behavioral_state_fingerprint}
use dpor_concurrency_model_c.Invariant.System.{Step, run}
use dpor_concurrency_model_c.Step.{execute_enabled_step}
use dpor_concurrency_model_c.Replay.Accepts.{accepted-enabled}
use dpor_concurrency_model_c.Replay.Lasso.{
  take, drop, run_stem, run_cycle, lasso_step, validate_replay_step, make_nontermination_report,
  record_nontermination, count_fairness, Observed,
}

take-drop : (n : ℕ) (schedule : Schedule) → take n schedule ++ drop n schedule ≡ schedule
take-drop n [] = refl
take-drop zero (step ∷ rest) = refl
take-drop (suc n) (step ∷ rest) = ap (λ (s : Schedule). step ∷ s) (take-drop n rest)

-- A run of enabled steps from one state to another.
pub data Run (p : Program) : ExecutionState → Schedule → ExecutionState → Type 0 where
  stay : {s : ExecutionState} → Run p s [] s
  go :
      {s t u : ExecutionState} {rest : Schedule} (step : ScheduleStep)
      → Step p s t
      → Run p t rest u
      → Run p s (step ∷ rest) u

lasso_step-Step :
    (p : Program) (s t : ExecutionState) (step : ScheduleStep) (index : ℕ) (reason : String)
    → lasso_step p s step index reason ≡ ok t
    → Step p s t
unfolding lasso_step
lasso_step-Step p s t step index reason h =
    let (valid, accepted, later) = >>=-eq-ok (validate_replay_step p s step index) _ h in
    let ((u, r), ran, last) = >>=-eq-ok (execute_enabled_step p s step) _ later in
    let same : u ≡ t = ground arith in
    run step r (accepted-enabled p s step index accepted)
      (subst (λ (v : ExecutionState). execute_enabled_step p s step ≡ ok (v, r)) same ran)

run_stem-Run :
    (p : Program) (schedule : Schedule) (index : ℕ) (s t : ExecutionState)
    → run_stem p schedule index s ≡ ok t
    → Run p s schedule t
unfolding run_stem
run_stem-Run p [] index s t h =
    let same : s ≡ t = ground arith in subst (λ (v : ExecutionState). Run p s [] v) same stay
run_stem-Run p (step ∷ rest) index s t h =
    let (u, first, later) = >>=-eq-ok (lasso_step p s step index _) _ h in
    go step (lasso_step-Step p s u step index _ first) (run_stem-Run p rest (suc index) u t later)

run_cycle-Run :
    (p : Program) (participant : ℕ → Bool) (schedule : Schedule) (index : ℕ) (s t : ExecutionState)
    (o q : Observed)
    → run_cycle p participant schedule index s o ≡ ok (t, q)
    → Run p s schedule t
unfolding run_cycle
run_cycle-Run p participant [] index s t o q h =
    let same : s ≡ t = ground arith in subst (λ (v : ExecutionState). Run p s [] v) same stay
run_cycle-Run p participant (step ∷ rest) index s t o q h =
    let (u, first, later) = >>=-eq-ok (lasso_step p s step index _) _ h in
    go step (lasso_step-Step p s u step index _ first)
      (run_cycle-Run p participant rest (suc index) u t _ q later)

-- A reported nontermination is a lasso: its stem and its cycle together are the schedule, both are
-- runs of enabled steps, the stem from the initial state, and the state behind the cycle has the
-- fingerprint of the state before it.
pub make_nontermination_report-Run :
    (p : Program) (schedule : Schedule) (cycle_start : ℕ) (m : MemoryModel)
    (report : NonTerminationReport)
    → make_nontermination_report p schedule cycle_start m ≡ ok report
    → (report.stem ++ report.cycle ≡ schedule)
      × (s : ExecutionState) × (t : ExecutionState) × Run p (initial_state p m) report.stem s
      × Run p s report.cycle t
      × (behavioral_state_fingerprint p t ≡ behavioral_state_fingerprint p s)
unfolding make_nontermination_report
make_nontermination_report-Run p schedule cycle_start m report h =
    let (s, stem, later) =
      >>=-eq-ok (run_stem p (take cycle_start schedule) 0 (initial_state p m)) _ h in
    let ((t, o), cycle, last) =
      >>=-eq-ok (run_cycle p _ (drop cycle_start schedule) cycle_start s _) _ later in
    let closed : behavioral_state_fingerprint p t ≡ behavioral_state_fingerprint p s = ground (
      arith,
      bytes_ord.beq_iff (behavioral_state_fingerprint p t) (behavioral_state_fingerprint p s),
    ) in
    let stem_is : take cycle_start schedule ≡ report.stem = ground arith in
    let cycle_is : drop cycle_start schedule ≡ report.cycle = ground arith in
    (
      ap₂ (λ (x y : Schedule). x ++ y) (sym stem_is) (sym cycle_is)
          ∙ take-drop cycle_start schedule,
      s,
      t,
      subst (λ (x : Schedule). Run p (initial_state p m) x s) stem_is (run_stem-Run p _ 0 _ s stem),
      subst (λ (x : Schedule). Run p s x t) cycle_is
          (run_cycle-Run p _ _ cycle_start s t _ o cycle),
      closed,
    )

-- If the three fairness counters add up to the detected cycles, recording a report keeps it so, and
-- detects one cycle more.
pub record_nontermination-counters :
    (result : CheckResult) (report : NonTerminationReport)
    → result.unfair_cycles + result.strongly_unfair_cycles + result.fair_cycles
      ≡ result.cycles_detected
    → let after = record_nontermination result report in
      (after.unfair_cycles + after.strongly_unfair_cycles + after.fair_cycles
        ≡ after.cycles_detected)
      × (after.cycles_detected ≡ suc result.cycles_detected)
unfolding record_nontermination count_fairness
record_nontermination-counters result report h = ground arith
