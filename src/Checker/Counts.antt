-- ===== src/Checker/Counts.antt =====
-- src/model/checker.cpp: how many schedules the checker counts and collects.
use dpor_concurrency_model_c.Common.{
  ℕ, ◌≤◌, ◌<◌, ◌^◌, List, [], some, ◌≡◌, refl, sym, ap, ◌∙◌, arith, length, value_or, Option, none,
}
use dpor_concurrency_model_c.Common.Result.{ok, throw, IfOk-ok, >>=-eq-ok, Ends, Ends-from}
use dpor_concurrency_model_c.Explore.Ends.{explore_naive_raw-Finishes}
use dpor_concurrency_model_c.Checker.Ends.{dpor_run-Finishes, collect_dpor_schedules-Finishes}
use dpor_concurrency_model_c.Action.{Program, Schedule}
use dpor_concurrency_model_c.State.{MemoryModel}
use dpor_concurrency_model_c.State.Threads.{initial_state, requires_cycle_detection}
use dpor_concurrency_model_c.Report.{empty_result, CheckResult}
use dpor_concurrency_model_c.Replay.{initial_history}
use dpor_concurrency_model_c.Explore.{search_depth, dfs, explore_naive_raw}
use dpor_concurrency_model_c.Explore.Walk.{dfs-KeepsResult}
use dpor_concurrency_model_c.Dpor.Search.{DporRun}
use dpor_concurrency_model_c.Dpor.Search.Counts.{Counted, Counted-Kept, WithinCap, WithinCap-Kept}
use dpor_concurrency_model_c.Dpor.Search.Walk.{dpor_dfs-Keeps}
use dpor_concurrency_model_c.Checker.{dpor_run, collect_dpor_schedules}

Counted-length :
    (max_schedules : ℕ) (r : CheckResult) (ts : Option (List Schedule))
    → Counted max_schedules r ts
    → (length (value_or ts []) ≡ r.schedules_explored) × (r.schedules_explored ≤ max_schedules)
Counted-length max_schedules r none held = absurd held
Counted-length max_schedules r (some schedules) held = held

dpor_run-Counted :
    (program : Program) (step_bound : ℕ) (m : MemoryModel) (max_schedules : ℕ) (run : DporRun)
    → dpor_run program step_bound m max_schedules (some []) ≡ ok run
    → Counted max_schedules run.result run.terminal_schedules
unfolding dpor_run
dpor_run-Counted program step_bound m max_schedules run returned =
    (IfOk-ok _ _
      (dpor_dfs-Keeps program _ (λ _. Unit) (Counted max_schedules)
        (Counted-Kept program max_schedules) (search_depth program step_bound) []
        (initial_state program m) [] [] (initial_history program (initial_state program m))
        (record { result = empty_result; nodes = []; terminal_schedules = some [] }) tt
        (refl, (refl, omega arith)))
      returned).1

-- The search behind the collected schedules has counted as many as were collected, within the cap.
abbrev pub CountsCollected : Program → ℕ → MemoryModel → ℕ → List Schedule → Type 0
CountsCollected program step_bound m max_schedules schedules =
    (run : DporRun) × (dpor_run program step_bound m max_schedules (some []) ≡ ok run)
    × (length schedules ≡ run.result.schedules_explored)
    × (length schedules ≤ max_schedules)

collected-CountsCollected :
    (program : Program) (step_bound : ℕ) (m : MemoryModel) (max_schedules : ℕ)
    (schedules : List Schedule)
    → collect_dpor_schedules program step_bound m max_schedules ≡ ok schedules
    → CountsCollected program step_bound m max_schedules schedules
unfolding collect_dpor_schedules
collected-CountsCollected program step_bound m max_schedules schedules returned =
    let (run, ran, e) =
      >>=-eq-ok (dpor_run program step_bound m max_schedules (some [])) _ returned in
    let (same, capped) =
      Counted-length max_schedules run.result run.terminal_schedules
        (dpor_run-Counted program step_bound m max_schedules run ran) in
    let collected : value_or run.terminal_schedules [] ≡ schedules =
      ap (λ r. elim r [ ok ss ↦ ss | throw e ↦ [] ]) e in
    let counted : length schedules ≡ run.result.schedules_explored =
      ap length (sym collected) ∙ same in
    (run, ran, counted, omega (arith, counted, capped))

-- For a step bound that a 64-bit word holds, `collect_dpor_schedules` ends: it throws an exception
-- of the program, or it returns schedules, and then the search returns with as many explored
-- schedules in its result as there are schedules collected, and at most as many as the cap.
pub collect_dpor_schedules-length :
    (program : Program) (step_bound : ℕ) (m : MemoryModel) (max_schedules : ℕ)
    → step_bound < 2 ^ 64
    → Ends
        (CountsCollected program step_bound m max_schedules)
        (collect_dpor_schedules program step_bound m max_schedules)
collect_dpor_schedules-length program step_bound m max_schedules small =
    Ends-from (CountsCollected program step_bound m max_schedules)
      (collect_dpor_schedules program step_bound m max_schedules)
      (collect_dpor_schedules-Finishes program step_bound m max_schedules small)
      (collected-CountsCollected program step_bound m max_schedules)

-- For a step bound that a 64-bit word holds, the exhaustive exploration and the DPOR search end,
-- and each throws an exception of the program, or has counted at most as many schedules as the
-- cap allows.
pub explored_at_most :
    (program : Program) (step_bound : ℕ) (m : MemoryModel) (max_schedules : ℕ)
    (collector : Option (List Schedule))
    → step_bound < 2 ^ 64
    → Ends
        (λ r. r.schedules_explored ≤ max_schedules)
        (explore_naive_raw program step_bound m max_schedules)
      × Ends
          (λ end. end.result.schedules_explored ≤ max_schedules)
          (dpor_run program step_bound m max_schedules collector)
unfolding explore_naive_raw dpor_run
explored_at_most program step_bound m max_schedules collector small = (
  Ends-from (λ r. r.schedules_explored ≤ max_schedules)
      (explore_naive_raw program step_bound m max_schedules)
      (explore_naive_raw-Finishes program step_bound m max_schedules small)
      (λ r returned.
        let (raw, ran, e) =
          >>=-eq-ok
            (dfs (search_depth program step_bound) program max_schedules step_bound
              (requires_cycle_detection program) (initial_state program m)
              (initial_history program (initial_state program m)) empty_result)
            _ returned in
        let capped : raw.schedules_explored ≤ max_schedules =
          IfOk-ok _ _
            (dfs-KeepsResult program max_schedules step_bound (requires_cycle_detection program)
              (λ _. Unit) (WithinCap max_schedules) (WithinCap-Kept program max_schedules)
              (search_depth program step_bound) (initial_state program m)
              (initial_history program (initial_state program m)) empty_result tt (omega arith))
            ran in
        let same : raw.schedules_explored ≡ r.schedules_explored =
          ap (λ result. elim result [ ok q ↦ q.schedules_explored | throw e ↦ 0 ]) e in
        omega (arith, capped, same)),
  Ends-from (λ end. end.result.schedules_explored ≤ max_schedules)
      (dpor_run program step_bound m max_schedules collector)
      (dpor_run-Finishes program step_bound m max_schedules collector small)
      (λ end ended.
        (IfOk-ok _ _
          (dpor_dfs-Keeps program _ (λ _. Unit) (WithinCap max_schedules)
            (WithinCap-Kept program max_schedules) (search_depth program step_bound) []
            (initial_state program m) [] [] (initial_history program (initial_state program m))
            (record { result = empty_result; nodes = []; terminal_schedules = collector }) tt
            (refl, omega arith))
          ended).1),
)
