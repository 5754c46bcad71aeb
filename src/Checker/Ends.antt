-- ===== src/Checker/Ends.antt =====
-- src/model/checker.cpp: the DPOR search of a program ends.
use dpor_concurrency_model_c.Common.{ℕ, ◌^◌, ◌<◌, List, [], Option, some, arith}
use dpor_concurrency_model_c.Common.Result.{Finishes, Finishes->>=, Ends-Finishes}
use dpor_concurrency_model_c.Action.{Program, Schedule}
use dpor_concurrency_model_c.State.{ExecutionState, MemoryModel, thread_count}
use dpor_concurrency_model_c.State.Threads.{initial_state, requires_cycle_detection}
use dpor_concurrency_model_c.Report.{empty_result}
use dpor_concurrency_model_c.Replay.{initial_history}
use dpor_concurrency_model_c.Explore.{search_depth}
use dpor_concurrency_model_c.Explore.Ends.{steps_left-at_most}
use dpor_concurrency_model_c.Dpor.Search.{Limits}
use dpor_concurrency_model_c.Dpor.Search.Ends.{FitRun, dpor_dfs-EndsWithin}
use dpor_concurrency_model_c.Checker.{dpor_run, collect_dpor_schedules}

-- For a step bound that a 64-bit word holds, the DPOR search ends: it returns a result, or it
-- throws an exception of the program, and never runs out of the model's fuel, neither for its depth
-- nor for the choices of a node, the rounds of a persistent set and the enablers of a thread.
pub dpor_run-Finishes :
    (program : Program) (step_bound : ℕ) (m : MemoryModel) (max_schedules : ℕ)
    (collector : Option (List Schedule))
    → step_bound < 2 ^ 64
    → Finishes (dpor_run program step_bound m max_schedules collector)
unfolding dpor_run
dpor_run-Finishes program step_bound m max_schedules collector small =
    let s : ExecutionState = initial_state program m in
    let limits : Limits = record {
      max_schedules = max_schedules;
      step_bound = step_bound;
      detect_cycles = requires_cycle_detection program;
    } in
    Ends-Finishes (FitRun []) _ (
      dpor_dfs-EndsWithin program limits small (search_depth program step_bound) [] s [] []
        (initial_history program s)
        (record { result = empty_result; nodes = []; terminal_schedules = collector })
        (omega (arith, steps_left-at_most s.thread_steps step_bound 0 (thread_count program))) tt)

pub collect_dpor_schedules-Finishes :
    (program : Program) (step_bound : ℕ) (m : MemoryModel) (max_schedules : ℕ)
    → step_bound < 2 ^ 64
    → Finishes (collect_dpor_schedules program step_bound m max_schedules)
unfolding collect_dpor_schedules
collect_dpor_schedules-Finishes program step_bound m max_schedules small =
    Finishes->>= (dpor_run program step_bound m max_schedules (some [])) _
      (dpor_run-Finishes program step_bound m max_schedules (some []) small) (λ run _. tt)
