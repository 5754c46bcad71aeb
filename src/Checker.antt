-- ===== src/Checker.antt =====
-- src/model/checker.cpp: the members of ModelChecker that explore a program and collect schedules.
pub mod Ends
pub mod Counts
pub mod Sound
use dpor_concurrency_model_c.Common.{ℕ, Bool, List, [], Option, none, some, leb, value_or}
use dpor_concurrency_model_c.Common.Result.{Result, ok, ◌>>=◌}
use dpor_concurrency_model_c.Action.{Action, Program, Schedule}
use dpor_concurrency_model_c.State.{ExecutionState, MemoryModel}
use dpor_concurrency_model_c.State.Threads.{initial_state, requires_cycle_detection}
use dpor_concurrency_model_c.Report.{CheckResult, empty_result}
use dpor_concurrency_model_c.Replay.{initial_history}
use dpor_concurrency_model_c.Explore.{explore_naive_raw, search_depth}
use dpor_concurrency_model_c.Minimize.Reports.{minimize_result_reports}
use dpor_concurrency_model_c.Dpor.Independence.{transitions_independent}
use dpor_concurrency_model_c.Dpor.Search.{DporRun, dpor_dfs}

unfoldable pub explore_naive : Program → ℕ → MemoryModel → ℕ → Result CheckResult
unfolding explore_naive_raw minimize_result_reports
explore_naive program step_bound memory_model max_schedules =
    explore_naive_raw program step_bound memory_model max_schedules >>= λ result.
    minimize_result_reports program result step_bound memory_model

-- `dpor_dfs` from the initial state, with no node and an empty result.
unfoldable pub dpor_run : Program → ℕ → MemoryModel → ℕ → Option (List Schedule) → Result DporRun
unfolding initial_state initial_history requires_cycle_detection dpor_dfs
dpor_run program step_bound memory_model max_schedules terminal_schedules =
    let s : ExecutionState = initial_state program memory_model in
    dpor_dfs (search_depth program step_bound) program
      (record {
        max_schedules = max_schedules;
        step_bound = step_bound;
        detect_cycles = requires_cycle_detection program;
      })
      s [] [] (initial_history program s)
      (record { result = empty_result; nodes = []; terminal_schedules = terminal_schedules })

unfoldable pub explore_dpor : Program → ℕ → MemoryModel → ℕ → Result CheckResult
unfolding dpor_run minimize_result_reports
explore_dpor program step_bound memory_model max_schedules =
    dpor_run program step_bound memory_model max_schedules none >>= λ run.
    minimize_result_reports program
      (record run.result { exploration_capped = leb max_schedules run.result.schedules_explored })
      step_bound memory_model

unfoldable pub collect_dpor_schedules : Program → ℕ → MemoryModel → ℕ → Result (List Schedule)
unfolding dpor_run
collect_dpor_schedules program step_bound memory_model max_schedules =
    dpor_run program step_bound memory_model max_schedules (some []) >>= λ run.
    ok (value_or run.terminal_schedules [])

unfoldable pub dpor_transitions_independent : Program → MemoryModel → ℕ → Action → ℕ → Action → Bool
unfolding transitions_independent
dpor_transitions_independent program memory_model lhs_thread lhs rhs_thread rhs =
    transitions_independent program memory_model lhs_thread lhs rhs_thread rhs
