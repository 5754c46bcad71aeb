-- ===== src/Lib.antt =====
-- A verification library for the stateless model checker of this repository: programs of threads
-- with locks, condition variables, semaphores, barriers, atomics and plain memory, explored under
-- SC, TSO and PSO.
--
-- The parts of the program. A program is a vector of threads of actions
-- (include/model/action.hpp). src/model/checker.cpp keeps an ExecutionState, lists the steps that
-- it enables (`enabled_steps`), and runs one of them (`execute_enabled_step`), which changes the
-- state and may report a race, an error or a failed assertion. The explorers run sequences of
-- such steps, end at terminal states and deadlocks, and compare byte fingerprints of the states of
-- a path to find nontermination. `dfs` runs every enabled step. `dpor_dfs` runs at each node a
-- persistent set of the enabled steps (`initialize_dpor_backtrack`), adds choices to the nodes of
-- the trace where an executed or blocked transition asks for another order
-- (`add_backtracks_for_transition`, `add_disabled_backtracks`), and keeps sleep sets of steps that
-- need not be run again (`inherited_sleep_set`). Replay runs a given schedule again and refuses
-- steps that are not enabled; inspection shows what each step of such a run changes; the minimizer
-- replays shorter schedules. Vector clocks
-- (src/model/vector_clock.cpp) decide happens-before; src/model/action.cpp decides which actions
-- commute.
--
-- The files, and what they model.
-- Common: the shared types, ordered maps and sets (std::map and std::set as sorted lists), and
--   `Result`, the outcome of code that may throw.
-- Clock: class VectorClock. Action and Action/Pairs: action.hpp and action.cpp.
-- State with Threads, Registers and Buffers: struct ExecutionState, `initial_state`, program
--   counters and labels, registers, store buffers and `read_plain_value`.
-- Enabled and Enabled/Steps: `is_program_action_enabled`, `any_enabled`, `enabled_steps`,
--   `effective_action_for_step`.
-- Report with Errors and Races: the reports, the makers of errors, and `record_read`,
--   `record_write` and `record_atomic`.
-- Step and its children: `execute_enabled_step`, a function for each case of its switch.
-- Fingerprint and Fingerprint/History: `behavioral_state_fingerprint` and the state histories.
-- Deadlock: `make_deadlock_report`.
-- Dpor: struct DporNode, the transitions and their equality. Dpor/StepSet: vectors of steps as
--   sets. Dpor/Occurrence: `enabled_transitions`. Dpor/Independence and its AtNode:
--   `transitions_independent` and `transitions_independent_at_node`. Dpor/Enablers and its Repair:
--   `enabler_heads_for_thread` and `disabled_repair_steps`. Dpor/Persistent:
--   `initialize_dpor_backtrack`. Dpor/Backtrack: the backtracking points and the sleep sets.
--   Dpor/Search: `dpor_dfs`; its child Kept is the interface between the searches and the
--   properties of their results, which Dpor/Search/Walk and Explore/Walk use; its child Fit is the
--   invariant of the nodes that bounds the choices, and Dpor/Search/Ends and Checker/Ends use it.
-- Inspect: `replay_effective_trace` and `inspect_replay_schedule`.
-- Explore: `dfs`. Explore/Collect: `collect_naive_schedules_dfs`.
-- Checker: `explore_naive`, `explore_dpor`, `collect_dpor_schedules` and
--   `dpor_transitions_independent`.
-- Replay and Replay/Lasso: `validate_replay_step`, `replay_schedule`,
--   `make_nontermination_report`, `record_nontermination`.
-- Minimize/Identity and Minimize/Defs: the identities of bugs and `minimize_schedule`.
-- Minimize/Reports: `minimize_result_reports`.
-- Construct: the constructor of ModelChecker, with Construct/Objects for what an action works on.
--   A name may be shared by a condition variable and any object but a barrier, as in the source.
-- Invariant: executions as a step relation, and what holds in the states that they reach.
-- Tests: programs, runs of the interpreter, and the theorems at concrete arguments.
--
-- Choices. A Value is the 64-bit pattern of an int64_t. Thread ids, action indices and register ids
-- are numbers; a vector indexed by thread is a function of the thread id. Counters and clock
-- components that are uint64_t wrap at 2 ^ 64. The text of a message is a list of its pieces.
-- The characters of a String stand for the bytes of a std::string. std::sort is an insertion sort.
-- Asserts are not modelled, as a build with NDEBUG has none.
--
-- Loops and fuel. The label loop of `normalize_pc` has the length of the thread and one more. The
-- `while (changed)` loop of the minimizer has the length of the schedule and one more, since each
-- round but the last deletes a step. `dfs` has the number of threads times the step bound and one
-- more, since each level adds to the steps of one thread and no thread passes the bound;
-- `collect_naive_schedules_dfs` and `dpor_dfs` have the same. The choices of a DPOR node and the
-- rounds of `initialize_dpor_backtrack` have the number of enabled steps and one more, since each
-- puts an enabled step into a set that it was not in. The enablers of a thread have the number of
-- threads and one more, since each call marks a thread. The exception `out_of_fuel` belongs to the
-- model only.
--
-- Not modelled: the parser, printer and main program of src/cli, and the metrics of
-- src/model/exploration_metrics.cpp, which no result depends on.
pub mod Common
pub mod Clock
pub mod Action
pub mod State
pub mod Enabled
pub mod Report
pub mod Step
pub mod Fingerprint
pub mod Deadlock
pub mod Replay
pub mod Dpor
pub mod Inspect
pub mod Explore
pub mod Minimize
pub mod Checker
pub mod Construct
pub mod Invariant
pub mod Tests
