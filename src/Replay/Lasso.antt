-- ===== src/Replay/Lasso.antt =====
-- src/model/checker.cpp: `validate_replay_step`, and the report of a cycle with its fairness.
use dpor_concurrency_model_c.Common.{
  ℕ, suc, ◌+◌, Bool, true, false, List, [], ◌∷◌, Option, none, some, String, if◌then◌else◌, not,
  ◌||◌, ◌&&◌, eqb, leb, length, any, has_value, is_empty, range,
}
use dpor_concurrency_model_c.Common.Order.{bytes_ord, ◌==◌}
use dpor_concurrency_model_c.Common.Result.{
  Result, ok, throw, ◌>>=◌, invalid_schedule, logic_error, Message, text, number,
}
use dpor_concurrency_model_c.Common.OrdMap.{lookup}
use dpor_concurrency_model_c.Action.StepOrder.{step_ord}
use dpor_concurrency_model_c.Dpor.Occurrence.{enabled_transitions}
use dpor_concurrency_model_c.Action.{Program, ScheduleStep, Schedule}
use dpor_concurrency_model_c.State.{ExecutionState, MemoryModel, thread_count, thread_at}
use dpor_concurrency_model_c.State.Threads.{initial_state}
use dpor_concurrency_model_c.State.Buffers.{is_flush_step}
use dpor_concurrency_model_c.Enabled.Steps.{enabled_steps, enabled_steps_for_thread}
use dpor_concurrency_model_c.Report.{CheckResult, Fairness, NonTerminationReport, first_of_two}
use dpor_concurrency_model_c.Fingerprint.{behavioral_state_fingerprint}
use dpor_concurrency_model_c.Step.{execute_enabled_step}

-- The memory model fixes whether a flush step carries an address id.
unfoldable pub flush_reason : MemoryModel → Option ℕ → Option String
flush_reason MemoryModel.sc id = some "schedule names a flush step under SC"
flush_reason MemoryModel.tso (some id) = some "TSO flush step includes a PSO address id"
flush_reason MemoryModel.pso none = some "PSO flush step omits its address id"
flush_reason _ _ = none

unfoldable pub shape_reason : Program → ExecutionState → ScheduleStep → Option Message
unfolding flush_reason is_flush_step
shape_reason program s step =
    if is_flush_step step
    then elim (flush_reason s.memory_model step.flush_address) [
      | none ↦ none
      | some reason ↦ some (text reason ∷ [])
    ]
    else if has_value step.flush_address
    then some (text "source action includes a flush address id" ∷ [])
    else if leb (length (thread_at program step.thread)) step.action_index
    then some (
        text "schedule names out-of-range action "
        ∷ number step.action_index
        ∷ text " for thread "
        ∷ number step.thread
        ∷ [])
    else if not (eqb step.action_index (s.pc step.thread))
    then some (
        text "schedule names action "
        ∷ number step.action_index
        ∷ text " for thread "
        ∷ number step.thread
        ∷ text " but the next action is "
        ∷ number (s.pc step.thread)
        ∷ [])
    else none

-- The reason why a step is refused, if it is: the checks in their order. The last one builds the map
-- of the enabled transitions, which may throw.
unfoldable pub refusal : Program → ExecutionState → ScheduleStep → Result (Option Message)
unfolding shape_reason enabled_steps enabled_transitions lookup
refusal program s step =
    if leb (thread_count program) step.thread
    then ok (some (text "schedule names out-of-range thread " ∷ number step.thread ∷ []))
    else elim (shape_reason program s step) [
      | some reason ↦ ok (some reason)
      | none ↦ enabled_transitions program s (enabled_steps program s) >>= λ transitions. ok (
          if has_value (lookup step transitions)
          then none
          else some (text "schedule names a disabled action for thread " ∷ number step.thread ∷ []))
    ]

abbrev pub refused : ℕ → Option Message → Result (Unit {0})
refused index none = ok tt
refused index (some reason) = throw (invalid_schedule index reason)

unfoldable pub validate_replay_step :
    Program → ExecutionState → ScheduleStep → ℕ → Result (Unit {0})
unfolding refusal
validate_replay_step program s step index = refusal program s step >>= refused index

-- Validate and run one step of a lasso; a terminal report there is a logic error.
unfoldable pub lasso_step :
    Program → ExecutionState → ScheduleStep → ℕ → String → Result ExecutionState
unfolding validate_replay_step execute_enabled_step
lasso_step program s step index reason = validate_replay_step program s step index >>= λ _.
    execute_enabled_step program s step >>= λ (t, report).
    if has_value report.error || has_value report.assertion
    then throw (logic_error reason)
    else ok t

unfoldable pub run_stem : Program → Schedule → ℕ → ExecutionState → Result ExecutionState
unfolding lasso_step
run_stem program [] index s = ok s
run_stem program (step ∷ rest) index s =
    lasso_step program s step index "nontermination stem replay reached a terminal report" >>= λ t.
    run_stem program rest (suc index) t

-- What the states of a cycle have shown: threads enabled in each so far, and whether any step of a
-- thread outside the cycle was enabled once.
pub record Observed : Type 0 where
  pub continuously_enabled : ℕ → Bool
  pub enabled_once : Bool

unfoldable pub observe_thread : Program → (ℕ → Bool) → ExecutionState → Observed → ℕ → Observed
unfolding enabled_steps_for_thread
observe_thread program participant s o tid =
    if participant tid
    then o
    else (let blocked : Bool = is_empty (enabled_steps_for_thread program s tid) in
        record {
          continuously_enabled =
              λ t. if eqb t tid && blocked then false else o.continuously_enabled t;
          enabled_once = o.enabled_once || not blocked;
        })

unfoldable pub observe_threads :
    Program → (ℕ → Bool) → ExecutionState → List ℕ → Observed → Observed
unfolding observe_thread
observe_threads program participant s [] o = o
observe_threads program participant s (tid ∷ tids) o =
    observe_threads program participant s tids (observe_thread program participant s o tid)

abbrev pub observe_enabledness : Program → (ℕ → Bool) → ExecutionState → Observed → Observed
observe_enabledness program participant s =
    observe_threads program participant s (range (thread_count program))

unfoldable pub run_cycle :
    Program
    → (ℕ → Bool)
    → Schedule
    → ℕ
    → ExecutionState
    → Observed
    → Result (ExecutionState × Observed)
unfolding lasso_step observe_threads
run_cycle program participant [] index s o = ok (s, o)
run_cycle program participant (step ∷ rest) index s o =
    lasso_step program s step index "nontermination cycle replay reached a terminal report" >>= λ t.
    run_cycle program participant rest (suc index) t (observe_enabledness program participant t o)

unfoldable pub fairness_of : Program → (ℕ → Bool) → Observed → Fairness
fairness_of program participant o =
    if any (λ tid. not (participant tid) && o.continuously_enabled tid)
      (range (thread_count program))
    then Fairness.unfair_schedule_witness
    else if o.enabled_once
    then Fairness.strongly_unfair_schedule_witness
    else Fairness.fair_divergence

abbrev pub take : ℕ → Schedule → Schedule
take n [] = []
take n (step ∷ rest) = elim n [ Prim.Native.Nat.zero ↦ [] | suc m ↦ step ∷ take m rest ]

abbrev pub drop : ℕ → Schedule → Schedule
drop n [] = []
drop n (step ∷ rest) = elim n [ Prim.Native.Nat.zero ↦ step ∷ rest | suc m ↦ drop m rest ]

unfoldable pub make_nontermination_report :
    Program → Schedule → ℕ → MemoryModel → Result NonTerminationReport
unfolding initial_state run_stem run_cycle fairness_of behavioral_state_fingerprint
make_nontermination_report program schedule cycle_start memory_model =
    let stem : Schedule = take cycle_start schedule in
    let cycle : Schedule = drop cycle_start schedule in
    let participant = λ (tid : ℕ). any (λ (step : ScheduleStep). eqb step.thread tid) cycle in
    run_stem program stem 0 (initial_state program memory_model) >>= λ s.
    run_cycle program participant cycle cycle_start s (
      observe_enabledness program participant s
        (record { continuously_enabled = λ _. true; enabled_once = false }))
    >>= λ (t, o).
        if behavioral_state_fingerprint program t == behavioral_state_fingerprint program s
        then ok (record {
          fairness = fairness_of program participant o;
          stem = stem;
          cycle = cycle;
          schedule = schedule;
        })
        else throw (logic_error "nontermination cycle replay did not close exactly")

unfoldable pub count_fairness : Fairness → CheckResult → CheckResult
count_fairness Fairness.unfair_schedule_witness r = record r { unfair_cycles = r.unfair_cycles + 1 }
count_fairness Fairness.strongly_unfair_schedule_witness r = record r {
  strongly_unfair_cycles = r.strongly_unfair_cycles + 1;
}
count_fairness Fairness.fair_divergence r = record r { fair_cycles = r.fair_cycles + 1 }

unfoldable pub record_nontermination : CheckResult → NonTerminationReport → CheckResult
unfolding count_fairness
record_nontermination result report =
    let counted : CheckResult = count_fairness report.fairness (record result {
      schedules_explored = result.schedules_explored + 1;
      cycles_detected = result.cycles_detected + 1;
    }) in
    record counted {
      first_nontermination = first_of_two counted.first_nontermination (some report);
    }
