-- ===== src/Minimize/Defs.antt =====
-- src/model/checker.cpp: the identity of a bug, and the deletion of steps that keeps it.
use dpor_concurrency_model_c.Common.{
  ℕ, zero, suc, Bool, true, false, List, [], ◌∷◌, Option, none, some, if◌then◌else◌, ◌||◌, eqb,
  length, range, get_elem?,
}
use dpor_concurrency_model_c.Common.Result.{
  Result, ok, throw, ◌>>=◌, invalid_schedule, invalid_argument, out_of_fuel,
}
use dpor_concurrency_model_c.Action.{Program, Schedule}
use dpor_concurrency_model_c.State.{MemoryModel, thread_count}
use dpor_concurrency_model_c.Report.{CheckResult}
use dpor_concurrency_model_c.Replay.{replay_schedule}
use dpor_concurrency_model_c.Minimize.Identity.{
  BugIdentitySet, identities_of, no_identity, reproduces_identities, is_report_endpoint,
}

later : Option ℕ → Option ℕ → Option ℕ
later (some i) found = some (suc i)
later none found = found

-- The index of the last step of a thread: the loop from the back.
unfoldable pub last_step_index_for_thread : Schedule → ℕ → Option ℕ
unfolding later
last_step_index_for_thread [] tid = none
last_step_index_for_thread (step ∷ rest) tid =
    later (last_step_index_for_thread rest tid) (if eqb step.thread tid then some 0 else none)

-- `candidate.erase(candidate.begin() + index)`
unfoldable pub erase_at : ℕ → Schedule → Schedule
erase_at index [] = []
erase_at zero (step ∷ rest) = rest
erase_at (suc index) (step ∷ rest) = step ∷ erase_at index rest

-- The `catch (const std::invalid_argument&)`: a candidate that replay refuses is dropped; any
-- other exception goes on.
unfoldable pub accepts : Result CheckResult → BugIdentitySet → Result Bool
unfolding reproduces_identities
accepts (ok result) target = ok (reproduces_identities result target)
accepts (throw (invalid_schedule index reason)) target = ok false
accepts (throw (invalid_argument reason)) target = ok false
accepts (throw e) target = throw e

-- What the minimizer is run with: `replay` stands for `replay_schedule` with its other arguments.
module _ (replay : Schedule → Result CheckResult) (target : BugIdentitySet) where
  -- The attempt for one thread: the schedule behind it, and whether a step went.
  unfoldable pub try_thread : Schedule → ℕ → Result (Schedule × Bool)
  unfolding last_step_index_for_thread erase_at accepts
  try_thread minimized tid = elim (last_step_index_for_thread minimized tid) [
    | none ↦ ok (minimized, false)
    | some index ↦ elim (get_elem? minimized index) [
      | none ↦ ok (minimized, false)
      | some step ↦
          if is_report_endpoint step target
          then ok (minimized, false)
          else (accepts (replay (erase_at index minimized)) target >>= λ reproduced.
              ok (if reproduced then (erase_at index minimized, true) else (minimized, false)))
    ]
  ]

  unfoldable pub try_threads : List ℕ → Schedule → Bool → Result (Schedule × Bool)
  unfolding try_thread
  try_threads [] minimized changed = ok (minimized, changed)
  try_threads (tid ∷ tids) minimized changed =
      try_thread minimized tid >>= λ (next, went). try_threads tids next (went || changed)

  -- `while (changed)`, on fuel.
  unfoldable pub minimize_rounds : ℕ → ℕ → Schedule → Result Schedule
  unfolding try_threads
  minimize_rounds zero threads minimized = throw out_of_fuel
  minimize_rounds (suc fuel) threads minimized =
      try_threads (range threads) minimized false >>= λ (next, changed).
      let again : Result Schedule = minimize_rounds fuel threads next in
      if changed then again else ok next

-- Every round but the last deletes a step.
unfoldable pub minimize_schedule_for_identities :
    Program → Schedule → BugIdentitySet → ℕ → MemoryModel → Result Schedule
unfolding minimize_rounds replay_schedule
minimize_schedule_for_identities program schedule target step_bound memory_model =
    minimize_rounds (λ s. replay_schedule program s step_bound memory_model) target
      (suc (length schedule)) (thread_count program) schedule

has_lasso : CheckResult → Bool
has_lasso result = elim result.first_nontermination [ none ↦ false | some report ↦ true ]

-- ModelChecker::minimize_schedule
unfoldable pub minimize_schedule : Program → ℕ → MemoryModel → Schedule → Result Schedule
unfolding minimize_schedule_for_identities has_lasso replay_schedule
minimize_schedule program step_bound memory_model schedule =
    replay_schedule program schedule step_bound memory_model >>= λ replayed.
    if has_lasso replayed || no_identity (identities_of replayed)
    then ok schedule
    else minimize_schedule_for_identities program schedule (identities_of replayed) step_bound
        memory_model
