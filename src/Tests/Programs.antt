-- ===== src/Tests/Programs.antt =====
-- Programs and schedules for the examples, in the style of the repository's tests.
use dpor_concurrency_model_c.Common.{
  ℕ, Bool, true, false, [], ◌∷◌, Option, none, some, String, ◌≡◌, refl, length,
}
use dpor_concurrency_model_c.Common.Order.{
  name_ord, nat_ord, pair_ord, bytes_ord, bytes_eq, bytes_lt,
}
use dpor_concurrency_model_c.Common.Result.{Result, ok, throw}
use dpor_concurrency_model_c.Action.{
  Action, ActionKind, Program, Schedule, ValueOperand, ValueOperandKind, default_action,
}
use dpor_concurrency_model_c.State.{MemoryModel}
use dpor_concurrency_model_c.Enabled.Steps.{source_step}
use dpor_concurrency_model_c.State.Buffers.{is_buffered_memory_model, has_pending_store}
use dpor_concurrency_model_c.Clock.{tick}
use dpor_concurrency_model_c.Report.Races.{write_conflict}
use dpor_concurrency_model_c.Step.Threads.{exec_set, exec_branch_nonzero}
use dpor_concurrency_model_c.Step.Plain.{exec_write}
use dpor_concurrency_model_c.Minimize.Identity.{no_identity, is_report_endpoint}
use dpor_concurrency_model_c.Report.{Fairness, CheckResult}
use dpor_concurrency_model_c.Replay.{replay_schedule}
use dpor_concurrency_model_c.Minimize.Defs.{minimize_schedule}

abbrev pub number_of : ℕ → Option ValueOperand
number_of n = some (record { kind = ValueOperandKind.immediate; immediate = n; reg = 0 })

abbrev pub store : String → ℕ → Action
store address n = record default_action {
  kind = ActionKind.write;
  address = address;
  value = number_of n;
}

abbrev pub load : String → Action
load address = record default_action {
  kind = ActionKind.read;
  address = address;
  destination = some 0;
}

abbrev pub on_rwlock : ActionKind → String → Action
on_rwlock kind name = record default_action { kind = kind; rwlock = name }

abbrev on_mutex : ActionKind → String → Action
on_mutex kind name = record default_action { kind = kind; mutex = name }

abbrev pub labelled : String → Action
labelled name = record default_action { kind = ActionKind.label; label = name }

abbrev pub branch_to : String → Action
branch_to name = record default_action {
  kind = ActionKind.branch_nonzero;
  label = name;
  source_register = some 0;
}

-- Two unordered writes of one address, and writes of others.
abbrev pub racy : Program
racy = record {
  threads = (store "x" 1 ∷ []) ∷ (store "y" 5 ∷ store "x" 2 ∷ []) ∷ (store "z" 3 ∷ []) ∷ [];
}

abbrev pub racy_schedule : Schedule
racy_schedule = source_step 2 0 ∷ source_step 0 0 ∷ source_step 1 0 ∷ source_step 1 1 ∷ []

-- A reader and a writer of one lock.
abbrev pub locked : Program
locked = record {
  threads =
      (on_rwlock ActionKind.r_lock "l" ∷ on_rwlock ActionKind.upgrade "l" ∷ [])
      ∷ (on_rwlock ActionKind.w_lock "l" ∷ [])
      ∷ [];
}

-- Two threads that take one mutex.
abbrev pub guarded : Program
guarded = record {
  threads =
      (on_mutex ActionKind.lock "m" ∷ on_mutex ActionKind.unlock "m" ∷ [])
      ∷ (on_mutex ActionKind.lock "m" ∷ on_mutex ActionKind.unlock "m" ∷ [])
      ∷ [];
}

-- A loop that never ends: `set r0 1; again: branch r0 again`.
abbrev pub looping : Program
looping = record {
  threads =
      (record default_action { kind = ActionKind.set; destination = some 0; value = number_of 1 }
        ∷ labelled "again"
        ∷ branch_to "again"
        ∷ [])
      ∷ [];
}

abbrev pub looping_schedule : Schedule
looping_schedule = source_step 0 0 ∷ source_step 0 2 ∷ []

abbrev races : Result CheckResult → Bool
races (ok r) = elim r.first_race [ none ↦ false | some report ↦ true ]
races (throw e) = false

-- The fairness of the first cycle and the length of its stem.
abbrev lassos : Result CheckResult → Option (Fairness × ℕ)
lassos (throw e) = none
lassos (ok r) = elim r.first_nontermination [
  | none ↦ none
  | some report ↦ some (report.fairness, length report.stem)
]

racy-races : races (replay_schedule racy racy_schedule 10 MemoryModel.sc) ≡ true
unfolding replay_schedule is_buffered_memory_model has_pending_store exec_write write_conflict tick
racy-races = refl

-- The write of `z` goes; the write of `y` stays, as it is not the last step of its thread.
racy_minimized :
    minimize_schedule racy 10 MemoryModel.sc racy_schedule
    ≡ ok (source_step 0 0 ∷ source_step 1 0 ∷ source_step 1 1 ∷ [])
unfolding minimize_schedule is_buffered_memory_model has_pending_store exec_write write_conflict
    tick no_identity is_report_endpoint
racy_minimized = refl

-- The loop comes back to the state behind its first step.
looping_lasso :
    lassos (replay_schedule looping looping_schedule 10 MemoryModel.sc)
    ≡ some (Fairness.fair_divergence, 1)
unfolding replay_schedule is_buffered_memory_model has_pending_store tick exec_set bytes_eq
    exec_branch_nonzero bytes_lt
looping_lasso = refl
