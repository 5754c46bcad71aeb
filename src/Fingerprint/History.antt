-- ===== src/Fingerprint/History.antt =====
-- src/model/checker.cpp: the states of a path by fingerprint, with the length of the schedule at
-- which each was seen first.
use dpor_concurrency_model_c.Common.{ℕ, List, [], Option, none, some, length}
use dpor_concurrency_model_c.Common.Order.{bytes_ord}
use dpor_concurrency_model_c.Common.OrdMap.{OrdMap, lookup, insert}
use dpor_concurrency_model_c.Action.{Program}
use dpor_concurrency_model_c.State.{ExecutionState}
use dpor_concurrency_model_c.Fingerprint.{behavioral_state_fingerprint}

abbrev pub StateHistory : Type 0
StateHistory = OrdMap (List ℕ) ℕ

unfoldable pub initial_state_history : Program → ExecutionState → StateHistory
unfolding insert
initial_state_history program s =
    insert (behavioral_state_fingerprint program s) (length s.schedule) []

-- The start of a cycle that the state closes, and the history with the state. The search keeps the
-- old history for the siblings, where the source erases the entry again.
unfoldable pub observe_path_behavioral_state :
    Program → ExecutionState → StateHistory → Option ℕ × StateHistory
unfolding lookup insert
observe_path_behavioral_state program s history =
    elim (lookup (behavioral_state_fingerprint program s) history) [
      | some start ↦ (some start, history)
      | none ↦ (none, insert (behavioral_state_fingerprint program s) (length s.schedule) history)
    ]
