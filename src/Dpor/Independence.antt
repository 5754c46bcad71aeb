-- ===== src/Dpor/Independence.antt =====
-- src/model/checker.cpp: when two transitions of a node commute (`transitions_independent` and
-- `transitions_independent_at_node`).
pub mod AtNode
pub mod Symmetry
use dpor_concurrency_model_c.Common.{
  ℕ, Bool, true, false, String, if◌then◌else◌, not, ◌&&◌, ◌||◌, eqb, any,
}
use dpor_concurrency_model_c.Common.Order.{◌==◌, name_ord}
use dpor_concurrency_model_c.Action.{Action, ActionKind, Program}
use dpor_concurrency_model_c.Action.Pairs.{empty_name, independent}
use dpor_concurrency_model_c.State.{MemoryModel}
use dpor_concurrency_model_c.State.Buffers.{is_buffered_memory_model}
use dpor_concurrency_model_c.Enabled.{join_target_is_invalid}
use dpor_concurrency_model_c.Dpor.{is_kind}

unfoldable pub join_independent_from_transition : Program → ℕ → Action → ℕ → Action → Bool
unfolding join_target_is_invalid is_kind
join_independent_from_transition program join_thread join_action other_thread other_action =
    if join_target_is_invalid program join_thread join_action
    then false
    else if eqb other_thread join_action.target
    then false
    else if is_kind other_action.kind ActionKind.spawn
    then false
    else not (
        is_kind other_action.kind ActionKind.join
        && not (join_target_is_invalid program other_thread other_action)
        && eqb other_action.target join_thread)

unfoldable pub is_reader_rwlock_action : Action → Bool
unfolding is_kind
is_reader_rwlock_action action =
    is_kind action.kind ActionKind.r_lock || is_kind action.kind ActionKind.r_unlock

is_writer_mode : ActionKind → Bool
unfolding is_kind
is_writer_mode kind =
    is_kind kind ActionKind.w_lock
    || is_kind kind ActionKind.w_unlock
    || is_kind kind ActionKind.upgrade
    || is_kind kind ActionKind.downgrade

unfoldable pub program_has_writer_mode_action_for_rwlock : Program → String → Bool
unfolding is_writer_mode
program_has_writer_mode_action_for_rwlock program name =
    any (any (λ a. is_writer_mode a.kind && a.rwlock == name)) program.threads

unfoldable pub program_has_upgrade_action_for_rwlock : Program → String → Bool
unfolding is_kind
program_has_upgrade_action_for_rwlock program name =
    any (any (λ a. is_kind a.kind ActionKind.upgrade && a.rwlock == name)) program.threads

-- PSO flushes of one thread, to two addresses.
unfoldable pub sibling_flushes : Action → Action → Bool
unfolding is_kind
sibling_flushes lhs rhs =
    is_kind lhs.kind ActionKind.flush
    && is_kind rhs.kind ActionKind.flush
    && not (empty_name lhs.address)
    && not (empty_name rhs.address)
    && not (lhs.address == rhs.address)

unfoldable pub joins_independent : Program → ℕ → Action → ℕ → Action → Bool
unfolding is_kind join_independent_from_transition
joins_independent program lhs_thread lhs rhs_thread rhs =
    not (
      is_kind lhs.kind ActionKind.join
      && not (join_independent_from_transition program lhs_thread lhs rhs_thread rhs))
    && not (
        is_kind rhs.kind ActionKind.join
        && not (join_independent_from_transition program rhs_thread rhs lhs_thread lhs))

unfoldable pub read_locks_commute : Program → Action → Action → Bool
unfolding is_kind program_has_upgrade_action_for_rwlock
read_locks_commute program lhs rhs =
    is_kind lhs.kind ActionKind.r_lock
    && is_kind rhs.kind ActionKind.r_lock
    && lhs.rwlock == rhs.rwlock
    && not (program_has_upgrade_action_for_rwlock program lhs.rwlock)

unfoldable pub readers_commute : Program → Action → Action → Bool
unfolding is_reader_rwlock_action program_has_writer_mode_action_for_rwlock
readers_commute program lhs rhs =
    is_reader_rwlock_action lhs
    && is_reader_rwlock_action rhs
    && lhs.rwlock == rhs.rwlock
    && not (program_has_writer_mode_action_for_rwlock program lhs.rwlock)

-- A write under TSO or PSO is a private enqueue.
unfoldable pub private_write : MemoryModel → Action → Action → Bool
unfolding is_kind is_buffered_memory_model
private_write memory_model lhs rhs =
    is_buffered_memory_model memory_model
    && (is_kind lhs.kind ActionKind.write || is_kind rhs.kind ActionKind.write)
    && not (is_kind lhs.kind ActionKind.spawn)
    && not (is_kind rhs.kind ActionKind.spawn)

unfoldable pub transitions_independent : Program → MemoryModel → ℕ → Action → ℕ → Action → Bool
unfolding sibling_flushes is_kind joins_independent read_locks_commute readers_commute private_write
    independent
transitions_independent program memory_model lhs_thread lhs rhs_thread rhs =
    if eqb lhs_thread rhs_thread && sibling_flushes lhs rhs
    then true
    else if eqb lhs_thread rhs_thread
    then false
    else if is_kind lhs.kind ActionKind.join || is_kind rhs.kind ActionKind.join
    then joins_independent program lhs_thread lhs rhs_thread rhs
    else if read_locks_commute program lhs rhs
    then true
    else if readers_commute program lhs rhs
    then true
    else if private_write memory_model lhs rhs
    then true
    else independent lhs rhs
