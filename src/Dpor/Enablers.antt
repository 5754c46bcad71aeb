-- ===== src/Dpor/Enablers.antt =====
-- src/model/checker.cpp: what can be run at a node so that a disabled transition becomes enabled
-- (`enabler_heads_for_thread` and its callers).
pub mod Repair
pub mod Heads
pub mod Laws
pub mod Ends
use dpor_concurrency_model_c.Common.{
  ℕ, zero, suc, Bool, true, false, List, [], ◌∷◌, Option, none, some, String, if◌then◌else◌, not,
  ◌&&◌, ◌||◌, eqb, leb, ltb, any, keep, length, is_empty, range, update, get_elem?,
}
use dpor_concurrency_model_c.Common.Order.{◌==◌, name_ord}
use dpor_concurrency_model_c.Common.OrdMap.{lookup}
use dpor_concurrency_model_c.Common.Result.{Result, ok, throw, out_of_fuel, ◌>>=◌, or_out_of_range}
use dpor_concurrency_model_c.Action.{Action, ActionKind, Program, ScheduleStep, default_action}
use dpor_concurrency_model_c.State.{RwLockState, WaitPhase, thread_at, thread_count}
use dpor_concurrency_model_c.Enabled.{join_target_is_invalid}
use dpor_concurrency_model_c.Dpor.{DporNode, is_kind}
use dpor_concurrency_model_c.Dpor.StepSet.{append_steps}

unfoldable pub has_next_action_at_node : Program → DporNode → ℕ → Bool
has_next_action_at_node program node tid = ltb (node.pc tid) (length (thread_at program tid))

unfoldable pub has_pending_store_at_node : DporNode → ℕ → Bool
has_pending_store_at_node node tid =
    not (is_empty (node.store_buffers tid)) || not (is_empty (node.pso_store_buffers tid))

unfoldable pub is_finished_at_node : Program → DporNode → ℕ → Bool
unfolding has_next_action_at_node has_pending_store_at_node
is_finished_at_node program node tid =
    node.started tid
    && not (has_next_action_at_node program node tid)
    && not (has_pending_store_at_node node tid)

unfoldable pub next_action_at_node : Program → DporNode → ℕ → Result Action
next_action_at_node program node tid =
    or_out_of_range (get_elem? (thread_at program tid) (node.pc tid))

unfoldable pub is_waiting : WaitPhase → Bool
is_waiting WaitPhase.waiting = true
is_waiting _ = false

is_woken_phase : WaitPhase → Bool
is_woken_phase WaitPhase.woken = true
is_woken_phase _ = false

-- `effective_next_action_at_node`, of the next action.
unfoldable pub effective_at_node : DporNode → ℕ → Action → Action
unfolding is_kind is_woken_phase
effective_at_node node tid action =
    if (is_kind action.kind ActionKind.wait || is_kind action.kind ActionKind.timed_wait)
      && is_woken_phase (node.wait_phase tid)
    then record default_action { kind = ActionKind.lock; mutex = action.mutex }
    else action

unfoldable pub enabled_steps_for_thread_at_node : DporNode → ℕ → List ScheduleStep
enabled_steps_for_thread_at_node node tid = keep (λ step. eqb step.thread tid) node.enabled

unfoldable pub enabled_at_node : DporNode → ℕ → Bool
unfolding enabled_steps_for_thread_at_node
enabled_at_node node tid = not (is_empty (enabled_steps_for_thread_at_node node tid))

-- The actions of a thread from its program counter on.
from_index : ℕ → List Action → List Action
from_index zero actions = actions
from_index (suc n) [] = []
from_index (suc n) (action ∷ actions) = from_index n actions

unfoldable pub has_remaining_spawn_to : Program → DporNode → ℕ → ℕ → Bool
unfolding from_index is_kind
has_remaining_spawn_to program node source target =
    if leb (thread_count program) target || eqb source target
    then false
    else any (λ a. is_kind a.kind ActionKind.spawn && eqb a.target target)
        (from_index (node.pc source) (thread_at program source))

unfoldable pub has_remaining_wake_on : Program → DporNode → ℕ → String → Bool
unfolding from_index is_kind
has_remaining_wake_on program node source condition =
    any
      (λ a.
        (is_kind a.kind ActionKind.signal || is_kind a.kind ActionKind.broadcast)
        && a.condition == condition)
      (from_index (node.pc source) (thread_at program source))

-- Optional heads, in code that may throw.
abbrev pub Heads : Type 0
Heads = Result (Option (List ScheduleStep))

-- `heads.empty() ? nullopt : heads`
abbrev pub unless_empty : List ScheduleStep → Option (List ScheduleStep)
unless_empty [] = none
unless_empty (head ∷ heads) = some (head ∷ heads)

-- The heads of the sources, gathered: no heads of one are no heads at all.
unfoldable pub gather_heads : (ℕ → Heads) → List ℕ → List ScheduleStep → Heads
unfolding append_steps
gather_heads heads_of [] heads = ok (unless_empty heads)
gather_heads heads_of (source ∷ sources) heads = heads_of source >>= λ found. elim found [
  | none ↦ ok none
  | some source_heads ↦ gather_heads heads_of sources (append_steps heads source_heads)
]

unfoldable pub enabler_heads_for_spawn_target : (ℕ → Heads) → Program → DporNode → ℕ → Heads
unfolding has_remaining_spawn_to gather_heads
enabler_heads_for_spawn_target heads_of program node target =
    gather_heads heads_of
      (keep (λ source. has_remaining_spawn_to program node source target)
        (range (thread_count program)))
      []

unfoldable pub enabler_heads_for_waiter : (ℕ → Heads) → Program → DporNode → Action → Heads
unfolding has_remaining_wake_on gather_heads
enabler_heads_for_waiter heads_of program node wait_action =
    gather_heads heads_of
      (keep (λ source. has_remaining_wake_on program node source wait_action.condition)
        (range (thread_count program)))
      []

unfoldable pub enabler_heads_for_mutex_owner : (ℕ → Heads) → DporNode → String → ℕ → Heads
unfolding lookup
enabler_heads_for_mutex_owner heads_of node mutex blocked_thread =
    elim (lookup mutex node.mutex_owner) [
      | none ↦ ok none
      | some owner ↦ if eqb owner blocked_thread then ok none else heads_of owner
    ]

unfoldable pub heads_for_writer : (ℕ → Heads) → Option RwLockState → ℕ → Heads
heads_for_writer heads_of none blocked_thread = ok none
heads_for_writer heads_of (some rwlock) blocked_thread = elim rwlock.writer_holder [
  | none ↦ ok none
  | some writer ↦ if eqb writer blocked_thread then ok none else heads_of writer
]

unfoldable pub enabler_heads_for_rwlock_writer : (ℕ → Heads) → DporNode → String → ℕ → Heads
unfolding heads_for_writer lookup
enabler_heads_for_rwlock_writer heads_of node name blocked_thread =
    heads_for_writer heads_of (lookup name node.rwlocks) blocked_thread

unfoldable pub heads_for_readers : (ℕ → Heads) → ℕ → Bool → List ℕ → List ScheduleStep → Heads
unfolding append_steps
heads_for_readers heads_of blocked_thread skip_blocked_reader [] heads = ok (unless_empty heads)
heads_for_readers heads_of blocked_thread skip_blocked_reader (reader ∷ readers) heads =
    elim (eqb reader blocked_thread) [
      | true ↦
          if skip_blocked_reader
          then heads_for_readers heads_of blocked_thread skip_blocked_reader readers heads
          else ok none
      | false ↦ heads_of reader >>= λ found. elim found [
        | none ↦ ok none
        | some reader_heads ↦
            heads_for_readers heads_of blocked_thread skip_blocked_reader readers
              (append_steps heads reader_heads)
      ]
    ]

unfoldable pub enabler_heads_for_rwlock_readers : (ℕ → Heads) → DporNode → String → ℕ → Bool → Heads
unfolding heads_for_readers lookup
enabler_heads_for_rwlock_readers heads_of node name blocked_thread skip_blocked_reader =
    elim (lookup name node.rwlocks) [
      | none ↦ ok none
      | some rwlock ↦
          heads_for_readers heads_of blocked_thread skip_blocked_reader rwlock.reader_holders []
    ]

has_writer : Option RwLockState → Bool
has_writer none = false
has_writer (some rwlock) = elim rwlock.writer_holder [ none ↦ false | some w ↦ true ]

-- A blocked WLock waits for the writer, or else for the readers.
unfoldable pub enabler_heads_for_w_lock : (ℕ → Heads) → DporNode → String → ℕ → Heads
unfolding has_writer lookup enabler_heads_for_rwlock_writer enabler_heads_for_rwlock_readers
enabler_heads_for_w_lock heads_of node name tid =
    if has_writer (lookup name node.rwlocks)
    then enabler_heads_for_rwlock_writer heads_of node name tid
    else enabler_heads_for_rwlock_readers heads_of node name tid false

unfoldable pub enabler_heads_for_join : (ℕ → Heads) → Program → ℕ → Action → Heads
unfolding join_target_is_invalid
enabler_heads_for_join heads_of program tid action =
    if join_target_is_invalid program tid action then ok none else heads_of action.target

unfoldable pub enabler_heads_for_wait : (ℕ → Heads) → Program → DporNode → ℕ → Action → Heads
unfolding is_waiting enabler_heads_for_waiter
enabler_heads_for_wait heads_of program node tid action =
    if is_waiting (node.wait_phase tid)
    then enabler_heads_for_waiter heads_of program node action
    else ok none

-- The switch of `enabler_heads_for_thread`; `action` is the static action.
unfoldable pub enabler_heads_for_kind :
    ActionKind → (ℕ → Heads) → Program → DporNode → ℕ → Action → Action → Heads
unfolding enabler_heads_for_mutex_owner enabler_heads_for_rwlock_writer enabler_heads_for_w_lock
    enabler_heads_for_rwlock_readers enabler_heads_for_join enabler_heads_for_wait
enabler_heads_for_kind ActionKind.lock heads_of program node tid action effective =
    enabler_heads_for_mutex_owner heads_of node effective.mutex tid
enabler_heads_for_kind ActionKind.r_lock heads_of program node tid action effective =
    enabler_heads_for_rwlock_writer heads_of node effective.rwlock tid
enabler_heads_for_kind ActionKind.w_lock heads_of program node tid action effective =
    enabler_heads_for_w_lock heads_of node effective.rwlock tid
enabler_heads_for_kind ActionKind.upgrade heads_of program node tid action effective =
    enabler_heads_for_rwlock_readers heads_of node effective.rwlock tid true
enabler_heads_for_kind ActionKind.join heads_of program node tid action effective =
    enabler_heads_for_join heads_of program tid effective
enabler_heads_for_kind ActionKind.wait heads_of program node tid action effective =
    enabler_heads_for_wait heads_of program node tid action
enabler_heads_for_kind _ heads_of program node tid action effective = ok none

unfoldable pub heads_when_blocked : (ℕ → Heads) → Program → DporNode → ℕ → Action → Heads
unfolding effective_at_node enabler_heads_for_kind
heads_when_blocked heads_of program node tid action =
    let effective = effective_at_node node tid action in
    enabler_heads_for_kind effective.kind heads_of program node tid action effective

-- `enabler_heads_for_thread`, of a thread of the program that is not being visited: its own calls
-- are those of `heads_of`.
unfoldable pub heads_of_thread : (ℕ → Heads) → Program → DporNode → ℕ → Heads
unfolding enabler_heads_for_spawn_target is_finished_at_node enabled_at_node
    enabled_steps_for_thread_at_node next_action_at_node heads_when_blocked
heads_of_thread heads_of program node tid =
    if not (node.started tid)
    then enabler_heads_for_spawn_target heads_of program node tid
    else if is_finished_at_node program node tid
    then ok none
    else if enabled_at_node node tid
    then ok (some (enabled_steps_for_thread_at_node node tid))
    else next_action_at_node program node tid >>= heads_when_blocked heads_of program node tid

-- The marks of the threads that are being visited: every return of the source takes its own mark
-- back, so the marks are passed down by value.
unfoldable pub enabler_heads_for_thread : ℕ → Program → DporNode → (ℕ → Bool) → ℕ → Heads
unfolding heads_of_thread
enabler_heads_for_thread zero program node visiting tid = throw out_of_fuel
enabler_heads_for_thread (suc fuel) program node visiting tid =
    if leb (thread_count program) tid
    then ok none
    else if visiting tid
    then ok none
    else heads_of_thread (enabler_heads_for_thread fuel program node (update visiting tid true))
        program node tid
