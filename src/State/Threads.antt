-- ===== src/State/Threads.antt =====
-- src/model/checker.cpp: program counters, labels, and the initial state.
use dpor_concurrency_model_c.Common.{
  ℕ, zero, suc, ◌+◌, Bool, true, false, List, [], ◌∷◌, Option, none, some, String, length, range,
  get_elem?, if◌then◌else◌, not, ◌&&◌, ◌||◌, ltb, leb, any, eqb, update, is_empty,
}
use dpor_concurrency_model_c.Common.Order.{◌==◌, name_ord}
use dpor_concurrency_model_c.Common.OrdMap.{OrdMap, emplace}
use dpor_concurrency_model_c.Clock
use dpor_concurrency_model_c.Common.OrdSet
use dpor_concurrency_model_c.Action.{Action, ActionKind, Program}
use dpor_concurrency_model_c.Action.Pairs.{empty_name, is_spawn, is_barrier_action}
use dpor_concurrency_model_c.State.{
  ExecutionState, MemoryModel, WaitPhase, BarrierState, new_barrier, thread_count, thread_at,
}

unfoldable pub is_label : ActionKind → Bool
is_label ActionKind.label = true
is_label _ = false

-- The action at an index of a thread, if there is one.
abbrev pub action_at : List Action → ℕ → Option Action
action_at = get_elem?

unfoldable pub is_label_at : List Action → ℕ → Bool
unfolding is_label
is_label_at thread pc = elim (get_elem? thread pc) [ none ↦ false | some a ↦ is_label a.kind ]

unfoldable pub is_label_action : Program → ℕ → ℕ → Bool
unfolding is_label_at
is_label_action program tid pc = is_label_at (thread_at program tid) pc

-- `while (is_label_action(program, tid, pc)) ++pc;` on fuel.
unfoldable pub skip_labels : ℕ → List Action → ℕ → ℕ
unfolding is_label_at
skip_labels zero thread pc = pc
skip_labels (suc fuel) thread pc = elim (is_label_at thread pc) [
  | true ↦ skip_labels fuel thread (suc pc)
  | false ↦ pc
]

-- The loop moves over each action once, so the thread's length is fuel enough.
unfoldable pub normalized : Program → ℕ → ℕ → ℕ
unfolding skip_labels
normalized program tid pc =
    let thread = thread_at program tid in skip_labels (suc (length thread)) thread pc

unfoldable pub set_pc : Program → ExecutionState → ℕ → ℕ → ExecutionState
set_pc program s tid pc = record s { pc = update s.pc tid (normalized program tid pc) }

unfoldable pub normalize_pc : Program → ExecutionState → ℕ → ExecutionState
unfolding set_pc
normalize_pc program s tid = set_pc program s tid (s.pc tid)

unfoldable pub advance_pc : Program → ExecutionState → ℕ → ExecutionState
unfolding set_pc
advance_pc program s tid = set_pc program s tid (s.pc tid + 1)

unfoldable pub normalize_from : Program → List ℕ → ExecutionState → ExecutionState
unfolding normalize_pc
normalize_from program [] s = s
normalize_from program (tid ∷ tids) s = normalize_from program tids (normalize_pc program s tid)

unfoldable pub normalize_all_pcs : Program → ExecutionState → ExecutionState
unfolding normalize_from
normalize_all_pcs program s = normalize_from program (range (thread_count program)) s

-- A Spawn of another thread `target` that stands in thread `tid`.
spawns : ℕ → ℕ → Action → Bool
unfolding is_spawn
spawns target tid a = is_spawn a.kind && eqb a.target target && not (eqb target tid)

unfoldable pub initially_started_threads : Program → ℕ → Bool
unfolding spawns
initially_started_threads program target =
    not
      (any (λ tid. any (spawns target tid) (thread_at program tid)) (range (thread_count program)))

unfoldable pub has_next_action : Program → ExecutionState → ℕ → Bool
has_next_action program s tid = ltb (s.pc tid) (length (thread_at program tid))

unfoldable pub next_action : Program → ExecutionState → ℕ → Option Action
next_action program s tid = action_at (thread_at program tid) (s.pc tid)

unfoldable pub is_finished : Program → ExecutionState → ℕ → Bool
unfolding has_next_action
is_finished program s tid =
    s.started tid
    && not (has_next_action program s tid)
    && is_empty (s.store_buffers tid)
    && is_empty (s.pso_store_buffers tid)

unfoldable pub all_finished : Program → ExecutionState → Bool
unfolding is_finished
all_finished program s =
    not
      (any (λ tid. s.started tid && not (is_finished program s tid)) (range (thread_count program)))

-- The first label of that name.
find_label : List Action → String → ℕ → Option ℕ
unfolding is_label
find_label [] name index = none
find_label (a ∷ as') name index =
    if is_label a.kind && a.label == name then some index else find_label as' name (suc index)

unfoldable pub resolve_label : Program → ℕ → String → Option ℕ
unfolding find_label
resolve_label program tid name = find_label (thread_at program tid) name 0

is_branch : ActionKind → Bool
is_branch ActionKind.branch_nonzero = true
is_branch _ = false

-- A branch at `index` whose target, labels skipped, does not lie behind it.
jumps_back : Program → ℕ → ℕ → Action → Bool
unfolding is_branch resolve_label normalized
jumps_back program tid index a = is_branch a.kind && elim (resolve_label program tid a.label) [
  | none ↦ false
  | some target ↦ leb (normalized program tid target) index
]

some_jumps_back : Program → ℕ → ℕ → List Action → Bool
unfolding jumps_back
some_jumps_back program tid index [] = false
some_jumps_back program tid index (a ∷ rest) =
    jumps_back program tid index a || some_jumps_back program tid (suc index) rest

unfoldable pub requires_cycle_detection : Program → Bool
unfolding some_jumps_back
requires_cycle_detection program =
    any (λ tid. some_jumps_back program tid 0 (thread_at program tid))
      (range (thread_count program))

addresses_from : List Action → List String → List String
unfolding OrdSet.insert
addresses_from [] names = names
addresses_from (a ∷ rest) names =
    addresses_from rest (if empty_name a.address then names else OrdSet.insert a.address names)

all_addresses : List (List Action) → List String → List String
unfolding addresses_from
all_addresses [] names = names
all_addresses (thread ∷ rest) names = all_addresses rest (addresses_from thread names)

unfoldable pub program_addresses : Program → List String
unfolding all_addresses
program_addresses program = all_addresses program.threads []

-- The first BarrierWait of a name in program order gives the number of parties.
barriers_from : List Action → OrdMap String BarrierState → OrdMap String BarrierState
unfolding is_barrier_action emplace
barriers_from [] barriers = barriers
barriers_from (a ∷ rest) barriers = barriers_from rest (
    if is_barrier_action a.kind
    then emplace a.barrier (new_barrier a.parties) barriers
    else barriers)

all_barriers : List (List Action) → OrdMap String BarrierState → OrdMap String BarrierState
unfolding barriers_from
all_barriers [] barriers = barriers
all_barriers (thread ∷ rest) barriers = all_barriers rest (barriers_from thread barriers)

unfoldable pub initial_barriers : Program → OrdMap String BarrierState
unfolding all_barriers
initial_barriers program = all_barriers program.threads []

unfoldable pub initial_state : Program → MemoryModel → ExecutionState
unfolding initially_started_threads initial_barriers program_addresses normalize_all_pcs
initial_state program memory_model = normalize_all_pcs program (record {
  memory_model = memory_model;
  pc = λ _. 0;
  started = initially_started_threads program;
  mutex_owner = [];
  mutex_clock = [];
  rwlocks = [];
  semaphores = [];
  barriers = initial_barriers program;
  condition_waiters = [];
  thread_clock = λ _. Clock.empty;
  registers = λ _ _. 0;
  thread_steps = λ _. 0;
  wait_phase = λ _. WaitPhase.idle;
  memory = [];
  memory_values = [];
  atomic_location_clock = [];
  store_buffers = λ _. [];
  pso_store_buffers = λ _. [];
  flush_addresses = program_addresses program;
  schedule = [];
})
