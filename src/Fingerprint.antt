-- ===== src/Fingerprint.antt =====
-- src/model/checker.cpp: `behavioral_state_fingerprint` and the history of a path. A fingerprint is
-- the list of its bytes.
pub mod History
pub mod Splits
pub mod Exact
use dpor_concurrency_model_c.Common.{
  ℕ, zero, suc, ◌+◌, ◌*◌, ◌/◌, ◌%◌, ◌^◌, Bool, true, false, List, [], ◌∷◌, ◌++◌, Option, none, some,
  String, if◌then◌else◌, length, map, range, keep, is_empty, not, eqb, has_value, ◌||◌,
}
use dpor_concurrency_model_c.Common.Order.{codes}
use dpor_concurrency_model_c.Common.OrdMap.{OrdMap}
use dpor_concurrency_model_c.Action.{Program, k_register_count}
use dpor_concurrency_model_c.State.{
  ExecutionState, MemoryModel, WaitPhase, RwLockState, SemaphoreState, BarrierState,
  StoreBufferEntry, PsoAddressBuffer, thread_count,
}

-- The low bytes of a value, the lowest first: `(value >> (byte * 8)) & 0xff`.
unfoldable pub low_bytes : ℕ → ℕ → List ℕ
low_bytes zero value = []
low_bytes (suc n) value = (value % 256) ∷ low_bytes n (value / 256)

unfoldable pub append_u64 : ℕ → List ℕ
unfolding low_bytes
append_u64 value = low_bytes 8 value

unfoldable pub append_string : String → List ℕ
unfolding append_u64 codes
append_string name = append_u64 (length (codes name)) ++ codes name

-- `for (x : xs) append(x);`
unfoldable pub append_each {ℓ} : {A : Type ℓ} → (A → List ℕ) → List A → List ℕ
append_each append [] = []
append_each append (x ∷ xs) = append x ++ append_each append xs

-- The size, and then each element.
unfoldable pub append_sized {ℓ} : {A : Type ℓ} → (A → List ℕ) → List A → List ℕ
unfolding append_u64 append_each
append_sized append xs = append_u64 (length xs) ++ append_each append xs

unfoldable pub append_flag : Bool → List ℕ
unfolding append_u64
append_flag flag = append_u64 (if flag then 1 else 0)

unfoldable pub append_optional : Option ℕ → List ℕ
unfolding append_flag append_u64
append_optional none = append_flag false
append_optional (some t) = append_flag true ++ append_u64 t

-- A name and what is stored under it.
unfoldable pub append_entry {ℓ} : {V : Type ℓ} → (V → List ℕ) → String × V → List ℕ
unfolding append_string
append_entry append (name, v) = append_string name ++ append v

unfoldable pub append_rwlock : Option ℕ × List ℕ → List ℕ
unfolding append_optional append_sized
append_rwlock (writer, readers) = append_optional writer ++ append_sized append_u64 readers

unfoldable pub append_barrier : ℕ × List ℕ → List ℕ
unfolding append_u64 append_sized
append_barrier (parties, arrivals) = append_u64 parties ++ append_sized append_u64 arrivals

-- The eight registers of a thread, with no size before them.
unfoldable pub append_registers : List ℕ → List ℕ
unfolding append_u64 append_each
append_registers = append_each append_u64

unfoldable pub model_code : MemoryModel → ℕ
model_code MemoryModel.sc = 0
model_code MemoryModel.tso = 1
model_code MemoryModel.pso = 2

unfoldable pub phase_code : WaitPhase → ℕ
phase_code WaitPhase.idle = 0
phase_code WaitPhase.waiting = 1
phase_code WaitPhase.woken = 2

-- What the fingerprint reads of the state: each field below is one section of it, with unoccupied
-- rwlocks, zero permits, empty generations, empty wait sets and zero cells left out.
pub record Behavior : Type 0 where
  pub model : MemoryModel
  pub pcs : List ℕ
  pub started : List Bool
  pub owners : List (String × ℕ)
  pub rwlocks : List (String × (Option ℕ × List ℕ))
  pub permits : List (String × ℕ)
  pub barriers : List (String × (ℕ × List ℕ))
  pub waiters : List (String × List ℕ)
  pub registers : List (List ℕ)
  pub phases : List ℕ
  pub cells : List (String × ℕ)
  pub buffers : List (List (String × ℕ))
  pub pso_buffers : Option (List (List (String × List ℕ)))

abbrev map_values {ℓ κ} : {V : Type ℓ} {W : Type κ} → (V → W) → OrdMap String V → OrdMap String W
map_values f [] = []
map_values f ((name, v) ∷ m) = (name, f v) ∷ map_values f m

occupied : String × RwLockState → Bool
occupied (name, rwlock) = has_value rwlock.writer_holder || not (is_empty rwlock.reader_holders)

posted : String × SemaphoreState → Bool
posted (name, semaphore) = not (eqb semaphore.permits 0)

active : String × BarrierState → Bool
active (name, barrier) = not (is_empty barrier.arrivals)

waited_on : String × List ℕ → Bool
waited_on (name, waiters) = not (is_empty waiters)

nonzero : String × ℕ → Bool
nonzero (address, value) = not (eqb value 0)

-- Only PSO has the section of per-address buffers.
if_pso {ℓ} : {A : Type ℓ} → MemoryModel → A → Option A
if_pso MemoryModel.pso a = some a
if_pso _ a = none

unfoldable pub behavior : Program → ExecutionState → Behavior
unfolding if_pso occupied posted active waited_on nonzero phase_code
behavior program s =
    let tids : List ℕ = range (thread_count program) in
    record {
      model = s.memory_model;
      pcs = map s.pc tids;
      started = map s.started tids;
      owners = s.mutex_owner;
      rwlocks = map_values (λ r. (r.writer_holder, r.reader_holders)) (keep occupied s.rwlocks);
      permits = map_values (λ m. m.permits) (keep posted s.semaphores);
      barriers = map_values (λ b. (b.parties, b.arrivals)) (keep active s.barriers);
      waiters = keep waited_on s.condition_waiters;
      registers = map (λ tid. map (s.registers tid) (range k_register_count)) tids;
      phases = map (λ tid. phase_code (s.wait_phase tid)) tids;
      cells = keep nonzero s.memory_values;
      buffers = map (λ tid. map (λ e. (e.address, e.value)) (s.store_buffers tid)) tids;
      pso_buffers = if_pso s.memory_model (map s.pso_store_buffers tids);
    }

unfoldable pub append_pso : Option (List (List (String × List ℕ))) → List ℕ
unfolding append_sized append_entry
append_pso none = []
append_pso (some buffers) =
    append_sized (append_sized (append_entry (append_sized append_u64))) buffers

unfoldable pub append_behavior : Behavior → List ℕ
unfolding append_u64 model_code append_sized append_flag append_entry append_rwlock append_barrier
    append_registers append_pso
append_behavior b =
    append_u64 (model_code b.model)
    ++ (append_sized append_u64 b.pcs
        ++ (append_sized append_flag b.started
            ++ (append_sized (append_entry append_u64) b.owners
                ++ (append_sized (append_entry append_rwlock) b.rwlocks
                    ++ (append_sized (append_entry append_u64) b.permits
                        ++ (append_sized (append_entry append_barrier) b.barriers
                            ++ (append_sized (append_entry (append_sized append_u64)) b.waiters
                                ++ (append_sized append_registers b.registers
                                    ++ (append_sized append_u64 b.phases
                                        ++ (append_sized (append_entry append_u64) b.cells
                                            ++ (append_sized
                                                  (append_sized (append_entry append_u64)) b.buffers
                                                ++ append_pso b.pso_buffers)))))))))))

unfoldable pub behavioral_state_fingerprint : Program → ExecutionState → List ℕ
unfolding append_string behavior append_behavior
behavioral_state_fingerprint program s =
    append_string "dpor-behavioral-state-v1" ++ append_behavior (behavior program s)
