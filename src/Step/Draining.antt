-- ===== src/Step/Draining.antt =====
-- src/model/checker.cpp: the Flush steps of a thread under TSO, run until its buffer is empty.
use dpor_concurrency_model_c.Common.{
  ℕ, zero, suc, List, [], ◌∷◌, String, ◌≡◌, refl, ◌∙◌, arith, value_or, update, length,
  if◌then◌else◌,
}
use dpor_concurrency_model_c.Common.Order.{◌==◌, name_ord}
use dpor_concurrency_model_c.Common.OrdMap.{lookup-insert}
use dpor_concurrency_model_c.Common.Result.{Result, ok, ◌>>=◌}
use dpor_concurrency_model_c.Action.{Action, Program, ScheduleStep}
use dpor_concurrency_model_c.State.{ExecutionState, MemoryModel, StoreBufferEntry}
use dpor_concurrency_model_c.State.Buffers.{latest, buffered, memory_value, read_plain_value}
use dpor_concurrency_model_c.Report.{StepReport}
use dpor_concurrency_model_c.Report.Races.{record_write}
use dpor_concurrency_model_c.Step.Plain.{commit, flush_tso, flush_under, exec_flush}

-- A given number of Flush steps of one thread.
unfoldable pub drain : ℕ → Program → ScheduleStep → Action → ExecutionState → Result ExecutionState
drain zero p step a s = ok s
drain (suc n) p step a s = exec_flush p step a s >>= λ (t, r). drain n p step a t

-- The state behind the flush of the oldest entry.
flushed : ExecutionState → ScheduleStep → StoreBufferEntry → List StoreBufferEntry → ExecutionState
flushed s step e rest =
    (commit (record s { store_buffers = update s.store_buffers step.thread rest }) step e.address
      e.value).0

module _ (p : Program) (step : ScheduleStep) (a : Action) where
  flush-front :
      (s : ExecutionState) (e : StoreBufferEntry) (rest : List StoreBufferEntry)
      → s.memory_model ≡ MemoryModel.tso
      → s.store_buffers step.thread ≡ e ∷ rest
      → (r : StepReport) × (exec_flush p step a s ≡ ok (flushed s step e rest, r))
  unfolding exec_flush flush_under flush_tso flushed
  flush-front s e rest m b =
      rw (m, b)
        (
          (commit (record s { store_buffers = update s.store_buffers step.thread rest }) step
              e.address e.value).1,
          refl,
        )

  flushed-buffer :
      (s : ExecutionState) (e : StoreBufferEntry) (rest : List StoreBufferEntry)
      → (flushed s step e rest).store_buffers step.thread ≡ rest
  unfolding flushed commit record_write
  flushed-buffer s e rest = ground arith

  flushed-memory_model :
      (s : ExecutionState) (e : StoreBufferEntry) (rest : List StoreBufferEntry)
      → (flushed s step e rest).memory_model ≡ s.memory_model
  unfolding flushed commit record_write
  flushed-memory_model s e rest = refl

  flushed-memory_value :
      (s : ExecutionState) (e : StoreBufferEntry) (rest : List StoreBufferEntry) (address : String)
      → memory_value (flushed s step e rest) address
        ≡ (if e.address == address then e.value else memory_value s address)
  unfolding flushed commit record_write memory_value
  flushed-memory_value s e rest address =
      ground (arith, lookup-insert e.address address e.value s.memory_values)

  -- What a drain gives, said of the entries that the buffer holds.
  abbrev Drained : ExecutionState → List StoreBufferEntry → Type 0
  Drained s entries =
      (t : ExecutionState) × (drain (length entries) p step a s ≡ ok t)
      × (t.store_buffers step.thread ≡ [])
      × ((address : String)
          → memory_value t address ≡ value_or (latest address entries) (memory_value s address))

  drain-entries :
      (entries : List StoreBufferEntry) (s : ExecutionState)
      → s.memory_model ≡ MemoryModel.tso
      → s.store_buffers step.thread ≡ entries
      → Drained s entries
  unfolding drain latest
  drain-entries [] s m b = (s, refl, b, λ address. refl)
  drain-entries (e ∷ rest) s m b =
      let u : ExecutionState = flushed s step e rest in
      let (r, ran) = flush-front s e rest m b in
      let (t, drained, left, reads) =
        drain-entries rest u (flushed-memory_model s e rest ∙ m) (flushed-buffer s e rest) in
      (
        t,
        rw ran drained,
        left,
        λ address. ground (arith, reads address, flushed-memory_value s e rest address),
      )

tso-reads :
    (s : ExecutionState) (tid : ℕ) (address : String)
    → s.memory_model ≡ MemoryModel.tso
    → value_or (latest address (s.store_buffers tid)) (memory_value s address)
      ≡ read_plain_value s tid address
unfolding read_plain_value buffered
tso-reads s tid address m = ground arith

-- As many Flush steps as a thread has entries under TSO all succeed, leave its buffer empty, and
-- leave at each address the value that the thread read there before them.
pub drain-read_plain_value :
    (p : Program) (step : ScheduleStep) (a : Action) (s : ExecutionState)
    → s.memory_model ≡ MemoryModel.tso
    → (t : ExecutionState) × (drain (length (s.store_buffers step.thread)) p step a s ≡ ok t)
      × (t.store_buffers step.thread ≡ [])
      × ((address : String) → memory_value t address ≡ read_plain_value s step.thread address)
drain-read_plain_value p step a s m =
    let (t, drained, left, reads) = drain-entries p step a (s.store_buffers step.thread) s m refl in
    (t, drained, left, λ address. reads address ∙ tso-reads s step.thread address m)
