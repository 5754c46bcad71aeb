-- ===== src/Replay/Accepts.antt =====
-- src/model/checker.cpp: which steps `validate_replay_step` accepts.
use dpor_concurrency_model_c.Common.{
  ℕ, ◌<◌, true, false, leb, Option, has_value, if◌then◌else◌, if-rule, ◌∙◌, List, [], ◌∷◌, none,
  some, String, ◌≡◌, ◌≢◌, refl, sym, ap, subst, arith, inl, inr, any, ◌↔◌, Option-cases, length,
  get_elem?, suc,
}
use dpor_concurrency_model_c.Common.OrdMap.{OrdMap, lookup}
use dpor_concurrency_model_c.Common.Result.{
  Result, ok, throw, ◌>>=◌, Message, text, number, IfOk, IfOk-then, IfOk-ok,
}
use dpor_concurrency_model_c.Action.StepOrder.{step_ord}
use dpor_concurrency_model_c.Dpor.{EnabledTransition}
use dpor_concurrency_model_c.Dpor.Occurrence.{enabled_transitions}
use dpor_concurrency_model_c.Dpor.Occurrence.Keys.{enabled_transitions-keys}
use dpor_concurrency_model_c.Action.{Program, ScheduleStep, step_eq, k_flush_action_index}
use dpor_concurrency_model_c.State.{
  ExecutionState, MemoryModel, PsoAddressBuffer, thread_at, thread_count,
}
use dpor_concurrency_model_c.State.Threads.{next_action}
use dpor_concurrency_model_c.State.Buffers.{is_flush_step, has_pending_store}
use dpor_concurrency_model_c.Enabled.{is_program_action_enabled}
use dpor_concurrency_model_c.Enabled.Steps.{
  enabled_steps, pso_flush_steps, flush_steps, source_step,
}
use dpor_concurrency_model_c.Enabled.Membership.{enabled_steps_iff, Offers}
use dpor_concurrency_model_c.Replay.Lasso.{
  refusal, refused, shape_reason, validate_replay_step, flush_reason,
}

-- The explorer lists the step, and names the enabled transitions without an exception.
abbrev pub IsListed : Program → ExecutionState → ScheduleStep → Type 0
IsListed program s step =
    (any (step_eq step) (enabled_steps program s) ≡ true)
    × (transitions : OrdMap ScheduleStep EnabledTransition) × (enabled_transitions program s
          (enabled_steps program s)
        ≡ ok transitions)

get_elem?-inside {ℓ} :
    {A : Type ℓ} (xs : List A) (i : ℕ) (a : A) → get_elem? xs i ≡ some a → i < length xs
get_elem?-inside [] i a h = cc
get_elem?-inside (x ∷ xs) Prim.Native.Nat.zero a h = omega arith
get_elem?-inside (x ∷ xs) (suc i) a h =
    let lt : i < length xs = get_elem?-inside xs i a h in omega arith

in_thread :
    (program : Program) (s : ExecutionState) (tid : ℕ)
    → is_program_action_enabled program s tid ≡ true
    → s.pc tid < length (thread_at program tid)
unfolding is_program_action_enabled next_action
in_thread program s tid on = elim (Option-cases (next_action program s tid)) [
  | inl e ↦ absurd (ground arith)
  | inr (a, e) ↦ get_elem?-inside (thread_at program tid) (s.pc tid) a e
]

source-shape :
    (program : Program) (s : ExecutionState) (tid : ℕ)
    → is_program_action_enabled program s tid ≡ true
    → s.pc tid ≢ k_flush_action_index
    → shape_reason program s (source_step tid (s.pc tid)) ≡ none
unfolding shape_reason is_flush_step
source-shape program s tid on apart = ground (arith, in_thread program s tid on)

pso-shape :
    (names : List String) (tid : ℕ) (b : PsoAddressBuffer) (step : ScheduleStep)
    → any (step_eq step) (pso_flush_steps names tid b) ≡ true
    → (is_flush_step step ≡ true)
      × (flush_reason MemoryModel.pso step.flush_address ≡ none)
      × (step.thread ≡ tid)
unfolding pso_flush_steps flush_reason is_flush_step
pso-shape names tid [] step h = cc
pso-shape names tid ((address, values) ∷ b) step h = ground (arith, pso-shape names tid b step)

flush-shape :
    (m : MemoryModel) (s : ExecutionState) (tid : ℕ) (step : ScheduleStep)
    → m ≢ MemoryModel.sc
    → any (step_eq step) (flush_steps m s tid) ≡ true
    → (is_flush_step step ≡ true) × (flush_reason m step.flush_address ≡ none) × (step.thread ≡ tid)
unfolding flush_steps flush_reason is_flush_step
flush-shape MemoryModel.sc s tid step apart h = absurd (apart refl)
flush-shape MemoryModel.tso s tid step apart h = ground arith
flush-shape MemoryModel.pso s tid step apart h =
    unfold is_flush_step in pso-shape s.flush_addresses tid (s.pso_store_buffers tid) step h

buffered_model :
    (s : ExecutionState) (tid : ℕ)
    → has_pending_store s tid ≡ true
    → s.memory_model ≢ MemoryModel.sc
unfolding has_pending_store
buffered_model s tid h e = ground arith

flush_reason-shape :
    (program : Program) (s : ExecutionState) (step : ScheduleStep)
    → is_flush_step step ≡ true
    → flush_reason s.memory_model step.flush_address ≡ none
    → shape_reason program s step ≡ none
unfolding shape_reason
flush_reason-shape program s step f r = ground arith

offered-shape :
    (program : Program) (s : ExecutionState) (step : ScheduleStep) (tid : ℕ)
    → s.pc tid ≢ k_flush_action_index
    → Offers program s step tid
    → (step.thread ≡ tid) × (shape_reason program s step ≡ none)
offered-shape program s step tid apart (started, inl (on, same)) = (
  ap (λ (u : ScheduleStep). u.thread) same,
  subst (λ (u : ScheduleStep). shape_reason program s u ≡ none) (sym same)
      (source-shape program s tid on apart),
)
offered-shape program s step tid apart (started, inr (pending, listed)) =
    let (f, r, t) = flush-shape s.memory_model s tid step (buffered_model s tid pending) listed in
    (t, flush_reason-shape program s step f r)

refusal-none :
    (program : Program) (s : ExecutionState) (step : ScheduleStep)
    {transitions : OrdMap ScheduleStep EnabledTransition}
    → step.thread < thread_count program
    → shape_reason program s step ≡ none
    → any (step_eq step) (enabled_steps program s) ≡ true
    → enabled_transitions program s (enabled_steps program s) ≡ ok transitions
    → refusal program s step ≡ ok none
unfolding refusal
refusal-none program s step {transitions = transitions} inside shape listed built =
    let entry : has_value (lookup step transitions) ≡ true =
      enabled_transitions-keys program s (enabled_steps program s) step transitions built
      ∙ listed in
    let low : leb (thread_count program) step.thread ≡ false = ground (arith, inside) in
    rw (low, shape, built, entry) refl

-- What is known if no reason is found.
refusal-IsListed :
    (program : Program) (s : ExecutionState) (step : ScheduleStep)
    → IfOk (λ reason. reason ≡ none → IsListed program s step) (refusal program s step)
unfolding refusal
refusal-IsListed program s step =
    if-rule (IfOk (λ reason. reason ≡ none → IsListed program s step))
      (leb (thread_count program) step.thread) {x = ok _} (λ _ none_found. absurd (cc none_found))
      (λ _. go (shape_reason program s step))
  where
    go :
        (shape : Option Message)
        → IfOk
            (λ reason. reason ≡ none → IsListed program s step)
            (elim shape as (λ _. Result (Option Message)) [
              | some reason ↦ ok (some reason)
              | none ↦ enabled_transitions program s (enabled_steps program s) >>= λ transitions.
                  ok (
                    if has_value (lookup step transitions)
                    then none
                    else some (
                        text "schedule names a disabled action for thread "
                        ∷ number step.thread
                        ∷ []))
            ])
    go (some reason) = λ none_found. absurd (cc none_found)
    go none =
        IfOk-then (λ reason. reason ≡ none → IsListed program s step)
          (enabled_transitions program s (enabled_steps program s)) _
          (λ transitions built none_found. (
            sym (
                  enabled_transitions-keys program s (enabled_steps program s) step transitions
                    built)
                ∙ ground (arith, none_found),
            transitions,
            built,
          ))

refused-ok : (index : ℕ) (r : Result (Option Message)) → (r >>= refused index) ≡ ok tt → r ≡ ok none
refused-ok index (ok none) accepted = refl
refused-ok index (ok (some reason)) accepted = absurd (cc accepted)
refused-ok index (throw e) accepted = absurd (cc accepted)

accepted-IsListed :
    (program : Program) (s : ExecutionState) (step : ScheduleStep) (index : ℕ)
    → validate_replay_step program s step index ≡ ok tt
    → IsListed program s step
unfolding validate_replay_step
accepted-IsListed program s step index accepted =
    IfOk-ok (λ reason. reason ≡ none → IsListed program s step) (refusal program s step)
      (refusal-IsListed program s step) (refused-ok index (refusal program s step) accepted) refl

pub accepted-enabled :
    (program : Program) (s : ExecutionState) (step : ScheduleStep) (index : ℕ)
    → validate_replay_step program s step index ≡ ok tt
    → any (step_eq step) (enabled_steps program s) ≡ true
accepted-enabled program s step index accepted = (accepted-IsListed program s step index accepted).0

accepts-none :
    (program : Program) (s : ExecutionState) (step : ScheduleStep) (index : ℕ)
    → refusal program s step ≡ ok none
    → validate_replay_step program s step index ≡ ok tt
unfolding validate_replay_step
accepts-none program s step index h = rw h refl

-- If no program counter is the index that marks a flush, replay accepts a step exactly if the
-- explorer lists it as enabled and `enabled_transitions` returns for the state, as it throws where
-- an index is out of range or the episode of a timed wait overflows.
pub validate_replay_step-enabled_steps :
    (program : Program) (s : ExecutionState) (step : ScheduleStep) (index : ℕ)
    → ((tid : ℕ) → s.pc tid ≢ k_flush_action_index)
    → (validate_replay_step program s step index ≡ ok tt) ↔ IsListed program s step
validate_replay_step-enabled_steps program s step index apart = (
  accepted-IsListed program s step index,
  λ (listed, transitions, built).
      let (tid, lt, offer) = (enabled_steps_iff program s step).0 listed in
      let (same, shape) = offered-shape program s step tid (apart tid) offer in
      accepts-none program s step index (
        refusal-none program s step (subst (λ t. t < thread_count program) (sym same) lt) shape
          listed built),
)
