-- ===== src/Fingerprint/Exact.antt =====
-- src/model/checker.cpp: a fingerprint is no hash. Two states of one program have one fingerprint
-- only if all that it encodes is the same.
use dpor_concurrency_model_c.Common.{
  ℕ, ◌^◌, ◌<◌, List, [], ◌∷◌, ◌++◌, Option, none, some, String, length, ◌≡◌, refl, ap, sym, ◌∙◌,
  arith, All, ◌↔◌,
}
use mathlib.Core.List.{append-nil, tail}
use dpor_concurrency_model_c.Action.{Program, k_register_count}
use dpor_concurrency_model_c.State.{ExecutionState, MemoryModel}
use dpor_concurrency_model_c.Fingerprint.{
  Behavior, behavior, append_behavior, behavioral_state_fingerprint, append_string, append_u64,
  append_sized, append_flag, append_entry, append_rwlock, append_barrier, append_registers,
  append_pso, model_code,
}
use dpor_concurrency_model_c.Fingerprint.Splits.{
  Splits, IsWord, FitsAll, FitsName, FitsOption, Anything, append_u64-splits, append_sized-splits,
  append_each-splits, append_entry-splits, append_flag-splits, append_rwlock-splits,
  append_barrier-splits,
}

model_code-splits : Splits (λ (m : MemoryModel). append_u64 (model_code m)) Anything
unfolding model_code
model_code-splits a b r s ha hb h = codes_apart a b word.0 word.1
  where
    small : (m : MemoryModel) → model_code m < 2 ^ 64
    small m = ground arith

    word : (model_code a ≡ model_code b) × (r ≡ s)
    word = append_u64-splits (model_code a) (model_code b) r s (small a) (small b) h

    codes_apart : (a b : MemoryModel) → model_code a ≡ model_code b → r ≡ s → (a ≡ b) × (r ≡ s)
    codes_apart a b e f = ground arith

abbrev FitsEntry {ℓ κ} : {V : Type ℓ} → (V → Type κ) → String × V → Type κ
FitsEntry Fits e = FitsName (e.0) × Fits (e.1)

abbrev FitsRwLock : Option ℕ × List ℕ → Type 0
FitsRwLock p = FitsOption (p.0) × FitsAll IsWord (p.1)

abbrev FitsBarrier : ℕ × List ℕ → Type 0
FitsBarrier p = IsWord (p.0) × FitsAll IsWord (p.1)

abbrev FitsRegisters : List ℕ → Type 0
FitsRegisters registers = (length registers ≡ k_register_count) × All IsWord registers

words-splits : Splits (append_sized append_u64) (FitsAll IsWord)
words-splits = append_sized-splits append_u64 IsWord append_u64-splits

entries-splits {ℓ κ} :
    {V : Type ℓ} (append : V → List ℕ) (Fits : V → Type κ)
    → Splits append Fits
    → Splits (append_sized (append_entry append)) (FitsAll (FitsEntry Fits))
entries-splits append Fits splits =
    append_sized-splits (append_entry append) (FitsEntry Fits)
      (append_entry-splits append Fits splits)

IsWord-entries-splits : Splits (append_sized (append_entry append_u64)) (FitsAll (FitsEntry IsWord))
IsWord-entries-splits = entries-splits append_u64 IsWord append_u64-splits

append_registers-splits : Splits append_registers FitsRegisters
unfolding append_registers
append_registers-splits a b r s ha hb h =
    append_each-splits append_u64 IsWord append_u64-splits a b r s (omega arith) ha.1 hb.1 h

abbrev FitsPso : Option (List (List (String × List ℕ))) → Type 0
FitsPso none = Unit
FitsPso (some buffers) = FitsAll (FitsAll (FitsEntry (FitsAll IsWord))) buffers

pso_buffers-splits :
    Splits
      (append_sized (append_sized (append_entry (append_sized append_u64))))
      (FitsAll (FitsAll (FitsEntry (FitsAll IsWord))))
pso_buffers-splits =
    append_sized-splits (append_sized (append_entry (append_sized append_u64)))
      (FitsAll (FitsEntry (FitsAll IsWord)))
      (entries-splits (append_sized append_u64) (FitsAll IsWord) words-splits)

-- A size is eight bytes, so a section that is there is not empty.
sized_not_nil {ℓ} :
    {A : Type ℓ} (append : A → List ℕ) (xs : List A) → append_sized append xs ≡ [] → ⊥
unfolding append_sized append_u64
sized_not_nil append xs h = cc

-- Nothing follows the last section.
append_pso-injective :
    (a b : Option (List (List (String × List ℕ))))
    → FitsPso a
    → FitsPso b
    → append_pso a ≡ append_pso b
    → a ≡ b
unfolding append_pso
append_pso-injective none none fa fb h = refl
append_pso-injective none (some b) fa fb h =
    absurd (sized_not_nil (append_sized (append_entry (append_sized append_u64))) b (sym h))
append_pso-injective (some a) none fa fb h =
    absurd (sized_not_nil (append_sized (append_entry (append_sized append_u64))) a h)
append_pso-injective (some a) (some b) fa fb h =
    ap some (pso_buffers-splits a b [] [] fa fb (append-nil _ ∙ h ∙ sym (append-nil _))).0

-- Every number and every size that is encoded is a 64-bit word.
pub record FitsBehavior (b : Behavior) : Type 0 where
  pub pcs : FitsAll IsWord b.pcs
  pub started : FitsAll Anything b.started
  pub owners : FitsAll (FitsEntry IsWord) b.owners
  pub rwlocks : FitsAll (FitsEntry FitsRwLock) b.rwlocks
  pub permits : FitsAll (FitsEntry IsWord) b.permits
  pub barriers : FitsAll (FitsEntry FitsBarrier) b.barriers
  pub waiters : FitsAll (FitsEntry (FitsAll IsWord)) b.waiters
  pub registers : FitsAll FitsRegisters b.registers
  pub phases : FitsAll IsWord b.phases
  pub cells : FitsAll (FitsEntry IsWord) b.cells
  pub buffers : FitsAll (FitsAll (FitsEntry IsWord)) b.buffers
  pub pso_buffers : FitsPso b.pso_buffers

append_behavior-injective :
    (b c : Behavior)
    → FitsBehavior b
    → FitsBehavior c
    → append_behavior b ≡ append_behavior c
    → b ≡ c
unfolding append_behavior
append_behavior-injective b c fb fc h =
    let (e0, h0) = model_code-splits b.model c.model _ _ tt tt h in
    let (e1, h1) = words-splits b.pcs c.pcs _ _ fb.pcs fc.pcs h0 in
    let (e2, h2) =
      append_sized-splits append_flag Anything append_flag-splits b.started c.started _ _ fb.started
        fc.started h1 in
    let (e3, h3) = IsWord-entries-splits b.owners c.owners _ _ fb.owners fc.owners h2 in
    let (e4, h4) =
      entries-splits append_rwlock FitsRwLock append_rwlock-splits b.rwlocks c.rwlocks _ _
        fb.rwlocks fc.rwlocks h3 in
    let (e5, h5) = IsWord-entries-splits b.permits c.permits _ _ fb.permits fc.permits h4 in
    let (e6, h6) =
      entries-splits append_barrier FitsBarrier append_barrier-splits b.barriers c.barriers _ _
        fb.barriers fc.barriers h5 in
    let (e7, h7) =
      entries-splits (append_sized append_u64) (FitsAll IsWord) words-splits b.waiters c.waiters _ _
        fb.waiters fc.waiters h6 in
    let (e8, h8) =
      append_sized-splits append_registers FitsRegisters append_registers-splits b.registers
        c.registers _ _ fb.registers fc.registers h7 in
    let (e9, h9) = words-splits b.phases c.phases _ _ fb.phases fc.phases h8 in
    let (e10, h10) = IsWord-entries-splits b.cells c.cells _ _ fb.cells fc.cells h9 in
    let (e11, h11) =
      append_sized-splits (append_sized (append_entry append_u64)) (FitsAll (FitsEntry IsWord))
        IsWord-entries-splits b.buffers c.buffers _ _ fb.buffers fc.buffers h10 in
    let last = append_pso-injective b.pso_buffers c.pso_buffers fb.pso_buffers fc.pso_buffers h11 in
    λ i. record {
      model = e0 i;
      pcs = e1 i;
      started = e2 i;
      owners = e3 i;
      rwlocks = e4 i;
      permits = e5 i;
      barriers = e6 i;
      waiters = e7 i;
      registers = e8 i;
      phases = e9 i;
      cells = e10 i;
      buffers = e11 i;
      pso_buffers = last i;
    }

bytes_cancel : (xs : List ℕ) (r s : List ℕ) → xs ++ r ≡ xs ++ s → r ≡ s
bytes_cancel [] r s h = h
bytes_cancel (x ∷ xs) r s h = bytes_cancel xs r s (ap tail h)

-- Two states have one fingerprint exactly if they agree in all that it encodes (the memory model,
-- program counters, started threads, owners, held rwlocks, permits, barrier arrivals, wait sets,
-- registers, wait phases, nonzero cells and store buffers), as far as each number and size of it is
-- a 64-bit word.
pub fingerprint_exact :
    (program : Program) (s t : ExecutionState)
    → FitsBehavior (behavior program s)
    → FitsBehavior (behavior program t)
    → (behavioral_state_fingerprint program s ≡ behavioral_state_fingerprint program t)
      ↔ (behavior program s ≡ behavior program t)
unfolding behavioral_state_fingerprint
fingerprint_exact program s t fs ft = (
  λ h.
      append_behavior-injective _ _ fs ft
        (bytes_cancel (append_string "dpor-behavioral-state-v1") _ _ h),
  λ e. ap (λ b. append_string "dpor-behavioral-state-v1" ++ append_behavior b) e,
)
