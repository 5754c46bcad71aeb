-- ===== src/Common/OrdMap.antt =====
-- `std::map`: an association list in key order. A lookup finds the first entry of a key, so the
-- laws in `if` form hold of every list; sortedness is needed only where all entries are read.
use mathlib.Core.Path.{◌≡◌, refl}
use mathlib.Core.Bool.{true}
use mathlib.Core.Option.{Option, none, some}
use mathlib.Core.List.{List, [], ◌∷◌}
use native.Mathlib.Omega.{arith}
use dpor_concurrency_model_c.Common.Base.{if◌then◌else◌, All}
use dpor_concurrency_model_c.Common.Order.{Ord, ◌==◌}

abbrev pub OrdMap {ℓ κ} : Type ℓ → Type κ → Type (ℓ ⊔ κ)
OrdMap K V = List (K × V)

module _ {ℓ κ} {K : Type ℓ} {V : Type κ} ⦃o : Ord K⦄ where
  -- `m.find(k)`
  unfoldable pub lookup : K → OrdMap K V → Option V
  lookup k [] = none
  lookup k ((j, v) ∷ m) = if j == k then some v else lookup k m

  -- `m[k] = v`
  unfoldable pub insert : K → V → OrdMap K V → OrdMap K V
  insert k v [] = (k, v) ∷ []
  insert k v ((j, w) ∷ m) =
      if j == k then (k, v) ∷ m else if o.lt k j then (k, v) ∷ (j, w) ∷ m else (j, w) ∷ insert k v m

  -- `m.erase(k)`
  unfoldable pub erase : K → OrdMap K V → OrdMap K V
  erase k [] = []
  erase k ((j, w) ∷ m) = if j == k then erase k m else (j, w) ∷ erase k m

  -- `m.emplace(k, v)`: an entry that is there stays.
  unfoldable pub emplace : K → V → OrdMap K V → OrdMap K V
  unfolding lookup insert
  emplace k v m = elim (lookup k m) [ none ↦ insert k v m | some w ↦ m ]

  pub lookup-insert :
      (stored wanted : K) (v : V) (entries : OrdMap K V)
      → lookup wanted (insert stored v entries)
        ≡ (if stored == wanted then some v else lookup wanted entries)
  unfolding lookup insert
  lookup-insert stored wanted v [] = refl
  lookup-insert stored wanted v ((here, w) ∷ entries) = ground (
    arith,
    o.beq_iff stored wanted,
    o.beq_iff here stored,
    o.beq_iff here wanted,
    lookup-insert stored wanted v entries,
  )

  pub lookup-erase :
      (gone wanted : K) (entries : OrdMap K V)
      → lookup wanted (erase gone entries)
        ≡ (if gone == wanted then none else lookup wanted entries)
  unfolding lookup erase
  lookup-erase gone wanted [] = ground arith
  lookup-erase gone wanted ((here, w) ∷ entries) = ground (
    arith,
    o.beq_iff gone wanted,
    o.beq_iff here gone,
    o.beq_iff here wanted,
    lookup-erase gone wanted entries,
  )

  -- Every key of the list is above `k`.
  abbrev pub Above : K → OrdMap K V → Type 0
  Above k = All (λ e. o.lt k (e.0) ≡ true)

  abbrev pub IsSorted : OrdMap K V → Type 0
  IsSorted [] = Unit
  IsSorted ((k, v) ∷ m) = Above k m × IsSorted m
