-- ===== src/State/Labels.antt =====
-- src/model/checker.cpp: the label-skipping loop of `normalize_pc`.
use dpor_concurrency_model_c.Common.{
  ℕ, zero, suc, ◌+◌, ◌≤◌, ◌<◌, true, false, List, [], ◌∷◌, none, ◌≡◌, refl, arith, length,
  get_elem?,
}
use dpor_concurrency_model_c.Action.{Action, Program}
use dpor_concurrency_model_c.State.{thread_at}
use dpor_concurrency_model_c.State.Threads.{is_label_at, is_label_action, skip_labels, normalized}

get_elem?-past_end {ℓ} : {A : Type ℓ} (xs : List A) (i : ℕ) → length xs ≤ i → get_elem? xs i ≡ none
get_elem?-past_end [] i h = refl
get_elem?-past_end (x ∷ xs) zero h = absurd (omega arith)
get_elem?-past_end (x ∷ xs) (suc i) h = get_elem?-past_end xs i (omega arith)

not_label_past_end :
    (thread : List Action) (pc : ℕ) → length thread ≤ pc → is_label_at thread pc ≡ false
unfolding is_label_at
not_label_past_end thread pc h = ground (arith, get_elem?-past_end thread pc h)

-- With fuel for the rest of the thread the loop ends at an index that is no label.
skip_labels-stops :
    (fuel : ℕ) (thread : List Action) (pc : ℕ)
    → length thread < fuel + pc
    → is_label_at thread (skip_labels fuel thread pc) ≡ false
unfolding skip_labels
skip_labels-stops zero thread pc h = not_label_past_end thread pc (omega arith)
skip_labels-stops (suc fuel) thread pc h = ground (arith, skip_labels-stops fuel thread (suc pc))

-- All that the loop passes over is labels, and it never goes back.
skip_labels-skips :
    (fuel : ℕ) (thread : List Action) (pc i : ℕ)
    → pc ≤ i
    → i < skip_labels fuel thread pc
    → is_label_at thread i ≡ true
unfolding skip_labels
skip_labels-skips zero thread pc i le lt = absurd (omega arith)
skip_labels-skips (suc fuel) thread pc i le lt =
    ground (arith, skip_labels-skips fuel thread (suc pc) i)

skip_labels-le : (fuel : ℕ) (thread : List Action) (pc : ℕ) → pc ≤ skip_labels fuel thread pc
unfolding skip_labels
skip_labels-le zero thread pc = omega arith
skip_labels-le (suc fuel) thread pc = ground (arith, skip_labels-le fuel thread (suc pc))

-- The program counter that the label loop gives is at or behind the given one, it does not stand on
-- a label, and every index that it passes over does.
pub normalized-first_action :
    (program : Program) (tid pc : ℕ)
    → (pc ≤ normalized program tid pc)
      × (is_label_action program tid (normalized program tid pc) ≡ false)
      × ((i : ℕ) → pc ≤ i → i < normalized program tid pc → is_label_action program tid i ≡ true)
unfolding normalized is_label_action
normalized-first_action program tid pc =
    let thread : List Action = thread_at program tid in
    (
      skip_labels-le (suc (length thread)) thread pc,
      skip_labels-stops (suc (length thread)) thread pc (omega arith),
      skip_labels-skips (suc (length thread)) thread pc,
    )
