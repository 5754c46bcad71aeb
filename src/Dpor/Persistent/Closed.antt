-- ===== src/Dpor/Persistent/Closed.antt =====
-- src/model/checker.cpp: what `initialize_dpor_backtrack` ends with.
use dpor_concurrency_model_c.Common.{
  ℕ, zero, suc, ◌<◌, Bool, true, false, List, [], ◌∷◌, Option, none, some, ◌≡◌, ◌⊎◌, inl, inr, refl,
  sym, subst, ap, ◌∙◌, arith, not, ◌||◌, All, length, has_value, is_empty, find, Bool-cases,
  Option-cases,
}
use dpor_concurrency_model_c.Common.OrdMap.{lookup}
use dpor_concurrency_model_c.Common.Result.{Result, ok}
use dpor_concurrency_model_c.Action.{Program, ScheduleStep, step_eq}
use dpor_concurrency_model_c.Action.StepOrder.{step_ord, step_eq_iff}
use dpor_concurrency_model_c.State.{ExecutionState}
use dpor_concurrency_model_c.Dpor.{DporNode}
use dpor_concurrency_model_c.Dpor.StepSet.{
  contains_step, insert_step, holds, IsAscending, contains_step-holds, IsAscending-insert_step,
  holds-insert_step,
}
use dpor_concurrency_model_c.Dpor.Enablers.Heads.{All-insert_step, IsWithin, IsWithin-refl}
use dpor_concurrency_model_c.Dpor.Persistent.{
  must_keep, side_of, transition_at, keeps_beside, keeps_beside_any, consider, consider_all,
  grow_backtrack, initialize_dpor_backtrack,
}
use dpor_concurrency_model_c.Dpor.Persistent.Missing.{missing, missing_less, missing-length}

module _ (program : Program) (s : ExecutionState) (node : DporNode) where
  -- `enabled_transitions` has an entry for the step.
  abbrev pub HasEntry : ScheduleStep → Type 0
  HasEntry step = has_value (lookup step node.enabled_transitions) ≡ true

  -- The candidate is in the set, or sleeps, or commutes with every step of the set.
  abbrev pub IsCovered : List ScheduleStep → ScheduleStep → Type 0
  IsCovered backtrack candidate =
      ((contains_step backtrack candidate || contains_step node.sleep candidate) ≡ true)
      ⊎ All (λ selected. keeps_beside program s node candidate selected ≡ ok false) backtrack

  transition_at-HasEntry :
      (step : ScheduleStep) → HasEntry step → (t : _) × (transition_at node step ≡ ok t)
  unfolding transition_at
  transition_at-HasEntry step h = elim (Option-cases (lookup step node.enabled_transitions)) [
    | inl e ↦ cc
    | inr (t, e) ↦ (t, rw e refl)
  ]

  keeps_beside-total :
      (candidate selected : ScheduleStep)
      → HasEntry candidate
      → HasEntry selected
      → (keeps_beside program s node candidate selected ≡ ok true)
        ⊎ (keeps_beside program s node candidate selected ≡ ok false)
  unfolding keeps_beside
  keeps_beside-total candidate selected h k =
      let (a, e) = transition_at-HasEntry candidate h in
      let (b, f) = transition_at-HasEntry selected k in
      elim (Bool-cases (must_keep program s node (side_of candidate a) (side_of selected b))) [
        | inl g ↦ inl (rw (e, f, g) refl)
        | inr g ↦ inr (rw (e, f, g) refl)
      ]

  keeps_beside_any-total :
      (candidate : ScheduleStep) (backtrack : List ScheduleStep)
      → HasEntry candidate
      → All HasEntry backtrack
      → (keeps_beside_any program s node candidate backtrack ≡ ok true)
        ⊎ ((keeps_beside_any program s node candidate backtrack ≡ ok false)
            × All (λ selected. keeps_beside program s node candidate selected ≡ ok false) backtrack)
  unfolding keeps_beside_any
  keeps_beside_any-total candidate [] h all = inr (refl, tt)
  keeps_beside_any-total candidate (selected ∷ rest) h (k, all) =
      elim (keeps_beside-total candidate selected h k) [
        | inl e ↦ inl (rw e refl)
        | inr e ↦ elim (keeps_beside_any-total candidate rest h all) [
          | inl f ↦ inl (rw (e, f) refl)
          | inr (f, apart) ↦ inr (rw (e, f) refl, (e, apart))
        ]
      ]

  -- What a round of the loop leaves: nothing new, and every candidate covered, or something new.
  data Round (candidates b : List ScheduleStep) : List ScheduleStep → Bool → Type 0 where
    quiet : All (IsCovered b) candidates → Round candidates b b false
    grew :
        {c : List ScheduleStep} (new : ScheduleStep)
        → holds candidates new ≡ true
        → holds b new ≡ false
        → holds c new ≡ true
        → Round candidates b c true

  -- The sets that the loop goes through: ascending, of enabled steps that have an entry.
  abbrev IsChoice : List ScheduleStep → Type 0
  IsChoice b = IsAscending b × (All HasEntry b × IsWithin node.enabled b)

  IsLarger : List ScheduleStep → List ScheduleStep → Type 0
  IsLarger b c = (step : ScheduleStep) → holds b step ≡ true → holds c step ≡ true

  IsChoice-insert_step :
      (b : List ScheduleStep) (step : ScheduleStep)
      → IsChoice b
      → HasEntry step
      → holds node.enabled step ≡ true
      → IsChoice (insert_step b step)
  IsChoice-insert_step b step (a, (e, w)) h k = (
    IsAscending-insert_step b step a,
    (All-insert_step HasEntry b step e h, All-insert_step _ b step w k),
  )

  IsLarger-insert_step :
      (b : List ScheduleStep) (step : ScheduleStep) → IsLarger b (insert_step b step)
  unfolding IsLarger
  IsLarger-insert_step b step other h = rw (holds-insert_step b step other) (ground (arith, h))

  -- One candidate: it is covered already, or it is added.
  data Considered (candidate : ScheduleStep) (b : List ScheduleStep)
      : List ScheduleStep → Bool → Type 0 where
    passed : IsCovered b candidate → Considered candidate b b false
    added :
        contains_step b candidate ≡ false → Considered candidate b (insert_step b candidate) true

  consider-total :
      (candidate : ScheduleStep) (b : List ScheduleStep) (changed : Bool)
      → HasEntry candidate
      → IsChoice b
      → (c : List ScheduleStep) × (now : Bool) × Considered candidate b c now
        × (consider program s node candidate (b, changed) ≡ ok (c, now || changed))
  unfolding consider
  consider-total candidate b changed h (a, (e, w)) =
      elim (Bool-cases (contains_step b candidate || contains_step node.sleep candidate)) [
        | inl there ↦ (b, false, passed (inl there), rw there refl)
        | inr fresh ↦ elim (keeps_beside_any-total candidate b h e) [
          | inl kept ↦
              (insert_step b candidate, true, added (ground (arith, fresh)), rw (fresh, kept) refl)
          | inr (k, apart) ↦ (b, false, passed (inr apart), rw (fresh, k) refl)
        ]
      ]

  Round-later :
      (candidate : ScheduleStep) {cs b c : List ScheduleStep} {now : Bool}
      → IsCovered b candidate
      → Round cs b c now
      → Round (candidate ∷ cs) b c now
  Round-later candidate covered (quiet all) = quiet (covered, all)
  Round-later candidate covered (grew new inside before after) =
      grew new (ground (arith, inside)) before after

  abbrev RoundOutcome :
      List ScheduleStep → List ScheduleStep → Bool → Result (List ScheduleStep × Bool) → Type 0
  RoundOutcome candidates b changed r =
      (c : List ScheduleStep) × (now : Bool) × IsChoice c
      × IsLarger b c
      × Round candidates b c now
      × (r ≡ ok (c, now || changed))

  consider-RoundOutcome :
      (candidate : ScheduleStep) (cs b : List ScheduleStep) (changed : Bool)
      → HasEntry candidate
      → holds node.enabled candidate ≡ true
      → IsChoice b
      → ((c : List ScheduleStep) (flag : Bool)
          → IsChoice c
          → RoundOutcome cs c flag (consider_all program s node cs (c, flag)))
      → {b' : List ScheduleStep} {first : Bool} → Considered candidate b b' first
      → RoundOutcome
          (candidate ∷ cs)
          b
          changed
          (consider_all program s node cs (b', first || changed))
  unfolding IsLarger
  consider-RoundOutcome candidate cs b changed h k choice rest (passed covered) =
      let (c, now, chosen, more, round, f) = rest b changed choice in
      (c, now, chosen, more, Round-later candidate covered round, f)
  consider-RoundOutcome candidate cs b changed h k choice rest (added fresh) =
      let bigger = IsLarger-insert_step b candidate in
      let (c, now, chosen, more, round, f) =
        rest (insert_step b candidate) true (IsChoice-insert_step b candidate choice h k) in
      (
        c,
        true,
        chosen,
        (λ step there. more step (bigger step there)),
        grew candidate (ground (arith, step_eq_iff candidate candidate))
            (sym (contains_step-holds b candidate choice.0) ∙ fresh)
            (more candidate (
              holds-insert_step b candidate candidate
              ∙ ground (arith, step_eq_iff candidate candidate))),
        f ∙ ap (λ flag. ok (c, flag)) (ground arith),
      )

  consider_all-RoundOutcome :
      (candidates b : List ScheduleStep) (changed : Bool)
      → All HasEntry candidates
      → IsWithin node.enabled candidates
      → IsChoice b
      → RoundOutcome candidates b changed (consider_all program s node candidates (b, changed))
  unfolding consider_all IsLarger
  consider_all-RoundOutcome [] b changed all within choice =
      (b, false, choice, λ step h. h, quiet tt, refl)
  consider_all-RoundOutcome (candidate ∷ cs) b changed (h, all) (k, within) choice =
      let (b', first, considered, e) = consider-total candidate b changed h choice in
      let (c, now, chosen, more, round, f) =
        consider-RoundOutcome candidate cs b changed h k choice
          (λ c flag chosen. consider_all-RoundOutcome cs c flag all within chosen) considered in
      (c, now, chosen, more, round, rw e f)

  -- The loop ends, with a set of enabled steps that covers every enabled step.
  abbrev pub Grown : List ScheduleStep → Result (List ScheduleStep) → Type 0
  Grown b r =
      (c : List ScheduleStep) × (r ≡ ok c)
      × IsAscending c
      × IsWithin node.enabled c
      × ((step : ScheduleStep) → holds b step ≡ true → holds c step ≡ true)
      × All (IsCovered c) node.enabled

  grow_backtrack-Grown :
      (fuel : ℕ) (b : List ScheduleStep)
      → All HasEntry node.enabled
      → IsChoice b
      → missing b node.enabled < fuel
      → Grown b (grow_backtrack fuel program s node b)
  unfolding grow_backtrack IsLarger
  grow_backtrack-Grown zero b all choice enough = absurd (omega (arith, enough))
  grow_backtrack-Grown (suc fuel) b all choice enough =
      let (c, now, chosen, more, round, e) =
        consider_all-RoundOutcome node.enabled b false all (IsWithin-refl node.enabled) choice in
      onward c now chosen more round e
        (λ less. grow_backtrack-Grown fuel c all chosen (omega (arith, less, enough)))
    where
      onward :
          (c : List ScheduleStep) (now : Bool)
          → IsChoice c
          → ((step : ScheduleStep) → holds b step ≡ true → holds c step ≡ true)
          → Round node.enabled b c now
          → consider_all program s node node.enabled (b, false) ≡ ok (c, now || false)
          → (missing c node.enabled < missing b node.enabled
              → Grown c (grow_backtrack fuel program s node c))
          → Grown b (grow_backtrack (suc fuel) program s node b)
      onward c _ chosen more (quiet covered) e again =
          (c, rw (e, grow_backtrack) refl, chosen.0, (chosen.1).1, more, covered)
      onward c _ chosen more (grew new inside before after) e again =
          let (d, f, asc, within, larger, covered) =
            again (missing_less b c node.enabled new more inside before after) in
          (d, rw (e, grow_backtrack) f, asc, within, (λ step h. larger step (more step h)), covered)

  -- The first enabled step that does not sleep.
  abbrev pub first_awake : Option ScheduleStep
  first_awake = find (λ step. not (contains_step node.sleep step)) node.enabled

  find-holds :
      (test : ScheduleStep → Bool) (steps : List ScheduleStep) (step : ScheduleStep)
      → find test steps ≡ some step
      → holds steps step ≡ true
  find-holds test [] step h = cc
  find-holds test (x ∷ steps) step h = grind (arith, step_eq_iff step x, find-holds test steps step)

  All-holds :
      (P : ScheduleStep → Type 0) (steps : List ScheduleStep) (step : ScheduleStep)
      → All P steps
      → holds steps step ≡ true
      → P step
  All-holds P [] step all h = cc
  All-holds P (x ∷ steps) step (here, all) h = elim (Bool-cases (step_eq step x)) [
    | inl same ↦ subst P (sym ((step_eq_iff step x).0 same)) here
    | inr other ↦ All-holds P steps step all (ground (arith, h, other))
  ]

  none_awake :
      (steps : List ScheduleStep)
      → find (λ step. not (contains_step node.sleep step)) steps ≡ none
      → All (λ step. contains_step node.sleep step ≡ true) steps
  none_awake [] h = tt
  none_awake (x ∷ steps) h = elim (Bool-cases (contains_step node.sleep x)) [
    | inl asleep ↦ (asleep, none_awake steps (rw asleep at h))
    | inr awake ↦ absurd (cc (rw awake at h))
  ]

  -- What the initial set is: empty if every enabled step sleeps, or else a set of enabled steps
  -- with the first that is awake, which covers every enabled step.
  abbrev pub IsInitial : List ScheduleStep → Type 0
  IsInitial c =
      ((c ≡ []) × All (λ step. contains_step node.sleep step ≡ true) node.enabled)
      ⊎ ((first : ScheduleStep) × (first_awake ≡ some first)
          × (holds c first ≡ true)
          × IsAscending c
          × IsWithin node.enabled c
          × All (IsCovered c) node.enabled)

  from_first :
      (first : ScheduleStep)
      → All HasEntry node.enabled
      → first_awake ≡ some first
      → (c : List ScheduleStep) × (grow_backtrack
            (suc (length node.enabled))
            program
            s
            node
            (insert_step [] first)
          ≡ ok c)
        × IsInitial c
  unfolding insert_step
  from_first first all awake =
      let inside =
        find-holds (λ step. not (contains_step node.sleep step)) node.enabled first awake in
      let choice : IsChoice (first ∷ []) =
        ((tt, tt), ((All-holds HasEntry node.enabled first all inside, tt), (inside, tt))) in
      let (c, e, asc, within, larger, covered) =
        grow_backtrack-Grown (suc (length node.enabled)) (first ∷ []) all choice
          (omega (arith, missing-length (first ∷ []) node.enabled)) in
      (
        c,
        e,
        inr (
          first,
          awake,
          larger first (ground (arith, step_eq_iff first first)),
          asc,
          within,
          covered,
        ),
      )

empty_All : {A : Type 0} (P : A → Type 0) (xs : List A) → is_empty xs ≡ true → All P xs
empty_All P [] h = tt
empty_All P (x ∷ xs) h = absurd (cc h)

-- The loop of `initialize_dpor_backtrack` ends on a node that has no set yet and an entry for every
-- enabled step. The set becomes empty if every enabled step sleeps; or else it is an ascending set
-- of enabled steps with the first that is awake, and every enabled step is in it, sleeps, or is
-- not to be kept beside any step of it.
pub initialize_dpor_backtrack-IsInitial :
    (program : Program) (s : ExecutionState) (node : DporNode)
    → All (HasEntry program s node) node.enabled
    → (c : List ScheduleStep) × (initialize_dpor_backtrack program s
          (record node { backtrack = [] })
        ≡ ok (record node { backtrack = c }))
      × IsInitial program s (record node { backtrack = [] }) c
unfolding initialize_dpor_backtrack
initialize_dpor_backtrack-IsInitial program s node all =
    let fresh : DporNode = record node { backtrack = [] } in
    elim (Bool-cases (is_empty node.enabled)) [
      | inl nothing ↦ ([], rw nothing refl, inl (refl, empty_All _ node.enabled nothing))
      | inr something ↦ elim (Option-cases (first_awake program s fresh)) [
        | inl asleep ↦ (
          [],
          rw (something, asleep) refl,
          inl (refl, none_awake program s fresh node.enabled asleep),
        )
        | inr (first, awake) ↦
            let (c, e, initial) = from_first program s fresh first all awake in
            (c, rw (something, awake, e) refl, initial)
      ]
    ]
