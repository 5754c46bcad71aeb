-- ===== src/Dpor/Search/Listed.antt =====
-- src/model/checker.cpp: the nodes of the trace, by the choices that each of them offers.
use dpor_concurrency_model_c.Common.{
  ℕ, suc, List, [], ◌∷◌, ◌++◌, Option, none, some, ◌≡◌, refl, sym, ap, ◌∙◌, if-rule, not, ◌||◌,
  is_empty, length, get_elem?, pop_back, Option-cases, inl, inr, find, value_or,
}
use dpor_concurrency_model_c.Common.Result.{ok, throw, ◌>>=◌, or_out_of_range, IfOk, IfOk-then}
use dpor_concurrency_model_c.Action.{Program, ScheduleStep}
use dpor_concurrency_model_c.State.{ExecutionState}
use dpor_concurrency_model_c.Replay.{}
use dpor_concurrency_model_c.Dpor.{DporNode}
use dpor_concurrency_model_c.Dpor.StepSet.{contains_step, insert_step}
use dpor_concurrency_model_c.Dpor.Persistent.{initialize_dpor_backtrack, grow_backtrack}
use dpor_concurrency_model_c.Dpor.Backtrack.{}
use dpor_concurrency_model_c.Dpor.Search.{}
use dpor_concurrency_model_c.Dpor.Search.Frame.{choices, length-choices, get_elem?-choices}
use dpor_concurrency_model_c.Dpor.Search.Kept.{}

pub listed_at :
    (nodes : List DporNode) (base : List (List ScheduleStep)) (depth : ℕ) (node : DporNode)
    {steps : List ScheduleStep}
    → or_out_of_range (get_elem? nodes depth) ≡ ok node
    → choices nodes ≡ base
    → get_elem? base depth ≡ some steps
    → node.enabled ≡ steps
listed_at nodes base depth node found same top = elim (Option-cases (get_elem? nodes depth)) [
  | inl none_there ↦ absurd (cc (rw none_there at found))
  | inr (n, there) ↦
      let seen : get_elem? (choices nodes) depth ≡ some n.enabled =
        get_elem?-choices nodes depth there in
      let this : n ≡ node = ap (λ r. elim r [ ok m ↦ m | throw e ↦ n ]) (rw there at found) in
      ap (λ (o : Option (List ScheduleStep)). value_or o [])
        (ap (λ (m : DporNode). some m.enabled) (sym this)
          ∙ sym seen
          ∙ ap (λ b. get_elem? b depth) same
          ∙ top)
]

pub pop_back-append : {A : Type 0} (xs : List A) (x : A) → pop_back (xs ++ x ∷ []) ≡ xs
pop_back-append [] x = refl
pop_back-append (y ∷ []) x = refl
pop_back-append (y ∷ z ∷ xs) x = ap (λ rest. y ∷ rest) (pop_back-append (z ∷ xs) x)

pub get_elem?-append :
    {A : Type 0} (xs : List A) (x : A) → get_elem? (xs ++ x ∷ []) (length xs) ≡ some x
get_elem?-append [] x = refl
get_elem?-append (y ∷ xs) x = get_elem?-append xs x

-- The node that is pushed stands at the depth.
pub top_of :
    (nodes : List DporNode) (base : List (List ScheduleStep)) (steps : List ScheduleStep)
    → choices nodes ≡ base
    → get_elem? (base ++ steps ∷ []) (length nodes) ≡ some steps
top_of nodes base steps same =
    ap (get_elem? (base ++ steps ∷ [])) (sym (length-choices nodes) ∙ ap length same)
    ∙ get_elem?-append base steps

-- Only the backtrack set of the node is set.
pub initialize-enabled :
    (program : Program) (s : ExecutionState) (node : DporNode)
    → IfOk
        (λ (ready : DporNode). ready.enabled ≡ node.enabled)
        (initialize_dpor_backtrack program s node)
unfolding initialize_dpor_backtrack
initialize-enabled program s node =
    if-rule (IfOk (λ (ready : DporNode). ready.enabled ≡ node.enabled))
      (not (is_empty node.backtrack) || is_empty node.enabled) {x = ok node} (λ _. refl)
      (λ _.
        elim (find (λ step. not (contains_step node.sleep step)) node.enabled)
          as (λ found.
            IfOk (λ (ready : DporNode). ready.enabled ≡ node.enabled)
              (elim found [
                | none ↦ ok node
                | some first_awake ↦
                    grow_backtrack (suc (length node.enabled)) program s node
                      (insert_step node.backtrack first_awake)
                    >>= λ backtrack. ok (record node { backtrack = backtrack })
              ])) [
                | none ↦ refl
                | some first_awake ↦
                    IfOk-then (λ (ready : DporNode). ready.enabled ≡ node.enabled)
                      (grow_backtrack (suc (length node.enabled)) program s node
                        (insert_step node.backtrack first_awake))
                      _ (λ backtrack _. refl)
              ])
