-- ===== src/Construct/Kinds.antt =====
-- src/model/checker.cpp: which programs the constructor of ModelChecker accepts.
use dpor_concurrency_model_c.Common.{
  ℕ, true, false, Bool-cases, inl, inr, subst, sym, ◌∙◌, List, [], ◌∷◌, String, ◌≡◌, ◌≢◌, ◌↔◌, refl,
  arith, All,
}
use dpor_concurrency_model_c.Common.Order.{name_ord, ◌==◌}
use dpor_concurrency_model_c.Construct.Objects.{Object, names_of, is_named, is_named-names_of}
use dpor_concurrency_model_c.Common.OrdSet.{contains}
use dpor_concurrency_model_c.Common.Result.{Result, ok, throw, ◌>>=◌}
use dpor_concurrency_model_c.Action.{Program}
use dpor_concurrency_model_c.Construct.{
  Names, no_names, program_names, Others, clash, refuse_clashes, check_names, construct,
}

-- No name of the first list is in the second.
abbrev pub Disjoint : List String → List String → Type 0
Disjoint names others = All (λ name. contains name others ≡ false) names

-- The names of each kind are kept apart, except that a condition variable may share its name with
-- a mutex, an rwlock or a semaphore.
pub record KindsApart (n : Names) : Type 0 where
  pub mutex_rwlock : Disjoint n.mutexes n.rwlocks
  pub semaphore_mutex : Disjoint n.semaphores n.mutexes
  pub semaphore_rwlock : Disjoint n.semaphores n.rwlocks
  pub barrier_mutex : Disjoint n.barriers n.mutexes
  pub barrier_rwlock : Disjoint n.barriers n.rwlocks
  pub barrier_semaphore : Disjoint n.barriers n.semaphores
  pub barrier_condition : Disjoint n.barriers n.conditions

then_ok : (m k : Result (Unit {0})) → ((m >>= λ _. k) ≡ ok tt) ↔ ((m ≡ ok tt) × (k ≡ ok tt))
then_ok (ok tt) k = (λ h. (refl, h), λ (e, f). f)
then_ok (throw e) k = (λ h. cc, λ (e, f). cc)

abbrev Apart : Others → String → Type 0
Apart others name = All (λ o. contains name (o.0) ≡ false) others

clash-ok : (name : String) (others : Others) → (clash name others ≡ ok tt) ↔ Apart others name
unfolding clash
clash-ok name [] = (λ h. tt, λ h. refl)
clash-ok name ((names, reason) ∷ rest) =
    let (to, from) = clash-ok name rest in
    (λ h. (ground arith, to (ground arith)), λ (e, es). ground (arith, e, from es))

refuse_clashes-ok :
    (names : List String) (others : Others)
    → (refuse_clashes names others ≡ ok tt) ↔ All (Apart others) names
unfolding refuse_clashes
refuse_clashes-ok [] others = (λ h. tt, λ h. refl)
refuse_clashes-ok (name ∷ names) others =
    let (to, from) = refuse_clashes-ok names others in
    let (split, join_up) = then_ok (clash name others) (refuse_clashes names others) in
    let (first, back) = clash-ok name others in
    (λ h. (first ((split h).0), to ((split h).1)), λ (e, es). join_up (back e, from es))

All-map {ℓ κ μ} :
    {A : Type ℓ} {P : A → Type κ} {Q : A → Type μ} (xs : List A)
    → ((x : A) → P x → Q x)
    → All P xs
    → All Q xs
All-map [] f h = tt
All-map (x ∷ xs) f (p, ps) = (f x p, All-map xs f ps)

All-both {ℓ κ μ} :
    {A : Type ℓ} (P : A → Type κ) (Q : A → Type μ) (xs : List A)
    → All P xs
    → All Q xs
    → All (λ x. P x × Q x) xs
All-both P Q [] f g = tt
All-both P Q (x ∷ xs) (p, ps) (q, qs) = ((p, q), All-both P Q xs ps qs)

check_names-KindsApart : (n : Names) → (check_names n ≡ ok tt) ↔ KindsApart n
unfolding check_names
check_names-KindsApart n =
    let mutexes = refuse_clashes-ok n.mutexes _ in
    let semaphores = refuse_clashes-ok n.semaphores _ in
    let barriers = refuse_clashes-ok n.barriers _ in
    (
      λ h.
          let (first, later) = (then_ok _ _).0 h in
          let (second, third) = (then_ok _ _).0 later in
          let ms = mutexes.0 first in
          let ss = semaphores.0 second in
          let bs = barriers.0 third in
          record {
            mutex_rwlock = All-map n.mutexes (λ x a. a.0) ms;
            semaphore_mutex = All-map n.semaphores (λ x a. a.0) ss;
            semaphore_rwlock = All-map n.semaphores (λ x a. a.1.0) ss;
            barrier_mutex = All-map n.barriers (λ x a. a.0) bs;
            barrier_rwlock = All-map n.barriers (λ x a. a.1.0) bs;
            barrier_semaphore = All-map n.barriers (λ x a. a.1.1.0) bs;
            barrier_condition = All-map n.barriers (λ x a. a.1.1.1.0) bs;
          },
      λ k. (then_ok _ _).1 (
        mutexes.1 (All-map n.mutexes (λ x a. (a, tt)) k.mutex_rwlock),
        (then_ok _ _).1 (
          semaphores.1 (
              All-both _ _ n.semaphores k.semaphore_mutex
                (All-map n.semaphores (λ x a. (a, tt)) k.semaphore_rwlock)),
          barriers.1 (
              All-both _ _ n.barriers k.barrier_mutex (
                All-both _ _ n.barriers k.barrier_rwlock (
                  All-both _ _ n.barriers k.barrier_semaphore
                    (All-map n.barriers (λ x a. (a, tt)) k.barrier_condition)))),
        ),
      ),
    )

-- A name that is in the first list is not in the second.
Disjoint-apart :
    (names others : List String)
    → Disjoint names others
    → (name : String) → contains name names ≡ true
    → contains name others ≡ false
unfolding contains
Disjoint-apart [] others apart name here = absurd (cc here)
Disjoint-apart (first ∷ names) others (free, apart) name here = elim (Bool-cases (first == name)) [
  | inl same ↦ subst (λ n. contains n others ≡ false) ((name_ord.beq_iff first name).0 same) free
  | inr other ↦ Disjoint-apart names others apart name (rw other at here)
]

apart-Disjoint :
    (names others : List String)
    → ((name : String) → contains name names ≡ true → contains name others ≡ false)
    → Disjoint names others
unfolding contains
apart-Disjoint [] others apart = tt
apart-Disjoint (first ∷ names) others apart =
    let same : (first == first) ≡ true = (name_ord.beq_iff first first).1 refl in
    (
      apart first (ground (arith, same)),
      apart-Disjoint names others (λ name here. apart name (ground (arith, here))),
    )

-- No name stands for an object of the first and one of the second kind.
abbrev pub Separate : Program → Object → Object → Type 0
Separate program object other =
    (name : String) → is_named object name program ≡ true → is_named other name program ≡ false

-- A condition variable may share its name with a mutex, an rwlock or a semaphore; no other two kinds
-- of object may share one.
pub record ObjectsApart (program : Program) : Type 0 where
  pub mutex_rwlock : Separate program Object.mutex Object.rwlock
  pub semaphore_mutex : Separate program Object.semaphore Object.mutex
  pub semaphore_rwlock : Separate program Object.semaphore Object.rwlock
  pub barrier_mutex : Separate program Object.barrier Object.mutex
  pub barrier_rwlock : Separate program Object.barrier Object.rwlock
  pub barrier_semaphore : Separate program Object.barrier Object.semaphore
  pub barrier_condition : Separate program Object.barrier Object.condition

abbrev collected : Program → Object → List String
collected program object = names_of object (program_names program.threads no_names)

Disjoint-Separate :
    (program : Program) (object other : Object)
    → Disjoint (collected program object) (collected program other) ↔ Separate program object other
Disjoint-Separate program object other = (
  λ apart name here.
      sym (is_named-names_of other program name)
      ∙ Disjoint-apart (collected program object) (collected program other) apart name
          (is_named-names_of object program name ∙ here),
  λ separate. apart-Disjoint (collected program object) (collected program other) (λ name here.
      is_named-names_of other program name
      ∙ separate name (sym (is_named-names_of object program name) ∙ here)),
)

KindsApart-ObjectsApart :
    (program : Program) → KindsApart (program_names program.threads no_names) ↔ ObjectsApart program
KindsApart-ObjectsApart program = (
  λ k. record {
    mutex_rwlock = (Disjoint-Separate program Object.mutex Object.rwlock).0 k.mutex_rwlock;
    semaphore_mutex = (Disjoint-Separate program Object.semaphore Object.mutex).0 k.semaphore_mutex;
    semaphore_rwlock =
        (Disjoint-Separate program Object.semaphore Object.rwlock).0 k.semaphore_rwlock;
    barrier_mutex = (Disjoint-Separate program Object.barrier Object.mutex).0 k.barrier_mutex;
    barrier_rwlock = (Disjoint-Separate program Object.barrier Object.rwlock).0 k.barrier_rwlock;
    barrier_semaphore =
        (Disjoint-Separate program Object.barrier Object.semaphore).0 k.barrier_semaphore;
    barrier_condition =
        (Disjoint-Separate program Object.barrier Object.condition).0 k.barrier_condition;
  },
  λ k. record {
    mutex_rwlock = (Disjoint-Separate program Object.mutex Object.rwlock).1 k.mutex_rwlock;
    semaphore_mutex = (Disjoint-Separate program Object.semaphore Object.mutex).1 k.semaphore_mutex;
    semaphore_rwlock =
        (Disjoint-Separate program Object.semaphore Object.rwlock).1 k.semaphore_rwlock;
    barrier_mutex = (Disjoint-Separate program Object.barrier Object.mutex).1 k.barrier_mutex;
    barrier_rwlock = (Disjoint-Separate program Object.barrier Object.rwlock).1 k.barrier_rwlock;
    barrier_semaphore =
        (Disjoint-Separate program Object.barrier Object.semaphore).1 k.barrier_semaphore;
    barrier_condition =
        (Disjoint-Separate program Object.barrier Object.condition).1 k.barrier_condition;
  },
)

-- The constructor returns exactly if the step bound is not zero and no two actions of the program
-- work on objects of one name, one on a mutex and one on an rwlock, or one on a semaphore and one
-- on either of these, or one on a barrier and one on any other kind of object.
pub construct-ObjectsApart :
    (program : Program) (step_bound : ℕ)
    → (construct program step_bound ≡ ok tt) ↔ ((step_bound ≢ 0) × ObjectsApart program)
unfolding construct
construct-ObjectsApart program step_bound =
    let (to, from) = check_names-KindsApart (program_names program.threads no_names) in
    let (apart, back) = KindsApart-ObjectsApart program in
    (
      λ h. (λ e. absurd (ground arith), apart (to (ground arith))),
      λ (n, k). ground (arith, n, from (back k)),
    )
