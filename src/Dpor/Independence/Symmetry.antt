-- ===== src/Dpor/Independence/Symmetry.antt =====
-- What the relations of independence promise: which transition comes first does not matter.
use dpor_concurrency_model_c.Common.{
  ℕ, ltb, length, ◌+◌, Bool, true, false, List, [], ◌∷◌, Option, none, some, String, ◌≡◌, refl, ap,
  arith, eqb, not, ◌&&◌, ◌||◌, option_eq, list_eq, if◌then◌else◌,
}
use dpor_concurrency_model_c.Common.Order.{◌==◌, name_ord}
use dpor_concurrency_model_c.Action.{Action, ActionKind, Program}
use dpor_concurrency_model_c.Action.Symmetry.{beq_comm, independent_comm}
use dpor_concurrency_model_c.State.{MemoryModel, BarrierState}
use dpor_concurrency_model_c.Dpor.{
  is_kind, DporNode, TimedWaitOccurrence, WaitEpisodeIdentity, TransitionOccurrenceIdentity,
  timed_wait_eq, episode_eq, occurrence_eq,
}
use dpor_concurrency_model_c.Dpor.Independence.{
  sibling_flushes, joins_independent, read_locks_commute, readers_commute, private_write,
  transitions_independent,
}
use dpor_concurrency_model_c.Dpor.Independence.AtNode.{
  Side, owned_by_third, same_mutex_try_locks_independent_at_node, arrivals_commute,
  same_barrier_arrivals_independent_at_node, transitions_independent_at_node,
  barrier_arrival_releases_parked_thread,
}

eqb_comm : (m n : ℕ) → eqb m n ≡ eqb n m
eqb_comm m n = ground arith

sibling_flushes_comm : (l r : Action) → sibling_flushes l r ≡ sibling_flushes r l
unfolding sibling_flushes
sibling_flushes_comm l r = ground (arith, beq_comm l.address r.address)

joins_independent_comm :
    (p : Program) (s t : ℕ) (l r : Action)
    → joins_independent p s l t r ≡ joins_independent p t r s l
unfolding joins_independent
joins_independent_comm p s t l r = ground arith

read_locks_commute_comm :
    (p : Program) (l r : Action) → read_locks_commute p l r ≡ read_locks_commute p r l
unfolding read_locks_commute
read_locks_commute_comm p l r =
    grind (arith, name_ord.beq_iff l.rwlock r.rwlock, name_ord.beq_iff r.rwlock l.rwlock)

readers_commute_comm : (p : Program) (l r : Action) → readers_commute p l r ≡ readers_commute p r l
unfolding readers_commute
readers_commute_comm p l r =
    grind (arith, name_ord.beq_iff l.rwlock r.rwlock, name_ord.beq_iff r.rwlock l.rwlock)

private_write_comm : (m : MemoryModel) (l r : Action) → private_write m l r ≡ private_write m r l
unfolding private_write
private_write_comm m l r = ground arith

pub transitions_independent_comm :
    (p : Program) (m : MemoryModel) (s t : ℕ) (l r : Action)
    → transitions_independent p m s l t r ≡ transitions_independent p m t r s l
unfolding transitions_independent
transitions_independent_comm p m s t l r = ground (
  arith,
  eqb_comm s t,
  sibling_flushes_comm l r,
  joins_independent_comm p s t l r,
  read_locks_commute_comm p l r,
  readers_commute_comm p l r,
  private_write_comm m l r,
  independent_comm l r,
)

option_eq_comm :
    {A : Type 0} (eq : A → A → Bool)
    → ((a b : A) → eq a b ≡ eq b a)
    → (o q : Option A) → option_eq eq o q ≡ option_eq eq q o
option_eq_comm eq comm none none = refl
option_eq_comm eq comm none (some b) = refl
option_eq_comm eq comm (some a) none = refl
option_eq_comm eq comm (some a) (some b) = comm a b

list_eq_comm :
    {A : Type 0} (eq : A → A → Bool)
    → ((a b : A) → eq a b ≡ eq b a)
    → (xs ys : List A) → list_eq eq xs ys ≡ list_eq eq ys xs
list_eq_comm eq comm [] [] = refl
list_eq_comm eq comm [] (y ∷ ys) = refl
list_eq_comm eq comm (x ∷ xs) [] = refl
list_eq_comm eq comm (x ∷ xs) (y ∷ ys) = ground (arith, comm x y, list_eq_comm eq comm xs ys)

timed_wait_eq_comm : (a b : TimedWaitOccurrence) → timed_wait_eq a b ≡ timed_wait_eq b a
unfolding timed_wait_eq
timed_wait_eq_comm a b = ground arith

episode_eq_comm : (a b : WaitEpisodeIdentity) → episode_eq a b ≡ episode_eq b a
unfolding episode_eq
episode_eq_comm a b = ground arith

occurrence_eq_comm : (a b : TransitionOccurrenceIdentity) → occurrence_eq a b ≡ occurrence_eq b a
unfolding occurrence_eq
occurrence_eq_comm a b = ground (
  arith,
  option_eq_comm eqb eqb_comm a.barrier_generation b.barrier_generation,
  option_eq_comm timed_wait_eq timed_wait_eq_comm a.timed_wait_occurrence b.timed_wait_occurrence,
  option_eq_comm (list_eq episode_eq) (list_eq_comm episode_eq episode_eq_comm) a.wake_targets
      b.wake_targets,
)

-- Equal occurrences are those of one generation.
same_generation :
    (a b : TransitionOccurrenceIdentity) (generation : ℕ)
    → occurrence_eq a b ≡ true
    → option_eq eqb a.barrier_generation (some generation)
      ≡ option_eq eqb b.barrier_generation (some generation)
unfolding occurrence_eq
same_generation a b generation h = ground arith

same_parties : (m n k : ℕ) → eqb m k ≡ true → eqb n k ≡ true → eqb m 0 ≡ eqb n 0
same_parties m n k h e = ground arith

refusal_comm :
    (zl zr pl pr o o' gl gr ml mr al ar : Bool)
    → (pl ≡ true → pr ≡ true → zl ≡ zr)
    → o ≡ o'
    → (o ≡ true → gl ≡ gr)
    → (zl || not pl || not pr || not o || not gl || not ml || not mr || al || ar)
      ≡ (zr || not pr || not pl || not o' || not gr || not mr || not ml || ar || al)
refusal_comm zl zr pl pr o o' gl gr ml mr al ar z h g = ground arith

arrivals_commute_comm :
    (node : DporNode) (l r : Side) (barrier : BarrierState)
    → arrivals_commute node l r barrier ≡ arrivals_commute node r l barrier
unfolding arrivals_commute
arrivals_commute_comm node l r barrier =
    ap (λ refused. if refused then false else ltb (length barrier.arrivals + 2) barrier.parties)
      (refusal_comm (eqb l.action.parties 0) (eqb r.action.parties 0) _ _ _ _ _ _ _ _ _ _
        (same_parties l.action.parties r.action.parties barrier.parties)
        (occurrence_eq_comm l.occurrence r.occurrence)
        (same_generation l.occurrence r.occurrence barrier.generation))

same_barrier_comm :
    (node : DporNode) (l r : Side)
    → (l.action.barrier == r.action.barrier) ≡ true
    → same_barrier_arrivals_independent_at_node node l r
      ≡ same_barrier_arrivals_independent_at_node node r l
unfolding same_barrier_arrivals_independent_at_node
same_barrier_comm node l r same =
    grind
      (arith, name_ord.beq_iff l.action.barrier r.action.barrier, arrivals_commute_comm node l r)

owned_by_third_comm :
    (node : DporNode) (l r : Side)
    → (l.action.mutex == r.action.mutex) ≡ true
    → owned_by_third node l r ≡ owned_by_third node r l
unfolding owned_by_third
owned_by_third_comm node l r same = grind (arith, name_ord.beq_iff l.action.mutex r.action.mutex)

same_mutex_comm :
    (node : DporNode) (l r : Side)
    → (l.action.mutex == r.action.mutex) ≡ true
    → same_mutex_try_locks_independent_at_node node l r
      ≡ same_mutex_try_locks_independent_at_node node r l
unfolding same_mutex_try_locks_independent_at_node
same_mutex_comm node l r same = ground (
  arith,
  same,
  eqb_comm l.thread r.thread,
  beq_comm l.action.mutex r.action.mutex,
  ap (λ (u : String). u == "") ((name_ord.beq_iff l.action.mutex r.action.mutex).0 same),
  owned_by_third_comm node l r same,
)

verdict_comm :
    (tl tr m m' bl br b b' x x' y y' rl rr z z' : Bool)
    → m ≡ m'
    → b ≡ b'
    → (m ≡ true → x ≡ x')
    → (b ≡ true → y ≡ y')
    → z ≡ z'
    → (if tl && tr && m then x else if bl && br && b then y else if rl || rr then false else z) ≡ (
        if tr && tl && m'
        then x'
        else if br && bl && b'
        then y'
        else if rr || rl
        then false
        else z')
verdict_comm tl tr m m' bl br b b' x x' y y' rl rr z z' hm hb hx hy hz = ground arith

-- Independence at a node does not depend on which of the two transitions is named first.
pub transitions_independent_at_node_comm :
    (p : Program) (m : MemoryModel) (node : DporNode) (l r : Side)
    → transitions_independent_at_node p m node l r ≡ transitions_independent_at_node p m node r l
unfolding transitions_independent_at_node
transitions_independent_at_node_comm p m node l r =
    verdict_comm (is_kind l.action.kind ActionKind.try_lock)
      (is_kind r.action.kind ActionKind.try_lock) _ _
      (is_kind l.action.kind ActionKind.barrier_wait)
      (is_kind r.action.kind ActionKind.barrier_wait) _ _ _ _ _ _
      (barrier_arrival_releases_parked_thread node l r.thread)
      (barrier_arrival_releases_parked_thread node r l.thread) _ _
      (beq_comm l.action.mutex r.action.mutex) (beq_comm l.action.barrier r.action.barrier)
      (same_mutex_comm node l r) (same_barrier_comm node l r)
      (transitions_independent_comm p m l.thread r.thread l.action r.action)
