-- ===== src/Clock/Laws.antt =====
-- The order of vector clocks: what tick and join do to each component, and what
-- `happens_before_or_equal` decides.
use dpor_concurrency_model_c.Common.{
  ℕ, ◌+◌, ◌%◌, ◌^◌, max, true, [], ◌∷◌, if◌then◌else◌, ◌≡◌, refl, ◌↔◌, ◌≤◌, ◌<◌, arith, eqb,
}
use dpor_concurrency_model_c.Common.Order.{nat_ord}
use dpor_concurrency_model_c.Common.OrdMap.{lookup, insert, lookup-insert, IsSorted, Above}
use dpor_concurrency_model_c.Clock.{VectorClock, get, tick, join, happens_before_or_equal}

-- Pointwise order: every component of the first is at most that of the second.
abbrev pub ◌⊑◌ : VectorClock → VectorClock → Type 0
◌⊑◌ c d = (t : ℕ) → get c t ≤ get d t

pub get-insert :
    (t u v : ℕ) (c : VectorClock) → get (insert t v c) u ≡ (if eqb t u then v else get c u)
unfolding get
get-insert t u v c = rw (lookup-insert t u v c) (ground arith)

-- Only the own component moves, by one, unless it wraps.
pub get-tick :
    (c : VectorClock) (t u : ℕ)
    → get (tick c t) u ≡ (if eqb t u then (get c t + 1) % 2 ^ 64 else get c u)
unfolding tick
get-tick c t u = get-insert t u _ c

-- The keys of a list that are above its head are not the head.
get-Above : (k t : ℕ) (m : VectorClock) → Above k m → t ≤ k → get m t ≡ 0
unfolding get lookup
get-Above k t [] h le = refl
get-Above k t ((j, v) ∷ m) h le = ground (arith, get-Above k t m h.1)

get-cons : (k v t : ℕ) (m : VectorClock) → get ((k, v) ∷ m) t ≡ (if eqb k t then v else get m t)
unfolding get lookup
get-cons k v t m = ground arith

pub get-join : (c d : VectorClock) (t : ℕ) → IsSorted d → get (join c d) t ≡ max (get c t) (get d t)
unfolding join
get-join c [] t s = unfold get lookup in omega arith
get-join c ((k, v) ∷ d) t s = ground (
  arith,
  get-join (insert k (max (get c k) v) c) d t s.1,
  get-insert k t (max (get c k) v) c,
  get-cons k v t d,
  get-Above k t d s.0,
)

Above-insert : (k t v : ℕ) (m : VectorClock) → k < t → Above k m → Above k (insert t v m)
unfolding insert
Above-insert k t v [] lt a = ground arith
Above-insert k t v ((j, w) ∷ m) lt a = ground (arith, Above-insert k t v m lt a.1)

Above-mono : (k t : ℕ) (m : VectorClock) → k < t → Above t m → Above k m
Above-mono k t [] lt a = tt
Above-mono k t ((j, w) ∷ m) lt a = (ground arith, Above-mono k t m lt a.1)

pub insert-IsSorted : (t v : ℕ) (m : VectorClock) → IsSorted m → IsSorted (insert t v m)
unfolding insert
insert-IsSorted t v [] s = ground arith
insert-IsSorted t v ((j, w) ∷ m) s =
    ground (arith, insert-IsSorted t v m s.1, Above-insert j t v m, Above-mono t j m)

pub tick-IsSorted : (c : VectorClock) (t : ℕ) → IsSorted c → IsSorted (tick c t)
unfolding tick
tick-IsSorted c t s = insert-IsSorted t _ c s

pub join-IsSorted : (c d : VectorClock) → IsSorted c → IsSorted (join c d)
unfolding join
join-IsSorted c [] s = s
join-IsSorted c ((k, v) ∷ d) s =
    join-IsSorted (insert k (max (get c k) v) c) d (insert-IsSorted k _ c s)

hb→⊑ : (c d : VectorClock) (t : ℕ) → happens_before_or_equal c d ≡ true → get c t ≤ get d t
unfolding happens_before_or_equal
hb→⊑ [] d t h = unfold get lookup in omega arith
hb→⊑ ((k, v) ∷ c) d t h = ground (arith, hb→⊑ c d t, get-cons k v t c)

⊑→hb : (c d : VectorClock) → IsSorted c → ◌⊑◌ c d → happens_before_or_equal c d ≡ true
unfolding happens_before_or_equal
⊑→hb [] d s h = refl
⊑→hb ((k, v) ∷ c) d s h = ground (
  arith,
  h k,
  get-cons k v k c,
  ⊑→hb c d s.1 (λ t. ground (arith, h t, get-cons k v t c, get-Above k t c s.0)),
)

-- For a clock with its components in order, the test holds exactly if each component of the first
-- clock is at most that of the second.
pub happens_before_iff :
    (c d : VectorClock) → IsSorted c → (happens_before_or_equal c d ≡ true) ↔ ◌⊑◌ c d
happens_before_iff c d s = (λ h t. hb→⊑ c d t h, ⊑→hb c d s)

-- For clocks with their components in order, the join is below a third clock exactly if both of the
-- joined clocks are.
pub join_least :
    (a b c : VectorClock)
    → IsSorted a
    → IsSorted b
    → (happens_before_or_equal (join a b) c ≡ true)
      ↔ ((happens_before_or_equal a c ≡ true) × (happens_before_or_equal b c ≡ true))
join_least a b c sa sb = (
  λ h. (
    ⊑→hb a c sa (λ t. omega (arith, get-join a b t sb, hb→⊑ (join a b) c t h)),
    ⊑→hb b c sb (λ t. omega (arith, get-join a b t sb, hb→⊑ (join a b) c t h)),
  ),
  λ h.
      ⊑→hb (join a b) c (join-IsSorted a b sa)
        (λ t. omega (arith, get-join a b t sb, hb→⊑ a c t h.0, hb→⊑ b c t h.1)),
)
