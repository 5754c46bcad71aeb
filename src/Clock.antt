-- ===== src/Clock.antt =====
-- include/model/vector_clock.hpp and src/model/vector_clock.cpp: class VectorClock. Its one field
-- `clock_` is the ordered map below; components are uint64_t and wrap at 2 ^ 64.
pub mod Laws
use dpor_concurrency_model_c.Common.{
  ℕ, suc, ◌+◌, ◌%◌, ◌^◌, max, Bool, true, false, List, [], ◌∷◌, Option, none, some, ltb, value_or,
  if◌then◌else◌,
}
use dpor_concurrency_model_c.Common.Order.{nat_ord}
use dpor_concurrency_model_c.Common.OrdMap.{OrdMap, lookup, insert}

abbrev pub VectorClock : Type 0
VectorClock = OrdMap ℕ ℕ

-- `VectorClock{}`
abbrev pub empty : VectorClock
empty = []

unfoldable pub get : VectorClock → ℕ → ℕ
unfolding lookup
get c tid = value_or (lookup tid c) 0

unfoldable pub tick : VectorClock → ℕ → VectorClock
unfolding get insert
tick c tid = insert tid ((get c tid + 1) % 2 ^ 64) c

unfoldable pub join : VectorClock → VectorClock → VectorClock
unfolding get insert
join c [] = c
join c ((tid, value) ∷ other) = join (insert tid (max (get c tid) value) c) other

unfoldable pub happens_before_or_equal : VectorClock → VectorClock → Bool
unfolding get
happens_before_or_equal [] other = true
happens_before_or_equal ((tid, value) ∷ c) other =
    if ltb (get other tid) value then false else happens_before_or_equal c other
