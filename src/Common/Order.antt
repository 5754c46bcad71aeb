-- ===== src/Common/Order.antt =====
-- Keys of ordered containers: an equality test and the strict order that `std::map` and `std::set`
-- sort by, for thread ids, for pairs of numbers and for names.
use Prim.Native.Char.{code}
use Prim.Native.Nat.{ℕ}
use Prim.Native.String.{String}
use mathlib.Core.Path.{◌≡◌, refl, subst}
use mathlib.Core.Logic.{◌↔◌}
use mathlib.Core.Bool.{Bool, true, false, ◌&&◌, ◌||◌}
use mathlib.Core.List.{List, [], ◌∷◌}
use native.Mathlib.Omega.{arith}
use text.Mathlib.Text.{◌==◌ as str_eq}
use text.Mathlib.TextEquality.{eq_iff}
use dpor_concurrency_model_c.Common.Base.{ltb, eqb, eqb_iff}

pub record Ord {ℓ} (K : Type ℓ) : Type ℓ where
  pub beq : K → K → Bool
  pub lt : K → K → Bool
  pub beq_iff : (a b : K) → (beq a b ≡ true) ↔ (a ≡ b)
  pub lt_irrefl : (a : K) → lt a a ≡ false
  pub lt_trans : (a b c : K) → lt a b ≡ true → lt b c ≡ true → lt a c ≡ true

infix 50 ◌==◌
abbrev pub ◌==◌ {ℓ} : {K : Type ℓ} ⦃o : Ord K⦄ → K → K → Bool
◌==◌ ⦃o⦄ = o.beq

pub ltb_irrefl : (a : ℕ) → ltb a a ≡ false
ltb_irrefl a = ground arith

pub ltb_trans : (a b c : ℕ) → ltb a b ≡ true → ltb b c ≡ true → ltb a c ≡ true
ltb_trans a b c p q = ground arith

instance abbrev pub nat_ord : Ord ℕ
nat_ord = record {
  beq = eqb;
  lt = ltb;
  beq_iff = eqb_iff;
  lt_irrefl = ltb_irrefl;
  lt_trans = ltb_trans;
}

abbrev pair_eq : ℕ × ℕ → ℕ × ℕ → Bool
pair_eq (a, b) (c, d) = eqb a c && eqb b d

abbrev pair_lt : ℕ × ℕ → ℕ × ℕ → Bool
pair_lt (a, b) (c, d) = ltb a c || (eqb a c && ltb b d)

pub pair_eq_iff : (p q : ℕ × ℕ) → (pair_eq p q ≡ true) ↔ (p ≡ q)
pair_eq_iff (a, b) (c, d) = ground arith

pub pair_lt_irrefl : (p : ℕ × ℕ) → pair_lt p p ≡ false
pair_lt_irrefl (a, b) = ground arith

pub pair_lt_trans : (p q r : ℕ × ℕ) → pair_lt p q ≡ true → pair_lt q r ≡ true → pair_lt p r ≡ true
pair_lt_trans (a, b) (c, d) (e, f) h k = ground arith

instance abbrev pub pair_ord : Ord (ℕ × ℕ)
pair_ord = record {
  beq = pair_eq;
  lt = pair_lt;
  beq_iff = pair_eq_iff;
  lt_irrefl = pair_lt_irrefl;
  lt_trans = pair_lt_trans;
}

-- A std::string is a String whose characters stand for its bytes: these are their numbers.
unfoldable pub codes : String → List ℕ
codes String.[] = []
codes (String.◌∷◌ c s) = code c ∷ codes s

lex : List ℕ → List ℕ → Bool
lex a [] = false
lex [] (y ∷ ys) = true
lex (x ∷ xs) (y ∷ ys) = ltb x y || (eqb x y && lex xs ys)

lex_irrefl : (a : List ℕ) → lex a a ≡ false
unfolding lex
lex_irrefl [] = refl
lex_irrefl (x ∷ xs) = ground (arith, lex_irrefl xs)

lex_trans : (a b c : List ℕ) → lex a b ≡ true → lex b c ≡ true → lex a c ≡ true
unfolding lex
lex_trans a [] c h k = ground arith
lex_trans a (y ∷ ys) [] h k = ground arith
lex_trans [] (y ∷ ys) (z ∷ zs) h k = refl
lex_trans (x ∷ xs) (y ∷ ys) (z ∷ zs) h k = ground (arith, lex_trans xs ys zs)

list_eq : List ℕ → List ℕ → Bool
list_eq [] [] = true
list_eq (x ∷ xs) (y ∷ ys) = eqb x y && list_eq xs ys
list_eq _ _ = false

list_eq→eq : (a b : List ℕ) → list_eq a b ≡ true → a ≡ b
unfolding list_eq
list_eq→eq [] [] h = refl
list_eq→eq [] (y ∷ ys) h = cc
list_eq→eq (x ∷ xs) [] h = cc
list_eq→eq (x ∷ xs) (y ∷ ys) h = ground (arith, list_eq→eq xs ys)

list_eq_refl : (a : List ℕ) → list_eq a a ≡ true
unfolding list_eq
list_eq_refl [] = refl
list_eq_refl (x ∷ xs) = ground (arith, list_eq_refl xs)

unfoldable pub bytes_eq : List ℕ → List ℕ → Bool
unfolding list_eq
bytes_eq a b = list_eq a b

unfoldable pub bytes_lt : List ℕ → List ℕ → Bool
unfolding lex
bytes_lt a b = lex a b

pub bytes_eq_iff : (a b : List ℕ) → (bytes_eq a b ≡ true) ↔ (a ≡ b)
unfolding bytes_eq
bytes_eq_iff a b =
    (list_eq→eq a b, λ e. subst (λ (c : List ℕ). list_eq a c ≡ true) e (list_eq_refl a))

pub bytes_lt_irrefl : (a : List ℕ) → bytes_lt a a ≡ false
unfolding bytes_lt
bytes_lt_irrefl = lex_irrefl

pub bytes_lt_trans :
    (a b c : List ℕ) → bytes_lt a b ≡ true → bytes_lt b c ≡ true → bytes_lt a c ≡ true
unfolding bytes_lt
bytes_lt_trans = lex_trans

-- Fingerprints, which are byte strings.
instance abbrev pub bytes_ord : Ord (List ℕ)
bytes_ord = record {
  beq = bytes_eq;
  lt = bytes_lt;
  beq_iff = bytes_eq_iff;
  lt_irrefl = bytes_lt_irrefl;
  lt_trans = bytes_lt_trans;
}

unfoldable pub name_lt : String → String → Bool
unfolding codes lex
name_lt s t = lex (codes s) (codes t)

pub name_lt_irrefl : (s : String) → name_lt s s ≡ false
unfolding name_lt
name_lt_irrefl s = lex_irrefl (codes s)

pub name_lt_trans : (s t u : String) → name_lt s t ≡ true → name_lt t u ≡ true → name_lt s u ≡ true
unfolding name_lt
name_lt_trans s t u = lex_trans (codes s) (codes t) (codes u)

instance abbrev pub name_ord : Ord String
name_ord = record {
  beq = str_eq;
  lt = name_lt;
  beq_iff = eq_iff;
  lt_irrefl = name_lt_irrefl;
  lt_trans = name_lt_trans;
}
