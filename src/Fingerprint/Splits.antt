-- ===== src/Fingerprint/Splits.antt =====
-- src/model/checker.cpp: each part of a fingerprint can be read back: two encodings with something
-- behind them are equal only if the encoded values and the rests are.
use dpor_concurrency_model_c.Common.{
  ℕ, zero, suc, ◌/◌, ◌^◌, ◌<◌, Bool, true, false, List, [], ◌∷◌, ◌++◌, Option, none, some, String,
  length, ◌≡◌, refl, ap, ap₂, sym, ◌∙◌, arith, All,
}
use mathlib.Core.List.{append_assoc}
use Prim.Native.Nat.{compare, Ordering}
use Prim.Native.Char.{code}
use native.Mathlib.Nat.{pow-suc}
use text.Mathlib.TextEquality.{codes_equal}
use dpor_concurrency_model_c.Common.Order.{codes}
use dpor_concurrency_model_c.Fingerprint.{
  low_bytes, append_u64, append_string, append_each, append_sized, append_flag, append_optional,
  append_entry, append_rwlock, append_barrier,
}

-- Reading back, for the values that `Fits` admits.
abbrev pub Splits {ℓ κ} : {A : Type ℓ} → (A → List ℕ) → (A → Type κ) → Type (ℓ ⊔ κ)
Splits {A} append Fits =
    (a b : A) (r s : List ℕ) → Fits a → Fits b → append a ++ r ≡ append b ++ s → (a ≡ b) × (r ≡ s)

abbrev pub IsWord : ℕ → Type 0
IsWord v = v < 2 ^ 64

cons-injective {ℓ} : {A : Type ℓ} {x y : A} {xs ys : List A} → x ∷ xs ≡ y ∷ ys → (x ≡ y) × (xs ≡ ys)
cons-injective e = (cc, cc)

low_bytes-splits :
    (n a b : ℕ) (r s : List ℕ)
    → a < 256 ^ n
    → b < 256 ^ n
    → low_bytes n a ++ r ≡ low_bytes n b ++ s
    → (a ≡ b) × (r ≡ s)
unfolding low_bytes
low_bytes-splits zero a b r s ha hb h = (omega arith, h)
low_bytes-splits (suc n) a b r s ha hb h =
    let (head, rest) = cons-injective h in
    let (quotient, last) =
      low_bytes-splits n (a / 256) (b / 256) r s (omega (arith, pow-suc 256 n))
        (omega (arith, pow-suc 256 n)) rest in
    (omega arith, last)

pub append_u64-splits : Splits append_u64 IsWord
unfolding append_u64
append_u64-splits a b r s ha hb h = low_bytes-splits 8 a b r s ha hb h

abbrev pub FitsAll {ℓ κ} : {A : Type ℓ} → (A → Type κ) → List A → Type κ
FitsAll Fits xs = IsWord (length xs) × All Fits xs

module _ {ℓ κ} {A : Type ℓ} (append : A → List ℕ) (Fits : A → Type κ)
    (splits : Splits append Fits) where
  -- Lists of one length are read back with no size before them.
  pub append_each-splits :
      (xs ys : List A) (r s : List ℕ)
      → length xs ≡ length ys
      → All Fits xs
      → All Fits ys
      → append_each append xs ++ r ≡ append_each append ys ++ s
      → (xs ≡ ys) × (r ≡ s)
  unfolding append_each
  append_each-splits [] [] r s e hx hy h = (refl, h)
  append_each-splits [] (y ∷ ys) r s e hx hy h = absurd (omega arith)
  append_each-splits (x ∷ xs) [] r s e hx hy h = absurd (omega arith)
  append_each-splits (x ∷ xs) (y ∷ ys) r s e hx hy h =
      let (head, tail) =
        splits x y (append_each append xs ++ r) (append_each append ys ++ s) hx.0 hy.0 (
          sym (append_assoc (append x) (append_each append xs) r)
          ∙ h
          ∙ append_assoc (append y) (append_each append ys) s) in
      let (rest, last) = append_each-splits xs ys r s (omega arith) hx.1 hy.1 tail in (cc, last)

  pub append_sized-splits : Splits (append_sized append) (FitsAll Fits)
  unfolding append_sized
  append_sized-splits xs ys r s hx hy h =
      let (size, body) =
        append_u64-splits (length xs) (length ys) (append_each append xs ++ r)
          (append_each append ys ++ s) hx.0 hy.0
          (sym (append_assoc (append_u64 (length xs)) (append_each append xs) r)
            ∙ h
            ∙ append_assoc (append_u64 (length ys)) (append_each append ys) s) in
      append_each-splits xs ys r s size hx.1 hy.1 body

-- Two parts in a row.
module _ {ℓ κ ℓ' κ'} {A : Type ℓ} {B : Type ℓ'} (f : A → List ℕ) (g : B → List ℕ)
    {FitsA : A → Type κ} {FitsB : B → Type κ'} where
  pub pair-splits :
      Splits f FitsA
      → Splits g FitsB
      → Splits {A = A × B} (λ p. f p.0 ++ g p.1) (λ p. FitsA p.0 × FitsB p.1)
  pair-splits sf sg (a, b) (a', b') r s (fa, fb) (fa', fb') h =
      let (first, rest) =
        sf a a' (g b ++ r) (g b' ++ s) fa fa'
          (sym (append_assoc (f a) (g b) r) ∙ h ∙ append_assoc (f a') (g b') s) in
      let (second, last) = sg b b' r s fb fb' rest in (ap₂ (λ x y. (x, y)) first second, last)

compare-eq : (m n : ℕ) → m ≡ n → compare m n ≡ Ordering.eq
compare-eq m n e = ground arith

-- The characters of a name determine it.
pub codes-injective : (s t : String) → codes s ≡ codes t → s ≡ t
unfolding codes
codes-injective String.[] String.[] h = refl
codes-injective String.[] (String.◌∷◌ d t) h = cc
codes-injective (String.◌∷◌ c s) String.[] h = cc
codes-injective (String.◌∷◌ c s) (String.◌∷◌ d t) h =
    let (head, rest) = cons-injective h in
    let same : c ≡ d = codes_equal c d (compare-eq (code c) (code d) head) in
    let names : s ≡ t = codes-injective s t rest in λ i. String.◌∷◌ (same i) (names i)

codes_body-splits :
    (xs ys r s : List ℕ) → length xs ≡ length ys → xs ++ r ≡ ys ++ s → (xs ≡ ys) × (r ≡ s)
codes_body-splits [] [] r s e h = (refl, h)
codes_body-splits [] (y ∷ ys) r s e h = absurd (omega arith)
codes_body-splits (x ∷ xs) [] r s e h = absurd (omega arith)
codes_body-splits (x ∷ xs) (y ∷ ys) r s e h =
    let (head, tail) = cons-injective h in
    let (rest, last) = codes_body-splits xs ys r s (omega arith) tail in (cc, last)

abbrev pub FitsName : String → Type 0
FitsName name = IsWord (length (codes name))

pub append_string-splits : Splits append_string FitsName
unfolding append_string
append_string-splits a b r s ha hb h =
    let (size, body) =
      append_u64-splits (length (codes a)) (length (codes b)) (codes a ++ r) (codes b ++ s) ha hb (
        sym (append_assoc (append_u64 (length (codes a))) (codes a) r)
        ∙ h
        ∙ append_assoc (append_u64 (length (codes b))) (codes b) s) in
    let (name, rest) = codes_body-splits (codes a) (codes b) r s size body in
    (codes-injective a b name, rest)

pub append_entry-splits {ℓ κ} :
    {V : Type ℓ} (append : V → List ℕ) (Fits : V → Type κ)
    → Splits append Fits
    → Splits (append_entry append) (λ e. FitsName (e.0) × Fits (e.1))
unfolding append_entry
append_entry-splits append Fits splits (a, v) (b, w) r s ha hb h =
    pair-splits append_string append append_string-splits splits (a, v) (b, w) r s ha hb h

abbrev pub Anything {ℓ} : {A : Type ℓ} → A → Type 0
Anything a = Unit

pub append_flag-splits : Splits append_flag Anything
unfolding append_flag
append_flag-splits true true r s ha hb h =
    (refl, (append_u64-splits 1 1 r s (omega arith) (omega arith) h).1)
append_flag-splits false false r s ha hb h =
    (refl, (append_u64-splits 0 0 r s (omega arith) (omega arith) h).1)
append_flag-splits true false r s ha hb h =
    absurd (omega (arith, (append_u64-splits 1 0 r s (omega arith) (omega arith) h).0))
append_flag-splits false true r s ha hb h =
    absurd (omega (arith, (append_u64-splits 0 1 r s (omega arith) (omega arith) h).0))

abbrev pub FitsOption : Option ℕ → Type 0
FitsOption none = Unit
FitsOption (some v) = IsWord v

pub append_optional-splits : Splits append_optional FitsOption
unfolding append_optional
append_optional-splits none none r s ha hb h =
    (refl, (append_flag-splits false false r s tt tt h).1)
append_optional-splits none (some b) r s ha hb h =
    let flags =
      append_flag-splits false true r (append_u64 b ++ s) tt tt
        (h ∙ append_assoc (append_flag true) (append_u64 b) s) in
    cc (flags.0)
append_optional-splits (some a) none r s ha hb h =
    let flags =
      append_flag-splits true false (append_u64 a ++ r) s tt tt
        (sym (append_assoc (append_flag true) (append_u64 a) r) ∙ h) in
    cc (flags.0)
append_optional-splits (some a) (some b) r s ha hb h =
    let (pair, rest) =
      pair-splits append_flag append_u64 append_flag-splits append_u64-splits (true, a) (true, b) r
        s (tt, ha) (tt, hb) h in
    (ap (λ (p : Bool × ℕ). some (p.1)) pair, rest)

pub append_rwlock-splits : Splits append_rwlock (λ p. FitsOption (p.0) × FitsAll IsWord (p.1))
unfolding append_rwlock
append_rwlock-splits (a, as') (b, bs) =
    pair-splits append_optional (append_sized append_u64) append_optional-splits
      (append_sized-splits append_u64 IsWord append_u64-splits) (a, as') (b, bs)

pub append_barrier-splits : Splits append_barrier (λ p. IsWord (p.0) × FitsAll IsWord (p.1))
unfolding append_barrier
append_barrier-splits (a, as') (b, bs) =
    pair-splits append_u64 (append_sized append_u64) append_u64-splits
      (append_sized-splits append_u64 IsWord append_u64-splits) (a, as') (b, bs)
