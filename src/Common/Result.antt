-- ===== src/Common/Result.antt =====
-- Code that may throw: the exceptions of the interpreter and a monad for `do` blocks.
use Prim.Native.Nat.{ℕ}
use Prim.Native.String.{String}
use mathlib.Core.Path.{◌≡◌, refl, subst}
use mathlib.Core.Option.{Option, none, some}
use mathlib.Core.List.{List}

-- What a std::ostringstream receives, piece by piece; printing the decimals is not modelled.
pub data Piece : Type 0 where
  text : String → Piece
  number : ℕ → Piece

abbrev pub Message : Type 0
Message = List Piece

pub data Exception : Type 0 where
  logic_error : String → Exception
  overflow_error : String → Exception
  out_of_range : Exception
  invalid_argument : Message → Exception
  invalid_schedule : ℕ → Message → Exception
  -- No exception of the program: the model has used up its fuel.
  out_of_fuel : Exception

pub data Result {ℓ} (A : Type ℓ) : Type ℓ where
  ok : A → Result A
  throw : Exception → Result A

infixl 5 ◌>>=◌
abbrev pub ◌>>=◌ {ℓ κ} : {A : Type ℓ} {B : Type κ} → Result A → (A → Result B) → Result B
ok a >>= f = f a
throw e >>= f = throw e

-- `vector.at(i)`, and a map's `at`.
abbrev pub or_out_of_range {ℓ} : {A : Type ℓ} → Option A → Result A
or_out_of_range none = throw out_of_range
or_out_of_range (some a) = ok a

pub >>=-eq-ok {κ ℓ} :
    {B : Type κ} {A : Type ℓ} (first : Result A) (onward : A → Result B) {final : B}
    → (first >>= onward) ≡ ok final
    → (between : A) × (first ≡ ok between) × (onward between ≡ ok final)
>>=-eq-ok (throw e) onward returned = cc
>>=-eq-ok (ok between) onward returned = (between, refl, returned)

-- What holds of the value that code returns, if it returns one.
abbrev pub IfOk {ℓ κ} : {A : Type ℓ} → (A → Type κ) → Result A → Type κ
IfOk P (ok a) = P a
IfOk P (throw e) = Unit

pub IfOk->>= {ℓ κ ι ρ} :
    {A : Type ℓ} {B : Type κ} (Q : A → Type ι) (P : B → Type ρ) (first : Result A)
    (onward : A → Result B)
    → IfOk Q first
    → ((a : A) → Q a → first ≡ ok a → IfOk P (onward a))
    → IfOk P (first >>= onward)
IfOk->>= Q P (ok a) onward held go = go a held refl
IfOk->>= Q P (throw e) onward held go = tt

-- The same, where nothing is known of the first result.
pub IfOk-then {ℓ κ ρ} :
    {A : Type ℓ} {B : Type κ} (P : B → Type ρ) (first : Result A) (onward : A → Result B)
    → ((a : A) → first ≡ ok a → IfOk P (onward a))
    → IfOk P (first >>= onward)
IfOk-then P (ok a) onward go = go a refl
IfOk-then P (throw e) onward go = tt

pub IfOk-ok {ℓ κ} : {A : Type ℓ} (P : A → Type κ) (r : Result A) {a : A} → IfOk P r → r ≡ ok a → P a
IfOk-ok P r held returned = subst (IfOk P) returned held

pub IfOk-weaken {ℓ κ ι} :
    {A : Type ℓ} (Q : A → Type κ) (P : A → Type ι) (r : Result A)
    → IfOk Q r
    → ((a : A) → Q a → P a)
    → IfOk P r
IfOk-weaken Q P (ok a) held weaker = weaker a held
IfOk-weaken Q P (throw e) held weaker = tt

-- The model does not run out of fuel.
abbrev pub Finishes {ℓ} : {A : Type ℓ} → Result A → Type 0
Finishes (ok a) = Unit
Finishes (throw out_of_fuel) = ⊥
Finishes (throw e) = Unit

pub Finishes->>= {ℓ κ} :
    {A : Type ℓ} {B : Type κ} (first : Result A) (onward : A → Result B)
    → Finishes first
    → ((a : A) → first ≡ ok a → Finishes (onward a))
    → Finishes (first >>= onward)
Finishes->>= (ok a) onward finishes go = go a refl
Finishes->>= (throw (logic_error m)) onward finishes go = tt
Finishes->>= (throw (overflow_error m)) onward finishes go = tt
Finishes->>= (throw out_of_range) onward finishes go = tt
Finishes->>= (throw (invalid_argument m)) onward finishes go = tt
Finishes->>= (throw (invalid_schedule i m)) onward finishes go = tt
Finishes->>= (throw out_of_fuel) onward finishes go = finishes

pub Finishes-or_out_of_range {ℓ} : {A : Type ℓ} (o : Option A) → Finishes (or_out_of_range o)
Finishes-or_out_of_range none = tt
Finishes-or_out_of_range (some a) = tt

pub Finishes-from {ℓ} : {A : Type ℓ} (r : Result A) → (r ≡ throw out_of_fuel → ⊥) → Finishes r
Finishes-from (ok a) apart = tt
Finishes-from (throw (logic_error m)) apart = tt
Finishes-from (throw (overflow_error m)) apart = tt
Finishes-from (throw out_of_range) apart = tt
Finishes-from (throw (invalid_argument m)) apart = tt
Finishes-from (throw (invalid_schedule i m)) apart = tt
Finishes-from (throw out_of_fuel) apart = apart refl

-- The model does not run out of fuel, and what the code returns has the property.
abbrev pub Ends {ℓ} : {A : Type ℓ} → (A → Type 0) → Result A → Type 0
Ends P (ok a) = P a
Ends P (throw out_of_fuel) = ⊥
Ends P (throw e) = Unit

pub Ends->>= {ℓ κ} :
    {A : Type ℓ} {B : Type κ} (Q : A → Type 0) (P : B → Type 0) (first : Result A)
    (onward : A → Result B)
    → Ends Q first
    → ((a : A) → Q a → first ≡ ok a → Ends P (onward a))
    → Ends P (first >>= onward)
Ends->>= Q P (ok a) onward ends go = go a ends refl
Ends->>= Q P (throw (logic_error m)) onward ends go = tt
Ends->>= Q P (throw (overflow_error m)) onward ends go = tt
Ends->>= Q P (throw out_of_range) onward ends go = tt
Ends->>= Q P (throw (invalid_argument m)) onward ends go = tt
Ends->>= Q P (throw (invalid_schedule i m)) onward ends go = tt
Ends->>= Q P (throw out_of_fuel) onward ends go = ends

-- Nothing but its end is known of the first result.
pub Finishes-Ends {ℓ} : {A : Type ℓ} (r : Result A) → Finishes r → Ends (λ _. Unit) r
Finishes-Ends (ok a) finishes = tt
Finishes-Ends (throw (logic_error m)) finishes = tt
Finishes-Ends (throw (overflow_error m)) finishes = tt
Finishes-Ends (throw out_of_range) finishes = tt
Finishes-Ends (throw (invalid_argument m)) finishes = tt
Finishes-Ends (throw (invalid_schedule i m)) finishes = tt
Finishes-Ends (throw out_of_fuel) finishes = finishes

pub Ends-then {ℓ κ} :
    {A : Type ℓ} {B : Type κ} (P : B → Type 0) (first : Result A) (onward : A → Result B)
    → Finishes first
    → ((a : A) → first ≡ ok a → Ends P (onward a))
    → Ends P (first >>= onward)
Ends-then P first onward finishes go =
    Ends->>= (λ _. Unit) P first onward (Finishes-Ends first finishes) (λ a _ ran. go a ran)

pub Ends-weaken {ℓ} :
    {A : Type ℓ} (Q P : A → Type 0) (r : Result A) → Ends Q r → ((a : A) → Q a → P a) → Ends P r
Ends-weaken Q P (ok a) ends weaker = weaker a ends
Ends-weaken Q P (throw (logic_error m)) ends weaker = tt
Ends-weaken Q P (throw (overflow_error m)) ends weaker = tt
Ends-weaken Q P (throw out_of_range) ends weaker = tt
Ends-weaken Q P (throw (invalid_argument m)) ends weaker = tt
Ends-weaken Q P (throw (invalid_schedule i m)) ends weaker = tt
Ends-weaken Q P (throw out_of_fuel) ends weaker = ends

pub Ends-Finishes {ℓ} : {A : Type ℓ} (P : A → Type 0) (r : Result A) → Ends P r → Finishes r
Ends-Finishes P (ok a) ends = tt
Ends-Finishes P (throw (logic_error m)) ends = tt
Ends-Finishes P (throw (overflow_error m)) ends = tt
Ends-Finishes P (throw out_of_range) ends = tt
Ends-Finishes P (throw (invalid_argument m)) ends = tt
Ends-Finishes P (throw (invalid_schedule i m)) ends = tt
Ends-Finishes P (throw out_of_fuel) ends = ends

pub Ends-from {ℓ} :
    {A : Type ℓ} (P : A → Type 0) (r : Result A)
    → Finishes r
    → ((a : A) → r ≡ ok a → P a)
    → Ends P r
Ends-from P (ok a) finishes returned = returned a refl
Ends-from P (throw (logic_error m)) finishes returned = tt
Ends-from P (throw (overflow_error m)) finishes returned = tt
Ends-from P (throw out_of_range) finishes returned = tt
Ends-from P (throw (invalid_argument m)) finishes returned = tt
Ends-from P (throw (invalid_schedule i m)) finishes returned = tt
Ends-from P (throw out_of_fuel) finishes returned = finishes
