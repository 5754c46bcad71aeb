-- ===== src/Common/OrdSet.antt =====
-- `std::set`: an ascending list of keys.
use mathlib.Core.Path.{◌≡◌, refl}
use mathlib.Core.Bool.{Bool, false, ◌||◌}
use mathlib.Core.List.{List, [], ◌∷◌}
use native.Mathlib.Omega.{arith}
use dpor_concurrency_model_c.Common.Base.{if◌then◌else◌}
use dpor_concurrency_model_c.Common.Order.{Ord, ◌==◌}

module _ {ℓ} {K : Type ℓ} ⦃o : Ord K⦄ where
  unfoldable pub contains : K → List K → Bool
  contains t [] = false
  contains t (u ∷ us) = u == t || contains t us

  unfoldable pub insert : K → List K → List K
  insert t [] = t ∷ []
  insert t (u ∷ us) = if u == t then u ∷ us else if o.lt t u then t ∷ u ∷ us else u ∷ insert t us

  unfoldable pub erase : K → List K → List K
  erase t [] = []
  erase t (u ∷ us) = if u == t then erase t us else u ∷ erase t us

  pub contains-insert :
      (t u : K) (us : List K) → contains u (insert t us) ≡ (t == u || contains u us)
  unfolding contains insert
  contains-insert t u [] = refl
  contains-insert t u (x ∷ us) =
      ground (arith, o.beq_iff x t, o.beq_iff x u, o.beq_iff t u, contains-insert t u us)

  pub contains-erase :
      (t u : K) (us : List K) → contains u (erase t us) ≡ (if t == u then false else contains u us)
  unfolding contains erase
  contains-erase t u [] = ground arith
  contains-erase t u (x ∷ us) =
      ground (arith, o.beq_iff x t, o.beq_iff x u, o.beq_iff t u, contains-erase t u us)
