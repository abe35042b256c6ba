-- ===== src/Prelude/Distinct.antt =====
-- Lists in which no entry stands twice.
use mathlib.Core.Path.{◌≡◌, refl}
use mathlib.Core.Bool.{false}
use mathlib.Core.List.{List, [], ◌∷◌, ◌++◌}
use native.Mathlib.Omega.{arith}
use pyck_debug_worker.Prelude.Lists.{contains, contains-append}

module _ {ℓ} {A : Type ℓ} (dec : Discrete A) where
  abbrev pub Distinct : List A → Type 0
  Distinct [] = Unit {0}
  Distinct (x ∷ xs) = (contains dec xs x ≡ false) × Distinct xs

  pub Distinct-snoc :
      (xs : List A) (x : A) → Distinct xs → contains dec xs x ≡ false → Distinct (xs ++ x ∷ [])
  Distinct-snoc [] x d h = (refl, tt)
  Distinct-snoc (y ∷ ys) x d h =
      ground (arith, Distinct-snoc ys x d.1, contains-append dec ys (x ∷ []) y)
