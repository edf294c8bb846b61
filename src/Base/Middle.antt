-- ===== src/Base/Middle.antt =====
-- An entry of an array that is given in two parts.
use Prim.Native.Nat.{ℕ, zero, suc}
use mathlib.Core.Path.{◌≡◌, refl}
use mathlib.Core.Option.{some}
use mathlib.Core.List.{List, [], ◌∷◌, ◌++◌}
use native.Mathlib.Omega.{arith}
use suffix_rank.Base.Lists.{length, get_elem?, store}

module _ {ℓ} {A : Type ℓ} where
  pub get_elem?-middle :
      (xs : List A) (y : A) (ys : List A) (i : ℕ)
      → length xs ≡ i
      → get_elem? (xs ++ y ∷ ys) i ≡ some y
  get_elem?-middle [] y ys zero e = refl
  get_elem?-middle [] y ys (suc i) e = absurd (omega arith)
  get_elem?-middle (x ∷ xs) y ys zero e = absurd (omega arith)
  get_elem?-middle (x ∷ xs) y ys (suc i) e = get_elem?-middle xs y ys i (omega arith)

  pub store-middle :
      (xs : List A) (y : A) (ys : List A) (i : ℕ) (v : A)
      → length xs ≡ i
      → store (xs ++ y ∷ ys) i v ≡ some (xs ++ v ∷ ys)
  store-middle [] y ys zero v e = refl
  store-middle [] y ys (suc i) v e = absurd (omega arith)
  store-middle (x ∷ xs) y ys zero v e = absurd (omega arith)
  store-middle (x ∷ xs) y ys (suc i) v e = rw (store-middle xs y ys i v (omega arith)) refl
