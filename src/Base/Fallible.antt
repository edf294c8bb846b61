-- ===== src/Base/Fallible.antt =====
-- C code whose array accesses may fall outside the array: `none` is such a fault.
use mathlib.Core.Path.{◌≡◌, refl}
use mathlib.Core.Option.{Option, none, some}

infixl 5 ◌>>=◌
abbrev pub ◌>>=◌ {ℓ κ} : {A : Type ℓ} {B : Type κ} → Option A → (A → Option B) → Option B
none >>= f = none
some a >>= f = f a

-- The run ends without a fault, in a value that satisfies `P`.
pub data Gives {ℓ κ} {A : Type ℓ} (P : A → Type κ) : Option A → Type (ℓ ⊔ κ) where
  gives : {a : A} → P a → Gives P (some a)

module _ {ℓ κ} {A : Type ℓ} {P : A → Type κ} where
  pub Gives-bind {ℓ' κ'} :
      {B : Type ℓ'} {Q : B → Type κ'} {r : Option A} {f : A → Option B}
      → Gives P r
      → ((a : A) → P a → Gives Q (f a))
      → Gives Q (r >>= f)
  Gives-bind (gives p) k = k _ p

  pub Gives-map {κ'} :
      {Q : A → Type κ'} {r : Option A} → Gives P r → ((a : A) → P a → Q a) → Gives Q r
  Gives-map (gives p) k = gives (k _ p)

  pub Gives-inv : {r : Option A} → Gives P r → (a : A) × (r ≡ some a) × P a
  Gives-inv (gives p) = (_, refl, p)
