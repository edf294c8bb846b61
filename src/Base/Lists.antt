-- ===== src/Base/Lists.antt =====
-- Arrays and files as lists, measured and indexed by native numbers.
use Prim.Native.Nat.{ℕ, zero, suc, ◌+◌, ◌-◌, ◌<◌, ◌≤◌, min}
use mathlib.Core.Path.{◌≡◌, refl, ap}
use mathlib.Core.Logic.{◌≢◌}
use mathlib.Core.List.{List, [], ◌∷◌, ◌++◌, map, append_assoc}
use native.Mathlib.Numerals.{add-one}
use native.Mathlib.Nat.{zero-add}
use mathlib.Core.Option.{Option, none, some}
use mathlib.Core.List.{Perm, perm_middle, append-nil}
use mathlib.Core.List.Perm
use suffix_rank.Base.Tests.{◌==◌, if◌then◌else◌}
use native.Mathlib.Omega.{arith}

module _ {ℓ} {A : Type ℓ} where
  abbrev pub length : List A → ℕ
  length [] = 0
  length (x ∷ xs) = suc (length xs)

  abbrev pub get_elem? : List A → ℕ → Option A
  get_elem? [] i = none
  get_elem? (x ∷ xs) zero = some x
  get_elem? (x ∷ xs) (suc i) = get_elem? xs i

  abbrev pub get_or : List A → ℕ → A → A
  get_or [] i d = d
  get_or (x ∷ xs) zero d = x
  get_or (x ∷ xs) (suc i) d = get_or xs i d

  -- A write out of bounds changes nothing.
  abbrev pub set : List A → ℕ → A → List A
  set [] i v = []
  set (x ∷ xs) zero v = v ∷ xs
  set (x ∷ xs) (suc i) v = x ∷ set xs i v

  -- `a[i] = v`, with a fault out of bounds.
  abbrev pub store : List A → ℕ → A → Option (List A)
  store [] i v = none
  store (x ∷ xs) zero v = some (v ∷ xs)
  store (x ∷ xs) (suc i) v = elim (store xs i v) [ none ↦ none | some ys ↦ some (x ∷ ys) ]

  abbrev pub take : ℕ → List A → List A
  take zero xs = []
  take (suc n) [] = []
  take (suc n) (x ∷ xs) = x ∷ take n xs

  abbrev pub drop : ℕ → List A → List A
  drop zero xs = xs
  drop (suc n) [] = []
  drop (suc n) (x ∷ xs) = drop n xs

  abbrev pub replicate : ℕ → A → List A
  replicate zero a = []
  replicate (suc n) a = a ∷ replicate n a

module _ {ℓ} {A : Type ℓ} where
  pub length-append : (xs ys : List A) → length (xs ++ ys) ≡ length xs + length ys
  length-append [] ys = omega arith
  length-append (x ∷ xs) ys = omega (arith, length-append xs ys)

  pub length-set : (xs : List A) (i : ℕ) (v : A) → length (set xs i v) ≡ length xs
  length-set [] i v = refl
  length-set (x ∷ xs) zero v = refl
  length-set (x ∷ xs) (suc i) v = ap suc (length-set xs i v)

  pub length-replicate : (n : ℕ) (a : A) → length (replicate n a) ≡ n
  length-replicate zero a = refl
  length-replicate (suc n) a = ap suc (length-replicate n a)

  pub length-take : (n : ℕ) (xs : List A) → length (take n xs) ≡ min n (length xs)
  length-take zero xs = omega arith
  length-take (suc n) [] = omega arith
  length-take (suc n) (x ∷ xs) = omega (arith, length-take n xs)

  pub length-drop : (n : ℕ) (xs : List A) → length (drop n xs) ≡ length xs - n
  length-drop zero xs = omega arith
  length-drop (suc n) [] = omega arith
  length-drop (suc n) (x ∷ xs) = omega (arith, length-drop n xs)

  pub take-append-drop : (n : ℕ) (xs : List A) → take n xs ++ drop n xs ≡ xs
  take-append-drop zero xs = refl
  take-append-drop (suc n) [] = refl
  take-append-drop (suc n) (x ∷ xs) = rw (take-append-drop n xs)

  pub take-eq_of_le : (n : ℕ) (xs : List A) → length xs ≤ n → take n xs ≡ xs
  take-eq_of_le zero [] h = refl
  take-eq_of_le zero (x ∷ xs) h = absurd (omega arith)
  take-eq_of_le (suc n) [] h = refl
  take-eq_of_le (suc n) (x ∷ xs) h = ap (◌∷◌ x) (take-eq_of_le n xs (omega arith))

  pub drop-eq_of_le : (n : ℕ) (xs : List A) → length xs ≤ n → drop n xs ≡ []
  drop-eq_of_le zero [] h = refl
  drop-eq_of_le zero (x ∷ xs) h = absurd (omega arith)
  drop-eq_of_le (suc n) [] h = refl
  drop-eq_of_le (suc n) (x ∷ xs) h = drop-eq_of_le n xs (omega arith)

  pub store_of_lt : (xs : List A) (i : ℕ) (v : A) → i < length xs → store xs i v ≡ some (set xs i v)
  store_of_lt [] i v h = absurd (omega arith)
  store_of_lt (x ∷ xs) zero v h = refl
  store_of_lt (x ∷ xs) (suc i) v h = rw (store_of_lt xs i v (omega arith))

  -- The entries up to a write are those before it and the one written.
  pub take-suc-set :
      (xs : List A) (i : ℕ) (v : A)
      → i < length xs
      → take (suc i) (set xs i v) ≡ take i xs ++ v ∷ []
  take-suc-set [] i v h = absurd (omega arith)
  take-suc-set (x ∷ xs) zero v h = refl
  take-suc-set (x ∷ xs) (suc i) v h = ap (◌∷◌ x) (take-suc-set xs i v (omega arith))

  pub take-add_one-set :
      (xs : List A) (i : ℕ) (v : A)
      → i < length xs
      → take (i + 1) (set xs i v) ≡ take i xs ++ v ∷ []
  take-add_one-set xs i v h = rw (add-one i) (take-suc-set xs i v h)

  pub take-add_two-set :
      (xs : List A) (i : ℕ) (v w : A)
      → i + 1 < length xs
      → take (i + 2) (set (set xs i v) (i + 1) w) ≡ take i xs ++ v ∷ w ∷ []
  take-add_two-set xs i v w h =
      let later : i + 2 ≡ suc (i + 1) = omega arith in
      let short : i < length xs = omega arith in
      rw (later, take-suc-set (set xs i v) (i + 1) w (rw length-set h))
        (rw (take-add_one-set xs i v short) (append_assoc (take i xs) (v ∷ []) (w ∷ [])))

  pub drop-set_of_lt : (xs : List A) (i n : ℕ) (v : A) → i < n → drop n (set xs i v) ≡ drop n xs
  drop-set_of_lt xs i zero v h = absurd (omega arith)
  drop-set_of_lt [] i (suc n) v h = refl
  drop-set_of_lt (x ∷ xs) zero (suc n) v h = refl
  drop-set_of_lt (x ∷ xs) (suc i) (suc n) v h = drop-set_of_lt xs i n v (omega arith)

  pub get_elem?-set_self :
      (xs : List A) (i : ℕ) (v : A) → i < length xs → get_elem? (set xs i v) i ≡ some v
  get_elem?-set_self [] i v h = absurd (omega arith)
  get_elem?-set_self (x ∷ xs) zero v h = refl
  get_elem?-set_self (x ∷ xs) (suc i) v h = get_elem?-set_self xs i v (omega arith)

  pub get_elem?-set_ne :
      (xs : List A) (i j : ℕ) (v : A) → i ≢ j → get_elem? (set xs i v) j ≡ get_elem? xs j
  get_elem?-set_ne [] i j v h = refl
  get_elem?-set_ne (x ∷ xs) zero zero v h = absurd (h refl)
  get_elem?-set_ne (x ∷ xs) zero (suc j) v h = refl
  get_elem?-set_ne (x ∷ xs) (suc i) zero v h = refl
  get_elem?-set_ne (x ∷ xs) (suc i) (suc j) v h = get_elem?-set_ne xs i j v (omega arith)

  pub get_elem?-eq-get_or :
      (xs : List A) (i : ℕ) (d : A) → i < length xs → get_elem? xs i ≡ some (get_or xs i d)
  get_elem?-eq-get_or [] i d h = absurd (omega arith)
  get_elem?-eq-get_or (x ∷ xs) zero d h = refl
  get_elem?-eq-get_or (x ∷ xs) (suc i) d h = get_elem?-eq-get_or xs i d (omega arith)

  pub drop-get_elem? :
      (xs : List A) (i : ℕ) (d : A) → i < length xs → drop i xs ≡ get_or xs i d ∷ drop (suc i) xs
  drop-get_elem? [] i d h = absurd (omega arith)
  drop-get_elem? (x ∷ xs) zero d h = refl
  drop-get_elem? (x ∷ xs) (suc i) d h = drop-get_elem? xs i d (omega arith)

  pub length-map {κ} : {B : Type κ} (f : A → B) (xs : List A) → length (map f xs) ≡ length xs
  length-map f [] = refl
  length-map f (x ∷ xs) = ap suc (length-map f xs)

module _ {ℓ} {A : Type ℓ} where
  pub replicate-append-cons :
      (n : ℕ) (a : A) (xs : List A) → replicate n a ++ a ∷ xs ≡ a ∷ (replicate n a ++ xs)
  replicate-append-cons zero a xs = refl
  replicate-append-cons (suc n) a xs = ap (◌∷◌ a) (replicate-append-cons n a xs)

  pub get_or-set :
      (xs : List A) (i j : ℕ) (v d : A)
      → i < length xs
      → get_or (set xs i v) j d ≡ (if i == j then v else get_or xs j d)
  get_or-set [] i j v d h = absurd (omega arith)
  get_or-set (x ∷ xs) zero zero v d h = refl
  get_or-set (x ∷ xs) zero (suc j) v d h = ground arith
  get_or-set (x ∷ xs) (suc i) zero v d h = ground arith
  get_or-set (x ∷ xs) (suc i) (suc j) v d h = ground (arith, get_or-set xs i j v d)

  pub take-set :
      (n : ℕ) (xs : List A) (i : ℕ) (v : A) → i < n → take n (set xs i v) ≡ set (take n xs) i v
  take-set zero xs i v h = absurd (omega arith)
  take-set (suc n) [] i v h = refl
  take-set (suc n) (x ∷ xs) zero v h = refl
  take-set (suc n) (x ∷ xs) (suc i) v h = ap (◌∷◌ x) (take-set n xs i v (omega arith))

  pub get_or-take :
      (n : ℕ) (xs : List A) (i : ℕ) (d : A) → i < n → get_or (take n xs) i d ≡ get_or xs i d
  get_or-take zero xs i d h = absurd (omega arith)
  get_or-take (suc n) [] i d h = refl
  get_or-take (suc n) (x ∷ xs) zero d h = refl
  get_or-take (suc n) (x ∷ xs) (suc i) d h = get_or-take n xs i d (omega arith)

  -- A write trades the old entry for the new one.
  pub set-perm :
      (xs : List A) (i : ℕ) (v d : A) → i < length xs → Perm (get_or xs i d ∷ set xs i v) (v ∷ xs)
  set-perm [] i v d h = absurd (omega arith)
  set-perm (x ∷ xs) zero v d h = Perm.swap v x xs
  set-perm (x ∷ xs) (suc i) v d h =
      Perm.trans (Perm.swap x _ _)
        (Perm.trans (Perm.cons x (set-perm xs i v d (omega arith))) (Perm.swap v x xs))

  -- Two writes that exchange an entry and a new value keep the entries of the one write.
  pub set-set-perm :
      (xs : List A) (i j : ℕ) (v d : A)
      → i < length xs
      → j < length xs
      → i ≢ j
      → Perm (set (set xs i (get_or xs j d)) j v) (set xs i v)
  set-set-perm xs i j v d hi hj apart =
      let x = get_or xs i d in
      let y = get_or xs j d in
      let zs = set xs i y in
      let kept : get_or zs j d ≡ y = ground (arith, get_or-set xs i j y d hi) in
      let inner : Perm (y ∷ set zs j v) (v ∷ zs) =
        rw kept at (set-perm zs j v d (rw length-set hj)) in
      let to_v = Perm.trans (Perm.cons x inner) (Perm.swap v x zs) in
      let plain = Perm.trans (Perm.cons v (set-perm xs i y d hi)) (Perm.swap y v xs) in
      let back = Perm.trans (Perm.cons y (Perm.symm (set-perm xs i v d hi))) (Perm.swap x y _) in
      Perm.cons_inv (Perm.cons_inv (Perm.trans to_v (Perm.trans plain back)))

  pub get_elem?_of_drop :
      (n : ℕ) (xs : List A) (x : A) (ys : List A) → drop n xs ≡ x ∷ ys → get_elem? xs n ≡ some x
  get_elem?_of_drop zero [] x ys e = cc
  get_elem?_of_drop zero (y ∷ xs) x ys e = cc
  get_elem?_of_drop (suc n) [] x ys e = cc
  get_elem?_of_drop (suc n) (y ∷ xs) x ys e = get_elem?_of_drop n xs x ys e

  pub drop-suc :
      (n : ℕ) (xs : List A) (x : A) (ys : List A) → drop n xs ≡ x ∷ ys → drop (suc n) xs ≡ ys
  drop-suc zero [] x ys e = cc
  drop-suc zero (y ∷ xs) x ys e = cc
  drop-suc (suc n) [] x ys e = cc
  drop-suc (suc n) (y ∷ xs) x ys e = drop-suc n xs x ys e

  pub take-suc_of_drop :
      (n : ℕ) (xs : List A) (x : A) (ys : List A)
      → drop n xs ≡ x ∷ ys
      → take (suc n) xs ≡ take n xs ++ x ∷ []
  take-suc_of_drop zero [] x ys e = cc
  take-suc_of_drop zero (y ∷ xs) x ys e = cc
  take-suc_of_drop (suc n) [] x ys e = cc
  take-suc_of_drop (suc n) (y ∷ xs) x ys e = ap (◌∷◌ y) (take-suc_of_drop n xs x ys e)

  pub take-suc :
      (n : ℕ) (xs : List A) (d : A)
      → n < length xs
      → take (suc n) xs ≡ take n xs ++ get_or xs n d ∷ []
  take-suc n [] d h = absurd (omega arith)
  take-suc zero (x ∷ xs) d h = refl
  take-suc (suc n) (x ∷ xs) d h = ap (◌∷◌ x) (take-suc n xs d (omega arith))

  pub take-append_of_length : (n : ℕ) (xs ys : List A) → length xs ≡ n → take n (xs ++ ys) ≡ xs
  take-append_of_length zero [] ys e = refl
  take-append_of_length zero (x ∷ xs) ys e = absurd (omega arith)
  take-append_of_length (suc n) [] ys e = absurd (omega arith)
  take-append_of_length (suc n) (x ∷ xs) ys e =
      ap (◌∷◌ x) (take-append_of_length n xs ys (omega arith))

  pub snoc-perm : (xs : List A) (x : A) → Perm (xs ++ x ∷ []) (x ∷ xs)
  snoc-perm xs x = rw (append-nil xs) at (perm_middle {a = x} xs [])

  pub replicate-split :
      (k n : ℕ) (a : A) → k ≤ n → replicate n a ≡ replicate k a ++ replicate (n - k) a
  replicate-split zero n a h = let e : n - 0 ≡ n = omega arith in rw e refl
  replicate-split (suc k) zero a h = absurd (omega arith)
  replicate-split (suc k) (suc n) a h =
      let e : suc n - suc k ≡ n - k = omega arith in
      rw e (ap (◌∷◌ a) (replicate-split k n a (omega arith)))

  pub take-cons_pos : (n : ℕ) (x : A) (xs : List A) → 0 < n → take n (x ∷ xs) ≡ x ∷ take (n - 1) xs
  take-cons_pos zero x xs h = absurd (omega arith)
  take-cons_pos (suc n) x xs h = let e : suc n - 1 ≡ n = omega arith in rw e refl

  pub get_elem?-take :
      (n : ℕ) (xs : List A) (i : ℕ) → i < n → get_elem? (take n xs) i ≡ get_elem? xs i
  get_elem?-take zero xs i h = absurd (omega arith)
  get_elem?-take (suc n) [] i h = refl
  get_elem?-take (suc n) (x ∷ xs) zero h = refl
  get_elem?-take (suc n) (x ∷ xs) (suc i) h = get_elem?-take n xs i (omega arith)

  pub get_elem?-drop :
      (n : ℕ) (xs : List A) (i : ℕ) → get_elem? (drop n xs) i ≡ get_elem? xs (n + i)
  get_elem?-drop zero xs i = rw (zero-add i) refl
  get_elem?-drop (suc n) [] i = refl
  get_elem?-drop (suc n) (x ∷ xs) i =
      let e : suc n + i ≡ suc (n + i) = omega arith in rw e (get_elem?-drop n xs i)

-- Every entry satisfies `P`.
abbrev pub All {ℓ κ} : {A : Type ℓ} → (A → Type κ) → List A → Type κ
All P [] = Unit
All P (x ∷ xs) = P x × All P xs
