-- ===== src/Kmer/Digits.antt =====
-- The codes that the window of src/init.cpp goes over, and the keys as they come in.
use suffix_rank.Base.{
  ℕ, zero, suc, ◌+◌, ◌-◌, ◌<◌, ◌≡◌, refl, ap, List, [], ◌∷◌, ◌++◌, arith, length, get_or, replicate,
  leb, Bool-cases, inl, inr, All,
}
use suffix_rank.Kmer.Roll.{number}
use suffix_rank.Kmer.Keys.{shift, emitted}

-- The window after some codes.
abbrev pub shifts : List ℕ → List ℕ → List ℕ
shifts last [] = last
shifts last (e ∷ codes) = shifts (shift last e) codes

pub emitted-append :
    (base k : ℕ) (xs ys : List ℕ) (last : List ℕ) (p : ℕ)
    → emitted base k last p (xs ++ ys)
      ≡ emitted base k last p xs ++ emitted base k (shifts last xs) (p + length xs) ys
emitted-append base k [] ys last p = let e : p + 0 ≡ p = omega arith in rw e refl
emitted-append base k (e ∷ xs) ys last p =
    let step : p + 1 + length xs ≡ p + suc (length xs) = omega arith in
    let ih = rw step at (emitted-append base k xs ys (shift last e) (p + 1)) in
    elim (Bool-cases (leb (k - 1) p)) [
      | inl done ↦ rw done (ap (◌∷◌ (number base (shift last e))) ih)
      | inr wait ↦ rw wait ih
    ]

abbrev pub AreDigits : ℕ → List ℕ → Type 0
AreDigits base codes = All (λ c. c < base) codes

pub snoc-AreDigits :
    (base : ℕ) (codes : List ℕ) (e : ℕ)
    → AreDigits base codes
    → e < base
    → AreDigits base (codes ++ e ∷ [])
snoc-AreDigits base [] e h lt = (lt, tt)
snoc-AreDigits base (c ∷ codes) e h lt = (h.0, snoc-AreDigits base codes e h.1 lt)

pub zeros-AreDigits : (base n : ℕ) → 0 < base → AreDigits base (replicate n 0)
zeros-AreDigits base zero h = tt
zeros-AreDigits base (suc n) h = (h, zeros-AreDigits base n h)

pub number-zeros : (base n : ℕ) → number base (replicate n 0) ≡ 0
number-zeros base zero = refl
number-zeros base (suc n) = omega (arith, number-zeros base n)

abbrev pub code_at : List ℕ → ℕ → ℕ
code_at code_of_byte b = get_or code_of_byte b 0

-- Every byte has a code, which is a digit.
abbrev pub AreCoded : ℕ → List ℕ → List ℕ → Type 0
AreCoded base code_of_byte bytes =
    All (λ b. (b < length code_of_byte) × (code_at code_of_byte b < base)) bytes
