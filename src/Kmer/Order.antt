-- ===== src/Kmer/Order.antt =====
-- The order of the first ranks of src/init.cpp: that of the first k codes.
use suffix_rank.Base.{
  ℕ, zero, suc, ◌+◌, ◌-◌, ◌*◌, ◌^◌, ◌<◌, ◌≤◌, ◌≡◌, ap, sym, ◌∙◌, true, false, List, [], ◌∷◌, ◌++◌,
  arith, length, take, drop, replicate, ltb, lt→ltb, le→ltb, ◌==◌, Bool-cases, inl, inr, lex_ltb,
  length-take, length-append, length-replicate, length-drop,
}
use native.Mathlib.Decide.{dec_lt}
use native.Mathlib.Nat.{mul-le-mul_right}
use suffix_rank.Kmer.Roll.{number, number-lt}
use suffix_rank.Kmer.Keys.{key_of, keys_of}
use suffix_rank.Kmer.Counts.{occurrences, smaller}
use suffix_rank.Kmer.Digits.{AreDigits, zeros-AreDigits}

number_order_step :
    (base x y : ℕ) (xs ys : List ℕ)
    → AreDigits base xs
    → length xs ≡ length ys
    → x < y
    → number base (x ∷ xs) < number base (y ∷ ys)
number_order_step base x y xs ys h n lt =
    let small = number-lt base xs h in
    let scaled = mul-le-mul_right (base ^ length xs) (let l : x + 1 ≤ y = omega arith in l) in
    rw (← n) (grind (arith, small, scaled))

same_head : (a b x y : ℕ) → a ≡ b → ltb (a + x) (b + y) ≡ ltb x y
same_head a b x y e = ground arith

-- Numbers with equally many digits are in the order of their digits.
pub number_order :
    (base : ℕ) (xs ys : List ℕ)
    → AreDigits base xs
    → AreDigits base ys
    → length xs ≡ length ys
    → ltb (number base xs) (number base ys) ≡ lex_ltb xs ys
number_order base [] [] h k n = ground arith
number_order base [] (y ∷ ys) h k n = absurd (omega arith)
number_order base (x ∷ xs) [] h k n = absurd (omega arith)
number_order base (x ∷ xs) (y ∷ ys) h k n =
    let short : length xs ≡ length ys = omega arith in
    let ih = number_order base xs ys h.1 k.1 short in
    elim (dec_lt x y) [
      | yes lt ↦
          let e : (x == y) ≡ false = ground arith in
          rw e (lt→ltb _ _ (number_order_step base x y xs ys h.1 short lt) ∙ sym (lt→ltb x y lt))
      | no ge ↦ elim (dec_lt y x) [
        | yes gt ↦
            let e : (x == y) ≡ false = ground arith in
            let more = number_order_step base y x ys xs k.1 (sym short) gt in
            rw e (le→ltb _ _ (omega arith) ∙ sym (le→ltb x y (omega arith)))
        | no le ↦
            let same : x ≡ y = omega arith in
            let e : (x == y) ≡ true = ground arith in
            rw e (
              same_head (x * base ^ length xs) (y * base ^ length ys) (number base xs)
                (number base ys)
                (ap (λ (d : ℕ). d * base ^ length xs) same ∙ ap (λ (l : ℕ). y * base ^ l) short)
              ∙ ih)
      ]
    ]

smaller_mono : (x y : ℕ) (l : List ℕ) → x ≤ y → smaller x l ≤ smaller y l
smaller_mono x y [] h = omega arith
smaller_mono x y (z ∷ l) h = ground (arith, smaller_mono x y l h)

smaller-lt : (x y : ℕ) (l : List ℕ) → x < y → 0 < occurrences x l → smaller x l < smaller y l
smaller-lt x y [] h o = absurd (omega arith)
smaller-lt x y (z ∷ l) h o = elim (Bool-cases (x == z)) [
  | inl same ↦
      let e : ltb z x ≡ false = ground arith in
      let e' : ltb z y ≡ true = ground arith in
      rw (e, e') (omega (arith, smaller_mono x y l (omega arith)))
  | inr other ↦
      let o' = rw other at o in
      let later : 0 < occurrences x l = omega arith in ground (arith, smaller-lt x y l h later)
]

-- Ranks by the number of smaller keys are in the order of the keys.
smaller_order :
    (x y : ℕ) (l : List ℕ) → 0 < occurrences x l → ltb (1 + smaller x l) (1 + smaller y l) ≡ ltb x y
smaller_order x y l o = elim (dec_lt x y) [
  | yes lt ↦ lt→ltb _ _ (omega (arith, smaller-lt x y l lt o)) ∙ sym (lt→ltb x y lt)
  | no ge ↦
      le→ltb _ _ (omega (arith, smaller_mono y x l (omega arith))) ∙ sym (le→ltb x y (omega arith))
]

occurs_key :
    (base k : ℕ) (codes : List ℕ) (i : ℕ)
    → i < length codes
    → 0 < occurrences (key_of base k (drop i codes)) (keys_of base k codes)
occurs_key base k [] i h = absurd (omega arith)
occurs_key base k (c ∷ codes) zero h = ground arith
occurs_key base k (c ∷ codes) (suc i) h = omega (arith, occurs_key base k codes i (omega arith))

-- The first k codes of a suffix, with zeros behind the end.
abbrev pub prefix : ℕ → List ℕ → ℕ → List ℕ
prefix k codes i = take k (drop i codes ++ replicate (k - 1) 0)

append-AreDigits :
    (base : ℕ) (xs ys : List ℕ) → AreDigits base xs → AreDigits base ys → AreDigits base (xs ++ ys)
append-AreDigits base [] ys h k = k
append-AreDigits base (x ∷ xs) ys h k = (h.0, append-AreDigits base xs ys h.1 k)

take-AreDigits : (base n : ℕ) (xs : List ℕ) → AreDigits base xs → AreDigits base (take n xs)
take-AreDigits base zero xs h = tt
take-AreDigits base (suc n) [] h = tt
take-AreDigits base (suc n) (x ∷ xs) h = (h.0, take-AreDigits base n xs h.1)

drop-AreDigits : (base n : ℕ) (xs : List ℕ) → AreDigits base xs → AreDigits base (drop n xs)
drop-AreDigits base zero xs h = h
drop-AreDigits base (suc n) [] h = tt
drop-AreDigits base (suc n) (x ∷ xs) h = drop-AreDigits base n xs h.1

prefix-AreDigits :
    (base k : ℕ) (codes : List ℕ) (i : ℕ)
    → 0 < base
    → AreDigits base codes
    → AreDigits base (prefix k codes i)
prefix-AreDigits base k codes i b h = take-AreDigits base k _ (
    append-AreDigits base (drop i codes) _ (drop-AreDigits base i codes h)
      (zeros-AreDigits base (k - 1) b))

length-prefix :
    (k : ℕ) (codes : List ℕ) (i : ℕ) → i < length codes → 0 < k → length (prefix k codes i) ≡ k
length-prefix k codes i h p = omega (
  arith,
  length-take k (drop i codes ++ replicate (k - 1) 0),
  length-append (drop i codes) (replicate (k - 1) 0),
  length-replicate (k - 1) zero,
  length-drop i codes,
)

-- The first ranks are in the order of the prefixes.
pub first_rank_order :
    (base k : ℕ) (codes : List ℕ) (i j : ℕ)
    → 0 < base
    → 0 < k
    → AreDigits base codes
    → i < length codes
    → j < length codes
    → ltb
        (1 + smaller (key_of base k (drop i codes)) (keys_of base k codes))
        (1 + smaller (key_of base k (drop j codes)) (keys_of base k codes))
      ≡ lex_ltb (prefix k codes i) (prefix k codes j)
first_rank_order base k codes i j b p h hi hj =
    smaller_order (key_of base k (drop i codes)) (key_of base k (drop j codes))
      (keys_of base k codes) (occurs_key base k codes i hi)
    ∙ number_order base (prefix k codes i) (prefix k codes j) (prefix-AreDigits base k codes i b h)
        (prefix-AreDigits base k codes j b h)
        (length-prefix k codes i hi p ∙ sym (length-prefix k codes j hj p))
