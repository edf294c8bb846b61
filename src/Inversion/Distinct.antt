-- ===== src/Inversion/Distinct.antt =====
-- The pairs of a bucket of src/create_pairs.c, when no rank stands twice.
use suffix_rank.Base.{
  ℕ, suc, ◌+◌, ◌/◌, ◌%◌, ◌^◌, ◌<◌, ◌≤◌, ◌≡◌, ◌≢◌, refl, ap, sym, ◌∙◌, true, List, [], ◌∷◌, ◌++◌,
  map, arith, length, ◌==◌, ==→eq, Bool-cases, inl, inr, All,
}
use native.Mathlib.Nat.{mod-add-div'}
use suffix_rank.Format.{Int40, i40_load}
use suffix_rank.Format.Bytes.{i40_load-store}
use suffix_rank.Inverse.Correct.{slot, AreDistinct}
use suffix_rank.Kmer.Counts.{occurrences}
use suffix_rank.Pairs.{pair_of}
use suffix_rank.Pairs.Correct.{bucket}

abbrev pub ranks_in : List Int40 → List ℕ
ranks_in rs = map i40_load rs

pub bucket-append :
    (size idx b : ℕ) (xs ys : List Int40)
    → bucket size idx b (xs ++ ys) ≡ bucket size idx b xs ++ bucket size (idx + length xs) b ys
unfolding bucket
bucket-append size idx b [] ys = let e : idx + 0 ≡ idx = omega arith in rw e refl
bucket-append size idx b (x ∷ xs) ys =
    let e : idx + 1 + length xs ≡ idx + suc (length xs) = omega arith in
    let ih = rw e at (bucket-append size (idx + 1) b xs ys) in
    elim (Bool-cases (i40_load x / size == b)) [
      | inl own ↦ rw own (ap (◌∷◌ (pair_of idx x)) ih)
      | inr other ↦ rw other ih
    ]

-- No rank twice.
abbrev pub IsOnce : List ℕ → Type 0
IsOnce l = (r : ℕ) → occurrences r l ≤ 1

IsOnce-tail : (x : ℕ) (l : List ℕ) → IsOnce (x ∷ l) → IsOnce l
IsOnce-tail x l h r = omega (arith, h r)

IsOnce-head : (x : ℕ) (l : List ℕ) → IsOnce (x ∷ l) → occurrences x l ≡ 0
IsOnce-head x l h = let once = h x in ground arith

pub slot-pair_of :
    (size idx : ℕ) (r : Int40) → i40_load r < 2 ^ 40 → slot size (pair_of idx r) ≡ i40_load r % size
slot-pair_of size idx r h = ap (λ v. v % size) (i40_load-store (i40_load r) h)

same_rank : (size a b : ℕ) → a / size ≡ b / size → a % size ≡ b % size → a ≡ b
same_rank size a b q m = sym (mod-add-div' a size) ∙ rw (q, m) (mod-add-div' b size)

bucket_apart :
    (size idx b : ℕ) (i : ℕ) (r : Int40) (rs : List Int40)
    → i40_load r / size ≡ b
    → i40_load r < 2 ^ 40
    → All (λ q. i40_load q < 2 ^ 40) rs
    → occurrences (i40_load r) (ranks_in rs) ≡ 0
    → All (λ q. slot size (pair_of i r) ≢ slot size q) (bucket size idx b rs)
unfolding bucket
bucket_apart size idx b i r [] own small hs o = tt
bucket_apart size idx b i r (x ∷ rs) own small hs o =
    let more : occurrences (i40_load r) (ranks_in rs) ≡ 0 = omega arith in
    let ih = bucket_apart size (idx + 1) b i r rs own small hs.1 more in
    elim (Bool-cases (i40_load x / size == b)) [
      | inr other ↦ rw other ih
      | inl here ↦ rw here (
        (λ e.
            let same =
              same_rank size (i40_load r) (i40_load x) (own ∙ sym (==→eq _ _ here))
                (sym (slot-pair_of size i r small) ∙ e ∙ slot-pair_of size idx x hs.0) in
            let s : (i40_load r == i40_load x) ≡ true = ground arith in
            let o' = rw s at o in omega arith),
        ih,
      )
    ]

pub bucket-AreDistinct :
    (size idx b : ℕ) (rs : List Int40)
    → All (λ q. i40_load q < 2 ^ 40) rs
    → IsOnce (ranks_in rs)
    → AreDistinct size (bucket size idx b rs)
unfolding bucket
bucket-AreDistinct size idx b [] hs once = tt
bucket-AreDistinct size idx b (x ∷ rs) hs once =
    let ih =
      bucket-AreDistinct size (idx + 1) b rs hs.1 (IsOnce-tail (i40_load x) (ranks_in rs) once) in
    elim (Bool-cases (i40_load x / size == b)) [
      | inr other ↦ rw other ih
      | inl here ↦ rw here (
        bucket_apart size (idx + 1) b idx x rs (==→eq _ _ here) hs.0 hs.1
            (IsOnce-head (i40_load x) (ranks_in rs) once),
        ih,
      )
    ]
