-- ===== src/Inversion/Buckets.antt =====
-- The buckets of src/create_pairs.c over all ranks, when each rank stands there once.
use suffix_rank.Base.{
  ℕ, zero, suc, ◌+◌, ◌*◌, ◌/◌, ◌%◌, ◌^◌, ◌<◌, ◌≤◌, ◌≡◌, ap, sym, ◌∙◌, Bool, true, false, List, [],
  ◌∷◌, some, arith, length, get_elem?, ◌==◌, ==→eq, eq→==, if◌then◌else◌, Bool-cases, inl, inr, All,
}
use native.Mathlib.Decide.{dec_lt}
use native.Mathlib.Nat.{mod-add-div', mod-lt, div-lt_iff_lt-mul, le-div_iff_mul-le}
use suffix_rank.Format.{Int40, i40_load}
use suffix_rank.Inverse.{InverseRecord}
use suffix_rank.Inverse.Correct.{slot, AreDistinct}
use suffix_rank.Kmer.Counts.{occurrences, smaller, smaller-suc, smaller-zero, not_occurs_above}
use suffix_rank.Pairs.{pair_of}
use suffix_rank.Pairs.Correct.{bucket}
use suffix_rank.Inversion.Distinct.{ranks_in, IsOnce, slot-pair_of, bucket-AreDistinct}

outside :
    (size b n r : ℕ)
    → 0 < size
    → n ≤ size
    → b * size ≤ r
    → (r / size == b) ≡ false
    → b * size + n ≤ r
outside size b n r p h high other =
    let least : b ≤ r / size = (le-div_iff_mul-le p).1 high in
    let above : b + 1 ≤ r / size = ground arith in
    let far : (b + 1) * size ≤ r = (le-div_iff_mul-le p).0 above in grind arith

-- The ranks below the end of a part of a bucket's range are those below the bucket, and some in it.
below_in_bucket :
    (size b n : ℕ) (idx : ℕ) (rs : List Int40)
    → 0 < size
    → n ≤ size
    → smaller (b * size + n) (ranks_in rs)
      ≤ smaller (b * size) (ranks_in rs) + length (bucket size idx b rs)
unfolding bucket
below_in_bucket size b n idx [] p h = omega arith
below_in_bucket size b n idx (x ∷ rs) p h =
    let r = i40_load x in
    let ih = below_in_bucket size b n (idx + 1) rs p h in
    elim (Bool-cases (r / size == b)) [
      | inl here ↦ rw here (ground (arith, ih))
      | inr other ↦ rw other (elim (dec_lt r (b * size)) [
        | yes low ↦ ground (arith, ih)
        | no high ↦
            let not_below : b * size + n ≤ r = outside size b n r p h (omega arith) (other) in
            ground (arith, ih)
      ])
    ]

below_of_bucket :
    (size b : ℕ) (idx : ℕ) (rs : List Int40)
    → 0 < size
    → smaller (b * size) (ranks_in rs) + length (bucket size idx b rs)
      ≤ smaller (b * size + size) (ranks_in rs)
unfolding bucket
below_of_bucket size b idx [] p = omega arith
below_of_bucket size b idx (x ∷ rs) p =
    let r = i40_load x in
    let ih = below_of_bucket size b (idx + 1) rs p in
    elim (Bool-cases (r / size == b)) [
      | inl here ↦
          let q = ==→eq _ _ here in
          let low : b * size ≤ r = (le-div_iff_mul-le p).0 (omega arith) in
          let high : r < (b + 1) * size = (div-lt_iff_lt-mul p).0 (omega arith) in
          let high' : r < b * size + size = grind arith in rw here (ground (arith, ih))
      | inr other ↦ rw other (ground (arith, ih))
    ]

-- The ranks below N, each once.
pub record IsRanking (N : ℕ) (l : List ℕ) : Type 0 where
  pub present : (r : ℕ) → r < N → occurrences r l ≡ 1
  pub bounded : All (λ r. r < N) l

module _ (N : ℕ) (l : List ℕ) (ranking : IsRanking N l) where
  pub ranking-IsOnce : IsOnce l
  ranking-IsOnce r = elim (dec_lt r N) [
    | yes h ↦ omega (arith, ranking.present r h)
    | no h ↦ omega (arith, not_occurs_above N r l ranking.bounded (omega arith))
  ]

  smaller_exact : (x : ℕ) → x ≤ N → smaller x l ≡ x
  smaller_exact zero h = smaller-zero l
  smaller_exact (suc x) h =
      omega (arith, smaller-suc x l, smaller_exact x (omega arith), ranking.present x (omega arith))

  smaller-le : (x : ℕ) → smaller x l ≤ x
  smaller-le zero = omega (arith, smaller-zero l)
  smaller-le (suc x) = omega (arith, smaller-suc x l, smaller-le x, ranking-IsOnce x)

-- What invert needs of the pairs of a chunk.
pub record IsInvertible (size : ℕ) (pairs : List InverseRecord) : Type 0 where
  pub short : length pairs ≤ size
  pub distinct : AreDistinct size pairs
  pub inside : All (λ q. slot size q < length pairs) pairs

module _ (size N : ℕ) (rs : List Int40) (positive : 0 < size) (ranking : IsRanking N (ranks_in rs))
    (b : ℕ) (starts : b * size ≤ N) where
  abbrev own : List InverseRecord
  own = bucket size 0 b rs

  slots_inside :
      (idx : ℕ) (xs : List Int40)
      → All (λ x. i40_load x < 2 ^ 40) xs
      → All (λ r. r < N) (ranks_in xs)
      → All (λ q. slot size q < length own) (bucket size idx b xs)
  unfolding bucket
  slots_inside idx [] hs bs = tt
  slots_inside idx (x ∷ xs) hs bs =
      let r = i40_load x in
      let ih = slots_inside (idx + 1) xs hs.1 bs.1 in
      elim (Bool-cases (r / size == b)) [
        | inr other ↦ rw other ih
        | inl here ↦
            let s = r % size in
            let s_lt = mod-lt r positive in
            let split : s + b * size ≡ r =
              ap (λ q. s + q * size) (sym (==→eq _ _ here)) ∙ mod-add-div' r size in
            let few = below_in_bucket size b (s + 1) 0 rs positive (omega arith) in
            let lo = smaller_exact N (ranks_in rs) ranking (b * size) starts in
            let hi =
              smaller_exact N (ranks_in rs) ranking (b * size + (s + 1)) (omega (arith, bs.0)) in
            let fits : s < length own = omega arith in
            rw here (rw (slot-pair_of size idx x hs.0) fits, ih)
      ]

  pub bucket-IsInvertible : All (λ x. i40_load x < 2 ^ 40) rs → IsInvertible size own
  bucket-IsInvertible hs = record {
    short = omega (
      arith,
      below_of_bucket size b 0 rs positive,
      smaller_exact N (ranks_in rs) ranking (b * size) starts,
      smaller-le N (ranks_in rs) ranking (b * size + size),
    );
    distinct = bucket-AreDistinct size 0 b rs hs (ranking-IsOnce N (ranks_in rs) ranking);
    inside = slots_inside 0 rs hs ranking.bounded;
  }

later :
    (P : InverseRecord → Type 0) (test : Bool) (y : InverseRecord) (ys : List InverseRecord)
    → All P (if test then y ∷ ys else ys)
    → All P ys
later P true y ys h = h.1
later P false y ys h = h

-- The pair of a position is in the bucket of its rank.
pub pair_in_bucket :
    (P : InverseRecord → Type 0) (size idx b : ℕ) (rs : List Int40) (p : ℕ) (x : Int40)
    → get_elem? rs p ≡ some x
    → i40_load x / size ≡ b
    → All P (bucket size idx b rs)
    → P (pair_of (idx + p) x)
unfolding bucket
pair_in_bucket P size idx b [] p x e q h = cc
pair_in_bucket P size idx b (y ∷ rs) zero x e q h =
    let same : y ≡ x = cc in
    let s : (i40_load x / size == b) ≡ true = eq→== _ _ q in
    let z : idx + 0 ≡ idx = omega arith in rw z (rw (same, s) at h).0
pair_in_bucket P size idx b (y ∷ rs) (suc p) x e q h =
    let up : idx + suc p ≡ idx + 1 + p = omega arith in
    rw up (pair_in_bucket P size (idx + 1) b rs p x e q (later P (i40_load y / size == b) _ _ h))
