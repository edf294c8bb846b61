-- ===== src/Inversion/Rows.antt =====
-- The loop of src/invert.c over all chunks.
use suffix_rank.Base.{
  ℕ, zero, suc, ◌+◌, ◌<◌, ◌≡◌, refl, ap, List, [], ◌∷◌, arith, length, get_or, All, Gives, gives,
  Gives-bind,
}
use suffix_rank.Inverse.{InverseRecord}
use suffix_rank.Inverse.Correct.{IsInverted, invert_lem}
use suffix_rank.Inversion.{invert_all}
use suffix_rank.Inversion.Buckets.{IsInvertible}

-- The rows of the suffix array.
abbrev pub AreRows : ℕ → List (List InverseRecord) → List (List ℕ) → Type 0
AreRows size pairs_files rows =
    (length rows ≡ length pairs_files)
    × ((b : ℕ) → All (IsInverted size (get_or rows b [])) (get_or pairs_files b []))

pub invert_all_lem :
    (size chunk_id : ℕ) (arrays : ℕ → List ℕ) (pairs_files : List (List InverseRecord))
    → 0 < size
    → ((c : ℕ) → length (arrays c) ≡ size)
    → All (IsInvertible size) pairs_files
    → Gives (AreRows size pairs_files) (invert_all size arrays chunk_id pairs_files)
unfolding invert_all
invert_all_lem size chunk_id arrays [] p full h = gives (refl, λ b. tt)
invert_all_lem size chunk_id arrays (pairs ∷ files) p full h =
    Gives-bind
      (invert_lem size pairs (arrays chunk_id) p (full chunk_id) h.0.short h.0.distinct h.0.inside)
      (λ sa (n, placed).
        Gives-bind (invert_all_lem size (chunk_id + 1) arrays files p full h.1)
          (λ rows (m, each). gives (ap suc m, λ b. by_row sa pairs rows files placed each b)))
  where
    by_row :
        (sa : List ℕ) (pairs : List InverseRecord) (rows : List (List ℕ))
        (files : List (List InverseRecord))
        → All (IsInverted size sa) pairs
        → ((b : ℕ) → All (IsInverted size (get_or rows b [])) (get_or files b []))
        → (b : ℕ) → All (IsInverted size (get_or (sa ∷ rows) b [])) (get_or (pairs ∷ files) b [])
    by_row sa pairs rows files placed each zero = placed
    by_row sa pairs rows files placed each (suc b) = each b

pub All-of_get_or :
    (P : List InverseRecord → Type 0) (files : List (List InverseRecord))
    → ((b : ℕ) → b < length files → P (get_or files b []))
    → All P files
All-of_get_or P [] h = tt
All-of_get_or P (f ∷ files) h =
    (h 0 (omega arith), All-of_get_or P files (λ b hb. h (suc b) (omega arith)))
