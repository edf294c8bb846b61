-- ===== src/Inversion/Correct.antt =====
-- src/create_pairs.c and src/invert.c over all chunks: the suffix array is the inverse of the ranks.
use suffix_rank.Base.{
  ℕ, zero, suc, ◌+◌, ◌*◌, ◌/◌, ◌%◌, ◌^◌, ◌<◌, ◌≤◌, ◌≡◌, refl, ap, sym, ◌∙◌, List, [], ◌∷◌, ◌++◌,
  some, arith, length, get_elem?, get_or, replicate, All, Gives, Gives-bind, Gives-map,
  length-append, length-replicate,
}
use native.Mathlib.Nat.{div-lt_iff_lt-mul, mul-le-mul_right}
use suffix_rank.Files.Chunked.{IsChunked, all_of}
use suffix_rank.Format.{Int40, i40_load}
use suffix_rank.Format.Bytes.{i40_load-store}
use suffix_rank.Inverse.{InverseRecord}
use suffix_rank.Inverse.Correct.{IsInverted}
use suffix_rank.Pairs.Correct.{bucket}
use suffix_rank.Inversion.{invert_ranks}
use suffix_rank.Inversion.Distinct.{ranks_in, slot-pair_of}
use suffix_rank.Inversion.Buckets.{IsRanking, IsInvertible, bucket-IsInvertible, pair_in_bucket}
use suffix_rank.Inversion.Create.{create_all_lem}
use suffix_rank.Inversion.Rows.{AreRows, invert_all_lem, All-of_get_or}

bound_of_chunks :
    (size : ℕ) (f : List Int40) (files : List (List Int40))
    → IsChunked size (f ∷ files)
    → length files * size ≤ length (all_of (f ∷ files))
bound_of_chunks size f [] c = omega (arith, length-append f (let z : List Int40 = [] in z))
bound_of_chunks size f (g ∷ files) c =
    let ih = bound_of_chunks size g files c.1 in
    let long = length-append f (all_of (g ∷ files)) in
    let e : suc (length files) * size ≡ length files * size + size = grind arith in
    omega (arith, c.0)

top_of_chunks :
    (size : ℕ) (files : List (List Int40))
    → IsChunked size files
    → length (all_of files) ≤ length files * size
top_of_chunks size [] c = omega arith
top_of_chunks size (f ∷ []) c =
    let e : 1 * size ≡ size = omega arith in
    omega (arith, length-append f (let z : List Int40 = [] in z), c.1)
top_of_chunks size (f ∷ g ∷ files) c =
    let ih = top_of_chunks size (g ∷ files) c.1 in
    let long = length-append f (all_of (g ∷ files)) in
    let e : suc (suc (length files)) * size ≡ suc (length files) * size + size = grind arith in
    omega (arith, c.0)

all_in_chunks :
    (size total N : ℕ) (rs : List Int40)
    → 0 < size
    → N ≤ total * size
    → All (λ r. r < N) (ranks_in rs)
    → All (λ r. i40_load r / size < total) rs
all_in_chunks size total N [] p h b = tt
all_in_chunks size total N (r ∷ rs) p h b =
    ((div-lt_iff_lt-mul p).1 (omega (arith, b.0)), all_in_chunks size total N rs p h b.1)

all_small :
    (N : ℕ) (rs : List Int40)
    → N ≤ 2 ^ 40
    → All (λ r. r < N) (ranks_in rs)
    → All (λ x. i40_load x < 2 ^ 40) rs
all_small N [] h b = tt
all_small N (r ∷ rs) h b = (omega (arith, b.0), all_small N rs h b.1)

-- Position p is entry `rank % size` of the suffix array file of its rank.
abbrev pub Inverts : ℕ → List Int40 → List (List ℕ) → Type 0
Inverts size rs sa_files =
    (p : ℕ) (x : Int40)
    → get_elem? rs p ≡ some x
    → get_elem? (get_or sa_files (i40_load x / size) []) (i40_load x % size) ≡ some p

get_elem?-lt : (rs : List Int40) (p : ℕ) (x : Int40) → get_elem? rs p ≡ some x → p < length rs
get_elem?-lt [] p x e = cc
get_elem?-lt (r ∷ rs) zero x e = omega arith
get_elem?-lt (r ∷ rs) (suc p) x e = omega (arith, get_elem?-lt rs p x e)

at_index :
    (rs : List Int40) (p : ℕ) (x : Int40)
    → get_elem? rs p ≡ some x
    → All (λ r. i40_load r < 2 ^ 40) rs
    → i40_load x < 2 ^ 40
at_index [] p x e h = cc
at_index (r ∷ rs) zero x e h = let same : r ≡ x = cc in rw (← same) h.0
at_index (r ∷ rs) (suc p) x e h = at_index rs p x e h.1

get_or-nothing : (n b : ℕ) → get_or {A = List InverseRecord} (replicate n []) b [] ≡ []
get_or-nothing zero b = refl
get_or-nothing (suc n) zero = refl
get_or-nothing (suc n) (suc b) = get_or-nothing n b

starts_below :
    (size b : ℕ) (f : List Int40) (files : List (List Int40))
    → IsChunked size (f ∷ files)
    → b < length (f ∷ files)
    → b * size ≤ length (all_of (f ∷ files))
starts_below size b f files c h =
    let scaled = mul-le-mul_right size (let l : b ≤ length files = omega arith in l) in
    omega (arith, bound_of_chunks size f files c)

Inverts-of_rows :
    (size : ℕ) (rs : List Int40) (pairs_files : List (List InverseRecord)) (rows : List (List ℕ))
    → length rs ≤ 2 ^ 40
    → All (λ x. i40_load x < 2 ^ 40) rs
    → ((b : ℕ) → get_or pairs_files b [] ≡ bucket size 0 b rs)
    → AreRows size pairs_files rows
    → Inverts size rs rows
Inverts-of_rows size rs pairs_files rows few small buckets rows_ok p x e =
    let r = i40_load x in
    let b = r / size in
    let row = get_or rows b [] in
    let placed = rw (buckets b) at (rows_ok.1 b) in
    let got = pair_in_bucket (IsInverted size row) size 0 b rs p x e refl placed in
    let x_small = at_index rs p x e small in
    let p_small : 0 + p < 2 ^ 40 = omega (arith, get_elem?-lt rs p x e) in
    let same : 0 + p ≡ p = omega arith in
    ap (get_elem? row) (sym (slot-pair_of size (0 + p) x x_small))
    ∙ got
    ∙ ap some (i40_load-store (0 + p) p_small ∙ same)

-- If the files of ranks, of which all but the last have chunk-size entries and none is empty or
-- too long, hold each of the ranks from 0 up to below their number of at most 2 ^ 40 entries
-- exactly once, then create_pairs and invert over all chunks, with no pairs files before, with
-- buffers of at least and arrays of exactly the chunk size, whatever they hold, access no array
-- out of bounds and write as many suffix array files, in which entry rank % size of file rank /
-- size is the position of each rank.
pub invert_ranks_lem :
    (size : ℕ) (buffers : ℕ → List InverseRecord) (arrays : ℕ → List ℕ) (f : List Int40)
    (files : List (List Int40))
    → 0 < size
    → ((c : ℕ) → size ≤ length (buffers c))
    → ((c : ℕ) → length (arrays c) ≡ size)
    → IsChunked size (f ∷ files)
    → length (all_of (f ∷ files)) ≤ 2 ^ 40
    → IsRanking (length (all_of (f ∷ files))) (ranks_in (all_of (f ∷ files)))
    → Gives
        (λ sa_files.
          (length sa_files ≡ length (f ∷ files)) × Inverts size (all_of (f ∷ files)) sa_files)
        (invert_ranks size buffers arrays (f ∷ files))
unfolding invert_ranks
invert_ranks_lem size buffers arrays f files p rooms full chunked few ranking =
    let rs = all_of (f ∷ files) in
    let N = length rs in
    let total = length (f ∷ files) in
    let small = all_small N rs few ranking.bounded in
    let inside =
      all_in_chunks size total N rs p (top_of_chunks size (f ∷ files) chunked) ranking.bounded in
    Gives-bind
      (create_all_lem total size buffers (omega arith) rooms 0 (f ∷ files) (replicate total [])
        chunked inside (length-replicate total []))
      (λ pairs_files made.
        let buckets : (b : ℕ) → get_or pairs_files b [] ≡ bucket size 0 b rs = λ b.
          made.each b
          ∙ ap (λ t. t ++ bucket size (0 * size) b rs) (get_or-nothing total b)
          ∙ ap (λ i. bucket size i b rs) (omega arith) in
        let invertible = All-of_get_or (IsInvertible size) pairs_files (λ b hb. rw (buckets b) (
          bucket-IsInvertible size N rs p ranking b
            (starts_below size b f files chunked (omega (arith, made.number))) small)) in
        Gives-map (invert_all_lem size 0 arrays pairs_files p full invertible) (λ rows ok.
          (ok.0 ∙ made.number, Inverts-of_rows size rs pairs_files rows few small buckets ok)))
