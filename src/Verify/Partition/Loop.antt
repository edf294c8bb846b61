-- ===== src/Verify/Partition/Loop.antt =====
-- The nested loops of verify_partition of src/verify.c as one loop over all ranks, and its step.
use suffix_rank.Base.{
  ℕ, suc, ◌+◌, ◌*◌, ◌<◌, ◌≤◌, ◌≡◌, refl, ap, sym, ◌∙◌, List, [], ◌∷◌, ◌++◌, map, Option, none, some,
  arith, length, take-eq_of_le,
}
use suffix_rank.Files.Chunked.{IsChunked, all_of}
use suffix_rank.Format.{Int40, i40_load}
use suffix_rank.Input.{InputStream, input_stream_open}
use suffix_rank.Input.Symbols.{ended}
use suffix_rank.Verify.Records.{Verdict, success, ◌>>=◌, bind_assoc, bind_ext}
use suffix_rank.Verify.Partition.{
  peek, next_rank_of, partition_position, partition_ranks, partition_chunks,
}
use suffix_rank.Verify.Partition.Spec.{keys, next_of}
use suffix_rank.Verify.Partition.Writer.{PartitionWriter}

-- The stream with the bytes that are left, or after the sentinel.
abbrev pub over : Option (List ℕ) → InputStream
over none = ended
over (some bytes) = input_stream_open bytes

abbrev pub keys_left : Option (List ℕ) → List ℕ
keys_left none = []
keys_left (some bytes) = keys bytes

-- The stream after one symbol.
abbrev pub one_less : Option (List ℕ) → Option (List ℕ)
one_less none = none
one_less (some []) = none
one_less (some (b ∷ bytes)) = some bytes

abbrev pub ranks_in : List Int40 → List ℕ
ranks_in rs = map i40_load rs

abbrev pub head_rank : List Int40 → Option Int40
head_rank [] = none
head_rank (r ∷ rs) = some r

module _ (size total_chunks : ℕ) where
  -- The loop over all ranks.
  unfoldable pub partition_all :
      ℕ
      → List Int40
      → InputStream
      → List PartitionWriter
      → Verdict (InputStream × List PartitionWriter)
  partition_all position [] stream writers = success (stream, writers)
  partition_all position (r ∷ rs) stream writers =
      partition_position size total_chunks position (next_of (ranks_in rs)) r stream writers
      >>= λ (stream', writers'). partition_all (position + 1) rs stream' writers'

  next_rank-append :
      (xs ys : List Int40) → next_rank_of xs (head_rank ys) ≡ next_of (ranks_in (xs ++ ys))
  next_rank-append [] [] = refl
  next_rank-append [] (y ∷ ys) = refl
  next_rank-append (x ∷ xs) ys = refl

  partition_all-append :
      (position : ℕ) (xs ys : List Int40) (stream : InputStream) (writers : List PartitionWriter)
      → partition_all position (xs ++ ys) stream writers ≡ (
          partition_ranks size total_chunks position (head_rank ys) xs stream writers
          >>= λ (stream', writers'). partition_all (position + length xs) ys stream' writers')
  unfolding partition_all partition_ranks
  partition_all-append position [] ys stream writers =
      let e : position + 0 ≡ position = omega arith in rw e refl
  partition_all-append position (x ∷ xs) ys stream writers =
      let body = partition_position size total_chunks position in
      let e : position + 1 + length xs ≡ position + suc (length xs) = omega arith in
      rw (next_rank-append xs ys) (
        sym (
          bind_assoc (body (next_of (ranks_in (xs ++ ys))) x stream writers) _ _
          ∙ bind_ext (body (next_of (ranks_in (xs ++ ys))) x stream writers) _ _
              (λ (s', w'). rw e at (sym (partition_all-append (position + 1) xs ys s' w')))))

  head_rank-all_of :
      (g : List Int40) (files : List (List Int40))
      → IsChunked size (g ∷ files)
      → 0 < size
      → peek (g ∷ files) ≡ success (head_rank (all_of (g ∷ files)))
  head_rank-all_of [] [] h p = absurd (omega arith)
  head_rank-all_of [] (f ∷ files) h p = absurd (omega arith)
  head_rank-all_of (r ∷ g) files h p = refl

  pub partition_chunks-eq-all :
      (chunk_id : ℕ) (files : List (List Int40)) (stream : InputStream)
      (writers : List PartitionWriter)
      → 0 < size
      → IsChunked size files
      → partition_chunks size total_chunks chunk_id files stream writers
        ≡ partition_all (chunk_id * size) (all_of files) stream writers
  unfolding partition_chunks
  partition_chunks-eq-all chunk_id [] stream writers p h = unfold partition_all in refl
  partition_chunks-eq-all chunk_id (f ∷ []) stream writers p h = rw (take-eq_of_le size f h.1) (
      sym
        (partition_all-append (chunk_id * size) f [] stream writers ∙ unfold partition_all in refl))
  partition_chunks-eq-all chunk_id (f ∷ g ∷ files) stream writers p h =
      let e : (chunk_id + 1) * size ≡ chunk_id * size + length f = grind arith in
      let short : length f ≤ size = omega arith in
      rw (take-eq_of_le size f short, head_rank-all_of g files h.1 p)
        (sym (
          partition_all-append (chunk_id * size) f (all_of (g ∷ files)) stream writers
          ∙ bind_ext
              (partition_ranks size total_chunks (chunk_id * size) (head_rank (all_of (g ∷ files)))
                f stream writers)
              _ _
              (λ (s', w'). sym (
                partition_chunks-eq-all (chunk_id + 1) (g ∷ files) s' w' p h.1
                ∙ ap (λ q. partition_all q (all_of (g ∷ files)) s' w') e))))
