-- ===== src/Verify/Partition.antt =====
-- verify_partition of src/verify.c: every position of the input, with its rank, its next rank and the
-- key of its symbol, goes to the file of the chunk of ranks that its rank lies in. An opened file is
-- the list of its entries; the files of the writers are the lists of the records written.
pub mod Writer
pub mod Spec
pub mod Loop
pub mod Step
pub mod Correct
use suffix_rank.Base.{
  ℕ, zero, suc, ◌+◌, ◌-◌, ◌*◌, ◌/◌, ◌^◌, List, [], ◌∷◌, ◌++◌, map, Option, none, some, length,
  get_elem?, store, take, replicate, ◌==◌, ltb, leb, if◌then◌else◌,
}
use suffix_rank.Base.Int.{ℤ, pos, negsuc}
use suffix_rank.Format.{Int40, i40_load}
use suffix_rank.Input.{InputStream, Status, Symbol, input_stream_open, input_stream_next}
use suffix_rank.Verify.Records.{
  Verdict, success, failure, fault, ◌>>=◌, ◌>>◌, guard, access, VerifyRecord, encode_first_key,
}
use suffix_rank.Verify.Partition.Writer.{PartitionWriter, pw_init, pw_emit, pw_close}

-- SUCCESS with a symbol; any other status is a message and FAILURE.
abbrev pub symbol_of : Status → Verdict Symbol
symbol_of (Status.success x) = success x
symbol_of Status.empty = failure

-- What is left must be nothing.
abbrev pub empty_of : Status → Verdict (Unit {0})
empty_of (Status.success x) = failure
empty_of Status.empty = success tt

-- The first rank of the next chunk, if there is a next chunk.
abbrev pub peek : List (List Int40) → Verdict (Option Int40)
peek [] = success none
peek ([] ∷ files) = failure
peek ((r ∷ rs) ∷ files) = success (some r)

abbrev pub next_rank_of : List Int40 → Option Int40 → ℤ
next_rank_of [] none = negsuc 0
next_rank_of [] (some r) = pos (i40_load r)
next_rank_of (r ∷ rs) next_first = pos (i40_load r)

-- `pw_emit(&writers[target], &rec)`
unfoldable pub emit_to : List PartitionWriter → ℕ → VerifyRecord → Verdict (List PartitionWriter)
emit_to writers target rec = do
  w ← access (get_elem? writers target)
  w' ← access (pw_emit w rec)
  access (store writers target w')

module _ (size total_chunks : ℕ) where
  -- The body of the loop over the ranks of a chunk.
  unfoldable pub partition_position :
      ℕ
      → ℤ
      → Int40
      → InputStream
      → List PartitionWriter
      → Verdict (InputStream × List PartitionWriter)
  partition_position position next_rank r stream writers = do
    (status, stream') ← access (input_stream_next stream)
    x ← symbol_of status
    let target = i40_load r / size
    let slot = i40_load r - target * size
    guard (ltb target total_chunks)
    guard (leb slot (2 ^ 32 - 1))
    writers' ← emit_to writers target (record {
      position = position;
      next_rank = next_rank;
      slot = slot;
      first_key = encode_first_key x.out_char x.out_sent_id;
    })
    success (stream', writers')

  unfoldable pub partition_ranks :
      ℕ
      → Option Int40
      → List Int40
      → InputStream
      → List PartitionWriter
      → Verdict (InputStream × List PartitionWriter)
  partition_ranks position next_first [] stream writers = success (stream, writers)
  partition_ranks position next_first (r ∷ rs) stream writers = do
    (stream', writers') ← partition_position position (next_rank_of rs next_first) r stream writers
    partition_ranks (position + 1) next_first rs stream' writers'

  -- The loop over the chunks.
  unfoldable pub partition_chunks :
      ℕ
      → List (List Int40)
      → InputStream
      → List PartitionWriter
      → Verdict (InputStream × List PartitionWriter)
  partition_chunks chunk_id [] stream writers = success (stream, writers)
  partition_chunks chunk_id (file ∷ files) stream writers = do
    next_first ← peek files
    (stream', writers') ←
        partition_ranks (chunk_id * size) next_first (take size file) stream writers
    partition_chunks (chunk_id + 1) files stream' writers'

unfoldable pub verify_partition :
    ℕ → List ℕ → List (List Int40) → Verdict (List (List VerifyRecord))
verify_partition size input_bytes ranks_files =
    let total_chunks = length ranks_files in
    let parts : Verdict (List (List VerifyRecord)) = do
      (stream, writers) ←
          partition_chunks size total_chunks 0 ranks_files (input_stream_open input_bytes)
            (replicate total_chunks pw_init)
      (status, stream') ← access (input_stream_next stream)
      empty_of status
      success (map pw_close writers)
    in if ltb (2 ^ 32 - 1) size then failure else parts
