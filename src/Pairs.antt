-- ===== src/Pairs.antt =====
-- src/create_pairs.c: the (position, rank) pairs of one chunk, parted by the chunk that the rank lies in
-- with a counting sort. The parts are what is appended to the files pairs_0, pairs_1, ...
pub mod Cells
pub mod Counts
pub mod Correct
use suffix_rank.Base.{
  ℕ, zero, suc, ◌+◌, ◌-◌, ◌*◌, ◌/◌, List, [], ◌∷◌, Option, none, some, get_elem?, store, take, drop,
  replicate, ◌==◌, if◌then◌else◌, ◌>>=◌,
}
use suffix_rank.Format.{Int40, i40_load, i40_store}
use suffix_rank.Inverse.{InverseRecord}

-- `bucket_starts[i40_load(&current_rank[i]) / working_chunk_size]++`
unfoldable pub count_buckets : ℕ → List Int40 → List ℕ → Option (List ℕ)
count_buckets size [] starts = some starts
count_buckets size (r ∷ rs) starts = do
  c ← get_elem? starts (i40_load r / size)
  starts' ← store starts (i40_load r / size) (c + 1)
  count_buckets size rs starts'

-- The loop that turns the counts into starts.
abbrev pub bucket_starts : ℕ → List ℕ → List ℕ
bucket_starts sum [] = []
bucket_starts sum (temp ∷ counts) = sum ∷ bucket_starts (sum + temp) counts

abbrev pub pair_of : ℕ → Int40 → InverseRecord
pair_of idx r = record { index = i40_store idx; value = i40_store (i40_load r) }

-- The loop that puts every pair at the start of its bucket and moves the start.
unfoldable pub place_pairs :
    ℕ → ℕ → List Int40 → List ℕ → List InverseRecord → Option (List ℕ × List InverseRecord)
place_pairs size idx [] starts buffer = some (starts, buffer)
place_pairs size idx (r ∷ rs) starts buffer = do
  q ← get_elem? starts (i40_load r / size)
  starts' ← store starts (i40_load r / size) (q + 1)
  buffer' ← store buffer q (pair_of idx r)
  place_pairs size (idx + 1) rs starts' buffer'

-- What is written for each chunk: from the end of the bucket before it to the end of its own.
abbrev pub slices : List InverseRecord → ℕ → List ℕ → List (List InverseRecord)
slices buffer start [] = []
slices buffer start (stop ∷ stops) =
    take (stop - start) (drop start buffer) ∷ slices buffer stop stops

-- Without chunks the read of bucket_starts[0] is a fault.
unfoldable pub create_pairs :
    ℕ → ℕ → ℕ → List Int40 → List InverseRecord → Option (List (List InverseRecord))
create_pairs total_chunks size chunk_id ranks_file inverse_buffer =
    let current_rank = take size ranks_file in
    let parts : Option (List (List InverseRecord)) = do
      counts ← count_buckets size current_rank (replicate total_chunks 0)
      (ends, buffer) ←
          place_pairs size (chunk_id * size) current_rank (bucket_starts 0 counts) inverse_buffer
      some (slices buffer 0 ends)
    in if total_chunks == 0 then none else parts
