-- ===== src/Inversion.antt =====
-- The last two programs, src/create_pairs.c and src/invert.c, one after the other: their loops over the
-- chunks, on opened files. What earlier rounds leave in a buffer is a parameter, for each round.
pub mod Distinct
pub mod Buckets
pub mod Create
pub mod Rows
pub mod Correct
use suffix_rank.Base.{ℕ, ◌+◌, List, [], ◌∷◌, ◌++◌, Option, none, some, length, replicate, ◌>>=◌}
use suffix_rank.Format.{Int40}
use suffix_rank.Inverse.{InverseRecord, invert}
use suffix_rank.Pairs.{create_pairs}

-- Each part is appended to its file.
abbrev pub append_parts :
    List (List InverseRecord) → List (List InverseRecord) → List (List InverseRecord)
append_parts [] parts = []
append_parts (f ∷ files) [] = f ∷ files
append_parts (f ∷ files) (p ∷ parts) = (f ++ p) ∷ append_parts files parts

-- The loop of main of create_pairs.
unfoldable pub create_all :
    ℕ
    → ℕ
    → (ℕ → List InverseRecord)
    → ℕ
    → List (List Int40)
    → List (List InverseRecord)
    → Option (List (List InverseRecord))
create_all total_chunks size buffers chunk_id [] pairs_files = some pairs_files
create_all total_chunks size buffers chunk_id (ranks_file ∷ ranks_files) pairs_files = do
  parts ← create_pairs total_chunks size chunk_id ranks_file (buffers chunk_id)
  create_all total_chunks size buffers (chunk_id + 1) ranks_files (append_parts pairs_files parts)

-- The loop of main of invert.
unfoldable pub invert_all :
    ℕ → (ℕ → List ℕ) → ℕ → List (List InverseRecord) → Option (List (List ℕ))
invert_all size arrays chunk_id [] = some []
invert_all size arrays chunk_id (pairs ∷ pairs_files) = do
  sa ← invert size pairs (arrays chunk_id)
  rest ← invert_all size arrays (chunk_id + 1) pairs_files
  some (sa ∷ rest)

-- Both programs; the files of pairs are empty before.
unfoldable pub invert_ranks :
    ℕ → (ℕ → List InverseRecord) → (ℕ → List ℕ) → List (List Int40) → Option (List (List ℕ))
invert_ranks size buffers arrays ranks_files = do
  let total_chunks = length ranks_files
  pairs_files ← create_all total_chunks size buffers 0 ranks_files (replicate total_chunks [])
  invert_all size arrays 0 pairs_files
