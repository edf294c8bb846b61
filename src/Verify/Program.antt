-- ===== src/Verify/Program.antt =====
-- main of src/verify.c, with its arguments parsed and its files opened: one file of ranks and one file
-- of the suffix array for each chunk.
use suffix_rank.Base.{ℕ, List, length, ltb}
use suffix_rank.Format.{Int40}
use suffix_rank.Verify.Records.{Verdict, ◌>>=◌, ◌>>◌, guard}
use suffix_rank.Verify.Partition.{verify_partition}
use suffix_rank.Verify.Check.{LongFile, verify_check}

-- The number is what the last message reports.
unfoldable pub verify : ℕ → List ℕ → List (List Int40) → List LongFile → Verdict ℕ
verify size input_bytes ranks_files sa_files = do
  let total_chunks = length ranks_files
  guard (ltb 0 total_chunks)
  parts ← verify_partition size input_bytes ranks_files
  verify_check size parts sa_files
