-- ===== src/Update/Loop.antt =====
-- The loop of main of src/update.c over all chunks: the chunks and the status behind a round.
use suffix_rank.Base.{ℕ, ◌+◌, ◌≤◌, length, ◌≡◌, List, [], ◌∷◌, All}
use suffix_rank.Format.{Int40, RankRun}
use suffix_rank.Format.Runs.{Run}
use suffix_rank.Update.{Chunk}
use suffix_rank.Update.Correct.{Input, new_chunk}

-- A chunk whose file of global ranks is empty stays as it is.
abbrev pub updated : ℕ → Chunk × List Run → Chunk
updated size (c, []) = c
updated size (c, r ∷ rs) = new_chunk size c (r ∷ rs)

-- No chunk has global ranks.
abbrev pub AreDone : List (Chunk × List Run) → Type 0
AreDone chunks = All (λ x. x.1 ≡ []) chunks

module _ (total_chunks prefix_len size : ℕ) (buffers : ℕ → List Int40)
    (currents : ℕ → List RankRun) where
  -- The runs of each chunk are as update_local_ranks wants them, or there are none, and then its window
  -- lies in the buffer.
  abbrev pub AreInputs : ℕ → List (Chunk × List Run) → Type 0
  AreInputs chunk_id [] = Unit {0}
  AreInputs chunk_id ((c, []) ∷ chunks) =
      (c.stop ≤ length (buffers chunk_id)) × AreInputs (chunk_id + 1) chunks
  AreInputs chunk_id ((c, r ∷ rs) ∷ chunks) =
      Input total_chunks chunk_id prefix_len size c (r ∷ rs) (buffers chunk_id) (currents chunk_id)
      × AreInputs (chunk_id + 1) chunks
