-- ===== src/Tests/UpdateRuns.antt =====
-- One chunk of src/update.c: three live positions, of which the merge resolved the second.
use suffix_rank.Base.{List, [], ◌∷◌, refl, arith, Gives}
use suffix_rank.Format.{Int40}
use suffix_rank.Format.Runs.{Run, encode, encode_run}
use suffix_rank.Location.{next_rank_loc}
use suffix_rank.Update.{Chunk, update_local_ranks}
use suffix_rank.Update.Entries.{marks}
use suffix_rank.Update.Correct.{Input, UpdateIsRight, update_local_ranks_lem}
use suffix_rank.Update.Invariant.{IsChunk, update_local_ranks-IsChunk}
use suffix_rank.Tests.{blanks, zero40}

abbrev runs : List Run
runs =
    record { rank = 4; count = 1 }
    ∷ record { rank = 5; count = 0 }
    ∷ record { rank = 6; count = 1 }
    ∷ []

abbrev chunk : Chunk
chunk = record {
  ranks_file = zero40 ∷ zero40 ∷ zero40 ∷ zero40 ∷ [];
  sa_file = 3 ∷ 1 ∷ 2 ∷ [];
  currents_file = [];
  lo = 1;
  stop = 4;
}

abbrev buffer : List Int40
buffer = zero40 ∷ zero40 ∷ zero40 ∷ zero40 ∷ []

chunk-Input : Input 2 0 4 4 chunk runs buffer (blanks 2)
unfolding encode encode_run marks next_rank_loc
chunk-Input = record {
  inside = refl;
  some_runs = omega arith;
  fits = omega arith;
  stored = ground arith;
  covered = refl;
  live = ground arith;
  window = omega arith;
  ranks = omega arith;
  allocated = refl;
}

chunk-IsChunk : IsChunk 4 chunk
chunk-IsChunk = record {
  live = ground arith;
  ranks = omega arith;
  sized = omega arith;
  bounded = omega arith;
}

update_local_ranks_lem_example :
    Gives
      (UpdateIsRight 4 chunk runs)
      (update_local_ranks 2 0 4 4 chunk (encode runs) buffer (blanks 2))
update_local_ranks_lem_example =
    update_local_ranks_lem 2 0 4 4 chunk runs buffer (blanks 2) chunk-Input

update_local_ranks-IsChunk_example :
    Gives (λ r. IsChunk 4 r.1) (update_local_ranks 2 0 4 4 chunk (encode runs) buffer (blanks 2))
update_local_ranks-IsChunk_example =
    update_local_ranks-IsChunk 2 0 4 4 chunk runs buffer (blanks 2) chunk-Input chunk-IsChunk

-- The merge has no ranks for the second chunk.
abbrev two_chunks : List (Chunk × List Run)
two_chunks = (chunk, runs) ∷ (chunk, []) ∷ []
