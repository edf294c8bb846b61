-- ===== src/Refine.antt =====
-- src/refine.cpp: generate_local_runs_fast, which turns the ranks found prefix_len positions ahead
-- into the (next_rank, count) runs of a chunk.
-- A file is the list of its records. A window is (lo, hi + 1), so the empty window of the bounds
-- file, (0, -1), is (0, 0), and `hi >= lo` is `lo < stop`.
pub mod Scan
pub mod Load
pub mod Correct
pub mod Loop
use suffix_rank.Base.{
  ℕ, suc, ◌+◌, ◌-◌, ◌*◌, ◌/◌, ◌<◌, ◌≤◌, ◌≡◌, Bool, List, [], ◌∷◌, ◌++◌, Option, none, some, take,
  drop, get_elem?, length, replicate, set, ltb, leb, ◌==◌, ◌&&◌, if◌then◌else◌, ◌>>=◌, true, false,
}
use suffix_rank.Format.{Int40, i40_load, RankRun}
use suffix_rank.Format.Writer.{Writer, emit_run, close_runs}
use suffix_rank.Files.{fread, fread_front}
use suffix_rank.Location.{NextRankLoc, next_rank_loc}

-- `SUCCESS` and `EMPTY`
pub data Status : Type 0 where
  success empty : Status

-- A call of fread on a ranks file, from record `from` on, into the buffer from index `at` on.
abbrev pub read_ranks : List Int40 → ℕ → List Int40 → ℕ → ℕ → Option (List Int40)
read_ranks buffer at file from count = fread buffer at count (drop from file)

-- The base_chunk part: indices below p_split = size - off, at file index off + p.
pub read_base : (ℕ → List Int40) → NextRankLoc → ℕ → ℕ → ℕ → List Int40 → Option (List Int40)
read_base ranks loc size lo stop buffer =
    let p_split = size - loc.off in
    let a_stop = if ltb stop p_split then stop else p_split in
    if ltb lo a_stop
    then read_ranks buffer lo (ranks loc.base_chunk) (loc.off + lo) (a_stop - lo)
    else some buffer

-- The base_chunk + 1 part: indices from p_split on, at file index off + p - size.
pub read_spill : (ℕ → List Int40) → NextRankLoc → ℕ → ℕ → ℕ → ℕ → List Int40 → Option (List Int40)
read_spill ranks loc total_chunks size lo stop buffer =
    let p_split = size - loc.off in
    let b_lo = if ltb p_split lo then lo else p_split in
    if ltb b_lo stop && ltb (loc.base_chunk + 1) total_chunks
    then read_ranks buffer b_lo (ranks (loc.base_chunk + 1)) (loc.off + b_lo - size) (stop - b_lo)
    else some buffer

-- Fill next_ranks_buffer for the live window.
unfoldable pub load_next_ranks :
    (ℕ → List Int40) → NextRankLoc → ℕ → ℕ → ℕ → ℕ → List Int40 → Option (List Int40)
load_next_ranks ranks loc total_chunks size lo stop buffer =
    let shifted =
      read_base ranks loc size lo stop buffer >>= read_spill ranks loc total_chunks size lo stop in
    if leb stop lo
    then some buffer
    else if loc.off == 0
    then read_ranks buffer lo (ranks loc.base_chunk) lo (stop - lo)
    else shifted

-- The loop over sa_buffer behind its first entry; it ends with the call of emit_run below it. The
-- scan that seeds the currents stream in init.cpp is the same loop over the ranks of the chunk.
pub scan_runs : ℕ → List Int40 → List ℕ → ℕ → ℕ → Writer → Option Writer
scan_runs capacity ranks [] cur_n cur_count w = emit_run capacity cur_n cur_count w
scan_runs capacity ranks (p ∷ sa) cur_n cur_count w = do
  v ← get_elem? ranks p
  let n = i40_load v
  let longer = scan_runs capacity ranks sa cur_n (suc cur_count) w
  let ended = emit_run capacity cur_n cur_count w >>= scan_runs capacity ranks sa n 1
  if n == cur_n then longer else ended

-- The first entry opens the first run; an empty suffix array is EMPTY.
unfoldable pub scan : ℕ → List Int40 → List ℕ → Writer → Option (Status × List RankRun)
unfolding scan_runs
scan capacity ranks [] w = some (empty, w.file)
scan capacity ranks (p ∷ sa) w = do
  v ← get_elem? ranks p
  w' ← scan_runs capacity ranks sa (i40_load v) 1 w
  some (success, close_runs w')

-- `nexts` is the file as it was opened for appending, `sa` the chunk's suffix array file. The
-- result has the status, the new nexts file and the buffer of next ranks.
unfoldable pub generate_local_runs :
    (ℕ → List Int40)
    → List ℕ
    → List RankRun
    → ℕ
    → ℕ
    → ℕ
    → ℕ
    → ℕ
    → ℕ
    → List Int40
    → List RankRun
    → Option (Status × List RankRun × List Int40)
generate_local_runs ranks sa nexts total_chunks chunk_id prefix_len size lo stop next_ranks runs =
    let loc = next_rank_loc prefix_len size chunk_id total_chunks in
    let w : Writer = record { buf = runs; out_count = 0; file = nexts } in
    let scanned : Option (Status × List RankRun × List Int40) = do
      buffer ← load_next_ranks ranks loc total_chunks size lo stop next_ranks
      positions ← fread_front size size sa
      (s, file) ← scan (size / 3) buffer positions w
      some (s, file, buffer)
    in if loc.is_empty then some (empty, nexts, next_ranks) else scanned

-- A result that is not EMPTY means more runs.
abbrev pub add_result : Status → Status → Status
add_result more_runs success = success
add_result more_runs empty = more_runs

-- What a chunk has on disk before a round: its suffix array file, its nexts file and its window.
pub record RefineChunk : Type 0 where
  pub sa : List ℕ
  pub nexts : List RankRun
  pub lo : ℕ
  pub stop : ℕ

-- The loop of main over the chunks: whether there are more runs, and the nexts files. All chunks use
-- the one buffer of next ranks; what earlier chunks leave in runs_buffer is a parameter.
unfoldable pub refine_all :
    (ℕ → List Int40)
    → ℕ
    → ℕ
    → ℕ
    → (ℕ → List RankRun)
    → ℕ
    → List RefineChunk
    → Status
    → List Int40
    → Option (Status × List (List RankRun))
refine_all ranks total_chunks prefix_len size runs chunk_id [] more_runs next_ranks =
    some (more_runs, [])
refine_all ranks total_chunks prefix_len size runs chunk_id (c ∷ chunks) more_runs next_ranks = do
  (result, file, buffer) ←
      generate_local_runs ranks c.sa c.nexts total_chunks chunk_id prefix_len size c.lo c.stop
        next_ranks (runs chunk_id)
  (more, files) ←
      refine_all ranks total_chunks prefix_len size runs (chunk_id + 1) chunks
        (add_result more_runs result) buffer
  some (more, file ∷ files)
