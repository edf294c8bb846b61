-- ===== src/Init.antt =====
-- src/init.cpp: the part of the chunk loop that seeds the currents stream of a chunk from its ranks and
-- its sorted suffixes. Its loop is that of src/refine.cpp, with its writer inlined.
pub mod Correct
use suffix_rank.Base.{
  ℕ, ◌/◌, List, [], ◌∷◌, Option, none, some, get_elem?, ltb, if◌then◌else◌, ◌>>=◌,
}
use suffix_rank.Format.{Int40, RankRun, i40_load}
use suffix_rank.Format.Writer.{Writer, close_runs}
use suffix_rank.Refine.{scan_runs}

-- `currents_cap`
abbrev pub seed_capacity : ℕ → ℕ
seed_capacity working_chunk_size =
    if ltb (working_chunk_size / 3) 2 then 2 else working_chunk_size / 3

-- `sa[0]` is read first; a chunk without suffixes would be a fault.
unfoldable pub seed_currents : ℕ → List Int40 → List ℕ → List RankRun → Option (List RankRun)
unfolding close_runs
seed_currents capacity ranks [] currents_buf = none
seed_currents capacity ranks (p ∷ sa) currents_buf = do
  v ← get_elem? ranks p
  let w : Writer = record { buf = currents_buf; out_count = 0; file = [] }
  w' ← scan_runs capacity ranks sa (i40_load v) 1 w
  some (close_runs w')
