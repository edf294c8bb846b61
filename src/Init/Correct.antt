-- ===== src/Init/Correct.antt =====
-- The first currents stream, which src/init.cpp writes.
use suffix_rank.Base.{
  ℕ, ◌≤◌, ◌≡◌, refl, inl, List, [], ◌∷◌, some, arith, length, get_elem?-eq-get_or, get_or,
  Gives-inv,
}
use suffix_rank.Format.{Int40, RankRun, i40_load}
use suffix_rank.Format.Groups.{group}
use suffix_rank.Format.Runs.{encode}
use suffix_rank.Format.Writer.{Writer, close_runs-eq-written}
use suffix_rank.Refine.Scan.{unread, ranks_at, IsInside, scan_runs_lem}
use suffix_rank.Init.{seed_capacity, seed_currents}

-- With the buffer that init allocates and a nonempty suffix array of positions inside the chunk,
-- the seeding scan stays inside its buffer and writes the encoding of the maximal groups of equal
-- ranks along the suffix array.
pub seed_currents_lem :
    (working_chunk_size : ℕ) (ranks : List Int40) (p : ℕ) (sa : List ℕ)
    (currents_buf : List RankRun)
    → length currents_buf ≡ seed_capacity working_chunk_size
    → IsInside ranks (p ∷ sa)
    → seed_currents (seed_capacity working_chunk_size) ranks (p ∷ sa) currents_buf
      ≡ some (encode (group (ranks_at ranks (p ∷ sa))))
unfolding seed_currents
seed_currents_lem working_chunk_size ranks p sa currents_buf allocated inside =
    let capacity = seed_capacity working_chunk_size in
    let w : Writer = record { buf = currents_buf; out_count = 0; file = [] } in
    let x = i40_load (get_or ranks p unread) in
    let two : 2 ≤ capacity = ground arith in
    let (w', e, (valid, wrote)) = Gives-inv (
      scan_runs_lem capacity ranks sa x 0 w (omega arith, inl two)
        (record { allocated = allocated; inside = omega arith }) inside.1) in
    rw (get_elem?-eq-get_or ranks p unread inside.0, e, close_runs-eq-written w', wrote) refl
