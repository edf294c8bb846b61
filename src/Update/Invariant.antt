-- ===== src/Update/Invariant.antt =====
-- The invariant of a chunk between the rounds, for src/update.c.
use suffix_rank.Base.{
  ℕ, ◌+◌, ◌<◌, ◌≤◌, inl, inr, List, [], ◌∷◌, arith, length, take, length-take, All, ltb, leb,
  if◌then◌else◌, Bool-cases, Gives, Gives-map,
}
use suffix_rank.Format.{Int40, RankRun}
use suffix_rank.Format.Runs.{Run, encode}
use suffix_rank.Update.{int_max, Chunk, update_local_ranks}
use suffix_rank.Update.Entries.{Mark, marks, survivors, lowest, highest, length-ranked}
use suffix_rank.Update.Correct.{IsLive, Input, new_chunk, update_local_ranks_lem}

pub record IsChunk (size : ℕ) (c : Chunk) : Type 0 where
  pub live : All (IsLive c.lo c.stop) c.sa_file
  pub ranks : c.stop ≤ length c.ranks_file
  pub sized : length c.sa_file ≤ size
  pub bounded : c.stop ≤ size

lowest_le : (ps : List ℕ) (a : ℕ) → lowest ps a ≤ a
unfolding lowest
lowest_le [] a = omega arith
lowest_le (p ∷ ps) a = ground (arith, lowest_le ps (if ltb p a then p else a))

le_highest : (ps : List ℕ) (a : ℕ) → a ≤ highest ps a
unfolding highest
le_highest [] a = omega arith
le_highest (p ∷ ps) a = ground (arith, le_highest ps (if ltb a (p + 1) then p + 1 else a))

lowest_le_head : (p : ℕ) (ps : List ℕ) (a : ℕ) → lowest (p ∷ ps) a ≤ p
unfolding lowest
lowest_le_head p ps a = ground (arith, lowest_le ps (if ltb p a then p else a))

head_lt_highest : (p : ℕ) (ps : List ℕ) (a : ℕ) → p < highest (p ∷ ps) a
unfolding highest
head_lt_highest p ps a = ground (arith, le_highest ps (if ltb a (p + 1) then p + 1 else a))

narrowed : (ps : List ℕ) (a b : ℕ) → All (IsLive (lowest ps a) (highest ps b)) ps
unfolding lowest highest
narrowed [] a b = tt
narrowed (p ∷ ps) a b = ((lowest_le_head p ps a, head_lt_highest p ps b), narrowed ps _ _)

highest_le :
    (lo stop : ℕ) (ps : List ℕ) (a : ℕ) → All (IsLive lo stop) ps → a ≤ stop → highest ps a ≤ stop
unfolding highest
highest_le lo stop [] a live h = h
highest_le lo stop (p ∷ ps) a ((b, b'), live) h =
    highest_le lo stop ps (if ltb a (p + 1) then p + 1 else a) live (ground arith)

survivors-All : (P : ℕ → Type 0) (ks : List Mark) (ps : List ℕ) → All P ps → All P (survivors ks ps)
unfolding survivors
survivors-All P [] ps h = tt
survivors-All P (k ∷ ks) [] h = tt
survivors-All P (k ∷ ks) (p ∷ ps) (a, h) = elim (Bool-cases k.live) [
  | inl e ↦ rw e (a, survivors-All P ks ps h)
  | inr e ↦ rw e (survivors-All P ks ps h)
]

length-survivors : (ks : List Mark) (ps : List ℕ) → length (survivors ks ps) ≤ length ps
unfolding survivors
length-survivors [] ps = omega arith
length-survivors (k ∷ ks) [] = omega arith
length-survivors (k ∷ ks) (p ∷ ps) = ground (arith, length-survivors ks ps)

dead_window :
    (lo stop : ℕ) (ps : List ℕ) → stop ≤ lo → All (IsLive lo stop) ps → All (IsLive 0 0) ps
dead_window lo stop [] h live = tt
dead_window lo stop (p ∷ ps) h ((a, a'), live) = absurd (omega arith)

new_chunk-live :
    (size : ℕ) (c : Chunk) (rs : List Run)
    → All (IsLive (new_chunk size c rs).lo (new_chunk size c rs).stop) (new_chunk size c rs).sa_file
new_chunk-live size c rs =
    let kept = survivors (marks rs) (take size c.sa_file) in
    elim (Bool-cases (leb (highest kept 0) (lowest kept int_max))) [
      | inl e ↦ rw e (dead_window _ _ kept (ground arith) (narrowed kept int_max 0))
      | inr e ↦ rw e (narrowed kept int_max 0)
    ]

pub new_chunk-IsChunk :
    (total_chunks chunk_id prefix_len size : ℕ) (c : Chunk) (rs : List Run) (buffer : List Int40)
    (currents_buf : List RankRun)
    → Input total_chunks chunk_id prefix_len size c rs buffer currents_buf
    → IsChunk size c
    → IsChunk size (new_chunk size c rs)
new_chunk-IsChunk total_chunks chunk_id prefix_len size c rs buffer currents_buf i v =
    let sa = take size c.sa_file in
    let kept = survivors (marks rs) sa in
    let low : highest kept 0 ≤ c.stop =
      highest_le c.lo c.stop kept 0 (survivors-All _ (marks rs) sa i.live) (omega arith) in
    let stop : (new_chunk size c rs).stop ≤ c.stop = ground arith in
    record {
      live = new_chunk-live size c rs;
      ranks = omega (arith, v.ranks, length-ranked (marks rs) sa c.ranks_file, stop);
      sized = omega (arith, length-survivors (marks rs) sa, length-take size c.sa_file);
      bounded = omega (arith, v.bounded, stop);
    }

-- A call of update_local_ranks on such runs keeps the invariant of a chunk: every position of its
-- suffix array lies in its window, the window lies in the ranks file and in the chunk, and the
-- suffix array has at most as many entries as a chunk.
pub update_local_ranks-IsChunk :
    (total_chunks chunk_id prefix_len size : ℕ) (c : Chunk) (rs : List Run) (buffer : List Int40)
    (currents_buf : List RankRun)
    → Input total_chunks chunk_id prefix_len size c rs buffer currents_buf
    → IsChunk size c
    → Gives
        (λ r. IsChunk size r.1)
        (update_local_ranks total_chunks chunk_id prefix_len size c (encode rs) buffer currents_buf)
update_local_ranks-IsChunk total_chunks chunk_id prefix_len size c rs buffer currents_buf i v =
    Gives-map
      (update_local_ranks_lem total_chunks chunk_id prefix_len size c rs buffer currents_buf i)
      λ r e.
        rw e (new_chunk-IsChunk total_chunks chunk_id prefix_len size c rs buffer currents_buf i v)
