-- ===== src/Location.antt =====
-- src/algorithm.h: next_rank_loc, which says where the rank of position i + prefix_len is stored.
-- Chunk numbers stay below 2 ^ 31, so the cast of the distance to int changes nothing.
use native.Mathlib.Nat.{div-add-mod', mul-le-mul_right}
use suffix_rank.Base.{
  ℕ, ◌+◌, ◌*◌, ◌/◌, ◌%◌, ◌<◌, ◌≤◌, ◌≡◌, ◌↔◌, Bool, true, arith, ltb, Bool-cases, inl, inr,
}

-- `NextRankLoc`
pub record NextRankLoc : Type 0 where
  pub off : ℕ
  pub base_chunk : ℕ
  pub is_empty : Bool

-- `base_chunk > total_chunks - 1` on int, written without the subtraction.
unfoldable pub next_rank_loc : ℕ → ℕ → ℕ → ℕ → NextRankLoc
next_rank_loc prefix_len working_chunk_size chunk_id total_chunks =
    let dist = prefix_len / working_chunk_size in
    let off = prefix_len % working_chunk_size in
    let base_chunk = chunk_id + dist in
    record { off = off; base_chunk = base_chunk; is_empty = ltb total_chunks (base_chunk + 1) }

module _ (prefix_len size chunk_id total_chunks : ℕ) (pos : 0 < size) where
  abbrev loc : NextRankLoc
  loc = next_rank_loc prefix_len size chunk_id total_chunks

  pub off_lt : loc.off < size
  unfolding next_rank_loc
  off_lt = grind arith

  -- For a positive chunk size, position chunk_id * size + i + prefix_len is entry off + i counted
  -- from the start of base_chunk.
  pub next_position :
      (i : ℕ) → chunk_id * size + i + prefix_len ≡ loc.base_chunk * size + (loc.off + i)
  unfolding next_rank_loc
  next_position i = omega (arith, div-add-mod' prefix_len size)

  -- For a positive chunk size, next_rank_loc says EMPTY exactly if the next-rank position of the
  -- first entry of the chunk, and so of each, lies behind the last chunk.
  pub is_empty_iff : (loc.is_empty ≡ true) ↔ (total_chunks * size ≤ chunk_id * size + prefix_len)
  unfolding next_rank_loc
  is_empty_iff =
      let q = prefix_len / size in
      let split = div-add-mod' prefix_len size in
      let rest : prefix_len % size < size = grind arith in
      (
        λ e.
            let past : total_chunks ≤ chunk_id + q = ground arith in
            let scaled : total_chunks * size ≤ (chunk_id + q) * size = mul-le-mul_right size past in
            omega arith,
        λ h. elim (Bool-cases (ltb total_chunks (chunk_id + q + 1))) [
          | inl e ↦ e
          | inr e ↦
              let inside : chunk_id + q + 1 ≤ total_chunks = ground arith in
              let scaled : (chunk_id + q + 1) * size ≤ total_chunks * size =
                mul-le-mul_right size inside in
              absurd (omega arith)
        ],
      )
