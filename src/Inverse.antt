-- ===== src/Inverse.antt =====
-- src/invert.c: one chunk of the suffix array from the (position, rank) pairs whose rank lies in it.
-- The pairs are the InverseRecord of src/algorithm.h.
pub mod Correct
use suffix_rank.Base.{ℕ, ◌%◌, List, [], ◌∷◌, Option, some, length, store, take, ◌>>=◌}
use suffix_rank.Format.{Int40, i40_load}

-- `InverseRecord`
pub record InverseRecord : Type 0 where
  pub index : Int40
  pub value : Int40

-- `suffixarray[value % working_chunk_size] = index`, for every record.
unfoldable pub invert_loop : ℕ → List InverseRecord → List ℕ → Option (List ℕ)
invert_loop size [] suffixarray = some suffixarray
invert_loop size (r ∷ rs) suffixarray = do
  sa ← store suffixarray (i40_load r.value % size) (i40_load r.index)
  invert_loop size rs sa

-- At most size pairs are read; as many entries are written as pairs were read.
unfoldable pub invert : ℕ → List InverseRecord → List ℕ → Option (List ℕ)
unfolding invert_loop
invert size pairs suffixarray =
    let pairs_buffer = take size pairs in
    do sa ← invert_loop size pairs_buffer suffixarray; some (take (length pairs_buffer) sa)
