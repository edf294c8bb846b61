-- ===== src/Bounds.antt =====
-- bounds_load and bounds_store of src/utils.c: the active-position windows of all chunks, in one file of
-- two ints for each chunk. The file is the list of its ints.
pub mod RoundTrip
use suffix_rank.Base.{
  ℕ, zero, suc, ◌+◌, ◌*◌, ◌/◌, List, Option, none, some, length, get_elem?, store, take, replicate,
  ltb, if◌then◌else◌, ◌>>=◌,
}
use suffix_rank.Base.Int.{ℤ, pos}
use suffix_rank.Files.{fread}

-- The loop that puts the windows of rounds chunks, from chunk c on, into the buffer.
unfoldable pub fill_bounds : ℕ → ℕ → List ℤ → List ℤ → List ℤ → Option (List ℤ)
fill_bounds zero c lo hi buf = some buf
fill_bounds (suc rounds) c lo hi buf = do
  l ← get_elem? lo c
  buf' ← store buf (2 * c) l
  h ← get_elem? hi c
  buf'' ← store buf' (2 * c + 1) h
  fill_bounds rounds (c + 1) lo hi buf''

-- The file that is written.
unfoldable pub bounds_store : ℕ → List ℤ → List ℤ → Option (List ℤ)
bounds_store total_chunks lo hi =
    fill_bounds total_chunks 0 lo hi (replicate (total_chunks * 2) (pos 0))

-- The loop that takes them out of the buffer.
unfoldable pub take_bounds : ℕ → ℕ → List ℤ → List ℤ → List ℤ → Option (List ℤ × List ℤ)
take_bounds zero c buf lo hi = some (lo, hi)
take_bounds (suc rounds) c buf lo hi = do
  l ← get_elem? buf (2 * c)
  lo' ← store lo c l
  h ← get_elem? buf (2 * c + 1)
  hi' ← store hi c h
  take_bounds rounds (c + 1) buf lo' hi'

-- Both arrays, or `exit(1)` after a message.
pub data Loaded : Type 0 where
  loaded : List ℤ → List ℤ → Loaded
  short_read : Loaded

unfoldable pub bounds_load : ℕ → List ℤ → List ℤ → List ℤ → Option Loaded
bounds_load total_chunks file lo hi = do
  buf ← fread (replicate (total_chunks * 2) (pos 0)) 0 (total_chunks * 2) file
  let arrays : Option Loaded =
      take_bounds total_chunks 0 buf lo hi >>= λ (lo', hi'). some (loaded lo' hi')
  if ltb (length file / 2) total_chunks then some short_read else arrays
