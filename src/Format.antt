-- ===== src/Format.antt =====
-- src/utils.h and src/algorithm.h: the 40-bit integers of the rank files, and the (rank, count)
-- records with their escape for counts that do not fit a byte.
-- A nonnegative `int64_t` is the number itself; the host is little-endian, as the source assumes.
pub mod Bytes
pub mod Runs
pub mod Groups
pub mod Writer
use suffix_rank.Base.{
  ℕ, ◌+◌, ◌*◌, ◌/◌, ◌%◌, ◌^◌, ◌<◌, List, Option, some, store, ltb, if◌then◌else◌, ◌>>=◌,
}

-- `int40`: five bytes, the lowest first.
pub record Int40 : Type 0 where
  pub b0 : ℕ
  pub b1 : ℕ
  pub b2 : ℕ
  pub b3 : ℕ
  pub b4 : ℕ

-- `memcpy` of the low 32 bits reads four bytes; the two halves share no bit, so `|` is a sum.
unfoldable pub i40_load : Int40 → ℕ
i40_load p =
    let lo = p.b0 + 256 * p.b1 + 65536 * p.b2 + 16777216 * p.b3 in let hi = p.b4 in lo + hi * 2 ^ 32

unfoldable pub i40_store : ℕ → Int40
i40_store v =
    let lo = v % 2 ^ 32 in
    record {
      b0 = lo % 256;
      b1 = lo / 256 % 256;
      b2 = lo / 65536 % 256;
      b3 = lo / 16777216 % 256;
      b4 = v / 2 ^ 32 % 256;
    }

-- `int32p`: four bytes, the lowest first.
pub record Int32p : Type 0 where
  pub b0 : ℕ
  pub b1 : ℕ
  pub b2 : ℕ
  pub b3 : ℕ

pub i32_load : Int32p → ℕ
i32_load p = p.b0 + 256 * p.b1 + 65536 * p.b2 + 16777216 * p.b3

pub i32_store : ℕ → Int32p
i32_store v = record {
  b0 = v % 256;
  b1 = v / 256 % 256;
  b2 = v / 65536 % 256;
  b3 = v / 16777216 % 256;
}

-- `COUNT_ESCAPE`
abbrev pub count_escape : ℕ
count_escape = 255

-- `RankRun`; `GlobalRecord` has the same layout.
pub record RankRun : Type 0 where
  pub rank : Int40
  pub count : ℕ

-- `rankrun_emit`: `buf` is the whole buffer and `pos` the value of `*pos`, returned anew.
unfoldable pub rankrun_emit : List RankRun → ℕ → ℕ → ℕ → Option (List RankRun × ℕ)
rankrun_emit buf pos rank count =
    if ltb count count_escape
    then (do b ← store buf pos (record { rank = i40_store rank; count = count }); some (b, pos + 1))
    else (do
      b ← store buf pos (record { rank = i40_store rank; count = count_escape })
      b' ← store b (pos + 1) (record { rank = i40_store count; count = 0 })
      some (b', pos + 2))
