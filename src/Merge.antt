-- ===== src/Merge.antt =====
-- src/merge.h and src/merge.c: the k-way merge of the chunks' (current, next, count) triplets, which
-- gives every group of suffixes its new global rank.
-- The arrays that Manager keeps by chunk number are one Lane for each chunk; -1 in a position is
-- `none`. Ranks and counts are nonnegative and stay far below the ranges of int64_t and int.
pub mod Lane
pub mod Heap
pub mod Resolve
pub mod Driver
pub mod Setup
-- `TripletCursor`
use suffix_rank.Base.{ℕ}

-- `HeapElement`
pub record HeapElement : Type 0 where
  pub current_rank : ℕ
  pub next_rank : ℕ
  pub count : ℕ
  pub chunk_id : ℕ

-- How a call that reads ends: SUCCESS with a value, EMPTY or FAILURE.
pub data Outcome {ℓ} (A : Type ℓ) : Type ℓ where
  success : A → Outcome A
  empty failure : Outcome A
