-- ===== src/Format/Bytes.antt =====
-- The byte encodings of src/utils.h against the numbers that they stand for.
use suffix_rank.Base.{ℕ, ◌%◌, ◌^◌, ◌<◌, ◌≡◌, arith}
use suffix_rank.Format.{Int40, i40_load, i40_store, i32_load, i32_store}

-- Every byte is a byte.
pub record IsInt40 (p : Int40) : Type 0 where
  pub b0 : p.b0 < 256
  pub b1 : p.b1 < 256
  pub b2 : p.b2 < 256
  pub b3 : p.b3 < 256
  pub b4 : p.b4 < 256

-- i40_load of what i40_store wrote is the value modulo 2 ^ 40.
pub i40_load-store_mod : (v : ℕ) → i40_load (i40_store v) ≡ v % 2 ^ 40
unfolding i40_load i40_store
i40_load-store_mod v = omega arith

pub i40_load-store : (v : ℕ) → v < 2 ^ 40 → i40_load (i40_store v) ≡ v
unfolding i40_load i40_store
i40_load-store v h = omega arith

-- For an int40 of five bytes below 256, i40_store of what i40_load reads gives the same bytes.
pub i40_store-load : (p : Int40) → IsInt40 p → i40_store (i40_load p) ≡ p
unfolding i40_load i40_store
i40_store-load p h = ground arith

i40_store-IsInt40 : (v : ℕ) → IsInt40 (i40_store v)
unfolding i40_store
i40_store-IsInt40 v = omega arith

i40_load_lt : (p : Int40) → IsInt40 p → i40_load p < 2 ^ 40
unfolding i40_load
i40_load_lt p h = omega arith

-- i32_load of what i32_store wrote is the value modulo 2 ^ 32.
pub i32_load-store : (v : ℕ) → i32_load (i32_store v) ≡ v % 2 ^ 32
unfolding i32_load i32_store
i32_load-store v = omega arith
