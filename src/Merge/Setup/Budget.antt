-- ===== src/Merge/Setup/Budget.antt =====
-- The buffers that setup of src/merge.c takes, against the memory budget.
use native.Mathlib.Nat.{div-add-mod'}
use suffix_rank.Base.{
  ℕ, ◌+◌, ◌*◌, ◌/◌, ◌%◌, ◌^◌, ◌<◌, ◌≤◌, ◌≡◌, ◌⊎◌, ◌==◌, refl, false, inl, inr, arith, ltb,
  Bool-cases, Gives, gives,
}
use suffix_rank.Merge.Lane.{Capacity}
use suffix_rank.Merge.Setup.{capacity}
use suffix_rank.Merge.Setup.First.{IsCapacity}

-- The records of all buffers fit the budget.
abbrev pub InBudget : ℕ → ℕ → Capacity → Type 0
InBudget mem_bytes total_chunks caps =
    6 * ((caps.cur_capacity + caps.nexts_capacity) * total_chunks) ≤ mem_bytes

-- Room for a record in each buffer, within the budget unless it is too small for that.
abbrev pub IsSized : ℕ → ℕ → Capacity → Type 0
IsSized mem_bytes total_chunks caps =
    IsCapacity caps × (InBudget mem_bytes total_chunks caps ⊎ (caps.cur_capacity ≡ 1))

-- With at least one chunk and a budget of less than 2 ^ 30 records of 18 bytes for each chunk,
-- setup sizes both buffers of a chunk within the range of int and with room for a record, and the
-- buffers of all chunks, at 6 bytes a record, fit the memory budget or the currents buffer has one
-- record.
pub capacity_lem :
    (mem_bytes total_chunks : ℕ)
    → 0 < total_chunks
    → mem_bytes / (6 * 3 * total_chunks) < 2 ^ 30
    → Gives (IsSized mem_bytes total_chunks) (capacity mem_bytes total_chunks)
unfolding capacity
capacity_lem mem_bytes total_chunks pos fits =
    let d = 6 * 3 * total_chunks in
    let c = mem_bytes / d in
    let split = div-add-mod' mem_bytes d in
    let same : c % 2 ^ 32 ≡ c = omega arith in
    let some_chunk : (total_chunks == 0) ≡ false = ground arith in
    let in_int : ltb 2147483647 c ≡ false = ground arith in
    rw (same, some_chunk, in_int)
      (elim (Bool-cases (ltb c 1)) [
        | inl small ↦
            rw small (gives (record { nexts_room = omega arith; cur_room = omega arith }, inr refl))
        | inr large ↦
            let doubled : ltb 2147483647 (2 * c) ≡ false = ground arith in
            rw (large, doubled)
              (gives (
                record { nexts_room = ground arith; cur_room = ground arith },
                inl (omega (arith, split)),
              ))
      ])
