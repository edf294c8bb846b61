-- ===== src/Tests/InputRuns.antt =====
-- A file of two bytes; three pairs of one chunk; and the first currents stream of a chunk.
use suffix_rank.Base.{ℕ, List, [], ◌∷◌, ◌++◌, ◌≡◌, ◌<◌, refl, map, some, arith, length, All, Gives}
use suffix_rank.Format.{Int40, i40_load, i40_store}
use suffix_rank.Format.Groups.{group}
use suffix_rank.Format.Runs.{encode}
use suffix_rank.Init.{seed_capacity, seed_currents}
use suffix_rank.Init.Correct.{seed_currents_lem}
use suffix_rank.Input.{input_stream_open}
use suffix_rank.Input.Symbols.{real, sentinel, ended, symbols, symbols_lem}
use suffix_rank.Inverse.{InverseRecord, invert}
use suffix_rank.Inverse.Correct.{AreDistinct, IsInverted, slot, invert_lem}
use suffix_rank.Refine.Scan.{ranks_at}
use suffix_rank.Tests.{blanks}

symbols_lem_example :
    symbols 4 (input_stream_open (97 ∷ 98 ∷ []))
    ≡ some (map real (97 ∷ 98 ∷ []) ++ sentinel ∷ [], ended)
symbols_lem_example = symbols_lem (97 ∷ 98 ∷ []) 4 (omega arith)

abbrev record_of : ℕ → ℕ → InverseRecord
record_of i v = record { index = i40_store i; value = i40_store v }

-- The ranks 4 and 5 of the second chunk of three ranks.
abbrev pairs : List InverseRecord
pairs = record_of 2 4 ∷ record_of 0 3 ∷ []

pairs-AreDistinct : AreDistinct 3 pairs
unfolding i40_store i40_load
pairs-AreDistinct = ground arith

pairs_inside : All (λ r. slot 3 r < length pairs) pairs
unfolding i40_store i40_load
pairs_inside = ground arith

invert_lem_example :
    Gives
      (λ sa. (length sa ≡ length pairs) × All (IsInverted 3 sa) pairs)
      (invert 3 pairs (0 ∷ 0 ∷ 0 ∷ []))
invert_lem_example =
    invert_lem 3 pairs (0 ∷ 0 ∷ 0 ∷ []) (omega arith) refl (omega arith) pairs-AreDistinct
      pairs_inside

abbrev ranks : List Int40
ranks = i40_store 1 ∷ i40_store 1 ∷ i40_store 3 ∷ []

seed_currents_lem_example :
    seed_currents (seed_capacity 3) ranks (0 ∷ 1 ∷ 2 ∷ []) (blanks 2)
    ≡ some (encode (group (ranks_at ranks (0 ∷ 1 ∷ 2 ∷ []))))
seed_currents_lem_example = seed_currents_lem 3 ranks 0 (1 ∷ 2 ∷ []) (blanks 2) refl (omega arith)
