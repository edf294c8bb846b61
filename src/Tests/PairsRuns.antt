-- ===== src/Tests/PairsRuns.antt =====
-- src/create_pairs.c: the second of two chunks of two ranks.
use suffix_rank.Base.{List, [], ◌∷◌, ◌<◌, ◌/◌, arith, All, Gives}
use suffix_rank.Format.{Int40, i40_load, i40_store}
use suffix_rank.Inverse.{InverseRecord}
use suffix_rank.Pairs.{create_pairs}
use suffix_rank.Pairs.Correct.{IsParted, create_pairs_lem}
use suffix_rank.Tests.{zero40}

abbrev ranks_file : List Int40
ranks_file = i40_store 3 ∷ i40_store 0 ∷ []

abbrev buffer : List InverseRecord
buffer = record { index = zero40; value = zero40 } ∷ record { index = zero40; value = zero40 } ∷ []

ranks_inside : All (λ r. i40_load r / 2 < 2) ranks_file
unfolding i40_load i40_store
ranks_inside = ground arith

create_pairs_lem_example : Gives (IsParted 2 2 1 ranks_file) (create_pairs 2 2 1 ranks_file buffer)
create_pairs_lem_example =
    create_pairs_lem 2 2 1 ranks_file buffer (omega arith) (omega arith) (omega arith) ranks_inside
