-- ===== src/Tests/InversionRuns.antt =====
-- The ranks of the suffixes of a text of three symbols, in chunks of two, and their inverse.
use suffix_rank.Base.{
  ℕ, zero, suc, ◌<◌, ◌≡◌, refl, List, [], ◌∷◌, some, arith, length, replicate, Gives,
}
use suffix_rank.Files.Chunked.{all_of}
use suffix_rank.Format.{Int40, i40_store, i40_load}
use suffix_rank.Inverse.{InverseRecord, invert}
use suffix_rank.Inversion.{create_all, invert_all, invert_ranks}
use suffix_rank.Inversion.Distinct.{ranks_in}
use suffix_rank.Inversion.Buckets.{IsRanking}
use suffix_rank.Inversion.Correct.{Inverts, invert_ranks_lem}
use suffix_rank.Kmer.Counts.{occurrences}
use suffix_rank.Pairs.{create_pairs, count_buckets, place_pairs}
use suffix_rank.Tests.{zero40}

abbrev first_file : List Int40
first_file = i40_store 1 ∷ i40_store 2 ∷ []

abbrev second_file : List Int40
second_file = i40_store 0 ∷ []

abbrev pair_buffer : ℕ → List InverseRecord
pair_buffer c = replicate 2 (record { index = zero40; value = zero40 })

abbrev array : ℕ → List ℕ
array c = c ∷ c ∷ []

run_two :
    invert_ranks 2 pair_buffer array (first_file ∷ second_file ∷ [])
    ≡ some ((2 ∷ 0 ∷ []) ∷ (1 ∷ []) ∷ [])
unfolding invert_ranks create_all invert_all create_pairs count_buckets place_pairs invert i40_store
    i40_load
run_two = refl

once : (r : ℕ) → r < 3 → occurrences r (1 ∷ 2 ∷ 0 ∷ []) ≡ 1
once zero h = refl
once (suc zero) h = refl
once (suc (suc zero)) h = refl
once (suc (suc (suc r))) h = absurd (omega arith)

files-IsRanking :
    IsRanking
      (length (all_of (first_file ∷ second_file ∷ [])))
      (ranks_in (all_of (first_file ∷ second_file ∷ [])))
unfolding i40_store i40_load
files-IsRanking = record { present = once; bounded = omega arith }

invert_ranks_lem_example :
    Gives
      (λ sa_files.
        (length sa_files ≡ length (first_file ∷ second_file ∷ []))
        × Inverts 2 (all_of (first_file ∷ second_file ∷ [])) sa_files)
      (invert_ranks 2 pair_buffer array (first_file ∷ second_file ∷ []))
invert_ranks_lem_example =
    invert_ranks_lem 2 pair_buffer array first_file (second_file ∷ []) (omega arith)
      (λ c. omega arith) (λ c. refl) (omega arith) (omega arith) files-IsRanking
