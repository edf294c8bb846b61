-- ===== src/Tests/RefineRuns.antt =====
-- src/refine.cpp: chunks of three entries at prefix length 1, and a chunk that is too small.
use suffix_rank.Base.{
  ℕ, zero, suc, List, [], ◌∷◌, ◌++◌, ◌≡◌, ◌+◌, ◌*◌, refl, none, arith, Gives, ◌↔◌,
}
use suffix_rank.Format.{Int40, i40_store}
use suffix_rank.Format.Groups.{group}
use suffix_rank.Format.Runs.{encode}
use suffix_rank.Refine.{success, empty, RefineChunk, generate_local_runs, refine_all}
use suffix_rank.Refine.Scan.{ranks_at}
use suffix_rank.Refine.Load.{Stores}
use suffix_rank.Refine.Correct.{IsNextRanks, generate_local_runs_lem, generate_local_runs_overflow}
use suffix_rank.Refine.Loop.{AreDone, nexts_files, refine_all_lem}
use suffix_rank.Tests.{blanks, zero40}

-- Two chunks of three entries; position i has rank i.
abbrev rank_of : ℕ → Int40
rank_of i = i40_store i

abbrev ranks : ℕ → List Int40
ranks c = i40_store (c * 3) ∷ i40_store (c * 3 + 1) ∷ i40_store (c * 3 + 2) ∷ []

ranks-Stores : Stores ranks 3 6 rank_of
ranks-Stores c zero h k = let e : c * 3 + 0 ≡ c * 3 = omega arith in rw e refl
ranks-Stores c (suc zero) h k = refl
ranks-Stores c (suc (suc zero)) h k = refl
ranks-Stores c (suc (suc (suc i))) h k = absurd (omega arith)

abbrev buffer : List Int40
buffer = zero40 ∷ zero40 ∷ zero40 ∷ []

generate_local_runs_lem_example :
    Gives
      (λ (s, file, next_ranks).
        (s ≡ success)
        × (file ≡ [] ++ encode (group (ranks_at next_ranks (2 ∷ 0 ∷ 1 ∷ []))))
        × IsNextRanks 3 6 rank_of 0 1 0 3 next_ranks)
      (generate_local_runs ranks (2 ∷ 0 ∷ 1 ∷ []) [] 2 0 1 3 0 3 buffer (blanks 1))
generate_local_runs_lem_example =
    generate_local_runs_lem ranks 3 6 2 rank_of ranks-Stores (omega arith) 0 1 0 3 2 (0 ∷ 1 ∷ []) []
      (blanks 1) buffer (omega arith) (omega arith) (omega arith) refl refl (omega arith)
      (omega arith)

generate_local_runs_overflow_example :
    generate_local_runs ranks (0 ∷ 1 ∷ []) [] 2 0 1 2 0 2 buffer [] ≡ none
generate_local_runs_overflow_example =
    generate_local_runs_overflow ranks 2 2 0 1 0 2 0 (1 ∷ []) [] [] buffer (omega arith)
      (omega arith) (omega arith) (omega arith)

-- Both chunks; nothing stands one position ahead of position 5.
abbrev two_chunks : List RefineChunk
two_chunks =
    record { sa = 2 ∷ 0 ∷ 1 ∷ []; nexts = []; lo = 0; stop = 3 }
    ∷ record { sa = 1 ∷ 0 ∷ []; nexts = []; lo = 0; stop = 2 }
    ∷ []

refine_all_lem_example :
    Gives
      (λ (more, files).
        ((more ≡ empty) ↔ AreDone two_chunks) × (files ≡ nexts_files 3 rank_of 1 0 two_chunks))
      (refine_all ranks 2 1 3 (λ c. blanks 1) 0 two_chunks empty buffer)
refine_all_lem_example =
    refine_all_lem ranks 3 6 2 rank_of ranks-Stores (omega arith) (omega arith) 1 (λ c. blanks 1)
      two_chunks buffer (λ c. refl) refl (omega arith)
