-- ===== src/Tests/KmerRuns.antt =====
-- The first ranks of the text of three bytes.
use suffix_rank.Base.{ℕ, ◌+◌, ◌<◌, ◌≤◌, ◌≡◌, ◌⊎◌, ◌^◌, refl, [], ◌∷◌, some, none, arith, Gives}
use suffix_rank.Format.{i40_store}
use suffix_rank.Kmer.Window.{KWin, kwin_feed}
use suffix_rank.Kmer.Roll.{IsWindow, Fed, kwin_feed_step}
use suffix_rank.Kmer.Alphabet.{select_k, bump, count_bytes}
use suffix_rank.Kmer.Select.{select_k_lem}
use suffix_rank.Kmer.Passes.{
  PassStatus, feed_bytes, feed_zeros, feed_all, pass_build_histogram_and_x, pass_write_ranks,
  run_passes, run_passes_1_and_2,
}
use suffix_rank.Kmer.Ranks.{Succeeds}
use suffix_rank.Kmer.Correct.{
  AreFirstRanks, run_passes_1_and_2_lem, run_passes_1_and_2_failure, run_passes_1_and_2_empty,
}
use suffix_rank.Kmer.Window.{kwin_reset}
use suffix_rank.Files.Chunked.{append_entry, close_chunks}

-- Chunks of four entries: the prefixes have one symbol.
run_three :
    run_passes_1_and_2 4 4 (97 ∷ 98 ∷ 97 ∷ [])
    ≡ some (
        PassStatus.success (record {
          x_files = (98 ∷ 99 ∷ 98 ∷ 0 ∷ []) ∷ [];
          ranks_files = (i40_store 1 ∷ i40_store 3 ∷ i40_store 1 ∷ i40_store 0 ∷ []) ∷ [];
          n_chunks = 1;
          last_chunk_size = 4;
          k = 1;
        }))
unfolding run_passes_1_and_2 count_bytes bump select_k run_passes pass_build_histogram_and_x
    pass_write_ranks feed_all feed_bytes feed_zeros kwin_reset kwin_feed append_entry close_chunks
    i40_store
run_three = refl

run_passes_1_and_2_lem_example :
    Gives
      (Succeeds (AreFirstRanks 16 (97 ∷ 98 ∷ 97 ∷ [])))
      (run_passes_1_and_2 16 16 (97 ∷ 98 ∷ 97 ∷ []))
run_passes_1_and_2_lem_example =
    run_passes_1_and_2_lem 16 16 97 (98 ∷ 97 ∷ []) (omega arith) (omega arith) (omega arith)

run_passes_1_and_2_failure_example :
    run_passes_1_and_2 16 16 (97 ∷ 254 ∷ []) ≡ some PassStatus.failure
run_passes_1_and_2_failure_example =
    run_passes_1_and_2_failure 16 16 254 (97 ∷ 254 ∷ []) (omega arith) (omega arith) (omega arith)
      (omega arith)

run_passes_1_and_2_empty_example : run_passes_1_and_2 1000 16 [] ≡ none
run_passes_1_and_2_empty_example = run_passes_1_and_2_empty 1000 16 (omega arith)

select_k_lem_example :
    (k : ℕ) × (select_k 16 3 16 1 3 ≡ some (k, 3 ^ k))
    × (0 < k)
    × (16 < 3 ^ (k + 1))
    × ((k ≡ 1) ⊎ (3 ^ k ≤ 16))
select_k_lem_example = select_k_lem 16 3 16 (omega arith) (omega arith) (omega arith)

-- The codes 1 and 2 in base 3, with the older one at index 1.
abbrev window : KWin
window = record { ring = 2 ∷ 1 ∷ []; key = 5; topw = 3; base = 3; k = 2; p = 3 }

window-IsWindow : IsWindow window (1 ∷ 2 ∷ [])
window-IsWindow = record {
  newer = 2 ∷ [];
  older = 1 ∷ [];
  ring_parts = refl;
  last_parts = refl;
  turn = refl;
  number_of = refl;
  some_codes = omega arith;
  key_of = refl;
  top_of = refl;
}

kwin_feed_step_example : Fed window 1 (2 ∷ [])
kwin_feed_step_example = kwin_feed_step window 1 (2 ∷ []) 1 window-IsWindow
