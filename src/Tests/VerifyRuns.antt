-- ===== src/Tests/VerifyRuns.antt =====
-- The checker on the text of two bytes, with chunks of two ranks.
use suffix_rank.Base.{
  ℕ, ◌*◌, ◌⊎◌, none, List, [], ◌∷◌, ◌≡◌, refl, map, some, arith, length, true, false, if◌then◌else◌,
  ◌==◌, ◌>>=◌,
}
use suffix_rank.Base.Int.{ℤ, pos, negsuc}
use suffix_rank.Format.{Int40, i40_load, i40_store}
use suffix_rank.Input.{next_loop}
use suffix_rank.Verify.Records.{success, failure, lex_less_strict, encode_first_key}
use suffix_rank.Verify.Bits.{bitset_get, bitset_set, bitset_get-set}
use suffix_rank.Verify.Partition.{
  verify_partition, partition_chunks, partition_ranks, partition_position, emit_to,
}
use suffix_rank.Verify.Partition.Writer.{pw_init, pw_emit, pw_close}
use suffix_rank.Verify.Partition.Spec.{keys, parts, accepts}
use suffix_rank.Files.Chunked.{all_of}
use suffix_rank.Verify.Partition.Loop.{ranks_in}
use suffix_rank.Verify.Partition.Correct.{verify_partition_lem}
use suffix_rank.Verify.Check.{
  LongFile, verify_check, check_chunks, check_chunk, file_record_count, place_records, place_record,
  check_entries, check_entry, previous, new_table,
}
use suffix_rank.Verify.Check.Accept.{accept_all}
use suffix_rank.Verify.Check.Correct.{reported, verify_check_lem}
use suffix_rank.Verify.LexLess.{lex_less_strict-IsStrictOrder}
use suffix_rank.Verify.Program.{verify}
use suffix_rank.Verify.Entries.{IsSuffixArray, entries_of}
use suffix_rank.Verify.Sound.{verify_sound}

abbrev two_bytes : List ℕ
two_bytes = 97 ∷ 98 ∷ []

-- The ranks of "ab$", "b$" and "$".
abbrev rank_files : List (List Int40)
rank_files = (i40_store 1 ∷ i40_store 2 ∷ []) ∷ (i40_store 0 ∷ []) ∷ []

abbrev sa_of : List ℤ → List ℤ → List LongFile
sa_of one two = record { entries = one; rest = 0 } ∷ record { entries = two; rest = 0 } ∷ []

abbrev good_files : List LongFile
good_files = sa_of (pos 2 ∷ pos 0 ∷ []) (pos 1 ∷ [])

run_good : verify 2 two_bytes rank_files good_files ≡ success 3
unfolding verify verify_partition partition_chunks partition_ranks partition_position emit_to
    pw_init pw_emit pw_close next_loop encode_first_key i40_store i40_load verify_check check_chunks
    check_chunk file_record_count place_records place_record check_entries check_entry previous
    new_table lex_less_strict bitset_get bitset_set
run_good = refl

run_swapped : verify 2 two_bytes rank_files (sa_of (pos 0 ∷ pos 2 ∷ []) (pos 1 ∷ [])) ≡ failure
unfolding verify verify_partition partition_chunks partition_ranks partition_position emit_to
    pw_init pw_emit pw_close next_loop encode_first_key i40_store i40_load verify_check check_chunks
    check_chunk file_record_count place_records place_record check_entries check_entry previous
    new_table lex_less_strict bitset_get bitset_set
run_swapped = refl

verify_sound_example :
    (sa : List ℕ) × (entries_of good_files ≡ map pos sa) × IsSuffixArray (keys two_bytes) sa
verify_sound_example =
    verify_sound 2 3 two_bytes rank_files good_files (omega arith) (omega arith) (omega arith)
      (omega arith) (omega arith) refl run_good

verify_partition_lem_example : verify_partition 2 two_bytes rank_files ≡ (
    if accepts (length rank_files * 2) (ranks_in (all_of rank_files)) (keys two_bytes)
    then success (parts 2 0 (length rank_files) (ranks_in (all_of rank_files)) (keys two_bytes))
    else failure)
verify_partition_lem_example =
    verify_partition_lem 2 two_bytes rank_files (omega arith) (omega arith) (omega arith)
      (omega arith)

verify_check_lem_example :
    verify_check 2 (parts 2 0 2 (1 ∷ 2 ∷ 0 ∷ []) (keys two_bytes)) good_files
    ≡ reported 0 (accept_all 2 (parts 2 0 2 (1 ∷ 2 ∷ 0 ∷ []) (keys two_bytes)) good_files none)
verify_check_lem_example =
    verify_check_lem 2 (parts 2 0 2 (1 ∷ 2 ∷ 0 ∷ []) (keys two_bytes)) good_files (omega arith)

bitset_get-set_example :
    (bitset_set (4 ∷ 0 ∷ []) 11 >>= λ bits. bitset_get bits 10)
    ≡ (if 11 == 10 then some 1 else bitset_get (4 ∷ 0 ∷ []) 10)
bitset_get-set_example = bitset_get-set (4 ∷ 0 ∷ []) 11 10 (omega arith) (omega arith) (omega arith)

lex_less_strict-IsStrictOrder_example :
    (lex_less_strict 5 (pos 1) 5 (pos 1) ≡ false)
    × (lex_less_strict 5 (pos 1) 5 (pos 2) ≡ true
        → lex_less_strict 5 (pos 2) 6 (negsuc 0) ≡ true
        → lex_less_strict 5 (pos 1) 6 (negsuc 0) ≡ true)
    × ((lex_less_strict 5 (pos 1) 5 (pos 2) ≡ true)
        ⊎ (((◌≡◌ {A = ℕ} 5 5) × (pos 1 ≡ pos 2)) ⊎ (lex_less_strict 5 (pos 2) 5 (pos 1) ≡ true)))
lex_less_strict-IsStrictOrder_example =
    lex_less_strict-IsStrictOrder 5 (pos 1) 5 (pos 2) 6 (negsuc 0)
