-- ===== src/Tests/FormatRuns.antt =====
-- The record formats of src/utils.h and src/algorithm.h, and the locations of next ranks.
use suffix_rank.Base.{[], ◌≡◌, ◌+◌, ◌*◌, ◌%◌, ◌^◌, ◌≤◌, ◌↔◌, true, refl, arith, Gives}
use suffix_rank.Format.{Int40, i40_load, i40_store, i32_load, i32_store}
use suffix_rank.Format.Bytes.{i40_load-store_mod, i40_store-load, i32_load-store}
use suffix_rank.Format.Runs.{Run, encode_run}
use suffix_rank.Format.Writer.{Writer, IsWriter, Extended, emit_run, emit_run_lem}
use suffix_rank.Location.{next_rank_loc, next_position, is_empty_iff}
use suffix_rank.Tests.{blanks}

abbrev writer : Writer
writer = record { buf = blanks 3; out_count = 2; file = [] }

writer-IsWriter : IsWriter 3 writer
writer-IsWriter = record { allocated = refl; inside = omega arith }

abbrev long_run : Run
long_run = record { rank = 7; count = 300 }

emit_run_lem_example : Gives (Extended 3 writer long_run) (emit_run 3 7 300 writer)
emit_run_lem_example =
    emit_run_lem 3 writer long_run (unfold encode_run in omega arith) writer-IsWriter

i40_load-store_mod_example : i40_load (i40_store 1099511627781) ≡ 1099511627781 % 2 ^ 40
i40_load-store_mod_example = i40_load-store_mod 1099511627781

abbrev bytes : Int40
bytes = record { b0 = 255; b1 = 1; b2 = 0; b3 = 0; b4 = 128 }

i40_store-load_example : i40_store (i40_load bytes) ≡ bytes
i40_store-load_example = i40_store-load bytes (record {
  b0 = omega arith;
  b1 = omega arith;
  b2 = omega arith;
  b3 = omega arith;
  b4 = omega arith;
})

next_position_example :
    1 * 5 + 4 + 7 ≡ (next_rank_loc 7 5 1 4).base_chunk * 5 + ((next_rank_loc 7 5 1 4).off + 4)
next_position_example = next_position 7 5 1 4 (omega arith) 4

is_empty_iff_example : ((next_rank_loc 7 5 3 4).is_empty ≡ true) ↔ (4 * 5 ≤ 3 * 5 + 7)
is_empty_iff_example = is_empty_iff 7 5 3 4 (omega arith)

i32_load-store_example : i32_load (i32_store 4294967299) ≡ 4294967299 % 2 ^ 32
i32_load-store_example = i32_load-store 4294967299
