-- ===== src/Tests/MergeRuns.antt =====
-- One chunk of src/merge.c, and the ranking of three triplets.
use suffix_rank.Base.{ℕ, List, [], ◌∷◌, ◌≡◌, refl, map, some, arith, Gives}
use suffix_rank.Format.Runs.{Run, encode, encode_run}
use suffix_rank.Merge.{HeapElement, success}
use suffix_rank.Merge.Lane.{
  nexts, Reader, Lane, Capacity, decode_rankrun, get_next_run, write_output, reader_of,
}
use suffix_rank.Merge.Lane.Invariant.{IsReader, IsLane, remaining}
use suffix_rank.Merge.Lane.Overlay.{Appended, write_output_lem}
use suffix_rank.Merge.Lane.Decode.{Kept, decode_rankrun_lem}
use suffix_rank.Merge.Lane.Load.{Holds}
use suffix_rank.Merge.Lane.Walk.{NextRun, get_next_run_lem}
use suffix_rank.Merge.Resolve.{OutputElement, transfer, transfers}
use suffix_rank.Merge.Resolve.Totals.{resolved}
use suffix_rank.Merge.Resolve.Correct.{IsOrdered, unranked, transfers_lem}
use suffix_rank.Tests.{blanks}

abbrev triplet : ℕ → ℕ → ℕ → ℕ → HeapElement
triplet c n k i = record { current_rank = c; next_rank = n; count = k; chunk_id = i }

-- A pair of ranks that one suffix has, and a pair that two chunks share.
abbrev three : List HeapElement
three = triplet 1 2 1 0 ∷ triplet 1 3 1 0 ∷ triplet 1 3 2 1 ∷ []

three-IsOrdered : IsOrdered three
three-IsOrdered = ground arith

abbrev resolved_three : List OutputElement
resolved_three =
    record { new_rank = 1; count = 0; chunk_id = 0 }
    ∷ record { new_rank = 2; count = 1; chunk_id = 0 }
    ∷ record { new_rank = 2; count = 2; chunk_id = 1 }
    ∷ []

transfers-three : transfers three unranked ≡ resolved_three
unfolding transfers transfer
transfers-three = refl

transfers_lem_example : transfers three unranked ≡ map (resolved three) three
transfers_lem_example = transfers_lem three three-IsOrdered

abbrev caps : Capacity
caps = record { nexts_capacity = 2; cur_capacity = 1 }

abbrev current_runs : List Run
current_runs = record { rank = 1; count = 2 } ∷ []

abbrev next_runs : List Run
next_runs = record { rank = 2; count = 1 } ∷ record { rank = 3; count = 1 } ∷ []

-- A chunk as setup leaves it.
abbrev reader : ℕ → List Run → Reader
reader capacity rs = record {
  file = encode rs;
  buffer = blanks capacity;
  pos = some 0;
  len = 0;
  filepos = some 0;
}

abbrev chunk : Lane
chunk = record {
  nexts_in = reader 2 next_runs;
  currents_in = reader 1 current_runs;
  out_pos = 0;
  out_file = [];
  cursor = record { cur_rank = 0; cur_rem = 0; next_rank = 0; next_rem = 0 };
}

nexts_reader-IsReader : IsReader 2 (reader 2 next_runs)
nexts_reader-IsReader = record {
  allocated = refl;
  room = omega arith;
  bounded = omega arith;
  at_end = λ e. cc;
  drained = λ e. cc;
}

currents_reader-IsReader : IsReader 1 (reader 1 current_runs)
currents_reader-IsReader = record {
  allocated = refl;
  room = omega arith;
  bounded = omega arith;
  at_end = λ e. cc;
  drained = λ e. cc;
}

chunk-IsLane : IsLane caps chunk
chunk-IsLane = record {
  nexts_ok = nexts_reader-IsReader;
  currents_ok = currents_reader-IsReader;
  overlay = omega arith;
  inside = omega arith;
}

chunk-Holds : Holds caps current_runs next_runs chunk
chunk-Holds = record {
  ok = chunk-IsLane;
  storable_cs = ground arith;
  storable_ns = ground arith;
  currents_left = refl;
  nexts_left = refl;
  started = λ h. absurd (omega arith);
}

get_next_run_lem_example :
    Gives (NextRun caps 0 current_runs next_runs chunk) (get_next_run caps 0 chunk)
get_next_run_lem_example = get_next_run_lem caps 0 current_runs next_runs chunk chunk-Holds

decode_rankrun_lem_example :
    (m : Lane) × (decode_rankrun caps nexts chunk ≡ some (success (2, 1), m))
    × (remaining (reader_of nexts m) ≡ encode (record { rank = 3; count = 1 } ∷ []))
    × Kept caps nexts chunk m
decode_rankrun_lem_example =
    decode_rankrun_lem caps nexts chunk (record { rank = 2; count = 1 })
      (encode (record { rank = 3; count = 1 } ∷ [])) chunk-IsLane (omega arith) (omega arith)
      (unfold encode in refl)

-- The chunk with its first record of nexts read.
abbrev started_chunk : Lane
started_chunk = record chunk {
  nexts_in = record { file = []; buffer = blanks 2; pos = some 1; len = 2; filepos = some 2 };
}

started_chunk-IsLane : IsLane caps started_chunk
started_chunk-IsLane = record {
  nexts_ok = record {
    allocated = refl;
    room = omega arith;
    bounded = omega arith;
    at_end = λ e. refl;
    drained = λ e. refl;
  };
  currents_ok = currents_reader-IsReader;
  overlay = omega arith;
  inside = omega arith;
}

abbrev long_run : Run
long_run = record { rank = 7; count = 300 }

write_output_lem_example :
    Gives
      (Appended caps started_chunk (encode_run long_run))
      (write_output caps 7 300 started_chunk)
write_output_lem_example =
    write_output_lem caps long_run started_chunk started_chunk-IsLane (omega arith)
