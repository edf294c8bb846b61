-- ===== src/Tests/DriverRuns.antt =====
-- merge_runs of src/merge.c on two chunks that share a pair of ranks.
use suffix_rank.Base.{List, [], ◌∷◌, map, ◌≤◌, ◌<◌, refl, arith, Gives}
use suffix_rank.Format.Runs.{expand}
use suffix_rank.Merge.Lane.{Capacity}
use suffix_rank.Merge.Setup.{capacity, setup, merge_runs}
use suffix_rank.Merge.Setup.First.{Streams, files, IsStreams, IsCapacity}
use suffix_rank.Merge.Setup.Correct.{entries, Merged, merge_runs_lem}
use suffix_rank.Merge.Setup.Budget.{IsSized, capacity_lem}

abbrev caps : Capacity
caps = record { nexts_capacity = 2; cur_capacity = 1 }

abbrev first_chunk : Streams
first_chunk = record {
  cs = record { rank = 1; count = 2 } ∷ [];
  ns = record { rank = 2; count = 1 } ∷ record { rank = 3; count = 1 } ∷ [];
}

abbrev second_chunk : Streams
second_chunk = record {
  cs = record { rank = 1; count = 1 } ∷ [];
  ns = record { rank = 3; count = 1 } ∷ [];
}

abbrev chunks : List Streams
chunks = first_chunk ∷ second_chunk ∷ []

first_chunk-IsStreams : IsStreams first_chunk
unfolding expand
first_chunk-IsStreams = record {
  storable_cs = ground arith;
  storable_ns = ground arith;
  same_size = refl;
  ascending = ground arith;
}

second_chunk-IsStreams : IsStreams second_chunk
unfolding expand
second_chunk-IsStreams = record {
  storable_cs = ground arith;
  storable_ns = ground arith;
  same_size = refl;
  ascending = ground arith;
}

caps-IsCapacity : IsCapacity caps
caps-IsCapacity = record { nexts_room = omega arith; cur_room = omega arith }

some_entries : 0 < entries chunks
unfolding entries expand
some_entries = omega arith

three_entries : entries chunks ≤ 3
unfolding entries expand
three_entries = omega arith

merge_runs_lem_example : Gives (Merged chunks) (merge_runs 3 caps (setup caps (map files chunks)))
merge_runs_lem_example =
    merge_runs_lem 3 caps chunks caps-IsCapacity
      (first_chunk-IsStreams, (second_chunk-IsStreams, tt)) some_entries three_entries

capacity_lem_example : Gives (IsSized 1000 3) (capacity 1000 3)
capacity_lem_example = capacity_lem 1000 3 (omega arith) (omega arith)
