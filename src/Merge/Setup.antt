-- ===== src/Merge/Setup.antt =====
-- src/merge.c: setup, init_merge and merge_runs, from the files of the chunks to their outputs.
pub mod First
pub mod Start
pub mod Budget
pub mod Correct
use suffix_rank.Base.{
  ℕ, zero, suc, ◌+◌, ◌*◌, ◌/◌, ◌%◌, ◌^◌, ◌||◌, List, [], ◌∷◌, map, replicate, Option, none, some,
  length, ltb, ◌==◌, if◌then◌else◌, ◌>>=◌,
}
use suffix_rank.Format.{RankRun}
use suffix_rank.Merge.{HeapElement, Outcome, success, empty, failure}
use suffix_rank.Merge.Driver.{Manager, merge_loop, go_on}
use suffix_rank.Merge.Heap.{Heap, insert_into_heap}
use suffix_rank.Merge.Heap.Order.{no_element}
use suffix_rank.Merge.Lane.{
  Reader, Lane, Capacity, flush_output, refill_nexts, refill_currents, get_next_run,
}

-- The capacities that setup takes from the memory budget; a RankRun has 6 bytes. The quotient is
-- cast to int; `none` is an operation that C leaves undefined: a division by 0, or a product
-- (2 * cur_capacity) outside the range of int.
pub capacity : ℕ → ℕ → Option Capacity
capacity mem_bytes total_chunks =
    let c = mem_bytes / (6 * 3 * total_chunks) % 2 ^ 32 in
    let cur_capacity = if ltb c 1 || ltb 2147483647 c then 1 else c in
    if total_chunks == 0 || ltb 2147483647 (2 * cur_capacity)
    then none
    else some (record { nexts_capacity = 2 * cur_capacity; cur_capacity = cur_capacity })

-- What Calloc leaves in a buffer.
abbrev zero_record : RankRun
zero_record = record { rank = record { b0 = 0; b1 = 0; b2 = 0; b3 = 0; b4 = 0 }; count = 0 }

abbrev pub setup_reader : ℕ → List RankRun → Reader
setup_reader n file = record {
  file = file;
  buffer = replicate n zero_record;
  pos = some 0;
  len = 0;
  filepos = some 0;
}

-- One chunk: its nexts and its currents file are opened, its output is empty.
abbrev pub setup_lane : Capacity → List RankRun × List RankRun → Lane
setup_lane caps (nexts_file, currents_file) = record {
  nexts_in = setup_reader caps.nexts_capacity nexts_file;
  currents_in = setup_reader caps.cur_capacity currents_file;
  out_pos = 0;
  out_file = [];
  cursor = record { cur_rank = 0; cur_rem = 0; next_rank = 0; next_rem = 0 };
}

abbrev pub setup : Capacity → List (List RankRun × List RankRun) → Manager
setup caps files = record {
  lanes = map (setup_lane caps) files;
  heap = record { elements = replicate (length files) no_element; size = 0 };
  ranking = record { pair_count = 0; updated_rank = 0; last_transferred = none };
}

-- The first loop of init_merge.
unfoldable pub refill_lane : Capacity → Lane → Lane
refill_lane caps l = (refill_currents caps (refill_nexts caps l).1).1

abbrev pub cons_lane :
    Lane → Outcome (Unit {0}) × List Lane × Heap → Outcome (Unit {0}) × List Lane × Heap
cons_lane l (o, ls, h) = (o, l ∷ ls, h)

-- Its second loop, from chunk `i` on: the first triplet of each chunk enters the heap.
abbrev pub after_insert :
    (Heap → Option (Outcome (Unit {0}) × List Lane × Heap))
    → List Lane
    → Outcome (Unit {0}) × Heap
    → Option (Outcome (Unit {0}) × List Lane × Heap)
after_insert rest ls (success _, h) = rest h
after_insert rest ls (empty, h) = rest h
after_insert rest ls (failure, h) = some (failure, ls, h)

abbrev pub after_first :
    ℕ
    → (Heap → Option (Outcome (Unit {0}) × List Lane × Heap))
    → List Lane
    → Heap
    → Outcome HeapElement
    → Option (Outcome (Unit {0}) × List Lane × Heap)
after_first total_chunks rest ls h (success first) =
    insert_into_heap total_chunks first h >>= after_insert rest ls
after_first total_chunks rest ls h empty = rest h
after_first total_chunks rest ls h failure = some (failure, ls, h)

unfoldable pub first_runs :
    Capacity → ℕ → ℕ → List Lane → Heap → Option (Outcome (Unit {0}) × List Lane × Heap)
first_runs caps total_chunks i [] h = some (success tt, [], h)
first_runs caps total_chunks i (l ∷ ls) h = do
  (got, l') ← get_next_run caps i l
  r ← after_first total_chunks (first_runs caps total_chunks (suc i) ls) ls h got
  some (cons_lane l' r)

-- An empty heap is a FAILURE.
abbrev pub after_init :
    Manager → Outcome (Unit {0}) × List Lane × Heap → Outcome (Unit {0}) × Manager
after_init m (success _, lanes, h) =
    (if h.size == 0 then failure else success tt, record m { lanes = lanes; heap = h })
after_init m (empty, lanes, h) = (empty, record m { lanes = lanes; heap = h })
after_init m (failure, lanes, h) = (failure, record m { lanes = lanes; heap = h })

unfoldable pub init_merge : Capacity → Manager → Option (Outcome (Unit {0}) × Manager)
init_merge caps m = do
  r ← first_runs caps (length m.lanes) 0 (map (refill_lane caps) m.lanes) m.heap
  some (after_init m r)

-- The end of merge_runs: what remains in the overlays is flushed.
abbrev pub flush_lanes : Outcome (Unit {0}) × Manager → Outcome (Unit {0}) × Manager
flush_lanes (success u, m) = (success u, record m { lanes = map flush_output m.lanes })
flush_lanes (empty, m) = (empty, m)
flush_lanes (failure, m) = (failure, m)

-- `merge_runs`; the loop is on fuel.
unfoldable pub merge_runs : ℕ → Capacity → Manager → Option (Outcome (Unit {0}) × Manager)
merge_runs fuel caps m = do
  started ← init_merge caps m
  r ←
      go_on
        (λ m'.
          merge_loop fuel caps
            (record m' { ranking = record (m'.ranking) { last_transferred = none } }))
        started
  some (flush_lanes r)
