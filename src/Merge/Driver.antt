-- ===== src/Merge/Driver.antt =====
-- src/merge.c: the loop of merge_runs, which drives the lanes, the heap and the ranking together.
pub mod Shares
pub mod Writes
pub mod State
pub mod Replace
pub mod Round
pub mod Loop
use suffix_rank.Base.{
  ℕ, zero, suc, ◌+◌, List, [], ◌∷◌, ◌++◌, map, Option, none, some, get_elem?, store, length, ◌==◌,
  if◌then◌else◌, ◌>>=◌,
}
use suffix_rank.Merge.{HeapElement, Outcome, success, empty, failure}
use suffix_rank.Merge.Heap.{Heap, replace_top_heap_element, pop_top_heap_element, insert_into_heap}
use suffix_rank.Merge.Lane.{
  Lane, Capacity, flush_output, refill_nexts, refill_currents, get_next_run, write_output,
}
use suffix_rank.Merge.Resolve.{OutputElement, Ranking, transfer}

-- `Manager`: a lane for each chunk, the heap and the ranking.
pub record Manager : Type 0 where
  pub lanes : List Lane
  pub heap : Heap
  pub ranking : Ranking

-- `write_output(manager, output_result.chunk_id, ...)`
unfoldable pub write_chunk : Capacity → OutputElement → List Lane → Option (List Lane)
write_chunk caps o lanes = do
  l ← get_elem? lanes o.chunk_id
  l' ← write_output caps o.new_rank o.count l
  store lanes o.chunk_id l'

unfoldable pub write_chunks : Capacity → List OutputElement → List Lane → Option (List Lane)
write_chunks caps [] lanes = some lanes
write_chunks caps (o ∷ os) lanes = write_chunk caps o lanes >>= write_chunks caps os

-- The round behind the heap operation: rank, and write what is resolved.
unfoldable pub rank_and_write :
    Capacity → HeapElement → List Lane → Ranking → Heap → Option (Outcome (Unit {0}) × Manager)
rank_and_write caps smallest lanes ranking heap =
    let (written, r) = transfer smallest (heap.size == 0) ranking in
    do
      lanes' ← write_chunks caps written lanes
      some (success tt, record { lanes = lanes'; heap = heap; ranking = r })

abbrev pub after_next :
    Capacity
    → HeapElement
    → List Lane
    → Manager
    → Outcome HeapElement
    → Option (Outcome (Unit {0}) × Manager)
after_next caps smallest lanes m (success next) =
    replace_top_heap_element next m.heap >>= rank_and_write caps smallest lanes m.ranking
after_next caps smallest lanes m empty =
    pop_top_heap_element m.heap >>= rank_and_write caps smallest lanes m.ranking
after_next caps smallest lanes m failure = some (failure, record m { lanes = lanes })

-- The body of the loop of merge_runs.
unfoldable pub merge_round : Capacity → Manager → Option (Outcome (Unit {0}) × Manager)
merge_round caps m = do
  smallest ← get_elem? m.heap.elements 0
  l ← get_elem? m.lanes smallest.chunk_id
  (got, l') ← get_next_run caps smallest.chunk_id l
  lanes ← store m.lanes smallest.chunk_id l'
  after_next caps smallest lanes m got

-- `if (result == FAILURE) return FAILURE;`
abbrev pub go_on :
    (Manager → Option (Outcome (Unit {0}) × Manager))
    → Outcome (Unit {0}) × Manager
    → Option (Outcome (Unit {0}) × Manager)
go_on again (success _, m) = again m
go_on again (empty, m) = some (empty, m)
go_on again (failure, m) = some (failure, m)

-- `while (manager->current_heap_size > 0)`
unfoldable pub merge_loop : ℕ → Capacity → Manager → Option (Outcome (Unit {0}) × Manager)
merge_loop zero caps m = if m.heap.size == 0 then some (success tt, m) else none
merge_loop (suc fuel) caps m =
    let rest = merge_round caps m >>= go_on (merge_loop fuel caps) in
    if m.heap.size == 0 then some (success tt, m) else rest
