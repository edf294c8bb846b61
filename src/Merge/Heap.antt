-- ===== src/Merge/Heap.antt =====
-- src/merge.c: the binary heap of the merge, with the three loops that move a hole down or up until
-- the new element fits. The array has a slot for each chunk; only the first `size` are in use.
pub mod Order
pub mod Down
pub mod Up
pub mod Queue
use suffix_rank.Base.{
  ℕ, zero, suc, ◌+◌, ◌-◌, ◌*◌, ◌/◌, Bool, List, Option, none, some, get_elem?, store, length, ltb,
  ◌==◌, if◌then◌else◌, ◌>>=◌,
}
use suffix_rank.Base.Int.{ℤ, sub_ℕ, is_positive}
use suffix_rank.Merge.{HeapElement, Outcome, success, empty, failure}

-- `compare_heap_elements`: by current rank, then next rank, then chunk.
unfoldable pub compare_heap_elements : HeapElement → HeapElement → ℤ
compare_heap_elements a b =
    if a.current_rank == b.current_rank
    then (if a.next_rank == b.next_rank
        then sub_ℕ a.chunk_id b.chunk_id
        else sub_ℕ a.next_rank b.next_rank)
    else sub_ℕ a.current_rank b.current_rank

-- `compare_heap_elements(a, b) > 0`
abbrev pub above : HeapElement → HeapElement → Bool
above a b = is_positive (compare_heap_elements a b)

-- The child of the hole to compare with: the right one if it exists and the left one is above it.
pub smaller_child : List HeapElement → ℕ → ℕ → Option ℕ
smaller_child heap size child =
    if ltb (child + 1) size
    then (do
      left ← get_elem? heap child
      right ← get_elem? heap (child + 1)
      some (if above left right then child + 1 else child))
    else some child

-- The loop of replace_top_heap_element and pop_top_heap_element, from the hole at `parent`.
pub sift_down : ℕ → List HeapElement → ℕ → HeapElement → ℕ → Option (List HeapElement)
sift_down zero heap size item parent = none
sift_down (suc fuel) heap size item parent =
    let step : Option (List HeapElement) = do
      child ← smaller_child heap size (2 * parent + 1)
      c ← get_elem? heap child
      let sink = store heap parent c >>= λ h. sift_down fuel h size item child
      if above item c then sink else store heap parent item
    in if ltb (2 * parent + 1) size then step else store heap parent item

-- The part of Manager that the heap is.
pub record Heap : Type 0 where
  pub elements : List HeapElement
  pub size : ℕ

unfoldable pub replace_top_heap_element : HeapElement → Heap → Option Heap
unfolding sift_down smaller_child
replace_top_heap_element input m = do
  h ← sift_down (m.size + 1) m.elements m.size input 0
  some (record m { elements = h })

-- `item = heap[--size]`; the caller never pops an empty heap.
unfoldable pub pop_top_heap_element : Heap → Option Heap
unfolding sift_down smaller_child
pop_top_heap_element m = do
  let size = m.size - 1
  item ← get_elem? m.elements size
  let sifted : Option Heap = do
    h ← sift_down (size + 1) m.elements size item 0
    some (record { elements = h; size = size })
  if size == 0 then some (record m { size = size }) else sifted

-- The loop of insert_into_heap, from the hole at `child`.
pub sift_up : ℕ → List HeapElement → HeapElement → ℕ → Option (List HeapElement)
sift_up zero heap item child = none
sift_up (suc fuel) heap item child =
    let parent = (child - 1) / 2 in
    let step : Option (List HeapElement) = do
      p ← get_elem? heap parent
      let rise = store heap child p >>= λ h. sift_up fuel h item parent
      if above p item then rise else store heap child item
    in if ltb 0 child then step else store heap child item

-- A full heap is a FAILURE.
unfoldable pub insert_into_heap : ℕ → HeapElement → Heap → Option (Outcome (Unit {0}) × Heap)
unfolding sift_up
insert_into_heap total_chunks input m =
    let risen : Option (Outcome (Unit {0}) × Heap) = do
      h ← sift_up (m.size + 1) m.elements input m.size
      some (success tt, record { elements = h; size = m.size + 1 })
    in if m.size == total_chunks then some (failure, m) else risen
