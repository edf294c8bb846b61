-- ===== src/Tests/HeapRuns.antt =====
-- The heap of src/merge.c with two elements of a possible three.
use suffix_rank.Base.{ℕ, zero, suc, List, [], ◌∷◌, refl, arith, Gives, ◌≡◌, ◌<◌, ◌↔◌, false}
use suffix_rank.Merge.{HeapElement}
use suffix_rank.Merge.Heap.{
  Heap, above, replace_top_heap_element, pop_top_heap_element, insert_into_heap,
}
use suffix_rank.Merge.Heap.Order.{IsHeap, LexLe, LexLe-Precedes, at, root_least}
use suffix_rank.Merge.Heap.Queue.{
  IsQueue, Replaced, Removed, Inserted, replace_top_heap_element_lem, pop_top_heap_element_lem,
  insert_into_heap_lem,
}

abbrev triplet : ℕ → ℕ → ℕ → HeapElement
triplet c n i = record { current_rank = c; next_rank = n; count = 1; chunk_id = i }

abbrev array : List HeapElement
array = triplet 1 2 0 ∷ triplet 1 3 1 ∷ triplet 0 0 0 ∷ []

abbrev two_elements : Heap
two_elements = record { elements = array; size = 2 }

array-IsHeap : IsHeap 2 array
array-IsHeap zero h k = absurd (omega arith)
array-IsHeap (suc zero) h k = LexLe-Precedes (triplet 1 2 0) (triplet 1 3 1) (ground arith)
array-IsHeap (suc (suc c)) h k = absurd (omega arith)

two_elements-IsQueue : IsQueue 3 two_elements
two_elements-IsQueue = record { allocated = refl; fits = omega arith; heap_order = array-IsHeap }

replace_top_heap_element_lem_example :
    Gives
      (Replaced 3 (triplet 2 0 0) two_elements)
      (replace_top_heap_element (triplet 2 0 0) two_elements)
replace_top_heap_element_lem_example =
    replace_top_heap_element_lem 3 (triplet 2 0 0) two_elements two_elements-IsQueue (omega arith)

pop_top_heap_element_lem_example :
    Gives (Removed 3 two_elements) (pop_top_heap_element two_elements)
pop_top_heap_element_lem_example =
    pop_top_heap_element_lem 3 two_elements two_elements-IsQueue (omega arith)

insert_into_heap_lem_example :
    Gives
      (Inserted 3 (triplet 0 9 2) two_elements)
      (insert_into_heap 3 (triplet 0 9 2) two_elements)
insert_into_heap_lem_example =
    insert_into_heap_lem 3 (triplet 0 9 2) two_elements two_elements-IsQueue (omega arith)

root_least_example :
    ((a b : HeapElement) → (above a b ≡ false) ↔ LexLe a b)
    × ((i : ℕ) → i < 2 → LexLe (at array 0) (at array i))
root_least_example = root_least 2 array array-IsHeap
