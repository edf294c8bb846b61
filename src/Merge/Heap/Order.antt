-- ===== src/Merge/Heap/Order.antt =====
-- The order that compare_heap_elements of src/merge.c decides, and the heap order over it.
use suffix_rank.Base.{
  ℕ, zero, suc, ◌-◌, ◌/◌, ◌<◌, ◌≤◌, ◌≡◌, ◌⊎◌, ◌↔◌, Bool-cases, inl, inr, false, true, List, arith,
  get_or, ◌==◌,
}
use suffix_rank.Merge.{HeapElement}
use suffix_rank.Merge.Heap.{compare_heap_elements, above}

-- `a` may stand in front of `b`.
abbrev pub Precedes : HeapElement → HeapElement → Type 0
Precedes a b = above a b ≡ false

-- The lexicographic order, written out.
abbrev pub LexLe : HeapElement → HeapElement → Type 0
LexLe a b =
    (a.current_rank < b.current_rank)
    ⊎ ((a.current_rank ≡ b.current_rank)
        × ((a.next_rank < b.next_rank) ⊎ ((a.next_rank ≡ b.next_rank) × (a.chunk_id ≤ b.chunk_id))))

pub LexLe-Precedes : (a b : HeapElement) → LexLe a b → Precedes a b
unfolding compare_heap_elements
LexLe-Precedes a b h = ground arith

pub Precedes-LexLe : (a b : HeapElement) → Precedes a b → LexLe a b
unfolding compare_heap_elements
Precedes-LexLe a b h = elim (Bool-cases (a.current_rank == b.current_rank)) [
  | inr apart ↦ inl (ground arith)
  | inl same ↦ elim (Bool-cases (a.next_rank == b.next_rank)) [
    | inr apart ↦ inr (ground arith, inl (ground arith))
    | inl same_next ↦ inr (ground arith, inr (ground arith, ground arith))
  ]
]

pub Precedes_refl : (a : HeapElement) → Precedes a a
unfolding compare_heap_elements
Precedes_refl a = ground arith

pub Precedes_trans : (a b c : HeapElement) → Precedes a b → Precedes b c → Precedes a c
Precedes_trans a b c h k =
    LexLe-Precedes a c (ground (arith, Precedes-LexLe a b, Precedes-LexLe b c))

pub Precedes_of_above : (a b : HeapElement) → above a b ≡ true → Precedes b a
unfolding compare_heap_elements
Precedes_of_above a b h = ground arith

-- An element for reads that never happen.
abbrev pub no_element : HeapElement
no_element = record { current_rank = 0; next_rank = 0; count = 0; chunk_id = 0 }

abbrev pub at : List HeapElement → ℕ → HeapElement
at heap i = get_or heap i no_element

abbrev pub parent_of : ℕ → ℕ
parent_of c = (c - 1) / 2

-- Every element in use stands at or behind its parent.
abbrev pub IsHeap : ℕ → List HeapElement → Type 0
IsHeap size heap = (c : ℕ) → 0 < c → c < size → Precedes (at heap (parent_of c)) (at heap c)

root_precedes_below :
    (fuel size : ℕ) (heap : List HeapElement) (i : ℕ)
    → IsHeap size heap
    → i < fuel
    → i < size
    → Precedes (at heap 0) (at heap i)
root_precedes_below zero size heap i h f p = absurd (omega arith)
root_precedes_below (suc fuel) size heap zero h f p = Precedes_refl (at heap 0)
root_precedes_below (suc fuel) size heap (suc i) h f p =
    let up = parent_of (suc i) in
    Precedes_trans (at heap 0) (at heap up) (at heap (suc i))
      (root_precedes_below fuel size heap up h (omega arith) (omega arith))
      (h (suc i) (omega arith) p)

pub root_precedes :
    (size : ℕ) (heap : List HeapElement) (i : ℕ)
    → IsHeap size heap
    → i < size
    → Precedes (at heap 0) (at heap i)
root_precedes size heap i h p = root_precedes_below (suc i) size heap i h (omega arith) p

-- compare_heap_elements is not positive exactly if its first argument comes before its second, or
-- is equal, by current rank, then next rank, then chunk; and in an array in heap order of its
-- results the root is, in that order, before or equal to each element in use.
pub root_least :
    (size : ℕ) (heap : List HeapElement)
    → IsHeap size heap
    → ((a b : HeapElement) → (above a b ≡ false) ↔ LexLe a b)
      × ((i : ℕ) → i < size → LexLe (at heap 0) (at heap i))
root_least size heap h = (
  λ a b. (Precedes-LexLe a b, LexLe-Precedes a b),
  λ i p. Precedes-LexLe (at heap 0) (at heap i) (root_precedes size heap i h p),
)
