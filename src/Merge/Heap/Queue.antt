-- ===== src/Merge/Heap/Queue.antt =====
-- The heap of src/merge.c as a priority queue: what each operation does to the elements in use.
use mathlib.Core.List.{Perm}
use mathlib.Core.List.Perm
use suffix_rank.Base.{
  ℕ, suc, ◌+◌, ◌-◌, ◌<◌, ◌≤◌, ◌≡◌, refl, ap, ◌∙◌, inl, inr, false, List, [], ◌∷◌, ◌++◌, arith,
  length, take, take-set, take-suc, snoc-perm, set-perm, get_or-take, length-take, take-add_one-set,
  get_elem?-eq-get_or, ◌==◌, Bool-cases, Gives, gives, Gives-inv,
}
use suffix_rank.Merge.{HeapElement, Outcome, success}
use suffix_rank.Merge.Heap.{Heap, replace_top_heap_element, pop_top_heap_element, insert_into_heap}
use suffix_rank.Merge.Heap.Order.{no_element, at, IsHeap}
use suffix_rank.Merge.Heap.Down.{DownInv, filled, sift_down_lem}
use suffix_rank.Merge.Heap.Up.{UpInv, sift_up_lem}

-- The elements in use.
abbrev pub elems : Heap → List HeapElement
elems m = take m.size m.elements

abbrev pub top : Heap → HeapElement
top m = at m.elements 0

pub record IsQueue (total_chunks : ℕ) (m : Heap) : Type 0 where
  pub allocated : length m.elements ≡ total_chunks
  pub fits : m.size ≤ total_chunks
  pub heap_order : IsHeap m.size m.elements

filled_root-perm :
    (size : ℕ) (heap : List HeapElement) (item : HeapElement)
    → 0 < size
    → size ≤ length heap
    → Perm (at heap 0 ∷ filled size heap item 0) (item ∷ take size heap)
filled_root-perm size heap item pos fits =
    let t = take size heap in
    let same = get_or-take size heap 0 no_element pos in
    rw (take-set size heap 0 item pos, ← same)
      (set-perm t 0 item no_element (omega (arith, length-take size heap)))

-- The top leaves the queue and the input enters it.
pub record Replaced (total_chunks : ℕ) (input : HeapElement) (m h : Heap) : Type 0 where
  pub valid : IsQueue total_chunks h
  pub same_size : h.size ≡ m.size
  pub exchanged : Perm (top m ∷ elems h) (input ∷ elems m)

-- On a nonempty heap, replace_top_heap_element stays inside the array, keeps the heap order and
-- the size, and exchanges the top for the input.
pub replace_top_heap_element_lem :
    (total_chunks : ℕ) (input : HeapElement) (m : Heap)
    → IsQueue total_chunks m
    → 0 < m.size
    → Gives (Replaced total_chunks input m) (replace_top_heap_element input m)
unfolding replace_top_heap_element
replace_top_heap_element_lem total_chunks input m v pos =
    let start : DownInv m.size m.elements input 0 = record {
      allocated = omega arith;
      inside = pos;
      edges = λ c p q r t. v.heap_order c p q;
      top = λ p. absurd (omega arith);
      bridged = λ c p q e t. absurd (omega arith);
    } in
    let (h, run, s) =
      Gives-inv (sift_down_lem (m.size + 1) m.size m.elements input 0 (omega arith) start) in
    rw run (
      gives (record {
        valid = record {
          allocated = s.same_length ∙ v.allocated;
          fits = v.fits;
          heap_order = s.heap_order;
        };
        same_size = refl;
        exchanged =
            Perm.trans (Perm.cons (top m) s.same)
              (filled_root-perm m.size m.elements input pos (omega arith));
      }))

-- The top leaves the queue.
pub record Removed (total_chunks : ℕ) (m h : Heap) : Type 0 where
  pub valid : IsQueue total_chunks h
  pub smaller : h.size + 1 ≡ m.size
  pub taken : Perm (top m ∷ elems h) (elems m)

-- On a nonempty heap, pop_top_heap_element stays inside the array, keeps the heap order, and
-- removes the top and nothing else.
pub pop_top_heap_element_lem :
    (total_chunks : ℕ) (m : Heap)
    → IsQueue total_chunks m
    → 0 < m.size
    → Gives (Removed total_chunks m) (pop_top_heap_element m)
unfolding pop_top_heap_element
pop_top_heap_element_lem total_chunks m v pos =
    let n = m.size - 1 in
    let last : n < length m.elements = omega arith in
    let item = at m.elements n in
    let count : m.size ≡ suc n = omega arith in
    let old : elems m ≡ take n m.elements ++ item ∷ [] =
      ap (λ k. take k m.elements) count ∙ take-suc n m.elements no_element last in
    rw (get_elem?-eq-get_or m.elements n no_element last) (elim (Bool-cases (n == 0)) [
      | inl only ↦
          let zero_left : n ≡ 0 = ground arith in
          rw only (
            gives (record {
              valid = record {
                allocated = v.allocated;
                fits = omega arith;
                heap_order = λ c p q. v.heap_order c p (omega arith);
              };
              smaller = omega arith;
              taken = rw (old, zero_left) (Perm.refl _);
            }))
      | inr more ↦
          let left : 0 < n = ground arith in
          let start : DownInv n m.elements item 0 = record {
            allocated = omega arith;
            inside = left;
            edges = λ c p q r t. v.heap_order c p (omega arith);
            top = λ p. absurd (omega arith);
            bridged = λ c p q e t. absurd (omega arith);
          } in
          let (h, run, s) =
            Gives-inv (sift_down_lem (n + 1) n m.elements item 0 (omega arith) start) in
          rw (more, run)
            (gives (record {
              valid = record {
                allocated = s.same_length ∙ v.allocated;
                fits = omega arith;
                heap_order = s.heap_order;
              };
              smaller = omega arith;
              taken = rw old (
                  Perm.trans (Perm.cons (top m) s.same) (
                    Perm.trans (filled_root-perm n m.elements item left (omega arith))
                      (Perm.symm (snoc-perm (take n m.elements) item))));
            }))
    ])

-- The input enters the queue.
pub record Inserted (total_chunks : ℕ) (input : HeapElement) (m : Heap)
    (r : Outcome (Unit {0}) × Heap) : Type 0 where
  pub succeeds : r.0 ≡ success tt
  pub valid : IsQueue total_chunks r.1
  pub larger : r.1.size ≡ m.size + 1
  pub added : Perm (elems r.1) (input ∷ elems m)

-- On a heap that is not full, insert_into_heap succeeds inside the array, keeps the heap order,
-- and adds the input and nothing else.
pub insert_into_heap_lem :
    (total_chunks : ℕ) (input : HeapElement) (m : Heap)
    → IsQueue total_chunks m
    → m.size < total_chunks
    → Gives (Inserted total_chunks input m) (insert_into_heap total_chunks input m)
unfolding insert_into_heap
insert_into_heap_lem total_chunks input m v free =
    let n = m.size + 1 in
    let start : UpInv n m.elements input m.size = record {
      allocated = omega arith;
      inside = omega arith;
      edges = λ c p q r t. v.heap_order c p (omega arith);
      below = λ c p q e. absurd (omega arith);
      bridged = λ c p q e t. absurd (omega arith);
    } in
    let (h, run, s) = Gives-inv (sift_up_lem n n m.elements input m.size (omega arith) start) in
    let room : (m.size == total_chunks) ≡ false = ground arith in
    rw (room, run)
      (gives (record {
        succeeds = refl;
        valid = record {
          allocated = s.same_length ∙ v.allocated;
          fits = omega arith;
          heap_order = s.heap_order;
        };
        larger = refl;
        added = Perm.trans s.same (
            rw (take-add_one-set m.elements m.size input (omega arith))
              (snoc-perm (take m.size m.elements) input));
      }))
