-- ===== src/Merge/Heap/Up.antt =====
-- The sift-up loop of src/merge.c, against the heap order and the elements of the array.
use mathlib.Core.List.Perm
use suffix_rank.Base.{
  ℕ, zero, suc, ◌<◌, ◌≤◌, ◌≡◌, ◌∙◌, ◌≢◌, inl, inr, true, List, arith, length, set, store_of_lt,
  get_or-set, get_elem?-eq-get_or, length-set, ltb, Bool-cases, Gives, gives, Gives-map,
}
use suffix_rank.Merge.{HeapElement}
use suffix_rank.Merge.Heap.{above, sift_up}
use suffix_rank.Merge.Heap.Order.{
  Precedes, Precedes_trans, Precedes_of_above, no_element, at, parent_of,
}
use suffix_rank.Merge.Heap.Down.{Sifted, swap-perm}

-- With the item put into the hole at `i`, only the edge above `i` may be out of order.
pub record UpInv (size : ℕ) (heap : List HeapElement) (item : HeapElement) (i : ℕ) : Type 0 where
  pub allocated : size ≤ length heap
  pub inside : i < size
  pub edges :
      (c : ℕ)
      → 0 < c
      → c < size
      → c ≢ i
      → parent_of c ≢ i
      → Precedes (at heap (parent_of c)) (at heap c)
  pub below : (c : ℕ) → 0 < c → c < size → parent_of c ≡ i → Precedes item (at heap c)
  pub bridged :
      (c : ℕ)
      → 0 < c
      → c < size
      → parent_of c ≡ i
      → 0 < i
      → Precedes (at heap (parent_of i)) (at heap c)

rise-UpInv :
    (size : ℕ) (heap : List HeapElement) (item : HeapElement) (i : ℕ)
    → UpInv size heap item i
    → 0 < i
    → above (at heap (parent_of i)) item ≡ true
    → UpInv size (set heap i (at heap (parent_of i))) item (parent_of i)
rise-UpInv size heap item i v pos beyond =
    let m = parent_of i in
    let hi : i < length heap = omega arith in
    let smaller : Precedes item (at heap m) = Precedes_of_above (at heap m) item beyond in
    let read = λ (j : ℕ). get_or-set heap i j (at heap m) no_element hi in
    record {
      allocated = rw length-set v.allocated;
      inside = omega arith;
      edges = λ c p q r t. ground (arith, read c, read (parent_of c), v.edges c, v.bridged c);
      below = λ c p q e.
          ground (arith, read c, v.edges c, Precedes_trans item (at heap m) (at heap c) smaller);
      bridged = λ c p q e t. ground (
        arith,
        read c,
        read (parent_of m),
        v.edges c,
        v.edges m,
        Precedes_trans (at heap (parent_of m)) (at heap m) (at heap c),
      );
    }

settled_up :
    (size : ℕ) (heap : List HeapElement) (item : HeapElement) (i : ℕ)
    → UpInv size heap item i
    → (0 < i → Precedes (at heap (parent_of i)) item)
    → Sifted size heap item i (set heap i item)
settled_up size heap item i v front =
    let hi : i < length heap = omega arith in
    let read = λ (j : ℕ). get_or-set heap i j item no_element hi in
    record {
      heap_order = λ c p q. ground (arith, read c, read (parent_of c), v.edges c, v.below c, front);
      same = Perm.refl _;
      same_length = length-set heap i item;
    }

pub sift_up_lem :
    (fuel size : ℕ) (heap : List HeapElement) (item : HeapElement) (i : ℕ)
    → i < fuel
    → UpInv size heap item i
    → Gives (Sifted size heap item i) (sift_up fuel heap item i)
unfolding sift_up
sift_up_lem zero size heap item i f v = absurd (omega arith)
sift_up_lem (suc fuel) size heap item i f v = elim (Bool-cases (ltb 0 i)) [
  | inr root ↦
      rw (root, store_of_lt heap i item (omega arith))
        (gives (settled_up size heap item i v (λ pos. absurd (ground arith))))
  | inl inner ↦
      let m = parent_of i in
      let pos : 0 < i = ground arith in
      let hm : m < length heap = omega arith in
      rw (inner, get_elem?-eq-get_or heap m no_element hm)
        (elim (Bool-cases (above (at heap m) item)) [
          | inr stays ↦
              rw (stays, store_of_lt heap i item (omega arith))
                (gives (settled_up size heap item i v (λ _. stays)))
          | inl rises ↦
              rw (rises, store_of_lt heap i (at heap m) (omega arith))
                (Gives-map
                  (sift_up_lem fuel size (set heap i (at heap m)) item m (omega arith)
                    (rise-UpInv size heap item i v pos rises))
                  λ h t. record {
                    heap_order = t.heap_order;
                    same = Perm.trans t.same (
                        swap-perm size heap item i m v.allocated v.inside (omega arith)
                          (omega arith));
                    same_length = t.same_length ∙ length-set heap i (at heap m);
                  })
        ])
]
