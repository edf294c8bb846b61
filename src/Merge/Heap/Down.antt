-- ===== src/Merge/Heap/Down.antt =====
-- The sift-down loop of src/merge.c, against the heap order and the elements of the array.
use mathlib.Core.List.{Perm}
use mathlib.Core.List.Perm
use suffix_rank.Base.{
  ℕ, zero, suc, ◌+◌, ◌-◌, ◌*◌, ◌<◌, ◌≤◌, ◌≡◌, refl, ◌∙◌, ◌⊎◌, ◌≢◌, inl, inr, true, List, arith,
  length, get_or, set, take, store_of_lt, get_or-set, get_elem?-eq-get_or, take-set, get_or-take,
  length-take, length-set, set-set-perm, ltb, Bool-cases, Gives, gives, Gives-map, Gives-inv,
}
use suffix_rank.Merge.{HeapElement}
use suffix_rank.Merge.Heap.{above, smaller_child, sift_down}
use suffix_rank.Merge.Heap.Order.{
  Precedes, Precedes_refl, Precedes_trans, Precedes_of_above, no_element, at, parent_of, IsHeap,
}

-- With the item put into the hole at `i`, only the edges below `i` may be out of order.
pub record DownInv (size : ℕ) (heap : List HeapElement) (item : HeapElement) (i : ℕ) : Type 0 where
  pub allocated : size ≤ length heap
  pub inside : i < size
  pub edges :
      (c : ℕ)
      → 0 < c
      → c < size
      → c ≢ i
      → parent_of c ≢ i
      → Precedes (at heap (parent_of c)) (at heap c)
  pub top : 0 < i → Precedes (at heap (parent_of i)) item
  pub bridged :
      (c : ℕ)
      → 0 < c
      → c < size
      → parent_of c ≡ i
      → 0 < i
      → Precedes (at heap (parent_of i)) (at heap c)

-- `m` is the child of `i` that stands in front of the other.
record IsSmallerChild (size : ℕ) (heap : List HeapElement) (i m : ℕ) : Type 0 where
  inside : m < size
  child : (m ≡ 2 * i + 1) ⊎ (m ≡ 2 * i + 2)
  least : (c : ℕ) → 0 < c → c < size → parent_of c ≡ i → Precedes (at heap m) (at heap c)

smaller_child-IsSmallerChild :
    (size : ℕ) (heap : List HeapElement) (i : ℕ)
    → size ≤ length heap
    → 2 * i + 1 < size
    → Gives (IsSmallerChild size heap i) (smaller_child heap size (2 * i + 1))
unfolding smaller_child
smaller_child-IsSmallerChild size heap i fits first = elim (Bool-cases (ltb (2 * i + 1 + 1) size)) [
  | inl two ↦
      let l : ℕ = 2 * i + 1 in
      let r : ℕ = 2 * i + 1 + 1 in
      let last : r < size = ground arith in
      let which : (c : ℕ) → 0 < c → parent_of c ≡ i → (c ≡ l) ⊎ (c ≡ r) = λ c p q. omega arith in
      rw
        (
          two,
          get_elem?-eq-get_or heap l no_element (omega arith),
          get_elem?-eq-get_or heap r no_element (omega arith),
        )
        (elim (Bool-cases (above (at heap l) (at heap r))) [
          | inl swapped ↦ rw swapped (
              gives (record {
                inside = last;
                child = inr (omega arith);
                least = λ c p q e. elim (which c p e) [
                  | inl is_l ↦ rw is_l (Precedes_of_above (at heap l) (at heap r) swapped)
                  | inr is_r ↦ rw is_r (Precedes_refl (at heap r))
                ];
              }))
          | inr kept ↦ rw kept (
              gives (record {
                inside = first;
                child = inl refl;
                least = λ c p q e. elim (which c p e) [
                  | inl is_l ↦ rw is_l (Precedes_refl (at heap l))
                  | inr is_r ↦ rw is_r kept
                ];
              }))
        ])
  | inr one ↦ rw one (
      gives (record {
        inside = first;
        child = inl refl;
        least = λ c p q r.
            let only : c ≡ 2 * i + 1 = ground arith in
            rw only (Precedes_refl (at heap (2 * i + 1)));
      }))
]

-- The heap with the item in the hole.
abbrev pub filled : ℕ → List HeapElement → HeapElement → ℕ → List HeapElement
filled size heap item i = take size (set heap i item)

-- What the loops leave: a heap of the same elements, in an array of the same length.
pub record Sifted (size : ℕ) (heap : List HeapElement) (item : HeapElement) (i : ℕ)
    (h : List HeapElement) : Type 0 where
  pub heap_order : IsHeap size h
  pub same : Perm (take size h) (filled size heap item i)
  pub same_length : length h ≡ length heap

-- Moving the child into the hole and the hole to the child keeps the elements.
pub swap-perm :
    (size : ℕ) (heap : List HeapElement) (item : HeapElement) (i m : ℕ)
    → size ≤ length heap
    → i < size
    → m < size
    → i ≢ m
    → Perm (filled size (set heap i (at heap m)) item m) (filled size heap item i)
swap-perm size heap item i m fits hi hm apart =
    let t = take size heap in
    let long : length t ≡ size = omega (arith, length-take size heap) in
    let same : get_or t m no_element ≡ at heap m = get_or-take size heap m no_element hm in
    rw
      (
        take-set size (set heap i (at heap m)) m item hm,
        take-set size heap i (at heap m) hi,
        take-set size heap i item hi,
        ← same,
      )
      (set-set-perm t i m item no_element (omega arith) (omega arith) apart)

sink-DownInv :
    (size : ℕ) (heap : List HeapElement) (item : HeapElement) (i m : ℕ)
    → DownInv size heap item i
    → IsSmallerChild size heap i m
    → above item (at heap m) ≡ true
    → DownInv size (set heap i (at heap m)) item m
sink-DownInv size heap item i m v s beyond =
    let hi : i < length heap = omega arith in
    let read = λ (j : ℕ). get_or-set heap i j (at heap m) no_element hi in
    record {
      allocated = rw length-set v.allocated;
      inside = s.inside;
      edges = λ c p q r t.
          ground (arith, read c, read (parent_of c), v.edges c, v.bridged m, s.least c);
      top = λ p. ground (arith, read (parent_of m), Precedes_of_above item (at heap m));
      bridged = λ c p q e t. ground (arith, read c, read (parent_of m), v.edges c);
    }

-- The item may stay in the hole once no child stands in front of it.
settled :
    (size : ℕ) (heap : List HeapElement) (item : HeapElement) (i : ℕ)
    → DownInv size heap item i
    → ((c : ℕ) → 0 < c → c < size → parent_of c ≡ i → Precedes item (at heap c))
    → Sifted size heap item i (set heap i item)
settled size heap item i v front =
    let hi : i < length heap = omega arith in
    let read = λ (j : ℕ). get_or-set heap i j item no_element hi in
    record {
      heap_order = λ c p q. ground (arith, read c, read (parent_of c), v.edges c, v.top, front c);
      same = Perm.refl _;
      same_length = length-set heap i item;
    }

pub sift_down_lem :
    (fuel size : ℕ) (heap : List HeapElement) (item : HeapElement) (i : ℕ)
    → size - i < fuel
    → DownInv size heap item i
    → Gives (Sifted size heap item i) (sift_down fuel heap size item i)
unfolding sift_down
sift_down_lem zero size heap item i f v = absurd (omega arith)
sift_down_lem (suc fuel) size heap item i f v = elim (Bool-cases (ltb (2 * i + 1) size)) [
  | inr leaf ↦
      rw (leaf, store_of_lt heap i item (omega arith))
        (gives (settled size heap item i v (λ c p q e. absurd (ground arith))))
  | inl inner ↦
      let (m, found, s) =
        Gives-inv (smaller_child-IsSmallerChild size heap i v.allocated (ground arith)) in
      let hm : m < length heap = omega arith in
      rw (inner, found, get_elem?-eq-get_or heap m no_element hm)
        (elim (Bool-cases (above item (at heap m))) [
          | inr stays ↦
              rw (stays, store_of_lt heap i item (omega arith))
                (gives (
                  settled size heap item i v (λ c p q e.
                    Precedes_trans item (at heap m) (at heap c) stays (s.least c p q e))))
          | inl sinks ↦
              let below : i < m = elim (s.child) [ inl e ↦ omega arith | inr e ↦ omega arith ] in
              rw (sinks, store_of_lt heap i (at heap m) (omega arith))
                (Gives-map
                  (sift_down_lem fuel size (set heap i (at heap m)) item m (omega arith)
                    (sink-DownInv size heap item i m v s sinks))
                  λ h t. record {
                    heap_order = t.heap_order;
                    same =
                        Perm.trans t.same (
                          swap-perm size heap item i m v.allocated v.inside s.inside (omega arith));
                    same_length = t.same_length ∙ length-set heap i (at heap m);
                  })
        ])
]
