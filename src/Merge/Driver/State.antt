-- ===== src/Merge/Driver/State.antt =====
-- The invariant of the loop of merge_runs, and what one round pays of the shares.
use mathlib.Core.List.{Perm}
use mathlib.Core.Path.{subst}
use suffix_rank.Base.{
  ℕ, zero, suc, ◌<◌, ◌≤◌, ◌≡◌, refl, ap, sym, ◌∙◌, Bool, true, false, List, [], ◌∷◌, ◌++◌, ◌⊎◌,
  none, some, arith, length, length-set, get_or, get_or-set, set, replicate, take, All, Bool-cases,
  inl, inr, if◌then◌else◌, ◌==◌, ◌&&◌, get_elem?, get_elem?-eq-get_or,
}
use suffix_rank.Merge.{HeapElement}
use suffix_rank.Merge.Heap.{above}
use suffix_rank.Merge.Heap.Order.{at, no_element, root_precedes}
use suffix_rank.Merge.Heap.Queue.{IsQueue, elems, top}
use suffix_rank.Merge.Lane.{Capacity}
use suffix_rank.Merge.Resolve.Places.{LastOk}
use suffix_rank.Merge.Driver.{Manager}
use suffix_rank.Merge.Driver.Shares.{
  Share, no_share, heads, tally, tally-Perm, tally-All, All-tally, tally-heads, weight, measure,
  measure-set,
}
use suffix_rank.Merge.Driver.Writes.{lane_at, Serves}

abbrev pub share_at : List Share → ℕ → Share
share_at gs i = get_or gs i no_share

-- The order of pairs of ranks.
abbrev pub PairLe : ℕ → ℕ → ℕ → ℕ → Type 0
PairLe c n x y = (c < x) ⊎ ((c ≡ x) × (n ≤ y))

-- The pairs along two lists ascend from (c, n) on.
abbrev pub IsAscending : ℕ → ℕ → List ℕ → List ℕ → Type 0
IsAscending c n [] ys = Unit {0}
IsAscending c n (x ∷ xs) [] = Unit {0}
IsAscending c n (x ∷ xs) (y ∷ ys) = PairLe c n x y × IsAscending x y xs ys

pub IsAscending-skip :
    (k c n x y : ℕ) (xs ys : List ℕ)
    → IsAscending c n (replicate (suc k) x ++ xs) (replicate (suc k) y ++ ys)
    → PairLe c n x y × IsAscending x y xs ys
IsAscending-skip zero c n x y xs ys h = h
IsAscending-skip (suc k) c n x y xs ys h = (h.0, (IsAscending-skip k x y x y xs ys h.1).1)

-- The triplet in the heap is one of the chunk, and the entries behind it ascend from it on.
abbrev pub HeadOk : ℕ → Share → Type 0
HeadOk i g = elim g.head [
  | none ↦ g.nexts ≡ []
  | some e ↦
      (e.chunk_id ≡ i) × (0 < e.count) × IsAscending e.current_rank e.next_rank g.curs g.nexts
]

pub record IsShare (i : ℕ) (g : Share) : Type 0 where
  pub head_ok : HeadOk i g
  pub same_size : length g.curs ≡ length g.nexts

pub record IsMerge (caps : Capacity) (n : ℕ) (gs : List Share) (m : Manager) : Type 0 where
  pub lanes_size : length m.lanes ≡ n
  pub shares_size : length gs ≡ n
  pub queue : IsQueue n m.heap
  pub in_heap : Perm (elems m.heap) (heads gs)
  pub serves : (i : ℕ) → i < n → Serves caps (lane_at m.lanes i) (share_at gs i)
  pub shares : (i : ℕ) → i < n → IsShare i (share_at gs i)
  pub last : LastOk n m.ranking

-- All entries that a share owes.
abbrev pub due_cur : Share → List ℕ
due_cur g = elim g.head [ none ↦ g.curs | some e ↦ replicate e.count e.current_rank ++ g.curs ]

abbrev pub due_next : Share → List ℕ
due_next g = elim g.head [ none ↦ g.nexts | some e ↦ replicate e.count e.next_rank ++ g.nexts ]

-- The entries of a triplet, for its own chunk.
abbrev pub cur_part : ℕ → HeapElement → List ℕ
cur_part i e = if e.chunk_id == i then replicate e.count e.current_rank else []

abbrev pub next_part : ℕ → HeapElement → List ℕ
next_part i e = if e.chunk_id == i then replicate e.count e.next_rank else []

pub record Paid (gs : List Share) (e : HeapElement) (gs' : List Share) : Type 0 where
  pub same_length : length gs' ≡ length gs
  pub paid_cur : (i : ℕ) → due_cur (share_at gs i) ≡ cur_part i e ++ due_cur (share_at gs' i)
  pub paid_next : (i : ℕ) → due_next (share_at gs i) ≡ next_part i e ++ due_next (share_at gs' i)
  pub later : All (λ b. above e b ≡ false) (heads gs')
  pub shrinks : measure gs' < measure gs

due_cur-some :
    (g : Share) (e : HeapElement)
    → g.head ≡ some e
    → due_cur g ≡ replicate e.count e.current_rank ++ g.curs
due_cur-some g e h = rw h refl

due_next-some :
    (g : Share) (e : HeapElement)
    → g.head ≡ some e
    → due_next g ≡ replicate e.count e.next_rank ++ g.nexts
due_next-some g e h = rw h refl

pub HeadOk-some :
    (i : ℕ) (g : Share) (e : HeapElement)
    → g.head ≡ some e
    → HeadOk i g
    → (e.chunk_id ≡ i) × (0 < e.count) × IsAscending e.current_rank e.next_rank g.curs g.nexts
HeadOk-some i g e h k = rw h at k

-- The share of the triplet is replaced by what is left of it.
pub Paid-set :
    (gs : List Share) (c : ℕ) (e : HeapElement) (g' : Share)
    → c < length gs
    → e.chunk_id ≡ c
    → (share_at gs c).head ≡ some e
    → (share_at gs c).curs ≡ due_cur g'
    → (share_at gs c).nexts ≡ due_next g'
    → All (λ b. above e b ≡ false) (heads (set gs c g'))
    → weight g' < weight (share_at gs c)
    → Paid gs e (set gs c g')
Paid-set gs c e g' inside own head curs nexts later less = record {
  same_length = length-set gs c g';
  paid_cur = λ i. rw (get_or-set gs c i g' no_share inside) (elim (Bool-cases (c == i)) [
    | inl same ↦
        let e_i : c ≡ i = ground arith in
        let mine : (e.chunk_id == i) ≡ true = ground arith in
        rw (same, mine)
          (subst (λ x. due_cur (share_at gs x) ≡ replicate e.count e.current_rank ++ due_cur g') e_i
            (due_cur-some (share_at gs c) e head
              ∙ ap (λ x. replicate e.count e.current_rank ++ x) curs))
    | inr other ↦ let mine : (e.chunk_id == i) ≡ false = ground arith in rw (other, mine) refl
  ]);
  paid_next = λ i. rw (get_or-set gs c i g' no_share inside) (elim (Bool-cases (c == i)) [
    | inl same ↦
        let e_i : c ≡ i = ground arith in
        let mine : (e.chunk_id == i) ≡ true = ground arith in
        rw (same, mine)
          (subst (λ x. due_next (share_at gs x) ≡ replicate e.count e.next_rank ++ due_next g') e_i
            (due_next-some (share_at gs c) e head
              ∙ ap (λ x. replicate e.count e.next_rank ++ x) nexts))
    | inr other ↦ let mine : (e.chunk_id == i) ≡ false = ground arith in rw (other, mine) refl
  ]);
  later = later;
  shrinks = omega (arith, measure-set gs c g' inside);
}

-- The test for one triplet.
abbrev is_same : HeapElement → HeapElement → Bool
is_same a b =
    (a.current_rank == b.current_rank)
    && (a.next_rank == b.next_rank)
    && (a.count == b.count)
    && (a.chunk_id == b.chunk_id)

is_same_refl : (a : HeapElement) → is_same a a ≡ true
is_same_refl a = ground arith

eq_of_is_same : (a b : HeapElement) → is_same a b ≡ true → a ≡ b
eq_of_is_same a b h =
    let c : a.current_rank ≡ b.current_rank = ground arith in
    let n : a.next_rank ≡ b.next_rank = ground arith in
    let k : a.count ≡ b.count = ground arith in
    let i : a.chunk_id ≡ b.chunk_id = ground arith in
    λ j. record { current_rank = c j; next_rank = n j; count = k j; chunk_id = i j }

All-precedes :
    (n : ℕ) (e : HeapElement) (es : List HeapElement)
    → ((i : ℕ) → i < n → above e (at es i) ≡ false)
    → n ≤ length es
    → All (λ b. above e b ≡ false) (take n es)
All-precedes zero e es h k = tt
All-precedes (suc n) e [] h k = absurd (omega arith)
All-precedes (suc n) e (x ∷ es) h k =
    (h zero (omega arith), All-precedes n e es (λ i p. h (suc i) (omega arith)) (omega arith))

-- The top of the heap is the first triplet of all heads, and the head of its own chunk's share.
pub record IsTop (n : ℕ) (gs : List Share) (m : Manager) (e : HeapElement) : Type 0 where
  pub found : get_elem? m.heap.elements 0 ≡ some e
  pub inside : e.chunk_id < n
  pub head : (share_at gs e.chunk_id).head ≡ some e
  pub first : All (λ b. above e b ≡ false) (heads gs)

top-tally :
    (n : ℕ) (es : List HeapElement)
    → 0 < n
    → n ≤ length es
    → 0 < tally (is_same (at es 0)) (take n es)
unfolding tally
top-tally zero es h k = absurd (omega arith)
top-tally (suc n) [] h k = absurd (omega arith)
top-tally (suc n) (x ∷ es) h k = rw (is_same_refl x) (omega arith)

pub top-IsTop :
    (caps : Capacity) (n : ℕ) (gs : List Share) (m : Manager)
    → IsMerge caps n gs m
    → 0 < m.heap.size
    → IsTop n gs m (top m.heap)
unfolding tally
top-IsTop caps n gs m v pos =
    let e = top m.heap in
    let used : 0 < length m.heap.elements = omega (arith, v.queue.allocated, v.queue.fits) in
    let low : All (λ b. above e b ≡ false) (elems m.heap) =
      All-precedes m.heap.size e m.heap.elements
        (λ i p. root_precedes m.heap.size m.heap.elements i v.queue.heap_order p)
        (omega (arith, v.queue.allocated, v.queue.fits)) in
    let first : tally (above e) (heads gs) ≡ 0 =
      sym (tally-Perm (above e) v.in_heap) ∙ All-tally (above e) (elems m.heap) low in
    let there : 0 < tally (is_same e) (heads gs) = rw (← tally-Perm (is_same e) v.in_heap) (
      top-tally m.heap.size m.heap.elements pos (omega (arith, v.queue.allocated, v.queue.fits))) in
    let (i, f, inside, got, same) = tally-heads (is_same e) gs there in
    let e_f : e ≡ f = eq_of_is_same e f same in
    let own : f.chunk_id ≡ i =
      (HeadOk-some i (share_at gs i) f got
        (v.shares i (omega (arith, inside, v.shares_size))).head_ok).0 in
    let at_i : e.chunk_id ≡ i = ap (λ (x : HeapElement). x.chunk_id) e_f ∙ own in
    record {
      found = get_elem?-eq-get_or m.heap.elements 0 no_element used;
      inside = omega (arith, at_i, v.shares_size);
      head = rw at_i (got ∙ ap some (sym e_f));
      first = tally-All (above e) (heads gs) first;
    }
