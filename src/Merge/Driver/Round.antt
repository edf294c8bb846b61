-- ===== src/Merge/Driver/Round.antt =====
-- One round of the loop of merge_runs in src/merge.c.
use mathlib.Core.List.{Perm}
use mathlib.Core.List.Perm
use suffix_rank.Base.{
  ℕ, ◌<◌, ◌≡◌, refl, ap, sym, ◌∙◌, false, List, [], ◌∷◌, ◌++◌, some, arith, length, length-set, set,
  store_of_lt, All, ◌==◌, get_elem?-eq-get_or, Gives, gives, Gives-bind, Gives-inv,
}
use suffix_rank.Format.Runs.{encode, expand}
use suffix_rank.Merge.{HeapElement, Outcome, success, empty, failure}
use suffix_rank.Merge.Heap.{Heap, above}
use suffix_rank.Merge.Heap.Queue.{
  IsQueue, elems, top, replace_top_heap_element_lem, pop_top_heap_element_lem,
}
use suffix_rank.Merge.Lane.{Lane, Capacity}
use suffix_rank.Merge.Lane.Invariant.{output}
use suffix_rank.Merge.Lane.Walk.{Advanced, Ended, NextRun, get_next_run_lem}
use suffix_rank.Merge.Resolve.{transfer}
use suffix_rank.Merge.Resolve.Places.{transfer-inside, transfer-last}
use suffix_rank.Merge.Driver.{Manager, rank_and_write, after_next, merge_round}
use suffix_rank.Merge.Driver.Shares.{
  Share, heads, without_head, heads-put, heads-absent, tally-Perm, tally-All, All-tally,
}
use suffix_rank.Merge.Driver.State.{
  share_at, HeadOk-some, IsShare, IsMerge, Paid, Paid-set, IsTop, top-IsTop,
}
use suffix_rank.Merge.Driver.Writes.{no_lane, lane_at, Serves, runs_for, write_chunks_lem}
use suffix_rank.Merge.Driver.Replace.{
  Serves-set, shares-set, output-set, next_share, heads-behind, behind-All, weight-some,
  next_share-IsNext,
}

-- A round takes the first triplet, is a success, and keeps the invariant.
pub record Rounded (caps : Capacity) (n : ℕ) (gs : List Share) (m : Manager)
    (r : Outcome (Unit {0}) × Manager) : Type 0 where
  pub e : HeapElement
  pub gs' : List Share
  pub succeeds : r.0 ≡ success tt
  pub first : All (λ b. above e b ≡ false) (heads gs)
  pub is_head : (share_at gs e.chunk_id).head ≡ some e
  pub inside : e.chunk_id < n
  pub counted : 0 < e.count
  pub paid : Paid gs e gs'
  pub is_merge : IsMerge caps n gs' r.1
  pub ranking : r.1.ranking ≡ (transfer e (r.1.heap.size == 0) m.ranking).1
  pub grown :
      (i : ℕ)
      → output (lane_at r.1.lanes i)
        ≡ output (lane_at m.lanes i)
          ++ encode (runs_for i (transfer e (r.1.heap.size == 0) m.ranking).0)

-- The state between the heap operation and the writes.
record Between (caps : Capacity) (n : ℕ) (gs : List Share) (m : Manager) (e : HeapElement)
    (gs' : List Share) (lanes : List Lane) (heap : Heap) : Type 0 where
  lanes_size : length lanes ≡ n
  queue : IsQueue n heap
  in_heap : Perm (elems heap) (heads gs')
  serves : (i : ℕ) → i < n → Serves caps (lane_at lanes i) (share_at gs' i)
  shares : (i : ℕ) → i < n → IsShare i (share_at gs' i)
  same_output : (i : ℕ) → output (lane_at lanes i) ≡ output (lane_at m.lanes i)
  paid : Paid gs e gs'

rank_and_write_lem :
    (caps : Capacity) (n : ℕ) (gs gs' : List Share) (m : Manager) (e : HeapElement)
    (lanes : List Lane) (heap : Heap)
    → IsMerge caps n gs m
    → IsTop n gs m e
    → 0 < e.count
    → Between caps n gs m e gs' lanes heap
    → Gives (Rounded caps n gs m) (rank_and_write caps e lanes m.ranking heap)
unfolding rank_and_write
rank_and_write_lem caps n gs gs' m e lanes heap v t pos b =
    let w = transfer e (heap.size == 0) m.ranking in
    Gives-bind
      (write_chunks_lem caps w.0 lanes
        (rw b.lanes_size (transfer-inside n e (heap.size == 0) m.ranking t.inside v.last))
        λ i h. (share_at gs' i, b.serves i (rw b.lanes_size at h)))
      λ lanes' wrote. gives (record {
        e = e;
        gs' = gs';
        succeeds = refl;
        first = t.first;
        is_head = t.head;
        inside = t.inside;
        counted = pos;
        paid = b.paid;
        is_merge = record {
          lanes_size = wrote.same_length ∙ b.lanes_size;
          shares_size = b.paid.same_length ∙ v.shares_size;
          queue = b.queue;
          in_heap = b.in_heap;
          serves = λ i h. wrote.serves i (share_at gs' i) (b.serves i h);
          shares = b.shares;
          last = transfer-last n e (heap.size == 0) m.ranking t.inside;
        };
        ranking = refl;
        grown = λ i. wrote.grown i ∙ ap (λ x. x ++ encode (runs_for i w.0)) (b.same_output i);
      })

after-Ended :
    (caps : Capacity) (n : ℕ) (gs : List Share) (m : Manager) (l' : Lane)
    → IsMerge caps n gs m
    → IsTop n gs m (top m.heap)
    → 0 < m.heap.size
    → 0 < (top m.heap).count
    → (s : Serves caps (lane_at m.lanes (top m.heap).chunk_id) (share_at gs (top m.heap).chunk_id))
    → Ended caps s.cs s.ns (lane_at m.lanes (top m.heap).chunk_id) l'
    → Gives
        (Rounded caps n gs m)
        (after_next caps (top m.heap) (set m.lanes (top m.heap).chunk_id l') m empty)
after-Ended caps n gs m l' v t pos counted s d =
    let e = top m.heap in
    let c = e.chunk_id in
    let g = share_at gs c in
    let gs' = set gs c (without_head g) in
    let picked = heads-behind caps n gs m e v t in
    Gives-bind (pop_top_heap_element_lem n m.heap v.queue pos) λ heap q.
      rank_and_write_lem caps n gs gs' m e (set m.lanes c l') heap v t counted (record {
        lanes_size = length-set m.lanes c l' ∙ v.lanes_size;
        queue = q.valid;
        in_heap = Perm.cons_inv (Perm.trans q.taken (Perm.trans v.in_heap picked));
        serves =
            Serves-set caps n gs m.lanes c l' (without_head g) v.lanes_size v.shares_size t.inside
              (record {
                cs = s.cs;
                ns = [];
                holds = d.holds;
                room = d.room;
                pend_cur = d.same_cur ∙ s.pend_cur;
                pend_next = rw d.none_left' (unfold expand in sym d.none_left ∙ s.pend_next);
              })
              v.serves;
        shares =
            shares-set n gs c (without_head g) v.shares_size t.inside
              (record {
                head_ok = sym s.pend_next ∙ d.none_left;
                same_size = (v.shares c t.inside).same_size;
              })
              v.shares;
        same_output = output-set m.lanes c l' (omega (arith, v.lanes_size, t.inside)) d.same_output;
        paid =
            Paid-set gs c e (without_head g) (omega (arith, v.shares_size, t.inside)) refl t.head
              refl refl (behind-All e gs (heads gs') picked t.first)
              (omega (arith, weight-some g e t.head));
      })

after-Advanced :
    (caps : Capacity) (n : ℕ) (gs : List Share) (m : Manager) (l' : Lane) (x : HeapElement)
    → IsMerge caps n gs m
    → IsTop n gs m (top m.heap)
    → 0 < m.heap.size
    → 0 < (top m.heap).count
    → (s : Serves caps (lane_at m.lanes (top m.heap).chunk_id) (share_at gs (top m.heap).chunk_id))
    → Advanced caps s.cs s.ns
        (lane_at m.lanes (top m.heap).chunk_id)
        x.current_rank
        x.next_rank
        x.count
        l'
    → x.chunk_id ≡ (top m.heap).chunk_id
    → Gives
        (Rounded caps n gs m)
        (after_next caps (top m.heap) (set m.lanes (top m.heap).chunk_id l') m (success x))
after-Advanced caps n gs m l' x v t pos counted s a own =
    let e = top m.heap in
    let c = e.chunk_id in
    let g = share_at gs c in
    let g' = next_share a.cs' a.ns' x l' in
    let gs' = set gs c g' in
    let inside : c < length gs = omega (arith, v.shares_size, t.inside) in
    let picked = heads-behind caps n gs m e v t in
    let rest = heads (set gs c (without_head g)) in
    let same : heads (set gs c (without_head g')) ≡ rest =
      heads-absent gs c (without_head g') (without_head g) refl in
    let put : Perm (heads gs') (x ∷ rest) = rw same at (heads-put gs c g' x inside refl) in
    let i =
      next_share-IsNext caps n c e x g (lane_at m.lanes c) l' t.head (v.shares c t.inside) s a
        own in
    let later : All (λ b. above e b ≡ false) (heads gs') = tally-All (above e) (heads gs') (
      tally-Perm (above e) put
      ∙ All-tally (above e) (x ∷ rest) (i.behind, behind-All e gs rest picked t.first)) in
    Gives-bind (replace_top_heap_element_lem n x m.heap v.queue pos) λ heap q.
      let swapped : Perm (e ∷ elems heap) (e ∷ x ∷ rest) =
        Perm.trans q.exchanged
          (Perm.trans (Perm.cons x (Perm.trans v.in_heap picked)) (Perm.swap e x rest)) in
      rank_and_write_lem caps n gs gs' m e (set m.lanes c l') heap v t counted (record {
        lanes_size = length-set m.lanes c l' ∙ v.lanes_size;
        queue = q.valid;
        in_heap = Perm.trans (Perm.cons_inv swapped) (Perm.symm put);
        serves =
            Serves-set caps n gs m.lanes c l' g' v.lanes_size v.shares_size t.inside
              (record {
                cs = a.cs';
                ns = a.ns';
                holds = a.holds;
                room = a.room;
                pend_cur = refl;
                pend_next = refl;
              })
              v.serves;
        shares = shares-set n gs c g' v.shares_size t.inside i.is_share v.shares;
        same_output = output-set m.lanes c l' (omega (arith, v.lanes_size, t.inside)) a.same_output;
        paid =
            Paid-set gs c e g' inside refl t.head i.all_cur i.all_next later
              (omega (arith, weight-some g e t.head, i.less));
      })

after_next_lem :
    (caps : Capacity) (n : ℕ) (gs : List Share) (m : Manager) (got : Outcome HeapElement)
    (l' : Lane)
    → IsMerge caps n gs m
    → IsTop n gs m (top m.heap)
    → 0 < m.heap.size
    → 0 < (top m.heap).count
    → (s : Serves caps (lane_at m.lanes (top m.heap).chunk_id) (share_at gs (top m.heap).chunk_id))
    → NextRun caps (top m.heap).chunk_id s.cs s.ns (lane_at m.lanes (top m.heap).chunk_id) (got, l')
    → Gives
        (Rounded caps n gs m)
        (after_next caps (top m.heap) (set m.lanes (top m.heap).chunk_id l') m got)
after_next_lem caps n gs m (success x) l' v t pos counted s (a, own) =
    after-Advanced caps n gs m l' x v t pos counted s a own
after_next_lem caps n gs m empty l' v t pos counted s d =
    after-Ended caps n gs m l' v t pos counted s d
after_next_lem caps n gs m failure l' v t pos counted s (no_cur, some_next) =
    let share = v.shares (top m.heap).chunk_id t.inside in
    absurd (
      omega (
        arith,
        share.same_size,
        ap length s.pend_cur,
        ap length s.pend_next,
        ap length no_cur,
        some_next,
      ))

pub merge_round_lem :
    (caps : Capacity) (n : ℕ) (gs : List Share) (m : Manager)
    → IsMerge caps n gs m
    → 0 < m.heap.size
    → Gives (Rounded caps n gs m) (merge_round caps m)
unfolding merge_round
merge_round_lem caps n gs m v pos =
    let e = top m.heap in
    let c = e.chunk_id in
    let t = top-IsTop caps n gs m v pos in
    let inside : c < length m.lanes = omega (arith, v.lanes_size, t.inside) in
    let s = v.serves c t.inside in
    let (own, counted, ascends) =
      HeadOk-some c (share_at gs c) e t.head (v.shares c t.inside).head_ok in
    let ((got, l'), run, next) =
      Gives-inv (get_next_run_lem caps c s.cs s.ns (lane_at m.lanes c) s.holds) in
    rw (t.found, get_elem?-eq-get_or m.lanes c no_lane inside)
      (rw run (
        rw (store_of_lt m.lanes c l' inside)
          (after_next_lem caps n gs m got l' v t pos counted s next)))
