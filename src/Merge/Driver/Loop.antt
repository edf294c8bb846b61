-- ===== src/Merge/Driver/Loop.antt =====
-- The loop of merge_runs in src/merge.c as a whole: what it writes for each chunk.
use mathlib.Core.List.Perm
use suffix_rank.Base.{
  ℕ, zero, suc, ◌<◌, ◌≤◌, ◌≡◌, refl, ap, sym, ◌∙◌, true, false, List, [], ◌∷◌, ◌++◌, append-nil,
  append_assoc, Option, none, arith, length, take, All, Bool-cases, inl, inr, ◌==◌, Gives, gives,
  Gives-bind, Gives-map, Gives-inv,
}
use suffix_rank.Format.Runs.{encode, encode-append}
use suffix_rank.Merge.{HeapElement, Outcome, success, empty, failure}
use suffix_rank.Merge.Heap.{above}
use suffix_rank.Merge.Heap.Order.{LexLe, Precedes-LexLe}
use suffix_rank.Merge.Heap.Queue.{elems}
use suffix_rank.Merge.Lane.{Capacity}
use suffix_rank.Merge.Lane.Invariant.{output}
use suffix_rank.Merge.Resolve.{transfer, transfers, is_nil}
use suffix_rank.Merge.Resolve.Totals.{All-LexLe_trans}
use suffix_rank.Merge.Resolve.Correct.{IsOrdered}
use suffix_rank.Merge.Driver.{Manager, go_on, merge_loop}
use suffix_rank.Merge.Driver.Round.{Rounded, merge_round_lem}
use suffix_rank.Merge.Driver.Shares.{
  Share, heads, heads-pick, heads-nil, tally-Perm, tally-All, All-tally, measure,
}
use suffix_rank.Merge.Driver.State.{
  share_at, IsShare, IsMerge, due_cur, due_next, cur_part, next_part,
}
use suffix_rank.Merge.Driver.Writes.{lane_at, runs_for, runs_for-append}

-- The current and the next ranks that the triplets of chunk `i` stand for, entry by entry.
unfoldable pub cur_of : ℕ → List HeapElement → List ℕ
cur_of i [] = []
cur_of i (e ∷ es) = cur_part i e ++ cur_of i es

unfoldable pub next_of : ℕ → List HeapElement → List ℕ
next_of i [] = []
next_of i (e ∷ es) = next_part i e ++ next_of i es

-- All triplets, in the order in which the loop takes them, and what became of them.
pub record Finished (caps : Capacity) (n : ℕ) (gs : List Share) (m : Manager)
    (r : Outcome (Unit {0}) × Manager) : Type 0 where
  pub es : List HeapElement
  pub succeeds : r.0 ≡ success tt
  pub ordered : IsOrdered es
  pub in_chunks : All (λ e. e.chunk_id < n) es
  pub ends : is_nil es ≡ (m.heap.size == 0)
  pub bounded : (d : HeapElement) → All (λ b. above d b ≡ false) (heads gs) → All (LexLe d) es
  pub all_cur : (i : ℕ) → i < n → cur_of i es ≡ due_cur (share_at gs i)
  pub all_next : (i : ℕ) → i < n → next_of i es ≡ due_next (share_at gs i)
  pub grown :
      (i : ℕ)
      → output (lane_at r.1.lanes i)
        ≡ output (lane_at m.lanes i) ++ encode (runs_for i (transfers es m.ranking))

nil_of_length : (xs : List ℕ) → length xs ≡ 0 → xs ≡ []
nil_of_length [] h = refl
nil_of_length (x ∷ xs) h = absurd (omega arith)

-- Without a head a share is empty.
pub empty_share :
    (i : ℕ) (g : Share) → IsShare i g → g.head ≡ none → (due_cur g ≡ []) × (due_next g ≡ [])
empty_share i g v absent =
    let none_next : g.nexts ≡ [] = rw absent at v.head_ok in
    let none_cur : g.curs ≡ [] = nil_of_length g.curs (v.same_size ∙ ap length none_next) in
    (rw absent none_cur, rw absent none_next)

Finished-empty :
    (caps : Capacity) (n : ℕ) (gs : List Share) (m : Manager)
    → IsMerge caps n gs m
    → (m.heap.size == 0) ≡ true
    → Finished caps n gs m (success tt, m)
unfolding cur_of next_of transfers runs_for encode
Finished-empty caps n gs m v done =
    let zero_size : m.heap.size ≡ 0 = ground arith in
    let no_elems : elems m.heap ≡ [] = ap (λ k. take k m.heap.elements) zero_size in
    let no_heads : heads gs ≡ [] = Perm.eq-nil (rw no_elems at (Perm.symm v.in_heap)) in
    record {
      es = [];
      succeeds = refl;
      ordered = tt;
      in_chunks = tt;
      ends = sym done;
      bounded = λ d h. tt;
      all_cur =
          λ i h. sym (empty_share i (share_at gs i) (v.shares i h) (heads-nil gs i no_heads)).0;
      all_next =
          λ i h. sym (empty_share i (share_at gs i) (v.shares i h) (heads-nil gs i no_heads)).1;
      grown = λ i. sym (append-nil (output (lane_at m.lanes i)));
    }

Finished-round :
    (caps : Capacity) (n : ℕ) (gs : List Share) (m : Manager) (r s : Outcome (Unit {0}) × Manager)
    → IsMerge caps n gs m
    → (m.heap.size == 0) ≡ false
    → (rd : Rounded caps n gs m r) → Finished caps n rd.gs' r.1 s
    → Finished caps n gs m s
unfolding cur_of next_of transfers
Finished-round caps n gs m r s v more rd f =
    let e = rd.e in
    let es = f.es in
    let behind : All (LexLe e) es = f.bounded e rd.paid.later in
    let w = transfer e (r.1.heap.size == 0) m.ranking in
    record {
      es = e ∷ es;
      succeeds = f.succeeds;
      ordered = (rd.counted, behind, f.ordered);
      in_chunks = (rd.inside, f.in_chunks);
      ends = sym more;
      bounded = λ d h.
          let picked =
            heads-pick gs e.chunk_id e (omega (arith, v.shares_size, rd.inside)) rd.is_head in
          let all =
            tally-All (above d) _
              (sym (tally-Perm (above d) picked) ∙ All-tally (above d) (heads gs) h) in
          let le : LexLe d e = Precedes-LexLe d e all.0 in (le, All-LexLe_trans d e es le behind);
      all_cur = λ i h. ap (λ x. cur_part i e ++ x) (f.all_cur i h) ∙ sym (rd.paid.paid_cur i);
      all_next = λ i h. ap (λ x. next_part i e ++ x) (f.all_next i h) ∙ sym (rd.paid.paid_next i);
      grown = λ i.
          let rest = transfers es w.1 in
          let tail : output (lane_at s.1.lanes i)
              ≡ output (lane_at r.1.lanes i) ++ encode (runs_for i rest) =
            f.grown i
            ∙ ap (λ q. output (lane_at r.1.lanes i) ++ encode (runs_for i (transfers es q)))
                rd.ranking in
          rw f.ends (
            tail
            ∙ ap (λ x. x ++ encode (runs_for i rest)) (rd.grown i)
            ∙ append_assoc (output (lane_at m.lanes i)) (encode (runs_for i w.0))
                (encode (runs_for i rest))
            ∙ ap (λ x. output (lane_at m.lanes i) ++ x)
                (sym (encode-append (runs_for i w.0) (runs_for i rest))
                  ∙ ap encode (sym (runs_for-append i w.0 rest))));
    }

go_on_lem :
    {P : Outcome (Unit {0}) × Manager → Type 0}
    (again : Manager → Option (Outcome (Unit {0}) × Manager)) (r : Outcome (Unit {0}) × Manager)
    → r.0 ≡ success tt
    → Gives P (again r.1)
    → Gives P (go_on again r)
go_on_lem again (success u, m) e g = g
go_on_lem again (empty, m) e g = cc
go_on_lem again (failure, m) e g = cc

pub merge_loop_lem :
    (fuel : ℕ) (caps : Capacity) (n : ℕ) (gs : List Share) (m : Manager)
    → IsMerge caps n gs m
    → measure gs ≤ fuel
    → Gives (Finished caps n gs m) (merge_loop fuel caps m)
unfolding merge_loop
merge_loop_lem zero caps n gs m v enough = elim (Bool-cases (m.heap.size == 0)) [
  | inl done ↦ rw done (gives (Finished-empty caps n gs m v done))
  | inr more ↦
      let (r, run, rd) = Gives-inv (merge_round_lem caps n gs m v (ground arith)) in
      absurd (omega (arith, rd.paid.shrinks, enough))
]
merge_loop_lem (suc fuel) caps n gs m v enough = elim (Bool-cases (m.heap.size == 0)) [
  | inl done ↦ rw done (gives (Finished-empty caps n gs m v done))
  | inr more ↦ rw more (
      Gives-bind (merge_round_lem caps n gs m v (ground arith)) λ r rd.
        go_on_lem (merge_loop fuel caps) r rd.succeeds (
          Gives-map
            (merge_loop_lem fuel caps n rd.gs' r.1 rd.is_merge
              (omega (arith, rd.paid.shrinks, enough)))
            λ s f. Finished-round caps n gs m r s v more rd f))
]
