-- ===== src/Merge/Resolve/Correct.antt =====
-- The ranking of src/merge.c, over triplets in the order of the heap, against the reference ranking.
use suffix_rank.Base.{
  ℕ, ◌+◌, ◌<◌, ◌≤◌, ◌≡◌, refl, ap, ◌∙◌, inl, inr, true, false, List, [], ◌∷◌, ◌++◌, map,
  append_assoc, none, some, arith, All, ◌==◌,
}
use suffix_rank.Merge.{HeapElement}
use suffix_rank.Merge.Heap.Order.{LexLe}
use suffix_rank.Merge.Resolve.{Ranking, resolve_last, heap_to_output_last, transfer, transfers}
use suffix_rank.Merge.Resolve.Totals.{
  total, smaller, same_pair, resolved, total-append, total-same_pair_snoc, total-smaller_snoc,
  All-LexLe_trans, total-smaller_behind, total-same_pair_behind, total-smaller_step,
  total-smaller_new, total-same_pair_new, total-smaller_same, total-same_pair_same,
}

-- The triplets stand in the order of the heap, and each stands for some suffixes.
abbrev pub IsOrdered : List HeapElement → Type 0
IsOrdered [] = Unit {0}
IsOrdered (e ∷ es) = (0 < e.count) × All (LexLe e) es × IsOrdered es

-- The ranking after the triplets `done`, the last of which is `l`.
record Pending (done : List HeapElement) (l : HeapElement) (r : Ranking) : Type 0 where
  last : r.last_transferred ≡ some l
  rank : r.updated_rank ≡ l.current_rank + total (smaller l) done
  pair : r.pair_count ≡ total (same_pair l) done
  behind : All (λ f. LexLe f l) done
  positive : 0 < l.count
  own : l.count ≤ total (same_pair l) done

-- How `e` may follow `l`.
data Follows (l e : HeapElement) : Type 0 where
  same_pairs : l.current_rank ≡ e.current_rank → l.next_rank ≡ e.next_rank → Follows l e
  later_next : l.current_rank ≡ e.current_rank → l.next_rank < e.next_rank → Follows l e
  later_rank : l.current_rank < e.current_rank → Follows l e

follows : (l e : HeapElement) → LexLe l e → Follows l e
follows l e (inl h) = later_rank h
follows l e (inr (h, inl k)) = later_next h k
follows l e (inr (h, inr (k, _))) = same_pairs h k

All-snoc :
    (l e : HeapElement) (es : List HeapElement)
    → LexLe l e
    → All (λ f. LexLe f l) es
    → All (λ f. LexLe f e) (es ++ e ∷ [])
All-snoc l e [] h k = (inr (refl, inr (refl, omega arith)), tt)
All-snoc l e (f ∷ es) h k = (ground (arith, k.0), All-snoc l e es h k.1)

module _ (done : List HeapElement) (l e : HeapElement) (es : List HeapElement) (r : Ranking)
    (p : Pending done l r) (le : LexLe l e) (ordered : All (LexLe e) es)
    (positive : 0 < e.count) where
  -- The totals of `l` over all triplets are known once `e` arrives, but for the pairs of `e`.
  rank_known : total (smaller l) (done ++ e ∷ es) ≡ total (smaller l) done
  rank_known = omega (
    arith,
    total-append (smaller l) done (e ∷ es),
    total-smaller_behind l (e ∷ es) (le, All-LexLe_trans l e es le ordered),
  )

  pair_known :
      same_pair l e ≡ false → total (same_pair l) (done ++ e ∷ es) ≡ total (same_pair l) done
  pair_known apart =
      let self : LexLe e e = inr (refl, inr (refl, omega arith)) in
      omega (
        arith,
        total-append (same_pair l) done (e ∷ es),
        total-same_pair_behind l e (e ∷ es) le apart (self, ordered),
      )

  pair_shared : same_pair l e ≡ true → 1 < total (same_pair l) (done ++ e ∷ es)
  pair_shared same =
      let at_e : total (same_pair l) (e ∷ es) ≡ e.count + total (same_pair l) es =
        unfold total in rw same refl in
      omega (arith, total-append (same_pair l) done (e ∷ es), p.own, p.positive)

  -- heap_to_output gives `l` its final rank, and goes on with `e` pending.
  resolve_last_lem :
      ((resolve_last l e r).0 ≡ resolved (done ++ e ∷ es) l)
      × Pending (done ++ e ∷ []) e (record ((resolve_last l e r).1) { last_transferred = some e })
  unfolding resolve_last
  resolve_last_lem = elim (follows l e le) [
    | same_pairs h k ↦
        let t1 : (e.current_rank == l.current_rank) ≡ true = ground arith in
        let t2 : (e.next_rank == l.next_rank) ≡ true = ground arith in
        let shared = pair_shared (ground arith) in
        let several : (total (same_pair l) (done ++ e ∷ es) == 1) ≡ false = ground arith in
        rw (t1, t2)
          (
            unfold resolved in rw several (ground (arith, rank_known, p.rank)),
            record {
              last = refl;
              rank =
                  omega (arith, p.rank, total-smaller_snoc done e, total-smaller_same l e done h k);
              pair =
                  omega
                    (arith, p.pair, total-same_pair_snoc done e, total-same_pair_same l e done h k);
              behind = All-snoc l e done le p.behind;
              positive = positive;
              own = omega (arith, total-same_pair_snoc done e);
            },
          )
    | later_next h k ↦
        let t1 : (e.current_rank == l.current_rank) ≡ true = ground arith in
        let t2 : (e.next_rank == l.next_rank) ≡ false = ground arith in
        let apart : same_pair l e ≡ false = ground arith in
        rw (t1, t2)
          (
            unfold resolved in rw (pair_known apart, rank_known, ← p.rank, ← p.pair) (ground arith),
            record {
              last = refl;
              rank = omega (
                arith,
                p.rank,
                p.pair,
                total-smaller_snoc done e,
                total-smaller_step l e done p.behind h k,
              );
              pair = omega (
                arith,
                total-same_pair_snoc done e,
                total-same_pair_new l e done p.behind le apart,
              );
              behind = All-snoc l e done le p.behind;
              positive = positive;
              own = omega (arith, total-same_pair_snoc done e);
            },
          )
    | later_rank h ↦
        let t1 : (e.current_rank == l.current_rank) ≡ false = ground arith in
        let apart : same_pair l e ≡ false = ground arith in
        rw t1 (
          unfold resolved in rw (pair_known apart, rank_known, ← p.rank, ← p.pair) (ground arith),
          record {
            last = refl;
            rank = omega (arith, total-smaller_snoc done e, total-smaller_new l e done p.behind h);
            pair = omega (
              arith,
              total-same_pair_snoc done e,
              total-same_pair_new l e done p.behind le apart,
            );
            behind = All-snoc l e done le p.behind;
            positive = positive;
            own = omega (arith, total-same_pair_snoc done e);
          },
        )
  ]

abbrev after : ℕ → ℕ → HeapElement → Ranking
after pair_count updated_rank l = record {
  pair_count = pair_count;
  updated_rank = updated_rank;
  last_transferred = some l;
}

-- heap_to_output_last gives the last triplet its final rank.
heap_to_output_last_lem :
    (done : List HeapElement) (l e : HeapElement) (pc u : ℕ)
    → All (λ f. LexLe f l) done
    → LexLe l e
    → 0 < e.count
    → 0 < l.count
    → l.count ≤ total (same_pair l) done
    → u ≡ e.current_rank + total (smaller e) (done ++ e ∷ [])
    → heap_to_output_last e (after pc u l) ≡ resolved (done ++ e ∷ []) e
unfolding heap_to_output_last resolved
heap_to_output_last_lem done l e pc u behind le positive positive_l own rank =
    elim (follows l e le) [
      | same_pairs h k ↦
          let t1 : (e.current_rank == l.current_rank) ≡ true = ground arith in
          let t2 : (e.next_rank == l.next_rank) ≡ true = ground arith in
          let several : (total (same_pair e) (done ++ e ∷ []) == 1) ≡ false =
            ground (arith, total-same_pair_snoc done e, total-same_pair_same l e done h k) in
          rw (t1, t2, several) (ground arith)
      | later_next h k ↦
          let t1 : (e.current_rank == l.current_rank) ≡ true = ground arith in
          let t2 : (e.next_rank == l.next_rank) ≡ false = ground arith in
          let apart : same_pair l e ≡ false = ground arith in
          let alone : total (same_pair e) (done ++ e ∷ []) ≡ e.count =
            omega
              (arith, total-same_pair_snoc done e, total-same_pair_new l e done behind le apart) in
          rw (t1, t2, alone) (ground arith)
      | later_rank h ↦
          let t1 : (e.current_rank == l.current_rank) ≡ false = ground arith in
          let apart : same_pair l e ≡ false = ground arith in
          let alone : total (same_pair e) (done ++ e ∷ []) ≡ e.count =
            omega
              (arith, total-same_pair_snoc done e, total-same_pair_new l e done behind le apart) in
          rw (t1, alone) (ground arith)
    ]

-- The ranking keeps `l` as the last triplet until the round ends.
resolve_last-after :
    (l e : HeapElement) (pc u : ℕ)
    → (resolve_last l e (after pc u l)).1
      ≡ after
          (resolve_last l e (after pc u l)).1.pair_count
          (resolve_last l e (after pc u l)).1.updated_rank
          l
unfolding resolve_last
resolve_last-after l e pc u = ground arith

transfers-Pending :
    (es done : List HeapElement) (l e : HeapElement) (pc u : ℕ)
    → Pending done l (after pc u l)
    → LexLe l e
    → IsOrdered (e ∷ es)
    → transfers (e ∷ es) (after pc u l) ≡ map (resolved (done ++ e ∷ es)) (l ∷ e ∷ es)
unfolding transfers transfer
transfers-Pending [] done l e pc u p le (positive, _, _) =
    let (out, p') = resolve_last_lem done l e [] (after pc u l) p le tt positive in
    let r' = (resolve_last l e (after pc u l)).1 in
    let last : heap_to_output_last e r' ≡ resolved (done ++ e ∷ []) e =
      ap (heap_to_output_last e) (resolve_last-after l e pc u)
      ∙ heap_to_output_last_lem done l e r'.pair_count r'.updated_rank p.behind le positive
          p.positive p.own p'.rank in
    rw (out, last) refl
transfers-Pending (e' ∷ es) done l e pc u p le (positive, ordered, rest) =
    let (out, p') = resolve_last_lem done l e (e' ∷ es) (after pc u l) p le ordered positive in
    let ih = transfers-Pending es (done ++ e ∷ []) e e' _ _ p' ordered.0 rest in
    rw out (
      ap (◌∷◌ (resolved (done ++ e ∷ e' ∷ es) l))
        (ih ∙ ap (λ w. map (resolved w) (e ∷ e' ∷ es)) (append_assoc done (e ∷ []) (e' ∷ es))))

-- The ranking at the start of the merge.
abbrev pub unranked : Ranking
unranked = record { pair_count = 0; updated_rank = 0; last_transferred = none }

first-Pending :
    (e : HeapElement) → 0 < e.count → Pending (e ∷ []) e (after e.count e.current_rank e)
unfolding total
first-Pending e h =
    let self : same_pair e e ≡ true = ground arith in
    let not_smaller : smaller e e ≡ false = ground arith in
    record {
      last = refl;
      rank = rw not_smaller (omega arith);
      pair = rw self (omega arith);
      behind = (inr (refl, inr (refl, omega arith)), tt);
      positive = h;
      own = rw self (omega arith);
    }

only_triplet : (e : HeapElement) → transfers (e ∷ []) unranked ≡ resolved (e ∷ []) e ∷ []
unfolding transfers transfer resolved total
only_triplet e =
    let self : same_pair e e ≡ true = ground arith in
    let not_smaller : smaller e e ≡ false = ground arith in rw (self, not_smaller) (ground arith)

-- Over any list of triplets with positive counts that is sorted by current rank, next rank and
-- chunk, the ranking of the merge loop gives each triplet, in order, its old rank plus the number
-- of suffixes with the same old rank and a smaller next rank, and the count 0 exactly if one
-- suffix alone has its pair of ranks.
pub transfers_lem :
    (es : List HeapElement) → IsOrdered es → transfers es unranked ≡ map (resolved es) es
transfers_lem [] ordered = unfold transfers in refl
transfers_lem (e ∷ []) ordered = only_triplet e
transfers_lem (e ∷ e' ∷ es) (h, behind, rest) =
    unfold transfers transfer in
    transfers-Pending es (e ∷ []) e e' e.count e.current_rank (first-Pending e h) behind.0 rest
