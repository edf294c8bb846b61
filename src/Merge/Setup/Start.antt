-- ===== src/Merge/Setup/Start.antt =====
-- The two loops of init_merge in src/merge.c, over all chunks.
use mathlib.Core.List.{Perm, perm_middle}
use mathlib.Core.List.Perm
use suffix_rank.Base.{
  ℕ, suc, ◌+◌, ◌≤◌, ◌≡◌, refl, ap, List, [], ◌∷◌, ◌++◌, map, Option, none, some, arith, length,
  Option-cases, inl, inr, All, Gives, gives, Gives-bind, Gives-inv, ◌>>=◌,
}
use suffix_rank.Format.Runs.{expand}
use suffix_rank.Merge.{HeapElement, Outcome, success, empty, failure}
use suffix_rank.Merge.Driver.Shares.{Share, heads}
use suffix_rank.Merge.Heap.{Heap}
use suffix_rank.Merge.Heap.Queue.{IsQueue, elems, Inserted, insert_into_heap_lem}
use suffix_rank.Merge.Lane.{Lane, Capacity}
use suffix_rank.Merge.Lane.Load.{pending_cur, pending_next}
use suffix_rank.Merge.Lane.Walk.{NextRun, get_next_run_lem}
use suffix_rank.Merge.Setup.{cons_lane, after_insert, after_first, first_runs}
use suffix_rank.Merge.Setup.First.{
  Streams, IsStreams, IsCapacity, Fresh, first_lane, first_lane-Fresh, first_lane-Holds, Started,
  Started-Advanced, Started-Ended,
}

-- The chunks from number `i` on.
abbrev pub AreStarted : Capacity → ℕ → List Streams → List Lane → List Share → Type 0
AreStarted caps i [] [] [] = Unit {0}
AreStarted caps i [] (l ∷ ls) gs = ⊥
AreStarted caps i [] [] (g ∷ gs) = ⊥
AreStarted caps i (x ∷ xs) [] gs = ⊥
AreStarted caps i (x ∷ xs) (l ∷ ls) [] = ⊥
AreStarted caps i (x ∷ xs) (l ∷ ls) (g ∷ gs) =
    Started caps i x l g × AreStarted caps (suc i) xs ls gs

pub record FirstRuns (caps : Capacity) (total_chunks i : ℕ) (xs : List Streams) (h : Heap)
    (r : Outcome (Unit {0}) × List Lane × Heap) : Type 0 where
  pub gs : List Share
  pub succeeds : r.0 ≡ success tt
  pub started : AreStarted caps i xs r.1 gs
  pub queue : IsQueue total_chunks r.2
  pub in_heap : Perm (elems r.2) (heads gs ++ elems h)

FirstRuns-cons :
    (caps : Capacity) (total_chunks i : ℕ) (x : Streams) (xs : List Streams) (h h' : Heap)
    (l' : Lane) (g : Share) (r : Outcome (Unit {0}) × List Lane × Heap)
    → Started caps i x l' g
    → Perm (elems h') (heads (g ∷ []) ++ elems h)
    → FirstRuns caps total_chunks (suc i) xs h' r
    → FirstRuns caps total_chunks i (x ∷ xs) h (cons_lane l' r)
unfolding heads
FirstRuns-cons caps total_chunks i x xs h h' l' g (o, ls, m) s p f = record {
  gs = g ∷ f.gs;
  succeeds = f.succeeds;
  started = (s, f.started);
  queue = f.queue;
  in_heap = elim (Option-cases g.head) [
    | inl absent ↦
        let p' : Perm (elems h') (elems h) = rw absent at p in
        rw absent (Perm.trans f.in_heap (Perm.append_left (heads f.gs) p'))
    | inr (e, present) ↦
        let p' : Perm (elems h') (e ∷ elems h) = rw present at p in
        rw present (
          Perm.trans f.in_heap (
            Perm.trans (Perm.append_left (heads f.gs) p')
              (perm_middle {a = e} (heads f.gs) (elems h))))
  ];
}

-- What the rest of the loop makes of any heap that has room for it.
abbrev FirstRest :
    Capacity
    → ℕ
    → ℕ
    → List Streams
    → (Heap → Option (Outcome (Unit {0}) × List Lane × Heap))
    → Type 0
FirstRest caps total_chunks i xs rest =
    (h : Heap)
    → IsQueue total_chunks h
    → h.size + length xs ≤ total_chunks
    → Gives (FirstRuns caps total_chunks i xs h) (rest h)

after_insert_lem :
    (caps : Capacity) (total_chunks i : ℕ) (x : Streams) (xs : List Streams) (h : Heap) (l' : Lane)
    (g : Share) (e : HeapElement) (rest : Heap → Option (Outcome (Unit {0}) × List Lane × Heap))
    (ls : List Lane) (r : Outcome (Unit {0}) × Heap)
    → Started caps i x l' g
    → g.head ≡ some e
    → h.size + suc (length xs) ≤ total_chunks
    → FirstRest caps total_chunks (suc i) xs rest
    → Inserted total_chunks e h r
    → Gives
        (FirstRuns caps total_chunks i (x ∷ xs) h)
        (after_insert rest ls r >>= λ t. some (cons_lane l' t))
unfolding heads
after_insert_lem caps total_chunks i x xs h l' g e rest ls (success u, h') s present room all q =
    Gives-bind (all h' q.valid (omega (arith, q.larger)))
      λ t f. gives (FirstRuns-cons caps total_chunks i x xs h h' l' g t s (rw present q.added) f)
after_insert_lem caps total_chunks i x xs h l' g e rest ls (empty, h') s present room all q =
    let bad = q.succeeds in cc
after_insert_lem caps total_chunks i x xs h l' g e rest ls (failure, h') s present room all q =
    let bad = q.succeeds in cc

after_first_lem :
    (caps : Capacity) (total_chunks i : ℕ) (x : Streams) (xs : List Streams) (h : Heap)
    (l l' : Lane) (rest : Heap → Option (Outcome (Unit {0}) × List Lane × Heap)) (ls : List Lane)
    (got : Outcome HeapElement)
    → IsStreams x
    → Fresh x l
    → IsQueue total_chunks h
    → h.size + suc (length xs) ≤ total_chunks
    → FirstRest caps total_chunks (suc i) xs rest
    → NextRun caps i x.cs x.ns l (got, l')
    → Gives
        (FirstRuns caps total_chunks i (x ∷ xs) h)
        (after_first total_chunks rest ls h got >>= λ t. some (cons_lane l' t))
unfolding heads
after_first_lem caps total_chunks i x xs h l l' rest ls (success e) v f q room all (a, own) =
    let g : Share = record {
      head = some e;
      curs = pending_cur a.cs' l';
      nexts = pending_next a.ns' l';
    } in
    let (r, run, ins) = Gives-inv (insert_into_heap_lem total_chunks e h q (omega arith)) in
    rw run (
      after_insert_lem caps total_chunks i x xs h l' g e rest ls r
        (Started-Advanced caps i x l l' e v f a own) refl room all ins)
after_first_lem caps total_chunks i x xs h l l' rest ls empty v f q room all d =
    let g : Share = record { head = none; curs = expand x.cs; nexts = expand x.ns } in
    Gives-bind (all h q (omega arith)) λ t u. gives (
      FirstRuns-cons caps total_chunks i x xs h h l' g t (Started-Ended caps i x l l' v f d)
        (Perm.refl _) u)
after_first_lem caps total_chunks i x xs h l l' rest ls failure v f q room all (no_cur, some_next) =
    absurd
      (omega (arith, v.same_size, ap length f.cur, ap length f.next, ap length no_cur, some_next))

pub first_runs_lem :
    (caps : Capacity) (total_chunks i : ℕ) (xs : List Streams)
    → IsCapacity caps
    → All IsStreams xs
    → FirstRest caps total_chunks i xs (first_runs caps total_chunks i (map (first_lane caps) xs))
unfolding first_runs
first_runs_lem caps total_chunks i [] k vs h q room = gives (record {
  gs = [];
  succeeds = refl;
  started = tt;
  queue = q;
  in_heap = unfold heads in Perm.refl _;
})
first_runs_lem caps total_chunks i (x ∷ xs) k (v, vs) h q room =
    let ((got, l'), run, next) =
      Gives-inv
        (get_next_run_lem caps i x.cs x.ns (first_lane caps x) (first_lane-Holds caps x k v)) in
    rw run (
      after_first_lem caps total_chunks i x xs h (first_lane caps x) l'
        (first_runs caps total_chunks (suc i) (map (first_lane caps) xs)) (map (first_lane caps) xs)
        got v (first_lane-Fresh caps x) q room (first_runs_lem caps total_chunks (suc i) xs k vs)
        next)
