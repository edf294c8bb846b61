-- ===== src/Merge/Setup/Correct.antt =====
-- merge_runs of src/merge.c from the files to the outputs.
use mathlib.Core.List.{Perm}
use mathlib.Core.List.Perm
use suffix_rank.Base.{
  ℕ, zero, suc, ◌+◌, ◌<◌, ◌≤◌, ◌≡◌, refl, ap, sym, ◌∙◌, List, [], ◌∷◌, ◌++◌, append-nil, map,
  length-map, none, some, arith, length, length-append, length-replicate, replicate, take, get_or,
  All, Option-cases, Bool-cases, ◌==◌, ltb, inl, inr, Gives, gives, Gives-bind, Gives-inv, ◌>>=◌,
}
use suffix_rank.Format.Runs.{encode, expand}
use suffix_rank.Merge.{HeapElement, Outcome, success, empty, failure}
use suffix_rank.Merge.Driver.{Manager, merge_loop, go_on}
use suffix_rank.Merge.Driver.Loop.{cur_of, next_of, Finished, empty_share, merge_loop_lem}
use suffix_rank.Merge.Driver.Shares.{Share, heads, weight, measure}
use suffix_rank.Merge.Driver.State.{share_at, HeadOk-some, IsMerge}
use suffix_rank.Merge.Driver.Writes.{lane_at, runs_for}
use suffix_rank.Merge.Heap.{Heap}
use suffix_rank.Merge.Heap.Queue.{IsQueue, elems}
use suffix_rank.Merge.Lane.{Lane, Capacity, flush_output}
use suffix_rank.Merge.Lane.Invariant.{output}
use suffix_rank.Merge.Resolve.{transfers}
use suffix_rank.Merge.Resolve.Totals.{resolved}
use suffix_rank.Merge.Resolve.Correct.{IsOrdered, unranked, transfers_lem}
use suffix_rank.Merge.Setup.{
  setup, setup_lane, refill_lane, after_init, init_merge, flush_lanes, merge_runs,
}
use suffix_rank.Merge.Setup.First.{Streams, files, IsStreams, IsCapacity, first_lane, Started}
use suffix_rank.Merge.Setup.Start.{AreStarted, FirstRuns, first_runs_lem}

abbrev no_streams : Streams
no_streams = record { cs = []; ns = [] }

abbrev pub streams_at : List Streams → ℕ → Streams
streams_at xs i = get_or xs i no_streams

-- The number of entries of all streams.
unfoldable pub entries : List Streams → ℕ
entries [] = 0
entries (x ∷ xs) = length (expand x.ns) + entries xs

AreStarted-length :
    (caps : Capacity) (i : ℕ) (xs : List Streams) (ls : List Lane) (gs : List Share)
    → AreStarted caps i xs ls gs
    → (length ls ≡ length xs) × (length gs ≡ length xs)
AreStarted-length caps i [] [] [] h = (refl, refl)
AreStarted-length caps i [] (l ∷ ls) gs h = absurd h
AreStarted-length caps i [] [] (g ∷ gs) h = absurd h
AreStarted-length caps i (x ∷ xs) [] gs h = absurd h
AreStarted-length caps i (x ∷ xs) (l ∷ ls) [] h = absurd h
AreStarted-length caps i (x ∷ xs) (l ∷ ls) (g ∷ gs) (h, hs) =
    let (a, b) = AreStarted-length caps (suc i) xs ls gs hs in (ap suc a, ap suc b)

AreStarted-at :
    (caps : Capacity) (i : ℕ) (xs : List Streams) (ls : List Lane) (gs : List Share) (j k : ℕ)
    → AreStarted caps i xs ls gs
    → j < length xs
    → k ≡ i + j
    → Started caps k (streams_at xs j) (lane_at ls j) (share_at gs j)
AreStarted-at caps i [] ls gs j k h b e = absurd (omega arith)
AreStarted-at caps i (x ∷ xs) [] gs j k h b e = absurd h
AreStarted-at caps i (x ∷ xs) (l ∷ ls) [] j k h b e = absurd h
AreStarted-at caps i (x ∷ xs) (l ∷ ls) (g ∷ gs) zero k (h, hs) b e =
    let same : k ≡ i = omega arith in rw same h
AreStarted-at caps i (x ∷ xs) (l ∷ ls) (g ∷ gs) (suc j) k (h, hs) b e =
    AreStarted-at caps (suc i) xs ls gs j k hs (omega arith) (omega arith)

Started-weight :
    (caps : Capacity) (i : ℕ) (x : Streams) (l : Lane) (g : Share)
    → Started caps i x l g
    → weight g ≤ length (expand x.ns)
Started-weight caps i x l g s = elim (Option-cases g.head) [
  | inl absent ↦
      let same : g.nexts ≡ expand x.ns = rw absent at s.all_next in
      rw absent (omega (arith, ap length same))
  | inr (e, present) ↦
      let same : replicate e.count e.next_rank ++ g.nexts ≡ expand x.ns =
        rw present at s.all_next in
      let (own, counted, ascends) = HeadOk-some i g e present s.share.head_ok in
      rw present (
        omega (
          arith,
          ap length same,
          length-append (replicate e.count e.next_rank) g.nexts,
          length-replicate e.count e.next_rank,
          counted,
        ))
]

AreStarted-measure :
    (caps : Capacity) (i : ℕ) (xs : List Streams) (ls : List Lane) (gs : List Share)
    → AreStarted caps i xs ls gs
    → measure gs ≤ entries xs
unfolding measure entries
AreStarted-measure caps i [] [] [] h = omega arith
AreStarted-measure caps i [] (l ∷ ls) gs h = absurd h
AreStarted-measure caps i [] [] (g ∷ gs) h = absurd h
AreStarted-measure caps i (x ∷ xs) [] gs h = absurd h
AreStarted-measure caps i (x ∷ xs) (l ∷ ls) [] h = absurd h
AreStarted-measure caps i (x ∷ xs) (l ∷ ls) (g ∷ gs) (h, hs) =
    omega (arith, Started-weight caps i x l g h, AreStarted-measure caps (suc i) xs ls gs hs)

-- Without heads there is nothing to merge.
AreStarted-none :
    (caps : Capacity) (i : ℕ) (xs : List Streams) (ls : List Lane) (gs : List Share)
    → AreStarted caps i xs ls gs
    → heads gs ≡ []
    → entries xs ≡ 0
unfolding heads entries
AreStarted-none caps i [] ls gs h e = refl
AreStarted-none caps i (x ∷ xs) [] gs h e = absurd h
AreStarted-none caps i (x ∷ xs) (l ∷ ls) [] h e = absurd h
AreStarted-none caps i (x ∷ xs) (l ∷ ls) (g ∷ gs) (h, hs) e = elim (Option-cases g.head) [
  | inl absent ↦
      let none_left = (empty_share i g h.share absent).1 in
      let rest = AreStarted-none caps (suc i) xs ls gs hs (rw absent at e) in
      omega (arith, ap length h.all_next, ap length none_left, rest)
  | inr (f, present) ↦ let bad : f ∷ heads gs ≡ [] = rw present at e in cc
]

first_lanes :
    (caps : Capacity) (xs : List Streams)
    → map (refill_lane caps) (map (setup_lane caps) (map files xs)) ≡ map (first_lane caps) xs
first_lanes caps [] = refl
first_lanes caps (x ∷ xs) = ap (◌∷◌ (first_lane caps x)) (first_lanes caps xs)

lane_at-flush :
    (lanes : List Lane) (i : ℕ)
    → (lane_at (map flush_output lanes) i).out_file ≡ output (lane_at lanes i)
unfolding flush_output
lane_at-flush [] i = refl
lane_at-flush (l ∷ lanes) zero = elim (Bool-cases (ltb 0 l.out_pos)) [
  | inl some_out ↦ rw some_out refl
  | inr no_out ↦
      let none_out : l.out_pos ≡ 0 = ground arith in
      rw no_out (rw none_out (sym (append-nil l.out_file)))
]
lane_at-flush (l ∷ lanes) (suc i) = lane_at-flush lanes i

-- All triplets of all chunks in their order, and the output of each chunk.
pub record Merged (xs : List Streams) (r : Outcome (Unit {0}) × Manager) : Type 0 where
  pub es : List HeapElement
  pub succeeds : r.0 ≡ success tt
  pub ordered : IsOrdered es
  pub in_chunks : All (λ e. e.chunk_id < length xs) es
  pub all_cur : (i : ℕ) → i < length xs → cur_of i es ≡ expand (streams_at xs i).cs
  pub all_next : (i : ℕ) → i < length xs → next_of i es ≡ expand (streams_at xs i).ns
  pub written :
      (i : ℕ)
      → i < length xs
      → (lane_at r.1.lanes i).out_file ≡ encode (runs_for i (map (resolved es) es))

Merged-flush :
    (caps : Capacity) (xs : List Streams) (ls : List Lane) (gs : List Share) (m : Manager)
    (s : Outcome (Unit {0}) × Manager)
    → AreStarted caps 0 xs ls gs
    → m.lanes ≡ ls
    → m.ranking ≡ unranked
    → Finished caps (length xs) gs m s
    → Merged xs (flush_lanes s)
Merged-flush caps xs ls gs m (empty, m') h e u f = let bad = f.succeeds in cc
Merged-flush caps xs ls gs m (failure, m') h e u f = let bad = f.succeeds in cc
Merged-flush caps xs ls gs m (success t, m') h e u f = record {
  es = f.es;
  succeeds = refl;
  ordered = f.ordered;
  in_chunks = f.in_chunks;
  all_cur = λ i b. f.all_cur i b ∙ (AreStarted-at caps 0 xs ls gs i i h b (omega arith)).all_cur;
  all_next = λ i b. f.all_next i b ∙ (AreStarted-at caps 0 xs ls gs i i h b (omega arith)).all_next;
  written = λ i b.
      lane_at-flush m'.lanes i
      ∙ f.grown i
      ∙ ap (λ x. output (lane_at x i) ++ encode (runs_for i (transfers f.es m.ranking))) e
      ∙ ap (λ x. x ++ encode (runs_for i (transfers f.es m.ranking)))
          (AreStarted-at caps 0 xs ls gs i i h b (omega arith)).no_output
      ∙ ap (λ x. encode (runs_for i (transfers f.es x))) u
      ∙ ap (λ x. encode (runs_for i x)) (transfers_lem f.es f.ordered);
}

run_started :
    (fuel : ℕ) (caps : Capacity) (xs : List Streams) (r : Outcome (Unit {0}) × List Lane × Heap)
    → 0 < entries xs
    → entries xs ≤ fuel
    → FirstRuns caps (length xs) 0 xs (setup caps (map files xs)).heap r
    → Gives (Merged xs) (
        go_on
          (λ m'.
            merge_loop fuel caps
              (record m' { ranking = record (m'.ranking) { last_transferred = none } }))
          (after_init (setup caps (map files xs)) r)
        >>= λ t. some (flush_lanes t))
run_started fuel caps xs (empty, ls, h) some_entry enough f = let bad = f.succeeds in cc
run_started fuel caps xs (failure, ls, h) some_entry enough f = let bad = f.succeeds in cc
run_started fuel caps xs (success t, ls, h) some_entry enough f =
    let at = AreStarted-at caps 0 xs ls f.gs in
    let in_heap : Perm (elems h) (heads f.gs) = rw append-nil at f.in_heap in
    let (lanes_size, shares_size) = AreStarted-length caps 0 xs ls f.gs f.started in
    elim (Bool-cases (h.size == 0)) [
      | inl none_there ↦
          let zero_size : h.size ≡ 0 = ground arith in
          let no_elems : elems h ≡ [] = ap (λ k. take k h.elements) zero_size in
          let no_heads : heads f.gs ≡ [] = Perm.eq-nil (rw no_elems at (Perm.symm in_heap)) in
          absurd (omega (arith, some_entry, AreStarted-none caps 0 xs ls f.gs f.started no_heads))
      | inr more ↦
          let m : Manager = record { lanes = ls; heap = h; ranking = unranked } in
          let v : IsMerge caps (length xs) f.gs m = record {
            lanes_size = lanes_size;
            shares_size = shares_size;
            queue = f.queue;
            in_heap = in_heap;
            serves = λ i b. (at i i f.started b (omega arith)).serves;
            shares = λ i b. (at i i f.started b (omega arith)).share;
            last = tt;
          } in
          rw more (
            Gives-bind
              (merge_loop_lem fuel caps (length xs) f.gs m v
                (omega (arith, enough, AreStarted-measure caps 0 xs ls f.gs f.started)))
              λ s z. gives (Merged-flush caps xs ls f.gs m s f.started refl refl z))
    ]

-- If each chunk's streams encode storable runs of equally many current and next ranks whose pairs
-- ascend, some chunk has an entry, the buffers hold at least one record, and the fuel is at least
-- the number of entries, then merge_runs on the files as setup opens them accesses no array out of
-- bounds and is a SUCCESS: there is a sorted list of triplets of these chunks, and of no others,
-- whose triplets of each chunk expand to exactly the chunk's current and next ranks, in order, and
-- the output of each chunk is the encoding of its triplets with their resolved ranks and counts
-- over the whole list.
pub merge_runs_lem :
    (fuel : ℕ) (caps : Capacity) (xs : List Streams)
    → IsCapacity caps
    → All IsStreams xs
    → 0 < entries xs
    → entries xs ≤ fuel
    → Gives (Merged xs) (merge_runs fuel caps (setup caps (map files xs)))
unfolding merge_runs init_merge
merge_runs_lem fuel caps xs k vs some_entry enough =
    let h = (setup caps (map files xs)).heap in
    let size : length (map files xs) ≡ length xs = length-map files xs in
    let size' : length (setup caps (map files xs)).lanes ≡ length xs =
      length-map (setup_lane caps) (map files xs) ∙ size in
    let q : IsQueue (length xs) h = record {
      allocated = length-replicate _ _ ∙ size;
      fits = omega arith;
      heap_order = λ c p q. absurd (omega arith);
    } in
    let (r, run, f) = Gives-inv (first_runs_lem caps (length xs) 0 xs k vs h q (omega arith)) in
    rw (first_lanes caps xs, size') (rw run (run_started fuel caps xs r some_entry enough f))
