-- ===== src/Merge/Lane/Walk.antt =====
-- next_triplet of src/merge.c: the joint walk over the two streams of a chunk.
use suffix_rank.Base.{
  ℕ, ◌+◌, ◌-◌, ◌<◌, ◌≤◌, ◌≡◌, refl, sym, ◌∙◌, List, [], ◌++◌, append_assoc, some, arith, length,
  replicate, replicate-split, length-append, ltb, if◌then◌else◌, Gives, gives, Gives-inv, ◌>>=◌,
  length-replicate,
}
use suffix_rank.Format.Runs.{Run, expand}
use suffix_rank.Merge.{HeapElement, Outcome, success, empty, failure}
use suffix_rank.Merge.Lane.{
  after_load_cur, after_load_next, as_element, Lane, Capacity, overlap, next_triplet, get_next_run,
}
use suffix_rank.Merge.Lane.Invariant.{avail, output}
use suffix_rank.Merge.Lane.Load.{
  Holds, pending_cur, pending_next, NextLoaded, AfterNext, load_next_lem, AfterCur, load_cur_lem,
}

-- One triplet (curr, next, count): it stands for `count` entries of both streams.
pub record Advanced (caps : Capacity) (cs ns : List Run) (l : Lane) (curr next count : ℕ) (m : Lane)
    : Type 0 where
  pub cs' : List Run
  pub ns' : List Run
  pub holds : Holds caps cs' ns' m
  pub room : 0 < avail caps m
  pub positive : 0 < count
  pub cur_split : pending_cur cs l ≡ replicate count curr ++ pending_cur cs' m
  pub next_split : pending_next ns l ≡ replicate count next ++ pending_next ns' m
  pub same_output : output m ≡ output l

-- The chunk is walked to its end.
pub record Ended (caps : Capacity) (cs ns : List Run) (l m : Lane) : Type 0 where
  pub holds : Holds caps cs [] m
  pub none_left : pending_next ns l ≡ []
  pub none_left' : m.cursor.next_rem ≡ 0
  pub room : 0 < avail caps m
  pub same_cur : pending_cur cs m ≡ pending_cur cs l
  pub same_output : output m ≡ output l

replicate-append-split :
    (k n a : ℕ) (xs : List ℕ)
    → k ≤ n
    → replicate n a ++ xs ≡ replicate k a ++ (replicate (n - k) a ++ xs)
replicate-append-split k n a xs h =
    rw (replicate-split k n a h) (append_assoc (replicate k a) (replicate (n - k) a) xs)

overlap_lem :
    (caps : Capacity) (cs ns : List Run) (l : Lane)
    → Holds caps cs ns l
    → 0 < l.cursor.cur_rem
    → 0 < l.cursor.next_rem
    → Advanced caps cs ns l (overlap l).0.0 (overlap l).0.1 (overlap l).0.2 (overlap l).1
unfolding overlap
overlap_lem caps cs ns l v some_cur some_next =
    let t = l.cursor in
    let count : ℕ = if ltb t.cur_rem t.next_rem then t.cur_rem else t.next_rem in
    let below : (count ≤ t.cur_rem) × (count ≤ t.next_rem) × (0 < count) = ground arith in
    let (below_cur, below_next, positive) = below in
    record {
      cs' = cs;
      ns' = ns;
      holds = record {
        ok = record {
          nexts_ok = v.ok.nexts_ok;
          currents_ok = v.ok.currents_ok;
          overlay = v.ok.overlay;
          inside = v.ok.inside;
        };
        storable_cs = v.storable_cs;
        storable_ns = v.storable_ns;
        currents_left = v.currents_left;
        nexts_left = v.nexts_left;
        started = λ h. v.started some_next;
      };
      room = v.started some_next;
      positive = positive;
      cur_split = replicate-append-split count t.cur_rem t.cur_rank (expand cs) below_cur;
      next_split = replicate-append-split count t.next_rem t.next_rank (expand ns) below_next;
      same_output = refl;
    }

-- The result of get_next_run: the next triplet, the end of the chunk, or streams that disagree.
abbrev pub NextRun : Capacity → ℕ → List Run → List Run → Lane → Outcome HeapElement × Lane → Type 0
NextRun caps chunk_id cs ns l (success e, m) =
    Advanced caps cs ns l e.current_rank e.next_rank e.count m × (e.chunk_id ≡ chunk_id)
NextRun caps chunk_id cs ns l (empty, m) = Ended caps cs ns l m
NextRun caps chunk_id cs ns l (failure, m) =
    (pending_cur cs l ≡ []) × (0 < length (pending_next ns l))

after_load_cur_lem :
    (caps : Capacity) (chunk_id : ℕ) (cs ns : List Run) (l m : Lane) (r : Outcome (Unit {0}) × Lane)
    → NextLoaded caps cs ns l m
    → (ns' : List Run) → pending_next ns' m ≡ pending_next ns l
    → 0 < m.cursor.next_rem
    → AfterCur caps cs ns' m r
    → NextRun caps chunk_id cs ns l (as_element chunk_id (after_load_cur r))
after_load_cur_lem caps chunk_id cs ns l m (success _, k) loaded ns' same under c =
    let a = overlap_lem caps c.cs' ns' k c.holds c.under c.under_next in
    (
      record {
        cs' = a.cs';
        ns' = a.ns';
        holds = a.holds;
        room = a.room;
        positive = a.positive;
        cur_split = sym (c.same_cur ∙ loaded.same_cur) ∙ a.cur_split;
        next_split = sym (c.same_next ∙ same) ∙ a.next_split;
        same_output = a.same_output ∙ c.same_output ∙ loaded.same_output;
      },
      refl,
    )
after_load_cur_lem caps chunk_id cs ns l m (empty, k) loaded ns' same under c = absurd c
after_load_cur_lem caps chunk_id cs ns l m (failure, k) loaded ns' same under c =
    let size : length (pending_next ns' m)
        ≡ length (replicate m.cursor.next_rem m.cursor.next_rank) + length (expand ns') =
      length-append (replicate m.cursor.next_rem m.cursor.next_rank) (expand ns') in
    (
      sym loaded.same_cur ∙ c,
      rw (← same) (omega (arith, length-replicate m.cursor.next_rem m.cursor.next_rank)),
    )

after_load_next_lem :
    (caps : Capacity) (chunk_id : ℕ) (cs ns : List Run) (l : Lane) (r : Outcome (Unit {0}) × Lane)
    → AfterNext caps cs ns l r
    → Gives
        (NextRun caps chunk_id cs ns l)
        (after_load_next caps r >>= λ t. some (as_element chunk_id t))
after_load_next_lem caps chunk_id cs ns l (success _, m) loaded =
    let (r, run, c) = Gives-inv (load_cur_lem caps cs loaded.ns' m loaded.holds loaded.under) in
    rw run (
      gives (
        after_load_cur_lem caps chunk_id cs ns l m r loaded loaded.ns' loaded.same_next loaded.under
          c))
after_load_next_lem caps chunk_id cs ns l (empty, m) e = gives (record {
  holds = e.holds;
  none_left = e.none_left;
  none_left' = e.none_left';
  room = e.room;
  same_cur = e.same_cur;
  same_output = e.same_output;
})
after_load_next_lem caps chunk_id cs ns l (failure, m) bad = absurd bad

-- For a chunk whose streams hold storable runs, get_next_run reads inside its buffers, and either
-- yields a triplet that stands for equally many entries of both streams at their fronts, or is
-- EMPTY with no next rank left, or is a FAILURE where next ranks but no current ranks are left; a
-- triplet and the end lose nothing of the streams or the output and leave a free output slot.
pub get_next_run_lem :
    (caps : Capacity) (chunk_id : ℕ) (cs ns : List Run) (l : Lane)
    → Holds caps cs ns l
    → Gives (NextRun caps chunk_id cs ns l) (get_next_run caps chunk_id l)
unfolding get_next_run next_triplet
get_next_run_lem caps chunk_id cs ns l v =
    let (r, run, loaded) = Gives-inv (load_next_lem caps cs ns l v) in
    rw run (after_load_next_lem caps chunk_id cs ns l r loaded)
