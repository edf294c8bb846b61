-- ===== src/Merge/Lane/Decode.antt =====
-- decode_rankrun of src/merge.c, against the records that rankrun_emit writes.
use suffix_rank.Base.{
  ◌<◌, ◌≡◌, ◌^◌, refl, ap, ◌∙◌, List, [], ◌∷◌, ◌++◌, some, arith, false, ltb, ◌==◌, Bool-cases, inl,
  inr, Gives, Gives-map, Gives-inv,
}
use suffix_rank.Format.{RankRun, i40_store, count_escape}
use suffix_rank.Format.Bytes.{i40_load-store}
use suffix_rank.Format.Runs.{Run, encode_run}
use suffix_rank.Merge.{Outcome, success, empty, failure}
use suffix_rank.Merge.Lane.{
  Lane, Capacity, Stream, nexts, currents, get_phys_rankrun, decode_rankrun, reader_of,
}
use suffix_rank.Merge.Lane.Invariant.{remaining, avail, output, IsLane, Took}
use suffix_rank.Merge.Lane.Nexts.{get_phys_rankrun-nexts}
use suffix_rank.Merge.Lane.Currents.{get_phys_rankrun-currents}

abbrev pub other_stream : Stream → Stream
other_stream nexts = currents
other_stream currents = nexts

-- After a read of nexts there is room for output; a read of currents does not change the room.
abbrev pub Roomy : Capacity → Stream → Lane → Lane → Type 0
Roomy caps nexts l l' = 0 < avail caps l'
Roomy caps currents l l' = avail caps l' ≡ avail caps l

-- What reading from a stream leaves alone.
pub record Kept (caps : Capacity) (which : Stream) (l l' : Lane) : Type 0 where
  pub ok : IsLane caps l'
  pub same_output : output l' ≡ output l
  pub same_cursor : l'.cursor ≡ l.cursor
  pub same_other : reader_of (other_stream which) l' ≡ reader_of (other_stream which) l
  pub roomy : Roomy caps which l l'

Kept-trans :
    (caps : Capacity) (which : Stream) (l m n : Lane)
    → Kept caps which l m
    → Kept caps which m n
    → Kept caps which l n
Kept-trans caps nexts l m n a b = record {
  ok = b.ok;
  same_output = b.same_output ∙ a.same_output;
  same_cursor = b.same_cursor ∙ a.same_cursor;
  same_other = b.same_other ∙ a.same_other;
  roomy = b.roomy;
}
Kept-trans caps currents l m n a b = record {
  ok = b.ok;
  same_output = b.same_output ∙ a.same_output;
  same_cursor = b.same_cursor ∙ a.same_cursor;
  same_other = b.same_other ∙ a.same_other;
  roomy = b.roomy ∙ a.roomy;
}

abbrev Popped : Capacity → Stream → Lane → Outcome RankRun × Lane → Type 0
Popped caps which l (o, m) =
    Took (remaining (reader_of which l)) o (remaining (reader_of which m)) × Kept caps which l m

get_phys_rankrun_lem :
    (caps : Capacity) (which : Stream) (l : Lane)
    → IsLane caps l
    → Gives (Popped caps which l) (get_phys_rankrun caps which l)
get_phys_rankrun_lem caps nexts l v = Gives-map (get_phys_rankrun-nexts caps l v) λ r p. (
  p.took,
  record {
    ok = p.ok;
    same_output = p.same_output;
    same_cursor = p.same_cursor;
    same_other = p.same_currents;
    roomy = p.started;
  },
)
get_phys_rankrun_lem caps currents l v = Gives-map (get_phys_rankrun-currents caps l v) λ r p. (
  p.took,
  record {
    ok = p.ok;
    same_output = ap output p.rest;
    same_cursor = ap (λ (m : Lane). m.cursor) p.rest;
    same_other = ap (λ (m : Lane). m.nexts_in) p.rest;
    roomy = ap (avail caps) p.rest;
  },
)

Took-cons :
    (before : List RankRun) (o : Outcome RankRun) (after : List RankRun) (x : RankRun)
    (xs : List RankRun)
    → Took before o after
    → before ≡ x ∷ xs
    → (o ≡ success x) × (after ≡ xs)
Took-cons before (success y) after x xs t e = (cc, cc)
Took-cons before empty after x xs t e = cc
Took-cons before failure after x xs t e = absurd t

Took-nil :
    (before : List RankRun) (o : Outcome RankRun) (after : List RankRun)
    → Took before o after
    → before ≡ []
    → (o ≡ empty) × (after ≡ [])
Took-nil before (success y) after t e = cc
Took-nil before empty after t e = (refl, t.1)
Took-nil before failure after t e = absurd t

-- One record is taken.
pop_record :
    (caps : Capacity) (which : Stream) (l : Lane) (x : RankRun) (xs : List RankRun)
    → IsLane caps l
    → remaining (reader_of which l) ≡ x ∷ xs
    → (m : Lane) × (get_phys_rankrun caps which l ≡ some (success x, m))
      × (remaining (reader_of which m) ≡ xs)
      × Kept caps which l m
pop_record caps which l x xs v e =
    let ((o, m), run, (took, kept)) = Gives-inv (get_phys_rankrun_lem caps which l v) in
    let (o_x, after) = Took-cons _ o _ x xs took e in
    (m, run ∙ ap (λ t. some (t, m)) o_x, after, kept)

pop_end :
    (caps : Capacity) (which : Stream) (l : Lane)
    → IsLane caps l
    → remaining (reader_of which l) ≡ []
    → (m : Lane) × (get_phys_rankrun caps which l ≡ some (empty, m))
      × (remaining (reader_of which m) ≡ [])
      × Kept caps which l m
pop_end caps which l v e =
    let ((o, m), run, (took, kept)) = Gives-inv (get_phys_rankrun_lem caps which l v) in
    let (o_x, after) = Took-nil _ o _ took e in (m, run ∙ ap (λ t. some (t, m)) o_x, after, kept)

-- If the records of a run whose rank and count fit 40 bits stand first in a stream, across refills
-- or not, decode_rankrun returns that run and leaves what stands behind them, and keeps the
-- output, the cursor and the other stream.
pub decode_rankrun_lem :
    (caps : Capacity) (which : Stream) (l : Lane) (r : Run) (rest : List RankRun)
    → IsLane caps l
    → r.rank < 2 ^ 40
    → r.count < 2 ^ 40
    → remaining (reader_of which l) ≡ encode_run r ++ rest
    → (m : Lane) × (decode_rankrun caps which l ≡ some (success (r.rank, r.count), m))
      × (remaining (reader_of which m) ≡ rest)
      × Kept caps which l m
unfolding decode_rankrun encode_run
decode_rankrun_lem caps which l r rest v hr hc e = elim (Bool-cases (ltb r.count count_escape)) [
  | inl small ↦
      let x : RankRun = record { rank = i40_store r.rank; count = r.count } in
      let (m, run, after, kept) = pop_record caps which l x rest v (rw small at e) in
      let plain : (r.count == count_escape) ≡ false = ground arith in
      (m, rw (run, plain, i40_load-store r.rank hr) refl, after, kept)
  | inr large ↦
      let x : RankRun = record { rank = i40_store r.rank; count = count_escape } in
      let y : RankRun = record { rank = i40_store r.count; count = 0 } in
      let (m, run, after, kept) = pop_record caps which l x (y ∷ rest) v (rw large at e) in
      let (n, run', after', kept') = pop_record caps which m y rest kept.ok after in
      (
        n,
        rw run (rw run' (rw (i40_load-store r.rank hr, i40_load-store r.count hc) refl)),
        after',
        Kept-trans caps which l m n kept kept',
      )
]

-- At the end of the stream the call is EMPTY.
pub decode_rankrun_end :
    (caps : Capacity) (which : Stream) (l : Lane)
    → IsLane caps l
    → remaining (reader_of which l) ≡ []
    → (m : Lane) × (decode_rankrun caps which l ≡ some (empty, m))
      × (remaining (reader_of which m) ≡ [])
      × Kept caps which l m
unfolding decode_rankrun
decode_rankrun_end caps which l v e =
    let (m, run, after, kept) = pop_end caps which l v e in (m, rw run refl, after, kept)
