-- ===== src/Merge/Driver/Writes.antt =====
-- The writes of resolved triplets in merge_runs, over all lanes.
use suffix_rank.Base.{
  ℕ, ◌<◌, ◌≡◌, refl, ap, sym, ◌∙◌, List, [], ◌∷◌, ◌++◌, append-nil, append_assoc, none, arith,
  length, length-set, get_elem?-eq-get_or, get_or, get_or-set, store_of_lt, All, Bool-cases, inl,
  inr, if◌then◌else◌, ◌==◌, Gives, gives, Gives-bind, Gives-map,
}
use suffix_rank.Format.{RankRun}
use suffix_rank.Format.Runs.{Run, encode_run, encode, encode-append}
use suffix_rank.Merge.Lane.{Reader, Lane, Capacity}
use suffix_rank.Merge.Lane.Invariant.{avail, output, remaining}
use suffix_rank.Merge.Lane.Overlay.{Appended, write_output_lem}
use suffix_rank.Merge.Lane.Load.{Holds, pending_cur, pending_next}
use suffix_rank.Merge.Resolve.{OutputElement}
use suffix_rank.Merge.Driver.{write_chunk, write_chunks}
use suffix_rank.Merge.Driver.Shares.{Share}

abbrev no_reader : Reader
no_reader = record { file = []; buffer = []; pos = none; len = 0; filepos = none }

-- A lane for reads that never happen.
abbrev pub no_lane : Lane
no_lane = record {
  nexts_in = no_reader;
  currents_in = no_reader;
  out_pos = 0;
  out_file = [];
  cursor = record { cur_rank = 0; cur_rem = 0; next_rank = 0; next_rem = 0 };
}

abbrev pub lane_at : List Lane → ℕ → Lane
lane_at lanes i = get_or lanes i no_lane

-- The streams of a lane hold what its share says.
pub record Serves (caps : Capacity) (l : Lane) (g : Share) : Type 0 where
  pub cs : List Run
  pub ns : List Run
  pub holds : Holds caps cs ns l
  pub room : 0 < avail caps l
  pub pend_cur : pending_cur cs l ≡ g.curs
  pub pend_next : pending_next ns l ≡ g.nexts

-- The runs that go to chunk `i`.
unfoldable pub runs_for : ℕ → List OutputElement → List Run
runs_for i [] = []
runs_for i (o ∷ os) =
    if o.chunk_id == i
    then record { rank = o.new_rank; count = o.count } ∷ runs_for i os
    else runs_for i os

pub runs_for-append :
    (i : ℕ) (os ps : List OutputElement) → runs_for i (os ++ ps) ≡ runs_for i os ++ runs_for i ps
unfolding runs_for
runs_for-append i [] ps = refl
runs_for-append i (o ∷ os) ps = elim (Bool-cases (o.chunk_id == i)) [
  | inl own ↦
      rw own (ap (◌∷◌ (record { rank = o.new_rank; count = o.count })) (runs_for-append i os ps))
  | inr other ↦ rw other (runs_for-append i os ps)
]

-- The lanes after some writes: what is still to be read is as before.
pub record Wrote (caps : Capacity) (lanes : List Lane) (os : List OutputElement)
    (lanes' : List Lane) : Type 0 where
  pub same_length : length lanes' ≡ length lanes
  pub serves :
      (i : ℕ) (g : Share) → Serves caps (lane_at lanes i) g → Serves caps (lane_at lanes' i) g
  pub grown :
      (i : ℕ) → output (lane_at lanes' i) ≡ output (lane_at lanes i) ++ encode (runs_for i os)

Serves-Appended :
    (caps : Capacity) (added : List RankRun) (l m : Lane) (g : Share)
    → Appended caps l added m
    → Serves caps l g
    → Serves caps m g
Serves-Appended caps added l m g a s = record {
  cs = s.cs;
  ns = s.ns;
  holds = record {
    ok = a.ok;
    storable_cs = s.holds.storable_cs;
    storable_ns = s.holds.storable_ns;
    currents_left = ap remaining a.same_currents ∙ s.holds.currents_left;
    nexts_left = a.same_nexts ∙ s.holds.nexts_left;
    started = λ h. rw a.same_avail s.room;
  };
  room = rw a.same_avail s.room;
  pend_cur = rw a.same_cursor s.pend_cur;
  pend_next = rw a.same_cursor s.pend_next;
}

write_chunk_lem :
    (caps : Capacity) (o : OutputElement) (lanes : List Lane) (g : Share)
    → o.chunk_id < length lanes
    → Serves caps (lane_at lanes o.chunk_id) g
    → Gives (Wrote caps lanes (o ∷ [])) (write_chunk caps o lanes)
unfolding write_chunk runs_for encode
write_chunk_lem caps o lanes g inside s =
    let c = o.chunk_id in
    let l = lane_at lanes c in
    let r : Run = record { rank = o.new_rank; count = o.count } in
    rw (get_elem?-eq-get_or lanes c no_lane inside) (
      Gives-bind (write_output_lem caps r l s.holds.ok s.room) λ m a.
        rw (store_of_lt lanes c m inside) (
          gives (record {
            same_length = length-set lanes c m;
            serves = λ i h t.
                rw (get_or-set lanes c i m no_lane inside) (elim (Bool-cases (c == i)) [
                  | inl own ↦
                      let e : c ≡ i = ground arith in
                      rw own (Serves-Appended caps (encode_run r) l m h a (rw (← e) at t))
                  | inr other ↦ rw other t
                ]);
            grown = λ i. rw (get_or-set lanes c i m no_lane inside) (elim (Bool-cases (c == i)) [
              | inl own ↦
                  let e : c ≡ i = ground arith in
                  rw own
                    (rw (← e) (a.grown ∙ ap (λ x. output l ++ x) (sym (append-nil (encode_run r)))))
              | inr other ↦ rw other (sym (append-nil (output (lane_at lanes i))))
            ]);
          })))

pub write_chunks_lem :
    (caps : Capacity) (os : List OutputElement) (lanes : List Lane)
    → All (λ o. o.chunk_id < length lanes) os
    → ((i : ℕ) → i < length lanes → (g : Share) × Serves caps (lane_at lanes i) g)
    → Gives (Wrote caps lanes os) (write_chunks caps os lanes)
unfolding write_chunks
write_chunks_lem caps [] lanes inside all = gives (record {
  same_length = refl;
  serves = λ i g t. t;
  grown = λ i. unfold runs_for encode in sym (append-nil _);
})
write_chunks_lem caps (o ∷ os) lanes (h, inside) all =
    let (g, s) = all o.chunk_id h in
    Gives-bind (write_chunk_lem caps o lanes g h s) λ lanes' w.
      Gives-map
        (write_chunks_lem caps os lanes' (rw w.same_length inside)
          λ i k. let (g', s') = all i (rw w.same_length at k) in (g', w.serves i g' s'))
        λ lanes'' w'. record {
          same_length = w'.same_length ∙ w.same_length;
          serves = λ i g' t. w'.serves i g' (w.serves i g' t);
          grown = λ i.
              w'.grown i
              ∙ ap (λ x. x ++ encode (runs_for i os)) (w.grown i)
              ∙ append_assoc (output (lane_at lanes i)) (encode (runs_for i (o ∷ [])))
                  (encode (runs_for i os))
              ∙ ap (λ x. output (lane_at lanes i) ++ x)
                  (sym (encode-append (runs_for i (o ∷ [])) (runs_for i os))
                    ∙ ap encode (sym (runs_for-append i (o ∷ []) os)));
        }
