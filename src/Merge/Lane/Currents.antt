-- ===== src/Merge/Lane/Currents.antt =====
-- get_phys_rankrun of src/merge.c on the currents stream.
use suffix_rank.Base.{
  ℕ, suc, ◌<◌, ◌≤◌, ◌≡◌, refl, ap, sym, ◌∙◌, [], ◌++◌, some, arith, ltb, lt→ltb, Bool-cases, inl,
  inr, Option-cases, Gives, gives, Gives-map,
}
use suffix_rank.Format.{RankRun}
use suffix_rank.Merge.{Outcome, success, empty, failure}
use suffix_rank.Merge.Lane.{
  after_refill, Reader, Lane, Capacity, currents, refill_currents, phys_loop, get_phys_rankrun,
}
use suffix_rank.Merge.Lane.Invariant.{remaining, IsReader, IsLane, Took, Filled, fill_lem, read_lem}
use suffix_rank.Merge.Lane.Reading.{spent, phys_loop-spent, phys_loop-drained}

-- The currents queue gives up its first record, and the rest of the lane is the same.
pub record PoppedCurrents (caps : Capacity) (l : Lane) (r : Outcome RankRun × Lane) : Type 0 where
  pub ok : IsLane caps (r.1)
  pub took : Took (remaining l.currents_in) r.0 (remaining r.1.currents_in)
  pub rest : r.1 ≡ record l { currents_in = r.1.currents_in }

read_currents :
    (fuel : ℕ) (caps : Capacity) (l : Lane) (p : ℕ)
    → IsLane caps l
    → l.currents_in.pos ≡ some p
    → p < l.currents_in.len
    → Gives (PoppedCurrents caps l) (phys_loop (suc fuel) caps currents l)
unfolding phys_loop
read_currents fuel caps l p v at h =
    let (x, got, front) = read_lem caps.cur_capacity p l.currents_in v.currents_ok h in
    rw (at, lt→ltb p l.currents_in.len h)
      (rw got (
        gives (record {
          ok = record {
            nexts_ok = v.nexts_ok;
            currents_ok = record {
              allocated = v.currents_ok.allocated;
              room = v.currents_ok.room;
              bounded = v.currents_ok.bounded;
              at_end = v.currents_ok.at_end;
              drained = λ e. cc;
            };
            overlay = v.overlay;
            inside = v.inside;
          };
          took = ap (λ t. t ++ l.currents_in.file) front;
          rest = refl;
        })))

-- The same for the currents stream, whose refill leaves the output alone.
after_refill_currents :
    (caps : Capacity) (l : Lane) (o : Outcome (Unit {0})) (m : Reader)
    → IsLane caps l
    → remaining l.currents_in ≡ l.currents_in.file
    → Filled caps.cur_capacity l.currents_in (o, m)
    → Gives
        (PoppedCurrents caps l)
        (after_refill (phys_loop 1 caps currents) (o, record l { currents_in = m }))
after_refill_currents caps l (success _) m v spent_l (ok, all, at, len) =
    let k : Lane = record l { currents_in = m } in
    let valid : IsLane caps k = record {
      nexts_ok = v.nexts_ok;
      currents_ok = ok;
      overlay = v.overlay;
      inside = v.inside;
    } in
    Gives-map (read_currents 0 caps k 0 valid at len) λ r popped. record {
      ok = popped.ok;
      took = rw (spent_l ∙ sym all) popped.took;
      rest = popped.rest;
    }
after_refill_currents caps l empty m v spent_l (ok, gone, gone', at, same_buffer) = gives (record {
  ok = record { nexts_ok = v.nexts_ok; currents_ok = ok; overlay = v.overlay; inside = v.inside };
  took = (spent_l ∙ gone, rw at gone');
  rest = refl;
})
after_refill_currents caps l failure m v spent_l bad = absurd bad

refill_and_read_currents :
    (caps : Capacity) (l : Lane)
    → IsLane caps l
    → remaining l.currents_in ≡ l.currents_in.file
    → Gives
        (PoppedCurrents caps l)
        (after_refill (phys_loop 1 caps currents) (refill_currents caps l))
unfolding refill_currents
refill_and_read_currents caps l v spent_l = elim (Option-cases l.currents_in.filepos) [
  | inl over ↦
      let gone : l.currents_in.file ≡ [] = v.currents_ok.at_end over in
      rw over (
        gives (record {
          ok = record {
            nexts_ok = v.nexts_ok;
            currents_ok = record {
              allocated = v.currents_ok.allocated;
              room = v.currents_ok.room;
              bounded = v.currents_ok.bounded;
              at_end = λ e. gone;
              drained = λ e. gone;
            };
            overlay = v.overlay;
            inside = v.inside;
          };
          took = (spent_l ∙ gone, gone);
          rest = refl;
        }))
  | inr (n, open_file) ↦
      let still : IsReader caps.cur_capacity (record (l.currents_in) { filepos = some n }) =
        record {
          allocated = v.currents_ok.allocated;
          room = v.currents_ok.room;
          bounded = v.currents_ok.bounded;
          at_end = λ e. cc;
          drained = v.currents_ok.drained;
        } in
      rw open_file (
        after_refill_currents caps _ _ _
          (record {
            nexts_ok = v.nexts_ok;
            currents_ok = still;
            overlay = v.overlay;
            inside = v.inside;
          })
          spent_l
          (fill_lem caps.cur_capacity n (record (l.currents_in) { filepos = some n }) still))
]

-- get_phys_rankrun on the currents stream.
pub get_phys_rankrun-currents :
    (caps : Capacity) (l : Lane)
    → IsLane caps l
    → Gives (PoppedCurrents caps l) (get_phys_rankrun caps currents l)
unfolding get_phys_rankrun
get_phys_rankrun-currents caps l v = elim (Option-cases l.currents_in.pos) [
  | inl at ↦
      let gone : remaining l.currents_in ≡ [] = rw at (v.currents_ok.drained at) in
      rw (phys_loop-drained 1 caps currents l at)
        (gives (record { ok = v; took = (gone, gone); rest = refl }))
  | inr (p, at) ↦ elim (Bool-cases (ltb p l.currents_in.len)) [
    | inl more ↦ read_currents 1 caps l p v at (ground arith)
    | inr end ↦
        let read_all : l.currents_in.len ≤ p = ground arith in
        rw (phys_loop-spent 1 caps currents l p at read_all)
          (refill_and_read_currents caps l v (spent caps.cur_capacity p l.currents_in at read_all))
  ]
]
