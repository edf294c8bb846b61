-- ===== src/Merge/Lane/Nexts.antt =====
-- get_phys_rankrun of src/merge.c on the nexts stream, whose buffer the output overlays.
use suffix_rank.Base.{
  ℕ, suc, ◌<◌, ◌≤◌, ◌≡◌, refl, ap, sym, ◌∙◌, [], ◌++◌, none, some, arith, ltb, lt→ltb, Bool-cases,
  inl, inr, Option-cases, Gives, gives, Gives-map,
}
use suffix_rank.Format.{RankRun}
use suffix_rank.Merge.{Outcome, success, empty, failure}
use suffix_rank.Merge.Lane.{
  after_refill, Lane, Capacity, nexts, refill_nexts, phys_loop, get_phys_rankrun,
}
use suffix_rank.Merge.Lane.Invariant.{
  remaining, IsReader, avail, output, IsLane, Took, Filled, fill_lem, output-flush_overlay,
  read_lem,
}
use suffix_rank.Merge.Lane.Reading.{spent, phys_loop-spent, phys_loop-drained}

-- The nexts queue gives up its first record, and all else is as it was.
pub record PoppedNexts (caps : Capacity) (l : Lane) (r : Outcome RankRun × Lane) : Type 0 where
  pub ok : IsLane caps (r.1)
  pub took : Took (remaining l.nexts_in) r.0 (remaining r.1.nexts_in)
  pub started : 0 < avail caps r.1
  pub same_output : output r.1 ≡ output l
  pub same_currents : r.1.currents_in ≡ l.currents_in
  pub same_cursor : r.1.cursor ≡ l.cursor

read_nexts :
    (fuel : ℕ) (caps : Capacity) (l : Lane) (p : ℕ)
    → IsLane caps l
    → l.nexts_in.pos ≡ some p
    → p < l.nexts_in.len
    → Gives (PoppedNexts caps l) (phys_loop (suc fuel) caps nexts l)
unfolding phys_loop
read_nexts fuel caps l p v at h =
    let (x, got, front) = read_lem caps.nexts_capacity p l.nexts_in v.nexts_ok h in
    let at_p : avail caps l ≡ p = rw at refl in
    rw (at, lt→ltb p l.nexts_in.len h)
      (rw got (
        gives (record {
          ok = record {
            nexts_ok = record {
              allocated = v.nexts_ok.allocated;
              room = v.nexts_ok.room;
              bounded = v.nexts_ok.bounded;
              at_end = v.nexts_ok.at_end;
              drained = λ e. cc;
            };
            currents_ok = v.currents_ok;
            overlay = omega arith;
            inside = omega arith;
          };
          took = ap (λ t. t ++ l.nexts_in.file) front;
          started = omega arith;
          same_output = refl;
          same_currents = refl;
          same_cursor = refl;
        })))

-- After a refill of nexts: what it left, as a lane of its own.
abbrev Refilled : Capacity → Lane → Outcome (Unit {0}) × Lane → Type 0
Refilled caps l (o, l') =
    Filled caps.nexts_capacity l.nexts_in (o, l'.nexts_in)
    × (output l' ≡ output l)
    × (l'.out_pos ≡ 0)
    × (l'.currents_in ≡ l.currents_in)
    × (l'.cursor ≡ l.cursor)

refill_nexts_lem :
    (caps : Capacity) (l : Lane) (n : ℕ)
    → IsLane caps l
    → l.nexts_in.filepos ≡ some n
    → Refilled caps l (refill_nexts caps l)
unfolding refill_nexts
refill_nexts_lem caps l n v more =
    let m : Lane = record l { nexts_in = record (l.nexts_in) { filepos = some n } } in
    let (same, zero_out, same_nexts, same_currents, same_cursor) = output-flush_overlay m in
    let still : IsReader caps.nexts_capacity m.nexts_in = record {
      allocated = v.nexts_ok.allocated;
      room = v.nexts_ok.room;
      bounded = v.nexts_ok.bounded;
      at_end = λ e. cc;
      drained = v.nexts_ok.drained;
    } in
    rw more (
      rw same_nexts (fill_lem caps.nexts_capacity n m.nexts_in still),
      rw zero_out (rw zero_out at same),
      zero_out,
      same_currents,
      same_cursor,
    )

-- The end of a call that refilled the nexts buffer.
after_refill_nexts :
    (caps : Capacity) (l : Lane) (r : Outcome (Unit {0}) × Lane)
    → IsLane caps l
    → remaining l.nexts_in ≡ l.nexts_in.file
    → Refilled caps l r
    → Gives (PoppedNexts caps l) (after_refill (phys_loop 1 caps nexts) r)
after_refill_nexts caps l (success _, m) v spent_l
      ((ok, all, at, len), same, no_out, same_cur, same_cursor) =
    let none_free : avail caps m ≡ 0 = rw at refl in
    let valid : IsLane caps m = record {
      nexts_ok = ok;
      currents_ok = rw same_cur v.currents_ok;
      overlay = omega arith;
      inside = omega arith;
    } in
    Gives-map (read_nexts 0 caps m 0 valid at len) λ r popped. record {
      ok = popped.ok;
      took = rw (spent_l ∙ sym all) popped.took;
      started = popped.started;
      same_output = popped.same_output ∙ same;
      same_currents = popped.same_currents ∙ same_cur;
      same_cursor = popped.same_cursor ∙ same_cursor;
    }
after_refill_nexts caps l (empty, m) v spent_l
      ((ok, gone, gone', at, same_buffer), same, no_out, same_cur, same_cursor) =
    let all_free : avail caps m ≡ caps.nexts_capacity = rw at refl in
    gives (record {
      ok = record {
        nexts_ok = ok;
        currents_ok = rw same_cur v.currents_ok;
        overlay = omega arith;
        inside = omega arith;
      };
      took = (spent_l ∙ gone, rw at gone');
      started = omega arith;
      same_output = same;
      same_currents = same_cur;
      same_cursor = same_cursor;
    })
after_refill_nexts caps l (failure, m) v spent_l (bad, _, _, _, _) = absurd bad

-- The end of the file was seen before: the stream is drained, and the overlay stays.
drained_nexts :
    (caps : Capacity) (l : Lane)
    → IsLane caps l
    → remaining l.nexts_in ≡ l.nexts_in.file
    → l.nexts_in.filepos ≡ none
    → Gives (PoppedNexts caps l) (after_refill (phys_loop 1 caps nexts) (refill_nexts caps l))
unfolding refill_nexts
drained_nexts caps l v spent_l over =
    let gone : l.nexts_in.file ≡ [] = v.nexts_ok.at_end over in
    let bound : l.out_pos ≤ caps.nexts_capacity = omega arith in
    rw over (
      gives (record {
        ok = record {
          nexts_ok = record {
            allocated = v.nexts_ok.allocated;
            room = v.nexts_ok.room;
            bounded = v.nexts_ok.bounded;
            at_end = λ e. gone;
            drained = λ e. gone;
          };
          currents_ok = v.currents_ok;
          overlay = bound;
          inside = omega arith;
        };
        took = (spent_l ∙ gone, gone);
        started = omega arith;
        same_output = refl;
        same_currents = refl;
        same_cursor = refl;
      }))

-- get_phys_rankrun on the nexts stream.
pub get_phys_rankrun-nexts :
    (caps : Capacity) (l : Lane)
    → IsLane caps l
    → Gives (PoppedNexts caps l) (get_phys_rankrun caps nexts l)
unfolding get_phys_rankrun
get_phys_rankrun-nexts caps l v = elim (Option-cases l.nexts_in.pos) [
  | inl at ↦
      let all_free : avail caps l ≡ caps.nexts_capacity = rw at refl in
      let gone : remaining l.nexts_in ≡ [] = rw at (v.nexts_ok.drained at) in
      rw (phys_loop-drained 1 caps nexts l at) (
        gives (record {
          ok = v;
          took = (gone, gone);
          started = omega arith;
          same_output = refl;
          same_currents = refl;
          same_cursor = refl;
        }))
  | inr (p, at) ↦ elim (Bool-cases (ltb p l.nexts_in.len)) [
    | inl more ↦ read_nexts 1 caps l p v at (ground arith)
    | inr end ↦
        let read_all : l.nexts_in.len ≤ p = ground arith in
        let spent_l = spent caps.nexts_capacity p l.nexts_in at read_all in
        rw (phys_loop-spent 1 caps nexts l p at read_all) (elim (Option-cases l.nexts_in.filepos) [
          | inl over ↦ drained_nexts caps l v spent_l over
          | inr (n, open_file) ↦
              after_refill_nexts caps l (refill_nexts caps l) v spent_l
                (refill_nexts_lem caps l n v open_file)
        ])
  ]
]
