-- ===== src/Merge/Lane/Overlay.antt =====
-- put_current and write_output of src/merge.c: the output records that overlay the nexts buffer.
use suffix_rank.Base.{
  ℕ, zero, suc, ◌+◌, ◌<◌, ◌≡◌, refl, ap, sym, ◌∙◌, List, [], ◌∷◌, ◌++◌, append-nil, append_assoc,
  none, some, arith, length, set, take, drop, take-add_one-set, length-set, store_of_lt, lt→ltb,
  ltb, if◌then◌else◌, Bool-cases, inl, inr, Option-cases, Gives, gives, Gives-map, Gives-bind,
}
use suffix_rank.Format.{RankRun, i40_store, count_escape}
use suffix_rank.Format.Runs.{Run, encode_run}
use suffix_rank.Merge.Lane.{Reader, Lane, Capacity, flush_output, put_current, write_output}
use suffix_rank.Merge.Lane.Invariant.{remaining, IsReader, avail, output, IsLane}

-- The records `added` follow what was written before, and the streams are as they were.
pub record Appended (caps : Capacity) (l : Lane) (added : List RankRun) (l' : Lane) : Type 0 where
  pub ok : IsLane caps l'
  pub grown : output l' ≡ output l ++ added
  pub same_nexts : remaining l'.nexts_in ≡ remaining l.nexts_in
  pub same_avail : avail caps l' ≡ avail caps l
  pub same_currents : l'.currents_in ≡ l.currents_in
  pub same_cursor : l'.cursor ≡ l.cursor

module _ {ℓ} {A : Type ℓ} where
  -- A write before index n is not seen behind it.
  drop-take-set :
      (xs : List A) (i n k : ℕ) (v : A) → i < n → drop n (take k (set xs i v)) ≡ drop n (take k xs)
  drop-take-set xs i zero k v h = absurd (omega arith)
  drop-take-set xs i (suc n) zero v h = refl
  drop-take-set [] i (suc n) (suc k) v h = refl
  drop-take-set (x ∷ xs) zero (suc n) (suc k) v h = refl
  drop-take-set (x ∷ xs) (suc i) (suc n) (suc k) v h = drop-take-set xs i n k v (omega arith)

-- The lane before the write: as it was, or with its overlay flushed.
abbrev guarded : Capacity → Lane → Lane
guarded caps l =
    if ltb (avail caps l) (l.out_pos + 1) then record (flush_output l) { out_pos = 0 } else l

record Guarded (caps : Capacity) (l m : Lane) : Type 0 where
  free : m.out_pos < avail caps l
  same_output : output m ≡ output l
  same_nexts : m.nexts_in ≡ l.nexts_in
  same_currents : m.currents_in ≡ l.currents_in
  same_cursor : m.cursor ≡ l.cursor

guarded_lem :
    (caps : Capacity) (l : Lane)
    → IsLane caps l
    → 0 < avail caps l
    → Guarded caps l (guarded caps l)
unfolding flush_output
guarded_lem caps l v room = elim (Bool-cases (ltb (avail caps l) (l.out_pos + 1))) [
  | inl full ↦
      let h : 0 < l.out_pos = ground arith in
      rw (full, lt→ltb 0 l.out_pos h, flush_output)
        (record {
          free = room;
          same_output = append-nil _;
          same_nexts = refl;
          same_currents = refl;
          same_cursor = refl;
        })
  | inr fits ↦ rw fits (record {
    free = ground arith;
    same_output = refl;
    same_nexts = refl;
    same_currents = refl;
    same_cursor = refl;
  })
]

-- A write to a slot that was read leaves the queue as it is.
remaining-set :
    (r : Reader) (i : ℕ) (x : RankRun)
    → ((p : ℕ) → r.pos ≡ some p → i < p)
    → remaining (record r { buffer = set r.buffer i x }) ≡ remaining r
remaining-set r i x behind = elim (Option-cases r.pos) [
  | inl drained ↦ rw drained refl
  | inr (p, at) ↦
      let h = behind p at in rw at (ap (λ t. t ++ r.file) (drop-take-set r.buffer i p r.len x h))
]

avail-eq : (caps : Capacity) (l : Lane) (p : ℕ) → l.nexts_in.pos ≡ some p → avail caps l ≡ p
avail-eq caps l p at = rw at refl

-- put_current, once a record of the chunk was read or the chunk is drained.
put_current_lem :
    (caps : Capacity) (rank count : ℕ) (l : Lane)
    → IsLane caps l
    → 0 < avail caps l
    → Gives
        (Appended caps l (record { rank = i40_store rank; count = count } ∷ []))
        (put_current caps rank count l)
unfolding put_current
put_current_lem caps rank count l v room =
    let m = guarded caps l in
    let g = guarded_lem caps l v room in
    let x : RankRun = record { rank = i40_store rank; count = count } in
    let valid : IsReader caps.nexts_capacity m.nexts_in = rw g.same_nexts v.nexts_ok in
    let same_avail : avail caps m ≡ avail caps l =
      ap (λ (r : Reader). elim r.pos [ none ↦ caps.nexts_capacity | some rp ↦ rp ]) g.same_nexts in
    let inside : m.out_pos < length m.nexts_in.buffer = omega arith in
    rw (store_of_lt m.nexts_in.buffer m.out_pos x inside) (
      gives (record {
        ok = record {
          nexts_ok = record {
            allocated = length-set m.nexts_in.buffer m.out_pos x ∙ valid.allocated;
            room = valid.room;
            bounded = valid.bounded;
            at_end = valid.at_end;
            drained = valid.drained;
          };
          currents_ok = rw g.same_currents v.currents_ok;
          overlay = omega arith;
          inside = omega arith;
        };
        grown =
            ap (λ t. m.out_file ++ t) (take-add_one-set m.nexts_in.buffer m.out_pos x inside)
            ∙ sym (append_assoc m.out_file (take m.out_pos m.nexts_in.buffer) (x ∷ []))
            ∙ ap (λ t. t ++ x ∷ []) g.same_output;
        same_nexts =
            remaining-set m.nexts_in m.out_pos x (λ p at. omega (arith, avail-eq caps m p at))
            ∙ ap remaining g.same_nexts;
        same_avail = same_avail;
        same_currents = g.same_currents;
        same_cursor = g.same_cursor;
      }))

-- On a chunk with a free output slot, write_output adds the one or two records of its run to the
-- output, flushed or not, and overwrites no record of nexts that is still to be read; the number
-- of free slots, the currents and the cursor stay the same.
pub write_output_lem :
    (caps : Capacity) (r : Run) (l : Lane)
    → IsLane caps l
    → 0 < avail caps l
    → Gives (Appended caps l (encode_run r)) (write_output caps r.rank r.count l)
unfolding write_output encode_run
write_output_lem caps r l v room = elim (Bool-cases (ltb r.count count_escape)) [
  | inl small ↦ rw small (put_current_lem caps r.rank r.count l v room)
  | inr large ↦ rw large (
      Gives-bind (put_current_lem caps r.rank count_escape l v room) λ m a.
        Gives-map (put_current_lem caps r.count 0 m a.ok (rw a.same_avail room)) λ n b. record {
          ok = b.ok;
          grown = b.grown ∙ rw a.grown (append_assoc (output l) _ _);
          same_nexts = b.same_nexts ∙ a.same_nexts;
          same_avail = b.same_avail ∙ a.same_avail;
          same_currents = b.same_currents ∙ a.same_currents;
          same_cursor = b.same_cursor ∙ a.same_cursor;
        })
]
