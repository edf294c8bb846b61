-- ===== src/Pairs/Correct.antt =====
-- create_pairs of src/create_pairs.c, against the pairs of each bucket in their order.
use mathlib.Core.Path.{subst, subst₂}
use suffix_rank.Base.{
  ℕ, zero, suc, ◌+◌, ◌-◌, ◌*◌, ◌/◌, ◌<◌, ◌≤◌, ◌≡◌, refl, ap, sym, ◌∙◌, inl, inr, true, false, List,
  [], ◌∷◌, ◌++◌, append-nil, append_assoc, some, arith, length, map, length-map, ◌>>=◌,
  length-append, length-replicate, get_or, store_of_lt, take, drop, replicate, All, take-eq_of_le,
  ◌==◌, if◌then◌else◌, Bool-cases, Gives, gives, Gives-map, Gives-bind,
}
use suffix_rank.Format.{Int40, i40_load}
use suffix_rank.Inverse.{InverseRecord}
use suffix_rank.Pairs.{pair_of, bucket_starts, place_pairs, slices, create_pairs}
use suffix_rank.Pairs.Cells.{Cell, no_cell, row, nexts_of, room, fill_cell, put, put-row}
use suffix_rank.Pairs.Counts.{
  members, sum, Counted, count_buckets_lem, cut, behind, row-cut, nexts_of-cut, room-cut,
  length-cut, none_done,
}

-- The pairs whose rank lies in bucket `b`, in the order of their positions.
unfoldable pub bucket : ℕ → ℕ → ℕ → List Int40 → List InverseRecord
bucket size idx b [] = []
bucket size idx b (r ∷ rs) =
    if i40_load r / size == b
    then pair_of idx r ∷ bucket size (idx + 1) b rs
    else bucket size (idx + 1) b rs

abbrev cell_at : List Cell → ℕ → Cell
cell_at cells b = get_or cells b no_cell

length-put : (cells : List Cell) (b : ℕ) (x : InverseRecord) → length (put cells b x) ≡ length cells
length-put [] b x = refl
length-put (c ∷ cells) zero x = refl
length-put (c ∷ cells) (suc b) x = ap suc (length-put cells b x)

cell_at-put_self :
    (cells : List Cell) (b : ℕ) (x : InverseRecord)
    → b < length cells
    → cell_at (put cells b x) b ≡ fill_cell x (cell_at cells b)
cell_at-put_self [] b x h = absurd (omega arith)
cell_at-put_self (c ∷ cells) zero x h = refl
cell_at-put_self (c ∷ cells) (suc b) x h = cell_at-put_self cells b x (omega arith)

cell_at-put_ne :
    (cells : List Cell) (b i : ℕ) (x : InverseRecord)
    → (b == i) ≡ false
    → cell_at (put cells b x) i ≡ cell_at cells i
cell_at-put_ne [] b i x h = refl
cell_at-put_ne (c ∷ cells) zero zero x h = absurd (ground arith)
cell_at-put_ne (c ∷ cells) zero (suc i) x h = refl
cell_at-put_ne (c ∷ cells) (suc b) zero x h = refl
cell_at-put_ne (c ∷ cells) (suc b) (suc i) x h = cell_at-put_ne cells b i x (ground arith)

fill_cell_lem :
    (x : InverseRecord) (c : Cell)
    → ((fill_cell x c).0 ≡ c.0 ++ x ∷ []) × (length (fill_cell x c).1 ≡ length c.1 - 1)
fill_cell_lem x (done, []) = (refl, refl)
fill_cell_lem x (done, y ∷ free) = (refl, omega arith)

length-nexts_of : (off : ℕ) (cells : List Cell) → length (nexts_of off cells) ≡ length cells
length-nexts_of off [] = refl
length-nexts_of off ((done, free) ∷ cells) =
    ap suc (length-nexts_of (off + (length done + length free)) cells)

drop-append : (xs ys : List InverseRecord) → drop (length xs) (xs ++ ys) ≡ ys
drop-append [] ys = refl
drop-append (x ∷ xs) ys = drop-append xs ys

take-append : (xs ys : List InverseRecord) → take (length xs) (xs ++ ys) ≡ xs
take-append [] ys = refl
take-append (x ∷ xs) ys = ap (◌∷◌ x) (take-append xs ys)

-- Every bucket has its pairs behind those that it had, and no room is left.
record Placed (size idx : ℕ) (rs : List Int40) (cells : List Cell) (rest : List InverseRecord)
    (r : List ℕ × List InverseRecord) : Type 0 where
  cells' : List Cell
  ends : r.0 ≡ nexts_of 0 cells'
  filled : r.1 ≡ row cells' rest
  same_length : length cells' ≡ length cells
  each : (b : ℕ) → (cell_at cells' b).0 ≡ (cell_at cells b).0 ++ bucket size idx b rs
  full : (b : ℕ) → length (cell_at cells' b).1 ≡ 0

place_pairs_lem :
    (size idx : ℕ) (rs : List Int40) (cells : List Cell) (rest : List InverseRecord)
    → All (λ r. i40_load r / size < length cells) rs
    → ((b : ℕ) → room cells b ≡ members size b rs)
    → Gives
        (Placed size idx rs cells rest)
        (place_pairs size idx rs (nexts_of 0 cells) (row cells rest))
unfolding place_pairs bucket members
place_pairs_lem size idx [] cells rest h k = gives (record {
  cells' = cells;
  ends = refl;
  filled = refl;
  same_length = refl;
  each = λ b. sym (append-nil (cell_at cells b).0);
  full = k;
})
place_pairs_lem size idx (r ∷ rs) cells rest (h, hs) k =
    let b = i40_load r / size in
    let x = pair_of idx r in
    let own : (b == b) ≡ true = ground arith in
    let kb : room cells b ≡ 1 + members size b rs = unfold members in rw own at (k b) in
    let (q, got, moved, written, inside) = put-row 0 cells rest b x h (omega arith) in
    let z : 0 + q ≡ q = omega arith in
    let hb : b < length (nexts_of 0 cells) = rw (length-nexts_of 0 cells) h in
    let cells2 = put cells b x in
    let self = cell_at-put_self cells b x h in
    let (done, free) = fill_cell_lem x (cell_at cells b) in
    let k2 : (i : ℕ) → room cells2 i ≡ members size i rs = λ i. elim (Bool-cases (b == i)) [
      | inl same ↦
          let e : b ≡ i = ground arith in
          subst (λ j. room cells2 j ≡ members size j rs) e
            (omega (arith, ap (λ (c : Cell). length c.1) self, free, kb))
      | inr apart ↦
          let kept = ap (λ (c : Cell). length c.1) (cell_at-put_ne cells b i x apart) in
          let ki : room cells i ≡ 0 + members size i rs = unfold members in rw apart at (k i) in
          omega (arith, kept, ki)
    ] in
    rw got (
      rw (store_of_lt (nexts_of 0 cells) b (0 + q + 1) hb, moved)
        (rw z (
          rw (store_of_lt (row cells rest) q x inside, written)
            (Gives-map (place_pairs_lem size (idx + 1) rs cells2 rest (rw length-put hs) k2) λ r' v.
              record {
                cells' = v.cells';
                ends = v.ends;
                filled = v.filled;
                same_length = v.same_length ∙ length-put cells b x;
                each = λ i. v.each i ∙ elim (Bool-cases (b == i)) [
                  | inl same ↦
                      let e : b ≡ i = ground arith in
                      rw same (
                        subst
                          (λ j.
                            (cell_at cells2 j).0 ++ bucket size (idx + 1) j rs
                            ≡ (cell_at cells j).0 ++ (x ∷ bucket size (idx + 1) j rs))
                          e
                          (ap (λ (c : Cell). c.0 ++ bucket size (idx + 1) b rs) self
                            ∙ ap (λ t. t ++ bucket size (idx + 1) b rs) done
                            ∙ append_assoc (cell_at cells b).0 (x ∷ [])
                                (bucket size (idx + 1) b rs)))
                  | inr apart ↦ rw apart (
                      ap (λ (c : Cell). c.0 ++ bucket size (idx + 1) i rs)
                        (cell_at-put_ne cells b i x apart))
                ];
                full = v.full;
              }))))

-- The slices between the ends of full buckets are the buckets.
slices-row :
    (off : ℕ) (before rest : List InverseRecord) (cells : List Cell)
    → length before ≡ off
    → ((b : ℕ) → length (cell_at cells b).1 ≡ 0)
    → slices (before ++ row cells rest) off (nexts_of off cells) ≡ map (λ (c : Cell). c.0) cells
slices-row off before rest [] e k = refl
slices-row off before rest ((done, y ∷ free) ∷ cells) e k =
    let bad = k 0 in absurd (omega (arith, bad))
slices-row off before rest ((done, []) ∷ cells) e k =
    let stop : off + length done - off ≡ length done = omega arith in
    let next : off + (length done + 0) ≡ off + length done = omega arith in
    let tail =
      slices-row (off + length done) (before ++ done) rest cells
        (length-append before done ∙ ap (λ n. n + length done) e) (λ b. k (suc b)) in
    let own : take (off + length done - off) (drop off (before ++ (done ++ row cells rest)))
        ≡ done =
      rw stop (
        subst (λ n. take (length done) (drop n (before ++ (done ++ row cells rest))) ≡ done) e
          (rw (drop-append before (done ++ row cells rest)) (take-append done (row cells rest)))) in
    rw (own, next) (ap (◌∷◌ done) (rw (append_assoc before done (row cells rest)) at tail))

get_or-replicate : (n b : ℕ) → ◌≡◌ {A = ℕ} (get_or (replicate n 0) b 0) 0
get_or-replicate zero b = refl
get_or-replicate (suc n) zero = refl
get_or-replicate (suc n) (suc b) = get_or-replicate n b

sum-replicate : (n : ℕ) → sum (replicate n 0) ≡ 0
sum-replicate zero = refl
sum-replicate (suc n) = omega (arith, sum-replicate n)

get_or-map :
    (cells : List Cell) (b : ℕ) → get_or (map (λ (c : Cell). c.0) cells) b [] ≡ (cell_at cells b).0
get_or-map [] b = refl
get_or-map (c ∷ cells) zero = refl
get_or-map (c ∷ cells) (suc b) = get_or-map cells b

-- One part for each chunk, with the pairs of its bucket in their order.
pub record IsParted (total_chunks size chunk_id : ℕ) (ranks_file : List Int40)
    (parts : List (List InverseRecord)) : Type 0 where
  pub count : length parts ≡ total_chunks
  pub each : (b : ℕ) → get_or parts b [] ≡ bucket size (chunk_id * size) b ranks_file

IsParted-counts :
    (total_chunks size chunk_id : ℕ) (ranks_file : List Int40) (buffer : List InverseRecord)
    (counts : List ℕ)
    → All (λ r. i40_load r / size < total_chunks) ranks_file
    → length ranks_file ≤ length buffer
    → Counted size ranks_file (replicate total_chunks 0) counts
    → Gives (IsParted total_chunks size chunk_id ranks_file) (
        place_pairs size (chunk_id * size) ranks_file (bucket_starts 0 counts) buffer
        >>= λ (ends, b). some (slices b 0 ends))
IsParted-counts total_chunks size chunk_id ranks_file buffer counts h room_for v =
    let cells = cut counts buffer in
    let rest = behind counts buffer in
    let fits : sum counts ≤ length buffer = omega (arith, v.total, sum-replicate total_chunks) in
    let size' : length cells ≡ total_chunks =
      length-cut counts buffer ∙ v.same_length ∙ length-replicate total_chunks 0 in
    let rooms : (b : ℕ) → room cells b ≡ members size b ranks_file = λ b.
      omega (arith, room-cut counts buffer b fits, v.each b, get_or-replicate total_chunks b) in
    let placed = place_pairs_lem size (chunk_id * size) ranks_file cells rest (rw size' h) rooms in
    let placed' : Gives (Placed size (chunk_id * size) ranks_file cells rest)
        (place_pairs size (chunk_id * size) ranks_file (bucket_starts 0 counts) buffer) =
      subst₂
        (λ p q.
          Gives (Placed size (chunk_id * size) ranks_file cells rest)
            (place_pairs size (chunk_id * size) ranks_file p q))
        (nexts_of-cut 0 counts buffer fits) (row-cut counts buffer) placed in
    Gives-bind placed' λ (ends, b) w.
      let parts : slices b 0 ends ≡ map (λ (c : Cell). c.0) w.cells' =
        rw (w.ends, w.filled) (slices-row 0 [] rest w.cells' refl w.full) in
      gives (record {
        count = ap length parts ∙ length-map (λ (c : Cell). c.0) w.cells' ∙ w.same_length ∙ size';
        each = λ i.
            ap (λ t. get_or t i []) parts
            ∙ get_or-map w.cells' i
            ∙ w.each i
            ∙ ap (λ t. t ++ bucket size (chunk_id * size) i ranks_file) (none_done counts buffer i);
      })

-- With at least one chunk, a ranks file of at most size ranks that all lie in the chunks, and a
-- buffer of at least size pairs, create_pairs accesses no array out of bounds and gives each chunk
-- exactly the pairs whose rank lies in it, in the order of their positions.
pub create_pairs_lem :
    (total_chunks size chunk_id : ℕ) (ranks_file : List Int40) (inverse_buffer : List InverseRecord)
    → 0 < total_chunks
    → length ranks_file ≤ size
    → size ≤ length inverse_buffer
    → All (λ r. i40_load r / size < total_chunks) ranks_file
    → Gives
        (IsParted total_chunks size chunk_id ranks_file)
        (create_pairs total_chunks size chunk_id ranks_file inverse_buffer)
unfolding create_pairs
create_pairs_lem total_chunks size chunk_id ranks_file inverse_buffer pos short big h =
    let some_chunk : (total_chunks == 0) ≡ false = ground arith in
    rw (take-eq_of_le size ranks_file short, some_chunk)
      (Gives-bind
        (count_buckets_lem size ranks_file (replicate total_chunks 0) (rw length-replicate h))
        λ counts v.
          IsParted-counts total_chunks size chunk_id ranks_file inverse_buffer counts h
            (omega arith) v)
