-- ===== src/Pairs/Cells.antt =====
-- The buffer of src/create_pairs.c as a row of buckets, each with the pairs that it has and the room
-- that is left in it.
use suffix_rank.Base.{
  ℕ, zero, suc, ◌+◌, ◌<◌, ◌≡◌, refl, ap, sym, ◌∙◌, List, [], ◌∷◌, ◌++◌, append_assoc, some, arith,
  length, length-append, get_elem?, get_or, set,
}
use suffix_rank.Inverse.{InverseRecord}

-- A bucket: its pairs, and the entries that are still free.
abbrev pub Cell : Type 0
Cell = List InverseRecord × List InverseRecord

abbrev pub no_cell : Cell
no_cell = ([], [])

abbrev pub row : List Cell → List InverseRecord → List InverseRecord
row [] rest = rest
row ((done, free) ∷ cells) rest = done ++ (free ++ row cells rest)

-- The entry of each bucket that is filled next.
abbrev pub nexts_of : ℕ → List Cell → List ℕ
nexts_of off [] = []
nexts_of off ((done, free) ∷ cells) =
    (off + length done) ∷ nexts_of (off + (length done + length free)) cells

abbrev pub room : List Cell → ℕ → ℕ
room cells b = length (get_or cells b no_cell).1

-- A new pair in a bucket.
abbrev pub fill_cell : InverseRecord → Cell → Cell
fill_cell x (done, []) = (done ++ x ∷ [], [])
fill_cell x (done, y ∷ free) = (done ++ x ∷ [], free)

abbrev pub put : List Cell → ℕ → InverseRecord → List Cell
put [] b x = []
put (cell ∷ cells) zero x = fill_cell x cell ∷ cells
put (cell ∷ cells) (suc b) x = cell ∷ put cells b x

set-append_right :
    (xs ys : List InverseRecord) (k i : ℕ) (x : InverseRecord)
    → k ≡ length xs + i
    → set (xs ++ ys) k x ≡ xs ++ set ys i x
set-append_right [] ys k i x e = let e' : k ≡ i = omega arith in ap (λ j. set ys j x) e'
set-append_right (z ∷ xs) ys zero i x e = absurd (omega arith)
set-append_right (z ∷ xs) ys (suc k) i x e = ap (◌∷◌ z) (set-append_right xs ys k i x (omega arith))

-- The step of the loop, in a bucket that has room.
pub put-row :
    (off : ℕ) (cells : List Cell) (rest : List InverseRecord) (b : ℕ) (x : InverseRecord)
    → b < length cells
    → 0 < room cells b
    → (q : ℕ) × (get_elem? (nexts_of off cells) b ≡ some (off + q))
      × (set (nexts_of off cells) b (off + q + 1) ≡ nexts_of off (put cells b x))
      × (set (row cells rest) q x ≡ row (put cells b x) rest)
      × (q < length (row cells rest))
put-row off [] rest b x h k = absurd (omega arith)
put-row off ((done, []) ∷ cells) rest zero x h k = absurd (omega arith)
put-row off ((done, y ∷ free) ∷ cells) rest zero x h k =
    let long = length-append done (x ∷ []) in
    let e : off + length (done ++ x ∷ []) ≡ off + length done + 1 = omega arith in
    let e' : off + (length (done ++ x ∷ []) + length free)
        ≡ off + (length done + suc (length free)) =
      omega arith in
    (
      length done,
      refl,
      rw (e, e') refl,
      set-append_right done (y ∷ (free ++ row cells rest)) (length done) 0 x (omega arith)
          ∙ sym (append_assoc done (x ∷ []) (free ++ row cells rest)),
      omega (arith, length-append done (y ∷ (free ++ row cells rest))),
    )
put-row off ((done, free) ∷ cells) rest (suc b) x h k =
    let step = length done + length free in
    let (q, got, moved, written, inside) = put-row (off + step) cells rest b x (omega arith) k in
    let e : off + step + q ≡ off + (step + q) = omega arith in
    (
      step + q,
      rw (← e) got,
      ap (◌∷◌ (off + length done)) (rw (← e) moved),
      set-append_right done (free ++ row cells rest) (step + q) (length free + q) x (omega arith)
          ∙ ap (λ t. done ++ t)
              (set-append_right free (row cells rest) (length free + q) q x refl
                ∙ ap (λ t. free ++ t) written),
      omega
          (arith, length-append done (free ++ row cells rest), length-append free (row cells rest)),
    )
