-- ===== src/Verify/Check/Cells.antt =====
-- The records of a chunk at their slots, as a row of cells of which some are filled.
use suffix_rank.Base.{
  ℕ, zero, suc, ◌+◌, ◌<◌, ◌≤◌, ◌≡◌, refl, ap, ◌∙◌, Bool, true, false, List, [], ◌∷◌, map, Option,
  none, some, arith, length, get_elem?, set, replicate, if◌then◌else◌, Bool-cases, inl, inr,
  length-set,
}
use mathlib.Core.List.{Perm, perm_middle, ◌++◌}
use mathlib.Core.List.Perm
use suffix_rank.Verify.Records.{VerifyRecord}

abbrev pub Cells : Type 0
Cells = List (Option VerifyRecord)

abbrev pub is_free : Option (Option VerifyRecord) → Bool
is_free none = false
is_free (some none) = true
is_free (some (some r)) = false

-- Every record goes to the cell of its slot, which must be there and free.
unfoldable pub place_cells : Cells → List VerifyRecord → Option Cells
place_cells cells [] = some cells
place_cells cells (r ∷ rs) =
    let later = place_cells (set cells r.slot (some r)) rs in
    if is_free (get_elem? cells r.slot) then later else none

abbrev pub filled : Cells → List VerifyRecord
filled [] = []
filled (none ∷ cells) = filled cells
filled (some r ∷ cells) = r ∷ filled cells

pub filled-replicate : (n : ℕ) → filled (replicate n none) ≡ []
filled-replicate zero = refl
filled-replicate (suc n) = filled-replicate n

pub is_free-lt : (cells : Cells) (i : ℕ) → is_free (get_elem? cells i) ≡ true → i < length cells
is_free-lt [] i e = cc
is_free-lt (c ∷ cells) zero e = omega arith
is_free-lt (c ∷ cells) (suc i) e = omega (arith, is_free-lt cells i e)

pub filled-set-perm :
    (cells : Cells) (i : ℕ) (r : VerifyRecord)
    → is_free (get_elem? cells i) ≡ true
    → Perm (filled (set cells i (some r))) (r ∷ filled cells)
filled-set-perm [] i r e = absurd (omega (arith, is_free-lt [] i e))
filled-set-perm (none ∷ cells) zero r e = Perm.refl _
filled-set-perm (some x ∷ cells) zero r e = cc
filled-set-perm (none ∷ cells) (suc i) r e = filled-set-perm cells i r e
filled-set-perm (some x ∷ cells) (suc i) r e =
    Perm.trans (Perm.cons x (filled-set-perm cells i r e)) (Perm.swap r x (filled cells))

pub length-filled-set :
    (cells : Cells) (i : ℕ) (r : VerifyRecord)
    → is_free (get_elem? cells i) ≡ true
    → length (filled (set cells i (some r))) ≡ length (filled cells) + 1
length-filled-set [] i r e = absurd (omega (arith, is_free-lt [] i e))
length-filled-set (none ∷ cells) zero r e = omega arith
length-filled-set (some x ∷ cells) zero r e = cc
length-filled-set (none ∷ cells) (suc i) r e = length-filled-set cells i r e
length-filled-set (some x ∷ cells) (suc i) r e = omega (arith, length-filled-set cells i r e)

length-filled-le : (cells : Cells) → length (filled cells) ≤ length cells
length-filled-le [] = omega arith
length-filled-le (none ∷ cells) = omega (arith, length-filled-le cells)
length-filled-le (some r ∷ cells) = omega (arith, length-filled-le cells)

-- As many records as cells fill every cell.
pub all_filled :
    (cells : Cells) → length (filled cells) ≡ length cells → cells ≡ map some (filled cells)
all_filled [] e = refl
all_filled (none ∷ cells) e = absurd (omega (arith, length-filled-le cells))
all_filled (some r ∷ cells) e = ap (◌∷◌ (some r)) (all_filled cells (omega arith))

-- A record stands in the cell of its slot.
abbrev AtSlot : ℕ → Option VerifyRecord → Type 0
AtSlot i none = Unit
AtSlot i (some r) = r.slot ≡ i

abbrev pub AreAtSlots : ℕ → Cells → Type 0
AreAtSlots i [] = Unit
AreAtSlots i (c ∷ cells) = AtSlot i c × AreAtSlots (suc i) cells

pub replicate-AreAtSlots : (i n : ℕ) → AreAtSlots i (replicate n none)
replicate-AreAtSlots i zero = tt
replicate-AreAtSlots i (suc n) = (tt, replicate-AreAtSlots (suc i) n)

set-AreAtSlots :
    (i : ℕ) (cells : Cells) (k : ℕ) (r : VerifyRecord)
    → r.slot ≡ i + k
    → AreAtSlots i cells
    → AreAtSlots i (set cells k (some r))
set-AreAtSlots i [] k r e h = tt
set-AreAtSlots i (c ∷ cells) zero r e h = (omega arith, h.1)
set-AreAtSlots i (c ∷ cells) (suc k) r e h =
    (h.0, set-AreAtSlots (suc i) cells k r (omega arith) h.1)

-- Placing keeps the number of cells, and adds the records, each at its slot.
pub place_cells_lem :
    (cells : Cells) (rs : List VerifyRecord) (cells' : Cells)
    → place_cells cells rs ≡ some cells'
    → AreAtSlots 0 cells
    → (length cells' ≡ length cells)
      × AreAtSlots 0 cells'
      × (length (filled cells') ≡ length (filled cells) + length rs)
      × Perm (filled cells') (rs ++ filled cells)
unfolding place_cells
place_cells_lem cells [] cells' e h =
    let s : cells ≡ cells' = cc in rw (← s) (refl, h, omega arith, Perm.refl _)
place_cells_lem cells (r ∷ rs) cells' e h = elim (Bool-cases (is_free (get_elem? cells r.slot))) [
  | inl free ↦
      let e' = rw free at e in
      let (same, at_slots, longer, perm) =
        place_cells_lem (set cells r.slot (some r)) rs cells' e'
          (set-AreAtSlots 0 cells r.slot r (omega arith) h) in
      (
        same ∙ length-set cells r.slot (some r),
        at_slots,
        omega (arith, length-filled-set cells r.slot r free),
        Perm.trans perm (
            Perm.trans (Perm.append_left rs (filled-set-perm cells r.slot r free))
              (perm_middle rs (filled cells))),
      )
  | inr taken ↦ let e' = rw taken at e in cc
]
