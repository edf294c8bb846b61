-- ===== src/Verify/Check/Rows.antt =====
-- One chunk of ranks in verify_check of src/verify.c: the records in the order of their slots, against
-- the entries of the suffix array and against their neighbours.
use suffix_rank.Base.{
  ℕ, zero, suc, ◌+◌, ◌-◌, ◌<◌, ◌≡◌, ◌⊎◌, refl, Bool, true, false, ◌&&◌, List, [], ◌∷◌, map, Option,
  none, some, arith, length, get_elem?, get_or, drop, replicate, if◌then◌else◌, Bool-cases, inl,
  inr, ◌==◌, ltb, lt→ltb, get_elem?_of_drop, drop-suc,
}
use suffix_rank.Base.Int.{ℤ, pos}
use suffix_rank.Verify.Records.{success, failure, guard, VerifyRecord}
use suffix_rank.Verify.Check.{Table, eq_ℤ, Previous, previous, is_after, check_entry, check_entries}
use suffix_rank.Verify.Check.Cells.{Cells, place_cells, filled}
use suffix_rank.Verify.Check.Place.{IsCell, Holds}

abbrev pub last_of : Previous → List VerifyRecord → Previous
last_of prev [] = prev
last_of prev (r ∷ row) = last_of (some (r.first_key, r.next_rank)) row

-- The records of a row are at the positions of the entries, and each comes after the one before it.
abbrev pub row_ok : Previous → List VerifyRecord → List ℤ → Bool
row_ok prev [] [] = true
row_ok prev [] (entry ∷ entries) = false
row_ok prev (r ∷ row) [] = false
row_ok prev (r ∷ row) (entry ∷ entries) =
    eq_ℤ (pos r.position) entry
    && (is_after prev r.first_key r.next_rank
        && row_ok (some (r.first_key, r.next_rank)) row entries)

-- The records of a chunk in the order of their slots, if they fill n slots.
abbrev pub of_cells : ℕ → List VerifyRecord → Option Cells → Option (List VerifyRecord)
of_cells n records none = none
of_cells n records (some cells) = if length records == n then some (filled cells) else none

unfoldable pub arrange : ℕ → List VerifyRecord → Option (List VerifyRecord)
arrange n records = of_cells n records (place_cells (replicate n none) records)

get_or-map-some :
    (row : List VerifyRecord) (i : ℕ) (r : VerifyRecord)
    → get_elem? row i ≡ some r
    → get_or (map some row) i none ≡ some r
get_or-map-some [] i r e = cc
get_or-map-some (x ∷ row) zero r e = e
get_or-map-some (x ∷ row) (suc i) r e = get_or-map-some row i r e

drop-lt :
    (row : List VerifyRecord) (i : ℕ) (r : VerifyRecord) (rest : List VerifyRecord)
    → drop i row ≡ r ∷ rest
    → i < length row
drop-lt [] zero r rest e = cc
drop-lt [] (suc i) r rest e = cc
drop-lt (x ∷ row) zero r rest e = omega arith
drop-lt (x ∷ row) (suc i) r rest e = omega (arith, drop-lt row i r rest e)

module _ {size : ℕ} (t : Table) (row : List VerifyRecord) (carry : Previous)
    (holds : Holds size (length row) t (map some row)) where
  row-IsCell :
      (i : ℕ) (r : VerifyRecord) (rest : List VerifyRecord)
      → drop i row ≡ r ∷ rest
      → IsCell t i (some r)
  row-IsCell i r rest e =
      rw (get_or-map-some row i r (get_elem?_of_drop i row r rest e)) at
        (holds.each i (drop-lt row i r rest e))

  previous_suc :
      (i : ℕ) (r : VerifyRecord) (rest : List VerifyRecord)
      → drop i row ≡ r ∷ rest
      → previous t carry (i + 1) ≡ success (some (r.first_key, r.next_rank))
  unfolding previous
  previous_suc i r rest e =
      let cell = row-IsCell i r rest e in
      let later : ltb 0 (i + 1) ≡ true = lt→ltb 0 (i + 1) (omega arith) in
      let back : i + 1 - 1 ≡ i = omega arith in rw (later, back, cell.2, cell.3) refl

  check_entry_lem :
      (i : ℕ) (r : VerifyRecord) (rest : List VerifyRecord) (entry : ℤ) (prev : Previous)
      → drop i row ≡ r ∷ rest
      → previous t carry i ≡ success prev
      → check_entry (length row) t carry i entry
        ≡ guard (eq_ℤ (pos r.position) entry && is_after prev r.first_key r.next_rank)
  unfolding check_entry
  check_entry_lem i r rest entry prev e before =
      let cell = row-IsCell i r rest e in
      rw (lt→ltb i (length row) (drop-lt row i r rest e), cell.1)
        (elim (Bool-cases (eq_ℤ (pos r.position) entry)) [
          | inl same ↦ rw (same, before, cell.2, cell.3) refl
          | inr other ↦ rw other refl
        ])

  -- The loop over the entries, from any of them on.
  pub check_entries_lem :
      (rest : List VerifyRecord) (entries : List ℤ) (i total : ℕ) (prev : Previous)
      → drop i row ≡ rest
      → i + length rest ≡ length row
      → length entries ≡ length rest
      → previous t carry i ≡ success prev
      → ((row_ok prev rest entries ≡ false)
          × (check_entries (length row) t carry i total entries ≡ failure))
        ⊎ ((row_ok prev rest entries ≡ true)
            × (check_entries (length row) t carry i total entries
                ≡ success (length row, total + length rest))
            × (previous t carry (length row) ≡ success (last_of prev rest)))
  unfolding check_entries
  check_entries_lem [] [] i total prev e n m before =
      let stop : i ≡ length row = omega arith in
      let same : total + 0 ≡ total = omega arith in
      inr (refl, rw (same, stop) refl, rw stop at before)
  check_entries_lem [] (entry ∷ entries) i total prev e n m before = absurd (omega arith)
  check_entries_lem (r ∷ rest) [] i total prev e n m before = absurd (omega arith)
  check_entries_lem (r ∷ rest) (entry ∷ entries) i total prev e n m before =
      let next : Previous = some (r.first_key, r.next_rank) in
      let step = check_entry_lem i r rest entry prev e before in
      let up : i + 1 ≡ suc i = omega arith in
      let e' : drop (i + 1) row ≡ rest = rw up (drop-suc i row r rest e) in
      let later =
        check_entries_lem rest entries (i + 1) (total + 1) next e' (omega arith) (omega arith)
          (previous_suc i r rest e) in
      let count : total + 1 + length rest ≡ total + suc (length rest) = omega arith in
      elim (Bool-cases (eq_ℤ (pos r.position) entry)) [
        | inr other ↦ inl (rw other refl, rw (step, other) refl)
        | inl same ↦ elim (Bool-cases (is_after prev r.first_key r.next_rank)) [
          | inr disorder ↦ inl (rw (same, disorder) refl, rw (step, same, disorder) refl)
          | inl order ↦ rw (step, same, order) (rw count at later)
        ]
      ]
