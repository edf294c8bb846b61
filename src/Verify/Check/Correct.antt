-- ===== src/Verify/Check/Correct.antt =====
-- verify_check of src/verify.c as a whole.
use suffix_rank.Base.{
  ℕ, zero, ◌+◌, ◌*◌, ◌/◌, ◌%◌, ◌<◌, ◌≤◌, ◌≡◌, ◌⊎◌, refl, ap, sym, ◌∙◌, List, [], ◌∷◌, map, Option,
  none, some, arith, length, replicate, if◌then◌else◌, Bool-cases, inl, inr, ◌==◌, lt→leb, le→leb,
  eq→==, ne→==, ==→eq, All, length-replicate, append-nil,
}
use native.Mathlib.Decide.{dec_lt, ℕ_discrete}
use suffix_rank.Verify.Records.{Verdict, success, failure, VerifyRecord}
use suffix_rank.Verify.Check.{
  LongFile, file_record_count, Table, Previous, previous, check_chunk, check_chunks, new_table,
  verify_check,
}
use suffix_rank.Verify.Check.Cells.{
  Cells, place_cells, place_cells_lem, filled, filled-replicate, all_filled, replicate-AreAtSlots,
}
use suffix_rank.Verify.Check.Place.{IsTable, Holds, place_records_lem}
use suffix_rank.Verify.Check.Rows.{last_of, arrange, check_entries_lem}
use suffix_rank.Verify.Check.Accept.{
  accepted, before_rows, accept_all, zeros-IsBytes, no_record, cleared-Holds,
}

-- The rows are the records of the file at their slots.
pub arranged :
    (n : ℕ) (records : List VerifyRecord) (cells : Cells)
    → place_cells (replicate n none) records ≡ some cells
    → length records ≡ n
    → (length (filled cells) ≡ n) × (cells ≡ map some (filled cells))
arranged n records cells e count =
    let (same, _, more, _) =
      place_cells_lem (replicate n none) records cells e (replicate-AreAtSlots 0 n) in
    let none_yet = ap length (filled-replicate n) in
    let full : length (filled cells) ≡ n = omega arith in
    (full, all_filled cells (omega (arith, length-replicate n no_record)))

record_count :
    (file : LongFile)
    → file.rest < 8
    → file_record_count file ≡ (if file.rest == 0 then success (length file.entries) else failure)
unfolding file_record_count
record_count file h = elim (Bool-cases (file.rest == 0)) [
  | inl whole ↦
      let e : (length file.entries * 8 + file.rest) % 8 ≡ file.rest = omega arith in
      let z : file.rest ≡ 0 = ==→eq file.rest 0 whole in
      let q : (length file.entries * 8 + file.rest) / 8 ≡ length file.entries = omega arith in
      rw (e, whole, q) refl
  | inr torn ↦
      let e : (length file.entries * 8 + file.rest) % 8 ≡ file.rest = omega arith in
      rw (e, torn) refl
]

-- The body of the loop over the chunks fails, or takes the row and leaves its last suffix.
check_chunk_lem :
    {size : ℕ} (records : List VerifyRecord) (file : LongFile) (t : Table) (carry : Previous)
    (total : ℕ)
    → IsTable size t
    → file.rest < 8
    → ((accepted size records file carry ≡ none)
        × (check_chunk size records file t carry total ≡ failure))
      ⊎ ((row : List VerifyRecord) × (t' : Table) × (accepted size records file carry ≡ some row)
          × (check_chunk size records file t carry total
              ≡ success (t', last_of carry row, total + length row))
          × IsTable size t')
unfolding check_chunk accepted arrange
check_chunk_lem {size} records file t carry total table h =
    let n = length file.entries in
    let counted = record_count file h in
    elim (Bool-cases (file.rest == 0)) [
      | inr torn ↦ inl (rw torn refl, rw (counted, torn) refl)
      | inl whole ↦ elim (dec_lt size n) [
        | yes long ↦
            let e = lt→leb n size long in inl (rw (whole, e) refl, rw (counted, whole, e) refl)
        | no short ↦
            let fits : n ≤ size = omega arith in
            let e = le→leb n size fits in
            elim (place_records_lem records (cleared-Holds t table n fits)) [
              | inl (bad, fails) ↦ inl (rw (whole, e, bad) refl, rw (counted, whole, e, fails) refl)
              | inr (cells, t', placed, runs, holds) ↦
                  let (_, _, more, _) =
                    place_cells_lem (replicate n none) records cells placed
                      (replicate-AreAtSlots 0 n) in
                  let none_yet = ap length (filled-replicate n) in
                  let count : t'.placed ≡ length records = omega (arith, holds.count) in
                  elim (ℕ_discrete (length records) n) [
                    | no differ ↦
                        let d = ne→== (length records) n differ in
                        let d' = ne→== t'.placed n (λ z. differ (sym count ∙ z)) in
                        inl (rw (whole, e, placed, d) refl, rw (counted, whole, e, runs, d') refl)
                    | yes same ↦
                        let d = eq→== (length records) n same in
                        let d' = eq→== t'.placed n (count ∙ same) in
                        let (full, all) = arranged n records cells placed same in
                        let row = filled cells in
                        let holds' : Holds size (length row) t' (map some row) =
                          rw (full, ← all) holds in
                        let start : previous t' carry 0 ≡ success carry = unfold previous in refl in
                        elim (check_entries_lem t' row carry holds' row file.entries 0 total carry
                          refl (omega arith) (sym full) start) [
                            | inl (bad, fails) ↦ inl (
                              rw (whole, e, placed, d, bad) refl,
                              rw (counted, whole, e, runs, d', ← full, fails) refl,
                            )
                            | inr (good, passes, last) ↦ inr (
                              row,
                              t',
                              rw (whole, e, placed, d, good) refl,
                              rw
                                  (
                                    counted,
                                    whole,
                                    e,
                                    runs,
                                    d',
                                    ← full,
                                    passes,
                                    eq→== (length row) (length row) refl,
                                    last,
                                  )
                                  refl,
                              holds.table,
                            )
                          ]
                  ]
            ]
      ]
    ]

abbrev pub whole_size : List (List VerifyRecord) → ℕ
whole_size [] = 0
whole_size (row ∷ rows) = length row + whole_size rows

-- SUCCESS with the number of entries, if there are rows.
abbrev pub reported : ℕ → Option (List (List VerifyRecord)) → Verdict ℕ
reported total none = failure
reported total (some rows) = success (total + whole_size rows)

reported-before :
    (total : ℕ) (row : List VerifyRecord) (o : Option (List (List VerifyRecord)))
    → reported (total + length row) o ≡ reported total (before_rows row o)
reported-before total row none = refl
reported-before total row (some rows) = ap success (omega arith)

check_chunks_lem :
    {size : ℕ} (parts : List (List VerifyRecord)) (files : List LongFile) (t : Table)
    (carry : Previous) (total : ℕ)
    → IsTable size t
    → All (λ f. f.rest < 8) files
    → check_chunks size parts files t carry total
      ≡ reported total (accept_all size parts files carry)
unfolding check_chunks accept_all
check_chunks_lem [] files t carry total table h = ap success (omega arith)
check_chunks_lem (records ∷ parts) [] t carry total table h = refl
check_chunks_lem {size} (records ∷ parts) (file ∷ files) t carry total table h =
    elim (check_chunk_lem records file t carry total table h.0) [
      | inl (bad, fails) ↦ rw (bad, fails) refl
      | inr (row, t', good, passes, table') ↦
          rw (good, passes)
            (check_chunks_lem parts files t' (last_of carry row) (total + length row) table' h.1
              ∙ reported-before total row (accept_all size parts files (last_of carry row)))
    ]

new_table-IsTable : (size : ℕ) → IsTable size (new_table size)
unfolding new_table
new_table-IsTable size = record {
  positions_size = length-replicate size _;
  next_ranks_size = length-replicate size _;
  first_keys_size = length-replicate size _;
  seen_size = length-replicate ((size + 7) / 8) _;
  seen_bytes =
      rw (append-nil (replicate ((size + 7) / 8) zero)) at (zeros-IsBytes ((size + 7) / 8) [] tt);
}

-- On suffix array files that end less than 8 bytes behind an entry, verify_check accesses no array
-- out of bounds, and is a SUCCESS that reports the number of the records exactly if, for each
-- chunk, its file ends with an entry and has at most chunk-size entries, the records fill each
-- slot below the number of entries once, and along the slots their positions are the entries and
-- each record, the first one after those of the chunks before, is strictly above the one before
-- it. Otherwise it is a FAILURE.
pub verify_check_lem :
    (size : ℕ) (parts : List (List VerifyRecord)) (files : List LongFile)
    → All (λ f. f.rest < 8) files
    → verify_check size parts files ≡ reported 0 (accept_all size parts files none)
unfolding verify_check
verify_check_lem size parts files h =
    check_chunks_lem parts files (new_table size) none 0 (new_table-IsTable size) h
