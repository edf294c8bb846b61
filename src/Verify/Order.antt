-- ===== src/Verify/Order.antt =====
-- The rows that verify_check of src/verify.c accepts, one after the other: their ranks and their keys
-- ascend.
use suffix_rank.Base.{
  ℕ, suc, ◌≤◌, ◌≡◌, refl, true, List, [], ◌∷◌, map, Option, none, some, arith, length, replicate,
  lt→leb, ◌==◌, eq→==, ne→==, Bool-cases, inl, inr, append-nil, Option-cases, le→leb,
}
use mathlib.Core.List.{Perm}
use native.Mathlib.Decide.{dec_lt, ℕ_discrete}
use suffix_rank.Verify.Records.{VerifyRecord}
use suffix_rank.Verify.Check.{LongFile, Previous}
use suffix_rank.Verify.Check.Cells.{
  place_cells, place_cells_lem, filled, filled-replicate, AreAtSlots, replicate-AreAtSlots,
}
use suffix_rank.Verify.Check.Rows.{last_of, row_ok, arrange}
use suffix_rank.Verify.Check.Accept.{accepted, accept_all, before_rows}
use suffix_rank.Verify.Check.Correct.{arranged}

-- The records of a row at slots i, i + 1, ...
abbrev pub InSlots : ℕ → List VerifyRecord → Type 0
InSlots i [] = Unit
InSlots i (r ∷ row) = (r.slot ≡ i) × InSlots (suc i) row

some-InSlots : (i : ℕ) (row : List VerifyRecord) → AreAtSlots i (map some row) → InSlots i row
some-InSlots i [] h = tt
some-InSlots i (r ∷ row) h = (h.0, some-InSlots (suc i) row h.1)

-- One accepted row.
pub record IsRow (size : ℕ) (records : List VerifyRecord) (file : LongFile) (carry : Previous)
    (row : List VerifyRecord) : Type 0 where
  pub perm : Perm row records
  pub slots : InSlots 0 row
  pub fits : length row ≤ size
  pub passes : row_ok carry row file.entries ≡ true

pub accepted-IsRow :
    (size : ℕ) (records : List VerifyRecord) (file : LongFile) (carry : Previous)
    (row : List VerifyRecord)
    → accepted size records file carry ≡ some row
    → IsRow size records file carry row
unfolding accepted arrange
accepted-IsRow size records file carry row e =
    let n = length file.entries in
    elim (Bool-cases (file.rest == 0)) [
      | inr torn ↦ let e' = rw torn at e in cc
      | inl whole ↦ elim (dec_lt size n) [
        | yes long ↦ let e' = rw (whole, lt→leb n size long) at e in cc
        | no short ↦ elim (Option-cases (place_cells (replicate n none) records)) [
          | inl bad ↦ let e' = rw (whole, le→leb n size (omega arith), bad) at e in cc
          | inr (cells, placed) ↦ elim (ℕ_discrete (length records) n) [
            | no differ ↦
                let e' =
                  rw (whole, le→leb n size (omega arith), placed, ne→== (length records) n differ)
                    at e in
                cc
            | yes same ↦ elim (Bool-cases (row_ok carry (filled cells) file.entries)) [
              | inr bad ↦
                  let e' =
                    rw
                      (
                        whole,
                        le→leb n size (omega arith),
                        placed,
                        eq→== (length records) n same,
                        bad,
                      )
                      at e in
                  cc
              | inl good ↦
                  let e' : some (filled cells) ≡ some row =
                    rw
                      (
                        whole,
                        le→leb n size (omega arith),
                        placed,
                        eq→== (length records) n same,
                        good,
                      )
                      at e in
                  let own : filled cells ≡ row = cc in
                  let (full, all) = arranged n records cells placed same in
                  let (_, at_slots, _, perm) =
                    place_cells_lem (replicate n none) records cells placed
                      (replicate-AreAtSlots 0 n) in
                  rw (← own) (record {
                    perm = rw (filled-replicate n, append-nil records) at perm;
                    slots = some-InSlots 0 (filled cells) (rw (← all) at_slots);
                    fits = omega arith;
                    passes = good;
                  })
            ]
          ]
        ]
      ]
    ]

-- The accepted rows of all chunks.
abbrev pub AreRows :
    ℕ → Previous → List (List VerifyRecord) → List LongFile → List (List VerifyRecord) → Type 0
AreRows size carry [] files [] = Unit
AreRows size carry [] files (row ∷ rows) = ⊥
AreRows size carry (records ∷ parts) [] rows = ⊥
AreRows size carry (records ∷ parts) (file ∷ files) [] = ⊥
AreRows size carry (records ∷ parts) (file ∷ files) (row ∷ rows) =
    IsRow size records file carry row × AreRows size (last_of carry row) parts files rows

before-inv :
    (row : List VerifyRecord) (o : Option (List (List VerifyRecord)))
    (rows : List (List VerifyRecord))
    → before_rows row o ≡ some rows
    → (later : List (List VerifyRecord)) × (o ≡ some later) × (rows ≡ row ∷ later)
before-inv row none rows e = cc
before-inv row (some later) rows e = (later, refl, cc)

pub accept_all-AreRows :
    (size : ℕ) (carry : Previous) (parts : List (List VerifyRecord)) (files : List LongFile)
    (rows : List (List VerifyRecord))
    → accept_all size parts files carry ≡ some rows
    → AreRows size carry parts files rows
unfolding accept_all
accept_all-AreRows size carry [] files rows e = let none_left : rows ≡ [] = cc in rw none_left tt
accept_all-AreRows size carry (records ∷ parts) [] rows e = cc
accept_all-AreRows size carry (records ∷ parts) (file ∷ files) rows e =
    elim (Option-cases (accepted size records file carry)) [
      | inl bad ↦ let e' = rw bad at e in cc
      | inr (row, good) ↦
          let (later, e', shape) =
            before-inv row (accept_all size parts files (last_of carry row)) rows (rw good at e) in
          rw shape (
            accepted-IsRow size records file carry row good,
            accept_all-AreRows size (last_of carry row) parts files later e',
          )
    ]
