-- ===== src/Verify/Check/Accept.antt =====
-- The rows that verify_check of src/verify.c is to accept, and the table before a chunk.
use suffix_rank.Base.{
  ℕ, zero, suc, ◌+◌, ◌/◌, ◌%◌, ◌^◌, ◌<◌, ◌≤◌, ◌≡◌, refl, ap, sym, Bool, true, false, ◌&&◌, List, [],
  ◌∷◌, ◌++◌, Option, none, some, arith, length, get_or, drop, replicate, ◌==◌, leb, length-append,
  length-drop, length-replicate,
}
use native.Mathlib.Nat.{zero-div}
use suffix_rank.Base.Int.{ℤ}
use suffix_rank.Verify.Bits.{IsBytes}
use suffix_rank.Verify.Records.{VerifyRecord}
use suffix_rank.Verify.Check.{LongFile, Table, Previous, clear}
use suffix_rank.Verify.Check.Cells.{filled-replicate}
use suffix_rank.Verify.Check.Place.{IsTable, Holds}
use suffix_rank.Verify.Check.Rows.{last_of, row_ok, arrange}

abbrev pub row_if : Bool → Option (List VerifyRecord) → Option (List VerifyRecord)
row_if true row = row
row_if false row = none

abbrev pub tested : Previous → List ℤ → Option (List VerifyRecord) → Option (List VerifyRecord)
tested carry entries none = none
tested carry entries (some row) = row_if (row_ok carry row entries) (some row)

-- The row of a chunk whose file and records are right.
unfoldable pub accepted : ℕ → List VerifyRecord → LongFile → Previous → Option (List VerifyRecord)
accepted size records file carry =
    row_if (file.rest == 0 && leb (length file.entries) size)
      (tested carry file.entries (arrange (length file.entries) records))

abbrev pub before_rows :
    List VerifyRecord → Option (List (List VerifyRecord)) → Option (List (List VerifyRecord))
before_rows row none = none
before_rows row (some rows) = some (row ∷ rows)

abbrev pub for_row :
    Option (List VerifyRecord)
    → (List VerifyRecord → Option (List (List VerifyRecord)))
    → Option (List (List VerifyRecord))
for_row none f = none
for_row (some row) f = f row

-- The rows of all chunks.
unfoldable pub accept_all :
    ℕ → List (List VerifyRecord) → List LongFile → Previous → Option (List (List VerifyRecord))
accept_all size [] files carry = some []
accept_all size (records ∷ parts) [] carry = none
accept_all size (records ∷ parts) (file ∷ files) carry =
    for_row (accepted size records file carry)
      (λ row. before_rows row (accept_all size parts files (last_of carry row)))

get_or-zeros : (k : ℕ) (bits : List ℕ) (i : ℕ) → i < k → get_or (replicate k 0 ++ bits) i 0 ≡ 0
get_or-zeros zero bits i h = absurd (omega arith)
get_or-zeros (suc k) bits zero h = refl
get_or-zeros (suc k) bits (suc i) h = get_or-zeros k bits i (omega arith)

pub zeros-IsBytes : (k : ℕ) (bits : List ℕ) → IsBytes bits → IsBytes (replicate k 0 ++ bits)
zeros-IsBytes zero bits h = h
zeros-IsBytes (suc k) bits h = (omega arith, zeros-IsBytes k bits h)

drop-IsBytes : (k : ℕ) (bits : List ℕ) → IsBytes bits → IsBytes (drop k bits)
drop-IsBytes zero bits h = h
drop-IsBytes (suc k) [] h = tt
drop-IsBytes (suc k) (b ∷ bits) h = drop-IsBytes k bits h.1

clear-IsBytes : (k : ℕ) (bits : List ℕ) → IsBytes bits → IsBytes (clear k bits)
clear-IsBytes k bits h = zeros-IsBytes k (drop k bits) (drop-IsBytes k bits h)

abbrev pub no_record : Option VerifyRecord
no_record = none

get_or-replicate : (n i : ℕ) → get_or {A = Option VerifyRecord} (replicate n none) i none ≡ none
get_or-replicate zero i = refl
get_or-replicate (suc n) zero = refl
get_or-replicate (suc n) (suc i) = get_or-replicate n i

zero_bit : (i : ℕ) → 0 / 2 ^ i % 2 ≡ 0
zero_bit i = rw (zero-div (2 ^ i)) refl

get_or-clear : (k : ℕ) (bits : List ℕ) (i : ℕ) → i < k → get_or (clear k bits) i 0 ≡ 0
get_or-clear k bits i h = get_or-zeros k (drop k bits) i h

module _ {size : ℕ} (t : Table) (table : IsTable size t) (n : ℕ) (fits : n ≤ size) where
  abbrev cleared : Table
  cleared = record t { seen = clear ((n + 7) / 8) t.seen; placed = 0 }

  pub cleared-Holds : Holds size n cleared (replicate n none)
  cleared-Holds = record {
    table = record {
      positions_size = table.positions_size;
      next_ranks_size = table.next_ranks_size;
      first_keys_size = table.first_keys_size;
      seen_size = omega (
        arith,
        length-append (replicate ((n + 7) / 8) 0) (drop ((n + 7) / 8) t.seen),
        length-replicate ((n + 7) / 8) (let z : ℕ = 0 in z),
        length-drop ((n + 7) / 8) t.seen,
        table.seen_size,
      );
      seen_bytes = clear-IsBytes ((n + 7) / 8) t.seen table.seen_bytes;
    };
    number = length-replicate n none;
    within = fits;
    count = sym (ap length (filled-replicate n));
    each = λ i hi. rw (get_or-replicate n i) (
        let byte = get_or-clear ((n + 7) / 8) t.seen (i / 8) (omega arith) in
        rw byte (zero_bit (i % 8)));
  }
