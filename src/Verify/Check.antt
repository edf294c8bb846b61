-- ===== src/Verify/Check.antt =====
-- verify_check of src/verify.c: the records of each chunk of ranks are put at their slots, and then
-- compared with the suffix array and with their neighbours. The records of a file are read in batches
-- of READ_BATCH, here one after the other; the positions that only messages name are left out.
pub mod Cells
pub mod Place
pub mod Rows
pub mod Accept
pub mod Correct
use suffix_rank.Base.{
  ℕ, zero, suc, ◌+◌, ◌-◌, ◌*◌, ◌/◌, ◌%◌, Bool, true, false, List, [], ◌∷◌, ◌++◌, Option, none, some,
  length, get_elem?, store, drop, replicate, ◌==◌, ltb, leb, if◌then◌else◌,
}
use suffix_rank.Base.Int.{ℤ, pos, negsuc}
use suffix_rank.Verify.Bits.{bitset_get, bitset_set}
use suffix_rank.Verify.Records.{
  Verdict, success, failure, fault, ◌>>=◌, ◌>>◌, guard, access, VerifyRecord, lex_less_strict,
}

-- An opened suffixarray file: its entries, and the number of bytes behind the last whole one.
pub record LongFile : Type 0 where
  pub entries : List ℤ
  pub rest : ℕ

-- `sizeof(long)`
abbrev pub sizeof_long : ℕ
sizeof_long = 8

unfoldable pub file_record_count : LongFile → Verdict ℕ
file_record_count file = do
  let bytes = length file.entries * sizeof_long + file.rest
  guard (bytes % sizeof_long == 0)
  success (bytes / sizeof_long)

-- The arrays of verify_check.
pub record Table : Type 0 where
  pub positions : List ℕ
  pub next_ranks : List ℤ
  pub first_keys : List ℕ
  pub seen : List ℕ
  pub placed : ℕ

-- `a == b` on long
abbrev pub eq_ℤ : ℤ → ℤ → Bool
eq_ℤ (pos a) (pos b) = a == b
eq_ℤ (pos a) (negsuc b) = false
eq_ℤ (negsuc a) (pos b) = false
eq_ℤ (negsuc a) (negsuc b) = a == b

-- The body of the loop over the records.
unfoldable pub place_record : ℕ → VerifyRecord → Table → Verdict Table
place_record sa_count r t = do
  guard (ltb r.slot sa_count)
  was_seen ← access (bitset_get t.seen r.slot)
  guard (was_seen == 0)
  positions ← access (store t.positions r.slot r.position)
  next_ranks ← access (store t.next_ranks r.slot r.next_rank)
  first_keys ← access (store t.first_keys r.slot r.first_key)
  seen ← access (bitset_set t.seen r.slot)
  success (record {
    positions = positions;
    next_ranks = next_ranks;
    first_keys = first_keys;
    seen = seen;
    placed = t.placed + 1;
  })

unfoldable pub place_records : ℕ → List VerifyRecord → Table → Verdict Table
place_records sa_count [] t = success t
place_records sa_count (r ∷ rs) t = place_record sa_count r t >>= place_records sa_count rs

-- The key and the next rank of a suffix, if there is one.
abbrev pub Previous : Type 0
Previous = Option (ℕ × ℤ)

-- The suffix before entry i; carry is the last one of the chunks before.
unfoldable pub previous : Table → Previous → ℕ → Verdict Previous
previous t carry i =
    let entry : Verdict Previous = do
      next_rank ← access (get_elem? t.next_ranks (i - 1))
      first_key ← access (get_elem? t.first_keys (i - 1))
      success (some (first_key, next_rank))
    in if ltb 0 i then entry else success carry

-- `!has_prev || lex_less_strict(...)`
abbrev pub is_after : Previous → ℕ → ℤ → Bool
is_after none first_key next_rank = true
is_after (some (prev_first_key, prev_next_rank)) first_key next_rank =
    lex_less_strict prev_first_key prev_next_rank first_key next_rank

-- The body of the loop over the entries.
unfoldable pub check_entry : ℕ → Table → Previous → ℕ → ℤ → Verdict (Unit {0})
check_entry sa_count t carry i entry = do
  guard (ltb i sa_count)
  position ← access (get_elem? t.positions i)
  guard (eq_ℤ (pos position) entry)
  prev ← previous t carry i
  next_rank ← access (get_elem? t.next_ranks i)
  first_key ← access (get_elem? t.first_keys i)
  guard (is_after prev first_key next_rank)

unfoldable pub check_entries : ℕ → Table → Previous → ℕ → ℕ → List ℤ → Verdict (ℕ × ℕ)
check_entries sa_count t carry i total_verified [] = success (i, total_verified)
check_entries sa_count t carry i total_verified (entry ∷ entries) = do
  check_entry sa_count t carry i entry
  check_entries sa_count t carry (i + 1) (total_verified + 1) entries

-- `memset(bits, 0, n)`
abbrev pub clear : ℕ → List ℕ → List ℕ
clear n bits = replicate n 0 ++ drop n bits

-- The body of the loop over the chunks.
unfoldable pub check_chunk :
    ℕ → List VerifyRecord → LongFile → Table → Previous → ℕ → Verdict (Table × Previous × ℕ)
check_chunk size records file t carry total_verified = do
  sa_count ← file_record_count file
  guard (leb sa_count size)
  let cleared : Table = record t { seen = clear ((sa_count + 7) / 8) t.seen; placed = 0 }
  t' ← place_records sa_count records cleared
  guard (t'.placed == sa_count)
  (i, total_verified') ← check_entries sa_count t' carry 0 total_verified file.entries
  guard (i == sa_count)
  carry' ← previous t' carry sa_count
  success (t', carry', total_verified')

-- A file that cannot be opened ends the program with a message.
unfoldable pub check_chunks :
    ℕ → List (List VerifyRecord) → List LongFile → Table → Previous → ℕ → Verdict ℕ
check_chunks size [] files t carry total_verified = success total_verified
check_chunks size (records ∷ parts) [] t carry total_verified = failure
check_chunks size (records ∷ parts) (file ∷ files) t carry total_verified = do
  (t', carry', total_verified') ← check_chunk size records file t carry total_verified
  check_chunks size parts files t' carry' total_verified'

-- What Calloc gives.
unfoldable pub new_table : ℕ → Table
new_table size = record {
  positions = replicate size 0;
  next_ranks = replicate size (pos 0);
  first_keys = replicate size 0;
  seen = replicate ((size + 7) / 8) 0;
  placed = 0;
}

unfoldable pub verify_check : ℕ → List (List VerifyRecord) → List LongFile → Verdict ℕ
verify_check size parts files = check_chunks size parts files (new_table size) none 0
