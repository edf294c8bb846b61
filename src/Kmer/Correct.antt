-- ===== src/Kmer/Correct.antt =====
-- run_passes_1_and_2 of src/init.cpp as a whole.
use suffix_rank.Base.{
  ltb, lex_ltb, length-map, Gives-map, Gives-inv, ℕ, ◌+◌, ◌^◌, ◌<◌, ◌≤◌, ◌≡◌, ◌⊎◌, refl, List, [],
  ◌∷◌, map, none, some, arith, length, drop, Gives, Gives-bind, All,
}
use suffix_rank.Kmer.Alphabet.{count_bytes}
use suffix_rank.Kmer.Counts.{smaller, count_bytes_lem}
use suffix_rank.Kmer.Codes.{assign_codes_lem, code_in_range, used_below}
use suffix_rank.Kmer.Select.{select_k_lem, select_k-ne-some}
use suffix_rank.Kmer.Keys.{key_of, keys_of}
use suffix_rank.Kmer.Order.{prefix, first_rank_order}
use suffix_rank.Kmer.Digits.{code_at, AreCoded}
use suffix_rank.Kmer.Ranks.{IsWritten, Succeeds, Succeeds-map, run_passes_lem}
use suffix_rank.Kmer.Passes.{FirstRanks, PassStatus, run_passes_1_and_2}
use suffix_rank.Kmer.Coded.{
  IsUsed, All-lt, byte_count, allowed, not_allowed, code_of_byte, base, base_known, code_known,
  coded_from, all-IsUsed, coded-AreDigits,
}

-- The ranks by the first k codes of the suffixes, with codes in the order of the bytes.
pub record AreFirstRanks (size : ℕ) (bytes : List ℕ) (r : FirstRanks) : Type 0 where
  pub base : ℕ
  pub code_of_byte : List ℕ
  pub base_known : base ≡ 1 + used_below bytes 256
  pub code_known :
      (b : ℕ) → b < 256 → IsUsed bytes b → code_at code_of_byte b ≡ 1 + used_below bytes b
  pub code_range : AreCoded base code_of_byte bytes
  pub code_order :
      (b c : ℕ)
      → IsUsed bytes b
      → IsUsed bytes c
      → b < c
      → c < 256
      → (0 < code_at code_of_byte b) × (code_at code_of_byte b < code_at code_of_byte c)
  pub k_positive : 0 < r.k
  pub k_maximal : size < base ^ (r.k + 1)
  pub k_fits : (r.k ≡ 1) ⊎ (base ^ r.k ≤ size)
  pub written : IsWritten size base code_of_byte bytes r
  pub ordered :
      (i j : ℕ)
      → i < length bytes
      → j < length bytes
      → (let codes = map (code_at code_of_byte) bytes in
          let keys = keys_of base r.k codes in
          ltb
            (1 + smaller (key_of base r.k (drop i codes)) keys)
            (1 + smaller (key_of base r.k (drop j codes)) keys)
          ≡ lex_ltb (prefix r.k codes i) (prefix r.k codes j))

-- For a positive chunk size, fuel for the search of k of at least that size, and an input of at
-- least one byte and of bytes below 254, run_passes_1_and_2 accesses no array out of bounds and is
-- a SUCCESS with: for each byte that occurs the code 1 plus the number of smaller byte values that
-- occur, and the base 1 plus the number of byte values that occur; the largest k for which base ^
-- k is at most the chunk size, or 1 if there is none; X files that hold each byte plus 1 and a 0;
-- and ranks files that hold, for each position, 1 plus the number of positions with a smaller
-- k-mer key, and then 0, so that ranks of positions are in the lexicographic order of the first k
-- codes with zeros behind the end. In both kinds of files all but the last are full and none is
-- empty.
pub run_passes_1_and_2_lem :
    (fuel size b : ℕ) (bytes : List ℕ)
    → 0 < size
    → size ≤ fuel
    → All (λ c. c < 254) (b ∷ bytes)
    → Gives (Succeeds (AreFirstRanks size (b ∷ bytes))) (run_passes_1_and_2 fuel size (b ∷ bytes))
unfolding run_passes_1_and_2
run_passes_1_and_2_lem fuel size b bytes sp enough small =
    let text = b ∷ bytes in
    let in_bytes = All-lt 254 256 text (omega arith) small in
    Gives-bind (count_bytes_lem text in_bytes) (λ counts hist.
      let codes = code_of_byte text counts hist in
      let B = base text counts hist in
      let coded = coded_from text counts hist text in_bytes (all-IsUsed text) in
      let first =
        code_in_range (drop 1 counts) b
          (λ z. omega (arith, byte_count text counts hist b in_bytes.0, (all-IsUsed text).0)) in
      let two : 2 ≤ B = omega (arith, first.0, first.1) in
      let (k, found, kp, maximal, fits) =
        select_k_lem fuel B size two (omega arith) (omega arith) in
      rw (allowed text counts hist small, found)
        (Gives-map (run_passes_lem size B k codes text sp kp (omega arith) coded) (λ st done.
          Succeeds-map done (λ r (wrote, same_k). record {
            base = B;
            code_of_byte = codes;
            base_known = base_known text counts hist;
            code_known = code_known text counts hist;
            code_range = coded;
            code_order = λ c d uc ud lt in_table.
                let (lo, order, _) =
                  assign_codes_lem (drop 1 counts) c d
                    (λ z. omega (arith, byte_count text counts hist c (omega arith), uc))
                    (λ z. omega (arith, byte_count text counts hist d in_table, ud)) lt in
                (lo, order);
            k_positive = omega arith;
            k_maximal = rw same_k maximal;
            k_fits = rw same_k fits;
            written = wrote;
            ordered = λ i j hi hj.
                let n = length-map (code_at codes) text in
                first_rank_order B r.k (map (code_at codes) text) i j (omega arith) (omega arith)
                  (coded-AreDigits B codes text coded) (omega arith) (omega arith);
          }))))

-- If a byte of the input is 254 or 255, run_passes_1_and_2 is a FAILURE.
pub run_passes_1_and_2_failure :
    (fuel size b : ℕ) (bytes : List ℕ)
    → All (λ c. c < 256) bytes
    → IsUsed bytes b
    → 253 < b
    → b < 256
    → run_passes_1_and_2 fuel size bytes ≡ some PassStatus.failure
unfolding run_passes_1_and_2
run_passes_1_and_2_failure fuel size b bytes in_bytes used lo hi =
    let (counts, e, hist) = Gives-inv (count_bytes_lem bytes in_bytes) in
    rw (e, not_allowed bytes counts hist b lo hi used) refl

-- On the empty input and with a positive chunk size, the search for k does not end, whatever the
-- fuel.
pub run_passes_1_and_2_empty : (fuel size : ℕ) → 0 < size → run_passes_1_and_2 fuel size [] ≡ none
unfolding run_passes_1_and_2 count_bytes
run_passes_1_and_2_empty fuel size h = rw (select_k-ne-some size h fuel 1) refl
