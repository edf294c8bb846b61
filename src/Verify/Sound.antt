-- ===== src/Verify/Sound.antt =====
-- What SUCCESS of src/verify.c means for the suffix array files.
use suffix_rank.Base.{
  ℕ, zero, suc, ◌*◌, ◌^◌, ◌<◌, ◌≡◌, refl, ap, sym, ◌∙◌, true, List, map, Option, none, some, length,
  ltb, All, Bool-cases, inl, inr, ◌==◌, ==→eq,
}
use mathlib.Core.List.{Mem, Perm}
use mathlib.Core.List.Perm
use suffix_rank.Base.Int.{pos}
use suffix_rank.Format.{Int40}
use suffix_rank.Verify.Records.{success, VerifyRecord}
use suffix_rank.Verify.Partition.Spec.{keys, parts, accepts}
use suffix_rank.Files.Chunked.{IsChunked, all_of}
use suffix_rank.Verify.Partition.Loop.{ranks_in}
use suffix_rank.Verify.Partition.Correct.{verify_partition_lem}
use suffix_rank.Verify.Check.{LongFile, verify_check}
use suffix_rank.Verify.Check.Accept.{accept_all}
use suffix_rank.Verify.Check.Correct.{reported, verify_check_lem}
use suffix_rank.Verify.Program.{verify}
use suffix_rank.Verify.Ranked.{Ranked, ranked, everyone, ranked-parts}
use suffix_rank.Verify.Order.{accept_all-AreRows}
use suffix_rank.Verify.Ascending.{less, ranked-RanksFrom, ranked-KeysFrom, less_of_rank}
use suffix_rank.Verify.Suffixes.{suffix_lt_of_less}
use suffix_rank.Verify.Entries.{
  entries_of, position_of, rows-entries, rows-perm, everyone-positions, ascend, IsSuffixArray,
}

length-parts : (size t n : ℕ) (rs ks : List ℕ) → length (parts size t n rs ks) ≡ n
length-parts size t zero rs ks = refl
length-parts size t (suc n) rs ks = ap suc (length-parts size (suc t) n rs ks)

reported-inv :
    (o : Option (List (List VerifyRecord))) (n : ℕ)
    → reported 0 o ≡ success n
    → (rows : List (List VerifyRecord)) × (o ≡ some rows)
reported-inv none n e = cc
reported-inv (some rows) n e = (rows, refl)

-- What the partition hands over, if the program ends well.
verify-inv :
    (size n : ℕ) (bytes : List ℕ) (ranks_files : List (List Int40)) (sa_files : List LongFile)
    → 0 < size
    → size < 2 ^ 32
    → All (λ b. b < 256) bytes
    → IsChunked size ranks_files
    → verify size bytes ranks_files sa_files ≡ success n
    → (accepts (length ranks_files * size) (ranks_in (all_of ranks_files)) (keys bytes) ≡ true)
      × (verify_check size
            (parts size 0 (length ranks_files) (ranks_in (all_of ranks_files)) (keys bytes))
            sa_files
          ≡ success n)
unfolding verify
verify-inv size n bytes ranks_files sa_files positive small ok chunked e =
    elim (Bool-cases (ltb 0 (length ranks_files))) [
      | inr no_chunk ↦ let e' = rw no_chunk at e in cc
      | inl chunks ↦
          let e1 =
            rw (chunks, verify_partition_lem size bytes ranks_files positive small ok chunked) at
              e in
          elim (Bool-cases
            (accepts (length ranks_files * size) (ranks_in (all_of ranks_files)) (keys bytes))) [
              | inr bad ↦ let e' = rw bad at e1 in cc
              | inl good ↦ (good, rw good at e1)
            ]
    ]

accepts-length : (bound : ℕ) (rs ks : List ℕ) → accepts bound rs ks ≡ true → length rs ≡ length ks
accepts-length bound rs ks h = elim (Bool-cases (length rs == length ks)) [
  | inl same ↦ ==→eq _ _ same
  | inr differ ↦ let h' = rw differ at h in cc
]

-- If verify ends with SUCCESS on an input of bytes below 256, files of ranks of which all but the
-- last have chunk-size entries and none is empty or too long, and equally many suffix array files
-- that end less than 8 bytes behind an entry, with a chunk size between 1 and 2 ^ 32 - 1, then the
-- suffix array files list, one after the other, every position of the input and of its sentinel
-- exactly once, in strictly ascending lexicographic order of the suffixes, with the sentinel the
-- smallest symbol.
pub verify_sound :
    (size n : ℕ) (bytes : List ℕ) (ranks_files : List (List Int40)) (sa_files : List LongFile)
    → 0 < size
    → size < 2 ^ 32
    → All (λ b. b < 256) bytes
    → IsChunked size ranks_files
    → All (λ f. f.rest < 8) sa_files
    → length sa_files ≡ length ranks_files
    → verify size bytes ranks_files sa_files ≡ success n
    → (sa : List ℕ) × (entries_of sa_files ≡ map pos sa) × IsSuffixArray (keys bytes) sa
verify_sound size n bytes ranks_files sa_files positive small ok chunked torn count e =
    let text = keys bytes in
    let total = length ranks_files in
    let rs = ranks_in (all_of ranks_files) in
    let files = parts size 0 total rs text in
    let (good, checked) =
      verify-inv size n bytes ranks_files sa_files positive small ok chunked e in
    let (rows, accepted) =
      reported-inv (accept_all size files sa_files none) n
        (sym (verify_check_lem size files sa_files torn) ∙ checked) in
    let are_rows = accept_all-AreRows size none files sa_files rows accepted in
    let l = ranked size 0 rows in
    let E = everyone size 0 rs text in
    let perm : Perm l E =
      Perm.trans (rows-perm size 0 none files sa_files rows are_rows)
        (ranked-parts size total rs text positive good) in
    let number : length rs ≡ length text = accepts-length (total * size) rs text good in
    let keys_from = ranked-KeysFrom size 0 none files sa_files rows are_rows in
    let by_rank : (a b : Ranked) → Mem a E → Mem b E → a.0 < b.0 → less a b ≡ true = λ a b ma mb.
      less_of_rank (0 * size) none l a b (ranked-RanksFrom size 0 none files sa_files rows are_rows)
        keys_from (Perm.subset (Perm.symm perm) a ma) (Perm.subset (Perm.symm perm) b mb) in
    (
      map position_of l,
      rows-entries size 0 none files sa_files rows are_rows
          (count ∙ sym (length-parts size 0 total rs text)),
      record {
        complete = rw (everyone-positions size 0 rs text number) at (Perm.map position_of perm);
        ascends =
            ascend text E l none (suffix_lt_of_less size E by_rank text rs number refl)
              (λ a m. Perm.subset perm a m) keys_from;
      },
    )
