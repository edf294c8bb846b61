-- ===== src/Verify/Partition/Correct.antt =====
-- verify_partition of src/verify.c as a whole.
use suffix_rank.Base.{
  ℕ, zero, suc, ◌+◌, ◌-◌, ◌*◌, ◌/◌, ◌^◌, ◌<◌, ◌≤◌, ◌≡◌, refl, ap, sym, ◌∙◌, false, List, [], ◌∷◌,
  map, Option, none, some, arith, length, replicate, if◌then◌else◌, All, length-replicate, le→ltb,
  ne→==, ◌==◌,
}
use native.Mathlib.Nat.{div-lt_iff_lt-mul}
use native.Mathlib.Decide.{dec_lt}
use suffix_rank.Format.{Int40, i40_load}
use suffix_rank.Input.{InputStream, input_stream_open, input_stream_next}
use suffix_rank.Verify.Records.{Verdict, success, failure, ◌>>=◌, ◌>>◌, access, VerifyRecord}
use suffix_rank.Verify.Partition.{empty_of, verify_partition}
use suffix_rank.Verify.Partition.Spec.{
  keys, next_of, parts, extend, extend-nil, extend-cons, extend-replicate, accepts, accepts-cons,
  accepts-bad, accepts-short,
}
use suffix_rank.Verify.Partition.Writer.{
  PartitionWriter, IsOpen, emitted, pw_close, pw_init, pw_init_lem, pw_close-eq-emitted,
}
use suffix_rank.Files.Chunked.{IsChunked, all_of}
use suffix_rank.Verify.Partition.Loop.{
  over, keys_left, one_less, ranks_in, partition_all, partition_chunks-eq-all,
}
use suffix_rank.Verify.Partition.Step.{
  AreOpen, partition_position-none, partition_position-bad, partition_position_lem, next_none,
  next_some,
}

-- What stands behind the loops.
abbrev after_loops : InputStream → List PartitionWriter → Verdict (List (List VerifyRecord))
after_loops stream writers = do
  (status, stream') ← access (input_stream_next stream)
  empty_of status
  success (map pw_close writers)

closed-eq-emitted : (writers : List PartitionWriter) → map pw_close writers ≡ map emitted writers
closed-eq-emitted [] = refl
closed-eq-emitted (w ∷ writers) = rw (pw_close-eq-emitted w, closed-eq-emitted writers) refl

IsLeft : Option (List ℕ) → Type 0
IsLeft none = Unit
IsLeft (some bytes) = All (λ b. b < 256) bytes

one_less-IsLeft : (bytes : List ℕ) → All (λ b. b < 256) bytes → IsLeft (one_less (some bytes))
unfolding IsLeft
one_less-IsLeft [] h = tt
one_less-IsLeft (b ∷ bytes) h = h.1

length-keys : (bytes : List ℕ) → length (keys bytes) ≡ length bytes + 1
length-keys [] = omega arith
length-keys (b ∷ bytes) = omega (arith, length-keys bytes)

module _ (size total_chunks : ℕ) (positive : 0 < size) (small : size < 2 ^ 32) where
  abbrev verdict : ℕ → List ℕ → List ℕ → List PartitionWriter → Verdict (List (List VerifyRecord))
  verdict position rs ks writers =
      if accepts (total_chunks * size) rs ks
      then success (extend size 0 position rs ks (map emitted writers))
      else failure

  loop_lem :
      (position : ℕ) (rs : List Int40) (o : Option (List ℕ)) (writers : List PartitionWriter)
      → IsLeft o
      → AreOpen total_chunks writers
      → (partition_all size total_chunks position rs (over o) writers >>= λ (s, ws).
          after_loops s ws)
        ≡ verdict position (ranks_in rs) (keys_left o) writers
  unfolding partition_all IsLeft
  loop_lem position [] none writers h open_ws = rw next_none (
      ap success
        (closed-eq-emitted writers ∙ sym (extend-nil size 0 position (map emitted writers) [])))
  loop_lem position [] (some bytes) writers h open_ws =
      let (x, got, _) = next_some bytes in
      let e : (0 == length (keys bytes)) ≡ false =
        ne→== 0 _ (λ z. omega (arith, length-keys bytes)) in
      rw (got, e) refl
  loop_lem position (r ∷ rs) none writers h open_ws =
      rw
        (
          partition_position-none size total_chunks position (next_of (ranks_in rs)) r writers,
          accepts-short (total_chunks * size) (i40_load r) (ranks_in rs),
        )
        refl
  loop_lem position (r ∷ rs) (some bytes) writers h open_ws =
      let rank = i40_load r in
      let ranks = ranks_in rs in
      elim (dec_lt (rank / size) total_chunks) [
        | yes inside ↦
            let (key, writers', e, open_ws', grown, key_eq) =
              partition_position_lem size total_chunks position ranks r bytes writers positive small
                h open_ws inside in
            let left = keys_left (one_less (some bytes)) in
            let rank_lt = (div-lt_iff_lt-mul positive).0 inside in
            rw (e, key_eq, accepts-cons (total_chunks * size) rank ranks key left rank_lt)
              (loop_lem (position + 1) rs (one_less (some bytes)) writers' (one_less-IsLeft bytes h)
                  open_ws'
                ∙ rw
                    (
                      grown,
                      extend-cons size 0 position rank ranks key left (map emitted writers)
                          (rank / size) (omega arith),
                    )
                    refl)
        | no outside ↦
            let far : total_chunks * size ≤ rank = omega (
              arith,
              λ (l : rank < total_chunks * size). outside ((div-lt_iff_lt-mul positive).1 l),
            ) in
            rw
              (
                partition_position-bad size total_chunks position (next_of ranks) r bytes writers
                    (omega arith),
                accepts-bad (total_chunks * size) rank ranks (keys bytes) far,
              )
              refl
      ]

all-IsOpen : (n : ℕ) → All IsOpen (replicate n pw_init)
all-IsOpen zero = tt
all-IsOpen (suc n) = (pw_init_lem.0, all-IsOpen n)

nothing_emitted : (n : ℕ) → map emitted (replicate n pw_init) ≡ replicate n []
nothing_emitted zero = refl
nothing_emitted (suc n) = rw (pw_init_lem.1, nothing_emitted n) refl

-- On such files of ranks and such a chunk size, verify_partition accesses no array out of bounds,
-- and is a SUCCESS exactly if there is one rank for each symbol and each rank lies in a chunk;
-- each chunk of ranks then gets, in order of position, the records of the positions whose rank
-- lies in it, with the slot, the next rank (-1 behind the last position) and the key of the
-- symbol. Otherwise it is a FAILURE.
pub verify_partition_lem :
    (size : ℕ) (bytes : List ℕ) (files : List (List Int40))
    → 0 < size
    → size < 2 ^ 32
    → All (λ b. b < 256) bytes
    → IsChunked size files
    → verify_partition size bytes files ≡ (
        if accepts (length files * size) (ranks_in (all_of files)) (keys bytes)
        then success (parts size 0 (length files) (ranks_in (all_of files)) (keys bytes))
        else failure)
unfolding verify_partition
verify_partition_lem size bytes files positive small ok chunked =
    let total = length files in
    let writers = replicate total pw_init in
    let rs = all_of files in
    let start : 0 * size ≡ 0 = omega arith in
    let open_ws : AreOpen total writers = record {
      number = length-replicate total pw_init;
      each = all-IsOpen total;
    } in
    let run =
      loop_lem size total positive small 0 rs (some bytes) writers (unfold IsLeft in ok) open_ws in
    rw
      (
        le→ltb (2 ^ 32 - 1) size (omega arith),
        partition_chunks-eq-all size total 0 files (input_stream_open bytes) writers positive
            chunked,
        start,
      )
      (run
        ∙ rw (nothing_emitted total, extend-replicate size 0 total (ranks_in rs) (keys bytes)) refl)
