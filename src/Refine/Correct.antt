-- ===== src/Refine/Correct.antt =====
-- generate_local_runs_fast of src/refine.cpp as a whole: what a chunk's nexts file holds after it.
use suffix_rank.Base.{
  ℕ, suc, ◌+◌, ◌*◌, ◌/◌, ◌<◌, ◌≤◌, ◌≡◌, refl, ◌∙◌, inl, inr, false, List, [], ◌∷◌, ◌++◌, none, some,
  arith, length, get_elem?, take, take-eq_of_le, take-cons_pos, ◌-◌, All, Gives, gives, ltb,
  Bool-cases, Option-cases,
}
use suffix_rank.Files.{fread_front_lem}
use suffix_rank.Format.{Int40, RankRun}
use suffix_rank.Format.Runs.{encode}
use suffix_rank.Format.Groups.{group, Fits}
use suffix_rank.Location.{next_rank_loc, is_empty_iff}
use suffix_rank.Refine.{success, load_next_ranks, generate_local_runs}
use suffix_rank.Refine.Scan.{ranks_at, scan_lem, scan-overflow}
use suffix_rank.Refine.Load.{
  Stores, next_ranks_read, length-next_ranks_read, load_next_ranks-eq-some, next_ranks_read-inside,
}

-- A third of a chunk, rounded down, holds any run of the chunk once the chunk has three entries.
third-Fits : (size m : ℕ) → 3 ≤ size → m ≤ size → Fits (size / 3) m
third-Fits size m three small = elim (Bool-cases (ltb size 6)) [
  | inl short ↦ let h : size < 6 = ground arith in (omega arith, inr (omega arith))
  | inr long ↦ let h : 6 ≤ size = ground arith in (omega arith, inl (omega arith))
]

-- The buffer that the scan reads has the rank prefix_len ahead of each live position.
abbrev pub IsNextRanks : ℕ → ℕ → (ℕ → Int40) → ℕ → ℕ → ℕ → ℕ → List Int40 → Type 0
IsNextRanks size total_length rank_of chunk_id prefix_len lo stop buffer =
    (p : ℕ)
    → lo ≤ p
    → p < stop
    → chunk_id * size + p + prefix_len < total_length
    → get_elem? buffer p ≡ some (rank_of (chunk_id * size + p + prefix_len))

pub All-map {ℓ κ κ'} :
    {A : Type ℓ} {P : A → Type κ} {Q : A → Type κ'} (xs : List A)
    → ((x : A) → P x → Q x)
    → All P xs
    → All Q xs
All-map [] f h = tt
All-map (x ∷ xs) f h = (f x h.0, All-map xs f h.1)

module _ (prefix_len size chunk_id total_chunks : ℕ) (pos : 0 < size) where
  -- A chunk with some next-rank position before the end is not EMPTY.
  live :
      chunk_id * size + prefix_len < total_chunks * size
      → (next_rank_loc prefix_len size chunk_id total_chunks).is_empty ≡ false
  live ahead = elim (Bool-cases (next_rank_loc prefix_len size chunk_id total_chunks).is_empty) [
    | inl e ↦
        let past = (is_empty_iff prefix_len size chunk_id total_chunks pos).0 e in
        absurd (omega arith)
    | inr e ↦ e
  ]

module _ (ranks : ℕ → List Int40) (size total_length total_chunks : ℕ) (rank_of : ℕ → Int40)
    (stored : Stores ranks size total_length rank_of)
    (covered : total_length ≤ total_chunks * size) where
  -- A chunk that lists a position, with the buffer that it leaves.
  pub generate_local_runs_live :
      (chunk_id prefix_len lo stop p : ℕ) (sa : List ℕ) (nexts runs : List RankRun)
      (next_ranks : List Int40)
      → 3 ≤ size
      → chunk_id * size + prefix_len < total_chunks * size
      → stop ≤ size
      → length next_ranks ≡ size
      → length runs ≡ size / 3
      → suc (length sa) ≤ size
      → All (λ i. i < size) (p ∷ sa)
      → let buffer =
          next_ranks_read ranks
            (next_rank_loc prefix_len size chunk_id total_chunks)
            total_chunks
            size
            lo
            stop
            next_ranks in
        generate_local_runs ranks
          (p ∷ sa)
          nexts
          total_chunks
          chunk_id
          prefix_len
          size
          lo
          stop
          next_ranks
          runs
        ≡ some (success, nexts ++ encode (group (ranks_at buffer (p ∷ sa))), buffer)
  unfolding generate_local_runs
  generate_local_runs_live chunk_id prefix_len lo stop p sa nexts runs next_ranks three ahead fits
        buffered allocated short inside =
      let pos : 0 < size = omega arith in
      let loc = next_rank_loc prefix_len size chunk_id total_chunks in
      let buffer = next_ranks_read ranks loc total_chunks size lo stop next_ranks in
      let size' : length buffer ≡ size =
        length-next_ranks_read ranks loc total_chunks size lo stop next_ranks ∙ buffered in
      simp (live prefix_len size chunk_id total_chunks pos ahead) (
        rw
          (
            load_next_ranks-eq-some ranks loc total_chunks size lo stop next_ranks (omega arith),
            fread_front_lem size (p ∷ sa),
            take-eq_of_le size (p ∷ sa) short,
            scan_lem (size / 3) buffer p sa runs nexts
                (third-Fits size (suc (length sa)) three short) allocated
                (All-map (p ∷ sa) (λ i h. rw size' h) inside),
          )
          refl)

  -- With chunks of at least three entries, for a chunk that is not EMPTY and lists between one and
  -- size positions of the chunk, generate_local_runs_fast is a SUCCESS that appends the encoding
  -- of the maximal groups of equal next ranks along the suffix array to the nexts file, and its
  -- buffer has the stored rank prefix_len positions ahead of every position of the window for
  -- which that position is in the text.
  pub generate_local_runs_lem :
      (chunk_id prefix_len lo stop p : ℕ) (sa : List ℕ) (nexts runs : List RankRun)
      (next_ranks : List Int40)
      → 3 ≤ size
      → chunk_id * size + prefix_len < total_chunks * size
      → stop ≤ size
      → length next_ranks ≡ size
      → length runs ≡ size / 3
      → suc (length sa) ≤ size
      → All (λ i. i < size) (p ∷ sa)
      → Gives
          (λ (s, file, buffer).
            (s ≡ success)
            × (file ≡ nexts ++ encode (group (ranks_at buffer (p ∷ sa))))
            × IsNextRanks size total_length rank_of chunk_id prefix_len lo stop buffer)
          (generate_local_runs ranks
            (p ∷ sa)
            nexts
            total_chunks
            chunk_id
            prefix_len
            size
            lo
            stop
            next_ranks
            runs)
  generate_local_runs_lem chunk_id prefix_len lo stop p sa nexts runs next_ranks three ahead fits
        buffered allocated short inside =
      rw
        (generate_local_runs_live chunk_id prefix_len lo stop p sa nexts runs next_ranks three ahead
          fits buffered allocated short inside)
        (gives (
          refl,
          refl,
          λ i low high here.
              next_ranks_read-inside ranks size total_length total_chunks rank_of stored
                (omega arith) covered chunk_id prefix_len lo stop i next_ranks low high fits
                buffered here,
        ))

-- With chunks of one or two entries, for a chunk that is not EMPTY and has a suffix array entry,
-- generate_local_runs_fast on a runs buffer of size / 3 records does not end without an access
-- outside a buffer.
pub generate_local_runs_overflow :
    (ranks : ℕ → List Int40) (size total_chunks chunk_id prefix_len lo stop p : ℕ) (sa : List ℕ)
    (nexts runs : List RankRun) (next_ranks : List Int40)
    → 0 < size
    → size < 3
    → chunk_id * size + prefix_len < total_chunks * size
    → length runs ≡ size / 3
    → generate_local_runs ranks
        (p ∷ sa)
        nexts
        total_chunks
        chunk_id
        prefix_len
        size
        lo
        stop
        next_ranks
        runs
      ≡ none
unfolding generate_local_runs
generate_local_runs_overflow ranks size total_chunks chunk_id prefix_len lo stop p sa nexts runs
      next_ranks pos tiny ahead allocated =
    let empty_buffer : runs ≡ [] = grind arith in
    let no_room : size / 3 ≡ 0 = omega arith in
    let loc = next_rank_loc prefix_len size chunk_id total_chunks in
    simp (live prefix_len size chunk_id total_chunks pos ahead) (
      rw (no_room, empty_buffer)
        (elim (Option-cases (load_next_ranks ranks loc total_chunks size lo stop next_ranks)) [
          | inl fault ↦ rw fault refl
          | inr (buffer, read) ↦
              rw (read, fread_front_lem size (p ∷ sa), take-cons_pos size p sa pos)
                (rw (scan-overflow buffer p (take (size - 1) sa) nexts) refl)
        ]))
