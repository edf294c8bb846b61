-- ===== src/Refine/Load.antt =====
-- The next ranks that src/refine.cpp loads, against the ranks of the positions prefix_len ahead.
use native.Mathlib.Nat.{lt_of_mul-lt-mul_right}
use suffix_rank.Base.{
  ℕ, ◌+◌, ◌-◌, ◌*◌, ◌<◌, ◌≤◌, ◌≡◌, refl, ap, ◌∙◌, inl, inr, List, some, arith, length, get_elem?,
  take, drop, get_elem?-take, get_elem?-drop, ltb, lt→ltb, lt→leb, ◌==◌, ◌&&◌, if◌then◌else◌,
  Bool-cases, leb,
}
use suffix_rank.Format.{Int40}
use suffix_rank.Location.{NextRankLoc, next_rank_loc, off_lt, next_position}
use suffix_rank.Files.{fread_at, fread_lem, length-fread_at, fread_at-before, fread_at-inside}
use suffix_rank.Refine.{read_base, read_spill, load_next_ranks}

-- What the calls of fread leave in the buffer, when they stay inside it.
ranks_read : List Int40 → ℕ → List Int40 → ℕ → ℕ → List Int40
ranks_read buffer at file from count = fread_at buffer at (take count (drop from file))

base_read : (ℕ → List Int40) → NextRankLoc → ℕ → ℕ → ℕ → List Int40 → List Int40
base_read ranks loc size lo stop buffer =
    let p_split = size - loc.off in
    let a_stop = if ltb stop p_split then stop else p_split in
    if ltb lo a_stop
    then ranks_read buffer lo (ranks loc.base_chunk) (loc.off + lo) (a_stop - lo)
    else buffer

spill_read : (ℕ → List Int40) → NextRankLoc → ℕ → ℕ → ℕ → ℕ → List Int40 → List Int40
spill_read ranks loc total_chunks size lo stop buffer =
    let p_split = size - loc.off in
    let b_lo = if ltb p_split lo then lo else p_split in
    if ltb b_lo stop && ltb (loc.base_chunk + 1) total_chunks
    then ranks_read buffer b_lo (ranks (loc.base_chunk + 1)) (loc.off + b_lo - size) (stop - b_lo)
    else buffer

pub next_ranks_read : (ℕ → List Int40) → NextRankLoc → ℕ → ℕ → ℕ → ℕ → List Int40 → List Int40
next_ranks_read ranks loc total_chunks size lo stop buffer =
    if leb stop lo
    then buffer
    else if loc.off == 0
    then ranks_read buffer lo (ranks loc.base_chunk) lo (stop - lo)
    else spill_read ranks loc total_chunks size lo stop (base_read ranks loc size lo stop buffer)

ranks_read-before :
    (buffer : List Int40) (at : ℕ) (file : List Int40) (from count p : ℕ)
    → p < at
    → get_elem? (ranks_read buffer at file from count) p ≡ get_elem? buffer p
unfolding ranks_read
ranks_read-before buffer at file from count p h =
    fread_at-before buffer at (take count (drop from file)) p h

length-ranks_read :
    (buffer : List Int40) (at : ℕ) (file : List Int40) (from count : ℕ)
    → length (ranks_read buffer at file from count) ≡ length buffer
unfolding ranks_read
length-ranks_read buffer at file from count =
    length-fread_at buffer at (take count (drop from file))

ranks_read-inside :
    (buffer : List Int40) (at : ℕ) (file : List Int40) (from count p j : ℕ) (r : Int40)
    → at ≤ p
    → p < at + count
    → p < length buffer
    → j + at ≡ from + p
    → get_elem? file j ≡ some r
    → get_elem? (ranks_read buffer at file from count) p ≡ some r
unfolding ranks_read
ranks_read-inside buffer at file from count p j r lo hi room e got =
    let i = p - at in
    let index : from + i ≡ j = omega arith in
    let entry : get_elem? (take count (drop from file)) i ≡ some r =
      get_elem?-take count (drop from file) i (omega arith)
      ∙ get_elem?-drop from file i
      ∙ rw index got in
    fread_at-inside buffer at (take count (drop from file)) i p r (omega arith) room entry

-- The ranks files cut the global rank array into chunks of `size` entries.
abbrev pub Stores : (ℕ → List Int40) → ℕ → ℕ → (ℕ → Int40) → Type 0
Stores ranks size total_length rank_of =
    (c i : ℕ)
    → i < size
    → c * size + i < total_length
    → get_elem? (ranks c) i ≡ some (rank_of (c * size + i))

module _ (ranks : ℕ → List Int40) (loc : NextRankLoc) (size total_chunks lo stop p : ℕ)
    (buffer : List Int40) (r : Int40) (low : lo ≤ p) (high : p < stop)
    (room : p < length buffer) where
  base_read-inside :
      loc.off + p < size
      → get_elem? (ranks loc.base_chunk) (loc.off + p) ≡ some r
      → get_elem? (base_read ranks loc size lo stop buffer) p ≡ some r
  unfolding base_read
  base_read-inside h got =
      let a_stop : ℕ = if ltb stop (size - loc.off) then stop else size - loc.off in
      let within : p < a_stop = ground arith in
      rw (lt→ltb lo a_stop (omega arith)) (
        ranks_read-inside buffer lo (ranks loc.base_chunk) (loc.off + lo) (a_stop - lo) p
          (loc.off + p) r low (omega arith) room (omega arith) got)

  spill_read-before :
      loc.off + p < size
      → get_elem? (spill_read ranks loc total_chunks size lo stop buffer) p ≡ get_elem? buffer p
  unfolding spill_read
  spill_read-before h =
      let b_lo : ℕ = if ltb (size - loc.off) lo then lo else size - loc.off in
      let later : p < b_lo = ground arith in
      elim (Bool-cases (ltb b_lo stop && ltb (loc.base_chunk + 1) total_chunks)) [
        | inl reads ↦ rw reads (
            ranks_read-before buffer b_lo (ranks (loc.base_chunk + 1)) (loc.off + b_lo - size)
              (stop - b_lo) p later)
        | inr skips ↦ rw skips refl
      ]

  spill_read-inside :
      loc.off < size
      → size ≤ loc.off + p
      → loc.base_chunk + 1 < total_chunks
      → get_elem? (ranks (loc.base_chunk + 1)) (loc.off + p - size) ≡ some r
      → get_elem? (spill_read ranks loc total_chunks size lo stop buffer) p ≡ some r
  unfolding spill_read
  spill_read-inside aligned h more got =
      let b_lo : ℕ = if ltb (size - loc.off) lo then lo else size - loc.off in
      let before : b_lo ≤ p = ground arith in
      let spills : size ≤ loc.off + b_lo = ground arith in
      rw (lt→ltb b_lo stop (omega arith), lt→ltb (loc.base_chunk + 1) total_chunks more)
        (ranks_read-inside buffer b_lo (ranks (loc.base_chunk + 1)) (loc.off + b_lo - size)
          (stop - b_lo) p (loc.off + p - size) r before (omega arith) room (omega arith) got)

length-base_read :
    (ranks : ℕ → List Int40) (loc : NextRankLoc) (size lo stop : ℕ) (buffer : List Int40)
    → length (base_read ranks loc size lo stop buffer) ≡ length buffer
unfolding base_read
length-base_read ranks loc size lo stop buffer =
    let a_stop : ℕ = if ltb stop (size - loc.off) then stop else size - loc.off in
    elim (Bool-cases (ltb lo a_stop)) [
      | inl reads ↦
          rw reads (length-ranks_read buffer lo (ranks loc.base_chunk) (loc.off + lo) (a_stop - lo))
      | inr skips ↦ rw skips refl
    ]

length-spill_read :
    (ranks : ℕ → List Int40) (loc : NextRankLoc) (total_chunks size lo stop : ℕ)
    (buffer : List Int40)
    → length (spill_read ranks loc total_chunks size lo stop buffer) ≡ length buffer
unfolding spill_read
length-spill_read ranks loc total_chunks size lo stop buffer =
    let b_lo : ℕ = if ltb (size - loc.off) lo then lo else size - loc.off in
    elim (Bool-cases (ltb b_lo stop && ltb (loc.base_chunk + 1) total_chunks)) [
      | inl reads ↦ rw reads (
          length-ranks_read buffer b_lo (ranks (loc.base_chunk + 1)) (loc.off + b_lo - size)
            (stop - b_lo))
      | inr skips ↦ rw skips refl
    ]

pub length-next_ranks_read :
    (ranks : ℕ → List Int40) (loc : NextRankLoc) (total_chunks size lo stop : ℕ)
    (buffer : List Int40)
    → length (next_ranks_read ranks loc total_chunks size lo stop buffer) ≡ length buffer
unfolding next_ranks_read
length-next_ranks_read ranks loc total_chunks size lo stop buffer = ground (
  arith,
  length-ranks_read buffer lo (ranks loc.base_chunk) lo (stop - lo),
  length-spill_read ranks loc total_chunks size lo stop (base_read ranks loc size lo stop buffer),
  length-base_read ranks loc size lo stop buffer,
)

module _ (ranks : ℕ → List Int40) (loc : NextRankLoc) (total_chunks size lo stop : ℕ)
    (buffer : List Int40) (window : lo < stop) (room : stop ≤ length buffer) where
  read_base-eq-some :
      read_base ranks loc size lo stop buffer ≡ some (base_read ranks loc size lo stop buffer)
  unfolding read_base base_read ranks_read
  read_base-eq-some =
      let a_stop : ℕ = if ltb stop (size - loc.off) then stop else size - loc.off in
      let inside : a_stop ≤ stop = ground arith in
      elim (Bool-cases (ltb lo a_stop)) [
        | inl reads ↦
            let some_read : lo < a_stop = ground arith in
            rw reads (
              fread_lem buffer lo (a_stop - lo) (drop (loc.off + lo) (ranks loc.base_chunk))
                (omega arith))
        | inr skips ↦ rw skips refl
      ]

  read_spill-eq-some :
      read_spill ranks loc total_chunks size lo stop buffer
      ≡ some (spill_read ranks loc total_chunks size lo stop buffer)
  unfolding read_spill spill_read ranks_read
  read_spill-eq-some =
      let b_lo : ℕ = if ltb (size - loc.off) lo then lo else size - loc.off in
      elim (Bool-cases (ltb b_lo stop && ltb (loc.base_chunk + 1) total_chunks)) [
        | inl reads ↦
            let some_read : b_lo < stop = ground arith in
            rw reads (
              fread_lem buffer b_lo (stop - b_lo)
                (drop (loc.off + b_lo - size) (ranks (loc.base_chunk + 1))) (omega arith))
        | inr skips ↦ rw skips refl
      ]

-- With a buffer that has the window, no read goes past its end.
pub load_next_ranks-eq-some :
    (ranks : ℕ → List Int40) (loc : NextRankLoc) (total_chunks size lo stop : ℕ)
    (buffer : List Int40)
    → stop ≤ length buffer
    → load_next_ranks ranks loc total_chunks size lo stop buffer
      ≡ some (next_ranks_read ranks loc total_chunks size lo stop buffer)
unfolding load_next_ranks next_ranks_read ranks_read
load_next_ranks-eq-some ranks loc total_chunks size lo stop buffer room =
    elim (Bool-cases (leb stop lo)) [
      | inl nothing ↦ rw nothing refl
      | inr window ↦
          let h : lo < stop = ground arith in
          let with_base = base_read ranks loc size lo stop buffer in
          rw window (elim (Bool-cases (loc.off == 0)) [
            | inl aligned ↦
                rw aligned
                  (fread_lem buffer lo (stop - lo) (drop lo (ranks loc.base_chunk)) (omega arith))
            | inr shifted ↦
                rw (shifted, read_base-eq-some ranks loc total_chunks size lo stop buffer h room)
                  (read_spill-eq-some ranks loc total_chunks size lo stop with_base h
                    (rw length-base_read room))
          ])
    ]

module _ (ranks : ℕ → List Int40) (size total_length total_chunks : ℕ) (rank_of : ℕ → Int40)
    (stored : Stores ranks size total_length rank_of) (pos : 0 < size)
    (covered : total_length ≤ total_chunks * size) where
  pub next_ranks_read-inside :
      (chunk_id prefix_len lo stop p : ℕ) (buffer : List Int40)
      → lo ≤ p
      → p < stop
      → stop ≤ size
      → length buffer ≡ size
      → chunk_id * size + p + prefix_len < total_length
      → get_elem?
          (next_ranks_read ranks
            (next_rank_loc prefix_len size chunk_id total_chunks)
            total_chunks
            size
            lo
            stop
            buffer)
          p
        ≡ some (rank_of (chunk_id * size + p + prefix_len))
  unfolding next_ranks_read
  next_ranks_read-inside chunk_id prefix_len lo stop p buffer low high fits size' inside =
      let loc = next_rank_loc prefix_len size chunk_id total_chunks in
      let room : p < length buffer = omega arith in
      let r = rank_of (chunk_id * size + p + prefix_len) in
      let off : loc.off < size = off_lt prefix_len size chunk_id total_chunks pos in
      let at : chunk_id * size + p + prefix_len ≡ loc.base_chunk * size + (loc.off + p) =
        next_position prefix_len size chunk_id total_chunks pos p in
      let with_base = base_read ranks loc size lo stop buffer in
      let base_room : p < length with_base = rw length-base_read room in
      let entry : (c j : ℕ)
          → j < size
          → c * size + j ≡ chunk_id * size + p + prefix_len
          → get_elem? (ranks c) j ≡ some r =
        λ c j h e. stored c j h (omega arith) ∙ ap (λ q. some (rank_of q)) e in
      rw (lt→leb stop lo (omega arith)) (elim (Bool-cases (loc.off == 0)) [
        | inl aligned ↦
            let zero_off : loc.off ≡ 0 = ground arith in
            rw aligned (
              ranks_read-inside buffer lo (ranks loc.base_chunk) lo (stop - lo) p p r low
                (omega arith) room (omega arith)
                (entry loc.base_chunk p (omega arith) (omega arith)))
        | inr shifted ↦ rw shifted (elim (Bool-cases (ltb (loc.off + p) size)) [
          | inl here ↦
              let h : loc.off + p < size = ground arith in
              spill_read-before ranks loc size total_chunks lo stop p with_base r low high base_room
                h
              ∙ base_read-inside ranks loc size total_chunks lo stop p buffer r low high room h
                  (entry loc.base_chunk (loc.off + p) h (omega arith))
          | inr behind ↦
              let h : size ≤ loc.off + p = ground arith in
              let next : (loc.base_chunk + 1) * size ≤ chunk_id * size + p + prefix_len =
                omega arith in
              let more : loc.base_chunk + 1 < total_chunks =
                lt_of_mul-lt-mul_right size (omega arith) in
              spill_read-inside ranks loc size total_chunks lo stop p with_base r low high base_room
                off h more
                (entry (loc.base_chunk + 1) (loc.off + p - size) (omega arith) (omega arith))
        ])
      ])
