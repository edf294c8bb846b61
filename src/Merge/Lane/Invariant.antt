-- ===== src/Merge/Lane/Invariant.antt =====
-- What a chunk's part of the merge state stands for: two queues of records still to be read, and the
-- records written so far.
use suffix_rank.Base.{
  ℕ, suc, ◌+◌, ◌<◌, ◌≤◌, ◌≡◌, refl, sym, ◌∙◌, List, [], ◌∷◌, ◌++◌, append-nil, none, some, arith,
  length, get_elem?, get_or, take, drop, take-append-drop, length-take, drop-get_elem?,
  get_elem?-eq-get_or, get_elem?-take, drop-eq_of_le, ltb, if◌then◌else◌, Bool-cases, inl, inr,
}
use suffix_rank.Files.{length-fread_at, take-fread_at}
use suffix_rank.Format.{RankRun}
use suffix_rank.Merge.{Outcome, success, empty, failure}
use suffix_rank.Merge.Lane.{Reader, Lane, Capacity, fill, flush_overlay}

abbrev pub buffered : Reader → List RankRun
buffered r = elim r.pos [ none ↦ [] | some p ↦ drop p (take r.len r.buffer) ]

-- The records of the stream that are not read yet.
abbrev pub remaining : Reader → List RankRun
remaining r = buffered r ++ r.file

pub record IsReader (capacity : ℕ) (r : Reader) : Type 0 where
  pub allocated : length r.buffer ≡ capacity
  pub room : 0 < capacity
  pub bounded : r.len ≤ capacity
  pub at_end : r.filepos ≡ none → r.file ≡ []
  pub drained : r.pos ≡ none → r.file ≡ []

-- The slots in front of the nexts buffer whose records were read.
abbrev pub avail : Capacity → Lane → ℕ
avail caps l = elim l.nexts_in.pos [ none ↦ caps.nexts_capacity | some rp ↦ rp ]

-- The records written to the chunk's output, flushed or not.
abbrev pub output : Lane → List RankRun
output l = l.out_file ++ take l.out_pos l.nexts_in.buffer

pub record IsLane (caps : Capacity) (l : Lane) : Type 0 where
  pub nexts_ok : IsReader caps.nexts_capacity l.nexts_in
  pub currents_ok : IsReader caps.cur_capacity l.currents_in
  pub overlay : l.out_pos ≤ avail caps l
  pub inside : avail caps l ≤ caps.nexts_capacity

-- A read takes the first record of the queue, or finds the queue empty.
abbrev pub Took : List RankRun → Outcome RankRun → List RankRun → Type 0
Took before (success x) after = before ≡ x ∷ after
Took before empty after = (before ≡ []) × (after ≡ [])
Took before failure after = ⊥

-- A refill loads the front of the file, or finds its end.
abbrev pub Filled : ℕ → Reader → Outcome (Unit {0}) × Reader → Type 0
Filled capacity r (success _, r') =
    IsReader capacity r' × (remaining r' ≡ r.file) × (r'.pos ≡ some 0) × (0 < r'.len)
Filled capacity r (empty, r') =
    IsReader capacity r' × (r.file ≡ []) × (r'.file ≡ []) × (r'.pos ≡ none) × (r'.buffer ≡ r.buffer)
Filled capacity r (failure, r') = ⊥

nil_of_length {ℓ} : {A : Type ℓ} (xs : List A) → length xs ≡ 0 → xs ≡ []
nil_of_length [] h = refl
nil_of_length (x ∷ xs) h = absurd (omega arith)

pub fill_lem :
    (capacity filepos : ℕ) (r : Reader)
    → IsReader capacity r
    → Filled capacity r (fill capacity filepos r)
unfolding fill
fill_lem capacity filepos r v =
    let records = take capacity r.file in
    let size = length-take capacity r.file in
    let short : length records ≤ capacity = omega arith in
    elim (Bool-cases (ltb 0 (length records))) [
      | inl found ↦
          let ended : (if ltb (length records) capacity
                  then none
                  else some (filepos + length records))
                ≡ none
              → drop capacity r.file ≡ [] =
            λ e. drop-eq_of_le capacity r.file (ground arith) in
          rw found (
            record {
              allocated = length-fread_at r.buffer 0 records ∙ v.allocated;
              room = v.room;
              bounded = short;
              at_end = ended;
              drained = λ e. cc;
            },
            rw (take-fread_at r.buffer records (omega arith)) (take-append-drop capacity r.file),
            refl,
            ground arith,
          )
      | inr end ↦
          let gone : r.file ≡ [] = nil_of_length r.file (ground arith) in
          rw end (
            record {
              allocated = v.allocated;
              room = v.room;
              bounded = v.bounded;
              at_end = λ e. gone;
              drained = λ e. gone;
            },
            gone,
            gone,
            refl,
            refl,
          )
    ]

-- Flushing changes where the output records are, not which they are.
pub output-flush_overlay :
    (l : Lane)
    → (output (flush_overlay l) ≡ output l)
      × ((flush_overlay l).out_pos ≡ 0)
      × ((flush_overlay l).nexts_in ≡ l.nexts_in)
      × ((flush_overlay l).currents_in ≡ l.currents_in)
      × ((flush_overlay l).cursor ≡ l.cursor)
unfolding flush_overlay
output-flush_overlay l = elim (Bool-cases (ltb 0 l.out_pos)) [
  | inl some_out ↦ rw some_out (append-nil _, refl, refl, refl, refl)
  | inr no_out ↦ rw no_out (refl, ground arith, refl, refl, refl)
]

-- A record that is in the buffer is the first of the queue.
pub read_lem :
    (capacity p : ℕ) (r : Reader)
    → IsReader capacity r
    → p < r.len
    → (x : RankRun) × (get_elem? r.buffer p ≡ some x)
      × (drop p (take r.len r.buffer) ≡ x ∷ drop (p + 1) (take r.len r.buffer))
read_lem capacity p r v h =
    let front = take r.len r.buffer in
    let size = length-take r.len r.buffer in
    let none_read : RankRun = record {
      rank = record { b0 = 0; b1 = 0; b2 = 0; b3 = 0; b4 = 0 };
      count = 0;
    } in
    let x = get_or front p none_read in
    let next : p + 1 ≡ suc p = omega arith in
    (
      x,
      sym (get_elem?-take r.len r.buffer p h) ∙ get_elem?-eq-get_or front p none_read (omega arith),
      rw next (drop-get_elem? front p none_read (omega arith)),
    )
