-- ===== src/Format/Runs.antt =====
-- The run-length streams that the programs pass around (src/algorithm.h), as lists of runs: what
-- rankrun_emit makes of one run, and the values that a stream of runs stands for.
use suffix_rank.Base.{
  ℕ, ◌+◌, ◌^◌, ◌<◌, ◌≤◌, ◌≡◌, refl, ◌∙◌, List, [], ◌∷◌, ◌++◌, append_assoc, arith, length,
  replicate, set, take, store_of_lt, length-set, take-add_one-set, take-add_two-set, ltb,
  if◌then◌else◌, Bool-cases, inl, inr, Gives, gives,
}
use suffix_rank.Format.{RankRun, i40_store, count_escape, rankrun_emit}

-- A decoded run: `count` neighbours with the same `rank`.
pub record Run : Type 0 where
  pub rank : ℕ
  pub count : ℕ

-- The records of one run: two of them if its count does not fit below the escape.
unfoldable pub encode_run : Run → List RankRun
encode_run r =
    if ltb r.count count_escape
    then record { rank = i40_store r.rank; count = r.count } ∷ []
    else record { rank = i40_store r.rank; count = count_escape }
      ∷ record { rank = i40_store r.count; count = 0 }
      ∷ []

unfoldable pub encode : List Run → List RankRun
encode [] = []
encode (r ∷ rs) = encode_run r ++ encode rs

-- The values that runs stand for, one for each entry of the array that they compress.
unfoldable pub expand : List Run → List ℕ
expand [] = []
expand (r ∷ rs) = replicate r.count r.rank ++ expand rs

-- Every run has a rank and a count that fit 40 bits, and covers at least one entry.
abbrev pub IsStorable : List Run → Type 0
IsStorable [] = Unit {0}
IsStorable (r ∷ rs) = (r.rank < 2 ^ 40) × (0 < r.count) × (r.count < 2 ^ 40) × IsStorable rs

pub encode-append : (rs ss : List Run) → encode (rs ++ ss) ≡ encode rs ++ encode ss
unfolding encode
encode-append [] ss = refl
encode-append (r ∷ rs) ss = simp (encode-append rs ss, append_assoc)

expand-append : (rs ss : List Run) → expand (rs ++ ss) ≡ expand rs ++ expand ss
unfolding expand
expand-append [] ss = refl
expand-append (r ∷ rs) ss = simp (expand-append rs ss, append_assoc)

pub length-encode_run : (r : Run) → length (encode_run r) ≤ 2
unfolding encode_run
length-encode_run r = ground arith

-- A count below the escape takes one record.
pub length-encode_run_small : (r : Run) → r.count < count_escape → length (encode_run r) ≡ 1
unfolding encode_run
length-encode_run_small r h = ground arith

-- rankrun_emit on a buffer with room for the run adds its records at `*pos`.
abbrev pub Emitted : List RankRun → ℕ → Run → List RankRun × ℕ → Type 0
Emitted buf pos r (b, p) =
    (take p b ≡ take pos buf ++ encode_run r)
    × (length b ≡ length buf)
    × (p ≡ pos + length (encode_run r))

pub rankrun_emit_lem :
    (buf : List RankRun) (pos : ℕ) (r : Run)
    → pos + length (encode_run r) ≤ length buf
    → Gives (Emitted buf pos r) (rankrun_emit buf pos r.rank r.count)
unfolding rankrun_emit encode_run
rankrun_emit_lem buf pos r h = elim (Bool-cases (ltb r.count count_escape)) [
  | inl small ↦
      let first : RankRun = record { rank = i40_store r.rank; count = r.count } in
      let room : pos < length buf = ground arith in
      rw (small, store_of_lt buf pos first room)
        (gives (
          rw small (take-add_one-set buf pos first room),
          length-set buf pos first,
          rw small (omega arith),
        ))
  | inr large ↦
      let first : RankRun = record { rank = i40_store r.rank; count = count_escape } in
      let second : RankRun = record { rank = i40_store r.count; count = 0 } in
      let fits : pos + 1 < length buf = ground arith in
      let room : pos + 1 < length (set buf pos first) = rw length-set fits in
      rw (large, store_of_lt buf pos first (omega arith))
        (rw (store_of_lt (set buf pos first) (pos + 1) second room) (
          gives (
            rw large (take-add_two-set buf pos first second fits),
            length-set _ _ _ ∙ length-set _ _ _,
            rw large (omega arith),
          )))
]
