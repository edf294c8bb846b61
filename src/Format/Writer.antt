-- ===== src/Format/Writer.antt =====
-- The buffered writer of (rank, count) runs: `emit_run` of src/refine.cpp, whose text update.c and
-- init.cpp repeat inline for the currents stream, and the final flush.
use suffix_rank.Base.{
  ℕ, ◌+◌, ◌⊎◌, ◌≤◌, ◌≡◌, refl, ap, sym, ◌∙◌, List, ◌++◌, append-nil, append_assoc, Option, some,
  arith, length, take, ltb, if◌then◌else◌, ◌>>=◌, Bool-cases, inl, inr, Gives, gives, Gives-bind,
}
use suffix_rank.Format.{RankRun, rankrun_emit}
use suffix_rank.Format.Runs.{Run, encode_run, length-encode_run, rankrun_emit_lem}

-- A buffer, the number of records in it, and what the file holds so far.
pub record Writer : Type 0 where
  pub buf : List RankRun
  pub out_count : ℕ
  pub file : List RankRun

-- `Fwrite(buf, sizeof(RankRun), out_count, fp)`
pub fwrite_buf : Writer → Writer
fwrite_buf w = record w { file = w.file ++ take w.out_count w.buf }

-- `if (*out_count + 2 > capacity) { Fwrite(...); *out_count = 0; }`
pub make_room : ℕ → Writer → Writer
unfolding fwrite_buf
make_room capacity w =
    if ltb capacity (w.out_count + 2) then record (fwrite_buf w) { out_count = 0 } else w

unfoldable pub emit_run : ℕ → ℕ → ℕ → Writer → Option Writer
unfolding make_room
emit_run capacity next count w =
    let r = make_room capacity w in
    do
      (b, n) ← rankrun_emit r.buf r.out_count next count
      some (record r { buf = b; out_count = n })

-- `if (out_count > 0) Fwrite(...)`, before the file is closed.
unfoldable pub close_runs : Writer → List RankRun
unfolding fwrite_buf
close_runs w = if ltb 0 w.out_count then (fwrite_buf w).file else w.file

-- What the file will hold once the buffer is flushed.
abbrev pub written : Writer → List RankRun
written w = w.file ++ take w.out_count w.buf

pub record IsWriter (capacity : ℕ) (w : Writer) : Type 0 where
  pub allocated : length w.buf ≡ capacity
  pub inside : w.out_count ≤ capacity

pub close_runs-eq-written : (w : Writer) → close_runs w ≡ written w
unfolding close_runs
close_runs-eq-written w = elim (Bool-cases (ltb 0 w.out_count)) [
  | inl some_left ↦ rw some_left refl
  | inr nothing_left ↦
      let empty : w.out_count ≡ 0 = ground arith in
      rw nothing_left (rw empty (sym (append-nil w.file)))
]

make_room_lem :
    (capacity : ℕ) (w : Writer)
    → IsWriter capacity w
    → IsWriter capacity (make_room capacity w)
      × (written (make_room capacity w) ≡ written w)
      × (((make_room capacity w).out_count ≡ 0) ⊎ ((make_room capacity w).out_count + 2 ≤ capacity))
unfolding make_room
make_room_lem capacity w v = elim (Bool-cases (ltb capacity (w.out_count + 2))) [
  | inl full ↦ rw full (omega arith, append-nil _, inl refl)
  | inr fits ↦ rw fits (v, refl, inr (ground arith))
]

-- With room in the buffer for the records of one run, emit_run does not write past its end, and the
-- records of the run follow whatever was written before, flushed or not.
abbrev pub Extended : ℕ → Writer → Run → Writer → Type 0
Extended capacity w r w' = IsWriter capacity w' × (written w' ≡ written w ++ encode_run r)

-- With room in the empty buffer for the records of the run, emit_run writes inside the buffer, and
-- the flushed and buffered records grow by exactly the records of the run.
pub emit_run_lem :
    (capacity : ℕ) (w : Writer) (r : Run)
    → length (encode_run r) ≤ capacity
    → IsWriter capacity w
    → Gives (Extended capacity w r) (emit_run capacity r.rank r.count w)
unfolding emit_run
emit_run_lem capacity w r big v =
    let (v', same, room) = make_room_lem capacity w v in
    let u = make_room capacity w in
    Gives-bind (rankrun_emit_lem u.buf u.out_count r (omega (arith, length-encode_run r)))
      λ (b, n) (e, size, at). gives (
        omega (arith, length-encode_run r),
        rw e (
            sym (append_assoc u.file (take u.out_count u.buf) (encode_run r))
            ∙ ap (λ t. t ++ encode_run r) same),
      )
