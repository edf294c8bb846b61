-- ===== src/Verify/Partition/Writer.antt =====
-- PartitionWriter of src/verify.c: a buffer of records in front of a file.
use suffix_rank.Base.{
  ℕ, ◌+◌, ◌<◌, ◌≡◌, refl, ap, sym, ◌∙◌, List, [], ◌++◌, ◌∷◌, append_assoc, append-nil, Option, some,
  arith, length, store, set, take, replicate, ◌==◌, ltb, if◌then◌else◌, ◌>>=◌, Gives, gives,
  store_of_lt, length-set, length-replicate, take-add_one-set, Bool-cases, inl, inr,
}
use suffix_rank.Base.Int.{pos}
use suffix_rank.Verify.Records.{VerifyRecord}

abbrev pub write_buf_records : ℕ
write_buf_records = 1024

-- What Calloc fills the buffer with.
abbrev pub blank_record : VerifyRecord
blank_record = record { position = 0; next_rank = pos 0; slot = 0; first_key = 0 }

-- `PartitionWriter`; file is what was written to fp.
pub record PartitionWriter : Type 0 where
  pub buf : List VerifyRecord
  pub len : ℕ
  pub file : List VerifyRecord

unfoldable pub pw_init : PartitionWriter
pw_init = record { buf = replicate write_buf_records blank_record; len = 0; file = [] }

-- `Fwrite(w->buf, sizeof(VerifyRecord), (size_t) w->len, w->fp)`
abbrev pw_flush : PartitionWriter → PartitionWriter
pw_flush w = record w { file = w.file ++ take w.len w.buf }

unfoldable pub pw_emit : PartitionWriter → VerifyRecord → Option PartitionWriter
pw_emit w rec = do
  buf' ← store w.buf w.len rec
  let w' : PartitionWriter = record w { buf = buf'; len = w.len + 1 }
  some (if w'.len == write_buf_records then record (pw_flush w') { len = 0 } else w')

-- The file when it is closed.
unfoldable pub pw_close : PartitionWriter → List VerifyRecord
pw_close w = (if ltb 0 w.len then pw_flush w else w).file

-- A writer between two calls.
pub record IsOpen (w : PartitionWriter) : Type 0 where
  pub allocated : length w.buf ≡ write_buf_records
  pub inside : w.len < write_buf_records

-- All that was emitted.
abbrev pub emitted : PartitionWriter → List VerifyRecord
emitted w = w.file ++ take w.len w.buf

pub pw_init_lem : IsOpen pw_init × (emitted pw_init ≡ [])
unfolding pw_init
pw_init_lem =
    (record { allocated = length-replicate 1024 blank_record; inside = omega arith }, refl)

take-none : (buf : List VerifyRecord) (n : ℕ) → n ≡ 0 → take n buf ≡ []
take-none buf n e = rw e refl

pub pw_close-eq-emitted : (w : PartitionWriter) → pw_close w ≡ emitted w
unfolding pw_close
pw_close-eq-emitted w = elim (Bool-cases (ltb 0 w.len)) [
  | inl some_left ↦ rw (pw_close, some_left) refl
  | inr full ↦
      rw (pw_close, full)
        (sym (append-nil w.file)
          ∙ ap (λ t. w.file ++ t) (sym (take-none w.buf w.len (ground arith))))
]

-- An emitted record is neither lost nor written twice, whether the buffer is flushed or not.
pub pw_emit_lem :
    (w : PartitionWriter) (rec : VerifyRecord)
    → IsOpen w
    → Gives (λ w'. IsOpen w' × (emitted w' ≡ emitted w ++ rec ∷ [])) (pw_emit w rec)
unfolding pw_emit
pw_emit_lem w rec open_w =
    let room : w.len < length w.buf = omega arith in
    let taken = take-add_one-set w.buf w.len rec room in
    let grown =
      ap (λ t. w.file ++ t) taken ∙ sym (append_assoc w.file (take w.len w.buf) (rec ∷ [])) in
    let size : length (set w.buf w.len rec) ≡ write_buf_records =
      length-set w.buf w.len rec ∙ open_w.allocated in
    rw (store_of_lt w.buf w.len rec room) (elim (Bool-cases (w.len + 1 == write_buf_records)) [
      | inl full ↦
          rw full (gives (record { allocated = size; inside = omega arith }, append-nil _ ∙ grown))
      | inr free ↦ rw free (gives (record { allocated = size; inside = ground arith }, grown))
    ])
