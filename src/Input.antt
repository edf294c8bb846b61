-- ===== src/Input.antt =====
-- src/input_stream.c: the iterator over the symbols of the input file, which adds one sentinel.
-- The open file is the list of the bytes that are left in it; a closed file is `none`, and a read
-- of it is a fault.
pub mod Symbols
use suffix_rank.Base.{
  ℕ, zero, suc, ◌+◌, Bool, true, false, List, [], ◌∷◌, Option, none, some, if◌then◌else◌,
}
use suffix_rank.Base.Int.{ℤ, pos, negsuc}

-- `InputStream`
pub record InputStream : Type 0 where
  pub fp : Option (List ℕ)
  pub pending_sentinel : Bool
  pub done : Bool

-- `*out_char` and `*out_sent_id`
pub record Symbol : Type 0 where
  pub out_char : ℕ
  pub out_sent_id : ℤ

-- `SUCCESS` with a symbol, or `EMPTY`
pub data Status : Type 0 where
  success : Symbol → Status
  empty : Status

abbrev pub input_stream_open : List ℕ → InputStream
input_stream_open bytes = record { fp = some bytes; pending_sentinel = false; done = false }

-- At the end of the file the C function calls itself once.
unfoldable pub next_loop : ℕ → InputStream → Option (Status × InputStream)
next_loop zero s = none
next_loop (suc fuel) s =
    let sentinel : Option (Status × InputStream) = some (
      success (record { out_char = 0; out_sent_id = pos 0 }),
      record s { pending_sentinel = false; done = true },
    ) in
    let again = next_loop fuel (record s { fp = none; pending_sentinel = true }) in
    let byte : Option (Status × InputStream) = elim s.fp [
      | none ↦ none
      | some file ↦ elim file [
        | [] ↦ again
        | b ∷ bs ↦ some (
          success (record { out_char = b + 1; out_sent_id = negsuc 0 }),
          record s { fp = some bs },
        )
      ]
    ] in
    if s.done then some (empty, s) else if s.pending_sentinel then sentinel else byte

abbrev pub input_stream_next : InputStream → Option (Status × InputStream)
input_stream_next = next_loop 2

-- `input_stream_close`
abbrev pub input_stream_close : InputStream → InputStream
input_stream_close s = record s { fp = none }
