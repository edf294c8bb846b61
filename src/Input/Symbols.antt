-- ===== src/Input/Symbols.antt =====
-- What the calls of input_stream_next of src/input_stream.c yield, one after the other.
use suffix_rank.Base.{
  ℕ, zero, suc, ◌+◌, ◌≤◌, ◌≡◌, refl, ap, List, [], ◌∷◌, ◌++◌, map, Option, none, some, arith,
  length, true, false, ◌>>=◌,
}
use suffix_rank.Base.Int.{pos, negsuc}
use suffix_rank.Input.{
  InputStream, Symbol, success, empty, input_stream_open, next_loop, input_stream_next,
}

abbrev pub real : ℕ → Symbol
real b = record { out_char = b + 1; out_sent_id = negsuc 0 }

abbrev pub sentinel : Symbol
sentinel = record { out_char = 0; out_sent_id = pos 0 }

-- Calls until EMPTY, `calls` of them at most; the symbols and the stream at the end.
unfoldable pub symbols : ℕ → InputStream → Option (List Symbol × InputStream)
symbols zero s = none
symbols (suc calls) s = input_stream_next s >>= λ (o, s'). elim o [
  | success x ↦ symbols calls s' >>= λ (xs, t). some (x ∷ xs, t)
  | empty ↦ some ([], s')
]

abbrev pub ended : InputStream
ended = record { fp = none; pending_sentinel = false; done = true }

-- Calls of input_stream_next on a stream opened over some bytes yield each byte plus one, then one
-- sentinel, then EMPTY, within two calls more than there are bytes, and leave the file closed.
pub symbols_lem :
    (bytes : List ℕ) (calls : ℕ)
    → length bytes + 2 ≤ calls
    → symbols calls (input_stream_open bytes) ≡ some (map real bytes ++ sentinel ∷ [], ended)
unfolding symbols next_loop
symbols_lem [] zero h = absurd (omega arith)
symbols_lem [] (suc zero) h = absurd (omega arith)
symbols_lem [] (suc (suc calls)) h = refl
symbols_lem (b ∷ bytes) zero h = absurd (omega arith)
symbols_lem (b ∷ bytes) (suc calls) h =
    ap (λ r. r >>= λ (xs, t). some (real b ∷ xs, t)) (symbols_lem bytes calls (omega arith))
