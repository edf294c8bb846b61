-- ===== src/Kmer/Passes.antt =====
-- The two passes of src/init.cpp over the input that feed the window, and run_passes_1_and_2. A pass is
-- a loop over the bytes and one over the k - 1 zeros behind them; what the passes do at each byte and
-- with each key is a parameter of these loops. The read buffer and the printed line are left out.
use suffix_rank.Base.{
  ℕ, zero, suc, ◌+◌, ◌-◌, ◌/◌, ◌%◌, List, [], ◌∷◌, Option, some, length, get_elem?, drop, replicate,
  ltb, if◌then◌else◌, ◌>>=◌,
}
use suffix_rank.Base.Int.{ℤ, pos, negsuc}
use suffix_rank.Files.Chunked.{Chunker, append_entry, close_chunks}
use suffix_rank.Format.{Int40, i40_store}
use suffix_rank.Kmer.Window.{KWin, kwin_reset, kwin_feed}
use suffix_rank.Kmer.Alphabet.{
  alphabet_size, bump, count_bytes, bytes_allowed, assign_codes, select_k, cumulate,
}

module _ (S : Type 0) (on_byte : ℕ → S → Option S) (on_key : ℕ → S → Option S) where
  -- `if (emit_pos >= 0) ...`
  abbrev pub on_emit : ℤ → ℕ → S → Option S
  on_emit (pos i) key s = on_key key s
  on_emit (negsuc i) key s = some s

  unfoldable pub feed_bytes : List ℕ → List ℕ → KWin → S → Option (KWin × S)
  feed_bytes code_of_byte [] w s = some (w, s)
  feed_bytes code_of_byte (v ∷ bytes) w s = do
    s' ← on_byte v s
    code ← get_elem? code_of_byte v
    (w', emit_pos, key) ← kwin_feed w code
    s'' ← on_emit emit_pos key s'
    feed_bytes code_of_byte bytes w' s''

  unfoldable pub feed_zeros : ℕ → KWin → S → Option (KWin × S)
  feed_zeros zero w s = some (w, s)
  feed_zeros (suc n) w s = do
    (w', emit_pos, key) ← kwin_feed w 0
    s' ← on_emit emit_pos key s
    feed_zeros n w' s'

  unfoldable pub feed_all : List ℕ → List ℕ → KWin → S → Option S
  feed_all code_of_byte bytes w s = do
    (w', s') ← feed_bytes code_of_byte bytes (kwin_reset w) s
    (w'', s'') ← feed_zeros (w.k - 1) w' s'
    some s''

-- `(uint8_t) (1 + v)` goes to the X files; counts[K]++ for each key.
abbrev pub XState : Type 0
XState = Chunker ℕ × List ℕ

abbrev pub x_byte : ℕ → ℕ → XState → Option XState
x_byte size v (x, counts) = append_entry size ((1 + v) % 256) x >>= λ x'. some (x', counts)

abbrev pub x_key : ℕ → XState → Option XState
x_key key (x, counts) = bump counts key >>= λ counts'. some (x, counts')

-- The X files, last_chunk_size and the histogram.
pub record XResult : Type 0 where
  pub x_files : List (List ℕ)
  pub last_chunk_size : ℕ
  pub counts : List ℕ

abbrev pub new_chunker {ℓ} : {A : Type ℓ} → ℕ → A → Chunker A
new_chunker size a = record { buffer = replicate size a; pos_in_buffer = 0; files = [] }

unfoldable pub pass_build_histogram_and_x : ℕ → List ℕ → KWin → List ℕ → List ℕ → Option XResult
pass_build_histogram_and_x size code_of_byte w counts bytes = do
  (x, counts') ←
      feed_all XState (x_byte size) x_key code_of_byte bytes w (new_chunker size 0, counts)
  x' ← append_entry size 0 x
  let last_chunk_size =
      if ltb 0 x'.pos_in_buffer
      then x'.pos_in_buffer
      else if ltb 0 (length x'.files)
      then size
      else 0
  some (record {
    x_files = close_chunks size x';
    last_chunk_size = last_chunk_size;
    counts = counts';
  })

-- `1 + bucketstart[K]` goes to the ranks files.
abbrev pub rank_key : ℕ → List ℕ → ℕ → Chunker Int40 → Option (Chunker Int40)
rank_key size bucketstart key out =
    get_elem? bucketstart key >>= λ start. append_entry size (i40_store (1 + start)) out

unfoldable pub pass_write_ranks : ℕ → List ℕ → KWin → List ℕ → List ℕ → Option (List (List Int40))
pass_write_ranks size code_of_byte w bucketstart bytes = do
  out ←
      feed_all (Chunker Int40) (λ v s. some s) (rank_key size bucketstart) code_of_byte bytes w
        (new_chunker size (i40_store 0))
  out' ← append_entry size (i40_store 0) out
  some (close_chunks size out')

-- What run_passes_1_and_2 leaves and returns.
pub record FirstRanks : Type 0 where
  pub x_files : List (List ℕ)
  pub ranks_files : List (List Int40)
  pub n_chunks : ℕ
  pub last_chunk_size : ℕ
  pub k : ℕ

pub data PassStatus : Type 0 where
  success : FirstRanks → PassStatus
  failure : PassStatus

-- The two passes, once the alphabet and k are known.
unfoldable pub run_passes : ℕ → List ℕ → ℕ → ℕ → ℕ → List ℕ → Option PassStatus
run_passes size code_of_byte base k hist_size bytes = do
  let w : KWin = record {
    ring = replicate k 0;
    key = 0;
    topw = hist_size / base;
    base = base;
    k = k;
    p = 0;
  }
  built ← pass_build_histogram_and_x size code_of_byte w (replicate hist_size 0) bytes
  ranks_files ← pass_write_ranks size code_of_byte w (cumulate 0 built.counts) bytes
  some (
      PassStatus.success (record {
        x_files = built.x_files;
        ranks_files = ranks_files;
        n_chunks = length built.x_files;
        last_chunk_size = built.last_chunk_size;
        k = k;
      }))

-- `fuel` is for the loop that looks for k.
unfoldable pub run_passes_1_and_2 : ℕ → ℕ → List ℕ → Option PassStatus
run_passes_1_and_2 fuel size bytes = do
  counts ← count_bytes bytes (replicate alphabet_size 0)
  let (code_of_byte, sigma_real) = assign_codes 0 (drop 1 counts)
  let base = sigma_real + 1
  let passes : Option PassStatus = do
    (k, hist_size) ← select_k fuel base size 1 base
    run_passes size code_of_byte base k hist_size bytes
  if bytes_allowed counts then passes else some PassStatus.failure
