-- ===== src/Update/Correct.antt =====
-- What one call of update_local_ranks leaves of a chunk, given the runs that the merge wrote for it.
use mathlib.Core.Path.{subst}
use suffix_rank.Base.{
  ℕ, ◌+◌, ◌-◌, ◌<◌, ◌≤◌, ◌≡◌, refl, ap, sym, ◌∙◌, inl, inr, true, false, List, [], ◌∷◌, append-nil,
  some, arith, length, take, drop, set, length-set, All, ltb, leb, ◌==◌, if◌then◌else◌, Bool-cases,
  Gives, gives, Gives-bind,
}
use suffix_rank.Files.{fread_at, fread, fread_lem, fread_front_lem, length-fread_at}
use suffix_rank.Files.Window.{window-set, window-same}
use suffix_rank.Format.{Int40, RankRun, i40_store}
use suffix_rank.Format.Runs.{Run, encode}
use suffix_rank.Format.Writer.{Writer, IsWriter, close_runs, close_runs-eq-written}
use suffix_rank.Location.{next_rank_loc}
use suffix_rank.Update.{
  int_max, State, Status, success, Chunk, finish, global_capacity, currents_capacity,
  update_local_ranks,
}
use suffix_rank.Update.Entries.{Mark, marks, survivors, ranked, lowest, highest, Ready}
use suffix_rank.Update.Runs.{carried, AreStored, Passed, apply_records_lem}

-- A position of the window [lo, stop).
abbrev pub IsLive : ℕ → ℕ → ℕ → Type 0
IsLive lo stop p = (lo ≤ p) × (p < stop)

-- Ranks that are written in the window reach the file.
window-ranked :
    (lo n : ℕ) (file : List Int40) (ks : List Mark) (ps : List ℕ) (b : List Int40)
    → All (IsLive lo (lo + n)) ps
    → lo + n ≤ length b
    → lo + n ≤ length file
    → fread_at file lo (take n (drop lo (ranked ks ps b)))
      ≡ ranked ks ps (fread_at file lo (take n (drop lo b)))
unfolding ranked
window-ranked lo n file [] ps b live big whole = refl
window-ranked lo n file (k ∷ ks) [] b live big whole = refl
window-ranked lo n file (k ∷ ks) (p ∷ ps) b ((h, h'), live) big whole =
    let x = i40_store k.rank in
    window-ranked lo n file ks ps (set b p x) live (rw length-set big) whole
    ∙ ap (ranked ks ps) (window-set lo n file b p x h h' big whole)

-- The files and buffers that a call finds: the window lies in the ranks file and in the buffer, the
-- suffix array lists positions of the window, and the runs cover it.
pub record Input (total_chunks chunk_id prefix_len size : ℕ) (c : Chunk) (rs : List Run)
    (buffer : List Int40) (currents_buf : List RankRun) : Type 0 where
  pub inside : (next_rank_loc prefix_len size chunk_id total_chunks).is_empty ≡ false
  pub some_runs : 0 < length (encode rs)
  pub fits : length (encode rs) ≤ global_capacity size
  pub stored : AreStored rs
  pub covered : length (marks rs) ≡ length (take size c.sa_file)
  pub live : All (IsLive c.lo c.stop) (take size c.sa_file)
  pub window : c.stop ≤ length buffer
  pub ranks : c.stop ≤ length c.ranks_file
  pub allocated : length currents_buf ≡ currents_capacity size

abbrev pub new_chunk : ℕ → Chunk → List Run → Chunk
new_chunk size c rs =
    let sa = take size c.sa_file in
    let kept = survivors (marks rs) sa in
    let lo = lowest kept int_max in
    let stop = highest kept 0 in
    record {
      ranks_file = ranked (marks rs) sa c.ranks_file;
      sa_file = kept;
      currents_file = encode (carried rs);
      lo = if leb stop lo then 0 else lo;
      stop = if leb stop lo then 0 else stop;
    }

abbrev read_window : Chunk → List Int40 → List Int40
read_window c buffer =
    if leb c.stop c.lo
    then buffer
    else fread_at buffer c.lo (take (c.stop - c.lo) (drop c.lo c.ranks_file))

abbrev write_window : Chunk → List Int40 → List Int40
write_window c ranks =
    if leb c.stop c.lo
    then c.ranks_file
    else fread_at c.ranks_file c.lo (take (c.stop - c.lo) (drop c.lo ranks))

ranked-dead :
    (lo stop : ℕ) (ks : List Mark) (ps : List ℕ) (b : List Int40)
    → stop ≤ lo
    → All (IsLive lo stop) ps
    → ranked ks ps b ≡ b
unfolding ranked
ranked-dead lo stop [] ps b h live = refl
ranked-dead lo stop (k ∷ ks) [] b h live = refl
ranked-dead lo stop (k ∷ ks) (p ∷ ps) b h ((a, a'), live) = absurd (omega arith)

write_window_lem :
    (c : Chunk) (buffer : List Int40) (ks : List Mark) (ps : List ℕ)
    → All (IsLive c.lo c.stop) ps
    → c.stop ≤ length buffer
    → c.stop ≤ length c.ranks_file
    → write_window c (ranked ks ps (read_window c buffer)) ≡ ranked ks ps c.ranks_file
write_window_lem c buffer ks ps live big whole = elim (Bool-cases (leb c.stop c.lo)) [
  | inl none_live ↦
      rw none_live (sym (ranked-dead c.lo c.stop ks ps c.ranks_file (ground arith) live))
  | inr some_live ↦
      let n = c.stop - c.lo in
      let e : c.stop ≡ c.lo + n = ground arith in
      let old = take n (drop c.lo c.ranks_file) in
      rw some_live (
        window-ranked c.lo n c.ranks_file ks ps (fread_at buffer c.lo old)
          (subst (λ x. All (IsLive c.lo x) ps) e live)
          (omega (arith, length-fread_at buffer c.lo old)) (omega arith)
        ∙ ap (ranked ks ps) (window-same c.lo n c.ranks_file buffer (omega arith) (omega arith)))
]

pub read_window-eq-some :
    (c : Chunk) (buffer : List Int40)
    → c.stop ≤ length buffer
    → (if leb c.stop c.lo
        then some buffer
        else fread buffer c.lo (c.stop - c.lo) (drop c.lo c.ranks_file))
      ≡ some (read_window c buffer)
read_window-eq-some c buffer room = elim (Bool-cases (leb c.stop c.lo)) [
  | inl e ↦ rw e refl
  | inr e ↦
      let some_live : c.lo < c.stop = ground arith in
      rw e (fread_lem buffer c.lo (c.stop - c.lo) (drop c.lo c.ranks_file) (omega arith))
]

length-read_window :
    (c : Chunk) (buffer : List Int40) → length (read_window c buffer) ≡ length buffer
length-read_window c buffer = elim (Bool-cases (leb c.stop c.lo)) [
  | inl e ↦ rw e refl
  | inr e ↦ rw e (length-fread_at buffer c.lo _)
]

live-inside :
    (lo stop n : ℕ) (ps : List ℕ) → stop ≤ n → All (IsLive lo stop) ps → All (λ p. p < n) ps
live-inside lo stop n [] h live = tt
live-inside lo stop n (p ∷ ps) h ((a, a'), live) = (omega arith, live-inside lo stop n ps h live)

abbrev start : List Int40 → List ℕ → State
start ranks sa = record {
  ranks = ranks;
  sa = sa;
  m = 0;
  displacement = 0;
  new_lo = int_max;
  new_stop = 0;
}

abbrev no_currents : List RankRun → Writer
no_currents currents_buf = record { buf = currents_buf; out_count = 0; file = [] }

finish_lem :
    (size : ℕ) (c : Chunk) (rs : List Run) (buffer : List Int40) (currents_buf : List RankRun)
    (r : State × Writer)
    → All (IsLive c.lo c.stop) (take size c.sa_file)
    → c.stop ≤ length buffer
    → c.stop ≤ length c.ranks_file
    → Passed
        (currents_capacity size)
        rs
        (take size c.sa_file)
        []
        (start (read_window c buffer) (take size c.sa_file), no_currents currents_buf)
        r
    → finish (length (take size c.sa_file)) c r ≡ (success, new_chunk size c rs)
unfolding finish
finish_lem size c rs buffer currents_buf (s, w) live big whole v =
    let sa = take size c.sa_file in
    let all : s.m ≡ length sa = omega (arith, v.visited.moved) in
    let done : (s.m == length sa) ≡ true = ground arith in
    let left : take (length sa - s.displacement) s.sa ≡ survivors (marks rs) sa =
      rw all at v.visited.kept in
    let out : close_runs w ≡ encode (carried rs) = close_runs-eq-written w ∙ v.emitted in
    let ranks : write_window c s.ranks ≡ ranked (marks rs) sa c.ranks_file =
      ap (write_window c) v.visited.wrote
      ∙ write_window_lem c buffer (marks rs) sa live big whole in
    rw done (rw (left, out, ranks, v.visited.low, v.visited.high) refl)

abbrev pub UpdateIsRight : ℕ → Chunk → List Run → Status × Chunk → Type 0
UpdateIsRight size c rs r = r ≡ (success, new_chunk size c rs)

-- For a chunk that is not EMPTY by next_rank_loc and whose file of global ranks encodes at least
-- one run, each with a rank and a count of 40 bits, in no more records than the buffer holds: if
-- the runs cover the chunk's suffix array, its positions lie in the window, the window lies in the
-- ranks file and in the buffer of ranks, and the currents buffer is as allocated, then
-- update_local_ranks accesses no buffer out of bounds and is a SUCCESS that writes each rank at
-- its position in the ranks file, keeps the unresolved positions in order, writes the unresolved
-- runs as the next currents stream, and sets the window to the range of the unresolved positions.
pub update_local_ranks_lem :
    (total_chunks chunk_id prefix_len size : ℕ) (c : Chunk) (rs : List Run) (buffer : List Int40)
    (currents_buf : List RankRun)
    → Input total_chunks chunk_id prefix_len size c rs buffer currents_buf
    → Gives
        (UpdateIsRight size c rs)
        (update_local_ranks total_chunks chunk_id prefix_len size c (encode rs) buffer currents_buf)
unfolding update_local_ranks
update_local_ranks_lem total_chunks chunk_id prefix_len size c rs buffer currents_buf i =
    let sa = take size c.sa_file in
    let some_global : (length (encode rs) == 0) ≡ false = ground (arith, i.some_runs) in
    let room : ltb (global_capacity size) (length (encode rs)) ≡ false = ground (arith, i.fits) in
    let two : 2 ≤ currents_capacity size = ground arith in
    let ready : Ready sa [] (start (read_window c buffer) sa) = record {
      next = sym (append-nil sa);
      behind = omega arith;
      sized = omega (arith, ap length (append-nil sa));
      inside =
          live-inside c.lo c.stop (length (read_window c buffer)) sa
            (rw length-read_window i.window) i.live;
    } in
    let writer : IsWriter (currents_capacity size) (no_currents currents_buf) = record {
      allocated = i.allocated;
      inside = omega arith;
    } in
    rw
      (
        i.inside,
        read_window-eq-some c buffer i.window,
        fread_front_lem size c.sa_file,
        some_global,
        room,
      )
      (Gives-bind
        (apply_records_lem (currents_capacity size) rs sa [] _ _ two i.stored i.covered ready
          writer)
        λ r v. gives (finish_lem size c rs buffer currents_buf r i.live i.window i.ranks v))
