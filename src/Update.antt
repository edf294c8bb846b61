-- ===== src/Update.antt =====
-- src/update.c: update_local_ranks, which applies the ranks that the merge resolved to a chunk,
-- drops the resolved suffixes from its suffix array, and narrows its window of live positions.
-- A window is (lo, hi + 1); INT_MAX, the first new_lo, is above every position.
pub mod Entries
pub mod Compose
pub mod Runs
pub mod Correct
pub mod Invariant
pub mod Loop
use suffix_rank.Base.{
  ℕ, zero, suc, ◌+◌, ◌-◌, ◌/◌, ◌||◌, List, [], ◌∷◌, ◌++◌, Option, none, some, get_elem?, store,
  take, drop, length, map, ltb, leb, ◌==◌, if◌then◌else◌, ◌>>=◌,
}
use suffix_rank.Files.{fread_at, fread, fread_front}
use suffix_rank.Format.{Int40, i40_load, i40_store, RankRun, count_escape}
use suffix_rank.Format.Writer.{Writer, emit_run, close_runs}
use suffix_rank.Location.{next_rank_loc}

abbrev pub int_max : ℕ
int_max = 2147483647

-- The variables of the loop over global_buf.
pub record State : Type 0 where
  pub ranks : List Int40
  pub sa : List ℕ
  pub m : ℕ
  pub displacement : ℕ
  pub new_lo : ℕ
  pub new_stop : ℕ

-- A resolved suffix: its rank is stored, and the entries behind it move up by one more.
unfoldable pub resolve_entry : ℕ → State → Option State
resolve_entry rank s = do
  pos ← get_elem? s.sa s.m
  ranks ← store s.ranks pos (i40_store rank)
  some (record s { ranks = ranks; displacement = s.displacement + 1; m = s.m + 1 })

-- A survivor: the body of the loop over j.
unfoldable pub survive_entry : ℕ → State → Option State
survive_entry rank s = do
  pos ← get_elem? s.sa s.m
  ranks ← store s.ranks pos (i40_store rank)
  let lo = if ltb pos s.new_lo then pos else s.new_lo
  let stop = if ltb s.new_stop (pos + 1) then pos + 1 else s.new_stop
  let moved = store s.sa (s.m - s.displacement) pos
  sa ← (if s.displacement == 0 then some s.sa else moved)
  some (record s { ranks = ranks; sa = sa; m = s.m + 1; new_lo = lo; new_stop = stop })

pub survive_loop : ℕ → ℕ → State → Option State
survive_loop zero rank s = some s
survive_loop (suc j) rank s = survive_entry rank s >>= survive_loop j rank

-- One run with its true count; a survivor is carried into the next currents stream.
unfoldable pub apply_run : ℕ → ℕ → ℕ → State × Writer → Option (State × Writer)
unfolding resolve_entry survive_entry survive_loop
apply_run capacity rank cnt (s, w) =
    let resolved : Option (State × Writer) = resolve_entry rank s >>= λ s'. some (s', w) in
    let survived : Option (State × Writer) = do
      s' ← survive_loop cnt rank s
      w' ← emit_run capacity rank cnt w
      some (s', w')
    in if cnt == 0 then resolved else survived

-- The loop over global_buf; an escaped record reads the record behind it.
unfoldable pub apply_records : ℕ → List RankRun → State × Writer → Option (State × Writer)
unfolding apply_run
apply_records capacity [] s = some s
apply_records capacity (g ∷ []) s =
    if g.count == count_escape then none else apply_run capacity (i40_load g.rank) g.count s
apply_records capacity (g ∷ ov ∷ gs) s =
    let escaped =
      apply_run capacity (i40_load g.rank) (i40_load ov.rank) s >>= apply_records capacity gs in
    let plain =
      apply_run capacity (i40_load g.rank) g.count s >>= apply_records capacity (ov ∷ gs) in
    if g.count == count_escape then escaped else plain

-- `SUCCESS`, `EMPTY`, `FAILURE`
pub data Status : Type 0 where
  success empty failure : Status

-- The files of the chunk, and its window of live positions.
pub record Chunk : Type 0 where
  pub ranks_file : List Int40
  pub sa_file : List ℕ
  pub currents_file : List RankRun
  pub lo : ℕ
  pub stop : ℕ

-- The end of the call, after the loop: the counts must cover the suffix array.
pub finish : ℕ → Chunk → State × Writer → Status × Chunk
finish sa_length c (s, w) =
    let ranks =
      if leb c.stop c.lo
      then c.ranks_file
      else fread_at c.ranks_file c.lo (take (c.stop - c.lo) (drop c.lo s.ranks)) in
    let none_live = leb s.new_stop s.new_lo in
    if s.m == sa_length
    then (
      success,
      record {
        ranks_file = ranks;
        sa_file = take (sa_length - s.displacement) s.sa;
        currents_file = close_runs w;
        lo = if none_live then 0 else s.new_lo;
        stop = if none_live then 0 else s.new_stop;
      },
    )
    else (failure, record c { currents_file = w.file })

-- The capacities that main allocates for global_buf and currents_buf.
abbrev pub global_capacity : ℕ → ℕ
global_capacity size = size + size / count_escape + 2

abbrev pub currents_capacity : ℕ → ℕ
currents_capacity size = if ltb (size / 3) 2 then 2 else size / 3

-- The slice of the ranks file and the suffix array are read, the records of global_<id> are applied.
unfoldable pub update_local_ranks :
    ℕ → ℕ → ℕ → ℕ → Chunk → List RankRun → List Int40 → List RankRun → Option (Status × Chunk)
unfolding finish
update_local_ranks total_chunks chunk_id prefix_len size c global buffer_current currents_buf =
    let loc = next_rank_loc prefix_len size chunk_id total_chunks in
    let window =
      if leb c.stop c.lo
      then some buffer_current
      else fread buffer_current c.lo (c.stop - c.lo) (drop c.lo c.ranks_file) in
    let w : Writer = record { buf = currents_buf; out_count = 0; file = [] } in
    let applied : List Int40 → List ℕ → Option (Status × Chunk) = λ buffer sa. do
      let start : State = record {
        ranks = buffer;
        sa = sa;
        m = 0;
        displacement = 0;
        new_lo = int_max;
        new_stop = 0;
      }
      r ← apply_records (currents_capacity size) global (start, w)
      some (finish (length sa) c r)
    in let read : Option (Status × Chunk) = do
      buffer ← window
      sa ← fread_front size size c.sa_file
      if length global == 0
          then some (empty, c)
          else if ltb (global_capacity size) (length global)
          then none
          else applied buffer sa
      in if loc.is_empty then some (empty, c) else read

-- The rest of the loop behind the result of a chunk: `return FAILURE`, or the status so far.
abbrev pub next_chunk :
    Status
    → (Status → Option (Status × List Chunk))
    → Status
    → List Chunk
    → Option (Status × List Chunk)
next_chunk success rest more_runs chunks = rest success
next_chunk empty rest more_runs chunks = rest more_runs
next_chunk failure rest more_runs chunks = some (failure, chunks)

-- The loop of main over the chunks, each with its file of global ranks: whether there are more runs,
-- and the chunks behind it. What earlier chunks leave in the two buffers is a parameter.
unfoldable pub update_all :
    ℕ
    → ℕ
    → ℕ
    → (ℕ → List Int40)
    → (ℕ → List RankRun)
    → ℕ
    → List (Chunk × List RankRun)
    → Status
    → Option (Status × List Chunk)
update_all total_chunks prefix_len size buffers currents chunk_id [] more_runs =
    some (more_runs, [])
update_all total_chunks prefix_len size buffers currents chunk_id ((c, global) ∷ chunks) more_runs =
    do
      (result, c') ←
          update_local_ranks total_chunks chunk_id prefix_len size c global (buffers chunk_id)
            (currents chunk_id)
      let rest : Status → Option (Status × List Chunk) = λ more. do
        (more', chunks') ←
            update_all total_chunks prefix_len size buffers currents (chunk_id + 1) chunks more
        some (more', c' ∷ chunks')
      next_chunk result rest more_runs (c' ∷ map (λ x. x.0) chunks)
