-- ===== src/Merge/Setup/First.antt =====
-- init_merge of src/merge.c, for one chunk: its first refills and its first triplet.
use mathlib.Core.Path.{subst₂}
use suffix_rank.Merge.Driver.Replace.{IsAscending-next}
use suffix_rank.Base.{
  ℕ, ◌<◌, ◌≤◌, ◌≡◌, refl, ap, sym, ◌∙◌, List, [], ◌++◌, none, some, arith, length, length-append,
  length-replicate, replicate,
}
use suffix_rank.Format.{RankRun}
use suffix_rank.Format.Runs.{Run, encode, expand, IsStorable}
use suffix_rank.Merge.{HeapElement, Outcome, success, empty, failure}
use suffix_rank.Merge.Driver.Shares.{Share}
use suffix_rank.Merge.Driver.State.{IsAscending, IsShare, due_cur, due_next}
use suffix_rank.Merge.Driver.Writes.{Serves}
use suffix_rank.Merge.Lane.{
  Reader, Lane, Capacity, fill, flush_overlay, refill_nexts, refill_currents,
}
use suffix_rank.Merge.Lane.Invariant.{IsReader, remaining, output, Filled, fill_lem}
use suffix_rank.Merge.Lane.Load.{Holds, pending_cur, pending_next}
use suffix_rank.Merge.Lane.Walk.{Advanced, Ended}
use suffix_rank.Merge.Setup.{setup_reader, setup_lane, refill_lane}

-- The two streams of a chunk, as runs.
pub record Streams : Type 0 where
  pub cs : List Run
  pub ns : List Run

abbrev pub files : Streams → List RankRun × List RankRun
files x = (encode x.ns, encode x.cs)

-- The streams encode the pairs along a suffix array, which ascend.
pub record IsStreams (x : Streams) : Type 0 where
  pub storable_cs : IsStorable x.cs
  pub storable_ns : IsStorable x.ns
  pub same_size : length (expand x.cs) ≡ length (expand x.ns)
  pub ascending : IsAscending 0 0 (expand x.cs) (expand x.ns)

pub record IsCapacity (caps : Capacity) : Type 0 where
  pub nexts_room : 0 < caps.nexts_capacity
  pub cur_room : 0 < caps.cur_capacity

setup_reader-IsReader : (n : ℕ) (file : List RankRun) → 0 < n → IsReader n (setup_reader n file)
setup_reader-IsReader n file h = record {
  allocated = length-replicate n _;
  room = h;
  bounded = omega arith;
  at_end = λ e. cc;
  drained = λ e. cc;
}

-- The first fill of a buffer.
Filled-reader :
    (n : ℕ) (r : Reader) (f : Outcome (Unit {0}) × Reader)
    → Filled n r f
    → IsReader n f.1 × (remaining f.1 ≡ r.file)
Filled-reader n r (success _, r') (v, same, start, some_read) = (v, same)
Filled-reader n r (empty, r') (v, none_left, gone, at_end, same) =
    (v, rw at_end (gone ∙ sym none_left))
Filled-reader n r (failure, r') bad = absurd bad

avail_of_Filled :
    (n : ℕ) (r : Reader) (f : Outcome (Unit {0}) × Reader)
    → Filled n r f
    → elim f.1.pos [ none ↦ n | some rp ↦ rp ] ≤ n
avail_of_Filled n r (success _, r') (v, same, start, some_read) = rw start (omega arith)
avail_of_Filled n r (empty, r') (v, none_left, gone, at_end, same) = rw at_end (omega arith)
avail_of_Filled n r (failure, r') bad = absurd bad

abbrev pub first_lane : Capacity → Streams → Lane
first_lane caps x = refill_lane caps (setup_lane caps (files x))

pub first_lane-Holds :
    (caps : Capacity) (x : Streams)
    → IsCapacity caps
    → IsStreams x
    → Holds caps x.cs x.ns (first_lane caps x)
unfolding refill_lane refill_nexts refill_currents flush_overlay
first_lane-Holds caps x k v =
    let n = caps.nexts_capacity in
    let k' = caps.cur_capacity in
    let rn = setup_reader n (encode x.ns) in
    let rc = setup_reader k' (encode x.cs) in
    let a = fill_lem n 0 rn (setup_reader-IsReader n (encode x.ns) k.nexts_room) in
    let b = fill_lem k' 0 rc (setup_reader-IsReader k' (encode x.cs) k.cur_room) in
    let (nexts_ok, nexts_left) = Filled-reader n rn (fill n 0 rn) a in
    let (currents_ok, currents_left) = Filled-reader k' rc (fill k' 0 rc) b in
    record {
      ok = record {
        nexts_ok = nexts_ok;
        currents_ok = currents_ok;
        overlay = omega arith;
        inside = avail_of_Filled n rn (fill n 0 rn) a;
      };
      storable_cs = v.storable_cs;
      storable_ns = v.storable_ns;
      currents_left = currents_left;
      nexts_left = nexts_left;
      started = λ h. absurd (omega arith);
    }

pub record Fresh (x : Streams) (l : Lane) : Type 0 where
  pub cur : pending_cur x.cs l ≡ expand x.cs
  pub next : pending_next x.ns l ≡ expand x.ns
  pub no_output : output l ≡ []

pub first_lane-Fresh : (caps : Capacity) (x : Streams) → Fresh x (first_lane caps x)
unfolding refill_lane refill_nexts refill_currents flush_overlay
first_lane-Fresh caps x = record { cur = refl; next = refl; no_output = refl }

-- One chunk after its first triplet was read.
pub record Started (caps : Capacity) (i : ℕ) (x : Streams) (l : Lane) (g : Share) : Type 0 where
  pub serves : Serves caps l g
  pub share : IsShare i g
  pub all_cur : due_cur g ≡ expand x.cs
  pub all_next : due_next g ≡ expand x.ns
  pub no_output : output l ≡ []

pub Started-Advanced :
    (caps : Capacity) (i : ℕ) (x : Streams) (l l' : Lane) (e : HeapElement)
    → IsStreams x
    → Fresh x l
    → (a : Advanced caps x.cs x.ns l e.current_rank e.next_rank e.count l') → e.chunk_id ≡ i
    → Started caps i x l'
        (record { head = some e; curs = pending_cur a.cs' l'; nexts = pending_next a.ns' l' })
Started-Advanced caps i x l l' e v f a own =
    let curs : expand x.cs ≡ replicate e.count e.current_rank ++ pending_cur a.cs' l' =
      sym f.cur ∙ a.cur_split in
    let nexts : expand x.ns ≡ replicate e.count e.next_rank ++ pending_next a.ns' l' =
      sym f.next ∙ a.next_split in
    let (after, later) =
      IsAscending-next e.count 0 0 e.current_rank e.next_rank (pending_cur a.cs' l')
        (pending_next a.ns' l') a.positive
        (subst₂ (λ p q. IsAscending 0 0 p q) curs nexts v.ascending) in
    let long =
      ap length curs ∙ length-append (replicate e.count e.current_rank) (pending_cur a.cs' l') in
    let long' =
      ap length nexts ∙ length-append (replicate e.count e.next_rank) (pending_next a.ns' l') in
    let k = length-replicate e.count e.current_rank in
    let k' = length-replicate e.count e.next_rank in
    record {
      serves = record {
        cs = a.cs';
        ns = a.ns';
        holds = a.holds;
        room = a.room;
        pend_cur = refl;
        pend_next = refl;
      };
      share = record {
        head_ok = (own, a.positive, later);
        same_size = omega (arith, v.same_size, long, long', k, k');
      };
      all_cur = sym curs;
      all_next = sym nexts;
      no_output = a.same_output ∙ f.no_output;
    }

pub Started-Ended :
    (caps : Capacity) (i : ℕ) (x : Streams) (l l' : Lane)
    → IsStreams x
    → Fresh x l
    → Ended caps x.cs x.ns l l'
    → Started caps i x l' (record { head = none; curs = expand x.cs; nexts = expand x.ns })
Started-Ended caps i x l l' v f d = record {
  serves = record {
    cs = x.cs;
    ns = [];
    holds = d.holds;
    room = d.room;
    pend_cur = d.same_cur ∙ f.cur;
    pend_next = rw d.none_left' (unfold expand in sym d.none_left ∙ f.next);
  };
  share = record { head_ok = sym f.next ∙ d.none_left; same_size = v.same_size };
  all_cur = refl;
  all_next = refl;
  no_output = d.same_output ∙ f.no_output;
}
