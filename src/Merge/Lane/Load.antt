-- ===== src/Merge/Lane/Load.antt =====
-- next_triplet of src/merge.c: how it brings a run of each stream under the cursor.
use suffix_rank.Base.{
  ℕ, ◌<◌, ◌≡◌, refl, ap, ◌∙◌, true, List, [], ◌∷◌, ◌++◌, arith, replicate, ◌==◌, Bool-cases, inl,
  inr, Gives, gives,
}
use suffix_rank.Format.Runs.{Run, encode, expand, IsStorable}
use suffix_rank.Merge.{Outcome, success, empty, failure}
use suffix_rank.Merge.Lane.{Lane, Capacity, nexts, currents, load_next, load_cur}
use suffix_rank.Merge.Lane.Invariant.{remaining, avail, output, IsLane}
use suffix_rank.Merge.Lane.Decode.{decode_rankrun_lem, decode_rankrun_end}

-- The streams of the lane hold the runs `cs` and `ns`, and once a run of nexts is under the cursor
-- there is room for output.
pub record Holds (caps : Capacity) (cs ns : List Run) (l : Lane) : Type 0 where
  pub ok : IsLane caps l
  pub storable_cs : IsStorable cs
  pub storable_ns : IsStorable ns
  pub currents_left : remaining l.currents_in ≡ encode cs
  pub nexts_left : remaining l.nexts_in ≡ encode ns
  pub started : 0 < l.cursor.next_rem → 0 < avail caps l

-- The current and the next ranks that are still to be walked, one for each entry.
abbrev pub pending_cur : List Run → Lane → List ℕ
pending_cur cs l = replicate l.cursor.cur_rem l.cursor.cur_rank ++ expand cs

abbrev pub pending_next : List Run → Lane → List ℕ
pending_next ns l = replicate l.cursor.next_rem l.cursor.next_rank ++ expand ns

-- A run of nexts is under the cursor, and nothing was lost.
pub record NextLoaded (caps : Capacity) (cs ns : List Run) (l m : Lane) : Type 0 where
  pub ns' : List Run
  pub holds : Holds caps cs ns' m
  pub under : 0 < m.cursor.next_rem
  pub same_next : pending_next ns' m ≡ pending_next ns l
  pub same_cur : pending_cur cs m ≡ pending_cur cs l
  pub same_output : output m ≡ output l

pub record NextEnded (caps : Capacity) (cs ns : List Run) (l m : Lane) : Type 0 where
  pub holds : Holds caps cs [] m
  pub none_left : pending_next ns l ≡ []
  pub none_left' : m.cursor.next_rem ≡ 0
  pub room : 0 < avail caps m
  pub same_cur : pending_cur cs m ≡ pending_cur cs l
  pub same_output : output m ≡ output l

abbrev pub AfterNext : Capacity → List Run → List Run → Lane → Outcome (Unit {0}) × Lane → Type 0
AfterNext caps cs ns l (success _, m) = NextLoaded caps cs ns l m
AfterNext caps cs ns l (empty, m) = NextEnded caps cs ns l m
AfterNext caps cs ns l (failure, m) = ⊥

load_next_decoded :
    (caps : Capacity) (cs ns : List Run) (l : Lane)
    → Holds caps cs ns l
    → l.cursor.next_rem ≡ 0
    → Gives (AfterNext caps cs ns l) (load_next caps l)
unfolding load_next encode expand
load_next_decoded caps cs [] l v zero_rem =
    let (m, run, after, kept) = decode_rankrun_end caps nexts l v.ok v.nexts_left in
    let decodes : (l.cursor.next_rem == 0) ≡ true = ground arith in
    rw (decodes, run)
      (gives (record {
        holds = record {
          ok = kept.ok;
          storable_cs = v.storable_cs;
          storable_ns = tt;
          currents_left = ap remaining kept.same_other ∙ v.currents_left;
          nexts_left = after;
          started = λ h. kept.roomy;
        };
        none_left = rw zero_rem refl;
        none_left' = rw kept.same_cursor zero_rem;
        room = kept.roomy;
        same_cur = rw kept.same_cursor refl;
        same_output = kept.same_output;
      }))
load_next_decoded caps cs (r ∷ ns) l v zero_rem =
    let (hr, pos, hc, rest) = v.storable_ns in
    let (m, run, after, kept) =
      decode_rankrun_lem caps nexts l r (encode ns) v.ok hr hc v.nexts_left in
    let decodes : (l.cursor.next_rem == 0) ≡ true = ground arith in
    rw (decodes, run)
      (gives (record {
        ns' = ns;
        holds = record {
          ok = record {
            nexts_ok = kept.ok.nexts_ok;
            currents_ok = kept.ok.currents_ok;
            overlay = kept.ok.overlay;
            inside = kept.ok.inside;
          };
          storable_cs = v.storable_cs;
          storable_ns = rest;
          currents_left = ap remaining kept.same_other ∙ v.currents_left;
          nexts_left = after;
          started = λ h. kept.roomy;
        };
        under = pos;
        same_next = rw zero_rem refl;
        same_cur = rw kept.same_cursor refl;
        same_output = kept.same_output;
      }))

pub load_next_lem :
    (caps : Capacity) (cs ns : List Run) (l : Lane)
    → Holds caps cs ns l
    → Gives (AfterNext caps cs ns l) (load_next caps l)
load_next_lem caps cs ns l v = elim (Bool-cases (l.cursor.next_rem == 0)) [
  | inl spent ↦ load_next_decoded caps cs ns l v (ground arith)
  | inr left ↦
      unfold load_next in
      rw left (
        gives (record {
          ns' = ns;
          holds = v;
          under = ground arith;
          same_next = refl;
          same_cur = refl;
          same_output = refl;
        }))
]

-- A run of currents is under the cursor too.
pub record CurLoaded (caps : Capacity) (cs ns : List Run) (l m : Lane) : Type 0 where
  pub cs' : List Run
  pub holds : Holds caps cs' ns m
  pub under : 0 < m.cursor.cur_rem
  pub under_next : 0 < m.cursor.next_rem
  pub same_next : pending_next ns m ≡ pending_next ns l
  pub same_cur : pending_cur cs' m ≡ pending_cur cs l
  pub same_output : output m ≡ output l

abbrev pub AfterCur : Capacity → List Run → List Run → Lane → Outcome (Unit {0}) × Lane → Type 0
AfterCur caps cs ns l (success _, m) = CurLoaded caps cs ns l m
AfterCur caps cs ns l (empty, m) = ⊥
AfterCur caps cs ns l (failure, m) = pending_cur cs l ≡ []

load_cur_decoded :
    (caps : Capacity) (cs ns : List Run) (l : Lane)
    → Holds caps cs ns l
    → 0 < l.cursor.next_rem
    → l.cursor.cur_rem ≡ 0
    → Gives (AfterCur caps cs ns l) (load_cur caps l)
unfolding load_cur encode expand
load_cur_decoded caps [] ns l v under zero_rem =
    let (m, run, after, kept) = decode_rankrun_end caps currents l v.ok v.currents_left in
    let decodes : (l.cursor.cur_rem == 0) ≡ true = ground arith in
    rw (decodes, run) (gives (rw zero_rem refl))
load_cur_decoded caps (r ∷ cs) ns l v under zero_rem =
    let (hr, pos, hc, rest) = v.storable_cs in
    let (m, run, after, kept) =
      decode_rankrun_lem caps currents l r (encode cs) v.ok hr hc v.currents_left in
    let decodes : (l.cursor.cur_rem == 0) ≡ true = ground arith in
    let still : 0 < m.cursor.next_rem = rw kept.same_cursor under in
    rw (decodes, run)
      (gives (record {
        cs' = cs;
        holds = record {
          ok = record {
            nexts_ok = kept.ok.nexts_ok;
            currents_ok = kept.ok.currents_ok;
            overlay = kept.ok.overlay;
            inside = kept.ok.inside;
          };
          storable_cs = rest;
          storable_ns = v.storable_ns;
          currents_left = after;
          nexts_left = ap remaining kept.same_other ∙ v.nexts_left;
          started = λ h. rw kept.roomy (v.started under);
        };
        under = pos;
        under_next = still;
        same_next = rw kept.same_cursor refl;
        same_cur = rw zero_rem refl;
        same_output = kept.same_output;
      }))

pub load_cur_lem :
    (caps : Capacity) (cs ns : List Run) (l : Lane)
    → Holds caps cs ns l
    → 0 < l.cursor.next_rem
    → Gives (AfterCur caps cs ns l) (load_cur caps l)
load_cur_lem caps cs ns l v under = elim (Bool-cases (l.cursor.cur_rem == 0)) [
  | inl spent ↦ load_cur_decoded caps cs ns l v under (ground arith)
  | inr left ↦
      unfold load_cur in
      rw left (
        gives (record {
          cs' = cs;
          holds = v;
          under = ground arith;
          under_next = under;
          same_next = refl;
          same_cur = refl;
          same_output = refl;
        }))
]
