-- ===== src/Refine/Scan.antt =====
-- The scan of src/refine.cpp, against the maximal groups of equal next ranks.
use suffix_rank.Base.{
  ℕ, Option-cases, none, get_elem?, suc, ◌+◌, ◌<◌, ◌≡◌, refl, ◌∙◌, List, [], ◌∷◌, ◌++◌, map,
  append_assoc, append-nil, arith, length, get_or, get_elem?-eq-get_or, replicate,
  replicate-append-cons, ◌==◌, Bool-cases, inl, inr, Gives, Gives-bind, Gives-map, Gives-inv, some,
  All,
}
use suffix_rank.Format.{Int40, i40_load, RankRun, rankrun_emit}
use suffix_rank.Format.Runs.{Run, encode, encode_run}
use suffix_rank.Format.Groups.{group, group-step, group-last, Fits, Fits-of_le, Fits-length}
use suffix_rank.Format.Writer.{
  Writer, IsWriter, close_runs-eq-written, Extended, written, emit_run, emit_run_lem,
}
use suffix_rank.Refine.{scan, success, scan_runs}

-- The value that a read inside the buffer never takes.
abbrev pub unread : Int40
unread = record { b0 = 0; b1 = 0; b2 = 0; b3 = 0; b4 = 0 }

-- The ranks of the given local positions, in their order.
abbrev pub ranks_at : List Int40 → List ℕ → List ℕ
ranks_at ranks sa = map (λ p. i40_load (get_or ranks p unread)) sa

abbrev pub IsInside : List Int40 → List ℕ → Type 0
IsInside ranks sa = All (λ p. p < length ranks) sa

-- The runs `rs` stand behind what was written before.
abbrev pub Wrote : ℕ → Writer → List Run → Writer → Type 0
Wrote capacity w rs w' = IsWriter capacity w' × (written w' ≡ written w ++ encode rs)

Wrote-cons :
    {capacity : ℕ} (w u v : Writer) (r : Run) (rs : List Run)
    → Extended capacity w r u
    → Wrote capacity u rs v
    → Wrote capacity w (r ∷ rs) v
unfolding encode
Wrote-cons w u v r rs (_, e) (valid, f) =
    (valid, f ∙ rw e (append_assoc (written w) (encode_run r) (encode rs)))

emit_last :
    (capacity n c : ℕ) (w : Writer)
    → Fits capacity (suc c)
    → IsWriter capacity w
    → Gives (Wrote capacity w (group (replicate (suc c) n))) (emit_run capacity n (suc c) w)
emit_last capacity n c w fits v =
    let r : Run = record { rank = n; count = suc c } in
    Gives-map (emit_run_lem capacity w r (Fits-length r fits (omega arith)) v) λ w' ext.
      rw (group-last n c) (unfold encode in (ext.0, ext.1 ∙ rw (append-nil (encode_run r)) refl))

pub scan_runs_lem :
    (capacity : ℕ) (ranks : List Int40) (sa : List ℕ) (n c : ℕ) (w : Writer)
    → Fits capacity (suc c + length sa)
    → IsWriter capacity w
    → IsInside ranks sa
    → Gives
        (Wrote capacity w (group (replicate (suc c) n ++ ranks_at ranks sa)))
        (scan_runs capacity ranks sa n (suc c) w)
unfolding scan_runs
scan_runs_lem capacity ranks [] n c w fits v inside =
    rw (append-nil (replicate (suc c) n))
      (emit_last capacity n c w (Fits-of_le (suc c) fits (omega arith)) v)
scan_runs_lem capacity ranks (p ∷ sa) n c w fits v inside =
    let x = i40_load (get_or ranks p unread) in
    rw (get_elem?-eq-get_or ranks p unread inside.0) (elim (Bool-cases (x == n)) [
      | inl same ↦
          let e : x ≡ n = ground arith in
          rw (same, e, replicate-append-cons c n (ranks_at ranks sa))
            (scan_runs_lem capacity ranks sa n (suc c) w (Fits-of_le _ fits (omega arith)) v
              inside.1)
      | inr new ↦
          let r : Run = record { rank = n; count = suc c } in
          rw (new, group-step n c x (ranks_at ranks sa) new)
            (Gives-bind (emit_run_lem capacity w r (Fits-length r fits (omega arith)) v) λ u ext.
              Gives-map
                (scan_runs_lem capacity ranks sa x 0 u (Fits-of_le _ fits (omega arith)) ext.0
                  inside.1)
                λ w' wrote. Wrote-cons w u w' r (group (x ∷ ranks_at ranks sa)) ext wrote)
    ])

-- With a buffer of at least two records, or one record and short runs, the scan stays inside its
-- buffer, is a success, and appends the maximal groups of the ranks that it reads to the file.
pub scan_lem :
    (capacity : ℕ) (ranks : List Int40) (p : ℕ) (sa : List ℕ) (runs nexts : List RankRun)
    → Fits capacity (suc (length sa))
    → length runs ≡ capacity
    → IsInside ranks (p ∷ sa)
    → scan capacity ranks (p ∷ sa) (record { buf = runs; out_count = 0; file = nexts })
      ≡ some (success, nexts ++ encode (group (ranks_at ranks (p ∷ sa))))
unfolding scan
scan_lem capacity ranks p sa runs nexts fits size inside =
    let w : Writer = record { buf = runs; out_count = 0; file = nexts } in
    let x = i40_load (get_or ranks p unread) in
    let (w', e, (valid, wrote)) = Gives-inv (
      scan_runs_lem capacity ranks sa x 0 w (Fits-of_le _ fits (omega arith)) (omega arith)
        inside.1) in
    rw
      (
        get_elem?-eq-get_or ranks p unread inside.0,
        e,
        close_runs-eq-written w',
        wrote,
        append-nil nexts,
      )
      refl

-- With no room at all, the first run that the scan emits faults.
abbrev full : List RankRun → Writer
full nexts = record { buf = []; out_count = 0; file = nexts }

emit_run-overflow : (n c : ℕ) (nexts : List RankRun) → emit_run 0 n c (full nexts) ≡ none
unfolding emit_run rankrun_emit
emit_run-overflow n c nexts = ground arith

scan_runs-overflow :
    (ranks : List Int40) (sa : List ℕ) (n c : ℕ) (nexts : List RankRun)
    → scan_runs 0 ranks sa n c (full nexts) ≡ none
unfolding scan_runs
scan_runs-overflow ranks [] n c nexts = emit_run-overflow n c nexts
scan_runs-overflow ranks (p ∷ sa) n c nexts =
    ground (arith, emit_run-overflow n c nexts, scan_runs-overflow ranks sa n (suc c) nexts)

pub scan-overflow :
    (ranks : List Int40) (p : ℕ) (sa : List ℕ) (nexts : List RankRun)
    → scan 0 ranks (p ∷ sa) (full nexts) ≡ none
unfolding scan
scan-overflow ranks p sa nexts = elim (Option-cases (get_elem? ranks p)) [
  | inl outside ↦ rw outside
  | inr (v, e) ↦ rw (e, scan_runs-overflow ranks sa (i40_load v) 1 nexts)
]
