-- ===== src/Update/Runs.antt =====
-- The loop of src/update.c over the records of global_<id>, run by run.
use mathlib.Core.Path.{subst}
use suffix_rank.Base.{
  length-take, length-drop, take-append-drop, ℕ, ◌^◌, ◌<◌, ◌≤◌, ◌≡◌, refl, ap, sym, ◌∙◌, inl, inr,
  true, false, List, [], ◌∷◌, ◌++◌, append-nil, append_assoc, Option, none, some, arith, length,
  take, drop, length-append, length-replicate, ltb, ◌==◌, if◌then◌else◌, Bool-cases, ◌>>=◌, Gives,
  gives, Gives-map, Gives-bind,
}
use suffix_rank.Format.{RankRun, i40_store, count_escape}
use suffix_rank.Format.Bytes.{i40_load-store}
use suffix_rank.Format.Runs.{Run, encode_run, encode, length-encode_run}
use suffix_rank.Format.Writer.{Writer, IsWriter, written, emit_run_lem}
use suffix_rank.Update.{State, survive_loop, apply_run, apply_records}
use suffix_rank.Update.Entries.{Mark, marks_of, marks, Ready, Visited, resolve_entry_lem}
use suffix_rank.Update.Compose.{
  Visited-nil, Visited-trans, Ready-left, Ready-right, survive_loop_lem,
}

-- The runs that the next currents stream keeps.
unfoldable pub carried : List Run → List Run
carried [] = []
carried (r ∷ rs) = if r.count == 0 then carried rs else r ∷ carried rs

-- Both parts of the loop's state after some runs.
pub record Passed (capacity : ℕ) (rs : List Run) (ps left : List ℕ) (a b : State × Writer)
    : Type 0 where
  pub visited : Visited (marks rs) ps left a.0 b.0
  pub is_writer : IsWriter capacity b.1
  pub emitted : written b.1 ≡ written a.1 ++ encode (carried rs)

one_run :
    (capacity : ℕ) (r : Run) (ps left : List ℕ) (s t : State) (w w' : Writer)
    → Visited (marks_of r) ps left s t
    → IsWriter capacity w'
    → written w' ≡ written w ++ encode (carried (r ∷ []))
    → Passed capacity (r ∷ []) ps left (s, w) (t, w')
unfolding marks
one_run capacity r ps left s t w w' a v e = record {
  visited = rw (append-nil (marks_of r)) a;
  is_writer = v;
  emitted = e;
}

apply_run_gone :
    (capacity : ℕ) (r : Run) (ps left : List ℕ) (s : State) (w : Writer)
    → (r.count == 0) ≡ true
    → length (marks_of r) ≡ length ps
    → Ready ps left s
    → IsWriter capacity w
    → Gives (Passed capacity (r ∷ []) ps left (s, w)) (apply_run capacity r.rank r.count (s, w))
unfolding apply_run carried encode
apply_run_gone capacity r [] left s w gone h v q =
    let one : length (marks_of r) ≡ 1 = rw gone refl in absurd (omega arith)
apply_run_gone capacity r (p ∷ []) left s w gone h v q = rw gone (
    Gives-bind (resolve_entry_lem r.rank p left s v) λ t a.
      gives (one_run capacity r (p ∷ []) left s t w w (rw gone a) q (rw gone (sym (append-nil _)))))
apply_run_gone capacity r (p ∷ p' ∷ ps) left s w gone h v q =
    let one : length (marks_of r) ≡ 1 = rw gone refl in absurd (omega arith)

apply_run_more :
    (capacity : ℕ) (r : Run) (ps left : List ℕ) (s : State) (w : Writer)
    → 2 ≤ capacity
    → (r.count == 0) ≡ false
    → length (marks_of r) ≡ length ps
    → Ready ps left s
    → IsWriter capacity w
    → Gives (Passed capacity (r ∷ []) ps left (s, w)) (apply_run capacity r.rank r.count (s, w))
unfolding apply_run carried encode
apply_run_more capacity r ps left s w two more h v q =
    let live : Mark = record { rank = r.rank; live = true } in
    let same : length (marks_of r) ≡ r.count = rw more (length-replicate r.count live) in
    let all : r.count ≡ length ps = sym same ∙ h in
    let looped : Gives (Visited (marks_of r) ps left s) (survive_loop r.count r.rank s) =
      rw more (rw all (survive_loop_lem r.rank ps left s v)) in
    rw more (
      Gives-bind looped λ t a.
        Gives-bind (emit_run_lem capacity w r (omega (arith, length-encode_run r)) q) λ w' (q', e).
          gives (
            one_run capacity r ps left s t w w' a q'
              (rw more (e ∙ ap (λ x. written w ++ x) (sym (append-nil (encode_run r)))))))

apply_run_lem :
    (capacity : ℕ) (r : Run) (ps left : List ℕ) (s : State) (w : Writer)
    → 2 ≤ capacity
    → length (marks_of r) ≡ length ps
    → Ready ps left s
    → IsWriter capacity w
    → Gives (Passed capacity (r ∷ []) ps left (s, w)) (apply_run capacity r.rank r.count (s, w))
apply_run_lem capacity r ps left s w two h v q = elim (Bool-cases (r.count == 0)) [
  | inl gone ↦ apply_run_gone capacity r ps left s w gone h v q
  | inr more ↦ apply_run_more capacity r ps left s w two more h v q
]

-- Ranks and counts that 40 bits hold.
abbrev pub AreStored : List Run → Type 0
AreStored [] = Unit {0}
AreStored (r ∷ rs) = (r.rank < 2 ^ 40) × (r.count < 2 ^ 40) × AreStored rs

apply_records-nil :
    (capacity : ℕ) (x : Option (State × Writer)) → (x >>= apply_records capacity []) ≡ x
unfolding apply_records
apply_records-nil capacity none = refl
apply_records-nil capacity (some a) = refl

apply_records-plain :
    (capacity rank count : ℕ) (gs : List RankRun) (a : State × Writer)
    → rank < 2 ^ 40
    → (count == count_escape) ≡ false
    → apply_records capacity (record { rank = i40_store rank; count = count } ∷ gs) a
      ≡ (apply_run capacity rank count a >>= apply_records capacity gs)
unfolding apply_records
apply_records-plain capacity rank count [] a h e =
    rw (e, i40_load-store rank h) (sym (apply_records-nil capacity _))
apply_records-plain capacity rank count (g ∷ gs) a h e = rw (e, i40_load-store rank h) refl

-- The loop takes the records of a run together.
apply_records-run :
    (capacity : ℕ) (r : Run) (gs : List RankRun) (a : State × Writer)
    → r.rank < 2 ^ 40
    → r.count < 2 ^ 40
    → apply_records capacity (encode_run r ++ gs) a
      ≡ (apply_run capacity r.rank r.count a >>= apply_records capacity gs)
unfolding encode_run
apply_records-run capacity r gs a h k = elim (Bool-cases (ltb r.count count_escape)) [
  | inl small ↦ rw small (apply_records-plain capacity r.rank r.count gs a h (ground arith))
  | inr large ↦
      rw large (unfold apply_records in rw (i40_load-store r.rank h, i40_load-store r.count k) refl)
]

Passed-trans :
    {capacity : ℕ} {r : Run} {rs : List Run} {ps qs left : List ℕ} {a b c : State × Writer}
    → length (marks_of r) ≡ length ps
    → Passed capacity (r ∷ []) ps (qs ++ left) a b
    → Passed capacity rs qs left b c
    → Passed capacity (r ∷ rs) (ps ++ qs) left a c
unfolding marks
Passed-trans {capacity = capacity} {r = r} {rs = rs} {ps = ps} {qs = qs} {left = left} {a = a}
      {b = b} {c = c} h u v =
    let first : Visited (marks_of r) ps (qs ++ left) a.0 b.0 =
      rw (append-nil (marks_of r)) at u.visited in
    let joined : encode (carried (r ∷ [])) ++ encode (carried rs) ≡ encode (carried (r ∷ rs)) =
      unfold carried encode in
      elim (Bool-cases (r.count == 0)) [
        | inl e ↦ rw e refl
        | inr e ↦ rw e (ap (λ x. x ++ encode (carried rs)) (append-nil (encode_run r)))
      ] in
    record {
      visited = Visited-trans {ps = ps} {qs = qs} h first v.visited;
      is_writer = v.is_writer;
      emitted =
          v.emitted
          ∙ ap (λ x. x ++ encode (carried rs)) u.emitted
          ∙ append_assoc (written a.1) (encode (carried (r ∷ []))) (encode (carried rs))
          ∙ ap (λ x. written a.1 ++ x) joined;
    }

apply_records_step :
    (capacity : ℕ) (r : Run) (rs : List Run) (ps qs left : List ℕ) (s : State) (w : Writer)
    → 2 ≤ capacity
    → AreStored (r ∷ rs)
    → length (marks_of r) ≡ length ps
    → Ready (ps ++ qs) left s
    → IsWriter capacity w
    → ((t : State) (w' : Writer)
        → Ready qs left t
        → IsWriter capacity w'
        → Gives (Passed capacity rs qs left (t, w')) (apply_records capacity (encode rs) (t, w')))
    → Gives
        (Passed capacity (r ∷ rs) (ps ++ qs) left (s, w))
        (apply_records capacity (encode (r ∷ rs)) (s, w))
unfolding encode
apply_records_step capacity r rs ps qs left s w two (h, k, rest) same v q rec =
    rw (apply_records-run capacity r (encode rs) (s, w) h k) (
      Gives-bind
        (apply_run_lem capacity r ps (qs ++ left) s w two same (Ready-left {ps = ps} qs v) q)
        λ (t, w') u.
          let first : Visited (marks_of r) ps (qs ++ left) s t =
            unfold marks in rw (append-nil (marks_of r)) at u.visited in
          Gives-map (rec t w' (Ready-right {ps = ps} {qs = qs} v first) u.is_writer)
            λ c z. Passed-trans {ps = ps} {qs = qs} same u z)

pub apply_records_lem :
    (capacity : ℕ) (rs : List Run) (ps left : List ℕ) (s : State) (w : Writer)
    → 2 ≤ capacity
    → AreStored rs
    → length (marks rs) ≡ length ps
    → Ready ps left s
    → IsWriter capacity w
    → Gives (Passed capacity rs ps left (s, w)) (apply_records capacity (encode rs) (s, w))
unfolding marks
apply_records_lem capacity [] [] left s w two st same v q =
    unfold apply_records encode in
    gives (record {
      visited = Visited-nil left s v;
      is_writer = q;
      emitted = unfold carried in sym (append-nil _);
    })
apply_records_lem capacity [] (p ∷ ps) left s w two st same v q = absurd (omega arith)
apply_records_lem capacity (r ∷ rs) ps left s w two st same v q =
    let n = length (marks_of r) in
    let whole : take n ps ++ drop n ps ≡ ps = take-append-drop n ps in
    let total = same in
    let first : n ≡ length (take n ps) =
      omega (arith, same, length-append (marks_of r) (marks rs), length-take n ps) in
    let second : length (marks rs) ≡ length (drop n ps) =
      omega (arith, same, length-append (marks_of r) (marks rs), length-drop n ps) in
    subst
      (λ x.
        Gives (Passed capacity (r ∷ rs) x left (s, w))
          (apply_records capacity (encode (r ∷ rs)) (s, w)))
      whole
      (apply_records_step capacity r rs (take n ps) (drop n ps) left s w two st first
        (subst (λ x. Ready x left s) (sym whole) v) q
        λ t w' v' q'. apply_records_lem capacity rs (drop n ps) left t w' two st.2 second v' q')
