-- ===== src/Update/Compose.antt =====
-- The entries that src/update.c visits, put together: what two stretches of the suffix array do in turn.
use suffix_rank.Base.{
  ℕ, ◌+◌, ◌-◌, ◌≡◌, refl, ap, sym, ◌∙◌, inl, inr, true, List, [], ◌∷◌, ◌++◌, append-nil,
  append_assoc, arith, length, take, length-append, replicate, All, Bool-cases, Gives, gives,
  Gives-map, Gives-bind,
}
use suffix_rank.Format.{Int40}
use suffix_rank.Update.{State, survive_loop}
use suffix_rank.Update.Entries.{
  Mark, survivors, ranked, lowest, highest, Ready, Visited, length-ranked, survive_entry_lem,
}

All-left : (P : ℕ → Type 0) (ps qs : List ℕ) → All P (ps ++ qs) → All P ps
All-left P [] qs h = tt
All-left P (p ∷ ps) qs (a, h) = (a, All-left _ ps qs h)

All-right : (P : ℕ → Type 0) (ps qs : List ℕ) → All P (ps ++ qs) → All P qs
All-right P [] qs h = h
All-right P (p ∷ ps) qs (a, h) = All-right _ ps qs h

survivors-append :
    (ks ls : List Mark) (ps qs : List ℕ)
    → length ks ≡ length ps
    → survivors (ks ++ ls) (ps ++ qs) ≡ survivors ks ps ++ survivors ls qs
unfolding survivors
survivors-append [] ls [] qs h = refl
survivors-append [] ls (p ∷ ps) qs h = absurd (omega arith)
survivors-append (k ∷ ks) ls [] qs h = absurd (omega arith)
survivors-append (k ∷ ks) ls (p ∷ ps) qs h =
    let rest = survivors-append ks ls ps qs (omega arith) in
    elim (Bool-cases k.live) [ inl e ↦ rw e (ap (◌∷◌ p) rest) | inr e ↦ rw e rest ]

ranked-append :
    (ks ls : List Mark) (ps qs : List ℕ) (b : List Int40)
    → length ks ≡ length ps
    → ranked (ks ++ ls) (ps ++ qs) b ≡ ranked ls qs (ranked ks ps b)
unfolding ranked
ranked-append [] ls [] qs b h = refl
ranked-append [] ls (p ∷ ps) qs b h = absurd (omega arith)
ranked-append (k ∷ ks) ls [] qs b h = absurd (omega arith)
ranked-append (k ∷ ks) ls (p ∷ ps) qs b h = ranked-append ks ls ps qs _ (omega arith)

lowest-append : (ps qs : List ℕ) (a : ℕ) → lowest (ps ++ qs) a ≡ lowest qs (lowest ps a)
unfolding lowest
lowest-append [] qs a = refl
lowest-append (p ∷ ps) qs a = lowest-append ps qs _

highest-append : (ps qs : List ℕ) (a : ℕ) → highest (ps ++ qs) a ≡ highest qs (highest ps a)
unfolding highest
highest-append [] qs a = refl
highest-append (p ∷ ps) qs a = highest-append ps qs _

pub Visited-nil : (left : List ℕ) (s : State) → Ready [] left s → Visited [] [] left s s
unfolding survivors ranked lowest highest
Visited-nil left s v = record {
  next = v.next;
  behind = v.behind;
  moved = omega arith;
  same_length = refl;
  kept = sym (append-nil _);
  wrote = refl;
  low = refl;
  high = refl;
}

pub Visited-trans :
    {ks ls : List Mark} {ps qs left : List ℕ} {s t u : State}
    → length ks ≡ length ps
    → Visited ks ps (qs ++ left) s t
    → Visited ls qs left t u
    → Visited (ks ++ ls) (ps ++ qs) left s u
Visited-trans {ks = ks} {ls = ls} {ps = ps} {qs = qs} {left = left} {s = s} {t = t} {u = u} h a b =
    let e = survivors-append ks ls ps qs h in
    record {
      next = b.next;
      behind = b.behind;
      moved = omega (arith, length-append ps qs);
      same_length = b.same_length ∙ a.same_length;
      kept =
          b.kept
          ∙ ap (λ x. x ++ survivors ls qs) a.kept
          ∙ append_assoc (take (s.m - s.displacement) s.sa) (survivors ks ps) (survivors ls qs)
          ∙ ap (λ x. take (s.m - s.displacement) s.sa ++ x) (sym e);
      wrote = b.wrote ∙ ap (ranked ls qs) a.wrote ∙ sym (ranked-append ks ls ps qs s.ranks h);
      low =
          b.low
          ∙ ap (lowest (survivors ls qs)) a.low
          ∙ sym (lowest-append (survivors ks ps) (survivors ls qs) s.new_lo)
          ∙ ap (λ x. lowest x s.new_lo) (sym e);
      high =
          b.high
          ∙ ap (highest (survivors ls qs)) a.high
          ∙ sym (highest-append (survivors ks ps) (survivors ls qs) s.new_stop)
          ∙ ap (λ x. highest x s.new_stop) (sym e);
    }

pub Ready-left :
    {ps : List ℕ} (qs : List ℕ) {left : List ℕ} {s : State}
    → Ready (ps ++ qs) left s
    → Ready ps (qs ++ left) s
Ready-left {ps = ps} qs {left = left} {s = s} v = record {
  next = v.next ∙ append_assoc ps qs left;
  behind = v.behind;
  sized = ap (λ x. s.m + length x) (sym (append_assoc ps qs left)) ∙ v.sized;
  inside = All-left _ ps qs v.inside;
}

pub Ready-right :
    {ks : List Mark} {ps qs left : List ℕ} {s t : State}
    → Ready (ps ++ qs) left s
    → Visited ks ps (qs ++ left) s t
    → Ready qs left t
Ready-right {ks = ks} {ps = ps} {qs = qs} {left = left} {s = s} {t = t} v a =
    let same : length t.ranks ≡ length s.ranks = ap length a.wrote ∙ length-ranked ks ps s.ranks in
    record {
      next = a.next;
      behind = a.behind;
      sized = omega (
        arith,
        v.sized,
        a.moved,
        a.same_length,
        length-append (ps ++ qs) left,
        length-append ps qs,
        length-append qs left,
      );
      inside = rw same (All-right _ ps qs v.inside);
    }

pub survive_loop_lem :
    (rank : ℕ) (ps left : List ℕ) (s : State)
    → Ready ps left s
    → Gives
        (Visited (replicate (length ps) (record { rank = rank; live = true })) ps left s)
        (survive_loop (length ps) rank s)
unfolding survive_loop
survive_loop_lem rank [] left s v = gives (Visited-nil left s v)
survive_loop_lem rank (p ∷ ps) left s v =
    Gives-bind (survive_entry_lem rank p (ps ++ left) s (Ready-left {ps = p ∷ []} ps v)) λ t a.
      Gives-map (survive_loop_lem rank ps left t (Ready-right {ps = p ∷ []} {qs = ps} v a))
        λ u b. Visited-trans {ps = p ∷ []} {qs = ps} refl a b
