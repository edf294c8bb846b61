-- ===== src/Update/Entries.antt =====
-- The loops of src/update.c over the entries of a chunk's suffix array, against what they stand for:
-- the survivors in their order, a rank written at each position, and the window of the survivors.
use native.Mathlib.Numerals.{add-one}
use suffix_rank.Base.{
  ℕ, suc, ◌+◌, ◌-◌, ◌<◌, ◌≤◌, ◌≡◌, refl, sym, ◌∙◌, inl, inr, Bool, true, false, List, [], ◌∷◌, ◌++◌,
  append-nil, arith, length, store_of_lt, set, take, drop, length-set, get_elem?_of_drop, drop-suc,
  take-suc_of_drop, take-add_one-set, drop-set_of_lt, replicate, All, ltb, ◌==◌, if◌then◌else◌,
  Bool-cases, Gives, gives,
}
use suffix_rank.Format.{Int40, i40_store}
use suffix_rank.Format.Runs.{Run}
use suffix_rank.Update.{State, resolve_entry, survive_entry}

-- What the merge says of one entry: its rank, and whether it is still unresolved.
pub record Mark : Type 0 where
  pub rank : ℕ
  pub live : Bool

-- The entries that a run covers: a count of 0 stands for one resolved suffix.
abbrev pub marks_of : Run → List Mark
marks_of r =
    if r.count == 0
    then record { rank = r.rank; live = false } ∷ []
    else replicate r.count (record { rank = r.rank; live = true })

unfoldable pub marks : List Run → List Mark
marks [] = []
marks (r ∷ rs) = marks_of r ++ marks rs

-- The positions whose mark is live, in their order.
unfoldable pub survivors : List Mark → List ℕ → List ℕ
survivors [] ps = []
survivors (k ∷ ks) [] = []
survivors (k ∷ ks) (p ∷ ps) = if k.live then p ∷ survivors ks ps else survivors ks ps

-- The rank buffer with the rank of each mark written at its position.
unfoldable pub ranked : List Mark → List ℕ → List Int40 → List Int40
ranked [] ps b = b
ranked (k ∷ ks) [] b = b
ranked (k ∷ ks) (p ∷ ps) b = ranked ks ps (set b p (i40_store k.rank))

-- The smallest of some positions and `a`, and the end of the smallest range from 0 that holds them.
unfoldable pub lowest : List ℕ → ℕ → ℕ
lowest [] a = a
lowest (p ∷ ps) a = lowest ps (if ltb p a then p else a)

unfoldable pub highest : List ℕ → ℕ → ℕ
highest [] a = a
highest (p ∷ ps) a = highest ps (if ltb a (p + 1) then p + 1 else a)

-- The entries `ps` stand next in the suffix array, with `left` behind them.
pub record Ready (ps left : List ℕ) (s : State) : Type 0 where
  pub next : drop s.m s.sa ≡ ps ++ left
  pub behind : s.displacement ≤ s.m
  pub sized : s.m + length (ps ++ left) ≡ length s.sa
  pub inside : All (λ p. p < length s.ranks) ps

-- The entries `ps` were visited with the marks `ks`.
pub record Visited (ks : List Mark) (ps left : List ℕ) (s t : State) : Type 0 where
  pub next : drop t.m t.sa ≡ left
  pub behind : t.displacement ≤ t.m
  pub moved : t.m ≡ s.m + length ps
  pub same_length : length t.sa ≡ length s.sa
  pub kept : take (t.m - t.displacement) t.sa ≡ take (s.m - s.displacement) s.sa ++ survivors ks ps
  pub wrote : t.ranks ≡ ranked ks ps s.ranks
  pub low : t.new_lo ≡ lowest (survivors ks ps) s.new_lo
  pub high : t.new_stop ≡ highest (survivors ks ps) s.new_stop

pub length-ranked :
    (ks : List Mark) (ps : List ℕ) (b : List Int40) → length (ranked ks ps b) ≡ length b
unfolding ranked
length-ranked [] ps b = refl
length-ranked (k ∷ ks) [] b = refl
length-ranked (k ∷ ks) (p ∷ ps) b =
    length-ranked ks ps (set b p (i40_store k.rank)) ∙ length-set b p (i40_store k.rank)

pub resolve_entry_lem :
    (rank p : ℕ) (left : List ℕ) (s : State)
    → Ready (p ∷ []) left s
    → Gives
        (Visited (record { rank = rank; live = false } ∷ []) (p ∷ []) left s)
        (resolve_entry rank s)
unfolding resolve_entry survivors ranked lowest highest
resolve_entry_lem rank p left s v =
    let less : s.m + 1 - (s.displacement + 1) ≡ s.m - s.displacement = omega arith in
    rw (get_elem?_of_drop s.m s.sa p left v.next, store_of_lt s.ranks p (i40_store rank) v.inside.0)
      (gives (record {
        next = rw (add-one s.m) (drop-suc s.m s.sa p left v.next);
        behind = omega arith;
        moved = refl;
        same_length = refl;
        kept = rw less (sym (append-nil _));
        wrote = refl;
        low = refl;
        high = refl;
      }))

pub survive_entry_lem :
    (rank p : ℕ) (left : List ℕ) (s : State)
    → Ready (p ∷ []) left s
    → Gives
        (Visited (record { rank = rank; live = true } ∷ []) (p ∷ []) left s)
        (survive_entry rank s)
unfolding survive_entry survivors ranked lowest highest
survive_entry_lem rank p left s v =
    rw (get_elem?_of_drop s.m s.sa p left v.next, store_of_lt s.ranks p (i40_store rank) v.inside.0)
      (elim (Bool-cases (s.displacement == 0)) [
        | inl still ↦
            let none_gone : s.displacement ≡ 0 = ground arith in
            let e : s.m + 1 - s.displacement ≡ suc s.m = omega arith in
            let e' : s.m - s.displacement ≡ s.m = omega arith in
            rw still (
              gives (record {
                next = rw (add-one s.m) (drop-suc s.m s.sa p left v.next);
                behind = omega arith;
                moved = refl;
                same_length = refl;
                kept = rw (e, e') (take-suc_of_drop s.m s.sa p left v.next);
                wrote = refl;
                low = refl;
                high = refl;
              }))
        | inr gap ↦
            let some_gone : 0 < s.displacement = ground arith in
            let i = s.m - s.displacement in
            let in_range : i < length s.sa = omega arith in
            let e : s.m + 1 - s.displacement ≡ i + 1 = omega arith in
            rw (gap, store_of_lt s.sa i p in_range)
              (gives (record {
                next =
                    drop-set_of_lt s.sa i (s.m + 1) p (omega arith)
                    ∙ rw (add-one s.m) (drop-suc s.m s.sa p left v.next);
                behind = omega arith;
                moved = refl;
                same_length = length-set s.sa i p;
                kept = rw e (take-add_one-set s.sa i p in_range);
                wrote = refl;
                low = refl;
                high = refl;
              }))
      ])
