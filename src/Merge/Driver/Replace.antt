-- ===== src/Merge/Driver/Replace.antt =====
-- What one round of merge_runs in src/merge.c replaces: the lane and the share of one chunk.
use mathlib.Core.List.{Perm}
use mathlib.Core.Path.{subst₂}
use suffix_rank.Base.{
  ℕ, zero, suc, ◌<◌, ◌≡◌, refl, ap, sym, ◌∙◌, false, List, ◌∷◌, ◌++◌, some, arith, length,
  length-append, length-replicate, get_or-set, set, replicate, All, Bool-cases, inl, inr, ◌==◌,
}
use suffix_rank.Format.Runs.{Run}
use suffix_rank.Merge.{HeapElement}
use suffix_rank.Merge.Heap.{above}
use suffix_rank.Merge.Heap.Order.{LexLe-Precedes}
use suffix_rank.Merge.Lane.{Lane, Capacity}
use suffix_rank.Merge.Lane.Invariant.{output}
use suffix_rank.Merge.Lane.Load.{pending_cur, pending_next}
use suffix_rank.Merge.Lane.Walk.{Advanced}
use suffix_rank.Merge.Driver.{Manager}
use suffix_rank.Merge.Driver.Shares.{
  Share, no_share, heads, without_head, heads-pick, tally-Perm, tally-All, All-tally, weight,
}
use suffix_rank.Merge.Driver.State.{
  share_at, IsAscending, IsAscending-skip, HeadOk-some, IsShare, IsMerge, due_cur, due_next, IsTop,
  PairLe,
}
use suffix_rank.Merge.Driver.Writes.{no_lane, lane_at, Serves}

-- The lane and the share of one chunk are replaced.
pub Serves-set :
    (caps : Capacity) (n : ℕ) (gs : List Share) (lanes : List Lane) (c : ℕ) (l : Lane) (g : Share)
    → length lanes ≡ n
    → length gs ≡ n
    → c < n
    → Serves caps l g
    → ((i : ℕ) → i < n → Serves caps (lane_at lanes i) (share_at gs i))
    → (i : ℕ) → i < n
    → Serves caps (lane_at (set lanes c l) i) (share_at (set gs c g) i)
Serves-set caps n gs lanes c l g size size' inside s all i h =
    rw (get_or-set lanes c i l no_lane (omega arith), get_or-set gs c i g no_share (omega arith))
      (elim (Bool-cases (c == i)) [ inl own ↦ rw own s | inr other ↦ rw other (all i h) ])

pub shares-set :
    (n : ℕ) (gs : List Share) (c : ℕ) (g : Share)
    → length gs ≡ n
    → c < n
    → IsShare c g
    → ((i : ℕ) → i < n → IsShare i (share_at gs i))
    → (i : ℕ) → i < n
    → IsShare i (share_at (set gs c g) i)
shares-set n gs c g size inside s all i h =
    rw (get_or-set gs c i g no_share (omega arith)) (elim (Bool-cases (c == i)) [
      | inl own ↦ let e : c ≡ i = ground arith in rw own (rw (← e) s)
      | inr other ↦ rw other (all i h)
    ])

pub output-set :
    (lanes : List Lane) (c : ℕ) (l : Lane)
    → c < length lanes
    → output l ≡ output (lane_at lanes c)
    → (i : ℕ) → output (lane_at (set lanes c l) i) ≡ output (lane_at lanes i)
output-set lanes c l inside same i =
    rw (get_or-set lanes c i l no_lane inside) (elim (Bool-cases (c == i)) [
      | inl own ↦ let e : c ≡ i = ground arith in rw own (rw (← e) same)
      | inr other ↦ rw other refl
    ])

-- What is left of the share, if its streams yield another triplet.
abbrev pub next_share : List Run → List Run → HeapElement → Lane → Share
next_share cs ns x l = record { head = some x; curs = pending_cur cs l; nexts = pending_next ns l }

pub IsAscending-next :
    (count c n x y : ℕ) (xs ys : List ℕ)
    → 0 < count
    → IsAscending c n (replicate count x ++ xs) (replicate count y ++ ys)
    → PairLe c n x y × IsAscending x y xs ys
IsAscending-next zero c n x y xs ys h a = absurd (omega arith)
IsAscending-next (suc k) c n x y xs ys h a = IsAscending-skip k c n x y xs ys a

-- The heads behind the first one.
pub heads-behind :
    (caps : Capacity) (n : ℕ) (gs : List Share) (m : Manager) (e : HeapElement)
    → IsMerge caps n gs m
    → IsTop n gs m e
    → Perm (heads gs) (e ∷ heads (set gs e.chunk_id (without_head (share_at gs e.chunk_id))))
heads-behind caps n gs m e v t =
    heads-pick gs e.chunk_id e (omega (arith, v.shares_size, t.inside)) t.head

pub behind-All :
    (e : HeapElement) (gs : List Share) (rest : List HeapElement)
    → Perm (heads gs) (e ∷ rest)
    → All (λ b. above e b ≡ false) (heads gs)
    → All (λ b. above e b ≡ false) rest
behind-All e gs rest p first =
    (tally-All (above e) (e ∷ rest)
      (sym (tally-Perm (above e) p) ∙ All-tally (above e) (heads gs) first)).1

pub weight-some : (g : Share) (e : HeapElement) → g.head ≡ some e → weight g ≡ suc (length g.nexts)
weight-some g e h = rw h refl

-- What the next triplet of the chunk takes of its share.
pub record IsNext (c : ℕ) (e : HeapElement) (g : Share) (x : HeapElement) (g' : Share)
    : Type 0 where
  pub head : g'.head ≡ some x
  pub is_share : IsShare c g'
  pub all_cur : g.curs ≡ due_cur g'
  pub all_next : g.nexts ≡ due_next g'
  pub behind : above e x ≡ false
  pub less : suc (length g'.nexts) < suc (length g.nexts)

pub next_share-IsNext :
    (caps : Capacity) (n c : ℕ) (e x : HeapElement) (g : Share) (l l' : Lane)
    → g.head ≡ some e
    → IsShare c g
    → (s : Serves caps l g) → (a : Advanced caps s.cs s.ns l x.current_rank x.next_rank x.count l')
    → x.chunk_id ≡ c
    → IsNext c e g x (next_share a.cs' a.ns' x l')
next_share-IsNext caps n c e x g l l' head v s a own =
    let (e_own, counted, ascends) = HeadOk-some c g e head v.head_ok in
    let curs : g.curs ≡ replicate x.count x.current_rank ++ pending_cur a.cs' l' =
      sym s.pend_cur ∙ a.cur_split in
    let nexts : g.nexts ≡ replicate x.count x.next_rank ++ pending_next a.ns' l' =
      sym s.pend_next ∙ a.next_split in
    let (after, later) =
      IsAscending-next x.count e.current_rank e.next_rank x.current_rank x.next_rank
        (pending_cur a.cs' l') (pending_next a.ns' l') a.positive
        (subst₂ (λ p q. IsAscending e.current_rank e.next_rank p q) curs nexts ascends) in
    let long =
      ap length curs ∙ length-append (replicate x.count x.current_rank) (pending_cur a.cs' l') in
    let long' =
      ap length nexts ∙ length-append (replicate x.count x.next_rank) (pending_next a.ns' l') in
    let k = length-replicate x.count x.current_rank in
    let k' = length-replicate x.count x.next_rank in
    record {
      head = refl;
      is_share = record {
        head_ok = (own, a.positive, later);
        same_size = omega (arith, v.same_size, long, long', k, k');
      };
      all_cur = curs;
      all_next = nexts;
      behind = LexLe-Precedes e x (ground (arith, after, own, e_own));
      less = omega (arith, a.positive, long', k');
    }
