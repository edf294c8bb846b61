-- ===== src/Merge/Resolve/Totals.antt =====
-- The reference ranking: the new rank of a triplet is its old rank plus the number of suffixes with
-- the same old rank and a smaller next rank; a pair of ranks that only one suffix has is resolved.
use suffix_rank.Base.{
  ◌∙◌, ℕ, ◌+◌, ◌<◌, ◌≡◌, refl, Bool, true, false, List, [], ◌∷◌, ◌++◌, arith, All, ltb, ◌==◌, ◌&&◌,
  if◌then◌else◌,
}
use suffix_rank.Merge.{HeapElement}
use suffix_rank.Merge.Heap.Order.{LexLe}
use suffix_rank.Merge.Resolve.{OutputElement}

-- The number of suffixes in the triplets that satisfy `p`.
unfoldable pub total : (HeapElement → Bool) → List HeapElement → ℕ
total p [] = 0
total p (e ∷ es) = (if p e then e.count else 0) + total p es

-- `f` has the old rank of `e` and a smaller next rank.
abbrev pub smaller : HeapElement → HeapElement → Bool
smaller e f = (f.current_rank == e.current_rank) && ltb f.next_rank e.next_rank

-- `f` has both ranks of `e`.
abbrev pub same_pair : HeapElement → HeapElement → Bool
same_pair e f = (f.current_rank == e.current_rank) && (f.next_rank == e.next_rank)

unfoldable pub resolved : List HeapElement → HeapElement → OutputElement
resolved es e = record {
  new_rank = e.current_rank + total (smaller e) es;
  count = if total (same_pair e) es == 1 then 0 else e.count;
  chunk_id = e.chunk_id;
}

pub total-append :
    (p : HeapElement → Bool) (es fs : List HeapElement)
    → total p (es ++ fs) ≡ total p es + total p fs
unfolding total
total-append p [] fs = omega arith
total-append p (e ∷ es) fs = omega (arith, total-append p es fs)

total_snoc :
    (p : HeapElement → Bool) (es : List HeapElement) (e : HeapElement)
    → total p (es ++ e ∷ []) ≡ total p es + (if p e then e.count else 0)
total_snoc p es e = unfold total in omega (arith, total-append p es (e ∷ []))

pub All-LexLe_trans :
    (d e : HeapElement) (es : List HeapElement) → LexLe d e → All (LexLe e) es → All (LexLe d) es
All-LexLe_trans d e [] h k = tt
All-LexLe_trans d e (f ∷ es) h k = (ground (arith, k.0), All-LexLe_trans d e es h k.1)

-- Triplets at or behind `e` have no smaller next rank.
pub total-smaller_behind :
    (e : HeapElement) (es : List HeapElement) → All (LexLe e) es → total (smaller e) es ≡ 0
unfolding total
total-smaller_behind e [] h = refl
total-smaller_behind e (f ∷ es) h = ground (arith, total-smaller_behind e es h.1)

-- The pair of a triplet in front of `e`, and not equal to it, is not that of triplets behind `e`.
pub total-same_pair_behind :
    (d e : HeapElement) (es : List HeapElement)
    → LexLe d e
    → same_pair d e ≡ false
    → All (LexLe e) es
    → total (same_pair d) es ≡ 0
unfolding total
total-same_pair_behind d e [] h apart k = refl
total-same_pair_behind d e (f ∷ es) h apart k =
    ground (arith, k.0, total-same_pair_behind d e es h apart k.1)

-- Triplets at or in front of `d`, seen from `e` behind it.
pub total-smaller_step :
    (d e : HeapElement) (es : List HeapElement)
    → All (λ f. LexLe f d) es
    → d.current_rank ≡ e.current_rank
    → d.next_rank < e.next_rank
    → total (smaller e) es ≡ total (smaller d) es + total (same_pair d) es
unfolding total
total-smaller_step d e [] h same less = refl
total-smaller_step d e (f ∷ es) h same less =
    ground (arith, h.0, total-smaller_step d e es h.1 same less)

pub total-smaller_new :
    (d e : HeapElement) (es : List HeapElement)
    → All (λ f. LexLe f d) es
    → d.current_rank < e.current_rank
    → total (smaller e) es ≡ 0
unfolding total
total-smaller_new d e [] h less = refl
total-smaller_new d e (f ∷ es) h less = ground (arith, h.0, total-smaller_new d e es h.1 less)

pub total-same_pair_new :
    (d e : HeapElement) (es : List HeapElement)
    → All (λ f. LexLe f d) es
    → LexLe d e
    → same_pair d e ≡ false
    → total (same_pair e) es ≡ 0
unfolding total
total-same_pair_new d e [] h k apart = refl
total-same_pair_new d e (f ∷ es) h k apart =
    ground (arith, h.0, total-same_pair_new d e es h.1 k apart)

-- Totals depend on the ranks only.
pub total-smaller_same :
    (d e : HeapElement) (es : List HeapElement)
    → d.current_rank ≡ e.current_rank
    → d.next_rank ≡ e.next_rank
    → total (smaller e) es ≡ total (smaller d) es
unfolding total
total-smaller_same d e [] h k = refl
total-smaller_same d e (f ∷ es) h k = ground (arith, total-smaller_same d e es h k)

pub total-same_pair_same :
    (d e : HeapElement) (es : List HeapElement)
    → d.current_rank ≡ e.current_rank
    → d.next_rank ≡ e.next_rank
    → total (same_pair e) es ≡ total (same_pair d) es
unfolding total
total-same_pair_same d e [] h k = refl
total-same_pair_same d e (f ∷ es) h k = ground (arith, total-same_pair_same d e es h k)

-- A triplet has its own pair, and not a smaller next rank than its own.
pub total-same_pair_snoc :
    (es : List HeapElement) (e : HeapElement)
    → total (same_pair e) (es ++ e ∷ []) ≡ total (same_pair e) es + e.count
total-same_pair_snoc es e =
    let self : same_pair e e ≡ true = ground arith in rw self at (total_snoc (same_pair e) es e)

pub total-smaller_snoc :
    (es : List HeapElement) (e : HeapElement)
    → total (smaller e) (es ++ e ∷ []) ≡ total (smaller e) es
total-smaller_snoc es e =
    let self : smaller e e ≡ false = ground arith in
    (rw self at (total_snoc (smaller e) es e)) ∙ omega arith
