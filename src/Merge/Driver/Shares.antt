-- ===== src/Merge/Driver/Shares.antt =====
-- What the loop of merge_runs still owes to each chunk: the triplet of the chunk that is in the heap,
-- and the entries of its streams behind it.
use mathlib.Core.List.{Perm}
use mathlib.Core.List.Perm
use mathlib.Core.List.{Permᴰ}
use mathlib.Core.Logic.{∥∥₁_elim}
use native.Mathlib.Nat.{ℕ_set}
use suffix_rank.Base.{
  ℕ, zero, suc, ◌+◌, ◌<◌, ◌≡◌, refl, ap, ◌∙◌, Bool, true, false, List, [], ◌∷◌, Option, none, some,
  arith, length, Option-cases, get_or, set, All, Bool-cases, inl, inr, if◌then◌else◌,
}
use suffix_rank.Merge.{HeapElement}

pub record Share : Type 0 where
  pub head : Option HeapElement
  pub curs : List ℕ
  pub nexts : List ℕ

abbrev pub no_share : Share
no_share = record { head = none; curs = []; nexts = [] }

-- The triplets that should be in the heap.
unfoldable pub heads : List Share → List HeapElement
heads [] = []
heads (g ∷ gs) = elim g.head [ none ↦ heads gs | some e ↦ e ∷ heads gs ]

abbrev pub without_head : Share → Share
without_head g = record g { head = none }

pub heads-pick :
    (gs : List Share) (i : ℕ) (e : HeapElement)
    → i < length gs
    → (get_or gs i no_share).head ≡ some e
    → Perm (heads gs) (e ∷ heads (set gs i (without_head (get_or gs i no_share))))
unfolding heads
heads-pick [] i e h got = absurd (omega arith)
heads-pick (g ∷ gs) zero e h got = rw got (Perm.refl _)
heads-pick (g ∷ gs) (suc i) e h got =
    let rest = heads-pick gs i e (omega arith) got in
    elim (Option-cases g.head) [
      | inl absent ↦ rw absent rest
      | inr (f, present) ↦ rw present (Perm.trans (Perm.cons f rest) (Perm.swap e f _))
    ]

-- A new head for a chunk.
pub heads-put :
    (gs : List Share) (i : ℕ) (g' : Share) (e : HeapElement)
    → i < length gs
    → g'.head ≡ some e
    → Perm (heads (set gs i g')) (e ∷ heads (set gs i (without_head g')))
unfolding heads
heads-put [] i g' e h got = absurd (omega arith)
heads-put (g ∷ gs) zero g' e h got = rw got (Perm.refl _)
heads-put (g ∷ gs) (suc i) g' e h got =
    let rest = heads-put gs i g' e (omega arith) got in
    elim (Option-cases g.head) [
      | inl absent ↦ rw absent rest
      | inr (f, present) ↦ rw present (Perm.trans (Perm.cons f rest) (Perm.swap e f _))
    ]

-- Only the heads of the shares matter.
pub heads-absent :
    (gs : List Share) (i : ℕ) (a b : Share)
    → a.head ≡ b.head
    → heads (set gs i a) ≡ heads (set gs i b)
unfolding heads
heads-absent [] i a b e = refl
heads-absent (g ∷ gs) zero a b e = rw e refl
heads-absent (g ∷ gs) (suc i) a b e =
    let rest = heads-absent gs i a b e in
    elim (Option-cases g.head) [
      | inl absent ↦ rw absent rest
      | inr (f, present) ↦ rw present (ap (◌∷◌ f) rest)
    ]

pub heads-nil : (gs : List Share) (i : ℕ) → heads gs ≡ [] → (get_or gs i no_share).head ≡ none
unfolding heads
heads-nil [] i e = refl
heads-nil (g ∷ gs) zero e = elim (Option-cases g.head) [
  | inl absent ↦ absent
  | inr (f, present) ↦ let e' : f ∷ heads gs ≡ [] = rw present at e in cc
]
heads-nil (g ∷ gs) (suc i) e = elim (Option-cases g.head) [
  | inl absent ↦ heads-nil gs i (rw absent at e)
  | inr (f, present) ↦ let e' : f ∷ heads gs ≡ [] = rw present at e in cc
]

-- How many elements satisfy a test: the same for a permuted list.
unfoldable pub tally : (HeapElement → Bool) → List HeapElement → ℕ
tally p [] = 0
tally p (e ∷ es) = (if p e then 1 else 0) + tally p es

tally-permᴰ :
    (p : HeapElement → Bool) {xs ys : List HeapElement} → Permᴰ xs ys → tally p xs ≡ tally p ys
unfolding tally
tally-permᴰ p Permᴰ.nil = refl
tally-permᴰ p (Permᴰ.cons e d) = rw (e, tally-permᴰ p d) refl
tally-permᴰ p (Permᴰ.swap e f) = rw (e, f) (omega arith)
tally-permᴰ p (Permᴰ.trans c d) = tally-permᴰ p c ∙ tally-permᴰ p d

pub tally-Perm :
    (p : HeapElement → Bool) {xs ys : List HeapElement} → Perm xs ys → tally p xs ≡ tally p ys
tally-Perm p {xs} {ys} h = ∥∥₁_elim h (ℕ_set _ _) (tally-permᴰ p)

pub tally-All :
    (p : HeapElement → Bool) (es : List HeapElement) → tally p es ≡ 0 → All (λ e. p e ≡ false) es
unfolding tally
tally-All p [] h = tt
tally-All p (e ∷ es) h = elim (Bool-cases (p e)) [
  | inl yes_it ↦ let one : 1 + tally p es ≡ 0 = rw yes_it at h in absurd (omega arith)
  | inr fails ↦
      let zero_left : 0 + tally p es ≡ 0 = rw fails at h in (fails, tally-All p es (omega arith))
]

pub All-tally :
    (p : HeapElement → Bool) (es : List HeapElement) → All (λ e. p e ≡ false) es → tally p es ≡ 0
unfolding tally
All-tally p [] h = refl
All-tally p (e ∷ es) (h, hs) = rw h (omega (arith, All-tally p es hs))

-- An element that is counted is the head of some share.
pub tally-heads :
    (p : HeapElement → Bool) (gs : List Share)
    → 0 < tally p (heads gs)
    → (i : ℕ) × (e : HeapElement) × (i < length gs)
      × ((get_or gs i no_share).head ≡ some e)
      × (p e ≡ true)
unfolding tally heads
tally-heads p [] h = absurd (omega arith)
tally-heads p (g ∷ gs) h = elim (Option-cases g.head) [
  | inl absent ↦
      let (i, e, inside, got, holds) = tally-heads p gs (rw absent at h) in
      (suc i, e, omega arith, got, holds)
  | inr (f, present) ↦
      let h' : 0 < (if p f then 1 else 0) + tally p (heads gs) = rw present at h in
      elim (Bool-cases (p f)) [
        | inl found ↦ (zero, f, omega arith, present, found)
        | inr other ↦
            let h'' : 0 < 0 + tally p (heads gs) = rw other at h' in
            let (i, e, inside, got, holds) = tally-heads p gs (omega arith) in
            (suc i, e, omega arith, got, holds)
      ]
]

-- The steps that the loop still has to take: one for each head, and one for each entry at most.
abbrev pub weight : Share → ℕ
weight g = elim g.head [ none ↦ length g.nexts | some _ ↦ suc (length g.nexts) ]

unfoldable pub measure : List Share → ℕ
measure [] = 0
measure (g ∷ gs) = weight g + measure gs

pub measure-set :
    (gs : List Share) (i : ℕ) (g' : Share)
    → i < length gs
    → measure (set gs i g') + weight (get_or gs i no_share) ≡ measure gs + weight g'
unfolding measure
measure-set [] i g' h = absurd (omega arith)
measure-set (g ∷ gs) zero g' h = omega arith
measure-set (g ∷ gs) (suc i) g' h = omega (arith, measure-set gs i g')
