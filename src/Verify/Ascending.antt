-- ===== src/Verify/Ascending.antt =====
-- Ranked records of src/verify.c whose ranks and keys ascend.
use suffix_rank.Base.{
  ℕ, suc, ◌+◌, ◌*◌, ◌<◌, ◌≤◌, ◌≡◌, ap, Bool, true, false, List, [], ◌∷◌, ◌++◌, map, some, arith,
  length, ltb, Bool-cases, inl, inr,
}
use mathlib.Core.Logic.Or
use mathlib.Core.Bool.{Bool-set}
use mathlib.Core.List.{Mem, mem-cons, not-mem-nil}
use suffix_rank.Base.Int.{ℤ, pos}
use suffix_rank.Verify.Records.{VerifyRecord, lex_less_strict}
use suffix_rank.Verify.Ranked.{Ranked, with_rank, ranked}
use suffix_rank.Verify.Check.{LongFile, Previous, is_after, eq_ℤ}
use suffix_rank.Verify.Check.Rows.{last_of, row_ok}
use suffix_rank.Verify.LexLess.{lex_less_strict_trans}
use suffix_rank.Verify.Order.{InSlots, AreRows}

abbrev pub less : Ranked → Ranked → Bool
less a b = lex_less_strict a.1.first_key a.1.next_rank b.1.first_key b.1.next_rank

-- Ranks from a bound on.
abbrev pub RanksFrom : ℕ → List Ranked → Type 0
RanksFrom lo [] = Unit
RanksFrom lo (a ∷ l) = (lo ≤ a.0) × RanksFrom (suc a.0) l

abbrev pub KeysFrom : Previous → List Ranked → Type 0
KeysFrom prev [] = Unit
KeysFrom prev (a ∷ l) =
    (is_after prev a.1.first_key a.1.next_rank ≡ true)
    × KeysFrom (some (a.1.first_key, a.1.next_rank)) l

RanksFrom-le : (lo hi : ℕ) (l : List Ranked) → lo ≤ hi → RanksFrom hi l → RanksFrom lo l
RanksFrom-le lo hi [] h r = tt
RanksFrom-le lo hi (a ∷ l) h r = (omega arith, r.1)

row-RanksFrom :
    (size t i : ℕ) (row : List VerifyRecord) (l : List Ranked)
    → InSlots i row
    → RanksFrom (t * size + i + length row) l
    → RanksFrom (t * size + i) (map (with_rank size t) row ++ l)
row-RanksFrom size t i [] l s h = let e : t * size + i + 0 ≡ t * size + i = omega arith in rw e at h
row-RanksFrom size t i (r ∷ row) l s h =
    let e : t * size + i + suc (length row) ≡ t * size + suc i + length row = omega arith in
    let up : t * size + suc i ≡ suc (t * size + r.slot) = omega arith in
    (omega arith, rw up at (row-RanksFrom size t (suc i) row l s.1 (rw e at h)))

pub ranked-RanksFrom :
    (size t : ℕ) (carry : Previous) (parts : List (List VerifyRecord)) (files : List LongFile)
    (rows : List (List VerifyRecord))
    → AreRows size carry parts files rows
    → RanksFrom (t * size) (ranked size t rows)
ranked-RanksFrom size t carry parts files [] h = tt
ranked-RanksFrom size t carry [] files (row ∷ rows) h = absurd h
ranked-RanksFrom size t carry (records ∷ parts) [] (row ∷ rows) h = absurd h
ranked-RanksFrom size t carry (records ∷ parts) (file ∷ files) (row ∷ rows) h =
    let later = ranked-RanksFrom size (suc t) (last_of carry row) parts files rows h.1 in
    let start : t * size + 0 ≡ t * size = omega arith in
    rw start at (
      row-RanksFrom size t 0 row (ranked size (suc t) rows) h.0.slots
        (RanksFrom-le (t * size + 0 + length row) (suc t * size) _ (grind (arith, h.0.fits)) later))

row-KeysFrom :
    (size t : ℕ) (carry : Previous) (row : List VerifyRecord) (entries : List ℤ) (l : List Ranked)
    → row_ok carry row entries ≡ true
    → KeysFrom (last_of carry row) l
    → KeysFrom carry (map (with_rank size t) row ++ l)
row-KeysFrom size t carry [] entries l e h = h
row-KeysFrom size t carry (r ∷ row) [] l e h = cc
row-KeysFrom size t carry (r ∷ row) (entry ∷ entries) l e h =
    elim (Bool-cases (eq_ℤ (pos r.position) entry)) [
      | inr bad ↦ let e' = rw bad at e in cc
      | inl same ↦ elim (Bool-cases (is_after carry r.first_key r.next_rank)) [
        | inr bad ↦ let e' = rw (same, bad) at e in cc
        | inl after ↦ (
          after,
          row-KeysFrom size t (some (r.first_key, r.next_rank)) row entries l
              (rw (same, after) at e) h,
        )
      ]
    ]

pub ranked-KeysFrom :
    (size t : ℕ) (carry : Previous) (parts : List (List VerifyRecord)) (files : List LongFile)
    (rows : List (List VerifyRecord))
    → AreRows size carry parts files rows
    → KeysFrom carry (ranked size t rows)
ranked-KeysFrom size t carry parts files [] h = tt
ranked-KeysFrom size t carry [] files (row ∷ rows) h = absurd h
ranked-KeysFrom size t carry (records ∷ parts) [] (row ∷ rows) h = absurd h
ranked-KeysFrom size t carry (records ∷ parts) (file ∷ files) (row ∷ rows) h =
    row-KeysFrom size t carry row file.entries (ranked size (suc t) rows) h.0.passes
      (ranked-KeysFrom size (suc t) (last_of carry row) parts files rows h.1)

pub is_true-prop : {b : Bool} → IsProp (b ≡ true)
is_true-prop {b} = Bool-set b true

later_rank : (lo : ℕ) (l : List Ranked) (b : Ranked) → RanksFrom lo l → Mem b l → ltb b.0 lo ≡ false
later_rank lo [] b h m = absurd (not-mem-nil m)
later_rank lo (a ∷ l) b h m =
    Or.elim (Bool-set _ _) (mem-cons.0 m) (λ e. let e' = ap (λ (x : Ranked). x.0) e in ground arith)
      (λ m'. let later = later_rank (suc a.0) l b h.1 m' in ground arith)

later_key :
    (k : ℕ) (n : ℤ) (l : List Ranked) (b : Ranked)
    → KeysFrom (some (k, n)) l
    → Mem b l
    → lex_less_strict k n b.1.first_key b.1.next_rank ≡ true
later_key k n [] b h m = absurd (not-mem-nil m)
later_key k n (a ∷ l) b h m =
    Or.elim is_true-prop (mem-cons.0 m) (λ e. rw e h.0)
      (λ m'.
        lex_less_strict_trans k n a.1.first_key a.1.next_rank b.1.first_key b.1.next_rank h.0
          (later_key a.1.first_key a.1.next_rank l b h.1 m'))

-- A smaller rank has a smaller key.
pub less_of_rank :
    (lo : ℕ) (prev : Previous) (l : List Ranked) (a b : Ranked)
    → RanksFrom lo l
    → KeysFrom prev l
    → Mem a l
    → Mem b l
    → a.0 < b.0
    → less a b ≡ true
less_of_rank lo prev [] a b h k ma mb lt = absurd (not-mem-nil ma)
less_of_rank lo prev (c ∷ l) a b h k ma mb lt =
    Or.elim is_true-prop (mem-cons.0 ma)
      (λ ea.
        Or.elim is_true-prop (mem-cons.0 mb)
          (λ eb.
            let ea' = ap (λ (x : Ranked). x.0) ea in
            let eb' = ap (λ (x : Ranked). x.0) eb in absurd (omega arith))
          (λ mb'. rw ea (later_key c.1.first_key c.1.next_rank l b k.1 mb')))
      (λ ma'.
        Or.elim is_true-prop (mem-cons.0 mb)
          (λ eb.
            let eb' = ap (λ (x : Ranked). x.0) eb in
            let before = later_rank (suc c.0) l a h.1 ma' in absurd (ground arith))
          (λ mb'.
            less_of_rank (suc c.0) (some (c.1.first_key, c.1.next_rank)) l a b h.1 k.1 ma' mb' lt))
