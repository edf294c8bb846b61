-- ===== src/Verify/Entries.antt =====
-- The entries of the suffix array files that src/verify.c accepts are the positions of the rows.
use suffix_rank.Base.{
  lex_ltb, ℕ, zero, suc, ◌+◌, ◌≡◌, refl, ap, sym, true, List, [], ◌∷◌, ◌++◌, map, some, arith,
  length, drop, Bool-cases, inl, inr, ==→eq,
}
use mathlib.Core.List.{Mem, Perm, mem-cons, mem-cons_self, map-append}
use mathlib.Core.List.Perm
use mathlib.Core.Logic.Or
use suffix_rank.Base.Int.{ℤ, pos, negsuc}
use suffix_rank.Verify.Records.{VerifyRecord}
use suffix_rank.Verify.Check.{LongFile, Previous, eq_ℤ, is_after}
use suffix_rank.Verify.Check.Rows.{last_of, row_ok}
use suffix_rank.Verify.Ranked.{Ranked, with_rank, ranked, everyone}
use suffix_rank.Verify.Order.{AreRows}
use suffix_rank.Verify.Ascending.{less, KeysFrom}

-- p, p + 1, ..., n of them
abbrev pub upto : ℕ → ℕ → List ℕ
upto p zero = []
upto p (suc n) = p ∷ upto (p + 1) n

-- The suffixes of a text at some positions ascend.
abbrev pub SuffixesAscend : List ℕ → List ℕ → Type 0
SuffixesAscend text [] = Unit
SuffixesAscend text (p ∷ []) = Unit
SuffixesAscend text (p ∷ q ∷ sa) =
    (lex_ltb (drop p text) (drop q text) ≡ true) × SuffixesAscend text (q ∷ sa)

abbrev pub entries_of : List LongFile → List ℤ
entries_of [] = []
entries_of (file ∷ files) = file.entries ++ entries_of files

-- The suffix array of a text: every position once, in the order of the suffixes.
pub record IsSuffixArray (text sa : List ℕ) : Type 0 where
  pub complete : Perm sa (upto 0 (length text))
  pub ascends : SuffixesAscend text sa

pub position_of : Ranked → ℕ
position_of a = a.1.position

eq_ℤ→eq : (a b : ℤ) → eq_ℤ a b ≡ true → a ≡ b
eq_ℤ→eq (pos a) (pos b) h = ap pos (==→eq a b h)
eq_ℤ→eq (pos a) (negsuc b) h = cc
eq_ℤ→eq (negsuc a) (pos b) h = cc
eq_ℤ→eq (negsuc a) (negsuc b) h = ap negsuc (==→eq a b h)

pub row-entries :
    (size t : ℕ) (carry : Previous) (row : List VerifyRecord) (entries : List ℤ)
    → row_ok carry row entries ≡ true
    → entries ≡ map pos (map position_of (map (with_rank size t) row))
unfolding position_of
row-entries size t carry [] [] e = refl
row-entries size t carry [] (entry ∷ entries) e = cc
row-entries size t carry (r ∷ row) [] e = cc
row-entries size t carry (r ∷ row) (entry ∷ entries) e =
    elim (Bool-cases (eq_ℤ (pos r.position) entry)) [
      | inr bad ↦ let e' = rw bad at e in cc
      | inl same ↦ elim (Bool-cases (is_after carry r.first_key r.next_rank)) [
        | inr bad ↦ let e' = rw (same, bad) at e in cc
        | inl after ↦
            rw (sym (eq_ℤ→eq (pos r.position) entry same))
              (ap (◌∷◌ (pos r.position)) (row-entries size t _ row entries (rw (same, after) at e)))
      ]
    ]

pub rows-entries :
    (size t : ℕ) (carry : Previous) (ps : List (List VerifyRecord)) (files : List LongFile)
    (rows : List (List VerifyRecord))
    → AreRows size carry ps files rows
    → length files ≡ length ps
    → entries_of files ≡ map pos (map position_of (ranked size t rows))
rows-entries size t carry [] [] [] h n = refl
rows-entries size t carry [] (file ∷ files) [] h n = absurd (omega arith)
rows-entries size t carry [] files (row ∷ rows) h n = absurd h
rows-entries size t carry (p ∷ ps) [] rows h n = absurd h
rows-entries size t carry (p ∷ ps) (file ∷ files) [] h n = absurd h
rows-entries size t carry (p ∷ ps) (file ∷ files) (row ∷ rows) h n =
    let here = map (with_rank size t) row in
    let there = ranked size (suc t) rows in
    rw
      (
        map-append position_of here there,
        map-append pos (map position_of here) (map position_of there),
        row-entries size t carry row file.entries h.0.passes,
        rows-entries size (suc t) (last_of carry row) ps files rows h.1 (omega arith),
      )
      refl

pub rows-perm :
    (size t : ℕ) (carry : Previous) (ps : List (List VerifyRecord)) (files : List LongFile)
    (rows : List (List VerifyRecord))
    → AreRows size carry ps files rows
    → Perm (ranked size t rows) (ranked size t ps)
rows-perm size t carry [] files [] h = Perm.refl _
rows-perm size t carry [] files (row ∷ rows) h = absurd h
rows-perm size t carry (p ∷ ps) [] rows h = absurd h
rows-perm size t carry (p ∷ ps) (file ∷ files) [] h = absurd h
rows-perm size t carry (p ∷ ps) (file ∷ files) (row ∷ rows) h =
    Perm.append (Perm.map (with_rank size t) h.0.perm)
      (rows-perm size (suc t) (last_of carry row) ps files rows h.1)

pub everyone-positions :
    (size p : ℕ) (rs ks : List ℕ)
    → length rs ≡ length ks
    → map position_of (everyone size p rs ks) ≡ upto p (length ks)
unfolding position_of
everyone-positions size p [] [] n = refl
everyone-positions size p [] (k ∷ ks) n = absurd (omega arith)
everyone-positions size p (r ∷ rs) [] n = absurd (omega arith)
everyone-positions size p (r ∷ rs) (k ∷ ks) n =
    ap (◌∷◌ p) (everyone-positions size (p + 1) rs ks (omega arith))

pub ascend :
    (text : List ℕ) (E l : List Ranked) (prev : Previous)
    → ((c d : Ranked)
        → Mem c E
        → Mem d E
        → less c d ≡ true
        → lex_ltb (drop c.1.position text) (drop d.1.position text) ≡ true)
    → ((a : Ranked) → Mem a l → Mem a E)
    → KeysFrom prev l
    → SuffixesAscend text (map position_of l)
unfolding position_of
ascend text E [] prev order inc h = tt
ascend text E (a ∷ []) prev order inc h = tt
ascend text E (a ∷ b ∷ l) prev order inc h = (
  order a b (inc a mem-cons_self) (inc b (mem-cons.1 (Or.inr mem-cons_self))) h.1.0,
  ascend text E (b ∷ l) (some (a.1.first_key, a.1.next_rank)) order
      (λ c m. inc c (mem-cons.1 (Or.inr m))) h.1,
)
