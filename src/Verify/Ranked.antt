-- ===== src/Verify/Ranked.antt =====
-- The records of src/verify.c with their ranks: those of all positions, and those of the files of the
-- chunks of ranks.
use suffix_rank.Base.{
  ℕ, zero, suc, ◌+◌, ◌*◌, ◌/◌, ◌%◌, ◌<◌, ◌≡◌, refl, ap, ◌∙◌, true, List, [], ◌∷◌, ◌++◌, map, arith,
  length, length-replicate, append-nil, append_assoc, replicate, ltb, ltb→lt, ◌==◌, ==→eq,
  Bool-cases, inl, inr,
}
use mathlib.Core.List.{Perm, perm_middle, map-append}
use mathlib.Core.List.Perm
use native.Mathlib.Nat.{mod-add-div', div-lt_iff_lt-mul}
use suffix_rank.Verify.Records.{VerifyRecord}
use suffix_rank.Verify.Partition.Spec.{
  all_below, record_at, parts, extend, extend-nil, extend-cons, extend-replicate, push, accepts,
}

-- A rank and a record.
abbrev pub Ranked : Type 0
Ranked = ℕ × VerifyRecord

-- All positions from one on.
abbrev pub everyone : ℕ → ℕ → List ℕ → List ℕ → List Ranked
everyone size position [] ks = []
everyone size position (r ∷ rs) [] = []
everyone size position (r ∷ rs) (k ∷ ks) =
    (r, record_at size position r rs k) ∷ everyone size (position + 1) rs ks

abbrev pub with_rank : ℕ → ℕ → VerifyRecord → Ranked
with_rank size t r = (t * size + r.slot, r)

-- The files of the chunks from chunk t on.
abbrev pub ranked : ℕ → ℕ → List (List VerifyRecord) → List Ranked
ranked size t [] = []
ranked size t (row ∷ rows) = map (with_rank size t) row ++ ranked size (suc t) rows

ranked-push :
    (size t : ℕ) (es : List (List VerifyRecord)) (i : ℕ) (x : VerifyRecord)
    → i < length es
    → Perm (ranked size t (push es i x)) (with_rank size (t + i) x ∷ ranked size t es)
ranked-push size t [] i x h = absurd (omega arith)
ranked-push size t (e ∷ es) zero x h =
    let same : t + 0 ≡ t = omega arith in
    rw
      (
        same,
        map-append (with_rank size t) e (x ∷ []),
        append_assoc (map (with_rank size t) e) (with_rank size t x ∷ []) (ranked size (suc t) es),
      )
      (perm_middle (map (with_rank size t) e) (ranked size (suc t) es))
ranked-push size t (e ∷ es) (suc i) x h =
    let same : t + suc i ≡ suc t + i = omega arith in
    rw same (
      Perm.trans
        (Perm.append_left (map (with_rank size t) e)
          (ranked-push size (suc t) es i x (omega arith)))
        (perm_middle (map (with_rank size t) e) (ranked size (suc t) es)))

pub length-push :
    (es : List (List VerifyRecord)) (i : ℕ) (x : VerifyRecord) → length (push es i x) ≡ length es
length-push [] i x = refl
length-push (e ∷ es) zero x = refl
length-push (e ∷ es) (suc i) x = ap suc (length-push es i x)

module _ (size total : ℕ) (positive : 0 < size) where
  ranked-extend :
      (position : ℕ) (rs ks : List ℕ) (es : List (List VerifyRecord))
      → length es ≡ total
      → all_below (total * size) rs ≡ true
      → length rs ≡ length ks
      → Perm
          (ranked size 0 (extend size 0 position rs ks es))
          (everyone size position rs ks ++ ranked size 0 es)
  ranked-extend position [] ks es n h e = rw (extend-nil size 0 position es ks) (Perm.refl _)
  ranked-extend position (r ∷ rs) [] es n h e = absurd (omega arith)
  ranked-extend position (r ∷ rs) (k ∷ ks) es n h e = elim (Bool-cases (ltb r (total * size))) [
    | inr bad ↦ let h' = rw bad at h in cc
    | inl below ↦
        let x = record_at size position r rs k in
        let i = r / size in
        let inside : i < total = (div-lt_iff_lt-mul positive).1 (ltb→lt r (total * size) below) in
        let rank : (0 + i) * size + r % size ≡ r = omega (arith, mod-add-div' r size) in
        let more : all_below (total * size) rs ≡ true = rw below at h in
        let pushed : Perm (ranked size 0 (push es i x)) ((r, x) ∷ ranked size 0 es) =
          rw rank at (ranked-push size 0 es i x (omega arith)) in
        rw (extend-cons size 0 position r rs k ks es i (omega arith)) (
          Perm.trans
            (ranked-extend (position + 1) rs ks (push es i x) (length-push es i x ∙ n) more
              (omega arith))
            (Perm.trans (Perm.append_left (everyone size (position + 1) rs ks) pushed)
              (perm_middle (everyone size (position + 1) rs ks) (ranked size 0 es))))
  ]

ranked-empty : (size t n : ℕ) → ranked size t (replicate n []) ≡ []
ranked-empty size t zero = refl
ranked-empty size t (suc n) = ranked-empty size (suc t) n

-- The files have the record of every position.
pub ranked-parts :
    (size total : ℕ) (rs ks : List ℕ)
    → 0 < size
    → accepts (total * size) rs ks ≡ true
    → Perm (ranked size 0 (parts size 0 total rs ks)) (everyone size 0 rs ks)
ranked-parts size total rs ks positive h = elim (Bool-cases (length rs == length ks)) [
  | inr bad ↦ let h' = rw bad at h in cc
  | inl same ↦
      let below : all_below (total * size) rs ≡ true = rw same at h in
      rw
        (
          extend-replicate size 0 total rs ks,
          ranked-empty size 0 total,
          append-nil (everyone size 0 rs ks),
        )
        at
        (ranked-extend size total positive 0 rs ks (replicate total []) (length-replicate total [])
          below (==→eq _ _ same))
]
