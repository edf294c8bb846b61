-- ===== src/Verify/Suffixes.antt =====
-- From the order of keys and next ranks, which src/verify.c checks, to the order of suffixes.
use suffix_rank.Base.{
  lex_ltb, ℕ, ◌+◌, ◌<◌, ◌≡◌, refl, ap, true, List, [], ◌∷◌, arith, length, drop, ltb→lt, ◌==◌,
  Bool-cases, inl, inr, drop-suc,
}
use mathlib.Core.Logic.Or
use mathlib.Core.List.{Mem, mem-cons, not-mem-nil, mem-cons_self}
use native.Mathlib.Numerals.{add-one}
use suffix_rank.Verify.Records.{lex_less_strict}
use suffix_rank.Verify.Partition.Spec.{next_of, record_at}
use suffix_rank.Verify.Ranked.{Ranked, everyone}
use suffix_rank.Verify.Ascending.{less, is_true-prop}

abbrev Inside : List Ranked → List Ranked → Type 0
Inside l m = (a : Ranked) → Mem a l → Mem a m

module _ (size : ℕ) (E : List Ranked)
    (by_rank : (a b : Ranked) → Mem a E → Mem b E → a.0 < b.0 → less a b ≡ true) where
  -- Equal keys are settled by the suffixes behind them.
  suffix_lt :
      (ks rs : List ℕ) (p r k : ℕ) (ks' rs' : List ℕ) (q r' k' : ℕ)
      → length rs ≡ length ks
      → length rs' ≡ length ks'
      → Inside (everyone size p (r ∷ rs) (k ∷ ks)) E
      → Inside (everyone size q (r' ∷ rs') (k' ∷ ks')) E
      → lex_less_strict k (next_of rs) k' (next_of rs') ≡ true
      → lex_ltb (k ∷ ks) (k' ∷ ks') ≡ true
  unfolding lex_less_strict
  suffix_lt [] (r1 ∷ rs) p r k ks' rs' q r' k' n n' inc inc' h = absurd (omega arith)
  suffix_lt (k1 ∷ ks) [] p r k ks' rs' q r' k' n n' inc inc' h = absurd (omega arith)
  suffix_lt ks rs p r k [] (r1' ∷ rs') q r' k' n n' inc inc' h = absurd (omega arith)
  suffix_lt ks rs p r k (k1' ∷ ks') [] q r' k' n n' inc inc' h = absurd (omega arith)
  suffix_lt [] [] p r k [] [] q r' k' n n' inc inc' h = ground arith
  suffix_lt [] [] p r k (k1' ∷ ks') (r1' ∷ rs') q r' k' n n' inc inc' h = ground arith
  suffix_lt (k1 ∷ ks) (r1 ∷ rs) p r k [] [] q r' k' n n' inc inc' h = ground arith
  suffix_lt (k1 ∷ ks) (r1 ∷ rs) p r k (k1' ∷ ks') (r1' ∷ rs') q r' k' n n' inc inc' h =
      elim (Bool-cases (k == k')) [
        | inr differ ↦ rw differ (rw differ at h)
        | inl same ↦
            let lt : r1 < r1' = ltb→lt r1 r1' (rw same at h) in
            let inc1 : Inside (everyone size (p + 1) (r1 ∷ rs) (k1 ∷ ks)) E =
              λ a m. inc a (mem-cons.1 (Or.inr m)) in
            let inc1' : Inside (everyone size (q + 1) (r1' ∷ rs') (k1' ∷ ks')) E =
              λ a m. inc' a (mem-cons.1 (Or.inr m)) in
            let a : Ranked = (r1, record_at size (p + 1) r1 rs k1) in
            let b : Ranked = (r1', record_at size (q + 1) r1' rs' k1') in
            let later : lex_less_strict k1 (next_of rs) k1' (next_of rs') ≡ true =
              by_rank a b (inc1 a mem-cons_self) (inc1' b mem-cons_self) lt in
            rw same (
              suffix_lt ks rs (p + 1) r1 k1 ks' rs' (q + 1) r1' k1' (omega arith) (omega arith) inc1
                inc1' later)
      ]

  -- A record of E names the suffix that it stands for.
  located :
      (K : List ℕ) {X : Type 0} (X-prop : IsProp X) (c : Ranked) (rs ks : List ℕ) (p : ℕ)
      → length rs ≡ length ks
      → drop p K ≡ ks
      → Inside (everyone size p rs ks) E
      → ((q r : ℕ) (rs' : List ℕ) (k : ℕ) (ks' : List ℕ)
          → length rs' ≡ length ks'
          → drop q K ≡ k ∷ ks'
          → Inside (everyone size q (r ∷ rs') (k ∷ ks')) E
          → c ≡ (r, record_at size q r rs' k)
          → X)
      → Mem c (everyone size p rs ks)
      → X
  located K X-prop c [] ks p n e inc use_it m = absurd (not-mem-nil m)
  located K X-prop c (r ∷ rs) [] p n e inc use_it m = absurd (not-mem-nil m)
  located K X-prop c (r ∷ rs) (k ∷ ks) p n e inc use_it m =
      let up = add-one p in
      Or.elim X-prop (mem-cons.0 m) (λ same. use_it p r rs k ks (omega arith) e inc same)
        (λ m'.
          located K X-prop c rs ks (p + 1) (omega arith) (rw up (drop-suc p K k ks e))
            (λ a ma. inc a (mem-cons.1 (Or.inr ma))) use_it m')

  pub suffix_lt_of_less :
      (K rs : List ℕ)
      → length rs ≡ length K
      → E ≡ everyone size 0 rs K
      → (c d : Ranked) → Mem c E
      → Mem d E
      → less c d ≡ true
      → lex_ltb (drop c.1.position K) (drop d.1.position K) ≡ true
  suffix_lt_of_less K rs n whole c d mc md h =
      let inc : Inside (everyone size 0 rs K) E = λ a m. rw whole m in
      located K is_true-prop c rs K 0 n refl inc
        (λ p r rs1 k ks1 n1 e1 inc1 same.
          located K is_true-prop d rs K 0 n refl inc
            (λ q r' rs2 k' ks2 n2 e2 inc2 same'.
              let ep : c.1.position ≡ p = ap (λ (x : Ranked). x.1.position) same in
              let eq : d.1.position ≡ q = ap (λ (x : Ranked). x.1.position) same' in
              rw (ep, eq, e1, e2)
                (suffix_lt ks1 rs1 p r k ks2 rs2 q r' k' n1 n2 inc1 inc2 (rw (same, same') at h)))
            (rw whole at md))
        (rw whole at mc)
