-- ===== src/Verify/LexLess.antt =====
-- lex_less_strict of src/verify.c as an order on pairs of a key and a next rank.
use suffix_rank.Base.{ℕ, ◌≡◌, ◌⊎◌, refl, true, false, arith, inl, inr, lt→ltb, eq→==, ne→==}
use native.Mathlib.Decide.{dec_lt}
use suffix_rank.Base.Int.{ℤ, pos, negsuc}
use suffix_rank.Verify.Records.{ltb_ℤ, lex_less_strict}

ltb_ℤ-trans : (a b c : ℤ) → ltb_ℤ a b ≡ true → ltb_ℤ b c ≡ true → ltb_ℤ a c ≡ true
ltb_ℤ-trans (pos a) (pos b) (pos c) h k = ground arith
ltb_ℤ-trans (pos a) (pos b) (negsuc c) h k = cc
ltb_ℤ-trans (pos a) (negsuc b) c h k = cc
ltb_ℤ-trans (negsuc a) (pos b) (pos c) h k = refl
ltb_ℤ-trans (negsuc a) (pos b) (negsuc c) h k = cc
ltb_ℤ-trans (negsuc a) (negsuc b) (pos c) h k = refl
ltb_ℤ-trans (negsuc a) (negsuc b) (negsuc c) h k = ground arith

ltb_ℤ-irrefl : (a : ℤ) → ltb_ℤ a a ≡ false
ltb_ℤ-irrefl (pos a) = ground arith
ltb_ℤ-irrefl (negsuc a) = ground arith

ltb_ℤ-cases : (a b : ℤ) → (ltb_ℤ a b ≡ true) ⊎ ((a ≡ b) ⊎ (ltb_ℤ b a ≡ true))
ltb_ℤ-cases (pos a) (pos b) = elim (dec_lt a b) [
  | yes h ↦ inl (lt→ltb a b h)
  | no h ↦ elim (dec_lt b a) [
    | yes k ↦ inr (inr (lt→ltb b a k))
    | no k ↦ let e : a ≡ b = omega arith in inr (inl (rw e refl))
  ]
]
ltb_ℤ-cases (pos a) (negsuc b) = inr (inr refl)
ltb_ℤ-cases (negsuc a) (pos b) = inl refl
ltb_ℤ-cases (negsuc a) (negsuc b) = elim (dec_lt b a) [
  | yes h ↦ inl (lt→ltb b a h)
  | no h ↦ elim (dec_lt a b) [
    | yes k ↦ inr (inr (lt→ltb a b k))
    | no k ↦ let e : a ≡ b = omega arith in inr (inl (rw e refl))
  ]
]

pub lex_less_strict_trans :
    (a : ℕ) (x : ℤ) (b : ℕ) (y : ℤ) (c : ℕ) (z : ℤ)
    → lex_less_strict a x b y ≡ true
    → lex_less_strict b y c z ≡ true
    → lex_less_strict a x c z ≡ true
unfolding lex_less_strict
lex_less_strict_trans a x b y c z h k = ground (arith, ltb_ℤ-trans x y z)

-- lex_less_strict is a strict total order on pairs of a key and a next rank: it is irreflexive and
-- transitive, and of two pairs one is below the other or both are equal.
pub lex_less_strict-IsStrictOrder :
    (a : ℕ) (x : ℤ) (b : ℕ) (y : ℤ) (c : ℕ) (z : ℤ)
    → (lex_less_strict a x a x ≡ false)
      × (lex_less_strict a x b y ≡ true
          → lex_less_strict b y c z ≡ true
          → lex_less_strict a x c z ≡ true)
      × ((lex_less_strict a x b y ≡ true)
          ⊎ (((a ≡ b) × (x ≡ y)) ⊎ (lex_less_strict b y a x ≡ true)))
unfolding lex_less_strict
lex_less_strict-IsStrictOrder a x b y c z = (
  rw (eq→== a a refl) (ltb_ℤ-irrefl x),
  λ h k. ground (arith, ltb_ℤ-trans x y z),
  elim (dec_lt a b) [
    | yes h ↦ inl (rw (ne→== a b (λ e. omega arith)) (lt→ltb a b h))
    | no h ↦ elim (dec_lt b a) [
      | yes k ↦ inr (inr (rw (ne→== b a (λ e. omega arith)) (lt→ltb b a k)))
      | no k ↦
          let same : a ≡ b = omega arith in
          elim (ltb_ℤ-cases x y) [
            | inl l ↦ inl (rw (eq→== a b same) l)
            | inr (inl e) ↦ inr (inl (same, e))
            | inr (inr l) ↦ inr (inr (rw (eq→== b a (omega arith)) l))
          ]
    ]
  ],
)
