-- ===== src/Verify/Records.antt =====
-- src/verify.c: the records that the checker partitions, their keys and their order, and the ways in
-- which one of its functions can end.
use suffix_rank.Base.{
  ℕ, ◌≡◌, refl, ◌+◌, ◌-◌, ◌%◌, ◌^◌, Bool, true, false, Option, none, some, ◌==◌, ltb, if◌then◌else◌,
}
use suffix_rank.Base.Int.{ℤ, pos, negsuc}

-- SUCCESS with a value, FAILURE after a message, or an access outside an array.
pub data Verdict {ℓ} (A : Type ℓ) : Type ℓ where
  success : A → Verdict A
  failure : Verdict A
  fault : Verdict A

infixl 5 ◌>>=◌ ◌>>◌
abbrev pub ◌>>=◌ {ℓ κ} : {A : Type ℓ} {B : Type κ} → Verdict A → (A → Verdict B) → Verdict B
success a >>= f = f a
failure >>= f = failure
fault >>= f = fault

abbrev pub ◌>>◌ {ℓ} : {B : Type ℓ} → Verdict (Unit {0}) → Verdict B → Verdict B
m >> k = m >>= λ _. k

pub bind_assoc {ℓ κ μ} :
    {A : Type ℓ} {B : Type κ} {C : Type μ} (m : Verdict A) (f : A → Verdict B) (g : B → Verdict C)
    → (m >>= f >>= g) ≡ (m >>= λ a. f a >>= g)
bind_assoc (success a) f g = refl
bind_assoc failure f g = refl
bind_assoc fault f g = refl

pub bind_ext {ℓ κ} :
    {A : Type ℓ} {B : Type κ} (m : Verdict A) (f g : A → Verdict B)
    → ((a : A) → f a ≡ g a)
    → (m >>= f) ≡ (m >>= g)
bind_ext (success a) f g h = h a
bind_ext failure f g h = refl
bind_ext fault f g h = refl

-- `if (!test) return FAILURE;`
abbrev pub guard : Bool → Verdict (Unit {0})
guard true = success tt
guard false = failure

-- An access of an array.
abbrev pub access {ℓ} : {A : Type ℓ} → Option A → Verdict A
access none = fault
access (some a) = success a

-- `VerifyRecord`; the next rank of the last position is -1.
pub record VerifyRecord : Type 0 where
  pub position : ℕ
  pub next_rank : ℤ
  pub slot : ℕ
  pub first_key : ℕ

-- `(uint32_t) sent_id`
abbrev pub to_uint32 : ℤ → ℕ
to_uint32 (pos n) = n % 2 ^ 32
to_uint32 (negsuc n) = 2 ^ 32 - 1 - n % 2 ^ 32

unfoldable pub encode_first_key : ℕ → ℤ → ℕ
encode_first_key char_val sent_id =
    if char_val == 0 then to_uint32 sent_id else (1 + char_val) % 2 ^ 32

-- `a < b` on long
abbrev pub ltb_ℤ : ℤ → ℤ → Bool
ltb_ℤ (pos a) (pos b) = ltb a b
ltb_ℤ (pos a) (negsuc b) = false
ltb_ℤ (negsuc a) (pos b) = true
ltb_ℤ (negsuc a) (negsuc b) = ltb b a

unfoldable pub lex_less_strict : ℕ → ℤ → ℕ → ℤ → Bool
lex_less_strict p_first_key p_next_rank c_first_key c_next_rank =
    if p_first_key == c_first_key
    then ltb_ℤ p_next_rank c_next_rank
    else ltb p_first_key c_first_key
