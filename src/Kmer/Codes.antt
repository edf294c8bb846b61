-- ===== src/Kmer/Codes.antt =====
-- The codes that src/init.cpp gives to the used bytes.
use suffix_rank.Base.{
  ℕ, zero, suc, ◌+◌, ◌<◌, ◌≤◌, ◌≡◌, ◌≢◌, refl, ap, ◌∙◌, false, List, [], ◌∷◌, arith, length, get_or,
  ◌==◌, if◌then◌else◌, Bool-cases, inl, inr,
}
use suffix_rank.Kmer.Alphabet.{assign_codes}
use suffix_rank.Kmer.Counts.{occurrences}

abbrev pub code_in : List ℕ → ℕ → ℕ
code_in counts b = get_or (assign_codes 0 counts).0 b 0

pub length-assign_codes :
    (s : ℕ) (counts : List ℕ) → length (assign_codes s counts).0 ≡ length counts
length-assign_codes s [] = refl
length-assign_codes s (n ∷ counts) =
    ap suc (length-assign_codes (if n == 0 then s else s + 1) counts)

assign_codes-le : (s : ℕ) (counts : List ℕ) → s ≤ (assign_codes s counts).1
assign_codes-le s [] = omega arith
assign_codes-le s (n ∷ counts) = elim (Bool-cases (n == 0)) [
  | inl z ↦ rw z (assign_codes-le s counts)
  | inr used ↦ rw used (omega (arith, assign_codes-le (s + 1) counts))
]

assign_codes_range :
    (s : ℕ) (counts : List ℕ) (i : ℕ)
    → get_or counts i 0 ≢ 0
    → (s < get_or (assign_codes s counts).0 i 0)
      × (get_or (assign_codes s counts).0 i 0 ≤ (assign_codes s counts).1)
assign_codes_range s [] i h = absurd (h refl)
assign_codes_range s (n ∷ counts) zero h =
    let used : (n == 0) ≡ false = ground arith in
    rw used (omega arith, omega (arith, assign_codes-le (s + 1) counts))
assign_codes_range s (n ∷ counts) (suc i) h = elim (Bool-cases (n == 0)) [
  | inl z ↦ rw z (assign_codes_range s counts i h)
  | inr used ↦ let ih = assign_codes_range (s + 1) counts i h in rw used (omega arith, ih.1)
]

assign_codes_mono :
    (s : ℕ) (counts : List ℕ) (i j : ℕ)
    → i < j
    → get_or counts i 0 ≢ 0
    → get_or counts j 0 ≢ 0
    → get_or (assign_codes s counts).0 i 0 < get_or (assign_codes s counts).0 j 0
assign_codes_mono s [] i j lt h k = absurd (h refl)
assign_codes_mono s (n ∷ counts) i zero lt h k = absurd (omega arith)
assign_codes_mono s (n ∷ counts) zero (suc j) lt h k =
    let used : (n == 0) ≡ false = ground arith in
    let later = assign_codes_range (s + 1) counts j k in rw used (omega arith)
assign_codes_mono s (n ∷ counts) (suc i) (suc j) lt h k = elim (Bool-cases (n == 0)) [
  | inl z ↦ rw z (assign_codes_mono s counts i j (omega arith) h k)
  | inr used ↦ rw used (assign_codes_mono (s + 1) counts i j (omega arith) h k)
]

-- C
pub assign_codes_lem :
    (counts : List ℕ) (b c : ℕ)
    → get_or counts b 0 ≢ 0
    → get_or counts c 0 ≢ 0
    → b < c
    → (0 < code_in counts b)
      × (code_in counts b < code_in counts c)
      × (code_in counts c < (assign_codes 0 counts).1 + 1)
assign_codes_lem counts b c h k lt = (
  (assign_codes_range 0 counts b h).0,
  assign_codes_mono 0 counts b c lt h k,
  omega (arith, (assign_codes_range 0 counts c k).1),
)

pub code_in_range :
    (counts : List ℕ) (b : ℕ)
    → get_or counts b 0 ≢ 0
    → (0 < code_in counts b) × (code_in counts b < (assign_codes 0 counts).1 + 1)
code_in_range counts b h = let (lo, hi) = assign_codes_range 0 counts b h in (lo, omega arith)

-- How many of the first i counts are not 0.
abbrev nonzero_of : List ℕ → ℕ → ℕ
nonzero_of [] i = 0
nonzero_of (n ∷ counts) zero = 0
nonzero_of (n ∷ counts) (suc i) = (if n == 0 then 0 else 1) + nonzero_of counts i

-- A used entry gets the next code behind those of the used entries before it.
assign_codes_known :
    (s : ℕ) (counts : List ℕ) (i : ℕ)
    → get_or counts i 0 ≢ 0
    → get_or (assign_codes s counts).0 i 0 ≡ suc (s + nonzero_of counts i)
assign_codes_known s [] i h = absurd (h refl)
assign_codes_known s (n ∷ counts) zero h =
    let used : (n == 0) ≡ false = ground arith in rw used (omega arith)
assign_codes_known s (n ∷ counts) (suc i) h = elim (Bool-cases (n == 0)) [
  | inl z ↦ rw z (omega (arith, assign_codes_known s counts i h))
  | inr used ↦ rw used (omega (arith, assign_codes_known (s + 1) counts i h))
]

assign_codes_size :
    (s : ℕ) (counts : List ℕ) → (assign_codes s counts).1 ≡ s + nonzero_of counts (length counts)
assign_codes_size s [] = omega arith
assign_codes_size s (n ∷ counts) = elim (Bool-cases (n == 0)) [
  | inl z ↦ rw z (omega (arith, assign_codes_size s counts))
  | inr used ↦ rw used (omega (arith, assign_codes_size (s + 1) counts))
]

-- How many of the n byte values from b on occur in the input.
unfoldable pub used_from : List ℕ → ℕ → ℕ → ℕ
used_from bytes b zero = 0
used_from bytes b (suc n) = (if occurrences b bytes == 0 then 0 else 1) + used_from bytes (suc b) n

-- How many byte values below b occur in the input.
abbrev pub used_below : List ℕ → ℕ → ℕ
used_below bytes b = used_from bytes 0 b

nonzero_of-eq-used_from :
    (bytes counts : List ℕ) (b n : ℕ)
    → n ≤ length counts
    → ((i : ℕ) → i < n → get_or counts i 0 ≡ occurrences (b + i) bytes)
    → nonzero_of counts n ≡ used_from bytes b n
unfolding used_from
nonzero_of-eq-used_from bytes [] b zero h each = refl
nonzero_of-eq-used_from bytes [] b (suc n) h each = absurd (omega arith)
nonzero_of-eq-used_from bytes (c ∷ counts) b zero h each = refl
nonzero_of-eq-used_from bytes (c ∷ counts) b (suc n) h each =
    let e : b + 0 ≡ b = omega arith in
    let first : c ≡ occurrences b bytes = each 0 (omega arith) ∙ ap (λ j. occurrences j bytes) e in
    let rest = nonzero_of-eq-used_from bytes counts (suc b) n (omega arith) (λ i h'.
      let e' : b + suc i ≡ suc b + i = omega arith in
      each (suc i) (omega arith) ∙ ap (λ j. occurrences j bytes) e') in
    rw (first, rest) refl

-- With the counts of n byte values, the codes are 1 plus the number of used values below, and the
-- base is one more than the number of used values.
module _ (bytes counts : List ℕ) (n : ℕ) (sized : length counts ≡ n)
    (each : (i : ℕ) → i < n → get_or counts i 0 ≡ occurrences i bytes) where
  nonzero_known : (m : ℕ) → m ≤ n → nonzero_of counts m ≡ used_below bytes m
  nonzero_known m h =
      nonzero_of-eq-used_from bytes counts 0 m (omega arith)
        (λ i h'. each i (omega arith) ∙ ap (λ j. occurrences j bytes) (omega arith))

  pub base_used : (assign_codes 0 counts).1 + 1 ≡ 1 + used_below bytes n
  base_used = omega (
    arith,
    assign_codes_size 0 counts,
    ap (nonzero_of counts) sized,
    nonzero_known n (omega arith),
  )

  pub code_used :
      (b : ℕ) → b < n → get_or counts b 0 ≢ 0 → code_in counts b ≡ 1 + used_below bytes b
  code_used b h used =
      omega (arith, assign_codes_known 0 counts b used, nonzero_known b (omega arith))
