-- ===== src/Kmer/Coded.antt =====
-- The counts of the bytes in src/init.cpp, and the codes and the base that come from them.
use suffix_rank.Base.{
  and_false, ℕ, zero, suc, ◌+◌, ◌-◌, ◌<◌, ◌≤◌, ◌≡◌, ◌≢◌, refl, ap, ◌∙◌, true, false, List, [], ◌∷◌,
  map, arith, length, get_or, drop, ◌==◌, All, length-drop, eq→==, ne→==,
}
use suffix_rank.Kmer.Alphabet.{bytes_allowed, all_zero, assign_codes}
use suffix_rank.Kmer.Counts.{not_occurs_above, occurrences, IsHistogram}
use suffix_rank.Kmer.Codes.{length-assign_codes, code_in_range, used_below, base_used, code_used}
use suffix_rank.Kmer.Digits.{AreDigits, code_at, AreCoded}

get_or-drop : (n : ℕ) (xs : List ℕ) (i : ℕ) → get_or (drop n xs) i 0 ≡ get_or xs (n + i) 0
get_or-drop zero xs i = ap (λ j. get_or xs j 0) (omega arith)
get_or-drop (suc n) [] i = refl
get_or-drop (suc n) (x ∷ xs) i =
    let e : suc n + i ≡ suc (n + i) = omega arith in rw e (get_or-drop n xs i)

all_zero_of :
    (counts : List ℕ)
    → ((i : ℕ) → i < length counts → get_or counts i 0 ≡ 0)
    → all_zero counts ≡ true
all_zero_of [] h = refl
all_zero_of (n ∷ counts) h =
    rw (eq→== n 0 (h 0 (omega arith))) (all_zero_of counts (λ i hi. h (suc i) (omega arith)))

not_all_zero : (counts : List ℕ) (i : ℕ) → get_or counts i 0 ≢ 0 → all_zero counts ≡ false
not_all_zero [] i h = absurd (h refl)
not_all_zero (n ∷ counts) zero h = rw (ne→== n 0 h) refl
not_all_zero (n ∷ counts) (suc i) h = rw (not_all_zero counts i h) (and_false (n == 0))

-- A byte is used.
abbrev pub IsUsed : List ℕ → ℕ → Type 0
IsUsed bytes b = 0 < occurrences b bytes

occurrences-map-suc :
    (b : ℕ) (bytes : List ℕ) → occurrences (suc b) (map suc bytes) ≡ occurrences b bytes
occurrences-map-suc b [] = refl
occurrences-map-suc b (c ∷ bytes) = ground (arith, occurrences-map-suc b bytes)

pub All-lt :
    (lo hi : ℕ) (bytes : List ℕ) → lo ≤ hi → All (λ b. b < lo) bytes → All (λ b. b < hi) bytes
All-lt lo hi [] le h = tt
All-lt lo hi (b ∷ bytes) le h = (omega arith, All-lt lo hi bytes le h.1)

module _ (bytes counts : List ℕ) (hist : IsHistogram 257 (map suc bytes) counts) where
  pub byte_count : (b : ℕ) → b < 256 → get_or (drop 1 counts) b 0 ≡ occurrences b bytes
  byte_count b h =
      let e : 1 + b ≡ suc b = omega arith in
      get_or-drop 1 counts b
      ∙ ap (λ j. get_or counts j 0) e
      ∙ hist.each (suc b) (omega arith)
      ∙ occurrences-map-suc b bytes

  pub allowed : All (λ b. b < 254) bytes → bytes_allowed counts ≡ true
  allowed h = all_zero_of (drop 255 counts) (λ i hi.
      let e : 255 + i ≡ suc (254 + i) = omega arith in
      get_or-drop 255 counts i
      ∙ ap (λ j. get_or counts j 0) e
      ∙ hist.each (suc (254 + i)) (omega (arith, length-drop 255 counts, hist.entries))
      ∙ occurrences-map-suc (254 + i) bytes
      ∙ not_occurs_above 254 (254 + i) bytes h (omega arith))

  pub not_allowed : (b : ℕ) → 253 < b → b < 256 → IsUsed bytes b → bytes_allowed counts ≡ false
  not_allowed b lo hi used = not_all_zero (drop 255 counts) (b - 254) (λ z.
      let e : 255 + (b - 254) ≡ suc b = omega arith in
      let c =
        get_or-drop 255 counts (b - 254)
        ∙ ap (λ j. get_or counts j 0) e
        ∙ hist.each (suc b) (omega arith)
        ∙ occurrences-map-suc b bytes in
      omega arith)

  abbrev pub code_of_byte : List ℕ
  code_of_byte = (assign_codes 0 (drop 1 counts)).0

  abbrev pub base : ℕ
  base = (assign_codes 0 (drop 1 counts)).1 + 1

  pub coded_from :
      (bs : List ℕ)
      → All (λ b. b < 256) bs
      → All (λ b. IsUsed bytes b) bs
      → AreCoded base code_of_byte bs
  coded_from [] h u = tt
  coded_from (b ∷ bs) h u =
      let range = code_in_range (drop 1 counts) b (λ z. omega (arith, byte_count b h.0, u.0)) in
      (
        (
          omega (
            arith,
            length-assign_codes 0 (drop 1 counts),
            length-drop 1 counts,
            hist.entries,
            h.0,
          ),
          range.1,
        ),
        coded_from bs h.1 u.1,
      )

  -- The codes count the used bytes.
  sized : length (drop 1 counts) ≡ 256
  sized = omega (arith, length-drop 1 counts, hist.entries)

  pub base_known : base ≡ 1 + used_below bytes 256
  base_known = base_used bytes (drop 1 counts) 256 sized byte_count

  pub code_known :
      (b : ℕ) → b < 256 → IsUsed bytes b → code_at code_of_byte b ≡ 1 + used_below bytes b
  code_known b h used =
      code_used bytes (drop 1 counts) 256 sized byte_count b h
        (λ z. omega (arith, byte_count b h, used))

IsUsed-cons :
    (b : ℕ) (bytes bs : List ℕ) → All (λ c. IsUsed bytes c) bs → All (λ c. IsUsed (b ∷ bytes) c) bs
IsUsed-cons b bytes [] h = tt
IsUsed-cons b bytes (c ∷ bs) h = (omega (arith, h.0), IsUsed-cons b bytes bs h.1)

pub all-IsUsed : (bytes : List ℕ) → All (λ b. IsUsed bytes b) bytes
all-IsUsed [] = tt
all-IsUsed (b ∷ bytes) = (ground arith, IsUsed-cons b bytes bytes (all-IsUsed bytes))

pub coded-AreDigits :
    (B : ℕ) (codes bytes : List ℕ)
    → AreCoded B codes bytes
    → AreDigits B (map (code_at codes) bytes)
coded-AreDigits B codes [] h = tt
coded-AreDigits B codes (b ∷ bytes) h = (h.0.1, coded-AreDigits B codes bytes h.1)
