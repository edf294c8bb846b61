-- ===== src/Kmer/Counts.antt =====
-- Histograms of src/init.cpp and their running sums.
use suffix_rank.Base.{
  ℕ, zero, suc, ◌+◌, ◌<◌, ◌≤◌, ◌≡◌, refl, ap, sym, ◌∙◌, true, false, List, [], ◌∷◌, ◌++◌, map, some,
  arith, length, get_elem?, get_or, replicate, ltb, ◌==◌, if◌then◌else◌, Gives, gives, Gives-bind,
  Bool-cases, inl, inr, get_or-set, length-set, store_of_lt, get_elem?-eq-get_or, length-replicate,
  append_assoc, All, ==→eq, append-nil,
}
use suffix_rank.Kmer.Alphabet.{bump, count_bytes, cumulate}

-- How often x stands in a list, and how many entries are below x.
abbrev pub occurrences : ℕ → List ℕ → ℕ
occurrences x [] = 0
occurrences x (y ∷ ys) = (if x == y then 1 else 0) + occurrences x ys

abbrev pub smaller : ℕ → List ℕ → ℕ
smaller x [] = 0
smaller x (y ∷ ys) = (if ltb y x then 1 else 0) + smaller x ys

occurrences-snoc :
    (x : ℕ) (ys : List ℕ) (y : ℕ)
    → occurrences x (ys ++ y ∷ []) ≡ occurrences x ys + (if x == y then 1 else 0)
occurrences-snoc x [] y = omega arith
occurrences-snoc x (z ∷ ys) y = omega (arith, occurrences-snoc x ys y)

pub smaller-suc : (x : ℕ) (ys : List ℕ) → smaller (suc x) ys ≡ smaller x ys + occurrences x ys
smaller-suc x [] = omega arith
smaller-suc x (y ∷ ys) = ground (arith, smaller-suc x ys)

pub smaller-zero : (ys : List ℕ) → smaller 0 ys ≡ 0
smaller-zero [] = refl
smaller-zero (y ∷ ys) = ground (arith, smaller-zero ys)

pub not_occurs_above :
    (bound b : ℕ) (bytes : List ℕ)
    → All (λ c. c < bound) bytes
    → bound ≤ b
    → occurrences b bytes ≡ 0
not_occurs_above bound b [] h le = refl
not_occurs_above bound b (c ∷ bytes) h le = ground (arith, not_occurs_above bound b bytes h.1 le)

-- The histogram of some entries below a bound.
pub record IsHistogram (bound : ℕ) (xs counts : List ℕ) : Type 0 where
  pub entries : length counts ≡ bound
  pub each : (i : ℕ) → i < bound → get_or counts i 0 ≡ occurrences i xs

get_or-zeros : (n i : ℕ) → get_or {A = ℕ} (replicate n 0) i 0 ≡ 0
get_or-zeros zero i = refl
get_or-zeros (suc n) zero = refl
get_or-zeros (suc n) (suc i) = get_or-zeros n i

pub empty-IsHistogram : (bound : ℕ) → IsHistogram bound [] (replicate bound 0)
empty-IsHistogram bound = record {
  entries = length-replicate bound 0;
  each = λ i h. get_or-zeros bound i;
}

pub bump-IsHistogram :
    (bound : ℕ) (xs counts : List ℕ) (x : ℕ)
    → x < bound
    → IsHistogram bound xs counts
    → Gives (IsHistogram bound (xs ++ x ∷ [])) (bump counts x)
unfolding bump
bump-IsHistogram bound xs counts x h hist =
    let room : x < length counts = omega (arith, hist.entries) in
    let n = get_or counts x 0 in
    rw (get_elem?-eq-get_or counts x 0 room, store_of_lt counts x (n + 1) room)
      (gives (record {
        entries = length-set counts x (n + 1) ∙ hist.entries;
        each = λ i hi.
            get_or-set counts x i (n + 1) 0 room ∙ by_index i hi ∙ sym (occurrences-snoc i xs x);
      }))
  where
    by_index :
        (i : ℕ)
        → i < bound
        → (if x == i then get_or counts x 0 + 1 else get_or counts i 0)
          ≡ occurrences i xs + (if i == x then 1 else 0)
    by_index i hi = elim (Bool-cases (x == i)) [
      | inl same ↦
          let e = ==→eq x i same in
          let s : (i == x) ≡ true = ground arith in
          rw (same, s) (omega (arith, hist.each x h, ap (λ (j : ℕ). occurrences j xs) e))
      | inr apart ↦
          let s : (i == x) ≡ false = ground arith in rw (apart, s) (omega (arith, hist.each i hi))
    ]

count_from :
    (bytes xs counts : List ℕ)
    → All (λ b. b < 256) bytes
    → IsHistogram 257 xs counts
    → Gives (IsHistogram 257 (xs ++ map suc bytes)) (count_bytes bytes counts)
unfolding count_bytes
count_from [] xs counts h hist = rw (append-nil xs) (gives hist)
count_from (b ∷ bytes) xs counts h hist =
    let up : b + 1 ≡ suc b = omega arith in
    Gives-bind (bump-IsHistogram 257 xs counts (b + 1) (omega (arith, h.0)) hist) (λ counts' hist'.
      rw (append_assoc xs (suc b ∷ []) (map suc bytes)) at
        (count_from bytes (xs ++ suc b ∷ []) counts' h.1 (rw up at hist')))

pub count_bytes_lem :
    (bytes : List ℕ)
    → All (λ b. b < 256) bytes
    → Gives (IsHistogram 257 (map suc bytes)) (count_bytes bytes (replicate 257 0))
count_bytes_lem bytes h = count_from bytes [] (replicate 257 0) h (empty-IsHistogram 257)

abbrev sum_first : ℕ → List ℕ → ℕ
sum_first zero counts = 0
sum_first (suc i) [] = 0
sum_first (suc i) (c ∷ counts) = c + sum_first i counts

get_or-cumulate :
    (acc : ℕ) (counts : List ℕ) (i : ℕ)
    → i < length counts
    → get_or (cumulate acc counts) i 0 ≡ acc + sum_first i counts
get_or-cumulate acc [] i h = absurd (omega arith)
get_or-cumulate acc (c ∷ counts) zero h = omega arith
get_or-cumulate acc (c ∷ counts) (suc i) h =
    omega (arith, get_or-cumulate (acc + c) counts i (omega arith))

sum_first-suc :
    (i : ℕ) (counts : List ℕ)
    → i < length counts
    → sum_first (suc i) counts ≡ sum_first i counts + get_or counts i 0
sum_first-suc i [] h = absurd (omega arith)
sum_first-suc zero (c ∷ counts) h = omega arith
sum_first-suc (suc i) (c ∷ counts) h = omega (arith, sum_first-suc i counts (omega arith))

pub length-cumulate : (acc : ℕ) (counts : List ℕ) → length (cumulate acc counts) ≡ length counts
length-cumulate acc [] = refl
length-cumulate acc (c ∷ counts) = ap suc (length-cumulate (acc + c) counts)

sum_first-eq-smaller :
    (bound : ℕ) (xs counts : List ℕ)
    → IsHistogram bound xs counts
    → (i : ℕ) → i ≤ bound
    → sum_first i counts ≡ smaller i xs
sum_first-eq-smaller bound xs counts hist zero h = sym (smaller-zero xs)
sum_first-eq-smaller bound xs counts hist (suc i) h = omega (
  arith,
  sum_first-suc i counts (omega (arith, hist.entries)),
  hist.each i (omega arith),
  sum_first-eq-smaller bound xs counts hist i (omega arith),
  smaller-suc i xs,
)

-- The running sum at an entry counts the smaller ones.
pub bucket_start :
    (bound : ℕ) (xs counts : List ℕ) (i : ℕ)
    → IsHistogram bound xs counts
    → i < bound
    → get_elem? (cumulate 0 counts) i ≡ some (smaller i xs)
bucket_start bound xs counts i hist h =
    let inside : i < length counts = omega (arith, hist.entries) in
    get_elem?-eq-get_or (cumulate 0 counts) i 0 (omega (arith, length-cumulate 0 counts))
    ∙ ap some (
        omega (
          arith,
          get_or-cumulate 0 counts i inside,
          sum_first-eq-smaller bound xs counts hist i (omega arith),
        ))
