-- ===== src/Files.antt =====
-- Reading records from a file into an array: `fread(&buffer[at], size, n, fp)`, where the records
-- that the file still has, at most n of them, replace the entries from index `at` on.
pub mod Window
pub mod Chunked
use suffix_rank.Base.{
  ℕ, zero, suc, ◌+◌, ◌<◌, ◌≤◌, ◌≡◌, refl, ap, ◌∙◌, List, [], ◌∷◌, Option, none, some, false, ltb,
  if◌then◌else◌, arith, length, get_elem?, set, take, length-set, get_elem?-set_self,
  get_elem?-set_ne,
}

unfoldable pub fread_at {ℓ} : {A : Type ℓ} → List A → ℕ → List A → List A
fread_at buffer at [] = buffer
fread_at buffer at (r ∷ records) = fread_at (set buffer at r) (suc at) records

-- A call of fread for `count` records; a request that goes past the end of the buffer is a fault.
abbrev pub fread {ℓ} : {A : Type ℓ} → List A → ℕ → ℕ → List A → Option (List A)
fread buffer at count records =
    if ltb (length buffer) (at + count)
    then none
    else some (fread_at buffer at (take count records))

-- The records that such a call puts at the start of a buffer with `room` entries.
abbrev pub fread_front {ℓ} : {A : Type ℓ} → ℕ → ℕ → List A → Option (List A)
fread_front room count records = if ltb room count then none else some (take count records)

module _ {ℓ} {A : Type ℓ} where
  pub fread_front_lem : (n : ℕ) (records : List A) → fread_front n n records ≡ some (take n records)
  fread_front_lem n records = let fits : ltb n n ≡ false = ground arith in rw fits refl

  pub fread_lem :
      (buffer : List A) (at count : ℕ) (records : List A)
      → at + count ≤ length buffer
      → fread buffer at count records ≡ some (fread_at buffer at (take count records))
  fread_lem buffer at count records h =
      let room : ltb (length buffer) (at + count) ≡ false = ground arith in rw room refl

  pub length-fread_at :
      (buffer : List A) (at : ℕ) (records : List A)
      → length (fread_at buffer at records) ≡ length buffer
  unfolding fread_at
  length-fread_at buffer at [] = refl
  length-fread_at buffer at (r ∷ records) =
      length-fread_at (set buffer at r) (suc at) records ∙ length-set buffer at r

  -- A read leaves the entries before it alone.
  pub fread_at-before :
      (buffer : List A) (at : ℕ) (records : List A) (p : ℕ)
      → p < at
      → get_elem? (fread_at buffer at records) p ≡ get_elem? buffer p
  unfolding fread_at
  fread_at-before buffer at [] p h = refl
  fread_at-before buffer at (r ∷ records) p h =
      fread_at-before (set buffer at r) (suc at) records p (omega arith)
      ∙ get_elem?-set_ne buffer at p r (omega arith)

  -- It puts record i at index at + i.
  pub fread_at-inside :
      (buffer : List A) (at : ℕ) (records : List A) (i p : ℕ) (r : A)
      → p ≡ at + i
      → p < length buffer
      → get_elem? records i ≡ some r
      → get_elem? (fread_at buffer at records) p ≡ some r
  unfolding fread_at
  fread_at-inside buffer at [] i p r e h got = cc
  fread_at-inside buffer at (x ∷ records) zero p r e h got =
      fread_at-before (set buffer at x) (suc at) records p (omega arith)
      ∙ (let same : p ≡ at = omega arith in
          rw same (get_elem?-set_self buffer at x (omega arith) ∙ got))
  fread_at-inside buffer at (x ∷ records) (suc i) p r e h got =
      fread_at-inside (set buffer at x) (suc at) records i p r (omega arith) (rw length-set h) got

  pub fread_at-suc :
      (y : A) (buffer : List A) (at : ℕ) (records : List A)
      → fread_at (y ∷ buffer) (suc at) records ≡ y ∷ fread_at buffer at records
  unfolding fread_at
  fread_at-suc y buffer at [] = refl
  fread_at-suc y buffer at (r ∷ records) = fread_at-suc y (set buffer at r) (suc at) records

  -- What was read stands in front.
  pub take-fread_at :
      (buffer records : List A)
      → length records ≤ length buffer
      → take (length records) (fread_at buffer 0 records) ≡ records
  unfolding fread_at
  take-fread_at buffer [] h = refl
  take-fread_at [] (r ∷ records) h = absurd (omega arith)
  take-fread_at (y ∷ buffer) (r ∷ records) h =
      rw (fread_at-suc r buffer 0 records) (ap (◌∷◌ r) (take-fread_at buffer records (omega arith)))
