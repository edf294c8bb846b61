-- ===== src/Verify/Partition/Spec.antt =====
-- What src/verify.c is to put into the file of each chunk of ranks, read off the symbols and the ranks
-- as a whole.
use suffix_rank.Base.{
  and_false, ℕ, zero, suc, ◌+◌, ◌/◌, ◌%◌, ◌<◌, ◌≤◌, ◌≡◌, refl, ap, Bool, true, false, ◌&&◌, List,
  [], ◌∷◌, ◌++◌, append_assoc, append-nil, arith, length, ◌==◌, if◌then◌else◌, ltb, replicate,
  lt→ltb, le→ltb,
}
use suffix_rank.Base.Int.{ℤ, pos, negsuc}
use suffix_rank.Verify.Records.{VerifyRecord}

-- The key of each symbol: a byte plus 2, and 0 for the sentinel.
abbrev pub keys : List ℕ → List ℕ
keys [] = 0 ∷ []
keys (b ∷ bytes) = (b + 2) ∷ keys bytes

-- The rank of the position behind one: -1 behind the last.
abbrev pub next_of : List ℕ → ℤ
next_of [] = negsuc 0
next_of (r ∷ rs) = pos r

abbrev pub all_below : ℕ → List ℕ → Bool
all_below bound [] = true
all_below bound (r ∷ rs) = ltb r bound && all_below bound rs

abbrev pub push : List (List VerifyRecord) → ℕ → VerifyRecord → List (List VerifyRecord)
push [] i x = []
push (e ∷ es) zero x = (e ++ x ∷ []) ∷ es
push (e ∷ es) (suc i) x = e ∷ push es i x

module _ (size : ℕ) where
  abbrev pub record_at : ℕ → ℕ → List ℕ → ℕ → VerifyRecord
  record_at position r rs key = record {
    position = position;
    next_rank = next_of rs;
    slot = r % size;
    first_key = key;
  }

  -- The records of the positions whose rank lies in chunk t.
  abbrev pub part : ℕ → ℕ → List ℕ → List ℕ → List VerifyRecord
  part t position [] ks = []
  part t position (r ∷ rs) [] = []
  part t position (r ∷ rs) (k ∷ ks) =
      let rest = part t (position + 1) rs ks in
      if r / size == t then record_at position r rs k ∷ rest else rest

  -- The parts of n chunks from chunk t on.
  abbrev pub parts : ℕ → ℕ → List ℕ → List ℕ → List (List VerifyRecord)
  parts t zero rs ks = []
  parts t (suc n) rs ks = part t 0 rs ks ∷ parts (suc t) n rs ks

  -- The same behind what some files have.
  abbrev pub extend : ℕ → ℕ → List ℕ → List ℕ → List (List VerifyRecord) → List (List VerifyRecord)
  extend t position rs ks [] = []
  extend t position rs ks (e ∷ es) = (e ++ part t position rs ks) ∷ extend (suc t) position rs ks es

  pub extend-replicate :
      (t n : ℕ) (rs ks : List ℕ) → extend t 0 rs ks (replicate n []) ≡ parts t n rs ks
  extend-replicate t zero rs ks = refl
  extend-replicate t (suc n) rs ks = ap (◌∷◌ (part t 0 rs ks)) (extend-replicate (suc t) n rs ks)

  pub extend-nil :
      (t position : ℕ) (es : List (List VerifyRecord)) (ks : List ℕ)
      → extend t position [] ks es ≡ es
  extend-nil t position [] ks = refl
  extend-nil t position (e ∷ es) ks = rw (append-nil e, extend-nil (suc t) position es ks) refl

  part-other :
      (t position r : ℕ) (rs : List ℕ) (k : ℕ) (ks : List ℕ)
      → (r / size == t) ≡ false
      → part t position (r ∷ rs) (k ∷ ks) ≡ part t (position + 1) rs ks
  part-other t position r rs k ks e = rw e refl

  part-own :
      (t position r : ℕ) (rs : List ℕ) (k : ℕ) (ks : List ℕ)
      → (r / size == t) ≡ true
      → part t position (r ∷ rs) (k ∷ ks) ≡ record_at position r rs k ∷ part t (position + 1) rs ks
  part-own t position r rs k ks e = rw e refl

  extend-later :
      (t position r : ℕ) (rs : List ℕ) (k : ℕ) (ks : List ℕ) (es : List (List VerifyRecord))
      → r / size < t
      → extend t position (r ∷ rs) (k ∷ ks) es ≡ extend t (position + 1) rs ks es
  extend-later t position r rs k ks [] h = refl
  extend-later t position r rs k ks (e ∷ es) h =
      rw (part-other t position r rs k ks (ground arith)) (
        ap (◌∷◌ (e ++ part t (position + 1) rs ks))
          (extend-later (suc t) position r rs k ks es (omega arith)))

  -- One position extends the file of its chunk.
  pub extend-cons :
      (t position r : ℕ) (rs : List ℕ) (k : ℕ) (ks : List ℕ) (es : List (List VerifyRecord)) (i : ℕ)
      → t + i ≡ r / size
      → extend t position (r ∷ rs) (k ∷ ks) es
        ≡ extend t (position + 1) rs ks (push es i (record_at position r rs k))
  extend-cons t position r rs k ks [] i e = refl
  extend-cons t position r rs k ks (e ∷ es) zero h =
      rw
        (
          part-own t position r rs k ks (ground arith),
          extend-later (suc t) position r rs k ks es (omega arith),
          append_assoc e (record_at position r rs k ∷ []) (part t (position + 1) rs ks),
        )
        refl
  extend-cons t position r rs k ks (e ∷ es) (suc i) h =
      rw (part-other t position r rs k ks (ground arith)) (
        ap (◌∷◌ (e ++ part t (position + 1) rs ks))
          (extend-cons (suc t) position r rs k ks es i (omega arith)))

-- There is one rank for each symbol, and each lies in a chunk.
abbrev pub accepts : ℕ → List ℕ → List ℕ → Bool
accepts bound rs ks = (length rs == length ks) && all_below bound rs

pub accepts-cons :
    (bound r : ℕ) (rs : List ℕ) (k : ℕ) (ks : List ℕ)
    → r < bound
    → accepts bound (r ∷ rs) (k ∷ ks) ≡ accepts bound rs ks
accepts-cons bound r rs k ks h =
    let e : (suc (length rs) == suc (length ks)) ≡ (length rs == length ks) = ground arith in
    rw (e, lt→ltb r bound h) refl

pub accepts-bad : (bound r : ℕ) (rs ks : List ℕ) → bound ≤ r → accepts bound (r ∷ rs) ks ≡ false
accepts-bad bound r rs ks h = rw (le→ltb r bound h) (and_false _)

pub accepts-short : (bound r : ℕ) (rs : List ℕ) → accepts bound (r ∷ rs) [] ≡ false
accepts-short bound r rs = let e : (suc (length rs) == 0) ≡ false = ground arith in rw e refl
