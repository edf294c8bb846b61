-- ===== src/Kmer/Keys.antt =====
-- The keys that the window of src/init.cpp gives, against the keys read off the codes.
use suffix_rank.Base.{
  ℕ, zero, suc, ◌+◌, ◌-◌, ◌<◌, ◌≤◌, ◌≡◌, refl, ap, sym, ◌∙◌, List, [], ◌∷◌, ◌++◌, arith, length,
  take, replicate, leb, le→leb, lt→leb, if◌then◌else◌, length-append, append_assoc, append-nil,
  length-replicate, take-append_of_length,
}
use suffix_rank.Kmer.Roll.{number}

-- The window after a code.
abbrev pub shift : List ℕ → ℕ → List ℕ
shift [] e = []
shift (c ∷ last) e = last ++ e ∷ []

module _ (base k : ℕ) where
  -- The keys of the completed positions, as the codes come in at stream indices p, p + 1, ...
  abbrev pub emitted : List ℕ → ℕ → List ℕ → List ℕ
  emitted last p [] = []
  emitted last p (e ∷ codes) =
      let rest = emitted (shift last e) (p + 1) codes in
      if leb (k - 1) p then number base (shift last e) ∷ rest else rest

  -- The key of a suffix: its first k codes, with zeros behind the end.
  abbrev pub key_of : List ℕ → ℕ
  key_of codes = number base (take k (codes ++ replicate (k - 1) 0))

  abbrev pub keys_of : List ℕ → List ℕ
  keys_of [] = []
  keys_of (c ∷ codes) = key_of (c ∷ codes) ∷ keys_of codes

  first_key :
      (d : ℕ) (cs : List ℕ) (x : ℕ) (w xs : List ℕ)
      → length w ≡ k - 1
      → 0 < k
      → w ++ x ∷ xs ≡ d ∷ (cs ++ replicate (k - 1) 0)
      → take k (d ∷ (cs ++ replicate (k - 1) 0)) ≡ w ++ x ∷ []
  first_key d cs x w xs n pos e =
      let whole = append_assoc w (x ∷ []) xs ∙ e in
      let long : length (w ++ x ∷ []) ≡ k = omega (arith, length-append w (x ∷ [])) in
      ap (take k) (sym whole) ∙ take-append_of_length k (w ++ x ∷ []) xs long

  emitted-full :
      (cs xs : List ℕ) (c : ℕ) (w : List ℕ) (p : ℕ)
      → 0 < k
      → length w ≡ k - 1
      → k - 1 ≤ p
      → w ++ xs ≡ cs ++ replicate (k - 1) 0
      → emitted (c ∷ w) p xs ≡ keys_of cs
  emitted-full [] [] c w p pos n h e = refl
  emitted-full [] (x ∷ xs) c w p pos n h e =
      let l = ap length e in
      absurd (omega (arith, length-append w (x ∷ xs), length-replicate (k - 1) zero))
  emitted-full (d ∷ cs) [] c w p pos n h e =
      let l = ap length e in
      absurd (
        omega (
          arith,
          length-append w (let z : List ℕ = [] in z),
          length-append (d ∷ cs) (replicate (k - 1) 0),
          length-replicate (k - 1) zero,
        ))
  emitted-full (d ∷ cs) (x ∷ xs) c [] p pos n h e =
      let one : k ≡ 1 = omega (arith) in
      let tail : xs ≡ cs ++ replicate (k - 1) 0 = cc in
      rw (le→leb (k - 1) p h, first_key d cs x [] xs n pos e)
        (ap (◌∷◌ (number base (x ∷ []))) (emitted-full cs xs x [] (p + 1) pos n (omega arith) tail))
  emitted-full (d ∷ cs) (x ∷ xs) c (y ∷ w) p pos n h e =
      let tail : w ++ x ∷ xs ≡ cs ++ replicate (k - 1) 0 = cc in
      rw (le→leb (k - 1) p h, first_key d cs x (y ∷ w) xs n pos e)
        (ap (◌∷◌ (number base (y ∷ (w ++ x ∷ [])))) (
          emitted-full cs xs y (w ++ x ∷ []) (p + 1) pos (omega (arith, length-append w (x ∷ [])))
            (omega arith) (append_assoc w (x ∷ []) xs ∙ tail)))

  -- Before k codes are in, nothing is complete.
  emitted-start :
      (j : ℕ) (seen xs cs : List ℕ) (p : ℕ)
      → 0 < k
      → length seen ≡ p
      → j + p ≡ k - 1
      → seen ++ xs ≡ cs ++ replicate (k - 1) 0
      → emitted (replicate (suc j) 0 ++ seen) p xs ≡ keys_of cs
  emitted-start zero seen xs cs p pos n j e =
      emitted-full cs xs 0 seen p pos (omega arith) (omega arith) e
  emitted-start (suc j) seen [] cs p pos n e0 e =
      let l = ap length e in
      absurd (
        omega (
          arith,
          length-append seen (let z : List ℕ = [] in z),
          length-append cs (replicate (k - 1) 0),
          length-replicate (k - 1) zero,
        ))
  emitted-start (suc j) seen (x ∷ xs) cs p pos n e0 e =
      rw (lt→leb (k - 1) p (omega arith), append_assoc (replicate j 0) seen (x ∷ []))
        (emitted-start j (seen ++ x ∷ []) xs cs (p + 1) pos
          (omega (arith, length-append seen (x ∷ []))) (omega arith)
          (append_assoc seen (x ∷ []) xs ∙ e))

  pub emitted-eq-keys_of :
      (cs : List ℕ) → 0 < k → emitted (replicate k 0) 0 (cs ++ replicate (k - 1) 0) ≡ keys_of cs
  emitted-eq-keys_of cs pos =
      let e : suc (k - 1) ≡ k = omega arith in
      let stream = cs ++ replicate (k - 1) 0 in
      ap (λ (n : ℕ). emitted (replicate n 0) 0 stream) (sym e)
      ∙ ap (λ (l : List ℕ). emitted l 0 stream) (sym (append-nil (replicate (suc (k - 1)) 0)))
      ∙ emitted-start (k - 1) [] stream cs 0 pos refl (omega arith) refl
