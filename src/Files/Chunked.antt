-- ===== src/Files/Chunked.antt =====
-- A stream that is written into files of a fixed number of entries, as src/init.cpp writes its X files
-- and its ranks files, one entry after the other through a buffer.
use suffix_rank.Base.{
  ℕ, ◌+◌, ◌<◌, ◌≤◌, ◌≡◌, ap, sym, ◌∙◌, List, [], ◌∷◌, ◌++◌, Option, some, arith, length, store, set,
  take, ◌==◌, ltb, if◌then◌else◌, ◌>>=◌, Gives, gives, store_of_lt, length-set, take-add_one-set,
  Bool-cases, inl, inr, append-nil, append_assoc, All, ==→eq, length-take,
}

module _ {ℓ} {A : Type ℓ} where
  -- All files but the last are full, and none is empty.
  abbrev pub IsChunked : ℕ → List (List A) → Type 0
  IsChunked size [] = Unit
  IsChunked size (f ∷ []) = (0 < length f) × (length f ≤ size)
  IsChunked size (f ∷ g ∷ files) = (length f ≡ size) × IsChunked size (g ∷ files)

  abbrev pub all_of : List (List A) → List A
  all_of [] = []
  all_of (f ∷ files) = f ++ all_of files

  abbrev pub AreFull : ℕ → List (List A) → Type 0
  AreFull size files = All (λ f. length f ≡ size) files

  AreFull-snoc :
      (size : ℕ) (files : List (List A)) (f : List A)
      → AreFull size files
      → length f ≡ size
      → AreFull size (files ++ f ∷ [])
  AreFull-snoc size [] f h e = (e, tt)
  AreFull-snoc size (g ∷ files) f h e = (h.0, AreFull-snoc size files f h.1 e)

  AreFull-IsChunked :
      (size : ℕ) (files : List (List A)) → 0 < size → AreFull size files → IsChunked size files
  AreFull-IsChunked size [] p h = tt
  AreFull-IsChunked size (f ∷ []) p h = (omega arith, omega arith)
  AreFull-IsChunked size (f ∷ g ∷ files) p h = (h.0, AreFull-IsChunked size (g ∷ files) p h.1)

  snoc-IsChunked :
      (size : ℕ) (files : List (List A)) (f : List A)
      → AreFull size files
      → 0 < length f
      → length f ≤ size
      → IsChunked size (files ++ f ∷ [])
  snoc-IsChunked size [] f h lo hi = (lo, hi)
  snoc-IsChunked size (g ∷ []) f h lo hi = (h.0, (lo, hi))
  snoc-IsChunked size (g ∷ g' ∷ files) f h lo hi =
      (h.0, snoc-IsChunked size (g' ∷ files) f h.1 lo hi)

  all_of-snoc : (files : List (List A)) (f : List A) → all_of (files ++ f ∷ []) ≡ all_of files ++ f
  all_of-snoc [] f = append-nil f
  all_of-snoc (g ∷ files) f =
      ap (λ t. g ++ t) (all_of-snoc files f) ∙ sym (append_assoc g (all_of files) f)

-- The buffer, and the files written so far; chunk_id is their number.
pub record Chunker {ℓ} (A : Type ℓ) : Type ℓ where
  pub buffer : List A
  pub pos_in_buffer : ℕ
  pub files : List (List A)

module _ {ℓ} {A : Type ℓ} (size : ℕ) where
  abbrev flush : Chunker A → Chunker A
  flush c = record c { pos_in_buffer = 0; files = c.files ++ take c.pos_in_buffer c.buffer ∷ [] }

  -- One more entry, and a file if the buffer is full.
  unfoldable pub append_entry : A → Chunker A → Option (Chunker A)
  append_entry x c = do
    buffer ← store c.buffer c.pos_in_buffer x
    let c' : Chunker A = record c { buffer = buffer; pos_in_buffer = c.pos_in_buffer + 1 }
    some (if c'.pos_in_buffer == size then flush c' else c')

  -- All files, with one for what is left in the buffer.
  unfoldable pub close_chunks : Chunker A → List (List A)
  close_chunks c = (if ltb 0 c.pos_in_buffer then flush c else c).files

  -- The chunker has taken these entries.
  pub record Took (entries : List A) (c : Chunker A) : Type ℓ where
    pub allocated : length c.buffer ≡ size
    pub inside : c.pos_in_buffer < size
    pub full : AreFull size c.files
    pub taken : all_of c.files ++ take c.pos_in_buffer c.buffer ≡ entries

  pub append_entry_lem :
      (x : A) (entries : List A) (c : Chunker A)
      → Took entries c
      → Gives (Took (entries ++ x ∷ [])) (append_entry x c)
  unfolding append_entry
  append_entry_lem x entries c t =
      let room : c.pos_in_buffer < length c.buffer = omega (arith, t.allocated, t.inside) in
      let longer = take-add_one-set c.buffer c.pos_in_buffer x room in
      let now : all_of c.files ++ take (c.pos_in_buffer + 1) (set c.buffer c.pos_in_buffer x)
          ≡ entries ++ x ∷ [] =
        ap (λ l. all_of c.files ++ l) longer
        ∙ sym (append_assoc (all_of c.files) (take c.pos_in_buffer c.buffer) (x ∷ []))
        ∙ ap (λ l. l ++ x ∷ []) t.taken in
      let same : length (set c.buffer c.pos_in_buffer x) ≡ size =
        length-set c.buffer c.pos_in_buffer x ∙ t.allocated in
      rw (store_of_lt c.buffer c.pos_in_buffer x room)
        (elim (Bool-cases (c.pos_in_buffer + 1 == size)) [
          | inr free ↦ rw free (
              gives (record {
                allocated = same;
                inside = ground (arith, t.inside);
                full = t.full;
                taken = now;
              }))
          | inl fills ↦
              let part = take (c.pos_in_buffer + 1) (set c.buffer c.pos_in_buffer x) in
              rw fills (
                gives (record {
                  allocated = same;
                  inside = omega (arith, t.inside);
                  full = AreFull-snoc size c.files part t.full (
                      omega (
                        arith,
                        length-take (c.pos_in_buffer + 1) (set c.buffer c.pos_in_buffer x),
                        ==→eq _ _ fills,
                      ));
                  taken =
                      append-nil (all_of (c.files ++ part ∷ [])) ∙ all_of-snoc c.files part ∙ now;
                }))
        ])

  -- Closed, the files hold the entries in order.
  pub close_chunks_lem :
      (entries : List A) (c : Chunker A)
      → Took entries c
      → IsChunked size (close_chunks c) × (all_of (close_chunks c) ≡ entries)
  unfolding close_chunks
  close_chunks_lem entries c t = elim (Bool-cases (ltb 0 c.pos_in_buffer)) [
    | inl left ↦
        let part = take c.pos_in_buffer c.buffer in
        let l : length part ≡ c.pos_in_buffer =
          omega (arith, length-take c.pos_in_buffer c.buffer, t.allocated, t.inside) in
        rw (close_chunks, left)
          (
            snoc-IsChunked size c.files part t.full (ground arith) (omega (arith, t.inside)),
            all_of-snoc c.files part ∙ t.taken,
          )
    | inr none_left ↦
        let z : c.pos_in_buffer ≡ 0 = ground arith in
        rw (close_chunks, none_left)
          (
            AreFull-IsChunked size c.files (omega (arith, t.inside)) t.full,
            sym (append-nil (all_of c.files))
                ∙ ap (λ n. all_of c.files ++ take n c.buffer) (sym z)
                ∙ t.taken,
          )
  ]
