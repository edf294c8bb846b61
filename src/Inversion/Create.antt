-- ===== src/Inversion/Create.antt =====
-- The loop of src/create_pairs.c over all chunks.
use suffix_rank.Base.{
  ℕ, zero, suc, ◌+◌, ◌*◌, ◌/◌, ◌<◌, ◌≤◌, ◌≡◌, refl, ap, sym, ◌∙◌, List, [], ◌∷◌, ◌++◌, arith,
  length, get_or, All, Gives, gives, Gives-bind, Gives-map, append-nil, append_assoc,
}
use suffix_rank.Files.Chunked.{IsChunked, all_of}
use suffix_rank.Format.{Int40, i40_load}
use suffix_rank.Inverse.{InverseRecord}
use suffix_rank.Pairs.{create_pairs}
use suffix_rank.Pairs.Correct.{bucket, create_pairs_lem}
use suffix_rank.Inversion.{append_parts, create_all}
use suffix_rank.Inversion.Distinct.{bucket-append}

length-append_parts :
    (files parts : List (List InverseRecord))
    → length files ≡ length parts
    → length (append_parts files parts) ≡ length files
length-append_parts [] parts n = refl
length-append_parts (f ∷ files) [] n = absurd (omega arith)
length-append_parts (f ∷ files) (p ∷ parts) n =
    ap suc (length-append_parts files parts (omega arith))

get_or-append_parts :
    (files parts : List (List InverseRecord)) (b : ℕ)
    → length files ≡ length parts
    → get_or (append_parts files parts) b [] ≡ get_or files b [] ++ get_or parts b []
get_or-append_parts [] [] b n = refl
get_or-append_parts [] (p ∷ parts) b n = absurd (omega arith)
get_or-append_parts (f ∷ files) [] b n = absurd (omega arith)
get_or-append_parts (f ∷ files) (p ∷ parts) zero n = refl
get_or-append_parts (f ∷ files) (p ∷ parts) (suc b) n =
    get_or-append_parts files parts b (omega arith)

All-append_inv : (P : Int40 → Type 0) (xs ys : List Int40) → All P (xs ++ ys) → All P xs × All P ys
All-append_inv P [] ys h = (tt, h)
All-append_inv P (x ∷ xs) ys h = let (l, r) = All-append_inv P xs ys h.1 in ((h.0, l), r)

-- The files of pairs after some chunks.
pub record Created (total size chunk_id : ℕ) (ranks : List Int40)
    (before after : List (List InverseRecord)) : Type 0 where
  pub number : length after ≡ total
  pub each :
      (b : ℕ) → get_or after b [] ≡ get_or before b [] ++ bucket size (chunk_id * size) b ranks

bucket-nil : (size idx b : ℕ) → bucket size idx b [] ≡ []
unfolding bucket
bucket-nil size idx b = refl

module _ (total size : ℕ) (buffers : ℕ → List InverseRecord) (some_chunk : 0 < total)
    (rooms : (c : ℕ) → size ≤ length (buffers c)) where
  first_parts :
      (chunk_id : ℕ) (f : List Int40) (before : List (List InverseRecord))
      → length f ≤ size
      → All (λ r. i40_load r / size < total) f
      → length before ≡ total
      → Gives
          (λ parts. Created total size chunk_id f before (append_parts before parts))
          (create_pairs total size chunk_id f (buffers chunk_id))
  first_parts chunk_id f before short h n =
      Gives-map
        (create_pairs_lem total size chunk_id f (buffers chunk_id) some_chunk short (rooms chunk_id)
          h)
        (λ parts v. record {
          number = length-append_parts before parts (n ∙ sym v.count) ∙ n;
          each = λ b.
              get_or-append_parts before parts b (n ∙ sym v.count)
              ∙ ap (λ t. get_or before b [] ++ t) (v.each b);
        })

  pub create_all_lem :
      (chunk_id : ℕ) (files : List (List Int40)) (before : List (List InverseRecord))
      → IsChunked size files
      → All (λ r. i40_load r / size < total) (all_of files)
      → length before ≡ total
      → Gives
          (Created total size chunk_id (all_of files) before)
          (create_all total size buffers chunk_id files before)
  unfolding create_all
  create_all_lem chunk_id [] before c h n = gives (record {
    number = n;
    each = λ b. sym (
        ap (λ t. get_or before b [] ++ t) (bucket-nil size (chunk_id * size) b)
        ∙ append-nil (get_or before b []));
  })
  create_all_lem chunk_id (f ∷ []) before c h n =
      let here = rw (append-nil f) at h in
      Gives-bind (first_parts chunk_id f before c.1 here n) (λ parts v. rw (append-nil f) (gives v))
  create_all_lem chunk_id (f ∷ g ∷ files) before c h n =
      let (here, there) =
        All-append_inv (λ r. i40_load r / size < total) f (all_of (g ∷ files)) h in
      let next : (chunk_id + 1) * size ≡ chunk_id * size + length f = grind (arith, c.0) in
      Gives-bind (first_parts chunk_id f before (omega (arith, c.0)) here n) (λ parts v.
        Gives-map
          (create_all_lem (chunk_id + 1) (g ∷ files) (append_parts before parts) c.1 there v.number)
          (λ after u. record {
            number = u.number;
            each = λ b.
                u.each b
                ∙ ap (λ t. t ++ bucket size ((chunk_id + 1) * size) b (all_of (g ∷ files)))
                    (v.each b)
                ∙ append_assoc (get_or before b []) (bucket size (chunk_id * size) b f)
                    (bucket size ((chunk_id + 1) * size) b (all_of (g ∷ files)))
                ∙ ap (λ t. get_or before b [] ++ t)
                    (ap
                        (λ i.
                          bucket size (chunk_id * size) b f ++ bucket size i b (all_of (g ∷ files)))
                        next
                      ∙ sym (bucket-append size (chunk_id * size) b f (all_of (g ∷ files))));
          }))
