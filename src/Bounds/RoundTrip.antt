-- ===== src/Bounds/RoundTrip.antt =====
-- The windows that src/utils.c writes are those that it reads.
use suffix_rank.Base.{
  ℕ, ◌+◌, ◌*◌, ◌/◌, ◌≡◌, refl, ap, sym, ◌∙◌, false, List, [], ◌∷◌, ◌++◌, some, arith, length,
  get_elem?, store, replicate, ltb, le→ltb, ◌>>=◌, get_elem?-middle, store-middle, length-append,
  append_assoc, take-eq_of_le, length-replicate,
}
use suffix_rank.Base.Int.{ℤ, pos}
use suffix_rank.Files.{fread_at, fread_lem, take-fread_at, length-fread_at}
use suffix_rank.Bounds.{fill_bounds, bounds_store, take_bounds, loaded, bounds_load}

-- The windows, one after the other.
abbrev interleave : List ℤ → List ℤ → List ℤ
interleave [] hs = []
interleave (l ∷ ls) [] = []
interleave (l ∷ ls) (h ∷ hs) = l ∷ h ∷ interleave ls hs

length-interleave :
    (ls hs : List ℤ) → length ls ≡ length hs → length (interleave ls hs) ≡ length ls * 2
length-interleave [] hs e = omega arith
length-interleave (l ∷ ls) [] e = absurd (omega arith)
length-interleave (l ∷ ls) (h ∷ hs) e = omega (arith, length-interleave ls hs (omega arith))

-- Two entries further.
regroup : (xs : List ℤ) (a b : ℤ) (ys : List ℤ) → (xs ++ a ∷ b ∷ []) ++ ys ≡ xs ++ a ∷ b ∷ ys
regroup xs a b ys = append_assoc xs (a ∷ b ∷ []) ys

fill_lem :
    (ls hs xs ys pre zs : List ℤ) (c : ℕ)
    → length xs ≡ c
    → length ys ≡ c
    → length pre ≡ 2 * c
    → length ls ≡ length hs
    → length zs ≡ length ls * 2
    → fill_bounds (length ls) c (xs ++ ls) (ys ++ hs) (pre ++ zs) ≡ some (pre ++ interleave ls hs)
unfolding fill_bounds
fill_lem [] hs xs ys pre [] c a b p n m = refl
fill_lem [] hs xs ys pre (z ∷ zs) c a b p n m = absurd (omega arith)
fill_lem (l ∷ ls) [] xs ys pre zs c a b p n m = absurd (omega arith)
fill_lem (l ∷ ls) (h ∷ hs) xs ys pre [] c a b p n m = absurd (omega arith)
fill_lem (l ∷ ls) (h ∷ hs) xs ys pre (z ∷ []) c a b p n m = absurd (omega arith)
fill_lem (l ∷ ls) (h ∷ hs) xs ys pre (z ∷ z' ∷ zs) c a b p n m =
    let second : length (pre ++ l ∷ []) ≡ 2 * c + 1 = omega (arith, length-append pre (l ∷ [])) in
    let here = append_assoc pre (l ∷ []) (z' ∷ zs) in
    let there = append_assoc pre (l ∷ []) (h ∷ zs) in
    let put : store (pre ++ l ∷ z' ∷ zs) (2 * c + 1) h ≡ some (pre ++ l ∷ h ∷ zs) =
      rw (here, there) at (store-middle (pre ++ l ∷ []) z' zs (2 * c + 1) h second) in
    let later =
      fill_lem ls hs (xs ++ l ∷ []) (ys ++ h ∷ []) (pre ++ l ∷ h ∷ []) zs (c + 1)
        (omega (arith, length-append xs (l ∷ []))) (omega (arith, length-append ys (h ∷ [])))
        (omega (arith, length-append pre (l ∷ h ∷ []))) (omega arith) (omega arith) in
    rw
      (
        get_elem?-middle xs l ls c a,
        store-middle pre z (z' ∷ zs) (2 * c) l p,
        get_elem?-middle ys h hs c b,
        put,
      )
      (rw
        (
          append_assoc xs (l ∷ []) ls,
          append_assoc ys (h ∷ []) hs,
          regroup pre l h zs,
          regroup pre l h (interleave ls hs),
        )
        at later)

take_lem :
    (ls hs xs ys pre us vs : List ℤ) (c : ℕ)
    → length xs ≡ c
    → length ys ≡ c
    → length pre ≡ 2 * c
    → length ls ≡ length hs
    → length us ≡ length ls
    → length vs ≡ length ls
    → take_bounds (length ls) c (pre ++ interleave ls hs) (xs ++ us) (ys ++ vs)
      ≡ some (xs ++ ls, ys ++ hs)
unfolding take_bounds
take_lem [] [] xs ys pre [] [] c a b p n m k = refl
take_lem [] (h ∷ hs) xs ys pre us vs c a b p n m k = absurd (omega arith)
take_lem [] [] xs ys pre (u ∷ us) vs c a b p n m k = absurd (omega arith)
take_lem [] [] xs ys pre [] (v ∷ vs) c a b p n m k = absurd (omega arith)
take_lem (l ∷ ls) [] xs ys pre us vs c a b p n m k = absurd (omega arith)
take_lem (l ∷ ls) (h ∷ hs) xs ys pre [] vs c a b p n m k = absurd (omega arith)
take_lem (l ∷ ls) (h ∷ hs) xs ys pre (u ∷ us) [] c a b p n m k = absurd (omega arith)
take_lem (l ∷ ls) (h ∷ hs) xs ys pre (u ∷ us) (v ∷ vs) c a b p n m k =
    let rest = interleave ls hs in
    let second : length (pre ++ l ∷ []) ≡ 2 * c + 1 = omega (arith, length-append pre (l ∷ [])) in
    let got : get_elem? (pre ++ l ∷ h ∷ rest) (2 * c + 1) ≡ some h =
      rw (append_assoc pre (l ∷ []) (h ∷ rest)) at
        (get_elem?-middle (pre ++ l ∷ []) h rest (2 * c + 1) second) in
    let later =
      take_lem ls hs (xs ++ l ∷ []) (ys ++ h ∷ []) (pre ++ l ∷ h ∷ []) us vs (c + 1)
        (omega (arith, length-append xs (l ∷ []))) (omega (arith, length-append ys (h ∷ [])))
        (omega (arith, length-append pre (l ∷ h ∷ []))) (omega arith) (omega arith) (omega arith) in
    rw
      (
        get_elem?-middle pre l (h ∷ rest) (2 * c) p,
        store-middle xs u us c l a,
        got,
        store-middle ys v vs c h b,
      )
      (rw
        (
          append_assoc xs (l ∷ []) us,
          append_assoc xs (l ∷ []) ls,
          append_assoc ys (h ∷ []) vs,
          append_assoc ys (h ∷ []) hs,
          regroup pre l h rest,
        )
        at later)

-- For arrays of one entry for each chunk, bounds_store stays inside its arrays, and bounds_load of
-- the file that it writes stays inside its own and gives the same windows.
pub bounds_load-store :
    (total_chunks : ℕ) (lo hi lo' hi' : List ℤ)
    → length lo ≡ total_chunks
    → length hi ≡ total_chunks
    → length lo' ≡ total_chunks
    → length hi' ≡ total_chunks
    → (bounds_store total_chunks lo hi >>= λ file. bounds_load total_chunks file lo' hi')
      ≡ some (loaded lo hi)
unfolding bounds_store bounds_load
bounds_load-store total_chunks lo hi lo' hi' a b a' b' =
    let zeros = replicate (total_chunks * 2) (pos 0) in
    let file = interleave lo hi in
    let size : length file ≡ total_chunks * 2 =
      length-interleave lo hi (omega arith) ∙ ap (λ n. n * 2) a in
    let room = length-replicate (total_chunks * 2) (pos 0) in
    let stored : fill_bounds total_chunks 0 lo hi zeros ≡ some file =
      rw a at (fill_lem lo hi [] [] [] zeros 0 refl refl refl (omega arith) (omega arith)) in
    let whole : ltb (length file / 2) total_chunks ≡ false = le→ltb _ _ (omega arith) in
    let buf : fread_at zeros 0 file ≡ file =
      sym (
        take-eq_of_le (length file) (fread_at zeros 0 file)
          (omega (arith, length-fread_at zeros 0 file)))
      ∙ take-fread_at zeros file (omega arith) in
    let back : take_bounds total_chunks 0 file lo' hi' ≡ some (lo, hi) = rw a at (
      take_lem lo hi [] [] [] lo' hi' 0 refl refl refl (omega arith) (omega arith) (omega arith)) in
    rw
      (
        stored,
        fread_lem zeros 0 (total_chunks * 2) file (omega arith),
        whole,
        take-eq_of_le (total_chunks * 2) file (omega arith),
        buf,
        back,
      )
      refl
