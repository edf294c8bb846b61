-- ===== src/Files/Window.antt =====
-- A window [lo, lo + n) of a file that is read into a buffer at lo, changed there, and written back
-- with fseek to lo.
use suffix_rank.Base.{
  ℕ, zero, suc, ◌+◌, ◌<◌, ◌≤◌, ◌≡◌, refl, ap, List, [], ◌∷◌, arith, length, set, take, drop,
}
use suffix_rank.Files.{fread_at, fread_at-suc}

module _ {ℓ} {A : Type ℓ} where
  fread_at-cons :
      (y r : A) (file records : List A)
      → fread_at (y ∷ file) 0 (r ∷ records) ≡ r ∷ fread_at file 0 records
  unfolding fread_at
  fread_at-cons y r file records = fread_at-suc r file 0 records

  -- A change of the buffer inside the window is a change of the file.
  pub window-set :
      (lo n : ℕ) (file buffer : List A) (p : ℕ) (x : A)
      → lo ≤ p
      → p < lo + n
      → lo + n ≤ length buffer
      → lo + n ≤ length file
      → fread_at file lo (take n (drop lo (set buffer p x)))
        ≡ set (fread_at file lo (take n (drop lo buffer))) p x
  window-set lo n [] buffer p x h k b f = absurd (omega arith)
  window-set lo n (y ∷ file) [] p x h k b f = absurd (omega arith)
  window-set (suc lo) n (y ∷ file) (z ∷ buffer) zero x h k b f = absurd (omega arith)
  window-set (suc lo) n (y ∷ file) (z ∷ buffer) (suc p) x h k b f =
      rw
        (
          fread_at-suc y file lo (take n (drop lo (set buffer p x))),
          fread_at-suc y file lo (take n (drop lo buffer)),
        )
        (ap (◌∷◌ y)
          (window-set lo n file buffer p x (omega arith) (omega arith) (omega arith) (omega arith)))
  window-set zero zero (y ∷ file) (z ∷ buffer) p x h k b f = absurd (omega arith)
  window-set zero (suc n) (y ∷ file) (z ∷ buffer) zero x h k b f =
      rw (fread_at-cons y x file (take n buffer), fread_at-cons y z file (take n buffer)) refl
  window-set zero (suc n) (y ∷ file) (z ∷ buffer) (suc p) x h k b f =
      rw (fread_at-cons y z file (take n (set buffer p x)), fread_at-cons y z file (take n buffer))
        (ap (◌∷◌ z) (
          window-set zero n file buffer p x (omega arith) (omega arith) (omega arith)
            (omega arith)))

  -- An unchanged window writes back what the file held.
  pub window-same :
      (lo n : ℕ) (file buffer : List A)
      → lo + n ≤ length buffer
      → lo + n ≤ length file
      → fread_at file lo (take n (drop lo (fread_at buffer lo (take n (drop lo file))))) ≡ file
  window-same lo zero file buffer b f = unfold fread_at in refl
  window-same lo (suc n) [] buffer b f = absurd (omega arith)
  window-same lo (suc n) (y ∷ file) [] b f = absurd (omega arith)
  window-same (suc lo) (suc n) (y ∷ file) (z ∷ buffer) b f =
      rw (fread_at-suc z buffer lo (take (suc n) (drop lo file))) (
        rw
          (fread_at-suc y file lo
            (take (suc n) (drop lo (fread_at buffer lo (take (suc n) (drop lo file))))))
          (ap (◌∷◌ y) (window-same lo (suc n) file buffer (omega arith) (omega arith))))
  window-same zero (suc n) (y ∷ file) (z ∷ buffer) b f =
      rw (fread_at-cons z y buffer (take n file)) (
        rw (fread_at-cons y y file (take n (fread_at buffer 0 (take n file))))
          (ap (◌∷◌ y) (window-same zero n file buffer (omega arith) (omega arith))))
