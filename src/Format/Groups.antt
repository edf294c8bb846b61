-- ===== src/Format/Groups.antt =====
-- The reference run-length encoding that the scans of refine.cpp and init.cpp are compared with:
-- maximal groups of equal neighbours.
use suffix_rank.Base.{
  ℕ, zero, suc, ◌<◌, ◌≤◌, ◌≡◌, refl, ap, ◌∙◌, ◌≢◌, ◌⊎◌, inl, inr, List, [], ◌∷◌, ◌++◌, arith,
  length, replicate, ◌==◌, if◌then◌else◌, Bool-cases, false,
}
use suffix_rank.Format.{count_escape}
use suffix_rank.Format.Runs.{Run, encode_run, expand, length-encode_run, length-encode_run_small}

-- Put one value in front of grouped values.
unfoldable pub group_one : ℕ → List Run → List Run
group_one x [] = record { rank = x; count = 1 } ∷ []
group_one x (r ∷ rs) =
    if x == r.rank
    then record { rank = x; count = suc r.count } ∷ rs
    else record { rank = x; count = 1 } ∷ r ∷ rs

unfoldable pub group : List ℕ → List Run
group [] = []
group (x ∷ xs) = group_one x (group xs)

-- Neighbouring runs differ in their rank.
abbrev IsMaximal : List Run → Type 0
IsMaximal [] = Unit {0}
IsMaximal (r ∷ []) = 0 < r.count
IsMaximal (r ∷ s ∷ rs) = (0 < r.count) × (r.rank ≢ s.rank) × IsMaximal (s ∷ rs)

expand-group_one : (x : ℕ) (rs : List Run) → expand (group_one x rs) ≡ x ∷ expand rs
unfolding expand group_one
expand-group_one x [] = refl
expand-group_one x (r ∷ rs) = elim (Bool-cases (x == r.rank)) [
  | inl same ↦ let e : x ≡ r.rank = ground arith in rw same (rw e refl)
  | inr new ↦ rw new refl
]

-- Grouping loses nothing.
expand-group : (xs : List ℕ) → expand (group xs) ≡ xs
unfolding group
expand-group [] = unfold expand in refl
expand-group (x ∷ xs) = expand-group_one x (group xs) ∙ ap (◌∷◌ x) (expand-group xs)

group_one-IsMaximal : (x : ℕ) (rs : List Run) → IsMaximal rs → IsMaximal (group_one x rs)
unfolding group_one
group_one-IsMaximal x [] h = omega arith
group_one-IsMaximal x (r ∷ []) h = ground arith
group_one-IsMaximal x (r ∷ s ∷ rs) h = ground arith

group-IsMaximal : (xs : List ℕ) → IsMaximal (group xs)
unfolding group
group-IsMaximal [] = tt
group-IsMaximal (x ∷ xs) = group_one-IsMaximal x (group xs) (group-IsMaximal xs)

group_one-fresh :
    (n x : ℕ) (rs : List Run)
    → (x == n) ≡ false
    → group_one n (group_one x rs) ≡ record { rank = n; count = 1 } ∷ group_one x rs
unfolding group_one
group_one-fresh n x [] h = ground arith
group_one-fresh n x (r ∷ rs) h = ground arith

group_one-same :
    (n c : ℕ) (rs : List Run)
    → group_one n (record { rank = n; count = c } ∷ rs) ≡ record { rank = n; count = suc c } ∷ rs
unfolding group_one
group_one-same n c rs = ground arith

-- A group that a different value ends.
pub group-step :
    (n c x : ℕ) (xs : List ℕ)
    → (x == n) ≡ false
    → group (replicate (suc c) n ++ x ∷ xs) ≡ record { rank = n; count = suc c } ∷ group (x ∷ xs)
unfolding group
group-step n zero x xs h = group_one-fresh n x (group xs) h
group-step n (suc c) x xs h = rw (group-step n c x xs h) (group_one-same n (suc c) (group (x ∷ xs)))

pub group-last : (n c : ℕ) → group (replicate (suc c) n) ≡ record { rank = n; count = suc c } ∷ []
unfolding group
group-last n zero = unfold group_one in refl
group-last n (suc c) = rw (group-last n c) (group_one-same n (suc c) [])

-- The records of any run of at most `m` entries fit a buffer of `capacity` records.
abbrev pub Fits : ℕ → ℕ → Type 0
Fits capacity m = (1 ≤ capacity) × ((2 ≤ capacity) ⊎ (m < count_escape))

pub Fits-of_le : {capacity m : ℕ} (n : ℕ) → Fits capacity m → n ≤ m → Fits capacity n
Fits-of_le n (one, inl two) h = (one, inl two)
Fits-of_le n (one, inr small) h = (one, inr (omega arith))

pub Fits-length :
    {capacity m : ℕ} (r : Run) → Fits capacity m → r.count ≤ m → length (encode_run r) ≤ capacity
Fits-length r (one, inl two) h = omega (arith, length-encode_run r)
Fits-length r (one, inr small) h = omega (arith, length-encode_run_small r)
