-- ===== src/Pairs/Counts.antt =====
-- The counts of src/create_pairs.c, and the empty buckets that they cut the buffer into.
use suffix_rank.Base.{
  ℕ, zero, suc, ◌+◌, ◌/◌, ◌<◌, ◌≤◌, ◌≡◌, refl, ap, ◌∙◌, inl, inr, List, [], ◌∷◌, ◌++◌, arith,
  length, length-set, length-take, length-drop, take-append-drop, get_elem?-eq-get_or, get_or,
  get_or-set, set, store_of_lt, take, drop, All, ◌==◌, if◌then◌else◌, Bool-cases, Gives, gives,
  Gives-map,
}
use suffix_rank.Format.{Int40, i40_load}
use suffix_rank.Inverse.{InverseRecord}
use suffix_rank.Pairs.{count_buckets, bucket_starts}
use suffix_rank.Pairs.Cells.{Cell, row, nexts_of, room}

-- The number of ranks in bucket `b`.
unfoldable pub members : ℕ → ℕ → List Int40 → ℕ
members size b [] = 0
members size b (r ∷ rs) = (if i40_load r / size == b then 1 else 0) + members size b rs

abbrev pub sum : List ℕ → ℕ
sum [] = 0
sum (c ∷ cs) = c + sum cs

sum-set : (cs : List ℕ) (b : ℕ) → b < length cs → sum (set cs b (get_or cs b 0 + 1)) ≡ sum cs + 1
sum-set [] b h = absurd (omega arith)
sum-set (c ∷ cs) zero h = omega arith
sum-set (c ∷ cs) (suc b) h = omega (arith, sum-set cs b)

pub record Counted (size : ℕ) (rs : List Int40) (starts counts : List ℕ) : Type 0 where
  pub same_length : length counts ≡ length starts
  pub each : (b : ℕ) → get_or counts b 0 ≡ get_or starts b 0 + members size b rs
  pub total : sum counts ≡ sum starts + length rs

pub count_buckets_lem :
    (size : ℕ) (rs : List Int40) (starts : List ℕ)
    → All (λ r. i40_load r / size < length starts) rs
    → Gives (Counted size rs starts) (count_buckets size rs starts)
unfolding count_buckets members
count_buckets_lem size [] starts h =
    gives (record { same_length = refl; each = λ b. omega arith; total = omega arith })
count_buckets_lem size (r ∷ rs) starts (h, hs) =
    let k = i40_load r / size in
    let c = get_or starts k 0 in
    let size' = length-set starts k (c + 1) in
    rw (get_elem?-eq-get_or starts k 0 h, store_of_lt starts k (c + 1) h)
      (Gives-map (count_buckets_lem size rs (set starts k (c + 1)) (rw size' hs)) λ counts v.
        record {
          same_length = v.same_length ∙ size';
          each = λ b.
              v.each b
              ∙ (rw (get_or-set starts k b (c + 1) 0 h) (elim (Bool-cases (k == b)) [
                | inl own ↦
                    let e : k ≡ b = ground arith in
                    rw own (omega (arith, ap (λ x. get_or starts x 0) e))
                | inr other ↦ rw other (omega arith)
              ]));
          total = omega (arith, v.total, sum-set starts k h);
        })

-- Empty buckets of the counted sizes.
abbrev pub cut : List ℕ → List InverseRecord → List Cell
cut [] buffer = []
cut (c ∷ cs) buffer = ([], take c buffer) ∷ cut cs (drop c buffer)

abbrev pub behind : List ℕ → List InverseRecord → List InverseRecord
behind [] buffer = buffer
behind (c ∷ cs) buffer = behind cs (drop c buffer)

pub row-cut :
    (cs : List ℕ) (buffer : List InverseRecord) → row (cut cs buffer) (behind cs buffer) ≡ buffer
row-cut [] buffer = refl
row-cut (c ∷ cs) buffer =
    ap (λ t. take c buffer ++ t) (row-cut cs (drop c buffer)) ∙ take-append-drop c buffer

pub nexts_of-cut :
    (off : ℕ) (cs : List ℕ) (buffer : List InverseRecord)
    → sum cs ≤ length buffer
    → nexts_of off (cut cs buffer) ≡ bucket_starts off cs
nexts_of-cut off [] buffer h = refl
nexts_of-cut off (c ∷ cs) buffer h =
    let e : off + (0 + length (take c buffer)) ≡ off + c = omega (arith, length-take c buffer) in
    let e' : off + 0 ≡ off = omega arith in
    rw (e, e')
      (ap (◌∷◌ off)
        (nexts_of-cut (off + c) cs (drop c buffer) (omega (arith, length-drop c buffer))))

pub room-cut :
    (cs : List ℕ) (buffer : List InverseRecord) (b : ℕ)
    → sum cs ≤ length buffer
    → room (cut cs buffer) b ≡ get_or cs b 0
room-cut [] buffer b h = refl
room-cut (c ∷ cs) buffer zero h = omega (arith, length-take c buffer)
room-cut (c ∷ cs) buffer (suc b) h =
    room-cut cs (drop c buffer) b (omega (arith, length-drop c buffer))

pub length-cut : (cs : List ℕ) (buffer : List InverseRecord) → length (cut cs buffer) ≡ length cs
length-cut [] buffer = refl
length-cut (c ∷ cs) buffer = ap suc (length-cut cs (drop c buffer))

pub none_done :
    (cs : List ℕ) (buffer : List InverseRecord) (b : ℕ) → (get_or (cut cs buffer) b ([], [])).0 ≡ []
none_done [] buffer b = refl
none_done (c ∷ cs) buffer zero = refl
none_done (c ∷ cs) buffer (suc b) = none_done cs (drop c buffer) b
