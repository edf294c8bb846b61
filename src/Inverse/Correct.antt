-- ===== src/Inverse/Correct.antt =====
-- What src/invert.c writes, for pairs with different ranks.
use suffix_rank.Base.{
  ℕ, ◌%◌, ◌<◌, ◌≤◌, ◌≡◌, ◌≢◌, refl, sym, ◌∙◌, List, [], ◌∷◌, some, arith, length, length-set,
  get_elem?, get_elem?-set_self, get_elem?-set_ne, get_elem?-take, set, store_of_lt, take,
  length-take, take-eq_of_le, All, Gives, gives, Gives-bind, Gives-map,
}
use suffix_rank.Format.{i40_load}
use suffix_rank.Inverse.{InverseRecord, invert_loop, invert}

-- The entry that a record is for.
abbrev pub slot : ℕ → InverseRecord → ℕ
slot size r = i40_load r.value % size

-- No two records are for the same entry.
abbrev pub AreDistinct : ℕ → List InverseRecord → Type 0
AreDistinct size [] = Unit {0}
AreDistinct size (r ∷ rs) = All (λ q. slot size r ≢ slot size q) rs × AreDistinct size rs

-- The entry of a record has its position.
abbrev pub IsInverted : ℕ → List ℕ → InverseRecord → Type 0
IsInverted size sa r = get_elem? sa (slot size r) ≡ some (i40_load r.index)

record Inverted (size : ℕ) (rs : List InverseRecord) (before sa : List ℕ) : Type 0 where
  same_length : length sa ≡ length before
  others : (i : ℕ) → All (λ r. i ≢ slot size r) rs → get_elem? sa i ≡ get_elem? before i
  placed : All (IsInverted size sa) rs

slot_lt : (size : ℕ) (r : InverseRecord) → 0 < size → slot size r < size
slot_lt size r h = grind arith

invert_loop_lem :
    (size : ℕ) (rs : List InverseRecord) (before : List ℕ)
    → 0 < size
    → length before ≡ size
    → AreDistinct size rs
    → Gives (Inverted size rs before) (invert_loop size rs before)
unfolding invert_loop
invert_loop_lem size [] before pos full d =
    gives (record { same_length = refl; others = λ i h. refl; placed = tt })
invert_loop_lem size (r ∷ rs) before pos full (apart, d) =
    let i = slot size r in
    let x = i40_load r.index in
    let inside : i < length before = omega (arith, slot_lt size r pos) in
    rw (store_of_lt before i x inside) (
      Gives-map (invert_loop_lem size rs (set before i x) pos (length-set before i x ∙ full) d)
        λ sa v. record {
          same_length = v.same_length ∙ length-set before i x;
          others = λ j h. v.others j h.1 ∙ get_elem?-set_ne before i j x (λ e. h.0 (sym e));
          placed = (v.others i apart ∙ get_elem?-set_self before i x inside, v.placed);
        })

placed-take :
    (size n : ℕ) (rs : List InverseRecord) (sa : List ℕ)
    → All (λ r. slot size r < n) rs
    → All (IsInverted size sa) rs
    → All (IsInverted size (take n sa)) rs
placed-take size n [] sa h k = tt
placed-take size n (r ∷ rs) sa (h, hs) (k, ks) =
    (get_elem?-take n sa (slot size r) h ∙ k, placed-take size n rs sa hs ks)

-- For at most size pairs whose ranks are for different entries, all of them among the first as
-- many entries as there are pairs, invert accesses nothing out of bounds and writes that many
-- entries, of which the entry rank % size of each pair is its position.
pub invert_lem :
    (size : ℕ) (rs : List InverseRecord) (before : List ℕ)
    → 0 < size
    → length before ≡ size
    → length rs ≤ size
    → AreDistinct size rs
    → All (λ r. slot size r < length rs) rs
    → Gives (λ sa. (length sa ≡ length rs) × All (IsInverted size sa) rs) (invert size rs before)
unfolding invert
invert_lem size rs before pos full short d inside = rw (take-eq_of_le size rs short) (
    Gives-bind (invert_loop_lem size rs before pos full d) λ sa v. gives (
      omega (arith, length-take (length rs) sa, v.same_length),
      placed-take size (length rs) rs sa inside v.placed,
    ))
