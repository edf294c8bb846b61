-- ===== src/Kmer/Select.antt =====
-- The choice of k in src/init.cpp.
use suffix_rank.Base.{
  ℕ, zero, suc, ◌+◌, ◌*◌, ◌/◌, ◌^◌, ◌<◌, ◌≤◌, ◌≡◌, ◌⊎◌, refl, sym, ◌∙◌, true, false, none, some,
  arith, leb, inl, inr, le→leb, lt→leb,
}
use native.Mathlib.Nat.{lt_of_not-le, le-div_iff_mul-le, pow-suc, pow-zero}
use native.Mathlib.Numerals.{add-one}
use native.Mathlib.Decide.{dec_le}
use suffix_rank.Kmer.Alphabet.{select_k}

grow : (base hist : ℕ) → 2 ≤ base → 0 < hist → hist + 1 ≤ hist * base
grow base hist two pos = grind arith

select_from :
    (fuel base budget k hist : ℕ)
    → 2 ≤ base
    → 0 < hist
    → hist ≡ base ^ k
    → budget < hist + fuel
    → 0 < fuel
    → (k' : ℕ) × (select_k fuel base budget k hist ≡ some (k', base ^ k'))
      × (k ≤ k')
      × (budget < base ^ k' * base)
      × ((k' ≡ k) ⊎ (base ^ k' ≤ budget))
unfolding select_k
select_from zero base budget k hist two pos power f f0 = absurd (omega arith)
select_from (suc fuel) base budget k hist two pos power f f0 =
    let b0 : 0 < base = omega arith in
    elim (dec_le (hist * base) budget) [
      | yes fits ↦
          let go : leb hist (budget / base) ≡ true =
            le→leb hist (budget / base) ((le-div_iff_mul-le b0).1 fits) in
          let more = grow base hist two pos in
          let power' : hist * base ≡ base ^ (k + 1) = rw (add-one k, pow-suc base k, power) refl in
          let (k', runs, le, large, small) =
            select_from fuel base budget (k + 1) (hist * base) two (omega arith) power'
              (omega arith) (omega arith) in
          (
            k',
            rw go runs,
            omega arith,
            large,
            elim small [ inl e ↦ inr (rw (e, ← power') fits) | inr le' ↦ inr le' ],
          )
      | no over ↦
          let stop : leb hist (budget / base) ≡ false =
            lt→leb hist (budget / base) (lt_of_not-le (λ l. over ((le-div_iff_mul-le b0).0 l))) in
          (k, rw (stop, power) refl, omega arith, rw (← power) (omega arith), inl refl)
    ]

-- With a base of at least 2 and fuel that exceeds the budget minus the base, the search for k ends
-- with a positive k and base ^ k, where base ^ (k + 1) is above the budget and base ^ k is not,
-- unless k is 1.
pub select_k_lem :
    (fuel base budget : ℕ)
    → 2 ≤ base
    → budget < base + fuel
    → 0 < fuel
    → (k : ℕ) × (select_k fuel base budget 1 base ≡ some (k, base ^ k))
      × (0 < k)
      × (budget < base ^ (k + 1))
      × ((k ≡ 1) ⊎ (base ^ k ≤ budget))
select_k_lem fuel base budget two f f0 =
    let one : base ≡ base ^ 1 =
      sym (pow-suc base 0 ∙ rw (pow-zero base) (let e : 1 * base ≡ base = omega arith in e)) in
    let (k, runs, le, large, small) =
      select_from fuel base budget 1 base two (omega arith) one f f0 in
    (k, runs, omega arith, rw (add-one k, pow-suc base k) large, small)

-- C
pub select_k-ne-some : (budget : ℕ) → 0 < budget → (fuel k : ℕ) → select_k fuel 1 budget k 1 ≡ none
unfolding select_k
select_k-ne-some budget pos zero k = refl
select_k-ne-some budget pos (suc fuel) k =
    let go : leb 1 (budget / 1) ≡ true = le→leb 1 (budget / 1) (omega arith) in
    rw (go) (select_k-ne-some budget pos fuel (k + 1))
