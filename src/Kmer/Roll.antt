-- ===== src/Kmer/Roll.antt =====
-- The key of the window of src/init.cpp is the number that its codes are the digits of.
use suffix_rank.Base.{
  get_elem?-middle, store-middle, ℕ, suc, ◌+◌, ◌-◌, ◌*◌, ◌%◌, ◌^◌, ◌<◌, ◌≤◌, ◌≡◌, refl, ap, sym,
  ◌∙◌, List, [], ◌∷◌, ◌++◌, some, arith, length, false, ltb, le→ltb, length-append, append-nil,
  append_assoc, All,
}
use native.Mathlib.Nat.{
  mod-lt, mod-add-mod, mod-eq_of_lt, pow-zero, pow-suc, pow-succ', mul-le-mul_right, mod_self,
}
use suffix_rank.Base.Int.{sub_ℕ}
use suffix_rank.Kmer.Window.{KWin, kwin_feed}

-- The number with these digits, the most significant first.
abbrev pub number : ℕ → List ℕ → ℕ
number base [] = 0
number base (c ∷ cs) = c * base ^ length cs + number base cs

pub number-snoc :
    (base : ℕ) (cs : List ℕ) (e : ℕ) → number base (cs ++ e ∷ []) ≡ number base cs * base + e
number-snoc base [] e = let one : base ^ 0 ≡ 1 = pow-zero base in rw one (omega arith)
number-snoc base (c ∷ cs) e =
    let longer : length (cs ++ e ∷ []) ≡ suc (length cs) =
      omega (arith, length-append cs (e ∷ [])) in
    let ih = number-snoc base cs e in rw (longer, pow-suc base (length cs), ih) (grind arith)

-- Digits below the base make a number below its power.
pub number-lt :
    (base : ℕ) (cs : List ℕ) → All (λ c. c < base) cs → number base cs < base ^ length cs
number-lt base [] h = rw (pow-zero base) (omega arith)
number-lt base (c ∷ cs) h =
    let ih = number-lt base cs h.1 in
    let scaled : (c + 1) * base ^ length cs ≤ base * base ^ length cs =
      mul-le-mul_right (base ^ length cs) (let l : c + 1 ≤ base = omega (arith, h.0) in l) in
    rw (pow-succ' base (length cs)) (grind arith)

-- The ring holds the last k codes, the oldest one at index p % k.
pub record IsWindow (w : KWin) (last : List ℕ) : Type 0 where
  pub newer : List ℕ
  pub older : List ℕ
  pub ring_parts : w.ring ≡ newer ++ older
  pub last_parts : last ≡ older ++ newer
  pub turn : length newer ≡ w.p % w.k
  pub number_of : length last ≡ w.k
  pub some_codes : 0 < w.k
  pub key_of : w.key ≡ number w.base last
  pub top_of : w.topw ≡ w.base ^ (w.k - 1)

-- The next index of the ring.
next_turn_inside : (p k : ℕ) → 0 < k → p % k + 1 < k → (p + 1) % k ≡ p % k + 1
next_turn_inside p k h lt = sym (mod-add-mod p k 1) ∙ mod-eq_of_lt lt

next_turn_around : (p k : ℕ) → 0 < k → p % k + 1 ≡ k → (p + 1) % k ≡ 0
next_turn_around p k h e = sym (mod-add-mod p k 1) ∙ (rw e (mod_self k))

-- The state and the result after a code.
abbrev pub fed : KWin → List ℕ → ℕ → List ℕ → KWin
fed w ring e later = record w { ring = ring; key = number w.base (later ++ e ∷ []); p = w.p + 1 }

abbrev pub Fed : KWin → ℕ → List ℕ → Type 0
Fed w e later =
    (ring : List ℕ) × (kwin_feed w e
      ≡ some (fed w ring e later, sub_ℕ w.p (w.k - 1), number w.base (later ++ e ∷ [])))
    × IsWindow (fed w ring e later) (later ++ e ∷ [])

-- The state after a code is a window: the ring goes on, or starts anew.
ring_of_fed :
    (w : KWin) (newer older : List ℕ) (e key p : ℕ)
    → length newer ≡ w.p % w.k
    → length older + length newer + 1 ≡ w.k
    → 0 < w.k
    → (newer' : List ℕ) × (older' : List ℕ) × (newer ++ e ∷ older ≡ newer' ++ older')
      × (older ++ newer ++ e ∷ [] ≡ older' ++ newer')
      × (length newer' ≡ (w.p + 1) % w.k)
ring_of_fed w newer [] e key p turn n h = (
  [],
  newer ++ e ∷ [],
  refl,
  sym (append-nil (newer ++ e ∷ [])),
  sym (next_turn_around w.p w.k h (omega arith)),
)
ring_of_fed w newer (o ∷ older) e key p turn n h = (
  newer ++ e ∷ [],
  o ∷ older,
  sym (append_assoc newer (e ∷ []) (o ∷ older)),
  append_assoc (o ∷ older) newer (e ∷ []),
  omega (arith, length-append newer (e ∷ []), next_turn_inside w.p w.k h (omega arith)),
)

Fed-of_parts :
    (w : KWin) (newer : List ℕ) (c : ℕ) (older : List ℕ) (e : ℕ)
    → w.ring ≡ newer ++ c ∷ older
    → length newer ≡ w.p % w.k
    → length older + length newer + 1 ≡ w.k
    → 0 < w.k
    → w.key ≡ number w.base (c ∷ older ++ newer)
    → w.topw ≡ w.base ^ (w.k - 1)
    → Fed w e (older ++ newer)
unfolding kwin_feed
Fed-of_parts w newer c older e ring_parts turn n h key_of top_of =
    let later = older ++ newer in
    let ring = newer ++ e ∷ older in
    let long = length-append older newer in
    let top : w.topw ≡ w.base ^ length later =
      let l : w.k - 1 ≡ length later = omega arith in top_of ∙ ap (λ t. w.base ^ t) l in
    let key : w.key ≡ c * w.topw + number w.base later = rw top key_of in
    let no_fault : ltb w.key (c * w.topw) ≡ false = le→ltb w.key (c * w.topw) (omega arith) in
    let rest : w.key - c * w.topw ≡ number w.base later = omega arith in
    let (newer', older', parts, lasts, turn') = ring_of_fed w newer older e 0 0 turn n h in
    (
      ring,
      rw
          (
            ring_parts,
            get_elem?-middle newer c older (w.p % w.k) turn,
            store-middle newer c older (w.p % w.k) e turn,
            no_fault,
            rest,
            number-snoc w.base later e,
          )
          refl,
      record {
        newer = newer';
        older = older';
        ring_parts = parts;
        last_parts = lasts;
        turn = turn';
        number_of = omega (arith, length-append later (e ∷ []));
        some_codes = h;
        key_of = refl;
        top_of = top_of;
      },
    )

-- On a window whose ring holds its last k codes with the oldest one at index p % k and whose key
-- is the number of these codes in its base, kwin_feed stays inside the ring, subtracts nothing too
-- large, leaves such a window over the codes without the oldest one and with the new one, and
-- gives its key and the position p - (k - 1).
pub kwin_feed_step :
    (w : KWin) (c : ℕ) (later : List ℕ) (e : ℕ) → IsWindow w (c ∷ later) → Fed w e later
kwin_feed_step w c later e win = by_older win.older refl
  where
    by_older : (older : List ℕ) → win.older ≡ older → Fed w e later
    by_older [] e0 =
        let l = rw e0 at win.last_parts in
        let n = ap length l in
        absurd (omega (arith, win.turn, win.number_of, mod-lt w.p win.some_codes))
    by_older (o ∷ older) e0 =
        let l : c ∷ later ≡ o ∷ (older ++ win.newer) = rw e0 at win.last_parts in
        let head : c ≡ o = cc in
        let tail : later ≡ older ++ win.newer = cc in
        rw tail (
          Fed-of_parts w win.newer o older e (rw e0 at win.ring_parts) win.turn
            (omega (arith, win.number_of, ap length tail, length-append older win.newer))
            win.some_codes (win.key_of ∙ ap (number w.base) l) win.top_of)
