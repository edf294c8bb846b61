-- ===== src/Verify/Bits.antt =====
-- bitset_get and bitset_set of src/verify.c, on an array of bytes.
use Prim.Native.Nat.{bit_or}
use suffix_rank.Base.{
  ℕ, zero, suc, ◌/◌, ◌%◌, ◌^◌, ◌<◌, ◌≡◌, refl, Bool, true, false, ◌&&◌, List, [], ◌∷◌, Option, some,
  arith, length, get_elem?, get_or, set, store, store_of_lt, length-set, get_or-set,
  get_elem?-eq-get_or, ◌==◌, ltb, ==→eq, ltb→lt, ◌∙◌, if◌then◌else◌, All, Bool-cases, inl, inr,
  ◌>>=◌,
}

-- `(bits[i >> 3] >> (i & 7)) & 1U`
unfoldable pub bitset_get : List ℕ → ℕ → Option ℕ
bitset_get bits i = do b ← get_elem? bits (i / 8); some (b / 2 ^ (i % 8) % 2)

-- `bits[i >> 3] |= (uint8_t) (1U << (i & 7))`
unfoldable pub bitset_set : List ℕ → ℕ → Option (List ℕ)
bitset_set bits i = do b ← get_elem? bits (i / 8); store bits (i / 8) (bit_or b (2 ^ (i % 8)))

-- A test at every number below a bound.
holds_below : ℕ → (ℕ → Bool) → Bool
holds_below zero test = true
holds_below (suc n) test = holds_below n test && test n

holds_below_sound :
    (n : ℕ) (test : ℕ → Bool) (x : ℕ) → holds_below n test ≡ true → x < n → test x ≡ true
unfolding holds_below
holds_below_sound zero test x h lt = absurd (omega arith)
holds_below_sound (suc n) test x h lt = ground (arith, holds_below_sound n test x)

abbrev bit : ℕ → ℕ → ℕ
bit b i = b / 2 ^ i % 2

abbrev sets_bit : ℕ → ℕ → ℕ → Bool
sets_bit b i j = bit (bit_or b (2 ^ i)) j == (if i == j then 1 else bit b j)

abbrev stays_byte : ℕ → ℕ → Bool
stays_byte b i = ltb (bit_or b (2 ^ i)) 256

table_set : holds_below 256 (λ b. holds_below 8 (λ i. holds_below 8 (sets_bit b i))) ≡ true
unfolding holds_below
table_set = refl

table_byte : holds_below 256 (λ b. holds_below 8 (stays_byte b)) ≡ true
unfolding holds_below
table_byte = refl

bit-bit_or :
    (b i j : ℕ)
    → b < 256
    → i < 8
    → j < 8
    → bit (bit_or b (2 ^ i)) j ≡ (if i == j then 1 else bit b j)
bit-bit_or b i j hb hi hj =
    let at_b = holds_below_sound 256 _ b table_set hb in
    let at_i = holds_below_sound 8 _ i at_b hi in
    ==→eq _ _ (holds_below_sound 8 (sets_bit b i) j at_i hj)

bit_or-lt : (b i : ℕ) → b < 256 → i < 8 → bit_or b (2 ^ i) < 256
bit_or-lt b i hb hi =
    ltb→lt _ _ (holds_below_sound 8 (stays_byte b) i (holds_below_sound 256 _ b table_byte hb) hi)

-- The bit of an index.
abbrev pub flag : List ℕ → ℕ → ℕ
flag bits i = bit (get_or bits (i / 8) 0) (i % 8)

abbrev pub IsBytes : List ℕ → Type 0
IsBytes bits = All (λ b. b < 256) bits

get_or-IsBytes : (bits : List ℕ) (k : ℕ) → IsBytes bits → get_or bits k 0 < 256
get_or-IsBytes [] k h = omega arith
get_or-IsBytes (b ∷ bits) zero h = h.0
get_or-IsBytes (b ∷ bits) (suc k) h = get_or-IsBytes bits k h.1

set-IsBytes : (bits : List ℕ) (k v : ℕ) → v < 256 → IsBytes bits → IsBytes (set bits k v)
set-IsBytes [] k v hv h = tt
set-IsBytes (b ∷ bits) zero v hv h = (hv, h.1)
set-IsBytes (b ∷ bits) (suc k) v hv h = (h.0, set-IsBytes bits k v hv h.1)

pub bitset_get_lem :
    (bits : List ℕ) (i : ℕ) → i / 8 < length bits → bitset_get bits i ≡ some (flag bits i)
unfolding bitset_get
bitset_get_lem bits i h = rw (get_elem?-eq-get_or bits (i / 8) 0 h) refl

abbrev pub after_set : List ℕ → ℕ → List ℕ
after_set bits i = set bits (i / 8) (bit_or (get_or bits (i / 8) 0) (2 ^ (i % 8)))

pub bitset_set_lem :
    (bits : List ℕ) (i : ℕ) → i / 8 < length bits → bitset_set bits i ≡ some (after_set bits i)
unfolding bitset_set
bitset_set_lem bits i h = rw (get_elem?-eq-get_or bits (i / 8) 0 h) (store_of_lt bits (i / 8) _ h)

pub after_set-IsBytes : (bits : List ℕ) (i : ℕ) → IsBytes bits → IsBytes (after_set bits i)
after_set-IsBytes bits i h =
    set-IsBytes bits (i / 8) _ (bit_or-lt _ (i % 8) (get_or-IsBytes bits (i / 8) h) (omega arith)) h

flag_of_byte :
    (b i j : ℕ)
    → b < 256
    → i / 8 ≡ j / 8
    → bit (bit_or b (2 ^ (i % 8))) (j % 8) ≡ (if i == j then 1 else bit b (j % 8))
flag_of_byte b i j hb e =
    bit-bit_or b (i % 8) (j % 8) hb (omega arith) (omega arith) ∙ (elim (Bool-cases (i == j)) [
      | inl same ↦ let s : (i % 8 == j % 8) ≡ true = ground arith in rw (same, s) refl
      | inr other ↦ let s : (i % 8 == j % 8) ≡ false = ground arith in rw (other, s) refl
    ])

pub flag-after_set :
    (bits : List ℕ) (i j : ℕ)
    → i / 8 < length bits
    → IsBytes bits
    → flag (after_set bits i) j ≡ (if i == j then 1 else flag bits j)
flag-after_set bits i j h ok =
    rw (get_or-set bits (i / 8) (j / 8) (bit_or (get_or bits (i / 8) 0) (2 ^ (i % 8))) 0 h)
      (elim (Bool-cases (i / 8 == j / 8)) [
        | inl same ↦
            let e : i / 8 ≡ j / 8 = ==→eq _ _ same in
            rw (same, ← e)
              (rw (flag_of_byte (get_or bits (i / 8) 0) i j (get_or-IsBytes bits (i / 8) ok) e)
                refl)
        | inr other ↦ let s : (i == j) ≡ false = ground arith in rw (other, s) refl
      ])

-- On an array of bytes that has the bytes of both indices, bitset_get after bitset_set gives 1 at
-- the index that was set, and at any other index what it gave before.
pub bitset_get-set :
    (bits : List ℕ) (i j : ℕ)
    → i / 8 < length bits
    → j / 8 < length bits
    → IsBytes bits
    → (bitset_set bits i >>= λ bits'. bitset_get bits' j)
      ≡ (if i == j then some 1 else bitset_get bits j)
bitset_get-set bits i j hi hj ok =
    let hj' : j / 8 < length (after_set bits i) = rw length-set hj in
    rw (bitset_set_lem bits i hi) (
      bitset_get_lem (after_set bits i) j hj'
      ∙ (rw (flag-after_set bits i j hi ok, bitset_get_lem bits j hj)
          (elim (Bool-cases (i == j)) [ inl e ↦ rw e refl | inr e ↦ rw e refl ])))
