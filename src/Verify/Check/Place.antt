-- ===== src/Verify/Check/Place.antt =====
-- The arrays of verify_check of src/verify.c hold the cells of the records that were placed.
use suffix_rank.Base.{
  ℕ, zero, suc, ◌+◌, ◌/◌, ◌<◌, ◌≤◌, ◌≡◌, ◌≢◌, ◌⊎◌, eq→==, refl, ◌∙◌, true, false, List, [], ◌∷◌,
  Option, none, some, arith, length, get_elem?, get_or, set, inl, inr, length-set, get_or-set,
  get_elem?-eq-get_or, get_elem?-set_self, get_elem?-set_ne, store_of_lt, lt→ltb, le→ltb, ne→==,
  Option-cases,
}
use native.Mathlib.Decide.{dec_lt, ℕ_discrete}
use suffix_rank.Verify.Bits.{
  flag, IsBytes, after_set, bitset_get_lem, bitset_set_lem, after_set-IsBytes, flag-after_set,
}
use suffix_rank.Verify.Records.{success, failure, VerifyRecord}
use suffix_rank.Verify.Check.{Table, place_record, place_records}
use suffix_rank.Verify.Check.Cells.{Cells, is_free, place_cells, filled, length-filled-set}

-- The arrays have the sizes that were allocated.
pub record IsTable (size : ℕ) (t : Table) : Type 0 where
  pub positions_size : length t.positions ≡ size
  pub next_ranks_size : length t.next_ranks ≡ size
  pub first_keys_size : length t.first_keys ≡ size
  pub seen_size : length t.seen ≡ (size + 7) / 8
  pub seen_bytes : IsBytes t.seen

abbrev pub IsCell : Table → ℕ → Option VerifyRecord → Type 0
IsCell t i none = flag t.seen i ≡ 0
IsCell t i (some r) =
    (flag t.seen i ≡ 1)
    × (get_elem? t.positions i ≡ some r.position)
    × (get_elem? t.next_ranks i ≡ some r.next_rank)
    × (get_elem? t.first_keys i ≡ some r.first_key)

pub record Holds (size sa_count : ℕ) (t : Table) (cells : Cells) : Type 0 where
  pub table : IsTable size t
  pub number : length cells ≡ sa_count
  pub within : sa_count ≤ size
  pub count : t.placed ≡ length (filled cells)
  pub each : (i : ℕ) → i < sa_count → IsCell t i (get_or cells i none)

get_elem?_free :
    (cells : Cells) (i : ℕ)
    → i < length cells
    → is_free (get_elem? cells i) ≡ is_free (some (get_or cells i none))
get_elem?_free cells i h = rw (get_elem?-eq-get_or cells i none h) refl

not_free_outside : (cells : Cells) (i : ℕ) → length cells ≤ i → is_free (get_elem? cells i) ≡ false
not_free_outside [] i h = refl
not_free_outside (c ∷ cells) zero h = absurd (omega arith)
not_free_outside (c ∷ cells) (suc i) h = not_free_outside cells i (omega arith)

-- The table after a record.
abbrev after_place : VerifyRecord → Table → Table
after_place r t = record {
  positions = set t.positions r.slot r.position;
  next_ranks = set t.next_ranks r.slot r.next_rank;
  first_keys = set t.first_keys r.slot r.first_key;
  seen = after_set t.seen r.slot;
  placed = t.placed + 1;
}

module _ {size sa_count : ℕ} {t : Table} {cells : Cells} (holds : Holds size sa_count t cells) where
  place_outside : (r : VerifyRecord) → sa_count ≤ r.slot → place_record sa_count r t ≡ failure
  unfolding place_record
  place_outside r h = rw (le→ltb r.slot sa_count h) refl

  inside_seen : (i : ℕ) → i < sa_count → i / 8 < length t.seen
  inside_seen i h = omega (arith, holds.table.seen_size, holds.within)

  place_taken :
      (r x : VerifyRecord)
      → r.slot < sa_count
      → get_or cells r.slot none ≡ some x
      → place_record sa_count r t ≡ failure
  unfolding place_record
  place_taken r x h e =
      let cell = rw e at (holds.each r.slot h) in
      rw (lt→ltb r.slot sa_count h, bitset_get_lem t.seen r.slot (inside_seen r.slot h), cell.0)
        refl

  place_free :
      (r : VerifyRecord)
      → r.slot < sa_count
      → get_or cells r.slot none ≡ none
      → place_record sa_count r t ≡ success (after_place r t)
  unfolding place_record
  place_free r h e =
      let cell = rw e at (holds.each r.slot h) in
      let room = inside_seen r.slot h in
      let table = holds.table in
      let in_array : r.slot < size = omega (arith, holds.within) in
      rw
        (
          lt→ltb r.slot sa_count h,
          bitset_get_lem t.seen r.slot room,
          cell,
          store_of_lt t.positions r.slot r.position (omega (arith, table.positions_size)),
          store_of_lt t.next_ranks r.slot r.next_rank (omega (arith, table.next_ranks_size)),
          store_of_lt t.first_keys r.slot r.first_key (omega (arith, table.first_keys_size)),
          bitset_set_lem t.seen r.slot room,
        )
        refl

  other-IsCell :
      (r : VerifyRecord) (i : ℕ) (c : Option VerifyRecord)
      → r.slot < sa_count
      → r.slot ≢ i
      → IsCell t i c
      → IsCell (after_place r t) i c
  other-IsCell r i none h apart cell =
      flag-after_set t.seen r.slot i (inside_seen r.slot h) holds.table.seen_bytes
      ∙ rw (ne→== r.slot i apart) cell
  other-IsCell r i (some x) h apart cell = (
    flag-after_set t.seen r.slot i (inside_seen r.slot h) holds.table.seen_bytes
        ∙ rw (ne→== r.slot i apart) cell.0,
    get_elem?-set_ne t.positions r.slot i r.position apart ∙ cell.1,
    get_elem?-set_ne t.next_ranks r.slot i r.next_rank apart ∙ cell.2,
    get_elem?-set_ne t.first_keys r.slot i r.first_key apart ∙ cell.3,
  )

  own-IsCell : (r : VerifyRecord) → r.slot < sa_count → IsCell (after_place r t) r.slot (some r)
  own-IsCell r h =
      let table = holds.table in
      let in_array : r.slot < size = omega (arith, holds.within) in
      (
        flag-after_set t.seen r.slot r.slot (inside_seen r.slot h) table.seen_bytes
            ∙ rw (eq→== r.slot r.slot refl) refl,
        get_elem?-set_self t.positions r.slot r.position (omega (arith, table.positions_size)),
        get_elem?-set_self t.next_ranks r.slot r.next_rank (omega (arith, table.next_ranks_size)),
        get_elem?-set_self t.first_keys r.slot r.first_key (omega (arith, table.first_keys_size)),
      )

  after_place-Holds :
      (r : VerifyRecord)
      → r.slot < sa_count
      → is_free (get_elem? cells r.slot) ≡ true
      → Holds size sa_count (after_place r t) (set cells r.slot (some r))
  after_place-Holds r h free =
      let table = holds.table in
      let in_cells : r.slot < length cells = omega (arith, holds.number) in
      record {
        table = record {
          positions_size = length-set t.positions r.slot r.position ∙ table.positions_size;
          next_ranks_size = length-set t.next_ranks r.slot r.next_rank ∙ table.next_ranks_size;
          first_keys_size = length-set t.first_keys r.slot r.first_key ∙ table.first_keys_size;
          seen_size = length-set t.seen (r.slot / 8) _ ∙ table.seen_size;
          seen_bytes = after_set-IsBytes t.seen r.slot table.seen_bytes;
        };
        number = length-set cells r.slot (some r) ∙ holds.number;
        within = holds.within;
        count = omega (arith, holds.count, length-filled-set cells r.slot r free);
        each = λ i hi.
            rw (get_or-set cells r.slot i (some r) none in_cells) (elim (ℕ_discrete r.slot i) [
              | yes same ↦ rw (eq→== r.slot i same) (rw (← same) (own-IsCell r h))
              | no apart ↦ rw (ne→== r.slot i apart) (other-IsCell r i _ h apart (holds.each i hi))
            ]);
      }

-- The loop places the records, or fails where the cells cannot take them.
pub place_records_lem :
    {size sa_count : ℕ} (rs : List VerifyRecord) {t : Table} {cells : Cells}
    → Holds size sa_count t cells
    → ((place_cells cells rs ≡ none) × (place_records sa_count rs t ≡ failure))
      ⊎ ((cells' : Cells) × (t' : Table) × (place_cells cells rs ≡ some cells')
          × (place_records sa_count rs t ≡ success t')
          × Holds size sa_count t' cells')
unfolding place_cells place_records
place_records_lem [] {t} {cells} holds = inr (cells, t, refl, refl, holds)
place_records_lem {sa_count} (r ∷ rs) {t} {cells} holds = elim (dec_lt r.slot sa_count) [
  | no outside ↦
      let far : is_free (get_elem? cells r.slot) ≡ false =
        not_free_outside cells r.slot (omega (arith, holds.number)) in
      inl (rw far refl, rw (place_outside holds r (omega arith)) refl)
  | yes inside ↦
      let in_cells : r.slot < length cells = omega (arith, holds.number) in
      elim (Option-cases (get_or cells r.slot none)) [
        | inr (x, e) ↦
            let taken : is_free (get_elem? cells r.slot) ≡ false =
              get_elem?_free cells r.slot in_cells ∙ rw e refl in
            inl (rw taken refl, rw (place_taken holds r x inside e) refl)
        | inl e ↦
            let free : is_free (get_elem? cells r.slot) ≡ true =
              get_elem?_free cells r.slot in_cells ∙ rw e refl in
            rw (free, place_free holds r inside e)
              (place_records_lem rs (after_place-Holds holds r inside free))
      ]
]
