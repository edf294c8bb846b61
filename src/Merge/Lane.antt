-- ===== src/Merge/Lane.antt =====
-- src/merge.c, one chunk: its two buffered input streams, the output records that overlay the nexts
-- buffer, and the joint walk that yields the chunk's triplets.
pub mod Invariant
pub mod Reading
pub mod Nexts
pub mod Currents
pub mod Overlay
pub mod Decode
pub mod Load
pub mod Walk
use suffix_rank.Base.{
  ℕ, zero, suc, ◌+◌, ◌-◌, ◌<◌, ◌≤◌, ◌≡◌, Bool, true, false, List, [], ◌∷◌, ◌++◌, Option, none, some,
  length, get_elem?, store, take, drop, ltb, ◌==◌, if◌then◌else◌, ◌>>=◌,
}
use suffix_rank.Files.{fread_at}
use suffix_rank.Format.{RankRun, i40_load, i40_store, count_escape}
use suffix_rank.Merge.{HeapElement, Outcome, success, empty, failure}

-- `STREAM_NEXTS` and `STREAM_CURRENTS`
pub data Stream : Type 0 where
  nexts currents : Stream

-- One input stream: the part of the file that is not read yet, the buffer, the read cursor (`none`
-- once drained), the records in the buffer, and the running read count (`none` after the end of
-- the file).
pub record Reader : Type 0 where
  pub file : List RankRun
  pub buffer : List RankRun
  pub pos : Option ℕ
  pub len : ℕ
  pub filepos : Option ℕ

-- `TripletCursor`
pub record TripletCursor : Type 0 where
  pub cur_rank : ℕ
  pub cur_rem : ℕ
  pub next_rank : ℕ
  pub next_rem : ℕ

-- The entries of one chunk in the arrays of Manager; `out_file` is what global_<id> holds.
pub record Lane : Type 0 where
  pub nexts_in : Reader
  pub currents_in : Reader
  pub out_pos : ℕ
  pub out_file : List RankRun
  pub cursor : TripletCursor

-- The capacities of the two buffers.
pub record Capacity : Type 0 where
  pub nexts_capacity : ℕ
  pub cur_capacity : ℕ

unfoldable pub flush_output : Lane → Lane
flush_output l =
    if ltb 0 l.out_pos
    then record l { out_file = l.out_file ++ take l.out_pos l.nexts_in.buffer }
    else l

-- The call of fread and what follows it, the same in both refills: a short read marks the end of
-- the file, and a read of nothing drains the stream.
unfoldable pub fill : ℕ → ℕ → Reader → Outcome (Unit {0}) × Reader
fill capacity filepos r =
    let records = take capacity r.file in
    let result = length records in
    if ltb 0 result
    then (
      success tt,
      record r {
        file = drop capacity r.file;
        buffer = fread_at r.buffer 0 records;
        pos = some 0;
        len = result;
        filepos = if ltb result capacity then none else some (filepos + result);
      },
    )
    else (empty, record r { filepos = none; pos = none })

-- `if (out_pos > 0) { flush_output(...); out_pos = 0; }`
unfoldable pub flush_overlay : Lane → Lane
unfolding flush_output
flush_overlay l = if ltb 0 l.out_pos then record (flush_output l) { out_pos = 0 } else l

unfoldable pub refill_nexts : Capacity → Lane → Outcome (Unit {0}) × Lane
refill_nexts caps l = elim l.nexts_in.filepos [
  | none ↦ (empty, record l { nexts_in = record (l.nexts_in) { pos = none } })
  | some filepos ↦
      let l' = flush_overlay l in
      let (s, r) = fill caps.nexts_capacity filepos l'.nexts_in in (s, record l' { nexts_in = r })
]

unfoldable pub refill_currents : Capacity → Lane → Outcome (Unit {0}) × Lane
refill_currents caps l = elim l.currents_in.filepos [
  | none ↦ (empty, record l { currents_in = record (l.currents_in) { pos = none } })
  | some filepos ↦
      let (s, r) = fill caps.cur_capacity filepos l.currents_in in (s, record l { currents_in = r })
]

abbrev pub reader_of : Stream → Lane → Reader
reader_of nexts l = l.nexts_in
reader_of currents l = l.currents_in

abbrev pub with_reader : Stream → Lane → Reader → Lane
with_reader nexts l r = record l { nexts_in = r }
with_reader currents l r = record l { currents_in = r }

abbrev pub refill : Stream → Capacity → Lane → Outcome (Unit {0}) × Lane
refill nexts = refill_nexts
refill currents = refill_currents

-- `if (rr == SUCCESS) return get_phys_rankrun(...); return rr;`
abbrev pub after_refill :
    (Lane → Option (Outcome RankRun × Lane))
    → Outcome (Unit {0}) × Lane
    → Option (Outcome RankRun × Lane)
after_refill again (success _, l) = again l
after_refill again (empty, l) = some (empty, l)
after_refill again (failure, l) = some (failure, l)

-- The C function calls itself once after a refill that found records; two rounds of fuel are always
-- enough. A read outside the buffer is a fault, as is the lack of fuel.
unfoldable pub phys_loop : ℕ → Capacity → Stream → Lane → Option (Outcome RankRun × Lane)
phys_loop zero caps which l = none
phys_loop (suc fuel) caps which l =
    let r = reader_of which l in
    elim r.pos [
      | none ↦ some (empty, l)
      | some pos ↦
          let read : Option (Outcome RankRun × Lane) = do
            out ← get_elem? r.buffer pos
            some (success out, with_reader which l (record r { pos = some (pos + 1) }))
          in let refilled = after_refill (phys_loop fuel caps which) (refill which caps l) in
            if ltb pos r.len then read else refilled
    ]

unfoldable pub get_phys_rankrun : Capacity → Stream → Lane → Option (Outcome RankRun × Lane)
get_phys_rankrun = phys_loop 2

-- Decode one (rank, count) run; the count of an escaped record is in the record behind it.
unfoldable pub decode_rankrun : Capacity → Stream → Lane → Option (Outcome (ℕ × ℕ) × Lane)
decode_rankrun caps which l = do
  (got, l') ← get_phys_rankrun caps which l
  let escaped : RankRun → Option (Outcome (ℕ × ℕ) × Lane) = λ raw. do
    (more, m) ← get_phys_rankrun caps which l'
    some (elim more [
      | success ov ↦ (success (i40_load raw.rank, i40_load ov.rank), m)
      | empty ↦ (failure, m)
      | failure ↦ (failure, m)
    ])
  elim got [
    | success raw ↦
        if raw.count == count_escape
        then escaped raw
        else some (success (i40_load raw.rank, raw.count), l')
    | empty ↦ some (empty, l')
    | failure ↦ some (failure, l')
  ]

-- `if (t->next_rem == 0) { ... }`: load the next nexts run; EMPTY ends the chunk.
unfoldable pub load_next : Capacity → Lane → Option (Outcome (Unit {0}) × Lane)
load_next caps l =
    let decode : Option (Outcome (Unit {0}) × Lane) = do
      (got, l') ← decode_rankrun caps nexts l
      some (elim got [
        | success (rk, cnt) ↦ (
          success tt,
          record l' { cursor = record (l'.cursor) { next_rank = rk; next_rem = cnt } },
        )
        | empty ↦ (empty, l')
        | failure ↦ (failure, l')
      ])
    in if l.cursor.next_rem == 0 then decode else some (success tt, l)

-- `if (t->cur_rem == 0) { ... }`: a currents stream that ends first is a FAILURE.
unfoldable pub load_cur : Capacity → Lane → Option (Outcome (Unit {0}) × Lane)
load_cur caps l =
    let decode : Option (Outcome (Unit {0}) × Lane) = do
      (got, l') ← decode_rankrun caps currents l
      some (elim got [
        | success (rk, cnt) ↦
            (success tt, record l' { cursor = record (l'.cursor) { cur_rank = rk; cur_rem = cnt } })
        | empty ↦ (failure, l')
        | failure ↦ (failure, l')
      ])
    in if l.cursor.cur_rem == 0 then decode else some (success tt, l)

-- The overlap of the two runs under the cursor, and the cursor behind it.
unfoldable pub overlap : Lane → (ℕ × ℕ × ℕ) × Lane
overlap l =
    let t = l.cursor in
    let take_count = if ltb t.cur_rem t.next_rem then t.cur_rem else t.next_rem in
    (
      (t.cur_rank, t.next_rank, take_count),
      record l {
        cursor = record t { cur_rem = t.cur_rem - take_count; next_rem = t.next_rem - take_count };
      },
    )

-- With both runs loaded the overlap is the result; a missing currents run is a FAILURE.
abbrev pub after_load_cur : Outcome (Unit {0}) × Lane → Outcome (ℕ × ℕ × ℕ) × Lane
after_load_cur (success _, l) = let (triplet, l') = overlap l in (success triplet, l')
after_load_cur (empty, l) = (failure, l)
after_load_cur (failure, l) = (failure, l)

abbrev pub after_load_next :
    Capacity → Outcome (Unit {0}) × Lane → Option (Outcome (ℕ × ℕ × ℕ) × Lane)
after_load_next caps (success _, l) = load_cur caps l >>= λ r. some (after_load_cur r)
after_load_next caps (empty, l) = some (empty, l)
after_load_next caps (failure, l) = some (failure, l)

-- `next_triplet`: (curr, next, count)
unfoldable pub next_triplet : Capacity → Lane → Option (Outcome (ℕ × ℕ × ℕ) × Lane)
next_triplet caps l = load_next caps l >>= after_load_next caps

abbrev pub as_element : ℕ → Outcome (ℕ × ℕ × ℕ) × Lane → Outcome HeapElement × Lane
as_element chunk_id (success (c, n, cnt), l) =
    (success (record { current_rank = c; next_rank = n; count = cnt; chunk_id = chunk_id }), l)
as_element chunk_id (empty, l) = (empty, l)
as_element chunk_id (failure, l) = (failure, l)

-- `get_next_run`
unfoldable pub get_next_run : Capacity → ℕ → Lane → Option (Outcome HeapElement × Lane)
get_next_run caps chunk_id l = next_triplet caps l >>= λ r. some (as_element chunk_id r)

-- Put one output record at the overlay's end, flushing it first where that slot may hold a record
-- of nexts that is not read yet.
unfoldable pub put_current : Capacity → ℕ → ℕ → Lane → Option Lane
put_current caps rank_field count_byte l =
    let avail : ℕ = elim l.nexts_in.pos [ none ↦ caps.nexts_capacity | some rp ↦ rp ] in
    let l' = if ltb avail (l.out_pos + 1) then record (flush_output l) { out_pos = 0 } else l in
    do
      b ←
          store l'.nexts_in.buffer l'.out_pos
            (record { rank = i40_store rank_field; count = count_byte })
      some (record l' { nexts_in = record (l'.nexts_in) { buffer = b }; out_pos = l'.out_pos + 1 })

-- `write_output`: a count that does not fit its byte takes a second record.
unfoldable pub write_output : Capacity → ℕ → ℕ → Lane → Option Lane
write_output caps rank count l =
    if ltb count count_escape
    then put_current caps rank count l
    else (do l' ← put_current caps rank count_escape l; put_current caps count 0 l')
