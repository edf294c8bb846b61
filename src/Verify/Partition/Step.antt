-- ===== src/Verify/Partition/Step.antt =====
-- One position in verify_partition of src/verify.c, in the states that its loop can be in.
use suffix_rank.Base.{
  ℕ, zero, suc, ◌+◌, ◌-◌, ◌*◌, ◌/◌, ◌%◌, ◌^◌, ◌<◌, ◌≤◌, ◌≡◌, refl, ap, sym, ◌∙◌, false, List, [],
  ◌∷◌, ◌++◌, map, none, some, arith, length, get_or, set, All, lt→ltb, le→ltb, le→leb, length-set,
  ◌==◌, get_elem?-eq-get_or, store_of_lt, Gives-inv, ne→==,
}
use native.Mathlib.Nat.{mod-eq-sub-div-mul, mod-lt}
use suffix_rank.Base.Int.{ℤ, pos, negsuc}
use suffix_rank.Format.{Int40, i40_load}
use suffix_rank.Input.{Status, Symbol, input_stream_next, next_loop}
use suffix_rank.Input.Symbols.{ended}
use suffix_rank.Verify.Records.{success, failure, VerifyRecord, encode_first_key}
use suffix_rank.Verify.Partition.{emit_to, partition_position}
use suffix_rank.Verify.Partition.Spec.{keys, next_of, record_at, push}
use suffix_rank.Verify.Partition.Writer.{PartitionWriter, IsOpen, emitted, pw_emit_lem, pw_init}
use suffix_rank.Verify.Partition.Loop.{over, keys_left, one_less}

-- What the iterator gives.
pub next_none : input_stream_next (over none) ≡ some (Status.empty, ended)
unfolding next_loop
next_none = refl

pub next_some :
    (bytes : List ℕ)
    → (x : Symbol) × (input_stream_next (over (some bytes))
        ≡ some (Status.success x, over (one_less (some bytes))))
      × (All (λ b. b < 256) bytes
          → encode_first_key x.out_char x.out_sent_id ∷ keys_left (one_less (some bytes))
            ≡ keys bytes)
unfolding next_loop encode_first_key
next_some [] = (record { out_char = 0; out_sent_id = pos 0 }, refl, λ h. refl)
next_some (b ∷ bytes) = (
  record { out_char = b + 1; out_sent_id = negsuc 0 },
  refl,
  λ h.
      let some_byte : (b + 1 == 0) ≡ false = ne→== (b + 1) 0 (omega arith) in
      let key : (1 + (b + 1)) % 2 ^ 32 ≡ b + 2 = omega arith in rw (some_byte, key) refl,
)

-- Writers between two positions.
pub record AreOpen (total_chunks : ℕ) (writers : List PartitionWriter) : Type 0 where
  pub number : length writers ≡ total_chunks
  pub each : All IsOpen writers

All-get_or :
    (writers : List PartitionWriter) (i : ℕ)
    → i < length writers
    → All IsOpen writers
    → IsOpen (get_or writers i pw_init)
All-get_or [] i h a = absurd (omega arith)
All-get_or (w ∷ writers) zero h a = a.0
All-get_or (w ∷ writers) (suc i) h a = All-get_or writers i (omega arith) a.1

All-set :
    (writers : List PartitionWriter) (i : ℕ) (w : PartitionWriter)
    → All IsOpen writers
    → IsOpen w
    → All IsOpen (set writers i w)
All-set [] i w a h = tt
All-set (x ∷ writers) zero w a h = (h, a.1)
All-set (x ∷ writers) (suc i) w a h = (a.0, All-set writers i w a.1 h)

map-set-push :
    (writers : List PartitionWriter) (i : ℕ) (w : PartitionWriter) (rec : VerifyRecord)
    → i < length writers
    → emitted w ≡ emitted (get_or writers i pw_init) ++ rec ∷ []
    → map emitted (set writers i w) ≡ push (map emitted writers) i rec
map-set-push [] i w rec h e = absurd (omega arith)
map-set-push (x ∷ writers) zero w rec h e = ap (λ t. t ∷ map emitted writers) e
map-set-push (x ∷ writers) (suc i) w rec h e =
    ap (◌∷◌ (emitted x)) (map-set-push writers i w rec (omega arith) e)

emit_to_lem :
    (total_chunks : ℕ) (writers : List PartitionWriter) (target : ℕ) (rec : VerifyRecord)
    → AreOpen total_chunks writers
    → target < total_chunks
    → (writers' : List PartitionWriter) × (emit_to writers target rec ≡ success writers')
      × AreOpen total_chunks writers'
      × (map emitted writers' ≡ push (map emitted writers) target rec)
unfolding emit_to
emit_to_lem total_chunks writers target rec open_ws h =
    let h' : target < length writers = omega arith in
    let w = get_or writers target pw_init in
    let (w', e, (open_w, grown)) =
      Gives-inv (pw_emit_lem w rec (All-get_or writers target h' open_ws.each)) in
    (
      set writers target w',
      rw (get_elem?-eq-get_or writers target pw_init h', e, store_of_lt writers target w' h') refl,
      record {
        number = length-set writers target w' ∙ open_ws.number;
        each = All-set writers target w' open_ws.each open_w;
      },
      map-set-push writers target w' rec h' grown,
    )

-- A position of a rank that no chunk holds, or one without a symbol, ends the loop.
pub partition_position-none :
    (size total_chunks position : ℕ) (next_rank : ℤ) (r : Int40) (writers : List PartitionWriter)
    → partition_position size total_chunks position next_rank r (over none) writers ≡ failure
unfolding partition_position
partition_position-none size total_chunks position next_rank r writers = rw next_none refl

pub partition_position-bad :
    (size total_chunks position : ℕ) (next_rank : ℤ) (r : Int40) (bytes : List ℕ)
    (writers : List PartitionWriter)
    → total_chunks ≤ i40_load r / size
    → partition_position size total_chunks position next_rank r (over (some bytes)) writers
      ≡ failure
unfolding partition_position
partition_position-bad size total_chunks position next_rank r bytes writers h =
    let (x, got, _) = next_some bytes in rw (got, le→ltb (i40_load r / size) total_chunks h) refl

-- Any other gives its record to the writer of its chunk.
pub partition_position_lem :
    (size total_chunks position : ℕ) (rs : List ℕ) (r : Int40) (bytes : List ℕ)
    (writers : List PartitionWriter)
    → 0 < size
    → size < 2 ^ 32
    → All (λ b. b < 256) bytes
    → AreOpen total_chunks writers
    → i40_load r / size < total_chunks
    → (key : ℕ) × (writers' : List PartitionWriter) × (partition_position size total_chunks position
          (next_of rs)
          r
          (over (some bytes))
          writers
        ≡ success (over (one_less (some bytes)), writers'))
      × AreOpen total_chunks writers'
      × (map emitted writers'
          ≡ push
              (map emitted writers)
              (i40_load r / size)
              (record_at size position (i40_load r) rs key))
      × (keys bytes ≡ key ∷ keys_left (one_less (some bytes)))
unfolding partition_position
partition_position_lem size total_chunks position rs r bytes writers p small ok open_ws h =
    let (x, got, key_eq) = next_some bytes in
    let rank = i40_load r in
    let key = encode_first_key x.out_char x.out_sent_id in
    let target = rank / size in
    let slot_eq : rank - target * size ≡ rank % size = sym (mod-eq-sub-div-mul rank size) in
    let slot_lt : rank % size ≤ 2 ^ 32 - 1 = omega (arith, mod-lt rank p) in
    let (writers', emits, open_ws', grown) =
      emit_to_lem total_chunks writers target (record_at size position rank rs key) open_ws h in
    (
      key,
      writers',
      rw
          (
            got,
            lt→ltb target total_chunks h,
            slot_eq,
            le→leb (rank % size) (2 ^ 32 - 1) slot_lt,
            emits,
          )
          refl,
      open_ws',
      grown,
      sym (key_eq ok),
    )
