-- ===== src/Merge/Resolve/Places.antt =====
-- The chunks that one round of merge_runs in src/merge.c writes to: that of its triplet and that of the
-- triplet before it.
use suffix_rank.Base.{
  ℕ, ◌<◌, ◌≡◌, refl, Bool, true, false, none, some, All, Bool-cases, Option, inl, inr, ◌==◌,
}
use suffix_rank.Merge.{HeapElement}
use suffix_rank.Merge.Resolve.{Ranking, resolve_last, heap_to_output, heap_to_output_last, transfer}

resolve_last_chunk :
    (last current : HeapElement) (r : Ranking)
    → (resolve_last last current r).0.chunk_id ≡ last.chunk_id
unfolding resolve_last
resolve_last_chunk last current r = elim (Bool-cases (current.current_rank == last.current_rank)) [
  | inl same ↦ rw same (elim (Bool-cases (current.next_rank == last.next_rank)) [
    | inl same_next ↦ rw same_next refl
    | inr apart ↦
        rw apart (elim (Bool-cases (r.pair_count == 1)) [
          | inl one ↦ rw one refl
          | inr more ↦ rw more refl
        ])
  ])
  | inr apart ↦
      rw apart
        (elim (Bool-cases (r.pair_count == 1)) [ inl one ↦ rw one refl | inr more ↦ rw more refl ])
]

abbrev pub LastOk : ℕ → Ranking → Type 0
LastOk n r = elim r.last_transferred [ none ↦ Unit {0} | some d ↦ d.chunk_id < n ]

abbrev ranking : ℕ → ℕ → Option HeapElement → Ranking
ranking p u o = record { pair_count = p; updated_rank = u; last_transferred = o }

inside_fields :
    (n : ℕ) (e : HeapElement) (b : Bool) (p u : ℕ) (o : Option HeapElement)
    → e.chunk_id < n
    → LastOk n (ranking p u o)
    → All (λ x. x.chunk_id < n) (transfer e b (ranking p u o)).0
unfolding transfer heap_to_output heap_to_output_last
inside_fields n e false p u none inside last = tt
inside_fields n e true p u none inside last = (inside, tt)
inside_fields n e false p u (some d) inside last =
    (rw (resolve_last_chunk d e (ranking p u (some d))) last, tt)
inside_fields n e true p u (some d) inside last =
    (rw (resolve_last_chunk d e (ranking p u (some d))) last, (inside, tt))

pub transfer-inside :
    (n : ℕ) (e : HeapElement) (b : Bool) (r : Ranking)
    → e.chunk_id < n
    → LastOk n r
    → All (λ o. o.chunk_id < n) (transfer e b r).0
transfer-inside n e b r inside last =
    inside_fields n e b r.pair_count r.updated_rank r.last_transferred inside last

pub transfer-last :
    (n : ℕ) (e : HeapElement) (b : Bool) (r : Ranking)
    → e.chunk_id < n
    → LastOk n (transfer e b r).1
unfolding transfer
transfer-last n e b r inside = inside
