-- ===== src/Merge/Resolve.antt =====
-- src/merge.c: heap_to_output and heap_to_output_last, which give each triplet, in the order in which
-- the heap hands them out, its new rank. A chunk_id of -1 is `none`.
pub mod Totals
pub mod Correct
pub mod Places
use suffix_rank.Base.{
  ℕ, zero, suc, ◌+◌, Bool, true, false, List, [], ◌∷◌, ◌++◌, Option, none, some, ltb, ◌==◌, ◌&&◌,
  if◌then◌else◌,
}
use suffix_rank.Merge.{HeapElement}

-- `OutputElement`
pub record OutputElement : Type 0 where
  pub new_rank : ℕ
  pub count : ℕ
  pub chunk_id : ℕ

-- The part of Manager that the ranking reads and writes.
pub record Ranking : Type 0 where
  pub pair_count : ℕ
  pub updated_rank : ℕ
  pub last_transferred : Option HeapElement

-- heap_to_output behind its first return: `last` is what `current` follows.
pub resolve_last : HeapElement → HeapElement → Ranking → OutputElement × Ranking
resolve_last last current r =
    let unresolved : OutputElement = record {
      new_rank = r.updated_rank;
      count = last.count;
      chunk_id = last.chunk_id;
    } in
    let result = if r.pair_count == 1 then record unresolved { count = 0 } else unresolved in
    if current.current_rank == last.current_rank
    then (if current.next_rank == last.next_rank
        then (unresolved, record r { pair_count = r.pair_count + current.count })
        else (
          result,
          record r { updated_rank = r.updated_rank + r.pair_count; pair_count = current.count },
        ))
    else (result, record r { updated_rank = current.current_rank; pair_count = current.count })

-- `heap_to_output`
unfoldable pub heap_to_output : HeapElement → Ranking → Option OutputElement × Ranking
unfolding resolve_last
heap_to_output current r = elim r.last_transferred [
  | none ↦ (none, record r { pair_count = current.count })
  | some last ↦ let (o, r') = resolve_last last current r in (some o, r')
]

-- `heap_to_output_last`: last_transferred is still the triplet before `current`.
unfoldable pub heap_to_output_last : HeapElement → Ranking → OutputElement
heap_to_output_last current r =
    let differs : Bool = elim r.last_transferred [
      | none ↦ true
      | some last ↦
          if current.current_rank == last.current_rank
          then (if current.next_rank == last.next_rank then false else true)
          else true
    ] in
    record {
      new_rank = r.updated_rank;
      count = if (current.count == 1) && differs then 0 else current.count;
      chunk_id = current.chunk_id;
    }

-- What one round of merge_runs writes for `smallest`, in order: the triplet before it, and also
-- `smallest` itself if the heap is empty now. Before the first triplet the ranking is reset.
unfoldable pub transfer : HeapElement → Bool → Ranking → List OutputElement × Ranking
unfolding heap_to_output heap_to_output_last
transfer smallest heap_empty r =
    let start : Ranking = elim r.last_transferred [
      | none ↦ record r { updated_rank = smallest.current_rank; pair_count = 0 }
      | some _ ↦ r
    ] in
    let (o, r') = heap_to_output smallest start in
    let before : List OutputElement = elim o [ none ↦ [] | some x ↦ x ∷ [] ] in
    let written = if heap_empty then before ++ heap_to_output_last smallest r' ∷ [] else before in
    (written, record r' { last_transferred = some smallest })

abbrev pub is_nil {ℓ} : {A : Type ℓ} → List A → Bool
is_nil [] = true
is_nil (x ∷ xs) = false

-- All rounds, over the triplets in the order in which the heap gives them.
unfoldable pub transfers : List HeapElement → Ranking → List OutputElement
transfers [] r = []
transfers (e ∷ es) r = let (written, r') = transfer e (is_nil es) r in written ++ transfers es r'
