-- ===== src/Refine/Loop.antt =====
-- The loop of main of src/refine.cpp over all chunks: the nexts files and the status of a round.
use suffix_rank.Base.{
  ℕ, ltb, false, zero, suc, ◌+◌, ◌*◌, ◌/◌, ◌<◌, ◌≤◌, ◌≡◌, refl, ap, sym, ◌∙◌, inl, inr, List, [],
  ◌∷◌, ◌++◌, some, arith, length, get_elem?, get_or, map, take-eq_of_le, ◌↔◌, All, Gives, gives,
  after_one, after_all, after_all-idle, ◌≢◌, Gives-bind, Gives-map, append-nil, Bool-cases,
}
use suffix_rank.Format.{Int40, i40_load, RankRun}
use suffix_rank.Format.Runs.{encode}
use suffix_rank.Format.Groups.{group}
use suffix_rank.Location.{next_rank_loc}
use suffix_rank.Refine.{
  Status, success, empty, add_result, RefineChunk, scan, generate_local_runs, refine_all,
}
use suffix_rank.Refine.Scan.{ranks_at, unread}
use suffix_rank.Refine.Load.{
  Stores, next_ranks_read, length-next_ranks_read, load_next_ranks-eq-some, next_ranks_read-inside,
}
use suffix_rank.Refine.Correct.{generate_local_runs_live, All-map}

-- Each listed position is in the window, and the text goes on at the position prefix_len ahead.
abbrev pub IsRefinable : ℕ → ℕ → ℕ → ℕ → RefineChunk → Type 0
IsRefinable size total_length prefix_len chunk_id c =
    (c.stop ≤ size)
    × (length c.sa ≤ size)
    × All (λ p. (c.lo ≤ p) × (p < c.stop) × (chunk_id * size + p + prefix_len < total_length)) c.sa

abbrev pub AreRefinable : ℕ → ℕ → ℕ → ℕ → List RefineChunk → Type 0
AreRefinable size total_length prefix_len chunk_id [] = Unit {0}
AreRefinable size total_length prefix_len chunk_id (c ∷ chunks) =
    IsRefinable size total_length prefix_len chunk_id c
    × AreRefinable size total_length prefix_len (chunk_id + 1) chunks

-- The ranks of the positions prefix_len ahead of the listed ones.
abbrev pub ranks_ahead : ℕ → (ℕ → Int40) → ℕ → ℕ → List ℕ → List ℕ
ranks_ahead size rank_of prefix_len chunk_id sa =
    map (λ p. i40_load (rank_of (chunk_id * size + p + prefix_len))) sa

-- The nexts files of a round.
abbrev pub nexts_files : ℕ → (ℕ → Int40) → ℕ → ℕ → List RefineChunk → List (List RankRun)
nexts_files size rank_of prefix_len chunk_id [] = []
nexts_files size rank_of prefix_len chunk_id (c ∷ chunks) =
    (c.nexts ++ encode (group (ranks_ahead size rank_of prefix_len chunk_id c.sa)))
    ∷ nexts_files size rank_of prefix_len (chunk_id + 1) chunks

-- No chunk lists a position.
abbrev pub AreDone : List RefineChunk → Type 0
AreDone chunks = All (λ c. c.sa ≡ []) chunks

success_differs : success ≢ empty
success_differs e = absurd (grind arith)

get_or-of_some :
    (xs : List Int40) (i : ℕ) (d v : Int40) → get_elem? xs i ≡ some v → get_or xs i d ≡ v
get_or-of_some [] i d v e = absurd (grind arith)
get_or-of_some (x ∷ xs) zero d v e = grind arith
get_or-of_some (x ∷ xs) (suc i) d v e = get_or-of_some xs i d v e

encode-nothing : (nexts : List RankRun) → nexts ++ encode (group []) ≡ nexts
unfolding encode group
encode-nothing nexts = append-nil nexts

module _ (ranks : ℕ → List Int40) (size total_length total_chunks : ℕ) (rank_of : ℕ → Int40)
    (stored : Stores ranks size total_length rank_of) (covered : total_length ≤ total_chunks * size)
    (three : 3 ≤ size) (prefix_len : ℕ) where
  generate_local_runs_done :
      (chunk_id lo stop : ℕ) (nexts runs : List RankRun) (next_ranks : List Int40)
      → stop ≤ length next_ranks
      → Gives
          (λ (s, file, buffer). (s ≡ empty) × (file ≡ nexts) × (length buffer ≡ length next_ranks))
          (generate_local_runs ranks [] nexts total_chunks chunk_id prefix_len size lo stop
            next_ranks runs)
  unfolding generate_local_runs scan
  generate_local_runs_done chunk_id lo stop nexts runs next_ranks room =
      let fits : ltb size size ≡ false = ground arith in
      let loc = next_rank_loc prefix_len size chunk_id total_chunks in
      elim (Bool-cases loc.is_empty) [
        | inl e ↦ simp e (gives (refl, refl, refl))
        | inr e ↦
            simp
              (
                e,
                load_next_ranks-eq-some ranks loc total_chunks size lo stop next_ranks room,
                fits,
                take-eq_of_le {A = ℕ} size [] (omega arith),
              )
              (gives
                (refl, refl, length-next_ranks_read ranks loc total_chunks size lo stop next_ranks))
      ]

  ranks_at-eq-ranks_ahead :
      (chunk_id lo stop : ℕ) (next_ranks : List Int40) (sa : List ℕ)
      → stop ≤ size
      → length next_ranks ≡ size
      → All (λ p. (lo ≤ p) × (p < stop) × (chunk_id * size + p + prefix_len < total_length)) sa
      → ranks_at
          (next_ranks_read ranks
            (next_rank_loc prefix_len size chunk_id total_chunks)
            total_chunks
            size
            lo
            stop
            next_ranks)
          sa
        ≡ ranks_ahead size rank_of prefix_len chunk_id sa
  ranks_at-eq-ranks_ahead chunk_id lo stop next_ranks [] fits buffered h = refl
  ranks_at-eq-ranks_ahead chunk_id lo stop next_ranks (p ∷ sa) fits buffered h =
      let (low, high, here) = h.0 in
      let buffer =
        next_ranks_read ranks (next_rank_loc prefix_len size chunk_id total_chunks) total_chunks
          size lo stop next_ranks in
      let e =
        next_ranks_read-inside ranks size total_length total_chunks rank_of stored (omega arith)
          covered chunk_id prefix_len lo stop p next_ranks low high fits buffered here in
      let x = get_or-of_some buffer p unread _ e in
      rw (x, ranks_at-eq-ranks_ahead chunk_id lo stop next_ranks sa fits buffered h.1) refl

  -- One chunk of the loop.
  refine_chunk_lem :
      (chunk_id lo stop : ℕ) (sa : List ℕ) (nexts runs : List RankRun) (next_ranks : List Int40)
      → length runs ≡ size / 3
      → length next_ranks ≡ size
      → IsRefinable size total_length prefix_len chunk_id
          (record { sa = sa; nexts = nexts; lo = lo; stop = stop })
      → Gives
          (λ (s, file, buffer).
            ((m : Status) → add_result m s ≡ after_one success m sa)
            × (file ≡ nexts ++ encode (group (ranks_ahead size rank_of prefix_len chunk_id sa)))
            × (length buffer ≡ size))
          (generate_local_runs ranks sa nexts total_chunks chunk_id prefix_len size lo stop
            next_ranks runs)
  refine_chunk_lem chunk_id lo stop [] nexts runs next_ranks full buffered h =
      Gives-map
        (generate_local_runs_done chunk_id lo stop nexts runs next_ranks (omega (arith, h.0)))
        (λ r (s, f, n). (λ m. ap (add_result m) s, f ∙ sym (encode-nothing nexts), n ∙ buffered))
  refine_chunk_lem chunk_id lo stop (p ∷ sa) nexts runs next_ranks full buffered h =
      let (fits, short, active) = h in
      let (low, high, here) = active.0 in
      rw
        (generate_local_runs_live ranks size total_length total_chunks rank_of stored covered
          chunk_id prefix_len lo stop p sa nexts runs next_ranks three (omega arith) fits buffered
          full short (All-map (p ∷ sa) (λ i g. below fits g) active))
        (gives (
          λ m. refl,
          ap (λ t. nexts ++ encode (group t))
              (ranks_at-eq-ranks_ahead chunk_id lo stop next_ranks (p ∷ sa) fits buffered active),
          length-next_ranks_read ranks (next_rank_loc prefix_len size chunk_id total_chunks)
                total_chunks size lo stop next_ranks
              ∙ buffered,
        ))
    where
      below :
          stop ≤ size
          → {i : ℕ} → (lo ≤ i) × (i < stop) × (chunk_id * size + i + prefix_len < total_length)
          → i < size
      below fits (low, high, here) = omega arith

  refine_all_from :
      (runs : ℕ → List RankRun) (chunk_id : ℕ) (chunks : List RefineChunk) (more : Status)
      (next_ranks : List Int40)
      → ((c : ℕ) → length (runs c) ≡ size / 3)
      → length next_ranks ≡ size
      → AreRefinable size total_length prefix_len chunk_id chunks
      → Gives
          (λ (m, files).
            (m ≡ after_all success (λ c. c.sa) more chunks)
            × (files ≡ nexts_files size rank_of prefix_len chunk_id chunks))
          (refine_all ranks total_chunks prefix_len size runs chunk_id chunks more next_ranks)
  unfolding refine_all
  refine_all_from runs chunk_id [] more next_ranks full buffered h = gives (refl, refl)
  refine_all_from runs chunk_id (c ∷ chunks) more next_ranks full buffered h =
      Gives-bind
        (refine_chunk_lem chunk_id c.lo c.stop c.sa c.nexts (runs chunk_id) next_ranks
          (full chunk_id) buffered h.0)
        (λ r (s, f, n).
          Gives-bind
            (refine_all_from runs (chunk_id + 1) chunks (add_result more r.0) r.2 full n h.1)
            (λ rest (m, fs).
              gives
                (m ∙ ap (λ t. after_all success (λ c. c.sa) t chunks) (s more), rw (f, fs) refl)))

  -- With chunks of at least three entries, a runs buffer of size / 3 records for each chunk, ranks
  -- files that store rank_of of each position of the text by chunk, and chunks that list at most
  -- size positions, each of them in the window of its chunk and with the position prefix_len ahead
  -- of it in the text, the loop of refine ends without an access outside a buffer; it appends to
  -- the nexts file of each chunk the encoding of the maximal groups of the ranks prefix_len ahead
  -- along its suffix array, from whichever chunks hold them, and reports EMPTY exactly if no chunk
  -- lists a position.
  pub refine_all_lem :
      (runs : ℕ → List RankRun) (chunks : List RefineChunk) (next_ranks : List Int40)
      → ((c : ℕ) → length (runs c) ≡ size / 3)
      → length next_ranks ≡ size
      → AreRefinable size total_length prefix_len 0 chunks
      → Gives
          (λ (more, files).
            ((more ≡ empty) ↔ AreDone chunks)
            × (files ≡ nexts_files size rank_of prefix_len 0 chunks))
          (refine_all ranks total_chunks prefix_len size runs 0 chunks empty next_ranks)
  refine_all_lem runs chunks next_ranks full buffered h =
      Gives-map (refine_all_from runs 0 chunks empty next_ranks full buffered h) (λ r (m, fs). (
        (let idle = after_all-idle success (λ c. c.sa) empty success_differs chunks in
            (λ e. idle.0 (sym m ∙ e), λ d. m ∙ idle.1 d)),
        fs,
      ))
