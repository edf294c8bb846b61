-- ===== src/Merge/Lane/Reading.antt =====
-- The two ways in which get_phys_rankrun of src/merge.c leaves the records in its buffer behind:
-- by a refill, or because the stream is drained.
use suffix_rank.Base.{
  ℕ, suc, ◌≤◌, ◌≡◌, refl, ap, ◌++◌, none, some, arith, take, drop-eq_of_le, length-take, le→ltb,
}
use suffix_rank.Merge.{empty}
use suffix_rank.Merge.Lane.{
  Stream, after_refill, refill, reader_of, Reader, Lane, Capacity, nexts, currents, phys_loop,
}
use suffix_rank.Merge.Lane.Invariant.{remaining}

-- A buffer that was read to its end.
pub spent : (capacity p : ℕ) (r : Reader) → r.pos ≡ some p → r.len ≤ p → remaining r ≡ r.file
spent capacity p r at h = rw at (
    ap (λ t. t ++ r.file)
      (drop-eq_of_le p (take r.len r.buffer) (omega (arith, length-take r.len r.buffer))))

pub phys_loop-spent :
    (fuel : ℕ) (caps : Capacity) (which : Stream) (l : Lane) (p : ℕ)
    → (reader_of which l).pos ≡ some p
    → (reader_of which l).len ≤ p
    → phys_loop (suc fuel) caps which l
      ≡ after_refill (phys_loop fuel caps which) (refill which caps l)
unfolding phys_loop
phys_loop-spent fuel caps nexts l p at h = rw (at, le→ltb p l.nexts_in.len h) refl
phys_loop-spent fuel caps currents l p at h = rw (at, le→ltb p l.currents_in.len h) refl

pub phys_loop-drained :
    (fuel : ℕ) (caps : Capacity) (which : Stream) (l : Lane)
    → (reader_of which l).pos ≡ none
    → phys_loop (suc fuel) caps which l ≡ some (empty, l)
unfolding phys_loop
phys_loop-drained fuel caps nexts l at = rw at refl
phys_loop-drained fuel caps currents l at = rw at refl
