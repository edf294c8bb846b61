-- ===== src/Tests/BoundsRuns.antt =====
-- The windows of two chunks, of which the second is empty.
use suffix_rank.Base.{List, [], ◌∷◌, ◌≡◌, refl, some, ◌>>=◌}
use suffix_rank.Base.Int.{ℤ, pos, negsuc}
use suffix_rank.Files.{fread_at}
use suffix_rank.Bounds.{bounds_store, bounds_load, fill_bounds, take_bounds, loaded, short_read}
use suffix_rank.Bounds.RoundTrip.{bounds_load-store}

abbrev lo : List ℤ
lo = pos 3 ∷ pos 0 ∷ []

abbrev hi : List ℤ
hi = pos 7 ∷ negsuc 0 ∷ []

abbrev zeros : List ℤ
zeros = pos 0 ∷ pos 0 ∷ []

run_store : bounds_store 2 lo hi ≡ some (pos 3 ∷ pos 7 ∷ pos 0 ∷ negsuc 0 ∷ [])
unfolding bounds_store fill_bounds
run_store = refl

run_short : bounds_load 2 (pos 3 ∷ pos 7 ∷ pos 0 ∷ []) zeros zeros ≡ some short_read
unfolding bounds_load take_bounds fread_at
run_short = refl

bounds_load-store_example :
    (bounds_store 2 lo hi >>= λ file. bounds_load 2 file zeros zeros) ≡ some (loaded lo hi)
bounds_load-store_example = bounds_load-store 2 lo hi zeros zeros refl refl refl refl
