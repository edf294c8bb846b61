-- ===== src/Tests.antt =====
-- Runs of the model at concrete inputs, one module for each program of src/.
mod MergeRuns
mod HeapRuns
mod PairsRuns
mod InputRuns
mod DriverRuns
mod RefineRuns
mod UpdateRuns
mod VerifyRuns
mod BoundsRuns
mod InversionRuns
mod KmerRuns
mod FormatRuns
use suffix_rank.Base.{ℕ, List, [], ◌∷◌, replicate}
use suffix_rank.Format.{Int40, RankRun}

-- What Calloc fills a buffer with.
abbrev pub zero40 : Int40
zero40 = record { b0 = 0; b1 = 0; b2 = 0; b3 = 0; b4 = 0 }

abbrev pub blank : RankRun
blank = record { rank = zero40; count = 0 }

abbrev pub blanks : ℕ → List RankRun
blanks n = replicate n blank
