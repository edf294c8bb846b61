-- ===== src/Lib.antt =====
-- SUFFIX_RANK builds the suffix array of a large file in external memory. init cuts the text into chunks,
-- sorts each chunk's suffixes and gives every position a first rank; then rounds of refine, merge and
-- update double the prefix length until every rank is unique; create_pairs and invert turn the ranks
-- into the suffix array. This library models the programs of the rounds, for one chunk or one merge,
-- and smaller parts of the programs around them.
--
-- The files of the library and the code that they model:
--   Base            shared names; arrays and files are lists, an access outside an array is `none`
--   Files           fread into a buffer, where in refine and update a request past its end is a fault,
--                   and a window of a file that is read, changed and written back
--   Format          src/utils.h (int40, int32p) and src/algorithm.h (RankRun, rankrun_emit); Runs and
--                   Groups are the runs that records stand for; Writer is emit_run of src/refine.cpp,
--                   which src/update.c and src/init.cpp repeat inline
--   Location        next_rank_loc of src/algorithm.h
--   Refine          generate_local_runs_fast of src/refine.cpp and the loop of its main
--   Merge           src/merge.h; Lane is the part of Manager that belongs to one chunk (its streams, the
--                   output overlay, next_triplet), Heap its heap, Resolve its ranking, Driver the loop of
--                   merge_runs, and Setup setup, init_merge and merge_runs, all of src/merge.c
--   Update          update_local_ranks of src/update.c and the loop of its main
--   Input           src/input_stream.c
--   Pairs           create_pairs of src/create_pairs.c
--   Inverse         invert of src/invert.c
--   Init            the scan of src/init.cpp that seeds the currents stream of a chunk
--   Inversion       the loops of main of src/create_pairs.c and src/invert.c, one after the other
--   Kmer            passes 1 and 2 of src/init.cpp: Window and Roll are the k-mer key, Alphabet the byte
--                   counts, codes and k, Passes the loops, with Files.Chunked as their writer
--   Bounds          bounds_load and bounds_store of src/utils.c
--   Verify          src/verify.c; Partition is verify_partition, Check is verify_check, Program main, and
--                   Sound what its SUCCESS means; Ranked to Entries are the steps on the way there
--   Tests           runs at concrete inputs
-- refine and update agree on EMPTY chunks by next_rank_loc; merge reads what refine and update wrote
-- (the nexts and currents streams) and writes the global streams that update reads.
--
-- Bounds and fuel: ranks and counts are natural numbers, int40 wraps at 2 ^ 40 and counts at the escape
-- 255; positions and chunk numbers are far below the range of int. get_phys_rankrun calls itself at
-- most once, so two rounds of fuel suffice; the loops of the heap get one more than the number of
-- elements in use, and each round moves the hole to a child or a parent; the loop of merge_runs
-- is on fuel too, one round for each entry of the nexts streams at most; the search for k in init takes one
-- round of fuel at most for each entry of a chunk. A window (lo, hi) is kept as (lo, hi + 1).
--
-- Not modelled: the opening and naming of files, failures of the operating system, argument parsing and
-- allocation; divsufsort (an external library) and the SAscan helpers, with pass 3 of init
-- around them; and reduce and main of merge. The loops of the main
-- functions of refine, update, create_pairs, invert and verify over the chunks are modelled on opened
-- files.
pub mod Base
pub mod Files
pub mod Format
pub mod Location
pub mod Refine
pub mod Merge
pub mod Update
pub mod Input
pub mod Inverse
pub mod Pairs
pub mod Init
pub mod Inversion
pub mod Kmer
pub mod Bounds
pub mod Verify
pub mod Tests
