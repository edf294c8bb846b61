-- ===== src/Kmer/Ranks.antt =====
-- The two passes of src/init.cpp: what they write.
use suffix_rank.Base.{
  ℕ, zero, suc, ◌+◌, ◌-◌, ◌/◌, ◌%◌, ◌^◌, ◌<◌, ◌≡◌, refl, List, [], ◌∷◌, ◌++◌, map, some, arith,
  length, replicate, Gives, gives, Gives-bind, Gives-map, length-replicate,
}
use mathlib.Core.List.{map-append}
use native.Mathlib.Nat.{pow-suc, div-eq_of_eq-mul_left}
use suffix_rank.Files.Chunked.{Chunker, IsChunked, all_of, Took, append_entry_lem, close_chunks_lem}
use suffix_rank.Format.{Int40, i40_store}
use suffix_rank.Kmer.Window.{KWin}
use suffix_rank.Kmer.Keys.{keys_of}
use suffix_rank.Kmer.Alphabet.{cumulate}
use suffix_rank.Kmer.Counts.{
  smaller, IsHistogram, empty-IsHistogram, bump-IsHistogram, bucket_start,
}
use suffix_rank.Kmer.Digits.{code_at, AreCoded}
use suffix_rank.Kmer.Feed.{feed_all_lem}
use suffix_rank.Kmer.Passes.{
  XState, x_byte, x_key, XResult, new_chunker, pass_build_histogram_and_x, rank_key,
  pass_write_ranks, FirstRanks, PassStatus, run_passes,
}

-- What the X files have for a byte.
abbrev pub x_of : ℕ → ℕ
x_of v = (1 + v) % 256

abbrev pub rank_of : List ℕ → ℕ → Int40
rank_of keys key = i40_store (1 + smaller key keys)

pow-div : (base k : ℕ) → 0 < base → 0 < k → base ^ k / base ≡ base ^ (k - 1)
pow-div base zero b h = absurd (omega arith)
pow-div base (suc k) b h =
    let e : suc k - 1 ≡ k = omega arith in rw e (div-eq_of_eq-mul_left b (pow-suc base k))

new-Took : {A : Type 0} (size : ℕ) (a : A) → 0 < size → Took size [] (new_chunker size a)
new-Took size a h = record {
  allocated = length-replicate size a;
  inside = h;
  full = tt;
  taken = refl;
}

module _ (size base k : ℕ) (positive : 0 < size) (k_positive : 0 < k) (b_positive : 0 < base)
    (code_of_byte bytes : List ℕ) (coded : AreCoded base code_of_byte bytes) (w : KWin)
    (same_base : w.base ≡ base) (same_k : w.k ≡ k) (top : w.topw ≡ base ^ (k - 1)) where
  abbrev the_keys : List ℕ
  the_keys = keys_of base k (map (code_at code_of_byte) bytes)

  abbrev HasX : List ℕ → List ℕ → XState → Type 0
  HasX bs ks (x, counts) = Took size (map x_of bs) x × IsHistogram (base ^ k) ks counts

  keep_x_byte :
      (b : ℕ) (bs ks : List ℕ) (s : XState)
      → HasX bs ks s
      → Gives (HasX (bs ++ b ∷ []) ks) (x_byte size b s)
  keep_x_byte b bs ks (x, counts) (t, h) =
      Gives-bind (append_entry_lem size (x_of b) (map x_of bs) x t)
        (λ x' t'. gives (rw (map-append x_of bs (b ∷ [])) t', h))

  keep_x_key :
      (key : ℕ) (bs ks : List ℕ) (s : XState)
      → key < base ^ k
      → HasX bs ks s
      → Gives (HasX bs (ks ++ key ∷ [])) (x_key key s)
  keep_x_key key bs ks (x, counts) lt (t, h) =
      Gives-bind (bump-IsHistogram (base ^ k) ks counts key lt h) (λ counts' h'. gives (t, h'))

  build_lem :
      Gives
        (λ (r : XResult).
          IsChunked size r.x_files
          × (all_of r.x_files ≡ map x_of bytes ++ 0 ∷ [])
          × IsHistogram (base ^ k) the_keys r.counts)
        (pass_build_histogram_and_x size code_of_byte w (replicate (base ^ k) 0) bytes)
  unfolding pass_build_histogram_and_x
  build_lem =
      Gives-bind
        (feed_all_lem XState (x_byte size) x_key HasX base k keep_x_byte keep_x_key code_of_byte
          bytes w (new_chunker size 0, replicate (base ^ k) 0) same_base same_k top k_positive
          b_positive coded (new-Took size 0 positive, empty-IsHistogram (base ^ k)))
        (λ (x, counts) (t, h). Gives-bind (append_entry_lem size 0 (map x_of bytes) x t) (λ x' t'.
          let (c, e) = close_chunks_lem size (map x_of bytes ++ 0 ∷ []) x' t' in gives (c, e, h)))

  module _ (counts : List ℕ) (hist : IsHistogram (base ^ k) the_keys counts) where
    abbrev HasRanks : List ℕ → List ℕ → Chunker Int40 → Type 0
    HasRanks bs ks out = Took size (map (rank_of the_keys) ks) out

    keep_rank :
        (key : ℕ) (bs ks : List ℕ) (out : Chunker Int40)
        → key < base ^ k
        → HasRanks bs ks out
        → Gives (HasRanks bs (ks ++ key ∷ [])) (rank_key size (cumulate 0 counts) key out)
    keep_rank key bs ks out lt t = rw (bucket_start (base ^ k) the_keys counts key hist lt) (
        Gives-map (append_entry_lem size (rank_of the_keys key) (map (rank_of the_keys) ks) out t)
          (λ out' t'. rw (map-append (rank_of the_keys) ks (key ∷ [])) t'))

    write_lem :
        Gives
          (λ (files : List (List Int40)).
            IsChunked size files
            × (all_of files ≡ map (rank_of the_keys) the_keys ++ i40_store 0 ∷ []))
          (pass_write_ranks size code_of_byte w (cumulate 0 counts) bytes)
    unfolding pass_write_ranks
    write_lem =
        Gives-bind
          (feed_all_lem (Chunker Int40) (λ v s. some s) (rank_key size (cumulate 0 counts)) HasRanks
            base k (λ b bs ks s t. gives t) keep_rank code_of_byte bytes w
            (new_chunker size (i40_store 0)) same_base same_k top k_positive b_positive coded
            (new-Took size (i40_store 0) positive))
          (λ out t.
            Gives-bind (append_entry_lem size (i40_store 0) (map (rank_of the_keys) the_keys) out t)
              (λ out' t'. gives (close_chunks_lem size _ out' t')))

-- What the passes leave.
pub record IsWritten (size base : ℕ) (code_of_byte bytes : List ℕ) (r : FirstRanks) : Type 0 where
  pub x_chunked : IsChunked size r.x_files
  pub x_entries : all_of r.x_files ≡ map x_of bytes ++ 0 ∷ []
  pub x_number : r.n_chunks ≡ length r.x_files
  pub ranks_chunked : IsChunked size r.ranks_files
  pub ranks_entries : all_of r.ranks_files ≡ (
      let keys = keys_of base r.k (map (code_at code_of_byte) bytes) in
      map (rank_of keys) keys ++ i40_store 0 ∷ [])

pub data Succeeds (P : FirstRanks → Type 0) : PassStatus → Type 0 where
  succeeds : {r : FirstRanks} → P r → Succeeds P (PassStatus.success r)

pub Succeeds-map :
    {P Q : FirstRanks → Type 0} {st : PassStatus}
    → Succeeds P st
    → ((r : FirstRanks) → P r → Q r)
    → Succeeds Q st
Succeeds-map (succeeds p) f = succeeds (f _ p)

pub run_passes_lem :
    (size base k : ℕ) (code_of_byte bytes : List ℕ)
    → 0 < size
    → 0 < k
    → 0 < base
    → AreCoded base code_of_byte bytes
    → Gives
        (Succeeds (λ r. IsWritten size base code_of_byte bytes r × (r.k ≡ k)))
        (run_passes size code_of_byte base k (base ^ k) bytes)
unfolding run_passes
run_passes_lem size base k code_of_byte bytes sp kp bp coded =
    let w : KWin = record {
      ring = replicate k 0;
      key = 0;
      topw = base ^ k / base;
      base = base;
      k = k;
      p = 0;
    } in
    let top : base ^ k / base ≡ base ^ (k - 1) = pow-div base k bp kp in
    Gives-bind (build_lem size base k sp kp bp code_of_byte bytes coded w refl refl top)
      (λ built (xc, xe, hist).
        Gives-bind
          (write_lem size base k sp kp bp code_of_byte bytes coded w refl refl top built.counts
            hist)
          (λ files (rc, re). gives (
            succeeds (
              record {
                x_chunked = xc;
                x_entries = xe;
                x_number = refl;
                ranks_chunked = rc;
                ranks_entries = re;
              },
              refl,
            ))))
