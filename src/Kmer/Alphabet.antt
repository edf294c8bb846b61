-- ===== src/Kmer/Alphabet.antt =====
-- The alphabet of the input in src/init.cpp: how often each byte occurs, the code of each byte, and the
-- length k of the first prefixes.
use suffix_rank.Base.{
  ℕ, zero, suc, ◌+◌, ◌*◌, ◌/◌, Bool, true, ◌&&◌, List, [], ◌∷◌, Option, none, some, get_elem?,
  store, drop, ◌==◌, leb, if◌then◌else◌, ◌>>=◌,
}

-- BYTE_ALPHABET_SIZE and alphabet_size
abbrev pub byte_alphabet_size : ℕ
byte_alphabet_size = 256

abbrev pub alphabet_size : ℕ
alphabet_size = 257

abbrev pub max_allowed_byte : ℕ
max_allowed_byte = 253

-- `counts[i]++`
unfoldable pub bump : List ℕ → ℕ → Option (List ℕ)
bump counts i = do n ← get_elem? counts i; store counts i (n + 1)

-- `counts[(uint32_t) read_buf[c] + 1]++`, for each byte.
unfoldable pub count_bytes : List ℕ → List ℕ → Option (List ℕ)
count_bytes [] counts = some counts
count_bytes (b ∷ bytes) counts = do counts' ← bump counts (b + 1); count_bytes bytes counts'

-- The loop over the counts of the bytes above max_allowed_byte.
abbrev pub all_zero : List ℕ → Bool
all_zero [] = true
all_zero (n ∷ counts) = n == 0 && all_zero counts

abbrev pub bytes_allowed : List ℕ → Bool
bytes_allowed counts = all_zero (drop (max_allowed_byte + 2) counts)

-- The loop that gives each used byte the next code; counts are those of the bytes, sigma_real the
-- number of used ones so far.
abbrev pub assign_codes : ℕ → List ℕ → List ℕ × ℕ
assign_codes sigma_real [] = ([], sigma_real)
assign_codes sigma_real (n ∷ counts) =
    let later = assign_codes (if n == 0 then sigma_real else sigma_real + 1) counts in
    ((if n == 0 then 0 else 1 + sigma_real) ∷ later.0, later.1)

-- The loop that looks for the largest k; `none` means that the fuel ran out.
unfoldable pub select_k : ℕ → ℕ → ℕ → ℕ → ℕ → Option (ℕ × ℕ)
select_k zero base budget k hist_size = none
select_k (suc fuel) base budget k hist_size =
    let longer = select_k fuel base budget (k + 1) (hist_size * base) in
    if leb hist_size (budget / base) then longer else some (k, hist_size)

-- The loop that turns the histogram into the starts of the buckets.
abbrev pub cumulate : ℕ → List ℕ → List ℕ
cumulate acc [] = []
cumulate acc (c ∷ counts) = acc ∷ cumulate (acc + c) counts
