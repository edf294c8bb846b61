-- ===== src/Kmer/Window.antt =====
-- The sliding window of src/init.cpp over the codes of the last k symbols, and its key in base B.
use suffix_rank.Base.{
  ℕ, ◌+◌, ◌-◌, ◌*◌, ◌%◌, List, Option, none, some, get_elem?, store, replicate, ltb, if◌then◌else◌,
  ◌>>=◌,
}
use suffix_rank.Base.Int.{ℤ, sub_ℕ}

-- `KWin`
pub record KWin : Type 0 where
  pub ring : List ℕ
  pub key : ℕ
  pub topw : ℕ
  pub base : ℕ
  pub k : ℕ
  pub p : ℕ

-- kwin_reset, on a ring of k entries.
unfoldable pub kwin_reset : KWin → KWin
kwin_reset w = record w { ring = replicate w.k 0; key = 0; p = 0 }

-- `a - b` where b is not above a; anything else would be a fault of the model.
abbrev pub minus : ℕ → ℕ → Option ℕ
minus a b = if ltb a b then none else some (a - b)

-- The new window, with the position that it completes and the key of that position.
unfoldable pub kwin_feed : KWin → ℕ → Option (KWin × ℤ × ℕ)
kwin_feed w e = do
  let idx = w.p % w.k
  old ← get_elem? w.ring idx
  ring ← store w.ring idx e
  rest ← minus w.key (old * w.topw)
  let key = rest * w.base + e
  some (record w { ring = ring; key = key; p = w.p + 1 }, sub_ℕ w.p (w.k - 1), key)
