-- ===== src/Kmer/Feed.antt =====
-- The loops of src/init.cpp that feed the window, for any body.
use suffix_rank.Base.{
  ℕ, zero, suc, ◌+◌, ◌-◌, ◌^◌, ◌<◌, ◌≡◌, refl, ap, sym, ◌∙◌, List, [], ◌∷◌, ◌++◌, map, Option, some,
  arith, length, replicate, leb, if◌then◌else◌, Gives, gives, Gives-bind, Bool-cases, inl, inr,
  append_assoc, append-nil, get_elem?-eq-get_or, length-replicate, length-map,
}
use native.Mathlib.Nat.{zero-mod}
use suffix_rank.Base.Int.{sub_ℕ}
use suffix_rank.Kmer.Window.{KWin, kwin_reset, kwin_feed}
use suffix_rank.Kmer.Roll.{number, number-lt, IsWindow, fed, kwin_feed_step}
use suffix_rank.Kmer.Keys.{emitted, keys_of, emitted-eq-keys_of}
use suffix_rank.Kmer.Passes.{on_emit, feed_bytes, feed_zeros, feed_all}
use suffix_rank.Kmer.Digits.{
  shifts, emitted-append, AreDigits, snoc-AreDigits, zeros-AreDigits, number-zeros, code_at,
  AreCoded,
}

module _ (S : Type 0) (on_byte : ℕ → S → Option S) (on_key : ℕ → S → Option S)
    (Inv : List ℕ → List ℕ → S → Type 0) (base k : ℕ)
    (keep_byte : (b : ℕ) (bs ks : List ℕ) (s : S)
      → Inv bs ks s
      → Gives (Inv (bs ++ b ∷ []) ks) (on_byte b s))
    (keep_key : (key : ℕ) (bs ks : List ℕ) (s : S)
      → key < base ^ k
      → Inv bs ks s
      → Gives (Inv bs (ks ++ key ∷ [])) (on_key key s)) where
  -- The window between two codes.
  record IsFed (w : KWin) (last : List ℕ) (p : ℕ) : Type 0 where
    window : IsWindow w last
    digits : AreDigits base last
    same_base : w.base ≡ base
    same_k : w.k ≡ k
    at_index : w.p ≡ p

  abbrev now_emitted : List ℕ → ℕ → ℕ → List ℕ
  now_emitted later e p = if leb (k - 1) p then number base (later ++ e ∷ []) ∷ [] else []

  -- One code.
  code_step :
      (w : KWin) (c : ℕ) (later : List ℕ) (e p : ℕ) (bs ks : List ℕ) (s : S)
      → IsFed w (c ∷ later) p
      → e < base
      → Inv bs ks s
      → (w' : KWin) × (kwin_feed w e ≡ some (w', sub_ℕ p (k - 1), number base (later ++ e ∷ [])))
        × IsFed w' (later ++ e ∷ []) (p + 1)
        × Gives
            (Inv bs (ks ++ now_emitted later e p))
            (on_emit S on_byte on_key (sub_ℕ p (k - 1)) (number base (later ++ e ∷ [])) s)
  code_step w c later e p bs ks s f lt inv =
      let (ring, feeds, win) = kwin_feed_step w c later e f.window in
      let digits = snoc-AreDigits base later e f.digits.1 lt in
      let long : length (later ++ e ∷ []) ≡ k = omega (arith, win.number_of, f.same_k) in
      let small : number base (later ++ e ∷ []) < base ^ k =
        rw long at (number-lt base (later ++ e ∷ []) digits) in
      let next = fed w ring e later in
      let index : sub_ℕ w.p (w.k - 1) ≡ sub_ℕ p (k - 1) =
        ap (λ n. sub_ℕ n (w.k - 1)) f.at_index ∙ ap (λ n. sub_ℕ p (n - 1)) f.same_k in
      let key : number w.base (later ++ e ∷ []) ≡ number base (later ++ e ∷ []) =
        ap (λ n. number n (later ++ e ∷ [])) f.same_base in
      (
        next,
        feeds
            ∙ ap (λ i. some (next, i, number w.base (later ++ e ∷ []))) index
            ∙ ap (λ n. some (next, sub_ℕ p (k - 1), n)) key,
        record {
          window = win;
          digits = digits;
          same_base = f.same_base;
          same_k = f.same_k;
          at_index = omega (arith, f.at_index);
        },
        elim (Bool-cases (leb (k - 1) p)) [
          | inl done ↦ rw done (keep_key _ bs ks s small inv)
          | inr wait ↦ rw (wait, append-nil ks) (gives inv)
        ],
      )

  abbrev Ended : List ℕ → ℕ → List ℕ → List ℕ → KWin × S → Type 0
  Ended last p bs ks (w, s) = IsFed w last p × Inv bs ks s

  join_emitted :
      (later : List ℕ) (e p : ℕ) (ks codes : List ℕ) (c : ℕ)
      → (ks ++ now_emitted later e p) ++ emitted base k (later ++ e ∷ []) (p + 1) codes
        ≡ ks ++ emitted base k (c ∷ later) p (e ∷ codes)
  join_emitted later e p ks codes c =
      append_assoc ks (now_emitted later e p) (emitted base k (later ++ e ∷ []) (p + 1) codes)
      ∙ elim (Bool-cases (leb (k - 1) p)) [ inl done ↦ rw done refl | inr wait ↦ rw wait refl ]

  bytes_lem :
      (code_of_byte bytes : List ℕ) (w : KWin) (last : List ℕ) (p : ℕ) (bs ks : List ℕ) (s : S)
      → IsFed w last p
      → AreCoded base code_of_byte bytes
      → Inv bs ks s
      → Gives
          (Ended
            (shifts last (map (code_at code_of_byte) bytes))
            (p + length bytes)
            (bs ++ bytes)
            (ks ++ emitted base k last p (map (code_at code_of_byte) bytes)))
          (feed_bytes S on_byte on_key code_of_byte bytes w s)
  unfolding feed_bytes
  bytes_lem code_of_byte [] w last p bs ks s f h inv =
      let e : p + 0 ≡ p = omega arith in rw (e, append-nil bs, append-nil ks) (gives (f, inv))
  bytes_lem code_of_byte (b ∷ bytes) w [] p bs ks s f h inv =
      absurd (omega (arith, f.window.number_of, f.window.some_codes))
  bytes_lem code_of_byte (b ∷ bytes) w (c ∷ later) p bs ks s f h inv =
      let e = code_at code_of_byte b in
      let up : p + 1 + length bytes ≡ p + suc (length bytes) = omega arith in
      Gives-bind (keep_byte b bs ks s inv) (λ s' inv'.
        let (w', feeds, f', emits) = code_step w c later e p (bs ++ b ∷ []) ks s' f h.0.1 inv' in
        rw (get_elem?-eq-get_or code_of_byte b 0 h.0.0, feeds)
          (Gives-bind emits (λ s'' inv''.
            rw
              (
                append_assoc bs (b ∷ []) bytes,
                up,
                join_emitted later e p ks (map (code_at code_of_byte) bytes) c,
              )
              at
              (bytes_lem code_of_byte bytes w' (later ++ e ∷ []) (p + 1) (bs ++ b ∷ [])
                (ks ++ now_emitted later e p) s'' f' h.1 inv''))))

  zeros_lem :
      (n : ℕ) (w : KWin) (last : List ℕ) (p : ℕ) (bs ks : List ℕ) (s : S)
      → 0 < base
      → IsFed w last p
      → Inv bs ks s
      → Gives
          (λ (r : KWin × S). Inv bs (ks ++ emitted base k last p (replicate n 0)) r.1)
          (feed_zeros S on_byte on_key n w s)
  unfolding feed_zeros
  zeros_lem zero w last p bs ks s b f inv = rw (append-nil ks) (gives inv)
  zeros_lem (suc n) w [] p bs ks s b f inv =
      absurd (omega (arith, f.window.number_of, f.window.some_codes))
  zeros_lem (suc n) w (c ∷ later) p bs ks s b f inv =
      let (w', feeds, f', emits) = code_step w c later 0 p bs ks s f b inv in
      rw feeds (
        Gives-bind emits (λ s' inv'.
          rw (join_emitted later 0 p ks (replicate n 0) c) at (
            zeros_lem n w' (later ++ 0 ∷ []) (p + 1) bs (ks ++ now_emitted later 0 p) s' b f'
              inv')))

  reset_IsFed :
      (w : KWin)
      → w.base ≡ base
      → w.k ≡ k
      → w.topw ≡ base ^ (k - 1)
      → 0 < k
      → 0 < base
      → IsFed (kwin_reset w) (replicate k 0) 0
  unfolding kwin_reset
  reset_IsFed w eb ek top pos b = record {
    window = record {
      newer = [];
      older = replicate k 0;
      ring_parts = ap (λ (n : ℕ). replicate n 0) ek;
      last_parts = sym (append-nil {A = ℕ} (replicate k 0));
      turn = sym (zero-mod w.k);
      number_of = length-replicate k 0 ∙ sym ek;
      some_codes = omega arith;
      key_of = sym (number-zeros w.base k);
      top_of = rw (eb, ek) top;
    };
    digits = zeros-AreDigits base k b;
    same_base = eb;
    same_k = ek;
    at_index = refl;
  }

  -- A whole pass hands over the keys of the positions, in order.
  pub feed_all_lem :
      (code_of_byte bytes : List ℕ) (w : KWin) (s : S)
      → w.base ≡ base
      → w.k ≡ k
      → w.topw ≡ base ^ (k - 1)
      → 0 < k
      → 0 < base
      → AreCoded base code_of_byte bytes
      → Inv [] [] s
      → Gives
          (Inv bytes (keys_of base k (map (code_at code_of_byte) bytes)))
          (feed_all S on_byte on_key code_of_byte bytes w s)
  unfolding feed_all
  feed_all_lem code_of_byte bytes w s eb ek top pos b coded inv =
      let codes = map (code_at code_of_byte) bytes in
      let start : List ℕ = replicate k 0 in
      let long : 0 + length bytes ≡ 0 + length codes =
        omega (arith, length-map (code_at code_of_byte) bytes) in
      Gives-bind
        (bytes_lem code_of_byte bytes (kwin_reset w) start 0 [] [] s (reset_IsFed w eb ek top pos b)
          coded inv)
        (λ (w', s') (f, inv'). rw ek (
          Gives-bind
            (zeros_lem (k - 1) w' (shifts start codes) (0 + length codes) bytes
              (emitted base k start 0 codes) s' b (rw long at f) inv')
            (λ (w'', s'') inv''. gives (
              rw
                (
                  ← emitted-append base k codes (replicate (k - 1) 0) start 0,
                  emitted-eq-keys_of base k codes pos,
                )
                at inv''))))
