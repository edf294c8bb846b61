-- ===== src/Base/Progress.antt =====
-- A loop over chunks whose status is `busy` as soon as one of the chunks has work to do, and else stays
-- what it was.
use mathlib.Core.Logic.{◌≢◌, ◌↔◌}
use mathlib.Core.Path.{◌≡◌, refl, sym, ◌∙◌}
use mathlib.Core.List.{List, [], ◌∷◌}
use suffix_rank.Base.Lists.{All}

abbrev pub after_one {ℓ κ} : {S : Type ℓ} {Y : Type κ} → S → S → List Y → S
after_one busy more [] = more
after_one busy more (y ∷ ys) = busy

module _ {ℓ κ κ'} {S : Type ℓ} {X : Type κ} {Y : Type κ'} (busy : S) (work : X → List Y) where
  abbrev pub after_all : S → List X → S
  after_all more [] = more
  after_all more (x ∷ xs) = after_all (after_one busy more (work x)) xs

  after_all-busy : (xs : List X) → after_all busy xs ≡ busy
  after_all-busy [] = refl
  after_all-busy (x ∷ xs) = by_work (after_all-busy xs) (work x)
    where
      by_work :
          after_all busy xs ≡ busy → (ys : List Y) → after_all (after_one busy busy ys) xs ≡ busy
      by_work rest [] = rest
      by_work rest (y ∷ ys) = rest

  abbrev AreIdle : List X → Type κ'
  AreIdle xs = All (λ x. work x ≡ []) xs

  module _ (idle : S) (distinct : busy ≢ idle) where
    after_all-done : (xs : List X) → AreIdle xs → after_all idle xs ≡ idle
    after_all-done [] h = refl
    after_all-done (x ∷ xs) h = rw h.0 (after_all-done xs h.1)

    done-of_after_all : (xs : List X) → after_all idle xs ≡ idle → AreIdle xs
    done-of_after_all [] h = tt
    done-of_after_all (x ∷ xs) h = by_work (done-of_after_all xs) (work x) refl h
      where
        by_work :
            (after_all idle xs ≡ idle → AreIdle xs)
            → (ys : List Y) → work x ≡ ys
            → after_all (after_one busy idle ys) xs ≡ idle
            → (work x ≡ []) × AreIdle xs
        by_work rest [] e h = (e, rest h)
        by_work rest (y ∷ ys) e h = absurd (distinct (sym (after_all-busy xs) ∙ h))

    -- The status stays `idle` exactly if there was nothing to do.
    pub after_all-idle : (xs : List X) → (after_all idle xs ≡ idle) ↔ All (λ x. work x ≡ []) xs
    after_all-idle xs = (done-of_after_all xs, after_all-done xs)
