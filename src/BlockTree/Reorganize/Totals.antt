-- ===== src/BlockTree/Reorganize/Totals.antt =====
-- The running totals of the work of a list of blocks.
use libcoin.Base.{
  ℕ, zero, suc, ◌+◌, ◌<◌, ◌≡◌, ◌∙◌, refl, ap, List, [], ◌∷◌, ◌++◌, some, get_elem?, length, take,
  arith, ok,
}
use mathlib.Core.List.{reverse, reverse-cons}
use libcoin.Base.Int.{ℤ}
use libcoin.BlockTree.Sparse.{BlockRef}
use libcoin.BlockTree.Reorganize.{back, work}
use libcoin.BlockTree.Reorganize.Work.{works}

module _ (set_compact : ℕ → ℤ) where
  abbrev pub totals : ℕ → List BlockRef → List ℕ
  totals s [] = []
  totals s (e ∷ es) = (s + work set_compact e) ∷ totals (s + work set_compact e) es

  pub length-totals : (s : ℕ) (es : List BlockRef) → length (totals s es) ≡ length es
  length-totals s [] = refl
  length-totals s (e ∷ es) = ap suc (length-totals (s + work set_compact e) es)

  pub totals-append :
      (s : ℕ) (es : List BlockRef) (e : BlockRef)
      → totals s (es ++ e ∷ [])
        ≡ totals s es ++ (s + works set_compact es + work set_compact e) ∷ []
  totals-append s [] e = ap (λ n. n ∷ []) (omega arith)
  totals-append s (b ∷ es) e = ap (◌∷◌ (s + work set_compact b)) (
      totals-append (s + work set_compact b) es e
      ∙ ap (λ n. totals (s + work set_compact b) es ++ n ∷ []) (omega arith))

  pub take-totals : (n s : ℕ) (es : List BlockRef) → take n (totals s es) ≡ totals s (take n es)
  take-totals zero s es = refl
  take-totals (suc n) s [] = refl
  take-totals (suc n) s (e ∷ es) =
      ap (◌∷◌ (s + work set_compact e)) (take-totals n (s + work set_compact e) es)

  pub back-totals :
      (s : ℕ) (es : List BlockRef)
      → 0 < length es
      → back (totals s es) ≡ ok (s + works set_compact es)
  unfolding back
  back-totals s [] h = absurd (omega arith)
  back-totals s (e ∷ []) h = ap ok (omega arith)
  back-totals s (e ∷ b ∷ es) h =
      back-totals (s + work set_compact e) (b ∷ es) (omega arith) ∙ ap ok (omega arith)

  pub get_elem?-totals :
      (i s : ℕ) (es : List BlockRef)
      → i < length es
      → get_elem? (totals s es) i ≡ some (s + works set_compact (take (suc i) es))
  get_elem?-totals i s [] h = absurd (omega arith)
  get_elem?-totals zero s (e ∷ es) h = ap some (omega arith)
  get_elem?-totals (suc i) s (e ∷ es) h =
      get_elem?-totals i (s + work set_compact e) es (omega arith) ∙ ap some (omega arith)

  pub works-append :
      (es bs : List BlockRef)
      → works set_compact (es ++ bs) ≡ works set_compact es + works set_compact bs
  works-append [] bs = omega arith
  works-append (e ∷ es) bs = omega (arith, works-append es bs)

  pub works-reverse : (es : List BlockRef) → works set_compact (reverse es) ≡ works set_compact es
  works-reverse [] = refl
  works-reverse (e ∷ es) =
      ap (works set_compact) (reverse-cons e es)
      ∙ omega (arith, works-append (reverse es) (e ∷ []), works-reverse es)
