-- ===== src/BlockTree/Reorganize/Start.antt =====
-- `assign` of `BlockTree`: the first totals.
use mathlib.Core.List.{append_assoc, append-nil}
use libcoin.Base.{
  ℕ, suc, ◌+◌, ◌≡◌, ◌∙◌, refl, ap, sym, List, [], ◌∷◌, ◌++◌, some, length, length-append, arith, ok,
}
use libcoin.Base.Int.{ℤ}
use libcoin.Base.Map.{empty}
use libcoin.BlockTree.Sparse.{BlockRef}
use libcoin.BlockTree.Sparse.Assign.{IsChain, AreDistinct, assign-IsLinked}
use libcoin.BlockTree.Reorganize.{BlockTree, push_works, assign_blocks, work}
use libcoin.BlockTree.Reorganize.Work.{works}
use libcoin.BlockTree.Reorganize.Totals.{totals, totals-append, get_elem?-totals}
use libcoin.BlockTree.Reorganize.Promote.{IsTree}
use libcoin.BlockTree.Reorganize.Tip.{take_all}

module _ (set_compact : ℕ → ℤ) where
  -- The loop makes the running totals.
  push_works-totals :
      (es before : List BlockRef) (h : ℕ)
      → suc h ≡ length before
      → push_works set_compact h (totals set_compact 0 before) es
        ≡ ok (totals set_compact 0 (before ++ es))
  unfolding push_works
  push_works-totals [] before h size =
      ap (λ l. ok (totals set_compact 0 l)) (sym (append-nil before))
  push_works-totals (e ∷ es) before h size =
      let there =
        get_elem?-totals set_compact h 0 before (omega arith)
        ∙ ap (λ l. some (0 + works set_compact l)) (take_all before (suc h) (sym size)) in
      rw (there, ← totals-append set_compact 0 before e)
        (push_works-totals es (before ++ e ∷ []) (suc h)
            (omega (arith, length-append before (e ∷ [])))
          ∙ ap (λ l. ok (totals set_compact 0 l)) (append_assoc before (e ∷ []) es))

  -- `BlockTree::assign` of a chain of blocks with different hashes to an empty tree succeeds: the
  -- trunk is that chain, the tree is linked, and the totals are the running totals of the work.
  pub assign_blocks-IsTree :
      (t : BlockTree) (g : BlockRef) (es : List BlockRef)
      → t.heights ≡ empty
      → t.acc_work ≡ []
      → AreDistinct (g ∷ es)
      → IsChain g es
      → (u : BlockTree) × (assign_blocks set_compact t (g ∷ es) ≡ ok u)
        × (u.trunk ≡ g ∷ es)
        × IsTree set_compact u
  unfolding assign_blocks
  assign_blocks-IsTree t g es no_heights no_work distinct chain =
      let (s, result, trunk_is, linked) = assign-IsLinked t.sparse g es no_heights distinct chain in
      let first : work set_compact g ≡ 0 + work set_compact g = omega arith in
      let acc =
        ap (λ w. push_works set_compact 0 (w ∷ []) es) first
        ∙ push_works-totals es (g ∷ []) 0 refl in
      (
        record t { sparse = s; acc_work = totals set_compact 0 (g ∷ es) },
        rw (result, no_work, acc) refl,
        trunk_is,
        record {
          linked = linked;
          works_are = ap (totals set_compact 0) (sym trunk_is);
          some_block = omega (arith, ap length trunk_is);
        },
      )
