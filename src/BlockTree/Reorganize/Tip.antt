-- ===== src/BlockTree/Reorganize/Tip.antt =====
-- `insert` where no block leaves the trunk: on its end, or on a branch that stays one.
use libcoin.Base.{
  ℕ, zero, suc, ◌+◌, ◌<◌, ◌≡◌, ◌∙◌, refl, ap, List, [], ◌∷◌, ◌++◌, none, some, get_elem?, length,
  take, arith, ok, inl, inr, true, false, ◌==◌, if◌then◌else◌, Bool-cases, ltb, lt→ltb,
  Option-cases,
}
use libcoin.Base.Int.{ℤ, pos}
use libcoin.Base.Map.{lookup, insert, lookup-insert}
use libcoin.BlockTree.Sparse.{BlockRef, height, find, element, forward}
use libcoin.BlockTree.Sparse.Walk.{IsLinked, IsLocated, here, height-lookup}
use libcoin.BlockTree.Sparse.Extend.{extend-IsLinked}
use libcoin.BlockTree.Reorganize.{
  BlockTree, insert_branch, insert_block, insert_after, insert_best, back, collect, demote,
  flip_all, promote_all, work,
}
use libcoin.BlockTree.Reorganize.Work.{works, accumulated_work-Descends}

pub take_all {ℓ} : {A : Type ℓ} (xs : List A) (n : ℕ) → length xs ≡ n → take n xs ≡ xs
take_all [] zero e = refl
take_all [] (suc n) e = refl
take_all (x ∷ xs) zero e = absurd (omega arith)
take_all (x ∷ xs) (suc n) e = ap (◌∷◌ x) (take_all xs n (omega arith))

back-get_elem? :
    (xs : List ℕ) (n : ℕ) {a : ℕ} → get_elem? xs n ≡ some a → suc n ≡ length xs → back xs ≡ ok a
unfolding back
back-get_elem? [] n e h = absurd (omega arith)
back-get_elem? (x ∷ []) zero e h = ground arith
back-get_elem? (x ∷ []) (suc n) e h = absurd (omega arith)
back-get_elem? (x ∷ y ∷ xs) zero e h = absurd (omega arith)
back-get_elem? (x ∷ y ∷ xs) (suc n) e h = back-get_elem? (y ∷ xs) n e (omega arith)

-- The tree with the block on the end of the trunk.
abbrev pub extended : (ℕ → ℤ) → BlockTree → BlockRef → ℕ → BlockTree
extended set_compact t ref acc = record t {
  sparse = record (t.sparse) {
    trunk = t.trunk ++ ref ∷ [];
    heights = insert ref.hash (pos (length t.trunk)) t.heights;
  };
  acc_work = t.acc_work ++ (acc + work set_compact ref) ∷ [];
}

module _ (set_compact : ℕ → ℤ) (t : BlockTree) (ref : BlockRef) (linked : IsLinked t.sparse) where
  -- In a linked tree, a block after a known one whose total is no more than the best is put on a branch,
  -- and nothing else changes.
  pub insert_block_branch :
      (h : ℤ) (acc best : ℕ) (l : IsLocated t.sparse ref.prev h)
      → lookup ref.prev t.heights ≡ some h
      → get_elem? t.acc_work l.root_height ≡ some acc
      → back t.acc_work ≡ ok best
      → ltb best (works set_compact l.path + acc + work set_compact ref) ≡ false
      → insert_block set_compact t ref
        ≡ ok (insert_branch t ref h, record { deleted = []; inserted = [] })
  unfolding insert_block insert_after
  insert_block_branch h acc best l at a b small =
      let same : lookup l.at.hash t.heights ≡ some h =
        ap (λ x. lookup x t.heights) l.hash_is ∙ at in
      rw
        (
          l.found,
          accumulated_work-Descends set_compact t l.root l.root_height acc a l.descends,
          b,
          height-lookup t.sparse l.at.hash h same,
          small,
        )
        refl

  module _ (e : BlockRef) (n acc : ℕ) (tip : get_elem? t.trunk n ≡ some e)
      (last : suc n ≡ length t.trunk) (on_tip : ref.prev ≡ e.hash)
      (works_kept : length t.acc_work ≡ length t.trunk)
      (work_there : get_elem? t.acc_work n ≡ some acc) where
    tip_height : height t.sparse e.hash ≡ ok (pos n)
    tip_height = height-lookup t.sparse e.hash (pos n) (linked.trunk_height n e tip)

    find_tip : find t.sparse ref.prev ≡ ok (some e)
    unfolding find element
    find_tip = ground (arith, linked.trunk_height n e tip)

    forward_tip : forward t.sparse e 1 ≡ ok none
    unfolding forward
    forward_tip = rw tip_height (ground arith)

    insert_best_tip :
        insert_best set_compact t ref e (acc + work set_compact ref)
        ≡ ok (extended set_compact t ref acc, record { deleted = []; inserted = ref.hash ∷ [] })
    unfolding insert_best collect demote promote_all flip_all
    insert_best_tip =
        rw (tip_height, forward_tip)
          (rw
            (
              tip_height,
              take_all t.trunk (suc n) (omega arith),
              take_all t.acc_work (suc n) (omega arith),
            )
            refl)

    extended-IsLinked :
        lookup ref.hash t.heights ≡ none → IsLinked (extended set_compact t ref acc).sparse
    extended-IsLinked fresh =
        extend-IsLinked t.sparse (extended set_compact t ref acc).sparse ref linked refl
          (λ x. lookup-insert x ref.hash (pos (length t.trunk)) t.heights) (not_on_branch fresh)
          (inl fresh)
          (λ i a at end.
            let same : i ≡ n = omega arith in
            let both : get_elem? t.trunk i ≡ some e = ap (λ j. get_elem? t.trunk j) same ∙ tip in
            ground arith)
      where
        not_on_branch :
            lookup ref.hash t.heights ≡ none
            → (x : ℕ) → lookup x t.branches ≡ (if x == ref.hash then none else lookup x t.branches)
        not_on_branch fresh x = elim (Option-cases (lookup x t.branches)) [
          | inl absent ↦ ground arith
          | inr (b, branch) ↦
              let (k, off) = linked.in_branch x b branch in
              elim (Bool-cases (x == ref.hash)) [
                | inl same ↦
                    let here_too : lookup x t.heights ≡ none =
                      ap (λ y. lookup y t.heights) (ground arith) ∙ fresh in
                    absurd (ground arith)
                | inr other ↦ rw other refl
              ]
        ]

    -- In a linked tree with a total of work for each block of the trunk, a new block with some work
    -- after the last one makes the trunk longer by itself, with its work on top of the total there;
    -- nothing is deleted, and the tree stays linked.
    pub insert_block_tip :
        lookup ref.hash t.heights ≡ none
        → 0 < work set_compact ref
        → (insert_block set_compact t ref
            ≡ ok
                (extended set_compact t ref acc, record { deleted = []; inserted = ref.hash ∷ [] }))
          × IsLinked (extended set_compact t ref acc).sparse
    unfolding insert_block insert_after
    insert_block_tip fresh some_work =
        let none_before : 0 + acc ≡ acc = omega arith in
        let more : ltb acc (acc + work set_compact ref) ≡ true = lt→ltb _ _ (omega arith) in
        (
          rw
              (
                find_tip,
                accumulated_work-Descends set_compact t e n acc work_there
                    (here (linked.trunk_height n e tip) tip),
                back-get_elem? t.acc_work n work_there (omega arith),
                tip_height,
                none_before,
                more,
              )
              insert_best_tip,
          extended-IsLinked fresh,
        )
