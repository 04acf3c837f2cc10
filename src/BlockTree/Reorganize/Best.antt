-- ===== src/BlockTree/Reorganize/Best.antt =====
-- `insert` as a whole: the trunk becomes the chain with the most work.
use mathlib.Core.List.{reverse}
use libcoin.Base.{
  ℕ, suc, ◌+◌, ◌<◌, ◌≡◌, ◌∙◌, refl, ap, sym, List, [], ◌∷◌, ◌++◌, none, some, get_elem?, length,
  take, drop, length-append, length-take, arith, inl, inr, ◌==◌, if◌then◌else◌, Bool-cases,
  Option-cases, ltb, ok,
}
use libcoin.Base.Int.{ℤ, pos}
use libcoin.Base.Map.{lookup, lookup-insert}
use libcoin.BlockTree.Sparse.{BlockRef, SparseTree, abs, height}
use libcoin.BlockTree.Sparse.Cut.{get_elem?-length, get_elem?-take}
use libcoin.BlockTree.Sparse.Extend.{extend-IsLinked}
use libcoin.BlockTree.Sparse.Walk.{IsLinked, IsLocated, height-lookup, Descends-root}
use libcoin.BlockTree.Reorganize.{
  BlockTree, Changes, insert_branch, insert_block, insert_after, insert_best, work,
  accumulated_work, back,
}
use libcoin.BlockTree.Reorganize.Work.{works, collect-Descends, accumulated_work-Descends}
use libcoin.BlockTree.Reorganize.Demote.{
  hashes_of, demote-drop, cut_at, cut_at-IsLinked, cut_branch, cut_fresh,
}
use libcoin.BlockTree.Reorganize.Totals.{
  totals, totals-append, take-totals, back-totals, get_elem?-totals, works-append, works-reverse,
}
use libcoin.BlockTree.Reorganize.Promote.{IsTree, Climbs-keeps}
use libcoin.BlockTree.Reorganize.Climb.{EndsWith, IsGrown, grow, Descends-Climbs, reverse-hashes_of}
use libcoin.BlockTree.Reorganize.Insert.{insert_branch-IsLinked}
use libcoin.BlockTree.Reorganize.Tip.{extended}

new_not_on_branch :
    (t : SparseTree) (ref : BlockRef)
    → IsLinked t
    → lookup ref.hash t.heights ≡ none
    → (x : ℕ) → lookup x t.branches ≡ (if x == ref.hash then none else lookup x t.branches)
new_not_on_branch t ref linked fresh x = elim (Option-cases (lookup x t.branches)) [
  | inl absent ↦ ground arith
  | inr (b, branch) ↦
      let (k, off) = linked.in_branch x b branch in
      elim (Bool-cases (x == ref.hash)) [
        | inl same ↦
            let here_too : lookup x t.heights ≡ none =
              ap (λ y. lookup y t.heights) (ground arith) ∙ fresh in
            absurd (ground arith)
        | inr other ↦ rw other refl
      ]
]

module _ (set_compact : ℕ → ℤ) where
  extended-IsTree :
      (t : BlockTree) (ref : BlockRef) (acc : ℕ)
      → IsTree set_compact t
      → lookup ref.hash t.heights ≡ none
      → EndsWith t.trunk ref.prev
      → acc ≡ works set_compact t.trunk
      → IsTree set_compact (extended set_compact t ref acc)
  extended-IsTree t ref acc tree fresh end total = record {
    linked =
        extend-IsLinked t.sparse (extended set_compact t ref acc).sparse ref tree.linked refl
          (λ x. lookup-insert x ref.hash (pos (length t.trunk)) t.heights)
          (new_not_on_branch t.sparse ref tree.linked fresh) (inl fresh) end;
    works_are =
        let start : acc ≡ 0 + works set_compact t.trunk = omega (arith, total) in
        ap (λ l. l ++ (acc + work set_compact ref) ∷ []) tree.works_are
        ∙ ap (λ n. totals set_compact 0 t.trunk ++ (n + work set_compact ref) ∷ []) start
        ∙ sym (totals-append set_compact 0 t.trunk ref);
    some_block = omega (arith, length-append t.trunk (ref ∷ []));
  }

  module _ (t : BlockTree) (tree : IsTree set_compact t) where
    -- The tree whose trunk ends at the height `n`.
    abbrev shortened : ℕ → BlockTree
    shortened n = record t {
      sparse = cut_at t.sparse tree.linked n;
      acc_work = take (suc n) t.acc_work;
    }

    length-shortened : (n : ℕ) → n < length t.trunk → suc n ≡ length (take (suc n) t.trunk)
    length-shortened n inside = omega (arith, length-take (suc n) t.trunk)

    shortened-IsTree : (n : ℕ) → n < length t.trunk → IsTree set_compact (shortened n)
    shortened-IsTree n inside = record {
      linked = cut_at-IsLinked t.sparse tree.linked n;
      works_are = ap (take (suc n)) tree.works_are ∙ take-totals set_compact (suc n) 0 t.trunk;
      some_block = omega (arith, length-shortened n inside);
    }

    shortened_ends :
        (n : ℕ) (root : BlockRef)
        → get_elem? t.trunk n ≡ some root
        → EndsWith (take (suc n) t.trunk) root.hash
    shortened_ends n root at i a there last =
        let size = length-shortened n (get_elem?-length t.trunk n at) in
        let same : n ≡ i = omega arith in
        let (old, _) = get_elem?-take (suc n) i t.trunk there in
        let both : get_elem? t.trunk i ≡ some root = ap (get_elem? t.trunk) (sym same) ∙ at in
        ground arith

    module _ (ref : BlockRef) (h : ℤ) (l : IsLocated t.sparse ref.prev h) where
      -- The chain of the new block: the trunk up to the fork, the branch, and the block.
      abbrev pub chain_of : List BlockRef
      chain_of = take (suc l.root_height) t.trunk ++ reverse l.path ++ ref ∷ []

      -- The total that `accumulatedWork` gives for the block before.
      abbrev pub total_before : ℕ
      total_before = works set_compact l.path + works set_compact (take (suc l.root_height) t.trunk)

      abbrev pub changes : Changes
      changes = record {
        deleted = hashes_of (drop (suc l.root_height) t.trunk);
        inserted = ref.hash ∷ hashes_of l.path;
      }

      works-chain_of : works set_compact chain_of ≡ total_before + work set_compact ref
      works-chain_of =
          let kept = take (suc l.root_height) t.trunk in
          omega (
            arith,
            works-append set_compact (kept ++ reverse l.path) (ref ∷ []),
            works-append set_compact kept (reverse l.path),
            works-reverse set_compact l.path,
          )

      module _ (before : lookup ref.prev t.heights ≡ some h)
          (fresh : lookup ref.hash t.heights ≡ none) where
        root_at : get_elem? t.trunk l.root_height ≡ some l.root
        root_at = (Descends-root t.sparse l.root l.root_height l.descends).1

        inside : l.root_height < length t.trunk
        inside = get_elem?-length t.trunk l.root_height root_at

        at_height : height t.sparse l.at.hash ≡ ok h
        at_height =
            height-lookup t.sparse l.at.hash h (ap (λ x. lookup x t.heights) l.hash_is ∙ before)

        root_height : height t.sparse l.root.hash ≡ ok (pos l.root_height)
        root_height =
            height-lookup t.sparse l.root.hash (pos l.root_height)
              (Descends-root t.sparse l.root l.root_height l.descends).0

        accumulated : accumulated_work set_compact t l.at ≡ ok total_before
        accumulated =
            accumulated_work-Descends set_compact t l.root l.root_height _
              (ap (λ ws. get_elem? ws l.root_height) tree.works_are
                ∙ get_elem?-totals set_compact l.root_height 0 t.trunk inside)
              l.descends
            ∙ ap ok (omega arith)

        -- The branch of the block, on the trunk that is cut.
        grown : IsGrown set_compact (shortened l.root_height) (reverse l.path) l.at.hash
        grown =
            grow set_compact (reverse l.path) (shortened l.root_height) l.root.hash l.root_height
              l.at.hash (shortened-IsTree l.root_height inside)
              (length-shortened l.root_height inside) (shortened_ends l.root_height l.root root_at)
              (Climbs-keeps t.sparse (shortened l.root_height).sparse (reverse l.path) l.root.hash
                l.root_height l.at.hash
                (λ z i there.
                  let (height_kept, branch_kept) =
                    cut_branch t.sparse tree.linked l.root_height z (l.root_height + i) there in
                  (height_kept ∙ sym there, branch_kept))
                (Descends-Climbs t.sparse l.root l.root_height l.descends))

        after : BlockTree
        unfolding grown
        after = extended set_compact grown.tree ref total_before

        insert_best_is :
            insert_best set_compact t ref l.at (total_before + work set_compact ref)
            ≡ ok (after, changes)
        unfolding insert_best after
        insert_best_is =
            rw
              (
                at_height,
                collect-Descends t.sparse l.root l.root_height (suc (abs h)) l.descends
                    (omega (arith, l.depth)),
                demote-drop t.sparse tree.linked (suc (length t.trunk)) l.root_height l.root
                    t.branches root_at (omega arith),
                root_height,
                reverse-hashes_of l.path,
                grown.result,
              )
              refl

        after_trunk : after.trunk ≡ chain_of
        unfolding after
        after_trunk = ap (λ bs. bs ++ ref ∷ []) grown.trunk_is

        after-IsTree : IsTree set_compact after
        unfolding after
        after-IsTree =
            extended-IsTree grown.tree ref total_before grown.good
              (grown.new ref.hash (cut_fresh t.sparse tree.linked l.root_height ref.hash fresh))
              (λ i a at last. sym l.hash_is ∙ grown.end i a at last)
              (sym (
                ap (works set_compact) grown.trunk_is
                ∙ works-append set_compact (take (suc l.root_height) t.trunk) (reverse l.path)
                ∙ omega (arith, works-reverse set_compact l.path)))

        best_is : back t.acc_work ≡ ok (works set_compact t.trunk)
        best_is =
            ap back tree.works_are
            ∙ back-totals set_compact 0 t.trunk tree.some_block
            ∙ ap ok (omega arith)

        -- In a tree whose totals are those of its trunk, `insert` of a new block after one of the tree
        -- succeeds, and the tree stays such a tree. The trunk is the old one, unless the chain of the
        -- new block has more work than it: then it is that chain, and the changes are the blocks above
        -- the fork and those of the branch with the new one.
        pub insert_block-IsTree :
            (u : BlockTree) × (c : Changes) × (insert_block set_compact t ref ≡ ok (u, c))
            × IsTree set_compact u
            × (u.trunk ≡ (
                if ltb (works set_compact t.trunk) (works set_compact chain_of)
                then chain_of
                else t.trunk))
            × (c ≡ (
                if ltb (works set_compact t.trunk) (works set_compact chain_of)
                then changes
                else record { deleted = []; inserted = [] }))
        unfolding insert_block insert_after insert_branch
        insert_block-IsTree =
            elim (Bool-cases
              (ltb (works set_compact t.trunk) (total_before + work set_compact ref))) [
                | inl more ↦ (
                  after,
                  changes,
                  rw (l.found, accumulated, best_is, at_height, more) insert_best_is,
                  after-IsTree,
                  rw (works-chain_of, more) after_trunk,
                  rw (works-chain_of, more) refl,
                )
                | inr less ↦ (
                  insert_branch t ref h,
                  record { deleted = []; inserted = [] },
                  rw (l.found, accumulated, best_is, at_height, less) refl,
                  record {
                    linked = insert_branch-IsLinked t ref h tree.linked fresh before;
                    works_are = tree.works_are;
                    some_block = tree.some_block;
                  },
                  rw (works-chain_of, less) refl,
                  rw (works-chain_of, less) refl,
                )
              ]
