-- ===== src/BlockTree/Reorganize/Insert.antt =====
-- `insert` keeps the tree linked.
use libcoin.Base.{ℕ, suc, ◌≡◌, refl, ap, none, some, arith, inl, inr, ◌==◌, Bool-cases}
use libcoin.Base.Int.{ℤ, pos, negsuc}
use libcoin.Base.Map.{lookup, insert, lookup-insert}
use libcoin.BlockTree.Sparse.{BlockRef, SparseTree, abs}
use libcoin.BlockTree.Sparse.Walk.{IsLinked, IsBelow}
use libcoin.BlockTree.Reorganize.{BlockTree, insert_branch}

-- What was below a block stays so under a change of other heights.
IsBelow-insert :
    (t u : SparseTree) (e : BlockRef) (k y : ℕ) (h : ℤ)
    → u.heights ≡ insert y h t.heights
    → lookup y t.heights ≡ none
    → IsBelow t e k
    → IsBelow u e k
IsBelow-insert t u e k y h same fresh b =
    ground (arith, ap (lookup e.prev) same, lookup-insert e.prev y h t.heights)

-- The block that is put on a branch is above the one before it.
IsBelow-insert_branch :
    (t u : SparseTree) (ref : BlockRef) (h : ℤ)
    → u.heights ≡ insert ref.hash (negsuc (abs h)) t.heights
    → lookup ref.hash t.heights ≡ none
    → lookup ref.prev t.heights ≡ some h
    → IsBelow u ref (abs h)
IsBelow-insert_branch t u ref (pos n) same fresh before =
    ground (arith, ap (lookup ref.prev) same, lookup-insert ref.prev ref.hash (negsuc n) t.heights)
IsBelow-insert_branch t u ref (negsuc n) same fresh before = inr (
  n,
  refl,
  ground (
    arith,
    ap (lookup ref.prev) same,
    lookup-insert ref.prev ref.hash (negsuc (suc n)) t.heights,
  ),
)

module _ (t : BlockTree) (ref : BlockRef) (h : ℤ) (linked : IsLinked t.sparse)
    (fresh : lookup ref.hash t.heights ≡ none) (before : lookup ref.prev t.heights ≡ some h) where
  abbrev after : SparseTree
  after = (insert_branch t ref h).sparse

  insert_branch_on_branch :
      (x k : ℕ)
      → lookup x after.heights ≡ some (negsuc k)
      → (e : BlockRef) × (lookup x after.branches ≡ some e) × (e.hash ≡ x) × IsBelow after e k
  unfolding insert_branch
  insert_branch_on_branch x k at = elim (Bool-cases (x == ref.hash)) [
    | inl same ↦
        let deep : abs h ≡ k =
          ground (arith, lookup-insert x ref.hash (negsuc (abs h)) t.heights) in
        (
          ref,
          ground (arith, lookup-insert x ref.hash ref t.branches),
          ground arith,
          rw (← deep) (IsBelow-insert_branch t.sparse after ref h refl fresh before),
        )
    | inr other ↦
        let (e, branch, is, below) =
          linked.on_branch x k
            (ground (arith, lookup-insert x ref.hash (negsuc (abs h)) t.heights)) in
        (
          e,
          ground (arith, lookup-insert x ref.hash ref t.branches),
          is,
          IsBelow-insert t.sparse after e k ref.hash (negsuc (abs h)) refl fresh below,
        )
  ]

  insert_branch_in_branch :
      (x : ℕ) (e : BlockRef)
      → lookup x after.branches ≡ some e
      → (k : ℕ) × (lookup x after.heights ≡ some (negsuc k))
  unfolding insert_branch
  insert_branch_in_branch x e at = elim (Bool-cases (x == ref.hash)) [
    | inl same ↦ (abs h, ground (arith, lookup-insert x ref.hash (negsuc (abs h)) t.heights))
    | inr other ↦
        let (k, old) =
          linked.in_branch x e (ground (arith, lookup-insert x ref.hash ref t.branches)) in
        (k, ground (arith, lookup-insert x ref.hash (negsuc (abs h)) t.heights))
  ]

  -- In a linked tree, a block that is new, after one that has a height, goes on a branch one step
  -- further than it, and the tree stays linked.
  pub insert_branch-IsLinked : IsLinked (insert_branch t ref h).sparse
  unfolding insert_branch
  insert_branch-IsLinked = record {
    trunk_height = λ i e at. ground (
      arith,
      linked.trunk_height i e at,
      lookup-insert e.hash ref.hash (negsuc (abs h)) t.heights,
    );
    on_trunk = λ x n at.
        linked.on_trunk x n (ground (arith, lookup-insert x ref.hash (negsuc (abs h)) t.heights));
    on_branch = insert_branch_on_branch;
    in_branch = insert_branch_in_branch;
    chained = linked.chained;
  }
