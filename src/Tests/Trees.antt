-- ===== src/Tests/Trees.antt =====
-- A tree of blocks with one branch.
use libcoin.Base.{ℕ, zero, suc, ◌≡◌, refl, [], ◌∷◌, some, get_elem?, arith, ok}
use libcoin.Base.Int.{ℤ, pos, negsuc}
use libcoin.Base.Map.{empty, entry, lookup, insert}
use libcoin.BlockTree.Sparse.{BlockRef}
use libcoin.BlockTree.Sparse.Walk.{IsLinked, IsLocated, here, down}
use libcoin.BlockTree.Reorganize.{BlockTree, insert_branch}
use libcoin.BlockTree.Sparse.{find, element, branch_parent}
use libcoin.BlockTree.Reorganize.{insert_block, work, work_of}
use libcoin.BlockTree.Reorganize.Tip.{insert_block_tip, extended}
use libcoin.BlockTree.Reorganize.Insert.{insert_branch-IsLinked}
use libcoin.BlockTree.Reorganize.{Changes, assign_blocks}
use libcoin.BlockTree.Reorganize.Start.{assign_blocks-IsTree}
use libcoin.BlockTree.Reorganize.Totals.{totals}
use libcoin.BlockTree.Reorganize.Promote.{IsTree}
use libcoin.BlockTree.Reorganize.Best.{insert_block-IsTree}

abbrev block : ℕ → ℕ → BlockRef
block hash prev = record { version = 1; hash = hash; prev = prev; time = 0; bits = 0 }

abbrev genesis : BlockTree
genesis = record {
  sparse = record { trunk = block 1 0 ∷ []; branches = empty; heights = entry 1 (pos 0) empty };
  acc_work = 10 ∷ [];
  trimmed = 0;
}

genesis_trunk_height :
    (i : ℕ) (e : BlockRef)
    → get_elem? genesis.trunk i ≡ some e
    → lookup e.hash genesis.heights ≡ some (pos i)
unfolding lookup
genesis_trunk_height zero e at = cc
genesis_trunk_height (suc i) e at = absurd (ground arith)

genesis_on_trunk :
    (x n : ℕ)
    → lookup x genesis.heights ≡ some (pos n)
    → (e : BlockRef) × (get_elem? genesis.trunk n ≡ some e) × (e.hash ≡ x)
unfolding lookup
genesis_on_trunk x zero at = (block 1 0, refl, ground arith)
genesis_on_trunk x (suc n) at = absurd (ground arith)

genesis_chained :
    (i : ℕ) (a b : BlockRef)
    → get_elem? genesis.trunk i ≡ some a
    → get_elem? genesis.trunk (suc i) ≡ some b
    → b.prev ≡ a.hash
genesis_chained i a b at next = absurd (ground arith)

genesis-IsLinked : IsLinked genesis.sparse
unfolding lookup
genesis-IsLinked = record {
  trunk_height = genesis_trunk_height;
  on_trunk = genesis_on_trunk;
  on_branch = λ x k at. absurd (ground arith);
  in_branch = λ x e at. absurd (ground arith);
  chained = genesis_chained;
}

forked-IsLinked : IsLinked (insert_branch genesis (block 2 1) (pos 0)).sparse
unfolding lookup
forked-IsLinked = insert_branch-IsLinked genesis (block 2 1) (pos 0) genesis-IsLinked refl refl

abbrev forked : BlockTree
forked = insert_branch genesis (block 2 1) (pos 0)

-- A reading of the compact form that gives each block some work.
abbrev compact : ℕ → ℤ
compact b = pos (suc b)

-- A trunk of two blocks, and a branch of one.
abbrev pair : BlockTree
pair = extended compact genesis (block 2 1) 10

pair-IsLinked : IsLinked pair.sparse
unfolding lookup work work_of
pair-IsLinked =
    (insert_block_tip compact genesis (block 2 1) genesis-IsLinked (block 1 0) 0 10 refl refl refl
      refl refl refl (omega arith)).1

abbrev three : BlockTree
three = record (insert_branch pair (block 3 1) (pos 0)) { acc_work = totals compact 0 pair.trunk }

three-IsTree : IsTree compact three
unfolding lookup insert insert_branch
three-IsTree = record {
  linked = insert_branch-IsLinked pair (block 3 1) (pos 0) pair-IsLinked refl refl;
  works_are = refl;
  some_block = omega arith;
}

three_located : IsLocated three.sparse 3 (negsuc 0)
unfolding lookup insert insert_branch find element branch_parent
three_located = record {
  at = block 3 1;
  path = block 3 1 ∷ [];
  root = block 1 0;
  root_height = 0;
  stored = refl;
  found = refl;
  hash_is = refl;
  descends = down (block 3 1) refl refl refl refl (here refl refl);
  depth = refl;
}

-- The new block makes the branch longer than the trunk.
insert_block-IsTree_example :
    (u : BlockTree) × (c : Changes) × (insert_block compact three (block 4 3) ≡ ok (u, c))
    × IsTree compact u
    × (u.trunk ≡ block 1 0 ∷ block 3 1 ∷ block 4 3 ∷ [])
    × (c ≡ record { deleted = 2 ∷ []; inserted = 4 ∷ 3 ∷ [] })
unfolding lookup insert insert_branch three_located work work_of
insert_block-IsTree_example =
    insert_block-IsTree compact three three-IsTree (block 4 3) (negsuc 0) three_located refl refl

abbrev nothing : BlockTree
nothing = record {
  sparse = record { trunk = []; branches = empty; heights = empty };
  acc_work = [];
  trimmed = 0;
}

assign_blocks-IsTree_example :
    (u : BlockTree) × (assign_blocks compact nothing (block 1 0 ∷ block 2 1 ∷ []) ≡ ok u)
    × (u.trunk ≡ block 1 0 ∷ block 2 1 ∷ [])
    × IsTree compact u
assign_blocks-IsTree_example =
    assign_blocks-IsTree compact nothing (block 1 0) (block 2 1 ∷ []) refl refl
      (((λ e. cc), tt), (tt, tt)) (refl, tt)
