-- ===== src/Merkle/Branch.antt =====
-- A transaction's branch leads to the root; and two lists of transactions that share a root.
use Prim.Native.Nat.{min}
use mathlib.Core.List.{append_assoc}
use libcoin.Base.{
  ℕ, zero, suc, ◌+◌, ◌-◌, ◌/◌, ◌%◌, ◌<◌, ◌≤◌, ◌≡◌, refl, List, [], ◌∷◌, ◌++◌, arith, length, get_or,
  ap, ◌∙◌, sym, length-append, inl, inr, ◌⊎◌,
}
use libcoin.Base.Int.{pos}
use libcoin.Merkle.{
  Tree, flip_low, low_bit, shift_right, back_or_zero, full_tree, build_merkle_tree, branch_levels,
  cached_tree, get_merkle_branch, climb, check_merkle_branch,
}
use libcoin.Merkle.Levels.{up, length-up, get_or-up, Root, top, climbs}
use libcoin.Merkle.Build.{
  many, levels, get_or-append, back-levels, full_tree-levels, build_merkle_tree-Root,
}

get_or-left : (l more : List ℕ) (i : ℕ) → i < length l → get_or (l ++ more) i 0 ≡ get_or l i 0
get_or-left [] more i h = elim h [ ]
get_or-left (x ∷ l) more zero h = refl
get_or-left (x ∷ l) more (suc i) h = get_or-left l more i (omega arith)

module _ (hash : ℕ → ℕ → ℕ) where
  get_or-level :
      (base level more : List ℕ) (j i : ℕ)
      → j ≡ length base
      → i < length level
      → get_or (base ++ (level ++ more)) (j + i) 0 ≡ get_or level i 0
  get_or-level base level more j i e h =
      get_or-append base (level ++ more) (j + i) i (omega arith) ∙ get_or-left level more i h

  climb-branch_levels :
      (fuel : ℕ) (base level : List ℕ) (j size index : ℕ)
      → j ≡ length base
      → size ≡ length level
      → index < length level
      → length level ≤ suc fuel
      → climb hash
          (get_or level index 0)
          (branch_levels hash fuel j size index (base ++ levels hash fuel level))
          (pos index)
        ≡ back_or_zero (levels hash fuel level)
  unfolding climb branch_levels back_or_zero low_bit shift_right
  climb-branch_levels fuel base [] j size index e f h n = elim h [ ]
  climb-branch_levels zero base (x ∷ []) j size zero e f h n = refl
  climb-branch_levels (suc fuel) base (x ∷ []) j size zero e f h n = rw f refl
  climb-branch_levels zero base (x ∷ []) j size (suc i) e f h n = absurd (omega arith)
  climb-branch_levels (suc fuel) base (x ∷ []) j size (suc i) e f h n = absurd (omega arith)
  climb-branch_levels zero base (x ∷ y ∷ r) j size index e f h n = absurd (omega arith)
  climb-branch_levels (suc fuel) base (x ∷ y ∷ r) j size index e f h n =
      let level = x ∷ y ∷ r in
      let above = levels hash fuel (up hash level) in
      rw
        (
          f,
          many y r,
          get_or-level base level above j (min (flip_low index) (length level - 1)) e (omega arith),
          ← get_or-up hash level index h,
          back-levels hash level fuel (hash x y) (up hash r),
          ← append_assoc base level above,
        )
        (climb-branch_levels fuel (base ++ level) (up hash level) (j + length level)
          ((length level + 1) / 2) (index / 2) (omega (arith, length-append base level))
          (sym (length-up hash level)) (omega (arith, length-up hash level))
          (omega (arith, length-up hash level)))

  -- The cache is empty, or holds the tree of the transactions.
  abbrev pub IsCurrent : Tree → Type 0
  IsCurrent b = (b.merkle_tree ≡ []) ⊎ (b.merkle_tree ≡ full_tree hash b.transactions)

  cached_tree-full_tree :
      (tree leaves : List ℕ)
      → (tree ≡ []) ⊎ (tree ≡ full_tree hash leaves)
      → cached_tree hash tree leaves ≡ full_tree hash leaves
  unfolding cached_tree
  cached_tree-full_tree [] leaves h = refl
  cached_tree-full_tree (x ∷ r) leaves (inl e) = cc
  cached_tree-full_tree (x ∷ r) leaves (inr e) = e

  -- `checkMerkleBranch` of a transaction's hash with the branch that `getMerkleBranch` gives for its
  -- index is the root that `buildMerkleTree` computes, if the cache is current.
  pub check_merkle_branch-get_merkle_branch :
      (b : Tree) (index : ℕ)
      → IsCurrent b
      → index < length b.transactions
      → check_merkle_branch hash
          (get_or b.transactions index 0)
          (get_merkle_branch hash b index)
          (pos index)
        ≡ (build_merkle_tree hash b).1
  unfolding check_merkle_branch get_merkle_branch build_merkle_tree
  check_merkle_branch-get_merkle_branch b index c h =
      rw
        (cached_tree-full_tree b.merkle_tree b.transactions c, full_tree-levels hash b.transactions)
        (climb-branch_levels (length b.transactions) [] b.transactions 0 (length b.transactions)
          index refl refl h (omega arith))

  Root-unique : {l : List ℕ} {h k : ℕ} → Root hash l h → Root hash l k → h ≡ k
  Root-unique (top x) (top _) = refl
  Root-unique (climbs x y r a) (climbs _ _ _ b) = Root-unique a b

  up-duplicate :
      (l : List ℕ) (x : ℕ) → length l % 2 ≡ 0 → up hash (l ++ x ∷ x ∷ []) ≡ up hash (l ++ x ∷ [])
  up-duplicate [] x e = refl
  up-duplicate (a ∷ []) x e = absurd (omega arith)
  up-duplicate (a ∷ b ∷ l) x e = ap (◌∷◌ (hash a b)) (up-duplicate l x (omega arith))

  Root-duplicate :
      (a b x : ℕ) (l : List ℕ) {h : ℕ}
      → length l % 2 ≡ 0
      → Root hash (a ∷ b ∷ (l ++ x ∷ x ∷ [])) h
      → Root hash (a ∷ b ∷ (l ++ x ∷ [])) h
  Root-duplicate a b x l e (climbs _ _ _ t) =
      climbs a b (l ++ x ∷ []) (rw (← up-duplicate (a ∷ b ∷ l) x (omega arith)) t)

  -- The root does not determine the transactions: where an odd number of them, three or more, is
  -- followed by one more copy of the last, the root stays the same.
  pub build_merkle_tree_duplicate :
      (b c : Tree) (x y z : ℕ) (l : List ℕ)
      → length l % 2 ≡ 0
      → b.transactions ≡ x ∷ y ∷ (l ++ z ∷ [])
      → c.transactions ≡ x ∷ y ∷ (l ++ z ∷ z ∷ [])
      → (build_merkle_tree hash c).1 ≡ (build_merkle_tree hash b).1
  build_merkle_tree_duplicate b c x y z l even eb ec =
      Root-unique (Root-duplicate x y z l even (build_merkle_tree-Root hash c x _ ec))
        (build_merkle_tree-Root hash b x _ eb)
