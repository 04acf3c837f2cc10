-- ===== src/Merkle.antt =====
-- The Merkle tree of a block: `buildMerkleTree`, `getMerkleBranch` and `checkMerkleBranch` of
-- src/coin/Block.cpp. A transaction is given by its hash; `hash a b` stands for the library's double
-- SHA-256 of the 64 bytes of `a` and `b`.
pub mod Levels
pub mod Build
pub mod Branch
pub mod Partial
use libcoin.Base.{
  ℕ, zero, suc, ◌+◌, ◌-◌, ◌/◌, ◌%◌, List, [], ◌∷◌, ◌++◌, length, get_or, ltb, ◌==◌, if◌then◌else◌,
}
use libcoin.Base.Int.{ℤ, pos, negsuc}
use Prim.Native.Nat.{min}

-- The part of a `Block` that these functions use: the transactions' hashes, and the cached tree.
pub record Tree : Type 0 where
  pub transactions : List ℕ
  pub merkle_tree : List ℕ

-- `back()`, and 0 for an empty tree.
unfoldable pub back_or_zero : List ℕ → ℕ
back_or_zero [] = 0
back_or_zero (x ∷ []) = x
back_or_zero (x ∷ y ∷ r) = back_or_zero (y ∷ r)

-- `index & 1` and `index >>= 1` of an `int`, `index ^ 1` of one that is not negative.
unfoldable pub low_bit : ℤ → ℕ
low_bit (pos n) = n % 2
low_bit (negsuc n) = 1 - n % 2

unfoldable pub shift_right : ℤ → ℤ
shift_right (pos n) = pos (n / 2)
shift_right (negsuc n) = negsuc (n / 2)

abbrev pub flip_low : ℕ → ℕ
flip_low n = if n % 2 == 0 then n + 1 else n - 1

module _ (hash : ℕ → ℕ → ℕ) where
  -- The inner loop, `rounds` rounds from `i` on: the pairs of the level that starts at `j`.
  unfoldable pub push_pairs : ℕ → ℕ → ℕ → ℕ → List ℕ → List ℕ
  push_pairs zero i j size tree = tree
  push_pairs (suc rounds) i j size tree =
      let left = get_or tree (j + i) 0 in
      let right = get_or tree (j + min (i + 1) (size - 1)) 0 in
      push_pairs rounds (i + 2) j size (tree ++ hash left right ∷ [])

  -- The outer loop: one level after the other.
  unfoldable pub push_levels : ℕ → ℕ → ℕ → List ℕ → List ℕ
  push_levels zero j size tree = tree
  push_levels (suc fuel) j size tree =
      let grown = push_pairs ((size + 1) / 2) 0 j size tree in
      let rest = push_levels fuel (j + size) ((size + 1) / 2) grown in
      if ltb 1 size then rest else tree

  -- The tree that `buildMerkleTree` leaves in `_merkleTree`.
  unfoldable pub full_tree : List ℕ → List ℕ
  full_tree leaves = push_levels (length leaves) 0 (length leaves) leaves

  -- The new block and the root.
  unfoldable pub build_merkle_tree : Tree → Tree × ℕ
  build_merkle_tree b =
      let tree = full_tree b.transactions in (record b { merkle_tree = tree }, back_or_zero tree)

  unfoldable pub branch_levels : ℕ → ℕ → ℕ → ℕ → List ℕ → List ℕ
  branch_levels zero j size index tree = []
  branch_levels (suc fuel) j size index tree =
      let other = get_or tree (j + min (flip_low index) (size - 1)) 0 in
      let rest = branch_levels fuel (j + size) ((size + 1) / 2) (index / 2) tree in
      if ltb 1 size then other ∷ rest else []

  cached_tree : List ℕ → List ℕ → List ℕ
  cached_tree [] leaves = full_tree leaves
  cached_tree (x ∷ r) leaves = x ∷ r

  -- The branch of the transaction at `index`; the tree is built only if the cache is empty.
  unfoldable pub get_merkle_branch : Tree → ℕ → List ℕ
  unfolding cached_tree
  get_merkle_branch b index =
      branch_levels (length b.transactions) 0 (length b.transactions) index
        (cached_tree b.merkle_tree b.transactions)

  unfoldable pub climb : ℕ → List ℕ → ℤ → ℕ
  climb h [] index = h
  climb h (other ∷ rest) index =
      climb (if low_bit index == 1 then hash other h else hash h other) rest (shift_right index)

  unfoldable pub check_merkle_branch : ℕ → List ℕ → ℤ → ℕ
  check_merkle_branch h branch (negsuc zero) = 0
  check_merkle_branch h branch index = climb h branch index
