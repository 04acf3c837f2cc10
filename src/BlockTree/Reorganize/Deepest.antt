-- ===== src/BlockTree/Reorganize/Deepest.antt =====
-- `best_invalid` of `BlockTree`: the end of the deepest branch.
use libcoin.Base.{
  ℕ, suc, ◌<◌, ◌≡◌, ◌⊎◌, ◌∙◌, refl, ap, Option, none, some, arith, inl, inr, ◌==◌, Bool-cases, ltb,
  ok,
}
use libcoin.Base.Int.{ℤ, pos, negsuc}
use libcoin.Base.Map.{Map, empty, entry, lookup, HasUniqueKeys}
use libcoin.BlockTree.Sparse.{BlockRef, SparseTree}
use libcoin.BlockTree.Sparse.Walk.{IsLinked, locate}
use libcoin.BlockTree.Reorganize.{lowest, best_invalid}

-- No height of the map is below -depth.
abbrev pub IsNotBelow : Map ℤ → ℕ → Type 0
IsNotBelow m depth = (x k : ℕ) → lookup x m ≡ some (negsuc k) → k < depth

-- The loop has found the lowest height, if one is below -depth.
abbrev IsLowest : Map ℤ → ℕ → Option ℕ → Option ℕ → Type 0
IsLowest m depth best r =
    ((r ≡ best) × IsNotBelow m depth)
    ⊎ ((x : ℕ) × (k : ℕ) × (r ≡ some x)
        × (lookup x m ≡ some (negsuc k))
        × (depth < suc k)
        × IsNotBelow m (suc k))

-- What holds of the map with one entry more.
IsNotBelow-entry :
    (x depth : ℕ) (h : ℤ) (m : Map ℤ)
    → ((k : ℕ) → h ≡ negsuc k → k < depth)
    → IsNotBelow m depth
    → IsNotBelow (entry x h m) depth
unfolding lookup
IsNotBelow-entry x depth h m new old y k at = elim (Bool-cases (y == x)) [
  | inl same ↦ new k (ground arith)
  | inr other ↦ old y k (ground arith)
]

lookup-entry :
    (x y : ℕ) (h g : ℤ) (m : Map ℤ)
    → lookup x m ≡ none
    → lookup y m ≡ some g
    → lookup y (entry x h m) ≡ some g
unfolding lookup
lookup-entry x y h g m absent at = elim (Bool-cases (y == x)) [
  | inl same ↦
      let same' : y ≡ x = ground arith in
      let both = ap (λ z. lookup z m) same' in absurd (ground arith)
  | inr other ↦ rw other at
]

lowest-IsLowest :
    (m : Map ℤ) (depth : ℕ) (best : Option ℕ)
    → HasUniqueKeys m
    → IsLowest m depth best (lowest m depth best)
unfolding lowest lookup
lowest-IsLowest empty depth best keys = inl (refl, λ x k at. absurd (ground arith))
lowest-IsLowest (entry x (pos n) m) depth best keys = elim (lowest-IsLowest m depth best keys.1) [
  | inl (same, low) ↦
      inl (same, IsNotBelow-entry x depth (pos n) m (λ k at. absurd (ground arith)) low)
  | inr (y, k, is, at, deep, low) ↦ inr (
    y,
    k,
    is,
    lookup-entry x y (pos n) (negsuc k) m keys.0 at,
    deep,
    IsNotBelow-entry x (suc k) (pos n) m (λ i e. absurd (ground arith)) low,
  )
]
lowest-IsLowest (entry x (negsuc k) m) depth best keys = elim (Bool-cases (ltb depth (suc k))) [
  | inl deeper ↦ rw deeper (elim (lowest-IsLowest m (suc k) (some x) keys.1) [
    | inl (same, low) ↦ inr (
      x,
      k,
      same,
      ground arith,
      ground arith,
      IsNotBelow-entry x (suc k) (negsuc k) m (λ i e. ground arith) low,
    )
    | inr (y, j, is, at, deep, low) ↦ inr (
      y,
      j,
      is,
      lookup-entry x y (negsuc k) (negsuc j) m keys.0 at,
      ground arith,
      IsNotBelow-entry x (suc j) (negsuc k) m (λ i e. ground arith) low,
    )
  ])
  | inr not ↦ rw not (elim (lowest-IsLowest m depth best keys.1) [
    | inl (same, low) ↦ inl (same, IsNotBelow-entry x depth (negsuc k) m (λ i e. ground arith) low)
    | inr (y, j, is, at, deep, low) ↦ inr (
      y,
      j,
      is,
      lookup-entry x y (negsuc k) (negsuc j) m keys.0 at,
      deep,
      IsNotBelow-entry x (suc j) (negsuc k) m (λ i e. ground arith) low,
    )
  ])
]

-- In a linked tree with one height for each hash, `best_invalid` succeeds: it is `end()` if no block is
-- on a branch, and else a block of a branch that no block of a branch is deeper than.
pub best_invalid-IsNotBelow :
    (t : SparseTree)
    → IsLinked t
    → HasUniqueKeys t.heights
    → ((best_invalid t ≡ ok none) × IsNotBelow t.heights 0)
      ⊎ ((b : BlockRef) × (k : ℕ) × (best_invalid t ≡ ok (some b))
          × (lookup b.hash t.heights ≡ some (negsuc k))
          × IsNotBelow t.heights (suc k))
unfolding best_invalid
best_invalid-IsNotBelow t linked keys = elim (lowest-IsLowest t.heights 0 none keys) [
  | inl (same, low) ↦ inl (rw (best_invalid, same) refl, low)
  | inr (x, k, is, at, deep, low) ↦
      let l = locate t linked x (negsuc k) at in
      inr (l.at, k, rw (best_invalid, is) l.found, ap (λ y. lookup y t.heights) l.hash_is ∙ at, low)
]
