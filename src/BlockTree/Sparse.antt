-- ===== src/BlockTree/Sparse.antt =====
-- `SparseTree<BlockRef>` of include/coinChain/BlockTree.h: a trunk in a vector, branches in a map, and
-- for each block a height, negative on a branch. An iterator that is not `end()` is the element that
-- it points to.
pub mod Walk
pub mod Extend
pub mod Assign
pub mod Cut
pub mod Steps
use libcoin.Base.{
  ℕ, zero, suc, ◌+◌, ◌-◌, ◌*◌, ◌/◌, ◌^◌, Bool, true, false, List, [], ◌∷◌, Option, none, some,
  get_elem?, length, ltb, leb, ◌==◌, if◌then◌else◌, Result, ok, err, ◌>>=◌,
}
use libcoin.Base.Int.{ℤ, pos, negsuc}
use libcoin.Base.Map.{Map, empty, lookup, insert}

pub record BlockRef : Type 0 where
  pub version : ℕ
  pub hash : ℕ
  pub prev : ℕ
  pub time : ℕ
  pub bits : ℕ

pub record SparseTree : Type 0 where
  pub trunk : List BlockRef
  pub branches : Map BlockRef
  pub heights : Map ℤ

-- `unknown_hash`, `not_connected` and `invalid_trunk` are the errors thrown; `undefined` is a
-- dereference of `end()` or an access out of range, and `no_fuel` a loop of the model that ran out.
pub data TreeError : Type 0 where
  unknown_hash not_connected invalid_trunk undefined no_fuel : TreeError

-- `height(hash)`.
unfoldable pub height : SparseTree → ℕ → Result TreeError ℤ
height t hash = elim (lookup hash t.heights) [ none ↦ err unknown_hash | some h ↦ ok h ]

abbrev pub abs : ℤ → ℕ
abs (pos n) = n
abs (negsuc n) = suc n

-- `count(hash)`.
unfoldable pub count : SparseTree → ℕ → Result TreeError ℕ
count t hash = do h ← height t hash; ok (abs h + 1)

-- `_trunk[i]`, undefined out of range.
abbrev pub trunk_at : SparseTree → ℕ → Result TreeError BlockRef
trunk_at t i = elim (get_elem? t.trunk i) [ none ↦ err undefined | some e ↦ ok e ]

abbrev branch_at : SparseTree → ℕ → Result TreeError BlockRef
branch_at t hash = elim (lookup hash t.branches) [ none ↦ err undefined | some e ↦ ok e ]

-- The element of a block with a height, `at(hash)`.
unfoldable pub element : SparseTree → ℕ → ℤ → Result TreeError BlockRef
element t hash (negsuc k) = branch_at t hash
element t hash (pos n) = trunk_at t n

-- `find(hash)`, with `none` for `end()`.
unfoldable pub find : SparseTree → ℕ → Result TreeError (Option BlockRef)
unfolding element
find t hash = elim (lookup hash t.heights) [
  | none ↦ ok none
  | some h ↦ do e ← element t hash h; ok (some e)
]

-- One round of the loop of `advance` that goes down a branch: the element before `e`.
unfoldable pub branch_parent : SparseTree → BlockRef → Result TreeError BlockRef
branch_parent t e = elim (lookup e.prev t.branches) [
  | some p ↦ ok p
  | none ↦ elim (lookup e.prev t.heights) [
    | none ↦ ok e
    | some (pos n) ↦ trunk_at t n
    | some (negsuc k) ↦ err undefined
  ]
]

-- That loop, for `n` steps at most; with the steps that are left on the trunk.
pub descend : ℕ → SparseTree → BlockRef → Result TreeError (ℕ × BlockRef)
descend zero t e = ok (0, e)
descend (suc n) t e = do
  h ← height t e.hash
  let on_trunk = ok (suc n, e)
  let further = do p ← branch_parent t e; descend n t p
  elim h [ pos m ↦ on_trunk | negsuc k ↦ further ]

-- The end of `advance(i, -n)`: `h` is the height reached, with `left` steps to go. Nothing is done
-- below the first block.
abbrev settle : SparseTree → BlockRef → ℕ → ℤ → Result TreeError BlockRef
settle t e left (negsuc k) = ok e
settle t e left (pos h) = if leb left h then trunk_at t (h - left) else ok e

-- `advance(i, -n)` of an iterator to `e`.
unfoldable pub retreat : SparseTree → BlockRef → ℕ → Result TreeError BlockRef
unfolding descend
retreat t e n = do (left, e') ← descend n t e; h ← height t e'.hash; settle t e' left h

-- `advance(i, n)` of an iterator to `e`, for a positive `n`; `none` is `end()`.
unfoldable pub forward : SparseTree → BlockRef → ℕ → Result TreeError (Option BlockRef)
forward t e n = do
  h ← height t e.hash
  elim h [
    | negsuc k ↦ ok none
    | pos m ↦
        if ltb (m + n) (length t.trunk) then (do e' ← trunk_at t (m + n); ok (some e')) else ok none
  ]

-- The loop of `assign`, from the height `h` on, with the block before it.
unfoldable pub index_trunk : BlockRef → ℕ → List BlockRef → Map ℤ → Result TreeError (Map ℤ)
index_trunk before h [] heights = ok heights
index_trunk before h (e ∷ es) heights =
    let rest = index_trunk e (suc h) es (insert e.hash (pos h) heights) in
    if e.prev == before.hash then rest else err invalid_trunk

-- `assign(trunk)`, where it returns.
unfoldable pub assign : SparseTree → List BlockRef → Result TreeError SparseTree
assign t [] = ok t
assign t (g ∷ es) = do
  heights ← index_trunk g 1 es (insert g.hash (pos 0) t.heights)
  ok (record { trunk = g ∷ es; branches = empty; heights = heights })
