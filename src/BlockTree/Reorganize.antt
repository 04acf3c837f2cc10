-- ===== src/BlockTree/Reorganize.antt =====
-- `BlockTree` of src/coinChain/BlockTree.cpp: the accumulated work, and `insert`, which makes the
-- branch with the most work the trunk. `set_compact` stands for OpenSSL's reading of the compact form
-- of a target (`BN_mpi2bn` in `CBigNum::SetCompact`).
pub mod Work
pub mod Demote
pub mod Insert
pub mod Promote
pub mod Climb
pub mod Totals
pub mod Tip
pub mod Best
pub mod Start
pub mod Deepest
use libcoin.Base.{
  ℕ, zero, suc, ◌+◌, ◌-◌, ◌*◌, ◌/◌, ◌^◌, Bool, true, false, List, [], ◌∷◌, ◌++◌, Option, none, some,
  get_elem?, length, take, ltb, leb, ◌==◌, if◌then◌else◌, Result, ok, err, ◌>>=◌,
}
use mathlib.Core.List.{reverse}
use libcoin.Base.Int.{ℤ, pos, negsuc}
use libcoin.Base.Map.{Map, empty, entry, lookup, insert, erase}
use libcoin.BlockTree.Sparse.{
  BlockRef, SparseTree, TreeError, not_connected, undefined, no_fuel, height, abs, find, retreat,
  forward, assign,
}

pub record BlockTree : Type 0 where
  pub sparse : SparseTree
  pub open sparse use *
  pub acc_work : List ℕ
  pub trimmed : ℕ

pub record Changes : Type 0 where
  pub deleted : List ℕ
  pub inserted : List ℕ

-- `_acc_work[i]`.
abbrev pub work_at : BlockTree → ℕ → Result TreeError ℕ
work_at t i = elim (get_elem? t.acc_work i) [ none ↦ err undefined | some w ↦ ok w ]

-- One round of the loop of `best_invalid`, from the lowest height so far and its block.
unfoldable pub lowest : Map ℤ → ℕ → Option ℕ → Option ℕ
lowest empty depth best = best
lowest (entry x (pos n) m) depth best = lowest m depth best
lowest (entry x (negsuc k) m) depth best =
    let other = lowest m depth best in
    let this = lowest m (suc k) (some x) in if ltb depth (suc k) then this else other

-- `best_invalid()`, with `none` for `end()`.
unfoldable pub best_invalid : SparseTree → Result TreeError (Option BlockRef)
best_invalid t = elim (lowest t.heights 0 none) [ none ↦ ok none | some x ↦ find t x ]

-- `_acc_work.back()`.
unfoldable pub back : List ℕ → Result TreeError ℕ
back [] = err undefined
back (w ∷ []) = ok w
back (w ∷ x ∷ r) = back (x ∷ r)

-- `_heights[hash] *= -1`, which makes an entry of 0 for an unknown hash.
unfoldable pub negate : ℤ → ℤ
negate (pos zero) = pos zero
negate (pos (suc n)) = negsuc n
negate (negsuc n) = pos (suc n)

unfoldable pub flip : ℕ → Map ℤ → Map ℤ
flip hash m = insert hash (elim (lookup hash m) [ none ↦ pos 0 | some h ↦ negate h ]) m

unfoldable pub flip_all : List ℕ → Map ℤ → Map ℤ
flip_all [] m = m
flip_all (x ∷ xs) m = flip_all xs (flip x m)

-- The loop that steps from `e` down to the trunk, with the hashes of the branch that it leaves.
unfoldable pub collect : ℕ → SparseTree → BlockRef → Result TreeError (List ℕ × BlockRef)
collect zero t e = err no_fuel
collect (suc fuel) t e = do
  h ← height t e.hash
  let root = ok ([], e)
  let further = do p ← retreat t e 1; (hashes, root) ← collect fuel t p; ok (e.hash ∷ hashes, root)
  elim h [ pos n ↦ root | negsuc k ↦ further ]

-- The loop that steps up the trunk from `e`, with the hashes above it and the branches that hold
-- their elements.
unfoldable pub demote :
    ℕ → SparseTree → BlockRef → Map BlockRef → Result TreeError (List ℕ × Map BlockRef)
demote zero t e branches = err no_fuel
demote (suc fuel) t e branches = do
  next ← forward t e 1
  elim next [
    | none ↦ ok ([], branches)
    | some b ↦ do
      (hashes, all) ← demote fuel t b (insert b.hash b branches)
      ok (b.hash ∷ hashes, all)
  ]

-- `insert` of a block that does not make the best branch.
unfoldable pub insert_branch : BlockTree → BlockRef → ℤ → BlockTree
insert_branch t ref h = record t {
  sparse = record (t.sparse) {
    branches = insert ref.hash ref t.branches;
    heights = insert ref.hash (negsuc (abs h)) t.heights;
  };
}

module _ (set_compact : ℕ → ℤ) where
  -- `work()`.
  unfoldable pub work_of : ℤ → ℕ
  work_of (pos (suc n)) = 2 ^ 256 / (suc n + 1)
  work_of _ = 0

  unfoldable pub work : BlockRef → ℕ
  work e = work_of (set_compact e.bits)

  -- The loop of `assign`, from the height `h + 1` on.
  unfoldable pub push_works : ℕ → List ℕ → List BlockRef → Result TreeError (List ℕ)
  push_works h acc [] = ok acc
  push_works h acc (e ∷ es) = do
    w ← elim (get_elem? acc h) [ none ↦ err undefined | some w ↦ ok w ]
    push_works (suc h) (acc ++ (w + work e) ∷ []) es

  -- `BlockTree::assign(trunk)`, where it returns.
  unfoldable pub assign_blocks : BlockTree → List BlockRef → Result TreeError BlockTree
  assign_blocks t [] = do s ← assign t.sparse []; ok (record t { sparse = s })
  assign_blocks t (g ∷ es) = do
    s ← assign t.sparse (g ∷ es)
    acc ← push_works 0 (t.acc_work ++ work g ∷ []) es
    ok (record t { sparse = s; acc_work = acc })

  -- The loop of `accumulatedWork`, from the element `e` of a branch.
  unfoldable pub trace_back : ℕ → BlockTree → BlockRef → ℕ → Result TreeError ℕ
  trace_back zero t e sum = err no_fuel
  trace_back (suc fuel) t e sum = do
    p ← retreat t.sparse e 1
    h ← height t.sparse p.hash
    let on_trunk = λ (n : ℕ). do w ← work_at t n; ok (sum + w)
    let further = trace_back fuel t p (sum + work p)
    elim h [ pos n ↦ on_trunk n | negsuc k ↦ further ]

  unfoldable pub accumulated_work : BlockTree → BlockRef → Result TreeError ℕ
  accumulated_work t e = do
    h ← height t.sparse e.hash
    elim h [ pos n ↦ work_at t n | negsuc k ↦ trace_back (suc k) t e (work e) ]

  -- One round of the loop that puts a branch on the trunk.
  unfoldable pub promote : BlockTree → ℕ → Result TreeError BlockTree
  promote t hash = do
    e ← elim (lookup hash t.branches) [ none ↦ err undefined | some e ↦ ok e ]
    w ← back t.acc_work
    ok (record {
      sparse = record {
        trunk = t.trunk ++ e ∷ [];
        branches = erase hash t.branches;
        heights = flip hash t.heights;
      };
      acc_work = t.acc_work ++ (w + work e) ∷ [];
      trimmed = t.trimmed;
    })

  unfoldable pub promote_all : List ℕ → BlockTree → Result TreeError BlockTree
  promote_all [] t = ok t
  promote_all (x ∷ xs) t = do t' ← promote t x; promote_all xs t'

  -- `insert` of a block with the total `total`, the most of all, after the element `e`.
  unfoldable pub insert_best :
      BlockTree → BlockRef → BlockRef → ℕ → Result TreeError (BlockTree × Changes)
  insert_best t ref e total = do
    h ← height t.sparse e.hash
    (inserted, root) ← collect (suc (abs h)) t.sparse e
    (deleted, branches) ← demote (suc (length t.trunk)) t.sparse root t.branches
    root_height ← height t.sparse root.hash
    let size = suc (abs root_height)
    let cut = record t {
      sparse = record {
        trunk = take size t.trunk;
        branches = branches;
        heights = flip_all deleted t.heights;
      };
      acc_work = take size t.acc_work;
    }
    grown ← promote_all (reverse inserted) cut
    ok (
      record {
        sparse = record {
          trunk = grown.trunk ++ ref ∷ [];
          branches = grown.branches;
          heights = insert ref.hash (pos (length grown.trunk)) grown.heights;
        };
        acc_work = grown.acc_work ++ total ∷ [];
        trimmed = grown.trimmed;
      },
      record { deleted = deleted; inserted = ref.hash ∷ inserted },
    )

  -- `insert(ref)` after the element `e`.
  unfoldable pub insert_after :
      BlockTree → BlockRef → BlockRef → Result TreeError (BlockTree × Changes)
  insert_after t ref e = do
    acc ← accumulated_work t e
    best ← back t.acc_work
    h ← height t.sparse e.hash
    let reorganized = insert_best t ref e (acc + work ref)
    let kept = ok (insert_branch t ref h, record { deleted = []; inserted = [] })
    if ltb best (acc + work ref) then reorganized else kept

  -- `insert(ref)`.
  unfoldable pub insert_block : BlockTree → BlockRef → Result TreeError (BlockTree × Changes)
  insert_block t ref = do
    before ← find t.sparse ref.prev
    elim before [ none ↦ err not_connected | some e ↦ insert_after t ref e ]
