-- ===== src/BlockTree/Sparse/Walk.antt =====
-- The invariant of the tree, and the way from a block down to the trunk.
use libcoin.Base.{
  ℕ, zero, suc, ◌+◌, ◌≡◌, ◌⊎◌, ◌∙◌, inl, inr, refl, sym, ap, List, [], ◌∷◌, some, get_elem?,
  Option-cases, length, arith, ok,
}
use libcoin.Base.Int.{ℤ, pos, negsuc}
use libcoin.Base.Map.{lookup}
use libcoin.BlockTree.Sparse.{
  BlockRef, SparseTree, height, abs, element, find, branch_parent, retreat,
}

pub height-lookup :
    (t : SparseTree) (x : ℕ) (h : ℤ) → lookup x t.heights ≡ some h → height t x ≡ ok h
unfolding height
height-lookup t x h e = ground arith

-- `e.prev` is one step nearer to the trunk than `e`, whose height is -(k + 1).
abbrev pub IsBelow : SparseTree → BlockRef → ℕ → Type 0
IsBelow t e k =
    (lookup e.prev t.heights ≡ some (pos k))
    ⊎ ((j : ℕ) × (k ≡ suc j) × (lookup e.prev t.heights ≡ some (negsuc j)))

-- The trunk is a chain, `heights` tells where each block stands, and the blocks of negative height
-- are those of the branches, each on a block that is one step nearer to the first.
pub record IsLinked (t : SparseTree) : Type 0 where
  pub trunk_height :
      (i : ℕ) (e : BlockRef) → get_elem? t.trunk i ≡ some e → lookup e.hash t.heights ≡ some (pos i)
  pub on_trunk :
      (x n : ℕ)
      → lookup x t.heights ≡ some (pos n)
      → (e : BlockRef) × (get_elem? t.trunk n ≡ some e) × (e.hash ≡ x)
  pub on_branch :
      (x k : ℕ)
      → lookup x t.heights ≡ some (negsuc k)
      → (e : BlockRef) × (lookup x t.branches ≡ some e) × (e.hash ≡ x) × IsBelow t e k
  pub in_branch :
      (x : ℕ) (e : BlockRef)
      → lookup x t.branches ≡ some e
      → (k : ℕ) × (lookup x t.heights ≡ some (negsuc k))
  pub chained :
      (i : ℕ) (a b : BlockRef)
      → get_elem? t.trunk i ≡ some a
      → get_elem? t.trunk (suc i) ≡ some b
      → b.prev ≡ a.hash

-- The blocks from `e` down its branch, and the block `root` of the trunk, at height `n`, below them.
pub data Descends (t : SparseTree) (root : BlockRef) (n : ℕ)
    : BlockRef → List BlockRef → Type 0 where
  here :
      lookup root.hash t.heights ≡ some (pos n)
      → get_elem? t.trunk n ≡ some root
      → Descends t root n root []
  down :
      {p : BlockRef} {path : List BlockRef} (e : BlockRef)
      → lookup e.hash t.heights ≡ some (negsuc (n + length path))
      → lookup e.hash t.branches ≡ some e
      → e.prev ≡ p.hash
      → branch_parent t e ≡ ok p
      → Descends t root n p path
      → Descends t root n e (e ∷ path)

-- A block that `find` finds.
pub record IsLocated (t : SparseTree) (x : ℕ) (h : ℤ) : Type 0 where
  pub at : BlockRef
  pub path : List BlockRef
  pub root : BlockRef
  pub root_height : ℕ
  pub stored : element t x h ≡ ok at
  pub found : find t x ≡ ok (some at)
  pub hash_is : at.hash ≡ x
  pub descends : Descends t root root_height at path
  pub depth : abs h ≡ root_height + length path

module _ (t : SparseTree) (linked : IsLinked t) where
  locate_trunk : (x n : ℕ) → lookup x t.heights ≡ some (pos n) → IsLocated t x (pos n)
  unfolding find element
  locate_trunk x n e =
      let (b, at, is) = linked.on_trunk x n e in
      record {
        at = b;
        path = [];
        root = b;
        root_height = n;
        stored = ground arith;
        found = ground arith;
        hash_is = is;
        descends = here (ap (λ y. lookup y t.heights) is ∙ e) at;
        depth = omega arith;
      }

  -- A block of a branch, given the one before it.
  locate_branch :
      (x k : ℕ) (h : ℤ)
      → lookup x t.heights ≡ some (negsuc k)
      → (e : BlockRef) → lookup x t.branches ≡ some e
      → e.hash ≡ x
      → abs h ≡ k
      → (l : IsLocated t e.prev h) → branch_parent t e ≡ ok l.at
      → IsLocated t x (negsuc k)
  unfolding find element
  locate_branch x k h at e branch is below l parent = record {
    at = e;
    path = e ∷ l.path;
    root = l.root;
    root_height = l.root_height;
    stored = ground arith;
    found = ground arith;
    hash_is = is;
    descends =
        down e
          (let d : k ≡ l.root_height + length l.path = omega (arith, l.depth) in
            ap (λ y. lookup y t.heights) is ∙ at ∙ ap (λ m. some (negsuc m)) d)
          (ap (λ y. lookup y t.branches) is ∙ branch) (sym l.hash_is) parent l.descends;
    depth = omega (arith, l.depth);
  }

  parent_trunk :
      (e : BlockRef) (k : ℕ)
      → lookup e.prev t.heights ≡ some (pos k)
      → (l : IsLocated t e.prev (pos k)) → branch_parent t e ≡ ok l.at
  unfolding branch_parent element
  parent_trunk e k h l = elim (Option-cases (lookup e.prev t.branches)) [
    | inl absent ↦ ground (arith, l.stored)
    | inr (b, branch) ↦ let (j, negative) = linked.in_branch e.prev b branch in ground arith
  ]

  parent_branch :
      (e : BlockRef) (j : ℕ) → (l : IsLocated t e.prev (negsuc j)) → branch_parent t e ≡ ok l.at
  unfolding branch_parent element
  parent_branch e j l = ground (arith, l.stored)

  locate_below : (k x : ℕ) → lookup x t.heights ≡ some (negsuc k) → IsLocated t x (negsuc k)
  locate_below zero x h =
      let (e, branch, is, below) = linked.on_branch x zero h in
      elim below [
        | inl p ↦
            let l = locate_trunk e.prev zero p in
            locate_branch x zero (pos zero) h e branch is refl l (parent_trunk e zero p l)
        | inr (j, n, p) ↦ absurd (omega arith)
      ]
  locate_below (suc k) x h =
      let (e, branch, is, below) = linked.on_branch x (suc k) h in
      elim below [
        | inl p ↦
            let l = locate_trunk e.prev (suc k) p in
            locate_branch x (suc k) (pos (suc k)) h e branch is refl l (parent_trunk e (suc k) p l)
        | inr (j, n, p) ↦
            let same : j ≡ k = omega arith in
            let l = locate_below k e.prev (p ∙ ap (λ m. some (negsuc m)) same) in
            locate_branch x (suc k) (negsuc k) h e branch is refl l (parent_branch e k l)
      ]

  -- Every block that has a height in a linked tree is found, with its way to the trunk.
  pub locate : (x : ℕ) (h : ℤ) → lookup x t.heights ≡ some h → IsLocated t x h
  locate x (pos n) e = locate_trunk x n e
  locate x (negsuc k) e = locate_below k x e

module _ (t : SparseTree) (root : BlockRef) (n : ℕ) where
  -- The last block of the way is on the trunk, any other on a branch.
  pub Descends-height :
      {p : BlockRef} {path : List BlockRef}
      → Descends t root n p path
      → ((lookup p.hash t.heights ≡ some (pos n)) × (get_elem? t.trunk n ≡ some p))
        ⊎ ((j : ℕ) × (lookup p.hash t.heights ≡ some (negsuc j)))
  Descends-height (here a b) = inl (a, b)
  Descends-height (down e h b q parent d) = inr (n + _, h)

  pub Descends-root :
      {p : BlockRef} {path : List BlockRef}
      → Descends t root n p path
      → (lookup root.hash t.heights ≡ some (pos n)) × (get_elem? t.trunk n ≡ some root)
  Descends-root (here a b) = (a, b)
  Descends-root (down e h b q parent d) = Descends-root d

  -- `--` of an iterator on a branch is the block before.
  pub retreat-Descends :
      (e p : BlockRef) (m : ℕ) {path : List BlockRef}
      → lookup e.hash t.heights ≡ some (negsuc m)
      → branch_parent t e ≡ ok p
      → Descends t root n p path
      → retreat t e 1 ≡ ok p
  unfolding retreat height
  retreat-Descends e p m h parent d = ground (arith, Descends-height d)
