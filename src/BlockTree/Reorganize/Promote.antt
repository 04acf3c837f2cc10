-- ===== src/BlockTree/Reorganize/Promote.antt =====
-- The part of `insert` that puts the branch of the new block on the trunk.
use libcoin.Base.{
  ℕ, suc, ◌+◌, ◌<◌, ◌≡◌, ◌∙◌, refl, ap, sym, List, [], ◌∷◌, ◌++◌, some, get_elem?, length,
  length-append, arith, inr, ◌==◌, if◌then◌else◌, ok,
}
use libcoin.Base.Int.{ℤ, pos, negsuc}
use libcoin.Base.Map.{lookup, erase, lookup-insert, lookup-erase}
use libcoin.BlockTree.Sparse.{BlockRef, SparseTree}
use libcoin.BlockTree.Sparse.Extend.{extend-IsLinked}
use libcoin.BlockTree.Sparse.Walk.{IsLinked}
use libcoin.BlockTree.Reorganize.{BlockTree, flip, negate, promote, work}
use libcoin.BlockTree.Reorganize.Totals.{totals, totals-append, back-totals}
use libcoin.BlockTree.Reorganize.Work.{works}

-- A linked tree with a first block, and the total of the work at each place of the trunk.
pub record IsTree (set_compact : ℕ → ℤ) (t : BlockTree) : Type 0 where
  pub linked : IsLinked t.sparse
  pub works_are : t.acc_work ≡ totals set_compact 0 t.trunk
  pub some_block : 0 < length t.trunk

-- The blocks are a branch that starts after the hash `x`, from the height -(k + 1) on, and ends with
-- the hash `y`.
abbrev pub Climbs : SparseTree → ℕ → ℕ → List BlockRef → ℕ → Type 0
Climbs t x k [] y = x ≡ y
Climbs t x k (b ∷ bs) y =
    (b.prev ≡ x)
    × (lookup b.hash t.heights ≡ some (negsuc k))
    × (lookup b.hash t.branches ≡ some b)
    × Climbs t b.hash (suc k) bs y

-- A branch stays one if its blocks keep their places.
pub Climbs-keeps :
    (t u : SparseTree) (bs : List BlockRef) (x k y : ℕ)
    → ((z i : ℕ)
        → lookup z t.heights ≡ some (negsuc (k + i))
        → (lookup z u.heights ≡ lookup z t.heights) × (lookup z u.branches ≡ lookup z t.branches))
    → Climbs t x k bs y
    → Climbs u x k bs y
Climbs-keeps t u [] x k y same c = c
Climbs-keeps t u (b ∷ bs) x k y same (prev, at, branch, rest) =
    let start : k ≡ k + 0 = omega arith in
    let (h, m) = same b.hash 0 (at ∙ ap (λ i. some (negsuc i)) start) in
    (
      prev,
      h ∙ at,
      m ∙ branch,
      Climbs-keeps t u bs b.hash (suc k) y
          (λ z i there.
            let next : suc k + i ≡ k + suc i = omega arith in
            same z (suc i) (there ∙ ap (λ j. some (negsuc j)) next))
          rest,
    )

pub Climbs-append :
    (t : SparseTree) (bs : List BlockRef) (x k y : ℕ) (e : BlockRef)
    → Climbs t x k bs y
    → e.prev ≡ y
    → lookup e.hash t.heights ≡ some (negsuc (k + length bs))
    → lookup e.hash t.branches ≡ some e
    → Climbs t x k (bs ++ e ∷ []) e.hash
Climbs-append t [] x k y e c prev at branch =
    (prev ∙ sym c, at ∙ ap (λ i. some (negsuc i)) (omega arith), branch, refl)
Climbs-append t (b ∷ bs) x k y e (p, h, m, rest) prev at branch = (
  p,
  h,
  m,
  Climbs-append t bs b.hash (suc k) y e rest prev (at ∙ ap (λ i. some (negsuc i)) (omega arith))
      branch,
)

module _ (set_compact : ℕ → ℤ) where
  -- The tree with one block more on the trunk.
  abbrev pub promoted : BlockTree → BlockRef → BlockTree
  promoted t b = record {
    sparse = record {
      trunk = t.trunk ++ b ∷ [];
      branches = erase b.hash t.branches;
      heights = flip b.hash t.heights;
    };
    acc_work = t.acc_work ++ (0 + works set_compact t.trunk + work set_compact b) ∷ [];
    trimmed = t.trimmed;
  }

  module _ (t : BlockTree) (b : BlockRef) (tree : IsTree set_compact t) (k : ℕ)
      (size : suc k ≡ length t.trunk) (at : lookup b.hash t.heights ≡ some (negsuc k))
      (branch : lookup b.hash t.branches ≡ some b)
      (follows : (i : ℕ) (a : BlockRef)
        → get_elem? t.trunk i ≡ some a
        → suc i ≡ length t.trunk
        → b.prev ≡ a.hash) where
    pub promote-ok : promote set_compact t b.hash ≡ ok (promoted t b)
    unfolding promote
    promote-ok = rw (branch, tree.works_are, back-totals set_compact 0 t.trunk tree.some_block) refl

    pub promoted_heights :
        (x : ℕ)
        → lookup x (promoted t b).heights
          ≡ (if x == b.hash then some (pos (length t.trunk)) else lookup x t.heights)
    unfolding flip negate
    promoted_heights x =
        lookup-insert x b.hash _ t.heights
        ∙ rw at (ap (λ n. if x == b.hash then some (pos n) else lookup x t.heights) size)

    pub promoted-IsTree : IsTree set_compact (promoted t b)
    promoted-IsTree = record {
      linked =
          extend-IsLinked t.sparse (promoted t b).sparse b tree.linked refl promoted_heights
            (λ x. lookup-erase x b.hash t.branches) (inr (k, size, at)) follows;
      works_are =
          ap (λ l. l ++ (0 + works set_compact t.trunk + work set_compact b) ∷ []) tree.works_are
          ∙ sym (totals-append set_compact 0 t.trunk b);
      some_block = omega (arith, length-append t.trunk (b ∷ []));
    }
