-- ===== src/BlockTree/Sparse/Assign.antt =====
-- `assign` makes a linked tree of a chain of blocks.
use mathlib.Core.List.{append_assoc, append-nil}
use mathlib.Core.Path.{subst}
use libcoin.Base.{
  ℕ, zero, suc, ◌≡◌, ◌≢◌, ◌∙◌, refl, ap, sym, List, [], ◌∷◌, ◌++◌, none, some, get_elem?, length,
  arith, inl, ◌==◌, if◌then◌else◌, All, ok, length-append,
}
use libcoin.Base.Int.{ℤ, pos, negsuc}
use libcoin.Base.Map.{Map, empty, lookup, insert, lookup-insert}
use libcoin.BlockTree.Sparse.{BlockRef, SparseTree, index_trunk, assign}
use libcoin.BlockTree.Sparse.Walk.{IsLinked}
use libcoin.BlockTree.Sparse.Extend.{extend-IsLinked, get_elem?-append_last}

-- Each block names the one before it.
abbrev pub IsChain : BlockRef → List BlockRef → Type 0
IsChain before [] = Unit
IsChain before (e ∷ es) = (e.prev ≡ before.hash) × IsChain e es

-- No hash is there twice.
abbrev pub AreDistinct : List BlockRef → Type 0
AreDistinct [] = Unit
AreDistinct (e ∷ es) = All (λ f. f.hash ≢ e.hash) es × AreDistinct es

abbrev AreNew : Map ℤ → List BlockRef → Type 0
AreNew heights = All (λ f. lookup f.hash heights ≡ none)

AreNew-insert :
    (heights : Map ℤ) (x : ℕ) (h : ℤ) (es : List BlockRef)
    → AreNew heights es
    → All (λ f. f.hash ≢ x) es
    → AreNew (insert x h heights) es
AreNew-insert heights x h [] k d = tt
AreNew-insert heights x h (e ∷ es) k d = (
  ground (arith, k.0, d.0, lookup-insert e.hash x h heights),
  AreNew-insert heights x h es k.1 d.1,
)

AreNew-empty : (es : List BlockRef) → AreNew empty es
unfolding lookup
AreNew-empty [] = tt
AreNew-empty (e ∷ es) = (refl, AreNew-empty es)

abbrev tree : List BlockRef → Map ℤ → SparseTree
tree trunk heights = record { trunk = trunk; branches = empty; heights = heights }

module _ (g : BlockRef) where
  abbrev alone : Map ℤ
  alone = insert g.hash (pos 0) empty

  alone_trunk_height :
      (i : ℕ) (e : BlockRef) → get_elem? (g ∷ []) i ≡ some e → lookup e.hash alone ≡ some (pos i)
  alone_trunk_height zero e at = ground (arith, lookup-insert e.hash g.hash (pos 0) empty)
  alone_trunk_height (suc i) e at = absurd (ground arith)

  lookup-alone : (x : ℕ) (h : ℤ) → lookup x alone ≡ some h → (x ≡ g.hash) × (h ≡ pos 0)
  unfolding lookup
  lookup-alone x h e = ground (arith, lookup-insert x g.hash (pos 0) empty)

  alone_on_trunk :
      (x n : ℕ)
      → lookup x alone ≡ some (pos n)
      → (e : BlockRef) × (get_elem? (g ∷ []) n ≡ some e) × (e.hash ≡ x)
  alone_on_trunk x zero at = (g, refl, sym (lookup-alone x (pos 0) at).0)
  alone_on_trunk x (suc n) at = let k = lookup-alone x (pos (suc n)) at in absurd (ground arith)

  alone-IsLinked : IsLinked (tree (g ∷ []) alone)
  unfolding lookup
  alone-IsLinked = record {
    trunk_height = alone_trunk_height;
    on_trunk = alone_on_trunk;
    on_branch = λ x k at. let e = lookup-alone x (negsuc k) at in absurd (ground arith);
    in_branch = λ x e at. absurd (ground arith);
    chained = λ i a b at next. absurd (ground arith);
  }

lookup-empty :
    (x y : ℕ)
    → lookup {V = BlockRef} x empty ≡ (if x == y then none else lookup {V = BlockRef} x empty)
unfolding lookup
lookup-empty x y = ground arith

-- One round of the loop: a new block that names the last one of the trunk.
index_one-IsLinked :
    (trunk : List BlockRef) (before : BlockRef) (n : ℕ) (e : BlockRef) (heights : Map ℤ)
    → IsLinked (tree trunk heights)
    → get_elem? trunk n ≡ some before
    → suc n ≡ length trunk
    → lookup e.hash heights ≡ none
    → e.prev ≡ before.hash
    → IsLinked (tree (trunk ++ e ∷ []) (insert e.hash (pos (suc n)) heights))
index_one-IsLinked trunk before n e heights linked at end new chain =
    extend-IsLinked (tree trunk heights)
      (tree (trunk ++ e ∷ []) (insert e.hash (pos (suc n)) heights)) e linked refl
      (λ x. rw (← end) (lookup-insert x e.hash (pos (suc n)) heights)) (λ x. lookup-empty x e.hash)
      (inl new)
      (λ i a here last.
        let same : i ≡ n = omega arith in
        let both : get_elem? trunk i ≡ some before = ap (λ j. get_elem? trunk j) same ∙ at in
        ground arith)

-- The loop succeeds on a chain of new blocks, and makes a linked trunk longer by them.
index_trunk-IsLinked :
    (trunk : List BlockRef) (before : BlockRef) (n : ℕ) (es : List BlockRef) (heights : Map ℤ)
    → IsLinked (tree trunk heights)
    → get_elem? trunk n ≡ some before
    → suc n ≡ length trunk
    → AreNew heights es
    → AreDistinct es
    → IsChain before es
    → (all : Map ℤ) × (index_trunk before (suc n) es heights ≡ ok all)
      × IsLinked (tree (trunk ++ es) all)
unfolding index_trunk
index_trunk-IsLinked trunk before n [] heights linked at end new distinct chain =
    (heights, refl, rw (append-nil trunk) linked)
index_trunk-IsLinked trunk before n (e ∷ es) heights linked at end new distinct chain =
    let (all, result, good) =
      index_trunk-IsLinked (trunk ++ e ∷ []) e (suc n) es (insert e.hash (pos (suc n)) heights)
        (index_one-IsLinked trunk before n e heights linked at end new.0 chain.0)
        (get_elem?-append_last trunk e (suc n) end) (omega (arith, length-append trunk (e ∷ [])))
        (AreNew-insert heights e.hash (pos (suc n)) es new.1 distinct.0) distinct.1 chain.1 in
    (
      all,
      ground (arith, chain.0),
      subst (λ l. IsLinked (tree l all)) (append_assoc trunk (e ∷ []) es) good,
    )

-- `assign` of a chain of blocks with different hashes to a tree with none succeeds, and the tree is
-- linked, with that chain for its trunk.
pub assign-IsLinked :
    (t : SparseTree) (g : BlockRef) (es : List BlockRef)
    → t.heights ≡ empty
    → AreDistinct (g ∷ es)
    → IsChain g es
    → (u : SparseTree) × (assign t (g ∷ es) ≡ ok u) × (u.trunk ≡ g ∷ es) × IsLinked u
unfolding assign
assign-IsLinked t g es none_yet distinct chain =
    let (all, result, good) =
      index_trunk-IsLinked (g ∷ []) g 0 es (alone g) (alone-IsLinked g) refl refl
        (AreNew-insert empty g.hash (pos 0) es (AreNew-empty es) distinct.0) distinct.1 chain in
    (tree (g ∷ es) all, rw (none_yet, result) refl, refl, good)
