-- ===== src/BlockTree/Sparse/Steps.antt =====
-- Steps down from a block that is found.
use libcoin.Base.{ℕ, zero, suc, ◌-◌, ◌≡◌, refl, arith, inl, inr, ok, leb, Bool-cases, List, []}
use libcoin.Base.Int.{pos, negsuc}
use libcoin.BlockTree.Sparse.{BlockRef, SparseTree, height, descend, retreat, trunk_at}
use libcoin.BlockTree.Sparse.Cut.{get_elem?-below}
use libcoin.BlockTree.Sparse.Walk.{Descends, here, down, height-lookup, Descends-height}

module _ (t : SparseTree) (root : BlockRef) (n : ℕ) where
  -- The loop down a branch succeeds, and ends on the way down.
  descend-Descends :
      (m : ℕ) {e : BlockRef} {path : List BlockRef}
      → Descends t root n e path
      → (left : ℕ) × (p : BlockRef) × (rest : List BlockRef) × (descend m t e ≡ ok (left, p))
        × Descends t root n p rest
  unfolding descend height
  descend-Descends zero {e} {path} d = (0, e, path, refl, d)
  descend-Descends (suc m) (here a b) = (suc m, root, [], ground arith, here a b)
  descend-Descends (suc m) (down e h b q parent d) =
      let (left, p, rest, result, d') = descend-Descends m d in (left, p, rest, ground arith, d')

  -- `advance(i, -m)` of a block that has a way down to the trunk succeeds.
  pub retreat-ok :
      (m : ℕ) {e : BlockRef} {path : List BlockRef}
      → Descends t root n e path
      → (p : BlockRef) × (retreat t e m ≡ ok p)
  unfolding retreat
  retreat-ok m d =
      let (left, p, rest, result, d') = descend-Descends m d in
      elim (Descends-height t root n d') [
        | inr (k, off) ↦ let at = height-lookup t p.hash (negsuc k) off in (p, rw (result, at) refl)
        | inl (on, there) ↦
            let at = height-lookup t p.hash (pos n) on in
            elim (Bool-cases (leb left n)) [
              | inl inside ↦
                  let (q, lower) = get_elem?-below t.trunk n (n - left) there (omega arith) in
                  let reached : trunk_at t (n - left) ≡ ok q = rw (trunk_at, lower) refl in
                  (q, rw (result, at, inside, reached) refl)
              | inr outside ↦ (p, rw (result, at, outside) refl)
            ]
      ]
