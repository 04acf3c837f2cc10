-- ===== src/BlockTree/Reorganize/Work.antt =====
-- The work of a block with all that is before it.
use libcoin.Base.{
  ℕ, zero, suc, ◌+◌, ◌<◌, ◌≡◌, ◌∙◌, sym, List, [], ◌∷◌, some, get_elem?, length, map, arith, ok,
}
use libcoin.Base.Int.{ℤ, negsuc}
use libcoin.Base.Map.{lookup}
use libcoin.BlockTree.Sparse.{BlockRef, SparseTree, height}
use libcoin.BlockTree.Sparse.Walk.{Descends, here, down, retreat-Descends}
use libcoin.BlockTree.Reorganize.{BlockTree, collect, work, trace_back, accumulated_work}

pub collect-Descends :
    (t : SparseTree) (root : BlockRef) (n : ℕ) {e : BlockRef} {path : List BlockRef} (fuel : ℕ)
    → Descends t root n e path
    → length path < fuel
    → collect fuel t e ≡ ok (map (λ b. b.hash) path, root)
unfolding collect height
collect-Descends t root n zero d l = absurd (omega arith)
collect-Descends t root n (suc fuel) (here a b) l = ground arith
collect-Descends t root n (suc fuel) (down {p} {path} e h b q parent d) l = ground (
  arith,
  retreat-Descends t root n e p (n + length path) h parent d,
  collect-Descends t root n fuel d (omega arith),
)

module _ (set_compact : ℕ → ℤ) where
  -- The work of a list of blocks.
  abbrev pub works : List BlockRef → ℕ
  works [] = 0
  works (e ∷ es) = work set_compact e + works es

  -- The loop from a block of a branch adds the works down to the trunk, and the work there.
  trace_back-Descends :
      (t : BlockTree) (root : BlockRef) (n acc : ℕ) {e : BlockRef} {path : List BlockRef}
      (fuel sum m : ℕ)
      → get_elem? t.acc_work n ≡ some acc
      → lookup e.hash t.heights ≡ some (negsuc m)
      → Descends t.sparse root n e path
      → length path < suc fuel
      → trace_back set_compact fuel t e (sum + work set_compact e) ≡ ok (sum + works path + acc)
  unfolding trace_back height
  trace_back-Descends t root n acc fuel sum m a k (here x y) l = cc (sym k ∙ x)
  trace_back-Descends t root n acc zero sum m a k (down e h b q parent d) l = absurd (omega arith)
  trace_back-Descends t root n acc (suc fuel) sum m a k (down e h b q parent (here x y)) l =
      ground (arith, retreat-Descends t.sparse root n e root _ h parent (here x y))
  trace_back-Descends t root n acc (suc fuel) sum m a k
        (down e h b q parent (down {path} p h' b' q' parent' d)) l =
      ground (
        arith,
        retreat-Descends t.sparse root n e p _ h parent (down p h' b' q' parent' d),
        trace_back-Descends t root n acc fuel (sum + work set_compact e) _ a h'
            (down p h' b' q' parent' d) (omega arith),
      )

  -- For a block with a way down to the trunk, where the total of the work is known, `accumulatedWork`
  -- succeeds: it is the work of the blocks of the way and that total.
  pub accumulated_work-Descends :
      (t : BlockTree) (root : BlockRef) (n acc : ℕ) {e : BlockRef} {path : List BlockRef}
      → get_elem? t.acc_work n ≡ some acc
      → Descends t.sparse root n e path
      → accumulated_work set_compact t e ≡ ok (works path + acc)
  unfolding accumulated_work height
  accumulated_work-Descends t root n acc a (here x y) = ground arith
  accumulated_work-Descends t root n acc a (down {path} e h b q parent d) = ground (
    arith,
    trace_back-Descends t root n acc (suc (n + length path)) 0 _ a h (down e h b q parent d)
        (omega arith),
  )
