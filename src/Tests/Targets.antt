-- ===== src/Tests/Targets.antt =====
-- The targets at concrete blocks.
use libcoin.Base.{ℕ, suc, ◌<◌, ◌≤◌, ◌≡◌, ◌↔◌, refl, true, false, [], ◌∷◌, arith, ok}
use libcoin.Base.Int.{ℤ, pos, negsuc}
use libcoin.Base.Map.{empty, entry, lookup}
use libcoin.BlockTree.Sparse.{BlockRef, SparseTree, height, count}
use libcoin.BlockTree.Sparse.Walk.{here}
use libcoin.Chain.Retarget.{next_work, not_due, bitcoin_work, dogecoin_work, all_ones}
use libcoin.Chain.Retarget.Bounds.{
  IsNext, next_work-IsNext, bitcoin_work_branch, dogecoin_work-IsNext,
}
use libcoin.Chain.ProofOfWork.{check_proof_of_work, check_proof_of_work_lem}

-- A compact form that holds the number itself.
abbrev plain : ℕ → ℤ
plain bits = pos bits

abbrev magnitude : ℤ → ℕ
magnitude (pos n) = n
magnitude (negsuc k) = suc k

abbrev timed : ℕ → ℕ → ℕ → BlockRef
timed hash prev time = record { version = 1; hash = hash; prev = prev; time = time; bits = 1000 }

-- Two blocks on the trunk, and one on a branch.
abbrev times : SparseTree
times = record {
  trunk = timed 1 0 100 ∷ timed 2 1 700 ∷ [];
  branches = entry 3 (timed 3 1 800) empty;
  heights = entry 1 (pos 0) (entry 2 (pos 1) (entry 3 (negsuc 0) empty));
}

-- With an interval of two blocks, the second is due.
next_work-IsNext_example :
    (b : ℕ) × (next_work plain magnitude 5000 2 1200 (λ h. 1) 9 times (timed 2 1 700) ≡ ok b)
    × IsNext plain magnitude 5000 1200 300 4800 9 false false 1000 1000 b
unfolding lookup not_due
next_work-IsNext_example =
    next_work-IsNext plain magnitude times (timed 2 1 700) (timed 2 1 700) 1 [] (pos 1) 1000
      (here refl refl) refl refl 5000 2 1200 9 (λ h. 1) (omega arith)

-- A block of height -2015.
abbrev deep : SparseTree
deep = record {
  trunk = timed 1 0 100 ∷ [];
  branches = entry 3 (timed 3 1 800) empty;
  heights = entry 1 (pos 0) (entry 3 (negsuc 2014) empty);
}

bitcoin_work_branch_example : bitcoin_work plain magnitude deep (timed 3 1 800) ≡ ok 1000
unfolding lookup count height
bitcoin_work_branch_example =
    bitcoin_work_branch plain magnitude deep (timed 3 1 800) 2014 refl refl refl

dogecoin_work-IsNext_example :
    (b : ℕ) × (dogecoin_work plain magnitude 9 times (timed 2 1 700) ≡ ok b)
    × IsNext plain magnitude (all_ones 20) 14400 900 57600 9 false true 1000 1000 b
unfolding lookup count height
dogecoin_work-IsNext_example =
    dogecoin_work-IsNext plain magnitude times (timed 2 1 700) (timed 2 1 700) 1 [] (pos 1) 1000
      (here refl refl) refl refl 9 2 refl

-- The hash 700 of a block is enough, and so is that of its parent.
small_enough :
    (check_proof_of_work plain magnitude 5000 700 1000 ≡ true)
    ↔ ((n : ℕ) × (plain 1000 ≡ pos n) × (0 < n) × (n ≤ 5000) × (700 ≤ n))
small_enough = check_proof_of_work_lem plain magnitude 5000 700 1000 (λ n h. refl) (omega arith)
