-- ===== src/Tests/MerkleTrees.antt =====
-- Merkle trees over a hash that shows its arguments.
use libcoin.Base.{ℕ, ◌+◌, ◌*◌, ◌≡◌, refl, inl, [], ◌∷◌, arith, true, false, Bool, List, ok, ◌++◌}
use libcoin.Base.Int.{pos}
use libcoin.Merkle.{
  Tree, full_tree, push_levels, push_pairs, build_merkle_tree, get_merkle_branch,
  check_merkle_branch,
}
use libcoin.Merkle.Levels.{Root}
use libcoin.Merkle.Build.{build_merkle_tree-Root}
use libcoin.Block.{BlockHeader}
use libcoin.Merkle.Partial.{
  MerkleBlock, build_merkle_block, extract_matches, traverse_and_build, any_true, calc_hash,
  climb_height, calc_tree_width,
}
use libcoin.Merkle.Partial.Wire.{write_merkle_block, read_merkle_block}
use libcoin.Merkle.Partial.Wire.Padded.{
  MerkleBlockFits, received, extract_matches-read_merkle_block,
}
use libcoin.Merkle.Partial.Root.{extract_matches-build_merkle_tree}
use libcoin.Merkle.Partial.Selected.{selected}
use libcoin.Merkle.Branch.{check_merkle_branch-get_merkle_branch}

abbrev mix : ℕ → ℕ → ℕ
mix a b = 10 * a + b + 1

abbrev five : Tree
five = record { transactions = 1 ∷ 2 ∷ 3 ∷ 4 ∷ 5 ∷ []; merkle_tree = [] }

abbrev six : Tree
six = record { transactions = 1 ∷ 2 ∷ 3 ∷ 4 ∷ 5 ∷ 5 ∷ []; merkle_tree = [] }

five_tree :
    full_tree mix five.transactions ≡ 1 ∷ 2 ∷ 3 ∷ 4 ∷ 5 ∷ 13 ∷ 35 ∷ 56 ∷ 166 ∷ 617 ∷ 2278 ∷ []
unfolding full_tree push_levels push_pairs
five_tree = refl

build_merkle_tree-Root_example : Root mix (1 ∷ 2 ∷ 3 ∷ 4 ∷ 5 ∷ []) (build_merkle_tree mix five).1
build_merkle_tree-Root_example = build_merkle_tree-Root mix five 1 (2 ∷ 3 ∷ 4 ∷ 5 ∷ []) refl

check_merkle_branch-get_merkle_branch_example :
    check_merkle_branch mix 4 (get_merkle_branch mix five 3) (pos 3)
    ≡ (build_merkle_tree mix five).1
check_merkle_branch-get_merkle_branch_example =
    check_merkle_branch-get_merkle_branch mix five 3 (inl refl) (omega arith)

extract_matches-build_merkle_tree_example :
    extract_matches mix
      (build_merkle_block mix five.transactions (false ∷ true ∷ false ∷ false ∷ true ∷ []))
    ≡ (
      (build_merkle_tree mix five).1,
      selected five.transactions (false ∷ true ∷ false ∷ false ∷ true ∷ []),
    )
extract_matches-build_merkle_tree_example =
    extract_matches-build_merkle_tree mix five (false ∷ true ∷ false ∷ false ∷ true ∷ []) refl
      (omega arith) (omega arith)

abbrev zero_header : BlockHeader
zero_header = record {
  version = 1;
  prev_block = 0;
  merkle_root = 2278;
  time = 9;
  bits = 7;
  nonce = 3;
}

abbrev choice : List Bool
choice = false ∷ true ∷ false ∷ false ∷ true ∷ []

abbrev sent : MerkleBlock
sent = build_merkle_block mix five.transactions choice

sent-MerkleBlockFits : MerkleBlockFits sent
unfolding build_merkle_block traverse_and_build any_true calc_hash climb_height calc_tree_width
sent-MerkleBlockFits = record {
  transactions = omega arith;
  hashes = (omega arith, (omega arith, (omega arith, (omega arith, (omega arith, tt)))));
  bits = omega arith;
}

extract_matches-read_merkle_block_example :
    (read_merkle_block (write_merkle_block (zero_header, sent) ++ 8 ∷ [])
      ≡ ok ((zero_header, received sent), 8 ∷ []))
    × (extract_matches mix (received sent)
        ≡ ((build_merkle_tree mix five).1, selected five.transactions choice))
extract_matches-read_merkle_block_example =
    extract_matches-read_merkle_block mix zero_header five choice (8 ∷ [])
      (record {
        version = omega arith;
        prev_block = omega arith;
        merkle_root = omega arith;
        time = omega arith;
        bits = omega arith;
        nonce = omega arith;
      })
      sent-MerkleBlockFits refl (omega arith) (omega arith)
