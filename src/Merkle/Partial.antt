-- ===== src/Merkle/Partial.antt =====
-- `MerkleBlock` of src/coinChain/MerkleBlock.cpp and include/coinChain/MerkleBlock.h: the partial tree
-- of the transactions of a block that a filter matches. `hash` stands for the hash of two nodes. With
-- less than 2 ^ 31 transactions no sum and no shift of the code leaves its 32 bits.
pub mod Slices
pub mod Extract
pub mod Root
pub mod Selected
pub mod Sizes
pub mod Wire
use libcoin.Base.{
  ℕ, zero, suc, ◌+◌, ◌-◌, ◌*◌, ◌/◌, ◌^◌, Bool, true, false, not, ◌&&◌, ◌||◌, List, [], ◌∷◌, ◌++◌,
  length, get_or, take, drop, ltb, leb, ◌==◌, if◌then◌else◌,
}

unfoldable pub calc_tree_width : ℕ → ℕ → ℕ
calc_tree_width transactions height = (transactions + 2 ^ height - 1) / 2 ^ height

-- `while (calcTreeWidth(nHeight) > 1) nHeight++;`, for `fuel` rounds at most.
unfoldable pub climb_height : ℕ → ℕ → ℕ → ℕ
climb_height transactions zero height = height
climb_height transactions (suc fuel) height =
    let rest = climb_height transactions fuel (suc height) in
    if ltb 1 (calc_tree_width transactions height) then rest else height

abbrev pub tree_height : ℕ → ℕ
tree_height transactions = climb_height transactions transactions 0

-- The places from `pos << height` on, and before `(pos+1) << height` and the end.
abbrev pub slice {ℓ} : {A : Type ℓ} → ℕ → ℕ → List A → List A
slice height pos xs = take (2 ^ height) (drop (pos * 2 ^ height) xs)

unfoldable pub any_true : List Bool → Bool
any_true [] = false
any_true (b ∷ bs) = b || any_true bs

-- `_transactions`, `_matches`, `_hashes` and `_bad`.
pub record MerkleBlock : Type 0 where
  pub transactions : ℕ
  pub matches : List Bool
  pub hashes : List ℕ
  pub bad : Bool

-- What a traversal has not used of `_matches` and `_hashes`, with `vMatch` and `_bad`.
pub record Progress : Type 0 where
  pub bits : List Bool
  pub stored : List ℕ
  pub matched : List ℕ
  pub bad : Bool

abbrev failed : Progress → ℕ × Progress
failed st = (0, record st { bad = true })

-- The stored hash of a node; `leaf` if it is a transaction that is matched.
unfoldable pub take_hash : Bool → Progress → ℕ × Progress
take_hash leaf st = elim st.stored [
  | [] ↦ failed st
  | h ∷ hs ↦
      (h, record st { stored = hs; matched = if leaf then st.matched ++ h ∷ [] else st.matched })
]

module _ (hash : ℕ → ℕ → ℕ) where
  module _ (transactions : ℕ) where
    unfoldable pub calc_hash : ℕ → ℕ → List ℕ → ℕ
    calc_hash zero pos txids = get_or txids pos 0
    calc_hash (suc height) pos txids =
        let left = calc_hash height (pos * 2) txids in
        let right = calc_hash height (pos * 2 + 1) txids in
        if ltb (pos * 2 + 1) (calc_tree_width transactions height)
        then hash left right
        else hash left left

    -- What `traverseAndBuild` appends to `_matches` and `_hashes`.
    unfoldable pub traverse_and_build : ℕ → ℕ → List ℕ → List Bool → List Bool × List ℕ
    traverse_and_build zero pos txids wanted =
        (any_true (slice 0 pos wanted) ∷ [], calc_hash zero pos txids ∷ [])
    traverse_and_build (suc height) pos txids wanted =
        let left = traverse_and_build height (pos * 2) txids wanted in
        let right = traverse_and_build height (pos * 2 + 1) txids wanted in
        if not (any_true (slice (suc height) pos wanted))
        then (false ∷ [], calc_hash (suc height) pos txids ∷ [])
        else if ltb (pos * 2 + 1) (calc_tree_width transactions height)
        then (true ∷ (left.0 ++ right.0), left.1 ++ right.1)
        else (true ∷ left.0, left.1)

    unfoldable pub traverse_and_extract : ℕ → ℕ → Progress → ℕ × Progress
    traverse_and_extract zero pos st = elim st.bits [
      | [] ↦ failed st
      | b ∷ bs ↦ take_hash b (record st { bits = bs })
    ]
    traverse_and_extract (suc height) pos st = elim st.bits [
      | [] ↦ failed st
      | b ∷ bs ↦
          let left = traverse_and_extract height (pos * 2) (record st { bits = bs }) in
          let right = traverse_and_extract height (pos * 2 + 1) left.1 in
          if not b
          then take_hash false (record st { bits = bs })
          else if ltb (pos * 2 + 1) (calc_tree_width transactions height)
          then (hash left.0 right.0, right.1)
          else (hash left.0 left.0, left.1)
    ]

  -- The end of the constructor, for the hashes of the transactions and which of them are relevant.
  unfoldable pub build_merkle_block : List ℕ → List Bool → MerkleBlock
  build_merkle_block txids wanted =
      let n = length txids in
      let built = traverse_and_build n (tree_height n) 0 txids wanted in
      record { transactions = n; matches = built.0; hashes = built.1; bad = false }

  -- The checks after the traversal of `extractMatches`; the bits are padded to bytes.
  unfoldable pub check_used : MerkleBlock → ℕ × Progress → ℕ
  check_used mb (root, st) =
      if st.bad
      then 0
      else if not ((length mb.matches - length st.bits + 7) / 8 == (length mb.matches + 7) / 8)
      then 0
      else if not (length mb.hashes - length st.stored == length mb.hashes)
      then 0
      else root

  -- `extractMatches`: what it returns, and `vMatch`.
  unfoldable pub extract_matches : MerkleBlock → ℕ × List ℕ
  extract_matches mb =
      let n = mb.transactions in
      let start : Progress = record {
        bits = mb.matches;
        stored = mb.hashes;
        matched = [];
        bad = mb.bad;
      } in
      let done = traverse_and_extract n (tree_height n) 0 start in
      if n == 0
      then (0, [])
      else if ltb (1000000 / 60) n
      then (0, [])
      else if ltb n (length mb.hashes)
      then (0, [])
      else if ltb (length mb.matches) (length mb.hashes)
      then (0, [])
      else (check_used mb done, done.1.matched)
