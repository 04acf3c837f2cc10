-- ===== src/Merkle/Partial/Root.antt =====
-- The root that `extractMatches` gets is the Merkle root of the block.
use mathlib.Core.Path.{subst}
use libcoin.Base.{
  ℕ, zero, suc, ◌+◌, ◌*◌, ◌/◌, ◌<◌, ◌≤◌, ◌≡◌, refl, ap, sym, ◌∙◌, Bool, true, List, [], ◌∷◌, length,
  get_or, ltb, if◌then◌else◌, arith, Bool-cases, inl, inr,
}
use libcoin.Merkle.{Tree, build_merkle_tree}
use libcoin.Merkle.Build.{build_merkle_tree-Root}
use libcoin.Merkle.Levels.{up, length-up, Root, top, climbs}
use libcoin.Merkle.Partial.{
  calc_tree_width, climb_height, tree_height, calc_hash, build_merkle_block, extract_matches,
}
use libcoin.Merkle.Partial.Selected.{selected}
use libcoin.Merkle.Partial.Sizes.{tree_height-le, extract_matches-build_merkle_block}
use libcoin.Merkle.Partial.Slices.{place_suc, calc_tree_width_lem}

calc_tree_width_zero : (n : ℕ) → calc_tree_width n 0 ≡ n
unfolding calc_tree_width
calc_tree_width_zero n = omega arith

calc_tree_width-suc : (n h : ℕ) → calc_tree_width n (suc h) ≡ (calc_tree_width n h + 1) / 2
calc_tree_width-suc n h =
    let w = calc_tree_width n h in
    let half = (w + 1) / 2 in
    let above = calc_tree_width n (suc h) in
    ground (
      arith,
      calc_tree_width_lem n (suc h) half,
      calc_tree_width_lem n (suc h) above,
      calc_tree_width_lem n h (half * 2),
      calc_tree_width_lem n h (above * 2),
      place_suc h half,
      place_suc h above,
    )

-- While the height grows, the level has more than one node.
climb_height-lt : (n fuel h k : ℕ) → h ≤ k → k < climb_height n fuel h → 1 < calc_tree_width n k
unfolding climb_height
climb_height-lt n zero h k below e = absurd (omega arith)
climb_height-lt n (suc fuel) h k below e = elim (Bool-cases (ltb 1 (calc_tree_width n h))) [
  | inr done ↦ let e' : k < h = rw done at e in absurd (omega arith)
  | inl more ↦ elim (Bool-cases (ltb h k)) [
    | inl later ↦
        let e' : k < climb_height n fuel (suc h) = rw more at e in
        climb_height-lt n fuel (suc h) k (ground arith) e'
    | inr now ↦
        let same : h ≡ k = ground arith in subst (λ i. 1 < calc_tree_width n i) same (ground arith)
  ]
]

module _ (hash : ℕ → ℕ → ℕ) where
  -- A level from the leaves on.
  level : ℕ → List ℕ → List ℕ
  level zero xs = xs
  level (suc h) xs = up hash (level h xs)

  length-level : (h : ℕ) (xs : List ℕ) → length (level h xs) ≡ calc_tree_width (length xs) h
  unfolding level
  length-level zero xs = sym (calc_tree_width_zero (length xs))
  length-level (suc h) xs =
      length-up hash (level h xs)
      ∙ ap (λ k. (k + 1) / 2) (length-level h xs)
      ∙ sym (calc_tree_width-suc (length xs) h)

  -- The pair of a node at an even place.
  even_pair :
      (l : List ℕ) (pos place : ℕ)
      → place ≡ pos * 2
      → place < length l
      → get_or (up hash l) pos 0 ≡ (
          if ltb (place + 1) (length l)
          then hash (get_or l place 0) (get_or l (place + 1) 0)
          else hash (get_or l place 0) (get_or l place 0))
  even_pair [] pos place e h = absurd (omega arith)
  even_pair (x ∷ []) zero zero e h = refl
  even_pair (x ∷ []) pos (suc place) e h = absurd (omega arith)
  even_pair (x ∷ []) (suc pos) zero e h = absurd (omega arith)
  even_pair (x ∷ y ∷ r) zero zero e h =
      let two : ltb 1 (length (x ∷ y ∷ r)) ≡ true = ground arith in rw two refl
  even_pair (x ∷ y ∷ r) zero (suc place) e h = absurd (omega arith)
  even_pair (x ∷ y ∷ r) (suc pos) zero e h = absurd (omega arith)
  even_pair (x ∷ y ∷ r) (suc pos) (suc zero) e h = absurd (omega arith)
  even_pair (x ∷ y ∷ r) (suc pos) (suc (suc place)) e h =
      let later : suc (suc place) + 1 ≡ suc (suc (place + 1)) = omega arith in
      let same : ltb (suc (suc (place + 1))) (suc (suc (length r))) ≡ ltb (place + 1) (length r) =
        ground arith in
      rw (later, same) (even_pair r pos place (omega arith) (omega arith))

  calc_hash-level :
      (xs : List ℕ) (h pos : ℕ)
      → pos < calc_tree_width (length xs) h
      → calc_hash hash (length xs) h pos xs ≡ get_or (level h xs) pos 0
  unfolding calc_hash level
  calc_hash-level xs zero pos here = refl
  calc_hash-level xs (suc h) pos here =
      let size = length-level h xs in
      let half = calc_tree_width-suc (length xs) h in
      let left = calc_hash-level xs h (pos * 2) (omega arith) in
      elim (Bool-cases (ltb (pos * 2 + 1) (calc_tree_width (length xs) h))) [
        | inl two ↦
            rw (two, left, calc_hash-level xs h (pos * 2 + 1) (ground arith))
              (sym (even_pair (level h xs) pos (pos * 2) refl (omega arith) ∙ rw (size, two) refl))
        | inr one ↦
            rw (one, left)
              (sym (even_pair (level h xs) pos (pos * 2) refl (omega arith) ∙ rw (size, one) refl))
      ]

  level-up : (h : ℕ) (xs : List ℕ) → level h (up hash xs) ≡ level (suc h) xs
  unfolding level
  level-up zero xs = refl
  level-up (suc h) xs = ap (up hash) (level-up h xs)

  -- The first level of one node has the root.
  Root-level :
      (xs : List ℕ) (root h : ℕ)
      → Root hash xs root
      → length (level h xs) ≡ 1
      → ((k : ℕ) → k < h → 1 < length (level k xs))
      → get_or (level h xs) 0 0 ≡ root
  unfolding level
  Root-level _ _ zero (top x) one more = refl
  Root-level _ root (suc h) (top x) one more =
      absurd (let two = more 0 (omega arith) in omega arith)
  Root-level _ _ zero (climbs x y r above) one more = absurd (omega arith)
  Root-level _ root (suc h) (climbs x y r above) one more =
      let same = level-up h (x ∷ y ∷ r) in
      ap (λ l. get_or l 0 0) (sym same)
      ∙ Root-level (up hash (x ∷ y ∷ r)) root h above (ap length same ∙ one) (λ k e.
        subst (λ l. 1 < length l) (sym (level-up k (x ∷ y ∷ r))) (more (suc k) (omega arith)))

  block-Root :
      (b : Tree) (xs : List ℕ)
      → b.transactions ≡ xs
      → 0 < length xs
      → Root hash xs (build_merkle_tree hash b).1
  block-Root b [] e some = absurd (omega arith)
  block-Root b (x ∷ r) e some = build_merkle_tree-Root hash b x r e

  pub calc_hash-build_merkle_tree :
      (b : Tree)
      → 0 < length b.transactions
      → calc_hash hash
          (length b.transactions)
          (tree_height (length b.transactions))
          0
          b.transactions
        ≡ (build_merkle_tree hash b).1
  calc_hash-build_merkle_tree b some =
      let xs = b.transactions in
      let n = length xs in
      let h = tree_height n in
      let enough = tree_height-le n in
      let inside : 0 < calc_tree_width n h = (calc_tree_width_lem n h 0).1 (omega arith) in
      let narrow = (calc_tree_width_lem n h 1).0 in
      let one : length (level h xs) ≡ 1 = length-level h xs ∙ ground arith in
      calc_hash-level xs h 0 inside
      ∙ Root-level xs (build_merkle_tree hash b).1 h (block-Root b xs refl some) one (λ k e.
        subst (λ w. 1 < w) (sym (length-level k xs)) (climb_height-lt n n 0 k (omega arith) e))

  -- `extractMatches` gets from the partial tree of the one to 16666 transactions of a block the root
  -- that `buildMerkleTree` gives for the block, and the hashes of the matched transactions in their
  -- order.
  pub extract_matches-build_merkle_tree :
      (b : Tree) (wanted : List Bool)
      → length b.transactions ≡ length wanted
      → 0 < length b.transactions
      → length b.transactions ≤ 16666
      → extract_matches hash (build_merkle_block hash b.transactions wanted)
        ≡ ((build_merkle_tree hash b).1, selected b.transactions wanted)
  extract_matches-build_merkle_tree b wanted e some few =
      extract_matches-build_merkle_block hash b.transactions wanted e some few
      ∙ ap (λ root. (root, selected b.transactions wanted)) (calc_hash-build_merkle_tree b some)
