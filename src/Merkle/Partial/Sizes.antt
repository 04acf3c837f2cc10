-- ===== src/Merkle/Partial/Sizes.antt =====
-- `extractMatches` of the partial tree that `MerkleBlock` builds: the checks of its sizes hold.
use mathlib.Core.List.{append-nil}
use mathlib.Core.Path.{subst}
use native.Mathlib.Nat.{pow-suc, one-le-pow, zero-add, add-zero}
use libcoin.Base.{
  ℕ, zero, suc, ◌+◌, ◌-◌, ◌*◌, ◌/◌, ◌^◌, ◌<◌, ◌≤◌, ◌≡◌, refl, ap, sym, ◌∙◌, Bool, true, false, List,
  [], ◌++◌, length, ltb, ◌==◌, arith, Bool-cases, inl, inr, length-append,
}
use libcoin.Merkle.Partial.{
  calc_tree_width, climb_height, tree_height, slice, calc_hash, traverse_and_build,
  traverse_and_extract, MerkleBlock, build_merkle_block, check_used, extract_matches,
}
use libcoin.Merkle.Partial.Slices.{slice-suc, take_all, place_suc, calc_tree_width_lem}
use libcoin.Merkle.Partial.Selected.{selected, length-slice}
use libcoin.Merkle.Partial.Extract.{extract_subtree}

module _ (hash : ℕ → ℕ → ℕ) (txids : List ℕ) (wanted : List Bool) where
  abbrev n : ℕ
  n = length txids

  -- No more hashes are built than bits, and than there are leaves.
  abbrev IsSmall : ℕ → ℕ → Type 0
  IsSmall h pos =
      let built = traverse_and_build hash n h pos txids wanted in
      (length built.1 ≤ length built.0) × (length built.1 ≤ length (slice h pos txids))

  slice_some : (h pos : ℕ) → pos * 2 ^ h < length txids → 1 ≤ length (slice h pos txids)
  slice_some h pos here =
      let some = one-le-pow h 2 (omega arith) in let size = length-slice h pos txids in omega arith

  IsSmall-subtree : (h pos : ℕ) → pos < calc_tree_width n h → IsSmall h pos
  unfolding traverse_and_build
  IsSmall-subtree zero pos here =
      (omega arith, slice_some zero pos ((calc_tree_width_lem n zero pos).0 here))
  IsSmall-subtree (suc h) pos here =
      let L = traverse_and_build hash n h (pos * 2) txids wanted in
      let R = traverse_and_build hash n h (pos * 2 + 1) txids wanted in
      let inside = (calc_tree_width_lem n (suc h) pos).0 here in
      let same = place_suc h pos in
      let some = slice_some (suc h) pos inside in
      let first =
        IsSmall-subtree h (pos * 2) ((calc_tree_width_lem n h (pos * 2)).1 (omega arith)) in
      let whole = ap length (slice-suc h pos txids) in
      let parts = length-append (slice h (pos * 2) txids) (slice h (pos * 2 + 1) txids) in
      let bits = length-append L.0 R.0 in
      let hashes = length-append L.1 R.1 in ground (arith, IsSmall-subtree h (pos * 2 + 1))

-- The height is enough for all leaves.
climb_height-le : (n fuel h : ℕ) → n ≤ 2 ^ (h + fuel) → n ≤ 2 ^ climb_height n fuel h
unfolding climb_height
climb_height-le n zero h e = rw (← add-zero h) e
climb_height-le n (suc fuel) h e = elim (Bool-cases (ltb 1 (calc_tree_width n h))) [
  | inl more ↦
      let same : h + suc fuel ≡ suc h + fuel = omega arith in
      rw more (climb_height-le n fuel (suc h) (subst (λ k. n ≤ 2 ^ k) same e))
  | inr done ↦ let top = (calc_tree_width_lem n h 1).1 in rw done (ground arith)
]

le-two_pow : (n : ℕ) → n ≤ 2 ^ n
le-two_pow zero = omega arith
le-two_pow (suc n) =
    let some = one-le-pow n 2 (omega arith) in omega (arith, pow-suc 2 n, le-two_pow n)

pub tree_height-le : (n : ℕ) → n ≤ 2 ^ tree_height n
tree_height-le n = climb_height-le n n 0 (rw (zero-add n) (le-two_pow n))

module _ (hash : ℕ → ℕ → ℕ) (txids : List ℕ) (wanted : List Bool) where
  abbrev top_height : ℕ
  top_height = tree_height (length txids)

  abbrev top_built : List Bool × List ℕ
  top_built = traverse_and_build hash (length txids) top_height 0 txids wanted

  slice_root {ℓ} :
      {A : Type ℓ} (xs : List A) → length xs ≤ 2 ^ top_height → slice top_height 0 xs ≡ xs
  slice_root xs e =
      let start : 0 * 2 ^ top_height ≡ 0 = omega arith in rw start (take_all (2 ^ top_height) xs e)

  root-pos : 0 < length txids → 0 < calc_tree_width (length txids) top_height
  root-pos some = (calc_tree_width_lem (length txids) top_height 0).1 (omega arith)

  extract_root :
      (pad : List Bool)
      → length txids ≡ length wanted
      → 0 < length txids
      → traverse_and_extract hash
          (length txids)
          top_height
          0
          (record { bits = top_built.0 ++ pad; stored = top_built.1; matched = []; bad = false })
        ≡ (
          calc_hash hash (length txids) top_height 0 txids,
          record { bits = pad; stored = []; matched = selected txids wanted; bad = false },
        )
  extract_root pad e some =
      let enough = tree_height-le (length txids) in
      let done = extract_subtree hash txids wanted e top_height 0 (root-pos some) pad [] [] in
      let first = slice_root txids enough in
      let second = slice_root wanted (omega arith) in
      let all : selected (slice top_height 0 txids) (slice top_height 0 wanted)
          ≡ selected txids wanted =
        rw (first, second) refl in
      let padded : traverse_and_extract hash (length txids) top_height 0 (record {
        bits = top_built.0 ++ pad;
        stored = top_built.1 ++ [];
        matched = [];
        bad = false;
      })
          ≡ (
            calc_hash hash (length txids) top_height 0 txids,
            record { bits = pad; stored = []; matched = selected txids wanted; bad = false },
          ) =
        done
        ∙ ap
            (λ m. (
              calc_hash hash (length txids) top_height 0 txids,
              record { bits = pad; stored = []; matched = m; bad = false },
            ))
            all in
      rw (append-nil top_built.1) at padded

  -- The partial tree with more bits, up to the end of a byte.
  abbrev pub padded_block : List Bool → MerkleBlock
  padded_block pad = record {
    transactions = length txids;
    matches = top_built.0 ++ pad;
    hashes = top_built.1;
    bad = false;
  }

  pub extract_matches-padded_block :
      (pad : List Bool)
      → (length top_built.0 + 7) / 8 ≡ (length top_built.0 + length pad + 7) / 8
      → length txids ≡ length wanted
      → 0 < length txids
      → length txids ≤ 16666
      → extract_matches hash (padded_block pad) ≡ (
        calc_hash hash (length txids) (tree_height (length txids)) 0 txids,
        selected txids wanted,
      )
  unfolding extract_matches check_used
  extract_matches-padded_block pad bytes e some few =
      let no : (length txids == 0) ≡ false = ground arith in
      let fits : ltb 16666 (length txids) ≡ false = ground arith in
      let enough = tree_height-le (length txids) in
      let (bits, hashes) = IsSmall-subtree hash txids wanted top_height 0 (root-pos some) in
      let whole = ap length (slice_root txids enough) in
      let size = length-append top_built.0 pad in
      let few_hashes : ltb (length txids) (length top_built.1) ≡ false = ground arith in
      let few_bits : ltb (length (top_built.0 ++ pad)) (length top_built.1) ≡ false =
        ground arith in
      let used : length (top_built.0 ++ pad) - length pad ≡ length top_built.0 = omega arith in
      let all_bits : ((length (top_built.0 ++ pad) - length pad + 7) / 8
            == (length (top_built.0 ++ pad) + 7) / 8)
          ≡ true =
        rw (used, size) (ground arith) in
      let all_hashes : (length top_built.1 - 0 == length top_built.1) ≡ true = ground arith in
      rw (no, fits, few_hashes, few_bits, extract_root pad e some, all_bits, all_hashes) refl

  -- From the partial tree of one to 16666 transactions `extractMatches` gets the root of the tree and
  -- the hashes of the matched transactions in their order.
  pub extract_matches-build_merkle_block :
      length txids ≡ length wanted
      → 0 < length txids
      → length txids ≤ 16666
      → extract_matches hash (build_merkle_block hash txids wanted) ≡ (
        calc_hash hash (length txids) (tree_height (length txids)) 0 txids,
        selected txids wanted,
      )
  unfolding build_merkle_block
  extract_matches-build_merkle_block e some few =
      let whole : padded_block [] ≡ build_merkle_block hash txids wanted =
        ap
          (λ bits. record {
            transactions = length txids;
            matches = bits;
            hashes = top_built.1;
            bad = false;
          })
          (append-nil top_built.0) in
      ap (extract_matches hash) (sym whole)
      ∙ extract_matches-padded_block [] (ap (λ k. (k + 7) / 8) (omega arith)) e some few
