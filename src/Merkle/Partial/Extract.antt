-- ===== src/Merkle/Partial/Extract.antt =====
-- The traversal of a subtree that was built.
use mathlib.Core.List.{append_assoc, append-nil}
use Prim.Native.Nat.{min}
use libcoin.Base.{
  ℕ, zero, suc, ◌+◌, ◌-◌, ◌*◌, ◌^◌, ◌<◌, ◌≡◌, refl, ap, sym, ◌∙◌, Bool, false, List, ◌++◌, length,
  get_or, ltb, arith, Bool-cases, inl, inr,
}
use libcoin.Merkle.Partial.{
  calc_tree_width, slice, any_true, take_hash, calc_hash, traverse_and_build, traverse_and_extract,
}
use libcoin.Merkle.Partial.Slices.{slice-suc, slice_beyond, place_suc, calc_tree_width_lem}
use libcoin.Merkle.Partial.Selected.{
  selected, selected-append, selected_none, length-slice, slice_leaf,
}

module _ (hash : ℕ → ℕ → ℕ) (txids : List ℕ) (wanted : List Bool) where
  abbrev pub n : ℕ
  n = length txids

  abbrev pub selected_in : ℕ → ℕ → List ℕ
  selected_in h pos = selected (slice h pos txids) (slice h pos wanted)

  -- The traversal uses what was built for a node, and gives its hash and its transactions.
  abbrev pub Extracts : ℕ → ℕ → Type 0
  Extracts h pos =
      (bits : List Bool) (stored matched : List ℕ)
      → let built = traverse_and_build hash n h pos txids wanted in
        traverse_and_extract hash n h pos (record {
          bits = built.0 ++ bits;
          stored = built.1 ++ stored;
          matched = matched;
          bad = false;
        })
        ≡ (
          calc_hash hash n h pos txids,
          record {
            bits = bits;
            stored = stored;
            matched = matched ++ selected_in h pos;
            bad = false;
          },
        )

  selected_suc :
      length txids ≡ length wanted
      → (h pos : ℕ)
      → selected_in (suc h) pos ≡ selected_in h (pos * 2) ++ selected_in h (pos * 2 + 1)
  selected_suc e h pos =
      rw (slice-suc h pos txids, slice-suc h pos wanted)
        (selected-append (slice h (pos * 2) txids) (slice h (pos * 2 + 1) txids)
          (slice h (pos * 2) wanted) (slice h (pos * 2 + 1) wanted)
          (length-slice h (pos * 2) txids
            ∙ ap (λ k. min (2 ^ h) (k - pos * 2 * 2 ^ h)) e
            ∙ sym (length-slice h (pos * 2) wanted)))

  extract_leaf : length txids ≡ length wanted → (pos : ℕ) → pos < length txids → Extracts zero pos
  unfolding traverse_and_build traverse_and_extract calc_hash take_hash any_true selected
  extract_leaf e pos here bits stored matched =
      rw (slice_leaf pos 0 txids here, slice_leaf pos false wanted (omega arith))
        (elim (Bool-cases (get_or wanted pos false)) [
          | inl found ↦ rw found refl
          | inr none ↦ rw (none, append-nil) refl
        ])

  extract_node :
      length txids ≡ length wanted
      → (h pos : ℕ) → Extracts h (pos * 2)
      → (pos * 2 + 1 < calc_tree_width n h → Extracts h (pos * 2 + 1))
      → Extracts (suc h) pos
  unfolding traverse_and_build traverse_and_extract calc_hash take_hash selected
  extract_node e h pos left right bits stored matched =
      let L = traverse_and_build hash n h (pos * 2) txids wanted in
      let R = traverse_and_build hash n h (pos * 2 + 1) txids wanted in
      elim (Bool-cases (any_true (slice (suc h) pos wanted))) [
        | inr none ↦
            rw
              (
                none,
                selected_none (slice (suc h) pos txids) (slice (suc h) pos wanted) none,
                append-nil,
              )
              refl
        | inl found ↦ elim (Bool-cases (ltb (pos * 2 + 1) (calc_tree_width n h))) [
          | inl two ↦
              rw
                (
                  found,
                  two,
                  append_assoc L.0 R.0 bits,
                  append_assoc L.1 R.1 stored,
                  left (R.0 ++ bits) (R.1 ++ stored) matched,
                  right (ground arith) bits stored (matched ++ selected_in h (pos * 2)),
                  selected_suc e h pos,
                  append_assoc matched (selected_in h (pos * 2)) (selected_in h (pos * 2 + 1)),
                  two,
                )
                refl
          | inr one ↦
              let last = (calc_tree_width_lem n h (pos * 2 + 1)).1 in
              rw
                (
                  found,
                  one,
                  left bits stored matched,
                  selected_suc e h pos,
                  slice_beyond h (pos * 2 + 1) txids (ground arith),
                  append-nil,
                  one,
                )
                refl
        ]
      ]

  pub extract_subtree :
      length txids ≡ length wanted → (h pos : ℕ) → pos < calc_tree_width n h → Extracts h pos
  extract_subtree e zero pos here =
      let leaf = (calc_tree_width_lem n 0 pos).0 here in extract_leaf e pos (omega arith)
  extract_subtree e (suc h) pos here =
      let some = (calc_tree_width_lem n (suc h) pos).0 here in
      let same = place_suc h pos in
      let first = (calc_tree_width_lem n h (pos * 2)).1 in
      extract_node e h pos (extract_subtree e h (pos * 2) (first (omega arith)))
        (extract_subtree e h (pos * 2 + 1))
