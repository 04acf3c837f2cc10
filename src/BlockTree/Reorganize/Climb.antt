-- ===== src/BlockTree/Reorganize/Climb.antt =====
-- The loop of `insert` that puts the branch of the new block on the trunk, as a whole.
use mathlib.Core.List.{append_assoc, append-nil, reverse, reverse-cons}
use libcoin.Base.{
  ℕ, suc, ◌+◌, ◌≡◌, ◌∙◌, refl, ap, sym, List, [], ◌∷◌, ◌++◌, none, some, get_elem?, length,
  length-append, arith, inl, inr, false, ◌==◌, Bool-cases, ok,
}
use libcoin.Base.Int.{ℤ, negsuc}
use libcoin.Base.Map.{lookup, lookup-erase}
use libcoin.BlockTree.Sparse.{BlockRef, SparseTree}
use libcoin.BlockTree.Sparse.Extend.{get_elem?-snoc}
use libcoin.BlockTree.Sparse.Walk.{Descends, here, down}
use libcoin.BlockTree.Reorganize.{BlockTree, promote_all}
use libcoin.BlockTree.Reorganize.Demote.{hashes_of}
use libcoin.BlockTree.Reorganize.Promote.{
  IsTree, Climbs, Climbs-keeps, Climbs-append, promoted, promote-ok, promoted_heights,
  promoted-IsTree,
}

-- The last block of the trunk, if there is one, has the hash `x`.
abbrev pub EndsWith : List BlockRef → ℕ → Type 0
EndsWith trunk x =
    (i : ℕ) (a : BlockRef) → get_elem? trunk i ≡ some a → suc i ≡ length trunk → x ≡ a.hash

EndsWith-snoc : (trunk : List BlockRef) (b : BlockRef) → EndsWith (trunk ++ b ∷ []) b.hash
EndsWith-snoc trunk b i a at last = elim (get_elem?-snoc trunk b i at) [
  | inl (_, low) ↦ absurd (omega (arith, length-append trunk (b ∷ [])))
  | inr (_, same) ↦ ap BlockRef.hash same
]

-- The blocks are on the trunk `t` grew to.
pub record IsGrown (set_compact : ℕ → ℤ) (t : BlockTree) (bs : List BlockRef) (y : ℕ) : Type 0 where
  pub tree : BlockTree
  pub result : promote_all set_compact (hashes_of bs) t ≡ ok tree
  pub good : IsTree set_compact tree
  pub trunk_is : tree.trunk ≡ t.trunk ++ bs
  pub end : EndsWith tree.trunk y
  pub new : (z : ℕ) → lookup z t.heights ≡ none → lookup z tree.heights ≡ none

module _ (set_compact : ℕ → ℤ) where
  -- A block further up the branch is another one.
  further_differs :
      (t : BlockTree) (b : BlockRef) (k z i : ℕ)
      → lookup b.hash t.heights ≡ some (negsuc k)
      → lookup z t.heights ≡ some (negsuc (suc k + i))
      → (z == b.hash) ≡ false
  further_differs t b k z i at there = elim (Bool-cases (z == b.hash)) [
    | inr other ↦ other
    | inl same ↦
        let same' : z ≡ b.hash = ground arith in
        let both = ap (λ y. lookup y t.heights) same' in absurd (ground arith)
  ]

  pub grow :
      (bs : List BlockRef) (t : BlockTree) (x k y : ℕ)
      → IsTree set_compact t
      → suc k ≡ length t.trunk
      → EndsWith t.trunk x
      → Climbs t.sparse x k bs y
      → IsGrown set_compact t bs y
  unfolding promote_all
  grow [] t x k y tree size end same = record {
    tree = t;
    result = refl;
    good = tree;
    trunk_is = sym (append-nil t.trunk);
    end = λ i a at last. sym same ∙ end i a at last;
    new = λ z at. at;
  }
  grow (b ∷ bs) t x k y tree size end (prev, at, branch, rest) =
      let follows =
        λ (i : ℕ) (a : BlockRef) (e : get_elem? t.trunk i ≡ some a) (l : suc i ≡ length t.trunk).
          prev ∙ end i a e l in
      let u = promoted set_compact t b in
      let heights = promoted_heights set_compact t b tree k size at branch follows in
      let climbs =
        Climbs-keeps t.sparse u.sparse bs b.hash (suc k) y
          (λ z i there.
            let other = further_differs t b k z i at there in
            (heights z ∙ rw other refl, lookup-erase z b.hash t.branches ∙ rw other refl))
          rest in
      let g =
        grow bs u b.hash (suc k) y (promoted-IsTree set_compact t b tree k size at branch follows)
          (omega (arith, length-append t.trunk (b ∷ []))) (EndsWith-snoc t.trunk b) climbs in
      record {
        tree = g.tree;
        result = rw (promote-ok set_compact t b tree k size at branch follows) g.result;
        good = g.good;
        trunk_is = g.trunk_is ∙ append_assoc t.trunk (b ∷ []) bs;
        end = g.end;
        new = λ z none_there. g.new z (heights z ∙ ground arith);
      }

length-reverse : (bs : List BlockRef) → length (reverse bs) ≡ length bs
length-reverse [] = refl
length-reverse (b ∷ bs) =
    ap length (reverse-cons b bs)
    ∙ omega (arith, length-append (reverse bs) (b ∷ []), length-reverse bs)

-- The way down from a block is a branch, the other way round.
pub Descends-Climbs :
    (t : SparseTree) (root : BlockRef) (n : ℕ) {e : BlockRef} {path : List BlockRef}
    → Descends t root n e path
    → Climbs t root.hash n (reverse path) e.hash
Descends-Climbs t root n (here a b) = refl
Descends-Climbs t root n (down {p} {path} e h b q parent d) = rw (reverse-cons e path) (
    Climbs-append t (reverse path) root.hash n p.hash e (Descends-Climbs t root n d) q
      (h ∙ ap (λ i. some (negsuc (n + i))) (sym (length-reverse path))) b)

hashes_of-append : (xs bs : List BlockRef) → hashes_of (xs ++ bs) ≡ hashes_of xs ++ hashes_of bs
hashes_of-append [] bs = refl
hashes_of-append (a ∷ xs) bs = ap (◌∷◌ a.hash) (hashes_of-append xs bs)

pub reverse-hashes_of : (bs : List BlockRef) → reverse (hashes_of bs) ≡ hashes_of (reverse bs)
reverse-hashes_of [] = refl
reverse-hashes_of (b ∷ bs) =
    reverse-cons b.hash (hashes_of bs)
    ∙ ap (λ l. l ++ b.hash ∷ []) (reverse-hashes_of bs)
    ∙ sym (hashes_of-append (reverse bs) (b ∷ []))
    ∙ ap hashes_of (sym (reverse-cons b bs))
