-- ===== src/BlockTree/Sparse/Extend.antt =====
-- A tree whose trunk grows by one block at its end stays linked.
use libcoin.Base.{
  ℕ, zero, suc, ◌<◌, ◌≡◌, ◌⊎◌, ◌∙◌, refl, ap, sym, List, [], ◌∷◌, ◌++◌, none, some, get_elem?,
  length, arith, inl, inr, ◌==◌, if◌then◌else◌, Bool-cases,
}
use libcoin.Base.Int.{pos, negsuc}
use libcoin.Base.Map.{lookup}
use libcoin.BlockTree.Sparse.{BlockRef, SparseTree}
use libcoin.BlockTree.Sparse.Walk.{IsLinked, IsBelow}

module _ {ℓ} {A : Type ℓ} where
  pub get_elem?-append_left :
      (xs ys : List A) (i : ℕ) {a : A} → get_elem? xs i ≡ some a → get_elem? (xs ++ ys) i ≡ some a
  get_elem?-append_left [] ys i e = cc
  get_elem?-append_left (x ∷ xs) ys zero e = e
  get_elem?-append_left (x ∷ xs) ys (suc i) e = get_elem?-append_left xs ys i e

  pub get_elem?-append_last :
      (xs : List A) (x : A) (i : ℕ) → i ≡ length xs → get_elem? (xs ++ x ∷ []) i ≡ some x
  get_elem?-append_last [] x zero e = refl
  get_elem?-append_last [] x (suc i) e = absurd (omega arith)
  get_elem?-append_last (y ∷ xs) x zero e = absurd (omega arith)
  get_elem?-append_last (y ∷ xs) x (suc i) e = get_elem?-append_last xs x i (omega arith)

  pub get_elem?-snoc :
      (xs : List A) (x : A) (i : ℕ) {a : A}
      → get_elem? (xs ++ x ∷ []) i ≡ some a
      → ((get_elem? xs i ≡ some a) × (i < length xs)) ⊎ ((i ≡ length xs) × (x ≡ a))
  get_elem?-snoc [] x zero e = inr (refl, cc)
  get_elem?-snoc [] x (suc i) e = cc
  get_elem?-snoc (y ∷ xs) x zero e = inl (e, omega arith)
  get_elem?-snoc (y ∷ xs) x (suc i) e = elim (get_elem?-snoc xs x i e) [
    | inl (old, h) ↦ inl (old, omega arith)
    | inr (h, same) ↦ inr (omega arith, same)
  ]

module _ (t u : SparseTree) (e : BlockRef) (linked : IsLinked t)
    (trunk_is : u.trunk ≡ t.trunk ++ e ∷ [])
    (heights_are : (x : ℕ)
      → lookup x u.heights
        ≡ (if x == e.hash then some (pos (length t.trunk)) else lookup x t.heights))
    (branches_are : (x : ℕ)
      → lookup x u.branches ≡ (if x == e.hash then none else lookup x t.branches))
    (off_trunk : (lookup e.hash t.heights ≡ none)
      ⊎ ((k : ℕ) × (suc k ≡ length t.trunk) × (lookup e.hash t.heights ≡ some (negsuc k))))
    (follows : (i : ℕ) (a : BlockRef)
      → get_elem? t.trunk i ≡ some a
      → suc i ≡ length t.trunk
      → e.prev ≡ a.hash) where
  extend_trunk_height :
      (i : ℕ) (b : BlockRef) → get_elem? u.trunk i ≡ some b → lookup b.hash u.heights ≡ some (pos i)
  extend_trunk_height i b at =
      elim (get_elem?-snoc t.trunk e i (ap (λ l. get_elem? l i) (sym trunk_is) ∙ at)) [
        | inl (old, h) ↦ ground (arith, linked.trunk_height i b old, heights_are b.hash)
        | inr (h, same) ↦ ground (arith, heights_are b.hash, ap (λ (c : BlockRef). c.hash) same)
      ]

  extend_on_trunk :
      (x n : ℕ)
      → lookup x u.heights ≡ some (pos n)
      → (b : BlockRef) × (get_elem? u.trunk n ≡ some b) × (b.hash ≡ x)
  extend_on_trunk x n at = elim (Bool-cases (x == e.hash)) [
    | inl same ↦ (
      e,
      ap (λ l. get_elem? l n) trunk_is
          ∙ get_elem?-append_last t.trunk e n (ground (arith, heights_are x)),
      ground arith,
    )
    | inr other ↦
        let (b, old, is) = linked.on_trunk x n (ground (arith, heights_are x)) in
        (b, ap (λ l. get_elem? l n) trunk_is ∙ get_elem?-append_left t.trunk (e ∷ []) n old, is)
  ]

  extend_IsBelow : (b : BlockRef) (k : ℕ) → IsBelow t b k → IsBelow u b k
  extend_IsBelow b k below = elim (Bool-cases (b.prev == e.hash)) [
    | inl same ↦
        let prev : lookup b.prev t.heights ≡ lookup e.hash t.heights =
          ap (λ y. lookup y t.heights) (ground arith) in
        ground (arith, heights_are b.prev, prev)
    | inr other ↦ ground (arith, heights_are b.prev)
  ]

  extend_on_branch :
      (x k : ℕ)
      → lookup x u.heights ≡ some (negsuc k)
      → (b : BlockRef) × (lookup x u.branches ≡ some b) × (b.hash ≡ x) × IsBelow u b k
  extend_on_branch x k at =
      let (b, branch, is, below) = linked.on_branch x k (ground (arith, heights_are x)) in
      (b, ground (arith, heights_are x, branches_are x), is, extend_IsBelow b k below)

  extend_in_branch :
      (x : ℕ) (b : BlockRef)
      → lookup x u.branches ≡ some b
      → (k : ℕ) × (lookup x u.heights ≡ some (negsuc k))
  extend_in_branch x b at =
      let (k, old) = linked.in_branch x b (ground (arith, branches_are x)) in
      (k, ground (arith, heights_are x, branches_are x))

  extend_chained :
      (i : ℕ) (a b : BlockRef)
      → get_elem? u.trunk i ≡ some a
      → get_elem? u.trunk (suc i) ≡ some b
      → b.prev ≡ a.hash
  extend_chained i a b at next =
      let here = get_elem?-snoc t.trunk e i (ap (λ l. get_elem? l i) (sym trunk_is) ∙ at) in
      elim (get_elem?-snoc t.trunk e (suc i)
        (ap (λ l. get_elem? l (suc i)) (sym trunk_is) ∙ next)) [
          | inl (old, h) ↦ elim here [
            | inl (was, _) ↦ linked.chained i a b was old
            | inr (end, _) ↦ absurd (omega arith)
          ]
          | inr (h, same) ↦ elim here [
            | inl (was, _) ↦ ap (λ (c : BlockRef). c.prev) (sym same) ∙ follows i a was h
            | inr (end, _) ↦ absurd (omega arith)
          ]
        ]

  pub extend-IsLinked : IsLinked u
  extend-IsLinked = record {
    trunk_height = extend_trunk_height;
    on_trunk = extend_on_trunk;
    on_branch = extend_on_branch;
    in_branch = extend_in_branch;
    chained = extend_chained;
  }
