-- ===== src/BlockTree/Sparse/Cut.antt =====
-- A tree whose trunk is cut above a block, with the blocks above it on branches, stays linked.
use mathlib.Core.Path.{subst}
use libcoin.Base.{
  ℕ, zero, suc, ◌<◌, ◌≤◌, ◌≡◌, ◌∙◌, refl, ap, sym, List, [], ◌∷◌, Option, none, some, get_elem?,
  take, length, arith, inl, inr, Bool-cases, ltb, if◌then◌else◌,
}
use libcoin.Base.Int.{ℤ, pos, negsuc}
use libcoin.Base.Map.{lookup}
use libcoin.BlockTree.Sparse.{BlockRef, SparseTree}
use libcoin.BlockTree.Sparse.Walk.{IsLinked, IsBelow}

module _ {ℓ} {A : Type ℓ} where
  pub get_elem?-take :
      (n i : ℕ) (xs : List A) {a : A}
      → get_elem? (take n xs) i ≡ some a
      → (get_elem? xs i ≡ some a) × (i < n)
  get_elem?-take zero i xs e = cc
  get_elem?-take (suc n) i [] e = cc
  get_elem?-take (suc n) zero (x ∷ xs) e = (e, omega arith)
  get_elem?-take (suc n) (suc i) (x ∷ xs) e =
      let (old, h) = get_elem?-take n i xs e in (old, omega arith)

  pub get_elem?-take_below :
      (n i : ℕ) (xs : List A) {a : A}
      → get_elem? xs i ≡ some a
      → i < n
      → get_elem? (take n xs) i ≡ some a
  get_elem?-take_below zero i xs e h = absurd (omega arith)
  get_elem?-take_below (suc n) i [] e h = cc
  get_elem?-take_below (suc n) zero (x ∷ xs) e h = e
  get_elem?-take_below (suc n) (suc i) (x ∷ xs) e h = get_elem?-take_below n i xs e (omega arith)

  pub get_elem?-below :
      (xs : List A) (i j : ℕ) {a : A}
      → get_elem? xs i ≡ some a
      → j ≤ i
      → (b : A) × (get_elem? xs j ≡ some b)
  get_elem?-below [] i j e h = cc
  get_elem?-below (x ∷ xs) i zero e h = (x, refl)
  get_elem?-below (x ∷ xs) zero (suc j) e h = absurd (omega arith)
  get_elem?-below (x ∷ xs) (suc i) (suc j) e h = get_elem?-below xs i j e (omega arith)

pub get_elem?-length :
    {A : Type 0} (xs : List A) (n : ℕ) {a : A} → get_elem? xs n ≡ some a → n < length xs
get_elem?-length [] n e = absurd (ground arith)
get_elem?-length (x ∷ xs) zero e = omega arith
get_elem?-length (x ∷ xs) (suc n) e = let h = get_elem?-length xs n e in omega arith

-- A height once the blocks above `n` are off the trunk.
abbrev pub cut_height : ℕ → Option ℤ → Option ℤ
cut_height n none = none
cut_height n (some (negsuc k)) = some (negsuc k)
cut_height n (some (pos zero)) = some (pos zero)
cut_height n (some (pos (suc m))) = if ltb n (suc m) then some (negsuc m) else some (pos (suc m))

cut_height-pos :
    (n m : ℕ) (h : Option ℤ) → cut_height n h ≡ some (pos m) → (h ≡ some (pos m)) × (m ≤ n)
cut_height-pos n m none e = cc
cut_height-pos n m (some (negsuc k)) e = ground arith
cut_height-pos n m (some (pos zero)) e = ground arith
cut_height-pos n m (some (pos (suc i))) e = ground arith

module _ (t u : SparseTree) (n : ℕ) (linked : IsLinked t)
    (trunk_is : u.trunk ≡ take (suc n) t.trunk)
    (heights_are : (x : ℕ) → lookup x u.heights ≡ cut_height n (lookup x t.heights))
    (moved : (x m : ℕ) (e : BlockRef)
      → lookup x t.heights ≡ some (pos m)
      → n < m
      → get_elem? t.trunk m ≡ some e
      → lookup x u.branches ≡ some e)
    (stayed : (x : ℕ)
      → ((m : ℕ) → lookup x t.heights ≡ some (pos m) → m ≤ n)
      → lookup x u.branches ≡ lookup x t.branches) where
  old_trunk :
      (i : ℕ) (e : BlockRef)
      → get_elem? u.trunk i ≡ some e
      → (get_elem? t.trunk i ≡ some e) × (i < suc n)
  old_trunk i e at = get_elem?-take (suc n) i t.trunk (ap (λ l. get_elem? l i) (sym trunk_is) ∙ at)

  cut_trunk_height :
      (i : ℕ) (e : BlockRef) → get_elem? u.trunk i ≡ some e → lookup e.hash u.heights ≡ some (pos i)
  cut_trunk_height zero e at =
      let (old, h) = old_trunk zero e at in
      heights_are e.hash ∙ ap (cut_height n) (linked.trunk_height zero e old)
  cut_trunk_height (suc i) e at =
      let (old, h) = old_trunk (suc i) e at in
      heights_are e.hash ∙ ap (cut_height n) (linked.trunk_height (suc i) e old) ∙ ground arith

  cut_on_trunk :
      (x m : ℕ)
      → lookup x u.heights ≡ some (pos m)
      → (e : BlockRef) × (get_elem? u.trunk m ≡ some e) × (e.hash ≡ x)
  cut_on_trunk x m at =
      let (was, low) = cut_height-pos n m (lookup x t.heights) (sym (heights_are x) ∙ at) in
      let (e, old, is) = linked.on_trunk x m was in
      (
        e,
        ap (λ l. get_elem? l m) trunk_is ∙ get_elem?-take_below (suc n) m t.trunk old (omega arith),
        is,
      )

  cut_IsBelow : (e : BlockRef) (k : ℕ) → IsBelow t e k → IsBelow u e k
  cut_IsBelow e zero (inl at) = inl (heights_are e.prev ∙ ap (cut_height n) at)
  cut_IsBelow e (suc k) (inl at) = elim (Bool-cases (ltb n (suc k))) [
    | inl above ↦ inr (k, refl, heights_are e.prev ∙ ap (cut_height n) at ∙ rw above refl)
    | inr low ↦ inl (heights_are e.prev ∙ ap (cut_height n) at ∙ rw low refl)
  ]
  cut_IsBelow e k (inr (j, same, at)) = inr (j, same, heights_are e.prev ∙ ap (cut_height n) at)

  -- A block that left the trunk.
  cut_moved :
      (x m : ℕ)
      → lookup x t.heights ≡ some (pos (suc m))
      → n < suc m
      → (e : BlockRef) × (lookup x u.branches ≡ some e) × (e.hash ≡ x) × IsBelow u e m
  cut_moved x m at above =
      let (e, old, is) = linked.on_trunk x (suc m) at in
      let (a, before) = get_elem?-below t.trunk (suc m) m old (omega arith) in
      let follows = linked.chained m a e before old in
      (
        e,
        moved x (suc m) e at above old,
        is,
        cut_IsBelow e m
            (inl (ap (λ y. lookup y t.heights) follows ∙ linked.trunk_height m a before)),
      )

  cut_branch :
      (x k : ℕ) (h : Option ℤ)
      → lookup x t.heights ≡ h
      → cut_height n h ≡ some (negsuc k)
      → (e : BlockRef) × (lookup x u.branches ≡ some e) × (e.hash ≡ x) × IsBelow u e k
  cut_branch x k none at e = cc
  cut_branch x k (some (pos zero)) at e = absurd (ground arith)
  cut_branch x k (some (pos (suc m))) at e = elim (Bool-cases (ltb n (suc m))) [
    | inl above ↦
        let same : m ≡ k = ground arith in
        let (b, branch, is, below) = cut_moved x m at (ground arith) in
        (b, branch, is, subst (IsBelow u b) same below)
    | inr low ↦ absurd (ground arith)
  ]
  cut_branch x k (some (negsuc j)) at e =
      let same : j ≡ k = ground arith in
      let (b, branch, is, below) = linked.on_branch x j at in
      (
        b,
        stayed x (λ m other. ground arith) ∙ branch,
        is,
        cut_IsBelow b k (subst (IsBelow t b) same below),
      )

  cut_in_branch :
      (x : ℕ) (e : BlockRef) (h : Option ℤ)
      → lookup x t.heights ≡ h
      → lookup x u.branches ≡ some e
      → (k : ℕ) × (lookup x u.heights ≡ some (negsuc k))
  cut_in_branch x e none at branch =
      let (k, off) = linked.in_branch x e (sym (stayed x (λ m other. ground arith)) ∙ branch) in
      absurd (ground arith)
  cut_in_branch x e (some (negsuc k)) at branch = (k, heights_are x ∙ ap (cut_height n) at)
  cut_in_branch x e (some (pos zero)) at branch =
      let (k, off) = linked.in_branch x e (sym (stayed x (λ m other. ground arith)) ∙ branch) in
      absurd (ground arith)
  cut_in_branch x e (some (pos (suc m))) at branch = elim (Bool-cases (ltb n (suc m))) [
    | inl above ↦ (m, heights_are x ∙ ap (cut_height n) at ∙ rw above refl)
    | inr low ↦
        let (k, off) = linked.in_branch x e (sym (stayed x (λ i other. ground arith)) ∙ branch) in
        absurd (ground arith)
  ]

  pub cut-IsLinked : IsLinked u
  cut-IsLinked = record {
    trunk_height = cut_trunk_height;
    on_trunk = cut_on_trunk;
    on_branch = λ x k at. cut_branch x k (lookup x t.heights) refl (sym (heights_are x) ∙ at);
    in_branch = λ x e branch. cut_in_branch x e (lookup x t.heights) refl branch;
    chained =
        λ i a b at next. linked.chained i a b (old_trunk i a at).0 (old_trunk (suc i) b next).0;
  }
