-- ===== src/BlockTree/Reorganize/Demote.antt =====
-- The part of `insert` that takes the blocks above the fork off the trunk.
use libcoin.Base.{
  ℕ, zero, suc, ◌+◌, ◌-◌, ◌<◌, ◌≤◌, ◌≡◌, ◌∙◌, refl, ap, sym, List, [], ◌∷◌, Option, none, some,
  get_elem?, take, drop, length, arith, inl, inr, false, Bool-cases, ltb, ◌==◌, map, ok,
}
use libcoin.Base.Int.{ℤ, pos, negsuc}
use libcoin.Base.Map.{Map, lookup, insert, lookup-insert}
use libcoin.BlockTree.Sparse.{BlockRef, SparseTree, forward}
use libcoin.BlockTree.Sparse.Cut.{cut_height, cut-IsLinked, get_elem?-length}
use libcoin.BlockTree.Sparse.Walk.{IsLinked, height-lookup}
use libcoin.BlockTree.Reorganize.{demote, flip, flip_all, negate}

-- The branches with blocks put in one after the other.
abbrev pub insert_all : List BlockRef → Map BlockRef → Map BlockRef
insert_all [] m = m
insert_all (b ∷ bs) m = insert_all bs (insert b.hash b m)

abbrev pub hashes_of : List BlockRef → List ℕ
hashes_of = map BlockRef.hash

drop-get_elem? :
    {A : Type 0} (xs : List A) (i : ℕ) {a : A}
    → get_elem? xs i ≡ some a
    → drop i xs ≡ a ∷ drop (suc i) xs
drop-get_elem? [] i e = cc
drop-get_elem? (x ∷ xs) zero e = ground arith
drop-get_elem? (x ∷ xs) (suc i) e = drop-get_elem? xs i e

drop_end : {A : Type 0} (xs : List A) (n : ℕ) → length xs ≤ n → drop n xs ≡ []
drop_end [] zero h = refl
drop_end [] (suc n) h = refl
drop_end (x ∷ xs) zero h = absurd (omega arith)
drop_end (x ∷ xs) (suc n) h = drop_end xs n (omega arith)

get_elem?-drop :
    {A : Type 0} (n i : ℕ) (xs : List A) → get_elem? (drop n xs) i ≡ get_elem? xs (n + i)
get_elem?-drop zero i xs = ap (get_elem? xs) (omega arith)
get_elem?-drop (suc n) i [] = refl
get_elem?-drop (suc n) i (x ∷ xs) =
    let next : suc n + i ≡ suc (n + i) = omega arith in rw next (get_elem?-drop n i xs)

get_elem?-some :
    {A : Type 0} (xs : List A) (i : ℕ) → i < length xs → (a : A) × (get_elem? xs i ≡ some a)
get_elem?-some [] i h = absurd (omega arith)
get_elem?-some (x ∷ xs) zero h = (x, refl)
get_elem?-some (x ∷ xs) (suc i) h = get_elem?-some xs i (omega arith)

-- Each block of the list is on the trunk, from the height `base` on.
abbrev pub ArePlaced : SparseTree → ℕ → List BlockRef → Type 0
ArePlaced t base [] = Unit
ArePlaced t base (b ∷ bs) = (lookup b.hash t.heights ≡ some (pos base)) × ArePlaced t (suc base) bs

-- A hash that is not at `base` or above is none of theirs.
Placed-other :
    (t : SparseTree) (x base i : ℕ) (b : BlockRef)
    → lookup b.hash t.heights ≡ some (pos base)
    → ((m : ℕ) → lookup x t.heights ≡ some (pos m) → m < base)
    → (x == b.hash) ≡ false
Placed-other t x base i b at low = elim (Bool-cases (x == b.hash)) [
  | inr other ↦ other
  | inl same ↦
      let same' : x ≡ b.hash = ground arith in
      let h = low base (ap (λ y. lookup y t.heights) same' ∙ at) in absurd (omega arith)
]

-- Two hashes at different places are different.
heights_differ :
    (t : SparseTree) (x y a b : ℕ)
    → lookup x t.heights ≡ some (pos a)
    → lookup y t.heights ≡ some (pos b)
    → b < a
    → (x == y) ≡ false
heights_differ t x y a b at there less = elim (Bool-cases (x == y)) [
  | inr other ↦ other
  | inl same ↦
      let same' : x ≡ y = ground arith in
      let both = ap (λ z. lookup z t.heights) same' in absurd (ground arith)
]

module _ (t : SparseTree) (x : ℕ) where
  lookup-insert_all_other :
      (bs : List BlockRef) (base : ℕ) (m : Map BlockRef)
      → ArePlaced t base bs
      → ((i : ℕ) → lookup x t.heights ≡ some (pos i) → i < base)
      → lookup x (insert_all bs m) ≡ lookup x m
  lookup-insert_all_other [] base m placed low = refl
  lookup-insert_all_other (b ∷ bs) base m placed low =
      lookup-insert_all_other bs (suc base) (insert b.hash b m) placed.1
        (λ i at. let h = low i at in omega arith)
      ∙ lookup-insert x b.hash b m
      ∙ rw (Placed-other t x base 0 b placed.0 low) refl

  lookup-flip_all_other :
      (bs : List BlockRef) (base : ℕ) (m : Map ℤ)
      → ArePlaced t base bs
      → ((i : ℕ) → lookup x t.heights ≡ some (pos i) → i < base)
      → lookup x (flip_all (hashes_of bs) m) ≡ lookup x m
  unfolding flip_all flip
  lookup-flip_all_other [] base m placed low = refl
  lookup-flip_all_other (b ∷ bs) base m placed low =
      lookup-flip_all_other bs (suc base) (flip b.hash m) placed.1
        (λ i at. let h = low i at in omega arith)
      ∙ lookup-insert x b.hash _ m
      ∙ rw (Placed-other t x base 0 b placed.0 low) refl

  -- The block of a hash that is above `base`.
  lookup-insert_all_placed :
      (bs : List BlockRef) (base i : ℕ) (m : Map BlockRef) (b : BlockRef)
      → ArePlaced t base bs
      → lookup x t.heights ≡ some (pos (base + i))
      → get_elem? bs i ≡ some b
      → b.hash ≡ x
      → lookup x (insert_all bs m) ≡ some b
  lookup-insert_all_placed [] base i m b placed at e is = cc
  lookup-insert_all_placed (c ∷ bs) base zero m b placed at e is =
      lookup-insert_all_other bs (suc base) (insert c.hash c m) placed.1 (λ j there. ground arith)
      ∙ lookup-insert x c.hash c m
      ∙ ground (arith, is)
  lookup-insert_all_placed (c ∷ bs) base (suc i) m b placed at e is =
      lookup-insert_all_placed bs (suc base) i (insert c.hash c m) b placed.1
        (at ∙ ap (λ k. some (pos k)) (omega arith)) e is

  lookup-flip_all_placed :
      (bs : List BlockRef) (base i : ℕ) (m : Map ℤ) (b : BlockRef)
      → ArePlaced t (suc base) bs
      → lookup x t.heights ≡ some (pos (suc base + i))
      → lookup x m ≡ some (pos (suc base + i))
      → get_elem? bs i ≡ some b
      → b.hash ≡ x
      → lookup x (flip_all (hashes_of bs) m) ≡ some (negsuc (base + i))
  unfolding flip_all flip negate
  lookup-flip_all_placed [] base i m b placed at e short is = cc
  lookup-flip_all_placed (c ∷ bs) base zero m b placed at e short is =
      let first : c ≡ b = ground arith in
      let same : c.hash ≡ x = ap BlockRef.hash first ∙ is in
      let start : suc base + 0 ≡ suc base = omega arith in
      let value : lookup c.hash m ≡ some (pos (suc base)) =
        ap (λ y. lookup y m) same ∙ e ∙ ap (λ k. some (pos k)) start in
      lookup-flip_all_other bs (suc (suc base)) (flip c.hash m) placed.1 (λ j there. ground arith)
      ∙ lookup-insert x c.hash _ m
      ∙ ground (arith, value)
  lookup-flip_all_placed (c ∷ bs) base (suc i) m b placed at e short is =
      let next : suc base + suc i ≡ suc (suc base) + i = omega arith in
      let other =
        heights_differ t x c.hash (suc base + suc i) (suc base) at placed.0 (omega arith) in
      lookup-flip_all_placed bs (suc base) i (flip c.hash m) b placed.1
        (at ∙ ap (λ k. some (pos k)) next)
        (lookup-insert x c.hash _ m ∙ rw other (e ∙ ap (λ k. some (pos k)) next)) short is
      ∙ ap (λ k. some (negsuc k)) (omega arith)

module _ (t : SparseTree) (linked : IsLinked t) where
  forward_next :
      (i : ℕ) (e b : BlockRef)
      → get_elem? t.trunk i ≡ some e
      → get_elem? t.trunk (suc i) ≡ some b
      → forward t e 1 ≡ ok (some b)
  unfolding forward
  forward_next i e b at next =
      let inside = get_elem?-length t.trunk (suc i) next in
      let one : i + 1 ≡ suc i = omega arith in
      rw (height-lookup t e.hash (pos i) (linked.trunk_height i e at), one) (ground arith)

  forward_last :
      (i : ℕ) (e : BlockRef)
      → get_elem? t.trunk i ≡ some e
      → length t.trunk ≤ suc i
      → forward t e 1 ≡ ok none
  unfolding forward
  forward_last i e at end =
      rw (height-lookup t e.hash (pos i) (linked.trunk_height i e at)) (ground arith)

  -- The loop goes over the blocks above.
  pub demote-drop :
      (fuel i : ℕ) (e : BlockRef) (branches : Map BlockRef)
      → get_elem? t.trunk i ≡ some e
      → length t.trunk < fuel + i
      → demote fuel t e branches
        ≡ ok (hashes_of (drop (suc i) t.trunk), insert_all (drop (suc i) t.trunk) branches)
  unfolding demote
  demote-drop zero i e branches at enough =
      absurd (let h = get_elem?-length t.trunk i at in omega arith)
  demote-drop (suc fuel) i e branches at enough = elim (Bool-cases (ltb (suc i) (length t.trunk))) [
    | inl more ↦
        let (b, next) = get_elem?-some t.trunk (suc i) (ground arith) in
        rw
          (
            forward_next i e b at next,
            demote-drop fuel (suc i) b (insert b.hash b branches) next (omega arith),
            drop-get_elem? t.trunk (suc i) next,
          )
          refl
    | inr end ↦
        rw (forward_last i e at (ground arith), drop_end t.trunk (suc i) (ground arith)) refl
  ]

  drop-ArePlaced :
      (bs : List BlockRef) (base : ℕ)
      → ((i : ℕ) (b : BlockRef) → get_elem? bs i ≡ some b → get_elem? t.trunk (base + i) ≡ some b)
      → ArePlaced t base bs
  drop-ArePlaced [] base same = tt
  drop-ArePlaced (b ∷ bs) base same =
      let start : base + 0 ≡ base = omega arith in
      (
        linked.trunk_height base b (ap (get_elem? t.trunk) (sym start) ∙ same 0 b refl),
        drop-ArePlaced bs (suc base) (λ i c at.
            let next : suc base + i ≡ base + suc i = omega arith in
            ap (get_elem? t.trunk) next ∙ same (suc i) c at),
      )

  module _ (n : ℕ) where
    abbrev above : List BlockRef
    above = drop (suc n) t.trunk

    above-ArePlaced : ArePlaced t (suc n) above
    above-ArePlaced =
        drop-ArePlaced above (suc n) (λ i b at. sym (get_elem?-drop (suc n) i t.trunk) ∙ at)

    -- The tree whose trunk ends at the height `n`.
    abbrev pub cut_at : SparseTree
    cut_at = record {
      trunk = take (suc n) t.trunk;
      branches = insert_all above t.branches;
      heights = flip_all (hashes_of above) t.heights;
    }

    -- A block above is the one at its place.
    above_at :
        (x m : ℕ)
        → lookup x t.heights ≡ some (pos (suc n + m))
        → (b : BlockRef) × (get_elem? above m ≡ some b) × (b.hash ≡ x)
    above_at x m at =
        let (b, on_trunk, is) = linked.on_trunk x (suc n + m) at in
        (b, get_elem?-drop (suc n) m t.trunk ∙ on_trunk, is)

    stays :
        (x : ℕ)
        → ((m : ℕ) → lookup x t.heights ≡ some (pos m) → m < suc n)
        → lookup x cut_at.heights ≡ lookup x t.heights
    stays x low = lookup-flip_all_other t x above (suc n) t.heights above-ArePlaced low

    cut_heights :
        (x : ℕ) (h : Option ℤ) → lookup x t.heights ≡ h → lookup x cut_at.heights ≡ cut_height n h
    cut_heights x none at = stays x (λ m other. ground arith) ∙ at
    cut_heights x (some (negsuc k)) at = stays x (λ m other. ground arith) ∙ at
    cut_heights x (some (pos zero)) at = stays x (λ m other. ground arith) ∙ at
    cut_heights x (some (pos (suc m))) at = elim (Bool-cases (ltb n (suc m))) [
      | inr low ↦ rw low (stays x (λ i other. ground arith) ∙ at)
      | inl high ↦
          let place : suc m ≡ suc n + (m - n) = ground arith in
          let there = at ∙ ap (λ i. some (pos i)) place in
          let (b, e, is) = above_at x (m - n) there in
          rw high (
            lookup-flip_all_placed t x above n (m - n) t.heights b above-ArePlaced there there e is
            ∙ ap (λ i. some (negsuc i)) (ground arith))
    ]

    cut_moved_there :
        (x m : ℕ) (e : BlockRef)
        → lookup x t.heights ≡ some (pos m)
        → n < m
        → get_elem? t.trunk m ≡ some e
        → lookup x cut_at.branches ≡ some e
    cut_moved_there x m e at high on_trunk =
        let place : m ≡ suc n + (m - suc n) = omega arith in
        let there = at ∙ ap (λ i. some (pos i)) place in
        let (b, at_place, is) = above_at x (m - suc n) there in
        let same : some b ≡ some e =
          sym at_place
          ∙ get_elem?-drop (suc n) (m - suc n) t.trunk
          ∙ ap (get_elem? t.trunk) (sym place)
          ∙ on_trunk in
        lookup-insert_all_placed t x above (suc n) (m - suc n) t.branches b above-ArePlaced there
          at_place is
        ∙ same

    -- The tree that is cut stays linked.
    pub cut_at-IsLinked : IsLinked cut_at
    cut_at-IsLinked =
        cut-IsLinked t cut_at n linked refl (λ x. cut_heights x (lookup x t.heights) refl)
          cut_moved_there
          (λ x low.
            lookup-insert_all_other t x above (suc n) t.branches above-ArePlaced
              (λ m at. let h = low m at in omega arith))

    -- What is on a branch stays there.
    pub cut_branch :
        (x k : ℕ)
        → lookup x t.heights ≡ some (negsuc k)
        → (lookup x cut_at.heights ≡ some (negsuc k))
          × (lookup x cut_at.branches ≡ lookup x t.branches)
    cut_branch x k at = (
      cut_heights x (some (negsuc k)) at,
      lookup-insert_all_other t x above (suc n) t.branches above-ArePlaced
          (λ m other. ground arith),
    )

    pub cut_fresh : (x : ℕ) → lookup x t.heights ≡ none → lookup x cut_at.heights ≡ none
    cut_fresh x at = cut_heights x none at
