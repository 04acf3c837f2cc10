-- ===== src/Merkle/Partial/Slices.antt =====
-- The slices of a list that the nodes of a level stand for.
use native.Mathlib.Nat.{pow-suc, le-div_iff_mul-le, add-mul, mul_assoc, one-le-pow}
use libcoin.Base.{
  ℕ, zero, suc, ◌+◌, ◌-◌, ◌*◌, ◌^◌, ◌<◌, ◌≤◌, ◌≡◌, ◌↔◌, refl, ap, sym, ◌∙◌, List, [], ◌∷◌, ◌++◌,
  length, get_or, take, drop, arith,
}
use libcoin.Merkle.Partial.{calc_tree_width, slice}

pub place_suc : (h pos : ℕ) → pos * 2 ^ suc h ≡ pos * 2 * 2 ^ h
place_suc h pos =
    let size = pow-suc 2 h in
    let twice : 2 ^ suc h ≡ 2 * 2 ^ h = omega arith in
    ap (λ k. pos * k) twice ∙ sym (mul_assoc pos 2 (2 ^ h))

module _ {ℓ} {A : Type ℓ} where
  take-nil : (n : ℕ) → take {A = A} n [] ≡ []
  take-nil zero = refl
  take-nil (suc n) = refl

  drop-nil : (n : ℕ) → drop {A = A} n [] ≡ []
  drop-nil zero = refl
  drop-nil (suc n) = refl

  drop-add : (m n k : ℕ) (xs : List A) → k ≡ m + n → drop k xs ≡ drop n (drop m xs)
  drop-add zero n k xs e = ap (λ i. drop i xs) (omega arith)
  drop-add (suc m) n k [] e = drop-nil k ∙ sym (drop-nil n)
  drop-add (suc m) n zero (x ∷ xs) e = absurd (omega arith)
  drop-add (suc m) n (suc k) (x ∷ xs) e = drop-add m n k xs (omega arith)

  take-add : (m n k : ℕ) (xs : List A) → k ≡ m + n → take k xs ≡ take m xs ++ take n (drop m xs)
  take-add zero n k xs e = ap (λ i. take i xs) (omega arith)
  take-add (suc m) n k [] e = take-nil k ∙ sym (take-nil n)
  take-add (suc m) n zero (x ∷ xs) e = absurd (omega arith)
  take-add (suc m) n (suc k) (x ∷ xs) e = ap (x ∷◌) (take-add m n k xs (omega arith))

  -- Past the end nothing is left.
  drop_all : (n : ℕ) (xs : List A) → length xs ≤ n → drop n xs ≡ []
  drop_all n [] h = drop-nil n
  drop_all zero (x ∷ xs) h = absurd (omega arith)
  drop_all (suc n) (x ∷ xs) h = drop_all n xs (omega arith)

  -- A node stands for the leaves of its two children.
  pub slice-suc :
      (h pos : ℕ) (xs : List A)
      → slice (suc h) pos xs ≡ slice h (pos * 2) xs ++ slice h (pos * 2 + 1) xs
  slice-suc h pos xs =
      let size = pow-suc 2 h in
      let first = place_suc h pos in
      let second : (pos * 2 + 1) * 2 ^ h ≡ pos * 2 * 2 ^ h + 2 ^ h =
        omega (arith, add-mul (pos * 2) 1 (2 ^ h)) in
      take-add (2 ^ h) (2 ^ h) (2 ^ suc h) (drop (pos * 2 ^ suc h) xs) (omega arith)
      ∙ rw first (
          ap (λ ys. take (2 ^ h) (drop (pos * 2 * 2 ^ h) xs) ++ take (2 ^ h) ys)
            (sym (drop-add (pos * 2 * 2 ^ h) (2 ^ h) ((pos * 2 + 1) * 2 ^ h) xs second)))

  pub slice_beyond : (h pos : ℕ) (xs : List A) → length xs ≤ pos * 2 ^ h → slice h pos xs ≡ []
  slice_beyond h pos xs e = ap (take (2 ^ h)) (drop_all (pos * 2 ^ h) xs e) ∙ take-nil (2 ^ h)

  pub take_all : (n : ℕ) (xs : List A) → length xs ≤ n → take n xs ≡ xs
  take_all n [] h = take-nil n
  take_all zero (x ∷ xs) h = absurd (omega arith)
  take_all (suc n) (x ∷ xs) h = ap (x ∷◌) (take_all n xs (omega arith))

  pub drop-get_or :
      (n : ℕ) (d : A) (xs : List A) → n < length xs → drop n xs ≡ get_or xs n d ∷ drop (suc n) xs
  drop-get_or n d [] h = absurd (omega arith)
  drop-get_or zero d (x ∷ xs) h = refl
  drop-get_or (suc n) d (x ∷ xs) h = drop-get_or n d xs (omega arith)

-- A node is in its level if it has a leaf.
pub calc_tree_width_lem : (n h pos : ℕ) → (pos < calc_tree_width n h) ↔ (pos * 2 ^ h < n)
unfolding calc_tree_width
calc_tree_width_lem n h pos =
    let some : 1 ≤ 2 ^ h = one-le-pow h 2 (omega arith) in
    let fits = le-div_iff_mul-le {x = suc pos} {y = n + 2 ^ h - 1} some in
    ground (arith, fits, add-mul pos 1 (2 ^ h))
