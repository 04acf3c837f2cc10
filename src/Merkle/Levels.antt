-- ===== src/Merkle/Levels.antt =====
-- The levels of a Merkle tree as lists, apart from the array that holds them.
use Prim.Native.Nat.{min}
use libcoin.Base.{
  ℕ, zero, suc, ◌+◌, ◌-◌, ◌/◌, ◌%◌, ◌<◌, ◌≡◌, refl, List, [], ◌∷◌, arith, length, get_or, ◌==◌,
  if◌then◌else◌,
}
use libcoin.Merkle.{flip_low}

sibling_down :
    (n i : ℕ)
    → i < n
    → min (flip_low (suc (suc i))) (suc (suc n) - 1) ≡ suc (suc (min (flip_low i) (n - 1)))
sibling_down n i h = ground arith

module _ (hash : ℕ → ℕ → ℕ) where
  -- The level above: the hashes of the pairs, an odd last entry paired with itself.
  abbrev pub up : List ℕ → List ℕ
  up [] = []
  up (x ∷ []) = hash x x ∷ []
  up (x ∷ y ∷ r) = hash x y ∷ up r

  pub length-up : (l : List ℕ) → length (up l) ≡ (length l + 1) / 2
  length-up [] = omega arith
  length-up (x ∷ []) = omega arith
  length-up (x ∷ y ∷ r) = omega (arith, length-up r)

  -- `h` is the root over the level: climb until one entry is left.
  pub data Root : List ℕ → ℕ → Type 0 where
    top : (x : ℕ) → Root (x ∷ []) x
    climbs : (x y : ℕ) (r : List ℕ) {h : ℕ} → Root (up (x ∷ y ∷ r)) h → Root (x ∷ y ∷ r) h

  -- An entry and its sibling make the entry above them.
  pub get_or-up :
      (l : List ℕ) (index : ℕ)
      → index < length l
      → get_or (up l) (index / 2) 0 ≡ (
          let other = get_or l (min (flip_low index) (length l - 1)) 0 in
          let h = get_or l index 0 in if index % 2 == 1 then hash other h else hash h other)
  get_or-up [] i h = elim h [ ]
  get_or-up (x ∷ []) zero h = refl
  get_or-up (x ∷ []) (suc i) h = absurd (omega arith)
  get_or-up (x ∷ y ∷ r) zero h =
      let e : min 1 (length (x ∷ y ∷ r) - 1) ≡ 1 = omega arith in rw e refl
  get_or-up (x ∷ y ∷ r) (suc zero) h =
      let e : min 0 (length (x ∷ y ∷ r) - 1) ≡ 0 = omega arith in rw e refl
  get_or-up (x ∷ y ∷ r) (suc (suc i)) h =
      let half : suc (suc i) / 2 ≡ suc (i / 2) = omega arith in
      let parity : suc (suc i) % 2 ≡ i % 2 = omega arith in
      rw (sibling_down (length r) i (omega arith), half, parity) (get_or-up r i (omega arith))
