-- ===== src/Merkle/Build.antt =====
-- The array that `buildMerkleTree` fills holds the levels one after the other.
use mathlib.Core.List.{append_assoc, append-nil}
use Prim.Native.Nat.{min}
use libcoin.Base.{
  ℕ, zero, suc, ◌+◌, ◌-◌, ◌/◌, ◌≤◌, ◌≡◌, refl, List, [], ◌∷◌, ◌++◌, arith, length, get_or, ltb,
  if◌then◌else◌, ap, ◌∙◌, sym, length-append, inl, inr, Bool-cases, lt→ltb, true,
}
use libcoin.Merkle.{back_or_zero, push_pairs, push_levels, full_tree, build_merkle_tree, Tree}
use libcoin.Merkle.Levels.{up, length-up, Root, top, climbs}

pub get_or-append :
    (base rest : List ℕ) (n i : ℕ)
    → n ≡ length base + i
    → get_or (base ++ rest) n 0 ≡ get_or rest i 0
get_or-append [] rest n i e = let e' : n ≡ i = omega arith in rw e'
get_or-append (b ∷ base) rest zero i e = absurd (omega arith)
get_or-append (b ∷ base) rest (suc n) i e = get_or-append base rest n i (omega arith)

pub back-append :
    (base : List ℕ) (x : ℕ) (r : List ℕ) → back_or_zero (base ++ x ∷ r) ≡ back_or_zero (x ∷ r)
unfolding back_or_zero
back-append [] x r = refl
back-append (b ∷ []) x r = refl
back-append (b ∷ c ∷ base) x r = back-append (c ∷ base) x r

pub many : (y : ℕ) (r : List ℕ) → ltb 1 (suc (length (y ∷ r))) ≡ true
many y r = lt→ltb _ _ (omega arith)

module _ (hash : ℕ → ℕ → ℕ) where
  push_pairs-up :
      (todo out base : List ℕ) (rounds i j size : ℕ)
      → rounds ≡ (length todo + 1) / 2
      → j + i ≡ length base
      → i + length todo ≡ size
      → push_pairs hash rounds i j size (base ++ (todo ++ out))
        ≡ base ++ (todo ++ (out ++ up hash todo))
  unfolding push_pairs
  push_pairs-up [] out base zero i j size e f g = rw append-nil
  push_pairs-up [] out base (suc r) i j size e f g = absurd (omega arith)
  push_pairs-up (x ∷ []) out base zero i j size e f g = absurd (omega arith)
  push_pairs-up (x ∷ []) out base (suc zero) i j size e f g =
      rw
        (
          get_or-append base (x ∷ out) (j + i) 0 (omega arith),
          get_or-append base (x ∷ out) (j + min (i + 1) (size - 1)) 0 (omega arith),
        )
        (append_assoc base (x ∷ out) (hash x x ∷ []))
  push_pairs-up (x ∷ []) out base (suc (suc r)) i j size e f g = absurd (omega arith)
  push_pairs-up (x ∷ y ∷ todo) out base zero i j size e f g = absurd (omega arith)
  push_pairs-up (x ∷ y ∷ todo) out base (suc r) i j size e f g =
      rw
        (
          get_or-append base (x ∷ y ∷ (todo ++ out)) (j + i) 0 (omega arith),
          get_or-append base (x ∷ y ∷ (todo ++ out)) (j + min (i + 1) (size - 1)) 1 (omega arith),
          append_assoc base (x ∷ y ∷ (todo ++ out)) (hash x y ∷ []),
          append_assoc todo out (hash x y ∷ []),
          ← append_assoc base (x ∷ y ∷ []) (todo ++ (out ++ hash x y ∷ [])),
        )
        (push_pairs-up todo (out ++ hash x y ∷ []) (base ++ x ∷ y ∷ []) r (i + 2) j size
            (omega arith) (omega (arith, length-append base (x ∷ y ∷ []))) (omega arith)
          ∙ simp append_assoc)

  push_pairs-level :
      (base level : List ℕ) (j : ℕ)
      → j ≡ length base
      → push_pairs hash ((length level + 1) / 2) 0 j (length level) (base ++ level)
        ≡ (base ++ level) ++ up hash level
  push_pairs-level base level j e =
      ap (λ l. push_pairs hash ((length level + 1) / 2) 0 j (length level) (base ++ l))
        (sym (append-nil level))
      ∙ push_pairs-up level [] base ((length level + 1) / 2) 0 j (length level) refl (omega arith)
          (omega arith)
      ∙ sym (append_assoc base level (up hash level))

  -- The levels from one on, to the top.
  abbrev pub levels : ℕ → List ℕ → List ℕ
  levels zero level = level
  levels (suc fuel) level =
      let rest = levels fuel (up hash level) in
      if ltb 1 (length level) then level ++ rest else level

  push_levels-levels :
      (fuel : ℕ) (base level : List ℕ) (j size : ℕ)
      → j ≡ length base
      → size ≡ length level
      → push_levels hash fuel j size (base ++ level) ≡ base ++ levels fuel level
  unfolding push_levels
  push_levels-levels zero base level j size e f = refl
  push_levels-levels (suc fuel) base level j size e f = (elim (Bool-cases (ltb 1 (length level))) [
    | inl many ↦
        rw (f, many, push_pairs-level base level j e)
          (push_levels-levels fuel (base ++ level) (up hash level) (j + length level) _
              (omega (arith, length-append base level)) (sym (length-up hash level))
            ∙ append_assoc base level _)
    | inr few ↦ rw (f, few) refl
  ])

  -- The array after `buildMerkleTree`.
  pub full_tree-levels : (leaves : List ℕ) → full_tree hash leaves ≡ levels (length leaves) leaves
  unfolding full_tree
  full_tree-levels leaves = push_levels-levels (length leaves) [] leaves 0 (length leaves) refl refl

  pub back-levels :
      (level : List ℕ) (fuel x : ℕ) (r : List ℕ)
      → back_or_zero (level ++ levels fuel (x ∷ r)) ≡ back_or_zero (levels fuel (x ∷ r))
  back-levels level zero x r = back-append level x r
  back-levels level (suc fuel) x [] = back-append level x []
  back-levels level (suc fuel) x (y ∷ r) = rw (many y r) (back-append level x _)

  Root-levels :
      (fuel x : ℕ) (r : List ℕ)
      → length r ≤ fuel
      → Root hash (x ∷ r) (back_or_zero (levels fuel (x ∷ r)))
  unfolding back_or_zero
  Root-levels zero x [] h = top x
  Root-levels zero x (y ∷ r) h = absurd (omega arith)
  Root-levels (suc fuel) x [] h = top x
  Root-levels (suc fuel) x (y ∷ r) h =
      rw (many y r, back-levels (x ∷ y ∷ r) fuel (hash x y) (up hash r))
        (climbs x y r (Root-levels fuel (hash x y) (up hash r) (omega (arith, length-up hash r))))

  -- The root of a block with a transaction is the one entry that is left when level after level is
  -- paired and hashed.
  pub build_merkle_tree-Root :
      (b : Tree) (x : ℕ) (r : List ℕ)
      → b.transactions ≡ x ∷ r
      → Root hash (x ∷ r) (build_merkle_tree hash b).1
  unfolding build_merkle_tree
  build_merkle_tree-Root b x r e =
      rw (e, full_tree-levels (x ∷ r)) (Root-levels (length (x ∷ r)) x r (omega arith))
