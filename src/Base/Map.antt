-- ===== src/Base/Map.antt =====
-- `std::map` with numbers for keys, as a list in the order of the keys.
use libcoin.Base.{ℕ, ◌≡◌, Option, none, some, arith, ltb, ◌==◌, if◌then◌else◌}

pub data Map {ℓ} (V : Type ℓ) : Type ℓ where
  empty : Map V
  entry : ℕ → V → Map V → Map V

module _ {ℓ} {V : Type ℓ} where
  unfoldable pub lookup : ℕ → Map V → Option V
  lookup k empty = none
  lookup k (entry j v m) = if k == j then some v else lookup k m

  -- `m[k] = v`.
  unfoldable pub insert : ℕ → V → Map V → Map V
  insert k v empty = entry k v empty
  insert k v (entry j w m) =
      if k == j
      then entry k v m
      else if ltb k j
      then entry k v (entry j w m)
      else entry j w (insert k v m)

  unfoldable pub erase : ℕ → Map V → Map V
  erase k empty = empty
  erase k (entry j v m) = if k == j then erase k m else entry j v (erase k m)

  pub lookup-insert :
      (j k : ℕ) (v : V) (m : Map V)
      → lookup j (insert k v m) ≡ (if j == k then some v else lookup j m)
  unfolding lookup insert
  lookup-insert j k v empty = ground arith
  lookup-insert j k v (entry i w m) = ground (arith, lookup-insert j k v m)

  pub lookup-erase :
      (j k : ℕ) (m : Map V) → lookup j (erase k m) ≡ (if j == k then none else lookup j m)
  unfolding lookup erase
  lookup-erase j k empty = ground arith
  lookup-erase j k (entry i w m) = ground (arith, lookup-erase j k m)

-- No key is there twice.
abbrev pub HasUniqueKeys {ℓ} : {V : Type ℓ} → Map V → Type ℓ
HasUniqueKeys empty = Unit
HasUniqueKeys (entry k v m) = (lookup k m ≡ none) × HasUniqueKeys m
