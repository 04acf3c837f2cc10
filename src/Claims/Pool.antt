-- ===== src/Claims/Pool.antt =====
-- `insert` of src/coinChain/Claims.cpp keeps the pool one that `transactions` can list.
use mathlib.Core.List.{append_assoc, append-nil}
use libcoin.Base.{
  ℕ, ◌+◌, ◌%◌, ◌^◌, ◌<◌, ◌≡◌, ◌∙◌, refl, ap, sym, false, List, [], ◌∷◌, ◌++◌, none, some, arith,
  inl, inr, ◌==◌, Bool-cases, Option-cases, map,
}
use libcoin.Base.Int.{◌+ℤ◌, wrap, add64}
use libcoin.Base.Map.{Map, lookup}
use libcoin.Transaction.{Input}
use libcoin.Claims.{Claim, has, delta_of, add_depends}
use libcoin.Claims.Order.{weight}

-- The hashes of the inputs that have a claim.
abbrev pub found : Map Claim → List Input → List ℕ
found conf [] = []
found conf (i ∷ is) = elim (lookup i.prevout.hash conf) [
  | none ↦ found conf is
  | some c ↦ i.prevout.hash ∷ found conf is
]

abbrev pub prevouts : List Input → List ℕ
prevouts = map (λ (i : Input). i.prevout.hash)

weight-append :
    (conf : Map Claim) (xs ys : List ℕ) → weight conf (xs ++ ys) ≡ weight conf xs + weight conf ys
weight-append conf [] ys = omega arith
weight-append conf (x ∷ xs) ys = omega (arith, weight-append conf xs ys)

module _ (conf : Map Claim) (i : Input) (is : List Input) where
  found_skip : lookup i.prevout.hash conf ≡ none → found conf (i ∷ is) ≡ found conf is
  found_skip absent = rw (found, absent) refl

  found_take :
      (c : Claim)
      → lookup i.prevout.hash conf ≡ some c
      → found conf (i ∷ is) ≡ i.prevout.hash ∷ found conf is
  found_take c at = rw (found, at) refl

pub weight-cons :
    (conf : Map Claim) (d : ℕ) (ds : List ℕ) (c : Claim)
    → lookup d conf ≡ some c
    → weight conf (d ∷ ds) ≡ c.size + weight conf ds
weight-cons conf d ds c at = rw (weight, at) refl

pub weight-cons_none :
    (conf : Map Claim) (d : ℕ) (ds : List ℕ)
    → lookup d conf ≡ none
    → weight conf (d ∷ ds) ≡ weight conf ds
weight-cons_none conf d ds at = rw (weight, at) (omega arith)

pub weight-found :
    (conf : Map Claim) (is : List Input) → weight conf (found conf is) ≡ weight conf (prevouts is)
weight-found conf [] = refl
weight-found conf (i ∷ is) = elim (Option-cases (lookup i.prevout.hash conf)) [
  | inl absent ↦
      ap (weight conf) (found_skip conf i is absent)
      ∙ weight-found conf is
      ∙ sym (weight-cons_none conf i.prevout.hash (prevouts is) absent)
  | inr (c, at) ↦
      ap (weight conf) (found_take conf i is c at)
      ∙ weight-cons conf i.prevout.hash (found conf is) c at
      ∙ ap (◌+◌ c.size) (weight-found conf is)
      ∙ sym (weight-cons conf i.prevout.hash (prevouts is) c at)
]

-- A hash that has no claim is not found.
pub found-absent :
    (conf : Map Claim) (h : ℕ) (is : List Input)
    → lookup h conf ≡ none
    → has h (found conf is) ≡ false
found-absent conf h [] fresh = refl
found-absent conf h (i ∷ is) fresh = elim (Option-cases (lookup i.prevout.hash conf)) [
  | inl absent ↦ ap (has h) (found_skip conf i is absent) ∙ found-absent conf h is fresh
  | inr (c, at) ↦ ap (has h) (found_take conf i is c at) ∙ elim (Bool-cases (h == i.prevout.hash)) [
    | inl same ↦
        let same' : h ≡ i.prevout.hash = ground arith in
        let both = ap (λ x. lookup x conf) same' in absurd (ground arith)
    | inr other ↦ rw other (found-absent conf h is fresh)
  ]
]

-- What the loop over the inputs does to the claim.
pub record IsDependent (conf : Map Claim) (is : List Input) (c d : Claim) : Type 0 where
  pub txn_is : d.txn ≡ c.txn
  pub depends_are : d.depends ≡ c.depends ++ found conf is
  pub size_is : d.size ≡ c.size + weight conf (found conf is)

-- The claim after one input that has a claim.
abbrev with_depend : ℕ → Claim → Claim → Claim
with_depend h e c = record c {
  depends = c.depends ++ h ∷ [];
  size = (c.size + e.size) % 2 ^ 32;
  fee = add64 c.fee e.fee;
  delta_spendables = wrap (2 ^ 32) (c.delta_spendables +ℤ delta_of c.txn);
}

pub add_depends-IsDependent :
    (conf : Map Claim) (is : List Input) (c : Claim)
    → c.size + weight conf (found conf is) < 2 ^ 32
    → IsDependent conf is c (add_depends conf is c)
unfolding add_depends
add_depends-IsDependent conf [] c small = record {
  txn_is = refl;
  depends_are = sym (append-nil c.depends);
  size_is = omega arith;
}
add_depends-IsDependent conf (i ∷ is) c small = elim (Option-cases (lookup i.prevout.hash conf)) [
  | inl absent ↦
      let same : add_depends conf (i ∷ is) c ≡ add_depends conf is c =
        rw (add_depends, absent) refl in
      let skip = found_skip conf i is absent in
      let d = add_depends-IsDependent conf is c (omega (arith, ap (weight conf) skip)) in
      record {
        txn_is = ap Claim.txn same ∙ d.txn_is;
        depends_are = ap Claim.depends same ∙ d.depends_are ∙ ap (◌++◌ c.depends) (sym skip);
        size_is = omega (arith, ap Claim.size same, d.size_is, ap (weight conf) skip);
      }
  | inr (e, at) ↦
      let h = i.prevout.hash in
      let same : add_depends conf (i ∷ is) c ≡ add_depends conf is (with_depend h e c) =
        rw (add_depends, at) refl in
      let more = found_take conf i is e at in
      let total = ap (weight conf) more ∙ weight-cons conf h (found conf is) e at in
      let size : (with_depend h e c).size ≡ c.size + e.size = omega arith in
      let d = add_depends-IsDependent conf is (with_depend h e c) (omega arith) in
      record {
        txn_is = ap Claim.txn same ∙ d.txn_is;
        depends_are =
            ap Claim.depends same
            ∙ d.depends_are
            ∙ append_assoc c.depends (h ∷ []) (found conf is)
            ∙ ap (◌++◌ c.depends) (sym more);
        size_is = omega (arith, ap Claim.size same, d.size_is);
      }
]
