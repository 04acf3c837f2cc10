-- ===== src/Claims/Order.antt =====
-- The listings that `insert_claim` and `transactions` make.
pub mod Depends
pub mod Room
use libcoin.Base.{
  ℕ, zero, suc, ◌+◌, ◌<◌, ◌≤◌, ◌≡◌, ◌⊎◌, ◌∙◌, refl, ap, sym, Bool, true, false, ◌||◌, List, [], ◌∷◌,
  ◌++◌, none, some, get_elem?, length, arith, inl, inr, ◌==◌, Bool-cases,
}
use libcoin.Base.Map.{Map, lookup}
use libcoin.BlockTree.Sparse.Cut.{get_elem?-length}
use libcoin.BlockTree.Sparse.Extend.{get_elem?-snoc, get_elem?-append_left, get_elem?-append_last}
use libcoin.Transaction.{Transaction}
use libcoin.Claims.{Claim, Listing, own_size, has}

-- The sizes of the claims of the pool among these.
abbrev pub weight : Map Claim → List ℕ → ℕ
weight conf [] = 0
weight conf (d ∷ ds) = elim (lookup d conf) [ none ↦ 0 | some c ↦ c.size ] + weight conf ds

-- The bytes of the transactions, and the sizes kept in their claims.
abbrev pub bytes : List Claim → ℕ
bytes [] = 0
bytes (c ∷ cs) = own_size c.txn + bytes cs

abbrev pub sizes : List Claim → ℕ
sizes [] = 0
sizes (c ∷ cs) = c.size + sizes cs

pub bytes-snoc : (cs : List Claim) (c : Claim) → bytes (cs ++ c ∷ []) ≡ bytes cs + own_size c.txn
bytes-snoc [] c = omega arith
bytes-snoc (d ∷ cs) c = omega (arith, bytes-snoc cs c)

pub sizes-snoc : (cs : List Claim) (c : Claim) → sizes (cs ++ c ∷ []) ≡ sizes cs + c.size
sizes-snoc [] c = omega arith
sizes-snoc (d ∷ cs) c = omega (arith, sizes-snoc cs c)

-- Each claim stands under its hash, no claim depends on itself through others, as the ranks below
-- `bound` show, and the size of a claim is not 0 and covers its own bytes and the sizes of those it depends on.
pub record IsPool (txn_hash : Transaction → ℕ) (conf : Map Claim) (rank : ℕ → ℕ) (bound : ℕ)
    : Type 0 where
  pub named : (h : ℕ) (c : Claim) → lookup h conf ≡ some c → txn_hash c.txn ≡ h
  pub ranked : (h : ℕ) (c : Claim) → lookup h conf ≡ some c → rank h < bound
  pub below :
      (h : ℕ) (c : Claim) (d : ℕ) (e : Claim)
      → lookup h conf ≡ some c
      → has d c.depends ≡ true
      → lookup d conf ≡ some e
      → rank d < rank h
  pub sized : (h : ℕ) (c : Claim) → lookup h conf ≡ some c → 0 < c.size
  pub weighs :
      (h : ℕ) (c : Claim) → lookup h conf ≡ some c → own_size c.txn + weight conf c.depends ≤ c.size

-- A claim of the list depends on claims before it only, as far as they are in the pool, and no claim
-- is there twice.
pub record IsListing (txn_hash : Transaction → ℕ) (conf : Map Claim) (s : Listing) : Type 0 where
  pub from_pool :
      (i : ℕ) (c : Claim) → get_elem? s.txns i ≡ some c → lookup (txn_hash c.txn) conf ≡ some c
  pub placed :
      (x : ℕ)
      → has x s.inserted ≡ true
      → (i : ℕ) × (c : Claim) × (get_elem? s.txns i ≡ some c) × (txn_hash c.txn ≡ x)
  pub counted :
      (i : ℕ) (c : Claim) → get_elem? s.txns i ≡ some c → has (txn_hash c.txn) s.inserted ≡ true
  pub ordered :
      (i : ℕ) (c : Claim) (d : ℕ) (e : Claim)
      → get_elem? s.txns i ≡ some c
      → has d c.depends ≡ true
      → lookup d conf ≡ some e
      → (j : ℕ) × (b : Claim) × (j < i) × (get_elem? s.txns j ≡ some b) × (txn_hash b.txn ≡ d)
  pub distinct :
      (i j : ℕ) (a b : Claim)
      → get_elem? s.txns i ≡ some a
      → get_elem? s.txns j ≡ some b
      → txn_hash a.txn ≡ txn_hash b.txn
      → i ≡ j

pub has-cons : (x y : ℕ) (ys : List ℕ) → has x ys ≡ true → has x (y ∷ ys) ≡ true
has-cons x y ys h = ground arith

module _ (txn_hash : Transaction → ℕ) (conf : Map Claim) where
  -- The listing with one claim more.
  abbrev pub pushed : Listing → Claim → Listing
  pushed s c = record { txns = s.txns ++ c ∷ []; inserted = txn_hash c.txn ∷ s.inserted }

  module _ (s : Listing) (c : Claim) (listing : IsListing txn_hash conf s)
      (known : lookup (txn_hash c.txn) conf ≡ some c)
      (new : has (txn_hash c.txn) s.inserted ≡ false)
      (ready : (d : ℕ) (e : Claim)
        → has d c.depends ≡ true
        → lookup d conf ≡ some e
        → has d s.inserted ≡ true) where
    pushed_from_pool :
        (i : ℕ) (b : Claim)
        → get_elem? (pushed s c).txns i ≡ some b
        → lookup (txn_hash b.txn) conf ≡ some b
    pushed_from_pool i b at = elim (get_elem?-snoc s.txns c i at) [
      | inl (old, _) ↦ listing.from_pool i b old
      | inr (_, same) ↦ ap (λ a. lookup (txn_hash a.txn) conf) (sym same) ∙ known ∙ ap some same
    ]

    pushed_placed :
        (x : ℕ)
        → has x (pushed s c).inserted ≡ true
        → (i : ℕ) × (b : Claim) × (get_elem? (pushed s c).txns i ≡ some b) × (txn_hash b.txn ≡ x)
    pushed_placed x at = elim (Bool-cases (x == txn_hash c.txn)) [
      | inl same ↦
          (length s.txns, c, get_elem?-append_last s.txns c (length s.txns) refl, ground arith)
      | inr other ↦
          let (i, b, old, is) = listing.placed x (ground arith) in
          (i, b, get_elem?-append_left s.txns (c ∷ []) i old, is)
    ]

    pushed_counted :
        (i : ℕ) (b : Claim)
        → get_elem? (pushed s c).txns i ≡ some b
        → has (txn_hash b.txn) (pushed s c).inserted ≡ true
    pushed_counted i b at = elim (get_elem?-snoc s.txns c i at) [
      | inl (old, _) ↦
          has-cons (txn_hash b.txn) (txn_hash c.txn) s.inserted (listing.counted i b old)
      | inr (_, same) ↦ let e = ap (λ (a : Claim). txn_hash a.txn) same in ground arith
    ]

    pushed_ordered :
        (i : ℕ) (b : Claim) (d : ℕ) (e : Claim)
        → get_elem? (pushed s c).txns i ≡ some b
        → has d b.depends ≡ true
        → lookup d conf ≡ some e
        → (j : ℕ) × (a : Claim) × (j < i)
          × (get_elem? (pushed s c).txns j ≡ some a)
          × (txn_hash a.txn ≡ d)
    pushed_ordered i b d e at needs there = elim (get_elem?-snoc s.txns c i at) [
      | inl (old, _) ↦
          let (j, a, less, before, is) = listing.ordered i b d e old needs there in
          (j, a, less, get_elem?-append_left s.txns (c ∷ []) j before, is)
      | inr (end, same) ↦
          let (j, a, before, is) =
            listing.placed d (ready d e (ap (λ (a : Claim). has d a.depends) same ∙ needs) there) in
          let inside = get_elem?-length s.txns j before in
          (j, a, omega arith, get_elem?-append_left s.txns (c ∷ []) j before, is)
    ]

    -- A claim of the list is not the new one.
    old_differs :
        (i : ℕ) (b : Claim) → get_elem? s.txns i ≡ some b → txn_hash b.txn ≡ txn_hash c.txn → ⊥
    old_differs i b at same =
        let there = ap (λ x. has x s.inserted) same in
        let counted = listing.counted i b at in absurd (ground arith)

    pushed_distinct :
        (i j : ℕ) (a b : Claim)
        → get_elem? (pushed s c).txns i ≡ some a
        → get_elem? (pushed s c).txns j ≡ some b
        → txn_hash a.txn ≡ txn_hash b.txn
        → i ≡ j
    pushed_distinct i j a b at there same = elim (get_elem?-snoc s.txns c i at) [
      | inl (old, _) ↦ elim (get_elem?-snoc s.txns c j there) [
        | inl (old', _) ↦ listing.distinct i j a b old old' same
        | inr (_, is) ↦
            absurd (old_differs i a old (same ∙ ap (λ (x : Claim). txn_hash x.txn) (sym is)))
      ]
      | inr (end, is) ↦ elim (get_elem?-snoc s.txns c j there) [
        | inl (old', _) ↦
            absurd (old_differs j b old' (sym same ∙ ap (λ (x : Claim). txn_hash x.txn) (sym is)))
        | inr (end', _) ↦ omega arith
      ]
    ]

    pub pushed-IsListing : IsListing txn_hash conf (pushed s c)
    pushed-IsListing = record {
      from_pool = pushed_from_pool;
      placed = pushed_placed;
      counted = pushed_counted;
      ordered = pushed_ordered;
      distinct = pushed_distinct;
    }
