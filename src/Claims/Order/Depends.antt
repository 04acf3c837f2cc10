-- ===== src/Claims/Order/Depends.antt =====
-- `insert_claim`: a claim after those that it depends on.
use libcoin.Base.{
  ℕ, zero, suc, ◌+◌, ◌<◌, ◌≤◌, ◌≡◌, ◌⊎◌, ◌∙◌, refl, ap, sym, true, false, List, [], ◌∷◌, some,
  arith, inl, inr, ◌==◌, Bool-cases, Option-cases, ok, Result,
}
use libcoin.Base.Map.{Map, lookup}
use libcoin.Transaction.{Transaction}
use libcoin.Claims.{Claim, Listing, ClaimsError, has, insert_depends, insert_claim}
use libcoin.Claims.Order.{
  weight, bytes, sizes, bytes-snoc, sizes-snoc, IsPool, IsListing, has-cons, pushed,
  pushed-IsListing,
}

-- The listing `s` grew to `t`, by claims of a rank below `r` whose sizes are `n` in total and whose bytes
-- are `limit` at most.
pub record Grows (txn_hash : Transaction → ℕ) (conf : Map Claim) (rank : ℕ → ℕ) (s : Listing)
    (n : ℕ) (t : Listing) (r limit : ℕ) : Type 0 where
  pub listing : IsListing txn_hash conf t
  pub kept : (x : ℕ) → has x s.inserted ≡ true → has x t.inserted ≡ true
  pub new : (x : ℕ) → has x t.inserted ≡ true → (has x s.inserted ≡ true) ⊎ (rank x < r)
  pub sizes_are : sizes t.txns ≡ sizes s.txns + n
  pub bytes_are : bytes t.txns ≤ bytes s.txns + limit

module _ (txn_hash : Transaction → ℕ) (conf : Map Claim) (rank : ℕ → ℕ) (bound : ℕ)
    (pool : IsPool txn_hash conf rank bound) where
  abbrev pub Grown : Result ClaimsError (ℕ × Listing) → Listing → ℕ → ℕ → Type 0
  Grown result s r limit =
      (n : ℕ) × (t : Listing) × (result ≡ ok (n, t)) × Grows txn_hash conf rank s n t r limit

  -- What inserts one claim does so for claims of a rank below `fuel`.
  abbrev InsertsOne : (Claim → Listing → Result ClaimsError (ℕ × Listing)) → ℕ → Type 0
  InsertsOne one fuel =
      (h : ℕ) (c : Claim) (s : Listing)
      → lookup h conf ≡ some c
      → rank h < fuel
      → IsListing txn_hash conf s
      → has h s.inserted ≡ false
      → (n : ℕ) × (t : Listing) × (one c s ≡ ok (n, t))
        × Grows txn_hash conf rank s n t (suc (rank h)) c.size
        × (has h t.inserted ≡ true)

  unchanged :
      (s : Listing) (r limit : ℕ)
      → IsListing txn_hash conf s
      → Grows txn_hash conf rank s 0 s r limit
  unchanged s r limit listing = record {
    listing = listing;
    kept = λ x h. h;
    new = λ x h. inl h;
    sizes_are = omega arith;
    bytes_are = omega arith;
  }

  -- One growth after another.
  Grows-twice :
      (s t u : Listing) (n m q r k l : ℕ)
      → q ≤ r
      → Grows txn_hash conf rank s n t q k
      → Grows txn_hash conf rank t m u r l
      → Grows txn_hash conf rank s (n + m) u r (k + l)
  Grows-twice s t u n m q r k l low a b = record {
    listing = b.listing;
    kept = λ x h. b.kept x (a.kept x h);
    new = λ x h. elim (b.new x h) [
      | inl before ↦ elim (a.new x before) [ inl first ↦ inl first | inr less ↦ inr (omega arith) ]
      | inr less ↦ inr less
    ];
    sizes_are = omega (arith, a.sizes_are, b.sizes_are);
    bytes_are = omega (arith, a.bytes_are, b.bytes_are);
  }

  wider :
      (s t : Listing) (n r k l : ℕ)
      → k ≤ l
      → Grows txn_hash conf rank s n t r k
      → Grows txn_hash conf rank s n t r l
  wider s t n r k l low a = record {
    listing = a.listing;
    kept = a.kept;
    new = a.new;
    sizes_are = a.sizes_are;
    bytes_are = omega (arith, a.bytes_are);
  }

  -- The claims of the pool among these are in the listing `t`.
  abbrev AreListed : List ℕ → Listing → Type 0
  AreListed ds t =
      (d : ℕ) (e : Claim) → has d ds ≡ true → lookup d conf ≡ some e → has d t.inserted ≡ true

  AreListed-cons :
      (h : ℕ) (hs : List ℕ) (t : Listing)
      → ((e : Claim) → lookup h conf ≡ some e → has h t.inserted ≡ true)
      → AreListed hs t
      → AreListed (h ∷ hs) t
  AreListed-cons h hs t first rest d e needs there = elim (Bool-cases (d == h)) [
    | inl same ↦
        let same' : d ≡ h = ground arith in
        ap (λ x. has x t.inserted) same' ∙ first e (ap (λ x. lookup x conf) (sym same') ∙ there)
    | inr other ↦ rest d e (ground arith) there
  ]

  module _ (one : Claim → Listing → Result ClaimsError (ℕ × Listing)) (fuel r : ℕ)
      (inserts : InsertsOne one fuel) (low : r ≤ fuel) where
    -- The loop over these succeeds.
    abbrev Fills : List ℕ → Listing → Type 0
    Fills ds s =
        (n : ℕ) × (t : Listing) × (insert_depends conf one ds s ≡ ok (n, t))
        × Grows txn_hash conf rank s n t r (weight conf ds)
        × AreListed ds t

    fill_skip :
        (h : ℕ) (hs : List ℕ) (s : Listing)
        → insert_depends conf one (h ∷ hs) s ≡ insert_depends conf one hs s
        → ((e : Claim) → lookup h conf ≡ some e → has h s.inserted ≡ true)
        → Fills hs s
        → Fills (h ∷ hs) s
    fill_skip h hs s same first (n, t, result, grows, listed) = (
      n,
      t,
      same ∙ result,
      wider s t n r (weight conf hs) (weight conf (h ∷ hs)) (omega arith) grows,
      AreListed-cons h hs t (λ e there. grows.kept h (first e there)) listed,
    )

    -- The loop inserts the claims of the pool that are not there.
    insert_depends-Fills :
        (ds : List ℕ) (s : Listing)
        → IsListing txn_hash conf s
        → ((d : ℕ) (e : Claim) → has d ds ≡ true → lookup d conf ≡ some e → rank d < r)
        → Fills ds s
    unfolding insert_depends
    insert_depends-Fills [] s listing below =
        (0, s, refl, unchanged s r 0 listing, λ d e h there. absurd (ground arith))
    insert_depends-Fills (h ∷ hs) s listing below =
        let below' =
          λ (d : ℕ) (e : Claim) (has_d : has d hs ≡ true) (there : lookup d conf ≡ some e).
            below d e (has-cons d h hs has_d) there in
        elim (Option-cases (lookup h conf)) [
          | inl absent ↦
              fill_skip h hs s (rw (insert_depends, absent) refl) (λ e there. absurd (ground arith))
                (insert_depends-Fills hs s listing below')
          | inr (c, known) ↦ elim (Bool-cases (has h s.inserted)) [
            | inl present ↦
                fill_skip h hs s (rw (insert_depends, known, present) refl) (λ e there. present)
                  (insert_depends-Fills hs s listing below')
            | inr new ↦
                let small = below h c (ground arith) known in
                let (n, t, result, grows, listed) = inserts h c s known (omega arith) listing new in
                let (m, u, result', grows', listed') =
                  insert_depends-Fills hs t grows.listing below' in
                (
                  n + m,
                  u,
                  rw (insert_depends, known, new, result, result') refl,
                  rw known (
                      Grows-twice s t u n m (suc (rank h)) r c.size (weight conf hs) (omega arith)
                        grows grows'),
                  AreListed-cons h hs u (λ e there. grows'.kept h listed) listed',
                )
          ]
        ]

  -- The claim that `insert_claim` puts at the end.
  Grows-pushed :
      (s t : Listing) (h n : ℕ) (c : Claim)
      → lookup h conf ≡ some c
      → has h s.inserted ≡ false
      → Grows txn_hash conf rank s n t (rank h) (weight conf c.depends)
      → AreListed c.depends t
      → Grows txn_hash conf rank s (n + c.size) (pushed txn_hash conf t c) (suc (rank h)) c.size
  Grows-pushed s t h n c known new grows listed =
      let name = pool.named h c known in
      let absent : has h t.inserted ≡ false = elim (Bool-cases (has h t.inserted)) [
        | inr out ↦ out
        | inl inside ↦ elim (grows.new h inside) [
          | inl before ↦ absurd (ground arith)
          | inr less ↦ absurd (omega arith)
        ]
      ] in
      record {
        listing =
            pushed-IsListing txn_hash conf t c grows.listing (ap (λ x. lookup x conf) name ∙ known)
              (ap (λ x. has x t.inserted) name ∙ absent) listed;
        kept = λ x old. has-cons x (txn_hash c.txn) t.inserted (grows.kept x old);
        new = λ x there. elim (Bool-cases (x == txn_hash c.txn)) [
          | inl same ↦
              let same' : x ≡ h = ground arith in let ranks = ap rank same' in inr (omega arith)
          | inr other ↦ elim (grows.new x (ground arith)) [
            | inl before ↦ inl before
            | inr less ↦ inr (omega arith)
          ]
        ];
        sizes_are = omega (arith, sizes-snoc t.txns c, grows.sizes_are);
        bytes_are = omega (arith, bytes-snoc t.txns c, grows.bytes_are, pool.weighs h c known);
      }

  -- With fuel above its rank, `insert_claim` of a claim that is not in the listing inserts it, after
  -- what it depends on.
  pub insert_claim-Grows : (fuel : ℕ) → InsertsOne (λ c s. insert_claim txn_hash fuel conf c s) fuel
  unfolding insert_claim
  insert_claim-Grows zero h c s known enough listing new = absurd (omega arith)
  insert_claim-Grows (suc fuel) h c s known enough listing new =
      let (n, t, result, grows, listed) =
        insert_depends-Fills (λ d r. insert_claim txn_hash fuel conf d r) fuel (rank h)
          (insert_claim-Grows fuel) (omega arith) c.depends s listing
          (λ d e needs there. pool.below h c d e known needs there) in
      let name = pool.named h c known in
      (
        n + c.size,
        pushed txn_hash conf t c,
        rw result refl,
        Grows-pushed s t h n c known new grows listed,
        ground (arith, name),
      )
