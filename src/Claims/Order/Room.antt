-- ===== src/Claims/Order/Room.antt =====
-- `transactions`: claims in the order of the priorities, as long as there is room in a block.
use libcoin.Base.{
  ℕ, suc, ◌+◌, ◌<◌, ◌≤◌, ◌≡◌, ◌≢◌, ◌⊎◌, ◌∙◌, refl, ap, sym, true, false, List, [], ◌∷◌, some,
  get_elem?, arith, inl, inr, ◌==◌, Bool-cases, Option-cases, ok, leb,
}
use libcoin.Base.Int.{ℤ, pos, add64}
use libcoin.Base.Map.{Map, lookup}
use libcoin.Chain.Check.{max_block_size}
use libcoin.Transaction.{Transaction}
use libcoin.Claims.{Claim, Claims, Listing, own_size, has, list_claims, transactions}
use libcoin.Claims.Order.{bytes, sizes, IsPool, IsListing}
use libcoin.Claims.Order.Depends.{insert_claim-Grows}

bytes-le-sizes :
    (cs : List Claim)
    → ((i : ℕ) (c : Claim) → get_elem? cs i ≡ some c → own_size c.txn ≤ c.size)
    → bytes cs ≤ sizes cs
bytes-le-sizes [] h = omega arith
bytes-le-sizes (c ∷ cs) h = omega (arith, h 0 c refl, bytes-le-sizes cs (λ i d at. h (suc i) d at))

-- The transactions of a block with this much besides them: each is of the pool, there once, and after
-- those that it depends on; together they fit; and none with a priority is left out, unless some claim
-- of the pool that is left out goes with the sizes of these over the limit.
pub record IsTemplate (txn_hash : Transaction → ℕ) (p : Claims) (header : ℕ) (cs : List Claim)
    : Type 0 where
  pub from_pool :
      (i : ℕ) (c : Claim)
      → get_elem? cs i ≡ some c
      → lookup (txn_hash c.txn) p.confirmations ≡ some c
  pub ordered :
      (i : ℕ) (c : Claim) (d : ℕ) (e : Claim)
      → get_elem? cs i ≡ some c
      → has d c.depends ≡ true
      → lookup d p.confirmations ≡ some e
      → (j : ℕ) × (j < i) × (get_elem? cs j ≡ some e)
  pub distinct :
      (i j : ℕ) (a b : Claim)
      → get_elem? cs i ≡ some a
      → get_elem? cs j ≡ some b
      → txn_hash a.txn ≡ txn_hash b.txn
      → i ≡ j
  pub fits : header + bytes cs < max_block_size
  pub complete :
      ((q : ℕ) (c : Claim)
        → has q p.priorities ≡ true
        → lookup q p.confirmations ≡ some c
        → (i : ℕ) × (get_elem? cs i ≡ some c))
      ⊎ ((q : ℕ) × (c : Claim) × (lookup q p.confirmations ≡ some c)
          × ((i : ℕ) → get_elem? cs i ≢ some c)
          × (max_block_size ≤ header + sizes cs + c.size))

module _ (txn_hash : Transaction → ℕ) (conf : Map Claim) (rank : ℕ → ℕ) (fuel : ℕ)
    (pool : IsPool txn_hash conf rank fuel) (header : ℕ) where
  -- Those of these that are in the pool are in the listing, or one that is not does not fit.
  abbrev IsDone : List ℕ → Listing → Type 0
  IsDone ps t =
      ((q : ℕ) (c : Claim) → has q ps ≡ true → lookup q conf ≡ some c → has q t.inserted ≡ true)
      ⊎ ((q : ℕ) × (c : Claim) × (lookup q conf ≡ some c)
          × (has q t.inserted ≡ false)
          × (max_block_size ≤ header + sizes t.txns + c.size))

  -- What the loop leaves.
  abbrev Lists : ℕ → ℤ → List ℕ → Listing → Type 0
  Lists size fee ps s =
      (total : ℤ) × (t : Listing) × (list_claims txn_hash fuel conf ps size fee s ≡ ok (total, t))
      × IsListing txn_hash conf t
      × (header + bytes t.txns < max_block_size)
      × ((x : ℕ) → has x s.inserted ≡ true → has x t.inserted ≡ true)
      × IsDone ps t

  IsDone-cons :
      (q : ℕ) (ps : List ℕ) (t : Listing)
      → ((c : Claim) → lookup q conf ≡ some c → has q t.inserted ≡ true)
      → IsDone ps t
      → IsDone (q ∷ ps) t
  IsDone-cons q ps t first (inr full) = inr full
  IsDone-cons q ps t first (inl rest) = inl (λ x c needs there. elim (Bool-cases (x == q)) [
    | inl same ↦
        let same' : x ≡ q = ground arith in
        ap (λ y. has y t.inserted) same' ∙ first c (ap (λ y. lookup y conf) (sym same') ∙ there)
    | inr other ↦ rest x c (ground arith) there
  ])

  listed_sizes : (s : Listing) → IsListing txn_hash conf s → bytes s.txns ≤ sizes s.txns
  listed_sizes s listing =
      bytes-le-sizes s.txns
        (λ i c at. let h = pool.weighs (txn_hash c.txn) c (listing.from_pool i c at) in omega arith)

  list_skip :
      (q : ℕ) (ps : List ℕ) (size : ℕ) (fee : ℤ) (s : Listing)
      → list_claims txn_hash fuel conf (q ∷ ps) size fee s
        ≡ list_claims txn_hash fuel conf ps size fee s
      → ((c : Claim) → lookup q conf ≡ some c → has q s.inserted ≡ true)
      → Lists size fee ps s
      → Lists size fee (q ∷ ps) s
  list_skip q ps size fee s same first (total, t, result, listing, fits, kept, done) = (
    total,
    t,
    same ∙ result,
    listing,
    fits,
    kept,
    IsDone-cons q ps t (λ c there. kept q (first c there)) done,
  )

  list_claims-Lists :
      (ps : List ℕ) (size : ℕ) (fee : ℤ) (s : Listing)
      → IsListing txn_hash conf s
      → header + sizes s.txns ≡ size
      → header + bytes s.txns < max_block_size
      → Lists size fee ps s
  unfolding list_claims
  list_claims-Lists [] size fee s listing size_is fits =
      (fee, s, refl, listing, fits, λ x h. h, inl (λ q c needs there. absurd (ground arith)))
  list_claims-Lists (q ∷ ps) size fee s listing size_is fits = elim (Option-cases (lookup q conf)) [
    | inl absent ↦
        list_skip q ps size fee s (rw (list_claims, absent) refl) (λ c there. absurd (ground arith))
          (list_claims-Lists ps size fee s listing size_is fits)
    | inr (c, known) ↦ elim (Bool-cases (has q s.inserted)) [
      | inl present ↦
          list_skip q ps size fee s (rw (list_claims, known, present) refl) (λ c there. present)
            (list_claims-Lists ps size fee s listing size_is fits)
      | inr new ↦ elim (Bool-cases (leb max_block_size (size + c.size))) [
        | inl full ↦ (
          fee,
          s,
          rw (list_claims, known, new, full) refl,
          listing,
          fits,
          λ x h. h,
          inr (q, c, known, new, ground (arith, size_is)),
        )
        | inr room ↦
            let (n, t, result, grows, listed) =
              insert_claim-Grows txn_hash conf rank fuel pool fuel q c s known
                (pool.ranked q c known) listing new in
            let space : size + c.size < max_block_size = ground arith in
            let (total, u, result', listing', fits', kept, done) =
              list_claims-Lists ps (size + n) (add64 fee c.fee) t grows.listing
                (omega (arith, grows.sizes_are))
                (omega (arith, grows.bytes_are, listed_sizes s listing)) in
            (
              total,
              u,
              rw (list_claims, known, new, room, result) result',
              listing',
              fits',
              λ x h. kept x (grows.kept x h),
              IsDone-cons q ps u (λ d there. kept q listed) done,
            )
      ]
    ]
  ]

  -- Two claims of the pool with one hash are one.
  listed_is :
      (t : Listing) (q : ℕ) (c : Claim)
      → IsListing txn_hash conf t
      → has q t.inserted ≡ true
      → lookup q conf ≡ some c
      → (i : ℕ) × (get_elem? t.txns i ≡ some c)
  listed_is t q c listing there known =
      let (i, b, at, is) = listing.placed q there in
      (i, at ∙ sym (listing.from_pool i b at) ∙ ap (λ x. lookup x conf) is ∙ known)

empty-IsListing :
    (txn_hash : Transaction → ℕ) (conf : Map Claim)
    → IsListing txn_hash conf (record { txns = []; inserted = [] })
empty-IsListing txn_hash conf = record {
  from_pool = λ i c at. absurd (ground arith);
  placed = λ x h. absurd (ground arith);
  counted = λ i c at. absurd (ground arith);
  ordered = λ i c d e at. absurd (ground arith);
  distinct = λ i j a b at. absurd (ground arith);
}

-- In a pool whose claims do not depend on themselves through others, as the ranks show, and cover with
-- their sizes the ones they depend on, `transactions` succeeds for a header and coinbase below the
-- limit, with fuel above the ranks. It returns transactions of the pool, each once and after those
-- that it depends on, that fit in a block. Every claim with a priority is among them, unless a claim
-- that is left out goes over the limit with the sizes of those listed.
pub transactions-IsTemplate :
    (txn_hash : Transaction → ℕ) (p : Claims) (rank : ℕ → ℕ) (fuel header : ℕ)
    → IsPool txn_hash p.confirmations rank fuel
    → header < max_block_size
    → (fee : ℤ) × (cs : List Claim) × (transactions txn_hash fuel p header ≡ ok (fee, cs))
      × IsTemplate txn_hash p header cs
unfolding transactions
transactions-IsTemplate txn_hash p rank fuel header pool small =
    let conf = p.confirmations in
    let (fee, t, result, listing, fits, kept, done) =
      list_claims-Lists txn_hash conf rank fuel pool header p.priorities header (pos 0)
        (record { txns = []; inserted = [] }) (empty-IsListing txn_hash conf) (omega arith)
        (omega arith) in
    (
      fee,
      t.txns,
      rw result refl,
      record {
        from_pool = listing.from_pool;
        ordered = λ i c d e at needs there.
            let (j, b, less, before, is) = listing.ordered i c d e at needs there in
            (
              j,
              less,
              before ∙ sym (listing.from_pool j b before) ∙ ap (λ x. lookup x conf) is ∙ there,
            );
        distinct = listing.distinct;
        fits = fits;
        complete = elim done [
          | inl all ↦ inl (λ q c needs there.
              listed_is txn_hash conf rank fuel pool header t q c listing (all q c needs there)
                there)
          | inr (q, c, known, out, full) ↦ inr (
            q,
            c,
            known,
            λ i at.
                let counted = listing.counted i c at in
                let name = pool.named q c known in
                absurd (ground (arith, ap (λ x. has x t.inserted) name)),
            full,
          )
        ];
      },
    )
