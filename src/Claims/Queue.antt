-- ===== src/Claims/Queue.antt =====
-- The priorities as an ordered set.
use libcoin.Base.{
  ℕ, ◌<◌, ◌≡◌, ◌⊎◌, ◌∙◌, refl, ap, sym, true, false, List, [], ◌∷◌, some, arith, inl, inr, ◌==◌,
  Bool-cases, ok,
}
use libcoin.Base.Map.{Map, lookup}
use libcoin.Claims.{Claim, has, less, insert_priority, claim_at}
use libcoin.Claims.Removal.{erase_priority}
use libcoin.Claims.Order.{has-cons}
use libcoin.Claims.Rank.{AreInRange, less-irreflexive, less-transitive}

-- The hash has a claim that comes before those of all these hashes.
abbrev pub IsFirst : Map Claim → Claim → List ℕ → Type 0
IsFirst conf c ps = (q : ℕ) (d : Claim) → has q ps ≡ true → lookup q conf ≡ some d → less c d ≡ true

-- Each hash of the priorities has its claim, and they are in order.
abbrev pub IsQueue : Map Claim → List ℕ → Type 0
IsQueue conf [] = Unit
IsQueue conf (p ∷ ps) =
    ((c : Claim) × (lookup p conf ≡ some c) × IsFirst conf c ps) × IsQueue conf ps

-- Each hash has its claim.
abbrev pub AreKnown : Map Claim → List ℕ → Type 0
AreKnown conf [] = Unit
AreKnown conf (p ∷ ps) = ((c : Claim) × (lookup p conf ≡ some c)) × AreKnown conf ps

pub IsQueue-AreKnown : (conf : Map Claim) (ps : List ℕ) → IsQueue conf ps → AreKnown conf ps
IsQueue-AreKnown conf [] queue = tt
IsQueue-AreKnown conf (p ∷ ps) ((c, at, first), queue) = ((c, at), IsQueue-AreKnown conf ps queue)

pub IsQueue-known :
    (conf : Map Claim) (ps : List ℕ) (q : ℕ)
    → IsQueue conf ps
    → has q ps ≡ true
    → (c : Claim) × (lookup q conf ≡ some c)
IsQueue-known conf [] q queue there = absurd (ground arith)
IsQueue-known conf (p ∷ ps) q ((c, at, first), queue) there = elim (Bool-cases (q == p)) [
  | inl same ↦ (c, ap (λ x. lookup x conf) (ground arith) ∙ at)
  | inr other ↦ IsQueue-known conf ps q queue (ground arith)
]

-- They stay so if the claims of these hashes do.
pub IsQueue-keeps :
    (conf after : Map Claim) (ps : List ℕ)
    → ((q : ℕ) → has q ps ≡ true → lookup q after ≡ lookup q conf)
    → IsQueue conf ps
    → IsQueue after ps
IsQueue-keeps conf after [] same queue = tt
IsQueue-keeps conf after (p ∷ ps) same ((c, at, first), queue) =
    let rest = λ (q : ℕ) (there : has q ps ≡ true). same q (has-cons q p ps there) in
    (
      (
        c,
        same p (ground arith) ∙ at,
        λ q d there at_q. first q d there (sym (rest q there) ∙ at_q),
      ),
      IsQueue-keeps conf after ps rest queue,
    )

-- Two names of one claim.
same_claim :
    (conf : Map Claim) (x y : ℕ) (c d : Claim)
    → (x == y) ≡ true
    → lookup x conf ≡ some c
    → lookup y conf ≡ some d
    → c ≡ d
same_claim conf x y c d same at there =
    let same' : x ≡ y = ground arith in let both = ap (λ z. lookup z conf) same' in ground arith

module _ (conf : Map Claim) (h : ℕ) (c : Claim) (at : lookup h conf ≡ some c) where
  claim_at_h : claim_at conf h ≡ ok c
  claim_at_h = rw (claim_at, at) refl

  claim_at_p : (p : ℕ) (d : Claim) → lookup p conf ≡ some d → claim_at conf p ≡ ok d
  claim_at_p p d there = rw (claim_at, there) refl

  -- In any order, `insert` and `erase` of a hash succeed on hashes that have their claims.
  pub insert_priority-known :
      (ps : List ℕ)
      → AreKnown conf ps
      → (qs : List ℕ) × (insert_priority conf h ps ≡ ok qs) × AreKnown conf qs
  unfolding insert_priority
  insert_priority-known [] known = (h ∷ [], refl, ((c, at), tt))
  insert_priority-known (p ∷ ps) ((d, there), known) =
      let at' = claim_at_h in
      let there' = claim_at_p p d there in
      let (qs, result, known') = insert_priority-known ps known in
      elim (Bool-cases (less c d)) [
        | inl before ↦ (h ∷ p ∷ ps, rw (at', there', before) refl, ((c, at), ((d, there), known)))
        | inr not_before ↦ elim (Bool-cases (less d c)) [
          | inl after ↦
              (p ∷ qs, rw (at', there', not_before, after, result) refl, ((d, there), known'))
          | inr even ↦ (p ∷ ps, rw (at', there', not_before, even) refl, ((d, there), known))
        ]
      ]

  pub erase_priority-known :
      (ps : List ℕ) → AreKnown conf ps → (qs : List ℕ) × (erase_priority conf h ps ≡ ok qs)
  unfolding erase_priority
  erase_priority-known [] known = ([], refl)
  erase_priority-known (p ∷ ps) ((d, there), known) =
      let at' = claim_at_h in
      let there' = claim_at_p p d there in
      let (qs, result) = erase_priority-known ps known in
      elim (Bool-cases (less d c)) [
        | inl before ↦ (p ∷ qs, rw (at', there', before, result) refl)
        | inr not_before ↦ elim (Bool-cases (less c d)) [
          | inl after ↦ (p ∷ ps, rw (at', there', not_before, after) refl)
          | inr even ↦ (ps, rw (at', there', not_before, even) refl)
        ]
      ]

  -- The priorities take the hash, or one of the same rank is there.
  pub insert_priority-IsQueue :
      (ps : List ℕ)
      → ((q : ℕ) (d : Claim) → lookup q conf ≡ some d → 0 < d.size)
      → AreInRange conf
      → IsQueue conf ps
      → (qs : List ℕ) × (insert_priority conf h ps ≡ ok qs)
        × ((q : ℕ) → has q qs ≡ true → (has q ps ≡ true) ⊎ ((q == h) ≡ true))
        × IsQueue conf qs
  unfolding insert_priority
  insert_priority-IsQueue [] sized in_range queue = (
    h ∷ [],
    refl,
    λ q there. inr (ground arith),
    ((c, at, λ q d there. absurd (ground arith)), tt),
  )
  insert_priority-IsQueue (p ∷ ps) sized in_range ((d, there, first), queue) =
      let at' = claim_at_h in
      let there' = claim_at_p p d there in
      let (qs, result, from, good) = insert_priority-IsQueue ps sized in_range queue in
      elim (Bool-cases (less c d)) [
        | inl before ↦ (
          h ∷ p ∷ ps,
          rw (at', there', before) refl,
          λ q is. ground arith,
          (
            (
              c,
              at,
              λ q e is at_q. elim (Bool-cases (q == p)) [
                | inl same ↦ rw (same_claim conf q p e d same at_q there) before
                | inr other ↦
                    less-transitive c d e (sized h c at) (sized p d there) (sized q e at_q) conf h p
                      q in_range at there at_q before (first q e (ground arith) at_q)
              ],
            ),
            ((d, there, first), queue),
          ),
        )
        | inr not_before ↦ elim (Bool-cases (less d c)) [
          | inl after ↦ (
            p ∷ qs,
            rw (at', there', not_before, after, result) refl,
            λ q is. elim (Bool-cases (q == p)) [
              | inl same ↦ inl (ground arith)
              | inr other ↦ elim (from q (ground arith)) [
                | inl old ↦ inl (has-cons q p ps old)
                | inr new ↦ inr new
              ]
            ],
            (
              (
                d,
                there,
                λ q e is at_q. elim (from q is) [
                  | inl old ↦ first q e old at_q
                  | inr new ↦ rw (same_claim conf q h e c new at_q at) after
                ],
              ),
              good,
            ),
          )
          | inr even ↦ (
            p ∷ ps,
            rw (at', there', not_before, even) refl,
            λ q is. inl is,
            ((d, there, first), queue),
          )
        ]
      ]

  -- A claim that is ranked before or after this one is another.
  differs :
      (q : ℕ) (e : Claim)
      → lookup q conf ≡ some e
      → (less e c ≡ true) ⊎ (less c e ≡ true)
      → (q == h) ≡ false
  differs q e there ranked = elim (Bool-cases (q == h)) [
    | inr other ↦ other
    | inl same ↦
        let e_is = same_claim conf q h e c same there at in
        let even = less-irreflexive c in
        let left = ap (λ x. less x c) e_is in let right = ap (less c) e_is in absurd (ground arith)
  ]

  -- What comes after a claim that does not come before this one is another.
  later_differs :
      (d : Claim) (ps : List ℕ) (q : ℕ)
      → IsFirst conf d ps
      → IsQueue conf ps
      → less d c ≡ false
      → has q ps ≡ true
      → (q == h) ≡ false
  later_differs d ps q first queue not_before is = elim (Bool-cases (q == h)) [
    | inr other ↦ other
    | inl same ↦
        let (e, there) = IsQueue-known conf ps q queue is in
        let before = first q e is there in
        let after = ap (less d) (same_claim conf q h e c same there at) in absurd (ground arith)
  ]

  -- The hash is not among the priorities after `erase`.
  pub erase_priority-IsQueue :
      (ps : List ℕ)
      → IsQueue conf ps
      → (qs : List ℕ) × (erase_priority conf h ps ≡ ok qs)
        × ((q : ℕ) → has q qs ≡ true → (has q ps ≡ true) × ((q == h) ≡ false))
        × IsQueue conf qs
  unfolding erase_priority
  erase_priority-IsQueue [] queue = ([], refl, λ q is. absurd (ground arith), tt)
  erase_priority-IsQueue (p ∷ ps) ((d, there, first), queue) =
      let at' = claim_at_h in
      let there' = claim_at_p p d there in
      let (qs, result, from, good) = erase_priority-IsQueue ps queue in
      elim (Bool-cases (less d c)) [
        | inl before ↦ (
          p ∷ qs,
          rw (at', there', before, result) refl,
          λ q is. elim (Bool-cases (q == p)) [
            | inl same ↦
                (ground arith, ap (λ x. x == h) (ground arith) ∙ differs p d there (inl before))
            | inr other ↦ let (old, out) = from q (ground arith) in (has-cons q p ps old, out)
          ],
          ((d, there, λ q e is at_q. first q e (from q is).0 at_q), good),
        )
        | inr not_before ↦ elim (Bool-cases (less c d)) [
          | inl after ↦ (
            p ∷ ps,
            rw (at', there', not_before, after) refl,
            λ q is. (
              is,
              elim (Bool-cases (q == p)) [
                | inl same ↦ ap (λ x. x == h) (ground arith) ∙ differs p d there (inr after)
                | inr other ↦ later_differs d ps q first queue not_before (ground arith)
              ],
            ),
            ((d, there, first), queue),
          )
          | inr even ↦ (
            ps,
            rw (at', there', not_before, even) refl,
            λ q is. (has-cons q p ps is, later_differs d ps q first queue not_before is),
            queue,
          )
        ]
      ]
