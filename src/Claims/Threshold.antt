-- ===== src/Claims/Threshold.antt =====
-- Where the pool does not do what its comments say: `threshold`, and claims of one rank.
use libcoin.Base.{
  ℕ, zero, suc, ◌+◌, ◌<◌, ◌≡◌, ◌∙◌, refl, ap, sym, true, false, List, [], ◌∷◌, some, arith, inl,
  inr, ◌==◌, if◌then◌else◌, Bool-cases, ltb, ok,
}
use libcoin.Base.Int.{ℤ, pos}
use libcoin.Base.Map.{Map, lookup}
use libcoin.Chain.Check.{max_block_size}
use libcoin.Claims.{Claim, Claims, has, less, claim_at, insert_priority, threshold, threshold_from}
use libcoin.Claims.Rank.{
  IsEven, AreInRange, IsInRange, less_only, less_if, less-asymmetric, IsAbove-lt, IsEven-trans,
}
use libcoin.Claims.Queue.{IsQueue}

threshold_from-first :
    (conf : Map Claim) (q : ℕ) (ps : List ℕ) (c : Claim) (fuel size : ℕ) (fee : ℤ)
    → lookup q conf ≡ some c
    → 0 < c.size
    → max_block_size < fuel + size
    → 0 < fuel
    → threshold_from fuel conf (q ∷ ps) size fee
      ≡ ok (if ltb size max_block_size then c.fee else fee)
unfolding threshold_from
threshold_from-first conf q ps c zero size fee at some_size enough fuelled = absurd (omega arith)
threshold_from-first conf q ps c (suc fuel) size fee at some_size enough fuelled =
    let at' : claim_at conf q ≡ ok c = rw (claim_at, at) refl in
    elim (Bool-cases (ltb size max_block_size)) [
      | inr full ↦ rw (threshold_from, full) refl
      | inl room ↦
          let more : size < max_block_size = ground arith in
          let again =
            threshold_from-first conf q ps c fuel (size + c.size) c.fee at some_size (omega arith)
              (omega arith) in
          rw (threshold_from, room, at')
            (again
              ∙ ap ok (elim (Bool-cases (ltb (size + c.size) max_block_size)) [
                | inl h ↦ rw h refl
                | inr h ↦ rw h refl
              ]))
    ]

-- `threshold` of a pool whose first priority has a claim with a size that is not 0, for a header and
-- coinbase below the limit, returns the fee of that claim, whatever comes after it. Fuel above the
-- limit is enough.
pub threshold-first :
    (p : Claims) (q : ℕ) (ps : List ℕ) (c : Claim) (fuel header : ℕ)
    → p.priorities ≡ q ∷ ps
    → lookup q p.confirmations ≡ some c
    → 0 < c.size
    → header < max_block_size
    → max_block_size < fuel
    → threshold fuel p header ≡ ok c.fee
unfolding threshold
threshold-first p q ps c fuel header order at some_size small enough =
    let room : ltb header max_block_size ≡ true = ground arith in
    ap (λ l. threshold_from fuel p.confirmations l header (pos 0)) order
    ∙ threshold_from-first p.confirmations q ps c fuel header (pos 0) at some_size (omega arith)
        (omega arith)
    ∙ rw room refl

-- Claims of one rank have the same fee for their sizes.
IsEven-of_rank :
    (c d : Claim) → IsInRange c d → IsInRange d c → less c d ≡ false → less d c ≡ false → IsEven c d
IsEven-of_rank c d in_range in_range' left right =
    grind (arith, less_if c d in_range in_range', less_if d c in_range' in_range)

module _ (conf : Map Claim) (in_range : AreInRange conf)
    (sized : (x : ℕ) (e : Claim) → lookup x conf ≡ some e → 0 < e.size) where
  -- A claim before one of the same rank as `c` is before `c`.
  before_rank :
      (x y z : ℕ) (e d c : Claim)
      → lookup x conf ≡ some e
      → lookup y conf ≡ some d
      → lookup z conf ≡ some c
      → less e d ≡ true
      → less c d ≡ false
      → less d c ≡ false
      → less e c ≡ true
  before_rank x y z e d c at_e at_d at_c before left right =
      let c_d = in_range z y c d at_c at_d in
      let d_c = in_range y z d c at_d at_c in
      let even = IsEven-of_rank c d c_d d_c left right in
      let turned : IsEven d c = omega (arith, even) in
      let size_e = sized x e at_e in
      let size_d = sized y d at_d in
      let size_c = sized z c at_c in
      let ahead = less_only e d (in_range x y e d at_e at_d) (in_range y x d e at_d at_e) before in
      less_if e c (in_range x z e c at_e at_c) (in_range z x c e at_c at_e) (elim ahead [
        | inl above ↦ inl (IsAbove-lt e d c size_e size_d size_c (inl (above, inr turned)))
        | inr (level, small) ↦ inr (
          IsEven-trans e d c size_e size_d size_c level turned,
          grind (arith, less_if c d c_d d_c, less_if d c d_c c_d, even, turned),
        )
      ])

-- Where the products that `less` compares are in the range of `int64_t`, in an ordered queue of claims
-- with sizes, a claim of the same rank as one of the queue is not put in: the queue stays as it is, so
-- the claim has no priority.
pub insert_priority_even :
    (conf : Map Claim) (h : ℕ) (c : Claim) (q : ℕ) (d : Claim) (ps : List ℕ)
    → ((x : ℕ) (e : Claim) → lookup x conf ≡ some e → 0 < e.size)
    → AreInRange conf
    → IsQueue conf ps
    → lookup h conf ≡ some c
    → has q ps ≡ true
    → lookup q conf ≡ some d
    → less c d ≡ false
    → less d c ≡ false
    → insert_priority conf h ps ≡ ok ps
unfolding insert_priority
insert_priority_even conf h c q d [] sized in_range queue at there at_q left right =
    absurd (ground arith)
insert_priority_even conf h c q d (p ∷ ps) sized in_range ((e, at_p, first), queue) at there at_q
      left right =
    let at' : claim_at conf h ≡ ok c = rw (claim_at, at) refl in
    let at_p' : claim_at conf p ≡ ok e = rw (claim_at, at_p) refl in
    elim (Bool-cases (q == p)) [
      | inl same ↦
          let same' : q ≡ p = ground arith in
          let both = ap (λ x. lookup x conf) same' in
          let is : d ≡ e = ground arith in
          let left' : less c e ≡ false = ap (less c) (sym is) ∙ left in
          let right' : less e c ≡ false = ap (λ x. less x c) (sym is) ∙ right in
          rw (at', at_p', left', right') refl
      | inr other ↦
          let there' : has q ps ≡ true = ground arith in
          let before = first q d there' at_q in
          let earlier =
            before_rank conf in_range sized p q h e d c at_p at_q at before left right in
          let not_later = less-asymmetric e c earlier in
          rw
            (
              at',
              at_p',
              not_later,
              earlier,
              insert_priority_even conf h c q d ps sized in_range queue at there' at_q left right,
            )
            refl
    ]
