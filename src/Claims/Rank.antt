-- ===== src/Claims/Rank.antt =====
-- The order of the priorities.
use libcoin.Base.{ℕ, ◌+◌, ◌*◌, ◌^◌, ◌<◌, ◌≤◌, ◌≡◌, ◌⊎◌, true, false, some, arith, inl, inr}
use libcoin.Base.Int.{ℤ, pos, ◌*ℤ◌, pos_part, neg_part, wrap-in_range}
use libcoin.Claims.{Claim, less, fee_times}
use libcoin.Base.Map.{Map, lookup}

-- A product with a size, as a difference of products of numbers.
mul_parts :
    (f : ℤ) (s : ℕ)
    → pos_part (f *ℤ pos s) + neg_part f * s ≡ neg_part (f *ℤ pos s) + pos_part f * s
unfolding ◌*ℤ◌
mul_parts f s = ground arith

-- An integer has one part that is not 0 at most.
one_part : (z : ℤ) → (pos_part z ≡ 0) ⊎ (neg_part z ≡ 0)
one_part z = ground arith

-- The fee of `l` for its size is above that of `r`; the same; what is compared then.
abbrev pub IsAbove : Claim → Claim → Type 0
IsAbove l r =
    pos_part r.fee * l.size + neg_part l.fee * r.size
    < pos_part l.fee * r.size + neg_part r.fee * l.size

abbrev pub IsEven : Claim → Claim → Type 0
IsEven l r =
    pos_part r.fee * l.size + neg_part l.fee * r.size
    ≡ pos_part l.fee * r.size + neg_part r.fee * l.size

abbrev pub IsSmaller : Claim → Claim → Type 0
IsSmaller l r =
    pos_part l.delta_spendables + neg_part r.delta_spendables
    < pos_part r.delta_spendables + neg_part l.delta_spendables

-- The fee of `l` times the size of `r` is in the range of `int64_t`.
abbrev pub IsInRange : Claim → Claim → Type 0
IsInRange l r = (pos_part l.fee * r.size < 2 ^ 63) × (neg_part l.fee * r.size < 2 ^ 63)

-- So it is for all the claims of a pool.
abbrev pub AreInRange : Map Claim → Type 0
AreInRange conf =
    (x y : ℕ) (c d : Claim) → lookup x conf ≡ some c → lookup y conf ≡ some d → IsInRange c d

fee_times_parts :
    (l r : Claim)
    → IsInRange l r
    → pos_part (fee_times l r) + neg_part l.fee * r.size
      ≡ neg_part (fee_times l r) + pos_part l.fee * r.size
unfolding fee_times
fee_times_parts l r (h, k) =
    let parts = mul_parts l.fee r.size in
    let alone = one_part (l.fee *ℤ pos r.size) in
    rw (wrap-in_range (l.fee *ℤ pos r.size) (omega arith) (omega arith)) parts

module _ (l r : Claim) (in_range : IsInRange l r) (in_range' : IsInRange r l) where
  pub less_only : less l r ≡ true → IsAbove l r ⊎ (IsEven l r × IsSmaller l r)
  unfolding less
  less_only h = ground (arith, fee_times_parts l r in_range, fee_times_parts r l in_range')

  pub less_if : IsAbove l r ⊎ (IsEven l r × IsSmaller l r) → less l r ≡ true
  unfolding less
  less_if h = ground (arith, fee_times_parts l r in_range, fee_times_parts r l in_range')

-- A positive factor cancels.
cancel-lt : (s a b : ℕ) → 0 < s → s * a < s * b → a < b
cancel-lt s a b h e = grind arith

cancel-le : (s a b : ℕ) → 0 < s → s * a ≤ s * b → a ≤ b
cancel-le s a b h e = grind arith

scaled-le : (s a b : ℕ) → a ≤ b → s * a ≤ s * b
scaled-le s a b e = grind arith

scaled-lt : (s a b : ℕ) → 0 < s → a < b → s * a < s * b
scaled-lt s a b h e = grind arith

module _ (a b c a' b' c' s t u : ℕ) (some : 0 < t) where
  -- Fees a - a', b - b' and c - c' for the sizes s, t and u.
  chain_le :
      b * s + a' * t ≤ a * t + b' * s
      → c * t + b' * u ≤ b * u + c' * t
      → c * s + a' * u ≤ a * u + c' * s
  chain_le h k =
      let h' = scaled-le u (b * s + a' * t) (a * t + b' * s) h in
      let k' = scaled-le s (c * t + b' * u) (b * u + c' * t) k in
      cancel-le t (c * s + a' * u) (a * u + c' * s) some (omega arith)

  chain_lt :
      (0 < u) × (b * s + a' * t < a * t + b' * s) × (c * t + b' * u ≤ b * u + c' * t)
        ⊎ (0 < s) × (b * s + a' * t ≤ a * t + b' * s) × (c * t + b' * u < b * u + c' * t)
      → c * s + a' * u < a * u + c' * s
  chain_lt (inl (pos_u, h, k)) =
      let h' = scaled-lt u (b * s + a' * t) (a * t + b' * s) pos_u h in
      let k' = scaled-le s (c * t + b' * u) (b * u + c' * t) k in
      cancel-lt t (c * s + a' * u) (a * u + c' * s) some (omega arith)
  chain_lt (inr (pos_s, h, k)) =
      let h' = scaled-le u (b * s + a' * t) (a * t + b' * s) h in
      let k' = scaled-lt s (c * t + b' * u) (b * u + c' * t) pos_s k in
      cancel-lt t (c * s + a' * u) (a * u + c' * s) some (omega arith)

pub less-irreflexive : (c : Claim) → less c c ≡ false
unfolding less
less-irreflexive c = ground arith

pub less-asymmetric : (l r : Claim) → less l r ≡ true → less r l ≡ false
unfolding less
less-asymmetric l r is = ground arith

module _ (a b c : Claim) (size_a : 0 < a.size) (size_b : 0 < b.size) (size_c : 0 < c.size) where
  pub IsAbove-lt :
      ((IsAbove a b × (IsAbove b c ⊎ IsEven b c)) ⊎ (IsEven a b × IsAbove b c)) → IsAbove a c
  IsAbove-lt h =
      chain_lt (pos_part a.fee) (pos_part b.fee) (pos_part c.fee) (neg_part a.fee) (neg_part b.fee)
        (neg_part c.fee) a.size b.size c.size size_b
        (elim h [
          | inl (above, inl next) ↦ inl (size_c, above, omega arith)
          | inl (above, inr next) ↦ inl (size_c, above, omega arith)
          | inr (even, next) ↦ inr (size_a, omega arith, next)
        ])

  pub IsEven-trans : IsEven a b → IsEven b c → IsEven a c
  IsEven-trans h k =
      let up =
        chain_le (pos_part a.fee) (pos_part b.fee) (pos_part c.fee) (neg_part a.fee)
          (neg_part b.fee) (neg_part c.fee) a.size b.size c.size size_b (omega arith)
          (omega arith) in
      let back =
        chain_le (pos_part c.fee) (pos_part b.fee) (pos_part a.fee) (neg_part c.fee)
          (neg_part b.fee) (neg_part a.fee) c.size b.size a.size size_b (omega arith)
          (omega arith) in
      omega arith

  module _ (conf : Map Claim) (x y z : ℕ) (in_range : AreInRange conf)
      (at_a : lookup x conf ≡ some a) (at_b : lookup y conf ≡ some b)
      (at_c : lookup z conf ≡ some c) where
    pub less-transitive : less a b ≡ true → less b c ≡ true → less a c ≡ true
    less-transitive h k =
        let a_b = less_only a b (in_range x y a b at_a at_b) (in_range y x b a at_b at_a) h in
        let b_c = less_only b c (in_range y z b c at_b at_c) (in_range z y c b at_c at_b) k in
        less_if a c (in_range x z a c at_a at_c) (in_range z x c a at_c at_a) (elim a_b [
          | inl above ↦ elim b_c [
            | inl above' ↦ inl (IsAbove-lt (inl (above, inl above')))
            | inr (even, _) ↦ inl (IsAbove-lt (inl (above, inr even)))
          ]
          | inr (even, small) ↦ elim b_c [
            | inl above' ↦ inl (IsAbove-lt (inr (even, above')))
            | inr (even', small') ↦ inr (IsEven-trans even even', omega arith)
          ]
        ])
