-- ===== src/Chain/Subsidy.antt =====
-- `subsidy` of the chains whose reward halves, and the total that it issues.
use native.Mathlib.Nat.{
  pow-suc, div-eq_of_lt-le, div-le_self, mul-le-mul, mul-le-mul_left, div-div-eq-div-mul,
}
use libcoin.Base.{
  ℕ, zero, suc, ◌+◌, ◌-◌, ◌*◌, ◌/◌, ◌%◌, ◌^◌, ◌<◌, ◌≤◌, ◌≡◌, refl, ap, Option, none, some, arith,
  ltb, lt→ltb, Bool-cases, inl, inr, if◌then◌else◌,
}
use libcoin.Chain.Check.{max_money}

abbrev pub coin : ℕ
coin = 100000000

-- `50 * COIN >> (height / interval)`. A shift of an `int64_t` by 64 or more is undefined: `none`.
unfoldable pub halving_subsidy : ℕ → ℕ → Option ℕ
halving_subsidy interval height =
    if ltb (height / interval) 64 then some (50 * coin / 2 ^ (height / interval)) else none

unfoldable pub bitcoin_subsidy : ℕ → Option ℕ
bitcoin_subsidy = halving_subsidy 210000

unfoldable pub testnet3_subsidy : ℕ → Option ℕ
testnet3_subsidy = halving_subsidy 210000

unfoldable pub namecoin_subsidy : ℕ → Option ℕ
namecoin_subsidy = halving_subsidy 210000

unfoldable pub litecoin_subsidy : ℕ → Option ℕ
litecoin_subsidy = halving_subsidy 840000

-- The sum of the subsidies of the blocks below a height.
pub issued : (ℕ → Option ℕ) → ℕ → Option ℕ
issued subsidy zero = some 0
issued subsidy (suc n) = elim (issued subsidy n) [
  | none ↦ none
  | some total ↦ elim (subsidy n) [ none ↦ none | some s ↦ some (total + s) ]
]

abbrev reward : ℕ → ℕ
reward era = 50 * coin / 2 ^ era

room-le : (i r q s : ℕ) → q ≤ s → (2 * i - r) * q ≤ 2 * i * s
room-le i r q s h = mul-le-mul {n₁ = 2 * i - r} {n₂ = 2 * i} (omega arith) h

room_next_era : (i p q : ℕ) → 2 * q ≤ p → (2 * i - 0) * q ≤ (2 * i - i) * p
room_next_era i p q h =
    let one : 2 * i - i ≡ i = omega arith in
    let grown : i * (2 * q) ≤ i * p = mul-le-mul_left i h in
    let all : 2 * i - 0 ≡ 2 * i = omega arith in rw (one, all) (omega arith)

room_next_block : (i r q : ℕ) → r < i → (2 * i - r) * q ≡ q + (2 * i - suc r) * q
room_next_block i r q h =
    let one : 2 * i - r ≡ suc (2 * i - suc r) = omega arith in omega (arith, ap (λ t. t * q) one)

reward_halves : (era : ℕ) → 2 * reward (suc era) ≤ reward era
reward_halves era =
    omega
      (arith, div-div-eq-div-mul (50 * coin) (2 ^ era) 2, ap (λ d. 50 * coin / d) (pow-suc 2 era))

-- The reward of the era that holds height `n`.
halving_subsidy_era :
    (interval n era r : ℕ)
    → n ≡ era * interval + r
    → r < interval
    → era < 64
    → halving_subsidy interval n ≡ some (reward era)
unfolding halving_subsidy
halving_subsidy_era interval n era r e h k =
    rw
      (
        div-eq_of_lt-le {k = era} interval {m = n} (omega (arith, e)) (omega (arith, e)),
        lt→ltb era 64 k,
      )
      refl

-- `n` blocks have issued a total that leaves room for the rest of the era, which `r` blocks of
-- `n` are in, and for as many more blocks as an era has.
abbrev Leaves : ℕ → ℕ → ℕ → ℕ → Type 0
Leaves interval n era r =
    (total : ℕ) × (issued (halving_subsidy interval) n ≡ some total)
    × (total + (2 * interval - r) * reward era ≤ 2 * interval * (50 * coin))

Leaves-zero : (interval era r : ℕ) → Leaves interval 0 era r
unfolding issued
Leaves-zero interval era r =
    (0, refl, omega (arith, room-le interval r (reward era) (50 * coin) (div-le_self _ _)))

Leaves-suc_era :
    (interval n era : ℕ) → Leaves interval n era interval → Leaves interval n (suc era) 0
Leaves-suc_era interval n era (total, e, h) = (
  total,
  e,
  omega (arith, room_next_era interval (reward era) (reward (suc era)) (reward_halves era)),
)

Leaves-suc_block :
    (interval n era r : ℕ)
    → n ≡ era * interval + r
    → r < interval
    → era < 64
    → Leaves interval n era r
    → Leaves interval (suc n) era (suc r)
unfolding issued
Leaves-suc_block interval n era r e h k (total, i, b) = (
  total + reward era,
  rw (i, halving_subsidy_era interval n era r e h k),
  omega (arith, room_next_block interval r (reward era) h),
)

Leaves-issued :
    (interval n era r : ℕ)
    → n ≡ era * interval + r
    → r ≤ interval
    → era < 64
    → Leaves interval n era r
Leaves-issued interval zero era r e h k = Leaves-zero interval era r
Leaves-issued interval (suc n) zero zero e h k = absurd (omega arith)
Leaves-issued interval (suc n) (suc era) zero e h k =
    Leaves-suc_era interval (suc n) era
      (Leaves-issued interval (suc n) era interval (omega arith) (omega arith) (omega arith))
Leaves-issued interval (suc n) era (suc r) e h k =
    Leaves-suc_block interval n era r (omega arith) (omega arith) k
      (Leaves-issued interval n era r (omega arith) (omega arith) k)

-- All the blocks below height 13,440,000, for which `subsidy` is defined, issue no more than the
-- money supply that `range` allows.
pub issued-le-max_money :
    (n : ℕ)
    → n ≤ 64 * 210000
    → (total : ℕ) × (issued bitcoin_subsidy n ≡ some total) × (total ≤ max_money)
unfolding bitcoin_subsidy
issued-le-max_money n h = elim (Bool-cases (ltb n (64 * 210000))) [
  | inl below ↦
      let (total, e, b) =
        Leaves-issued 210000 n (n / 210000) (n % 210000) (omega arith) (omega arith)
          (ground arith) in
      (total, e, omega arith)
  | inr last ↦
      let (total, e, b) =
        Leaves-issued 210000 n 63 210000 (ground arith) (omega arith) (omega arith) in
      (total, e, omega arith)
]
