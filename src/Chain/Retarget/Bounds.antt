-- ===== src/Chain/Retarget/Bounds.antt =====
-- What `nextWorkRequired` gives: bounds of the new target, and blocks of a branch.
use native.Mathlib.Nat.{le-div_iff_mul-le, div-mul-le_self, mul-le-mul_left}
use libcoin.Base.{
  List, ℕ, suc, ◌-◌, ◌*◌, ◌/◌, ◌%◌, ◌<◌, ◌≤◌, ◌≡◌, ◌⊎◌, refl, ap, Bool, true, false, not, arith,
  inl, inr, ltb, leb, ◌==◌, if◌then◌else◌, Bool-cases, ok, some,
}
use libcoin.Base.Int.{ℤ, pos, negsuc, ◌+ℤ◌, ◌-ℤ◌, ◌*ℤ◌}
use libcoin.Base.Map.{lookup}
use libcoin.BlockTree.Sparse.{BlockRef, SparseTree, count}
use libcoin.BlockTree.Sparse.Walk.{Descends, height-lookup}
use libcoin.BlockTree.Sparse.Steps.{retreat-ok}
use libcoin.Chain.Retarget.{
  div_ℤ, held, not_due, is_genesis, new_target, next_work, bitcoin_work, dogecoin_held,
  dogecoin_work, all_ones,
}

held-bounds :
    (low high : ℕ) (x : ℤ)
    → low ≤ high
    → (a : ℕ) × (held low high x ≡ pos a) × (low ≤ a) × (a ≤ high)
unfolding held
held-bounds low high (pos n) h = elim (Bool-cases (ltb n low)) [
  | inl small ↦ (low, ground arith, omega arith, h)
  | inr not_small ↦ elim (Bool-cases (ltb high n)) [
    | inl big ↦ (high, ground arith, h, omega arith)
    | inr not_big ↦ (n, ground arith, ground arith, ground arith)
  ]
]
held-bounds low high (negsuc k) h = (low, ground arith, omega arith, h)

div-monotone : (a b c : ℕ) → 0 < c → a ≤ b → a / c ≤ b / c
div-monotone a b c some_time h =
    grind (arith, le-div_iff_mul-le {k = c} {x = a / c} {y = b} some_time, div-mul-le_self a c)

-- A target within the bounds of the time, and below the limit.
pub record IsTarget (limit timespan low high t n : ℕ) : Type 0 where
  pub allowed : n ≤ limit
  pub not_above : n ≤ t * high / timespan
  pub not_below : (t * low / timespan ≤ n) ⊎ (n ≡ limit)

module _ (set_compact : ℕ → ℤ) (get_compact : ℤ → ℕ) where
  new_target-IsTarget :
      (limit timespan low high bits t a : ℕ)
      → 0 < timespan
      → set_compact bits ≡ pos t
      → low ≤ a
      → a ≤ high
      → (n : ℕ) × (new_target set_compact get_compact limit timespan bits (pos a) ≡ pos n)
        × IsTarget limit timespan low high t n
  unfolding new_target ◌*ℤ◌ div_ℤ
  new_target-IsTarget limit timespan low high bits t a some_time old l h =
      let value : set_compact bits *ℤ pos a ≡ pos (t * a) = rw old (ground arith) in
      let quotient : div_ℤ (set_compact bits *ℤ pos a) timespan ≡ pos (t * a / timespan) =
        ap (λ z. div_ℤ z timespan) value in
      let up = div-monotone (t * a) (t * high) timespan some_time (mul-le-mul_left t h) in
      let down = div-monotone (t * low) (t * a) timespan some_time (mul-le-mul_left t l) in
      elim (Bool-cases (ltb limit (t * a / timespan))) [
        | inl big ↦ (
          limit,
          rw quotient (ground arith),
          record { allowed = omega arith; not_above = ground arith; not_below = inr refl },
        )
        | inr small ↦ (
          t * a / timespan,
          rw quotient (ground arith),
          record { allowed = ground arith; not_above = up; not_below = inl down },
        )
      ]

  -- The compact target `b` after a block of height `h` and with the compact target `bits`, which reads as
  -- `target`.
  abbrev pub IsNext : ℕ → ℕ → ℕ → ℕ → ℕ → Bool → Bool → ℕ → ℕ → ℕ → Type 0
  IsNext limit timespan low high first genesis stays bits target b =
      ((genesis ≡ true) × (b ≡ first))
      ⊎ ((genesis ≡ false) × (stays ≡ true) × (b ≡ bits))
      ⊎ ((genesis ≡ false)
          × (stays ≡ false)
          × ((n : ℕ) × (b ≡ get_compact (pos n)) × IsTarget limit timespan low high target n))

  -- For a block of a branch that would be due on the trunk, since its count is a multiple of the
  -- interval, `nextWorkRequired` of Bitcoin gives the compact target of the block itself.
  pub bitcoin_work_branch :
      (t : SparseTree) (blk : BlockRef) (k : ℕ)
      → lookup blk.hash t.heights ≡ some (negsuc k)
      → count t blk.hash ≡ ok (suc (suc k))
      → suc (suc k) % 2016 ≡ 0
      → bitcoin_work set_compact get_compact t blk ≡ ok blk.bits
  unfolding bitcoin_work next_work not_due
  bitcoin_work_branch t blk k at counted due =
      let at' = height-lookup t blk.hash (negsuc k) at in
      let other : (k % 2016 == 0) ≡ false = ground arith in rw (at', other) refl

  module _ (t : SparseTree) (blk root : BlockRef) (m : ℕ) (path : List BlockRef) (h : ℤ)
      (target : ℕ) (way : Descends t root m blk path) (at : lookup blk.hash t.heights ≡ some h)
      (old : set_compact blk.bits ≡ pos target) where
    -- For a block with a height and a way down to the trunk, whose target is not negative,
    -- `nextWorkRequired` succeeds, for any distance that it goes back. The first block asks for the
    -- first target, a block that is not due keeps its own, and any other asks for a target of at most the
    -- limit. It is at most the old one times `timespan * 4` over `timespan`, and the limit or at least the
    -- old one times `timespan / 4` over `timespan`.
    pub next_work-IsNext :
        (limit interval timespan first : ℕ) (go_back : ℤ → ℕ)
        → 0 < timespan
        → (b : ℕ) × (next_work set_compact get_compact limit interval timespan go_back first t blk
            ≡ ok b)
          × IsNext limit timespan
              (timespan / 4)
              (timespan * 4)
              first
              (is_genesis h)
              (not_due interval h)
              blk.bits
              target
              b
    unfolding next_work
    next_work-IsNext limit interval timespan first go_back some_time =
        let at' = height-lookup t blk.hash h at in
        let (former, reached) = retreat-ok t root m (go_back h) way in
        let x = pos blk.time -ℤ pos former.time in
        let (a, value, low, high) = held-bounds (timespan / 4) (timespan * 4) x (omega arith) in
        let (n, result, good) =
          new_target-IsTarget limit timespan (timespan / 4) (timespan * 4) blk.bits target a
            some_time old low high in
        elim (Bool-cases (is_genesis h)) [
          | inl genesis ↦ (first, rw (at', genesis) refl, inl (genesis, refl))
          | inr later ↦ elim (Bool-cases (not_due interval h)) [
            | inl stays ↦ (blk.bits, rw (at', later, stays) refl, inr (inl (later, stays, refl)))
            | inr due ↦ (
              get_compact (pos n),
              rw (at', later, due, reached, value, result) refl,
              inr (inr (later, due, (n, refl, good))),
            )
          ]
        ]

    -- The bounds of the time that Dogecoin has at a count.
    abbrev pub dogecoin_low : ℕ → ℕ
    dogecoin_low c =
        if leb 145000 c then 45 else if ltb 10000 c then 3600 else if ltb 5000 c then 1800 else 900

    abbrev pub dogecoin_high : ℕ → ℕ
    dogecoin_high c = if leb 145000 c then 90 else 57600

    dogecoin_held-bounds :
        (c : ℕ) (x : ℤ)
        → (a : ℕ) × (dogecoin_held c x ≡ pos a) × (dogecoin_low c ≤ a) × (a ≤ dogecoin_high c)
    unfolding dogecoin_held
    dogecoin_held-bounds c x = elim (Bool-cases (leb 145000 c)) [
      | inl new ↦ rw new (held-bounds 45 90 (pos 60 +ℤ div_ℤ (x -ℤ pos 60) 8) (omega arith))
      | inr old ↦ elim (Bool-cases (ltb 10000 c)) [
        | inl high ↦ rw (old, high) (held-bounds 3600 57600 x (omega arith))
        | inr low ↦ elim (Bool-cases (ltb 5000 c)) [
          | inl middle ↦ rw (old, low, middle) (held-bounds 1800 57600 x (omega arith))
          | inr early ↦ rw (old, low, early) (held-bounds 900 57600 x (omega arith))
        ]
      ]
    ]

    abbrev pub dogecoin_interval : ℕ → ℕ
    dogecoin_interval c = if leb 145000 c then 1 else 240

    abbrev pub dogecoin_timespan : ℕ → ℕ
    dogecoin_timespan c = if leb 145000 c then 60 else 14400

    -- For a block with a height and a way down to the trunk, whose target is not negative,
    -- `nextWorkRequired` of Dogecoin succeeds. The first block asks for the first target, a block whose
    -- count is no multiple of the interval keeps its own, and any other asks for a target of at most the
    -- limit. Over the time meant, it is at most the old one times the upper bound of the time at that
    -- count, and the limit or at least the old one times the lower bound.
    pub dogecoin_work-IsNext :
        (first c : ℕ)
        → count t blk.hash ≡ ok c
        → (b : ℕ) × (dogecoin_work set_compact get_compact first t blk ≡ ok b)
          × IsNext
              (all_ones 20)
              (dogecoin_timespan c)
              (dogecoin_low c)
              (dogecoin_high c)
              first
              (is_genesis h)
              (not (c % dogecoin_interval c == 0))
              blk.bits
              target
              b
    unfolding dogecoin_work
    dogecoin_work-IsNext first c counted =
        let at' = height-lookup t blk.hash h at in
        let interval = dogecoin_interval c in
        let distance = if c == interval then interval - 1 else interval in
        let (former, reached) = retreat-ok t root m distance way in
        let (a, value, low, high) = dogecoin_held-bounds c (pos blk.time -ℤ pos former.time) in
        let some_time : 0 < dogecoin_timespan c = elim (Bool-cases (leb 145000 c)) [
          | inl new ↦ rw new (omega arith)
          | inr before ↦ rw before (omega arith)
        ] in
        let (n, result, good) =
          new_target-IsTarget (all_ones 20) (dogecoin_timespan c) (dogecoin_low c) (dogecoin_high c)
            blk.bits target a some_time old low high in
        elim (Bool-cases (is_genesis h)) [
          | inl genesis ↦ (first, rw (counted, at', genesis) refl, inl (genesis, refl))
          | inr later ↦ elim (Bool-cases (not (c % interval == 0))) [
            | inl stays ↦
                (blk.bits, rw (counted, at', later, stays) refl, inr (inl (later, stays, refl)))
            | inr due ↦ (
              get_compact (pos n),
              rw (counted, at', later, due, reached, value, result) refl,
              inr (inr (later, due, (n, refl, good))),
            )
          ]
        ]
