-- ===== src/Merkle/Partial/Wire/Packed.antt =====
-- The bits that are unpacked are those that were packed, with false bits up to the end of a byte.
use Prim.Native.Nat.{bit_and, bit_or}
use libcoin.Base.{
  ℕ, zero, suc, ◌+◌, ◌-◌, ◌*◌, ◌/◌, ◌%◌, ◌^◌, ◌<◌, ◌≤◌, ◌≡◌, ◌∙◌, refl, ap, sym, Bool, true, false,
  not, ◌&&◌, ◌||◌, List, [], ◌∷◌, ◌++◌, Bytes, length, get_or, All, ltb, ◌==◌, if◌then◌else◌, arith,
  Bool-cases, inl, inr, ltb→lt,
}
use libcoin.Bloom.Bits.{
  tested, tested-lt, IsByte, get_or-set_same, get_or-set_other, length-set, All-set, get_or-IsByte,
}
use libcoin.Merkle.Partial.Wire.{zeros, put_bit, pack_from, pack, bit_at, unpack_from, unpack}

abbrev same : Bool → Bool → Bool
same true b = b
same false b = not b

same-true : (x y : Bool) → same x y ≡ true → x ≡ y
same-true true y h = sym h
same-true false true h = h
same-true false false h = refl

both_true : (x y : Bool) → x && y ≡ true → (x ≡ true) × (y ≡ true)
both_true true y h = (refl, h)
both_true false y h = absurd (ground arith)

-- A byte with the bit `i` put in: what the bit `j` of it is.
abbrev puts : ℕ → ℕ → ℕ → Bool → Bool
puts b i j m =
    let new = bit_or b (if m then 2 ^ i else 0) in
    let bit = λ (x : ℕ). not (bit_and x (2 ^ j) == 0) in
    ltb new 256 && same (bit new) (if j == i then m || bit b else bit b)

puts_table :
    tested (λ b. tested (λ i. tested (λ j. puts b i j true && puts b i j false) 8) 8) 256 ≡ true
unfolding tested
puts_table = refl

puts_all : (b i j : ℕ) (m : Bool) → b < 256 → i < 8 → j < 8 → puts b i j m ≡ true
puts_all b i j m p q r =
    let row =
      tested-lt (λ b. tested (λ i. tested (λ j. puts b i j true && puts b i j false) 8) 8) 256 b p
        puts_table in
    let cell = tested-lt (λ i. tested (λ j. puts b i j true && puts b i j false) 8) 8 i q row in
    let all = tested-lt (λ j. puts b i j true && puts b i j false) 8 j r cell in
    let (on, off) = both_true (puts b i j true) (puts b i j false) all in choose m on off
  where
    choose : (m : Bool) → puts b i j true ≡ true → puts b i j false ≡ true → puts b i j m ≡ true
    choose true on off = on
    choose false on off = off

module _ (bytes : Bytes) (p : ℕ) (m : Bool) (good : All IsByte bytes)
    (inside : p / 8 < length bytes) where
  byte_fits : bit_or (get_or bytes (p / 8) 0) (if m then 2 ^ (p % 8) else 0) < 256
  byte_fits =
      let h =
        puts_all (get_or bytes (p / 8) 0) (p % 8) 0 m (get_or-IsByte bytes (p / 8) good)
          (omega arith) (omega arith) in
      ltb→lt _ 256 (both_true _ _ h).0

  put_bit-IsByte : All IsByte (put_bit bytes p m)
  put_bit-IsByte = All-set bytes (p / 8) _ byte_fits good

  length-put_bit : length (put_bit bytes p m) ≡ length bytes
  length-put_bit = length-set bytes (p / 8) _

  abbrev new : ℕ
  new = bit_or (get_or bytes (p / 8) 0) (if m then 2 ^ (p % 8) else 0)

  -- A bit of the byte that holds the new one.
  bit-new :
      (i : ℕ)
      → i < 8
      → not (bit_and new (2 ^ i) == 0) ≡ (
          if i == p % 8
          then m || not (bit_and (get_or bytes (p / 8) 0) (2 ^ i) == 0)
          else not (bit_and (get_or bytes (p / 8) 0) (2 ^ i) == 0))
  bit-new i low =
      let h =
        puts_all (get_or bytes (p / 8) 0) (p % 8) i m (get_or-IsByte bytes (p / 8) good)
          (omega arith) low in
      same-true _ _ (both_true _ _ h).1

  put_bit_self : bit_at (put_bit bytes p m) p ≡ (m || bit_at bytes p)
  put_bit_self =
      let there = get_or-set_same bytes (p / 8) new inside in
      let equal : (p % 8 == p % 8) ≡ true = ground arith in
      rw there (bit-new (p % 8) (omega arith) ∙ rw equal refl)

  put_bit_near :
      (j : ℕ) → p / 8 ≡ j / 8 → (j == p) ≡ false → bit_at (put_bit bytes p m) j ≡ bit_at bytes j
  put_bit_near j near other =
      let there : get_or (put_bit bytes p m) (j / 8) 0 ≡ new =
        ap (λ k. get_or (put_bit bytes p m) k 0) (sym near)
        ∙ get_or-set_same bytes (p / 8) new inside in
      let apart : (j % 8 == p % 8) ≡ false = ground arith in
      let value : not (bit_and new (2 ^ (j % 8)) == 0)
          ≡ not (bit_and (get_or bytes (p / 8) 0) (2 ^ (j % 8)) == 0) =
        bit-new (j % 8) (omega arith) ∙ rw apart refl in
      ap (λ b. not (bit_and b (2 ^ (j % 8)) == 0)) there
      ∙ value
      ∙ ap (λ k. not (bit_and (get_or bytes k 0) (2 ^ (j % 8)) == 0)) near

  -- The bit is put in, and the others stay.
  pub put_bit_other : (j : ℕ) → (j == p) ≡ false → bit_at (put_bit bytes p m) j ≡ bit_at bytes j
  put_bit_other j other = elim (Bool-cases (p / 8 == j / 8)) [
    | inl near ↦ put_bit_near j (ground arith) other
    | inr far ↦
        ap (λ b. not (bit_and b (2 ^ (j % 8)) == 0))
          (get_or-set_other bytes (p / 8) (j / 8) new far)
  ]

or_false : (m : Bool) → (m || false) ≡ m
or_false true = refl
or_false false = refl

-- After the loop from `p` on, the bits before `p` are as they were, and the others are those of the
-- list, where the bytes had none.
bit_at-pack_from :
    (ms : List Bool) (p : ℕ) (bytes : Bytes)
    → All IsByte bytes
    → p + length ms ≤ length bytes * 8
    → ((j : ℕ) → p ≤ j → bit_at bytes j ≡ false)
    → (j : ℕ)
    → bit_at (pack_from p ms bytes) j
      ≡ (if ltb j p then bit_at bytes j else get_or ms (j - p) false)
unfolding pack_from
bit_at-pack_from [] p bytes good room clear j = elim (Bool-cases (ltb j p)) [
  | inl before ↦ rw before refl
  | inr after ↦ rw after (clear j (ground arith))
]
bit_at-pack_from (m ∷ ms) p bytes good room clear j =
    let inside : p / 8 < length bytes = omega arith in
    let size = length-put_bit bytes p m good inside in
    let next =
      bit_at-pack_from ms (suc p) (put_bit bytes p m) (put_bit-IsByte bytes p m good inside)
        (omega arith)
        (λ k high. put_bit_other bytes p m good inside k (ground arith) ∙ clear k (omega arith))
        j in
    next ∙ elim (Bool-cases (ltb j p)) [
      | inl before ↦
          let also : ltb j (suc p) ≡ true = ground arith in
          rw (before, also) (put_bit_other bytes p m good inside j (ground arith))
      | inr after ↦ elim (Bool-cases (j == p)) [
        | inl here ↦
            let here' : j ≡ p = ground arith in
            let also : ltb j (suc p) ≡ true = ground arith in
            let start : j - p ≡ 0 = omega arith in
            rw (after, also, start)
              (ap (bit_at (put_bit bytes p m)) here'
                ∙ put_bit_self bytes p m good inside
                ∙ ap (λ b. m || b) (clear p (omega arith))
                ∙ or_false m)
        | inr later ↦
            let also : ltb j (suc p) ≡ false = ground arith in
            let one : j - p ≡ suc (j - suc p) = ground arith in rw (after, also, one) refl
      ]
    ]

abbrev pub falses : ℕ → List Bool
falses zero = []
falses (suc n) = false ∷ falses n

unpack_from-falses :
    (n p : ℕ) (bytes : Bytes)
    → ((j : ℕ) → p ≤ j → bit_at bytes j ≡ false)
    → unpack_from p n bytes ≡ falses n
unfolding unpack_from
unpack_from-falses zero p bytes clear = refl
unpack_from-falses (suc n) p bytes clear =
    rw (clear p (omega arith))
      (ap (◌∷◌ false) (unpack_from-falses n (suc p) bytes (λ j high. clear j (omega arith))))

unpack_from-get_or :
    (ms : List Bool) (n p : ℕ) (bytes : Bytes)
    → ((j : ℕ) → p ≤ j → bit_at bytes j ≡ get_or ms (j - p) false)
    → length ms ≤ n
    → unpack_from p n bytes ≡ ms ++ falses (n - length ms)
unfolding unpack_from
unpack_from-get_or [] n p bytes at enough =
    let whole : n - 0 ≡ n = omega arith in rw whole (unpack_from-falses n p bytes at)
unpack_from-get_or (m ∷ ms) zero p bytes at enough = absurd (omega arith)
unpack_from-get_or (m ∷ ms) (suc n) p bytes at enough =
    let start : p - p ≡ 0 = omega arith in
    let first : bit_at bytes p ≡ m = at p (omega arith) ∙ ap (λ i. get_or (m ∷ ms) i false) start in
    let left : suc n - suc (length ms) ≡ n - length ms = omega arith in
    rw (first, left)
      (ap (◌∷◌ m) (
        unpack_from-get_or ms n (suc p) bytes
          (λ j high.
            let next : j - p ≡ suc (j - suc p) = omega arith in
            at j (omega arith) ∙ ap (λ i. get_or (m ∷ ms) i false) next)
          (omega arith)))

zeros-IsByte : (n : ℕ) → All IsByte (zeros n)
zeros-IsByte zero = tt
zeros-IsByte (suc n) = (omega arith, zeros-IsByte n)

length-zeros : (n : ℕ) → length (zeros n) ≡ n
length-zeros zero = refl
length-zeros (suc n) = ap suc (length-zeros n)

get_or-zeros : (n i : ℕ) → get_or (zeros n) i 0 ≡ 0
get_or-zeros zero i = refl
get_or-zeros (suc n) zero = refl
get_or-zeros (suc n) (suc i) = get_or-zeros n i

no_bits : tested (λ i. bit_and 0 (2 ^ i) == 0) 8 ≡ true
unfolding tested
no_bits = refl

bit_at-zeros : (n j : ℕ) → bit_at (zeros n) j ≡ false
bit_at-zeros n j =
    rw (get_or-zeros n (j / 8))
      (ap not (tested-lt (λ i. bit_and 0 (2 ^ i) == 0) 8 (j % 8) (omega arith) no_bits))

length-pack_from :
    (ms : List Bool) (p : ℕ) (bytes : Bytes) → length (pack_from p ms bytes) ≡ length bytes
unfolding pack_from
length-pack_from [] p bytes = refl
length-pack_from (m ∷ ms) p bytes =
    length-pack_from ms (suc p) (put_bit bytes p m) ∙ length-set bytes (p / 8) _

pack_from-IsByte :
    (ms : List Bool) (p : ℕ) (bytes : Bytes)
    → All IsByte bytes
    → p + length ms ≤ length bytes * 8
    → All IsByte (pack_from p ms bytes)
unfolding pack_from
pack_from-IsByte [] p bytes good room = good
pack_from-IsByte (m ∷ ms) p bytes good room =
    let inside : p / 8 < length bytes = omega arith in
    let size = length-put_bit bytes p m good inside in
    pack_from-IsByte ms (suc p) (put_bit bytes p m) (put_bit-IsByte bytes p m good inside)
      (omega arith)

pub pack-IsByte : (ms : List Bool) → All IsByte (pack ms)
unfolding pack
pack-IsByte ms =
    let n = (length ms + 7) / 8 in
    pack_from-IsByte ms 0 (zeros n) (zeros-IsByte n) (omega (arith, length-zeros n))

pub length-pack : (ms : List Bool) → length (pack ms) ≡ (length ms + 7) / 8
unfolding pack
length-pack ms =
    length-pack_from ms 0 (zeros ((length ms + 7) / 8)) ∙ length-zeros ((length ms + 7) / 8)

pub unpack-pack :
    (ms : List Bool) → unpack (pack ms) ≡ ms ++ falses ((length ms + 7) / 8 * 8 - length ms)
unfolding unpack pack
unpack-pack ms =
    let n = (length ms + 7) / 8 in
    let size = length-pack ms in
    rw size (
      unpack_from-get_or ms (n * 8) 0 (pack_from 0 ms (zeros n))
        (λ j high.
          let all : j - 0 ≡ j = omega arith in
          bit_at-pack_from ms 0 (zeros n) (zeros-IsByte n) (omega (arith, length-zeros n))
            (λ k h. bit_at-zeros n k) j
          ∙ (let none : ltb j 0 ≡ false = ground arith in rw none refl))
        (omega arith))
