-- ===== src/Bloom/Bits.antt =====
-- The bits of the bytes of a filter.
use Prim.Native.Nat.{bit_and, bit_or}
use libcoin.Base.{
  if◌then◌else◌, Bool-cases, inl, inr, ℕ, zero, suc, ◌<◌, ◌≡◌, refl, ap, Bool, true, false, not,
  ◌&&◌, ◌||◌, [], ◌∷◌, Bytes, length, get_or, set, All, ltb, ◌==◌, arith,
}
use libcoin.Bloom.{bit_mask}

-- A test of the numbers before a bound.
unfoldable pub tested : (ℕ → Bool) → ℕ → Bool
tested test zero = true
tested test (suc bound) = let before = tested test bound in if test bound then before else false

pub tested-lt :
    (test : ℕ → Bool) (bound i : ℕ) → i < bound → tested test bound ≡ true → test i ≡ true
unfolding tested
tested-lt test zero i below e = absurd (omega arith)
tested-lt test (suc bound) i below e = elim (Bool-cases (i == bound)) [
  | inl last ↦ let same : i ≡ bound = ground arith in rw same (ground arith)
  | inr earlier ↦ tested-lt test bound i (ground arith) (ground arith)
]

-- A bit that is set is set, and the others that were set stay.
abbrev pub keeps_bits : ℕ → ℕ → ℕ → Bool
keeps_bits b i j =
    let new = bit_or b (bit_mask i) in
    ltb new 256
    && (not (bit_and new (bit_mask i) == 0)
        && (bit_and b (bit_mask j) == 0 || not (bit_and new (bit_mask j) == 0)))

bits_table : tested (λ b. tested (λ i. tested (keeps_bits b i) 8) 8) 256 ≡ true
unfolding tested
bits_table = refl

pub keeps_bits_all : (b i j : ℕ) → b < 256 → i < 8 → j < 8 → keeps_bits b i j ≡ true
keeps_bits_all b i j p q r =
    let row = tested-lt (λ b. tested (λ i. tested (keeps_bits b i) 8) 8) 256 b p bits_table in
    let cell = tested-lt (λ i. tested (keeps_bits b i) 8) 8 i q row in
    tested-lt (keeps_bits b i) 8 j r cell

abbrev pub IsByte : ℕ → Type 0
IsByte b = b < 256

pub get_or-set_same : (xs : Bytes) (i v : ℕ) → i < length xs → get_or (set xs i v) i 0 ≡ v
get_or-set_same [] i v h = absurd (omega arith)
get_or-set_same (x ∷ xs) zero v h = refl
get_or-set_same (x ∷ xs) (suc i) v h = get_or-set_same xs i v (omega arith)

pub get_or-set_other :
    (xs : Bytes) (i j v : ℕ) → (i == j) ≡ false → get_or (set xs i v) j 0 ≡ get_or xs j 0
get_or-set_other [] i j v h = refl
get_or-set_other (x ∷ xs) zero zero v h = absurd (ground arith)
get_or-set_other (x ∷ xs) zero (suc j) v h = refl
get_or-set_other (x ∷ xs) (suc i) zero v h = refl
get_or-set_other (x ∷ xs) (suc i) (suc j) v h = get_or-set_other xs i j v (ground arith)

pub length-set : (xs : Bytes) (i v : ℕ) → length (set xs i v) ≡ length xs
length-set [] i v = refl
length-set (x ∷ xs) zero v = refl
length-set (x ∷ xs) (suc i) v = ap suc (length-set xs i v)

pub All-set : (xs : Bytes) (i v : ℕ) → IsByte v → All IsByte xs → All IsByte (set xs i v)
All-set [] i v h a = a
All-set (x ∷ xs) zero v h a = (h, a.1)
All-set (x ∷ xs) (suc i) v h a = (a.0, All-set xs i v h a.1)

pub get_or-IsByte : (xs : Bytes) (i : ℕ) → All IsByte xs → get_or xs i 0 < 256
get_or-IsByte [] i a = omega arith
get_or-IsByte (x ∷ xs) zero a = a.0
get_or-IsByte (x ∷ xs) (suc i) a = get_or-IsByte xs i a.1
