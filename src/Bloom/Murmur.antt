-- ===== src/Bloom/Murmur.antt =====
-- `ROTL32` and `MurmurHash3` of src/coinChain/BloomFilter.cpp, on a machine that stores the low byte
-- first.
use Prim.Native.Nat.{bit_or, bit_xor}
use libcoin.Base.{ℕ, ◌+◌, ◌-◌, ◌*◌, ◌/◌, ◌%◌, ◌^◌, [], ◌∷◌, Bytes, length}

abbrev pub rotl32 : ℕ → ℕ → ℕ
rotl32 x r = bit_or (x * 2 ^ r % 2 ^ 32) (x / 2 ^ (32 - r))

-- `k1` with both constants.
abbrev pub scramble : ℕ → ℕ
scramble k = rotl32 (k * 0xcc9e2d51 % 2 ^ 32) 15 * 0x1b873593 % 2 ^ 32

-- The body and the tail.
pub murmur_body : ℕ → Bytes → ℕ
murmur_body h [] = h
murmur_body h (a ∷ []) = bit_xor h (scramble a)
murmur_body h (a ∷ b ∷ []) = bit_xor h (scramble (bit_xor (b * 2 ^ 8) a))
murmur_body h (a ∷ b ∷ c ∷ []) = bit_xor h (scramble (bit_xor (bit_xor (c * 2 ^ 16) (b * 2 ^ 8)) a))
murmur_body h (a ∷ b ∷ c ∷ d ∷ rest) =
    let k = scramble (a + b * 2 ^ 8 + c * 2 ^ 16 + d * 2 ^ 24) in
    murmur_body ((rotl32 (bit_xor h k) 13 * 5 + 0xe6546b64) % 2 ^ 32) rest

abbrev pub murmur_final : ℕ → ℕ
murmur_final h =
    let a = bit_xor h (h / 2 ^ 16) * 0x85ebca6b % 2 ^ 32 in
    let b = bit_xor a (a / 2 ^ 13) * 0xc2b2ae35 % 2 ^ 32 in bit_xor b (b / 2 ^ 16)

unfoldable pub murmur_hash3 : ℕ → Bytes → ℕ
unfolding murmur_body
murmur_hash3 seed bytes = murmur_final (bit_xor (murmur_body seed bytes) (length bytes % 2 ^ 32))
