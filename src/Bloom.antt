-- ===== src/Bloom.antt =====
-- `BloomFilter` of src/coinChain/BloomFilter.cpp and include/coinChain/BloomFilter.h, from a filter that
-- was read on.
pub mod Murmur
pub mod Bits
pub mod Flags
pub mod Laws
use Prim.Native.Nat.{bit_and, bit_or}
use libcoin.Base.{
  ℕ, zero, suc, ◌+◌, ◌*◌, ◌/◌, ◌%◌, ◌^◌, Bool, true, false, not, ◌&&◌, List, [], ◌∷◌, Bytes, length,
  get_or, set, leb, ◌==◌, if◌then◌else◌, Result, ok, err, ◌>>=◌,
}
use libcoin.Serialize.Stream.{write_binary}
use libcoin.Transaction.{Coin, write_coin}
use libcoin.Bloom.Murmur.{murmur_hash3}

pub record BloomFilter : Type 0 where
  pub bytes : Bytes
  pub full : Bool
  pub empty : Bool
  pub hash_funcs : ℕ
  pub tweak : ℕ
  pub flags : ℕ

-- The remainder by the number of bits of a filter without bytes.
pub data BloomError : Type 0 where
  division_by_zero : BloomError

-- `bit_mask[i]`.
abbrev pub bit_mask : ℕ → ℕ
bit_mask i = get_or (0x01 ∷ 0x02 ∷ 0x04 ∷ 0x08 ∷ 0x10 ∷ 0x20 ∷ 0x40 ∷ 0x80 ∷ []) i 0

unfoldable pub bloom_hash : BloomFilter → ℕ → Bytes → Result BloomError ℕ
bloom_hash f num key =
    if length f.bytes == 0
    then err division_by_zero
    else ok (murmur_hash3 ((num * 0xFBA4C795 + f.tweak) % 2 ^ 32) key % (length f.bytes * 8))

abbrev pub set_bit : BloomFilter → ℕ → BloomFilter
set_bit f index = record f {
  bytes = set f.bytes (index / 8) (bit_or (get_or f.bytes (index / 8) 0) (bit_mask (index % 8)));
}

abbrev pub test_bit : BloomFilter → ℕ → Bool
test_bit f index = not (bit_and (get_or f.bytes (index / 8) 0) (bit_mask (index % 8)) == 0)

-- The loop of `insert`, for the hash functions from `i` on.
unfoldable pub insert_bits : ℕ → ℕ → Bytes → BloomFilter → Result BloomError BloomFilter
insert_bits zero i key f = ok f
insert_bits (suc rounds) i key f = do
  index ← bloom_hash f i key
  insert_bits rounds (suc i) key (set_bit f index)

unfoldable pub insert : BloomFilter → Bytes → Result BloomError BloomFilter
insert f key =
    if f.full
    then ok f
    else do f' ← insert_bits f.hash_funcs 0 key f; ok (record f' { empty = false })

-- The loop of `contains`.
unfoldable pub contains_bits : ℕ → ℕ → Bytes → BloomFilter → Result BloomError Bool
contains_bits zero i key f = ok true
contains_bits (suc rounds) i key f = do
  index ← bloom_hash f i key
  if not (test_bit f index) then ok false else contains_bits rounds (suc i) key f

unfoldable pub contains : BloomFilter → Bytes → Result BloomError Bool
contains f key =
    if f.full then ok true else if f.empty then ok false else contains_bits f.hash_funcs 0 key f

abbrev pub insert_coin : BloomFilter → Coin → Result BloomError BloomFilter
insert_coin f c = insert f (write_coin c)

abbrev pub contains_coin : BloomFilter → Coin → Result BloomError Bool
contains_coin f c = contains f (write_coin c)

abbrev pub insert_hash : BloomFilter → ℕ → Result BloomError BloomFilter
insert_hash f h = insert f (write_binary 32 h)

abbrev pub contains_hash : BloomFilter → ℕ → Result BloomError Bool
contains_hash f h = contains f (write_binary 32 h)

abbrev pub is_within_size_constraints : BloomFilter → Bool
is_within_size_constraints f = leb (length f.bytes) 36000 && leb f.hash_funcs 50

-- The loop of `updateEmptyFull` for one value of the bytes.
unfoldable pub all_bytes : ℕ → Bytes → Bool
all_bytes value [] = true
all_bytes value (b ∷ bs) = (b == value) && all_bytes value bs

unfoldable pub update_empty_full : BloomFilter → BloomFilter
update_empty_full f = record f { full = all_bytes 0xff f.bytes; empty = all_bytes 0 f.bytes }
