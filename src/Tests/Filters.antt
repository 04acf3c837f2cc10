-- ===== src/Tests/Filters.antt =====
-- A Bloom filter of two bytes and two hash functions.
use libcoin.Base.{◌≡◌, refl, true, false, [], ◌∷◌, Bytes, ok, arith}
use libcoin.Bloom.{BloomFilter, insert, contains, contains_bits, update_empty_full}
use libcoin.Bloom.Flags.{contains-update_empty_full}
use libcoin.Bloom.Laws.{IsFilter, contains-insert}
use libcoin.Bloom.Murmur.{murmur_hash3}

abbrev two_bytes : BloomFilter
two_bytes = record {
  bytes = 0x10 ∷ 0x01 ∷ [];
  full = false;
  empty = false;
  hash_funcs = 2;
  tweak = 5;
  flags = 1;
}

empty_hash : murmur_hash3 1 [] ≡ 0x514E28B7
unfolding murmur_hash3
empty_hash = refl

contains-insert_example :
    (g : BloomFilter) × (insert two_bytes (7 ∷ 8 ∷ 9 ∷ []) ≡ ok g)
    × IsFilter g
    × (contains g (7 ∷ 8 ∷ 9 ∷ []) ≡ ok true)
    × ((other : Bytes) → contains two_bytes other ≡ ok true → contains g other ≡ ok true)
contains-insert_example =
    contains-insert two_bytes (7 ∷ 8 ∷ 9 ∷ []) (omega arith, (omega arith, (omega arith, tt)))

contains-update_empty_full_example :
    contains (update_empty_full two_bytes) (7 ∷ []) ≡ contains_bits 2 0 (7 ∷ []) two_bytes
contains-update_empty_full_example =
    contains-update_empty_full two_bytes (7 ∷ []) (omega arith) (omega arith)
