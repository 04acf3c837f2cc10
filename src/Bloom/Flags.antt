-- ===== src/Bloom/Flags.antt =====
-- `updateEmptyFull`: the two flags change no answer.
use Prim.Native.Nat.{bit_and}
use libcoin.Base.{
  ℕ, zero, suc, ◌-◌, ◌/◌, ◌%◌, ◌<◌, ◌≡◌, refl, ap, sym, ◌∙◌, Bool, true, false, not, ◌&&◌, [], ◌∷◌,
  Bytes, length, get_or, ◌==◌, ok, arith, Bool-cases, inl, inr,
}
use libcoin.Bloom.{
  BloomFilter, bit_mask, bloom_hash, test_bit, contains_bits, contains, all_bytes,
  update_empty_full,
}
use libcoin.Bloom.Bits.{tested, tested-lt}
use libcoin.Bloom.Laws.{place, place-lt, bloom_hash-place}

get_or-all_bytes :
    (value : ℕ) (bs : Bytes) (i : ℕ)
    → all_bytes value bs ≡ true
    → i < length bs
    → get_or bs i 0 ≡ value
unfolding all_bytes
get_or-all_bytes value [] i e h = absurd (omega arith)
get_or-all_bytes value (b ∷ bs) zero e h = ground arith
get_or-all_bytes value (b ∷ bs) (suc i) e h =
    get_or-all_bytes value bs i (ground arith) (omega arith)

abbrev mask_tests : ℕ → Bool
mask_tests i = not (bit_and 0xff (bit_mask i) == 0) && (bit_and 0 (bit_mask i) == 0)

masks_table : tested mask_tests 8 ≡ true
unfolding tested
masks_table = refl

masks : (i : ℕ) → i < 8 → mask_tests i ≡ true
masks i h = tested-lt mask_tests 8 i h masks_table

contains_bits-full :
    (rounds i : ℕ) (key : Bytes) (f : BloomFilter)
    → 0 < length f.bytes
    → all_bytes 0xff f.bytes ≡ true
    → contains_bits rounds i key f ≡ ok true
unfolding contains_bits
contains_bits-full zero i key f some e = refl
contains_bits-full (suc rounds) i key f some e =
    let x = place f i key in
    let value = get_or-all_bytes 0xff f.bytes (x / 8) e (place-lt f i key some) in
    let mask = masks (x % 8) (omega arith) in
    let hit : test_bit f x ≡ true = rw value (ground arith) in
    rw (bloom_hash-place f i key some, hit) (contains_bits-full rounds (suc i) key f some e)

contains_bits-empty :
    (rounds i : ℕ) (key : Bytes) (f : BloomFilter)
    → 0 < length f.bytes
    → all_bytes 0 f.bytes ≡ true
    → contains_bits (suc rounds) i key f ≡ ok false
unfolding contains_bits
contains_bits-empty rounds i key f some e =
    let x = place f i key in
    let value = get_or-all_bytes 0 f.bytes (x / 8) e (place-lt f i key some) in
    let mask = masks (x % 8) (omega arith) in
    let miss : test_bit f x ≡ false = rw value (ground arith) in
    rw (bloom_hash-place f i key some, miss) refl

-- The loop does not read the flags.
contains_bits_flags :
    (rounds i : ℕ) (key : Bytes) (f : BloomFilter) (full empty : Bool)
    → contains_bits rounds i key (record f { full = full; empty = empty })
      ≡ contains_bits rounds i key f
unfolding contains_bits bloom_hash
contains_bits_flags zero i key f full empty = refl
contains_bits_flags (suc rounds) i key f full empty =
    rw (contains_bits_flags rounds (suc i) key f full empty) refl

-- With a byte and a hash function at least, a filter whose flags were updated gives the answers that
-- the loop gives without them.
pub contains-update_empty_full :
    (f : BloomFilter) (key : Bytes)
    → 0 < length f.bytes
    → 0 < f.hash_funcs
    → contains (update_empty_full f) key ≡ contains_bits f.hash_funcs 0 key f
unfolding contains update_empty_full
contains-update_empty_full f key some funcs = elim (Bool-cases (all_bytes 0xff f.bytes)) [
  | inl full ↦ rw full (sym (contains_bits-full f.hash_funcs 0 key f some full))
  | inr room ↦ elim (Bool-cases (all_bytes 0 f.bytes)) [
    | inl empty ↦
        let first : f.hash_funcs ≡ suc (f.hash_funcs - 1) = omega arith in
        let no = contains_bits-empty (f.hash_funcs - 1) 0 key f some empty in
        rw (room, empty) (sym (ap (λ n. contains_bits n 0 key f) first ∙ no))
    | inr some_set ↦ rw (room, some_set) (contains_bits_flags f.hash_funcs 0 key f false false)
  ]
]
