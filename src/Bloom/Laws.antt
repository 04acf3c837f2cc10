-- ===== src/Bloom/Laws.antt =====
-- What a filter contains once a key is inserted.
use mathlib.Core.Path.{subst}
use Prim.Native.Nat.{bit_and, bit_or}
use native.Mathlib.Nat.{mod-lt}
use libcoin.Base.{
  ℕ, zero, suc, ◌+◌, ◌*◌, ◌/◌, ◌%◌, ◌^◌, ◌<◌, ◌≡◌, refl, sym, ◌∙◌, true, false, not, Bytes, length,
  get_or, All, ◌==◌, ok, arith, Bool-cases, inl, inr,
}
use libcoin.Bloom.{
  BloomFilter, bit_mask, bloom_hash, set_bit, test_bit, insert_bits, insert, contains_bits,
  contains,
}
use libcoin.Bloom.Murmur.{murmur_hash3}
use libcoin.Bloom.Bits.{
  keeps_bits, keeps_bits_all, IsByte, get_or-set_same, get_or-set_other, length-set, All-set,
  get_or-IsByte,
}

-- A filter with at least a byte, and no more than that in its bytes.
abbrev pub IsFilter : BloomFilter → Type 0
IsFilter f = (0 < length f.bytes) × All IsByte f.bytes

-- The second filter has the hashes of the first, and all its bits.
abbrev pub Covers : BloomFilter → BloomFilter → Type 0
Covers f g =
    (length g.bytes ≡ length f.bytes)
    × (g.tweak ≡ f.tweak)
    × (g.hash_funcs ≡ f.hash_funcs)
    × ((index : ℕ) → test_bit f index ≡ true → test_bit g index ≡ true)

Covers-trans : (f g h : BloomFilter) → Covers f g → Covers g h → Covers f h
Covers-trans f g h (a, b, c, d) (a', b', c', d') =
    (a' ∙ a, b' ∙ b, c' ∙ c, λ index hit. d' index (d index hit))

abbrev pub place : BloomFilter → ℕ → Bytes → ℕ
place f i key = murmur_hash3 ((i * 0xFBA4C795 + f.tweak) % 2 ^ 32) key % (length f.bytes * 8)

pub bloom_hash-place :
    (f : BloomFilter) (i : ℕ) (key : Bytes)
    → 0 < length f.bytes
    → bloom_hash f i key ≡ ok (place f i key)
unfolding bloom_hash
bloom_hash-place f i key some = let no : (length f.bytes == 0) ≡ false = ground arith in rw no refl

bloom_hash-Covers :
    (f g : BloomFilter) (i : ℕ) (key : Bytes) → Covers f g → bloom_hash g i key ≡ bloom_hash f i key
unfolding bloom_hash
bloom_hash-Covers f g i key (a, b, c, d) = rw (a, b) refl

pub place-lt :
    (f : BloomFilter) (i : ℕ) (key : Bytes)
    → 0 < length f.bytes
    → place f i key / 8 < length f.bytes
place-lt f i key some =
    let below =
      mod-lt (murmur_hash3 ((i * 0xFBA4C795 + f.tweak) % 2 ^ 32) key) {m = length f.bytes * 8}
        (omega arith) in
    omega arith

set_bit-byte :
    (f : BloomFilter) (index j : ℕ)
    → All IsByte f.bytes
    → keeps_bits (get_or f.bytes (index / 8) 0) (index % 8) (j % 8) ≡ true
set_bit-byte f index j bytes =
    keeps_bits_all (get_or f.bytes (index / 8) 0) (index % 8) (j % 8)
      (get_or-IsByte f.bytes (index / 8) bytes) (omega arith) (omega arith)

test_bit-set_bit :
    (f : BloomFilter) (index : ℕ)
    → IsFilter f
    → index / 8 < length f.bytes
    → test_bit (set_bit f index) index ≡ true
test_bit-set_bit f index (some, bytes) inside =
    let table = set_bit-byte f index index bytes in
    rw (get_or-set_same f.bytes (index / 8) _ inside) (ground arith)

set_bit-Covers :
    (f : BloomFilter) (index : ℕ)
    → IsFilter f
    → index / 8 < length f.bytes
    → Covers f (set_bit f index)
set_bit-Covers f index (some, bytes) inside = (
  length-set f.bytes (index / 8) _,
  refl,
  refl,
  λ j e. elim (Bool-cases (index / 8 == j / 8)) [
    | inl same ↦
        let place_same : j / 8 ≡ index / 8 = ground arith in
        let table = set_bit-byte f index j bytes in
        let old : not (bit_and (get_or f.bytes (index / 8) 0) (bit_mask (j % 8)) == 0) ≡ true =
          rw place_same at e in
        rw (place_same, get_or-set_same f.bytes (index / 8) _ inside) (ground arith)
    | inr other ↦ rw (get_or-set_other f.bytes (index / 8) (j / 8) _ other) e
  ],
)

set_bit-IsFilter : (f : BloomFilter) (index : ℕ) → IsFilter f → IsFilter (set_bit f index)
set_bit-IsFilter f index (some, bytes) =
    let table = set_bit-byte f index index bytes in
    let size =
      length-set f.bytes (index / 8)
        (bit_or (get_or f.bytes (index / 8) 0) (bit_mask (index % 8))) in
    (omega arith, All-set f.bytes (index / 8) _ (ground arith) bytes)

-- `contains_bits` finds in a filter what it finds in one that it covers.
contains_bits-Covers :
    (rounds i : ℕ) (key : Bytes) (f g : BloomFilter)
    → Covers f g
    → 0 < length f.bytes
    → contains_bits rounds i key f ≡ ok true
    → contains_bits rounds i key g ≡ ok true
unfolding contains_bits
contains_bits-Covers zero i key f g covers some e = refl
contains_bits-Covers (suc rounds) i key f g covers some e =
    elim (Bool-cases (test_bit f (place f i key))) [
      | inl hit ↦
          let rest : contains_bits rounds (suc i) key f ≡ ok true =
            rw (bloom_hash-place f i key some, hit) at e in
          let hit' = covers.3 (place f i key) hit in
          rw (bloom_hash-Covers f g i key covers, bloom_hash-place f i key some, hit')
            (contains_bits-Covers rounds (suc i) key f g covers some rest)
      | inr clear ↦
          let no : ok false ≡ ok true = rw (bloom_hash-place f i key some, clear) at e in
          absurd (ground arith)
    ]

-- The bits of a key are set.
insert_bits-contains_bits :
    (rounds i : ℕ) (key : Bytes) (f : BloomFilter)
    → IsFilter f
    → (g : BloomFilter) × (insert_bits rounds i key f ≡ ok g)
      × IsFilter g
      × Covers f g
      × (contains_bits rounds i key g ≡ ok true)
unfolding insert_bits contains_bits
insert_bits-contains_bits zero i key f valid =
    (f, refl, valid, (refl, refl, refl, λ index hit. hit), refl)
insert_bits-contains_bits (suc rounds) i key f valid =
    let x = place f i key in
    let inside = place-lt f i key valid.0 in
    let first = set_bit-Covers f x valid inside in
    let (g, e, valid', rest, found) =
      insert_bits-contains_bits rounds (suc i) key (set_bit f x) (set_bit-IsFilter f x valid) in
    let covers = Covers-trans f (set_bit f x) g first rest in
    let hit = rest.3 x (test_bit-set_bit f x valid inside) in
    (
      g,
      rw (bloom_hash-place f i key valid.0) e,
      valid',
      covers,
      rw (bloom_hash-Covers f g i key covers, bloom_hash-place f i key valid.0, hit) found,
    )

contains-contains_bits :
    (f : BloomFilter) (key : Bytes)
    → f.empty ≡ false
    → contains_bits f.hash_funcs 0 key f ≡ ok true
    → contains f key ≡ ok true
unfolding contains
contains-contains_bits f key some found = ground arith

contains_bits-contains :
    (f : BloomFilter) (key : Bytes)
    → f.full ≡ false
    → contains f key ≡ ok true
    → contains_bits f.hash_funcs 0 key f ≡ ok true
unfolding contains
contains_bits-contains f key room found = ground arith

insert-insert_bits :
    (f g : BloomFilter) (key : Bytes)
    → f.full ≡ false
    → insert_bits f.hash_funcs 0 key f ≡ ok g
    → insert f key ≡ ok (record g { empty = false })
unfolding insert
insert-insert_bits f g key room e = simp (room, e) refl

-- Once a key is inserted in a filter with at least a byte, the filter contains the key, and every key
-- that it contained before.
pub contains-insert :
    (f : BloomFilter) (key : Bytes)
    → IsFilter f
    → (g : BloomFilter) × (insert f key ≡ ok g)
      × IsFilter g
      × (contains g key ≡ ok true)
      × ((other : Bytes) → contains f other ≡ ok true → contains g other ≡ ok true)
unfolding insert contains
contains-insert f key valid = elim (Bool-cases f.full) [
  | inl full ↦ (f, rw full refl, valid, rw full refl, λ other e. e)
  | inr room ↦
      let (g, e, valid', covers, found) = insert_bits-contains_bits f.hash_funcs 0 key f valid in
      let g' = record g { empty = false } in
      let whole : Covers f g' = (covers.0, covers.1, covers.2, covers.3) in
      let count : (other : Bytes)
          → contains_bits f.hash_funcs 0 other g' ≡ ok true
          → contains_bits g'.hash_funcs 0 other g' ≡ ok true =
        λ other h. subst (λ n. contains_bits n 0 other g' ≡ ok true) (sym covers.2) h in
      (
        g',
        insert-insert_bits f g key room e,
        valid',
        contains-contains_bits g' key refl (
            count key (
              contains_bits-Covers f.hash_funcs 0 key g g' (refl, refl, refl, λ i h. h) valid'.0
                found)),
        λ other old. contains-contains_bits g' other refl (
            count other (
              contains_bits-Covers f.hash_funcs 0 other f g' whole valid.0
                (contains_bits-contains f other room old))),
      )
]
