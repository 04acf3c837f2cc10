-- ===== src/Script/Canonical.antt =====
-- `checkCanonicalPubKey` and `checkCanonicalSignature` of src/coin/Script.cpp. A byte with the highest
-- bit is one from 0x80 on.
pub mod Laws
use libcoin.Base.{
  ℕ, ◌+◌, ◌-◌, ◌%◌, Bool, true, false, not, ◌&&◌, ◌||◌, List, [], ◌∷◌, Bytes, length, get_or, ltb,
  leb, ◌==◌, if◌then◌else◌, Result, ok, err, ◌>>=◌, ◌>>◌, throw_if,
}

-- The exceptions.
pub data CanonicalError : Type 0 where
  key_too_short uncompressed_length compressed_length key_type : CanonicalError
  too_short too_long unknown_hashtype wrong_type wrong_length_marker : CanonicalError
  length_misplaced length_mismatch value_type length_zero value_negative padded : CanonicalError

unfoldable pub check_canonical_pub_key : Bytes → Result CanonicalError (Unit {0})
check_canonical_pub_key v =
    let size = length v in
    let first = get_or v 0 0 in
    if ltb size 33
    then err key_too_short
    else if first == 4
    then throw_if (not (size == 65)) uncompressed_length
    else if first == 2 || first == 3
    then throw_if (not (size == 33)) compressed_length
    else err key_type

-- The checks of one of the two numbers: its type byte, its length, and its first two bytes.
unfoldable pub check_integer : ℕ → ℕ → ℕ → ℕ → Result CanonicalError (Unit {0})
check_integer type size first second = do
  throw_if (not (type == 2)) value_type
  throw_if (size == 0) length_zero
  throw_if (leb 0x80 first) value_negative
  throw_if (ltb 1 size && (first == 0 && ltb second 0x80)) padded

unfoldable pub check_canonical_signature : Bytes → Result CanonicalError (Unit {0})
check_canonical_signature v = do
  let size = length v
  let at = get_or v
  throw_if (ltb size 9) too_short
  throw_if (ltb 73 size) too_long
  let hash_type = at (size - 1) 0 % 0x80
  throw_if (ltb hash_type 1 || ltb 3 hash_type) unknown_hashtype
  throw_if (not (at 0 0 == 0x30)) wrong_type
  throw_if (not (at 1 0 == size - 3)) wrong_length_marker
  let r = at 3 0
  throw_if (leb size (5 + r)) length_misplaced
  let s = at (5 + r) 0
  throw_if (not (r + s + 7 == size)) length_mismatch
  check_integer (at 2 0) r (at 4 0) (at 5 0)
  check_integer (at (4 + r) 0) s (at (6 + r) 0) (at (7 + r) 0)
