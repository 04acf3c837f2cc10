-- ===== src/Serialize/VarInt.antt =====
-- `const_varint` and `varint` (src/coin/Serialization.cpp, include/coin/Serialization.h): a size in
-- one, three, five or nine bytes.
pub mod Laws
use libcoin.Base.{ℕ, ◌^◌, List, [], ◌∷◌, Bytes, ltb, leb, ◌==◌, if◌then◌else◌, Result, ok, err}
use libcoin.Serialize.Stream.{
  ReadError, short, too_large, wild_write, Reader, ◌>>=◌, return, fail, write_binary, read_byte,
  read_binary,
}

abbrev pub max_varint_size : ℕ
max_varint_size = 0x02000000

unfoldable pub write_varint : ℕ → Bytes
write_varint v =
    if ltb v 253
    then write_binary 1 v
    else if leb v 0xffff
    then 253 ∷ write_binary 2 v
    else if leb v 0xffff_ffff
    then 254 ∷ write_binary 4 v
    else 255 ∷ write_binary 8 v

-- The last branch reads to the address `(char*)var._int`, which is 0 there: with a byte left on the
-- stream it writes through the null pointer.
read_wild : Reader ℕ
read_wild [] = err short
read_wild (b ∷ rest) = err wild_write

read_varint_data : ℕ → Reader ℕ
unfolding read_wild
read_varint_data s =
    if ltb s 253
    then return s
    else if s == 253
    then read_binary 2
    else if s == 254
    then read_binary 4
    else read_wild

unfoldable pub read_varint : Reader ℕ
unfolding read_varint_data
read_varint = do
  s ← read_byte
  v ← read_varint_data s
  if ltb max_varint_size v then fail too_large else return v
