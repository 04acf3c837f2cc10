-- ===== src/Serialize/VarInt/Laws.antt =====
-- What `varint` reads of what `const_varint` wrote.
use libcoin.Base.{
  ℕ, ◌^◌, ◌<◌, ◌≤◌, ◌≡◌, refl, ◌∙◌, inl, inr, ◌∷◌, ◌++◌, arith, Bytes, ltb, leb, if◌then◌else◌,
  Bool-cases, err,
}
use libcoin.Serialize.Stream.{
  too_large, wild_write, Reader, return, fail, Restores, write_binary, read_binary,
}
use libcoin.Serialize.Stream.Laws.{write_binary-Restores, >>=-ok}
use libcoin.Serialize.VarInt.{max_varint_size, write_varint, read_varint, read_varint_data}

-- What the reader does with a size of at most four bytes.
abbrev pub checked : ℕ → Reader ℕ
checked v = if ltb max_varint_size v then fail too_large else return v

abbrev outcome : ℕ → Reader ℕ
outcome v rest = if ltb 0xffff_ffff v then err wild_write else checked v rest

read_varint_one :
    (v : ℕ) (rest : Bytes) → v < 253 → read_varint (write_binary 1 v ++ rest) ≡ outcome v rest
unfolding read_varint write_binary
read_varint_one v rest h = ground arith

-- A size written behind a prefix.
read_varint_prefixed :
    (s width v : ℕ) (rest : Bytes)
    → read_varint_data s ≡ read_binary width
    → v < 256 ^ width
    → v < 2 ^ 32
    → read_varint (s ∷ (write_binary width v ++ rest)) ≡ outcome v rest
unfolding read_varint
read_varint_prefixed s width v rest e h small =
    >>=-ok (read_varint_data s) checked {rest = rest} {a = v}
      (rw e (write_binary-Restores width v h rest))
    ∙ ground arith

read_varint_nine :
    (v : ℕ) (rest : Bytes)
    → 0xffff_ffff < v
    → read_varint (255 ∷ (write_binary 8 v ++ rest)) ≡ outcome v rest
unfolding read_varint write_binary
read_varint_nine v rest h = ground arith

-- The reader, given a stream on which `const_varint` wrote a 64-bit size: it gives the size back if
-- that is at most 0x02000000, throws above that, and writes through the null pointer from 2 ^ 32 on.
pub read_varint-write_varint :
    (v : ℕ) (rest : Bytes)
    → read_varint (write_varint v ++ rest)
      ≡ (if ltb 0xffff_ffff v then err wild_write else checked v rest)
unfolding write_varint read_varint_data
read_varint-write_varint v rest = elim (Bool-cases (ltb v 253)) [
  | inl one ↦ rw one (read_varint_one v rest (ground arith))
  | inr more ↦ rw more (elim (Bool-cases (leb v 0xffff)) [
    | inl three ↦ rw three (read_varint_prefixed 253 2 v rest refl (ground arith) (ground arith))
    | inr longer ↦ rw longer (elim (Bool-cases (leb v 0xffff_ffff)) [
      | inl five ↦ rw five (read_varint_prefixed 254 4 v rest refl (ground arith) (ground arith))
      | inr nine ↦ rw nine (read_varint_nine v rest (ground arith))
    ])
  ])
]

pub write_varint-Restores : (v : ℕ) → v ≤ max_varint_size → Restores write_varint read_varint v
write_varint-Restores v h rest = ground (arith, read_varint-write_varint v rest)
