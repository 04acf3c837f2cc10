-- ===== src/Merkle/Partial/Wire.antt =====
-- The bytes of a `MerkleBlock`, include/coinChain/MerkleBlock.h: `operator<<` and `operator>>`.
pub mod Packed
pub mod Padded
use Prim.Native.Nat.{bit_and, bit_or}
use libcoin.Base.{
  ℕ, zero, suc, ◌+◌, ◌*◌, ◌/◌, ◌%◌, ◌^◌, Bool, true, false, not, List, [], ◌∷◌, ◌++◌, Bytes, length,
  get_or, set, ◌==◌, if◌then◌else◌,
}
use libcoin.Serialize.Stream.{Reader, ◌>>=◌, return, write_binary, read_binary}
use libcoin.Serialize.Container.{write_vector, read_vector}
use libcoin.Block.{BlockHeader, write_header, read_header}
use libcoin.Merkle.Partial.{MerkleBlock}

-- `bytes.resize(n)`.
abbrev pub zeros : ℕ → Bytes
zeros zero = []
zeros (suc n) = 0 ∷ zeros n

-- `bytes[p / 8] |= m << (p % 8)`.
abbrev pub put_bit : Bytes → ℕ → Bool → Bytes
put_bit bytes p m =
    set bytes (p / 8) (bit_or (get_or bytes (p / 8) 0) (if m then 2 ^ (p % 8) else 0))

-- The loop over the bits, from `p` on.
unfoldable pub pack_from : ℕ → List Bool → Bytes → Bytes
pack_from p [] bytes = bytes
pack_from p (m ∷ ms) bytes = pack_from (suc p) ms (put_bit bytes p m)

unfoldable pub pack : List Bool → Bytes
pack ms = pack_from 0 ms (zeros ((length ms + 7) / 8))

-- `(bytes[p / 8] & (1 << (p % 8))) != 0`.
abbrev pub bit_at : Bytes → ℕ → Bool
bit_at bytes p = not (bit_and (get_or bytes (p / 8) 0) (2 ^ (p % 8)) == 0)

-- The loop that reads `n` bits, from `p` on.
unfoldable pub unpack_from : ℕ → ℕ → Bytes → List Bool
unpack_from p zero bytes = []
unpack_from p (suc n) bytes = bit_at bytes p ∷ unpack_from (suc p) n bytes

unfoldable pub unpack : Bytes → List Bool
unpack bytes = unpack_from 0 (length bytes * 8) bytes

-- `operator<<`, with the header that the block has as its base.
unfoldable pub write_merkle_block : BlockHeader × MerkleBlock → Bytes
write_merkle_block (header, mb) =
    write_header header
    ++ (write_binary 4 mb.transactions
        ++ (write_vector (write_binary 32) mb.hashes
            ++ write_vector (write_binary 1) (pack mb.matches)))

-- `operator>>`.
unfoldable pub read_merkle_block : Reader (BlockHeader × MerkleBlock)
read_merkle_block = do
  header ← read_header
  transactions ← read_binary 4
  hashes ← read_vector (read_binary 32)
  bytes ← read_vector (read_binary 1)
  return (
    header,
    record { transactions = transactions; matches = unpack bytes; hashes = hashes; bad = false },
  )
