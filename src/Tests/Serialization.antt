-- ===== src/Tests/Serialization.antt =====
-- The serialization at concrete values.
use libcoin.Base.{◌≡◌, ◌^◌, refl, [], ◌∷◌, ◌++◌, arith, ok, err}
use libcoin.Base.Int.{pos, negsuc}
use libcoin.Serialize.Stream.{wild_write, write_binary}
use libcoin.Serialize.VarInt.{write_varint, read_varint}
use libcoin.Serialize.VarInt.Laws.{read_varint-write_varint}
use libcoin.Block.{BlockHeader, Block, write_block, read_block}
use libcoin.Block.RoundTrip.{HeaderFits, write_block-Restores}
use libcoin.Transaction.{Transaction, write_transaction, read_transaction}
use libcoin.Transaction.RoundTrip.{TransactionFits, write_transaction-Restores}

write_300 : write_varint 300 ≡ 253 ∷ 44 ∷ 1 ∷ []
unfolding write_varint write_binary
write_300 = refl

read_varint-write_varint_example : read_varint (write_varint (2 ^ 32) ++ []) ≡ err wild_write
read_varint-write_varint_example = read_varint-write_varint (2 ^ 32) []

abbrev payment : Transaction
payment = record {
  version = 1;
  inputs =
      record {
        prevout = record { hash = 77; index = 2 };
        signature = 1 ∷ 2 ∷ [];
        sequence = 0xffff_ffff;
      }
      ∷ [];
  outputs =
      record { value = pos 5000; script = 118 ∷ [] }
      ∷ record { value = negsuc 0; script = [] }
      ∷ [];
  lock_time = 9;
}

payment-TransactionFits : TransactionFits payment
payment-TransactionFits = record {
  version = omega arith;
  inputs = omega arith;
  outputs = omega arith;
  lock_time = omega arith;
}

write_transaction-Restores_example :
    read_transaction (write_transaction payment ++ 5 ∷ []) ≡ ok (payment, 5 ∷ [])
write_transaction-Restores_example =
    write_transaction-Restores payment payment-TransactionFits (5 ∷ [])

abbrev header : BlockHeader
header = record {
  version = 2;
  prev_block = 12;
  merkle_root = 77;
  time = 1300000000;
  bits = 0x1d00ffff;
  nonce = 3;
}

abbrev block : Block
block = record { header = header; transactions = payment ∷ [] }

header-HeaderFits : HeaderFits header
header-HeaderFits = record {
  version = omega arith;
  prev_block = omega arith;
  merkle_root = omega arith;
  time = omega arith;
  bits = omega arith;
  nonce = omega arith;
}

write_block-Restores_example : read_block (write_block block ++ 5 ∷ []) ≡ ok (block, 5 ∷ [])
write_block-Restores_example =
    write_block-Restores block header-HeaderFits (omega arith, (payment-TransactionFits, tt))
      (5 ∷ [])
