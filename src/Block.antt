-- ===== src/Block.antt =====
-- Blocks: include/coin/BlockHeader.h, src/coin/BlockHeader.cpp, include/coin/Block.h and src/coin/Block.cpp,
-- where `_ignore_aux_pow` has the value that the constructors give it, true. `_version` is kept as its
-- 32-bit pattern; `digest` stands for the library's double SHA-256 of bytes.
pub mod RoundTrip
use libcoin.Base.{ℕ, ◌+◌, List, [], ◌∷◌, ◌++◌, Bytes, map}
use libcoin.Merkle.{build_merkle_tree}
use libcoin.Serialize.Stream.{Reader, ◌>>=◌, return, write_binary, read_binary}
use libcoin.Serialize.Container.{write_vector, read_vector}
use libcoin.Transaction.{Transaction, write_transaction, read_transaction}
use libcoin.Transaction.Fee.{get_sig_op_count}

pub record BlockHeader : Type 0 where
  pub version : ℕ
  pub prev_block : ℕ
  pub merkle_root : ℕ
  pub time : ℕ
  pub bits : ℕ
  pub nonce : ℕ

pub record Block : Type 0 where
  pub header : BlockHeader
  pub transactions : List Transaction

unfoldable pub write_header : BlockHeader → Bytes
write_header h =
    write_binary 4 h.version
    ++ (write_binary 32 h.prev_block
        ++ (write_binary 32 h.merkle_root
            ++ (write_binary 4 h.time ++ (write_binary 4 h.bits ++ write_binary 4 h.nonce))))

unfoldable pub read_header : Reader BlockHeader
read_header = do
  version ← read_binary 4
  prev_block ← read_binary 32
  merkle_root ← read_binary 32
  time ← read_binary 4
  bits ← read_binary 4
  nonce ← read_binary 4
  return (record {
    version = version;
    prev_block = prev_block;
    merkle_root = merkle_root;
    time = time;
    bits = bits;
    nonce = nonce;
  })

unfoldable pub write_block : Block → Bytes
write_block b = write_header b.header ++ write_vector write_transaction b.transactions

unfoldable pub read_block : Reader Block
read_block = do
  header ← read_header
  transactions ← read_vector read_transaction
  return (record { header = header; transactions = transactions })

-- `GetSigOpCount`, where no `int` overflows.
abbrev pub count_of_all : List Transaction → ℕ
count_of_all [] = 0
count_of_all (txn ∷ txns) = get_sig_op_count txn + count_of_all txns

-- `getHash` of a header, and of a transaction.
abbrev pub header_hash : (Bytes → ℕ) → BlockHeader → ℕ
header_hash digest h = digest (write_header h)

abbrev pub txid : (Bytes → ℕ) → Transaction → ℕ
txid digest txn = digest (write_transaction txn)

-- The root that `buildMerkleTree` gives.
abbrev pub computed_root : (Bytes → ℕ) → (ℕ → ℕ → ℕ) → Block → ℕ
computed_root digest node b =
    (build_merkle_tree node
      (record { transactions = map (txid digest) b.transactions; merkle_tree = [] })).1
