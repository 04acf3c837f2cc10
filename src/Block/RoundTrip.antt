-- ===== src/Block/RoundTrip.antt =====
-- A block whose fields have the widths of their C++ types is read back as it was written.
use libcoin.Base.{◌^◌, ◌<◌, ◌∙◌}
use libcoin.Serialize.Stream.{write_binary, read_binary, Restores}
use libcoin.Serialize.Stream.Laws.{>>=-ok, >>=-Restores, write_binary-Restores}
use libcoin.Serialize.Container.{read_vector}
use libcoin.Serialize.Container.Laws.{write_vector-Restores}
use libcoin.Transaction.{write_transaction, read_transaction}
use libcoin.Transaction.RoundTrip.{Fits, TransactionFits, All-map, write_transaction-Restores}
use libcoin.Block.{BlockHeader, Block, write_header, read_header, write_block, read_block}

pub record HeaderFits (h : BlockHeader) : Type 0 where
  pub version : h.version < 256 ^ 4
  pub prev_block : h.prev_block < 256 ^ 32
  pub merkle_root : h.merkle_root < 256 ^ 32
  pub time : h.time < 256 ^ 4
  pub bits : h.bits < 256 ^ 4
  pub nonce : h.nonce < 256 ^ 4

pub write_header-Restores : (h : BlockHeader) → HeaderFits h → Restores write_header read_header h
unfolding write_header read_header
write_header-Restores h fits rest =
    >>=-Restores (write_binary 4) (read_binary 4) _ h.version _ rest
      (write_binary-Restores 4 h.version fits.version)
    ∙ >>=-Restores (write_binary 32) (read_binary 32) _ h.prev_block _ rest
        (write_binary-Restores 32 h.prev_block fits.prev_block)
    ∙ >>=-Restores (write_binary 32) (read_binary 32) _ h.merkle_root _ rest
        (write_binary-Restores 32 h.merkle_root fits.merkle_root)
    ∙ >>=-Restores (write_binary 4) (read_binary 4) _ h.time _ rest
        (write_binary-Restores 4 h.time fits.time)
    ∙ >>=-Restores (write_binary 4) (read_binary 4) _ h.bits _ rest
        (write_binary-Restores 4 h.bits fits.bits)
    ∙ >>=-ok (read_binary 4) _ (write_binary-Restores 4 h.nonce fits.nonce rest)

-- Reading the bytes written for a block gives the block and leaves what follows it, if each field of
-- its header fits its C++ type, it has at most 0x02000000 transactions, and each of them fits likewise.
pub write_block-Restores :
    (b : Block)
    → HeaderFits b.header
    → Fits TransactionFits b.transactions
    → Restores write_block read_block b
unfolding write_block read_block
write_block-Restores b h t rest =
    >>=-Restores write_header read_header _ b.header _ rest (write_header-Restores b.header h)
    ∙ >>=-ok (read_vector read_transaction) _ (
        write_vector-Restores write_transaction read_transaction b.transactions t.0
          (All-map b.transactions write_transaction-Restores t.1) rest)
