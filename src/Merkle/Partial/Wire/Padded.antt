-- ===== src/Merkle/Partial/Wire/Padded.antt =====
-- A `MerkleBlock` that goes over the wire gives the root of its block and the matched transactions.
use libcoin.Base.{
  ℕ, zero, suc, ◌+◌, ◌-◌, ◌*◌, ◌/◌, ◌^◌, ◌<◌, ◌≤◌, ◌≡◌, ◌∙◌, refl, ap, Bool, false, List, ◌++◌,
  Bytes, length, arith, ok,
}
use libcoin.Block.{BlockHeader, write_header, read_header}
use libcoin.Block.RoundTrip.{HeaderFits, write_header-Restores}
use libcoin.Serialize.Stream.{write_binary, read_binary}
use libcoin.Serialize.Stream.Laws.{>>=-ok, >>=-Restores, write_binary-Restores}
use libcoin.Serialize.VarInt.{max_varint_size}
use libcoin.Serialize.Container.{write_vector, read_vector}
use libcoin.Serialize.Container.Laws.{write_vector-Restores}
use libcoin.Transaction.RoundTrip.{Fits, All-map}
use libcoin.Merkle.{Tree, build_merkle_tree}
use libcoin.Merkle.Partial.{MerkleBlock, build_merkle_block, extract_matches}
use libcoin.Merkle.Partial.Root.{calc_hash-build_merkle_tree}
use libcoin.Merkle.Partial.Selected.{selected}
use libcoin.Merkle.Partial.Sizes.{extract_matches-padded_block}
use libcoin.Merkle.Partial.Wire.{pack, write_merkle_block, read_merkle_block}
use libcoin.Merkle.Partial.Wire.Packed.{falses, pack-IsByte, length-pack, unpack-pack}

-- What fits into the types of the fields.
pub record MerkleBlockFits (mb : MerkleBlock) : Type 0 where
  pub transactions : mb.transactions < 256 ^ 4
  pub hashes : Fits (λ h. h < 256 ^ 32) mb.hashes
  pub bits : (length mb.matches + 7) / 8 ≤ max_varint_size

-- The block that is read, with false bits up to the end of a byte.
abbrev pub received : MerkleBlock → MerkleBlock
received mb = record mb {
  matches = mb.matches ++ falses ((length mb.matches + 7) / 8 * 8 - length mb.matches);
  bad = false;
}

pub read_merkle_block-write_merkle_block :
    (header : BlockHeader) (mb : MerkleBlock) (rest : Bytes)
    → HeaderFits header
    → MerkleBlockFits mb
    → read_merkle_block (write_merkle_block (header, mb) ++ rest) ≡ ok ((header, received mb), rest)
unfolding read_merkle_block write_merkle_block
read_merkle_block-write_merkle_block header mb rest head fits =
    >>=-Restores write_header read_header _ header _ rest (write_header-Restores header head)
    ∙ >>=-Restores (write_binary 4) (read_binary 4) _ mb.transactions _ rest
        (write_binary-Restores 4 mb.transactions fits.transactions)
    ∙ >>=-Restores (write_vector (write_binary 32)) (read_vector (read_binary 32)) _ mb.hashes _
        rest
        (write_vector-Restores (write_binary 32) (read_binary 32) mb.hashes fits.hashes.0
          (All-map mb.hashes (λ h small. write_binary-Restores 32 h small) fits.hashes.1))
    ∙ >>=-ok (read_vector (read_binary 1)) _ (
        write_vector-Restores (write_binary 1) (read_binary 1) (pack mb.matches)
          (omega (arith, length-pack mb.matches, fits.bits))
          (All-map (pack mb.matches) (λ b small. write_binary-Restores 1 b small)
            (pack-IsByte mb.matches))
          rest)
    ∙ ap (λ bits. ok ((header, record mb { matches = bits; bad = false }), rest))
        (unpack-pack mb.matches)

length-falses : (n : ℕ) → length (falses n) ≡ n
length-falses zero = refl
length-falses (suc n) = ap suc (length-falses n)

-- The partial tree of the one to 16666 transactions of a block is read back from the bytes written for
-- it, if its fields fit their types: with the header, the number of transactions and the hashes that it
-- had, and its bits with false ones after them up to the end of a byte. And `extractMatches` of what is
-- read gives the root that `buildMerkleTree` gives for the block, and the hashes of the matched
-- transactions in their order.
pub extract_matches-read_merkle_block :
    (hash : ℕ → ℕ → ℕ) (header : BlockHeader) (b : Tree) (wanted : List Bool) (rest : Bytes)
    → HeaderFits header
    → MerkleBlockFits (build_merkle_block hash b.transactions wanted)
    → length b.transactions ≡ length wanted
    → 0 < length b.transactions
    → length b.transactions ≤ 16666
    → let built = build_merkle_block hash b.transactions wanted in
      (read_merkle_block (write_merkle_block (header, built) ++ rest)
        ≡ ok ((header, received built), rest))
      × (extract_matches hash (received built)
          ≡ ((build_merkle_tree hash b).1, selected b.transactions wanted))
unfolding build_merkle_block
extract_matches-read_merkle_block hash header b wanted rest head fits e some few =
    let built = build_merkle_block hash b.transactions wanted in
    let n = length built.matches in
    let pad = falses ((n + 7) / 8 * 8 - n) in
    (
      read_merkle_block-write_merkle_block header built rest head fits,
      extract_matches-padded_block hash b.transactions wanted pad
            (omega (arith, length-falses ((n + 7) / 8 * 8 - n))) e some few
          ∙ ap (λ root. (root, selected b.transactions wanted))
              (calc_hash-build_merkle_tree hash b some),
    )
