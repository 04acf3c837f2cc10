-- ===== src/Lib.antt =====
-- A model of the core of libcoin, a C++ library for Bitcoin and its relatives (Namecoin, Litecoin,
-- Terracoin, Dogecoin), with the theorems about it.
--
-- The bytes of a connection go to `MessageParser`, which finds messages in them; their payloads are
-- read by the stream operators of `coin/Serialization.h` into transactions and blocks. A transaction
-- may spend an output if the `TransactionEvaluator` accepts the script of its input followed by that of
-- the output. `Chain` has the rules of one currency, which look at a transaction or at a block with the
-- Merkle root of its transactions; `BlockTree` holds the chain with the most work as its trunk and the
-- other blocks on branches. Transactions that wait for a block are `Claims`, which lists them in an order
-- that a block can take. A light client gets a `MerkleBlock` of the transactions that its
-- `BloomFilter` matches. The HTTP server, apart from these, has a parser of the same kind as
-- `MessageParser`.
--
-- Files, with the code that each is about:
--   Base            names of the library, Booleans, lists, integers, results and maps
--   Serialize       src/coin/Serialization.cpp, include/coin/Serialization.h. A stream is the list of
--                   its bytes; a reader gives a value and the bytes left, or an error. Stream has
--                   `binary` and `const_binary`, VarInt the sizes, Container vectors and strings.
--   Script          include/coin/Script.h, src/coin/Script.cpp. Opcode has the codes, Code the bytes:
--                   getOp, the pushes, findAndDelete, the standard address; Canonical the canonical
--                   keys and signatures; Machine the `Evaluator`: Number and Stack what a code does to
--                   the values, Run the state, `eval` and the loop. OpenSSL's numbers and digests are
--                   a record of functions.
--   Transaction     include/coin/Transaction.h, src/coin/Transaction.cpp: Coin, Input, Output,
--                   Transaction, their operators. Replace has isNewerThan, Fee getMinFee and
--                   getSigOpCount, SignatureHash getSignatureHash, Verify the TransactionEvaluator and
--                   verify; the check of a key is a parameter.
--   Merkle          src/coin/Block.cpp: buildMerkleTree, getMerkleBranch, checkMerkleBranch. The hash
--                   of two nodes is a parameter. Levels and Build have the tree, Branch the branches.
--                   Partial is src/coinChain/MerkleBlock.cpp: the partial tree of the matched
--                   transactions, from its building to extractMatches; Slices, Selected, Extract, Sizes
--                   and Root have the steps to its theorem, Wire its bytes (include/coinChain/MerkleBlock.h).
--   Bloom           src/coinChain/BloomFilter.cpp: the filter, and MurmurHash3 in Murmur
--   Block           src/coin/Block.cpp, src/coin/BlockHeader.cpp and their headers: the fields and bytes
--                   of a block without AuxPow, its root and its signature operations
--   Chain           src/coinChain/Chain.cpp, include/coinChain/Chain.h. Check has `check` of a
--                   transaction, BlockCheck that of a block, Subsidy the subsidies of four chains,
--                   ProofOfWork `checkProofOfWork`, Retarget `nextWorkRequired` of five chains.
--   Message         src/coinChain/MessageHeader.cpp, src/coinChain/MessageParser.cpp,
--                   include/coinChain/MessageParser.h, `Message` of include/coinChain/Filter.h. Header
--                   has the header and its validation, Parser `consume` and `parse`, a step for each
--                   state. The time, the magic and the hash are parameters.
--   Http            src/coinHTTP/RequestParser.cpp, src/coinHTTP/Request.cpp and their headers. Url has
--                   the decoding of a URI, Request the request, Parser `consume` and `parse`.
--   BlockTree       include/coinChain/BlockTree.h, src/coinChain/BlockTree.cpp. Sparse has the trunk,
--                   the branches, the heights and the iterators, Reorganize the accumulated work and
--                   `insert`: Demote takes the blocks above the fork off the trunk, Promote and Climb
--                   put the branch on it, Best has the whole. Start has `assign`, Deepest
--                   `best_invalid`.
--   Claims          include/coinChain/Claims.h, src/coinChain/Claims.cpp: the pool, `insert`,
--                   `transactions` and `threshold`; Removal has `erase` and `purge`. Rank and Queue are
--                   about the order of the priorities, Pool and Insertion about `insert`, Expiry about
--                   `purge`, Order about the listing for a block. The hash of a transaction and the
--                   clock are parameters.
--   Tests           runs at concrete inputs
--
-- Hashes are numbers, a `uint256` below 2 ^ 256; bytes are numbers below 256; an `int64_t` is an
-- integer whose sums and products wrap, except where a file says that it leaves overflow out. A read
-- past the end of a stream is an error; C++ leaves the stream in its failed state.
--
-- Fuel: the levels of a Merkle tree are at most as many as the leaves, since each is half of the one
-- before; an inner loop has its number of rounds. The way from a block of a branch to the trunk is no
-- longer than its height, so `trace_back` and `collect` have the height for fuel; the loop up the trunk
-- has its length. The loops over a script have its length, since each instruction takes a byte;
-- the search of the height of a partial tree has the number of transactions, which is at most 2 to it.
-- `insert_claim` needs fuel above the rank of the claim, which is below the number of inserts so far;
-- `threshold` needs as much as the size of a block, since each round adds a byte at least.
--
-- Not modelled: the database of the block chain, the wallet, HTTP replies and JSON, mining, the network
-- code around the parser, the templates of Solver, the AuxPow of merged mining, logging; OpenSSL,
-- Boost and SQLite are libraries. The copies of json_spirit, miniupnpc, libnatpmp, jsbn and
-- crypto-js belong to other projects.
pub mod Base
pub mod Serialize
pub mod Transaction
pub mod Script
pub mod Merkle
pub mod Block
pub mod Chain
pub mod Message
pub mod Http
pub mod BlockTree
pub mod Bloom
pub mod Claims
pub mod Tests
