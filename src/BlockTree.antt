-- ===== src/BlockTree.antt =====
-- The tree of block headers: include/coinChain/BlockTree.h and src/coinChain/BlockTree.cpp.
pub mod Sparse
pub mod Reorganize
