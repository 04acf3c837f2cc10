-- ===== src/Chain.antt =====
-- The rules of a chain: src/coinChain/Chain.cpp and include/coinChain/Chain.h.
pub mod BlockCheck
pub mod Check
pub mod Subsidy
pub mod ProofOfWork
pub mod Retarget
