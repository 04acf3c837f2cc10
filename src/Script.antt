-- ===== src/Script.antt =====
-- Scripts: include/coin/Script.h, src/coin/Script.cpp, and the evaluation of a transaction's scripts in
-- src/coin/Transaction.cpp.
pub mod Opcode
pub mod Code
pub mod Machine
pub mod Canonical
