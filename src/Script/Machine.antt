-- ===== src/Script/Machine.antt =====
-- `Evaluator` of include/coin/Script.h and src/coin/Script.cpp. The stacks are lists with the top first.
-- OpenSSL's numbers and digests are parameters.
pub mod Number
pub mod Stack
pub mod Run
