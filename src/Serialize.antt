-- ===== src/Serialize.antt =====
-- The serialization of include/coin/Serialization.h and src/coin/Serialization.cpp.
pub mod Stream
pub mod VarInt
pub mod Container
