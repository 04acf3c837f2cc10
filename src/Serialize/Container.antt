-- ===== src/Serialize/Container.antt =====
-- Strings and vectors (include/coin/Serialization.h, src/coin/Serialization.cpp): a varint followed
-- by the elements.
pub mod Laws
use libcoin.Base.{ℕ, zero, suc, List, [], ◌∷◌, ◌++◌, Bytes, length}
use libcoin.Serialize.Stream.{Reader, ◌>>=◌, return, read_byte}
use libcoin.Serialize.VarInt.{write_varint, read_varint}

-- `n` elements, one after the other.
unfoldable pub read_times {ℓ} : {A : Type ℓ} → Reader A → ℕ → Reader (List A)
read_times read zero = return []
read_times read (suc n) = do a ← read; rest ← read_times read n; return (a ∷ rest)

unfoldable pub write_all {ℓ} : {A : Type ℓ} → (A → Bytes) → List A → Bytes
write_all write [] = []
write_all write (a ∷ as') = write a ++ write_all write as'

-- `operator<<` and `operator>>` of `std::vector<T>`, over those of `T`.
unfoldable pub write_vector {ℓ} : {A : Type ℓ} → (A → Bytes) → List A → Bytes
write_vector write xs = write_varint (length xs) ++ write_all write xs

unfoldable pub read_vector {ℓ} : {A : Type ℓ} → Reader A → Reader (List A)
read_vector read = do size ← read_varint; read_times read size

-- `const_varstr` and `varstr`.
unfoldable pub write_varstr : Bytes → Bytes
write_varstr str = write_varint (length str) ++ str

unfoldable pub read_varstr : Reader Bytes
read_varstr = do size ← read_varint; read_times read_byte size
