-- ===== src/Serialize/Stream.antt =====
-- The byte streams of include/coin/Serialization.h. A `std::ostream` is the bytes written to it; a
-- read takes bytes off the front of a `std::istream`.
pub mod Laws
use libcoin.Base.{ℕ, zero, suc, ◌+◌, ◌*◌, ◌/◌, ◌%◌, ◌≡◌, [], ◌∷◌, ◌++◌, Bytes, Result, ok, err}

-- Why a read gives no value. `short`: the stream has ended, so its failbit is set and the value is
-- not to be used. `too_large`: `std::ios_base::failure` is thrown. `wild_write`: the code writes
-- through a pointer that it made from an integer.
pub data ReadError : Type 0 where
  short too_large wild_write : ReadError

abbrev pub Reader {ℓ} : Type ℓ → Type ℓ
Reader A = Bytes → Result ReadError (A × Bytes)

infixl 5 ◌>>=◌
abbrev pub ◌>>=◌ {ℓ κ} : {A : Type ℓ} {B : Type κ} → Reader A → (A → Reader B) → Reader B
◌>>=◌ m f s = elim (m s) [ ok (a, rest) ↦ f a rest | err e ↦ err e ]

abbrev pub return {ℓ} : {A : Type ℓ} → A → Reader A
return a s = ok (a, s)

abbrev pub fail {ℓ} : {A : Type ℓ} → ReadError → Reader A
fail e s = err e

-- `const_binary<T>`: the memory of an unsigned integer of `width` bytes on a little-endian machine.
unfoldable pub write_binary : ℕ → ℕ → Bytes
write_binary zero v = []
write_binary (suc width) v = v % 256 ∷ write_binary width (v / 256)

-- One byte off the stream.
abbrev pub read_byte : Reader ℕ
read_byte [] = err short
read_byte (b ∷ rest) = ok (b, rest)

-- `binary<T>`.
unfoldable pub read_binary : ℕ → Reader ℕ
read_binary zero = return 0
read_binary (suc width) = do b ← read_byte; rest ← read_binary width; return (b + 256 * rest)

-- What is read after `write`, whatever follows on the stream, is what was written.
abbrev pub Restores {ℓ} : {A : Type ℓ} → (A → Bytes) → Reader A → A → Type ℓ
Restores write read a = (rest : Bytes) → read (write a ++ rest) ≡ ok (a, rest)
