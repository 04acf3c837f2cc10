-- ===== src/Serialize/Container/Laws.antt =====
-- A vector or a string of at most 0x02000000 elements is read back as it was written.
use libcoin.Base.{◌≤◌, ◌≡◌, refl, ◌∙◌, List, [], ◌∷◌, ◌++◌, Bytes, length, All, ok}
use libcoin.Serialize.Stream.{Reader, return, read_byte, Restores}
use libcoin.Serialize.Stream.Laws.{>>=-ok, >>=-Restores}
use libcoin.Serialize.VarInt.{max_varint_size, write_varint, read_varint}
use libcoin.Serialize.VarInt.Laws.{write_varint-Restores}
use libcoin.Serialize.Container.{
  read_times, write_all, write_vector, read_vector, write_varstr, read_varstr,
}

module _ {ℓ} {A : Type ℓ} (write : A → Bytes) (read : Reader A) where
  write_all-Restores :
      (xs : List A)
      → All (Restores write read) xs
      → Restores (write_all write) (read_times read (length xs)) xs
  unfolding write_all read_times
  write_all-Restores [] h rest = refl
  write_all-Restores (x ∷ xs) h rest =
      >>=-Restores write read _ x (write_all write xs) rest h.0
      ∙ >>=-ok (read_times read (length xs)) (λ l. return (x ∷ l)) (write_all-Restores xs h.1 rest)

  -- Whatever the elements are, if each is read back and their number fits.
  pub write_vector-Restores :
      (xs : List A)
      → length xs ≤ max_varint_size
      → All (Restores write read) xs
      → Restores (write_vector write) (read_vector read) xs
  unfolding write_vector read_vector
  write_vector-Restores xs n h rest =
      >>=-Restores write_varint read_varint (read_times read) (length xs) (write_all write xs) rest
        (write_varint-Restores (length xs) n)
      ∙ write_all-Restores xs h rest

read_times-read_byte : (s rest : Bytes) → read_times read_byte (length s) (s ++ rest) ≡ ok (s, rest)
unfolding read_times
read_times-read_byte [] rest = refl
read_times-read_byte (b ∷ s) rest =
    >>=-ok (read_times read_byte (length s)) (λ l. return (b ∷ l)) (read_times-read_byte s rest)

pub write_varstr-Restores :
    (s : Bytes) → length s ≤ max_varint_size → Restores write_varstr read_varstr s
unfolding write_varstr read_varstr
write_varstr-Restores s n rest =
    >>=-Restores write_varint read_varint (read_times read_byte) (length s) s rest
      (write_varint-Restores (length s) n)
    ∙ read_times-read_byte s rest
