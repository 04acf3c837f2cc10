-- ===== src/Serialize/Stream/Laws.antt =====
-- The laws of reading and writing that the formats share.
use mathlib.Core.List.{append_assoc}
use native.Mathlib.Nat.{pow-suc}
use libcoin.Base.{
  ℕ, zero, suc, ◌+◌, ◌*◌, ◌/◌, ◌%◌, ◌^◌, ◌<◌, ◌≡◌, refl, ap, ◌∙◌, ◌++◌, arith, Bytes, length, ok,
}
use libcoin.Serialize.Stream.{Reader, ◌>>=◌, return, write_binary, read_binary, Restores}

pub length-write_binary : (width v : ℕ) → length (write_binary width v) ≡ width
unfolding write_binary
length-write_binary zero v = refl
length-write_binary (suc width) v = ap suc (length-write_binary width (v / 256))

module _ {ℓ κ} {A : Type ℓ} {B : Type κ} where
  -- A read that succeeds hands its value and the rest of the stream on.
  pub >>=-ok :
      (m : Reader A) (f : A → Reader B) {s rest : Bytes} {a : A}
      → m s ≡ ok (a, rest)
      → (m >>= f) s ≡ f a rest
  >>=-ok m f h = rw (h, ◌>>=◌)

  -- So a value is read back that is followed by more of its record.
  pub >>=-Restores :
      (write : A → Bytes) (read : Reader A) (f : A → Reader B) (a : A) (after rest : Bytes)
      → Restores write read a
      → (read >>= f) ((write a ++ after) ++ rest) ≡ f a (after ++ rest)
  >>=-Restores write read f a after rest h =
      rw (append_assoc (write a) after rest) (>>=-ok read f (h (after ++ rest)))

-- A number that fits its width is read back.
pub write_binary-Restores :
    (width v : ℕ) → v < 256 ^ width → Restores (write_binary width) (read_binary width) v
unfolding write_binary read_binary
write_binary-Restores zero v h rest = ground arith
write_binary-Restores (suc width) v h rest =
    >>=-ok (read_binary width) (λ high. return (v % 256 + 256 * high))
      (write_binary-Restores width (v / 256) (omega (arith, pow-suc 256 width)) rest)
    ∙ ap (λ w. ok (w, rest)) (omega arith)
