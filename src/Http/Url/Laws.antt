-- ===== src/Http/Url/Laws.antt =====
-- `urlDecode` against the rules of the encoding.
use libcoin.Base.{
  ℕ, ◌+◌, ◌*◌, ◌<◌, ◌≡◌, ◌≢◌, refl, true, false, ◌&&◌, [], ◌∷◌, Bytes, some, arith, ◌==◌,
  if◌then◌else◌,
}
use libcoin.Base.Int.{pos}
use libcoin.Http.Url.{
  hex_digit, read_hex, url_decode, to_char, is_space, signed, prefixed, digits, more_digits,
}

-- The encodings of a string: a byte that is neither '%' nor '+' stands for itself, '+' for a space, and
-- '%' with two hexadecimal digits for the byte of that number.
pub data Encodes : Bytes → Bytes → Type 0 where
  done : Encodes [] []
  plain : {c : ℕ} {e out : Bytes} → c ≢ b'%' → c ≢ b'+' → Encodes e out → Encodes (c ∷ e) (c ∷ out)
  plus : {e out : Bytes} → Encodes e out → Encodes (b'+' ∷ e) (b' ' ∷ out)
  percent :
      {a b h l : ℕ} {e out : Bytes}
      → hex_digit a ≡ some h
      → hex_digit b ≡ some l
      → Encodes e out
      → Encodes (b'%' ∷ a ∷ b ∷ e) ((16 * h + l) ∷ out)

hex_digit-lt : (a h : ℕ) → hex_digit a ≡ some h → h < 16
unfolding hex_digit
hex_digit-lt a h e = ground arith

-- A hexadecimal digit is no space, no sign and no 'x'.
hex_digit_else :
    (a h : ℕ)
    → hex_digit a ≡ some h
    → (is_space a ≡ false)
      × ((a == b'-') ≡ false)
      × ((a == b'+') ≡ false)
      × ((a == b'x') ≡ false)
      × ((a == b'X') ≡ false)
unfolding hex_digit is_space
hex_digit_else a h e = ground arith

digits-hex_digit :
    (a b h l : ℕ)
    → hex_digit a ≡ some h
    → hex_digit b ≡ some l
    → digits (a ∷ b ∷ []) ≡ some (16 * h + l)
unfolding digits more_digits
digits-hex_digit a b h l ea eb = ground arith

prefixed-hex_digit :
    (a b h l : ℕ)
    → hex_digit a ≡ some h
    → hex_digit b ≡ some l
    → prefixed (a ∷ b ∷ []) ≡ some (16 * h + l)
unfolding prefixed
prefixed-hex_digit a b h l ea eb =
    let (_, _, _, x, X) = hex_digit_else b l eb in
    rw (x, X)
      (elim (a == b'0')
        as (λ z. (if z && false then digits [] else digits (a ∷ b ∷ [])) ≡ some (16 * h + l)) [
          | true ↦ digits-hex_digit a b h l ea eb
          | false ↦ digits-hex_digit a b h l ea eb
        ])

read_hex-hex_digit :
    (a b h l : ℕ)
    → hex_digit a ≡ some h
    → hex_digit b ≡ some l
    → read_hex (a ∷ b ∷ []) ≡ some (pos (16 * h + l))
unfolding read_hex signed
read_hex-hex_digit a b h l ea eb =
    let (s, m, p, _, _) = hex_digit_else a h ea in
    rw (s, m, p, prefixed-hex_digit a b h l ea eb) refl

url_decode_plain :
    (c : ℕ) (e out : Bytes)
    → c ≢ b'%'
    → url_decode e ≡ some out
    → url_decode (c ∷ e) ≡ some ((if c == b'+' then b' ' else c) ∷ out)
unfolding url_decode
url_decode_plain c [] out n h = ground arith
url_decode_plain c (a ∷ []) out n h = ground arith
url_decode_plain c (a ∷ b ∷ e) out n h = ground arith

-- Each encoding is decoded to the string that it stands for.
pub url_decode-Encodes : (e out : Bytes) → Encodes e out → url_decode e ≡ some out
unfolding url_decode to_char
url_decode-Encodes _ _ done = refl
url_decode-Encodes _ _ (plain {c} {e} {out} p q d) =
    ground (arith, url_decode_plain c e out p (url_decode-Encodes e out d))
url_decode-Encodes _ _ (plus {e} {out} d) =
    ground (arith, url_decode_plain b'+' e out (omega arith) (url_decode-Encodes e out d))
url_decode-Encodes _ _ (percent {a} {b} {h} {l} {e} {out} x y d) = ground (
  arith,
  read_hex-hex_digit a b h l x y,
  hex_digit-lt a h x,
  hex_digit-lt b l y,
  url_decode-Encodes e out d,
)
