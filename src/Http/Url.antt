-- ===== src/Http/Url.antt =====
-- `RequestParser::urlDecode`, with what the standard library's `is >> std::hex >> value` reads.
pub mod Laws
use libcoin.Base.{
  ℕ, zero, suc, ◌+◌, ◌-◌, ◌*◌, ◌%◌, Bool, true, false, ◌&&◌, ◌||◌, List, [], ◌∷◌, Bytes, Option,
  none, some, ltb, leb, ◌==◌, if◌then◌else◌,
}
use libcoin.Base.Int.{ℤ, pos, negsuc}

-- `isspace` of the C locale.
unfoldable pub is_space : ℕ → Bool
is_space c = c == b' ' || (leb 9 c && leb c 13)

unfoldable pub hex_digit : ℕ → Option ℕ
hex_digit c =
    if leb b'0' c && leb c b'9'
    then some (c - b'0')
    else if leb b'a' c && leb c b'f'
    then some (c - b'a' + 10)
    else if leb b'A' c && leb c b'F'
    then some (c - b'A' + 10)
    else none

-- The digits that follow the number `n`.
unfoldable pub more_digits : ℕ → Bytes → ℕ
more_digits n [] = n
more_digits n (c ∷ cs) = elim (hex_digit c) [ none ↦ n | some d ↦ more_digits (16 * n + d) cs ]

-- One digit at least.
unfoldable pub digits : Bytes → Option ℕ
digits [] = none
digits (c ∷ cs) = elim (hex_digit c) [ none ↦ none | some d ↦ some (more_digits d cs) ]

-- A prefix `0x` is taken away.
unfoldable pub prefixed : Bytes → Option ℕ
prefixed (z ∷ x ∷ cs) =
    if z == b'0' && (x == b'x' || x == b'X') then digits cs else digits (z ∷ x ∷ cs)
prefixed cs = digits cs

abbrev negative : Option ℕ → Option ℤ
negative none = none
negative (some zero) = some (pos 0)
negative (some (suc n)) = some (negsuc n)

abbrev positive : Option ℕ → Option ℤ
positive none = none
positive (some n) = some (pos n)

unfoldable pub signed : Bytes → Option ℤ
signed [] = none
signed (c ∷ cs) =
    if c == b'-'
    then negative (prefixed cs)
    else if c == b'+'
    then positive (prefixed cs)
    else positive (prefixed (c ∷ cs))

-- `is >> std::hex >> value`, for fewer digits than an `int` overflows at.
unfoldable pub read_hex : Bytes → Option ℤ
read_hex [] = none
read_hex (c ∷ cs) = if is_space c then read_hex cs else signed (c ∷ cs)

-- `static_cast<char>(value)`, as a byte.
unfoldable pub to_char : ℤ → ℕ
to_char (pos n) = n % 256
to_char (negsuc n) = 255 - n % 256

-- `out` once the loop has run, or `none` where it returns false.
unfoldable pub url_decode : Bytes → Option Bytes
url_decode [] = some []
url_decode (c ∷ []) = if c == b'%' then none else some ((if c == b'+' then b' ' else c) ∷ [])
url_decode (c ∷ a ∷ []) = elim (url_decode (a ∷ [])) [
  | none ↦ none
  | some out ↦ if c == b'%' then none else some ((if c == b'+' then b' ' else c) ∷ out)
]
url_decode (c ∷ a ∷ b ∷ cs) =
    let plain = url_decode (a ∷ b ∷ cs) in
    let escaped = url_decode cs in
    if c == b'%'
    then elim (read_hex (a ∷ b ∷ [])) [
      | none ↦ none
      | some v ↦ elim escaped [ none ↦ none | some out ↦ some (to_char v ∷ out) ]
    ]
    else elim plain [ none ↦ none | some out ↦ some ((if c == b'+' then b' ' else c) ∷ out) ]
