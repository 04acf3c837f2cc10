-- ===== src/Http/Parser.antt =====
-- The state machine of src/coinHTTP/RequestParser.cpp. A byte from 128 on is a negative `char`.
pub mod Safety
pub mod Names
pub mod Lines
pub mod Frame
use libcoin.Base.{
  ℕ, zero, suc, ◌+◌, ◌-◌, ◌*◌, ◌%◌, ◌^◌, Bool, true, false, not, ◌&&◌, ◌||◌, List, [], ◌∷◌, ◌++◌,
  Bytes, Option, none, some, length, ltb, leb, ◌==◌, if◌then◌else◌,
}
use libcoin.Message.Header.{same_bytes}
use libcoin.Http.Url.{url_decode}
use libcoin.Http.Request.{Request, add_header, no_header}

pub data RequestState : Type 0 where
  method_start method uri_start uri : RequestState
  http_version_h http_version_t_1 http_version_t_2 http_version_p http_version_slash : RequestState
  http_version_major_start http_version_major : RequestState
  http_version_minor_start http_version_minor expecting_newline_1 : RequestState
  header_line_start header_lws header_name space_before_header_value header_value : RequestState
  expecting_newline_2 expecting_newline_3 payload : RequestState

pub record RequestParser : Type 0 where
  pub state : RequestState
  pub method_bytes : Bytes
  pub uri_bytes : Bytes
  pub version_major : ℕ
  pub version_minor : ℕ
  pub payload_bytes : Bytes
  pub name : Bytes
  pub value : Bytes
  pub announced : ℕ

-- The `boost::tribool`: true, false and indeterminate; `overflow` where an `int` overflows.
pub data Progress : Type 0 where
  complete refused pending overflow : Progress

pub record Step : Type 0 where
  pub parser : RequestParser
  pub request : Request
  pub progress : Progress

abbrev pub step : RequestParser → Request → Progress → Step
step p r v = record { parser = p; request = r; progress = v }

-- `reset()` sets each member.
abbrev pub fresh : RequestParser
fresh = record {
  state = method_start;
  method_bytes = [];
  uri_bytes = [];
  version_major = 0;
  version_minor = 0;
  payload_bytes = [];
  name = [];
  value = [];
  announced = 0;
}

abbrev go : RequestParser → Request → Step
go p r = step p r pending

abbrev refuse : Request → Step
refuse r = step fresh r refused

abbrev pub is_char : ℕ → Bool
is_char c = ltb c 128

abbrev pub is_ctl : ℕ → Bool
is_ctl c = ltb c 32 || c == 127

unfoldable pub one_of : ℕ → Bytes → Bool
one_of c [] = false
one_of c (x ∷ xs) = c == x || one_of c xs

unfoldable pub is_tspecial : ℕ → Bool
unfolding one_of
is_tspecial c = one_of c (
    b'(' ∷ b')' ∷ b'<' ∷ b'>' ∷ b'@' ∷ b',' ∷ b';' ∷ b':' ∷ 92 ∷ 34 ∷ b'/' ∷ b'[' ∷ b']' ∷ b'?'
    ∷ b'=' ∷ b'{' ∷ b'}' ∷ b' ' ∷ 9 ∷ [])

abbrev pub is_digit : ℕ → Bool
is_digit c = leb b'0' c && leb c b'9'

-- `!is_char(input) || is_ctl(input) || is_tspecial(input)`.
abbrev pub no_token : ℕ → Bool
no_token c = not (is_char c) || (is_ctl c || is_tspecial c)

-- `tolower` of the C locale.
unfoldable pub to_lower : ℕ → ℕ
to_lower c = if leb b'A' c && leb c b'Z' then c + 32 else c

-- What `istringstream(_value) >> _length` leaves in `_length`: the largest value on overflow, 0 where
-- there is no number, and a number with a minus modulo 2 ^ 32.
unfoldable pub more_decimals : ℕ → Bytes → ℕ
more_decimals n [] = n
more_decimals n (c ∷ cs) =
    let rest = more_decimals (10 * n + (c - b'0')) cs in if is_digit c then rest else n

abbrev saturate : ℕ → ℕ
saturate n = if ltb n (2 ^ 32) then n else 2 ^ 32 - 1

abbrev saturate_negative : ℕ → ℕ
saturate_negative n = if ltb n (2 ^ 32) then (2 ^ 32 - n) % 2 ^ 32 else 2 ^ 32 - 1

unfoldable pub read_length : Bytes → ℕ
read_length [] = 0
read_length (c ∷ cs) =
    let later = read_length cs in
    if c == b' '
    then later
    else if c == b'-'
    then saturate_negative (more_decimals 0 cs)
    else if c == b'+'
    then saturate (more_decimals 0 cs)
    else saturate (more_decimals 0 (c ∷ cs))

abbrev pub content_length : Bytes
content_length =
    b'c' ∷ b'o' ∷ b'n' ∷ b't' ∷ b'e' ∷ b'n' ∷ b't' ∷ b'-' ∷ b'l' ∷ b'e' ∷ b'n' ∷ b'g' ∷ b't' ∷ b'h'
    ∷ []

-- A state that waits for one byte.
expect : ℕ → RequestState → RequestParser → Request → ℕ → Step
expect wanted next p r c = if c == wanted then go (record p { state = next }) r else refuse r

-- The number with one digit more, `n * 10 + input - '0'`, where an `int` holds it and the sum before
-- the subtraction.
with_digit : ℕ → ℕ → (ℕ → RequestParser) → RequestParser → Request → Step
with_digit n c next p r =
    let sum = n * 10 + c in if ltb sum (2 ^ 31) then go (next (sum - b'0')) r else step p r overflow

consume_method : RequestParser → Request → ℕ → Step
consume_method p r c =
    if c == b' '
    then go (record p { state = uri; method_bytes = [] }) (record r { method = p.method_bytes })
    else if no_token c
    then refuse r
    else go (record p { method_bytes = p.method_bytes ++ c ∷ [] }) r

consume_uri : RequestParser → Request → ℕ → Step
consume_uri p r c =
    if c == b' '
    then elim (url_decode p.uri_bytes) [
      | none ↦ step p r refused
      | some u ↦ go (record p { state = http_version_h; uri_bytes = [] }) (record r { uri = u })
    ]
    else if is_ctl c
    then refuse r
    else go (record p { uri_bytes = p.uri_bytes ++ c ∷ [] }) r

consume_major : RequestParser → Request → ℕ → Step
consume_major p r c =
    if is_digit c
    then with_digit p.version_major c
        (λ n. record p { state = http_version_major; version_major = n }) p r
    else refuse r

consume_minor : RequestParser → Request → ℕ → Step
consume_minor p r c =
    if is_digit c
    then with_digit p.version_minor c
        (λ n. record p { state = http_version_minor; version_minor = n }) p r
    else refuse r

consume_line_start : RequestParser → Request → ℕ → Step
consume_line_start p r c =
    if c == 13
    then go (record p { state = expecting_newline_3 }) r
    else if not (no_header r.headers) && (c == b' ' || c == 9)
    then go (record p { state = header_lws }) r
    else if no_token c
    then refuse r
    else go (record p { state = header_name; name = to_lower c ∷ [] }) r

consume_lws : RequestParser → Request → ℕ → Step
consume_lws p r c =
    if c == 13
    then go (record p { state = expecting_newline_2 }) r
    else if c == b' ' || c == 9
    then go p r
    else if is_ctl c
    then refuse r
    else go (record p { state = header_value; value = to_lower c ∷ [] }) r

consume_name : RequestParser → Request → ℕ → Step
consume_name p r c =
    if c == b':'
    then go (record p { state = space_before_header_value }) r
    else if no_token c
    then refuse r
    else go (record p { name = p.name ++ to_lower c ∷ [] }) r

consume_value : RequestParser → Request → ℕ → Step
consume_value p r c =
    if c == 13
    then go
        (record p {
          state = expecting_newline_2;
          announced = if same_bytes p.name content_length then read_length p.value else p.announced;
        })
        (add_header p.name p.value r)
    else if is_ctl c
    then refuse r
    else go (record p { value = p.value ++ to_lower c ∷ [] }) r

-- The last line is over: the request is complete unless a payload was announced.
end_of_headers : RequestParser → Request → ℕ → Step
end_of_headers p r c =
    if c == 10
    then if p.announced == 0
      then step fresh (record r { content = p.payload_bytes }) complete
      else go (record p { state = payload; payload_bytes = [] }) r
    else step p r refused

consume_content : RequestParser → Request → ℕ → Step
consume_content p r c =
    let grown = p.payload_bytes ++ c ∷ [] in
    if ltb (length grown) p.announced
    then go (record p { payload_bytes = grown }) r
    else step fresh (record r { content = grown }) complete

unfoldable pub consume_state : RequestState → RequestParser → Request → ℕ → Step
unfolding expect with_digit consume_method consume_uri consume_major consume_minor
    consume_line_start consume_lws consume_name consume_value end_of_headers consume_content
consume_state method_start p r c =
    if no_token c
    then step p r refused
    else go (record p { state = method; method_bytes = p.method_bytes ++ c ∷ [] }) r
consume_state method p r c = consume_method p r c
consume_state uri_start p r c =
    if is_ctl c
    then refuse r
    else go (record p { state = uri; uri_bytes = p.uri_bytes ++ c ∷ [] }) r
consume_state uri p r c = consume_uri p r c
consume_state http_version_h p r c = expect b'H' http_version_t_1 p r c
consume_state http_version_t_1 p r c = expect b'T' http_version_t_2 p r c
consume_state http_version_t_2 p r c = expect b'T' http_version_p p r c
consume_state http_version_p p r c = expect b'P' http_version_slash p r c
consume_state http_version_slash p r c =
    expect b'/' http_version_major_start (record p { version_major = 0; version_minor = 0 }) r c
consume_state http_version_major_start p r c = consume_major p r c
consume_state http_version_major p r c =
    if c == b'.' then go (record p { state = http_version_minor_start }) r else consume_major p r c
consume_state http_version_minor_start p r c = consume_minor p r c
consume_state http_version_minor p r c =
    if c == 13
    then go (record p { state = expecting_newline_1 })
        (record r { version_major = p.version_major; version_minor = p.version_minor })
    else consume_minor p r c
consume_state expecting_newline_1 p r c =
    expect 10 header_line_start (record p { announced = 0 }) r c
consume_state header_line_start p r c = consume_line_start p r c
consume_state header_lws p r c = consume_lws p r c
consume_state header_name p r c = consume_name p r c
consume_state space_before_header_value p r c =
    expect b' ' header_value (record p { value = [] }) r c
consume_state header_value p r c = consume_value p r c
consume_state expecting_newline_2 p r c = expect 10 header_line_start p r c
consume_state expecting_newline_3 p r c = end_of_headers p r c
consume_state payload p r c = consume_content p r c

-- `consume`.
abbrev pub consume_request : RequestParser → Request → ℕ → Step
consume_request p = consume_state p.state p

abbrev pub stop_or {ℓ} : {A : Type ℓ} → Progress → A → A → A
stop_or pending stop rest = rest
stop_or _ stop rest = stop

-- `parse`, with the bytes that are left.
unfoldable pub parse_request : RequestParser → Request → Bytes → Step × Bytes
parse_request p r [] = (step p r pending, [])
parse_request p r (c ∷ cs) =
    let o = consume_request p r c in
    let rest = parse_request o.parser o.request cs in stop_or o.progress (o, cs) rest
