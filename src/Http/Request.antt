-- ===== src/Http/Request.antt =====
-- `Request` of include/coinHTTP/Request.h and src/coinHTTP/Request.cpp. The headers, a `std::map`, are a
-- list of pairs with one pair for each name; nothing here depends on their order.
use libcoin.Base.{
  ℕ, Bool, true, false, ◌&&◌, [], ◌∷◌, Bytes, Option, none, some, length, ltb, ◌==◌, if◌then◌else◌,
  drop, take,
}
use libcoin.Message.Header.{same_bytes}

pub data Headers : Type 0 where
  no_headers : Headers
  header : Bytes → Bytes → Headers → Headers

pub record Request : Type 0 where
  pub method : Bytes
  pub uri : Bytes
  pub version_major : ℕ
  pub version_minor : ℕ
  pub headers : Headers
  pub content : Bytes

-- `_headers[field] = value`.
unfoldable pub set_header : Bytes → Bytes → Headers → Headers
set_header field value no_headers = header field value no_headers
set_header field value (header f v rest) =
    if same_bytes field f then header f value rest else header f v (set_header field value rest)

unfoldable pub find_header : Bytes → Headers → Option Bytes
find_header field no_headers = none
find_header field (header f v rest) = if same_bytes field f then some v else find_header field rest

abbrev pub no_header : Headers → Bool
no_header no_headers = true
no_header (header f v rest) = false

-- `addHeader`.
abbrev pub add_header : Bytes → Bytes → Request → Request
add_header field value r = record r { headers = set_header field value r.headers }

-- `path()` and `query()`: what is before and after the first '?'.
unfoldable pub path_of : Bytes → Bytes
path_of [] = []
path_of (c ∷ cs) = if c == b'?' then [] else c ∷ path_of cs

unfoldable pub query_of : Bytes → Bytes
query_of [] = []
query_of (c ∷ cs) = if c == b'?' then cs else query_of cs

abbrev basic : Bytes
basic = b'b' ∷ b'a' ∷ b's' ∷ b'i' ∷ b'c' ∷ b' ' ∷ []

abbrev pub authorization : Bytes
authorization =
    b'a' ∷ b'u' ∷ b't' ∷ b'h' ∷ b'o' ∷ b'r' ∷ b'i' ∷ b'z' ∷ b'a' ∷ b't' ∷ b'i' ∷ b'o' ∷ b'n' ∷ []

-- `basic_auth()`.
unfoldable pub basic_auth : Request → Bytes
basic_auth r = elim (find_header authorization r.headers) [
  | none ↦ []
  | some auth ↦ if ltb 9 (length auth) && same_bytes (take 6 auth) basic then drop 6 auth else []
]

-- `reset()`; the version stays.
abbrev pub reset_request : Request → Request
reset_request r = record r { method = []; uri = []; headers = no_headers; content = [] }
