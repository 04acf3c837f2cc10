-- ===== src/Http/Parser/Lines.antt =====
-- The request line and one header line, read by the parser.
use mathlib.Core.List.{append_assoc, append-nil}
use libcoin.Base.{
  ℕ, ◌+◌, ◌<◌, ◌≡◌, inl, inr, refl, ap, ◌∙◌, true, false, [], ◌∷◌, ◌++◌, Bytes, arith, All, some,
  ◌==◌, Bool-cases, if◌then◌else◌,
}
use libcoin.Message.Header.{same_bytes}
use libcoin.Http.Url.{url_decode}
use libcoin.Http.Request.{Request, add_header}
use libcoin.Http.Parser.{
  RequestState, method, uri, http_version_h, http_version_t_1, space_before_header_value,
  expecting_newline_2, http_version_t_2, http_version_p, http_version_major_start,
  header_line_start, header_name, header_value, expecting_newline_1, http_version_slash,
  http_version_major, http_version_minor_start, http_version_minor, RequestParser, complete,
  pending, step, fresh, to_lower, no_token, is_ctl, is_tspecial, one_of, read_length,
  content_length, consume_state, consume_request, parse_request,
}

abbrev pub IsToken : ℕ → Type 0
IsToken c = no_token c ≡ false

token-ne : (c d : ℕ) → no_token d ≡ true → IsToken c → (c == d) ≡ false
token-ne c d special h = elim (Bool-cases (c == d)) [
  | inl same ↦ let is : c ≡ d = ground arith in absurd (let now : IsToken d = rw (← is) h in cc)
  | inr other ↦ other
]

space_no_token : no_token b' ' ≡ true
unfolding is_tspecial one_of
space_no_token = refl

colon_no_token : no_token b':' ≡ true
unfolding is_tspecial one_of
colon_no_token = refl

tab_no_token : no_token 9 ≡ true
tab_no_token = refl

return_no_token : no_token 13 ≡ true
return_no_token = refl

pub parse-pending :
    (p q : RequestParser) (r s : Request) (c : ℕ) (t : Bytes)
    → consume_request p r c ≡ step q s pending
    → parse_request p r (c ∷ t) ≡ parse_request q s t
unfolding parse_request
parse-pending p q r s c t e = rw e refl

pub parse-complete :
    (p q : RequestParser) (r s : Request) (c : ℕ) (t : Bytes)
    → consume_request p r c ≡ step q s complete
    → parse_request p r (c ∷ t) ≡ (step q s complete, t)
unfolding parse_request
parse-complete p q r s c t e = rw e refl

-- A field of the parser that takes one byte after the other from the stream.
gather :
    (P : ℕ → Type 0) (at : Bytes → RequestParser) (r : Request)
    → ((done : Bytes) (c : ℕ)
        → P c
        → consume_request (at done) r c ≡ step (at (done ++ c ∷ [])) r pending)
    → (done todo rest : Bytes) → All P todo
    → parse_request (at done) r (todo ++ rest) ≡ parse_request (at (done ++ todo)) r rest
gather P at r one done [] rest h = rw (append-nil done) refl
gather P at r one done (c ∷ cs) rest h =
    parse-pending (at done) (at (done ++ c ∷ [])) r r c (cs ++ rest) (one done c h.0)
    ∙ gather P at r one (done ++ c ∷ []) cs rest h.1
    ∙ ap (λ l. parse_request (at l) r rest) (append_assoc done (c ∷ []) cs)

-- The parser with no payload.
abbrev pub parser : RequestState → Bytes → Bytes → ℕ → ℕ → Bytes → Bytes → ℕ → RequestParser
parser s m u major minor n v a = record {
  state = s;
  method_bytes = m;
  uri_bytes = u;
  version_major = major;
  version_minor = minor;
  payload_bytes = [];
  name = n;
  value = v;
  announced = a;
}

pub parse_method :
    (r : Request) (c : ℕ) (cs rest : Bytes)
    → IsToken c
    → All IsToken cs
    → parse_request fresh r (c ∷ (cs ++ b' ' ∷ rest))
      ≡ parse_request (parser uri [] [] 0 0 [] [] 0) (record r { method = c ∷ cs }) rest
unfolding consume_state
parse_method r c cs rest h hs =
    parse-pending fresh (parser method (c ∷ []) [] 0 0 [] [] 0) r r c _ (rw h refl)
    ∙ gather IsToken (λ m. parser method m [] 0 0 [] [] 0) r
        (λ done d k. rw (token-ne d b' ' space_no_token k, k) refl) (c ∷ []) cs (b' ' ∷ rest) hs
    ∙ parse-pending (parser method (c ∷ cs) [] 0 0 [] [] 0) (parser uri [] [] 0 0 [] [] 0) r
        (record r { method = c ∷ cs }) b' ' rest refl

abbrev pub IsUriByte : ℕ → Type 0
IsUriByte c = (is_ctl c ≡ false) × ((c == b' ') ≡ false)

pub parse_uri :
    (r : Request) (u out rest : Bytes)
    → All IsUriByte u
    → url_decode u ≡ some out
    → parse_request (parser uri [] [] 0 0 [] [] 0) r (u ++ b' ' ∷ rest)
      ≡ parse_request (parser http_version_h [] [] 0 0 [] [] 0) (record r { uri = out }) rest
unfolding consume_state
parse_uri r u out rest h e =
    gather IsUriByte (λ m. parser uri [] m 0 0 [] [] 0) r (λ done d k. rw (k.1, k.0) refl) [] u
      (b' ' ∷ rest) h
    ∙ parse-pending (parser uri [] u 0 0 [] [] 0) (parser http_version_h [] [] 0 0 [] [] 0) r
        (record r { uri = out }) b' ' rest (rw e refl)

-- "HTTP/a.b" with the end of the line.
pub parse_version :
    (r : Request) (a b : ℕ) (rest : Bytes)
    → a < 10
    → b < 10
    → parse_request
        (parser http_version_h [] [] 0 0 [] [] 0)
        r
        (b'H' ∷ b'T' ∷ b'T' ∷ b'P' ∷ b'/' ∷ (b'0' + a) ∷ b'.' ∷ (b'0' + b) ∷ 13 ∷ 10 ∷ rest)
      ≡ parse_request
          (parser header_line_start [] [] a b [] [] 0)
          (record r { version_major = a; version_minor = b })
          rest
unfolding consume_state
parse_version r a b rest h k =
    parse-pending _ (parser http_version_t_1 [] [] 0 0 [] [] 0) r r b'H' _ refl
    ∙ parse-pending _ (parser http_version_t_2 [] [] 0 0 [] [] 0) r r b'T' _ refl
    ∙ parse-pending _ (parser http_version_p [] [] 0 0 [] [] 0) r r b'T' _ refl
    ∙ parse-pending _ (parser http_version_slash [] [] 0 0 [] [] 0) r r b'P' _ refl
    ∙ parse-pending _ (parser http_version_major_start [] [] 0 0 [] [] 0) r r b'/' _ refl
    ∙ parse-pending (parser http_version_major_start [] [] 0 0 [] [] 0)
        (parser http_version_major [] [] a 0 [] [] 0) r r (b'0' + a) _ (ground arith)
    ∙ parse-pending _ (parser http_version_minor_start [] [] a 0 [] [] 0) r r b'.' _ refl
    ∙ parse-pending (parser http_version_minor_start [] [] a 0 [] [] 0)
        (parser http_version_minor [] [] a b [] [] 0) r r (b'0' + b) _ (ground arith)
    ∙ parse-pending _ (parser expecting_newline_1 [] [] a b [] [] 0) r
        (record r { version_major = a; version_minor = b }) 13 _ refl
    ∙ parse-pending _ (parser header_line_start [] [] a b [] [] 0)
        (record r { version_major = a; version_minor = b })
        (record r { version_major = a; version_minor = b }) 10 rest refl

-- A byte of a name of a header, and one of a value: the parser puts both in lower case.
abbrev pub IsNameByte : ℕ → Type 0
IsNameByte c = IsToken c × (to_lower c ≡ c)

abbrev pub IsValueByte : ℕ → Type 0
IsValueByte c = (is_ctl c ≡ false) × (to_lower c ≡ c)

-- The length that is announced after a header with this name and value.
abbrev pub announce : Bytes → Bytes → ℕ → ℕ
announce n v before = if same_bytes n content_length then read_length v else before

pub parse_header :
    (r : Request) (a b l : ℕ) (old before : Bytes) (c : ℕ) (cs v rest : Bytes)
    → IsNameByte c
    → All IsNameByte cs
    → All IsValueByte v
    → parse_request
        (parser header_line_start [] [] a b old before l)
        r
        (c ∷ (cs ++ b':' ∷ b' ' ∷ (v ++ 13 ∷ 10 ∷ rest)))
      ≡ parse_request
          (parser header_line_start [] [] a b (c ∷ cs) v (announce (c ∷ cs) v l))
          (add_header (c ∷ cs) v r)
          rest
unfolding consume_state
parse_header r a b l old before c cs v rest h hs k =
    parse-pending (parser header_line_start [] [] a b old before l)
      (parser header_name [] [] a b (c ∷ []) before l) r r c _
      (ground (
        arith,
        token-ne c 13 return_no_token h.0,
        token-ne c b' ' space_no_token h.0,
        token-ne c 9 tab_no_token h.0,
      ))
    ∙ gather IsNameByte (λ n. parser header_name [] [] a b n before l) r
        (λ done d i. rw (token-ne d b':' colon_no_token i.0, i.0, i.1) refl) (c ∷ []) cs _ hs
    ∙ parse-pending _ (parser space_before_header_value [] [] a b (c ∷ cs) before l) r r b':' _ refl
    ∙ parse-pending _ (parser header_value [] [] a b (c ∷ cs) [] l) r r b' ' _ refl
    ∙ gather IsValueByte (λ w. parser header_value [] [] a b (c ∷ cs) w l) r
        (λ done d i. ground arith) [] v (13 ∷ 10 ∷ rest) k
    ∙ parse-pending _ (parser expecting_newline_2 [] [] a b (c ∷ cs) v (announce (c ∷ cs) v l)) r
        (add_header (c ∷ cs) v r) 13 _ refl
    ∙ parse-pending _ (parser header_line_start [] [] a b (c ∷ cs) v (announce (c ∷ cs) v l))
        (add_header (c ∷ cs) v r) (add_header (c ∷ cs) v r) 10 rest refl
