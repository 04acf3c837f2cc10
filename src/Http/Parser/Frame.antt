-- ===== src/Http/Parser/Frame.antt =====
-- A request as a client prints it, and what the parser makes of it.
use mathlib.Core.List.{append_assoc}
use libcoin.Base.{
  ℕ, suc, ◌+◌, ◌<◌, ◌≡◌, ◌≢◌, refl, ap, ◌∙◌, [], ◌∷◌, ◌++◌, Bytes, length, arith, length-append,
  All, some,
}
use libcoin.Http.Url.{url_decode}
use libcoin.Http.Request.{Headers, no_headers, header, Request, add_header}
use libcoin.Http.Parser.{
  header_line_start, expecting_newline_3, payload, complete, step, fresh, consume_state,
  parse_request,
}
use libcoin.Http.Parser.Lines.{
  IsToken, IsUriByte, IsNameByte, IsValueByte, announce, parse-pending, parse-complete, parser,
  parse_method, parse_uri, parse_version, parse_header,
}

-- The lines of the headers, and what they leave.
abbrev pub print_headers : Headers → Bytes → Bytes
print_headers no_headers rest = rest
print_headers (header n v hs) rest = n ++ b':' ∷ b' ' ∷ (v ++ 13 ∷ 10 ∷ print_headers hs rest)

abbrev pub add_headers : Headers → Request → Request
add_headers no_headers r = r
add_headers (header n v hs) r = add_headers hs (add_header n v r)

abbrev pub announced_by : Headers → ℕ → ℕ
announced_by no_headers l = l
announced_by (header n v hs) l = announced_by hs (announce n v l)

abbrev pub ArePrintable : Headers → Type 0
ArePrintable no_headers = Unit
ArePrintable (header n v hs) = (n ≢ []) × All IsNameByte n × All IsValueByte v × ArePrintable hs

-- Some name and value are left in the parser when the headers are read.
parse_headers :
    (hs : Headers) (r : Request) (a b l : ℕ) (name value rest : Bytes)
    → ArePrintable hs
    → (n : Bytes) × (v : Bytes) × (parse_request
          (parser header_line_start [] [] a b name value l)
          r
          (print_headers hs rest)
        ≡ parse_request
            (parser header_line_start [] [] a b n v (announced_by hs l))
            (add_headers hs r)
            rest)
parse_headers no_headers r a b l name value rest h = (name, value, refl)
parse_headers (header [] v hs) r a b l name value rest h = absurd (h.0 refl)
parse_headers (header (c ∷ cs) v hs) r a b l name value rest h =
    let (n, w, e) =
      parse_headers hs (add_header (c ∷ cs) v r) a b (announce (c ∷ cs) v l) (c ∷ cs) v rest h.3 in
    (n, w, parse_header r a b l name value c cs v (print_headers hs rest) h.1.0 h.1.1 h.2 ∙ e)

-- The content, of which `done` is read.
parse_content :
    (r : Request) (a b l : ℕ) (n v done todo rest : Bytes) (c : ℕ)
    → length done + suc (length todo) ≡ l
    → parse_request
        (record (parser payload [] [] a b n v l) { payload_bytes = done })
        r
        (c ∷ (todo ++ rest))
      ≡ (step fresh (record r { content = done ++ c ∷ todo }) complete, rest)
unfolding consume_state
parse_content r a b l n v done [] rest c e =
    parse-complete (record (parser payload [] [] a b n v l) { payload_bytes = done }) fresh r
      (record r { content = done ++ c ∷ [] }) c rest (ground (arith, length-append done (c ∷ [])))
parse_content r a b l n v done (d ∷ todo) rest c e =
    parse-pending (record (parser payload [] [] a b n v l) { payload_bytes = done })
      (record (parser payload [] [] a b n v l) { payload_bytes = done ++ c ∷ [] }) r r c
      (d ∷ (todo ++ rest)) (ground (arith, length-append done (c ∷ [])))
    ∙ parse_content r a b l n v (done ++ c ∷ []) todo rest d
        (omega (arith, length-append done (c ∷ [])))
    ∙ ap (λ x. (step fresh (record r { content = x }) complete, rest))
        (append_assoc done (c ∷ []) (d ∷ todo))

-- The empty line and the content.
parse_body :
    (r : Request) (a b l : ℕ) (n v body rest : Bytes)
    → length body ≡ l
    → parse_request (parser header_line_start [] [] a b n v l) r (13 ∷ 10 ∷ (body ++ rest))
      ≡ (step fresh (record r { content = body }) complete, rest)
unfolding consume_state
parse_body r a b l n v [] rest e =
    parse-pending _ (parser expecting_newline_3 [] [] a b n v l) r r 13 _ refl
    ∙ parse-complete (parser expecting_newline_3 [] [] a b n v l) fresh r
        (record r { content = [] }) 10 rest (ground arith)
parse_body r a b l n v (c ∷ body) rest e =
    parse-pending _ (parser expecting_newline_3 [] [] a b n v l) r r 13 _ refl
    ∙ parse-pending (parser expecting_newline_3 [] [] a b n v l) (parser payload [] [] a b n v l) r
        r 10 _ (ground arith)
    ∙ parse_content r a b l n v [] body rest c (omega arith)

-- What a client prints: the request line, the headers, and the content.
pub record Printed : Type 0 where
  pub first : ℕ
  pub more : Bytes
  pub target : Bytes
  pub major : ℕ
  pub minor : ℕ
  pub lines : Headers
  pub body : Bytes

abbrev pub print_request : Printed → Bytes → Bytes
print_request q rest =
    q.first
    ∷ (q.more
        ++ b' '
          ∷ (q.target
              ++ b' '
                ∷ b'H'
                ∷ b'T'
                ∷ b'T'
                ∷ b'P'
                ∷ b'/'
                ∷ (b'0' + q.major)
                ∷ b'.'
                ∷ (b'0' + q.minor)
                ∷ 13
                ∷ 10
                ∷ print_headers q.lines (13 ∷ 10 ∷ (q.body ++ rest))))

pub record IsPrintable (q : Printed) (out : Bytes) : Type 0 where
  pub method : All IsToken (q.first ∷ q.more)
  pub target : All IsUriByte q.target
  pub decoded : url_decode q.target ≡ some out
  pub major : q.major < 10
  pub minor : q.minor < 10
  pub lines : ArePrintable q.lines
  pub body : length q.body ≡ announced_by q.lines 0

-- A request as a client prints it is complete at its last byte: the method, the decoded URI, the
-- version, the headers and the content are those printed, the parser is as new, and the bytes that
-- follow are left. The method and the names of the headers are tokens and not empty, the URI has no
-- space or control byte and can be decoded, the numbers of the version have one digit, the names and
-- values of the headers are in lower case, and the content has the length that they announce.
pub parse_request-print_request :
    (q : Printed) (out rest : Bytes) (r : Request)
    → IsPrintable q out
    → parse_request fresh r (print_request q rest) ≡ (
      step fresh
          (record (add_headers q.lines (record r {
            method = q.first ∷ q.more;
            uri = out;
            version_major = q.major;
            version_minor = q.minor;
          })) { content = q.body })
          complete,
      rest,
    )
parse_request-print_request q out rest r h =
    let line = record r { method = q.first ∷ q.more } in
    let found = record line { uri = out } in
    let start = record found { version_major = q.major; version_minor = q.minor } in
    let (n, v, read) =
      parse_headers q.lines start q.major q.minor 0 [] [] (13 ∷ 10 ∷ (q.body ++ rest)) h.lines in
    parse_method r q.first q.more _ h.method.0 h.method.1
    ∙ parse_uri line q.target out _ h.target h.decoded
    ∙ parse_version found q.major q.minor _ h.major h.minor
    ∙ read
    ∙ parse_body (add_headers q.lines start) q.major q.minor _ n v q.body rest h.body
