-- ===== src/Tests/Requests.antt =====
-- Requests as a browser sends them.
use libcoin.Base.{◌≡◌, refl, [], ◌∷◌, Bytes, some, arith}
use libcoin.Http.Url.{url_decode, hex_digit}
use libcoin.Http.Url.Laws.{done, plain, plus, percent, url_decode-Encodes}
use libcoin.Http.Request.{no_headers, header, Request}
use libcoin.Http.Parser.{
  payload, RequestParser, fresh, consume_request, parse_request, to_lower, content_length, step,
  is_tspecial, one_of, read_length, more_decimals, complete, content_length, step, is_tspecial,
  one_of, read_length, more_decimals, to_lower,
}
use libcoin.Message.Header.{same_bytes}
use libcoin.Http.Parser.Frame.{
  Printed, print_request, IsPrintable, add_headers, parse_request-print_request,
}
use libcoin.Http.Parser.Safety.{Ensures, consume_request-Ensures}
use libcoin.Http.Parser.Names.{IsLower}

-- "a+%2f"
abbrev encoded : Bytes
encoded = b'a' ∷ b'+' ∷ b'%' ∷ b'2' ∷ b'f' ∷ []

url_decode-Encodes_example : url_decode encoded ≡ some (b'a' ∷ b' ' ∷ b'/' ∷ [])
unfolding hex_digit
url_decode-Encodes_example =
    url_decode-Encodes encoded (b'a' ∷ b' ' ∷ b'/' ∷ [])
      (plain (omega arith) (omega arith) (plus (percent refl refl done)))

abbrev blank : Request
blank = record {
  method = [];
  uri = [];
  version_major = 0;
  version_minor = 0;
  headers = no_headers;
  content = [];
}

abbrev reading : RequestParser
reading = record fresh { state = payload; announced = 1 }

consume_request-Ensures_example :
    let o = consume_request reading blank 65 in Ensures o.progress reading blank o
consume_request-Ensures_example = consume_request-Ensures reading blank 65 (omega arith)

-- "Authorization" begins with a capital letter.
abbrev field : Bytes
field = b'A' ∷ b'u' ∷ []

field-ne-IsLower : ¬ IsLower field
unfolding to_lower
field-ne-IsLower h = ground arith

-- "GET / HTTP/1.1", "content-length: 2" and "ok".
abbrev page : Printed
page = record {
  first = b'G';
  more = b'E' ∷ b'T' ∷ [];
  target = b'/' ∷ [];
  major = 1;
  minor = 1;
  lines = header content_length (b'2' ∷ []) no_headers;
  body = b'o' ∷ b'k' ∷ [];
}

page-IsPrintable : IsPrintable page (b'/' ∷ [])
unfolding url_decode is_tspecial one_of to_lower read_length more_decimals same_bytes
page-IsPrintable = record {
  method = (refl, (refl, (refl, tt)));
  target = ((refl, refl), tt);
  decoded = refl;
  major = omega arith;
  minor = omega arith;
  lines = (
    (λ e. cc),
    (
      (refl, refl),
      (
        (refl, refl),
        (
          (refl, refl),
          (
            (refl, refl),
            (
              (refl, refl),
              (
                (refl, refl),
                (
                  (refl, refl),
                  (
                    (refl, refl),
                    (
                      (refl, refl),
                      (
                        (refl, refl),
                        ((refl, refl), ((refl, refl), ((refl, refl), ((refl, refl), tt)))),
                      ),
                    ),
                  ),
                ),
              ),
            ),
          ),
        ),
      ),
    ),
    ((refl, refl), tt),
    tt,
  );
  body = refl;
}

parse_request-print_request_example : parse_request fresh blank (print_request page (b'!' ∷ [])) ≡ (
  step fresh
      (record (add_headers page.lines (record blank {
        method = b'G' ∷ b'E' ∷ b'T' ∷ [];
        uri = b'/' ∷ [];
        version_major = 1;
        version_minor = 1;
      })) { content = b'o' ∷ b'k' ∷ [] })
      complete,
  b'!' ∷ [],
)
parse_request-print_request_example =
    parse_request-print_request page (b'/' ∷ []) (b'!' ∷ []) blank page-IsPrintable
