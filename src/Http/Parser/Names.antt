-- ===== src/Http/Parser/Names.antt =====
-- The names of the headers that the parser stores, and the ones that src/coinHTTP/Connection.cpp looks
-- for in `log_request`.
use libcoin.Base.{ℕ, ◌≡◌, inl, inr, refl, true, [], ◌∷◌, ◌++◌, Bytes, arith, All, none, Bool-cases}
use libcoin.Message.Header.{same_bytes}
use libcoin.Http.Request.{Headers, no_headers, header, Request, set_header, find_header}
use libcoin.Http.Parser.{
  RequestState, RequestParser, Progress, complete, refused, pending, overflow, Step, to_lower,
  consume_state, consume_request, stop_or, parse_request,
}

abbrev pub IsLower : Bytes → Type 0
IsLower = All (λ c. to_lower c ≡ c)

abbrev pub HasLowerNames : Headers → Type 0
HasLowerNames no_headers = Unit
HasLowerNames (header f v rest) = IsLower f × HasLowerNames rest

to_lower-to_lower : (c : ℕ) → to_lower (to_lower c) ≡ to_lower c
unfolding to_lower
to_lower-to_lower c = ground arith

IsLower-snoc : (xs : Bytes) (c : ℕ) → IsLower xs → IsLower (xs ++ to_lower c ∷ [])
IsLower-snoc [] c h = (to_lower-to_lower c, tt)
IsLower-snoc (x ∷ xs) c h = (h.0, IsLower-snoc xs c h.1)

set_header-HasLowerNames :
    (f v : Bytes) (hs : Headers) → IsLower f → HasLowerNames hs → HasLowerNames (set_header f v hs)
unfolding set_header
set_header-HasLowerNames f v no_headers l h = (l, tt)
set_header-HasLowerNames f v (header g w rest) l h =
    ground (arith, set_header-HasLowerNames f v rest l h.1)

consume_state-HasLowerNames :
    (s : RequestState) (p : RequestParser) (r : Request) (c : ℕ)
    → IsLower p.name
    → HasLowerNames r.headers
    → let o = consume_state s p r c in IsLower o.parser.name × HasLowerNames o.request.headers
unfolding consume_state
consume_state-HasLowerNames _ p r c l h = ground (
  arith,
  to_lower-to_lower c,
  IsLower-snoc p.name c l,
  set_header-HasLowerNames p.name p.value r.headers l h,
)

same_bytes-IsLower : (f g : Bytes) → same_bytes f g ≡ true → IsLower g → IsLower f
unfolding same_bytes
same_bytes-IsLower [] [] e h = tt
same_bytes-IsLower [] (y ∷ ys) e h = tt
same_bytes-IsLower (x ∷ xs) [] e h = cc
same_bytes-IsLower (x ∷ xs) (y ∷ ys) e h =
    let rest = same_bytes-IsLower xs ys (ground arith) h.1 in
    let same : x ≡ y = ground arith in (rw same h.0, rest)

find_header-HasLowerNames :
    (field : Bytes) (hs : Headers)
    → HasLowerNames hs
    → (IsLower field → ⊥)
    → find_header field hs ≡ none
unfolding find_header
find_header-HasLowerNames field no_headers h capital = refl
find_header-HasLowerNames field (header f v rest) h capital =
    elim (Bool-cases (same_bytes field f)) [
      | inl same ↦ absurd (capital (same_bytes-IsLower field f same h.0))
      | inr other ↦ rw other (find_header-HasLowerNames field rest h.1 capital)
    ]

stop_or-HasLowerNames :
    (v : Progress) (o : Step) (cs : Bytes)
    → HasLowerNames o.request.headers
    → HasLowerNames (parse_request o.parser o.request cs).0.request.headers
    → HasLowerNames (stop_or v (o, cs) (parse_request o.parser o.request cs)).0.request.headers
stop_or-HasLowerNames pending o cs now later = later
stop_or-HasLowerNames complete o cs now later = now
stop_or-HasLowerNames refused o cs now later = now
stop_or-HasLowerNames overflow o cs now later = now

parse_request-HasLowerNames :
    (cs : Bytes) (p : RequestParser) (r : Request)
    → IsLower p.name
    → HasLowerNames r.headers
    → HasLowerNames (parse_request p r cs).0.request.headers
unfolding parse_request
parse_request-HasLowerNames [] p r l h = h
parse_request-HasLowerNames (c ∷ cs) p r l h =
    let o = consume_request p r c in
    let kept = consume_state-HasLowerNames p.state p r c l h in
    stop_or-HasLowerNames o.progress o cs kept.1
      (parse_request-HasLowerNames cs o.parser o.request kept.0 kept.1)

-- A header under a name with a capital letter is never found in a request that the parser read, from
-- whatever bytes: `log_request` finds no "Authorization", "Referer" or "User-Agent".
pub find_header-parse_request :
    (field cs : Bytes) (p : RequestParser) (r : Request)
    → IsLower p.name
    → HasLowerNames r.headers
    → ¬ IsLower field
    → find_header field (parse_request p r cs).0.request.headers ≡ none
find_header-parse_request field cs p r l h capital =
    find_header-HasLowerNames field (parse_request p r cs).0.request.headers
      (parse_request-HasLowerNames cs p r l h) capital
