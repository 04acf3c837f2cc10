-- ===== src/Http/Parser/Safety.antt =====
-- What the parser keeps and what it delivers.
use libcoin.Base.{ℕ, ◌<◌, ◌≡◌, ◌⊎◌, refl, [], ◌∷◌, Bytes, length, arith, length-append}
use libcoin.Http.Request.{Request}
use libcoin.Http.Parser.{
  RequestState, payload, RequestParser, Progress, complete, refused, pending, overflow, Step, fresh,
  consume_state, consume_request, stop_or, parse_request,
}

-- No byte of a payload is kept outside the state that reads it, and there it is short of its length.
abbrev pub Inv : RequestState → RequestParser → Type 0
Inv payload p = length p.payload_bytes < p.announced
Inv _ p = p.payload_bytes ≡ []

-- What a call in the parser `p` with the request `r` guarantees for each result.
abbrev pub Ensures : Progress → RequestParser → Request → Step → Type 0
Ensures pending p r o = Inv o.parser.state o.parser
Ensures complete p r o = (o.parser ≡ fresh) × (length o.request.content ≡ p.announced)
Ensures refused p r o = ((o.parser ≡ fresh) ⊎ (o.parser ≡ p)) × (o.request ≡ r)
Ensures overflow p r o = o.request ≡ r

consume_state-Ensures :
    (s : RequestState) (p : RequestParser) (r : Request) (c : ℕ)
    → p.state ≡ s
    → Inv s p
    → let o = consume_state s p r c in Ensures o.progress p r o
unfolding consume_state
consume_state-Ensures payload p r c e h = ground (arith, length-append p.payload_bytes (c ∷ []))
consume_state-Ensures _ p r c e h = ground arith

-- One byte from a good parser: a request that is complete has a content of the announced length and
-- leaves the parser as new; one that is refused leaves the request as it was, and the parser as new or
-- as it was; where an `int` overflows the request is as it was; and where more is wanted the parser is
-- good again.
pub consume_request-Ensures :
    (p : RequestParser) (r : Request) (c : ℕ)
    → Inv p.state p
    → let o = consume_request p r c in Ensures o.progress p r o
consume_request-Ensures p r c h = consume_state-Ensures p.state p r c refl h

parse_step :
    (v : Progress) (p : RequestParser) (r : Request) (o : Step) (cs : Bytes)
    → o.progress ≡ v
    → Ensures v p r o
    → (Inv o.parser.state o.parser
        → (parse_request o.parser o.request cs).0.progress ≡ complete
        → (parse_request o.parser o.request cs).0.parser ≡ fresh)
    → (stop_or v (o, cs) (parse_request o.parser o.request cs)).0.progress ≡ complete
    → (stop_or v (o, cs) (parse_request o.parser o.request cs)).0.parser ≡ fresh
parse_step pending p r o cs e h ih done = ih h done
parse_step complete p r o cs e h ih done = h.0
parse_step refused p r o cs e h ih done = cc
parse_step overflow p r o cs e h ih done = cc

-- Whatever bytes a good parser reads, after a complete request it is as new, ready for the next one.
pub parse_request-fresh :
    (cs : Bytes) (p : RequestParser) (r : Request)
    → Inv p.state p
    → (parse_request p r cs).0.progress ≡ complete
    → (parse_request p r cs).0.parser ≡ fresh
unfolding parse_request
parse_request-fresh [] p r h done = cc
parse_request-fresh (c ∷ cs) p r h done =
    let o = consume_request p r c in
    parse_step o.progress p r o cs refl (consume_request-Ensures p r c h)
      (parse_request-fresh cs o.parser o.request) done
