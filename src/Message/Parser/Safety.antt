-- ===== src/Message/Parser/Safety.antt =====
-- What the parser keeps, what it delivers, and where it fails to.
use libcoin.Base.{
  ℕ, ◌<◌, ◌≡◌, ◌≢◌, ◌⊎◌, refl, true, false, not, ◌||◌, [], ◌∷◌, Bytes, length, take, arith,
  length-append,
}
use libcoin.Message.Header.{Message, is_valid, word_of, same_bytes, set_checksum}
use libcoin.Message.Parser.{
  State, start_1, command, messagesize, checksum, payload, MessageParser, Verdict, accept, reject,
  indeterminate, overrun, Outcome, consume, consume_in, continue_or, parse,
}

module _ (now : ℕ) (chain_magic : Bytes) (hash : Bytes → Bytes) where
  -- What each state knows: the counter is inside the field that is read, and a payload is read
  -- behind a valid header only, and is short of its size.
  abbrev pub Inv : State → MessageParser → Message → Type 0
  Inv command p m = p.counter < 12
  Inv messagesize p m = p.counter < 4
  Inv checksum p m = p.counter < 4
  Inv payload p m =
      (is_valid chain_magic m.header ≡ true) × (length m.payload < word_of m.header.message_size)
  Inv _ p m = Unit

  -- What `consume` guarantees for each result, `old` being the payload before the call.
  abbrev pub Ensures : Verdict → Bytes → MessageParser → Message → Type 0
  Ensures indeterminate old p m = Inv p.state p m
  Ensures reject old p m = Unit
  Ensures overrun old p m = ⊥
  Ensures accept old p m =
      (p.state ≡ start_1)
      × (is_valid chain_magic m.header ≡ true)
      × (((word_of m.header.message_size ≡ 0) × (m.payload ≡ old))
          ⊎ ((length m.payload ≡ word_of m.header.message_size)
              × ((not p.checked || same_bytes (take 4 (hash m.payload)) m.header.checksum) ≡ true)))

  consume_in-Ensures :
      (s : State) (p : MessageParser) (m : Message) (input : ℕ)
      → p.state ≡ s
      → Inv s p m
      → let o = consume_in now chain_magic hash s p m input in
        Ensures o.result m.payload o.parser o.message
  unfolding consume_in
  consume_in-Ensures payload p m input e h = ground (arith, length-append m.payload (input ∷ []))
  consume_in-Ensures _ p m input e h = ground arith

  -- While `Inv` holds each byte keeps it or ends the message. No byte is written outside a field, and
  -- an accepted message has a valid header and, unless its size is 0, a payload of that size with the
  -- checksum of the header, where the message has one. A message of size 0 is accepted without a look
  -- at its checksum, with the payload that was there before.
  pub consume-Ensures :
      (p : MessageParser) (m : Message) (input : ℕ)
      → Inv p.state p m
      → let o = consume now chain_magic hash p m input in
        Ensures o.result m.payload o.parser o.message
  consume-Ensures p m input = consume_in-Ensures p.state p m input refl

  -- What a caller of `parse` may rely on where the result is `accept`.
  pub record IsDelivered (o : Outcome) : Type 0 where
    pub valid : is_valid chain_magic o.message.header ≡ true
    pub complete :
        (word_of o.message.header.message_size ≡ 0)
        ⊎ (length o.message.payload ≡ word_of o.message.header.message_size)
    pub restarted : o.parser.state ≡ start_1

  abbrev Good : Outcome → Type 0
  Good o = (o.result ≢ overrun) × (o.result ≡ accept → IsDelivered o)

  parse_step :
      (v : Verdict) (o : Outcome) (s old : Bytes)
      → o.result ≡ v
      → Ensures v old o.parser o.message
      → (Inv o.parser.state o.parser o.message
          → Good (parse now chain_magic hash o.parser o.message s).0)
      → Good (continue_or v (o, s) (parse now chain_magic hash o.parser o.message s)).0
  parse_step indeterminate o s old r e ih = ih e
  parse_step accept o s old r e ih = ((λ k. cc), (λ _. ground arith))
  parse_step reject o s old r e ih = ((λ k. cc), (λ k. cc))
  parse_step overrun o s old r e ih = absurd e

  parse-Good :
      (s : Bytes) (p : MessageParser) (m : Message)
      → Inv p.state p m
      → Good (parse now chain_magic hash p m s).0
  unfolding parse
  parse-Good [] p m h = ((λ e. cc), (λ e. cc))
  parse-Good (c ∷ s) p m h =
      let o = consume now chain_magic hash p m c in
      parse_step o.result o s m.payload refl (consume-Ensures p m c h)
        (λ k. parse-Good s o.parser o.message k)

  -- Whatever bytes arrive, a run of `parse` from a good state writes outside no field.
  pub parse-ne-overrun :
      (s : Bytes) (p : MessageParser) (m : Message)
      → Inv p.state p m
      → (parse now chain_magic hash p m s).0.result ≢ overrun
  parse-ne-overrun s p m h = (parse-Good s p m h).0

  -- Whatever bytes arrive, a message that a run of `parse` from a good state accepts has a valid
  -- header and, unless its size is 0, a payload of that size; and the parser is back at the start.
  pub parse-IsDelivered :
      (s : Bytes) (p : MessageParser) (m : Message)
      → Inv p.state p m
      → (parse now chain_magic hash p m s).0.result ≡ accept
      → IsDelivered (parse now chain_magic hash p m s).0
  parse-IsDelivered s p m h e = (parse-Good s p m h).1 e

  -- A header that is not valid is rejected with the parser left where it is: the byte after it is
  -- written past the end of the header, if the caller goes on parsing.
  pub invalid_header_overrun :
      (p : MessageParser) (m : Message) (c d : ℕ)
      → p.state ≡ checksum
      → p.counter ≡ 3
      → is_valid chain_magic (set_checksum 3 c m).header ≡ false
      → let o = consume now chain_magic hash p m c in
        (o.result ≡ reject) × ((consume now chain_magic hash o.parser o.message d).result ≡ overrun)
  unfolding consume_in
  invalid_header_overrun p m c d e f g = ground arith
