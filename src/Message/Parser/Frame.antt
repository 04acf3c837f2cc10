-- ===== src/Message/Parser/Frame.antt =====
-- A framed message is read back: the header field by field, then the payload.
use mathlib.Core.List.{append_assoc}
use libcoin.Base.{
  ℕ, zero, suc, ◌+◌, ◌<◌, ◌≡◌, ◌≢◌, ◌∙◌, ap, refl, sym, Bool, true, [], ◌∷◌, ◌++◌, Bytes, length,
  take, set, arith, length-append,
}
use libcoin.Message.Header.{
  Message, MessageHeader, is_valid, word_of, same_bytes, HeaderFits, write_header,
}
use libcoin.Message.Parser.{
  State, start_1, command, messagesize, checksum, payload, MessageParser, accept, indeterminate,
  Outcome, checksum_since, consume, consume_in, parse,
}

pub set-append :
    (done junk : Bytes) (j c n : ℕ)
    → n ≡ length done
    → set (done ++ j ∷ junk) n c ≡ done ++ c ∷ junk
set-append [] junk j c zero e = refl
set-append [] junk j c (suc n) e = absurd (omega arith)
set-append (d ∷ done) junk j c zero e = absurd (omega arith)
set-append (d ∷ done) junk j c (suc n) e = ap (◌∷◌ d) (set-append done junk j c n (omega arith))

same_bytes_self : (s : Bytes) → same_bytes s s ≡ true
unfolding same_bytes
same_bytes_self [] = refl
same_bytes_self (c ∷ s) = ground (arith, same_bytes_self s)

-- A field of `n` bytes is filled from the stream by a counter: `more` is a byte that leaves some of
-- the old field, `last` the byte that fills it.
fill {ℓ} :
    {R : Type ℓ} (run : ℕ → Bytes → Bytes → R) (final : Bytes → Bytes → R) (n : ℕ)
    → ((done junk t : Bytes) (j k c : ℕ)
        → length done + suc (suc (length junk)) ≡ n
        → run (length done) (done ++ j ∷ k ∷ junk) (c ∷ t)
          ≡ run (suc (length done)) (done ++ c ∷ k ∷ junk) t)
    → ((done t : Bytes) (j c : ℕ)
        → length done + 1 ≡ n
        → run (length done) (done ++ j ∷ []) (c ∷ t) ≡ final (done ++ c ∷ []) t)
    → (todo junk done t : Bytes) (c : ℕ) → length junk ≡ suc (length todo)
    → length done + suc (length todo) ≡ n
    → run (length done) (done ++ junk) (c ∷ (todo ++ t)) ≡ final (done ++ c ∷ todo) t
fill run final n more last todo [] done t c e f = absurd (omega arith)
fill run final n more last [] (j ∷ []) done t c e f = last done t j c (omega arith)
fill run final n more last [] (j ∷ k ∷ junk) done t c e f = absurd (omega arith)
fill run final n more last (d ∷ todo) (j ∷ []) done t c e f = absurd (omega arith)
fill run final n more last (d ∷ todo) (j ∷ k ∷ junk) done t c e f =
    more done junk (d ∷ (todo ++ t)) j k c (omega arith)
    ∙ (rw (append_assoc done (c ∷ []) (k ∷ junk), append_assoc done (c ∷ []) (d ∷ todo), grown) at
        (fill run final n more last todo (k ∷ junk) (done ++ c ∷ []) t d (omega arith)
          (omega (arith, length-append done (c ∷ [])))))
  where
    grown : length (done ++ c ∷ []) ≡ suc (length done)
    grown = omega (arith, length-append done (c ∷ []))

abbrev parser : State → ℕ → Bool → MessageParser
parser s n checked = record { state = s; counter = n; checked = checked }

abbrev message : Bytes → Bytes → Bytes → Bytes → Bytes → Message
message magic name size sum body = record {
  header = record { magic = magic; pch_command = name; message_size = size; checksum = sum };
  payload = body;
}

uncons :
    (l : Bytes) (n : ℕ) → length l ≡ suc n → (c : ℕ) × (r : Bytes) × (l ≡ c ∷ r) × (length r ≡ n)
uncons [] n e = absurd (omega arith)
uncons (c ∷ r) n e = (c, r, refl, omega arith)

four : (l : Bytes) → length l ≡ 4 → (a : ℕ) × (b : ℕ) × (c : ℕ) × (d : ℕ) × (l ≡ a ∷ b ∷ c ∷ d ∷ [])
four (a ∷ b ∷ c ∷ d ∷ []) e = (a, b, c, d, refl)
four _ e = absurd (omega arith)

same_bytes→≡ : (a b : Bytes) → same_bytes a b ≡ true → a ≡ b
unfolding same_bytes
same_bytes→≡ (x ∷ a) (y ∷ b) e = ground (arith, same_bytes→≡ a b)
same_bytes→≡ [] [] e = refl
same_bytes→≡ _ _ e = cc

module _ (now : ℕ) (chain_magic : Bytes) (hash : Bytes → Bytes) where
  abbrev run : MessageParser → Message → Bytes → Outcome × Bytes
  run = parse now chain_magic hash

  -- A byte that is consumed with no result.
  parse-indeterminate :
      (p q : MessageParser) (m n : Message) (c : ℕ) (t : Bytes)
      → consume now chain_magic hash p m c
        ≡ record { parser = q; message = n; result = indeterminate }
      → run p m (c ∷ t) ≡ run q n t
  unfolding parse
  parse-indeterminate p q m n c t e = rw e refl

  parse-accept :
      (p q : MessageParser) (m n : Message) (c : ℕ) (t : Bytes)
      → consume now chain_magic hash p m c ≡ record { parser = q; message = n; result = accept }
      → run p m (c ∷ t) ≡ (record { parser = q; message = n; result = accept }, t)
  unfolding parse
  parse-accept p q m n c t e = rw e refl

  -- The command field.
  parse_command :
      (magic size sum old : Bytes) (checked : Bool) (c : ℕ) (todo junk t : Bytes)
      → length junk ≡ 12
      → length todo ≡ 11
      → checksum_since < now
      → run (parser command 0 checked) (message magic junk size sum old) (c ∷ (todo ++ t))
        ≡ run (parser messagesize 0 true) (message magic (c ∷ todo) size sum old) t
  unfolding consume_in
  parse_command magic size sum old checked c todo junk t e f since =
      fill (λ i field s. run (parser command i checked) (message magic field size sum old) s)
        (λ field s. run (parser messagesize 0 true) (message magic field size sum old) s) 12
        (λ done junk t j k c n.
          parse-indeterminate _ _ _ _ c t
            (rw (set-append done (k ∷ junk) j c _ refl) (ground arith)))
        (λ done t j c n.
          parse-indeterminate _ _ _ _ c t (rw (set-append done [] j c _ refl) (ground arith)))
        todo junk [] t c (omega arith) (omega arith)

  parse_messagesize :
      (magic name sum old : Bytes) (c : ℕ) (todo junk t : Bytes)
      → length junk ≡ 4
      → length todo ≡ 3
      → run (parser messagesize 0 true) (message magic name junk sum old) (c ∷ (todo ++ t))
        ≡ run (parser checksum 0 true) (message magic name (c ∷ todo) sum old) t
  unfolding consume_in
  parse_messagesize magic name sum old c todo junk t e f =
      fill (λ i field s. run (parser messagesize i true) (message magic name field sum old) s)
        (λ field s. run (parser checksum 0 true) (message magic name field sum old) s) 4
        (λ done junk t j k c n.
          parse-indeterminate _ _ _ _ c t
            (rw (set-append done (k ∷ junk) j c _ refl) (ground arith)))
        (λ done t j c n.
          parse-indeterminate _ _ _ _ c t (rw (set-append done [] j c _ refl) (ground arith)))
        todo junk [] t c (omega arith) (omega arith)

  -- The checksum, behind which a valid header leads to the payload.
  parse_checksum :
      (magic name size old : Bytes) (c : ℕ) (todo junk t : Bytes)
      → length junk ≡ 4
      → length todo ≡ 3
      → is_valid chain_magic (message magic name size [] []).header ≡ true
      → 0 < word_of size
      → run (parser checksum 0 true) (message magic name size junk old) (c ∷ (todo ++ t))
        ≡ run (parser payload 0 true) (message magic name size (c ∷ todo) []) t
  unfolding consume_in is_valid
  parse_checksum magic name size old c todo junk t e f valid filled =
      fill (λ i field s. run (parser checksum i true) (message magic name size field old) s)
        (λ field s. run (parser payload 0 true) (message magic name size field []) s) 4
        (λ done junk t j k c n.
          parse-indeterminate _ _ _ _ c t
            (rw (set-append done (k ∷ junk) j c _ refl) (ground arith)))
        (λ done t j c n.
          parse-indeterminate _ _ _ _ c t (rw (set-append done [] j c _ refl) (ground arith)))
        todo junk [] t c (omega arith) (omega arith)

  parse_payload :
      (magic name size sum : Bytes) (todo done t : Bytes) (c : ℕ)
      → length done + suc (length todo) ≡ word_of size
      → take 4 (hash (done ++ c ∷ todo)) ≡ sum
      → run (parser payload 0 true) (message magic name size sum done) (c ∷ (todo ++ t)) ≡ (
        record {
          parser = parser start_1 0 true;
          message = message magic name size sum (done ++ c ∷ todo);
          result = accept;
        },
        t,
      )
  unfolding consume_in
  parse_payload magic name size sum [] done t c e f =
      parse-accept _ _ _ _ c t
        (rw f (ground (arith, length-append done (c ∷ []), same_bytes_self sum)))
  parse_payload magic name size sum (d ∷ todo) done t c e f =
      parse-indeterminate (parser payload 0 true) (parser payload 0 true)
        (message magic name size sum done) (message magic name size sum (done ++ c ∷ [])) c
        (d ∷ (todo ++ t)) (ground (arith, length-append done (c ∷ [])))
      ∙ (rw (append_assoc done (c ∷ []) (d ∷ todo)) at (
          parse_payload magic name size sum todo (done ++ c ∷ []) t d
            (omega (arith, length-append done (c ∷ [])))
            (rw (append_assoc done (c ∷ []) (d ∷ todo)) f)))

  parse_magic :
      (w x y z a b c d n : ℕ) (name size sum old t : Bytes) (checked : Bool)
      → chain_magic ≡ a ∷ b ∷ c ∷ d ∷ []
      → run
          (parser start_1 n checked)
          (message (w ∷ x ∷ y ∷ z ∷ []) name size sum old)
          (a ∷ b ∷ c ∷ d ∷ t)
        ≡ run (parser command 0 checked) (message (a ∷ b ∷ c ∷ d ∷ []) name size sum old) t
  unfolding consume_in
  parse_magic w x y z a b c d n name size sum old t checked e =
      parse-indeterminate _ (parser State.start_2 n checked) _
        (message (a ∷ x ∷ y ∷ z ∷ []) name size sum old) a _ (ground arith)
      ∙ parse-indeterminate _ (parser State.start_3 n checked) _
          (message (a ∷ b ∷ y ∷ z ∷ []) name size sum old) b _ (ground arith)
      ∙ parse-indeterminate _ (parser State.start_4 n checked) _
          (message (a ∷ b ∷ c ∷ z ∷ []) name size sum old) c _ (ground arith)
      ∙ parse-indeterminate _ (parser command 0 checked) _
          (message (a ∷ b ∷ c ∷ d ∷ []) name size sum old) d _ (ground arith)

  magic_of_is_valid : (h : MessageHeader) → is_valid chain_magic h ≡ true → h.magic ≡ chain_magic
  unfolding is_valid
  magic_of_is_valid h e = same_bytes→≡ h.magic chain_magic (ground arith)

  -- The four fields and the payload, one after the other.
  parse_frame :
      (w x y z a e f g n s c b k : ℕ)
      (name sizes sums old_name old_size old_sum old body rest : Bytes) (checked : Bool)
      → checksum_since < now
      → chain_magic ≡ a ∷ e ∷ f ∷ g ∷ []
      → length old_name ≡ 12
      → length old_size ≡ 4
      → length old_sum ≡ 4
      → length name ≡ 11
      → length sizes ≡ 3
      → length sums ≡ 3
      → is_valid chain_magic (message (a ∷ e ∷ f ∷ g ∷ []) (n ∷ name) (s ∷ sizes) [] []).header
        ≡ true
      → suc (length body) ≡ word_of (s ∷ sizes)
      → take 4 (hash (b ∷ body)) ≡ c ∷ sums
      → run
          (parser start_1 k checked)
          (message (w ∷ x ∷ y ∷ z ∷ []) old_name old_size old_sum old)
          (a ∷ e ∷ f ∷ g ∷ n ∷ (name ++ s ∷ (sizes ++ c ∷ (sums ++ b ∷ (body ++ rest)))))
        ≡ (
          record {
            parser = parser start_1 0 true;
            message = message (a ∷ e ∷ f ∷ g ∷ []) (n ∷ name) (s ∷ sizes) (c ∷ sums) (b ∷ body);
            result = accept;
          },
          rest,
        )
  parse_frame w x y z a e f g n s c b k name sizes sums old_name old_size old_sum old body rest
        checked since magic l₁ l₂ l₃ k₁ k₂ k₃ valid size sum =
      parse_magic w x y z a e f g k old_name old_size old_sum old _ checked magic
      ∙ parse_command _ old_size old_sum old checked n name old_name _ l₁ k₁ since
      ∙ parse_messagesize _ (n ∷ name) old_sum old s sizes old_size _ l₂ k₂
      ∙ parse_checksum _ (n ∷ name) (s ∷ sizes) old c sums old_sum _ l₃ k₃ valid (omega arith)
      ∙ parse_payload _ (n ∷ name) (s ∷ sizes) (c ∷ sums) body [] rest b (omega (arith, size)) sum

  -- A header and its payload, as a peer sends them, are read from a stream that they begin: the
  -- parser accepts at the last byte of the payload, with that header and payload and the rest of
  -- the stream left. The parser is at the start and checksums are in use, the header is valid, its size is that of the payload and not 0, its checksum
  -- that of the payload; the old message may hold anything.
  pub parse-write_header :
      (p : MessageParser) (m : Message) (h : MessageHeader) (body rest : Bytes)
      → checksum_since < now
      → p.state ≡ start_1
      → HeaderFits m.header
      → HeaderFits h
      → is_valid chain_magic h ≡ true
      → body ≢ []
      → length body ≡ word_of h.message_size
      → take 4 (hash body) ≡ h.checksum
      → parse now chain_magic hash p m (write_header h ++ (body ++ rest)) ≡ (
        record {
          parser = record { state = start_1; counter = 0; checked = true };
          message = record { header = h; payload = body };
          result = accept;
        },
        rest,
      )
  unfolding write_header
  parse-write_header p m h [] rest since start old new valid ne size sum = absurd (ne refl)
  parse-write_header p m h (b ∷ body) rest since start old new valid ne size sum =
      let (w, x, y, z, old_magic) = four m.header.magic old.magic in
      let (a, e, f, g, magic) = four h.magic new.magic in
      let (n, name, name_is, name_length) = uncons h.pch_command 11 new.pch_command in
      let (s, sizes, size_is, size_length) = uncons h.message_size 3 new.message_size in
      let (c, sums, sum_is, sum_length) = uncons h.checksum 3 new.checksum in
      let same : h.magic ≡ chain_magic = magic_of_is_valid h valid in
      let whole : h ≡ (message (a ∷ e ∷ f ∷ g ∷ []) (n ∷ name) (s ∷ sizes) (c ∷ sums) []).header =
        cc in
      let from : p ≡ parser start_1 p.counter p.checked = cc in
      let onto : m
          ≡ message (w ∷ x ∷ y ∷ z ∷ []) m.header.pch_command m.header.message_size
              m.header.checksum m.payload =
        cc in
      let tail = b ∷ (body ++ rest) in
      rw
        (
          from,
          onto,
          whole,
          append_assoc name (s ∷ (sizes ++ c ∷ sums)) tail,
          append_assoc sizes (c ∷ sums) tail,
        )
        (parse_frame w x y z a e f g n s c b p.counter name sizes sums m.header.pch_command
          m.header.message_size m.header.checksum m.payload body rest p.checked since
          (sym same ∙ magic) old.pch_command old.message_size old.checksum name_length size_length
          sum_length (unfold is_valid in cc) (size ∙ ap word_of size_is) (sum ∙ sum_is))
