-- ===== src/Tests/Messages.antt =====
-- The message parser at a message with a payload of two bytes.
use libcoin.Base.{ℕ, ◌≡◌, refl, true, false, [], ◌∷◌, ◌++◌, arith, Bytes}
use libcoin.Message.Header.{
  Message, MessageHeader, is_valid, same_bytes, is_command, all_zero, word_of, write_header,
}
use libcoin.Message.Parser.{MessageParser, start_1, checksum, payload, accept, consume, parse}
use libcoin.Message.Parser.Safety.{Ensures, IsDelivered, consume-Ensures, parse-IsDelivered}
use libcoin.Message.Parser.Frame.{parse-write_header}

abbrev magic : Bytes
magic = 249 ∷ 190 ∷ 180 ∷ 217 ∷ []

-- A hash for the runs: the bytes themselves, then zeros.
abbrev padded : Bytes → Bytes
padded s = s ++ 0 ∷ 0 ∷ 0 ∷ 0 ∷ []

abbrev zeros : Bytes
zeros = 0 ∷ 0 ∷ 0 ∷ 0 ∷ []

abbrev ping : Bytes
ping = b'p' ∷ b'i' ∷ b'n' ∷ b'g' ∷ (zeros ++ zeros)

abbrev header : MessageHeader
header = record {
  magic = magic;
  pch_command = ping;
  message_size = 2 ∷ 0 ∷ 0 ∷ 0 ∷ [];
  checksum = 7 ∷ 8 ∷ 0 ∷ 0 ∷ [];
}

abbrev blank : Message
blank = record {
  header = record {
    magic = zeros;
    pch_command = zeros ++ (zeros ++ zeros);
    message_size = zeros;
    checksum = zeros;
  };
  payload = 1 ∷ [];
}

abbrev start : MessageParser
start = record { state = start_1; counter = 0; checked = false }

abbrev now : ℕ
now = 1400000000

header_is_valid : is_valid magic header ≡ true
unfolding is_valid same_bytes is_command all_zero word_of
header_is_valid = refl

parse-write_header_example :
    parse now magic padded start blank (write_header header ++ 7 ∷ 8 ∷ 9 ∷ []) ≡ (
      record {
        parser = record { state = start_1; counter = 0; checked = true };
        message = record { header = header; payload = 7 ∷ 8 ∷ [] };
        result = accept;
      },
      9 ∷ [],
    )
unfolding word_of
parse-write_header_example =
    parse-write_header now magic padded start blank header (7 ∷ 8 ∷ []) (9 ∷ []) (omega arith) refl
      (record { magic = refl; pch_command = refl; message_size = refl; checksum = refl })
      (record { magic = refl; pch_command = refl; message_size = refl; checksum = refl })
      header_is_valid (λ e. cc) refl refl

-- Before the last byte of the payload, which ends a message that is accepted.
abbrev in_payload : MessageParser
in_payload = record { state = payload; counter = 0; checked = true }

abbrev unfinished : Message
unfinished = record { header = header; payload = 7 ∷ [] }

consume-Ensures_example :
    let o = consume now magic padded in_payload unfinished 8 in
    Ensures now magic padded o.result unfinished.payload o.parser o.message
unfolding word_of
consume-Ensures_example =
    consume-Ensures now magic padded in_payload unfinished 8 (header_is_valid, omega arith)

parse-IsDelivered_example :
    IsDelivered now magic padded
      (parse now magic padded start blank (write_header header ++ 7 ∷ 8 ∷ 9 ∷ [])).0
parse-IsDelivered_example =
    parse-IsDelivered now magic padded (write_header header ++ 7 ∷ 8 ∷ 9 ∷ []) start blank tt
      (rw parse-write_header_example refl)

-- The last byte of a header whose magic is not the chain's.
abbrev at_end : MessageParser
at_end = record { state = checksum; counter = 3; checked = true }
