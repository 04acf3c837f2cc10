-- ===== src/Message/Parser.antt =====
-- The state machine of src/coinChain/MessageParser.cpp. The time (`UnixTime::s()`), the chain's magic
-- and the library's `Hash` (as its 32 bytes) are arguments.
pub mod Frame
pub mod Safety
use libcoin.Base.{
  ℕ, zero, suc, ◌+◌, Bool, true, false, ◌&&◌, not, List, [], ◌∷◌, ◌++◌, Bytes, length, take, get_or,
  ltb, leb, ◌==◌, if◌then◌else◌,
}
use libcoin.Message.Header.{
  MessageHeader, Message, word_of, same_bytes, is_valid, get_command, set_magic, set_command,
  set_message_size, set_checksum,
}

pub data State : Type 0 where
  start_1 start_2 start_3 start_4 command messagesize checksum payload : State

pub record MessageParser : Type 0 where
  pub state : State
  pub counter : ℕ
  -- `_checksum`: whether the message has a checksum.
  pub checked : Bool

-- The `boost::tribool` that `consume` returns. `overrun`: a byte is written past the end of a field
-- of the header, which is undefined.
pub data Verdict : Type 0 where
  accept reject indeterminate overrun : Verdict

-- What `consume` leaves: the parser, the message, and the result.
pub record Outcome : Type 0 where
  pub parser : MessageParser
  pub message : Message
  pub result : Verdict

abbrev outcome : MessageParser → Message → Verdict → Outcome
outcome p m r = record { parser = p; message = m; result = r }

abbrev pub reset : MessageParser → MessageParser
reset p = record p { state = start_1 }

abbrev clear_payload : Message → Message
clear_payload m = record m { payload = [] }

-- "version" and "verack", which had no checksum before 20 February 2012.
abbrev version_command : Bytes
version_command = b'v' ∷ b'e' ∷ b'r' ∷ b's' ∷ b'i' ∷ b'o' ∷ b'n' ∷ []

abbrev verack_command : Bytes
verack_command = b'v' ∷ b'e' ∷ b'r' ∷ b'a' ∷ b'c' ∷ b'k' ∷ []

abbrev pub checksum_since : ℕ
checksum_since = 1329696000

-- `if (result || !result) return …`.
abbrev pub continue_or {ℓ} : {A : Type ℓ} → Verdict → A → A → A
continue_or indeterminate stop rest = rest
continue_or _ stop rest = stop

module _ (now : ℕ) (chain_magic : Bytes) (hash : Bytes → Bytes) where
  -- One byte of the magic. Where it is not the chain's the parser starts again.
  consume_start : ℕ → MessageParser → MessageParser → Message → ℕ → Outcome
  consume_start i next p m input =
      if input == get_or chain_magic i 0
      then outcome next (set_magic i input m) indeterminate
      else outcome (reset p) m reject

  -- At the end of the header. The state stays as it is where the header is not valid.
  end_of_header : MessageParser → Message → Outcome
  end_of_header p m =
      if not (is_valid chain_magic m.header)
      then outcome p m reject
      else if word_of m.header.message_size == 0
      then outcome (reset p) m accept
      else outcome (record p { state = payload; counter = 0 }) (clear_payload m) indeterminate

  consume_command : MessageParser → Message → ℕ → Outcome
  consume_command p m input =
      let m' = set_command p.counter input m in
      let name = get_command m'.header.pch_command in
      let checked =
        if ltb checksum_since now
        then true
        else not (same_bytes name version_command) && not (same_bytes name verack_command) in
      if ltb (p.counter + 1) 12
      then outcome (record p { counter = p.counter + 1 }) m' indeterminate
      else if leb 12 p.counter
      then outcome p m overrun
      else outcome (record p { state = messagesize; counter = 0; checked = checked }) m'
          indeterminate

  consume_messagesize : MessageParser → Message → ℕ → Outcome
  consume_messagesize p m input =
      let m' = set_message_size p.counter input m in
      if ltb (p.counter + 1) 4
      then outcome (record p { counter = p.counter + 1 }) m' indeterminate
      else if leb 4 p.counter
      then outcome p m overrun
      else if p.checked
      then outcome (record p { state = checksum; counter = 0 }) m' indeterminate
      else end_of_header (record p { counter = p.counter + 1 }) m'

  consume_checksum : MessageParser → Message → ℕ → Outcome
  consume_checksum p m input =
      let m' = set_checksum p.counter input m in
      if ltb (p.counter + 1) 4
      then outcome (record p { counter = p.counter + 1 }) m' indeterminate
      else if leb 4 p.counter
      then outcome p m overrun
      else end_of_header (record p { counter = p.counter + 1 }) m'

  consume_payload : MessageParser → Message → ℕ → Outcome
  consume_payload p m input =
      let m' = record m { payload = m.payload ++ input ∷ [] } in
      if ltb (length m'.payload) (word_of m.header.message_size)
      then outcome p m' indeterminate
      else if p.checked && not (same_bytes (take 4 (hash m'.payload)) m.header.checksum)
      then outcome (reset p) m' reject
      else outcome (reset p) m' accept

  unfoldable pub consume_in : State → MessageParser → Message → ℕ → Outcome
  unfolding consume_start end_of_header consume_command consume_messagesize consume_checksum
      consume_payload
  consume_in start_1 p = consume_start 0 (record p { state = start_2 }) p
  consume_in start_2 p = consume_start 1 (record p { state = start_3 }) p
  consume_in start_3 p = consume_start 2 (record p { state = start_4 }) p
  consume_in start_4 p = consume_start 3 (record p { state = command; counter = 0 }) p
  consume_in command p = consume_command p
  consume_in messagesize p = consume_messagesize p
  consume_in checksum p = consume_checksum p
  consume_in payload p = consume_payload p

  abbrev pub consume : MessageParser → Message → ℕ → Outcome
  consume p = consume_in p.state p

  -- `parse`: consumes until a result; with the bytes that are left.
  unfoldable pub parse : MessageParser → Message → Bytes → Outcome × Bytes
  parse p m [] = (outcome p m indeterminate, [])
  parse p m (c ∷ cs) =
      let o = consume p m c in
      let rest = parse o.parser o.message cs in continue_or o.result (o, cs) rest
