-- ===== src/Message/Header.antt =====
-- src/coinChain/MessageHeader.cpp, include/coinChain/MessageHeader.h and the class `Message` of
-- include/coinChain/Filter.h. The fields are their bytes in memory, those of a `char` from 0 to 255.
use libcoin.Base.{
  ℕ, ◌+◌, ◌*◌, Bool, true, false, ◌&&◌, ◌||◌, not, [], ◌∷◌, ◌++◌, ◌≡◌, Bytes, length, set, ltb,
  ◌==◌, if◌then◌else◌,
}

pub record MessageHeader : Type 0 where
  pub magic : Bytes
  pub pch_command : Bytes
  pub message_size : Bytes
  pub checksum : Bytes

pub record Message : Type 0 where
  pub header : MessageHeader
  pub payload : Bytes

abbrev pub max_size : ℕ
max_size = 0x02000000

abbrev pub command_size : ℕ
command_size = 12

-- The number that four bytes hold on a little-endian machine: `nMessageSize`.
unfoldable pub word_of : Bytes → ℕ
word_of [] = 0
word_of (b ∷ bs) = b + 256 * word_of bs

-- `memcmp(a, b, n) == 0` of two arrays of that length.
unfoldable pub same_bytes : Bytes → Bytes → Bool
same_bytes [] [] = true
same_bytes (a ∷ as') (b ∷ bs) = a == b && same_bytes as' bs
same_bytes _ _ = false

unfoldable pub all_zero : Bytes → Bool
all_zero [] = true
all_zero (c ∷ cs) = c == 0 && all_zero cs

-- The loop of `IsValid` over the command: printable bytes, then zeros. A `char` from 128 on is
-- negative, so less than a space.
unfoldable pub is_command : Bytes → Bool
is_command [] = true
is_command (c ∷ cs) =
    if c == 0 then all_zero cs else if ltb c b' ' || ltb 0x7e c then false else is_command cs

-- `IsValid`; `magic` is the chain's.
unfoldable pub is_valid : Bytes → MessageHeader → Bool
is_valid magic h =
    same_bytes h.magic magic
    && (is_command h.pch_command && not (ltb max_size (word_of h.message_size)))

-- `operator<<`: the arrays, then the two numbers.
unfoldable pub write_header : MessageHeader → Bytes
write_header h = h.magic ++ (h.pch_command ++ (h.message_size ++ h.checksum))

-- The arrays have their sizes.
pub record HeaderFits (h : MessageHeader) : Type 0 where
  pub magic : length h.magic ≡ 4
  pub pch_command : length h.pch_command ≡ 12
  pub message_size : length h.message_size ≡ 4
  pub checksum : length h.checksum ≡ 4

-- Drops the zeros at the end.
strip : Bytes → Bytes
strip [] = []
strip (c ∷ cs) = elim (strip cs) [ [] ↦ if c == 0 then [] else c ∷ [] | d ∷ ds ↦ c ∷ d ∷ ds ]

-- `GetCommand`: the command without the zeros at its end, but with its first byte.
unfoldable pub get_command : Bytes → Bytes
unfolding strip
get_command [] = []
get_command (c ∷ cs) = c ∷ strip cs

-- The setters of `Message`: one byte of a field.
abbrev pub set_magic : ℕ → ℕ → Message → Message
set_magic i c m = record m { header = record (m.header) { magic = set m.header.magic i c } }

abbrev pub set_command : ℕ → ℕ → Message → Message
set_command i c m = record m {
  header = record (m.header) { pch_command = set m.header.pch_command i c };
}

abbrev pub set_message_size : ℕ → ℕ → Message → Message
set_message_size i c m = record m {
  header = record (m.header) { message_size = set m.header.message_size i c };
}

abbrev pub set_checksum : ℕ → ℕ → Message → Message
set_checksum i c m = record m {
  header = record (m.header) { checksum = set m.header.checksum i c };
}
