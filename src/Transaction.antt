-- ===== src/Transaction.antt =====
-- include/coin/Transaction.h: coins, inputs, outputs and transactions, and their serialization.
-- A `uint256` is a number below 2 ^ 256, a script is its bytes, and `_version` is kept as its 32-bit
-- pattern, which is how `version()` returns it.
pub mod Fee
pub mod Replace
pub mod RoundTrip
pub mod SignatureHash
pub mod Verify
use libcoin.Base.{
  ℕ, ◌+◌, ◌^◌, ◌≡◌, Bool, true, false, ◌&&◌, List, [], ◌∷◌, ◌++◌, Bytes, length, ◌==◌,
}
use libcoin.Base.Int.{ℤ, pos, negsuc, ◌+ℤ◌, to_word, of_word, eqb_ℤ}
use libcoin.Serialize.Stream.{Reader, ◌>>=◌, return, write_binary, read_binary}
use libcoin.Serialize.Container.{write_vector, read_vector}

pub record Coin : Type 0 where
  pub hash : ℕ
  pub index : ℕ

pub record Input : Type 0 where
  pub prevout : Coin
  pub signature : Bytes
  pub sequence : ℕ

pub record Output : Type 0 where
  pub value : ℤ
  pub script : Bytes

pub record Transaction : Type 0 where
  pub version : ℕ
  pub inputs : List Input
  pub outputs : List Output
  pub lock_time : ℕ

abbrev pub uint_max : ℕ
uint_max = 0xffff_ffff

abbrev pub word64 : ℕ
word64 = 2 ^ 64

-- `Coin()`.
abbrev pub null_coin : Coin
null_coin = record { hash = 0; index = uint_max }

-- `operator==` of coins.
abbrev pub coin_eq : Coin → Coin → Bool
coin_eq a b = a.hash == b.hash && a.index == b.index

abbrev pub coin_is_null : Coin → Bool
coin_is_null c = c.hash == 0 && c.index == uint_max

-- `Output()`.
abbrev pub null_output : Output
null_output = record { value = negsuc 0; script = [] }

abbrev pub output_is_null : Output → Bool
output_is_null o = eqb_ℤ o.value (negsuc 0)

abbrev pub is_subsidy : Input → Bool
is_subsidy i = coin_is_null i.prevout

abbrev pub input_is_final : Input → Bool
input_is_final i = i.sequence == uint_max

abbrev one_subsidy : List Input → Bool
one_subsidy [] = false
one_subsidy (i ∷ []) = is_subsidy i
one_subsidy (i ∷ j ∷ rest) = false

abbrev pub is_coin_base : Transaction → Bool
is_coin_base txn = one_subsidy txn.inputs

unfoldable pub sum_values : ℤ → List Output → ℤ
sum_values total [] = total
sum_values total (o ∷ os) = sum_values (total +ℤ o.value) os

-- The sum of the values of the outputs, which `getValueOut` gives where no `int64_t` overflows.
unfoldable pub get_value_out : Transaction → ℤ
unfolding sum_values
get_value_out txn = sum_values (pos 0) txn.outputs

-- The memory of a `Coin`: 32 bytes of hash and 4 of index.
unfoldable pub write_coin : Coin → Bytes
write_coin c = write_binary 32 c.hash ++ write_binary 4 c.index

unfoldable pub read_coin : Reader Coin
read_coin = do
  hash ← read_binary 32
  index ← read_binary 4
  return (record { hash = hash; index = index })

-- A script is a vector of bytes.
unfoldable pub write_script : Bytes → Bytes
write_script = write_vector (write_binary 1)

unfoldable pub read_script : Reader Bytes
read_script = read_vector (read_binary 1)

unfoldable pub write_input : Input → Bytes
write_input i = write_coin i.prevout ++ (write_script i.signature ++ write_binary 4 i.sequence)

unfoldable pub read_input : Reader Input
read_input = do
  prevout ← read_coin
  signature ← read_script
  sequence ← read_binary 4
  return (record { prevout = prevout; signature = signature; sequence = sequence })

unfoldable pub write_output : Output → Bytes
write_output o = write_binary 8 (to_word word64 o.value) ++ write_script o.script

unfoldable pub read_output : Reader Output
read_output = do
  value ← read_binary 8
  script ← read_script
  return (record { value = of_word word64 value; script = script })

unfoldable pub write_transaction : Transaction → Bytes
write_transaction txn =
    write_binary 4 txn.version
    ++ (write_vector write_input txn.inputs
        ++ (write_vector write_output txn.outputs ++ write_binary 4 txn.lock_time))

unfoldable pub read_transaction : Reader Transaction
read_transaction = do
  version ← read_binary 4
  inputs ← read_vector read_input
  outputs ← read_vector read_output
  lock_time ← read_binary 4
  return (record { version = version; inputs = inputs; outputs = outputs; lock_time = lock_time })

-- `serialize_size(txn)`.
abbrev pub serialize_size : Transaction → ℕ
serialize_size txn = length (write_transaction txn)
