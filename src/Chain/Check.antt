-- ===== src/Chain/Check.antt =====
-- `Chain::check(const Transaction&)`: the checks of a transaction that need no context, with the
-- limits of `Chain`, which all chains but Terracoin, Dogecoin and Dogetest keep.
pub mod Laws
use libcoin.Base.{
  ℕ, ◌^◌, Bool, true, false, ◌&&◌, ◌||◌, not, List, [], ◌∷◌, Bytes, length, ltb, if◌then◌else◌,
  Result, ok, err, ◌>>=◌, ◌>>◌, throw_if,
}
use libcoin.Base.Int.{ℤ, pos, ltb_ℤ, add64}
use libcoin.Transaction.{
  Coin, Input, Output, Transaction, coin_eq, coin_is_null, is_coin_base, serialize_size,
}

-- The exceptions that the function throws.
pub data CheckError : Type 0 where
  vin_empty vout_empty size_limits value_negative value_too_high : CheckError
  total_out_of_range duplicate_inputs coinbase_script_size prevout_is_null : CheckError

abbrev pub max_money : ℕ
max_money = 2100000000000000

abbrev pub max_block_size : ℕ
max_block_size = 1000000

-- `range`.
abbrev pub in_range : ℤ → Bool
in_range v = not (ltb_ℤ v (pos 0)) && not (ltb_ℤ (pos max_money) v)

abbrev pub is_empty {ℓ} : {A : Type ℓ} → List A → Bool
is_empty [] = true
is_empty (x ∷ r) = false

-- The first loop, from the running total `value_out` on.
pub check_outputs : ℤ → List Output → Result CheckError (Unit {0})
check_outputs value_out [] = ok tt
check_outputs value_out (o ∷ rest) = do
  throw_if (ltb_ℤ o.value (pos 0)) value_negative
  throw_if (ltb_ℤ (pos max_money) o.value) value_too_high
  let total = add64 value_out o.value
  throw_if (not (in_range total)) total_out_of_range
  check_outputs total rest

-- `vInOutPoints.count(c)`.
pub contains : List Coin → Coin → Bool
contains [] c = false
contains (d ∷ seen) c = coin_eq d c || contains seen c

-- The second loop; `seen` is `vInOutPoints`.
pub check_duplicates : List Coin → List Input → Result CheckError (Unit {0})
check_duplicates seen [] = ok tt
check_duplicates seen (i ∷ rest) = do
  throw_if (contains seen i.prevout) duplicate_inputs
  check_duplicates (i.prevout ∷ seen) rest

pub check_prevouts : List Input → Result CheckError (Unit {0})
check_prevouts [] = ok tt
check_prevouts (i ∷ rest) = do
  throw_if (coin_is_null i.prevout) prevout_is_null
  check_prevouts rest

-- `getInput(0).signature()`.
abbrev pub first_signature : List Input → Bytes
first_signature [] = []
first_signature (i ∷ rest) = i.signature

pub check_coinbase : List Input → Result CheckError (Unit {0})
check_coinbase inputs =
    let size = length (first_signature inputs) in
    throw_if (ltb size 2 || ltb 100 size) coinbase_script_size

pub check_transaction : Transaction → Result CheckError (Unit {0})
unfolding check_coinbase
check_transaction txn = do
  throw_if (is_empty txn.inputs) vin_empty
  throw_if (is_empty txn.outputs) vout_empty
  throw_if (ltb max_block_size (serialize_size txn)) size_limits
  check_outputs (pos 0) txn.outputs
  check_duplicates [] txn.inputs
  if is_coin_base txn then check_coinbase txn.inputs else check_prevouts txn.inputs
