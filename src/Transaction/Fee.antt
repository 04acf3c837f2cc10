-- ===== src/Transaction/Fee.antt =====
-- `getMinFee` and `getSigOpCount` of src/coin/Transaction.cpp. The fee is never negative and no
-- `int64_t` of its computation overflows, so it is a ℕ; the block size is a 32-bit `unsigned int`.
use native.Mathlib.Nat.{le-div_iff_mul-le, le-mul_of_pos_right}
use libcoin.Base.{
  ℕ, ◌+◌, ◌-◌, ◌*◌, ◌/◌, ◌%◌, ◌^◌, ◌<◌, ◌≤◌, ◌≡◌, Bool, true, false, not, ◌&&◌, ◌||◌, List, [], ◌∷◌,
  ltb, leb, ◌==◌, if◌then◌else◌, arith, ◌↔◌, ◌⊎◌, refl,
}
use libcoin.Base.Int.{pos, ltb_ℤ}
use libcoin.Chain.Check.{max_money}
use libcoin.Script.Code.{sig_op_count}
use libcoin.Transaction.{Input, Output, Transaction, serialize_size}

abbrev pub max_block_size_gen : ℕ
max_block_size_gen = 500000

abbrev pub cent : ℕ
cent = 1000000

abbrev pub min_tx_fee : ℕ
min_tx_fee = 50000

abbrev pub min_relay_tx_fee : ℕ
min_relay_tx_fee = 10000

abbrev pub base_fee : Bool → ℕ
base_fee for_relay = if for_relay then min_relay_tx_fee else min_tx_fee

-- The fee of the size alone, of a transaction of `bytes` bytes.
unfoldable pub size_fee : ℕ → ℕ → ℕ → Bool → ℕ
size_fee base block_size bytes allow_free =
    let fee = (1 + bytes / 1000) * base in
    let new_size = (block_size + bytes) % 2 ^ 32 in
    if allow_free
    then if block_size == 1
      then if ltb bytes 10000 then 0 else fee
      else if ltb new_size 27000
      then 0
      else fee
    else fee

-- The loop over the outputs.
unfoldable pub dust_fee : ℕ → ℕ → List Output → ℕ
dust_fee base fee [] = fee
dust_fee base fee (o ∷ os) = dust_fee base (if ltb_ℤ o.value (pos cent) then base else fee) os

-- The price of a block that is half full or more.
unfoldable pub raised : ℕ → ℕ → ℕ → ℕ
raised block_size new_size fee =
    if not (block_size == 1) && leb (max_block_size_gen / 2) new_size
    then if leb max_block_size_gen new_size
      then max_money
      else fee * (max_block_size_gen / (max_block_size_gen - new_size))
    else fee

unfoldable pub get_min_fee : Transaction → ℕ → Bool → Bool → ℕ
get_min_fee txn block_size allow_free for_relay =
    let base = base_fee for_relay in
    let bytes = serialize_size txn % 2 ^ 32 in
    let fee = size_fee base block_size bytes allow_free in
    let dusted = if ltb fee base then dust_fee base fee txn.outputs else fee in
    let price = raised block_size ((block_size + bytes) % 2 ^ 32) dusted in
    if leb price max_money then price else max_money

abbrev sum_of {ℓ} : {A : Type ℓ} → (A → ℕ) → List A → ℕ
sum_of f [] = 0
sum_of f (x ∷ xs) = f x + sum_of f xs

-- `getSigOpCount`, where no `int` overflows.
abbrev pub get_sig_op_count : Transaction → ℕ
get_sig_op_count txn =
    sum_of (λ i. sig_op_count (Input.signature i)) txn.inputs
    + sum_of (λ o. sig_op_count (Output.script o)) txn.outputs

-- No output is below the limit of dust.
abbrev pub has_dust : List Output → Bool
has_dust [] = false
has_dust (o ∷ os) = ltb_ℤ o.value (pos cent) || has_dust os

dust_fee-has_dust :
    (base fee : ℕ) (outs : List Output)
    → dust_fee base fee outs ≡ (if has_dust outs then base else fee)
unfolding dust_fee
dust_fee-has_dust base fee [] = refl
dust_fee-has_dust base fee (o ∷ os) =
    ground (arith, dust_fee-has_dust base base os, dust_fee-has_dust base fee os)

-- The transactions that are taken for free, by their size and the size of the block.
abbrev pub is_small : Transaction → ℕ → Bool
is_small txn block_size =
    if block_size == 1
    then ltb (serialize_size txn % 2 ^ 32) 10000
    else ltb ((block_size + serialize_size txn % 2 ^ 32) % 2 ^ 32) 27000

size_fee-is_small :
    (base : ℕ) (txn : Transaction) (block_size : ℕ) (allow_free : Bool)
    → size_fee base block_size (serialize_size txn % 2 ^ 32) allow_free ≡ (
        if allow_free && is_small txn block_size
        then 0
        else (1 + serialize_size txn % 2 ^ 32 / 1000) * base)
unfolding size_fee
size_fee-is_small base txn block_size true = ground arith
size_fee-is_small base txn block_size false = refl

raise_factor : (n : ℕ) → n < 500000 → 1 ≤ 500000 / (500000 - n)
raise_factor n h = (le-div_iff_mul-le (omega arith)).1 (omega arith)

raised_le :
    (block_size new_size fee : ℕ)
    → (raised block_size new_size fee ≡ max_money) ⊎ (fee ≤ raised block_size new_size fee)
unfolding raised
raised_le block_size new_size fee = ground (
  arith,
  raise_factor new_size,
  λ (k : 0 < 500000 / (500000 - new_size)). le-mul_of_pos_right fee k,
)

raised-small :
    (block_size new_size fee : ℕ)
    → (block_size ≡ 1) ⊎ (new_size < 250000)
    → raised block_size new_size fee ≡ fee
unfolding raised
raised-small block_size new_size fee h = ground arith

-- The fee is at most the money of the currency. It is zero just when free transactions are
-- allowed, the transaction is small beside the block (by its size alone where the block is
-- empty), and no output is dust, and else it is no less than the base fee.
pub get_min_fee_lem :
    (txn : Transaction) (block_size : ℕ) (allow_free for_relay : Bool)
    → let fee = get_min_fee txn block_size allow_free for_relay in
      (fee ≤ max_money)
      × (((fee ≡ 0)
            ↔ (((allow_free && is_small txn block_size) ≡ true) × (has_dust txn.outputs ≡ false)))
          × ((fee ≡ 0) ⊎ (base_fee for_relay ≤ fee)))
unfolding get_min_fee
get_min_fee_lem txn block_size allow_free for_relay =
    let base = base_fee for_relay in
    let bytes = serialize_size txn % 2 ^ 32 in
    let new_size = (block_size + bytes) % 2 ^ 32 in
    let fee = size_fee base block_size bytes allow_free in
    let dusted = if ltb fee base then dust_fee base fee txn.outputs else fee in
    ground (
      arith,
      size_fee-is_small base txn block_size allow_free,
      dust_fee-has_dust base fee txn.outputs,
      raised_le block_size new_size dusted,
      raised-small block_size new_size dusted,
      λ (k : 0 < 1 + bytes / 1000). le-mul_of_pos_right base k,
    )
