-- ===== src/Chain/Check/Laws.antt =====
-- `Chain::check(const Transaction&)` passes exactly the well-formed transactions.
use libcoin.Base.{
  ℕ, ◌+◌, ◌≤◌, ◌≡◌, ◌≢◌, ◌↔◌, ◌⊎◌, refl, true, false, not, List, [], ◌∷◌, length, ltb, All, arith,
  Result, ok, ◌>>◌, throw_if, inl, inr, Bool-cases, map,
}
use libcoin.Base.Int.{ℤ, pos, negsuc, ◌≤ℤ◌, ◌+ℤ◌, ltb_ℤ, add64, add64-pos}
use libcoin.Transaction.{
  Coin, Input, Output, Transaction, coin_eq, null_coin, is_coin_base, serialize_size, get_value_out,
  sum_values,
}
use libcoin.Chain.Check.{
  CheckError, max_money, max_block_size, in_range, check_outputs, contains, check_duplicates,
  check_prevouts, check_coinbase, first_signature, check_transaction,
}

-- The amount of an output is between 0 and the money supply.
abbrev pub IsAmount : ℤ → Type 0
IsAmount v = (pos 0 ≤ℤ v) × (v ≤ℤ pos max_money)

-- No two inputs spend one coin.
abbrev pub Distinct : List Coin → Type 0
Distinct [] = Unit
Distinct (c ∷ rest) = All (λ d. c ≢ d) rest × Distinct rest

module _ (outs : List Output) where
  -- One round of the loop over the outputs, on an amount `v` and a running total that is in range.
  abbrev round : ℤ → ℕ → Result CheckError (Unit {0})
  round v n = do
    throw_if (ltb_ℤ v (pos 0)) CheckError.value_negative
    throw_if (ltb_ℤ (pos max_money) v) CheckError.value_too_high
    throw_if (not (in_range (add64 (pos n) v))) CheckError.total_out_of_range
    check_outputs (add64 (pos n) v) outs

  round-pos :
      (m n : ℕ)
      → n ≤ max_money
      → (round (pos m) n ≡ ok tt)
        ↔ ((m ≤ max_money) × (n + m ≤ max_money) × (check_outputs (pos (n + m)) outs ≡ ok tt))
  round-pos m n h = elim (Bool-cases (ltb max_money m)) [
    | inl big ↦ ground arith
    | inr fits ↦ rw (add64-pos n m (ground arith)) (ground arith)
  ]

pos_sum : (n m : ℕ) → pos n +ℤ pos m ≡ pos (n + m)
unfolding ◌+ℤ◌
pos_sum n m = ground arith

abbrev Amounts : List Output → Type 0
Amounts = All (λ o. IsAmount o.value)

grows :
    (v : ℤ) (n : ℕ) (outs : List Output)
    → IsAmount v
    → ((k : ℕ) → pos k ≤ℤ sum_values (pos k) outs)
    → pos n ≤ℤ sum_values (pos n +ℤ v) outs
grows (pos m) n outs h all = rw (pos_sum n m) (omega (arith, all (n + m)))
grows (negsuc m) n outs h all = absurd (omega arith)

-- A total of amounts does not fall.
sum_values-ge : (outs : List Output) (n : ℕ) → Amounts outs → pos n ≤ℤ sum_values (pos n) outs
unfolding sum_values
sum_values-ge [] n h = omega arith
sum_values-ge (o ∷ outs) n h = grows o.value n outs h.0 (λ k. sum_values-ge outs k h.1)

-- What the loop over the outputs accepts from the total `n` on.
abbrev Accepts : List Output → Type 0
Accepts outs =
    (n : ℕ)
    → n ≤ max_money
    → (check_outputs (pos n) outs ≡ ok tt)
      ↔ (Amounts outs × (sum_values (pos n) outs ≤ℤ pos max_money))

round-Accepts :
    (v : ℤ) (outs : List Output) (n : ℕ)
    → Accepts outs
    → n ≤ max_money
    → (round outs v n ≡ ok tt)
      ↔ ((IsAmount v × Amounts outs) × (sum_values (pos n +ℤ v) outs ≤ℤ pos max_money))
round-Accepts (negsuc m) outs n ih h = ground arith
round-Accepts (pos m) outs n ih h = (
  (λ e.
      let (small, total, rest) = (round-pos outs m n h).0 e in
      let (amounts, bound) = (ih (n + m) total).0 rest in
      ((omega arith, amounts), rw (pos_sum n m) bound)),
  (λ e.
      let bound : sum_values (pos (n + m)) outs ≤ℤ pos max_money = rw (pos_sum n m) at (e.1) in
      let total : n + m ≤ max_money = omega (arith, sum_values-ge outs (n + m) e.0.1) in
      (round-pos outs m n h).1 (omega arith, total, (ih (n + m) total).1 (e.0.1, bound))),
)

check_outputs-Accepts : (outs : List Output) → Accepts outs
unfolding check_outputs sum_values
check_outputs-Accepts [] n h = ground arith
check_outputs-Accepts (o ∷ outs) n h = round-Accepts o.value outs n (check_outputs-Accepts outs) h

coin_eq_iff : (a b : Coin) → (coin_eq a b ≡ true) ↔ (a ≡ b)
coin_eq_iff a b = ground arith

-- A coin is spent by none of the inputs seen.
abbrev Unseen : List Coin → List Coin → Type 0
Unseen seen = All (λ c. contains seen c ≡ false)

abbrev prevouts : List Input → List Coin
prevouts = map (λ i. i.prevout)

Unseen-cons :
    (p : Coin) (seen cs : List Coin) → Unseen (p ∷ seen) cs ↔ (All (λ d. p ≢ d) cs × Unseen seen cs)
unfolding contains
Unseen-cons p seen [] = ground arith
Unseen-cons p seen (c ∷ cs) = ground (arith, coin_eq_iff p c, Unseen-cons p seen cs)

Unseen-nil : (cs : List Coin) → Unseen [] cs
unfolding contains
Unseen-nil [] = tt
Unseen-nil (c ∷ cs) = (refl, Unseen-nil cs)

check_duplicates-eq-ok :
    (seen : List Coin) (is : List Input)
    → (check_duplicates seen is ≡ ok tt) ↔ (Unseen seen (prevouts is) × Distinct (prevouts is))
unfolding check_duplicates
check_duplicates-eq-ok seen [] = ground arith
check_duplicates-eq-ok seen (i ∷ is) =
    ground (
      arith,
      check_duplicates-eq-ok (i.prevout ∷ seen) is,
      Unseen-cons i.prevout seen (prevouts is),
    )

check_prevouts-eq-ok :
    (is : List Input) → (check_prevouts is ≡ ok tt) ↔ All (λ i. i.prevout ≢ null_coin) is
unfolding check_prevouts
check_prevouts-eq-ok [] = ground arith
check_prevouts-eq-ok (i ∷ is) =
    ground (arith, check_prevouts-eq-ok is, coin_eq_iff i.prevout null_coin)

check_coinbase-eq-ok :
    (is : List Input)
    → (check_coinbase is ≡ ok tt)
      ↔ ((2 ≤ length (first_signature is)) × (length (first_signature is) ≤ 100))
unfolding check_coinbase
check_coinbase-eq-ok is = ground arith

-- A transaction that may enter a block: it has inputs and outputs and is of at most 1,000,000 bytes;
-- each value and the sum of the values is between 0 and the money supply; no coin is spent twice;
-- a coinbase has 2 to 100 bytes of signature, and any other transaction spends no null coin.
pub record IsWellFormed (txn : Transaction) : Type 0 where
  pub inputs : txn.inputs ≢ []
  pub outputs : txn.outputs ≢ []
  pub size : serialize_size txn ≤ max_block_size
  pub amounts : All (λ o. IsAmount o.value) txn.outputs
  pub total : get_value_out txn ≤ℤ pos max_money
  pub distinct : Distinct (map (λ i. i.prevout) txn.inputs)
  pub spends :
      ((is_coin_base txn ≡ true)
        × (2 ≤ length (first_signature txn.inputs))
        × (length (first_signature txn.inputs) ≤ 100))
      ⊎ ((is_coin_base txn ≡ false) × All (λ i. i.prevout ≢ null_coin) txn.inputs)

-- `check` accepts a transaction exactly if it is well formed.
pub check_transaction-IsWellFormed :
    (txn : Transaction) → (check_transaction txn ≡ ok tt) ↔ IsWellFormed txn
unfolding check_transaction get_value_out
check_transaction-IsWellFormed txn = ground (
  arith,
  check_outputs-Accepts txn.outputs 0,
  check_duplicates-eq-ok [] txn.inputs,
  Unseen-nil (map (λ i. i.prevout) txn.inputs),
  check_prevouts-eq-ok txn.inputs,
  check_coinbase-eq-ok txn.inputs,
)
