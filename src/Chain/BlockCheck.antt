-- ===== src/Chain/BlockCheck.antt =====
-- `Chain::check(const Block&)`: the checks of a block that need no context. The time is a parameter.
use libcoin.Base.{
  ℕ, ◌+◌, ◌≤◌, ◌≡◌, ◌↔◌, Bool, true, false, not, ◌||◌, List, [], ◌∷◌, Bytes, length, ltb, ◌==◌, All,
  Result, ok, err, ◌>>◌, throw_if, arith,
}
use libcoin.Block.{Block, write_block, count_of_all, computed_root}
use libcoin.Chain.Check.{CheckError, check_transaction, is_empty, max_block_size}
use libcoin.Chain.Check.Laws.{IsWellFormed, check_transaction-IsWellFormed}
use libcoin.Transaction.{Transaction, is_coin_base}

-- The exceptions; `invalid_transaction` passes on what `check` of a transaction throws.
pub data BlockError : Type 0 where
  block_size_limits time_in_future first_not_coinbase second_coinbase : BlockError
  invalid_transaction : CheckError → BlockError
  too_many_sig_ops root_mismatch : BlockError

abbrev pub max_block_sigops : ℕ
max_block_sigops = 20000

abbrev pub first_is_coin_base : List Transaction → Bool
first_is_coin_base [] = false
first_is_coin_base (txn ∷ txns) = is_coin_base txn

-- The loop over the transactions after the first.
unfoldable pub check_no_coinbase : List Transaction → Result BlockError (Unit {0})
check_no_coinbase [] = ok tt
check_no_coinbase (txn ∷ txns) = do
  throw_if (is_coin_base txn) second_coinbase
  check_no_coinbase txns

abbrev pub check_others : List Transaction → Result BlockError (Unit {0})
check_others [] = ok tt
check_others (txn ∷ txns) = check_no_coinbase txns

abbrev pub pass_on : Result CheckError (Unit {0}) → Result BlockError (Unit {0})
pass_on (ok done) = ok tt
pass_on (err e) = err (invalid_transaction e)

unfoldable pub check_all : List Transaction → Result BlockError (Unit {0})
check_all [] = ok tt
check_all (txn ∷ txns) = do pass_on (check_transaction txn); check_all txns

module _ (digest : Bytes → ℕ) (node : ℕ → ℕ → ℕ) (now : ℕ) where
  unfoldable pub check_block : Block → Result BlockError (Unit {0})
  check_block b = do
    let txns = b.transactions
    throw_if
        (is_empty txns
          || (ltb max_block_size (length txns) || ltb max_block_size (length (write_block b))))
        block_size_limits
    throw_if (ltb (now + 7200) b.header.time) time_in_future
    throw_if (is_empty txns || not (first_is_coin_base txns)) first_not_coinbase
    check_others txns
    check_all txns
    throw_if (ltb max_block_sigops (count_of_all txns)) too_many_sig_ops
    throw_if (not (b.header.merkle_root == computed_root digest node b)) root_mismatch

-- The first transaction is a coinbase, and no other is.
abbrev pub OneCoinbase : List Transaction → Type 0
OneCoinbase [] = ⊥
OneCoinbase (txn ∷ txns) = (is_coin_base txn ≡ true) × All (λ t. is_coin_base t ≡ false) txns

check_no_coinbase-All :
    (txns : List Transaction)
    → (check_no_coinbase txns ≡ ok tt) ↔ All (λ t. is_coin_base t ≡ false) txns
unfolding check_no_coinbase
check_no_coinbase-All [] = ground arith
check_no_coinbase-All (txn ∷ txns) = ground (arith, check_no_coinbase-All txns)

pass_on-ok : (r : Result CheckError (Unit {0})) → (pass_on r ≡ ok tt) ↔ (r ≡ ok tt)
pass_on-ok (ok done) = ground arith
pass_on-ok (err e) = ground arith

-- The first of two checks passes, and the second.
both :
    (first second : Result BlockError (Unit {0}))
    → ((first >> second) ≡ ok tt) ↔ ((first ≡ ok tt) × (second ≡ ok tt))
both (ok done) second = ground arith
both (err e) second = ground arith

check_all-IsWellFormed :
    (txns : List Transaction) → (check_all txns ≡ ok tt) ↔ All IsWellFormed txns
unfolding check_all
check_all-IsWellFormed [] = ground arith
check_all-IsWellFormed (txn ∷ txns) =
    let split = both (pass_on (check_transaction txn)) (check_all txns) in
    let passed = pass_on-ok (check_transaction txn) in
    let valid = check_transaction-IsWellFormed txn in
    let rest = check_all-IsWellFormed txns in
    (
      (λ e. (valid.0 (passed.0 (split.0 e).0), rest.0 (split.0 e).1)),
      (λ w. split.1 (passed.1 (valid.1 w.0), rest.1 w.1)),
    )

-- A sequence of checks, two of them of any kind.
in_turn :
    (large late first many wrong : Bool) (others all : Result BlockError (Unit {0}))
    → ((throw_if large block_size_limits
          >> (throw_if late time_in_future
              >> (throw_if (not first) first_not_coinbase
                  >> (others
                      >> (all
                          >> (throw_if many too_many_sig_ops >> throw_if wrong root_mismatch))))))
        ≡ ok tt)
      ↔ ((large ≡ false)
          × (late ≡ false)
          × (first ≡ true)
          × (others ≡ ok tt)
          × (all ≡ ok tt)
          × (many ≡ false)
          × (wrong ≡ false))
in_turn large late first many wrong (ok done) (ok passed) = ground arith
in_turn large late first many wrong (ok done) (err e) = ground arith
in_turn large late first many wrong (err e) all = ground arith

-- The checks, with the answers to those that do not look into the transactions.
steps : List Transaction → Bool → Bool → Bool → Result BlockError (Unit {0})
steps txns large late wrong = do
  throw_if (is_empty txns || large) block_size_limits
  throw_if late time_in_future
  throw_if (is_empty txns || not (first_is_coin_base txns)) first_not_coinbase
  check_others txns
  check_all txns
  throw_if (ltb max_block_sigops (count_of_all txns)) too_many_sig_ops
  throw_if wrong root_mismatch

steps-ok :
    (txns : List Transaction) (large late wrong : Bool)
    → (steps txns large late wrong ≡ ok tt) ↔ (
        (large ≡ false)
        × (late ≡ false)
        × OneCoinbase txns
        × All IsWellFormed txns
        × (count_of_all txns ≤ max_block_sigops)
        × (wrong ≡ false))
unfolding steps
steps-ok [] large late wrong = ground arith
steps-ok (txn ∷ txns) large late wrong =
    let limit = count_of_all (txn ∷ txns) in
    let turn =
      in_turn large late (is_coin_base txn) (ltb max_block_sigops limit) wrong
        (check_no_coinbase txns) (check_all (txn ∷ txns)) in
    let others = check_no_coinbase-All txns in
    let all = check_all-IsWellFormed (txn ∷ txns) in
    (
      (λ e.
          let (a, b, c, d, f, g, h) = turn.0 e in
          (a, b, (c, others.0 d), all.0 f, ground arith, h)),
      (λ v.
          let (a, b, c, d, f, g) = v in turn.1 (a, b, c.0, others.1 c.1, all.1 d, ground arith, g)),
    )

module _ (digest : Bytes → ℕ) (node : ℕ → ℕ → ℕ) (now : ℕ) where
  -- A block that may be saved: at most 1,000,000 transactions and bytes, at most two hours ahead, a
  -- coinbase first and no other, well-formed transactions, at most 20,000 signature operations, and the
  -- Merkle root of its transactions.
  pub record IsValidBlock (b : Block) : Type 0 where
    pub count : length b.transactions ≤ max_block_size
    pub size : length (write_block b) ≤ max_block_size
    pub time : b.header.time ≤ now + 7200
    pub coinbase : OneCoinbase b.transactions
    pub transactions : All IsWellFormed b.transactions
    pub sig_ops : count_of_all b.transactions ≤ max_block_sigops
    pub root : b.header.merkle_root ≡ computed_root digest node b

  -- `check` accepts a block exactly if it is valid.
  pub check_block-IsValidBlock :
      (b : Block) → (check_block digest node now b ≡ ok tt) ↔ IsValidBlock b
  unfolding check_block steps
  check_block-IsValidBlock b =
      let txns = b.transactions in
      ground (
        arith,
        steps-ok txns
            (ltb max_block_size (length txns) || ltb max_block_size (length (write_block b)))
            (ltb (now + 7200) b.header.time)
            (not (b.header.merkle_root == computed_root digest node b)),
      )
