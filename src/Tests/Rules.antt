-- ===== src/Tests/Rules.antt =====
-- The rules of a chain at concrete transactions and heights.
use libcoin.Base.{ℕ, length, ◌+◌, ◌*◌, ◌≤◌, ◌≡◌, ◌↔◌, refl, [], ◌∷◌, some, arith, ok}
use libcoin.Base.Int.{pos}
use libcoin.Transaction.{Transaction}
use libcoin.Chain.Check.{max_money, check_transaction}
use libcoin.Chain.Check.Laws.{IsWellFormed, check_transaction-IsWellFormed}
use libcoin.Block.{Block}
use libcoin.Chain.BlockCheck.{check_block, IsValidBlock, check_block-IsValidBlock}
use libcoin.Chain.Subsidy.{bitcoin_subsidy, halving_subsidy, issued, issued-le-max_money}

abbrev spend : Transaction
spend = record {
  version = 1;
  inputs = record { prevout = record { hash = 5; index = 0 }; signature = []; sequence = 0 } ∷ [];
  outputs = record { value = pos 7; script = [] } ∷ [];
  lock_time = 0;
}

check_transaction-IsWellFormed_example : (check_transaction spend ≡ ok tt) ↔ IsWellFormed spend
check_transaction-IsWellFormed_example = check_transaction-IsWellFormed spend

first_halving : bitcoin_subsidy 210000 ≡ some 2500000000
unfolding bitcoin_subsidy halving_subsidy
first_halving = refl

issued-le-max_money_example :
    (total : ℕ) × (issued bitcoin_subsidy 420000 ≡ some total) × (total ≤ max_money)
issued-le-max_money_example = issued-le-max_money 420000 (omega arith)

abbrev minted : Transaction
minted = record {
  version = 1;
  inputs =
      record {
        prevout = record { hash = 0; index = 0xffff_ffff };
        signature = 1 ∷ 2 ∷ [];
        sequence = 0;
      }
      ∷ [];
  outputs = record { value = pos 7; script = 172 ∷ [] } ∷ [];
  lock_time = 0;
}

abbrev small_block : Block
small_block = record {
  header = record {
    version = 1;
    prev_block = 3;
    merkle_root = 70;
    time = 1000;
    bits = 5;
    nonce = 6;
  };
  transactions = minted ∷ spend ∷ [];
}

abbrev pair_hash : ℕ → ℕ → ℕ
pair_hash a b = a + 2 * b

check_block-IsValidBlock_example :
    (check_block length pair_hash 900 small_block ≡ ok tt)
    ↔ IsValidBlock length pair_hash 900 small_block
check_block-IsValidBlock_example = check_block-IsValidBlock length pair_hash 900 small_block
