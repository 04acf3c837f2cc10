-- ===== src/Claims.antt =====
-- The memory pool: include/coinChain/Claims.h and src/coinChain/Claims.cpp. `txn_hash` stands for
-- `getHash` of a transaction. The confirmations are a map by hash; `std::set` of coins is a list without
-- duplicates, `std::set` with the order of the fees a list in that order, and the multimap of the scripts
-- a list in the order of insertion. Sizes are kept as `unsigned int`, and sums and products of fees as
-- `int64_t`, which wrap where they overflow.
pub mod Removal
pub mod Order
pub mod Pool
pub mod Insertion
pub mod Rank
pub mod Queue
pub mod Expiry
pub mod Threshold
pub mod Restore
use libcoin.Base.{
  ℕ, zero, suc, ◌+◌, ◌-◌, ◌*◌, ◌%◌, ◌^◌, Bool, true, false, ◌&&◌, ◌||◌, List, [], ◌∷◌, ◌++◌, Bytes,
  Option, none, some, get_elem?, length, ltb, leb, ◌==◌, if◌then◌else◌, Result, ok, err, ◌>>=◌,
}
use libcoin.Base.Int.{ℤ, pos, ◌+ℤ◌, ◌-ℤ◌, ◌*ℤ◌, ltb_ℤ, wrap, add64}
use libcoin.Base.Map.{Map, empty, entry, lookup, insert, erase}
use libcoin.Chain.Check.{max_block_size}
use libcoin.Message.Header.{same_bytes}
use libcoin.Transaction.{Coin, Input, Output, Transaction, coin_eq, null_output, serialize_size}

pub record Claim : Type 0 where
  pub txn : Transaction
  pub timestamp : ℕ
  pub size : ℕ
  pub fee : ℤ
  pub delta_spendables : ℤ
  pub depends : List ℕ

pub record Claims : Type 0 where
  pub confirmations : Map Claim
  pub priorities : List ℕ
  pub spents : List Coin
  pub scripts : List (Bytes × Coin)

-- `undefined` is a dereference of `end()` or an access out of range, and `no_fuel` a loop or a recursion
-- of the model that ran out.
pub data ClaimsError : Type 0 where
  undefined no_fuel : ClaimsError

-- `serialize_size(txn)`, kept as an `unsigned int`.
abbrev pub own_size : Transaction → ℕ
own_size txn = serialize_size txn % 2 ^ 32

-- What a transaction adds to the outputs to spend, an `int`.
abbrev pub delta_of : Transaction → ℤ
delta_of txn = wrap (2 ^ 32) (pos (length txn.outputs) -ℤ pos (length txn.inputs))

-- `Claim(txn, fee, ts)`; `now` is the clock.
unfoldable pub new_claim : Transaction → ℤ → ℕ → ℕ → Claim
new_claim txn fee ts now = record {
  txn = txn;
  timestamp = if ts == 0 then now else ts;
  size = own_size txn;
  fee = fee;
  delta_spendables = delta_of txn;
  depends = [];
}

-- `l.fee * r.size`, an `int64_t`.
unfoldable pub fee_times : Claim → Claim → ℤ
fee_times l r = wrap (2 ^ 64) (l.fee *ℤ pos r.size)

-- The order of the priorities: `OptimizeForFeeThenDeltaSpendables`.
unfoldable pub less : Claim → Claim → Bool
less l r =
    if ltb_ℤ (fee_times r l) (fee_times l r)
    then true
    else if ltb_ℤ (fee_times l r) (fee_times r l)
    then false
    else ltb_ℤ l.delta_spendables r.delta_spendables

-- `_confirmations.find(hash)->second`.
abbrev pub claim_at : Map Claim → ℕ → Result ClaimsError Claim
claim_at conf h = elim (lookup h conf) [ none ↦ err undefined | some c ↦ ok c ]

-- `_priorities.insert(hash)`: nothing where one of the same rank is there.
unfoldable pub insert_priority : Map Claim → ℕ → List ℕ → Result ClaimsError (List ℕ)
insert_priority conf h [] = ok (h ∷ [])
insert_priority conf h (p ∷ ps) = do
  c ← claim_at conf h
  d ← claim_at conf p
  let further = do rest ← insert_priority conf h ps; ok (p ∷ rest)
  if less c d then ok (h ∷ p ∷ ps) else if less d c then further else ok (p ∷ ps)

abbrev pub has_coin : Coin → List Coin → Bool
has_coin c [] = false
has_coin c (d ∷ ds) = coin_eq c d || has_coin c ds

-- `spent(coin)`.
unfoldable pub spent : Claims → Coin → Bool
spent p c = has_coin c p.spents

unfoldable pub insert_coins : List Coin → List Coin → List Coin
insert_coins [] ds = ds
insert_coins (c ∷ cs) ds = insert_coins cs (if has_coin c ds then ds else c ∷ ds)

unfoldable pub insert_outputs : ℕ → ℕ → List Output → List (Bytes × Coin) → List (Bytes × Coin)
insert_outputs h idx [] es = es
insert_outputs h idx (o ∷ os) es =
    insert_outputs h (suc idx) os (es ++ (o.script, record { hash = h; index = idx }) ∷ [])

-- The loop over the inputs that finds the claims that the new one depends on.
unfoldable pub add_depends : Map Claim → List Input → Claim → Claim
add_depends conf [] claim = claim
add_depends conf (i ∷ is) claim = elim (lookup i.prevout.hash conf) [
  | none ↦ add_depends conf is claim
  | some c ↦ add_depends conf is (record claim {
    depends = claim.depends ++ i.prevout.hash ∷ [];
    size = (claim.size + c.size) % 2 ^ 32;
    fee = add64 claim.fee c.fee;
    delta_spendables = wrap (2 ^ 32) (claim.delta_spendables +ℤ delta_of claim.txn);
  })
]

-- `_confirmations.insert`, which keeps the claim that is there.
unfoldable pub insert_new : ℕ → Claim → Map Claim → Map Claim
insert_new h c m = elim (lookup h m) [ none ↦ insert h c m | some d ↦ m ]

-- `prev(coin)`.
unfoldable pub prev : Claims → Coin → Output
prev p c = elim (lookup c.hash p.confirmations) [
  | none ↦ null_output
  | some claim ↦ elim (get_elem? claim.txn.outputs c.index) [ none ↦ null_output | some o ↦ o ]
]

-- `have(hash)`, and the time of a claim, `timestamp(hash)`.
unfoldable pub have : Claims → ℕ → Bool
have p h = elim (lookup h p.confirmations) [ none ↦ false | some c ↦ true ]

unfoldable pub timestamp_of : Claims → ℕ → ℕ
timestamp_of p h = elim (lookup h p.confirmations) [ none ↦ 0 | some c ↦ c.timestamp ]

-- The loop of `claimed`, over the entries of the scripts.
unfoldable pub claimed_of :
    Map Claim → Bytes → List (Bytes × Coin) → Result ClaimsError (List (Coin × Output))
claimed_of conf script [] = ok []
claimed_of conf script (e ∷ es) =
    let rest = claimed_of conf script es in
    let add = λ (c : Claim). (do
      o ← elim (get_elem? c.txn.outputs e.1.index) [ none ↦ err undefined | some o ↦ ok o ]
      outputs ← rest
      ok ((e.1, o) ∷ outputs)) in
    if same_bytes script e.0
    then elim (lookup e.1.hash conf) [ none ↦ rest | some c ↦ add c ]
    else rest

-- `claimed(script)`.
unfoldable pub claimed : Claims → Bytes → Result ClaimsError (List (Coin × Output))
claimed p script = claimed_of p.confirmations script p.scripts

-- The claims that wait in a list, with the hashes of them.
pub record Listing : Type 0 where
  pub txns : List Claim
  pub inserted : List ℕ

abbrev pub has : ℕ → List ℕ → Bool
has x [] = false
has x (y ∷ ys) = x == y || has x ys

-- The loop of `insert_claim` over the claims that a claim depends on, given what inserts one.
unfoldable pub insert_depends :
    Map Claim
    → (Claim → Listing → Result ClaimsError (ℕ × Listing))
    → List ℕ
    → Listing
    → Result ClaimsError (ℕ × Listing)
insert_depends conf one [] s = ok (0, s)
insert_depends conf one (h ∷ hs) s =
    let skip = insert_depends conf one hs s in
    elim (lookup h conf) [
      | none ↦ skip
      | some c ↦
          if has h s.inserted
          then skip
          else (do (n, s') ← one c s; (m, s'') ← insert_depends conf one hs s'; ok (n + m, s''))
    ]

module _ (txn_hash : Transaction → ℕ) where
  -- `insert(txn, spents, fee, ts)`.
  unfoldable pub insert_transaction :
      Claims → Transaction → List Coin → ℤ → ℕ → ℕ → Result ClaimsError Claims
  insert_transaction p txn spents fee ts now = do
    let claim = add_depends p.confirmations txn.inputs (new_claim txn fee ts now)
    let h = txn_hash txn
    let conf = insert_new h claim p.confirmations
    priorities ← insert_priority conf h p.priorities
    ok (record {
      confirmations = conf;
      priorities = priorities;
      spents = insert_coins spents p.spents;
      scripts = insert_outputs h 0 txn.outputs p.scripts;
    })

  -- `insert_claim(claim, txns, inserted)`, with the size that it returns.
  unfoldable pub insert_claim : ℕ → Map Claim → Claim → Listing → Result ClaimsError (ℕ × Listing)
  insert_claim zero conf c s = err no_fuel
  insert_claim (suc fuel) conf c s = do
    (n, s') ← insert_depends conf (λ d r. insert_claim fuel conf d r) c.depends s
    ok (n + c.size, record { txns = s'.txns ++ c ∷ []; inserted = txn_hash c.txn ∷ s'.inserted })

  -- The loop of `transactions` over the priorities, from the size and the fee so far.
  unfoldable pub list_claims :
      ℕ → Map Claim → List ℕ → ℕ → ℤ → Listing → Result ClaimsError (ℤ × Listing)
  list_claims fuel conf [] size fee s = ok (fee, s)
  list_claims fuel conf (p ∷ ps) size fee s =
      let skip = list_claims fuel conf ps size fee s in
      elim (lookup p conf) [
        | none ↦ skip
        | some c ↦
            if has p s.inserted
            then skip
            else if leb max_block_size (size + c.size)
            then ok (fee, s)
            else (do
              (n, s') ← insert_claim fuel conf c s
              list_claims fuel conf ps (size + n) (add64 fee c.fee) s')
      ]

  -- `transactions(fee, header_and_coinbase)`: the fee and the claims whose transactions are returned.
  unfoldable pub transactions : ℕ → Claims → ℕ → Result ClaimsError (ℤ × List Claim)
  transactions fuel p header = do
    (fee, s) ←
        list_claims fuel p.confirmations p.priorities header (pos 0)
          (record { txns = []; inserted = [] })
    ok (fee, s.txns)

-- The loop of `threshold`, which stays at the first of the priorities.
unfoldable pub threshold_from : ℕ → Map Claim → List ℕ → ℕ → ℤ → Result ClaimsError ℤ
threshold_from zero conf ps size fee = err no_fuel
threshold_from (suc fuel) conf [] size fee = ok fee
threshold_from (suc fuel) conf (p ∷ ps) size fee =
    let again = (do c ← claim_at conf p; threshold_from fuel conf (p ∷ ps) (size + c.size) c.fee) in
    if ltb size max_block_size then again else ok fee

-- `threshold(header_and_coinbase)`.
unfoldable pub threshold : ℕ → Claims → ℕ → Result ClaimsError ℤ
threshold fuel p header = threshold_from fuel p.confirmations p.priorities header (pos 0)
