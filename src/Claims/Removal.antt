-- ===== src/Claims/Removal.antt =====
-- `erase` and `purge` of src/coinChain/Claims.cpp.
use libcoin.Base.{
  ℕ, suc, ◌&&◌, List, [], ◌∷◌, Bytes, none, some, ltb, if◌then◌else◌, Result, ok, ◌>>=◌,
}
use libcoin.Base.Map.{Map, empty, entry, lookup, erase}
use libcoin.Message.Header.{same_bytes}
use libcoin.Transaction.{Coin, Input, Output, coin_eq}
use libcoin.Claims.{Claim, Claims, ClaimsError, claim_at, less}

unfoldable pub erase_coin : Coin → List Coin → List Coin
erase_coin c [] = []
erase_coin c (d ∷ ds) = if coin_eq c d then erase_coin c ds else d ∷ erase_coin c ds

unfoldable pub erase_inputs : List Input → List Coin → List Coin
erase_inputs [] ds = ds
erase_inputs (i ∷ is) ds = erase_inputs is (erase_coin i.prevout ds)

-- The first of the entries of a script with this coin is removed.
unfoldable pub erase_script : Bytes → Coin → List (Bytes × Coin) → List (Bytes × Coin)
erase_script s c [] = []
erase_script s c (e ∷ es) =
    if same_bytes s e.0 && coin_eq e.1 c then es else e ∷ erase_script s c es

unfoldable pub erase_outputs : ℕ → ℕ → List Output → List (Bytes × Coin) → List (Bytes × Coin)
erase_outputs h idx [] es = es
erase_outputs h idx (o ∷ os) es =
    erase_outputs h (suc idx) os (erase_script o.script (record { hash = h; index = idx }) es)

-- `_priorities.erase(hash)`: the one of the same rank goes.
unfoldable pub erase_priority : Map Claim → ℕ → List ℕ → Result ClaimsError (List ℕ)
erase_priority conf h [] = ok []
erase_priority conf h (p ∷ ps) = do
  c ← claim_at conf h
  d ← claim_at conf p
  let further = do rest ← erase_priority conf h ps; ok (p ∷ rest)
  if less d c then further else if less c d then ok (p ∷ ps) else ok ps

-- `erase(hash)`.
unfoldable pub erase_claim : Claims → ℕ → Result ClaimsError Claims
erase_claim p h = elim (lookup h p.confirmations) [
  | none ↦ ok p
  | some c ↦ do
    priorities ← erase_priority p.confirmations h p.priorities
    ok (record {
      confirmations = erase h p.confirmations;
      priorities = priorities;
      spents = erase_inputs c.txn.inputs p.spents;
      scripts = erase_outputs h 0 c.txn.outputs p.scripts;
    })
]

-- The hashes of the claims older than `before`.
unfoldable pub death_row : ℕ → Map Claim → List ℕ
death_row before empty = []
death_row before (entry h c m) =
    if ltb c.timestamp before then h ∷ death_row before m else death_row before m

unfoldable pub erase_each : List ℕ → Claims → Result ClaimsError Claims
erase_each [] p = ok p
erase_each (h ∷ hs) p = do p' ← erase_claim p h; erase_each hs p'

-- `purge(before)`.
unfoldable pub purge : Claims → ℕ → Result ClaimsError Claims
purge p before = erase_each (death_row before p.confirmations) p
