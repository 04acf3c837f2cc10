-- ===== src/Claims/Restore.antt =====
-- `erase` takes back what `insert` did to the confirmations and the scripts.
use mathlib.Core.List.{append_assoc, append-nil}
use libcoin.Base.{
  ℕ, suc, ◌+◌, ◌^◌, ◌<◌, ◌≡◌, ◌≢◌, ◌∙◌, refl, ap, sym, true, false, ◌&&◌, List, [], ◌∷◌, ◌++◌,
  Bytes, none, some, arith, inl, inr, ◌==◌, Bool-cases, ok, All,
}
use libcoin.Base.Int.{ℤ}
use libcoin.Base.Map.{lookup, lookup-insert, lookup-erase}
use libcoin.Message.Header.{same_bytes}
use libcoin.Transaction.{Transaction, Coin, Output, coin_eq}
use libcoin.Claims.{Claim, Claims, own_size, has, insert_outputs, insert_transaction}
use libcoin.Claims.Order.{weight, IsPool}
use libcoin.Claims.Pool.{prevouts}
use libcoin.Claims.Queue.{IsQueue, IsQueue-AreKnown, insert_priority-known, erase_priority-known}
use libcoin.Claims.Insertion.{with_claim, insert_transaction-IsConfirmed, claim_of, confirmed}
use libcoin.Claims.Expiry.{without_claim, erase_claim_is}
use libcoin.Claims.Removal.{erase_claim, erase_script, erase_outputs}

-- The entries of the outputs of a transaction.
abbrev entries : ℕ → ℕ → List Output → List (Bytes × Coin)
entries h idx [] = []
entries h idx (o ∷ os) = (o.script, record { hash = h; index = idx }) ∷ entries h (suc idx) os

insert_outputs-entries :
    (h idx : ℕ) (os : List Output) (es : List (Bytes × Coin))
    → insert_outputs h idx os es ≡ es ++ entries h idx os
unfolding insert_outputs
insert_outputs-entries h idx [] es = sym (append-nil es)
insert_outputs-entries h idx (o ∷ os) es =
    insert_outputs-entries h (suc idx) os (es ++ (o.script, record { hash = h; index = idx }) ∷ [])
    ∙ append_assoc es ((o.script, record { hash = h; index = idx }) ∷ []) (entries h (suc idx) os)

-- No entry is of a transaction with this hash.
abbrev pub AreOthers : ℕ → List (Bytes × Coin) → Type 0
AreOthers h = All (λ e. e.1.hash ≢ h)

same_bytes_self : (s : Bytes) → same_bytes s s ≡ true
unfolding same_bytes
same_bytes_self [] = refl
same_bytes_self (b ∷ bs) = ground (arith, same_bytes_self bs)

erase_script_first :
    (s : Bytes) (c : Coin) (es rest : List (Bytes × Coin))
    → AreOthers c.hash es
    → erase_script s c (es ++ (s, c) ∷ rest) ≡ es ++ rest
unfolding erase_script
erase_script_first s c [] rest others =
    let index : (c.index == c.index) ≡ true = ground arith in
    let hash : (c.hash == c.hash) ≡ true = ground arith in rw (same_bytes_self s, hash, index) refl
erase_script_first s c (e ∷ es) rest others =
    let other : (e.1.hash == c.hash) ≡ false = ground (arith, others.0) in
    let no : same_bytes s e.0 && coin_eq e.1 c ≡ false = elim (Bool-cases (same_bytes s e.0)) [
      | inl same ↦ rw (same, other) refl
      | inr differ ↦ rw differ refl
    ] in
    rw (no, erase_script_first s c es rest others.1) refl

erase_outputs-entries :
    (h idx : ℕ) (os : List Output) (es : List (Bytes × Coin))
    → AreOthers h es
    → erase_outputs h idx os (es ++ entries h idx os) ≡ es
unfolding erase_outputs
erase_outputs-entries h idx [] es others = append-nil es
erase_outputs-entries h idx (o ∷ os) es others =
    ap (erase_outputs h (suc idx) os) (
      erase_script_first o.script (record { hash = h; index = idx }) es (entries h (suc idx) os)
        others)
    ∙ erase_outputs-entries h (suc idx) os es others

-- Where `insert` of a new transaction succeeds as in a sound pool, and no entry of the scripts is of it,
-- `erase` of its hash succeeds too, and leaves the confirmations and the scripts as they were.
pub erase_claim-insert_transaction :
    (txn_hash : Transaction → ℕ) (p : Claims) (txn : Transaction) (spents : List Coin) (fee : ℤ)
    (ts now : ℕ) (rank : ℕ → ℕ) (bound : ℕ)
    → IsPool txn_hash p.confirmations rank bound
    → IsQueue p.confirmations p.priorities
    → lookup (txn_hash txn) p.confirmations ≡ none
    → ((g : ℕ) (c : Claim)
        → lookup g p.confirmations ≡ some c
        → has (txn_hash txn) c.depends ≡ false)
    → 0 < own_size txn
    → own_size txn + weight p.confirmations (prevouts txn.inputs) < 2 ^ 32
    → AreOthers (txn_hash txn) p.scripts
    → (q : Claims) × (r : Claims) × (insert_transaction txn_hash p txn spents fee ts now ≡ ok q)
      × (erase_claim q (txn_hash txn) ≡ ok r)
      × ((x : ℕ) → lookup x r.confirmations ≡ lookup x p.confirmations)
      × (r.scripts ≡ p.scripts)
erase_claim-insert_transaction txn_hash p txn spents fee ts now rank bound pool queue fresh unused
      some_bytes small others =
    let done =
      insert_transaction-IsConfirmed txn_hash p txn spents fee ts now rank bound pool queue fresh
        unused some_bytes small in
    let h = txn_hash txn in
    let claim = claim_of p txn fee ts now in
    let after = confirmed txn_hash p txn fee ts now in
    let (qs, result, known) =
      insert_priority-known after h claim done.first p.priorities
        (IsQueue-AreKnown after p.priorities done.queue) in
    let (left, result') = erase_priority-known after h claim done.first qs known in
    let q = with_claim txn_hash p txn spents claim qs in
    (
      q,
      without_claim q h claim left,
      done.returns qs result,
      erase_claim_is q h claim left done.first result',
      (λ x. lookup-erase x h q.confirmations ∙ elim (Bool-cases (x == h)) [
        | inl same ↦
            let same' : x ≡ h = ground arith in
            rw same (sym (ap (λ y. lookup y p.confirmations) same' ∙ fresh))
        | inr other ↦ rw other (lookup-insert x h claim p.confirmations ∙ rw other refl)
      ]),
      ap (λ (t : Transaction). erase_outputs h 0 t.outputs q.scripts) done.txn_is
          ∙ ap (erase_outputs h 0 txn.outputs) (insert_outputs-entries h 0 txn.outputs p.scripts)
          ∙ erase_outputs-entries h 0 txn.outputs p.scripts others,
    )
