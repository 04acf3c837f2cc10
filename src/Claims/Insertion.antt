-- ===== src/Claims/Insertion.antt =====
-- `insert` keeps the pool one that `transactions` can list.
use libcoin.Base.{
  ℕ, suc, ◌+◌, ◌^◌, ◌<◌, ◌≤◌, ◌≡◌, ◌⊎◌, ◌∙◌, refl, ap, true, false, List, [], ◌∷◌, none, some,
  arith, inl, inr, ◌==◌, if◌then◌else◌, Bool-cases, ok,
}
use libcoin.Base.Int.{ℤ}
use libcoin.Base.Map.{Map, lookup, insert, lookup-insert}
use libcoin.Transaction.{Transaction, Coin}
use libcoin.Claims.{
  Claim, Claims, own_size, has, new_claim, add_depends, insert_new, insert_priority,
  insert_transaction, insert_coins, insert_outputs,
}
use libcoin.Claims.Order.{weight, IsPool}
use libcoin.Claims.Pool.{prevouts, weight-found, found-absent, add_depends-IsDependent}
use libcoin.Claims.Rank.{AreInRange}
use libcoin.Claims.Queue.{IsQueue, IsQueue-known, IsQueue-keeps, insert_priority-IsQueue}

-- The ranks with one hash above all.
abbrev pub raised : (ℕ → ℕ) → ℕ → ℕ → ℕ → ℕ
raised rank bound h x = if x == h then bound else rank x

module _ (conf after : Map Claim) (h : ℕ) (claim : Claim)
    (changed : (x : ℕ) → lookup x after ≡ (if x == h then some claim else lookup x conf)) where
  weight-changed : (ds : List ℕ) → has h ds ≡ false → weight after ds ≡ weight conf ds
  weight-changed [] out = refl
  weight-changed (d ∷ ds) out =
      let other : (d == h) ≡ false = ground arith in
      let same : lookup d after ≡ lookup d conf = changed d ∙ rw other refl in
      rw (weight, same) (ap (◌+◌ _) (weight-changed ds (ground arith)))

  module _ (txn_hash : Transaction → ℕ) (rank : ℕ → ℕ) (bound : ℕ)
      (pool : IsPool txn_hash conf rank bound) (name : txn_hash claim.txn ≡ h)
      (alone : has h claim.depends ≡ false) (positive : 0 < claim.size)
      (heavy : own_size claim.txn + weight conf claim.depends ≤ claim.size)
      (unused : (g : ℕ) (c : Claim) → lookup g conf ≡ some c → has h c.depends ≡ false) where
    -- A claim of the new pool is the new one, or one of before.
    new_or_old :
        (g : ℕ) (c : Claim)
        → lookup g after ≡ some c
        → (((g == h) ≡ true) × (c ≡ claim)) ⊎ (((g == h) ≡ false) × (lookup g conf ≡ some c))
    new_or_old g c at = elim (Bool-cases (g == h)) [
      | inl same ↦ inl (same, ground (arith, changed g))
      | inr other ↦ inr (other, ground (arith, changed g))
    ]

    unneeded : (g : ℕ) (c : Claim) → lookup g after ≡ some c → has h c.depends ≡ false
    unneeded g c at = elim (new_or_old g c at) [
      | inl (_, is) ↦ ap (λ (d : Claim). has h d.depends) is ∙ alone
      | inr (_, old) ↦ unused g c old
    ]

    changed_below :
        (g : ℕ) (c : Claim) (d : ℕ) (e : Claim)
        → lookup g after ≡ some c
        → has d c.depends ≡ true
        → lookup d after ≡ some e
        → raised rank bound h d < raised rank bound h g
    changed_below g c d e at needs there = elim (new_or_old d e there) [
      | inl (same, _) ↦
          let same' : d ≡ h = ground arith in
          let out = unneeded g c at in
          let both = ap (λ x. has x c.depends) same' in absurd (ground arith)
      | inr (other, old) ↦ elim (new_or_old g c at) [
        | inl (same, _) ↦ rw (other, same) (pool.ranked d e old)
        | inr (other', old') ↦ rw (other, other') (pool.below g c d e old' needs old)
      ]
    ]

    pub changed-IsPool : IsPool txn_hash after (raised rank bound h) (suc bound)
    changed-IsPool = record {
      named = λ g c at. elim (new_or_old g c at) [
        | inl (same, is) ↦ ap (λ (d : Claim). txn_hash d.txn) is ∙ name ∙ ground arith
        | inr (_, old) ↦ pool.named g c old
      ];
      ranked = λ g c at. elim (new_or_old g c at) [
        | inl (same, is) ↦ rw same (omega arith)
        | inr (other, old) ↦ rw other (let r = pool.ranked g c old in omega arith)
      ];
      below = changed_below;
      sized = λ g c at. elim (new_or_old g c at) [
        | inl (_, is) ↦ omega (arith, positive, ap Claim.size is)
        | inr (_, old) ↦ pool.sized g c old
      ];
      weighs = λ g c at.
          let same_weight = weight-changed c.depends (unneeded g c at) in
          elim (new_or_old g c at) [
            | inl (_, is) ↦ omega (
              arith,
              heavy,
              ap (λ (d : Claim). own_size d.txn) is,
              ap Claim.size is,
              ap (λ (d : Claim). weight conf d.depends) is,
            )
            | inr (_, old) ↦ let w = pool.weighs g c old in omega arith
          ];
    }

-- The pool with the claim of a transaction that is new to it, and these priorities.
abbrev pub with_claim :
    (Transaction → ℕ) → Claims → Transaction → List Coin → Claim → List ℕ → Claims
with_claim txn_hash p txn spents claim qs = record {
  confirmations = insert (txn_hash txn) claim p.confirmations;
  priorities = qs;
  spents = insert_coins spents p.spents;
  scripts = insert_outputs (txn_hash txn) 0 txn.outputs p.scripts;
}

insert_transaction_is :
    (txn_hash : Transaction → ℕ) (p : Claims) (txn : Transaction) (spents : List Coin) (fee : ℤ)
    (ts now : ℕ) (claim : Claim) (qs : List ℕ)
    → add_depends p.confirmations txn.inputs (new_claim txn fee ts now) ≡ claim
    → lookup (txn_hash txn) p.confirmations ≡ none
    → insert_priority (insert (txn_hash txn) claim p.confirmations) (txn_hash txn) p.priorities
      ≡ ok qs
    → insert_transaction txn_hash p txn spents fee ts now
      ≡ ok (with_claim txn_hash p txn spents claim qs)
unfolding insert_transaction insert_new
insert_transaction_is txn_hash p txn spents fee ts now claim qs is fresh result =
    let new : insert_new (txn_hash txn) claim p.confirmations
        ≡ insert (txn_hash txn) claim p.confirmations =
      rw (insert_new, fresh) refl in
    rw (is, new, result) refl

-- The claim that `insert` makes, and the confirmations with it.
abbrev pub claim_of : Claims → Transaction → ℤ → ℕ → ℕ → Claim
claim_of p txn fee ts now = add_depends p.confirmations txn.inputs (new_claim txn fee ts now)

abbrev pub confirmed : (Transaction → ℕ) → Claims → Transaction → ℤ → ℕ → ℕ → Map Claim
confirmed txn_hash p txn fee ts now =
    insert (txn_hash txn) (claim_of p txn fee ts now) p.confirmations

-- What `insert` does before it comes to the priorities, and what it returns after.
pub record IsConfirmed (txn_hash : Transaction → ℕ) (p : Claims) (txn : Transaction)
    (spents : List Coin) (fee : ℤ) (ts now : ℕ) (rank : ℕ → ℕ) (bound : ℕ) : Type 0 where
  pub txn_is : (claim_of p txn fee ts now).txn ≡ txn
  pub first :
      lookup (txn_hash txn) (confirmed txn_hash p txn fee ts now) ≡ some (claim_of p txn fee ts now)
  pub pool :
      IsPool txn_hash
        (confirmed txn_hash p txn fee ts now)
        (raised rank bound (txn_hash txn))
        (suc bound)
  pub queue : IsQueue (confirmed txn_hash p txn fee ts now) p.priorities
  pub returns :
      (qs : List ℕ)
      → insert_priority (confirmed txn_hash p txn fee ts now) (txn_hash txn) p.priorities ≡ ok qs
      → insert_transaction txn_hash p txn spents fee ts now
        ≡ ok (with_claim txn_hash p txn spents (claim_of p txn fee ts now) qs)

pub insert_transaction-IsConfirmed :
    (txn_hash : Transaction → ℕ) (p : Claims) (txn : Transaction) (spents : List Coin) (fee : ℤ)
    (ts now : ℕ) (rank : ℕ → ℕ) (bound : ℕ)
    → IsPool txn_hash p.confirmations rank bound
    → IsQueue p.confirmations p.priorities
    → lookup (txn_hash txn) p.confirmations ≡ none
    → ((g : ℕ) (c : Claim)
        → lookup g p.confirmations ≡ some c
        → has (txn_hash txn) c.depends ≡ false)
    → 0 < own_size txn
    → own_size txn + weight p.confirmations (prevouts txn.inputs) < 2 ^ 32
    → IsConfirmed txn_hash p txn spents fee ts now rank bound
unfolding new_claim
insert_transaction-IsConfirmed txn_hash p txn spents fee ts now rank bound pool queue fresh unused
      some_bytes small =
    let conf = p.confirmations in
    let h = txn_hash txn in
    let claim = claim_of p txn fee ts now in
    let after = insert h claim conf in
    let d =
      add_depends-IsDependent conf txn.inputs (new_claim txn fee ts now)
        (omega (arith, weight-found conf txn.inputs)) in
    let changed = λ (x : ℕ). lookup-insert x h claim conf in
    let heavy : own_size claim.txn + weight conf claim.depends ≤ claim.size =
      omega (arith, ap own_size d.txn_is, ap (weight conf) d.depends_are, d.size_is) in
    record {
      txn_is = d.txn_is;
      first = changed h ∙ ground arith;
      pool =
          changed-IsPool conf after h claim changed txn_hash rank bound pool (ap txn_hash d.txn_is)
            (ap (has h) d.depends_are ∙ found-absent conf h txn.inputs fresh)
            (omega (arith, heavy, ap own_size d.txn_is)) heavy unused;
      queue =
          IsQueue-keeps conf after p.priorities
            (λ q there. changed q ∙ elim (Bool-cases (q == h)) [
              | inl same ↦
                  let (c, at) = IsQueue-known conf p.priorities q queue there in
                  let same' : q ≡ h = ground arith in
                  let both = ap (λ x. lookup x conf) same' in absurd (ground arith)
              | inr other ↦ rw other refl
            ])
            queue;
      returns = λ qs result.
          insert_transaction_is txn_hash p txn spents fee ts now claim qs refl fresh result;
    }

-- `insert` of a transaction that is not in the pool, and that no claim depends on, succeeds where the
-- priorities are in order, each with its claim; its size, which is not 0, is below 2 ^ 32 with those of
-- the claims that it depends on; and the products of the fee of one claim of the pool and the size of
-- one, with the new claim among them, are in the range of `int64_t`. The pool stays one whose claims do
-- not depend on themselves, as the ranks with the new one above all show, and cover with their sizes
-- those that they depend on; and the priorities stay in order, each with its claim.
pub insert_transaction-IsPool :
    (txn_hash : Transaction → ℕ) (p : Claims) (txn : Transaction) (spents : List Coin) (fee : ℤ)
    (ts now : ℕ) (rank : ℕ → ℕ) (bound : ℕ)
    → IsPool txn_hash p.confirmations rank bound
    → IsQueue p.confirmations p.priorities
    → lookup (txn_hash txn) p.confirmations ≡ none
    → ((g : ℕ) (c : Claim)
        → lookup g p.confirmations ≡ some c
        → has (txn_hash txn) c.depends ≡ false)
    → 0 < own_size txn
    → own_size txn + weight p.confirmations (prevouts txn.inputs) < 2 ^ 32
    → AreInRange (confirmed txn_hash p txn fee ts now)
    → (q : Claims) × (insert_transaction txn_hash p txn spents fee ts now ≡ ok q)
      × IsPool txn_hash q.confirmations (raised rank bound (txn_hash txn)) (suc bound)
      × IsQueue q.confirmations q.priorities
insert_transaction-IsPool txn_hash p txn spents fee ts now rank bound pool queue fresh unused
      some_bytes small in_range =
    let done =
      insert_transaction-IsConfirmed txn_hash p txn spents fee ts now rank bound pool queue fresh
        unused some_bytes small in
    let claim = claim_of p txn fee ts now in
    let (qs, result, from, ordered) =
      insert_priority-IsQueue (confirmed txn_hash p txn fee ts now) (txn_hash txn) claim done.first
        p.priorities done.pool.sized in_range done.queue in
    (with_claim txn_hash p txn spents claim qs, done.returns qs result, done.pool, ordered)
