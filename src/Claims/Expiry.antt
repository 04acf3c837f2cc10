-- ===== src/Claims/Expiry.antt =====
-- `erase` and `purge` keep the pool sound.
use libcoin.Base.{
  ℕ, ◌≤◌, ◌≡◌, ◌⊎◌, ◌∙◌, refl, ap, sym, Bool, false, List, [], ◌∷◌, none, some, arith, inl, inr,
  ◌==◌, if◌then◌else◌, Bool-cases, Option-cases, ltb, ok,
}
use libcoin.Base.Map.{Map, empty, entry, lookup, erase, lookup-erase, HasUniqueKeys}
use libcoin.Transaction.{Transaction}
use libcoin.Claims.{Claim, Claims, has}
use libcoin.Claims.Order.{weight, IsPool}
use libcoin.Claims.Queue.{IsQueue, IsQueue-keeps, erase_priority-IsQueue}
use libcoin.Claims.Removal.{
  erase_priority, erase_claim, erase_inputs, erase_outputs, erase_each, death_row, purge,
}

-- The claims that are left are some of those that were there.
abbrev IsPart : Map Claim → Map Claim → Type 0
IsPart conf after = (x : ℕ) → (lookup x after ≡ none) ⊎ (lookup x after ≡ lookup x conf)

module _ (conf after : Map Claim) (part : IsPart conf after) where
  weight-part : (ds : List ℕ) → weight after ds ≤ weight conf ds
  weight-part [] = omega arith
  weight-part (d ∷ ds) = elim (part d) [
    | inl gone ↦ let rest = weight-part ds in rw (weight, gone) (omega arith)
    | inr same ↦ let rest = weight-part ds in rw (weight, same) (omega arith)
  ]

  was : (x : ℕ) (c : Claim) → lookup x after ≡ some c → lookup x conf ≡ some c
  was x c at = elim (part x) [ inl gone ↦ absurd (ground arith) | inr same ↦ sym same ∙ at ]

  part-IsPool :
      (txn_hash : Transaction → ℕ) (rank : ℕ → ℕ) (bound : ℕ)
      → IsPool txn_hash conf rank bound
      → IsPool txn_hash after rank bound
  part-IsPool txn_hash rank bound pool = record {
    named = λ h c at. pool.named h c (was h c at);
    ranked = λ h c at. pool.ranked h c (was h c at);
    below = λ h c d e at needs there. pool.below h c d e (was h c at) needs (was d e there);
    sized = λ h c at. pool.sized h c (was h c at);
    weighs = λ h c at. omega (arith, pool.weighs h c (was h c at), weight-part c.depends);
  }

-- The pool without a claim, and with these priorities.
abbrev pub without_claim : Claims → ℕ → Claim → List ℕ → Claims
without_claim p h c qs = record {
  confirmations = erase h p.confirmations;
  priorities = qs;
  spents = erase_inputs c.txn.inputs p.spents;
  scripts = erase_outputs h 0 c.txn.outputs p.scripts;
}

pub erase_claim_is :
    (p : Claims) (h : ℕ) (c : Claim) (qs : List ℕ)
    → lookup h p.confirmations ≡ some c
    → erase_priority p.confirmations h p.priorities ≡ ok qs
    → erase_claim p h ≡ ok (without_claim p h c qs)
unfolding erase_claim
erase_claim_is p h c qs at result = rw (erase_claim, at, result) refl

-- A pool that `transactions` can list, with its priorities in order.
abbrev pub IsSound : (Transaction → ℕ) → (ℕ → ℕ) → ℕ → Claims → Type 0
IsSound txn_hash rank bound p =
    IsPool txn_hash p.confirmations rank bound × IsQueue p.confirmations p.priorities

module _ (txn_hash : Transaction → ℕ) (rank : ℕ → ℕ) (bound : ℕ) where
  -- `erase` takes the claim of this hash from the pool, and no other.
  abbrev Erased : Claims → (ℕ → Bool) → Claims → Type 0
  Erased p gone q =
      ((x : ℕ) → lookup x q.confirmations ≡ (if gone x then none else lookup x p.confirmations))
      × IsSound txn_hash rank bound q

  pub erase_claim-Erased :
      (p : Claims) (h : ℕ)
      → IsSound txn_hash rank bound p
      → (q : Claims) × (erase_claim p h ≡ ok q) × Erased p (λ x. x == h) q
  unfolding erase_claim
  erase_claim-Erased p h (pool, queue) = elim (Option-cases (lookup h p.confirmations)) [
    | inl absent ↦ (
      p,
      rw (erase_claim, absent) refl,
      (
        (λ x. elim (Bool-cases (x == h)) [
          | inl same ↦ ap (λ y. lookup y p.confirmations) (ground arith) ∙ absent ∙ rw same refl
          | inr other ↦ rw other refl
        ]),
        (pool, queue),
      ),
    )
    | inr (c, at) ↦
        let conf = p.confirmations in
        let left = λ (x : ℕ). lookup-erase x h conf in
        let (qs, result, from, good) = erase_priority-IsQueue conf h c at p.priorities queue in
        (
          without_claim p h c qs,
          erase_claim_is p h c qs at result,
          (
            left,
            (
              part-IsPool conf (erase h conf)
                  (λ x. elim (Bool-cases (x == h)) [
                    | inl same ↦ inl (left x ∙ rw same refl)
                    | inr other ↦ inr (left x ∙ rw other refl)
                  ])
                  txn_hash rank bound pool,
              IsQueue-keeps conf (erase h conf) qs (λ q is. left q ∙ rw (from q is).1 refl) good,
            ),
          ),
        )
  ]

  erase_each-Erased :
      (hs : List ℕ) (p : Claims)
      → IsSound txn_hash rank bound p
      → (q : Claims) × (erase_each hs p ≡ ok q) × Erased p (λ x. has x hs) q
  unfolding erase_each
  erase_each-Erased [] p sound = (p, refl, (λ x. refl, sound))
  erase_each-Erased (h ∷ hs) p sound =
      let (q, result, (left, sound')) = erase_claim-Erased p h sound in
      let (r, result', (left', sound'')) = erase_each-Erased hs q sound' in
      (r, rw result result', (λ x. left' x ∙ ground (arith, left x), sound''))

has-death_row-key :
    (before x : ℕ) (m : Map Claim) → lookup x m ≡ none → has x (death_row before m) ≡ false
unfolding death_row lookup
has-death_row-key before x empty absent = refl
has-death_row-key before x (entry h c m) absent = elim (Bool-cases (x == h)) [
  | inl same ↦ absurd (ground arith)
  | inr other ↦
      let rest = has-death_row-key before x m (ground arith) in
      elim (Bool-cases (ltb c.timestamp before)) [
        | inl old ↦ rw (old, other) rest
        | inr new ↦ rw new rest
      ]
]

has-death_row :
    (before x : ℕ) (m : Map Claim) (c : Claim)
    → HasUniqueKeys m
    → lookup x m ≡ some c
    → has x (death_row before m) ≡ ltb c.timestamp before
unfolding death_row lookup
has-death_row before x empty c keys at = absurd (ground arith)
has-death_row before x (entry h d m) c keys at = elim (Bool-cases (x == h)) [
  | inl same ↦
      let same' : x ≡ h = ground arith in
      let rest = has-death_row-key before x m (ap (λ y. lookup y m) same' ∙ keys.0) in
      let first : d ≡ c = ground arith in
      let stamp = ap (λ (e : Claim). ltb e.timestamp before) first in
      elim (Bool-cases (ltb d.timestamp before)) [
        | inl old ↦ rw (old, same) (sym old ∙ stamp)
        | inr new ↦ rw new (rest ∙ sym new ∙ stamp)
      ]
  | inr other ↦
      let rest = has-death_row before x m c keys.1 (ground arith) in
      elim (Bool-cases (ltb d.timestamp before)) [
        | inl old ↦ rw (old, other) rest
        | inr new ↦ rw new rest
      ]
]

-- `purge` of a sound pool succeeds and the pool stays sound: the claims older than `before` are gone,
-- and the others are as they were.
pub purge-IsSound :
    (txn_hash : Transaction → ℕ) (rank : ℕ → ℕ) (bound : ℕ) (p : Claims) (before : ℕ)
    → IsSound txn_hash rank bound p
    → HasUniqueKeys p.confirmations
    → (q : Claims) × (purge p before ≡ ok q)
      × IsSound txn_hash rank bound q
      × ((x : ℕ) (c : Claim)
          → lookup x p.confirmations ≡ some c
          → lookup x q.confirmations ≡ (if ltb c.timestamp before then none else some c))
      × ((x : ℕ) → lookup x p.confirmations ≡ none → lookup x q.confirmations ≡ none)
unfolding purge
purge-IsSound txn_hash rank bound p before sound keys =
    let conf = p.confirmations in
    let (q, result, (left, sound')) =
      erase_each-Erased txn_hash rank bound (death_row before conf) p sound in
    (
      q,
      result,
      sound',
      λ x c at. left x ∙ rw (has-death_row before x conf c keys at, at) refl,
      λ x absent. left x ∙ rw (has-death_row-key before x conf absent) absent,
    )
