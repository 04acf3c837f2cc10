-- ===== src/Tests/Pool.antt =====
-- A pool of two transactions, the second of which spends an output of the first.
use libcoin.Base.{
  ℕ, ◌+◌, ◌*◌, ◌^◌, ◌<◌, ◌≡◌, ◌⊎◌, refl, ap, sym, ◌∙◌, ◌≤◌, false, List, [], ◌∷◌, none, some, arith,
  inl, inr, ◌==◌, ltb, if◌then◌else◌, Bool-cases, ok,
}
use libcoin.Base.Int.{ℤ, pos, ◌*ℤ◌, ◌+ℤ◌, ◌-ℤ◌, wrap, add64, to_word, of_word, pos_part, neg_part}
use libcoin.Base.Map.{Map, empty, entry, lookup, lookup-insert}
use libcoin.Transaction.{
  Transaction, write_transaction, write_input, write_coin, write_script, write_output,
}
use libcoin.Serialize.Stream.{write_binary}
use libcoin.Serialize.VarInt.{write_varint}
use libcoin.Serialize.Container.{write_vector, write_all}
use mathlib.Core.Path.{subst}
use libcoin.Claims.{
  Claim, Claims, has, insert_transaction, transactions, threshold, insert_priority, less, own_size,
  fee_times, new_claim, add_depends,
}
use libcoin.Claims.Removal.{erase_claim, purge}
use libcoin.Claims.Order.{IsPool, weight}
use libcoin.Claims.Order.Room.{IsTemplate, transactions-IsTemplate}
use libcoin.Claims.Insertion.{raised, claim_of, confirmed, insert_transaction-IsPool}
use libcoin.Claims.Rank.{IsInRange, AreInRange}
use libcoin.Claims.Queue.{IsQueue}
use libcoin.Claims.Expiry.{IsSound, purge-IsSound}
use libcoin.Claims.Restore.{erase_claim-insert_transaction}
use libcoin.Claims.Threshold.{threshold-first, insert_priority_even}

abbrev spending : ℕ → ℕ → Transaction
spending lock_time hash = record {
  version = 1;
  inputs =
      record { prevout = record { hash = hash; index = 0 }; signature = []; sequence = 0 } ∷ [];
  outputs = record { value = pos 7; script = [] } ∷ [];
  lock_time = lock_time;
}

-- The transactions of this pool differ in their lock times.
abbrev name_of : Transaction → ℕ
name_of txn = txn.lock_time

abbrev first : Claim
first = record {
  txn = spending 1 9;
  timestamp = 100;
  size = 60;
  fee = pos 5;
  delta_spendables = pos 0;
  depends = [];
}

abbrev second : Claim
second = record {
  txn = spending 2 1;
  timestamp = 200;
  size = 120;
  fee = pos 15;
  delta_spendables = pos 0;
  depends = 1 ∷ [];
}

abbrev waiting : Claims
waiting = record {
  confirmations = entry 1 first (entry 2 second empty);
  priorities = 2 ∷ 1 ∷ [];
  spents = record { hash = 1; index = 0 } ∷ record { hash = 9; index = 0 } ∷ [];
  scripts = ([], record { hash = 1; index = 0 }) ∷ ([], record { hash = 2; index = 0 }) ∷ [];
}

-- The claims of the pool.
of_waiting :
    (h : ℕ) (c : Claim)
    → lookup h waiting.confirmations ≡ some c
    → ((h ≡ 1) × (c ≡ first)) ⊎ ((h ≡ 2) × (c ≡ second))
unfolding lookup
of_waiting h c at = elim (Bool-cases (h == 1)) [
  | inl same ↦ inl (ground arith, ground arith)
  | inr other ↦ inr (ground arith, ground arith)
]

waiting-IsPool : IsPool name_of waiting.confirmations (λ x. x) 3
unfolding lookup write_transaction write_vector write_binary write_varint write_all write_input
    write_coin write_script write_output
waiting-IsPool = record {
  named = λ h c at. elim (of_waiting h c at) [
    | inl (name, is) ↦ ap (λ (d : Claim). name_of d.txn) is ∙ sym name
    | inr (name, is) ↦ ap (λ (d : Claim). name_of d.txn) is ∙ sym name
  ];
  ranked = λ h c at. elim (of_waiting h c at) [
    | inl (name, _) ↦ omega arith
    | inr (name, _) ↦ omega arith
  ];
  below = λ h c d e at needs there. elim (of_waiting h c at) [
    | inl (name, is) ↦ let no = ap (λ (x : Claim). has d x.depends) is in absurd (ground arith)
    | inr (name, is) ↦ let one = ap (λ (x : Claim). has d x.depends) is in ground arith
  ];
  sized = λ h c at. elim (of_waiting h c at) [
    | inl (_, is) ↦ let size = ap Claim.size is in omega arith
    | inr (_, is) ↦ let size = ap Claim.size is in omega arith
  ];
  weighs = λ h c at. elim (of_waiting h c at) [
    | inl (_, is) ↦
        subst (λ (d : Claim). own_size d.txn + weight waiting.confirmations d.depends ≤ d.size)
          (sym is) (omega arith)
    | inr (_, is) ↦
        subst (λ (d : Claim). own_size d.txn + weight waiting.confirmations d.depends ≤ d.size)
          (sym is) (omega arith)
  ];
}

waiting-IsQueue : IsQueue waiting.confirmations waiting.priorities
unfolding lookup less fee_times wrap of_word ◌*ℤ◌
waiting-IsQueue = (
  (
    second,
    refl,
    λ q d there at. elim (of_waiting q d at) [
      | inl (_, is) ↦ ap (less second) is
      | inr (name, _) ↦ absurd (ground arith)
    ],
  ),
  ((first, refl, λ q d there at. absurd (ground arith)), tt),
)

transactions-IsTemplate_example :
    (fee : ℤ) × (cs : List Claim) × (transactions name_of 3 waiting 1000 ≡ ok (fee, cs))
    × IsTemplate name_of waiting 1000 cs
transactions-IsTemplate_example =
    transactions-IsTemplate name_of waiting (λ x. x) 3 1000 waiting-IsPool (omega arith)

-- A third transaction spends an output of the second.
third_unused :
    (g : ℕ) (c : Claim)
    → lookup g waiting.confirmations ≡ some c
    → has (name_of (spending 3 2)) c.depends ≡ false
third_unused g c at = elim (of_waiting g c at) [
  | inl (_, is) ↦ ap (λ (x : Claim). has 3 x.depends) is
  | inr (_, is) ↦ ap (λ (x : Claim). has 3 x.depends) is
]

third_bytes : own_size (spending 3 2) ≡ 60
unfolding write_transaction write_vector write_binary write_varint write_all write_input write_coin
    write_script write_output
third_bytes = refl

third_weight : own_size (spending 3 2) + weight waiting.confirmations (2 ∷ []) < 2 ^ 32
unfolding lookup
third_weight = omega (arith, third_bytes)

-- The claim of the third transaction, with the fee and the size of the second.
abbrev third : Claim
third = record {
  txn = spending 3 2;
  timestamp = 300;
  size = 180;
  fee = pos 19;
  delta_spendables = pos 0;
  depends = 2 ∷ [];
}

third_is : claim_of waiting (spending 3 2) (pos 4) 300 0 ≡ third
unfolding new_claim add_depends lookup add64 to_word of_word wrap ◌+ℤ◌ ◌-ℤ◌ write_transaction
    write_vector write_binary write_varint write_all write_input write_coin write_script
    write_output
third_is = refl

-- Small fees and sizes have small products.
abbrev IsSmall : Claim → Type 0
IsSmall c = (pos_part c.fee ≤ 19) × (neg_part c.fee ≡ 0) × (c.size ≤ 180)

small-IsInRange : (c d : Claim) → IsSmall c → IsSmall d → IsInRange c d
small-IsInRange c d (fee, none_less, size) (fee', none_less', size') =
    let product : pos_part c.fee * d.size ≤ 19 * 180 = grind arith in
    (omega arith, rw none_less (omega arith))

third-IsSmall :
    (x : ℕ) (c : Claim)
    → lookup x (confirmed name_of waiting (spending 3 2) (pos 4) 300 0) ≡ some c
    → IsSmall c
third-IsSmall x c at =
    let changed =
      lookup-insert x 3 (claim_of waiting (spending 3 2) (pos 4) 300 0) waiting.confirmations in
    elim (Bool-cases (x == 3)) [
      | inl same ↦
          let is : third ≡ c = sym third_is ∙ ground arith in
          subst IsSmall is (omega arith, refl, omega arith)
      | inr other ↦ elim (of_waiting x c (ground arith)) [
        | inl (_, is) ↦ subst IsSmall (sym is) (omega arith, refl, omega arith)
        | inr (_, is) ↦ subst IsSmall (sym is) (omega arith, refl, omega arith)
      ]
    ]

third-AreInRange : AreInRange (confirmed name_of waiting (spending 3 2) (pos 4) 300 0)
third-AreInRange x y c d at there =
    small-IsInRange c d (third-IsSmall x c at) (third-IsSmall y d there)

insert_transaction-IsPool_example :
    (q : Claims) × (insert_transaction name_of waiting (spending 3 2) [] (pos 4) 300 0 ≡ ok q)
    × IsPool name_of q.confirmations (raised (λ x. x) 3 3) 4
    × IsQueue q.confirmations q.priorities
unfolding lookup
insert_transaction-IsPool_example =
    insert_transaction-IsPool name_of waiting (spending 3 2) [] (pos 4) 300 0 (λ x. x) 3
      waiting-IsPool waiting-IsQueue refl third_unused (omega (arith, third_bytes)) third_weight
      third-AreInRange

erase_claim-insert_transaction_example :
    (q : Claims) × (r : Claims) × (insert_transaction name_of waiting
        (spending 3 2)
        []
        (pos 4)
        300
        0
      ≡ ok q)
    × (erase_claim q 3 ≡ ok r)
    × ((x : ℕ) → lookup x r.confirmations ≡ lookup x waiting.confirmations)
    × (r.scripts ≡ waiting.scripts)
unfolding lookup
erase_claim-insert_transaction_example =
    erase_claim-insert_transaction name_of waiting (spending 3 2) [] (pos 4) 300 0 (λ x. x) 3
      waiting-IsPool waiting-IsQueue refl third_unused (omega (arith, third_bytes)) third_weight
      ((λ e. cc), ((λ e. cc), tt))

purge-IsSound_example :
    (q : Claims) × (purge waiting 150 ≡ ok q)
    × IsSound name_of (λ x. x) 3 q
    × ((x : ℕ) (c : Claim)
        → lookup x waiting.confirmations ≡ some c
        → lookup x q.confirmations ≡ (if ltb c.timestamp 150 then none else some c))
    × ((x : ℕ) → lookup x waiting.confirmations ≡ none → lookup x q.confirmations ≡ none)
unfolding lookup
purge-IsSound_example =
    purge-IsSound name_of (λ x. x) 3 waiting 150 (waiting-IsPool, waiting-IsQueue)
      (refl, (refl, tt))

threshold-first_example : threshold 1000001 waiting 1000 ≡ ok (pos 15)
unfolding lookup
threshold-first_example =
    threshold-first waiting 2 (1 ∷ []) second 1000001 1000 refl refl (omega arith) (omega arith)
      (omega arith)

-- A claim of the same rank as the first.
abbrev twin : Claim
twin = record first { txn = spending 4 8 }

abbrev twins : Map Claim
twins = entry 1 first (entry 4 twin empty)

twins-IsSmall : (x : ℕ) (c : Claim) → lookup x twins ≡ some c → IsSmall c
unfolding lookup
twins-IsSmall x c at = elim (Bool-cases (x == 1)) [
  | inl same ↦
      let is : first ≡ c = ground arith in subst IsSmall is (omega arith, refl, omega arith)
  | inr other ↦
      let is : twin ≡ c = ground arith in subst IsSmall is (omega arith, refl, omega arith)
]

insert_priority_even_example : insert_priority twins 4 (1 ∷ []) ≡ ok (1 ∷ [])
unfolding lookup less fee_times wrap of_word ◌*ℤ◌
insert_priority_even_example =
    insert_priority_even twins 4 twin 1 first (1 ∷ [])
      (λ x e at. elim (Bool-cases (x == 1)) [
        | inl same ↦ let is : first ≡ e = ground arith in let size = ap Claim.size is in omega arith
        | inr other ↦ let is : twin ≡ e = ground arith in let size = ap Claim.size is in omega arith
      ])
      (λ x y c d at there. small-IsInRange c d (twins-IsSmall x c at) (twins-IsSmall y d there))
      ((first, refl, λ q d there at. absurd (ground arith)), tt) refl refl refl refl refl
