-- ===== src/Transaction/Replace.antt =====
-- `Transaction::isNewerThan` of src/coin/Transaction.cpp.
use libcoin.Base.{
  ℕ, ◌≡◌, ◌<◌, ◌≤◌, ◌↔◌, ◌⊎◌, Bool, true, false, not, List, [], ◌∷◌, length, length-map, sym, ◌∙◌,
  ltb, leb, ◌==◌, if◌then◌else◌, arith, map, ap,
}
use libcoin.Transaction.{Coin, Input, Transaction, coin_eq, uint_max}

-- The first loop, on lists of one length.
unfoldable pub same_prevouts : List Input → List Input → Bool
same_prevouts [] olds = true
same_prevouts (i ∷ is) [] = true
same_prevouts (i ∷ is) (o ∷ os) =
    let rest = same_prevouts is os in if not (coin_eq i.prevout o.prevout) then false else rest

-- `newer` and `lowest`.
pub record Search : Type 0 where
  pub newer : Bool
  pub lowest : ℕ

-- One position of the second loop, which looks at the two sequence numbers.
unfoldable pub compare : ℕ → ℕ → Search → Search
compare mine old found =
    if mine == old
    then found
    else let first : Search =
        if leb mine found.lowest then record { newer = false; lowest = mine } else found in
      if ltb old first.lowest then record { newer = true; lowest = old } else first

unfoldable pub search_newer : List Input → List Input → Search → Search
search_newer [] olds found = found
search_newer (i ∷ is) [] found = found
search_newer (i ∷ is) (o ∷ os) found = search_newer is os (compare i.sequence o.sequence found)

unfoldable pub is_newer_than : Transaction → Transaction → Bool
is_newer_than mine old =
    if not (length mine.inputs == length old.inputs)
    then false
    else if not (same_prevouts mine.inputs old.inputs)
    then false
    else (search_newer mine.inputs old.inputs (record { newer = false; lowest = uint_max })).newer

-- The lowest sequence number that `read` gives of the places where the two differ, or `uint_max`.
pub lowest_change : (ℕ → ℕ → ℕ) → List Input → List Input → ℕ
lowest_change read [] olds = uint_max
lowest_change read (i ∷ is) [] = uint_max
lowest_change read (i ∷ is) (o ∷ os) =
    let rest = lowest_change read is os in
    if i.sequence == o.sequence
    then rest
    else if ltb (read i.sequence o.sequence) rest
    then read i.sequence o.sequence
    else rest

abbrev pub lowest_new : List Input → List Input → ℕ
lowest_new = lowest_change (λ mine old. mine)

abbrev pub lowest_old : List Input → List Input → ℕ
lowest_old = lowest_change (λ mine old. old)

search_newer-lowest :
    (is os : List Input) (found : Search)
    → found.lowest ≤ uint_max
    → (found.newer ≡ true → found.lowest < uint_max)
    → ((search_newer is os found).newer ≡ true) ↔ (
        ((lowest_old is os < lowest_new is os) × (lowest_old is os < found.lowest))
        ⊎ ((found.newer ≡ true)
            × ((found.lowest < lowest_new is os) × (found.lowest ≤ lowest_old is os))))
unfolding search_newer compare lowest_change
search_newer-lowest [] os found low bound = ground arith
search_newer-lowest (i ∷ is) [] found low bound = ground arith
search_newer-lowest (i ∷ is) (o ∷ os) found low bound =
    ground (arith, search_newer-lowest is os (compare i.sequence o.sequence found))

coin_eq_iff : (a b : Coin) → (coin_eq a b ≡ true) ↔ (a ≡ b)
coin_eq_iff a b = ground arith

same_prevouts-map :
    (is os : List Input)
    → length is ≡ length os
    → (same_prevouts is os ≡ true) ↔ (map Input.prevout is ≡ map Input.prevout os)
unfolding same_prevouts
same_prevouts-map [] [] same = ground arith
same_prevouts-map [] (o ∷ os) same = absurd (omega arith)
same_prevouts-map (i ∷ is) [] same = absurd (omega arith)
same_prevouts-map (i ∷ is) (o ∷ os) same =
    ground (arith, coin_eq_iff i.prevout o.prevout, same_prevouts-map is os)

lowest_change_bound : (read : ℕ → ℕ → ℕ) (is os : List Input) → lowest_change read is os ≤ uint_max
unfolding lowest_change
lowest_change_bound read [] os = omega arith
lowest_change_bound read (i ∷ is) [] = omega arith
lowest_change_bound read (i ∷ is) (o ∷ os) = ground (arith, lowest_change_bound read is os)

length-eq :
    (is os : List Input) → map Input.prevout is ≡ map Input.prevout os → length is ≡ length os
length-eq is os e = sym (length-map Input.prevout is) ∙ ap length e ∙ length-map Input.prevout os

-- A transaction is newer just when it spends the same coins in the same order and, of the
-- sequence numbers of the places where the two differ, the lowest old one is below the lowest new
-- one.
pub is_newer_than-lowest_change :
    (mine old : Transaction)
    → (is_newer_than mine old ≡ true) ↔ (
        (map Input.prevout mine.inputs ≡ map Input.prevout old.inputs)
        × (lowest_old mine.inputs old.inputs < lowest_new mine.inputs old.inputs))
unfolding is_newer_than
is_newer_than-lowest_change mine old = ground (
  arith,
  lowest_change_bound (λ mine old. mine) mine.inputs old.inputs,
  length-eq mine.inputs old.inputs,
  same_prevouts-map mine.inputs old.inputs,
  search_newer-lowest mine.inputs old.inputs (record { newer = false; lowest = uint_max }),
)
