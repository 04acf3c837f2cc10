-- ===== src/Merkle/Partial/Selected.antt =====
-- The hashes of the matched transactions, and of those of a slice.
use Prim.Native.Nat.{min}
use libcoin.Base.{
  ℕ, zero, suc, ◌-◌, ◌*◌, ◌^◌, ◌<◌, ◌≡◌, refl, ap, ◌∙◌, Bool, true, false, List, [], ◌∷◌, ◌++◌,
  length, get_or, take, drop, if◌then◌else◌, arith, length-take,
}
use libcoin.Merkle.Partial.{slice, any_true}
use libcoin.Merkle.Partial.Slices.{drop-get_or}

-- The hashes that are wanted.
unfoldable pub selected : List ℕ → List Bool → List ℕ
selected [] bs = []
selected (x ∷ xs) [] = []
selected (x ∷ xs) (b ∷ bs) = let rest = selected xs bs in if b then x ∷ rest else rest

pub selected-append :
    (xs ys : List ℕ) (bs cs : List Bool)
    → length xs ≡ length bs
    → selected (xs ++ ys) (bs ++ cs) ≡ selected xs bs ++ selected ys cs
unfolding selected
selected-append [] ys [] cs e = refl
selected-append [] ys (b ∷ bs) cs e = absurd (omega arith)
selected-append (x ∷ xs) ys [] cs e = absurd (omega arith)
selected-append (x ∷ xs) ys (true ∷ bs) cs e = ap (x ∷◌) (selected-append xs ys bs cs (omega arith))
selected-append (x ∷ xs) ys (false ∷ bs) cs e = selected-append xs ys bs cs (omega arith)

pub selected_none : (xs : List ℕ) (bs : List Bool) → any_true bs ≡ false → selected xs bs ≡ []
unfolding selected any_true
selected_none [] bs e = refl
selected_none (x ∷ xs) [] e = refl
selected_none (x ∷ xs) (true ∷ bs) e = absurd (ground arith)
selected_none (x ∷ xs) (false ∷ bs) e = selected_none xs bs e

pub length-drop {ℓ} : {A : Type ℓ} (n : ℕ) (xs : List A) → length (drop n xs) ≡ length xs - n
length-drop zero xs = omega arith
length-drop (suc n) [] = omega arith
length-drop (suc n) (x ∷ xs) = omega (arith, length-drop n xs)

pub length-slice {ℓ} :
    {A : Type ℓ} (h pos : ℕ) (xs : List A)
    → length (slice h pos xs) ≡ min (2 ^ h) (length xs - pos * 2 ^ h)
length-slice h pos xs =
    length-take (2 ^ h) (drop (pos * 2 ^ h) xs) ∙ ap (min (2 ^ h)) (length-drop (pos * 2 ^ h) xs)

pub slice_leaf {ℓ} :
    {A : Type ℓ} (pos : ℕ) (d : A) (xs : List A)
    → pos < length xs
    → slice 0 pos xs ≡ get_or xs pos d ∷ []
slice_leaf pos d xs h =
    let place : pos * 1 ≡ pos = omega arith in
    ap (λ i. take 1 (drop i xs)) place ∙ ap (take 1) (drop-get_or pos d xs h)
