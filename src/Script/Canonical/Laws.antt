-- ===== src/Script/Canonical/Laws.antt =====
-- Which signatures are canonical.
use libcoin.Base.{
  ℕ, zero, suc, ◌+◌, ◌-◌, ◌%◌, ◌<◌, ◌≤◌, ◌≡◌, ◌≢◌, ◌↔◌, ◌⊎◌, refl, ap, ◌∙◌, Bool, true, false, not,
  ◌||◌, [], ◌∷◌, ◌++◌, Bytes, length, get_or, ltb, leb, ◌==◌, Result, ok, err, throw_if, ◌>>◌,
  arith, length-append,
}
use libcoin.Script.Canonical.{
  CanonicalError, too_short, too_long, unknown_hashtype, wrong_length_marker, length_misplaced,
  length_mismatch, check_integer, check_canonical_signature,
}

-- A signature of two numbers with its hash type: 30 length 02 length R 02 length S type.
abbrev pub encode_signature : Bytes → Bytes → ℕ → Bytes
encode_signature r s type =
    0x30 ∷ (length r + length s + 4) ∷ 2 ∷ length r ∷ (r ++ 2 ∷ length s ∷ (s ++ type ∷ []))

-- A number is not empty, not negative, and has no zero in front without need.
abbrev pub IsInteger : Bytes → Type 0
IsInteger v =
    (0 < length v)
    × (get_or v 0 0 < 0x80)
    × ((length v ≤ 1) ⊎ ((get_or v 0 0 ≢ 0) ⊎ (0x80 ≤ get_or v 1 0)))

abbrev pub IsHashType : ℕ → Type 0
IsHashType type = (1 ≤ type % 0x80) × (type % 0x80 ≤ 3)

get_or-append_right :
    (xs ys : Bytes) (i j : ℕ) → i ≡ length xs + j → get_or (xs ++ ys) i 0 ≡ get_or ys j 0
get_or-append_right [] ys i j e = ap (λ k. get_or ys k 0) (omega arith)
get_or-append_right (x ∷ xs) ys zero j e = absurd (omega arith)
get_or-append_right (x ∷ xs) ys (suc i) j e = get_or-append_right xs ys i j (omega arith)

get_or-append_left : (xs ys : Bytes) (i : ℕ) → i < length xs → get_or (xs ++ ys) i 0 ≡ get_or xs i 0
get_or-append_left [] ys i h = absurd (omega arith)
get_or-append_left (x ∷ xs) ys zero h = refl
get_or-append_left (x ∷ xs) ys (suc i) h = get_or-append_left xs ys i (omega arith)

check_integer-IsInteger :
    (v after : Bytes)
    → (check_integer 2 (length v) (get_or (v ++ after) 0 0) (get_or (v ++ after) 1 0) ≡ ok tt)
      ↔ IsInteger v
unfolding check_integer
check_integer-IsInteger v after =
    ground (arith, get_or-append_left v after 0, get_or-append_left v after 1)

-- What the checks read from an encoded signature.
length-encode_signature :
    (r s : Bytes) (type : ℕ) → length (encode_signature r s type) ≡ length r + length s + 7
length-encode_signature r s type =
    let outer = length-append r (2 ∷ length s ∷ (s ++ type ∷ [])) in
    let inner = length-append s (type ∷ []) in omega arith

-- The bytes from a place after the first number on.
after_first :
    (r s : Bytes) (type j : ℕ)
    → get_or (encode_signature r s type) (4 + (length r + j)) 0
      ≡ get_or (2 ∷ length s ∷ (s ++ type ∷ [])) j 0
after_first r s type j =
    get_or-append_right (0x30 ∷ (length r + length s + 4) ∷ 2 ∷ length r ∷ r)
      (2 ∷ length s ∷ (s ++ type ∷ [])) (4 + (length r + j)) j (omega arith)

read_hash_type :
    (r s : Bytes) (type : ℕ)
    → get_or (encode_signature r s type) (length (encode_signature r s type) - 1) 0 ≡ type
read_hash_type r s type =
    let size = length-encode_signature r s type in
    let place : length (encode_signature r s type) - 1 ≡ 4 + (length r + (2 + length s)) =
      omega arith in
    ap (λ i. get_or (encode_signature r s type) i 0) place
    ∙ after_first r s type (2 + length s)
    ∙ get_or-append_right (2 ∷ length s ∷ s) (type ∷ []) (2 + length s) 0 (omega arith)

passed :
    {E : Type 0} (b : Bool) (e : E) (next : Result E (Unit {0}))
    → ((throw_if b e >> next) ≡ ok tt) ↔ ((b ≡ false) × (next ≡ ok tt))
passed true e next = ground arith
passed false e next = ground arith

-- The check, with what it reads as arguments.
parts :
    (size hash_type marker r s : ℕ)
    → (first second : Result CanonicalError (Unit {0})) → Result CanonicalError (Unit {0})
parts size hash_type marker r s first second = do
  throw_if (ltb size 9) too_short
  throw_if (ltb 73 size) too_long
  throw_if (ltb hash_type 1 || ltb 3 hash_type) unknown_hashtype
  throw_if (not (marker == size - 3)) wrong_length_marker
  throw_if (leb size (5 + r)) length_misplaced
  throw_if (not (r + s + 7 == size)) length_mismatch
  first
  second

parts-ok :
    (type r s : ℕ) (first second : Result CanonicalError (Unit {0}))
    → (parts (r + s + 7) (type % 0x80) (r + s + 4) r s first second ≡ ok tt)
      ↔ (IsHashType type × ((first ≡ ok tt) × ((second ≡ ok tt) × ((2 ≤ r + s) × (r + s ≤ 66)))))
unfolding parts
parts-ok type r s (ok tt) second = ground arith
parts-ok type r s (err e) second = ground arith

module _ (r s : Bytes) (type : ℕ) where
  abbrev whole : Bytes
  whole = encode_signature r s type

  at_after :
      (j k : ℕ)
      → k ≡ 4 + (length r + j)
      → get_or whole k 0 ≡ get_or (2 ∷ length s ∷ (s ++ type ∷ [])) j 0
  at_after j k e = ap (λ i. get_or whole i 0) e ∙ after_first r s type j

  -- The numbers that the check reads from an encoded signature.
  check-parts :
      check_canonical_signature whole
      ≡ parts
          (length r + length s + 7)
          (type % 0x80)
          (length r + length s + 4)
          (length r)
          (length s)
          (check_integer 2 (length r) (get_or whole 4 0) (get_or whole 5 0))
          (check_integer 2 (length s) (get_or (s ++ type ∷ []) 0 0) (get_or (s ++ type ∷ []) 1 0))
  unfolding check_canonical_signature parts
  check-parts =
      rw
        (
          read_hash_type r s type,
          at_after 1 (5 + length r) (omega arith),
          at_after 0 (4 + length r) (omega arith),
          at_after 2 (6 + length r) (omega arith),
          at_after 3 (7 + length r) (omega arith),
          length-encode_signature r s type,
        )
        refl

-- A signature of two numbers is canonical just when its hash type is one of the three, with or
-- without the highest bit, the two numbers are canonical, and they have at most 66 bytes together.
pub check_canonical_signature-encode_signature :
    (r s : Bytes) (type : ℕ)
    → (check_canonical_signature (encode_signature r s type) ≡ ok tt)
      ↔ (IsHashType type × (IsInteger r × (IsInteger s × (length r + length s ≤ 66))))
check_canonical_signature-encode_signature r s type =
    let read = check-parts r s type in
    ground (
      arith,
      parts-ok type (length r) (length s)
          (check_integer 2 (length r) (get_or (whole r s type) 4 0) (get_or (whole r s type) 5 0))
          (check_integer 2 (length s) (get_or (s ++ type ∷ []) 0 0) (get_or (s ++ type ∷ []) 1 0)),
      check_integer-IsInteger r (2 ∷ length s ∷ (s ++ type ∷ [])),
      check_integer-IsInteger s (type ∷ []),
    )
