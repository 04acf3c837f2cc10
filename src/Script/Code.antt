-- ===== src/Script/Code.antt =====
-- The bytes of a script: `getOp`, the pushes of `operator<<`, and the loops over the instructions.
-- An iterator is the rest of the script from it.
pub mod Address
pub mod Laws
pub mod SigOps
use libcoin.Base.{
  ℕ, zero, suc, ◌+◌, ◌-◌, ◌*◌, ◌<◌, Bool, true, false, not, ◌&&◌, ◌||◌, List, [], ◌∷◌, ◌++◌, Bytes,
  Option, none, some, length, take, drop, get_or, ltb, leb, ◌==◌, if◌then◌else◌,
}
use libcoin.Message.Header.{word_of, same_bytes}
use libcoin.Serialize.Stream.{write_binary}

-- What `getOp` leaves: the opcode, the data and the iterator, or the iterator where it returns false.
pub data Fetch : Type 0 where
  fetched : ℕ → Bytes → Bytes → Fetch
  stopped : Bytes → Fetch

-- The data of `size` bytes.
abbrev pub operand : ℕ → ℕ → Bytes → Fetch
operand code size s =
    if leb size (length s) then fetched code (take size s) (drop size s) else stopped s

-- The data behind its size, of `n` bytes.
abbrev pub sized : ℕ → ℕ → Bytes → Fetch
sized code n s =
    if ltb (length s) n then stopped s else operand code (word_of (take n s)) (drop n s)

-- `getOp2`.
unfoldable pub get_op : Bytes → Fetch
get_op [] = stopped []
get_op (c ∷ s) =
    if ltb c 76
    then operand c c s
    else if c == 76
    then sized c 1 s
    else if c == 77
    then sized c 2 s
    else if c == 78
    then sized c 4 s
    else fetched c [] s

-- `operator<<` of a value.
unfoldable pub push_value : Bytes → Bytes
push_value v =
    if ltb (length v) 76
    then write_binary 1 (length v) ++ v
    else if leb (length v) 0xff
    then 76 ∷ (write_binary 1 (length v) ++ v)
    else if leb (length v) 0xffff
    then 77 ∷ (write_binary 2 (length v) ++ v)
    else 78 ∷ (write_binary 4 (length v) ++ v)

-- `getSigOpCount`, with fuel for the loop.
unfoldable pub count_sig_ops : ℕ → Bytes → ℕ
count_sig_ops zero s = 0
count_sig_ops (suc fuel) s = elim (get_op s) [
  | stopped r ↦ 0
  | fetched c v r ↦
      (if c == 172 || c == 173 then 1 else if c == 174 || c == 175 then 20 else 0)
      + count_sig_ops fuel r
]

abbrev pub sig_op_count : Bytes → ℕ
sig_op_count s = count_sig_ops (length s) s

-- `isPushOnly`.
unfoldable pub only_pushes : ℕ → Bytes → Bool
only_pushes fuel [] = true
only_pushes zero (c ∷ s) = false
only_pushes (suc fuel) (c ∷ s) = elim (get_op (c ∷ s)) [
  | stopped r ↦ false
  | fetched code v r ↦ let rest = only_pushes fuel r in if ltb 96 code then false else rest
]

abbrev pub is_push_only : Bytes → Bool
is_push_only s = only_pushes (length s) s

-- One instruction of `hasCanonicalPushes`; 96 is OP_16.
abbrev pub is_canonical : ℕ → Bytes → Bool
is_canonical code v =
    if ltb 96 code
    then true
    else if ltb code 76 && (ltb 0 code && (length v == 1 && leb (get_or v 0 0) 16))
    then false
    else if code == 76 && ltb (length v) 76
    then false
    else if code == 77 && leb (length v) 0xff
    then false
    else not (code == 78 && leb (length v) 0xffff)

unfoldable pub canonical_pushes : ℕ → Bytes → Bool
canonical_pushes fuel [] = true
canonical_pushes zero (c ∷ s) = false
canonical_pushes (suc fuel) (c ∷ s) = elim (get_op (c ∷ s)) [
  | stopped r ↦ false
  | fetched code v r ↦
      let rest = canonical_pushes fuel r in if is_canonical code v then rest else false
]

abbrev pub has_canonical_pushes : Bytes → Bool
has_canonical_pushes s = canonical_pushes (length s) s

-- `isPayToScriptHash`.
unfoldable pub is_pay_to_script_hash : Bytes → Bool
is_pay_to_script_hash s =
    length s == 23 && (get_or s 0 0 == 169 && (get_or s 1 0 == 20 && get_or s 22 0 == 135))

-- `setAddress` of a hash of 20 bytes: OP_DUP OP_HASH160 hash OP_EQUALVERIFY OP_CHECKSIG.
unfoldable pub set_address : Bytes → Bytes
set_address hash = 118 ∷ 169 ∷ 20 ∷ (hash ++ 136 ∷ 172 ∷ [])

-- The next instruction, if `accept` holds of it.
abbrev pub next_op {ℓ} : {A : Type ℓ} → Bytes → (ℕ → Bytes → Bool) → A → (Bytes → Bytes → A) → A
next_op s accept otherwise then_do = elim (get_op s) [
  | stopped r ↦ otherwise
  | fetched c v r ↦ if accept c v then then_do v r else otherwise
]

-- `getAddress()` without name prefixes; `none` where it returns the empty hash.
unfoldable pub get_address : Bytes → Option Bytes
get_address s =
    next_op s (λ c v. c == 118) none
      (λ _ s₁.
        next_op s₁ (λ c v. c == 169) none
          (λ _ s₂.
            next_op s₂ (λ c v. length v == 20) none
              (λ address s₃.
                next_op s₃ (λ c v. c == 136) none
                  (λ _ s₄.
                    next_op s₄ (λ c v. c == 172) none
                      (λ _ s₅. elim s₅ [ [] ↦ some address | c ∷ r ↦ none ])))))

-- The inner loop of `findAndDelete`: takes `b` off the front as often as it is there.
unfoldable pub strip_all : ℕ → Bytes → Bytes → Bytes
strip_all zero b s = s
strip_all (suc fuel) b s =
    let rest = strip_all fuel b (drop (length b) s) in
    if leb (length b) (length s) && same_bytes (take (length b) s) b then rest else s

-- The outer loop: the instruction at the iterator stays.
unfoldable pub delete_all : ℕ → Bytes → Bytes → Bytes
delete_all zero b s = s
delete_all (suc fuel) b s =
    let s' = strip_all (length s) b s in
    elim (get_op s') [
      | stopped r ↦ s'
      | fetched c v r ↦ take (length s' - length r) s' ++ delete_all fuel b r
    ]

-- `findAndDelete(b)`.
unfoldable pub find_and_delete : Bytes → Bytes → Bytes
find_and_delete b [] = []
find_and_delete [] (c ∷ s) = c ∷ s
find_and_delete (x ∷ b) (c ∷ s) = delete_all (suc (length (c ∷ s))) (x ∷ b) (c ∷ s)
