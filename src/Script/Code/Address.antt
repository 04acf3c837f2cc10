-- ===== src/Script/Code/Address.antt =====
-- The script that pays to the hash of a key: `setAddress` and `getAddress`.
use mathlib.Core.Path.{subst}
use libcoin.Base.{ℕ, ◌<◌, ◌≡◌, refl, true, [], ◌∷◌, ◌++◌, Bytes, some, length, ◌==◌, arith}
use libcoin.Script.Code.{fetched, operand, get_op, set_address, get_address, next_op}
use libcoin.Script.Code.Laws.{operand-append}

-- A code above OP_PUSHDATA4 has no data.
pub get_op_code : (c : ℕ) (s : Bytes) → 78 < c → get_op (c ∷ s) ≡ fetched c [] s
unfolding get_op
get_op_code c s h = ground arith

pub get_op_hash :
    (hash rest : Bytes) → length hash ≡ 20 → get_op (20 ∷ (hash ++ rest)) ≡ fetched 20 hash rest
unfolding get_op
get_op_hash hash rest h =
    subst (λ n. operand 20 n (hash ++ rest) ≡ fetched 20 hash rest) h (operand-append 20 hash rest)

-- `getAddress` gives back the hash that `setAddress` put in the script.
pub get_address-set_address :
    (hash : Bytes) → length hash ≡ 20 → get_address (set_address hash) ≡ some hash
unfolding get_address set_address
get_address-set_address hash h =
    let size : (length hash == 20) ≡ true = ground arith in
    rw
      (
        get_op_code 118 (169 ∷ 20 ∷ (hash ++ 136 ∷ 172 ∷ [])) (omega arith),
        get_op_code 169 (20 ∷ (hash ++ 136 ∷ 172 ∷ [])) (omega arith),
        get_op_hash hash (136 ∷ 172 ∷ []) h,
        size,
        get_op_code 136 (172 ∷ []) (omega arith),
        get_op_code 172 [] (omega arith),
        get_address,
        set_address,
        next_op,
      )
      refl
