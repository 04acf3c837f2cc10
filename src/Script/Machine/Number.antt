-- ===== src/Script/Machine/Number.antt =====
-- The values of the stack as Booleans and as numbers: `CastToBool`, `CastToBigNum` and the numeric
-- operations of `Evaluator::eval`.
use libcoin.Base.{
  ℕ, suc, ◌-◌, ◌^◌, Bool, true, false, not, ◌&&◌, ◌||◌, [], ◌∷◌, Bytes, Option, none, some, length,
  ltb, ◌==◌, if◌then◌else◌,
}
use libcoin.Base.Int.{ℤ, pos, negsuc, ◌+ℤ◌, ◌-ℤ◌, ltb_ℤ, eqb_ℤ}
use libcoin.Script.Opcode.{
  Opcode, op_1add, op_1sub, op_negate, op_abs, op_not, op_0notequal, op_add, op_sub, op_booland,
  op_boolor, op_numequal, op_numequalverify, op_numnotequal, op_lessthan, op_greaterthan,
  op_lessthanorequal, op_greaterthanorequal, op_min, op_max, op_ripemd160, op_sha1, op_sha256,
  op_hash160, op_hash256,
}

-- What the evaluator takes from OpenSSL: `number_of` reads the bytes of a CBigNum, which `vch_of`
-- (`getvch`) writes, and the digests have their usual names.
pub record Library : Type 0 where
  pub number_of : Bytes → ℤ
  pub vch_of : ℤ → Bytes
  pub ripemd160 : Bytes → Bytes
  pub sha1 : Bytes → Bytes
  pub sha256 : Bytes → Bytes
  pub hash160 : Bytes → Bytes
  pub hash256 : Bytes → Bytes

unfoldable pub cast_to_bool : Bytes → Bool
cast_to_bool [] = false
cast_to_bool (b ∷ []) = not (b == 0 || b == 0x80)
cast_to_bool (b ∷ c ∷ s) = let rest = cast_to_bool (c ∷ s) in if b == 0 then rest else true

abbrev pub max_num_size : ℕ
max_num_size = 4

-- `CastToBigNum`, with `none` for the exception.
unfoldable pub cast_to_number : Library → Bytes → Option ℤ
cast_to_number lib v =
    if ltb max_num_size (length v)
    then none
    else some (lib.number_of (lib.vch_of (lib.number_of v)))

-- `getint`.
unfoldable pub get_int : ℤ → ℤ
get_int (pos n) = if ltb n (2 ^ 31) then pos n else pos (2 ^ 31 - 1)
get_int (negsuc n) = if ltb (suc n) (2 ^ 31) then negsuc n else negsuc (2 ^ 31 - 1)

abbrev pub of_bool : Bool → ℤ
of_bool true = pos 1
of_bool false = pos 0

abbrev negated : ℤ → ℤ
negated n = pos 0 -ℤ n

abbrev is_zero : ℤ → Bool
is_zero n = eqb_ℤ n (pos 0)

-- OP_1ADD to OP_0NOTEQUAL, less the codes that the evaluator refuses.
unfoldable pub unary : Opcode → Option (ℤ → ℤ)
unary op_1add = some (λ n. n +ℤ pos 1)
unary op_1sub = some (λ n. n -ℤ pos 1)
unary op_negate = some negated
unary op_abs = some (λ n. if ltb_ℤ n (pos 0) then negated n else n)
unary op_not = some (λ n. of_bool (is_zero n))
unary op_0notequal = some (λ n. of_bool (not (is_zero n)))
unary _ = none

-- OP_ADD to OP_MAX, likewise.
unfoldable pub binary : Opcode → Option (ℤ → ℤ → ℤ)
binary op_add = some (λ a b. a +ℤ b)
binary op_sub = some (λ a b. a -ℤ b)
binary op_booland = some (λ a b. of_bool (not (is_zero a) && not (is_zero b)))
binary op_boolor = some (λ a b. of_bool (not (is_zero a) || not (is_zero b)))
binary op_numequal = some (λ a b. of_bool (eqb_ℤ a b))
binary op_numequalverify = some (λ a b. of_bool (eqb_ℤ a b))
binary op_numnotequal = some (λ a b. of_bool (not (eqb_ℤ a b)))
binary op_lessthan = some (λ a b. of_bool (ltb_ℤ a b))
binary op_greaterthan = some (λ a b. of_bool (ltb_ℤ b a))
binary op_lessthanorequal = some (λ a b. of_bool (not (ltb_ℤ b a)))
binary op_greaterthanorequal = some (λ a b. of_bool (not (ltb_ℤ a b)))
binary op_min = some (λ a b. if ltb_ℤ a b then a else b)
binary op_max = some (λ a b. if ltb_ℤ b a then a else b)
binary _ = none

-- OP_RIPEMD160 to OP_HASH256.
unfoldable pub digest : Library → Opcode → Option (Bytes → Bytes)
digest lib op_ripemd160 = some lib.ripemd160
digest lib op_sha1 = some lib.sha1
digest lib op_sha256 = some lib.sha256
digest lib op_hash160 = some lib.hash160
digest lib op_hash256 = some lib.hash256
digest lib _ = none
