-- ===== src/Script/Opcode.antt =====
-- `opcodetype` of include/coin/Script.h.
use libcoin.Base.{ℕ, ◌-◌, Bool, true, false, List, [], ◌∷◌, get_or, ltb, leb, if◌then◌else◌}

-- `op_push n` is a push of the `n` bytes that follow, `op_number n` is OP_1 to OP_16, `op_nop_n` OP_NOP1
-- to OP_NOP10, `op_template` a code that only templates use, and `op_other` one without a name.
pub data Opcode : Type 0 where
  op_push op_number op_nop_n op_template op_other : ℕ → Opcode
  op_pushdata1 op_pushdata2 op_pushdata4 op_1negate op_reserved : Opcode
  op_nop op_ver op_if op_notif op_verif op_vernotif op_else op_endif op_verify op_return : Opcode
  op_toaltstack op_fromaltstack op_2drop op_2dup op_3dup op_2over op_2rot op_2swap : Opcode
  op_ifdup op_depth op_drop op_dup op_nip op_over op_pick op_roll op_rot op_swap op_tuck : Opcode
  op_cat op_substr op_left op_right op_size op_invert op_and op_or op_xor : Opcode
  op_equal op_equalverify op_reserved1 op_reserved2 op_1add op_1sub op_2mul op_2div : Opcode
  op_negate op_abs op_not op_0notequal op_add op_sub op_mul op_div op_mod op_lshift : Opcode
  op_rshift op_booland op_boolor op_numequal op_numequalverify op_numnotequal : Opcode
  op_lessthan op_greaterthan op_lessthanorequal op_greaterthanorequal op_min op_max : Opcode
  op_within op_ripemd160 op_sha1 op_sha256 op_hash160 op_hash256 op_codeseparator : Opcode
  op_checksig op_checksigverify op_checkmultisig op_checkmultisigverify : Opcode

-- The codes from OP_NOP, 97, to OP_CHECKMULTISIGVERIFY, 175.
abbrev named : List Opcode
named =
    op_nop ∷ op_ver ∷ op_if ∷ op_notif ∷ op_verif ∷ op_vernotif ∷ op_else ∷ op_endif ∷ op_verify
    ∷ op_return ∷ op_toaltstack ∷ op_fromaltstack ∷ op_2drop ∷ op_2dup ∷ op_3dup ∷ op_2over
    ∷ op_2rot ∷ op_2swap ∷ op_ifdup ∷ op_depth ∷ op_drop ∷ op_dup ∷ op_nip ∷ op_over ∷ op_pick
    ∷ op_roll ∷ op_rot ∷ op_swap ∷ op_tuck ∷ op_cat ∷ op_substr ∷ op_left ∷ op_right ∷ op_size
    ∷ op_invert ∷ op_and ∷ op_or ∷ op_xor ∷ op_equal ∷ op_equalverify ∷ op_reserved1 ∷ op_reserved2
    ∷ op_1add ∷ op_1sub ∷ op_2mul ∷ op_2div ∷ op_negate ∷ op_abs ∷ op_not ∷ op_0notequal ∷ op_add
    ∷ op_sub ∷ op_mul ∷ op_div ∷ op_mod ∷ op_lshift ∷ op_rshift ∷ op_booland ∷ op_boolor
    ∷ op_numequal ∷ op_numequalverify ∷ op_numnotequal ∷ op_lessthan ∷ op_greaterthan
    ∷ op_lessthanorequal ∷ op_greaterthanorequal ∷ op_min ∷ op_max ∷ op_within ∷ op_ripemd160
    ∷ op_sha1 ∷ op_sha256 ∷ op_hash160 ∷ op_hash256 ∷ op_codeseparator ∷ op_checksig
    ∷ op_checksigverify ∷ op_checkmultisig ∷ op_checkmultisigverify ∷ []

abbrev early : List Opcode
early = op_pushdata1 ∷ op_pushdata2 ∷ op_pushdata4 ∷ op_1negate ∷ op_reserved ∷ []

-- `(opcodetype)c`.
unfoldable pub opcode : ℕ → Opcode
opcode c =
    if ltb c 76
    then op_push c
    else if ltb c 81
    then get_or early (c - 76) (op_other c)
    else if ltb c 97
    then op_number (c - 80)
    else if ltb c 176
    then get_or named (c - 97) (op_other c)
    else if ltb c 186
    then op_nop_n (c - 175)
    else if leb 0xea c
    then op_template c
    else op_other c

-- The codes that `operator()` refuses.
abbrev pub is_disabled : Opcode → Bool
is_disabled op_cat = true
is_disabled op_substr = true
is_disabled op_left = true
is_disabled op_right = true
is_disabled op_invert = true
is_disabled op_and = true
is_disabled op_or = true
is_disabled op_xor = true
is_disabled op_2mul = true
is_disabled op_2div = true
is_disabled op_mul = true
is_disabled op_div = true
is_disabled op_mod = true
is_disabled op_lshift = true
is_disabled op_rshift = true
is_disabled _ = false
