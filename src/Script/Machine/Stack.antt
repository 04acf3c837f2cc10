-- ===== src/Script/Machine/Stack.antt =====
-- The operations of `Evaluator::eval` on the stack. `fail` is `return false` or an exception, which
-- `operator()` turns into false; `pass` is a code that leaves the stack as it is.
use libcoin.Base.{
  suc, Bool, true, false, not, ◌&&◌, List, [], ◌∷◌, ◌++◌, Bytes, none, some, get_elem?, length,
  take, drop, if◌then◌else◌,
}
use libcoin.Base.Int.{ℤ, pos, negsuc, ltb_ℤ}
use libcoin.Message.Header.{same_bytes}
use libcoin.Script.Opcode.{
  Opcode, op_number, op_1negate, op_verify, op_return, op_2drop, op_2dup, op_3dup, op_2over,
  op_2rot, op_2swap, op_ifdup, op_depth, op_drop, op_dup, op_nip, op_over, op_pick, op_roll, op_rot,
  op_swap, op_tuck, op_size, op_equal, op_equalverify, op_numequalverify, op_within,
}
use libcoin.Script.Machine.Number.{
  Library, cast_to_bool, cast_to_number, get_int, unary, binary, digest,
}

abbrev pub Values : Type 0
Values = List Bytes

-- `vchTrue` or `vchFalse`.
abbrev pub truth : Bool → Bytes
truth true = 1 ∷ []
truth false = []

-- What a group of opcodes does with the stack.
pub data Reply : Type 0 where
  pass fail : Reply
  leave : Values → Reply

-- The stack operations from OP_2DROP to OP_TUCK, and OP_SIZE, that read no number from the stack.
unfoldable pub shuffle : Library → Opcode → Values → Reply
shuffle lib op_2drop (a ∷ b ∷ s) = leave s
shuffle lib op_2drop _ = fail
shuffle lib op_2dup (a ∷ b ∷ s) = leave (a ∷ b ∷ a ∷ b ∷ s)
shuffle lib op_2dup _ = fail
shuffle lib op_3dup (a ∷ b ∷ c ∷ s) = leave (a ∷ b ∷ c ∷ a ∷ b ∷ c ∷ s)
shuffle lib op_3dup _ = fail
shuffle lib op_2over (a ∷ b ∷ c ∷ d ∷ s) = leave (c ∷ d ∷ a ∷ b ∷ c ∷ d ∷ s)
shuffle lib op_2over _ = fail
shuffle lib op_2rot (a ∷ b ∷ c ∷ d ∷ e ∷ f ∷ s) = leave (e ∷ f ∷ a ∷ b ∷ c ∷ d ∷ s)
shuffle lib op_2rot _ = fail
shuffle lib op_2swap (a ∷ b ∷ c ∷ d ∷ s) = leave (c ∷ d ∷ a ∷ b ∷ s)
shuffle lib op_2swap _ = fail
shuffle lib op_ifdup (a ∷ s) = leave (if cast_to_bool a then a ∷ a ∷ s else a ∷ s)
shuffle lib op_ifdup _ = fail
shuffle lib op_depth s = leave (lib.vch_of (pos (length s)) ∷ s)
shuffle lib op_drop (a ∷ s) = leave s
shuffle lib op_drop _ = fail
shuffle lib op_dup (a ∷ s) = leave (a ∷ a ∷ s)
shuffle lib op_dup _ = fail
shuffle lib op_nip (a ∷ b ∷ s) = leave (a ∷ s)
shuffle lib op_nip _ = fail
shuffle lib op_over (a ∷ b ∷ s) = leave (b ∷ a ∷ b ∷ s)
shuffle lib op_over _ = fail
shuffle lib op_rot (a ∷ b ∷ c ∷ s) = leave (c ∷ a ∷ b ∷ s)
shuffle lib op_rot _ = fail
shuffle lib op_swap (a ∷ b ∷ s) = leave (b ∷ a ∷ s)
shuffle lib op_swap _ = fail
shuffle lib op_tuck (a ∷ b ∷ s) = leave (a ∷ b ∷ a ∷ s)
shuffle lib op_tuck _ = fail
shuffle lib op_size (a ∷ s) = leave (lib.vch_of (pos (length a)) ∷ a ∷ s)
shuffle lib op_size _ = fail
shuffle lib _ s = pass

-- OP_PICK and OP_ROLL: the stack below the number, and that number.
abbrev pick : Bool → ℤ → Values → Reply
pick roll (negsuc n) s = fail
pick roll (pos n) s = elim (get_elem? s n) [
  | none ↦ fail
  | some v ↦ leave (v ∷ (if roll then take n s ++ drop (suc n) s else s))
]

pick_number : Library → Bool → Values → Reply
pick_number lib roll (a ∷ b ∷ s) = elim (cast_to_number lib a) [
  | none ↦ fail
  | some n ↦ pick roll (get_int n) (b ∷ s)
]
pick_number lib roll _ = fail

-- `fVerify ? pop : return false` behind a comparison.
abbrev pub verified : Bool → Values → Reply
verified true s = leave s
verified false s = fail

equal : Bool → Values → Reply
equal verify (a ∷ b ∷ s) =
    if verify then verified (same_bytes b a) s else leave (truth (same_bytes b a) ∷ s)
equal verify _ = fail

unary_op : Library → (ℤ → ℤ) → Values → Reply
unary_op lib f (a ∷ s) = elim (cast_to_number lib a) [
  | none ↦ fail
  | some n ↦ leave (lib.vch_of (f n) ∷ s)
]
unary_op lib f [] = fail

is_numequalverify : Opcode → Bool
is_numequalverify op_numequalverify = true
is_numequalverify _ = false

-- `top(-2)` is the first number.
binary_op : Library → Bool → (ℤ → ℤ → ℤ) → Values → Reply
binary_op lib verify f (b ∷ a ∷ s) = elim (cast_to_number lib a) [
  | none ↦ fail
  | some m ↦ elim (cast_to_number lib b) [
    | none ↦ fail
    | some n ↦
        if verify
        then verified (cast_to_bool (lib.vch_of (f m n))) s
        else leave (lib.vch_of (f m n) ∷ s)
  ]
]
binary_op lib verify f _ = fail

-- (x min max -- out)
within : Library → Values → Reply
within lib (c ∷ b ∷ a ∷ s) = elim (cast_to_number lib a) [
  | none ↦ fail
  | some x ↦ elim (cast_to_number lib b) [
    | none ↦ fail
    | some low ↦ elim (cast_to_number lib c) [
      | none ↦ fail
      | some high ↦ leave (truth (not (ltb_ℤ x low) && ltb_ℤ x high) ∷ s)
    ]
  ]
]
within lib _ = fail

hash_op : (Bytes → Bytes) → Values → Reply
hash_op h (a ∷ s) = leave (h a ∷ s)
hash_op h [] = fail

-- The numeric operations.
unfoldable pub arithmetic : Library → Opcode → Values → Reply
unfolding unary_op binary_op is_numequalverify within
arithmetic lib op_within s = within lib s
arithmetic lib op s = elim (unary op) [
  | some f ↦ unary_op lib f s
  | none ↦ elim (binary op) [ some f ↦ binary_op lib (is_numequalverify op) f s | none ↦ pass ]
]

-- The codes that touch the main stack only; the push of a number is (int)opcode - (OP_1 - 1).
unfoldable pub on_stack : Library → Opcode → Values → Reply
unfolding pick_number equal hash_op
on_stack lib op_1negate s = leave (lib.vch_of (negsuc 0) ∷ s)
on_stack lib (op_number n) s = leave (lib.vch_of (pos n) ∷ s)
on_stack lib op_pick s = pick_number lib false s
on_stack lib op_roll s = pick_number lib true s
on_stack lib op_equal s = equal false s
on_stack lib op_equalverify s = equal true s
on_stack lib op_verify [] = fail
on_stack lib op_verify (a ∷ s) = verified (cast_to_bool a) s
on_stack lib op_return s = fail
on_stack lib op s = elim (digest lib op) [
  | some h ↦ hash_op h s
  | none ↦ elim (shuffle lib op s) [
    | pass ↦ arithmetic lib op s
    | fail ↦ fail
    | leave s' ↦ leave s'
  ]
]
