-- ===== src/Transaction/Verify.antt =====
-- `TransactionEvaluator` and `Transaction::verify` of src/coin/Transaction.cpp. `key_verify` stands for
-- `Key` and its `verify`, which is OpenSSL's, and is false where they throw.
pub mod MultiSig
pub mod Ending
pub mod KeyHash
pub mod SignScript
use libcoin.Base.{
  ℕ, zero, suc, ◌+◌, ◌-◌, Bool, true, false, not, ◌&&◌, ◌||◌, List, [], ◌∷◌, ◌++◌, Bytes, Option,
  none, some, get_elem?, length, take, drop, ltb, leb, ◌==◌, if◌then◌else◌,
}
use libcoin.Base.Int.{ℤ, pos, negsuc}
use libcoin.Script.Opcode.{
  Opcode, op_codeseparator, op_checksig, op_checksigverify, op_checkmultisig,
  op_checkmultisigverify,
}
use libcoin.Script.Code.{find_and_delete, push_value, is_push_only, is_pay_to_script_hash}
use libcoin.Script.Machine.Number.{Library, cast_to_bool, cast_to_number, get_int}
use libcoin.Script.Machine.Stack.{Values, truth}
use libcoin.Script.Machine.Run.{
  Iterator, Machine, Turn, go, refuse, undefined, eval, Result, accepted, rejected, undefined_read,
  no_fuel, evaluate,
}
use libcoin.Transaction.{Input, Transaction}
use libcoin.Transaction.SignatureHash.{signature_hash}

-- Each signature of a list is deleted from the script.
unfoldable pub delete_signatures : List Bytes → Bytes → Bytes
delete_signatures [] code = code
delete_signatures (s ∷ rest) code = delete_signatures rest (find_and_delete (push_value s) code)

-- `_codehash` as it is set before its use.
abbrev pub code_start : Machine → Machine
code_start m =
    if m.code_separator then m else record m { code_hash = record { run = m.run; rest = m.begin } }

-- The end of OP_CHECKSIG and OP_CHECKMULTISIG, and of their VERIFY forms.
abbrev pub push_result : Bool → Bool → Values → Machine → Turn
push_result verify success s m =
    if not verify
    then go (record m { stack = truth success ∷ s })
    else if success
    then go (record m { stack = s })
    else refuse

-- The loop of OP_CHECKMULTISIG over the keys that are left.
unfoldable pub match_signatures : (Bytes → Bytes → Bool) → List Bytes → List Bytes → Bool
match_signatures check [] keys = true
match_signatures check (s ∷ ss) [] = false
match_signatures check (s ∷ ss) (k ∷ ks) =
    let left = if check s k then ss else s ∷ ss in
    let rest = match_signatures check left ks in
    if ltb (length ks) (length left) then false else rest

-- The arguments of OP_CHECKMULTISIG below the number of keys: the keys, the signatures, and what is
-- below the value that is dropped with them.
pub record MultiSigArgs : Type 0 where
  pub keys : List Bytes
  pub signatures : List Bytes
  pub below : Values

abbrev count_in : ℤ → ℕ → Option ℕ
count_in (negsuc k) most = none
count_in (pos n) most = if ltb most n then none else some n

abbrev pub count_of : Library → ℕ → Bytes → Option ℕ
count_of lib most v = elim (cast_to_number lib v) [
  | none ↦ none
  | some n ↦ count_in (get_int n) most
]

unfoldable pub signatures_of : Library → ℕ → Values → Option MultiSigArgs
signatures_of lib n s = elim (get_elem? s n) [
  | none ↦ none
  | some v ↦ elim (count_of lib n v) [
    | none ↦ none
    | some k ↦
        if ltb (length s) (n + k + 2)
        then none
        else some (record {
          keys = take n s;
          signatures = take k (drop (suc n) s);
          below = drop (n + k + 2) s;
        })
  ]
]

module _ (lib : Library) (check_sig : Bytes → Bytes → Bytes → Bool) where
  -- `Script(_codehash, _end)`: both iterators are of one script, or the range is undefined.
  abbrev pub with_code : Machine → (Bytes → Turn) → Turn
  with_code m next = if m.code_hash.run == m.run then next m.code_hash.rest else undefined

  unfoldable pub eval_checksig : Bool → Values → Machine → Turn
  eval_checksig verify (key ∷ signature ∷ s) m =
      let m' = code_start m in
      with_code m' (λ code.
        push_result verify (check_sig signature key (find_and_delete (push_value signature) code)) s
          m')
  eval_checksig verify _ m = refuse

  -- OP_CHECKMULTISIG once its arguments are found.
  unfoldable pub check_arguments : Bool → Option MultiSigArgs → Machine → Turn
  check_arguments verify none m = refuse
  check_arguments verify (some a) m = with_code m (λ code.
      let left = delete_signatures a.signatures code in
      push_result verify (match_signatures (λ sig key. check_sig sig key left) a.signatures a.keys)
        a.below m)

  -- OP_CHECKMULTISIG for a number of keys, which count as operations.
  unfoldable pub check_counted : Bool → Option ℕ → Values → Machine → Turn
  check_counted verify none s m = refuse
  check_counted verify (some n) s m =
      if ltb 201 (m.op_count + n)
      then refuse
      else check_arguments verify (signatures_of lib n s)
          (code_start (record m { op_count = m.op_count + n }))

  unfoldable pub eval_checkmultisig : Bool → Values → Machine → Turn
  eval_checkmultisig verify [] m = refuse
  eval_checkmultisig verify (count ∷ s) m = check_counted verify (count_of lib 20 count) s m

  -- The codes of `TransactionEvaluator::eval`, once `Evaluator::eval` has gone on.
  unfoldable pub eval_signature : Opcode → Machine → Turn
  eval_signature op_codeseparator m =
      go (record m { code_hash = record { run = m.run; rest = m.current }; code_separator = true })
  eval_signature op_checksig m = eval_checksig false m.stack m
  eval_signature op_checksigverify m = eval_checksig true m.stack m
  eval_signature op_checkmultisig m = eval_checkmultisig false m.stack m
  eval_signature op_checkmultisigverify m = eval_checkmultisig true m.stack m
  eval_signature _ m = go m

  abbrev pub and_then : Turn → (Machine → Turn) → Turn
  and_then (go m) next = next m
  and_then refuse next = refuse
  and_then undefined next = undefined

  -- `TransactionEvaluator::eval`.
  unfoldable pub eval_transaction : Opcode → Machine → Turn
  eval_transaction op m = and_then (eval lib op m) (eval_signature op)

-- The last byte of a signature, its hash type, and the rest.
unfoldable pub split_last : Bytes → Option (Bytes × ℕ)
split_last [] = none
split_last (b ∷ []) = some ([], b)
split_last (b ∷ c ∷ s) = elim (split_last (c ∷ s)) [
  | none ↦ none
  | some (front, last) ↦ some (b ∷ front, last)
]

abbrev pub new_machine : Machine
new_machine = record {
  run = 0;
  begin = [];
  current = [];
  op_count = 0;
  exec = true;
  exec_stack = [];
  stack = [];
  alt_stack = [];
  code_separator = false;
  code_hash = record { run = 0; rest = [] };
}

-- What `verify` returns, unless it reads outside of a script.
pub data Verification : Type 0 where
  verdict : Bool → Verification
  undefined_verdict : Verification

-- `if (!eval(script) || eval.stack().empty()) return false;`.
abbrev pub continue_with : Result → (Machine → Bytes → Verification) → Verification
continue_with (accepted m) next = elim m.stack [ [] ↦ verdict false | v ∷ s ↦ next m v ]
continue_with rejected next = verdict false
continue_with undefined_read next = undefined_verdict
continue_with no_fuel next = undefined_verdict

module _ (lib : Library) (hash : Bytes → ℕ) (key_verify : Bytes → ℕ → Bytes → Bool) where
  -- `checkSig`; `hash_type` is `_hash_type`.
  unfoldable pub check_signature : Transaction → ℕ → ℕ → Bytes → Bytes → Bytes → Bool
  check_signature txn n hash_type signature key code = elim (split_last signature) [
    | none ↦ false
    | some (front, last) ↦
        if hash_type == 0 || hash_type == last
        then key_verify key (signature_hash hash txn code n last) front
        else false
  ]

  abbrev pub run_script : Transaction → ℕ → ℕ → Bytes → Machine → Result
  run_script txn n type = evaluate (eval_transaction lib (check_signature txn n type))

  -- The end of `verify` for a script hash: the serialized script is the top of the stack that the
  -- signature left.
  unfoldable pub pay_to_script_hash : Transaction → ℕ → ℕ → Values → Bytes → Machine → Verification
  pay_to_script_hash txn n type copy signature m =
      if not (is_push_only signature) then verdict false else elim copy [
        | [] ↦ verdict false
        | serialized ∷ s ↦
            continue_with (run_script txn n type serialized (record m { stack = s }))
              (λ m' v. verdict (cast_to_bool v))
      ]

  -- `verify(n, script, type, strictPayToScriptHash)` for the input with this signature.
  unfoldable pub verify_signature : Transaction → ℕ → ℕ → Bool → Bytes → Bytes → Verification
  verify_signature txn n type strict signature script =
      continue_with (run_script txn n type signature new_machine) (λ m v.
        continue_with (run_script txn n type script m) (λ m' v'.
          if not (cast_to_bool v')
          then verdict false
          else if strict && is_pay_to_script_hash script
          then pay_to_script_hash txn n type m.stack signature m'
          else verdict true))

  -- The input is `getInput(n)`, which is undefined out of range.
  unfoldable pub verify : Transaction → ℕ → Bytes → ℕ → Bool → Verification
  verify txn n script type strict = elim (get_elem? txn.inputs n) [
    | none ↦ undefined_verdict
    | some i ↦ verify_signature txn n type strict i.signature script
  ]

  -- What is left of `verify(scripts, strictPayToScriptHash)` after an input.
  abbrev pub go_on : Verification → Verification → Verification
  go_on (verdict true) rest = rest
  go_on (verdict false) rest = verdict false
  go_on undefined_verdict rest = undefined_verdict

  unfoldable pub verify_from : Transaction → ℕ → List Bytes → Bool → Verification
  verify_from txn n [] strict = verdict true
  verify_from txn n (script ∷ scripts) strict =
      go_on (verify txn n script 0 strict) (verify_from txn (suc n) scripts strict)

  -- `verify(scripts, strictPayToScriptHash)`.
  unfoldable pub verify_all : Transaction → List Bytes → Bool → Verification
  verify_all txn scripts strict =
      if not (length scripts == length txn.inputs)
      then verdict false
      else verify_from txn 0 scripts strict
