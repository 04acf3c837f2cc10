-- ===== src/Transaction/Verify/Ending.antt =====
-- The evaluation of a transaction's scripts ends, within the limits of `Evaluator`.
use libcoin.Base.{
  ℕ, suc, ◌==◌, ◌∙◌, ◌+◌, ◌≤◌, ◌≡◌, ◌⊎◌, inl, inr, refl, Option, none, some, Bool, true, false,
  List, [], ◌∷◌, Bytes, length, arith, ltb, Bool-cases,
}
use libcoin.Script.Opcode.{
  Opcode, op_codeseparator, op_checksig, op_checksigverify, op_checkmultisig,
  op_checkmultisigverify,
}
use libcoin.Script.Machine.Number.{Library}
use libcoin.Script.Machine.Stack.{Values}
use libcoin.Script.Machine.Run.{Machine, Turn, go, refuse, undefined, eval}
use libcoin.Script.Machine.Run.Bounds.{
  Keeps, Ends, HadStray, HadStray-self, is_stray, eval-Keeps, evaluate-Ends,
}
use libcoin.Script.Code.{find_and_delete, push_value}
use libcoin.Transaction.{Transaction}
use libcoin.Transaction.Verify.{
  MultiSigArgs, code_start, push_result, with_code, eval_checksig, eval_checkmultisig,
  eval_signature, and_then, eval_transaction, run_script, check_signature, check_arguments,
  check_counted, signatures_of, count_of, match_signatures, delete_signatures,
}

push_result-Keeps :
    (verify success : Bool) (s : List Bytes) (m n : Machine)
    → m.current ≡ n.current
    → (m.op_count ≡ n.op_count) ⊎ (m.op_count ≤ 201)
    → HadStray (is_stray n) m
    → Keeps n (push_result verify success s m)
push_result-Keeps true true s m n e k astray = (e, k, astray)
push_result-Keeps true false s m n e k astray = tt
push_result-Keeps false success s m n e k astray = (e, k, astray)

-- The code starts astray only where it did.
code_start-HadStray : (m : Machine) → HadStray (is_stray m) (code_start m)
code_start-HadStray m = ground (arith, HadStray-self m)

code_start-same : (m : Machine) → (code_start m).current ≡ m.current
code_start-same m = ground arith

code_start-count : (m : Machine) → (code_start m).op_count ≡ m.op_count
code_start-count m = ground arith

Keeps-trans : (m n : Machine) (t : Turn) → Keeps m (go n) → Keeps n t → Keeps m t
Keeps-trans m n (go u) (same, count, astray) (same', count', astray') =
    (same' ∙ same, omega arith, ground arith)
Keeps-trans m n refuse h k = tt
Keeps-trans m n undefined (same, count, astray) k = ground arith

module _ (lib : Library) (check_sig : Bytes → Bytes → Bytes → Bool) where
  with_code-Keeps :
      (m n : Machine) (next : Bytes → Turn)
      → (m.code_separator ≡ false → m.code_hash.run ≡ m.run)
      → HadStray (is_stray n) m
      → ((code : Bytes) → Keeps n (next code))
      → Keeps n (with_code lib check_sig m next)
  with_code-Keeps m n next own astray h = elim (Bool-cases (m.code_hash.run == m.run)) [
    | inl same ↦ rw same (h m.code_hash.rest)
    | inr other ↦ rw other (elim (Bool-cases m.code_separator) [
      | inl separated ↦ ground arith
      | inr plain ↦ let same = own plain in absurd (ground arith)
    ])
  ]

  code_start-own :
      (m : Machine)
      → (code_start m).code_separator ≡ false
      → (code_start m).code_hash.run ≡ (code_start m).run
  code_start-own m = elim (Bool-cases m.code_separator) [
    | inl separated ↦ rw separated (λ plain. absurd (ground arith))
    | inr plain ↦ rw plain (λ _. refl)
  ]

  eval_checksig-Keeps :
      (verify : Bool) (s : Values) (m : Machine) → Keeps m (eval_checksig lib check_sig verify s m)
  unfolding eval_checksig
  eval_checksig-Keeps verify [] m = tt
  eval_checksig-Keeps verify (key ∷ []) m = tt
  eval_checksig-Keeps verify (key ∷ sig ∷ s) m =
      with_code-Keeps (code_start m) m _ (code_start-own m) (code_start-HadStray m) (λ code.
        push_result-Keeps verify (check_sig sig key (find_and_delete (push_value sig) code)) s
          (code_start m) m (code_start-same m) (inl (code_start-count m)) (code_start-HadStray m))

  check_arguments-Keeps :
      (verify : Bool) (a : Option MultiSigArgs) (m n : Machine)
      → m.current ≡ n.current
      → m.op_count ≤ 201
      → (m.code_separator ≡ false → m.code_hash.run ≡ m.run)
      → HadStray (is_stray n) m
      → Keeps n (check_arguments lib check_sig verify a m)
  unfolding check_arguments
  check_arguments-Keeps verify none m n e k own astray = tt
  check_arguments-Keeps verify (some a) m n e k own astray =
      with_code-Keeps m n _ own astray (λ code.
        push_result-Keeps verify
          (match_signatures (λ sig key. check_sig sig key (delete_signatures a.signatures code))
            a.signatures a.keys)
          a.below m n e (inr k) astray)

  check_counted-Keeps :
      (verify : Bool) (n : Option ℕ) (s : Values) (m : Machine)
      → Keeps m (check_counted lib check_sig verify n s m)
  unfolding check_counted
  check_counted-Keeps verify none s m = tt
  check_counted-Keeps verify (some n) s m = elim (Bool-cases (ltb 201 (m.op_count + n))) [
    | inl over ↦ rw over tt
    | inr under ↦
        let counted = record m { op_count = m.op_count + n } in
        let under' : m.op_count + n ≤ 201 = ground arith in
        rw under (
          check_arguments-Keeps verify (signatures_of lib n s) (code_start counted) m
            (code_start-same counted) (omega (arith, code_start-count counted, under'))
            (code_start-own counted) (code_start-HadStray counted))
  ]

  eval_checkmultisig-Keeps :
      (verify : Bool) (s : Values) (m : Machine)
      → Keeps m (eval_checkmultisig lib check_sig verify s m)
  unfolding eval_checkmultisig
  eval_checkmultisig-Keeps verify [] m = tt
  eval_checkmultisig-Keeps verify (count ∷ s) m =
      check_counted-Keeps verify (count_of lib 20 count) s m

  eval_signature-Keeps : (op : Opcode) (m : Machine) → Keeps m (eval_signature lib check_sig op m)
  unfolding eval_signature
  eval_signature-Keeps op_codeseparator m = (refl, inl refl, ground arith)
  eval_signature-Keeps op_checksig m = eval_checksig-Keeps false m.stack m
  eval_signature-Keeps op_checksigverify m = eval_checksig-Keeps true m.stack m
  eval_signature-Keeps op_checkmultisig m = eval_checkmultisig-Keeps false m.stack m
  eval_signature-Keeps op_checkmultisigverify m = eval_checkmultisig-Keeps true m.stack m
  eval_signature-Keeps _ m = (refl, inl refl, HadStray-self m)

  and_then-Keeps :
      (m : Machine) (t : Turn) (next : Machine → Turn)
      → Keeps m t
      → ((n : Machine) → Keeps n (next n))
      → Keeps m (and_then lib check_sig t next)
  and_then-Keeps m (go n) next h k = Keeps-trans m n (next n) h (k n)
  and_then-Keeps m refuse next h k = tt
  and_then-Keeps m undefined next h k = h

  -- `TransactionEvaluator::eval` keeps the iterator, and the count of operations up to its limit.
  pub eval_transaction-Keeps :
      (op : Opcode) (m : Machine) → Keeps m (eval_transaction lib check_sig op m)
  unfolding eval_transaction
  eval_transaction-Keeps op m =
      and_then-Keeps m (eval lib op m) (eval_signature lib check_sig op) (eval-Keeps lib op m)
        (eval_signature-Keeps op)

-- The evaluation of each script of a transaction is over within the fuel that it has, from any state
-- whose stacks are within the limit: the script is accepted or rejected, or the evaluation comes to what
-- is undefined, a read between iterators of two scripts, of which no more is said. It comes to that only
-- if OP_CODESEPARATOR was met before this script, and the iterator of its place is of another script. An
-- accepted script leaves at most 1000 values and at most 201 counted operations, was read to its end, and
-- has every conditional closed.
pub run_script-Ends :
    (lib : Library) (hash : Bytes → ℕ) (key_verify : Bytes → ℕ → Bytes → Bool) (txn : Transaction)
    (n type : ℕ) (script : Bytes) (m : Machine)
    → length m.stack + length m.alt_stack ≤ 1000
    → Ends
        (is_stray (record m { run = suc m.run }))
        (run_script lib hash key_verify txn n type script m)
run_script-Ends lib hash key_verify txn n type script m l =
    let check = check_signature lib hash key_verify txn n type in
    evaluate-Ends (eval_transaction lib check) (eval_transaction-Keeps lib check) script m l
