-- ===== src/Transaction/Verify/KeyHash.antt =====
-- A signature and a public key against a script that pays to the hash of a key.
use libcoin.Base.{
  ℕ, suc, ◌-◌, ◌≤◌, ◌≡◌, ◌∙◌, refl, Bool, true, false, ◌&&◌, [], ◌∷◌, ◌++◌, Bytes, length, arith,
  ltb, ◌==◌, if◌then◌else◌,
}
use libcoin.Message.Header.{same_bytes}
use libcoin.Script.Opcode.{opcode}
use libcoin.Script.Code.{push_value, set_address, find_and_delete, is_pay_to_script_hash}
use libcoin.Script.Machine.Number.{Library, cast_to_bool, digest, unary, binary}
use libcoin.Script.Machine.Stack.{on_stack, shuffle, arithmetic, truth}
use libcoin.Script.Machine.Run.{
  Iterator, eval, accepted, rejected, undefined_read, evaluate, rounds, max_element_size,
}
use libcoin.Script.Machine.Run.Steps.{at, Mark, op_step, rounds_end}
use libcoin.Transaction.{Transaction}
use libcoin.Transaction.Verify.{
  eval_checksig, eval_signature, eval_transaction, check_signature, verify_signature, verdict,
  undefined_verdict, new_machine,
}
use libcoin.Transaction.Verify.SignScript.{
  sign_script, length-sign_script, rounds-sign_script, evaluate-sign_script, hash_step,
  length-set_address,
}

module _ (lib : Library) (check_sig : Bytes → Bytes → Bytes → Bool) where
  -- The script of the address up to the comparison of the hashes.
  rounds-set_address :
      (signature key h : Bytes) (run : ℕ) (begin : Bytes) (hash : Mark)
      → length h ≡ 20
      → rounds
          (eval_transaction lib check_sig)
          25
          (at run begin (set_address h) 0 (key ∷ signature ∷ []) hash)
        ≡ (if same_bytes (lib.hash160 key) h
            then rounds
                (eval_transaction lib check_sig)
                21
                (at run begin (172 ∷ []) 3 (key ∷ signature ∷ []) hash)
            else rejected)
  unfolding eval_transaction eval eval_signature on_stack shuffle digest opcode set_address
  rounds-set_address signature key h run begin hash e =
      let ve = eval_transaction lib check_sig in
      let s = key ∷ signature ∷ [] in
      let hashed = lib.hash160 key ∷ s in
      op_step ve run begin hash 24 0 118 (169 ∷ 20 ∷ (h ++ 136 ∷ 172 ∷ [])) s (omega arith)
        (omega arith) refl
      ∙ op_step ve run begin hash 23 1 169 (20 ∷ (h ++ 136 ∷ 172 ∷ [])) (key ∷ s) (omega arith)
          (omega arith) refl
      ∙ hash_step ve run begin hash 22 2 h (136 ∷ 172 ∷ []) hashed e (omega arith)
      ∙ op_step ve run begin hash 21 2 136 (172 ∷ []) (h ∷ hashed) (omega arith) (omega arith) refl
      ∙ ground arith

  -- OP_CHECKSIG at the end of a script, where no separator was met.
  rounds-checksig :
      (signature key : Bytes) (run : ℕ) (begin : Bytes) (start : Iterator)
      → rounds
          (eval_transaction lib check_sig)
          21
          (at run begin (172 ∷ []) 3 (key ∷ signature ∷ []) (false, start))
        ≡ accepted (
            at run begin [] 4
              (truth (check_sig signature key (find_and_delete (push_value signature) begin)) ∷ [])
              (false, record { run = run; rest = begin }))
  unfolding eval_transaction eval eval_signature eval_checksig on_stack shuffle digest opcode
      arithmetic unary binary
  rounds-checksig signature key run begin start =
      let ve = eval_transaction lib check_sig in
      let one_run : (run == run) ≡ true = ground arith in
      op_step ve run begin (false, start) 20 3 172 [] (key ∷ signature ∷ []) (omega arith)
        (omega arith) refl
      ∙ rw one_run (
          rounds_end ve 20 run begin 4
            (truth (check_sig signature key (find_and_delete (push_value signature) begin)) ∷ [])
            (false, record { run = run; rest = begin }))

  -- The script of the address checks the hash of the key, then the signature.
  evaluate-set_address :
      (signature key h : Bytes) (run : ℕ) (begin current : Bytes) (count : ℕ) (start : Iterator)
      → length h ≡ 20
      → evaluate
          (eval_transaction lib check_sig)
          (set_address h)
          (at run begin current count (key ∷ signature ∷ []) (false, start))
        ≡ (if same_bytes (lib.hash160 key) h
            then accepted (
                at
                  (suc run)
                  (set_address h)
                  []
                  4
                  (truth (
                      check_sig signature key
                        (find_and_delete (push_value signature) (set_address h)))
                    ∷ [])
                  (false, record { run = suc run; rest = set_address h }))
            else rejected)
  unfolding evaluate
  evaluate-set_address signature key h run begin current count start e =
      rw
        (
          length-set_address h e,
          rounds-set_address signature key h (suc run) (set_address h) (false, start) e,
          rounds-checksig signature key (suc run) (set_address h) start,
        )
        refl

  -- A separator in the script of the signature.
  evaluate_separator :
      (signature key : Bytes)
      → length signature ≤ max_element_size
      → length key ≤ max_element_size
      → evaluate (eval_transaction lib check_sig) (171 ∷ sign_script signature key) new_machine
        ≡ accepted (
            at 1
              (171 ∷ sign_script signature key)
              []
              1
              (key ∷ signature ∷ [])
              (true, record { run = 1; rest = sign_script signature key }))
  unfolding evaluate eval_transaction eval eval_signature on_stack shuffle digest opcode arithmetic
      unary binary
  evaluate_separator signature key h k =
      let ve = eval_transaction lib check_sig in
      let script = sign_script signature key in
      let size = length-sign_script signature key in
      let f = length script - 2 in
      let enough : length script ≡ suc (suc f) = omega arith in
      let short : ltb 10000 (suc (length script)) ≡ false = ground arith in
      rw (short, enough)
        (op_step ve 1 (171 ∷ script) (false, record { run = 0; rest = [] }) (suc (suc f)) 0 171
            script [] (omega arith) (omega arith) refl
          ∙ rounds-sign_script ve signature key 1 (171 ∷ script) f 1
              (true, record { run = 1; rest = script }) h k)

  evaluate-set_address_separator :
      (signature key h : Bytes) (begin : Bytes) (rest : Bytes)
      → length h ≡ 20
      → same_bytes (lib.hash160 key) h ≡ true
      → evaluate
          (eval_transaction lib check_sig)
          (set_address h)
          (at 1 begin [] 1 (key ∷ signature ∷ []) (true, record { run = 1; rest = rest }))
        ≡ undefined_read
  unfolding evaluate eval_transaction eval eval_signature eval_checksig on_stack shuffle digest
      opcode arithmetic unary binary
  evaluate-set_address_separator signature key h begin rest e same =
      let ve = eval_transaction lib check_sig in
      let mark : Mark = (true, record { run = 1; rest = rest }) in
      rw (length-set_address h e, rounds-set_address signature key h 2 (set_address h) mark e, same)
        (op_step ve 2 (set_address h) mark 20 3 172 [] (key ∷ signature ∷ []) (omega arith)
          (omega arith) refl)

cast_to_bool-truth : (b : Bool) → cast_to_bool (truth b) ≡ b
unfolding cast_to_bool
cast_to_bool-truth true = refl
cast_to_bool-truth false = refl

is_pay_to_script_hash-set_address :
    (h : Bytes) → length h ≡ 20 → is_pay_to_script_hash (set_address h) ≡ false
unfolding is_pay_to_script_hash
is_pay_to_script_hash-set_address h e = rw (length-set_address h e) refl

module _ (lib : Library) (hash : Bytes → ℕ) (key_verify : Bytes → ℕ → Bytes → Bool) where
  -- An input whose script is a signature and a key, each of 520 bytes at most, is verified against the
  -- script that pays to a hash of 20 bytes exactly if that is the hash of the key, and the key verifies
  -- the signature over the script without the signature.
  pub verify_signature-set_address :
      (txn : Transaction) (n : ℕ) (strict : Bool) (signature key h : Bytes)
      → length signature ≤ max_element_size
      → length key ≤ max_element_size
      → length h ≡ 20
      → verify_signature lib hash key_verify txn n 0 strict
          (sign_script signature key)
          (set_address h)
        ≡ verdict (
            same_bytes (lib.hash160 key) h
            && check_signature lib hash key_verify txn n 0 signature key
                (find_and_delete (push_value signature) (set_address h)))
  unfolding verify_signature
  verify_signature-set_address txn n strict signature key h a b e =
      let check = check_signature lib hash key_verify txn n 0 in
      rw
        (
          evaluate-sign_script (eval_transaction lib check) signature key 0 [] [] 0
              (false, record { run = 0; rest = [] }) a b,
          evaluate-set_address lib check signature key h 1 (sign_script signature key) [] 0
              (record { run = 0; rest = [] }) e,
          is_pay_to_script_hash-set_address h e,
        )
        (ground (
          arith,
          cast_to_bool-truth
              (check signature key (find_and_delete (push_value signature) (set_address h))),
        ))

  -- With OP_CODESEPARATOR before a signature and a key of 520 bytes at most each, against the script that
  -- pays to the 20 bytes of the hash of that key, the check of the signature reads from an iterator into
  -- the script of the signature to the end of the other script, which is undefined.
  pub verify_signature-op_codeseparator :
      (txn : Transaction) (n : ℕ) (strict : Bool) (signature key h : Bytes)
      → length signature ≤ max_element_size
      → length key ≤ max_element_size
      → length h ≡ 20
      → same_bytes (lib.hash160 key) h ≡ true
      → verify_signature lib hash key_verify txn n 0 strict
          (171 ∷ sign_script signature key)
          (set_address h)
        ≡ undefined_verdict
  unfolding verify_signature
  verify_signature-op_codeseparator txn n strict signature key h a b e same =
      let check = check_signature lib hash key_verify txn n 0 in
      rw
        (
          evaluate_separator lib check signature key a b,
          evaluate-set_address_separator lib check signature key h (171 ∷ sign_script signature key)
              (sign_script signature key) e same,
        )
        refl
