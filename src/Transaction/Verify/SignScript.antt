-- ===== src/Transaction/Verify/SignScript.antt =====
-- The runs of the script of a signature and a key, and of pushes.
use libcoin.Base.{
  ℕ, suc, ◌+◌, ◌-◌, ◌<◌, ◌≤◌, ◌≡◌, ◌∙◌, refl, false, [], ◌∷◌, ◌++◌, Bytes, length, arith, ltb,
  length-append,
}
use libcoin.Script.Opcode.{Opcode}
use mathlib.Core.Path.{subst}
use mathlib.Core.List.{append-nil}
use libcoin.Serialize.Stream.{write_binary}
use libcoin.Serialize.Stream.Laws.{length-write_binary}
use libcoin.Script.Code.{push_value, set_address}
use libcoin.Script.Machine.Stack.{Values}
use libcoin.Script.Machine.Run.{Machine, Turn, accepted, evaluate, rounds, max_element_size}
use libcoin.Script.Machine.Run.Steps.{at, Mark, push_step, rounds_end}

length-push_value :
    (v : Bytes) → (length v < length (push_value v)) × (length (push_value v) ≤ length v + 5)
unfolding push_value
length-push_value v = ground (
  arith,
  length-append (write_binary 1 (length v)) v,
  length-append (write_binary 2 (length v)) v,
  length-append (write_binary 4 (length v)) v,
  length-write_binary 1 (length v),
  length-write_binary 2 (length v),
  length-write_binary 4 (length v),
)

abbrev pub sign_script : Bytes → Bytes → Bytes
sign_script signature key = push_value signature ++ push_value key

pub length-sign_script :
    (signature key : Bytes)
    → (2 ≤ length (sign_script signature key))
      × (length (sign_script signature key) ≤ length signature + length key + 10)
length-sign_script signature key =
    let (a, b) = length-push_value signature in
    let (c, d) = length-push_value key in
    let size = length-append (push_value signature) (push_value key) in (omega arith, omega arith)

module _ (virtual_eval : Opcode → Machine → Turn) where
  pub rounds-sign_script :
      (signature key : Bytes) (run : ℕ) (begin : Bytes) (f count : ℕ) (hash : Mark)
      → length signature ≤ max_element_size
      → length key ≤ max_element_size
      → rounds virtual_eval (suc (suc f)) (at run begin (sign_script signature key) count [] hash)
        ≡ accepted (at run begin [] count (key ∷ signature ∷ []) hash)
  rounds-sign_script signature key run begin f count hash h k =
      push_step virtual_eval run begin hash (suc f) count signature (push_value key) [] h
        (omega arith)
      ∙ subst
          (λ c.
            rounds virtual_eval (suc f) (at run begin c count (signature ∷ []) hash)
            ≡ rounds virtual_eval f (at run begin [] count (key ∷ signature ∷ []) hash))
          (append-nil (push_value key))
          (push_step virtual_eval run begin hash f count key [] (signature ∷ []) k (omega arith))
      ∙ rounds_end virtual_eval f run begin count (key ∷ signature ∷ []) hash

  -- The script of the signature leaves the signature and the key.
  pub evaluate-sign_script :
      (signature key : Bytes) (run : ℕ) (begin current : Bytes) (count : ℕ) (hash : Mark)
      → length signature ≤ max_element_size
      → length key ≤ max_element_size
      → evaluate virtual_eval (sign_script signature key) (at run begin current count [] hash)
        ≡ accepted (at (suc run) (sign_script signature key) [] 0 (key ∷ signature ∷ []) hash)
  unfolding evaluate
  evaluate-sign_script signature key run begin current count hash h k =
      let script = sign_script signature key in
      let size = length-sign_script signature key in
      let f = length script - 2 in
      let enough : length script ≡ suc (suc f) = omega arith in
      let short : ltb 10000 (length script) ≡ false = ground arith in
      rw (short, enough) (rounds-sign_script signature key (suc run) script f 0 hash h k)

  -- A hash of 20 bytes that is pushed.
  pub hash_step :
      (run : ℕ) (begin : Bytes) (hash : Mark) (f count : ℕ) (h rest : Bytes) (s : Values)
      → length h ≡ 20
      → length s < 1000
      → rounds virtual_eval (suc f) (at run begin (20 ∷ (h ++ rest)) count s hash)
        ≡ rounds virtual_eval f (at run begin rest count (h ∷ s) hash)
  unfolding push_value write_binary
  hash_step run begin hash f count h rest s e k =
      let pushed : push_value h ≡ 20 ∷ h = rw e refl in
      subst
        (λ c.
          rounds virtual_eval (suc f) (at run begin (c ++ rest) count s hash)
          ≡ rounds virtual_eval f (at run begin rest count (h ∷ s) hash))
        pushed (push_step virtual_eval run begin hash f count h rest s (omega arith) k)

pub length-set_address : (h : Bytes) → length h ≡ 20 → length (set_address h) ≡ 25
unfolding set_address
length-set_address h e = omega (arith, length-append h (136 ∷ 172 ∷ []))
