-- ===== src/Transaction/SignatureHash.antt =====
-- `getSignatureHash` of src/coin/Transaction.cpp: the transaction that a signature signs, and its hash.
-- The library's `Hash` is a parameter.
use libcoin.Base.{
  ℕ, zero, suc, ◌/◌, ◌%◌, Bool, List, [], ◌∷◌, ◌++◌, Bytes, Option, none, some, get_elem?, set,
  length, map, leb, ◌==◌, if◌then◌else◌,
}
use libcoin.Serialize.Stream.{write_binary}
use libcoin.Script.Code.{find_and_delete}
use libcoin.Transaction.{Input, Output, Transaction, null_output, write_transaction}

abbrev pub sighash_none : ℕ
sighash_none = 2

abbrev pub sighash_single : ℕ
sighash_single = 3

-- `type & SIGHASH_ANYONECANPAY`.
abbrev pub anyone_can_pay : ℕ → Bool
anyone_can_pay type = type / 0x80 % 2 == 1

abbrev clear_signature : Input → Input
clear_signature i = record i { signature = [] }

abbrev clear_sequence : Input → Input
clear_sequence i = record i { sequence = 0 }

-- The sequence numbers become 0, but for the input at `n`.
unfoldable pub clear_others : ℕ → List Input → List Input
clear_others n [] = []
clear_others zero (i ∷ rest) = i ∷ map clear_sequence rest
clear_others (suc n) (i ∷ rest) = clear_sequence i ∷ clear_others n rest

-- The first `n` outputs become null, and those after the next go.
unfoldable pub single_output : ℕ → List Output → List Output
single_output n [] = []
single_output zero (o ∷ rest) = o ∷ []
single_output (suc n) (o ∷ rest) = null_output ∷ single_output n rest

-- The other inputs go.
abbrev pub only_input : ℕ → List Input → List Input
only_input n inputs = elim (get_elem? inputs n) [ none ↦ inputs | some i ↦ i ∷ [] ]

-- The outputs are blanked by `type & 0x1f`; `none` for SIGHASH_SINGLE without an output at `n`.
unfoldable pub blank_outputs : ℕ → ℕ → Transaction → Option Transaction
blank_outputs n type txn =
    if type % 32 == sighash_none
    then some (record txn { inputs = clear_others n txn.inputs; outputs = [] })
    else if type % 32 == sighash_single
    then if leb (length txn.outputs) n
      then none
      else some
          (record txn { inputs = clear_others n txn.inputs; outputs = single_output n txn.outputs })
    else some txn

-- The signatures of the inputs are empty, but for that at `n`, which is the script.
abbrev pub place_script : ℕ → Bytes → Transaction → Transaction
place_script n code txn =
    let cleared = map clear_signature txn.inputs in
    record txn {
      inputs = elim (get_elem? cleared n) [
        | none ↦ cleared
        | some i ↦ set cleared n (record i { signature = code })
      ];
    }

-- The transaction that is hashed; `none` where the hash is 1. 171 is OP_CODESEPARATOR.
unfoldable pub signed_transaction : Bytes → ℕ → ℕ → Transaction → Option Transaction
signed_transaction code n type txn =
    if leb (length txn.inputs) n
    then none
    else elim (blank_outputs n type (place_script n (find_and_delete (171 ∷ []) code) txn)) [
      | none ↦ none
      | some t ↦
          some (if anyone_can_pay type then record t { inputs = only_input n t.inputs } else t)
    ]

module _ (hash : Bytes → ℕ) where
  unfoldable pub signature_hash : Transaction → Bytes → ℕ → ℕ → ℕ
  signature_hash txn code n type = elim (signed_transaction code n type txn) [
    | none ↦ 1
    | some t ↦ hash (write_transaction t ++ write_binary 4 type)
  ]
