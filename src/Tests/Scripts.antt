-- ===== src/Tests/Scripts.antt =====
-- Scripts, signatures and fees at concrete inputs, with a library of constant digests.
use libcoin.Base.{
  ℕ, ◌<◌, ◌≤◌, ◌≡◌, ◌↔◌, ◌⊎◌, refl, Bool, true, false, ◌&&◌, [], ◌∷◌, ◌++◌, Bytes, length, some,
  arith, ok, map,
}
use libcoin.Base.Int.{pos}
use libcoin.Script.Code.{
  fetched, get_op, push_value, get_address, set_address, sig_op_count, find_and_delete,
}
use libcoin.Script.Code.Laws.{get_op-push_value}
use libcoin.Script.Code.SigOps.{SigOps, sig_op_count-SigOps}
use libcoin.Script.Code.Address.{get_address-set_address}
use libcoin.Script.Canonical.{check_canonical_signature}
use libcoin.Script.Canonical.Laws.{
  encode_signature, IsInteger, IsHashType, check_canonical_signature-encode_signature,
}
use libcoin.Script.Machine.Number.{Library}
use libcoin.Script.Machine.Run.Bounds.{is_stray, Ends}
use libcoin.Transaction.{Transaction, Input}
use libcoin.Transaction.Fee.{get_min_fee, base_fee, has_dust, is_small, get_min_fee_lem}
use libcoin.Transaction.Replace.{is_newer_than, lowest_new, lowest_old, is_newer_than-lowest_change}
use libcoin.Transaction.Verify.{
  match_signatures, new_machine, run_script, verify_signature, check_signature, verdict,
  undefined_verdict,
}
use libcoin.Transaction.Verify.Ending.{run_script-Ends}
use libcoin.Transaction.Verify.KeyHash.{
  verify_signature-set_address, verify_signature-op_codeseparator,
}
use libcoin.Transaction.Verify.MultiSig.{Matches, match_signatures-Matches}
use libcoin.Transaction.Verify.SignScript.{sign_script}
use libcoin.Chain.Check.{max_money}
use libcoin.Message.Header.{same_bytes}

abbrev key_hash : Bytes
key_hash =
    1 ∷ 2 ∷ 3 ∷ 4 ∷ 5 ∷ 6 ∷ 7 ∷ 8 ∷ 9 ∷ 10 ∷ 11 ∷ 12 ∷ 13 ∷ 14 ∷ 15 ∷ 16 ∷ 17 ∷ 18 ∷ 19 ∷ 20 ∷ []

abbrev constant_digest : Bytes → Bytes
constant_digest v = key_hash

abbrev library : Library
library = record {
  number_of = λ v. pos (length v);
  vch_of = λ n. 1 ∷ [];
  ripemd160 = constant_digest;
  sha1 = constant_digest;
  sha256 = constant_digest;
  hash160 = constant_digest;
  hash256 = constant_digest;
}

abbrev hash_of : Bytes → ℕ
hash_of v = length v

abbrev key_verify : Bytes → ℕ → Bytes → Bool
key_verify key hash signature = true

abbrev spending : Transaction
spending = record {
  version = 1;
  inputs = record { prevout = record { hash = 5; index = 0 }; signature = []; sequence = 9 } ∷ [];
  outputs = record { value = pos 7; script = set_address key_hash } ∷ [];
  lock_time = 0;
}

abbrev replaced : Transaction
replaced = record {
  version = 1;
  inputs = record { prevout = record { hash = 5; index = 0 }; signature = []; sequence = 8 } ∷ [];
  outputs = [];
  lock_time = 0;
}

abbrev signature : Bytes
signature = 48 ∷ 1 ∷ []

abbrev public_key : Bytes
public_key = 2 ∷ 7 ∷ []

get_op-push_value_example :
    get_op (push_value signature ++ 172 ∷ []) ≡ fetched 2 signature (172 ∷ [])
get_op-push_value_example = get_op-push_value signature (172 ∷ []) (omega arith)

sig_op_count-SigOps_example : SigOps (172 ∷ 174 ∷ []) (sig_op_count (172 ∷ 174 ∷ []))
sig_op_count-SigOps_example = sig_op_count-SigOps 2 (172 ∷ 174 ∷ []) (omega arith)

get_address-set_address_example : get_address (set_address key_hash) ≡ some key_hash
get_address-set_address_example = get_address-set_address key_hash refl

match_signatures-Matches_example :
    (match_signatures same_bytes ((1 ∷ []) ∷ []) ((2 ∷ []) ∷ (1 ∷ []) ∷ []) ≡ true)
    ↔ Matches same_bytes ((1 ∷ []) ∷ []) ((2 ∷ []) ∷ (1 ∷ []) ∷ [])
match_signatures-Matches_example =
    match_signatures-Matches same_bytes ((1 ∷ []) ∷ []) ((2 ∷ []) ∷ (1 ∷ []) ∷ [])

run_script-Ends_example :
    Ends
      (is_stray (record new_machine { run = 1 }))
      (run_script library hash_of key_verify spending 0 0 (81 ∷ 118 ∷ 172 ∷ []) new_machine)
run_script-Ends_example =
    run_script-Ends library hash_of key_verify spending 0 0 (81 ∷ 118 ∷ 172 ∷ []) new_machine
      (omega arith)

verify_signature-set_address_example :
    verify_signature library hash_of key_verify spending 0 0 true
      (sign_script signature public_key)
      (set_address key_hash)
    ≡ verdict (
        same_bytes key_hash key_hash
        && check_signature library hash_of key_verify spending 0 0 signature public_key
            (find_and_delete (push_value signature) (set_address key_hash)))
verify_signature-set_address_example =
    verify_signature-set_address library hash_of key_verify spending 0 true signature public_key
      key_hash (omega arith) (omega arith) refl

verify_signature-op_codeseparator_example :
    verify_signature library hash_of key_verify spending 0 0 true
      (171 ∷ sign_script signature public_key)
      (set_address key_hash)
    ≡ undefined_verdict
unfolding same_bytes
verify_signature-op_codeseparator_example =
    verify_signature-op_codeseparator library hash_of key_verify spending 0 true signature
      public_key key_hash (omega arith) (omega arith) refl refl

check_canonical_signature-encode_signature_example :
    (check_canonical_signature (encode_signature (1 ∷ 5 ∷ []) (7 ∷ []) 1) ≡ ok tt)
    ↔ (IsHashType 1 × (IsInteger (1 ∷ 5 ∷ []) × (IsInteger (7 ∷ []) × (3 ≤ 66))))
check_canonical_signature-encode_signature_example =
    check_canonical_signature-encode_signature (1 ∷ 5 ∷ []) (7 ∷ []) 1

is_newer_than-lowest_change_example : (is_newer_than spending replaced ≡ true) ↔ (
    (map Input.prevout spending.inputs ≡ map Input.prevout replaced.inputs)
    × (lowest_old spending.inputs replaced.inputs < lowest_new spending.inputs replaced.inputs))
is_newer_than-lowest_change_example = is_newer_than-lowest_change spending replaced

get_min_fee_lem_example :
    let fee = get_min_fee spending 1000 true false in
    (fee ≤ max_money)
    × (((fee ≡ 0)
          ↔ (((true && is_small spending 1000) ≡ true) × (has_dust spending.outputs ≡ false)))
        × ((fee ≡ 0) ⊎ (base_fee false ≤ fee)))
get_min_fee_lem_example = get_min_fee_lem spending 1000 true false
