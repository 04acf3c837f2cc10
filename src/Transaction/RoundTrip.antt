-- ===== src/Transaction/RoundTrip.antt =====
-- A transaction whose fields have the widths of their C++ types is read back as it was written.
use libcoin.Base.{ℕ, ◌^◌, ◌≤◌, ◌<◌, refl, ◌∙◌, ap, List, [], ◌∷◌, Bytes, length, All, ok}
use libcoin.Base.Int.{IsWord, to_word, to_word-lt, of_word-to_word}
use libcoin.Serialize.Stream.{write_binary, read_binary, Restores}
use libcoin.Serialize.Stream.Laws.{>>=-ok, >>=-Restores, write_binary-Restores}
use libcoin.Serialize.VarInt.{max_varint_size}
use libcoin.Serialize.Container.{write_vector, read_vector}
use libcoin.Serialize.Container.Laws.{write_vector-Restores}
use libcoin.Transaction.{
  Coin, Input, Output, Transaction, word64, write_coin, read_coin, write_script, read_script,
  write_input, read_input, write_output, read_output, write_transaction, read_transaction,
}

-- A container that `varint` accepts, with every element in range.
abbrev pub Fits {ℓ} : {A : Type 0} → (A → Type ℓ) → List A → Type ℓ
Fits P xs = (length xs ≤ max_varint_size) × All P xs

pub record CoinFits (c : Coin) : Type 0 where
  pub hash : c.hash < 256 ^ 32
  pub index : c.index < 256 ^ 4

abbrev pub IsByte : ℕ → Type 0
IsByte b = b < 256 ^ 1

pub record InputFits (i : Input) : Type 0 where
  pub prevout : CoinFits i.prevout
  pub signature : Fits IsByte i.signature
  pub sequence : i.sequence < 256 ^ 4

pub record OutputFits (o : Output) : Type 0 where
  pub value : IsWord word64 o.value
  pub script : Fits IsByte o.script

pub record TransactionFits (txn : Transaction) : Type 0 where
  pub version : txn.version < 256 ^ 4
  pub inputs : Fits InputFits txn.inputs
  pub outputs : Fits OutputFits txn.outputs
  pub lock_time : txn.lock_time < 256 ^ 4

pub All-map {ℓ κ} :
    {A : Type 0} {P : A → Type ℓ} {Q : A → Type κ} (xs : List A)
    → ((a : A) → P a → Q a)
    → All P xs
    → All Q xs
All-map [] f h = tt
All-map (x ∷ xs) f h = (f x h.0, All-map xs f h.1)

write_coin-Restores : (c : Coin) → CoinFits c → Restores write_coin read_coin c
unfolding write_coin read_coin
write_coin-Restores c h rest =
    >>=-Restores (write_binary 32) (read_binary 32) _ c.hash _ rest
      (write_binary-Restores 32 c.hash h.hash)
    ∙ >>=-ok (read_binary 4) _ (write_binary-Restores 4 c.index h.index rest)

write_script-Restores : (s : Bytes) → Fits IsByte s → Restores write_script read_script s
unfolding write_script read_script
write_script-Restores s h =
    write_vector-Restores (write_binary 1) (read_binary 1) s h.0
      (All-map s (write_binary-Restores 1) h.1)

write_input-Restores : (i : Input) → InputFits i → Restores write_input read_input i
unfolding write_input read_input
write_input-Restores i h rest =
    >>=-Restores write_coin read_coin _ i.prevout _ rest (write_coin-Restores i.prevout h.prevout)
    ∙ >>=-Restores write_script read_script _ i.signature _ rest
        (write_script-Restores i.signature h.signature)
    ∙ >>=-ok (read_binary 4) _ (write_binary-Restores 4 i.sequence h.sequence rest)

write_output-Restores : (o : Output) → OutputFits o → Restores write_output read_output o
unfolding write_output read_output
write_output-Restores o h rest =
    >>=-Restores (write_binary 8) (read_binary 8) _ (to_word word64 o.value) _ rest
      (write_binary-Restores 8 (to_word word64 o.value) (to_word-lt word64 o.value h.value))
    ∙ >>=-ok read_script _ (write_script-Restores o.script h.script rest)
    ∙ ap (λ v. ok (record { value = v; script = o.script }, rest))
        (of_word-to_word word64 o.value refl h.value)

-- Reading the bytes written for a transaction gives the transaction and leaves what follows it, if
-- each field fits its C++ type and each vector has at most 0x02000000 elements.
pub write_transaction-Restores :
    (txn : Transaction) → TransactionFits txn → Restores write_transaction read_transaction txn
unfolding write_transaction read_transaction
write_transaction-Restores txn h rest =
    >>=-Restores (write_binary 4) (read_binary 4) _ txn.version _ rest
      (write_binary-Restores 4 txn.version h.version)
    ∙ >>=-Restores (write_vector write_input) (read_vector read_input) _ txn.inputs _ rest (
        write_vector-Restores write_input read_input txn.inputs h.inputs.0
          (All-map txn.inputs write_input-Restores h.inputs.1))
    ∙ >>=-Restores (write_vector write_output) (read_vector read_output) _ txn.outputs _ rest (
        write_vector-Restores write_output read_output txn.outputs h.outputs.0
          (All-map txn.outputs write_output-Restores h.outputs.1))
    ∙ >>=-ok (read_binary 4) _ (write_binary-Restores 4 txn.lock_time h.lock_time rest)
