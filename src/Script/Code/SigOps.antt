-- ===== src/Script/Code/SigOps.antt =====
-- The instructions of a script one after the other, and the count of `getSigOpCount`.
use mathlib.Core.Path.{subst}
use libcoin.Base.{
  ℕ, zero, suc, ◌+◌, ◌<◌, ◌≤◌, ◌≡◌, ◌⊎◌, refl, ap, sym, ◌∙◌, ◌||◌, [], ◌∷◌, Bytes, length, take,
  drop, ltb, ◌==◌, if◌then◌else◌, arith, inl, inr, Bool-cases,
}
use libcoin.Message.Header.{word_of}
use libcoin.Script.Code.{
  Fetch, fetched, stopped, operand, sized, get_op, count_sig_ops, sig_op_count,
}
use libcoin.Script.Code.Laws.{length-drop}

pub Fetch-cases :
    (f : Fetch)
    → ((r : Bytes) × (f ≡ stopped r)) ⊎ ((c : ℕ) × (v : Bytes) × (r : Bytes) × (f ≡ fetched c v r))
Fetch-cases (stopped r) = inl (r, refl)
Fetch-cases (fetched c v r) = inr (c, v, r, refl)

-- No more than `n` bytes are left.
abbrev Leaves : ℕ → Fetch → Type 0
Leaves n (stopped r) = length r ≤ n
Leaves n (fetched c v r) = length r ≤ n

operand-Leaves : (code n : ℕ) (s : Bytes) → Leaves (length s) (operand code n s)
operand-Leaves code n s = ground (arith, length-drop n s)

Leaves-le : (f : Fetch) (m n : ℕ) → m ≤ n → Leaves m f → Leaves n f
Leaves-le (stopped r) m n h k = omega arith
Leaves-le (fetched c v r) m n h k = omega arith

sized-Leaves : (code n : ℕ) (s : Bytes) → Leaves (length s) (sized code n s)
sized-Leaves code n s = elim (Bool-cases (ltb (length s) n)) [
  | inl short ↦ rw short (omega arith)
  | inr long ↦
      let rest = length-drop n s (ground arith) in
      rw long (
        Leaves-le (operand code (word_of (take n s)) (drop n s)) (length (drop n s)) (length s)
          (omega arith) (operand-Leaves code (word_of (take n s)) (drop n s)))
]

get_op-Leaves : (x : ℕ) (s : Bytes) → Leaves (length s) (get_op (x ∷ s))
unfolding get_op
get_op-Leaves x s =
    ground (arith, operand-Leaves x x s, sized-Leaves x 1 s, sized-Leaves x 2 s, sized-Leaves x 4 s)

-- Each instruction takes a byte at least.
pub get_op-length :
    (s : Bytes) (c : ℕ) (v r : Bytes) → get_op s ≡ fetched c v r → length r < length s
unfolding get_op
get_op-length [] c v r e = cc
get_op-length (x ∷ s) c v r e =
    let short : Leaves (length s) (fetched c v r) =
      subst (Leaves (length s)) e (get_op-Leaves x s) in
    omega arith

-- The weight of an instruction in `getSigOpCount`.
abbrev pub sig_op_weight : ℕ → ℕ
sig_op_weight c = if c == 172 || c == 173 then 1 else if c == 174 || c == 175 then 20 else 0

count_sig_ops_fuel :
    (fuel more : ℕ) (s : Bytes)
    → length s ≤ fuel
    → length s ≤ more
    → count_sig_ops fuel s ≡ count_sig_ops more s
unfolding count_sig_ops get_op
count_sig_ops_fuel zero zero s h k = refl
count_sig_ops_fuel zero (suc more) [] h k = refl
count_sig_ops_fuel zero (suc more) (x ∷ s) h k = absurd (omega arith)
count_sig_ops_fuel (suc fuel) zero [] h k = refl
count_sig_ops_fuel (suc fuel) zero (x ∷ s) h k = absurd (omega arith)
count_sig_ops_fuel (suc fuel) (suc more) s h k = elim (Fetch-cases (get_op s)) [
  | inl (r, e) ↦ rw (e, count_sig_ops) refl
  | inr (c, v, r, e) ↦
      let shorter = get_op-length s c v r e in
      rw (e, count_sig_ops)
        (ap (λ n. sig_op_weight c + n) (count_sig_ops_fuel fuel more r (omega arith) (omega arith)))
]

-- The fuel is enough: the count is the weight of the first instruction and the count of the rest.
pub sig_op_count-get_op :
    (s : Bytes) (c : ℕ) (v r : Bytes)
    → get_op s ≡ fetched c v r
    → sig_op_count s ≡ sig_op_weight c + sig_op_count r
unfolding count_sig_ops
sig_op_count-get_op s c v r e =
    let shorter = get_op-length s c v r e in
    count_sig_ops_fuel (length s) (suc (length s)) s (omega arith) (omega arith)
    ∙ rw (e, count_sig_ops)
        (ap (λ n. sig_op_weight c + n)
          (count_sig_ops_fuel (length s) (length r) r (omega arith) (omega arith)))

-- The weights of the instructions of a script, one after the other.
pub data SigOps : Bytes → ℕ → Type 0 where
  stops : {s r : Bytes} → get_op s ≡ stopped r → SigOps s 0
  counts :
      {s v r : Bytes} {c n : ℕ}
      → get_op s ≡ fetched c v r
      → SigOps r n
      → SigOps s (sig_op_weight c + n)

sig_op_count-stopped : (s r : Bytes) → get_op s ≡ stopped r → sig_op_count s ≡ 0
unfolding count_sig_ops
sig_op_count-stopped s r e =
    count_sig_ops_fuel (length s) (suc (length s)) s (omega arith) (omega arith)
    ∙ rw (e, count_sig_ops) refl

-- `getSigOpCount` ends, with the sum of the weights of the instructions up to the end or the first
-- that is cut short.
pub sig_op_count-SigOps : (fuel : ℕ) (s : Bytes) → length s ≤ fuel → SigOps s (sig_op_count s)
unfolding get_op count_sig_ops
sig_op_count-SigOps zero [] h = stops {r = []} refl
sig_op_count-SigOps zero (x ∷ s) h = absurd (omega arith)
sig_op_count-SigOps (suc fuel) s h = elim (Fetch-cases (get_op s)) [
  | inl (r, e) ↦ subst (SigOps s) (sym (sig_op_count-stopped s r e)) (stops e)
  | inr (c, v, r, e) ↦
      let shorter = get_op-length s c v r e in
      subst (SigOps s) (sym (sig_op_count-get_op s c v r e))
        (counts e (sig_op_count-SigOps fuel r (omega arith)))
]
