-- ===== src/Script/Code/Laws.antt =====
-- The laws of the bytes of a script.
use mathlib.Core.List.{append_assoc}
use native.Mathlib.Nat.{pow-suc}
use libcoin.Base.{
  ℕ, zero, suc, ◌+◌, ◌^◌, ◌<◌, ◌≤◌, ◌≡◌, refl, ap, sym, [], ◌∷◌, ◌++◌, Bytes, length, take, drop,
  ltb, leb, if◌then◌else◌, arith, length-append, inl, inr, Bool-cases, ◌/◌, ◌%◌,
}
use libcoin.Message.Header.{word_of}
use libcoin.Serialize.Stream.{write_binary}
use libcoin.Serialize.Stream.Laws.{length-write_binary}
use libcoin.Script.Code.{fetched, operand, sized, get_op, push_value}

pub take-append : (xs ys : Bytes) (n : ℕ) → n ≡ length xs → take n (xs ++ ys) ≡ xs
take-append [] ys zero e = refl
take-append [] ys (suc n) e = absurd (omega arith)
take-append (x ∷ xs) ys zero e = absurd (omega arith)
take-append (x ∷ xs) ys (suc n) e = ap (◌∷◌ x) (take-append xs ys n (omega arith))

pub drop-append : (xs ys : Bytes) (n : ℕ) → n ≡ length xs → drop n (xs ++ ys) ≡ ys
drop-append [] ys zero e = refl
drop-append [] ys (suc n) e = absurd (omega arith)
drop-append (x ∷ xs) ys zero e = absurd (omega arith)
drop-append (x ∷ xs) ys (suc n) e = drop-append xs ys n (omega arith)

pub length-drop : (n : ℕ) (xs : Bytes) → n ≤ length xs → length (drop n xs) + n ≡ length xs
length-drop zero xs h = omega arith
length-drop (suc n) [] h = absurd (omega arith)
length-drop (suc n) (x ∷ xs) h = omega (arith, length-drop n xs (omega arith))

word_of-write_binary : (w n : ℕ) → n < 256 ^ w → word_of (write_binary w n) ≡ n
unfolding word_of write_binary
word_of-write_binary zero n h = omega arith
word_of-write_binary (suc w) n h =
    let low = word_of-write_binary w (n / 256) (omega (arith, pow-suc 256 w)) in omega arith

pub operand-append :
    (code : ℕ) (v rest : Bytes) → operand code (length v) (v ++ rest) ≡ fetched code v rest
operand-append code v rest =
    rw (take-append v rest (length v) refl, drop-append v rest (length v) refl)
      (ground (arith, length-append v rest))

sized-append :
    (code w : ℕ) (v rest : Bytes)
    → length v < 256 ^ w
    → sized code w (write_binary w (length v) ++ (v ++ rest)) ≡ fetched code v rest
sized-append code w v rest h =
    rw
      (
        take-append (write_binary w (length v)) (v ++ rest) w
            (sym (length-write_binary w (length v))),
        drop-append (write_binary w (length v)) (v ++ rest) w
            (sym (length-write_binary w (length v))),
        word_of-write_binary w (length v) h,
        operand-append code v rest,
      )
      (ground (
        arith,
        length-append (write_binary w (length v)) (v ++ rest),
        length-write_binary w (length v),
      ))

-- The opcode under which a value of this length is pushed.
abbrev pub push_code : ℕ → ℕ
push_code n = if ltb n 76 then n else if leb n 0xff then 76 else if leb n 0xffff then 77 else 78

get_op_direct :
    (v rest : Bytes)
    → length v < 76
    → get_op ((write_binary 1 (length v) ++ v) ++ rest) ≡ fetched (length v) v rest
unfolding get_op write_binary
get_op_direct v rest h =
    let small : length v % 256 ≡ length v = omega arith in
    rw (small, operand-append (length v) v rest) (ground arith)

get_op_one :
    (v rest : Bytes)
    → length v < 256
    → get_op (76 ∷ ((write_binary 1 (length v) ++ v) ++ rest)) ≡ fetched 76 v rest
unfolding get_op
get_op_one v rest h =
    rw (append_assoc (write_binary 1 (length v)) v rest) (sized-append 76 1 v rest h)

get_op_two :
    (v rest : Bytes)
    → length v < 0x10000
    → get_op (77 ∷ ((write_binary 2 (length v) ++ v) ++ rest)) ≡ fetched 77 v rest
unfolding get_op
get_op_two v rest h =
    rw (append_assoc (write_binary 2 (length v)) v rest) (sized-append 77 2 v rest h)

get_op_four :
    (v rest : Bytes)
    → length v < 2 ^ 32
    → get_op (78 ∷ ((write_binary 4 (length v) ++ v) ++ rest)) ≡ fetched 78 v rest
unfolding get_op
get_op_four v rest h =
    rw (append_assoc (write_binary 4 (length v)) v rest) (sized-append 78 4 v rest h)

-- `getOp` reads a value back that `operator<<` pushed, with its opcode, and stands behind it.
pub get_op-push_value :
    (v rest : Bytes)
    → length v < 2 ^ 32
    → get_op (push_value v ++ rest) ≡ fetched (push_code (length v)) v rest
unfolding push_value
get_op-push_value v rest h = elim (Bool-cases (ltb (length v) 76)) [
  | inl direct ↦ rw direct (get_op_direct v rest (ground arith))
  | inr longer ↦ rw longer (elim (Bool-cases (leb (length v) 0xff)) [
    | inl one ↦ rw one (get_op_one v rest (ground arith))
    | inr more ↦ rw more (elim (Bool-cases (leb (length v) 0xffff)) [
      | inl two ↦ rw two (get_op_two v rest (ground arith))
      | inr most ↦ rw most (get_op_four v rest h)
    ])
  ])
]
