-- ===== src/Script/Machine/Run/Steps.antt =====
-- The rounds of the evaluator, one instruction after the other.
use libcoin.Base.{
  ℕ, zero, suc, ◌+◌, ◌<◌, ◌≤◌, ◌≡◌, ◌⊎◌, ◌∙◌, inl, inr, refl, ap, sym, Bool, true, false, [], ◌∷◌,
  ◌++◌, Bytes, length, arith, ltb, leb, if◌then◌else◌, Bool-cases,
}
use libcoin.Script.Opcode.{Opcode, opcode, is_disabled}
use libcoin.Script.Code.{get_op, fetched, stopped, push_value}
use libcoin.Script.Code.Laws.{get_op-push_value, push_code}
use libcoin.Script.Code.Address.{get_op_code}
use libcoin.Script.Machine.Stack.{Values}
use libcoin.Script.Machine.Run.{
  Iterator, Machine, Turn, accepted, round, rounds, dispatch, after, limit, all_true,
  max_element_size,
}
use libcoin.Script.Machine.Run.Bounds.{List-cases}

-- Whether a separator was met, and where the signed code begins.
abbrev pub Mark : Type 0
Mark = Bool × Iterator

-- A machine with no conditional open and nothing on the other stack.
abbrev pub at : ℕ → Bytes → Bytes → ℕ → Values → Mark → Machine
at run begin current count s hash = record {
  run = run;
  begin = begin;
  current = current;
  op_count = count;
  exec = true;
  exec_stack = [];
  stack = s;
  alt_stack = [];
  code_separator = hash.0;
  code_hash = hash.1;
}

sized_code : (c : ℕ) → c ≤ 78 → 76 ≤ c → (c ≡ 76) ⊎ ((c ≡ 77) ⊎ (c ≡ 78))
sized_code c h k = ground arith

push_enabled : (c : ℕ) → c ≤ 78 → is_disabled (opcode c) ≡ false
unfolding opcode
push_enabled c h = elim (Bool-cases (ltb c 76)) [
  | inl direct ↦ rw direct refl
  | inr more ↦ elim (sized_code c h (ground arith)) [
    | inl e ↦ rw e refl
    | inr (inl e) ↦ rw e refl
    | inr (inr e) ↦ rw e refl
  ]
]

module _ (virtual_eval : Opcode → Machine → Turn) where
  round-fetched :
      (m : Machine) (c : ℕ) (v r : Bytes)
      → get_op m.current ≡ fetched c v r
      → round virtual_eval m
        ≡ dispatch virtual_eval c v (record m {
          current = r;
          exec = all_true m.exec_stack;
          op_count = if ltb 96 c then suc m.op_count else m.op_count;
        })
  unfolding round
  round-fetched m c v r e = rw (e, round) refl

  rounds-cons :
      (f x : ℕ) (y : Bytes) (m : Machine)
      → m.current ≡ x ∷ y
      → rounds virtual_eval (suc f) m ≡ after (round virtual_eval m) (rounds virtual_eval f)
  unfolding rounds
  rounds-cons f x y m e = simp (e, rounds)

  rounds-fetched :
      (f : ℕ) (m : Machine) (c : ℕ) (v r : Bytes)
      → get_op m.current ≡ fetched c v r
      → rounds virtual_eval (suc f) m
        ≡ after
            (dispatch virtual_eval c v (record m {
              current = r;
              exec = all_true m.exec_stack;
              op_count = if ltb 96 c then suc m.op_count else m.op_count;
            }))
            (rounds virtual_eval f)
  unfolding get_op
  rounds-fetched f m c v r e = elim (List-cases m.current) [
    | inl none_left ↦
        absurd (let none : fetched c v r ≡ stopped [] = sym e ∙ ap get_op none_left in cc)
    | inr (x, y, k) ↦
        rounds-cons f x y m k ∙ ap (λ t. after t (rounds virtual_eval f)) (round-fetched m c v r e)
  ]

  module _ (run : ℕ) (begin : Bytes) (hash : Mark) where
    -- A value that is pushed.
    pub push_step :
        (f count : ℕ) (v rest : Bytes) (s : Values)
        → length v ≤ max_element_size
        → length s < 1000
        → rounds virtual_eval (suc f) (at run begin (push_value v ++ rest) count s hash)
          ≡ rounds virtual_eval f (at run begin rest count (v ∷ s) hash)
    unfolding dispatch
    push_step f count v rest s h k =
        rounds-fetched f (at run begin (push_value v ++ rest) count s hash) (push_code (length v)) v
          rest (get_op-push_value v rest (omega arith))
        ∙ (let code : push_code (length v) ≤ 78 = ground arith in
            let low : ltb 96 (push_code (length v)) ≡ false = ground arith in
            let push : leb (push_code (length v)) 78 ≡ true = ground arith in
            let small : ltb max_element_size (length v) ≡ false = ground arith in
            let fits : ltb 1000 (length (v ∷ s) + 0) ≡ false = ground arith in
            rw (small, low, push_enabled (push_code (length v)) code, push, fits) refl)

    -- A code that the virtual `eval` gets.
    pub op_step :
        (f count c : ℕ) (rest : Bytes) (s : Values)
        → 96 < c
        → count < 201
        → is_disabled (opcode c) ≡ false
        → rounds virtual_eval (suc f) (at run begin (c ∷ rest) count s hash)
          ≡ after
              (limit (virtual_eval (opcode c) (at run begin rest (suc count) s hash)))
              (rounds virtual_eval f)
    unfolding dispatch
    op_step f count c rest s h k d =
        rounds-fetched f (at run begin (c ∷ rest) count s hash) c [] rest
          (get_op_code c rest (omega arith))
        ∙ (let high : ltb 96 c ≡ true = ground arith in
            let counted : ltb 201 (suc count) ≡ false = ground arith in
            let no_push : leb c 78 ≡ false = ground arith in rw (high, counted, d, no_push) refl)

  -- At the end of the script every conditional is closed.
  pub rounds_end :
      (f : ℕ) (run : ℕ) (begin : Bytes) (count : ℕ) (s : Values) (hash : Mark)
      → rounds virtual_eval f (at run begin [] count s hash)
        ≡ accepted (at run begin [] count s hash)
  unfolding rounds
  rounds_end zero run begin count s hash = refl
  rounds_end (suc f) run begin count s hash = refl
