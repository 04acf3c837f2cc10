-- ===== src/Script/Machine/Run/Bounds.antt =====
-- The evaluation of a script ends, within its limits.
use libcoin.Base.{
  ℕ, zero, suc, ◌+◌, ◌<◌, ◌≤◌, ◌≡◌, ◌⊎◌, inl, inr, refl, Bool, true, false, ◌&&◌, ◌||◌, not, ◌==◌,
  [], ◌∷◌, Bytes, length, arith, ltb, leb, if◌then◌else◌, Bool-cases,
}
use libcoin.Script.Opcode.{
  Opcode, op_if, op_notif, op_else, op_endif, op_toaltstack, op_fromaltstack, opcode, is_disabled,
}
use libcoin.Script.Code.{get_op}
use libcoin.Script.Code.SigOps.{get_op-length, Fetch-cases}
use libcoin.Script.Machine.Number.{Library}
use libcoin.Script.Machine.Stack.{Reply, pass, fail, leave, on_stack}
use libcoin.Script.Machine.Run.{
  Machine, Turn, go, refuse, undefined, on_main, eval, all_true, limit, dispatch, round, rounds,
  Result, accepted, rejected, max_element_size, within_limits, undefined_read, no_fuel, evaluate,
  after, at_end,
}

pub List-cases : (l : Bytes) → (l ≡ []) ⊎ ((c : ℕ) × (s : Bytes) × (l ≡ c ∷ s))
List-cases [] = inl refl
List-cases (c ∷ s) = inr (c, s, refl)

-- The code for signatures starts at an iterator of another call's script.
abbrev pub is_stray : Machine → Bool
is_stray m = m.code_separator && not (m.code_hash.run == m.run)

-- What is astray now was so before.
abbrev pub HadStray : Bool → Machine → Type 0
HadStray before m = (not (is_stray m) || before) ≡ true

-- What a virtual `eval` keeps: the iterator, and the count of operations up to its limit. It puts no
-- start of the code astray, and reads outside of a script only where that is so.
abbrev pub Keeps : Machine → Turn → Type 0
Keeps m (go m') =
    (m'.current ≡ m.current)
    × ((m'.op_count ≡ m.op_count) ⊎ (m'.op_count ≤ 201))
    × HadStray (is_stray m) m'
Keeps m refuse = Unit
Keeps m undefined = is_stray m ≡ true

pub HadStray-self : (m : Machine) → HadStray (is_stray m) m
HadStray-self m = ground arith

on_main-Keeps : (m : Machine) (r : Reply) → Keeps m (on_main m r)
on_main-Keeps m pass = (refl, inl refl, HadStray-self m)
on_main-Keeps m fail = tt
on_main-Keeps m (leave s) = (refl, inl refl, HadStray-self m)

pub eval-Keeps : (lib : Library) (op : Opcode) (m : Machine) → Keeps m (eval lib op m)
unfolding eval
eval-Keeps lib op_if m = ground arith
eval-Keeps lib op_notif m = ground arith
eval-Keeps lib op_else m = ground arith
eval-Keeps lib op_endif m = ground arith
eval-Keeps lib op_toaltstack m = ground arith
eval-Keeps lib op_fromaltstack m = ground arith
eval-Keeps lib op m = on_main-Keeps m (on_stack lib op m.stack)

-- A round takes a byte at least, and what it leaves is within the limits.
abbrev Advances : Bool → ℕ → Turn → Type 0
Advances stray n (go m) =
    (length m.current < n)
    × (length m.stack + length m.alt_stack ≤ 1000)
    × (m.op_count ≤ 201)
    × HadStray stray m
Advances stray n refuse = Unit
Advances stray n undefined = stray ≡ true

-- What a call of `operator()` may end with, given whether it starts with the code astray.
abbrev pub Ends : Bool → Result → Type 0
Ends stray (accepted m) =
    (length m.stack + length m.alt_stack ≤ 1000)
    × (m.op_count ≤ 201)
    × (m.exec_stack ≡ [])
    × (m.current ≡ [])
Ends stray rejected = Unit
Ends stray undefined_read = stray ≡ true
Ends stray no_fuel = ⊥

within_limits-Advances :
    (stray : Bool) (m : Machine) (n : ℕ)
    → length m.current < n
    → m.op_count ≤ 201
    → HadStray stray m
    → Advances stray n (within_limits m)
within_limits-Advances stray m n h k astray =
    elim (Bool-cases (ltb 1000 (length m.stack + length m.alt_stack))) [
      | inl over ↦ rw over tt
      | inr under ↦ rw under (h, ground arith, k, astray)
    ]

if-Advances :
    (stray : Bool) (n : ℕ) (b : Bool) (t u : Turn)
    → Advances stray n t
    → Advances stray n u
    → Advances stray n (if b then t else u)
if-Advances stray n true t u h k = h
if-Advances stray n false t u h k = k

limit-Advances :
    (stray : Bool) (m : Machine) (t : Turn) (n : ℕ)
    → length m.current < n
    → m.op_count ≤ 201
    → HadStray stray m
    → Keeps m t
    → Advances stray n (limit t)
limit-Advances stray m (go m') n h k astray (same, count, astray') =
    within_limits-Advances stray m' n (rw same h) (ground arith) (ground arith)
limit-Advances stray m refuse n h k astray kept = tt
limit-Advances stray m undefined n h k astray kept = ground arith

module _ (virtual_eval : Opcode → Machine → Turn)
    (kept : (op : Opcode) (m : Machine) → Keeps m (virtual_eval op m)) (stray : Bool) where
  dispatch-Advances :
      (code : ℕ) (v : Bytes) (m : Machine) (n : ℕ)
      → length m.current < n
      → ltb 96 code ≡ true ⊎ (m.op_count ≤ 201)
      → HadStray stray m
      → Advances stray n (dispatch virtual_eval code v m)
  unfolding dispatch
  dispatch-Advances code v m n h k astray = elim (Bool-cases (ltb 96 code && ltb 201 m.op_count)) [
    | inl over ↦ rw over (ground arith)
    | inr under ↦
        let count : m.op_count ≤ 201 = ground arith in
        let evaluated =
          limit-Advances stray m (virtual_eval (opcode code) m) n h count astray
            (kept (opcode code) m) in
        rw under (
          if-Advances stray n (ltb max_element_size (length v)) refuse _ tt (
            if-Advances stray n (is_disabled (opcode code)) refuse _ tt (
              if-Advances stray n (m.exec && leb code 78) _ _
                (within_limits-Advances stray (record m { stack = v ∷ m.stack }) n h count astray)
                (if-Advances stray n (m.exec || (leb 99 code && leb code 104)) _ _ evaluated
                  (within_limits-Advances stray m n h count astray)))))
  ]

  round-Advances :
      (m : Machine)
      → m.op_count ≤ 201
      → HadStray stray m
      → Advances stray (length m.current) (round virtual_eval m)
  unfolding round
  round-Advances m k astray = elim (Fetch-cases (get_op m.current)) [
    | inl (r, e) ↦ rw (e, round, Advances) tt
    | inr (code, v, r, e) ↦
        let shorter = get_op-length m.current code v r e in
        let next = record m {
          current = r;
          exec = all_true m.exec_stack;
          op_count = if ltb 96 code then suc m.op_count else m.op_count;
        } in
        rw (e, round)
          (dispatch-Advances code v next (length m.current) shorter (ground arith) astray)
  ]

  at_end-Ends :
      (m : Machine)
      → m.current ≡ []
      → m.op_count ≤ 201
      → length m.stack + length m.alt_stack ≤ 1000
      → Ends stray (at_end m)
  at_end-Ends m e k l = ground arith

  after-Ends :
      (n : ℕ) (t : Turn) (next : Machine → Result)
      → Advances stray n t
      → ((m : Machine)
          → length m.current < n
          → m.op_count ≤ 201
          → length m.stack + length m.alt_stack ≤ 1000
          → HadStray stray m
          → Ends stray (next m))
      → Ends stray (after t next)
  after-Ends n (go m) next (h, l, k, astray) ends = ends m h k l astray
  after-Ends n refuse next h ends = tt
  after-Ends n undefined next h ends = h

  rounds-Ends :
      (fuel : ℕ) (m : Machine)
      → length m.current ≤ fuel
      → m.op_count ≤ 201
      → length m.stack + length m.alt_stack ≤ 1000
      → HadStray stray m
      → Ends stray (rounds virtual_eval fuel m)
  unfolding rounds
  rounds-Ends zero m h k l astray = ground (arith, at_end-Ends m)
  rounds-Ends (suc fuel) m h k l astray = elim (List-cases m.current) [
    | inl e ↦ rw (e, rounds) (at_end-Ends m e k l)
    | inr (c, s, e) ↦
        rw (e, rounds)
          (after-Ends (length m.current) (round virtual_eval m) (rounds virtual_eval fuel)
            (round-Advances m k astray)
            (λ n shorter count size astray'. rounds-Ends fuel n (omega arith) count size astray'))
  ]

-- `operator()` ends on every script, from any state whose stacks are within the limit: true leaves at
-- most 1000 values, at most 201 counted operations, every conditional closed and the script at its end;
-- and it reads outside of a script only if the code for signatures starts in the script of a call
-- before. This holds for any virtual `eval` that keeps the iterator and the limit of the count.
pub evaluate-Ends :
    (virtual_eval : Opcode → Machine → Turn)
    (kept : (op : Opcode) (m : Machine) → Keeps m (virtual_eval op m)) (script : Bytes)
    (m : Machine)
    → length m.stack + length m.alt_stack ≤ 1000
    → Ends (is_stray (record m { run = suc m.run })) (evaluate virtual_eval script m)
unfolding evaluate
evaluate-Ends virtual_eval kept script m l = elim (Bool-cases (ltb 10000 (length script))) [
  | inl long ↦ rw long tt
  | inr short ↦
      let start = record m { run = suc m.run; begin = script; current = script; op_count = 0 } in
      rw short (
        rounds-Ends virtual_eval kept (is_stray (record m { run = suc m.run })) (length script)
          start (omega arith) (omega arith) l (HadStray-self start))
]
