-- ===== src/Script/Machine/Run.antt =====
-- The evaluator's state, `Evaluator::eval` and the loop of `Evaluator::operator()`.
pub mod Bounds
pub mod Steps
use libcoin.Base.{
  ℕ, zero, suc, ◌+◌, ◌-◌, ◌<◌, ◌≤◌, Bool, true, false, not, ◌&&◌, ◌||◌, List, [], ◌∷◌, Bytes,
  Option, none, some, length, ltb, leb, ◌==◌, if◌then◌else◌,
}
use libcoin.Script.Opcode.{
  Opcode, op_if, op_notif, op_else, op_endif, op_toaltstack, op_fromaltstack, opcode, is_disabled,
}
use libcoin.Script.Code.{Fetch, fetched, stopped, get_op}
use libcoin.Script.Machine.Number.{Library, cast_to_bool}
use libcoin.Script.Machine.Stack.{Values, Reply, pass, fail, leave, on_stack}

-- An iterator into a script: which run it belongs to, and the rest of that script.
pub record Iterator : Type 0 where
  pub run : ℕ
  pub rest : Bytes

-- The members of `Evaluator`, then those of `TransactionEvaluator`; `run` counts the calls of
-- `operator()`, each of which sets its iterators to its own script.
pub record Machine : Type 0 where
  pub run : ℕ
  pub begin : Bytes
  pub current : Bytes
  pub op_count : ℕ
  pub exec : Bool
  pub exec_stack : List Bool
  pub stack : Values
  pub alt_stack : Values
  pub code_separator : Bool
  pub code_hash : Iterator

-- What `eval` does: goes on, returns false or throws, or reads outside of a script.
pub data Turn : Type 0 where
  go : Machine → Turn
  refuse undefined : Turn

abbrev pub on_main : Machine → Reply → Turn
on_main m pass = go m
on_main m fail = refuse
on_main m (leave s) = go (record m { stack = s })

-- OP_IF, and OP_NOTIF with `flip`.
conditional : Bool → Machine → Turn
conditional flip m = elim m.exec [
  | false ↦ go (record m { exec_stack = false ∷ m.exec_stack })
  | true ↦ elim m.stack [
    | [] ↦ refuse
    | v ∷ s ↦ go (record m {
      stack = s;
      exec_stack = (if flip then not (cast_to_bool v) else cast_to_bool v) ∷ m.exec_stack;
    })
  ]
]

else_branch : Machine → Turn
else_branch m = elim m.exec_stack [
  | [] ↦ refuse
  | b ∷ bs ↦ go (record m { exec_stack = not b ∷ bs })
]

end_if : Machine → Turn
end_if m = elim m.exec_stack [ [] ↦ refuse | b ∷ bs ↦ go (record m { exec_stack = bs }) ]

to_alt : Machine → Turn
to_alt m = elim m.stack [
  | [] ↦ refuse
  | v ∷ s ↦ go (record m { stack = s; alt_stack = v ∷ m.alt_stack })
]

from_alt : Machine → Turn
from_alt m = elim m.alt_stack [
  | [] ↦ refuse
  | v ∷ s ↦ go (record m { stack = v ∷ m.stack; alt_stack = s })
]

-- `Evaluator::eval`, for the codes that `operator()` hands on. A code without a case does nothing.
unfoldable pub eval : Library → Opcode → Machine → Turn
unfolding conditional else_branch end_if to_alt from_alt
eval lib op_if m = conditional false m
eval lib op_notif m = conditional true m
eval lib op_else m = else_branch m
eval lib op_endif m = end_if m
eval lib op_toaltstack m = to_alt m
eval lib op_fromaltstack m = from_alt m
eval lib op m = on_main m (on_stack lib op m.stack)

abbrev pub all_true : List Bool → Bool
all_true [] = true
all_true (b ∷ bs) = b && all_true bs

abbrev pub max_element_size : ℕ
max_element_size = 520

-- What a call of `operator()` gives: true with the machine, or false. `no_fuel`: the model's loop ran
-- out.
pub data Result : Type 0 where
  accepted : Machine → Result
  rejected undefined_read no_fuel : Result

-- The size limit at the end of a round.
abbrev pub within_limits : Machine → Turn
within_limits m = if ltb 1000 (length m.stack + length m.alt_stack) then refuse else go m

abbrev pub limit : Turn → Turn
limit (go m) = within_limits m
limit refuse = refuse
limit undefined = undefined

-- What follows a round.
abbrev pub after : Turn → (Machine → Result) → Result
after (go m) next = next m
after refuse next = rejected
after undefined next = undefined_read

abbrev pub at_end : Machine → Result
at_end m = elim m.exec_stack [ [] ↦ accepted m | b ∷ bs ↦ rejected ]

-- The virtual `eval` is an argument.
module _ (virtual_eval : Opcode → Machine → Turn) where
  -- One instruction, for a machine that stands behind it.
  unfoldable pub dispatch : ℕ → Bytes → Machine → Turn
  dispatch code v m =
      if ltb max_element_size (length v)
      then refuse
      else if ltb 96 code && ltb 201 m.op_count
      then refuse
      else if is_disabled (opcode code)
      then refuse
      else if m.exec && leb code 78
      then within_limits (record m { stack = v ∷ m.stack })
      else if m.exec || (leb 99 code && leb code 104)
      then limit (virtual_eval (opcode code) m)
      else within_limits m

  -- One round of the loop.
  unfoldable pub round : Machine → Turn
  round m = elim (get_op m.current) [
    | stopped r ↦ refuse
    | fetched code v r ↦ dispatch code v (record m {
      current = r;
      exec = all_true m.exec_stack;
      op_count = if ltb 96 code then suc m.op_count else m.op_count;
    })
  ]

  -- The loop, while there is something left of the script.
  unfoldable pub rounds : ℕ → Machine → Result
  rounds zero m = elim m.current [ [] ↦ at_end m | c ∷ s ↦ no_fuel ]
  rounds (suc fuel) m = elim m.current [ [] ↦ at_end m | c ∷ s ↦ after (round m) (rounds fuel) ]

  -- `operator()(script)`.
  unfoldable pub evaluate : Bytes → Machine → Result
  evaluate script m =
      let start = record m { run = suc m.run; begin = script; current = script; op_count = 0 } in
      if ltb 10000 (length script) then rejected else rounds (length script) start
