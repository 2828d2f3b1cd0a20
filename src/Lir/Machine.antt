-- ===== src/Lir/Machine.antt =====
-- src/lir/eval.rs: the state of the machine that runs a program of the low-level IR, and its calls.
-- A panic is `none`. What is not part of the program is a `Host`: the memory and the functions of
-- Rust code, the constants and runtime functions that are registered, the floating point unit and
-- the byte order.
pub mod Blocks
pub mod Binding
mod Tests
use roto.Prelude.{
  ℕ, zero, suc, ◌+◌, ◌-◌, ◌≤◌, Bool, true, false, Option, some, none, List, [], ◌∷◌, ◌++◌, length,
  get_elem?, leb, ◌==◌, if◌then◌else◌, ◌>>=◌, ◌>>◌, assert,
}
use roto.Prelude.Bytes.{Endian}
use roto.Layout.{Layout}
use roto.Lir.Value
use roto.Lir.Value.{IrValue, IrType, bool_word}
use roto.Lir.Var.{Var, VarKind, var_eq}
use roto.Lir.Memory
use roto.Lir.Memory.{Memory, Pointer, StackFrame}
use roto.Lir.Program.{Operand, Instruction, ValueOrSlot, Signature, ItemKind, Block, Item}
use roto.Typechecker.{ResolvedName}
use roto.Lir.Arith.{Floats}

pub record Host : Type 0 where
  pub endian : Endian
  pub floats : Floats
  -- the bytes behind an address
  pub bytes : ℕ → ℕ → List ℕ
  -- the registered constants and their addresses
  pub constant : ResolvedName → Option ℕ
  -- a registered runtime function: the number of its parameters, and its effect
  pub arity : ℕ → Option ℕ
  pub run : ℕ → Memory → List IrValue → Option Memory
  -- the clone, drop and comparison functions of Rust types, and a write of a string
  pub clone : ℕ → Pointer → Pointer → Memory → Option Memory
  pub drop : ℕ → Pointer → Memory → Option Memory
  pub eq : ℕ → Pointer → Pointer → Memory → Option Bool
  pub write_string : List ℕ → Pointer → Memory → Option Memory
  pub string_layout : Layout

-- The working memory of the interpreter, a map from variables to values.
abbrev pub Vars : Type 0
Vars = Var → Option IrValue

abbrev pub insert : Var → IrValue → Vars → Vars
insert v x vars w = if var_eq v w then some x else vars w

pub record Machine : Type 0 where
  pub vars : Vars
  pub mem : Memory
  pub program_counter : ℕ

-- `eval_operand`
unfoldable pub eval_operand : Vars → Operand → Option IrValue
eval_operand vars (Operand.place p) = vars p
eval_operand vars (Operand.value v) = some v

abbrev pub as_pointer : IrValue → Option ℕ
as_pointer (IrValue.pointer p) = some p
as_pointer _ = none

-- `let &IrValue::Pointer(p) = eval_operand(..) else { panic!() }`
unfoldable pub eval_pointer : Vars → Operand → Option ℕ
unfolding eval_operand
eval_pointer vars op = eval_operand vars op >>= as_pointer

abbrev pub instructions_of : List Block → List Instruction
instructions_of [] = []
instructions_of (b ∷ bs) = b.instructions ++ instructions_of bs

-- `block_map`: where the instructions of a block begin. A later block of the same label replaces
-- an earlier one.
unfoldable pub block_index : List Block → ℕ → ℕ → Option ℕ
block_index [] start l = none
block_index (b ∷ bs) start l = elim (block_index bs (start + length b.instructions) l) [
  | some i ↦ some i
  | none ↦ if b.label == l then some start else none
]

abbrev pub all_blocks : List Item → List Block
all_blocks [] = []
all_blocks (i ∷ is) = i.blocks ++ all_blocks is

-- `p.iter().find(|f| f.name == name)`
unfoldable pub find_item : List Item → ℕ → Option Item
find_item [] name = none
find_item (i ∷ is) name = if i.name == name then some i else find_item is name

-- `branches.iter().find_map(..).unwrap_or(default)`
unfoldable pub branch_label : List (ℕ × ℕ) → ℕ → ℕ → ℕ
branch_label [] x default = default
branch_label ((i, l) ∷ bs) x default = if i == x then l else branch_label bs x default

-- A fresh allocation for each variable that lives in a stack slot.
unfoldable pub allocate_slots : List (Var × ValueOrSlot) → Vars → Memory → Option (Vars × Memory)
allocate_slots [] vars mem = some (vars, mem)
allocate_slots ((v, ValueOrSlot.val t) ∷ vs) vars mem = allocate_slots vs vars mem
allocate_slots ((v, ValueOrSlot.stack_slot l) ∷ vs) vars mem = do
  (ptr, mem') ← Memory.allocate mem l.size
  allocate_slots vs (insert v (IrValue.pointer ptr) vars) mem'

abbrev pub parameters_of : ItemKind → List (ℕ × IrType)
parameters_of ItemKind.constant = []
parameters_of (ItemKind.function s) = s.parameters

abbrev pub return_ptr_of : ItemKind → Bool
return_ptr_of ItemKind.constant = true
return_ptr_of (ItemKind.function s) = s.return_ptr

-- The loop of `Call` over parameter names and arguments: each argument is evaluated when the
-- parameters before it are bound.
unfoldable pub bind_args : ℕ → List (ℕ × IrType) → List Operand → Vars → Option Vars
unfolding eval_operand
bind_args scope [] args vars = some vars
bind_args scope (p ∷ ps) [] vars = some vars
bind_args scope ((x, t) ∷ ps) (a ∷ args) vars = do
  v ← eval_operand vars a
  bind_args scope ps args (insert (record { scope = scope; kind = VarKind.explicit x }) v vars)

-- The loop of `eval` over the parameters and the values that the caller passes.
unfoldable pub bind_values : ℕ → List (ℕ × IrType) → List IrValue → Vars → Vars
bind_values scope [] vs vars = vars
bind_values scope (p ∷ ps) [] vars = vars
bind_values scope ((x, t) ∷ ps) (v ∷ vs) vars =
    bind_values scope ps vs (insert (record { scope = scope; kind = VarKind.explicit x }) v vars)

abbrev pub bind_optional : Var → Option Operand → Vars → Option Vars
bind_optional v none vars = some vars
bind_optional v (some op) vars = do some (insert v (← eval_operand vars op) vars)

abbrev pub as_operand : Option Var → Option Operand
as_operand none = none
as_operand (some v) = some (Operand.place v)

abbrev pub place_of : Option (Var × IrType) → Option Var
place_of none = none
place_of (some (v, t)) = some v

-- `Instruction::Call`
unfoldable pub eval_call :
    List Item
    → Option (Var × IrType)
    → Option Operand
    → ℕ
    → List Operand
    → Option Var
    → Machine
    → Option Machine
unfolding find_item allocate_slots bind_args block_index
eval_call p to ctx func args return_ptr m = do
  f ← find_item p func
  mem₁ ← Memory.push_frame m.mem m.program_counter (place_of to)
  (vars₁, mem₂) ← allocate_slots f.variables m.vars mem₁
  vars₂ ←
      bind_optional (record { scope = f.scope; kind = VarKind.return }) (as_operand return_ptr)
        vars₁
  vars₃ ← bind_optional (record { scope = f.scope; kind = VarKind.context }) ctx vars₂
  vars₄ ← bind_args f.scope (parameters_of f.kind) args vars₃
  start ← block_index (all_blocks p) 0 f.entry_block
  some (record { vars = vars₄; mem = mem₂; program_counter = start })
