-- ===== src/Lir/Program.antt =====
-- src/lir/mod.rs: the instructions, blocks and items of the low-level IR. Identifiers, labels,
-- references to runtime functions and pointers to Rust functions are numbers; of the kinds of
-- items only what the evaluator reads is kept.
use roto.Prelude.{ℕ, Bool, Option, List}
use roto.Layout.{Layout}
use roto.Lir.Value.{IrValue, IrType}
use roto.Lir.Var.{Var}
use roto.Typechecker.{ResolvedName}

pub data Operand : Type 0 where
  place : Var → Operand
  value : IrValue → Operand

pub data IntCmp : Type 0 where
  eq ne ult ule ugt uge slt sle sgt sge : IntCmp

pub data FloatCmp : Type 0 where
  eq ne lt le gt ge : FloatCmp

pub data Instruction : Type 0 where
  jump : ℕ → Instruction
  switch : Operand → List (ℕ × ℕ) → ℕ → Instruction
  assign : Var → Operand → IrType → Instruction
  constant_address : Var → ResolvedName → Instruction
  function_address : Var → ℕ → Instruction
  init_string : Var → List ℕ → ℕ → Instruction
  call : Option (Var × IrType) → Option Operand → ℕ → List Operand → Option Var → Instruction
  call_runtime : ℕ → List Operand → Instruction
  return : Option Operand → Instruction
  int_cmp : Var → IntCmp → Operand → Operand → Instruction
  float_cmp : Var → FloatCmp → Operand → Operand → Instruction
  add sub mul : Var → Operand → Operand → Instruction
  div modulo : Var → Bool → Operand → Operand → Instruction
  fdiv : Var → Operand → Operand → Instruction
  not negate : Var → Operand → Instruction
  offset : Var → Operand → ℕ → Instruction
  initialize : Var → List ℕ → Layout → Instruction
  write : Operand → Operand → Instruction
  read : Var → Operand → IrType → Instruction
  copy : Operand → Operand → ℕ → Instruction
  clone : Operand → Operand → ℕ → Instruction
  eq : Var → Operand → Operand → ℕ → Instruction
  drop : Operand → Option ℕ → Instruction

pub data ValueOrSlot : Type 0 where
  val : IrType → ValueOrSlot
  stack_slot : Layout → ValueOrSlot

pub record Signature : Type 0 where
  pub parameters : List (ℕ × IrType)
  pub context : Bool
  pub return_ptr : Bool
  pub return_type : Option IrType

pub data ItemKind : Type 0 where
  constant : ItemKind
  function : Signature → ItemKind

pub record Block : Type 0 where
  pub label : ℕ
  pub instructions : List Instruction

pub record Item : Type 0 where
  pub name : ℕ
  pub scope : ℕ
  pub kind : ItemKind
  pub entry_block : ℕ
  pub variables : List (Var × ValueOrSlot)
  pub blocks : List Block
