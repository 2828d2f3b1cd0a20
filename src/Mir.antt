-- ===== src/Mir.antt =====
-- src/mir/mod.rs: the instructions and blocks of the mid-level IR. Identifiers, labels, scopes,
-- resolved names, types in the pool, literals and references to runtime functions are numbers. Of
-- an item only what the passes read and write is kept.
pub mod DeadCode
pub mod Types
use roto.Prelude.{ℕ, Option, List}
use roto.Ast.{BinOp}

pub data VarKind : Type 0 where
  explicit tmp : ℕ → VarKind

pub record Var : Type 0 where
  pub scope : ℕ
  pub kind : VarKind

pub data Projection : Type 0 where
  variant_field : ℕ → ℕ → Projection
  field : ℕ → Projection

pub record Place : Type 0 where
  pub var : Var
  pub root_ty : ℕ
  pub projection : List Projection

-- `Signature` (src/mir/ty.rs)
pub record Signature : Type 0 where
  pub parameter_types : List ℕ
  pub return_type : ℕ

pub data Value : Type 0 where
  const constant : ℕ → ℕ → Value
  context : ℕ → Value
  clone : Place → Value
  discriminant not : Var → Value
  negate : Var → ℕ → Value
  move : Var → Value
  bin_op : Var → BinOp → ℕ → Var → Value
  call : ℕ → List Var → Signature → Value
  call_runtime : ℕ → List Var → List ℕ → Signature → Value

pub data Instruction : Type 0 where
  jump : ℕ → Instruction
  switch : Var → List (ℕ × ℕ) → Option ℕ → Instruction
  assign : Place → ℕ → Value → Instruction
  set_discriminant : Var → ℕ → ℕ → Instruction
  return : Var → Instruction
  drop : Place → ℕ → Instruction

pub record Block : Type 0 where
  pub label : ℕ
  pub instructions : List Instruction

pub record Item : Type 0 where
  pub name : ℕ
  pub scope : ℕ
  pub variables : List (Var × ℕ)
  pub blocks : List Block
  pub tmp_idx : ℕ
