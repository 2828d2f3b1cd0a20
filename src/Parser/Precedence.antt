-- ===== src/Parser/Precedence.antt =====
-- src/parser/precedence.rs: which of two operators in sequence binds stronger.
pub mod Order
use roto.Prelude.{ℕ, ltb, if◌then◌else◌}
use roto.Ast.{BinOp}

pub data Precedence : Type 0 where
  logical comparison add_sub mul_div : Precedence

pub data Associativity : Type 0 where
  left right not : Associativity

-- The derived order: the place of the variant in the declaration.
abbrev pub rank : Precedence → ℕ
rank Precedence.logical = 0
rank Precedence.comparison = 1
rank Precedence.add_sub = 2
rank Precedence.mul_div = 3

-- `BinOp::precedence`
abbrev pub precedence : BinOp → Precedence
precedence BinOp.or = Precedence.logical
precedence BinOp.and = Precedence.logical
precedence BinOp.eq = Precedence.comparison
precedence BinOp.ne = Precedence.comparison
precedence BinOp.lt = Precedence.comparison
precedence BinOp.le = Precedence.comparison
precedence BinOp.gt = Precedence.comparison
precedence BinOp.ge = Precedence.comparison
precedence BinOp.mul = Precedence.mul_div
precedence BinOp.div = Precedence.mul_div
precedence BinOp.modulo = Precedence.mul_div
precedence BinOp.add = Precedence.add_sub
precedence BinOp.sub = Precedence.add_sub

-- `BinOp::associativity`
abbrev pub associativity : BinOp → Associativity
associativity op = elim (precedence op) [
  | Precedence.logical ↦ Associativity.left
  | Precedence.comparison ↦ Associativity.not
  | Precedence.add_sub ↦ Associativity.left
  | Precedence.mul_div ↦ Associativity.left
]

abbrev pub by_precedence : BinOp → BinOp → Associativity
by_precedence self other =
    if ltb (rank (precedence self)) (rank (precedence other))
    then Associativity.right
    else if ltb (rank (precedence other)) (rank (precedence self))
    then Associativity.left
    else associativity self

-- `BinOp::relative_associativity`
unfoldable pub relative_associativity : BinOp → BinOp → Associativity
relative_associativity BinOp.or BinOp.and = Associativity.not
relative_associativity BinOp.and BinOp.or = Associativity.not
relative_associativity self other = by_precedence self other
