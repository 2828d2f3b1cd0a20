-- ===== src/Parser/Binop.antt =====
-- src/parser/expr.rs, `binop_expr`: the parsing of binary expressions. What `negation` parses, an
-- operand, is one token here, and spans are left out. The recursion and the loop run on fuel.
pub mod Grouping
pub mod Strength
pub mod Enough
pub mod Complete
mod Tests
use roto.Prelude.{ℕ, zero, suc, Option, some, none, List, [], ◌∷◌}
use roto.Ast.{BinOp}
use roto.Parser.Precedence.{Associativity, relative_associativity}

pub data Token : Type 0 where
  operand : ℕ → Token
  operator : BinOp → Token

pub data Expr : Type 0 where
  leaf : ℕ → Expr
  bin_op : Expr → BinOp → Expr → Expr

pub data ParseError : Type 0 where
  no_operand : ParseError
  chained : BinOp → BinOp → ParseError

pub data Parsed : Type 0 where
  parsed : Expr → List Token → Parsed
  failed : ParseError → Parsed
  out_of_fuel : Parsed

-- Whether the operator is parsed here, by the caller, or not at all.
abbrev pub decide : Option BinOp → BinOp → Associativity
decide none op = Associativity.right
decide (some prev) op = relative_associativity prev op

abbrev pub prev_or : Option BinOp → BinOp → BinOp
prev_or none op = op
prev_or (some prev) op = prev

-- `?` on what was parsed.
abbrev pub and_then : Parsed → (Expr → List Token → Parsed) → Parsed
and_then (parsed e ts) f = f e ts
and_then (failed e) f = failed e
and_then out_of_fuel f = out_of_fuel

-- `binop_expr`, from its start, and from the head of its loop, where the left side that is parsed
-- so far is given.
pub binop_expr : ℕ → Option BinOp → Option Expr → List Token → Parsed
unfolding relative_associativity
binop_expr zero prev lhs ts = out_of_fuel
binop_expr (suc fuel) prev none (operand x ∷ ts) = binop_expr fuel prev (some (leaf x)) ts
binop_expr (suc fuel) prev none (operator op ∷ ts) = failed no_operand
binop_expr (suc fuel) prev none [] = failed no_operand
binop_expr (suc fuel) prev (some lhs) [] = parsed lhs []
binop_expr (suc fuel) prev (some lhs) (operand x ∷ ts) = parsed lhs (operand x ∷ ts)
binop_expr (suc fuel) prev (some lhs) (operator op ∷ ts) = elim (decide prev op) [
  | Associativity.left ↦ parsed lhs (operator op ∷ ts)
  | Associativity.not ↦ failed (chained op (prev_or prev op))
  | Associativity.right ↦
      and_then (binop_expr fuel (some op) none ts)
        (λ rhs ts'. binop_expr fuel prev (some (bin_op lhs op rhs)) ts')
]
