-- ===== src/Parser/Binop/Tests.antt =====
-- `1 + 2 * 3 + 4`, and comparisons in a chain.
use roto.Prelude.{◌≡◌, ◌++◌, refl, none, List, [], ◌∷◌, arith}
use roto.Ast.{BinOp}
use roto.Parser.Precedence.{relative_associativity}
use roto.Parser.Binop.{
  Token, operand, operator, Expr, leaf, bin_op, parsed, failed, chained, binop_expr,
}
use roto.Parser.Binop.Grouping.{flatten, IsGrouped}
use roto.Parser.Binop.Strength.{IsUnambiguous, OnRight, EndsBefore, binop_expr_lem}
use roto.Parser.Binop.Complete.{binop_expr-flatten}

abbrev tokens : List Token
tokens =
    operand 1
    ∷ operator BinOp.add
    ∷ operand 2
    ∷ operator BinOp.mul
    ∷ operand 3
    ∷ operator BinOp.add
    ∷ operand 4
    ∷ []

abbrev tree : Expr
tree = bin_op (bin_op (leaf 1) BinOp.add (bin_op (leaf 2) BinOp.mul (leaf 3))) BinOp.add (leaf 4)

binop_expr-tokens : binop_expr 15 none none tokens ≡ parsed tree []
unfolding binop_expr relative_associativity
binop_expr-tokens = refl

binop_expr-chained :
    binop_expr 15 none none
      (operand 1 ∷ operator BinOp.lt ∷ operand 2 ∷ operator BinOp.eq ∷ operand 3 ∷ [])
    ≡ failed (chained BinOp.eq BinOp.lt)
unfolding binop_expr relative_associativity
binop_expr-chained = refl

binop_expr_lem_example :
    (flatten tree ++ [] ≡ tokens) × IsUnambiguous tree × OnRight none tree × EndsBefore none []
binop_expr_lem_example = binop_expr_lem 15 none tokens tree [] binop_expr-tokens

tree-IsGrouped : IsGrouped tree
unfolding relative_associativity
tree-IsGrouped = ((tt, (tt, tt, tt, tt), tt, refl), tt, refl, tt)

binop_expr-flatten_example : binop_expr 15 none none (flatten tree) ≡ parsed tree []
binop_expr-flatten_example = binop_expr-flatten tree 15 tree-IsGrouped (omega arith)
