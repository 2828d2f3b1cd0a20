-- ===== src/Parser/Binop/Enough.antt =====
-- src/parser/expr.rs, `binop_expr`: the fuel of the recursion and the loop.
use roto.Prelude.{
  ℕ, zero, suc, ◌*◌, ◌<◌, ◌≤◌, ◌≡◌, ◌≢◌, inl, inr, refl, ap, Option, some, none, List, [], ◌∷◌,
  length, length-append, arith,
}
use roto.Ast.{BinOp}
use roto.Parser.Binop.{
  Token, operand, operator, Expr, leaf, bin_op, Parsed, parsed, failed, out_of_fuel, chained,
  decide, prev_or, and_then, binop_expr,
}
use roto.Parser.Binop.Grouping.{flatten, Associativity-cases, binop_expr-IsGrouped}

flatten-length : (e : Expr) → 1 ≤ length (flatten e)
flatten-length (leaf x) = omega arith
flatten-length (bin_op l op r) = ground (arith, length-append (flatten l) (operator op ∷ flatten r))

-- What is left is shorter than what there was.
rest-length :
    (fuel : ℕ) (prev : Option BinOp) (ts : List Token) (e : Expr) (rest : List Token)
    → binop_expr fuel prev none ts ≡ parsed e rest
    → length rest < length ts
rest-length fuel prev ts e rest h =
    let same = ap length (binop_expr-IsGrouped fuel prev ts e rest h).0 in
    omega (arith, length-append (flatten e) rest, flatten-length e, same)

and_then-out_of_fuel :
    (o : Parsed) (f : Expr → List Token → Parsed)
    → o ≢ out_of_fuel
    → ((e : Expr) (ts : List Token) → o ≡ parsed e ts → f e ts ≢ out_of_fuel)
    → and_then o f ≢ out_of_fuel
and_then-out_of_fuel (parsed e ts) f n k h = k e ts refl h
and_then-out_of_fuel (failed x) f n k h = cc
and_then-out_of_fuel out_of_fuel f n k h = n refl

-- With fuel of more than twice the number of tokens, the parser gives an expression or an error:
-- the recursion and the loop never use the fuel up.
pub binop_expr-not_out_of_fuel :
    (fuel : ℕ) (prev : Option BinOp) (lhs : Option Expr) (ts : List Token)
    → 2 * length ts < fuel
    → binop_expr fuel prev lhs ts ≢ out_of_fuel
unfolding binop_expr
binop_expr-not_out_of_fuel zero prev lhs ts lt h = absurd (omega arith)
binop_expr-not_out_of_fuel (suc fuel) prev none [] lt h = cc
binop_expr-not_out_of_fuel (suc fuel) prev none (operator op ∷ ts) lt h = cc
binop_expr-not_out_of_fuel (suc fuel) prev none (operand x ∷ ts) lt h =
    binop_expr-not_out_of_fuel fuel prev (some (leaf x)) ts (omega arith) h
binop_expr-not_out_of_fuel (suc fuel) prev (some lhs) [] lt h = cc
binop_expr-not_out_of_fuel (suc fuel) prev (some lhs) (operand x ∷ ts) lt h = cc
binop_expr-not_out_of_fuel (suc fuel) prev (some lhs) (operator op ∷ ts) lt h =
    elim (Associativity-cases (decide prev op)) [
      | inl p ↦
          let bad : parsed lhs (operator op ∷ ts) ≡ out_of_fuel = rw (p, binop_expr) at h in cc
      | inr (inr p) ↦
          let bad : failed (chained op (prev_or prev op)) ≡ out_of_fuel = rw (p, binop_expr) at h in
          cc
      | inr (inl p) ↦
          and_then-out_of_fuel (binop_expr fuel (some op) none ts)
            (λ rhs ts'. binop_expr fuel prev (some (bin_op lhs op rhs)) ts')
            (binop_expr-not_out_of_fuel fuel (some op) none ts (omega arith))
            (λ rhs ts' first.
              let shorter = rest-length fuel (some op) ts rhs ts' first in
              binop_expr-not_out_of_fuel fuel prev (some (bin_op lhs op rhs)) ts' (omega arith))
            (rw (p, binop_expr) at h)
    ]
