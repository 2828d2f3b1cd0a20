-- ===== src/Parser/Binop/Complete.antt =====
-- src/parser/expr.rs, `binop_expr`: the tokens of a grouped expression, and what they parse to.
use roto.Prelude.{
  ℕ, suc, ◌+◌, ◌-◌, ◌*◌, ◌<◌, ◌≤◌, ◌≡◌, ◌∙◌, refl, sym, ap, subst, Option, some, none, List, [],
  ◌∷◌, ◌++◌, length, length-append, arith,
}
use mathlib.Core.List.{append_assoc}
use roto.Ast.{BinOp}
use roto.Parser.Precedence.{Associativity, relative_associativity}
use roto.Parser.Precedence.Order.{level, right→lt, left→le, lt→right, gt→left}
use roto.Parser.Binop.{Token, operand, operator, Expr, leaf, bin_op, parsed, decide, binop_expr}
use roto.Parser.Binop.Grouping.{flatten, BindsRight, BindsLeft, IsGrouped}

-- Every operator on the left edge may stand to the right of the one before the expression.
abbrev LeftEdge : Option BinOp → Expr → Type 0
LeftEdge prev (leaf x) = Unit
LeftEdge prev (bin_op l op r) = LeftEdge prev l × (decide prev op ≡ Associativity.right)

-- Every operator on the right edge may stand to the left of the one that follows.
abbrev RightEdge : Expr → Option BinOp → Type 0
RightEdge e none = Unit
RightEdge (leaf x) (some next) = Unit
RightEdge (bin_op l op r) (some next) =
    RightEdge r (some next) × (relative_associativity op next ≡ Associativity.left)

abbrev next_operator : List Token → Option BinOp
next_operator (operator op ∷ ts) = some op
next_operator _ = none

-- The rounds that the parser takes to come behind the expression, and those that it needs besides.
abbrev cost : Expr → ℕ
cost (leaf x) = 1
cost (bin_op l op r) = cost l + 1

abbrev reserve : Expr → ℕ
reserve (leaf x) = 0
reserve (bin_op l op r) = reserve l + (reserve r + (cost r + 2))

decide-below :
    (prev : Option BinOp) (op low : BinOp)
    → decide prev op ≡ Associativity.right
    → level op ≤ level low
    → decide prev low ≡ Associativity.right
decide-below none op low h le = refl
decide-below (some p) op low h le = lt→right p low (omega (arith, right→lt p op h))

IsGrouped-LeftEdge :
    (prev : Option BinOp) (e : Expr) → IsGrouped e → BindsRight prev e → LeftEdge prev e
IsGrouped-LeftEdge prev (leaf x) g b = tt
IsGrouped-LeftEdge prev (bin_op (leaf x) op r) g b = (tt, b)
IsGrouped-LeftEdge prev (bin_op (bin_op l low r') op r) (gl, gr, bl, br) b = (
  IsGrouped-LeftEdge prev (bin_op l low r') gl (decide-below prev op low b (left→le low op bl)),
  b,
)

IsGrouped-RightEdge :
    (e : Expr) (next : BinOp) → IsGrouped e → BindsLeft e next → RightEdge e (some next)
IsGrouped-RightEdge (leaf x) next g b = tt
IsGrouped-RightEdge (bin_op l op (leaf x)) next g b = (tt, b)
IsGrouped-RightEdge (bin_op l op (bin_op l' low r)) next (gl, gr, bl, br) b = (
  IsGrouped-RightEdge (bin_op l' low r) next gr
      (gt→left low next (omega (arith, right→lt op low br, left→le op next b))),
  b,
)

abbrev after : Expr → ℕ → ℕ
after (leaf x) n = suc n
after (bin_op l op r) n = after l (suc n)

after-cost : (e : Expr) (n : ℕ) → after e n ≡ cost e + n
after-cost (leaf x) n = omega arith
after-cost (bin_op l op r) n = omega (arith, after-cost l (suc n))

RightEdge-right :
    (l : Expr) (op : BinOp) (r : Expr) (next : Option BinOp)
    → RightEdge (bin_op l op r) next
    → RightEdge r next
RightEdge-right l op r none h = tt
RightEdge-right l op r (some next) (h, _) = h

-- The loop stops where what follows binds no stronger.
stops :
    (fuel : ℕ) (l : Expr) (op : BinOp) (r : Expr) (rest : List Token)
    → RightEdge (bin_op l op r) (next_operator rest)
    → binop_expr (suc fuel) (some op) (some r) rest ≡ parsed r rest
unfolding binop_expr
stops fuel l op r [] h = refl
stops fuel l op r (operand x ∷ ts) h = refl
stops fuel l op r (operator next ∷ ts) (_, h) = rw (binop_expr, h) refl

step :
    (fuel : ℕ) (prev : Option BinOp) (l : Expr) (op : BinOp) (ts : List Token) (r : Expr)
    (rest : List Token)
    → decide prev op ≡ Associativity.right
    → binop_expr fuel (some op) none ts ≡ parsed r rest
    → binop_expr (suc fuel) prev (some l) (operator op ∷ ts)
      ≡ binop_expr fuel prev (some (bin_op l op r)) rest
unfolding binop_expr
step fuel prev l op ts r rest right h = rw (binop_expr, right, h) refl

-- Parsing the tokens of an expression comes to the head of the loop behind them.
loop-flatten :
    (e : Expr) (fuel : ℕ) (prev : Option BinOp) (rest : List Token)
    → IsGrouped e
    → LeftEdge prev e
    → RightEdge e (next_operator rest)
    → reserve e ≤ fuel
    → binop_expr (after e fuel) prev none (flatten e ++ rest) ≡ binop_expr fuel prev (some e) rest
unfolding binop_expr
loop-flatten (leaf x) fuel prev rest g le re enough = refl
loop-flatten (bin_op l op r) fuel prev rest (gl, gr, bl, br) (edge, right) re enough =
    let k = fuel - (cost r + 1) in
    let split : fuel ≡ after r (suc k) = omega (arith, after-cost r (suc k)) in
    let inner : binop_expr (after r (suc k)) (some op) none (flatten r ++ rest) ≡ parsed r rest =
      loop-flatten r (suc k) (some op) rest gr (IsGrouped-LeftEdge (some op) r gr br)
        (RightEdge-right l op r (next_operator rest) re) (omega arith)
      ∙ stops k l op r rest re in
    ap (binop_expr (after l (suc fuel)) prev none)
      (append_assoc (flatten l) (operator op ∷ flatten r) rest)
    ∙ loop-flatten l (suc fuel) prev (operator op ∷ (flatten r ++ rest)) gl edge
        (IsGrouped-RightEdge l op gl bl) (omega arith)
    ∙ step fuel prev l op (flatten r ++ rest) r rest right (
        subst (λ n. binop_expr n (some op) none (flatten r ++ rest) ≡ parsed r rest) (sym split)
          inner)

-- What both take together, as the number of tokens has it.
cost-length : (e : Expr) → cost e + reserve e + 1 ≡ 2 * length (flatten e)
cost-length (leaf x) = refl
cost-length (bin_op l op r) =
    let both = length-append (flatten l) (operator op ∷ flatten r) in
    omega (arith, both, cost-length l, cost-length r)

append_nil : (ts : List Token) → ts ++ [] ≡ ts
append_nil [] = refl
append_nil (t ∷ ts) = ap (λ xs. t ∷ xs) (append_nil ts)

finish : (fuel : ℕ) (e : Expr) → binop_expr (suc fuel) none (some e) [] ≡ parsed e []
unfolding binop_expr
finish fuel e = refl

-- The tokens of every expression that is grouped by the precedence of its operators parse to that
-- expression and nothing is left, with fuel of more than twice the number of tokens.
pub binop_expr-flatten :
    (e : Expr) (fuel : ℕ)
    → IsGrouped e
    → 2 * length (flatten e) < fuel
    → binop_expr fuel none none (flatten e) ≡ parsed e []
binop_expr-flatten e fuel g lt =
    let k = fuel - (cost e + 1) in
    let split : after e (suc k) ≡ fuel = omega (arith, after-cost e (suc k), cost-length e) in
    let whole : binop_expr (after e (suc k)) none none (flatten e ++ []) ≡ parsed e [] =
      loop-flatten e (suc k) none [] g (IsGrouped-LeftEdge none e g (any e)) tt
        (omega (arith, cost-length e))
      ∙ finish k e in
    subst (λ n. binop_expr n none none (flatten e) ≡ parsed e []) split
      (subst (λ ts. binop_expr (after e (suc k)) none none ts ≡ parsed e [])
        (append_nil (flatten e)) whole)
  where
    any : (e : Expr) → BindsRight none e
    any (leaf x) = tt
    any (bin_op l op r) = refl
