-- ===== src/Parser/Binop/Grouping.antt =====
-- src/parser/expr.rs, `binop_expr`: how what is parsed is grouped.
use roto.Prelude.{
  ℕ, zero, suc, ◌≡◌, ◌⊎◌, ◌∙◌, inl, inr, refl, ap, subst, Option, some, none, some_inj, List, [],
  ◌∷◌, ◌++◌,
}
use mathlib.Core.List.{append_assoc}
use roto.Ast.{BinOp}
use roto.Parser.Precedence.{Associativity, relative_associativity}
use roto.Parser.Binop.{
  Token, operand, operator, Expr, leaf, bin_op, Parsed, parsed, failed, out_of_fuel, chained,
  decide, prev_or, and_then, binop_expr,
}

-- The tokens of an expression, in their order.
abbrev pub flatten : Expr → List Token
flatten (leaf x) = operand x ∷ []
flatten (bin_op l op r) = flatten l ++ (operator op ∷ flatten r)

-- The operator of the expression may stand to the right of the one before it.
abbrev pub BindsRight : Option BinOp → Expr → Type 0
BindsRight prev (leaf x) = Unit
BindsRight prev (bin_op l op r) = decide prev op ≡ Associativity.right

-- The operator of the expression may stand to the left of this one.
abbrev pub BindsLeft : Expr → BinOp → Type 0
BindsLeft (leaf x) next = Unit
BindsLeft (bin_op l op r) next = relative_associativity op next ≡ Associativity.left

-- Each operator in the expression binds weaker than those below it, or as strong and to the left.
abbrev pub IsGrouped : Expr → Type 0
IsGrouped (leaf x) = Unit
IsGrouped (bin_op l op r) = IsGrouped l × IsGrouped r × BindsLeft l op × BindsRight (some op) r

-- The tokens go on with nothing that belongs to the expression.
abbrev pub Stops : Option BinOp → List Token → Type 0
Stops prev (operator op ∷ ts) = decide prev op ≡ Associativity.left
Stops prev _ = Unit

abbrev Fits : Expr → List Token → Type 0
Fits lhs (operator op ∷ ts) = BindsLeft lhs op
Fits lhs _ = Unit

pub record IsParsed (prev : Option BinOp) (ts : List Token) (e : Expr) (rest : List Token)
    : Type 0 where
  pub tokens : flatten e ++ rest ≡ ts
  pub grouped : IsGrouped e
  pub binds : BindsRight prev e
  pub stops : Stops prev rest

pub Associativity-cases :
    (a : Associativity)
    → (a ≡ Associativity.left) ⊎ ((a ≡ Associativity.right) ⊎ (a ≡ Associativity.not))
Associativity-cases Associativity.left = inl refl
Associativity-cases Associativity.right = inr (inl refl)
Associativity-cases Associativity.not = inr (inr refl)

abbrev result_of : Parsed → Option (Expr × List Token)
result_of (parsed e ts) = some (e, ts)
result_of (failed e) = none
result_of out_of_fuel = none

and_then-parsed :
    (o : Parsed) (f : Expr → List Token → Parsed) (e : Expr) (rest : List Token)
    → and_then o f ≡ parsed e rest
    → (rhs : Expr) × (ts : List Token) × (o ≡ parsed rhs ts) × (f rhs ts ≡ parsed e rest)
and_then-parsed (parsed rhs ts) f e rest h = (rhs, ts, refl, h)
and_then-parsed (failed x) f e rest h = cc
and_then-parsed out_of_fuel f e rest h = cc

-- What ends the loop.
end-IsParsed :
    (prev : Option BinOp) (lhs : Expr) (ts : List Token) (e : Expr) (rest : List Token)
    → IsGrouped lhs
    → BindsRight prev lhs
    → Stops prev ts
    → parsed lhs ts ≡ parsed e rest
    → IsParsed prev (flatten lhs ++ ts) e rest
end-IsParsed prev lhs ts e rest g b s h =
    subst (λ q. IsParsed prev (flatten lhs ++ ts) q.0 q.1) (some_inj (ap result_of h))
      (record { tokens = refl; grouped = g; binds = b; stops = s })

Stops-Fits :
    (lhs : Expr) (op : BinOp) (rhs : Expr) (ts : List Token)
    → Stops (some op) ts
    → Fits (bin_op lhs op rhs) ts
Stops-Fits lhs op rhs [] s = tt
Stops-Fits lhs op rhs (operand x ∷ ts) s = tt
Stops-Fits lhs op rhs (operator q ∷ ts) s = s

-- What is to be shown of so much fuel, from the start and from the head of the loop.
abbrev StartSound : ℕ → Type 0
StartSound fuel =
    (prev : Option BinOp) (ts : List Token) (e : Expr) (rest : List Token)
    → binop_expr fuel prev none ts ≡ parsed e rest
    → IsParsed prev ts e rest

abbrev LoopSound : ℕ → Type 0
LoopSound fuel =
    (prev : Option BinOp) (lhs : Expr) (ts : List Token) (e : Expr) (rest : List Token)
    → IsGrouped lhs
    → BindsRight prev lhs
    → Fits lhs ts
    → binop_expr fuel prev (some lhs) ts ≡ parsed e rest
    → IsParsed prev (flatten lhs ++ ts) e rest

leaf-Fits : (x : ℕ) (ts : List Token) → Fits (leaf x) ts
leaf-Fits x [] = tt
leaf-Fits x (operand y ∷ ts) = tt
leaf-Fits x (operator q ∷ ts) = tt

next-StartSound : (fuel : ℕ) → LoopSound fuel → StartSound (suc fuel)
unfolding binop_expr
next-StartSound fuel loop prev [] e rest h = cc
next-StartSound fuel loop prev (operator op ∷ ts) e rest h = cc
next-StartSound fuel loop prev (operand x ∷ ts) e rest h =
    loop prev (leaf x) ts e rest tt tt (leaf-Fits x ts) h

next-LoopSound : (fuel : ℕ) → StartSound fuel → LoopSound fuel → LoopSound (suc fuel)
unfolding binop_expr
next-LoopSound fuel start loop prev lhs [] e rest g b f h = end-IsParsed prev lhs [] e rest g b tt h
next-LoopSound fuel start loop prev lhs (operand x ∷ ts) e rest g b f h =
    end-IsParsed prev lhs (operand x ∷ ts) e rest g b tt h
next-LoopSound fuel start loop prev lhs (operator op ∷ ts) e rest g b f h =
    elim (Associativity-cases (decide prev op)) [
      | inl p ↦ end-IsParsed prev lhs (operator op ∷ ts) e rest g b p (rw (p, binop_expr) at h)
      | inr (inr p) ↦
          let bad : failed (chained op (prev_or prev op)) ≡ parsed e rest =
            rw (p, binop_expr) at h in
          cc
      | inr (inl p) ↦
          let (rhs, ts', first, second) =
            and_then-parsed (binop_expr fuel (some op) none ts)
              (λ rhs ts'. binop_expr fuel prev (some (bin_op lhs op rhs)) ts') e rest
              (rw (p, binop_expr) at h) in
          let r = start (some op) ts rhs ts' first in
          let whole =
            loop prev (bin_op lhs op rhs) ts' e rest (g, r.grouped, f, r.binds) p
              (Stops-Fits lhs op rhs ts' r.stops) second in
          record {
            tokens =
                whole.tokens
                ∙ append_assoc (flatten lhs) (operator op ∷ flatten rhs) ts'
                ∙ ap (λ q. flatten lhs ++ (operator op ∷ q)) r.tokens;
            grouped = whole.grouped;
            binds = whole.binds;
            stops = whole.stops;
          }
    ]

both_sound : (fuel : ℕ) → StartSound fuel × LoopSound fuel
unfolding binop_expr
both_sound zero = (λ prev ts e rest h. cc, λ prev lhs ts e rest g b f h. cc)
both_sound (suc fuel) =
    let (start, loop) = both_sound fuel in
    (next-StartSound fuel loop, next-LoopSound fuel start loop)

-- What is parsed is grouped by the table of the parser.
pub binop_expr-IsGrouped :
    (fuel : ℕ) (prev : Option BinOp) (ts : List Token) (e : Expr) (rest : List Token)
    → binop_expr fuel prev none ts ≡ parsed e rest
    → (flatten e ++ rest ≡ ts) × IsGrouped e × BindsRight prev e × Stops prev rest
binop_expr-IsGrouped fuel prev ts e rest h =
    let r = (both_sound fuel).0 prev ts e rest h in (r.tokens, r.grouped, r.binds, r.stops)
