-- ===== src/Parser/Binop/Strength.antt =====
-- src/parser/expr.rs and src/parser/precedence.rs: how what is parsed is grouped, against the
-- strengths of the operators as a table and the pairs that must not be mixed.
use roto.Prelude.{
  ℕ, ◌≤◌, ◌<◌, ◌≡◌, ◌⊎◌, inl, inr, refl, sym, ◌∙◌, Option, some, none, List, [], ◌∷◌, ◌++◌, arith,
}
use roto.Ast.{BinOp}
use roto.Parser.Precedence.{
  Precedence, Associativity, rank, precedence, associativity, by_precedence, relative_associativity,
}
use roto.Parser.Precedence.Order.{left→le, right→lt}
use roto.Parser.Binop.{Token, operand, operator, Expr, leaf, bin_op, parsed, binop_expr}
use roto.Parser.Binop.Grouping.{
  flatten, BindsRight, BindsLeft, IsGrouped, Stops, binop_expr-IsGrouped,
}

-- How strong an operator binds
abbrev pub strength : BinOp → ℕ
strength BinOp.or = 0
strength BinOp.and = 0
strength BinOp.eq = 1
strength BinOp.ne = 1
strength BinOp.lt = 1
strength BinOp.le = 1
strength BinOp.gt = 1
strength BinOp.ge = 1
strength BinOp.add = 2
strength BinOp.sub = 2
strength BinOp.mul = 3
strength BinOp.div = 3
strength BinOp.modulo = 3

-- Two operators that must not be mixed without parentheses: `||` with `&&`, and comparisons.
pub data MustNotMix : BinOp → BinOp → Type 0 where
  or_and : MustNotMix BinOp.or BinOp.and
  and_or : MustNotMix BinOp.and BinOp.or
  comparisons : (a b : BinOp) → strength a ≡ 1 → strength b ≡ 1 → MustNotMix a b

-- The operators stand in this order, and the first takes what is between them.
abbrev pub TakesLeft : BinOp → BinOp → Type 0
TakesLeft a b = (strength b ≤ strength a) × ¬ MustNotMix a b

-- The same, but the second takes it.
abbrev pub TakesRight : BinOp → BinOp → Type 0
TakesRight a b = (strength a < strength b) × ¬ MustNotMix a b

abbrev pub OnLeft : Expr → BinOp → Type 0
OnLeft (leaf x) next = Unit
OnLeft (bin_op l op r) next = TakesLeft op next

abbrev pub OnRight : Option BinOp → Expr → Type 0
OnRight none e = Unit
OnRight (some prev) (leaf x) = Unit
OnRight (some prev) (bin_op l op r) = TakesRight prev op

-- Each operator is applied to what it may be applied to without parentheses.
abbrev pub IsUnambiguous : Expr → Type 0
IsUnambiguous (leaf x) = Unit
IsUnambiguous (bin_op l op r) =
    IsUnambiguous l × IsUnambiguous r × OnLeft l op × OnRight (some op) r

-- What is left begins with no operator, or with one before which the expression ends.
abbrev pub EndsBefore : Option BinOp → List Token → Type 0
EndsBefore none (operator op ∷ ts) = ⊥
EndsBefore (some prev) (operator op ∷ ts) = TakesLeft prev op
EndsBefore prev _ = Unit

rank-strength : (op : BinOp) → rank (precedence op) ≡ strength op
rank-strength BinOp.or = refl
rank-strength BinOp.and = refl
rank-strength BinOp.eq = refl
rank-strength BinOp.ne = refl
rank-strength BinOp.lt = refl
rank-strength BinOp.le = refl
rank-strength BinOp.gt = refl
rank-strength BinOp.ge = refl
rank-strength BinOp.add = refl
rank-strength BinOp.sub = refl
rank-strength BinOp.mul = refl
rank-strength BinOp.div = refl
rank-strength BinOp.modulo = refl

is_comparison : (op : BinOp) → strength op ≡ 1 → precedence op ≡ Precedence.comparison
is_comparison BinOp.eq h = refl
is_comparison BinOp.ne h = refl
is_comparison BinOp.lt h = refl
is_comparison BinOp.le h = refl
is_comparison BinOp.gt h = refl
is_comparison BinOp.ge h = refl
is_comparison op h = absurd (omega (arith, h))

-- The table gives no answer, or the one that the precedences give.
relative-cases :
    (a b : BinOp)
    → (relative_associativity a b ≡ Associativity.not)
      ⊎ (relative_associativity a b ≡ by_precedence a b)
unfolding relative_associativity
relative-cases BinOp.or BinOp.and = inl refl
relative-cases BinOp.and BinOp.or = inl refl
relative-cases a b = inr refl

associativity-comparison : (op : BinOp) → strength op ≡ 1 → associativity op ≡ Associativity.not
associativity-comparison BinOp.eq h = refl
associativity-comparison BinOp.ne h = refl
associativity-comparison BinOp.lt h = refl
associativity-comparison BinOp.le h = refl
associativity-comparison BinOp.gt h = refl
associativity-comparison BinOp.ge h = refl
associativity-comparison op h = absurd (omega (arith, h))

comparison-not :
    (a b : BinOp) → strength a ≡ 1 → strength b ≡ 1 → by_precedence a b ≡ Associativity.not
comparison-not a b h k = rw (is_comparison a h, is_comparison b k) (associativity-comparison a h)

-- Operators that must not be mixed have no order.
MustNotMix-not : (a b : BinOp) → MustNotMix a b → relative_associativity a b ≡ Associativity.not
unfolding relative_associativity
MustNotMix-not _ _ or_and = refl
MustNotMix-not _ _ and_or = refl
MustNotMix-not _ _ (comparisons a b h k) = elim (relative-cases a b) [
  | inl e ↦ e
  | inr e ↦ e ∙ comparison-not a b h k
]

left-TakesLeft : (a b : BinOp) → relative_associativity a b ≡ Associativity.left → TakesLeft a b
left-TakesLeft a b h = (
  omega (arith, rank-strength a, rank-strength b, left→le a b h),
  λ m. let bad : Associativity.not ≡ Associativity.left = sym (MustNotMix-not a b m) ∙ h in cc,
)

right-TakesRight : (a b : BinOp) → relative_associativity a b ≡ Associativity.right → TakesRight a b
right-TakesRight a b h = (
  omega (arith, rank-strength a, rank-strength b, right→lt a b h),
  λ m. let bad : Associativity.not ≡ Associativity.right = sym (MustNotMix-not a b m) ∙ h in cc,
)

BindsLeft-OnLeft : (e : Expr) (op : BinOp) → BindsLeft e op → OnLeft e op
BindsLeft-OnLeft (leaf x) op h = tt
BindsLeft-OnLeft (bin_op l q r) op h = left-TakesLeft q op h

BindsRight-OnRight : (prev : Option BinOp) (e : Expr) → BindsRight prev e → OnRight prev e
BindsRight-OnRight none (leaf x) h = tt
BindsRight-OnRight none (bin_op l op r) h = tt
BindsRight-OnRight (some prev) (leaf x) h = tt
BindsRight-OnRight (some prev) (bin_op l op r) h = right-TakesRight prev op h

IsGrouped-IsUnambiguous : (e : Expr) → IsGrouped e → IsUnambiguous e
IsGrouped-IsUnambiguous (leaf x) h = tt
IsGrouped-IsUnambiguous (bin_op l op r) (hl, hr, left, right) = (
  IsGrouped-IsUnambiguous l hl,
  IsGrouped-IsUnambiguous r hr,
  BindsLeft-OnLeft l op left,
  BindsRight-OnRight (some op) r right,
)

Stops-EndsBefore : (prev : Option BinOp) (ts : List Token) → Stops prev ts → EndsBefore prev ts
Stops-EndsBefore none [] h = tt
Stops-EndsBefore none (operand x ∷ ts) h = tt
Stops-EndsBefore none (operator op ∷ ts) h = cc
Stops-EndsBefore (some prev) [] h = tt
Stops-EndsBefore (some prev) (operand x ∷ ts) h = tt
Stops-EndsBefore (some prev) (operator op ∷ ts) h = left-TakesLeft prev op h

-- What is parsed is the tokens up to the rest. An operator in it is at least as strong as the one
-- that it is the left operand of, and stronger than the one that it is the right operand of, with
-- the operator before the expression as one of those; and no operator is an operand of one that it
-- must not be mixed with (`||` with `&&`, two comparisons). The rest begins with no operator, or
-- with one that is no stronger than the operator before and may be mixed with it.
pub binop_expr_lem :
    (fuel : ℕ) (prev : Option BinOp) (ts : List Token) (e : Expr) (rest : List Token)
    → binop_expr fuel prev none ts ≡ parsed e rest
    → (flatten e ++ rest ≡ ts) × IsUnambiguous e × OnRight prev e × EndsBefore prev rest
binop_expr_lem fuel prev ts e rest h =
    let (tokens, grouped, binds, stops) = binop_expr-IsGrouped fuel prev ts e rest h in
    (
      tokens,
      IsGrouped-IsUnambiguous e grouped,
      BindsRight-OnRight prev e binds,
      Stops-EndsBefore prev rest stops,
    )
