-- ===== src/Parser/Precedence/Order.antt =====
-- src/parser/precedence.rs: the answers, and the order of the precedences.
use roto.Prelude.{
  ℕ, ◌<◌, ◌≤◌, ◌≡◌, ◌⊎◌, ◌∙◌, inl, inr, refl, sym, false, ltb, Bool-cases, ltb→lt, lt→ltb, arith,
}
use roto.Ast.{BinOp}
use roto.Parser.Precedence.{
  Associativity, rank, precedence, associativity, by_precedence, relative_associativity,
}

abbrev pub level : BinOp → ℕ
level op = rank (precedence op)

-- Apart from `||` next to `&&`, the precedences decide.
relative_associativity-cases :
    (a b : BinOp)
    → ((relative_associativity a b ≡ Associativity.not) × (level a ≡ level b))
      ⊎ (relative_associativity a b ≡ by_precedence a b)
unfolding relative_associativity
relative_associativity-cases BinOp.or BinOp.and = inl (refl, refl)
relative_associativity-cases BinOp.and BinOp.or = inl (refl, refl)
relative_associativity-cases a b = inr refl

associativity-not_right : (a : BinOp) → associativity a ≡ Associativity.right → ⊥
associativity-not_right BinOp.or h = cc
associativity-not_right BinOp.and h = cc
associativity-not_right BinOp.eq h = cc
associativity-not_right BinOp.ne h = cc
associativity-not_right BinOp.lt h = cc
associativity-not_right BinOp.le h = cc
associativity-not_right BinOp.gt h = cc
associativity-not_right BinOp.ge h = cc
associativity-not_right BinOp.add h = cc
associativity-not_right BinOp.sub h = cc
associativity-not_right BinOp.mul h = cc
associativity-not_right BinOp.div h = cc
associativity-not_right BinOp.modulo h = cc

by_precedence-right : (a b : BinOp) → by_precedence a b ≡ Associativity.right → level a < level b
by_precedence-right a b h = elim (Bool-cases (ltb (level a) (level b))) [
  | inl t ↦ ltb→lt (level a) (level b) t
  | inr f ↦ elim (Bool-cases (ltb (level b) (level a))) [
    | inl t ↦ let bad : Associativity.left ≡ Associativity.right = rw (f, t) at h in cc
    | inr f' ↦ absurd (associativity-not_right a (rw (f, f') at h))
  ]
]

pub right→lt : (a b : BinOp) → relative_associativity a b ≡ Associativity.right → level a < level b
right→lt a b h = elim (relative_associativity-cases a b) [
  | inl (e, _) ↦ let bad : Associativity.not ≡ Associativity.right = sym e ∙ h in cc
  | inr e ↦ by_precedence-right a b (sym e ∙ h)
]

pub left→le : (a b : BinOp) → relative_associativity a b ≡ Associativity.left → level b ≤ level a
left→le a b h = elim (relative_associativity-cases a b) [
  | inl (e, _) ↦ let bad : Associativity.not ≡ Associativity.left = sym e ∙ h in cc
  | inr e ↦ elim (Bool-cases (ltb (level a) (level b))) [
    | inl t ↦ let bad : Associativity.right ≡ Associativity.left = sym (rw t refl) ∙ sym e ∙ h in cc
    | inr f ↦ ground arith
  ]
]

pub lt→right : (a b : BinOp) → level a < level b → relative_associativity a b ≡ Associativity.right
lt→right a b lt = elim (relative_associativity-cases a b) [
  | inl (_, same) ↦ absurd (omega arith)
  | inr e ↦ e ∙ rw (lt→ltb (level a) (level b) lt) refl
]

pub gt→left : (a b : BinOp) → level b < level a → relative_associativity a b ≡ Associativity.left
gt→left a b lt = elim (relative_associativity-cases a b) [
  | inl (_, same) ↦ absurd (omega arith)
  | inr e ↦
      let no : ltb (level a) (level b) ≡ false = ground arith in
      e ∙ rw (no, lt→ltb (level b) (level a) lt) refl
]
