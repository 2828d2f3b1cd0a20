-- ===== src/Lir/Arith/Division.antt =====
-- src/lir/eval.rs: the arithmetic and the integers that the values stand for.
use native.Mathlib.Nat.{div-add-mod}
use roto.Prelude.{
  ℕ, suc, ◌%◌, ◌^◌, ◌≡◌, ◌≢◌, ◌∙◌, sym, ap, false, some, none, ◌>>=◌, >>=-eq-some, some_inj, arith,
  Bool-cases, inl, inr,
}
use roto.Prelude.Int.{ℤ, pos, negsuc, ◌+ℤ◌, ◌-ℤ◌, ◌*ℤ◌, div_ℤ, rem_ℤ}
use mathlib.Core.Bool.{false≢true}
use roto.Lir.Value.{IrValue, integer}
use roto.Lir.Arith.{
  UnsignedOp, SignedOp, within, int_op, is_zero, add_u, sub_u, mul_u, div_u, mod_u, add_s, sub_s,
  mul_s, div_s, mod_s, eval_add, eval_sub, eval_mul, eval_div, eval_mod,
}
use roto.Lir.Arith.Range.{
  within-IsSigned, nonzero_of, Operator, plus, minus, times, over, rest, eval_operator,
}

-- The operators on the integers, with division towards zero.
abbrev pub on_integers : Operator → ℤ → ℤ → ℤ
on_integers plus a b = a +ℤ b
on_integers minus a b = a -ℤ b
on_integers times a b = a *ℤ b
on_integers over a b = div_ℤ a b
on_integers rest a b = rem_ℤ a b

abbrev MatchesUnsigned : (ℤ → ℤ → ℤ) → UnsignedOp → Type 0
MatchesUnsigned f u = (bound l r n : ℕ) → u bound l r ≡ some n → pos n ≡ f (pos l) (pos r)

abbrev MatchesSigned : (ℤ → ℤ → ℤ) → SignedOp → Type 0
MatchesSigned f s = (half : ℕ) (l r z : ℤ) → s half l r ≡ some z → z ≡ f l r

int_op-integer :
    (f : ℤ → ℤ → ℤ) (u : UnsignedOp) (s : SignedOp)
    → MatchesUnsigned f u
    → MatchesSigned f s
    → (l r v : IrValue) → int_op u s l r ≡ some v
    → integer v ≡ f (integer l) (integer r)
unfolding int_op
int_op-integer f u s mu ms (IrValue.u8 l) (IrValue.u8 r) v h =
    let (n, e, q) = >>=-eq-some (u (2 ^ 8) l r) _ h in
    let same : IrValue.u8 n ≡ v = some_inj q in rw (← same) (mu (2 ^ 8) l r n e)
int_op-integer f u s mu ms (IrValue.u16 l) (IrValue.u16 r) v h =
    let (n, e, q) = >>=-eq-some (u (2 ^ 16) l r) _ h in
    let same : IrValue.u16 n ≡ v = some_inj q in rw (← same) (mu (2 ^ 16) l r n e)
int_op-integer f u s mu ms (IrValue.u32 l) (IrValue.u32 r) v h =
    let (n, e, q) = >>=-eq-some (u (2 ^ 32) l r) _ h in
    let same : IrValue.u32 n ≡ v = some_inj q in rw (← same) (mu (2 ^ 32) l r n e)
int_op-integer f u s mu ms (IrValue.u64 l) (IrValue.u64 r) v h =
    let (n, e, q) = >>=-eq-some (u (2 ^ 64) l r) _ h in
    let same : IrValue.u64 n ≡ v = some_inj q in rw (← same) (mu (2 ^ 64) l r n e)
int_op-integer f u s mu ms (IrValue.i8 l) (IrValue.i8 r) v h =
    let (n, e, q) = >>=-eq-some (s (2 ^ 7) l r) _ h in
    let same : IrValue.i8 n ≡ v = some_inj q in rw (← same) (ms (2 ^ 7) l r n e)
int_op-integer f u s mu ms (IrValue.i16 l) (IrValue.i16 r) v h =
    let (n, e, q) = >>=-eq-some (s (2 ^ 15) l r) _ h in
    let same : IrValue.i16 n ≡ v = some_inj q in rw (← same) (ms (2 ^ 15) l r n e)
int_op-integer f u s mu ms (IrValue.i32 l) (IrValue.i32 r) v h =
    let (n, e, q) = >>=-eq-some (s (2 ^ 31) l r) _ h in
    let same : IrValue.i32 n ≡ v = some_inj q in rw (← same) (ms (2 ^ 31) l r n e)
int_op-integer f u s mu ms (IrValue.i64 l) (IrValue.i64 r) v h =
    let (n, e, q) = >>=-eq-some (s (2 ^ 63) l r) _ h in
    let same : IrValue.i64 n ≡ v = some_inj q in rw (← same) (ms (2 ^ 63) l r n e)
int_op-integer f u s mu ms _ _ v h = cc

add_u-matches : MatchesUnsigned ◌+ℤ◌ add_u
unfolding ◌+ℤ◌
add_u-matches bound l r n h = ground arith

sub_u-matches : MatchesUnsigned ◌-ℤ◌ sub_u
unfolding ◌-ℤ◌
sub_u-matches bound l r n h = ground arith

mul_u-matches : MatchesUnsigned ◌*ℤ◌ mul_u
unfolding ◌*ℤ◌
mul_u-matches bound l r n h = ground arith

div_u-matches : MatchesUnsigned div_ℤ div_u
div_u-matches bound l r n h = ground arith

mod_u-matches : MatchesUnsigned rem_ℤ mod_u
mod_u-matches bound l r n h = ground arith

div_s-matches : MatchesSigned div_ℤ div_s
div_s-matches half l r z h =
    (within-IsSigned half (div_ℤ l r) z (nonzero_of (is_zero r) (within half (div_ℤ l r)) h)).1

mod_s-matches : MatchesSigned rem_ℤ mod_s
mod_s-matches half l r z h =
    let (_, _, q) =
      >>=-eq-some (within half (div_ℤ l r)) _
        (nonzero_of (is_zero r) (within half (div_ℤ l r) >>= λ _. some (rem_ℤ l r)) h) in
    sym (some_inj q)

-- Where an operation of the evaluator does not panic, its result stands for the sum, difference,
-- product, quotient towards zero or remainder of the integers that the operands stand for.
pub eval_operator-integer :
    (o : Operator) (l r v : IrValue)
    → eval_operator o l r ≡ some v
    → integer v ≡ on_integers o (integer l) (integer r)
unfolding eval_add eval_sub eval_mul eval_div eval_mod
eval_operator-integer plus l r v =
    int_op-integer ◌+ℤ◌ add_u add_s add_u-matches
      (λ half l r z h. (within-IsSigned half (l +ℤ r) z h).1) l r v
eval_operator-integer minus l r v =
    int_op-integer ◌-ℤ◌ sub_u sub_s sub_u-matches
      (λ half l r z h. (within-IsSigned half (l -ℤ r) z h).1) l r v
eval_operator-integer times l r v =
    int_op-integer ◌*ℤ◌ mul_u mul_s mul_u-matches
      (λ half l r z h. (within-IsSigned half (l *ℤ r) z h).1) l r v
eval_operator-integer over l r v =
    int_op-integer div_ℤ div_u div_s div_u-matches div_s-matches l r v
eval_operator-integer rest l r v =
    int_op-integer rem_ℤ mod_u mod_s mod_u-matches mod_s-matches l r v

div_ℤ-rem_ℤ : (a b : ℤ) → is_zero b ≡ false → div_ℤ a b *ℤ b +ℤ rem_ℤ a b ≡ a
unfolding ◌*ℤ◌ ◌+ℤ◌
div_ℤ-rem_ℤ (pos a) (pos b) h = ground (arith, div-add-mod a b)
div_ℤ-rem_ℤ (pos a) (negsuc b) h = ground (arith, div-add-mod a (suc b))
div_ℤ-rem_ℤ (negsuc a) (pos b) h = ground (arith, div-add-mod (suc a) b)
div_ℤ-rem_ℤ (negsuc a) (negsuc b) h = ground (arith, div-add-mod (suc a) (suc b))

-- Where one operator gives a result for operands with a property, another does for the same ones.
module _ (u u' : UnsignedOp) (s s' : SignedOp) where
  abbrev Follows : Type 0
  Follows =
      ((bound l r n : ℕ)
        → u bound l r ≡ some n
        → (n' : ℕ) × (u' bound l r ≡ some n') × (is_zero (pos r) ≡ false))
      × ((half : ℕ) (l r z : ℤ)
          → s half l r ≡ some z
          → (z' : ℤ) × (s' half l r ≡ some z') × (is_zero r ≡ false))

  int_op-follows :
      Follows
      → (l r v : IrValue) → int_op u s l r ≡ some v
      → (v' : IrValue) × (int_op u' s' l r ≡ some v') × (is_zero (integer r) ≡ false)
  unfolding int_op
  int_op-follows h (IrValue.u8 l) (IrValue.u8 r) v e =
      let (n, p, q) = >>=-eq-some (u (2 ^ 8) l r) _ e in
      let (n', p', z) = h.0 (2 ^ 8) l r n p in (IrValue.u8 n', rw p', z)
  int_op-follows h (IrValue.u16 l) (IrValue.u16 r) v e =
      let (n, p, q) = >>=-eq-some (u (2 ^ 16) l r) _ e in
      let (n', p', z) = h.0 (2 ^ 16) l r n p in (IrValue.u16 n', rw p', z)
  int_op-follows h (IrValue.u32 l) (IrValue.u32 r) v e =
      let (n, p, q) = >>=-eq-some (u (2 ^ 32) l r) _ e in
      let (n', p', z) = h.0 (2 ^ 32) l r n p in (IrValue.u32 n', rw p', z)
  int_op-follows h (IrValue.u64 l) (IrValue.u64 r) v e =
      let (n, p, q) = >>=-eq-some (u (2 ^ 64) l r) _ e in
      let (n', p', z) = h.0 (2 ^ 64) l r n p in (IrValue.u64 n', rw p', z)
  int_op-follows h (IrValue.i8 l) (IrValue.i8 r) v e =
      let (n, p, q) = >>=-eq-some (s (2 ^ 7) l r) _ e in
      let (n', p', z) = h.1 (2 ^ 7) l r n p in (IrValue.i8 n', rw p', z)
  int_op-follows h (IrValue.i16 l) (IrValue.i16 r) v e =
      let (n, p, q) = >>=-eq-some (s (2 ^ 15) l r) _ e in
      let (n', p', z) = h.1 (2 ^ 15) l r n p in (IrValue.i16 n', rw p', z)
  int_op-follows h (IrValue.i32 l) (IrValue.i32 r) v e =
      let (n, p, q) = >>=-eq-some (s (2 ^ 31) l r) _ e in
      let (n', p', z) = h.1 (2 ^ 31) l r n p in (IrValue.i32 n', rw p', z)
  int_op-follows h (IrValue.i64 l) (IrValue.i64 r) v e =
      let (n, p, q) = >>=-eq-some (s (2 ^ 63) l r) _ e in
      let (n', p', z) = h.1 (2 ^ 63) l r n p in (IrValue.i64 n', rw p', z)
  int_op-follows h _ _ v e = cc

div_u-follows :
    (bound l r n : ℕ)
    → div_u bound l r ≡ some n
    → (n' : ℕ) × (mod_u bound l r ≡ some n') × (is_zero (pos r) ≡ false)
div_u-follows bound l r n h = (l % r, ground arith, ground arith)

div_s-follows :
    (half : ℕ) (l r z : ℤ)
    → div_s half l r ≡ some z
    → (z' : ℤ) × (mod_s half l r ≡ some z') × (is_zero r ≡ false)
div_s-follows half l r z h = elim (Bool-cases (is_zero r)) [
  | inl t ↦ let bad : none ≡ some z = rw t at h in cc
  | inr f ↦ let e : within half (div_ℤ l r) ≡ some z = rw f at h in (rem_ℤ l r, rw (f, e), f)
]

-- Where `Div` gives a quotient `Mod` gives a remainder, the divisor is not zero, and quotient times
-- divisor plus remainder is the dividend.
pub eval_div-eval_mod :
    (l r q : IrValue)
    → eval_div l r ≡ some q
    → (m : IrValue) × (eval_mod l r ≡ some m)
      × (integer r ≢ pos 0)
      × (integer q *ℤ integer r +ℤ integer m ≡ integer l)
unfolding eval_div eval_mod
eval_div-eval_mod l r q h =
    let (m, e, nonzero) =
      int_op-follows div_u mod_u div_s mod_s (div_u-follows, div_s-follows) l r q h in
    let quotient : integer q ≡ div_ℤ (integer l) (integer r) = eval_operator-integer over l r q h in
    let remainder : integer m ≡ rem_ℤ (integer l) (integer r) =
      eval_operator-integer rest l r m e in
    (
      m,
      e,
      λ z. false≢true (sym nonzero ∙ ap is_zero z),
      rw (quotient, remainder) (div_ℤ-rem_ℤ (integer l) (integer r) nonzero),
    )
