-- ===== src/Lir/Arith.antt =====
-- src/lir/eval.rs: the arithmetic and the comparisons of the evaluator. Rust's operators panic on
-- overflow (overflow checks are on where the evaluator runs, in tests) and on division by zero.
pub mod Range
pub mod Division
pub mod Compare
mod Tests
use roto.Prelude.{
  ℕ, suc, ◌+◌, ◌-◌, ◌*◌, ◌/◌, ◌%◌, ◌^◌, Bool, true, false, not, Option, some, none, ltb, leb, ◌==◌,
  ◌&&◌, if◌then◌else◌, ◌>>=◌,
}
use roto.Prelude.Int.{
  ℤ, pos, negsuc, ◌+ℤ◌, ◌-ℤ◌, ◌*ℤ◌, ltb_ℤ, leb_ℤ, div_ℤ, rem_ℤ, fits_ℤ, sub_ℕ, pos_part, neg_part,
}
use roto.Lir.Value.{IrValue, eq, as_u64, as_i64}
use roto.Lir.Program.{IntCmp, FloatCmp}

-- An operator on `uN` below a bound, and on `iN` with the given half.
abbrev pub UnsignedOp : Type 0
UnsignedOp = ℕ → ℕ → ℕ → Option ℕ

abbrev pub SignedOp : Type 0
SignedOp = ℕ → ℤ → ℤ → Option ℤ

abbrev pub below : ℕ → ℕ → Option ℕ
below bound n = if ltb n bound then some n else none

abbrev pub within : ℕ → ℤ → Option ℤ
within half z = if fits_ℤ half z then some z else none

-- The arms that `Add`, `Sub`, `Mul`, `Div` and `Mod` share: both operands of one integer type.
unfoldable pub int_op : UnsignedOp → SignedOp → IrValue → IrValue → Option IrValue
int_op u s (IrValue.u8 l) (IrValue.u8 r) = do some (IrValue.u8 (← u (2 ^ 8) l r))
int_op u s (IrValue.u16 l) (IrValue.u16 r) = do some (IrValue.u16 (← u (2 ^ 16) l r))
int_op u s (IrValue.u32 l) (IrValue.u32 r) = do some (IrValue.u32 (← u (2 ^ 32) l r))
int_op u s (IrValue.u64 l) (IrValue.u64 r) = do some (IrValue.u64 (← u (2 ^ 64) l r))
int_op u s (IrValue.i8 l) (IrValue.i8 r) = do some (IrValue.i8 (← s (2 ^ 7) l r))
int_op u s (IrValue.i16 l) (IrValue.i16 r) = do some (IrValue.i16 (← s (2 ^ 15) l r))
int_op u s (IrValue.i32 l) (IrValue.i32 r) = do some (IrValue.i32 (← s (2 ^ 31) l r))
int_op u s (IrValue.i64 l) (IrValue.i64 r) = do some (IrValue.i64 (← s (2 ^ 63) l r))
int_op u s _ _ = none

abbrev pub add_u : UnsignedOp
add_u bound l r = below bound (l + r)

abbrev pub sub_u : UnsignedOp
sub_u bound l r = if leb r l then some (l - r) else none

abbrev pub mul_u : UnsignedOp
mul_u bound l r = below bound (l * r)

abbrev pub div_u : UnsignedOp
div_u bound l r = if r == 0 then none else some (l / r)

abbrev pub mod_u : UnsignedOp
mod_u bound l r = if r == 0 then none else some (l % r)

abbrev pub add_s : SignedOp
add_s half l r = within half (l +ℤ r)

abbrev pub sub_s : SignedOp
sub_s half l r = within half (l -ℤ r)

abbrev pub mul_s : SignedOp
mul_s half l r = within half (l *ℤ r)

abbrev pub is_zero : ℤ → Bool
is_zero z = pos_part z == neg_part z

-- `iN::MIN / -1` overflows.
abbrev pub div_s : SignedOp
div_s half l r = if is_zero r then none else within half (div_ℤ l r)

-- `iN::MIN % -1` panics, as the quotient overflows.
abbrev pub mod_s : SignedOp
mod_s half l r = if is_zero r then none else (within half (div_ℤ l r) >>= λ _. some (rem_ℤ l r))

-- `Instruction::Add` and its like.
unfoldable pub eval_add : IrValue → IrValue → Option IrValue
unfolding int_op
eval_add = int_op add_u add_s

pub eval_sub : IrValue → IrValue → Option IrValue
unfolding int_op
eval_sub = int_op sub_u sub_s

pub eval_mul : IrValue → IrValue → Option IrValue
unfolding int_op
eval_mul = int_op mul_u mul_s

pub eval_div : IrValue → IrValue → Option IrValue
unfolding int_op
eval_div = int_op div_u div_s

pub eval_mod : IrValue → IrValue → Option IrValue
unfolding int_op
eval_mod = int_op mod_u mod_s

-- `Instruction::IntCmp`: the words of both operands, and their order.
abbrev unsigned_cmp : (ℕ → ℕ → Bool) → IrValue → IrValue → Option Bool
unsigned_cmp f l r = do some (f (← as_u64 l) (← as_u64 r))

abbrev signed_cmp : (ℤ → ℤ → Bool) → IrValue → IrValue → Option Bool
signed_cmp f l r = do some (f (← as_i64 l) (← as_i64 r))

pub eval_int_cmp : IntCmp → IrValue → IrValue → Option Bool
eval_int_cmp IntCmp.eq l r = eq l r
eval_int_cmp IntCmp.ne l r = do some (not (← eq l r))
eval_int_cmp IntCmp.ult l r = unsigned_cmp ltb l r
eval_int_cmp IntCmp.ule l r = unsigned_cmp leb l r
eval_int_cmp IntCmp.ugt l r = unsigned_cmp (λ a b. ltb b a) l r
eval_int_cmp IntCmp.uge l r = unsigned_cmp (λ a b. leb b a) l r
eval_int_cmp IntCmp.slt l r = signed_cmp ltb_ℤ l r
eval_int_cmp IntCmp.sle l r = signed_cmp leb_ℤ l r
eval_int_cmp IntCmp.sgt l r = signed_cmp (λ a b. ltb_ℤ b a) l r
eval_int_cmp IntCmp.sge l r = signed_cmp (λ a b. leb_ℤ b a) l r

-- The floating point unit, which is not part of the program: `f32` as `f64`, division, and order.
pub record Floats : Type 0 where
  pub widen : ℕ → ℕ
  pub div_32 : ℕ → ℕ → ℕ
  pub div_64 : ℕ → ℕ → ℕ
  pub lt : ℕ → ℕ → Bool
  pub le : ℕ → ℕ → Bool

-- `-x` on a float flips the bit of the sign.
abbrev pub flip_sign : ℕ → ℕ → ℕ
flip_sign half x = if ltb x half then x + half else x - half

-- `Instruction::Negate`. `-iN::MIN` overflows.
pub eval_negate : IrValue → Option IrValue
eval_negate (IrValue.i8 x) = do some (IrValue.i8 (← within (2 ^ 7) (pos 0 -ℤ x)))
eval_negate (IrValue.i16 x) = do some (IrValue.i16 (← within (2 ^ 15) (pos 0 -ℤ x)))
eval_negate (IrValue.i32 x) = do some (IrValue.i32 (← within (2 ^ 31) (pos 0 -ℤ x)))
eval_negate (IrValue.i64 x) = do some (IrValue.i64 (← within (2 ^ 63) (pos 0 -ℤ x)))
eval_negate (IrValue.f32 x) = some (IrValue.f32 (flip_sign (2 ^ 31) x))
eval_negate (IrValue.f64 x) = some (IrValue.f64 (flip_sign (2 ^ 63) x))
eval_negate _ = none

module _ (fp : Floats) where
  -- `IrValue::as_f64`
  pub as_f64 : IrValue → Option ℕ
  as_f64 (IrValue.f32 x) = some (fp.widen x)
  as_f64 (IrValue.f64 x) = some x
  as_f64 _ = none

  abbrev float_cmp : (ℕ → ℕ → Bool) → IrValue → IrValue → Option Bool
  float_cmp f l r = do some (f (← as_f64 l) (← as_f64 r))

  -- `Instruction::FloatCmp`. Equality goes by `IrValue::eq`, which panics on floats.
  pub eval_float_cmp : FloatCmp → IrValue → IrValue → Option Bool
  eval_float_cmp FloatCmp.eq l r = eq l r
  eval_float_cmp FloatCmp.ne l r = do some (not (← eq l r))
  eval_float_cmp FloatCmp.lt l r = float_cmp fp.lt l r
  eval_float_cmp FloatCmp.le l r = float_cmp fp.le l r
  eval_float_cmp FloatCmp.gt l r = float_cmp (λ a b. fp.lt b a) l r
  eval_float_cmp FloatCmp.ge l r = float_cmp (λ a b. fp.le b a) l r

  -- `Instruction::FDiv`
  pub eval_fdiv : IrValue → IrValue → Option IrValue
  eval_fdiv (IrValue.f32 l) (IrValue.f32 r) = some (IrValue.f32 (fp.div_32 l r))
  eval_fdiv (IrValue.f64 l) (IrValue.f64 r) = some (IrValue.f64 (fp.div_64 l r))
  eval_fdiv _ _ = none
