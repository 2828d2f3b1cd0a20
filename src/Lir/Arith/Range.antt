-- ===== src/Lir/Arith/Range.antt =====
-- src/lir/eval.rs: the arithmetic and the ranges of the types.
use roto.Prelude.{
  ℕ, suc, ◌^◌, ◌<◌, ◌≡◌, refl, Bool, true, false, Option, some, none, if◌then◌else◌, ◌>>=◌,
  >>=-eq-some, some_inj, arith, Bool-cases, inl, inr, ltb→lt,
}
use roto.Prelude.Int.{ℤ, pos, negsuc, ◌+ℤ◌, ◌-ℤ◌, ◌*ℤ◌, div_ℤ, rem_ℤ, fits_ℤ, IsSigned}
use native.Mathlib.Nat.{div-le_self, mod-le}
use roto.Lir.Value.{IrValue, IsValue, variant}
use roto.Lir.Arith.{
  is_zero, flip_sign, UnsignedOp, SignedOp, within, int_op, add_u, sub_u, mul_u, div_u, mod_u,
  add_s, sub_s, mul_s, div_s, mod_s, eval_add, eval_sub, eval_mul, eval_div, eval_mod, eval_negate,
}

-- An operator whose results are in range, for operands that are.
abbrev pub KeepsUnsigned : UnsignedOp → Type 0
KeepsUnsigned u = (bound l r n : ℕ) → l < bound → r < bound → u bound l r ≡ some n → n < bound

abbrev pub KeepsSigned : SignedOp → Type 0
KeepsSigned s =
    (half : ℕ) (l r z : ℤ)
    → IsSigned half l
    → IsSigned half r
    → s half l r ≡ some z
    → IsSigned half z

fits_ℤ-IsSigned : (half : ℕ) (z : ℤ) → fits_ℤ half z ≡ true → IsSigned half z
fits_ℤ-IsSigned half (pos n) h = ltb→lt n half h
fits_ℤ-IsSigned half (negsuc n) h = ltb→lt n half h

pub within-IsSigned : (half : ℕ) (z z' : ℤ) → within half z ≡ some z' → IsSigned half z' × (z' ≡ z)
within-IsSigned half z z' h = elim (Bool-cases (fits_ℤ half z)) [
  | inl t ↦ let e : z ≡ z' = some_inj (rw t at h) in rw (← e) (fits_ℤ-IsSigned half z t, refl)
  | inr f ↦ let bad : none ≡ some z' = rw f at h in cc
]

-- The result of an operation on words of one type has that type, and is in its range.
int_op-IsValue :
    (u : UnsignedOp) (s : SignedOp)
    → KeepsUnsigned u
    → KeepsSigned s
    → (l r v : IrValue) → IsValue l
    → IsValue r
    → int_op u s l r ≡ some v
    → IsValue v × (variant v ≡ variant l) × (variant v ≡ variant r)
unfolding int_op
int_op-IsValue u s ku ks (IrValue.u8 l) (IrValue.u8 r) v hl hr h =
    let (n, e, q) = >>=-eq-some (u (2 ^ 8) l r) _ h in
    let same : IrValue.u8 n ≡ v = some_inj q in rw (← same) (ku (2 ^ 8) l r n hl hr e, refl, refl)
int_op-IsValue u s ku ks (IrValue.u16 l) (IrValue.u16 r) v hl hr h =
    let (n, e, q) = >>=-eq-some (u (2 ^ 16) l r) _ h in
    let same : IrValue.u16 n ≡ v = some_inj q in rw (← same) (ku (2 ^ 16) l r n hl hr e, refl, refl)
int_op-IsValue u s ku ks (IrValue.u32 l) (IrValue.u32 r) v hl hr h =
    let (n, e, q) = >>=-eq-some (u (2 ^ 32) l r) _ h in
    let same : IrValue.u32 n ≡ v = some_inj q in rw (← same) (ku (2 ^ 32) l r n hl hr e, refl, refl)
int_op-IsValue u s ku ks (IrValue.u64 l) (IrValue.u64 r) v hl hr h =
    let (n, e, q) = >>=-eq-some (u (2 ^ 64) l r) _ h in
    let same : IrValue.u64 n ≡ v = some_inj q in rw (← same) (ku (2 ^ 64) l r n hl hr e, refl, refl)
int_op-IsValue u s ku ks (IrValue.i8 l) (IrValue.i8 r) v hl hr h =
    let (n, e, q) = >>=-eq-some (s (2 ^ 7) l r) _ h in
    let same : IrValue.i8 n ≡ v = some_inj q in rw (← same) (ks (2 ^ 7) l r n hl hr e, refl, refl)
int_op-IsValue u s ku ks (IrValue.i16 l) (IrValue.i16 r) v hl hr h =
    let (n, e, q) = >>=-eq-some (s (2 ^ 15) l r) _ h in
    let same : IrValue.i16 n ≡ v = some_inj q in rw (← same) (ks (2 ^ 15) l r n hl hr e, refl, refl)
int_op-IsValue u s ku ks (IrValue.i32 l) (IrValue.i32 r) v hl hr h =
    let (n, e, q) = >>=-eq-some (s (2 ^ 31) l r) _ h in
    let same : IrValue.i32 n ≡ v = some_inj q in rw (← same) (ks (2 ^ 31) l r n hl hr e, refl, refl)
int_op-IsValue u s ku ks (IrValue.i64 l) (IrValue.i64 r) v hl hr h =
    let (n, e, q) = >>=-eq-some (s (2 ^ 63) l r) _ h in
    let same : IrValue.i64 n ≡ v = some_inj q in rw (← same) (ks (2 ^ 63) l r n hl hr e, refl, refl)
int_op-IsValue u s ku ks _ _ v hl hr h = cc

add_u-keeps : KeepsUnsigned add_u
add_u-keeps bound l r n hl hr h = ground arith

sub_u-keeps : KeepsUnsigned sub_u
sub_u-keeps bound l r n hl hr h = ground arith

mul_u-keeps : KeepsUnsigned mul_u
mul_u-keeps bound l r n hl hr h = ground arith

div_u-keeps : KeepsUnsigned div_u
div_u-keeps bound l r n hl hr h = ground (arith, div-le_self l r)

mod_u-keeps : KeepsUnsigned mod_u
mod_u-keeps bound l r n hl hr h = ground (arith, mod-le l r)

add_s-keeps : KeepsSigned add_s
add_s-keeps half l r z hl hr h = (within-IsSigned half (l +ℤ r) z h).0

sub_s-keeps : KeepsSigned sub_s
sub_s-keeps half l r z hl hr h = (within-IsSigned half (l -ℤ r) z h).0

mul_s-keeps : KeepsSigned mul_s
mul_s-keeps half l r z hl hr h = (within-IsSigned half (l *ℤ r) z h).0

pub nonzero_of {ℓ} :
    {A : Type ℓ} (b : Bool) (o : Option A) {a : A} → (if b then none else o) ≡ some a → o ≡ some a
nonzero_of true o h = cc
nonzero_of false o h = h

div_s-keeps : KeepsSigned div_s
div_s-keeps half l r z hl hr h =
    (within-IsSigned half (div_ℤ l r) z (nonzero_of (is_zero r) (within half (div_ℤ l r)) h)).0

rem_ℤ-IsSigned : (half : ℕ) (l r : ℤ) → IsSigned half l → IsSigned half (rem_ℤ l r)
rem_ℤ-IsSigned half (pos a) (pos b) h = omega (arith, mod-le a b)
rem_ℤ-IsSigned half (pos a) (negsuc b) h = omega (arith, mod-le a (suc b))
rem_ℤ-IsSigned half (negsuc a) (pos b) h = ground (arith, mod-le (suc a) b)
rem_ℤ-IsSigned half (negsuc a) (negsuc b) h = ground (arith, mod-le (suc a) (suc b))

mod_s-keeps : KeepsSigned mod_s
mod_s-keeps half l r z hl hr h =
    let (_, _, q) =
      >>=-eq-some (within half (div_ℤ l r)) _
        (nonzero_of (is_zero r) (within half (div_ℤ l r) >>= λ _. some (rem_ℤ l r)) h) in
    rw (← some_inj q) (rem_ℤ-IsSigned half l r hl)

-- The five operators of the evaluator.
pub data Operator : Type 0 where
  plus minus times over rest : Operator

abbrev pub eval_operator : Operator → IrValue → IrValue → Option IrValue
eval_operator plus = eval_add
eval_operator minus = eval_sub
eval_operator times = eval_mul
eval_operator over = eval_div
eval_operator rest = eval_mod

-- Integer arithmetic panics or gives a value of the type that both operands have, in the range of
-- that type: it never wraps, and never mixes types.
pub eval_operator-IsValue :
    (o : Operator) (l r v : IrValue)
    → IsValue l
    → IsValue r
    → eval_operator o l r ≡ some v
    → IsValue v × (variant v ≡ variant l) × (variant v ≡ variant r)
unfolding eval_add eval_sub eval_mul eval_div eval_mod
eval_operator-IsValue plus l r v = int_op-IsValue add_u add_s add_u-keeps add_s-keeps l r v
eval_operator-IsValue minus l r v = int_op-IsValue sub_u sub_s sub_u-keeps sub_s-keeps l r v
eval_operator-IsValue times l r v = int_op-IsValue mul_u mul_s mul_u-keeps mul_s-keeps l r v
eval_operator-IsValue over l r v = int_op-IsValue div_u div_s div_u-keeps div_s-keeps l r v
eval_operator-IsValue rest l r v = int_op-IsValue mod_u mod_s mod_u-keeps mod_s-keeps l r v

-- Negation keeps the type and the range.
pub eval_negate-IsValue :
    (v w : IrValue) → IsValue v → eval_negate v ≡ some w → IsValue w × (variant w ≡ variant v)
unfolding eval_negate
eval_negate-IsValue (IrValue.i8 x) w h e =
    let (z, p, q) = >>=-eq-some (within (2 ^ 7) (pos 0 -ℤ x)) _ e in
    let same : IrValue.i8 z ≡ w = some_inj q in
    rw (← same) ((within-IsSigned (2 ^ 7) (pos 0 -ℤ x) z p).0, refl)
eval_negate-IsValue (IrValue.i16 x) w h e =
    let (z, p, q) = >>=-eq-some (within (2 ^ 15) (pos 0 -ℤ x)) _ e in
    let same : IrValue.i16 z ≡ w = some_inj q in
    rw (← same) ((within-IsSigned (2 ^ 15) (pos 0 -ℤ x) z p).0, refl)
eval_negate-IsValue (IrValue.i32 x) w h e =
    let (z, p, q) = >>=-eq-some (within (2 ^ 31) (pos 0 -ℤ x)) _ e in
    let same : IrValue.i32 z ≡ w = some_inj q in
    rw (← same) ((within-IsSigned (2 ^ 31) (pos 0 -ℤ x) z p).0, refl)
eval_negate-IsValue (IrValue.i64 x) w h e =
    let (z, p, q) = >>=-eq-some (within (2 ^ 63) (pos 0 -ℤ x)) _ e in
    let same : IrValue.i64 z ≡ w = some_inj q in
    rw (← same) ((within-IsSigned (2 ^ 63) (pos 0 -ℤ x) z p).0, refl)
eval_negate-IsValue (IrValue.f32 x) w h e =
    let same : IrValue.f32 (flip_sign (2 ^ 31) x) ≡ w = some_inj e in
    rw (← same) (ground arith, refl)
eval_negate-IsValue (IrValue.f64 x) w h e =
    let same : IrValue.f64 (flip_sign (2 ^ 63) x) ≡ w = some_inj e in
    rw (← same) (ground arith, refl)
eval_negate-IsValue _ w h e = cc
