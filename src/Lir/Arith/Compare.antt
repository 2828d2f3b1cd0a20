-- ===== src/Lir/Arith/Compare.antt =====
-- src/lir/eval.rs: integer comparisons and the order of the integers, and the comparison of floats for
-- equality.
use roto.Prelude.{
  ℕ, ◌+◌, ◌<◌, ◌≡◌, ◌≢◌, ◌↔◌, inr, refl, Bool, true, false, not, some, none, ◌>>=◌, >>=-eq-some,
  some_inj, arith, ltb, leb,
}
use roto.Prelude.Int.{ℤ, pos, ◌≤ℤ◌, ltb_ℤ, leb_ℤ, pos_part, neg_part}
use roto.Lir.Value.{IrValue, eq, as_u64, as_i64, integer}
use roto.Lir.Value.Access.{eq_lem, as_u64-integer, as_i64-integer}
use roto.Lir.Program.{IntCmp, FloatCmp}
use roto.Lir.Arith.{Floats, eval_int_cmp, eval_float_cmp}

infix 50 ◌<ℤ◌
abbrev pub ◌<ℤ◌ : ℤ → ℤ → Type 0
a <ℤ b = pos_part a + neg_part b < pos_part b + neg_part a

-- What a comparison should find out.
abbrev pub Holds : IntCmp → IrValue → IrValue → Type 0
Holds IntCmp.eq l r = l ≡ r
Holds IntCmp.ne l r = l ≢ r
Holds IntCmp.ult l r = integer l <ℤ integer r
Holds IntCmp.ule l r = integer l ≤ℤ integer r
Holds IntCmp.ugt l r = integer r <ℤ integer l
Holds IntCmp.uge l r = integer r ≤ℤ integer l
Holds IntCmp.slt l r = integer l <ℤ integer r
Holds IntCmp.sle l r = integer l ≤ℤ integer r
Holds IntCmp.sgt l r = integer r <ℤ integer l
Holds IntCmp.sge l r = integer r ≤ℤ integer l

unsigned_sound :
    (f : ℕ → ℕ → Bool) (R : ℤ → ℤ → Type 0)
    → ((a b : ℕ) → (f a b ≡ true) ↔ R (pos a) (pos b))
    → (l r : IrValue) (b : Bool) → (as_u64 l >>= λ x. as_u64 r >>= λ y. some (f x y)) ≡ some b
    → (b ≡ true) ↔ R (integer l) (integer r)
unsigned_sound f R h l r b e =
    let (x, p, q) = >>=-eq-some (as_u64 l) _ e in
    let (y, p', q') = >>=-eq-some (as_u64 r) _ q in
    rw (as_u64-integer l x p, as_u64-integer r y p', ← some_inj q') (h x y)

signed_sound :
    (f : ℤ → ℤ → Bool) (R : ℤ → ℤ → Type 0)
    → ((a b : ℤ) → (f a b ≡ true) ↔ R a b)
    → (l r : IrValue) (b : Bool) → (as_i64 l >>= λ x. as_i64 r >>= λ y. some (f x y)) ≡ some b
    → (b ≡ true) ↔ R (integer l) (integer r)
signed_sound f R h l r b e =
    let (x, p, q) = >>=-eq-some (as_i64 l) _ e in
    let (y, p', q') = >>=-eq-some (as_i64 r) _ q in
    rw (as_i64-integer l x p, as_i64-integer r y p', ← some_inj q') (h x y)

not_iff {ℓ} : {A : Type ℓ} (x : Bool) → (x ≡ true) ↔ A → (not x ≡ true) ↔ ¬ A
not_iff true h = (λ e. cc, λ no. absurd (no (h.0 refl)))
not_iff false h = (λ e a. let bad : false ≡ true = h.1 a in cc, λ _. refl)

-- A comparison panics or tells whether the relation holds between its operands: equality of the
-- values for `Eq` and `Ne`, and the order of the integers that they stand for else.
pub eval_int_cmp_sound :
    (c : IntCmp) (l r : IrValue) (b : Bool) → eval_int_cmp c l r ≡ some b → (b ≡ true) ↔ Holds c l r
unfolding eval_int_cmp
eval_int_cmp_sound IntCmp.eq l r b h = (eq_lem l r).1 b h
eval_int_cmp_sound IntCmp.ne l r b h =
    let (x, p, q) = >>=-eq-some (eq l r) _ h in rw (← some_inj q) (not_iff x ((eq_lem l r).1 x p))
eval_int_cmp_sound IntCmp.ult l r b h = unsigned_sound ltb ◌<ℤ◌ (λ x y. ground arith) l r b h
eval_int_cmp_sound IntCmp.ule l r b h = unsigned_sound leb ◌≤ℤ◌ (λ x y. ground arith) l r b h
eval_int_cmp_sound IntCmp.ugt l r b h =
    unsigned_sound (λ x y. ltb y x) (λ x y. y <ℤ x) (λ x y. ground arith) l r b h
eval_int_cmp_sound IntCmp.uge l r b h =
    unsigned_sound (λ x y. leb y x) (λ x y. y ≤ℤ x) (λ x y. ground arith) l r b h
eval_int_cmp_sound IntCmp.slt l r b h = signed_sound ltb_ℤ ◌<ℤ◌ (λ x y. ground arith) l r b h
eval_int_cmp_sound IntCmp.sle l r b h = signed_sound leb_ℤ ◌≤ℤ◌ (λ x y. ground arith) l r b h
eval_int_cmp_sound IntCmp.sgt l r b h =
    signed_sound (λ x y. ltb_ℤ y x) (λ x y. y <ℤ x) (λ x y. ground arith) l r b h
eval_int_cmp_sound IntCmp.sge l r b h =
    signed_sound (λ x y. leb_ℤ y x) (λ x y. y ≤ℤ x) (λ x y. ground arith) l r b h

-- `FloatCmp::Eq` and `FloatCmp::Ne` panic on every pair of floats.
pub eval_float_cmp-none :
    (fp : Floats) (a b : ℕ)
    → (eval_float_cmp fp FloatCmp.eq (IrValue.f32 a) (IrValue.f32 b) ≡ none)
      × (eval_float_cmp fp FloatCmp.ne (IrValue.f32 a) (IrValue.f32 b) ≡ none)
      × (eval_float_cmp fp FloatCmp.eq (IrValue.f64 a) (IrValue.f64 b) ≡ none)
      × (eval_float_cmp fp FloatCmp.ne (IrValue.f64 a) (IrValue.f64 b) ≡ none)
unfolding eval_float_cmp
eval_float_cmp-none fp a b =
    let p : eq (IrValue.f32 a) (IrValue.f32 b) ≡ none = ((eq_lem _ _).0).1 (inr refl) in
    let q : eq (IrValue.f64 a) (IrValue.f64 b) ≡ none = ((eq_lem _ _).0).1 (inr refl) in
    (p, rw p, q, rw q)
