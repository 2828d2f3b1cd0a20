-- ===== src/Layout/Valid.antt =====
-- src/runtime/layout.rs: which layouts `Layout::new` accepts, and what `union` and `align_shift`
-- give for valid ones.
use native.Mathlib.Nat.{mod_self, one-le-pow}
use native.Mathlib.Decide.{dec_le}
use roto.Prelude.{
  ℕ, zero, suc, ◌%◌, ◌^◌, ◌≤◌, ◌<◌, ◌≡◌, ◌↔◌, ◌⊎◌, refl, inl, inr, true, some, max, arith,
  next_multiple_of, usize_mod, lt→ltb, ap, >>=-eq-some,
}
use roto.Layout
use roto.Layout.{Layout, IsValid, IsPowerOfTwo, is_power_below, log_below, union, align_shift}
use roto.Layout.Multiple.{
  next_multiple_of_bounds, next_multiple_of_least, is_power_below_sound, is_power_below_complete,
  power-mod-power, two-pow-lt,
}

pub IsPowerOfTwo-pos : (n : ℕ) → IsPowerOfTwo n → 0 < n
IsPowerOfTwo-pos n (k, lt, p) = rw p (one-le-pow k 2 (omega arith))

max-cases : (a b : ℕ) → ((max a b ≡ a) × (b ≤ a)) ⊎ ((max a b ≡ b) × (a ≤ b))
max-cases a b = elim (dec_le a b) [ yes le ↦ inr (omega arith) | no gt ↦ inl (omega arith) ]

pub IsPowerOfTwo-max : (a b : ℕ) → IsPowerOfTwo a → IsPowerOfTwo b → IsPowerOfTwo (max a b)
IsPowerOfTwo-max a b p q = elim (max-cases a b) [ inl (e, _) ↦ rw e p | inr (e, _) ↦ rw e q ]

-- A type that is aligned to the larger of two powers of two is aligned to both.
pub max-mod : (a b : ℕ) → IsPowerOfTwo a → IsPowerOfTwo b → (max a b % a ≡ 0) × (max a b % b ≡ 0)
max-mod a b p q = elim (max-cases a b) [
  | inl (e, le) ↦ rw e (mod_self a, power-mod-power b a q p le)
  | inr (e, le) ↦ rw e (power-mod-power a b p q le, mod_self b)
]

new_inv :
    (size align : ℕ) (l : Layout)
    → Layout.new size align ≡ some l
    → (is_power_below 64 align ≡ true)
      × (size % align ≡ 0)
      × (l ≡ record { size = size; align = align })
unfolding Layout.new
new_inv size align l h = ground arith

new_accepts :
    (size align : ℕ)
    → is_power_below 64 align ≡ true
    → 0 < align
    → size % align ≡ 0
    → Layout.new size align ≡ some (record { size = size; align = align })
unfolding Layout.new
new_accepts size align power pos mult = ground arith

new_sound :
    (size align : ℕ) (l : Layout)
    → size < usize_mod
    → Layout.new size align ≡ some l
    → IsValid l × (l.size ≡ size) × (l.align ≡ align)
new_sound size align l fits h =
    let (power, mult, e) = new_inv size align l h in
    rw e (
      record { power = is_power_below_sound 64 align power; multiple = mult; fits = fits },
      refl,
      refl,
    )

pub new_valid : (l : Layout) → IsValid l → Layout.new l.size l.align ≡ some l
new_valid l v =
    let (k, lt, e) = v.power in
    new_accepts l.size l.align (rw e (is_power_below_complete 64 k lt))
      (IsPowerOfTwo-pos l.align v.power) v.multiple

-- `Layout::new` accepts exactly the sizes and alignments that the documentation asks for, and
-- keeps them.
pub new-eq-some_iff :
    (size align : ℕ) (l : Layout)
    → size < usize_mod
    → (Layout.new size align ≡ some l) ↔ (IsValid l × (l.size ≡ size) × (l.align ≡ align))
new-eq-some_iff size align l fits =
    (new_sound size align l fits, λ (v, p, q). rw (← p, ← q) (new_valid l v))

union_inv :
    (l other u : Layout)
    → union l other ≡ some u
    → (next_multiple_of (max l.size other.size) (max l.align other.align) ≡ some u.size)
      × (u.align ≡ max l.align other.align)
unfolding union
union_inv l other u h =
    let (size, p, q) =
      >>=-eq-some (next_multiple_of (max l.size other.size) (max l.align other.align)) _ h in
    ground arith

pub next_multiple_of-lt :
    (n m : ℕ) {r : ℕ} → n < usize_mod → next_multiple_of n m ≡ some r → r < usize_mod
next_multiple_of-lt n m h e = ground arith

-- The union of two valid layouts is valid, has room for both, is aligned for both, and is the
-- smallest such: no multiple of its alignment that is large enough for both is smaller.
pub union_lem :
    (l other u : Layout)
    → IsValid l
    → IsValid other
    → union l other ≡ some u
    → IsValid u
      × (l.size ≤ u.size)
      × (other.size ≤ u.size)
      × (u.align % l.align ≡ 0)
      × (u.align % other.align ≡ 0)
      × ((n : ℕ) → n % u.align ≡ 0 → l.size ≤ n → other.size ≤ n → u.size ≤ n)
union_lem l other u v w h =
    let (p, q) = union_inv l other u h in
    let (pos, le, lt, mult) =
      next_multiple_of_bounds (max l.size other.size) (max l.align other.align) p in
    let (ml, mo) = max-mod l.align other.align v.power w.power in
    (
      record {
        power = rw q (IsPowerOfTwo-max _ _ v.power w.power);
        multiple = rw q mult;
        fits =
            next_multiple_of-lt (max l.size other.size) (max l.align other.align) (omega arith) p;
      },
      omega arith,
      omega arith,
      rw q ml,
      rw q mo,
      λ n e a b.
          next_multiple_of_least (max l.size other.size) (max l.align other.align) n p (rw q at e)
            (omega arith),
    )

-- The order of the operands is of no account.
pub union_comm : (l other : Layout) → union l other ≡ union other l
unfolding union
union_comm l other =
    let p : max l.size other.size ≡ max other.size l.size = omega arith in
    let q : max l.align other.align ≡ max other.align l.align = omega arith in rw (p, q)

log_below_lem : (b k : ℕ) → k < b → log_below b (2 ^ k) ≡ k
unfolding log_below
log_below_lem zero k h = absurd (omega arith)
log_below_lem (suc b) k h = elim (dec_le b k) [
  | yes le ↦ let e : b ≡ k = omega arith in rw e (ground arith)
  | no gt ↦
      let up : 2 ^ k < 2 ^ b = two-pow-lt k b (omega arith) in
      rw (lt→ltb (2 ^ k) (2 ^ b) up) (log_below_lem b k (omega arith))
]

-- The alignment of a valid layout is 2 to the power of its shift.
pub align_shift_lem :
    (l : Layout) → IsValid l → (k : ℕ) × (align_shift l ≡ some k) × (l.align ≡ 2 ^ k)
unfolding align_shift
align_shift_lem l v =
    let (k, lt, e) = v.power in
    let pos = IsPowerOfTwo-pos l.align v.power in
    (k, rw (lt→ltb 0 l.align pos, e) (ap some (log_below_lem 64 k lt)), e)
