-- ===== src/Layout/Multiple.antt =====
-- `usize::next_multiple_of`, and powers of two as alignments (src/runtime/layout.rs uses both).
use native.Mathlib.Nat.{mul-mod_right, div-add-mod, mod-lt, dvd_of_mod-eq-zero, mod-eq-zero_of_dvd}
use native.Mathlib.Nat.{
  dvd_trans, mul-le-mul_left, pow-suc, pow-zero, pow-le-pow_right, one-le-pow, zero-add, mul-one,
  mul_assoc,
}
use native.Mathlib.Decide.{dec_le}
use roto.Prelude.{
  ℕ, zero, suc, ◌+◌, ◌-◌, ◌*◌, ◌/◌, ◌%◌, ◌^◌, ◌≤◌, ◌<◌, ◌≡◌, inl, inr, true, some, ◌==◌, arith,
  next_multiple_of, usize_mod, Bool-cases,
}
use roto.Layout.{is_power_below, IsPowerOfTwo}

-- Rounding up lands on a multiple.
rounded : (n m : ℕ) → 0 < m → n + (m - n % m) ≡ m * (n / m + 1)
rounded n m h = omega (arith, div-add-mod n m, mod-lt n {m = m} h)

rounded-mod : (n m : ℕ) → 0 < m → (n + (m - n % m)) % m ≡ 0
rounded-mod n m h = rw (rounded n m h) (mul-mod_right m (n / m + 1))

pub next_multiple_of_bounds :
    (n m : ℕ) {r : ℕ}
    → next_multiple_of n m ≡ some r
    → (0 < m) × (n ≤ r) × (r < n + m) × (r % m ≡ 0)
next_multiple_of_bounds n m h = ground (arith, rounded-mod n m, mod-lt n {m = m})

pub next_multiple_of_total :
    (n m : ℕ)
    → 0 < m
    → n + m ≤ usize_mod
    → n < usize_mod
    → (r : ℕ) × (next_multiple_of n m ≡ some r)
next_multiple_of_total n m pos h lt = elim (Bool-cases (n % m == 0)) [
  | inl e ↦ (n, ground arith)
  | inr e ↦ (n + (m - n % m), ground arith)
]

multiple-le : (n m k : ℕ) → 0 < m → k % m ≡ 0 → m * (n / m) < k → m * (n / m + 1) ≤ k
multiple-le n m k pos e lt = elim (dec_le (n / m + 1) (k / m)) [
  | yes p ↦ omega (arith, mul-le-mul_left m p, div-add-mod k m)
  | no p ↦
      let q : k / m ≤ n / m = omega arith in
      absurd (omega (arith, mul-le-mul_left m q, div-add-mod k m))
]

-- No smaller multiple is large enough.
pub next_multiple_of_least :
    (n m k : ℕ) {r : ℕ} → next_multiple_of n m ≡ some r → k % m ≡ 0 → n ≤ k → r ≤ k
next_multiple_of_least n m k h e le =
    ground (arith, multiple-le n m k, rounded n m, div-add-mod n m, mod-lt n {m = m})

-- A multiple is left as it is.
pub next_multiple_of_self : (n m : ℕ) → 0 < m → n % m ≡ 0 → next_multiple_of n m ≡ some n
next_multiple_of_self n m pos e = ground arith

pub is_power_below_sound : (b n : ℕ) → is_power_below b n ≡ true → (k : ℕ) × (k < b) × (n ≡ 2 ^ k)
unfolding is_power_below
is_power_below_sound zero n h = cc
is_power_below_sound (suc b) n h = elim (Bool-cases (n == 2 ^ b)) [
  | inl e ↦ (b, omega arith, ground arith)
  | inr e ↦ let (k, lt, p) = is_power_below_sound b n (rw e at h) in (k, omega arith, p)
]

pub is_power_below_complete : (b k : ℕ) → k < b → is_power_below b (2 ^ k) ≡ true
unfolding is_power_below
is_power_below_complete zero k h = absurd (omega arith)
is_power_below_complete (suc b) k h = elim (Bool-cases (k == b)) [
  | inl e ↦ let p : k ≡ b = ground arith in rw p (ground arith)
  | inr e ↦ ground (arith, is_power_below_complete b k (ground arith))
]

two-pow-add : (i d : ℕ) → 2 ^ (d + i) ≡ 2 ^ i * 2 ^ d
two-pow-add i zero = rw (zero-add i, pow-zero 2, mul-one)
two-pow-add i (suc d) =
    let e : suc d + i ≡ suc (d + i) = omega arith in
    rw (e, pow-suc 2 (d + i), two-pow-add i d, pow-suc 2 d) (mul_assoc (2 ^ i) (2 ^ d) 2)

pow-mod-pow : (i d : ℕ) → 2 ^ (d + i) % 2 ^ i ≡ 0
pow-mod-pow i d = rw (two-pow-add i d) (mul-mod_right (2 ^ i) (2 ^ d))

two-pow-le : (i j : ℕ) → 2 ^ i ≤ 2 ^ j → i ≤ j
two-pow-le i j h = elim (dec_le i j) [
  | yes le ↦ le
  | no gt ↦
      let up : 2 ^ suc j ≤ 2 ^ i = pow-le-pow_right (omega arith) (omega arith) in
      absurd (omega (arith, up, pow-suc 2 j, one-le-pow j 2 (omega arith)))
]

pub two-pow-lt : (i j : ℕ) → i < j → 2 ^ i < 2 ^ j
two-pow-lt i j h = elim (dec_le (2 ^ j) (2 ^ i)) [
  | yes le ↦ absurd (omega (arith, two-pow-le j i le))
  | no gt ↦ omega arith
]

-- Of two powers of two, the larger is a multiple of the smaller.
pub power-mod-power : (a b : ℕ) → IsPowerOfTwo a → IsPowerOfTwo b → a ≤ b → b % a ≡ 0
power-mod-power a b (i, _, p) (j, _, q) le =
    let h : i ≤ j = two-pow-le i j (rw (← p, ← q) le) in
    let e : j ≡ (j - i) + i = omega arith in rw (p, q, e) (pow-mod-pow i (j - i))

pub mod_trans : (x a b : ℕ) → b % a ≡ 0 → x % b ≡ 0 → x % a ≡ 0
mod_trans x a b p q =
    mod-eq-zero_of_dvd a (dvd_trans a (dvd_of_mod-eq-zero a p) (dvd_of_mod-eq-zero b q))
