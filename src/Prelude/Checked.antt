-- ===== src/Prelude/Checked.antt =====
-- Code that may panic, as a computation into `Option`: `none` is a panic (a failed `assert!`, an
-- index out of range, an arithmetic overflow with overflow checks on, an `unwrap` of `None`).
use Prim.Native.Nat.{ℕ, ◌+◌, ◌-◌, ◌%◌, ◌^◌}
use mathlib.Core.Path.{◌≡◌, refl}
use mathlib.Core.Bool.{Bool, true, false}
use mathlib.Core.Option.{Option, none, some}
use roto.Prelude.Tests.{ltb, ◌==◌, if◌then◌else◌}

infixl 5 ◌>>=◌ ◌>>◌
abbrev pub ◌>>=◌ {ℓ κ} : {A : Type ℓ} {B : Type κ} → Option A → (A → Option B) → Option B
none >>= f = none
some a >>= f = f a

abbrev pub ◌>>◌ {ℓ} : {B : Type ℓ} → Option (Unit {0}) → Option B → Option B
m >> k = m >>= λ _. k

-- `assert!`
abbrev pub assert : Bool → Option (Unit {0})
assert true = some tt
assert false = none

-- `usize` has 64 bits on the targets that the code generator supports.
abbrev pub usize_mod : ℕ
usize_mod = 2 ^ 64

-- `a + b` on `usize`
abbrev pub add_usize : ℕ → ℕ → Option ℕ
add_usize a b = if ltb (a + b) usize_mod then some (a + b) else none

-- `usize::next_multiple_of`, which panics at 0 and on overflow
abbrev pub next_multiple_of : ℕ → ℕ → Option ℕ
next_multiple_of n m =
    if m == 0 then none else if n % m == 0 then some n else add_usize n (m - n % m)

pub >>=-eq-some {ℓ κ} :
    {A : Type ℓ} {B : Type κ} (m : Option A) (f : A → Option B) {b : B}
    → (m >>= f) ≡ some b
    → (a : A) × (m ≡ some a) × (f a ≡ some b)
>>=-eq-some (some a) f h = (a, refl, h)
>>=-eq-some none f h = cc

pub some_inj {ℓ} : {A : Type ℓ} {a b : A} → some a ≡ some b → a ≡ b
some_inj h = cc
