-- ===== src/Prelude/Bytes.antt =====
-- `to_ne_bytes` and `from_ne_bytes` of Rust's integers: the bytes of a word in the byte order of
-- the machine, which is a parameter.
use Prim.Native.Nat.{ℕ, zero, suc, ◌+◌, ◌*◌, ◌/◌, ◌%◌, ◌^◌, ◌<◌}
use mathlib.Core.Path.{◌≡◌, refl, ap, ◌∙◌}
use mathlib.Core.List.{List, [], ◌∷◌, ◌++◌, reverse, reverse-append, reverse-reverse}
use native.Mathlib.Nat.{pow-suc, pow-zero}
use native.Mathlib.Omega.{arith}
use roto.Prelude.Lists.{length, length-append, All}

pub data Endian : Type 0 where
  little big : Endian

abbrev pub IsByte : ℕ → Type 0
IsByte b = b < 256

-- The bytes of a word of so many bytes, the least significant first.
le_bytes : ℕ → ℕ → List ℕ
le_bytes zero n = []
le_bytes (suc k) n = n % 256 ∷ le_bytes k (n / 256)

from_le_bytes : List ℕ → ℕ
from_le_bytes [] = 0
from_le_bytes (b ∷ bs) = b + 256 * from_le_bytes bs

unfoldable pub to_ne_bytes : Endian → ℕ → ℕ → List ℕ
unfolding le_bytes
to_ne_bytes little k n = le_bytes k n
to_ne_bytes big k n = reverse (le_bytes k n)

unfoldable pub from_ne_bytes : Endian → List ℕ → ℕ
unfolding from_le_bytes
from_ne_bytes little bs = from_le_bytes bs
from_ne_bytes big bs = from_le_bytes (reverse bs)

length-le_bytes : (k n : ℕ) → length (le_bytes k n) ≡ k
unfolding le_bytes
length-le_bytes zero n = refl
length-le_bytes (suc k) n = ap suc (length-le_bytes k (n / 256))

from_le_bytes-le_bytes : (k n : ℕ) → n < 256 ^ k → from_le_bytes (le_bytes k n) ≡ n
unfolding le_bytes from_le_bytes
from_le_bytes-le_bytes zero n h = omega (arith, pow-zero 256)
from_le_bytes-le_bytes (suc k) n h =
    omega (arith, from_le_bytes-le_bytes k (n / 256) (omega (arith, pow-suc 256 k)))

le_bytes-from_le_bytes :
    (bs : List ℕ) → All IsByte bs → le_bytes (length bs) (from_le_bytes bs) ≡ bs
unfolding le_bytes from_le_bytes
le_bytes-from_le_bytes [] h = refl
le_bytes-from_le_bytes (b ∷ bs) (h, hs) =
    let p : (b + 256 * from_le_bytes bs) % 256 ≡ b = omega arith in
    let q : (b + 256 * from_le_bytes bs) / 256 ≡ from_le_bytes bs = omega arith in
    rw (p, q, le_bytes-from_le_bytes bs hs)

from_le_bytes-lt : (bs : List ℕ) → All IsByte bs → from_le_bytes bs < 256 ^ length bs
unfolding from_le_bytes
from_le_bytes-lt [] h = omega (arith, pow-zero 256)
from_le_bytes-lt (b ∷ bs) (h, hs) = omega (arith, from_le_bytes-lt bs hs, pow-suc 256 (length bs))

module _ {ℓ} {A : Type ℓ} where
  length-reverse : (xs : List A) → length (reverse xs) ≡ length xs
  length-reverse [] = refl
  length-reverse (x ∷ xs) =
      ap length (reverse-append (x ∷ []) xs)
      ∙ omega (arith, length-append (reverse xs) (x ∷ []), length-reverse xs)

  All-append {κ} : (P : A → Type κ) (xs ys : List A) → All P xs → All P ys → All P (xs ++ ys)
  All-append P [] ys h k = k
  All-append P (x ∷ xs) ys (h, hs) k = (h, All-append P xs ys hs k)

  All-reverse {κ} : (P : A → Type κ) (xs : List A) → All P xs → All P (reverse xs)
  All-reverse P [] h = h
  All-reverse P (x ∷ xs) (h, hs) =
      rw (reverse-append (x ∷ []) xs)
        (All-append P (reverse xs) (x ∷ []) (All-reverse P xs hs) (h, tt))

pub length-to_ne_bytes : (e : Endian) (k n : ℕ) → length (to_ne_bytes e k n) ≡ k
unfolding to_ne_bytes
length-to_ne_bytes little k n = length-le_bytes k n
length-to_ne_bytes big k n = length-reverse (le_bytes k n) ∙ length-le_bytes k n

pub from_ne_bytes-to_ne_bytes :
    (e : Endian) (k n : ℕ) → n < 256 ^ k → from_ne_bytes e (to_ne_bytes e k n) ≡ n
unfolding to_ne_bytes from_ne_bytes
from_ne_bytes-to_ne_bytes little k n h = from_le_bytes-le_bytes k n h
from_ne_bytes-to_ne_bytes big k n h =
    ap from_le_bytes (reverse-reverse (le_bytes k n)) ∙ from_le_bytes-le_bytes k n h

pub to_ne_bytes-from_ne_bytes :
    (e : Endian) (k : ℕ) (bs : List ℕ)
    → All IsByte bs
    → length bs ≡ k
    → to_ne_bytes e k (from_ne_bytes e bs) ≡ bs
unfolding to_ne_bytes from_ne_bytes
to_ne_bytes-from_ne_bytes little k bs h l = rw (← l) (le_bytes-from_le_bytes bs h)
to_ne_bytes-from_ne_bytes big k bs h l =
    rw (← l, ← length-reverse bs)
      (ap reverse (le_bytes-from_le_bytes (reverse bs) (All-reverse IsByte bs h))
        ∙ reverse-reverse bs)

pub from_ne_bytes-lt :
    (e : Endian) (k : ℕ) (bs : List ℕ)
    → All IsByte bs
    → length bs ≡ k
    → from_ne_bytes e bs < 256 ^ k
unfolding from_ne_bytes
from_ne_bytes-lt little k bs h l = rw (← l) (from_le_bytes-lt bs h)
from_ne_bytes-lt big k bs h l =
    rw (← l, ← length-reverse bs) (from_le_bytes-lt (reverse bs) (All-reverse IsByte bs h))
