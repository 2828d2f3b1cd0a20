-- ===== src/Lir/Value/RoundTrip.antt =====
-- src/lir/value.rs: values and their bytes.
use roto.Prelude.{
  ℕ, ◌<◌, ◌^◌, ◌≡◌, refl, true, false, some, none, List, length, All, arith, ◌==◌, ◌>>=◌, ≡→==,
  ==→≡, Bool-cases, inl, inr, some_inj, >>=-eq-some, sym, ap, ◌∙◌, ◌*◌, ◌≤◌,
}
use roto.Prelude.Int.{
  ℤ, IsSigned, to_word, of_word, of_word-to_word, to_word-of_word, to_word-lt, of_word-IsSigned,
}
use roto.Prelude.Bytes.{
  Endian, IsByte, to_ne_bytes, from_ne_bytes, length-to_ne_bytes, from_ne_bytes-to_ne_bytes,
  to_ne_bytes-from_ne_bytes, from_ne_bytes-lt,
}
use roto.Lir.Value.{
  IrValue, IrType, bytes, as_vec, from_slice, word, IsValue, variant, is_char, bool_of_word,
  char_of_word,
}

word-to_ne_bytes : (e : Endian) (k n : ℕ) → n < 256 ^ k → word e k (to_ne_bytes e k n) ≡ some n
word-to_ne_bytes e k n h = rw (
  ≡→== (length (to_ne_bytes e k n)) k (length-to_ne_bytes e k n),
  from_ne_bytes-to_ne_bytes e k n h,
)

char-lt : (c : ℕ) → is_char c ≡ true → c < 2 ^ 32
char-lt c h = ground arith

signed-to_ne_bytes :
    (e : Endian) (k half : ℕ) (f : ℤ → IrValue) (z : ℤ)
    → IsSigned half z
    → 2 * half ≤ 256 ^ k
    → (word e k (to_ne_bytes e k (to_word half z)) >>= λ w. some (f (of_word half w))) ≡ some (f z)
signed-to_ne_bytes e k half f z h le =
    let lt = to_word-lt half z h in
    rw (word-to_ne_bytes e k (to_word half z) (omega arith), of_word-to_word half z h)

-- The bytes of a value are as many as its type says, and reading them at that type gives the
-- value back, whatever the byte order.
pub from_slice-as_vec :
    (e : Endian) (v : IrValue)
    → IsValue v
    → (from_slice e (variant v) (as_vec e v) ≡ some v) × (length (as_vec e v) ≡ bytes (variant v))
unfolding from_slice as_vec bytes
from_slice-as_vec e (IrValue.bool true) h =
    (rw (word-to_ne_bytes e 1 1 (omega arith)), length-to_ne_bytes e 1 1)
from_slice-as_vec e (IrValue.bool false) h =
    (rw (word-to_ne_bytes e 1 0 (omega arith)), length-to_ne_bytes e 1 0)
from_slice-as_vec e (IrValue.u8 x) h = (rw (word-to_ne_bytes e 1 x h), length-to_ne_bytes e 1 x)
from_slice-as_vec e (IrValue.u16 x) h = (rw (word-to_ne_bytes e 2 x h), length-to_ne_bytes e 2 x)
from_slice-as_vec e (IrValue.u32 x) h = (rw (word-to_ne_bytes e 4 x h), length-to_ne_bytes e 4 x)
from_slice-as_vec e (IrValue.u64 x) h = (rw (word-to_ne_bytes e 8 x h), length-to_ne_bytes e 8 x)
from_slice-as_vec e (IrValue.f32 x) h = (rw (word-to_ne_bytes e 4 x h), length-to_ne_bytes e 4 x)
from_slice-as_vec e (IrValue.f64 x) h = (rw (word-to_ne_bytes e 8 x h), length-to_ne_bytes e 8 x)
from_slice-as_vec e (IrValue.asn x) h = (rw (word-to_ne_bytes e 4 x h), length-to_ne_bytes e 4 x)
from_slice-as_vec e (IrValue.pointer x) h =
    (rw (word-to_ne_bytes e 8 x h), length-to_ne_bytes e 8 x)
from_slice-as_vec e (IrValue.char x) h =
    (rw (word-to_ne_bytes e 4 x (char-lt x h), h), length-to_ne_bytes e 4 x)
from_slice-as_vec e (IrValue.i8 x) h = (
  signed-to_ne_bytes e 1 (2 ^ 7) IrValue.i8 x h (omega arith),
  length-to_ne_bytes e 1 (to_word (2 ^ 7) x),
)
from_slice-as_vec e (IrValue.i16 x) h = (
  signed-to_ne_bytes e 2 (2 ^ 15) IrValue.i16 x h (omega arith),
  length-to_ne_bytes e 2 (to_word (2 ^ 15) x),
)
from_slice-as_vec e (IrValue.i32 x) h = (
  signed-to_ne_bytes e 4 (2 ^ 31) IrValue.i32 x h (omega arith),
  length-to_ne_bytes e 4 (to_word (2 ^ 31) x),
)
from_slice-as_vec e (IrValue.i64 x) h = (
  signed-to_ne_bytes e 8 (2 ^ 63) IrValue.i64 x h (omega arith),
  length-to_ne_bytes e 8 (to_word (2 ^ 63) x),
)

word_inv :
    (e : Endian) (k : ℕ) (bs : List ℕ) (n : ℕ)
    → All IsByte bs
    → word e k bs ≡ some n
    → (to_ne_bytes e k n ≡ bs) × (n < 256 ^ k)
word_inv e k bs n h p = elim (Bool-cases (length bs == k)) [
  | inl t ↦
      let l = ==→≡ (length bs) k t in
      let q : from_ne_bytes e bs ≡ n = some_inj (rw t at p) in
      rw (← q) (to_ne_bytes-from_ne_bytes e k bs h l, from_ne_bytes-lt e k bs h l)
  | inr f ↦ let q : none ≡ some n = rw f at p in cc
]

-- What reading a word, and building a value from it by `f`, gives.
module _ (e : Endian) (bs : List ℕ) (h : All IsByte bs) (v : IrValue) where
  unsigned_inv :
      (k : ℕ) (f : ℕ → IrValue)
      → (word e k bs >>= λ w. some (f w)) ≡ some v
      → (w : ℕ) × (v ≡ f w) × (to_ne_bytes e k w ≡ bs) × (w < 256 ^ k)
  unsigned_inv k f p =
      let (w, q, r) = >>=-eq-some (word e k bs) _ p in
      let (a, b) = word_inv e k bs w h q in (w, sym (some_inj r), a, b)

bool_inv :
    (e : Endian) (w : ℕ) (v : IrValue)
    → bool_of_word w ≡ some v
    → (as_vec e v ≡ to_ne_bytes e 1 w) × (variant v ≡ IrType.bool) × IsValue v
unfolding as_vec
bool_inv e w v h = elim (Bool-cases (w == 0)) [
  | inl zero ↦
      let p : IrValue.bool false ≡ v = some_inj (rw zero at h) in
      rw (← p, ==→≡ w 0 zero) (refl, refl, tt)
  | inr nonzero ↦ elim (Bool-cases (w == 1)) [
    | inl one ↦
        let p : IrValue.bool true ≡ v = some_inj (rw (nonzero, one) at h) in
        rw (← p, ==→≡ w 1 one) (refl, refl, tt)
    | inr other ↦ let p : none ≡ some v = rw (nonzero, other) at h in cc
  ]
]

char_inv :
    (e : Endian) (w : ℕ) (v : IrValue)
    → char_of_word w ≡ some v
    → (as_vec e v ≡ to_ne_bytes e 4 w) × (variant v ≡ IrType.char) × IsValue v
unfolding as_vec
char_inv e w v h = elim (Bool-cases (is_char w)) [
  | inl valid ↦
      let p : IrValue.char w ≡ v = some_inj (rw valid at h) in rw (← p) (refl, refl, valid)
  | inr invalid ↦ let p : none ≡ some v = rw invalid at h in cc
]

-- Reading panics or gives a value of the type that was asked for, in its range, and with just the
-- bytes that were read.
pub as_vec-from_slice :
    (e : Endian) (t : IrType) (bs : List ℕ) (v : IrValue)
    → All IsByte bs
    → from_slice e t bs ≡ some v
    → (as_vec e v ≡ bs) × (variant v ≡ t) × IsValue v
unfolding from_slice as_vec
as_vec-from_slice e IrType.u8 bs v h p =
    let (w, q, a, b) = unsigned_inv e bs h v 1 IrValue.u8 p in rw q (a, refl, b)
as_vec-from_slice e IrType.u16 bs v h p =
    let (w, q, a, b) = unsigned_inv e bs h v 2 IrValue.u16 p in rw q (a, refl, b)
as_vec-from_slice e IrType.u32 bs v h p =
    let (w, q, a, b) = unsigned_inv e bs h v 4 IrValue.u32 p in rw q (a, refl, b)
as_vec-from_slice e IrType.u64 bs v h p =
    let (w, q, a, b) = unsigned_inv e bs h v 8 IrValue.u64 p in rw q (a, refl, b)
as_vec-from_slice e IrType.f32 bs v h p =
    let (w, q, a, b) = unsigned_inv e bs h v 4 IrValue.f32 p in rw q (a, refl, b)
as_vec-from_slice e IrType.f64 bs v h p =
    let (w, q, a, b) = unsigned_inv e bs h v 8 IrValue.f64 p in rw q (a, refl, b)
as_vec-from_slice e IrType.asn bs v h p =
    let (w, q, a, b) = unsigned_inv e bs h v 4 IrValue.asn p in rw q (a, refl, b)
as_vec-from_slice e IrType.pointer bs v h p =
    let (w, q, a, b) = unsigned_inv e bs h v 8 IrValue.pointer p in rw q (a, refl, b)
as_vec-from_slice e IrType.i8 bs v h p =
    let (w, q, a, b) = unsigned_inv e bs h v 1 (λ w. IrValue.i8 (of_word (2 ^ 7) w)) p in
    rw q
      (ap (to_ne_bytes e 1) (to_word-of_word (2 ^ 7) w b) ∙ a, refl, of_word-IsSigned (2 ^ 7) w b)
as_vec-from_slice e IrType.i16 bs v h p =
    let (w, q, a, b) = unsigned_inv e bs h v 2 (λ w. IrValue.i16 (of_word (2 ^ 15) w)) p in
    rw q
      (ap (to_ne_bytes e 2) (to_word-of_word (2 ^ 15) w b) ∙ a, refl, of_word-IsSigned (2 ^ 15) w b)
as_vec-from_slice e IrType.i32 bs v h p =
    let (w, q, a, b) = unsigned_inv e bs h v 4 (λ w. IrValue.i32 (of_word (2 ^ 31) w)) p in
    rw q
      (ap (to_ne_bytes e 4) (to_word-of_word (2 ^ 31) w b) ∙ a, refl, of_word-IsSigned (2 ^ 31) w b)
as_vec-from_slice e IrType.i64 bs v h p =
    let (w, q, a, b) = unsigned_inv e bs h v 8 (λ w. IrValue.i64 (of_word (2 ^ 63) w)) p in
    rw q
      (ap (to_ne_bytes e 8) (to_word-of_word (2 ^ 63) w b) ∙ a, refl, of_word-IsSigned (2 ^ 63) w b)
as_vec-from_slice e IrType.bool bs v h p =
    let (w, q, r) = >>=-eq-some (word e 1 bs) _ p in
    let (a, b) = word_inv e 1 bs w h q in rw (← a) (bool_inv e w v r)
as_vec-from_slice e IrType.char bs v h p =
    let (w, q, r) = >>=-eq-some (word e 4 bs) _ p in
    let (a, b) = word_inv e 4 bs w h q in rw (← a) (char_inv e w v r)
