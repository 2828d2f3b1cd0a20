-- ===== src/Lir/Value.antt =====
-- src/lir/value.rs: the values of the low-level IR, their types and their bytes. Panics are `none`.
-- Floats are the bit patterns that `to_ne_bytes` gives; integers are in the range of their type
-- where `IsValue` says so.
pub mod RoundTrip
pub mod Access
mod Tests
use roto.Prelude.{
  ℕ, ◌+◌, ◌<◌, ◌^◌, ◌≡◌, ◌⊎◌, Bool, true, false, Option, some, none, List, [], ◌∷◌, ltb, leb, ◌==◌,
  ◌&&◌, ◌||◌, if◌then◌else◌, ◌>>=◌, ◌>>◌, assert, length, usize_mod,
}
use roto.Prelude.Int.{ℤ, pos, IsSigned, to_word, of_word, eqb_ℤ}
use roto.Prelude.Bytes.{Endian, to_ne_bytes, from_ne_bytes}

pub data IrValue : Type 0 where
  bool : Bool → IrValue
  u8 u16 u32 u64 : ℕ → IrValue
  i8 i16 i32 i64 : ℤ → IrValue
  f32 f64 : ℕ → IrValue
  char asn pointer : ℕ → IrValue

pub data IrType : Type 0 where
  bool u8 u16 u32 u64 i8 i16 i32 i64 f32 f64 char asn pointer : IrType

-- `IrType::bytes`
unfoldable pub bytes : IrType → ℕ
bytes IrType.bool = 1
bytes IrType.u8 = 1
bytes IrType.i8 = 1
bytes IrType.u16 = 2
bytes IrType.i16 = 2
bytes IrType.u32 = 4
bytes IrType.i32 = 4
bytes IrType.f32 = 4
bytes IrType.asn = 4
bytes IrType.char = 4
bytes IrType.u64 = 8
bytes IrType.i64 = 8
bytes IrType.f64 = 8
bytes IrType.pointer = 8

-- `IrType::alignment`
pub alignment : IrType → ℕ
alignment t = bytes t

-- `IrValue::get_type`. The source gives `IrType::U32` for a `U64`.
pub get_type : IrValue → IrType
get_type (IrValue.bool _) = IrType.bool
get_type (IrValue.u8 _) = IrType.u8
get_type (IrValue.u16 _) = IrType.u16
get_type (IrValue.u32 _) = IrType.u32
get_type (IrValue.u64 _) = IrType.u32
get_type (IrValue.i8 _) = IrType.i8
get_type (IrValue.i16 _) = IrType.i16
get_type (IrValue.i32 _) = IrType.i32
get_type (IrValue.i64 _) = IrType.i64
get_type (IrValue.f32 _) = IrType.f32
get_type (IrValue.f64 _) = IrType.f64
get_type (IrValue.asn _) = IrType.asn
get_type (IrValue.char _) = IrType.char
get_type (IrValue.pointer _) = IrType.pointer

-- A `bool` as a number, which is what `as u8` and `as u32` give.
abbrev pub bool_word : Bool → ℕ
bool_word true = 1
bool_word false = 0

-- `PartialEq::eq`, which panics on every pair that it does not list.
pub eq : IrValue → IrValue → Option Bool
eq (IrValue.bool l) (IrValue.bool r) = some (bool_word l == bool_word r)
eq (IrValue.u8 l) (IrValue.u8 r) = some (l == r)
eq (IrValue.u16 l) (IrValue.u16 r) = some (l == r)
eq (IrValue.u32 l) (IrValue.u32 r) = some (l == r)
eq (IrValue.i8 l) (IrValue.i8 r) = some (eqb_ℤ l r)
eq (IrValue.i16 l) (IrValue.i16 r) = some (eqb_ℤ l r)
eq (IrValue.i32 l) (IrValue.i32 r) = some (eqb_ℤ l r)
eq (IrValue.asn l) (IrValue.asn r) = some (l == r)
eq (IrValue.pointer l) (IrValue.pointer r) = some (l == r)
eq _ _ = none

-- `char::from_u32` accepts every code point but the surrogates.
abbrev pub is_char : ℕ → Bool
is_char c = ltb c 0xd800 || (leb 0xe000 c && ltb c 0x110000)

-- `IrValue::as_vec`
unfoldable pub as_vec : Endian → IrValue → List ℕ
as_vec e (IrValue.bool b) = to_ne_bytes e 1 (bool_word b)
as_vec e (IrValue.u8 x) = to_ne_bytes e 1 x
as_vec e (IrValue.u16 x) = to_ne_bytes e 2 x
as_vec e (IrValue.u32 x) = to_ne_bytes e 4 x
as_vec e (IrValue.u64 x) = to_ne_bytes e 8 x
as_vec e (IrValue.i8 x) = to_ne_bytes e 1 (to_word (2 ^ 7) x)
as_vec e (IrValue.i16 x) = to_ne_bytes e 2 (to_word (2 ^ 15) x)
as_vec e (IrValue.i32 x) = to_ne_bytes e 4 (to_word (2 ^ 31) x)
as_vec e (IrValue.i64 x) = to_ne_bytes e 8 (to_word (2 ^ 63) x)
as_vec e (IrValue.f32 x) = to_ne_bytes e 4 x
as_vec e (IrValue.f64 x) = to_ne_bytes e 8 x
as_vec e (IrValue.asn x) = to_ne_bytes e 4 x
as_vec e (IrValue.char x) = to_ne_bytes e 4 x
as_vec e (IrValue.pointer x) = to_ne_bytes e 8 x

-- `val.try_into().unwrap()` for an array of so many bytes, and the word that it holds.
abbrev pub word : Endian → ℕ → List ℕ → Option ℕ
word e k bs = if length bs == k then some (from_ne_bytes e bs) else none

abbrev pub bool_of_word : ℕ → Option IrValue
bool_of_word w =
    if w == 0 then some (IrValue.bool false) else if w == 1 then some (IrValue.bool true) else none

abbrev pub char_of_word : ℕ → Option IrValue
char_of_word w = if is_char w then some (IrValue.char w) else none

-- `IrValue::from_slice`, which panics on a slice of the wrong length, on a `bool` that is neither 0
-- nor 1, and on a `char` that is no code point.
unfoldable pub from_slice : Endian → IrType → List ℕ → Option IrValue
from_slice e IrType.bool bs = do bool_of_word (← word e 1 bs)
from_slice e IrType.u8 bs = do some (IrValue.u8 (← word e 1 bs))
from_slice e IrType.u16 bs = do some (IrValue.u16 (← word e 2 bs))
from_slice e IrType.u32 bs = do some (IrValue.u32 (← word e 4 bs))
from_slice e IrType.u64 bs = do some (IrValue.u64 (← word e 8 bs))
from_slice e IrType.i8 bs = do some (IrValue.i8 (of_word (2 ^ 7) (← word e 1 bs)))
from_slice e IrType.i16 bs = do some (IrValue.i16 (of_word (2 ^ 15) (← word e 2 bs)))
from_slice e IrType.i32 bs = do some (IrValue.i32 (of_word (2 ^ 31) (← word e 4 bs)))
from_slice e IrType.i64 bs = do some (IrValue.i64 (of_word (2 ^ 63) (← word e 8 bs)))
from_slice e IrType.f32 bs = do some (IrValue.f32 (← word e 4 bs))
from_slice e IrType.f64 bs = do some (IrValue.f64 (← word e 8 bs))
from_slice e IrType.char bs = do char_of_word (← word e 4 bs)
from_slice e IrType.asn bs = do some (IrValue.asn (← word e 4 bs))
from_slice e IrType.pointer bs = do some (IrValue.pointer (← word e 8 bs))

-- `IrValue::as_bool`
pub as_bool : IrValue → Option Bool
as_bool (IrValue.bool x) = some x
as_bool _ = none

-- `IrValue::as_u64`
unfoldable pub as_u64 : IrValue → Option ℕ
as_u64 (IrValue.u8 x) = some x
as_u64 (IrValue.u16 x) = some x
as_u64 (IrValue.u32 x) = some x
as_u64 (IrValue.u64 x) = some x
as_u64 _ = none

-- `IrValue::as_i64`
unfoldable pub as_i64 : IrValue → Option ℤ
as_i64 (IrValue.i8 x) = some x
as_i64 (IrValue.i16 x) = some x
as_i64 (IrValue.i32 x) = some x
as_i64 (IrValue.i64 x) = some x
as_i64 _ = none

-- `IrValue::switch_on`
pub switch_on : IrValue → Option ℕ
switch_on (IrValue.bool b) = some (bool_word b)
switch_on (IrValue.u8 x) = some x
switch_on (IrValue.u16 x) = some x
switch_on (IrValue.u32 x) = some x
switch_on _ = none

-- The payload of a value is in the range of its type, as Rust's types guarantee.
abbrev pub IsValue : IrValue → Type 0
IsValue (IrValue.bool _) = Unit
IsValue (IrValue.u8 x) = x < 2 ^ 8
IsValue (IrValue.u16 x) = x < 2 ^ 16
IsValue (IrValue.u32 x) = x < 2 ^ 32
IsValue (IrValue.u64 x) = x < 2 ^ 64
IsValue (IrValue.i8 x) = IsSigned (2 ^ 7) x
IsValue (IrValue.i16 x) = IsSigned (2 ^ 15) x
IsValue (IrValue.i32 x) = IsSigned (2 ^ 31) x
IsValue (IrValue.i64 x) = IsSigned (2 ^ 63) x
IsValue (IrValue.f32 x) = x < 2 ^ 32
IsValue (IrValue.f64 x) = x < 2 ^ 64
IsValue (IrValue.char x) = is_char x ≡ true
IsValue (IrValue.asn x) = x < 2 ^ 32
IsValue (IrValue.pointer x) = x < usize_mod

-- The variant of a value, which is what `get_type` should give.
abbrev pub variant : IrValue → IrType
variant (IrValue.u64 _) = IrType.u64
variant (IrValue.bool _) = IrType.bool
variant (IrValue.u8 _) = IrType.u8
variant (IrValue.u16 _) = IrType.u16
variant (IrValue.u32 _) = IrType.u32
variant (IrValue.i8 _) = IrType.i8
variant (IrValue.i16 _) = IrType.i16
variant (IrValue.i32 _) = IrType.i32
variant (IrValue.i64 _) = IrType.i64
variant (IrValue.f32 _) = IrType.f32
variant (IrValue.f64 _) = IrType.f64
variant (IrValue.asn _) = IrType.asn
variant (IrValue.char _) = IrType.char
variant (IrValue.pointer _) = IrType.pointer

-- The integer that a value of an integer type stands for.
abbrev pub integer : IrValue → ℤ
integer (IrValue.u8 x) = pos x
integer (IrValue.u16 x) = pos x
integer (IrValue.u32 x) = pos x
integer (IrValue.u64 x) = pos x
integer (IrValue.i8 x) = x
integer (IrValue.i16 x) = x
integer (IrValue.i32 x) = x
integer (IrValue.i64 x) = x
integer _ = pos 0
