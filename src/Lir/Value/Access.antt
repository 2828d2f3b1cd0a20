-- ===== src/Lir/Value/Access.antt =====
-- src/lir/value.rs: the type that a value reports, and the comparison of values.
use roto.Prelude.{ℕ, ◌≡◌, ◌≢◌, ◌⊎◌, ◌↔◌, Bool, true, false, Option, some, none, arith}
use roto.Prelude.Bytes.{Endian, length-to_ne_bytes}
use roto.Lir.Value.{
  IrValue, IrType, get_type, as_vec, from_slice, eq, IsValue, variant, as_u64, as_i64, integer,
}
use roto.Lir.Value.RoundTrip.{from_slice-as_vec}
use roto.Prelude.Int.{ℤ, pos}

-- What reading a value at its reported type should give, in view of `get_type`.
abbrev pub reread : IrValue → Option IrValue
reread (IrValue.u64 _) = none
reread v = some v

-- The bytes of a value, read at the type that `get_type` reports, give the value back for every
-- value but a `U64`, and panic for each `U64`.
pub from_slice-get_type :
    (e : Endian) (v : IrValue) → IsValue v → from_slice e (get_type v) (as_vec e v) ≡ reread v
unfolding get_type from_slice as_vec
from_slice-get_type e (IrValue.u64 x) h = rw (length-to_ne_bytes e 8 x)
from_slice-get_type e v h = (from_slice-as_vec e v h).0

-- The types whose values `eq` compares.
abbrev pub comparable : IrType → Bool
comparable IrType.u64 = false
comparable IrType.i64 = false
comparable IrType.f32 = false
comparable IrType.f64 = false
comparable IrType.char = false
comparable _ = true

-- Where `eq` gives an answer, the answer is whether the values are equal.
eq_sound : (a b : IrValue) (x : Bool) → eq a b ≡ some x → (x ≡ true) ↔ (a ≡ b)
unfolding eq
eq_sound (IrValue.bool true) b x h = ground arith
eq_sound (IrValue.bool false) b x h = ground arith
eq_sound a b x h = ground arith

-- `eq` panics exactly on values of different types, and on values of a type that it leaves out.
eq-none_iff :
    (a b : IrValue) → (eq a b ≡ none) ↔ ((variant a ≢ variant b) ⊎ (comparable (variant a) ≡ false))
unfolding eq
eq-none_iff a b = ground arith

-- `eq` panics exactly on values of different types and on values of a type that it leaves out, and
-- where it gives an answer, the answer is whether the values are equal.
pub eq_lem :
    (a b : IrValue)
    → ((eq a b ≡ none) ↔ ((variant a ≢ variant b) ⊎ (comparable (variant a) ≡ false)))
      × ((x : Bool) → eq a b ≡ some x → (x ≡ true) ↔ (a ≡ b))
eq_lem a b = (eq-none_iff a b, eq_sound a b)

-- The word or integer that is read is the one that the value stands for.
pub as_u64-integer : (v : IrValue) (n : ℕ) → as_u64 v ≡ some n → integer v ≡ pos n
unfolding as_u64
as_u64-integer v n h = ground arith

pub as_i64-integer : (v : IrValue) (z : ℤ) → as_i64 v ≡ some z → integer v ≡ z
unfolding as_i64
as_i64-integer v z h = ground arith
