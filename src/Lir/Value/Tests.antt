-- ===== src/Lir/Value/Tests.antt =====
-- Concrete values and their bytes.
use roto.Prelude.{◌≡◌, ◌↔◌, ◌⊎◌, ◌≢◌, refl, Bool, true, false, some, none, [], ◌∷◌, length, arith}
use roto.Prelude.Int.{negsuc}
use roto.Prelude.Bytes.{little, big, to_ne_bytes, from_ne_bytes}
use roto.Lir.Value.{IrValue, IrType, as_vec, from_slice, bytes, eq, get_type, variant}
use roto.Lir.Value.RoundTrip.{from_slice-as_vec}
use roto.Lir.Value.Access.{from_slice-get_type, reread, comparable, eq_lem}

abbrev minus_two : IrValue
minus_two = IrValue.i16 (negsuc 1)

as_vec-minus_two : as_vec big minus_two ≡ 0xff ∷ 0xfe ∷ []
unfolding as_vec to_ne_bytes
as_vec-minus_two = refl

from_slice-minus_two : from_slice little IrType.i16 (0xfe ∷ 0xff ∷ []) ≡ some minus_two
unfolding from_slice from_ne_bytes
from_slice-minus_two = refl

from_slice-bad_bool : from_slice little IrType.bool (2 ∷ []) ≡ none
unfolding from_slice from_ne_bytes
from_slice-bad_bool = refl

from_slice-surrogate : from_slice little IrType.char (0x00 ∷ 0xd8 ∷ 0x00 ∷ 0x00 ∷ []) ≡ none
unfolding from_slice from_ne_bytes
from_slice-surrogate = refl

eq-u64 : eq (IrValue.u64 7) (IrValue.u64 7) ≡ none
unfolding eq
eq-u64 = refl

eq-asn : eq (IrValue.asn 7) (IrValue.asn 7) ≡ some true
unfolding eq
eq-asn = refl

from_slice-as_vec_example :
    (from_slice big (variant minus_two) (as_vec big minus_two) ≡ some minus_two)
    × (length (as_vec big minus_two) ≡ bytes (variant minus_two))
from_slice-as_vec_example = from_slice-as_vec big minus_two (omega arith)

from_slice-get_type_example :
    from_slice little (get_type (IrValue.u64 9)) (as_vec little (IrValue.u64 9))
    ≡ reread (IrValue.u64 9)
from_slice-get_type_example = from_slice-get_type little (IrValue.u64 9) (omega arith)

eq_lem_example :
    ((eq (IrValue.u64 7) (IrValue.u64 7) ≡ none)
      ↔ ((IrType.u64 ≢ IrType.u64) ⊎ (comparable IrType.u64 ≡ false)))
    × ((x : Bool)
        → eq (IrValue.u64 7) (IrValue.u64 7) ≡ some x
        → (x ≡ true) ↔ (IrValue.u64 7 ≡ IrValue.u64 7))
eq_lem_example = eq_lem (IrValue.u64 7) (IrValue.u64 7)
