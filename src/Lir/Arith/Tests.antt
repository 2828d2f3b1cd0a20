-- ===== src/Lir/Arith/Tests.antt =====
-- Arithmetic and comparisons at concrete values.
use roto.Prelude.{◌≡◌, ◌↔◌, refl, true, false, some, none, arith}
use roto.Prelude.Int.{pos, negsuc, ◌-ℤ◌, ◌+ℤ◌}
use roto.Lir.Value.{IrValue, IsValue, variant, integer, as_i64}
use roto.Lir.Program.{IntCmp}
use roto.Lir.Arith.{int_op, eval_add, eval_sub, eval_div, eval_int_cmp, eval_negate, Floats}
use roto.Lir.Arith.Range.{plus, over, eval_operator-IsValue}
use roto.Lir.Arith.Division.{on_integers, eval_operator-integer}
use roto.Lir.Arith.Compare.{Holds, eval_int_cmp_sound}

eval_add-overflow : eval_add (IrValue.u8 200) (IrValue.u8 100) ≡ none
unfolding eval_add int_op
eval_add-overflow = refl

eval_sub-below_zero : eval_sub (IrValue.u16 3) (IrValue.u16 4) ≡ none
unfolding eval_sub int_op
eval_sub-below_zero = refl

eval_div-minimum : eval_div (IrValue.i8 (negsuc 127)) (IrValue.i8 (negsuc 0)) ≡ none
unfolding eval_div int_op
eval_div-minimum = refl

eval_add-i16 :
    eval_add (IrValue.i16 (negsuc 6)) (IrValue.i16 (pos 3)) ≡ some (IrValue.i16 (negsuc 3))
unfolding eval_add int_op ◌+ℤ◌
eval_add-i16 = refl

eval_div-i32 :
    eval_div (IrValue.i32 (negsuc 6)) (IrValue.i32 (pos 2)) ≡ some (IrValue.i32 (negsuc 2))
unfolding eval_div int_op
eval_div-i32 = refl

eval_negate-i8 : eval_negate (IrValue.i8 (pos 5)) ≡ some (IrValue.i8 (negsuc 4))
unfolding eval_negate ◌-ℤ◌
eval_negate-i8 = refl

eval_int_cmp-slt : eval_int_cmp IntCmp.slt (IrValue.i8 (negsuc 0)) (IrValue.i64 (pos 1)) ≡ some true
unfolding eval_int_cmp as_i64
eval_int_cmp-slt = refl

eval_operator-IsValue_example :
    IsValue (IrValue.i16 (negsuc 3))
    × (variant (IrValue.i16 (negsuc 3)) ≡ variant (IrValue.i16 (negsuc 6)))
    × (variant (IrValue.i16 (negsuc 3)) ≡ variant (IrValue.i16 (pos 3)))
eval_operator-IsValue_example =
    eval_operator-IsValue plus (IrValue.i16 (negsuc 6)) (IrValue.i16 (pos 3))
      (IrValue.i16 (negsuc 3)) (omega arith) (omega arith) eval_add-i16

eval_operator-integer_example :
    integer (IrValue.i32 (negsuc 2))
    ≡ on_integers over (integer (IrValue.i32 (negsuc 6))) (integer (IrValue.i32 (pos 2)))
eval_operator-integer_example =
    eval_operator-integer over (IrValue.i32 (negsuc 6)) (IrValue.i32 (pos 2))
      (IrValue.i32 (negsuc 2)) eval_div-i32

eval_int_cmp_sound_example :
    (true ≡ true) ↔ Holds IntCmp.slt (IrValue.i8 (negsuc 0)) (IrValue.i64 (pos 1))
eval_int_cmp_sound_example =
    eval_int_cmp_sound IntCmp.slt (IrValue.i8 (negsuc 0)) (IrValue.i64 (pos 1)) true
      eval_int_cmp-slt

-- Words as floats, as far as the comparison for equality reads them.
abbrev floats : Floats
floats = record {
  widen = λ x. x;
  div_32 = λ x y. x;
  div_64 = λ x y. x;
  lt = λ x y. false;
  le = λ x y. true;
}
