-- ===== src/Mir/Types/Layouts/Tests.antt =====
-- Examples for `layout_of` of src/mir/ty.rs.
use roto.Prelude.{ℕ, zero, suc, ◌≡◌, ◌≢◌, refl, List, [], ◌∷◌, some, false, subst, some_inj, arith}
use roto.Layout
use roto.Layout.{Layout, IsValid, union, is_power_below}
use roto.Layout.Builder.{add, finish, concat}
use roto.Typechecker.Types.{Primitive, IntKind, IntSize}
use roto.Mir.Types.{Ty}
use roto.Mir.Types.Interned.{IsOrdered, RefersBelow}
use roto.Mir.Types.Layouts.{
  Platform, done, out_of_fuel, checked, variant_layout, layout_of, layout_of_ty, add_fields,
  enum_layout, is_reference_type,
}
use roto.Mir.Types.Layouts.IsValid.{IsPlatform}
use roto.Layout.Builder.Fields.{Laid, Divides}
use roto.Prelude.{All}
use roto.Mir.Types.Layouts.Enum.{layout_of-IsValid}
use roto.Mir.Types.Layouts.Variants.{layout_of_enum_lem}
use roto.Mir.Types.Layouts.Enough.{layout_of-fuel}
use roto.Mir.Types.Layouts.Concat.{layout_of-concat}

abbrev words : ℕ → Layout
words n = record { size = n; align = 8 }

-- A machine with pointers of eight bytes.
abbrev machine : Platform
machine = record {
  string = words 16;
  ip_addr = record { size = 17; align = 1 };
  prefix = record { size = 18; align = 1 };
  erased_list = words 8;
  runtime_type = λ id. some (words 24);
}

machine-IsPlatform : IsPlatform machine
machine-IsPlatform = record {
  string = record { power = (3, omega arith, refl); multiple = refl; fits = omega arith };
  ip_addr = record { power = (0, omega arith, refl); multiple = refl; fits = omega arith };
  prefix = record { power = (0, omega arith, refl); multiple = refl; fits = omega arith };
  erased_list = record { power = (3, omega arith, refl); multiple = refl; fits = omega arith };
  runtime_type = λ id l h.
      subst IsValid (some_inj h)
        (record { power = (3, omega arith, refl); multiple = refl; fits = omega arith });
}

abbrev u32 : Ty
u32 = Ty.primitive (Primitive.int IntKind.unsigned IntSize.i32)

-- `!`, `u32`, `bool`, `{ a: bool, b: u32 }` and an enum of a variant with the record, one with `!`
-- and one without fields
abbrev pool : List Ty
pool =
    Ty.never
    ∷ u32
    ∷ Ty.primitive Primitive.bool
    ∷ Ty.record_type ((1, 2) ∷ (2, 1) ∷ [])
    ∷ Ty.enum ((1, 3 ∷ []) ∷ (2, 0 ∷ []) ∷ (3, []) ∷ [])
    ∷ []

abbrev record_layout : Layout
record_layout = record { size = 8; align = 4 }

layout_of_record : layout_of 4 pool machine 3 ≡ done record_layout
unfolding layout_of layout_of_ty add_fields add finish Layout.new is_power_below
layout_of_record = refl

abbrev whole : Layout
whole = record { size = 12; align = 4 }

layout_of_enum : layout_of 5 pool machine 4 ≡ done whole
unfolding layout_of layout_of_ty add_fields enum_layout variant_layout union add finish Layout.new
    is_power_below
layout_of_enum = refl

layout_of-IsValid_example : IsValid whole
layout_of-IsValid_example =
    layout_of-IsValid 5 pool machine 4 whole machine-IsPlatform layout_of_enum

-- The variant with the record: its field lies behind the tag.
layout_of_enum_lem_example :
    ((os : List ℕ) × Laid 1 (record_layout ∷ []) os whole.size)
    × All (Divides whole.align) (record_layout ∷ [])
layout_of_enum_lem_example =
    layout_of_enum_lem 4 pool machine 4 ((1, 3 ∷ []) ∷ (2, 0 ∷ []) ∷ (3, []) ∷ []) whole 0 1
      (3 ∷ []) (record_layout ∷ []) machine-IsPlatform refl layout_of_enum refl
      (layout_of_record, tt)

pool-IsOrdered : IsOrdered pool
pool-IsOrdered zero t h = subst (RefersBelow 0) (some_inj h) tt
pool-IsOrdered (suc zero) t h = subst (RefersBelow 1) (some_inj h) tt
pool-IsOrdered (suc (suc zero)) t h = subst (RefersBelow 2) (some_inj h) tt
pool-IsOrdered (suc (suc (suc zero))) t h =
    subst (RefersBelow 3) (some_inj h) (omega arith, (omega arith, tt))
pool-IsOrdered (suc (suc (suc (suc zero)))) t h =
    subst (RefersBelow 4) (some_inj h) ((omega arith, tt), ((omega arith, tt), (tt, tt)))
pool-IsOrdered (suc (suc (suc (suc (suc r))))) t h = cc

layout_of-fuel_example : layout_of 5 pool machine 4 ≢ out_of_fuel
layout_of-fuel_example = layout_of-fuel 5 pool machine 4 pool-IsOrdered (omega arith)

layout_of-concat_example :
    layout_of 4 pool machine 3
    ≡ checked (concat (record { size = 1; align = 1 } ∷ record { size = 4; align = 4 } ∷ []))
unfolding layout_of layout_of_ty Layout.new is_power_below
layout_of-concat_example =
    layout_of-concat 3 pool machine 3 ((1, 2) ∷ (2, 1) ∷ [])
      (record { size = 1; align = 1 } ∷ record { size = 4; align = 4 } ∷ []) refl (refl, (refl, tt))

by_value : is_reference_type 2 pool machine 1 ≡ done false
unfolding is_reference_type layout_of layout_of_ty Layout.new is_power_below
by_value = refl
