-- ===== src/Mir/Types/Layouts.antt =====
-- src/mir/ty.rs, `layout_of` and `is_reference_type`, and src/typechecker/types.rs,
-- `Primitive::layout`. The layouts of Rust types (`RotoString`, `IpAddr`, `Prefix`, `ErasedList`)
-- and of the types that a runtime registers are parameters. The recursion over the types of the
-- pool is on fuel.
pub mod IsValid
pub mod Enum
pub mod Enough
pub mod Concat
pub mod Variants
mod Tests
use roto.Prelude.{
  ℕ, zero, suc, Bool, true, false, ◌==◌, ◌/◌, if◌then◌else◌, List, [], ◌∷◌, get_elem?, Option, none,
  some, ◌>>=◌,
}
use roto.Layout
use roto.Layout.{Layout, union}
use roto.Layout.Builder
use roto.Layout.Builder.{LayoutBuilder, add, finish}
use roto.Typechecker.Types.{Primitive, IntKind, IntSize, FloatSize}
use roto.Mir.Types.{Ty, get, field_types}

-- `IntSize::int` and `FloatSize::int`
abbrev pub int_bits : IntSize → ℕ
int_bits IntSize.i8 = 8
int_bits IntSize.i16 = 16
int_bits IntSize.i32 = 32
int_bits IntSize.i64 = 64

abbrev pub float_bits : FloatSize → ℕ
float_bits FloatSize.f32 = 32
float_bits FloatSize.f64 = 64

-- The layouts of Rust's types: those of `RotoString`, `IpAddr`, `Prefix` and `ErasedList`, and
-- those of registered types (`Rt::get_runtime_type`), where there is one.
pub record Platform : Type 0 where
  pub string : Layout
  pub ip_addr : Layout
  pub prefix : Layout
  pub erased_list : Layout
  pub runtime_type : ℕ → Option Layout

-- `Primitive::layout`
abbrev pub primitive_layout : Platform → Primitive → Option Layout
primitive_layout rt (Primitive.int k s) = Layout.new (int_bits s / 8) (int_bits s / 8)
primitive_layout rt (Primitive.float s) = Layout.new (float_bits s / 8) (float_bits s / 8)
primitive_layout rt Primitive.bool = Layout.new 1 1
primitive_layout rt Primitive.char = Layout.new 4 4
primitive_layout rt Primitive.asn = Layout.new 4 4
primitive_layout rt Primitive.string = some rt.string
primitive_layout rt Primitive.ip_addr = some rt.ip_addr
primitive_layout rt Primitive.prefix = some rt.prefix

-- What `layout_of` and its helpers end with; Rust's `None` is `uninhabited`.
pub data Outcome (A : Type 0) : Type 0 where
  done : A → Outcome A
  uninhabited panicked out_of_fuel : Outcome A

abbrev pub and_then : {A B : Type 0} → Outcome A → (A → Outcome B) → Outcome B
and_then (done a) f = f a
and_then uninhabited f = uninhabited
and_then panicked f = panicked
and_then out_of_fuel f = out_of_fuel

abbrev pub checked : {A : Type 0} → Option A → Outcome A
checked (some a) = done a
checked none = panicked

-- Rust's `?` on an `Option` that `layout_of` returns, the loop over the fields of a record or of a
-- variant: each layout is added to the builder.
unfoldable pub add_fields : (ℕ → Outcome Layout) → LayoutBuilder → List ℕ → Outcome LayoutBuilder
add_fields u b [] = done b
add_fields u b (t ∷ ts) = and_then (u t) λ l. and_then (checked (add b l)) λ r. add_fields u r.1 ts

-- `Layout::of::<u8>()`, the tag of an enum
abbrev pub tag : Layout
tag = record { size = 1; align = 1 }

-- The layout of a variant: the tag and the fields.
unfoldable pub variant_layout : (ℕ → Outcome Layout) → List ℕ → Outcome Layout
variant_layout u ts =
    and_then (checked (add Builder.new tag))
      λ r. and_then (add_fields u r.1 ts) λ b. checked (finish b)

abbrev pub join : Option Layout → Layout → Option Layout
join none l = some l
join (some k) l = union k l

abbrev pub of_option : Option Layout → Outcome Layout
of_option none = uninhabited
of_option (some l) = done l

-- The loop over the variants of an enum: a variant that is uninhabited is left out.
abbrev pub continue_with :
    Option Layout → (Option Layout → Outcome Layout) → Outcome Layout → Outcome Layout
continue_with acc rest (done l) = and_then (checked (join acc l)) λ k. rest (some k)
continue_with acc rest uninhabited = rest acc
continue_with acc rest panicked = panicked
continue_with acc rest out_of_fuel = out_of_fuel

unfoldable pub enum_layout :
    (ℕ → Outcome Layout) → List (ℕ × List ℕ) → Option Layout → Outcome Layout
enum_layout u [] acc = of_option acc
enum_layout u ((n, ts) ∷ vs) acc = continue_with acc (enum_layout u vs) (variant_layout u ts)

-- The arms of `layout_of`
unfoldable pub layout_of_ty : (ℕ → Outcome Layout) → Platform → Ty → Outcome Layout
layout_of_ty u rt Ty.never = uninhabited
layout_of_ty u rt Ty.unit = checked (Layout.new 0 1)
layout_of_ty u rt (Ty.primitive p) = checked (primitive_layout rt p)
layout_of_ty u rt (Ty.runtime id) = checked (rt.runtime_type id)
layout_of_ty u rt (Ty.record_type fs) =
    and_then (add_fields u Builder.new (field_types fs)) λ b. checked (finish b)
layout_of_ty u rt (Ty.enum vs) = enum_layout u vs none
layout_of_ty u rt (Ty.list t) = done rt.erased_list

abbrev pub at_type : (Ty → Outcome Layout) → Option Ty → Outcome Layout
at_type f none = panicked
at_type f (some ty) = f ty

-- `Pool::layout_of`
unfoldable pub layout_of : ℕ → List Ty → Platform → ℕ → Outcome Layout
layout_of zero pool rt t = out_of_fuel
layout_of (suc fuel) pool rt t = at_type (layout_of_ty (layout_of fuel pool rt) rt) (get pool t)

-- The arms of `is_reference_type` on a type that has a size
abbrev pub is_reference_ty : Ty → Outcome Bool
is_reference_ty Ty.never = uninhabited
is_reference_ty (Ty.record_type fs) = done true
is_reference_ty (Ty.enum vs) = done true
is_reference_ty (Ty.primitive Primitive.string) = done true
is_reference_ty (Ty.primitive Primitive.ip_addr) = done true
is_reference_ty (Ty.primitive Primitive.prefix) = done true
is_reference_ty (Ty.list t) = done true
is_reference_ty (Ty.runtime id) = done true
is_reference_ty Ty.unit = done false
is_reference_ty (Ty.primitive p) = done false

abbrev pub reference_of : Option Ty → Outcome Bool
reference_of none = panicked
reference_of (some ty) = is_reference_ty ty

-- `Pool::is_reference_type`
unfoldable pub is_reference_type : ℕ → List Ty → Platform → ℕ → Outcome Bool
is_reference_type fuel pool rt t =
    and_then (layout_of fuel pool rt t)
      λ l. if l.size == 0 then done false else reference_of (get pool t)
