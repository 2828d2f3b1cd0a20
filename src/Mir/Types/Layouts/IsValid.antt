-- ===== src/Mir/Types/Layouts/IsValid.antt =====
-- src/mir/ty.rs, `layout_of`: the size and the alignment of the layouts of primitives, fields
-- and variants.
use roto.Prelude.{ℕ, ◌≡◌, ◌<◌, refl, ap, subst, List, [], ◌∷◌, Option, none, some, arith, usize_mod}
use roto.Layout
use roto.Layout.{Layout, IsValid, IsPowerOfTwo, union}
use roto.Layout.Valid.{new-eq-some_iff}
use roto.Layout.Builder
use roto.Layout.Builder.{LayoutBuilder, add, finish}
use roto.Layout.Builder.Fields.{IsBuilder, new-IsBuilder, add-IsBuilder, finish-IsValid}
use roto.Typechecker.Types.{Primitive, IntSize, FloatSize}
use roto.Mir.Types.Layouts.{
  Platform, Outcome, done, uninhabited, panicked, out_of_fuel, and_then, checked, add_fields, tag,
  variant_layout, primitive_layout,
}

-- Rust's layouts are valid.
pub record IsPlatform (rt : Platform) : Type 0 where
  pub string : IsValid rt.string
  pub ip_addr : IsValid rt.ip_addr
  pub prefix : IsValid rt.prefix
  pub erased_list : IsValid rt.erased_list
  pub runtime_type : (id : ℕ) (l : Layout) → rt.runtime_type id ≡ some l → IsValid l

pub and_then-done :
    {A B : Type 0} (m : Outcome A) (f : A → Outcome B) {b : B}
    → and_then m f ≡ done b
    → (a : A) × (m ≡ done a) × (f a ≡ done b)
and_then-done (done a) f h = (a, refl, h)
and_then-done uninhabited f h = cc
and_then-done panicked f h = cc
and_then-done out_of_fuel f h = cc

pub done_inj : {A : Type 0} {a b : A} → done a ≡ done b → a ≡ b
done_inj h = cc

pub checked-done : {A : Type 0} (o : Option A) {a : A} → checked o ≡ done a → o ≡ some a
checked-done none h = cc
checked-done (some b) h = ap some (done_inj h)

-- A computation that gives valid layouts only.
abbrev pub GivesValid : (ℕ → Outcome Layout) → Type 0
GivesValid u = (t : ℕ) (l : Layout) → u t ≡ done l → IsValid l

pub new-IsValid :
    (n a : ℕ) (l : Layout) → n < usize_mod → checked (Layout.new n a) ≡ done l → IsValid l
new-IsValid n a l lt h = ((new-eq-some_iff n a l lt).0 (checked-done (Layout.new n a) h)).0

pub primitive-IsValid :
    (rt : Platform) (p : Primitive) (l : Layout)
    → IsPlatform rt
    → checked (primitive_layout rt p) ≡ done l
    → IsValid l
primitive-IsValid rt (Primitive.int k IntSize.i8) l v h = new-IsValid 1 1 l (omega arith) h
primitive-IsValid rt (Primitive.int k IntSize.i16) l v h = new-IsValid 2 2 l (omega arith) h
primitive-IsValid rt (Primitive.int k IntSize.i32) l v h = new-IsValid 4 4 l (omega arith) h
primitive-IsValid rt (Primitive.int k IntSize.i64) l v h = new-IsValid 8 8 l (omega arith) h
primitive-IsValid rt (Primitive.float FloatSize.f32) l v h = new-IsValid 4 4 l (omega arith) h
primitive-IsValid rt (Primitive.float FloatSize.f64) l v h = new-IsValid 8 8 l (omega arith) h
primitive-IsValid rt Primitive.bool l v h = new-IsValid 1 1 l (omega arith) h
primitive-IsValid rt Primitive.char l v h = new-IsValid 4 4 l (omega arith) h
primitive-IsValid rt Primitive.asn l v h = new-IsValid 4 4 l (omega arith) h
primitive-IsValid rt Primitive.string l v h = subst IsValid (done_inj h) v.string
primitive-IsValid rt Primitive.ip_addr l v h = subst IsValid (done_inj h) v.ip_addr
primitive-IsValid rt Primitive.prefix l v h = subst IsValid (done_inj h) v.prefix

pub tag-IsValid : IsValid tag
tag-IsValid = record { power = (0, omega arith, refl); multiple = refl; fits = omega arith }

module _ (u : ℕ → Outcome Layout) (valid : GivesValid u) where
  pub add_fields-IsBuilder :
      (b : LayoutBuilder) (ts : List ℕ) (b' : LayoutBuilder)
      → IsBuilder b
      → add_fields u b ts ≡ done b'
      → IsBuilder b'
  unfolding add_fields
  add_fields-IsBuilder b [] b' v h = subst IsBuilder (done_inj h) v
  add_fields-IsBuilder b (t ∷ ts) b' v h =
      let (l, found, rest) = and_then-done (u t) _ h in
      let (r, added, last) = and_then-done (checked (add b l)) _ rest in
      add_fields-IsBuilder r.1 ts b'
        (add-IsBuilder b l r.0 r.1 v (valid t l found) (checked-done (add b l) added)) last

  pub variant-IsValid : (ts : List ℕ) (l : Layout) → variant_layout u ts ≡ done l → IsValid l
  unfolding variant_layout
  variant-IsValid ts l h =
      let (r, added, rest) = and_then-done (checked (add Builder.new tag)) _ h in
      let (b, fields, last) = and_then-done (add_fields u r.1 ts) _ rest in
      let start =
        add-IsBuilder Builder.new tag r.0 r.1 new-IsBuilder tag-IsValid
          (checked-done (add Builder.new tag) added) in
      (finish-IsValid b l (add_fields-IsBuilder r.1 ts b start fields)
        (checked-done (finish b) last)).0
