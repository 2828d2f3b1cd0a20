-- ===== src/Mir/Types/Layouts/Concat.antt =====
-- src/mir/ty.rs: the layout of a record against `Layout::concat`, and the sizes of what is passed by
-- value.
use roto.Prelude.{
  ℕ, suc, false, ◌==◌, ◌≡◌, ◌≤◌, ◌<◌, refl, sym, ap, ◌∙◌, List, [], ◌∷◌, Option, none, some,
  Option-cases, inl, inr, arith, Bool-cases, ==→≡, ◌>>=◌, usize_mod,
}
use roto.Layout
use roto.Layout.{Layout}
use roto.Layout.Builder
use roto.Layout.Builder.{LayoutBuilder, add, finish, add_all, concat}
use roto.Layout.Valid.{new-eq-some_iff}
use roto.Typechecker.Types.{Primitive, IntSize, FloatSize}
use roto.Mir.Types.{Ty, get, field_types}
use roto.Mir.Types.Layouts.{
  Platform, Outcome, done, panicked, and_then, checked, add_fields, layout_of_ty, at_type,
  layout_of, primitive_layout, is_reference_ty, reference_of, is_reference_type,
}
use roto.Mir.Types.Layouts.IsValid.{and_then-done, checked-done}

-- The layouts of the types, one by one.
abbrev pub HaveLayouts : (ℕ → Outcome Layout) → List ℕ → List Layout → Type 0
HaveLayouts u [] [] = Unit
HaveLayouts u (t ∷ ts) (l ∷ ls) = (u t ≡ done l) × HaveLayouts u ts ls
HaveLayouts u _ _ = ⊥

abbrev pub builder_of : Option (List ℕ × LayoutBuilder) → Outcome LayoutBuilder
builder_of none = panicked
builder_of (some r) = done r.1

pub add_fields-add_all :
    (u : ℕ → Outcome Layout) (b : LayoutBuilder) (ts : List ℕ) (ls : List Layout)
    → HaveLayouts u ts ls
    → add_fields u b ts ≡ builder_of (add_all b ls)
unfolding add_fields add_all
add_fields-add_all u b [] [] h = refl
add_fields-add_all u b [] (l ∷ ls) h = absurd h
add_fields-add_all u b (t ∷ ts) [] h = absurd h
add_fields-add_all u b (t ∷ ts) (l ∷ ls) (h, hs) = elim (Option-cases (add b l)) [
  | inl e ↦ rw (h, e) refl
  | inr (r, e) ↦
      let ih = add_fields-add_all u r.1 ts ls hs in
      elim (Option-cases (add_all r.1 ls)) [
        | inl e' ↦ rw (h, e, ih, e') refl
        | inr (r', e') ↦ rw (h, e, ih, e') refl
      ]
]

pub finish_all :
    (o : Option (List ℕ × LayoutBuilder))
    → and_then (builder_of o) (λ b. checked (finish b)) ≡ checked (o >>= λ r. finish r.1)
finish_all none = refl
finish_all (some r) = refl

-- The layout of a record whose fields have layouts is the one that `Layout::concat` gives for them
-- in their order, and it panics exactly where that does.
pub layout_of-concat :
    (fuel : ℕ) (pool : List Ty) (rt : Platform) (t : ℕ) (fs : List (ℕ × ℕ)) (ls : List Layout)
    → get pool t ≡ some (Ty.record_type fs)
    → HaveLayouts (layout_of fuel pool rt) (field_types fs) ls
    → layout_of (suc fuel) pool rt t ≡ checked (concat ls)
unfolding layout_of layout_of_ty concat
layout_of-concat fuel pool rt t fs ls e h =
    ap (at_type (layout_of_ty (layout_of fuel pool rt) rt)) e
    ∙ ap (λ o. and_then o (λ b. checked (finish b)))
        (add_fields-add_all (layout_of fuel pool rt) Builder.new (field_types fs) ls h)
    ∙ finish_all (add_all Builder.new ls)

new_size : (n a : ℕ) (l : Layout) → n < usize_mod → checked (Layout.new n a) ≡ done l → l.size ≡ n
new_size n a l lt h =
    let (v, size, align) = (new-eq-some_iff n a l lt).0 (checked-done (Layout.new n a) h) in size

value_size :
    (rt : Platform) (p : Primitive) (l : Layout)
    → is_reference_ty (Ty.primitive p) ≡ done false
    → checked (primitive_layout rt p) ≡ done l
    → l.size ≤ 8
value_size rt (Primitive.int k IntSize.i8) l v h = omega (arith, new_size 1 1 l (omega arith) h)
value_size rt (Primitive.int k IntSize.i16) l v h = omega (arith, new_size 2 2 l (omega arith) h)
value_size rt (Primitive.int k IntSize.i32) l v h = omega (arith, new_size 4 4 l (omega arith) h)
value_size rt (Primitive.int k IntSize.i64) l v h = omega (arith, new_size 8 8 l (omega arith) h)
value_size rt (Primitive.float FloatSize.f32) l v h = omega (arith, new_size 4 4 l (omega arith) h)
value_size rt (Primitive.float FloatSize.f64) l v h = omega (arith, new_size 8 8 l (omega arith) h)
value_size rt Primitive.bool l v h = omega (arith, new_size 1 1 l (omega arith) h)
value_size rt Primitive.char l v h = omega (arith, new_size 4 4 l (omega arith) h)
value_size rt Primitive.asn l v h = omega (arith, new_size 4 4 l (omega arith) h)
value_size rt p l v h = cc

value_ty_size :
    (u : ℕ → Outcome Layout) (rt : Platform) (ty : Ty) (l : Layout)
    → is_reference_ty ty ≡ done false
    → layout_of_ty u rt ty ≡ done l
    → l.size ≤ 8
unfolding layout_of_ty
value_ty_size u rt Ty.unit l v h = omega (arith, new_size 0 1 l (omega arith) h)
value_ty_size u rt (Ty.primitive p) l v h = value_size rt p l v h
value_ty_size u rt ty l v h = cc

-- What is not passed by reference has a layout of at most eight bytes.
pub is_reference_type-false :
    (fuel : ℕ) (pool : List Ty) (rt : Platform) (t : ℕ)
    → is_reference_type (suc fuel) pool rt t ≡ done false
    → (l : Layout) × (layout_of (suc fuel) pool rt t ≡ done l) × (l.size ≤ 8)
unfolding is_reference_type layout_of
is_reference_type-false fuel pool rt t h =
    let (l, found, rest) = and_then-done (layout_of (suc fuel) pool rt t) _ h in
    elim (Bool-cases (l.size == 0)) [
      | inl empty ↦ (l, found, ground (arith, ==→≡ l.size 0 empty))
      | inr sized ↦
          let value : reference_of (get pool t) ≡ done false = (rw sized at rest) in
          elim (Option-cases (get pool t)) [
            | inl e ↦ let bad : panicked ≡ done false = sym (ap reference_of e) ∙ value in cc
            | inr (ty, e) ↦ (
              l,
              found,
              value_ty_size (layout_of fuel pool rt) rt ty l (sym (ap reference_of e) ∙ value)
                  (sym (ap (at_type (layout_of_ty (layout_of fuel pool rt) rt)) e) ∙ found),
            )
          ]
    ]
