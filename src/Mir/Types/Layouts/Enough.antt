-- ===== src/Mir/Types/Layouts/Enough.antt =====
-- src/mir/ty.rs: the fuel of `layout_of`, and what is passed by reference.
use roto.Prelude.{
  ℕ, zero, suc, ◌≡◌, ◌≢◌, ◌<◌, refl, subst, List, [], ◌∷◌, Option, none, some, Option-cases, inl,
  inr, arith, All,
}
use roto.Layout
use roto.Layout.{Layout, union, is_power_below}
use roto.Layout.Builder
use roto.Layout.Builder.{LayoutBuilder, add, finish}
use roto.Mir.Types.{Ty, get, field_types}
use roto.Mir.Types.Layouts.{
  Platform, Outcome, done, uninhabited, panicked, out_of_fuel, and_then, checked, add_fields, tag,
  variant_layout, join, continue_with, enum_layout, layout_of_ty, at_type, layout_of,
  primitive_layout,
}
use roto.Mir.Types.Interned.{RefersBelow, IsOrdered}

and_then-fuel :
    {A B : Type 0} (m : Outcome A) (f : A → Outcome B)
    → m ≢ out_of_fuel
    → ((a : A) → f a ≢ out_of_fuel)
    → and_then m f ≢ out_of_fuel
and_then-fuel (done a) f hm hf h = hf a h
and_then-fuel uninhabited f hm hf h = cc
and_then-fuel panicked f hm hf h = cc
and_then-fuel out_of_fuel f hm hf h = hm refl

checked-fuel : {A : Type 0} (o : Option A) → checked o ≢ out_of_fuel
checked-fuel none h = cc
checked-fuel (some a) h = cc

module _ (u : ℕ → Outcome Layout) where
  abbrev Ends : ℕ → Type 0
  Ends t = u t ≢ out_of_fuel

  add_fields-fuel :
      (b : LayoutBuilder) (ts : List ℕ) → All Ends ts → add_fields u b ts ≢ out_of_fuel
  unfolding add_fields
  add_fields-fuel b [] h = λ e. cc
  add_fields-fuel b (t ∷ ts) (h, hs) = and_then-fuel (u t) _ h (λ l.
      and_then-fuel (checked (add b l)) _ (checked-fuel (add b l)) (λ r. add_fields-fuel r.1 ts hs))

  variant_layout-fuel : (ts : List ℕ) → All Ends ts → variant_layout u ts ≢ out_of_fuel
  unfolding variant_layout
  variant_layout-fuel ts h =
      and_then-fuel (checked (add Builder.new tag)) _ (checked-fuel (add Builder.new tag)) (λ r.
        and_then-fuel (add_fields u r.1 ts) _ (add_fields-fuel r.1 ts h)
          (λ b. checked-fuel (finish b)))

  continue_with-fuel :
      (acc : Option Layout) (rest : Option Layout → Outcome Layout) (o : Outcome Layout)
      → o ≢ out_of_fuel
      → ((acc' : Option Layout) → rest acc' ≢ out_of_fuel)
      → continue_with acc rest o ≢ out_of_fuel
  continue_with-fuel acc rest (done l) h hr =
      and_then-fuel (checked (join acc l)) _ (checked-fuel (join acc l)) (λ k. hr (some k))
  continue_with-fuel acc rest uninhabited h hr = hr acc
  continue_with-fuel acc rest panicked h hr = λ e. cc
  continue_with-fuel acc rest out_of_fuel h hr = λ e. h refl

  enum_layout-fuel :
      (vs : List (ℕ × List ℕ)) (acc : Option Layout)
      → All (λ v. All Ends v.1) vs
      → enum_layout u vs acc ≢ out_of_fuel
  unfolding enum_layout
  enum_layout-fuel [] none h = λ e. cc
  enum_layout-fuel [] (some l) h = λ e. cc
  enum_layout-fuel ((n, ts) ∷ vs) acc (h, hs) =
      continue_with-fuel acc (enum_layout u vs) (variant_layout u ts) (variant_layout-fuel ts h)
        (λ acc'. enum_layout-fuel vs acc' hs)

All-mono {ℓ} :
    {A : Type ℓ} {P Q : A → Type 0} (xs : List A) → ((a : A) → P a → Q a) → All P xs → All Q xs
All-mono [] f h = tt
All-mono (x ∷ xs) f (h, hs) = (f x h, All-mono xs f hs)

layout_of_ty-fuel :
    (u : ℕ → Outcome Layout) (rt : Platform) (n : ℕ) (ty : Ty)
    → ((t : ℕ) → t < n → u t ≢ out_of_fuel)
    → RefersBelow n ty
    → layout_of_ty u rt ty ≢ out_of_fuel
unfolding layout_of_ty
layout_of_ty-fuel u rt n Ty.never h r = λ e. cc
layout_of_ty-fuel u rt n Ty.unit h r = checked-fuel (Layout.new 0 1)
layout_of_ty-fuel u rt n (Ty.primitive p) h r = checked-fuel (primitive_layout rt p)
layout_of_ty-fuel u rt n (Ty.runtime id) h r = checked-fuel (rt.runtime_type id)
layout_of_ty-fuel u rt n (Ty.record_type fs) h r =
    and_then-fuel (add_fields u Builder.new (field_types fs)) _
      (add_fields-fuel u Builder.new (field_types fs) (All-mono (field_types fs) h r))
      (λ b. checked-fuel (finish b))
layout_of_ty-fuel u rt n (Ty.enum vs) h r =
    enum_layout-fuel u vs none (All-mono vs (λ v. All-mono v.1 h) r)
layout_of_ty-fuel u rt n (Ty.list t) h r = λ e. cc

-- In a pool in which each type refers to earlier types only, the recursion of `layout_of` ends: as
-- much fuel as the reference says, and one more, is enough.
pub layout_of-fuel :
    (fuel : ℕ) (pool : List Ty) (rt : Platform) (t : ℕ)
    → IsOrdered pool
    → t < fuel
    → layout_of fuel pool rt t ≢ out_of_fuel
unfolding layout_of
layout_of-fuel zero pool rt t o lt = absurd (omega arith)
layout_of-fuel (suc fuel) pool rt t o lt = elim (Option-cases (get pool t)) [
  | inl e ↦ λ h.
      let bad : panicked ≡ out_of_fuel =
        subst (λ x. at_type (layout_of_ty (layout_of fuel pool rt) rt) x ≡ out_of_fuel) e h in
      cc
  | inr (ty, e) ↦ λ h.
      layout_of_ty-fuel (layout_of fuel pool rt) rt t ty
        (λ t' lt'. layout_of-fuel fuel pool rt t' o (omega arith)) (o t ty e)
        (subst (λ x. at_type (layout_of_ty (layout_of fuel pool rt) rt) x ≡ out_of_fuel) e h)
]
