-- ===== src/Mir/Types/Layouts/Enum.antt =====
-- src/mir/ty.rs, `layout_of`: the layout of an enum against those of its variants, and the layout
-- of any type.
use roto.Prelude.{
  ℕ, zero, suc, ◌≡◌, ◌≤◌, ◌%◌, refl, sym, ◌∙◌, subst, List, [], ◌∷◌, get_elem?, Option, none, some,
  some_inj, Option-cases, inl, inr, ◌⊎◌, arith,
}
use roto.Layout.{Layout, IsValid, union}
use roto.Layout.Valid.{union_lem}
use roto.Layout.Multiple.{mod_trans}
use native.Mathlib.Nat.{mod_self}
use roto.Layout.Builder
use roto.Layout.Builder.{LayoutBuilder, add, finish}
use roto.Layout.Builder.Fields.{new-IsBuilder, finish-IsValid}
use roto.Mir.Types.{Ty, get, field_types}
use roto.Mir.Types.Layouts.{
  Platform, Outcome, done, uninhabited, panicked, out_of_fuel, checked, add_fields, variant_layout,
  join, continue_with, enum_layout, layout_of_ty, at_type, layout_of,
}
use roto.Mir.Types.Layouts.IsValid.{
  IsPlatform, and_then-done, done_inj, checked-done, GivesValid, primitive-IsValid, new-IsValid,
  add_fields-IsBuilder, variant-IsValid,
}

-- The second layout fits into the first: it is no larger, and an aligned place for the first is
-- one for the second.
abbrev pub Covers : Layout → Layout → Type 0
Covers l k = (k.size ≤ l.size) × (l.align % k.align ≡ 0)

Covers-trans : (l k j : Layout) → Covers l k → Covers k j → Covers l j
Covers-trans l k j (le, divides) (le', divides') =
    (omega arith, mod_trans l.align j.align k.align divides' divides)

-- The layouts that have been joined.
abbrev Joined : Option Layout → Type 0
Joined acc = (k : Layout) → acc ≡ some k → IsValid k

join_lem :
    (acc : Option Layout) (k l : Layout)
    → Joined acc
    → IsValid k
    → checked (join acc k) ≡ done l
    → IsValid l × Covers l k × ((j : Layout) → acc ≡ some j → Covers l j)
join_lem none k l valid v h =
    let same = done_inj h in
    (subst IsValid same v, subst (λ x. Covers x k) same (omega arith, mod_self k.align), λ j e. cc)
join_lem (some i) k l valid v h =
    let (v', le_i, le_k, div_i, div_k, _) =
      union_lem i k l (valid i refl) v (checked-done (union i k) h) in
    (v', (le_k, div_k), λ j e. subst (Covers l) (some_inj e) (le_i, div_i))

pub Outcome-cases :
    {A : Type 0} (o : Outcome A)
    → ((a : A) × (o ≡ done a)) ⊎ ((o ≡ uninhabited) ⊎ ((o ≡ panicked) ⊎ (o ≡ out_of_fuel)))
Outcome-cases (done a) = inl (a, refl)
Outcome-cases uninhabited = inr (inl refl)
Outcome-cases panicked = inr (inr (inl refl))
Outcome-cases out_of_fuel = inr (inr (inr refl))

-- What the loop over the variants ends with covers each variant that is inhabited.
pub record IsEnumLayout (u : ℕ → Outcome Layout) (vs : List (ℕ × List ℕ)) (acc : Option Layout)
    (l : Layout) : Type 0 where
  pub valid : IsValid l
  pub earlier : (j : Layout) → acc ≡ some j → Covers l j
  pub variants :
      (i n : ℕ) (ts : List ℕ) (k : Layout)
      → get_elem? vs i ≡ some (n, ts)
      → variant_layout u ts ≡ done k
      → Covers l k

module _ (u : ℕ → Outcome Layout) (gives : GivesValid u) where
  variant_cases :
      (n : ℕ) (ts : List ℕ) (vs : List (ℕ × List ℕ)) (l : Layout) (i : ℕ)
      → ((k : Layout) → variant_layout u ts ≡ done k → Covers l k)
      → ((i n : ℕ) (ts : List ℕ) (k : Layout)
          → get_elem? vs i ≡ some (n, ts)
          → variant_layout u ts ≡ done k
          → Covers l k)
      → (n' : ℕ) (ts' : List ℕ) (k : Layout) → get_elem? ((n, ts) ∷ vs) i ≡ some (n', ts')
      → variant_layout u ts' ≡ done k
      → Covers l k
  variant_cases n ts vs l zero first rest n' ts' k at e =
      first k (subst (λ p. variant_layout u p.1 ≡ done k) (sym (some_inj at)) e)
  variant_cases n ts vs l (suc i) first rest n' ts' k at e = rest i n' ts' k at e

  pub enum_layout-IsEnumLayout :
      (vs : List (ℕ × List ℕ)) (acc : Option Layout) (l : Layout)
      → Joined acc
      → enum_layout u vs acc ≡ done l
      → IsEnumLayout u vs acc l
  unfolding enum_layout
  enum_layout-IsEnumLayout [] none l valid h = cc
  enum_layout-IsEnumLayout [] (some k) l valid h =
      let same = done_inj h in
      record {
        valid = subst IsValid same (valid k refl);
        earlier = λ j e.
            subst (λ x. Covers x j) (sym (some_inj e) ∙ same) (omega arith, mod_self j.align);
        variants = λ i n ts k e h. cc;
      }
  enum_layout-IsEnumLayout ((n, ts) ∷ vs) acc l valid h =
      elim (Outcome-cases (variant_layout u ts)) [
        | inl (k, e) ↦
            let (m, joined, rest) =
              and_then-done (checked (join acc k)) _
                (subst (λ o. continue_with acc (enum_layout u vs) o ≡ done l) e h) in
            let (vm, covers_k, covers_acc) =
              join_lem acc k m valid (variant-IsValid u gives ts k e) joined in
            let r =
              enum_layout-IsEnumLayout vs (some m) l (λ j q. subst IsValid (some_inj q) vm) rest in
            let covers_m = r.earlier m refl in
            record {
              valid = r.valid;
              earlier = λ j q. Covers-trans l m j covers_m (covers_acc j q);
              variants = λ i.
                  variant_cases n ts vs l i
                    (λ k' e'.
                      Covers-trans l m k' covers_m
                        (subst (Covers m) (done_inj (sym e ∙ e')) covers_k))
                    r.variants;
            }
        | inr (inl e) ↦
            let r =
              enum_layout-IsEnumLayout vs acc l valid
                (subst (λ o. continue_with acc (enum_layout u vs) o ≡ done l) e h) in
            record {
              valid = r.valid;
              earlier = r.earlier;
              variants = λ i.
                  variant_cases n ts vs l i
                    (λ k' e'. let bad : uninhabited ≡ done k' = sym e ∙ e' in cc) r.variants;
            }
        | inr (inr (inl e)) ↦
            let bad : panicked ≡ done l =
              subst (λ o. continue_with acc (enum_layout u vs) o ≡ done l) e h in
            cc
        | inr (inr (inr e)) ↦
            let bad : out_of_fuel ≡ done l =
              subst (λ o. continue_with acc (enum_layout u vs) o ≡ done l) e h in
            cc
      ]

module _ (u : ℕ → Outcome Layout) (gives : GivesValid u) where
  layout_of_ty-IsValid :
      (rt : Platform) (ty : Ty) (l : Layout)
      → IsPlatform rt
      → layout_of_ty u rt ty ≡ done l
      → IsValid l
  unfolding layout_of_ty
  layout_of_ty-IsValid rt Ty.never l v h = cc
  layout_of_ty-IsValid rt Ty.unit l v h = new-IsValid 0 1 l (omega arith) h
  layout_of_ty-IsValid rt (Ty.primitive p) l v h = primitive-IsValid rt p l v h
  layout_of_ty-IsValid rt (Ty.runtime id) l v h =
      v.runtime_type id l (checked-done (rt.runtime_type id) h)
  layout_of_ty-IsValid rt (Ty.record_type fs) l v h =
      let (b, fields, last) = and_then-done (add_fields u Builder.new (field_types fs)) _ h in
      (finish-IsValid b l
        (add_fields-IsBuilder u gives Builder.new (field_types fs) b new-IsBuilder fields)
        (checked-done (finish b) last)).0
  layout_of_ty-IsValid rt (Ty.enum vs) l v h =
      let r = enum_layout-IsEnumLayout u gives vs none l (λ k e. cc) h in r.valid
  layout_of_ty-IsValid rt (Ty.list t) l v h = subst IsValid (done_inj h) v.erased_list

-- Every layout that is computed for a type is valid: its alignment is a power of two, and its size
-- a multiple of the alignment; this rests on the layouts of Rust's types being so.
pub layout_of-IsValid :
    (fuel : ℕ) (pool : List Ty) (rt : Platform) (t : ℕ) (l : Layout)
    → IsPlatform rt
    → layout_of fuel pool rt t ≡ done l
    → IsValid l
unfolding layout_of
layout_of-IsValid zero pool rt t l v h = cc
layout_of-IsValid (suc fuel) pool rt t l v h = elim (Option-cases (get pool t)) [
  | inl e ↦
      let bad : panicked ≡ done l =
        subst (λ o. at_type (layout_of_ty (layout_of fuel pool rt) rt) o ≡ done l) e h in
      cc
  | inr (ty, e) ↦
      layout_of_ty-IsValid (layout_of fuel pool rt)
        (λ t' l' h'. layout_of-IsValid fuel pool rt t' l' v h') rt ty l v
        (subst (λ o. at_type (layout_of_ty (layout_of fuel pool rt) rt) o ≡ done l) e h)
]

-- The layout of an enum has the size and the alignment for the layout of each variant that has one.
pub enum_variant_lem :
    (fuel : ℕ) (pool : List Ty) (rt : Platform) (t : ℕ) (vs : List (ℕ × List ℕ)) (l : Layout)
    → IsPlatform rt
    → get pool t ≡ some (Ty.enum vs)
    → layout_of (suc fuel) pool rt t ≡ done l
    → (i n : ℕ) (ts : List ℕ) (k : Layout) → get_elem? vs i ≡ some (n, ts)
    → variant_layout (layout_of fuel pool rt) ts ≡ done k
    → IsValid k × Covers l k
unfolding layout_of layout_of_ty
enum_variant_lem fuel pool rt t vs l v e h i n ts k at found =
    let gives : GivesValid (layout_of fuel pool rt) =
      λ t' l' h'. layout_of-IsValid fuel pool rt t' l' v h' in
    let r =
      enum_layout-IsEnumLayout (layout_of fuel pool rt) gives vs none l (λ k e. cc)
        (subst (λ o. at_type (layout_of_ty (layout_of fuel pool rt) rt) o ≡ done l) e h) in
    (variant-IsValid (layout_of fuel pool rt) gives ts k found, r.variants i n ts k at found)
