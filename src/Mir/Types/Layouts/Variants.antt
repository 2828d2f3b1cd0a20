-- ===== src/Mir/Types/Layouts/Variants.antt =====
-- src/mir/ty.rs, `layout_of`: where the fields of the variants of an enum lie.
use roto.Prelude.{
  ℕ, zero, suc, ◌+◌, ◌%◌, ◌≤◌, ◌≡◌, ◌≢◌, refl, sym, ap, ◌∙◌, subst, List, [], ◌∷◌, get_elem?,
  Option, none, some, some_inj, Option-cases, inl, inr, arith, All,
}
use roto.Layout.{Layout, IsValid}
use roto.Layout.Multiple.{mod_trans}
use roto.Layout.Builder
use roto.Layout.Builder.{LayoutBuilder, add, finish, add_all, concat}
use roto.Layout.Builder.Fields.{Laid, Laid-le, Divides, concat_lem}
use roto.Mir.Types.{Ty, get}
use roto.Mir.Types.Layouts.{
  Platform, Outcome, done, panicked, out_of_fuel, checked, tag, variant_layout, join, continue_with,
  enum_layout, layout_of_ty, at_type, layout_of,
}
use roto.Mir.Types.Layouts.IsValid.{IsPlatform, GivesValid, and_then-done, tag-IsValid}
use roto.Mir.Types.Layouts.Enum.{Outcome-cases, layout_of-IsValid, enum_variant_lem}
use roto.Mir.Types.Layouts.Concat.{HaveLayouts, add_fields-add_all}

-- The layout of a variant whose fields have layouts
variant_layout-concat :
    (u : ℕ → Outcome Layout) (ts : List ℕ) (ls : List Layout)
    → HaveLayouts u ts ls
    → variant_layout u ts ≡ checked (concat (tag ∷ ls))
unfolding variant_layout concat add_all
variant_layout-concat u ts ls h = elim (Option-cases (add Builder.new tag)) [
  | inl e ↦ rw e refl
  | inr (r, e) ↦
      let fields = add_fields-add_all u r.1 ts ls h in
      elim (Option-cases (add_all r.1 ls)) [
        | inl e' ↦ rw (e, fields, e') refl
        | inr (r', e') ↦ rw (e, fields, e') refl
      ]
]

-- A variant that panics makes the whole panic.
enum_layout-variant :
    (u : ℕ → Outcome Layout) (vs : List (ℕ × List ℕ)) (acc : Option Layout) (l : Layout) (i n : ℕ)
    (ts : List ℕ)
    → enum_layout u vs acc ≡ done l
    → get_elem? vs i ≡ some (n, ts)
    → variant_layout u ts ≢ panicked
unfolding enum_layout
enum_layout-variant u [] acc l i n ts h at e = cc
enum_layout-variant u ((m, us) ∷ vs) acc l zero n ts h at e =
    let first : variant_layout u us ≡ panicked =
      subst (λ p. variant_layout u p.1 ≡ panicked) (sym (some_inj at)) e in
    let bad : panicked ≡ done l =
      subst (λ o. continue_with acc (enum_layout u vs) o ≡ done l) first h in
    cc
enum_layout-variant u ((m, us) ∷ vs) acc l (suc i) n ts h at e =
    elim (Outcome-cases (variant_layout u us)) [
      | inl (k, f) ↦
          let (j, joined, rest) =
            and_then-done (checked (join acc k)) _
              (subst (λ o. continue_with acc (enum_layout u vs) o ≡ done l) f h) in
          enum_layout-variant u vs (some j) l i n ts rest at e
      | inr (inl f) ↦
          enum_layout-variant u vs acc l i n ts
            (subst (λ o. continue_with acc (enum_layout u vs) o ≡ done l) f h) at e
      | inr (inr (inl f)) ↦
          let bad : panicked ≡ done l =
            subst (λ o. continue_with acc (enum_layout u vs) o ≡ done l) f h in
          cc
      | inr (inr (inr f)) ↦
          let bad : out_of_fuel ≡ done l =
            subst (λ o. continue_with acc (enum_layout u vs) o ≡ done l) f h in
          cc
    ]

HaveLayouts-IsValid :
    (u : ℕ → Outcome Layout) (ts : List ℕ) (ls : List Layout)
    → GivesValid u
    → HaveLayouts u ts ls
    → All IsValid ls
HaveLayouts-IsValid u [] [] gives h = tt
HaveLayouts-IsValid u [] (l ∷ ls) gives h = absurd h
HaveLayouts-IsValid u (t ∷ ts) [] gives h = absurd h
HaveLayouts-IsValid u (t ∷ ts) (l ∷ ls) gives (h, hs) =
    (gives t l h, HaveLayouts-IsValid u ts ls gives hs)

-- Fields that lie behind some place lie behind an earlier one.
Laid-ge :
    (start start' : ℕ) (ls : List Layout) (os : List ℕ) (end : ℕ)
    → start' ≤ start
    → Laid start ls os end
    → Laid start' ls os end
Laid-ge start start' [] [] end le h = omega arith
Laid-ge start start' [] (o ∷ os) end le h = h
Laid-ge start start' (l ∷ ls) [] end le h = h
Laid-ge start start' (l ∷ ls) (o ∷ os) end le (a, b, c) = (omega arith, b, c)

All-Divides : (n m : ℕ) (ls : List Layout) → n % m ≡ 0 → All (Divides m) ls → All (Divides n) ls
All-Divides n m [] d h = tt
All-Divides n m (l ∷ ls) d (h, hs) = (mod_trans n l.align m h d, All-Divides n m ls d hs)

without_tag :
    (ls : List Layout) (os : List ℕ) (end : ℕ)
    → Laid 0 (tag ∷ ls) os end
    → (os' : List ℕ) × Laid 1 ls os' end
without_tag ls [] end h = absurd h
without_tag ls (o ∷ os) end (a, b, h) = (os, Laid-ge (o + 1) 1 ls os end (omega arith) h)

-- For each variant whose fields have layouts, the layout of an enum has a place for every field: in
-- order and aligned, behind the first byte, which is left to the tag, without an overlap, and
-- within the size of the enum. The alignment of each field divides that of the enum. This rests on
-- the layouts of Rust's types being valid.
pub layout_of_enum_lem :
    (fuel : ℕ) (pool : List Ty) (rt : Platform) (t : ℕ) (vs : List (ℕ × List ℕ)) (l : Layout)
    (i n : ℕ) (ts : List ℕ) (ls : List Layout)
    → IsPlatform rt
    → get pool t ≡ some (Ty.enum vs)
    → layout_of (suc fuel) pool rt t ≡ done l
    → get_elem? vs i ≡ some (n, ts)
    → HaveLayouts (layout_of fuel pool rt) ts ls
    → ((os : List ℕ) × Laid 1 ls os l.size) × All (Divides l.align) ls
unfolding layout_of layout_of_ty
layout_of_enum_lem fuel pool rt t vs l i n ts ls v e h at have =
    let u = layout_of fuel pool rt in
    let gives : GivesValid (layout_of fuel pool rt) =
      λ t' l' h'. layout_of-IsValid fuel pool rt t' l' v h' in
    let enum : enum_layout (layout_of fuel pool rt) vs none ≡ done l =
      subst (λ o. at_type (layout_of_ty (layout_of fuel pool rt) rt) o ≡ done l) e h in
    let whole = variant_layout-concat (layout_of fuel pool rt) ts ls have in
    elim (Option-cases (concat (tag ∷ ls))) [
      | inl bad ↦ absurd (
          enum_layout-variant (layout_of fuel pool rt) vs none l i n ts enum at
            (whole ∙ ap checked bad))
      | inr (k, found) ↦
          let (_, (size_le, divides)) =
            enum_variant_lem fuel pool rt t vs l v e h i n ts k at (whole ∙ ap checked found) in
          let (_, (os, _, _, laid), (_, fields)) =
            concat_lem (tag ∷ ls) k
              (tag-IsValid, HaveLayouts-IsValid (layout_of fuel pool rt) ts ls gives have) found in
          let (os', inner) = without_tag ls os k.size laid in
          (
            (os', Laid-le 1 ls os' k.size l.size size_le inner),
            All-Divides l.align k.align ls divides fields,
          )
    ]
