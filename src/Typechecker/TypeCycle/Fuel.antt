-- ===== src/Typechecker/TypeCycle/Fuel.antt =====
-- src/typechecker/type_cycle.rs: the depth of the recursion over names.
use roto.Prelude.{
  ℕ, zero, suc, ◌+◌, ◌<◌, ◌≤◌, Bool, true, false, ◌≡◌, ◌≢◌, inl, inr, refl, sym, ap, ◌∙◌, subst,
  List, [], ◌∷◌, length, Option, none, some, Option-cases, arith,
}
use roto.Typechecker.{ResolvedName}
use roto.Typechecker.Types.{RotoType, Types, Fields, EnumVariant, TypeDefinition}
use roto.Typechecker.TypeCycle.{
  Marks, TypeMap, Outcome, ok, cycle, unresolved, panicked, out_of_fuel, and_then, get, visit,
  visit_fields, visit_types, visit_variants, visit_definition, visit_name, visit_each,
  detect_type_cycles,
}
use roto.Typechecker.TypeCycle.Marks.{VisitsNames, visit_lem, visit_types_lem}
use roto.Typechecker.TypeCycle.Acyclic.{get_head, get_cons, visit_name-Visited, IsKey, get-IsKey}

-- The number of names without a mark.
abbrev one_if_none : Option Bool → ℕ
one_if_none none = 1
one_if_none (some b) = 0

le_one : (o : Option Bool) → one_if_none o ≤ 1
le_one none = omega arith
le_one (some b) = omega arith

abbrev unmarked : Marks → TypeMap → ℕ
unmarked v [] = 0
unmarked v ((n, d) ∷ es) = one_if_none (get v n) + unmarked v es

abbrev Grows : Marks → Marks → Type 0
Grows v v' = (m : ResolvedName) (b : Bool) → get v m ≡ some b → (b' : Bool) × (get v' m ≡ some b')

one_if_none-le :
    (v v' : Marks) (n : ResolvedName) → Grows v v' → one_if_none (get v' n) ≤ one_if_none (get v n)
one_if_none-le v v' n g = elim (Option-cases (get v n)) [
  | inl e ↦ rw e (le_one (get v' n))
  | inr (b, e) ↦ let (b', e') = g n b e in rw (e, e') (omega arith)
]

unmarked-le : (v v' : Marks) (es : TypeMap) → Grows v v' → unmarked v' es ≤ unmarked v es
unmarked-le v v' [] g = omega arith
unmarked-le v v' ((n, d) ∷ es) g = omega (arith, one_if_none-le v v' n g, unmarked-le v v' es g)

mark-Grows : (v : Marks) (n : ResolvedName) (c : Bool) → Grows v ((n, c) ∷ v)
mark-Grows v n c m b h = elim (get_cons n c v m) [ inl (same, e) ↦ (c, e) | inr e ↦ (b, e ∙ h) ]

unmarked-lt :
    (v : Marks) (n : ResolvedName) (c : Bool) (es : TypeMap)
    → IsKey es n
    → get v n ≡ none
    → unmarked ((n, c) ∷ v) es < unmarked v es
unmarked-lt v n c [] k e = absurd k
unmarked-lt v n c ((m, d) ∷ es) (inl same) e =
    let before : one_if_none (get v m) ≡ 1 =
      ap one_if_none (subst (λ x. get v x ≡ none) (sym same) e) in
    let after : one_if_none (get ((n, c) ∷ v) m) ≡ 0 =
      ap one_if_none (subst (λ x. get ((n, c) ∷ v) x ≡ some c) (sym same) (get_head n c v)) in
    omega (arith, before, after, unmarked-le v ((n, c) ∷ v) es (mark-Grows v n c))
unmarked-lt v n c ((m, d) ∷ es) (inr k) e =
    omega (arith, one_if_none-le v ((n, c) ∷ v) m (mark-Grows v n c), unmarked-lt v n c es k e)

unmarked-length : (v : Marks) (es : TypeMap) → unmarked v es ≤ length es
unmarked-length v [] = omega arith
unmarked-length v ((n, d) ∷ es) = omega (arith, le_one (get v n), unmarked-length v es)

and_then-fuel :
    (o : Outcome) (f : Marks → Outcome)
    → o ≢ out_of_fuel
    → ((v : Marks) → o ≡ ok v → f v ≢ out_of_fuel)
    → and_then o f ≢ out_of_fuel
and_then-fuel (ok v) f h k = k v refl
and_then-fuel cycle f h k = λ e. cc
and_then-fuel unresolved f h k = λ e. cc
and_then-fuel panicked f h k = λ e. cc
and_then-fuel out_of_fuel f h k = λ e. h refl

-- The visits of names end while so many names are without a mark.
abbrev Ends : TypeMap → ℕ → (Marks → ResolvedName → Outcome) → Type 0
Ends types bound u = (v : Marks) (n : ResolvedName) → unmarked v types < bound → u v n ≢ out_of_fuel

module _ (types : TypeMap) (bound : ℕ) (u : Marks → ResolvedName → Outcome)
    (names : VisitsNames types u) (ends : Ends types bound u) where
  grown : (v v' : Marks) → Grows v v' → unmarked v types < bound → unmarked v' types < bound
  grown v v' g h = omega (arith, unmarked-le v v' types g)

  mutual
    unfolding visit

    visit-fuel : (v : Marks) (t : RotoType) → unmarked v types < bound → visit u v t ≢ out_of_fuel
    visit-fuel v (RotoType.record_type fs) h = visit_fields-fuel v fs h
    visit-fuel v (RotoType.named n ts) h = ends v n h
    visit-fuel v t h = λ e. cc

    visit_fields-fuel :
        (v : Marks) (fs : Fields) → unmarked v types < bound → visit_fields u v fs ≢ out_of_fuel
    visit_fields-fuel v Fields.end h = λ e. cc
    visit_fields-fuel v (Fields.field k t fs) h =
        and_then-fuel (visit u v t) _ (visit-fuel v t h) (λ v' e.
          let r = visit_lem types u names v t v' e in
          visit_fields-fuel v' fs (grown v v' (λ m b. r.marked m) h))

  visit_types-fuel :
      (v : Marks) (ts : Types) → unmarked v types < bound → visit_types u v ts ≢ out_of_fuel
  unfolding visit_types
  visit_types-fuel v Types.nil h = λ e. cc
  visit_types-fuel v (Types.cons t ts) h = and_then-fuel (visit u v t) _ (visit-fuel v t h) (λ v' e.
      let r = visit_lem types u names v t v' e in
      visit_types-fuel v' ts (grown v v' (λ m b. r.marked m) h))

  visit_variants-fuel :
      (v : Marks) (ws : List EnumVariant)
      → unmarked v types < bound
      → visit_variants u v ws ≢ out_of_fuel
  unfolding visit_variants
  visit_variants-fuel v [] h = λ e. cc
  visit_variants-fuel v (w ∷ ws) h =
      and_then-fuel (visit_types u v w.fields) _ (visit_types-fuel v w.fields h) (λ v' e.
        let r = visit_types_lem types u names v w.fields v' e in
        visit_variants-fuel v' ws (grown v v' (λ m b. r.marked m) h))

  visit_definition-fuel :
      (v : Marks) (d : TypeDefinition)
      → unmarked v types < bound
      → visit_definition u v d ≢ out_of_fuel
  visit_definition-fuel v (TypeDefinition.enum n ws) h = visit_variants-fuel v ws h
  visit_definition-fuel v (TypeDefinition.record_definition n fs) h = visit_fields-fuel v fs h
  visit_definition-fuel v d h = λ e. cc

visit_name-fuel : (fuel : ℕ) (types : TypeMap) → Ends types fuel (visit_name fuel types)
unfolding visit_name
visit_name-fuel zero types v n h = absurd (omega arith)
visit_name-fuel (suc fuel) types v n h = elim (Option-cases (get v n)) [
  | inl e ↦ elim (Option-cases (get types n)) [
    | inl e' ↦ λ o. let bad : panicked ≡ out_of_fuel = (rw (visit_name, e, e') at o) in cc
    | inr (d, e') ↦ λ o.
        let less = unmarked-lt v n false types (get-IsKey types n e') e in
        and_then-fuel (visit_definition (visit_name fuel types) ((n, false) ∷ v) d)
          (λ v'. ok ((n, true) ∷ v'))
          (visit_definition-fuel types fuel (visit_name fuel types) (visit_name-Visited fuel types)
            (visit_name-fuel fuel types) ((n, false) ∷ v) d (omega arith))
          (λ v' e'' o'. let bad : ok ((n, true) ∷ v') ≡ out_of_fuel = o' in cc)
          (rw (visit_name, e, e') at o)
  ]
  | inr (true, e) ↦ λ o. let bad : ok v ≡ out_of_fuel = (rw (visit_name, e) at o) in cc
  | inr (false, e) ↦ λ o. let bad : cycle ≡ out_of_fuel = (rw (visit_name, e) at o) in cc
]

visit_each-fuel :
    (fuel : ℕ) (types : TypeMap) (v : Marks) (es : TypeMap)
    → length types < fuel
    → visit_each fuel types v es ≢ out_of_fuel
unfolding visit_each
visit_each-fuel fuel types v [] h = λ e. cc
visit_each-fuel fuel types v ((n, d) ∷ es) h =
    and_then-fuel (visit_name fuel types v n) _
      (visit_name-fuel fuel types v n (omega (arith, unmarked-length v types)))
      (λ v' e. visit_each-fuel fuel types v' es h)

-- The check of the types ends: the recursion is never deeper than there are types.
pub detect_type_cycles-fuel : (types : TypeMap) → detect_type_cycles types ≢ out_of_fuel
unfolding detect_type_cycles
detect_type_cycles-fuel types = visit_each-fuel (suc (length types)) types [] types (omega arith)
