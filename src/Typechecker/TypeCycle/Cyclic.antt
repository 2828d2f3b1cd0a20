-- ===== src/Typechecker/TypeCycle/Cyclic.antt =====
-- src/typechecker/type_cycle.rs: the cycle behind the error.
use roto.Prelude.{
  ℕ, zero, suc, true, false, ◌≡◌, ◌⊎◌, inl, inr, refl, sym, ◌∙◌, subst, List, [], ◌∷◌, length, none,
  some, Option-cases,
}
use roto.Typechecker.{ResolvedName}
use roto.Typechecker.Types.{RotoType, Types, Fields, EnumVariant, TypeDefinition}
use roto.Typechecker.TypeCycle.{
  Marks, TypeMap, Outcome, ok, cycle, unresolved, panicked, out_of_fuel, and_then, get, visit,
  visit_fields, visit_types, visit_variants, visit_definition, visit_unmarked, visit_name,
  visit_each, detect_type_cycles,
}
use roto.Typechecker.TypeCycle.Marks.{
  Mentions, FieldsMention, TypesMention, VariantsMention, DefinitionMentions, Edge, VisitsNames,
  visit_lem, visit_types_lem,
}
use roto.Typechecker.TypeCycle.Acyclic.{get_cons, visit_name-Visited}

-- One type refers to another one, directly or through others.
pub data Chain (types : TypeMap) : ResolvedName → ResolvedName → Type 0 where
  edge : {n m : ResolvedName} → Edge types n m → Chain types n m
  step : {n m k : ResolvedName} → Chain types n m → Edge types m k → Chain types n k

abbrev pub Cycle : TypeMap → Type 0
Cycle types = (n : ResolvedName) × Chain types n n

and_then-cycle :
    (o : Outcome) (f : Marks → Outcome)
    → and_then o f ≡ cycle
    → (o ≡ cycle) ⊎ ((v : Marks) × (o ≡ ok v) × (f v ≡ cycle))
and_then-cycle (ok v) f h = inr (v, refl, h)
and_then-cycle cycle f h = inl refl
and_then-cycle unresolved f h = cc
and_then-cycle panicked f h = cc
and_then-cycle out_of_fuel f h = cc

-- The types with a temporary mark all refer to each name with the property.
abbrev Lead : TypeMap → Marks → (ResolvedName → Type 0) → Type 0
Lead types v P = (m k : ResolvedName) → get v m ≡ some false → P k → Chain types m k

abbrev CyclesAtNames : TypeMap → (Marks → ResolvedName → Outcome) → Type 0
CyclesAtNames types u =
    (v : Marks) (n : ResolvedName) → u v n ≡ cycle → Lead types v (λ k. n ≡ k) → Cycle types

module _ (types : TypeMap) (u : Marks → ResolvedName → Outcome) (names : VisitsNames types u)
    (cycles : CyclesAtNames types u) where
  mutual
    unfolding visit Mentions

    visit-Cycle :
        (v : Marks) (t : RotoType) → visit u v t ≡ cycle → Lead types v (Mentions t) → Cycle types
    visit-Cycle v (RotoType.record_type fs) h lead = visit_fields-Cycle v fs h lead
    visit-Cycle v (RotoType.named n ts) h lead = cycles v n h lead
    visit-Cycle v t h lead = cc

    visit_fields-Cycle :
        (v : Marks) (fs : Fields)
        → visit_fields u v fs ≡ cycle
        → Lead types v (FieldsMention fs)
        → Cycle types
    visit_fields-Cycle v Fields.end h lead = cc
    visit_fields-Cycle v (Fields.field k t fs) h lead =
        elim (and_then-cycle (visit u v t) (λ v'. visit_fields u v' fs) h) [
          | inl e ↦ visit-Cycle v t e (λ m k g p. lead m k g (inl p))
          | inr (v', e, rest) ↦
              let r = visit_lem types u names v t v' e in
              visit_fields-Cycle v' fs rest (λ m k g p. lead m k (r.temporary m g) (inr p))
        ]

  visit_types-Cycle :
      (v : Marks) (ts : Types)
      → visit_types u v ts ≡ cycle
      → Lead types v (TypesMention ts)
      → Cycle types
  unfolding visit_types
  visit_types-Cycle v Types.nil h lead = cc
  visit_types-Cycle v (Types.cons t ts) h lead =
      elim (and_then-cycle (visit u v t) (λ v'. visit_types u v' ts) h) [
        | inl e ↦ visit-Cycle v t e (λ m k g p. lead m k g (inl p))
        | inr (v', e, rest) ↦
            let r = visit_lem types u names v t v' e in
            visit_types-Cycle v' ts rest (λ m k g p. lead m k (r.temporary m g) (inr p))
      ]

  visit_variants-Cycle :
      (v : Marks) (ws : List EnumVariant)
      → visit_variants u v ws ≡ cycle
      → Lead types v (VariantsMention ws)
      → Cycle types
  unfolding visit_variants
  visit_variants-Cycle v [] h lead = cc
  visit_variants-Cycle v (w ∷ ws) h lead =
      elim (and_then-cycle (visit_types u v w.fields) (λ v'. visit_variants u v' ws) h) [
        | inl e ↦ visit_types-Cycle v w.fields e (λ m k g p. lead m k g (inl p))
        | inr (v', e, rest) ↦
            let r = visit_types_lem types u names v w.fields v' e in
            visit_variants-Cycle v' ws rest (λ m k g p. lead m k (r.temporary m g) (inr p))
      ]

  visit_definition-Cycle :
      (v : Marks) (d : TypeDefinition)
      → visit_definition u v d ≡ cycle
      → Lead types v (DefinitionMentions d)
      → Cycle types
  visit_definition-Cycle v (TypeDefinition.enum n ws) h lead = visit_variants-Cycle v ws h lead
  visit_definition-Cycle v (TypeDefinition.record_definition n fs) h lead =
      visit_fields-Cycle v fs h lead
  visit_definition-Cycle v d h lead = cc

  -- A name that is visited gets a temporary mark, and refers to what its definition does.
  visit_unmarked-Cycle :
      (v : Marks) (n : ResolvedName) (d : TypeDefinition)
      → get types n ≡ some d
      → visit_unmarked u v n (some d) ≡ cycle
      → Lead types v (λ k. n ≡ k)
      → Cycle types
  visit_unmarked-Cycle v n d at h lead =
      elim (and_then-cycle (visit_definition u ((n, false) ∷ v) d) _ h) [
        | inl e ↦ visit_definition-Cycle ((n, false) ∷ v) d e (λ m k g p.
            elim (get_cons n false v m) [
              | inl (same, _) ↦ edge (subst (λ x. Edge types x k) same (d, at, p))
              | inr e' ↦ step (lead m n (sym e' ∙ g) refl) (d, at, p)
            ])
        | inr (v', e, last) ↦ cc
      ]

visit_name-Cycle : (fuel : ℕ) (types : TypeMap) → CyclesAtNames types (visit_name fuel types)
unfolding visit_name
visit_name-Cycle zero types v n h lead = cc
visit_name-Cycle (suc fuel) types v n h lead = elim (Option-cases (get v n)) [
  | inl unmarked ↦ elim (Option-cases (get types n)) [
    | inl e ↦ let bad : panicked ≡ cycle = (rw (visit_name, unmarked, e) at h) in cc
    | inr (d, e) ↦
        visit_unmarked-Cycle types (visit_name fuel types) (visit_name-Visited fuel types)
          (visit_name-Cycle fuel types) v n d e (rw (visit_name, unmarked, e) at h) lead
  ]
  | inr (true, e) ↦ let bad : ok v ≡ cycle = (rw (visit_name, e) at h) in cc
  | inr (false, e) ↦ (n, lead n n e refl)
]

visit_each-Cycle :
    (fuel : ℕ) (types : TypeMap) (v : Marks) (es : TypeMap)
    → visit_each fuel types v es ≡ cycle
    → ((m : ResolvedName) → get v m ≡ some false → ⊥)
    → Cycle types
unfolding visit_each
visit_each-Cycle fuel types v [] h none_temporary = cc
visit_each-Cycle fuel types v ((n, d) ∷ es) h none_temporary =
    elim (and_then-cycle (visit_name fuel types v n) (λ v'. visit_each fuel types v' es) h) [
      | inl e ↦ visit_name-Cycle fuel types v n e (λ m k g p. absurd (none_temporary m g))
      | inr (v', e, rest) ↦
          let r = visit_name-Visited fuel types v n v' e in
          visit_each-Cycle fuel types v' es rest (λ m g. none_temporary m (r.temporary m g))
    ]

-- When the check reports a cycle, there is one: a type that refers to itself, directly or through
-- others.
pub detect_type_cycles-cycle : (types : TypeMap) → detect_type_cycles types ≡ cycle → Cycle types
unfolding detect_type_cycles get
detect_type_cycles-cycle types h =
    visit_each-Cycle (suc (length types)) types [] types h
      (λ m g. let bad : none ≡ some false = g in cc)
