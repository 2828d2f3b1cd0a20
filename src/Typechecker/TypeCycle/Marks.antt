-- ===== src/Typechecker/TypeCycle/Marks.antt =====
-- src/typechecker/type_cycle.rs: what a visit does to the marks.
use roto.Prelude.{
  Bool, true, false, ◌≡◌, ◌⊎◌, inl, inr, refl, subst, List, [], ◌∷◌, some, Bool-cases,
}
use roto.Typechecker.{ResolvedName}
use roto.Typechecker.Scope.{name_eq}
use roto.Typechecker.Types.{RotoType, Types, Fields, EnumVariant, TypeDefinition}
use roto.Typechecker.Types.Equal.{name_eq→≡, eq_self}
use roto.Typechecker.TypeCycle.{
  Marks, TypeMap, Outcome, ok, cycle, unresolved, panicked, out_of_fuel, and_then, get, visit,
  visit_fields, visit_types, visit_variants, visit_definition,
}

-- A name of the types that a type, a definition or an entry of the map is made of: what `visit`
-- comes to. The arguments of a name are not among them.
unfoldable mutual
  pub Mentions : RotoType → ResolvedName → Type 0
  Mentions (RotoType.record_type fs) m = FieldsMention fs m
  Mentions (RotoType.named n ts) m = n ≡ m
  Mentions t m = ⊥

  pub FieldsMention : Fields → ResolvedName → Type 0
  FieldsMention Fields.end m = ⊥
  FieldsMention (Fields.field k t fs) m = Mentions t m ⊎ FieldsMention fs m

abbrev pub TypesMention : Types → ResolvedName → Type 0
TypesMention Types.nil m = ⊥
TypesMention (Types.cons t ts) m = Mentions t m ⊎ TypesMention ts m

abbrev pub VariantsMention : List EnumVariant → ResolvedName → Type 0
VariantsMention [] m = ⊥
VariantsMention (w ∷ ws) m = TypesMention w.fields m ⊎ VariantsMention ws m

abbrev pub DefinitionMentions : TypeDefinition → ResolvedName → Type 0
DefinitionMentions (TypeDefinition.enum n ws) m = VariantsMention ws m
DefinitionMentions (TypeDefinition.record_definition n fs) m = FieldsMention fs m
DefinitionMentions _ m = ⊥

abbrev pub Edge : TypeMap → ResolvedName → ResolvedName → Type 0
Edge types n m = (d : TypeDefinition) × (get types n ≡ some d) × DefinitionMentions d m

-- A name with a permanent mark.
abbrev pub Done : Marks → ResolvedName → Type 0
Done [] m = ⊥
Done ((k, true) ∷ v) m = (k ≡ m) ⊎ Done v m
Done ((k, false) ∷ v) m = Done v m

pub name_eq_self : (n : ResolvedName) → name_eq n n ≡ true
name_eq_self n = rw (eq_self n.scope, eq_self n.ident) refl

pub get-Done : (v : Marks) (m : ResolvedName) → get v m ≡ some true → Done v m
unfolding get
get-Done [] m h = cc
get-Done ((k, true) ∷ v) m h = elim (Bool-cases (name_eq k m)) [
  | inl same ↦ inl (name_eq→≡ k m same)
  | inr other ↦ inr (get-Done v m (rw (get, other) at h))
]
get-Done ((k, false) ∷ v) m h = elim (Bool-cases (name_eq k m)) [
  | inl same ↦ let bad : some false ≡ some true = (rw (get, same) at h) in cc
  | inr other ↦ get-Done v m (rw (get, other) at h)
]

-- Behind each permanent mark, the names that the type refers to have one already.
abbrev pub IsTopological : TypeMap → Marks → Type 0
IsTopological types [] = Unit
IsTopological types ((k, true) ∷ v) =
    ((m : ResolvedName) → Edge types k m → Done v m) × IsTopological types v
IsTopological types ((k, false) ∷ v) = IsTopological types v

-- A visit that ends well, of the names with a property.
pub record Visited (types : TypeMap) (v v' : Marks) (P : ResolvedName → Type 0) : Type 0 where
  pub in_order : IsTopological types v → IsTopological types v'
  pub kept : (m : ResolvedName) → Done v m → Done v' m
  pub marked : (m : ResolvedName) {b : Bool} → get v m ≡ some b → (b' : Bool) × (get v' m ≡ some b')
  pub temporary : (m : ResolvedName) → get v' m ≡ some false → get v m ≡ some false
  pub done : (m : ResolvedName) → P m → Done v' m

pub ok_inj : {v v' : Marks} → ok v ≡ ok v' → v ≡ v'
ok_inj h = cc

pub and_then-ok :
    (o : Outcome) (f : Marks → Outcome) {v : Marks}
    → and_then o f ≡ ok v
    → (v' : Marks) × (o ≡ ok v') × (f v' ≡ ok v)
and_then-ok (ok v') f h = (v', refl, h)
and_then-ok cycle f h = cc
and_then-ok unresolved f h = cc
and_then-ok panicked f h = cc
and_then-ok out_of_fuel f h = cc

module _ {types : TypeMap} where
  pub Visited-none :
      {v v' : Marks} {P : ResolvedName → Type 0}
      → ok v ≡ ok v'
      → ((m : ResolvedName) → P m → ⊥)
      → Visited types v v' P
  Visited-none {v} {v'} {P} e absent =
      subst (λ w. Visited types v w P) (ok_inj e)
        (record {
          in_order = λ h. h;
          kept = λ m d. d;
          marked = λ m {b} h. (b, h);
          temporary = λ m h. h;
          done = λ m p. absurd (absent m p);
        })

  pub Visited-both :
      {v v₁ v₂ : Marks} {P Q : ResolvedName → Type 0}
      → Visited types v v₁ P
      → Visited types v₁ v₂ Q
      → Visited types v v₂ (λ m. P m ⊎ Q m)
  Visited-both a b = record {
    in_order = λ h. b.in_order (a.in_order h);
    kept = λ m d. b.kept m (a.kept m d);
    marked = λ m h. let (b', h') = a.marked m h in b.marked m h';
    temporary = λ m h. a.temporary m (b.temporary m h);
    done = λ m p. elim p [ inl l ↦ b.kept m (a.done m l) | inr r ↦ b.done m r ];
  }

-- The visits of names that the visits of types are made of.
abbrev pub VisitsNames : TypeMap → (Marks → ResolvedName → Outcome) → Type 0
VisitsNames types u =
    (v : Marks) (n : ResolvedName) (v' : Marks) → u v n ≡ ok v' → Visited types v v' (λ m. n ≡ m)

module _ (types : TypeMap) (u : Marks → ResolvedName → Outcome) (names : VisitsNames types u) where
  mutual
    unfolding visit Mentions

    pub visit_lem :
        (v : Marks) (t : RotoType) (v' : Marks)
        → visit u v t ≡ ok v'
        → Visited types v v' (Mentions t)
    visit_lem v RotoType.never v' h = Visited-none h (λ m p. p)
    visit_lem v RotoType.unit v' h = Visited-none h (λ m p. p)
    visit_lem v (RotoType.function ps r) v' h = Visited-none h (λ m p. p)
    visit_lem v (RotoType.explicit_var x) v' h = Visited-none h (λ m p. p)
    visit_lem v (RotoType.record_type fs) v' h = visit_fields_lem v fs v' h
    visit_lem v (RotoType.named n ts) v' h = names v n v' h
    visit_lem v t v' h = cc

    pub visit_fields_lem :
        (v : Marks) (fs : Fields) (v' : Marks)
        → visit_fields u v fs ≡ ok v'
        → Visited types v v' (FieldsMention fs)
    visit_fields_lem v Fields.end v' h = Visited-none h (λ m p. p)
    visit_fields_lem v (Fields.field k t fs) v' h =
        let (v₁, e, rest) = and_then-ok (visit u v t) _ h in
        Visited-both (visit_lem v t v₁ e) (visit_fields_lem v₁ fs v' rest)

  pub visit_types_lem :
      (v : Marks) (ts : Types) (v' : Marks)
      → visit_types u v ts ≡ ok v'
      → Visited types v v' (TypesMention ts)
  unfolding visit_types
  visit_types_lem v Types.nil v' h = Visited-none h (λ m p. p)
  visit_types_lem v (Types.cons t ts) v' h =
      let (v₁, e, rest) = and_then-ok (visit u v t) _ h in
      Visited-both (visit_lem v t v₁ e) (visit_types_lem v₁ ts v' rest)

  pub visit_variants_lem :
      (v : Marks) (ws : List EnumVariant) (v' : Marks)
      → visit_variants u v ws ≡ ok v'
      → Visited types v v' (VariantsMention ws)
  unfolding visit_variants
  visit_variants_lem v [] v' h = Visited-none h (λ m p. p)
  visit_variants_lem v (w ∷ ws) v' h =
      let (v₁, e, rest) = and_then-ok (visit_types u v w.fields) _ h in
      Visited-both (visit_types_lem v w.fields v₁ e) (visit_variants_lem v₁ ws v' rest)

  pub visit_definition_lem :
      (v : Marks) (d : TypeDefinition) (v' : Marks)
      → visit_definition u v d ≡ ok v'
      → Visited types v v' (DefinitionMentions d)
  visit_definition_lem v (TypeDefinition.enum n ws) v' h = visit_variants_lem v ws v' h
  visit_definition_lem v (TypeDefinition.record_definition n fs) v' h = visit_fields_lem v fs v' h
  visit_definition_lem v (TypeDefinition.runtime n id) v' h = Visited-none h (λ m p. p)
  visit_definition_lem v (TypeDefinition.primitive p) v' h = Visited-none h (λ m p. p)
  visit_definition_lem v (TypeDefinition.list n) v' h = Visited-none h (λ m p. p)
