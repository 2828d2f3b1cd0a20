-- ===== src/Typechecker/TypeCycle/Tests.antt =====
-- Examples for src/typechecker/type_cycle.rs.
use roto.Prelude.{ℕ, ◌<◌, ◌≡◌, ◌≢◌, refl, [], ◌∷◌, true, false}
use roto.Typechecker.{ResolvedName}
use roto.Typechecker.Types.{RotoType, Types, Fields, TypeName, TypeDefinition}
use roto.Typechecker.TypeCycle.{
  Marks, TypeMap, ok, cycle, out_of_fuel, get, visit, visit_types, visit_variants, visit_name,
  visit_each, detect_type_cycles,
}
use roto.Typechecker.TypeCycle.Marks.{Edge}
use roto.Typechecker.TypeCycle.Acyclic.{detect_type_cycles-ok}
use roto.Typechecker.TypeCycle.Fuel.{detect_type_cycles-fuel}
use roto.Typechecker.TypeCycle.Cyclic.{Cycle, detect_type_cycles-cycle}

abbrev nm : ℕ → ResolvedName
nm i = record { scope = 0; ident = i }

abbrev plain : ℕ → TypeName
plain i = record { name = nm i; arguments = Types.nil }

abbrev record_of : ℕ → RotoType → ResolvedName × TypeDefinition
record_of i t = (
  nm i,
  TypeDefinition.record_definition (plain i)
      (Fields.field (record { node = 9; id = 9 }) t Fields.end),
)

abbrev option : ResolvedName × TypeDefinition
option = (
  nm 5,
  TypeDefinition.enum
      (record { name = nm 5; arguments = Types.cons (RotoType.explicit_var 8) Types.nil })
      (record { name = 6; fields = Types.cons (RotoType.explicit_var 8) Types.nil }
        ∷ record { name = 7; fields = Types.nil }
        ∷ []),
)

-- `record A { x: B }`, `record B { x: Option[()] }`
abbrev acyclic : TypeMap
acyclic =
    record_of 0 (RotoType.named (nm 1) Types.nil)
    ∷ record_of 1 (RotoType.named (nm 5) (Types.cons RotoType.unit Types.nil))
    ∷ option
    ∷ []

abbrev marks : Marks
marks =
    (nm 0, true) ∷ (nm 1, true) ∷ (nm 5, true) ∷ (nm 5, false) ∷ (nm 1, false) ∷ (nm 0, false) ∷ []

detect_acyclic : detect_type_cycles acyclic ≡ ok marks
unfolding detect_type_cycles visit_each visit_name visit visit_types visit_variants get
detect_acyclic = refl

detect_type_cycles-ok_example :
    (rank : ResolvedName → ℕ) × ((n m : ResolvedName) → Edge acyclic n m → rank m < rank n)
detect_type_cycles-ok_example = detect_type_cycles-ok acyclic marks detect_acyclic

-- `record A { x: B }`, `record B { x: { x: A } }`
abbrev cyclic : TypeMap
cyclic =
    record_of 0 (RotoType.named (nm 1) Types.nil)
    ∷ record_of 1 (
        RotoType.record_type
          (Fields.field (record { node = 9; id = 9 }) (RotoType.named (nm 0) Types.nil) Fields.end))
    ∷ []

detect_cyclic : detect_type_cycles cyclic ≡ cycle
unfolding detect_type_cycles visit_each visit_name visit visit_types visit_variants get
detect_cyclic = refl

detect_type_cycles-cycle_example : Cycle cyclic
detect_type_cycles-cycle_example = detect_type_cycles-cycle cyclic detect_cyclic

-- `record A { x: Option[A] }`, which passes: the arguments of a name are not visited.
abbrev through_argument : TypeMap
through_argument =
    record_of 0 (RotoType.named (nm 5) (Types.cons (RotoType.named (nm 0) Types.nil) Types.nil))
    ∷ option
    ∷ []

detect_through_argument :
    detect_type_cycles through_argument
    ≡ ok ((nm 0, true) ∷ (nm 5, true) ∷ (nm 5, false) ∷ (nm 0, false) ∷ [])
unfolding detect_type_cycles visit_each visit_name visit visit_types visit_variants get
detect_through_argument = refl

detect_type_cycles-fuel_example : detect_type_cycles cyclic ≢ out_of_fuel
detect_type_cycles-fuel_example = detect_type_cycles-fuel cyclic
