-- ===== src/Typechecker/TypeCycle.antt =====
-- src/typechecker/type_cycle.rs: the search for cycles among the types. The map of types is a list
-- of entries in the order that the loop over its keys takes; the map of marks is a list with the
-- latest entry first. The two texts of errors are two outcomes; an index into the map of types
-- that is missing panics. The recursion over names is on fuel.
pub mod Marks
pub mod Acyclic
pub mod Cyclic
pub mod Fuel
mod Tests
use roto.Prelude.{
  ℕ, zero, suc, Bool, true, false, if◌then◌else◌, List, [], ◌∷◌, length, Option, none, some,
}
use roto.Typechecker.{ResolvedName}
use roto.Typechecker.Scope.{name_eq}
use roto.Typechecker.Types.{RotoType, Types, Fields, EnumVariant, TypeDefinition}

-- The marks: `false` is temporary and `true` permanent.
abbrev pub Marks : Type 0
Marks = List (ResolvedName × Bool)

abbrev pub TypeMap : Type 0
TypeMap = List (ResolvedName × TypeDefinition)

-- How the search ends: `Ok` with the marks, one of two errors, a panic, or no fuel left.
pub data Outcome : Type 0 where
  ok : Marks → Outcome
  cycle unresolved panicked out_of_fuel : Outcome

abbrev pub and_then : Outcome → (Marks → Outcome) → Outcome
and_then (ok v) f = f v
and_then cycle f = cycle
and_then unresolved f = unresolved
and_then panicked f = panicked
and_then out_of_fuel f = out_of_fuel

unfoldable pub get : {A : Type 0} → List (ResolvedName × A) → ResolvedName → Option A
get [] n = none
get ((k, a) ∷ es) n = if name_eq k n then some a else get es n

unfoldable mutual
  -- `visit`, with the visit of a name
  pub visit : (Marks → ResolvedName → Outcome) → Marks → RotoType → Outcome
  visit u v (RotoType.var i) = unresolved
  visit u v (RotoType.int_var i s) = unresolved
  visit u v (RotoType.float_var i) = unresolved
  visit u v (RotoType.record_var i fs) = unresolved
  visit u v RotoType.never = ok v
  visit u v RotoType.unit = ok v
  visit u v (RotoType.function ps r) = ok v
  visit u v (RotoType.explicit_var x) = ok v
  visit u v (RotoType.record_type fs) = visit_fields u v fs
  visit u v (RotoType.named n ts) = u v n

  pub visit_fields : (Marks → ResolvedName → Outcome) → Marks → Fields → Outcome
  visit_fields u v Fields.end = ok v
  visit_fields u v (Fields.field k t fs) = and_then (visit u v t) λ v'. visit_fields u v' fs

-- The loops over the fields of a variant and over the variants
unfoldable pub visit_types : (Marks → ResolvedName → Outcome) → Marks → Types → Outcome
visit_types u v Types.nil = ok v
visit_types u v (Types.cons t ts) = and_then (visit u v t) λ v'. visit_types u v' ts

unfoldable pub visit_variants :
    (Marks → ResolvedName → Outcome) → Marks → List EnumVariant → Outcome
visit_variants u v [] = ok v
visit_variants u v (w ∷ ws) = and_then (visit_types u v w.fields) λ v'. visit_variants u v' ws

-- The match of `visit_name` on a definition
abbrev pub visit_definition : (Marks → ResolvedName → Outcome) → Marks → TypeDefinition → Outcome
visit_definition u v (TypeDefinition.enum n ws) = visit_variants u v ws
visit_definition u v (TypeDefinition.record_definition n fs) = visit_fields u v fs
visit_definition u v (TypeDefinition.runtime n id) = ok v
visit_definition u v (TypeDefinition.primitive p) = ok v
visit_definition u v (TypeDefinition.list n) = ok v

-- A name without a mark gets a temporary one, and a permanent one after its definition.
abbrev pub visit_unmarked :
    (Marks → ResolvedName → Outcome) → Marks → ResolvedName → Option TypeDefinition → Outcome
visit_unmarked u v n none = panicked
visit_unmarked u v n (some d) =
    and_then (visit_definition u ((n, false) ∷ v) d) λ v'. ok ((n, true) ∷ v')

abbrev pub by_mark : Marks → Outcome → Option Bool → Outcome
by_mark v unmarked none = unmarked
by_mark v unmarked (some true) = ok v
by_mark v unmarked (some false) = cycle

-- `visit_name`
unfoldable pub visit_name : ℕ → TypeMap → Marks → ResolvedName → Outcome
visit_name zero types v n = out_of_fuel
visit_name (suc fuel) types v n =
    by_mark v (visit_unmarked (visit_name fuel types) v n (get types n)) (get v n)

-- `detect_type_cycles`: its loop over the keys, and the whole, with more fuel than there are types.
unfoldable pub visit_each : ℕ → TypeMap → Marks → TypeMap → Outcome
visit_each fuel types v [] = ok v
visit_each fuel types v ((n, d) ∷ es) =
    and_then (visit_name fuel types v n) λ v'. visit_each fuel types v' es

unfoldable pub detect_type_cycles : TypeMap → Outcome
detect_type_cycles types = visit_each (suc (length types)) types [] types
