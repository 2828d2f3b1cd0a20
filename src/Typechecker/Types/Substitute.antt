-- ===== src/Typechecker/Types/Substitute.antt =====
-- src/typechecker/types.rs: substitution in types, in the names and variants of types and in
-- signatures. A failed assertion is `none`; fresh type variables are taken from a list.
use roto.Prelude.{
  ℕ, suc, ◌==◌, if◌then◌else◌, List, [], ◌∷◌, map, Option, none, some, ◌>>=◌, ◌>>◌, assert,
}
use roto.Typechecker.Types.{RotoType, Types, Fields, TypeName, EnumVariant, TypeDefinition}
use roto.Typechecker.Types.Equal.{type_eq}

unfoldable mutual
  unfolding type_eq

  -- `Type::substitute`
  pub substitute : RotoType → RotoType → RotoType → RotoType
  substitute (RotoType.record_var x fs) from to =
      if type_eq (RotoType.record_var x fs) from
      then to
      else RotoType.record_var x (substitute_fields fs from to)
  substitute (RotoType.record_type fs) from to =
      if type_eq (RotoType.record_type fs) from
      then to
      else RotoType.record_type (substitute_fields fs from to)
  substitute (RotoType.named n ts) from to =
      if type_eq (RotoType.named n ts) from
      then to
      else RotoType.named n (substitute_types ts from to)
  substitute t from to = if type_eq t from then to else t

  pub substitute_types : Types → RotoType → RotoType → Types
  substitute_types Types.nil from to = Types.nil
  substitute_types (Types.cons t ts) from to =
      Types.cons (substitute t from to) (substitute_types ts from to)

  pub substitute_fields : Fields → RotoType → RotoType → Fields
  substitute_fields Fields.end from to = Fields.end
  substitute_fields (Fields.field k t fs) from to =
      Fields.field k (substitute t from to) (substitute_fields fs from to)

-- `Type::substitute_many`: one substitution after the other.
unfoldable pub substitute_many : RotoType → List (RotoType × RotoType) → RotoType
unfolding substitute
substitute_many t [] = t
substitute_many t ((from, to) ∷ subs) = substitute_many (substitute t from to) subs

unfoldable pub types_substitute_many : Types → List (RotoType × RotoType) → Types
unfolding substitute_many
types_substitute_many Types.nil subs = Types.nil
types_substitute_many (Types.cons t ts) subs =
    Types.cons (substitute_many t subs) (types_substitute_many ts subs)

unfoldable pub fields_substitute_many : Fields → List (RotoType × RotoType) → Fields
unfolding substitute_many
fields_substitute_many Fields.end subs = Fields.end
fields_substitute_many (Fields.field k t fs) subs =
    Fields.field k (substitute_many t subs) (fields_substitute_many fs subs)

-- `zip` on the types of two lists
abbrev pub zip_types : Types → Types → List (RotoType × RotoType)
zip_types Types.nil us = []
zip_types (Types.cons t ts) Types.nil = []
zip_types (Types.cons t ts) (Types.cons u us) = (t, u) ∷ zip_types ts us

abbrev pub num_types : Types → ℕ
num_types Types.nil = 0
num_types (Types.cons t ts) = suc (num_types ts)

-- `EnumVariant::substitute_many`
abbrev pub variant_substitute_many : EnumVariant → List (RotoType × RotoType) → EnumVariant
unfolding types_substitute_many
variant_substitute_many v subs = record {
  name = v.name;
  fields = types_substitute_many v.fields subs;
}

-- `TypeDefinition::match_patterns`: the outer `none` is a panic.
unfoldable pub match_patterns : TypeDefinition → Types → Option (Option (List EnumVariant))
match_patterns (TypeDefinition.enum n vs) args = do
  assert (num_types n.arguments == num_types args)
  some (some (map (λ v. variant_substitute_many v (zip_types n.arguments args)) vs))
match_patterns _ args = some none

-- `TypeDefinition::record_fields`: the outer `none` is a panic.
unfoldable pub record_fields : TypeDefinition → Types → Option (Option Fields)
unfolding fields_substitute_many
record_fields (TypeDefinition.record_definition n fs) args = do
  assert (num_types n.arguments == num_types args)
  some (some (fields_substitute_many fs (zip_types n.arguments args)))
record_fields _ args = some none

-- `TypeName::instantiate`, with the fresh variables that are left.
abbrev pub take_fresh : RotoType → List RotoType → Option (RotoType × List RotoType)
take_fresh (RotoType.explicit_var a) [] = none
take_fresh (RotoType.explicit_var a) (v ∷ vs) = some (v, vs)
take_fresh t vs = some (t, vs)

unfoldable pub instantiate_types : Types → List RotoType → Option (Types × List RotoType)
instantiate_types Types.nil vs = some (Types.nil, vs)
instantiate_types (Types.cons t ts) vs = do
  (u, rest) ← take_fresh t vs
  (us, left) ← instantiate_types ts rest
  some (Types.cons u us, left)

unfoldable pub instantiate : TypeName → List RotoType → Option (RotoType × List RotoType)
unfolding instantiate_types
instantiate n vs = do
  (args, left) ← instantiate_types n.arguments vs
  some (RotoType.named n.name args, left)

-- `Signature`
pub record Signature : Type 0 where
  pub types : Types
  pub parameter_types : Types
  pub return_type : RotoType

-- `Signature::instantiate`: the explicit variables among the types and what stands for them.
abbrev pub add_sub : RotoType → RotoType → List (RotoType × RotoType) → List (RotoType × RotoType)
add_sub (RotoType.explicit_var a) u subs = (RotoType.explicit_var a, u) ∷ subs
add_sub t u subs = subs

unfoldable pub instantiate_params :
    Types → List RotoType → Option (Types × (List (RotoType × RotoType) × List RotoType))
instantiate_params Types.nil vs = some (Types.nil, ([], vs))
instantiate_params (Types.cons t ts) vs = do
  (u, rest) ← take_fresh t vs
  (us, (subs, left)) ← instantiate_params ts rest
  some (Types.cons u us, (add_sub t u subs, left))

unfoldable pub signature_instantiate :
    Signature → List RotoType → Option (Signature × List RotoType)
unfolding substitute_many types_substitute_many instantiate_params
signature_instantiate s vs = do
  (ts, (subs, left)) ← instantiate_params s.types vs
  some (
    record {
      types = ts;
      parameter_types = types_substitute_many s.parameter_types subs;
      return_type = substitute_many s.return_type subs;
    },
    left,
  )

-- `Signature::substitute`
unfoldable pub signature_substitute : Signature → Types → Option Signature
unfolding substitute_many types_substitute_many
signature_substitute s new_types = do
  assert (num_types s.types == num_types new_types)
  some (record {
    types = new_types;
    parameter_types = types_substitute_many s.parameter_types (zip_types s.types new_types);
    return_type = substitute_many s.return_type (zip_types s.types new_types);
  })
