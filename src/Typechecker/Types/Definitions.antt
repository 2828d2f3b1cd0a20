-- ===== src/Typechecker/Types/Definitions.antt =====
-- src/typechecker/types.rs: the fields of a generic record.
use roto.Prelude.{◌≡◌, refl, List, All, some, ≡→==}
use roto.Typechecker.Types.{RotoType, Types, Fields, TypeDefinition, TypeName}
use roto.Typechecker.Types.Substitute.{
  types_substitute_many, fields_substitute_many, zip_types, num_types, record_fields,
}
use roto.Typechecker.Types.Simultaneous.{
  replace, replace_fields, replace_types, EachVar, AreClosed, IsSubstitution, substitute_many_lem,
}

-- The parameters of a definition are explicit variables.
abbrev pub AreParameters : Types → Type 0
AreParameters Types.nil = Unit
AreParameters (Types.cons (RotoType.explicit_var a) ts) = AreParameters ts
AreParameters (Types.cons t ts) = ⊥

zip_types-IsSubstitution :
    (ps args : Types) → AreParameters ps → AreClosed args → All IsSubstitution (zip_types ps args)
unfolding EachVar
zip_types-IsSubstitution Types.nil args h hs = tt
zip_types-IsSubstitution (Types.cons (RotoType.explicit_var a) ps) Types.nil h hs = tt
zip_types-IsSubstitution (Types.cons (RotoType.explicit_var a) ps) (Types.cons u us) h (hu, hus) =
    (hu, zip_types-IsSubstitution ps us h hus)
zip_types-IsSubstitution (Types.cons t ps) args h hs = absurd h

fields_substitute_many_lem :
    (subs : List (RotoType × RotoType)) (fs : Fields)
    → All IsSubstitution subs
    → fields_substitute_many fs subs ≡ replace_fields subs fs
unfolding fields_substitute_many replace
fields_substitute_many_lem subs Fields.end h = refl
fields_substitute_many_lem subs (Fields.field k t fs) h =
    rw (substitute_many_lem subs t h, fields_substitute_many_lem subs fs h) refl

pub types_substitute_many_lem :
    (subs : List (RotoType × RotoType)) (ts : Types)
    → All IsSubstitution subs
    → types_substitute_many ts subs ≡ replace_types subs ts
unfolding types_substitute_many replace
types_substitute_many_lem subs Types.nil h = refl
types_substitute_many_lem subs (Types.cons t ts) h =
    rw (substitute_many_lem subs t h, types_substitute_many_lem subs ts h) refl

-- The fields of a generic record at as many type arguments as it has parameters, where no argument
-- has an explicit variable: they are those of the definition, in their order, with all the
-- parameters replaced at once.
pub record_fields_lem :
    (n : TypeName) (fs : Fields) (args : Types)
    → AreParameters n.arguments
    → AreClosed args
    → num_types n.arguments ≡ num_types args
    → record_fields (TypeDefinition.record_definition n fs) args
      ≡ some (some (replace_fields (zip_types n.arguments args) fs))
unfolding record_fields
record_fields_lem n fs args hp hc same =
    rw
      (
        ≡→== (num_types n.arguments) (num_types args) same,
        fields_substitute_many_lem (zip_types n.arguments args) fs
            (zip_types-IsSubstitution n.arguments args hp hc),
      )
      refl
