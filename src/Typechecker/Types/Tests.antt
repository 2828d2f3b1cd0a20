-- ===== src/Typechecker/Types/Tests.antt =====
-- Examples for src/typechecker/types.rs.
use roto.Prelude.{ℕ, ◌≡◌, refl, List, [], ◌∷◌, some, inl}
use roto.Typechecker.{ResolvedName}
use roto.Typechecker.Types.{RotoType, Types, Fields, TypeName, MetaIdentifier}
use roto.Typechecker.Types.Equal.{type_eq}
use roto.Typechecker.Types.Substitute.{
  substitute, substitute_many, types_substitute_many, Signature, instantiate_params,
  signature_instantiate,
}
use roto.Typechecker.Types.Simultaneous.{replace, EachVar, AreClosed, IsClosed, substitute_many_lem}
use roto.Typechecker.Types.Instance.{signature_instantiate-IsClosed}

abbrev global : ℕ → ResolvedName
global n = record { scope = 0; ident = n }

abbrev u32 : RotoType
u32 = RotoType.named (global 5) Types.nil

-- `Result[T, E]`, where `T` is 10 and `E` is 11
abbrev result : RotoType
result =
    RotoType.named (global 6)
      (Types.cons (RotoType.explicit_var 10) (Types.cons (RotoType.explicit_var 11) Types.nil))

abbrev key : ℕ → MetaIdentifier
key n = record { node = n; id = 100 }

-- `{ value: T, rest: Result[T, E] }`
abbrev fields : Fields
fields = Fields.field (key 1) (RotoType.explicit_var 10) (Fields.field (key 2) result Fields.end)

abbrev instance_types : List (RotoType × RotoType)
instance_types = (RotoType.explicit_var 10, u32) ∷ (RotoType.explicit_var 11, RotoType.unit) ∷ []

substitute_many_result :
    substitute_many result instance_types
    ≡ RotoType.named (global 6) (Types.cons u32 (Types.cons RotoType.unit Types.nil))
unfolding substitute_many substitute type_eq
substitute_many_result = refl

-- One after the other: what was put in for a variable is replaced again.
substitute_many_again :
    substitute_many result
      ((RotoType.explicit_var 10, RotoType.explicit_var 11) ∷ (RotoType.explicit_var 11, u32) ∷ [])
    ≡ RotoType.named (global 6) (Types.cons u32 (Types.cons u32 Types.nil))
unfolding substitute_many substitute type_eq
substitute_many_again = refl

substitute_many_lem_example :
    substitute_many (RotoType.record_type fields) instance_types
    ≡ replace instance_types (RotoType.record_type fields)
unfolding EachVar
substitute_many_lem_example =
    substitute_many_lem instance_types (RotoType.record_type fields) (tt, (tt, tt))

-- `record Both[T, E] { value: T, rest: Result[T, E] }`
abbrev both : TypeName
both = record {
  name = global 7;
  arguments =
      Types.cons (RotoType.explicit_var 10) (Types.cons (RotoType.explicit_var 11) Types.nil);
}

-- `fn f[T](x: Result[T, T]) -> { value: T }`
abbrev generic : Signature
generic = record {
  types = Types.cons (RotoType.explicit_var 10) Types.nil;
  parameter_types =
      Types.cons
        (RotoType.named (global 6)
          (Types.cons (RotoType.explicit_var 10) (Types.cons (RotoType.explicit_var 10) Types.nil)))
        Types.nil;
  return_type = RotoType.record_type (Fields.field (key 1) (RotoType.explicit_var 10) Fields.end);
}

abbrev generic_instance : Signature
generic_instance = record {
  types = Types.cons (RotoType.var 4) Types.nil;
  parameter_types =
      Types.cons
        (RotoType.named (global 6)
          (Types.cons (RotoType.var 4) (Types.cons (RotoType.var 4) Types.nil)))
        Types.nil;
  return_type = RotoType.record_type (Fields.field (key 1) (RotoType.var 4) Fields.end);
}

generic_runs : signature_instantiate generic (RotoType.var 4 ∷ []) ≡ some (generic_instance, [])
unfolding signature_instantiate instantiate_params types_substitute_many substitute_many substitute
    type_eq
generic_runs = refl

signature_instantiate-IsClosed_example :
    AreClosed generic_instance.parameter_types × IsClosed generic_instance.return_type
unfolding EachVar
signature_instantiate-IsClosed_example =
    signature_instantiate-IsClosed generic (RotoType.var 4 ∷ []) generic_instance [] (tt, tt)
      ((inl refl, (inl refl, tt)), tt) (inl refl, tt) generic_runs
