-- ===== src/Typechecker/Unify/Tests.antt =====
-- Examples for the unification of src/typechecker/mod.rs.
use roto.Prelude.{◌≡◌, refl, List, [], ◌∷◌, none}
use roto.Typechecker.{ResolvedName}
use roto.Typechecker.Scope.{get, DeclarationKind, TypeOrStub}
use roto.Typechecker.Scope.Inserts.{get_declaration}
use roto.Typechecker.Types.{
  RotoType, Types, TypeDefinition, MustBeSigned, Primitive, IntKind, IntSize,
}
use roto.Typechecker.Types.Equal.{type_eq}
use roto.Typechecker.UnionFind.{returned, mismatch, find}
use roto.Typechecker.Unify.{TypeInfo, resolve_type_name, unify_resolved, unify_inner}

abbrev u32 : ResolvedName
u32 = record { scope = 0; ident = 5 }

abbrev info : TypeInfo
info = record {
  scope_graph = record {
    declarations =
        (
          u32,
          record {
            name = u32;
            kind =
                DeclarationKind.type
                  (TypeOrStub.definition (record { num_arguments = 0; body = 0 }));
            id = 0;
            scope = none;
            doc = [];
          },
        )
        ∷ [];
    scopes = [];
  };
  definitions = TypeDefinition.primitive (Primitive.int IntKind.unsigned IntSize.i32) ∷ [];
}

abbrev u32_type : RotoType
u32_type = RotoType.named u32 Types.nil

-- 0 leads to the integer variable 1.
abbrev variables : MustBeSigned → List RotoType
variables s = RotoType.var 1 ∷ RotoType.int_var 1 s ∷ []

unify_inner_number :
    unify_inner 1 info (variables MustBeSigned.no) (RotoType.var 0) u32_type
    ≡ returned u32_type (RotoType.int_var 1 MustBeSigned.no ∷ u32_type ∷ [])
unfolding unify_inner unify_resolved type_eq find resolve_type_name get_declaration get
unify_inner_number = refl

-- `u32` is not signed.
unify_inner_signed :
    unify_inner 1 info (variables MustBeSigned.yes) (RotoType.var 0) u32_type
    ≡ mismatch (RotoType.int_var 1 MustBeSigned.yes ∷ RotoType.int_var 1 MustBeSigned.yes ∷ [])
unfolding unify_inner unify_resolved type_eq find resolve_type_name get_declaration get
unify_inner_signed = refl
