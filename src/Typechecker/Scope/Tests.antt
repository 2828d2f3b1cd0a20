-- ===== src/Typechecker/Scope/Tests.antt =====
-- A graph with a function in the root scope: a variable of the root is found from within it.
use roto.Prelude.{
  ℕ, zero, suc, ◌<◌, ◌≡◌, ◌≢◌, ◌⊎◌, ◌∙◌, refl, ap, Bool, true, none, some, some_inj, [], ◌∷◌, arith,
  subst, get_elem?,
}
use roto.Typechecker.{ResolvedName}
use roto.Typechecker.Scope.{
  Declaration, DeclarationKind, ValueKind, Scope, ScopeGraph, ScopeType, Result, get, get_import,
  put, new, wrap, insert_declaration, resolve_name, found, missing,
}
use roto.Typechecker.Scope.Lookup.{IsGraph, Resolves, resolve_name_lem}
use roto.Typechecker.Scope.Inserts.{insert_var, never, get_declaration_mut, set_doc}
use roto.Typechecker.Scope.Operations.{insert_declaration_lem}
use roto.Typechecker.Scope.Steps.{wrap_step, var_step, mut_step, Step-IsGraph}

new-IsGraph : IsGraph new
unfolding get get_import
new-IsGraph = record {
  has_root = omega arith;
  parents = parents;
  imports = imports;
  names = λ n d h. cc;
}
  where
    parents : (i p : ℕ) (s : Scope) → get_elem? new.scopes i ≡ some s → s.parent ≡ some p → p < i
    parents zero p s at h = let bad : none ≡ some p = ap (λ x. x.parent) (some_inj at) ∙ h in cc
    parents (suc i) p s at h = cc

    imports :
        (i x : ℕ) (s : Scope) (j : ℕ × ResolvedName)
        → get_elem? new.scopes i ≡ some s
        → get_import s.imports x ≡ some j
        → (d : Declaration) × (get new.declarations j.1 ≡ some d)
    imports zero x s j at h =
        let bad : none ≡ some j = ap (λ y. get_import y.imports x) (some_inj at) ∙ h in cc
    imports (suc i) x s j at h = cc

abbrev with_function : ScopeGraph
with_function = (wrap new 0 (ScopeType.function 7)).0

with_function-IsGraph : IsGraph with_function
with_function-IsGraph = Step-IsGraph new-IsGraph (wrap_step 0 (ScopeType.function 7) (omega arith))

abbrev variable : Declaration
variable = record {
  name = record { scope = 0; ident = 5 };
  kind = DeclarationKind.value ValueKind.local (some 3);
  id = 100;
  scope = none;
  doc = [];
}

abbrev inserted : Result ℕ Declaration
inserted = Result.ok variable

abbrev with_variable : ScopeGraph
with_variable = record with_function { declarations = (variable.name, variable) ∷ [] }

insert_declaration-variable :
    insert_declaration with_function 0 5 100
      (DeclarationKind.value ValueKind.local (some 3))
      []
      never
    ≡ (with_variable, inserted)
unfolding insert_declaration get put
insert_declaration-variable = refl

insert_var-variable : (insert_var with_function 0 5 100 3).0 ≡ with_variable
unfolding insert_var insert_declaration get put
insert_var-variable = refl

Step-IsGraph_example : IsGraph (insert_var with_function 0 5 100 3).0
Step-IsGraph_example = Step-IsGraph with_function-IsGraph (var_step 0 5 100 3)

insert_declaration_lem_example :
    ((fuel : ℕ) (recurse : Bool) (d : Declaration)
      → inserted ≡ Result.ok d
      → (resolve_name (suc fuel) with_variable 0 5 recurse ≡ found d)
        × (d.kind ≡ DeclarationKind.value ValueKind.local (some 3)))
    × ((m : ResolvedName)
        → record { scope = 0; ident = 5 } ≢ m
        → get with_variable.declarations m ≡ get with_function.declarations m)
    × ((old : ℕ)
        → inserted ≡ Result.err old
        → (with_variable ≡ with_function)
          × (d : Declaration) × (get with_function.declarations (record { scope = 0; ident = 5 })
              ≡ some d)
          × (d.id ≡ old))
insert_declaration_lem_example =
    insert_declaration_lem with_function 0 5 100 (DeclarationKind.value ValueKind.local (some 3)) []
      never with_variable inserted with_function-IsGraph insert_declaration-variable

resolve_name-inner : resolve_name 2 with_variable 1 5 true ≡ found variable
unfolding resolve_name get get_import
resolve_name-inner = refl

resolve_name-unknown : resolve_name 2 with_variable 1 6 true ≡ missing
unfolding resolve_name get get_import
resolve_name-unknown = refl

with_variable-IsGraph : IsGraph with_variable
with_variable-IsGraph =
    subst IsGraph insert_var-variable (Step-IsGraph with_function-IsGraph (var_step 0 5 100 3))

resolve_name_lem_example :
    ((d : Declaration) × (resolve_name 2 with_variable 1 5 true ≡ found d)
      × Resolves with_variable 5 d 1)
    ⊎ ((resolve_name 2 with_variable 1 5 true ≡ missing)
        × ((d : Declaration) → Resolves with_variable 5 d 1 → ⊥))
resolve_name_lem_example =
    resolve_name_lem 2 with_variable 1 5 with_variable-IsGraph (omega arith) (omega arith)

-- The documentation of a declaration is written over.
abbrev with_doc : ScopeGraph
with_doc = record with_function {
  declarations = (variable.name, record variable { doc = 1 ∷ [] }) ∷ [];
}

set_doc-variable : set_doc with_variable variable.name (1 ∷ []) ≡ some with_doc
unfolding get_declaration_mut get put
set_doc-variable = refl

with_doc-IsGraph : IsGraph with_doc
with_doc-IsGraph =
    Step-IsGraph with_variable-IsGraph (
      mut_step variable.name (λ d. record d { doc = 1 ∷ [] }) with_doc (λ d. refl) set_doc-variable)
