-- ===== src/Typechecker/Scope/Steps.antt =====
-- src/typechecker/scope.rs: the operations as steps that keep a graph in order.
use roto.Prelude.{ℕ, ◌<◌, ◌≡◌, ◌∙◌, refl, subst, Bool, Option, some, none, List, some_inj}
use roto.Typechecker.{ResolvedName}
use roto.Typechecker.Scope.{
  Declaration, DeclarationKind, TypeDefinition, ScopeGraph, ScopeType, Result, get, wrap,
  insert_import, insert_declaration,
}
use roto.Typechecker.Scope.Lookup.{IsGraph}
use roto.Typechecker.Scope.Graph.{with_declaration-IsGraph, wrap-IsGraph, insert_import-IsGraph}
use roto.Typechecker.Scope.Inserts.{
  name_of, never, is_constant_stub, is_function_stub, is_method_stub, is_type_stub, insert_vacant,
  insert_context, insert_runtime_constant, insert_var, insert_const, fill_scope, filled_scope,
  insert_type, set_scope, insert_module, insert_function, insert_method,
}
use roto.Typechecker.Scope.Inserts.{get_declaration_mut, update_found, num_of_scopes}
use roto.Typechecker.Scope.Operations.{IsEntered, insert_declaration-IsEntered}

-- One operation on the graph; the arguments are those of the program.
pub data Step (g : ScopeGraph) : ScopeGraph → Type 0 where
  wrap_step : (parent : ℕ) (t : ScopeType) → parent < num_of_scopes g → Step g (wrap g parent t).0
  import_step :
      (scope id : ℕ) (name : ResolvedName) (d : Declaration) (g' : ScopeGraph)
      (r : Result ℕ (Unit {0}))
      → get g.declarations name ≡ some d
      → insert_import g scope id name ≡ some (g', r)
      → Step g g'
  context_step : (v id ty offset : ℕ) → Step g (insert_context g v id ty offset).0
  runtime_step :
      (scope v id ty : ℕ) (doc : List ℕ) → Step g (insert_runtime_constant g scope v id ty doc).0
  var_step : (scope ident id ty : ℕ) → Step g (insert_var g scope ident id ty).0
  const_step : (scope ident id ty : ℕ) → Step g (insert_const g scope ident id ty).0
  type_step :
      (scope ident id : ℕ) (doc : List ℕ) (ty : TypeDefinition)
      → scope < num_of_scopes g
      → Step g (insert_type g scope ident id doc ty).0
  module_step :
      (scope ident id : ℕ) (doc : List ℕ) (s : ℕ) → Step g (insert_module g scope ident id doc s).0
  function_step :
      (scope ident id f : ℕ) (doc : List ℕ) → Step g (insert_function g scope ident id f doc).0
  method_step :
      (scope ident id f : ℕ) (doc : List ℕ) → Step g (insert_method g scope ident id f doc).0
  declaration_step :
      (scope ident id : ℕ) (kind : DeclarationKind) (doc : List ℕ)
      (update_if : DeclarationKind → Bool)
      → Step g (insert_declaration g scope ident id kind doc update_if).0
  mut_step :
      (name : ResolvedName) (f : Declaration → Declaration) (g' : ScopeGraph)
      → ((d : Declaration) → (f d).name ≡ d.name)
      → get_declaration_mut g name f ≡ some g'
      → Step g g'

update_found-IsGraph :
    (g : ScopeGraph) (name : ResolvedName) (f : Declaration → Declaration) (o : Option Declaration)
    (g' : ScopeGraph)
    → IsGraph g
    → ((d : Declaration) → (f d).name ≡ d.name)
    → get g.declarations name ≡ o
    → update_found g name f o ≡ some g'
    → IsGraph g'
update_found-IsGraph g name f none g' v keeps at h = cc
update_found-IsGraph g name f (some d) g' v keeps at h =
    subst IsGraph (some_inj h)
      (with_declaration-IsGraph g name (f d) v (keeps d ∙ v.names name d at))

name_of-IsGraph : (q : ScopeGraph × Result ℕ Declaration) → IsGraph q.0 → IsGraph (name_of q).0
name_of-IsGraph (g, Result.ok d) v = v
name_of-IsGraph (g, Result.err id) v = v

insert_vacant-IsGraph :
    (g : ScopeGraph) (name : ResolvedName) (kind : DeclarationKind) (id : ℕ) (doc : List ℕ)
    (o : Option Declaration)
    → IsGraph g
    → IsGraph (insert_vacant g name kind id doc o).0
insert_vacant-IsGraph g name kind id doc (some d) v = v
insert_vacant-IsGraph g name kind id doc none v = with_declaration-IsGraph g name _ v refl

filled_scope-IsGraph :
    (name : ResolvedName) (s : ℕ) (g : ScopeGraph) (d : Declaration) (o : Option ℕ)
    → IsGraph g
    → d.name ≡ name
    → IsGraph (filled_scope g name s d o).0
filled_scope-IsGraph name s g d none v e =
    with_declaration-IsGraph g name (record d { scope = some s }) v e
filled_scope-IsGraph name s g d (some x) v e = v

fill_scope-IsGraph :
    (name : ResolvedName) (kind : DeclarationKind) (s : ℕ) (g : ScopeGraph)
    (q : ScopeGraph × Result ℕ Declaration)
    → IsEntered name kind g q
    → IsGraph (fill_scope name s q).0
fill_scope-IsGraph name kind s g (g', Result.err id) e = e.graph
fill_scope-IsGraph name kind s g (g', Result.ok d) e =
    let (_, _, n) = e.entry d refl in filled_scope-IsGraph name s g' d d.scope e.graph n

set_scope-IsGraph :
    (name : ResolvedName) (kind : DeclarationKind) (s : ℕ) (g : ScopeGraph)
    (q : ScopeGraph × Result ℕ Declaration)
    → IsEntered name kind g q
    → IsGraph (set_scope name s q).0
set_scope-IsGraph name kind s g (g', Result.err id) e = e.graph
set_scope-IsGraph name kind s g (g', Result.ok d) e =
    let (_, _, n) = e.entry d refl in
    with_declaration-IsGraph g' name (record d { scope = some s }) e.graph n

-- Every operation that changes the graph keeps it in order, where the parent of a new scope is a
-- scope, what is imported is declared, and what is done with a declaration that is lent out keeps
-- its name.
pub Step-IsGraph : {g g' : ScopeGraph} → IsGraph g → Step g g' → IsGraph g'
unfolding get_declaration_mut insert_context insert_runtime_constant insert_var insert_const
    insert_type insert_module insert_function insert_method
Step-IsGraph {g} v (wrap_step parent t lt) = wrap-IsGraph g parent t v lt
Step-IsGraph {g} v (import_step scope id name d g' r known h) =
    insert_import-IsGraph g scope id name d g' r v known h
Step-IsGraph {g} v (context_step x id ty offset) = insert_vacant-IsGraph g _ _ id _ _ v
Step-IsGraph {g} v (runtime_step scope x id ty doc) = insert_vacant-IsGraph g _ _ id _ _ v
Step-IsGraph {g} v (var_step scope ident id ty) =
    name_of-IsGraph _ (insert_declaration-IsEntered g scope ident id _ _ never v).graph
Step-IsGraph {g} v (const_step scope ident id ty) =
    name_of-IsGraph _ (insert_declaration-IsEntered g scope ident id _ _ is_constant_stub v).graph
Step-IsGraph {g} v (type_step scope ident id doc ty lt) = fill_scope-IsGraph _ _ _ _ _ (
    insert_declaration-IsEntered (wrap g scope (ScopeType.type ident)).0 scope ident id _ doc
      (is_type_stub ty) (wrap-IsGraph g scope (ScopeType.type ident) v lt))
Step-IsGraph {g} v (module_step scope ident id doc s) =
    set_scope-IsGraph _ _ s g _ (insert_declaration-IsEntered g scope ident id _ doc never v)
Step-IsGraph {g} v (function_step scope ident id f doc) =
    name_of-IsGraph _ (insert_declaration-IsEntered g scope ident id _ doc is_function_stub v).graph
Step-IsGraph {g} v (method_step scope ident id f doc) =
    name_of-IsGraph _ (insert_declaration-IsEntered g scope ident id _ doc is_method_stub v).graph
Step-IsGraph {g} v (declaration_step scope ident id kind doc update_if) =
    (insert_declaration-IsEntered g scope ident id kind doc update_if v).graph
Step-IsGraph {g} v (mut_step name f g' keeps h) =
    update_found-IsGraph g name f (get g.declarations name) g' v keeps refl h
