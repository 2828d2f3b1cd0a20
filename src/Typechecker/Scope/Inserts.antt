-- ===== src/Typechecker/Scope/Inserts.antt =====
-- src/typechecker/scope.rs: the operations that declare one kind of thing, and the ones that read.
use roto.Prelude.{
  ℕ, zero, suc, Bool, true, false, ◌==◌, if◌then◌else◌, Option, some, none, List, [], ◌∷◌,
  get_elem?, length,
}
use roto.Typechecker.{ResolvedName}
use roto.Typechecker.Scope.{
  ScopeGraph, ScopeType, ModuleScope, Declaration, DeclarationKind, ValueKind, TypeOrStub,
  TypeDefinition, Result, get, put, with_declaration, wrap, insert_declaration, Search, missing,
  panicked, out_of_fuel, or_panic,
}

-- What the callers keep of the declaration: its name.
abbrev pub name_of : ScopeGraph × Result ℕ Declaration → ScopeGraph × Result ℕ ResolvedName
name_of (g, Result.ok d) = (g, Result.ok d.name)
name_of (g, Result.err id) = (g, Result.err id)

abbrev pub never : DeclarationKind → Bool
never kind = false

abbrev pub is_constant_stub : DeclarationKind → Bool
is_constant_stub (DeclarationKind.value ValueKind.constant none) = true
is_constant_stub _ = false

abbrev pub is_function_stub : DeclarationKind → Bool
is_function_stub (DeclarationKind.function none) = true
is_function_stub _ = false

abbrev pub is_method_stub : DeclarationKind → Bool
is_method_stub (DeclarationKind.method none) = true
is_method_stub _ = false

abbrev pub is_type_stub : TypeDefinition → DeclarationKind → Bool
is_type_stub ty (DeclarationKind.type (TypeOrStub.stub n)) = n == ty.num_arguments
is_type_stub ty _ = false

-- An entry that is filled only where it is vacant.
abbrev pub insert_vacant :
    ScopeGraph
    → ResolvedName
    → DeclarationKind
    → ℕ
    → List ℕ
    → Option Declaration
    → ScopeGraph × Result (Unit {0}) ResolvedName
insert_vacant g name kind id doc (some d) = (g, Result.err tt)
insert_vacant g name kind id doc none = (
  with_declaration g name (record { name = name; kind = kind; id = id; scope = none; doc = doc }),
  Result.ok name,
)

-- `ScopeGraph::insert_context`
unfoldable pub insert_context :
    ScopeGraph → ℕ → ℕ → ℕ → ℕ → ScopeGraph × Result (Unit {0}) ResolvedName
unfolding get put
insert_context g v id ty offset =
    let name : ResolvedName = record { scope = 0; ident = v } in
    insert_vacant g name (DeclarationKind.value (ValueKind.context offset) (some ty)) id []
      (get g.declarations name)

-- `ScopeGraph::insert_runtime_constant`
unfoldable pub insert_runtime_constant :
    ScopeGraph → ℕ → ℕ → ℕ → ℕ → List ℕ → ScopeGraph × Result (Unit {0}) ResolvedName
unfolding get put
insert_runtime_constant g scope v id ty doc =
    let name : ResolvedName = record { scope = scope; ident = v } in
    insert_vacant g name (DeclarationKind.value ValueKind.constant (some ty)) id doc
      (get g.declarations name)

-- `ScopeGraph::insert_var`
unfoldable pub insert_var : ScopeGraph → ℕ → ℕ → ℕ → ℕ → ScopeGraph × Result ℕ ResolvedName
unfolding insert_declaration
insert_var g scope ident id ty =
    name_of (
      insert_declaration g scope ident id (DeclarationKind.value ValueKind.local (some ty)) []
        never)

-- `ScopeGraph::insert_const`
unfoldable pub insert_const : ScopeGraph → ℕ → ℕ → ℕ → ℕ → ScopeGraph × Result ℕ ResolvedName
unfolding insert_declaration
insert_const g scope ident id ty = name_of (
    insert_declaration g scope ident id (DeclarationKind.value ValueKind.constant (some ty)) []
      is_constant_stub)

abbrev pub filled_scope :
    ScopeGraph → ResolvedName → ℕ → Declaration → Option ℕ → ScopeGraph × Result ℕ (Unit {0})
filled_scope g name new_scope d none =
    (with_declaration g name (record d { scope = some new_scope }), Result.ok tt)
filled_scope g name new_scope d (some s) = (g, Result.ok tt)

-- A scope for the declaration that has none.
abbrev pub fill_scope :
    ResolvedName → ℕ → ScopeGraph × Result ℕ Declaration → ScopeGraph × Result ℕ (Unit {0})
fill_scope name new_scope (g, Result.err id) = (g, Result.err id)
fill_scope name new_scope (g, Result.ok d) = filled_scope g name new_scope d d.scope

-- `ScopeGraph::insert_type`, which makes the scope of the type first.
unfoldable pub insert_type :
    ScopeGraph → ℕ → ℕ → ℕ → List ℕ → TypeDefinition → ScopeGraph × Result ℕ (Unit {0})
unfolding insert_declaration
insert_type g scope ident id doc ty =
    let (g', new_scope) = wrap g scope (ScopeType.type ident) in
    fill_scope (record { scope = scope; ident = ident }) new_scope
      (insert_declaration g' scope ident id (DeclarationKind.type (TypeOrStub.definition ty)) doc
        (is_type_stub ty))

abbrev pub set_scope :
    ResolvedName → ℕ → ScopeGraph × Result ℕ Declaration → ScopeGraph × Result ℕ (Unit {0})
set_scope name new_scope (g, Result.err id) = (g, Result.err id)
set_scope name new_scope (g, Result.ok d) =
    (with_declaration g name (record d { scope = some new_scope }), Result.ok tt)

-- `ScopeGraph::insert_module`
unfoldable pub insert_module :
    ScopeGraph → ℕ → ℕ → ℕ → List ℕ → ℕ → ScopeGraph × Result ℕ (Unit {0})
unfolding insert_declaration
insert_module g scope ident id doc mod_scope =
    set_scope (record { scope = scope; ident = ident }) mod_scope
      (insert_declaration g scope ident id DeclarationKind.module_kind doc never)

-- `ScopeGraph::insert_function`
unfoldable pub insert_function :
    ScopeGraph → ℕ → ℕ → ℕ → ℕ → List ℕ → ScopeGraph × Result ℕ ResolvedName
unfolding insert_declaration
insert_function g scope ident id declaration doc = name_of (
    insert_declaration g scope ident id (DeclarationKind.function (some declaration)) doc
      is_function_stub)

-- `ScopeGraph::insert_method`
unfoldable pub insert_method :
    ScopeGraph → ℕ → ℕ → ℕ → ℕ → List ℕ → ScopeGraph × Result ℕ ResolvedName
unfolding insert_declaration
insert_method g scope ident id declaration doc = name_of (
    insert_declaration g scope ident id (DeclarationKind.method (some declaration)) doc
      is_method_stub)

-- `ScopeGraph::get_declaration`, which panics where there is none.
unfoldable pub get_declaration : ScopeGraph → ResolvedName → Option Declaration
unfolding get
get_declaration g name = get g.declarations name

abbrev pub update_found :
    ScopeGraph → ResolvedName → (Declaration → Declaration) → Option Declaration → Option ScopeGraph
update_found g name f none = none
update_found g name f (some d) = some (with_declaration g name (f d))

-- `ScopeGraph::get_declaration_mut`, with what the caller makes of the declaration. It panics where
-- there is none.
unfoldable pub get_declaration_mut :
    ScopeGraph → ResolvedName → (Declaration → Declaration) → Option ScopeGraph
unfolding get
get_declaration_mut g name f = update_found g name f (get g.declarations name)

-- src/typechecker/mod.rs, the documentation of a type that is declared already
abbrev pub set_doc : ScopeGraph → ResolvedName → List ℕ → Option ScopeGraph
set_doc g name doc = get_declaration_mut g name λ d. record d { doc = doc }

-- `ScopeGraph::root` and `ScopeGraph::num_of_scopes`
abbrev pub root : ScopeGraph → ℕ
root g = 0

abbrev pub num_of_scopes : ScopeGraph → ℕ
num_of_scopes g = length g.scopes

-- `ScopeGraph::declarations_in`
pub declarations_in : List (ResolvedName × Declaration) → ℕ → List Declaration
declarations_in [] scope = []
declarations_in ((n, d) ∷ ds) scope =
    let rest = declarations_in ds scope in if n.scope == scope then d ∷ rest else rest

-- The declaration of a module that a scope of it names as its parent.
abbrev pub declaration_of : ScopeGraph → ScopeType → Search
unfolding get
declaration_of g (ScopeType.module_scope m) = or_panic (get g.declarations m.name)
declaration_of g _ = panicked

abbrev pub parent_of_module : ScopeGraph → Option ℕ → Search
parent_of_module g none = missing
parent_of_module g (some p) = elim (get_elem? g.scopes p) [
  | none ↦ panicked
  | some s ↦ declaration_of g s.scope_type
]

abbrev pub module_of : ScopeType → Option ModuleScope
module_of (ScopeType.module_scope m) = some m
module_of _ = none

-- `ScopeGraph::parent_module`
pub parent_module : ℕ → ScopeGraph → ℕ → Search
parent_module zero g scope = out_of_fuel
parent_module (suc fuel) g scope = elim (get_elem? g.scopes scope) [
  | none ↦ panicked
  | some s ↦ elim (module_of s.scope_type) [
    | some m ↦ parent_of_module g m.parent_module
    | none ↦ elim s.parent [ none ↦ missing | some p ↦ parent_module fuel g p ]
  ]
]
