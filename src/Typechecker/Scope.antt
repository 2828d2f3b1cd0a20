-- ===== src/Typechecker/Scope.antt =====
-- src/typechecker/scope.rs: the graph of scopes with the declarations in them. Types, declarations
-- of functions, variants and places in the source are numbers, a text is a list of numbers, and of
-- the definition of a type its number of arguments is kept besides. A map is a list of entries, of
-- which no two have one key.
pub mod Entries
pub mod Graph
pub mod Lookup
pub mod Inserts
pub mod Operations
pub mod Steps
mod Tests
use roto.Prelude.{
  ℕ, zero, suc, ◌+◌, Bool, true, false, ◌&&◌, ◌==◌, if◌then◌else◌, Option, some, none, List, [],
  ◌∷◌, ◌++◌, length, get_elem?, set, ◌>>=◌,
}
use roto.Typechecker.{ResolvedName}

abbrev pub name_eq : ResolvedName → ResolvedName → Bool
name_eq a b = a.scope == b.scope && a.ident == b.ident

pub record TypeDefinition : Type 0 where
  pub num_arguments : ℕ
  pub body : ℕ

pub data TypeOrStub : Type 0 where
  definition : TypeDefinition → TypeOrStub
  stub : ℕ → TypeOrStub

pub data ValueKind : Type 0 where
  local constant : ValueKind
  context : ℕ → ValueKind

pub data DeclarationKind : Type 0 where
  value : ValueKind → Option ℕ → DeclarationKind
  type : TypeOrStub → DeclarationKind
  function method variant : Option ℕ → DeclarationKind
  module_kind : DeclarationKind
  type_param : ℕ → DeclarationKind

pub record Declaration : Type 0 where
  pub name : ResolvedName
  pub kind : DeclarationKind
  pub id : ℕ
  pub scope : Option ℕ
  pub doc : List ℕ

pub record ModuleScope : Type 0 where
  pub name : ResolvedName
  pub parent_module : Option ℕ

pub data ScopeType : Type 0 where
  root type_params : ScopeType
  then_branch else_branch while_body for_body block : ℕ → ScopeType
  function type : ℕ → ScopeType
  module_scope : ModuleScope → ScopeType
  match_arm : ℕ → Option ℕ → ScopeType

-- An import has the place of its statement and the name that it stands for.
pub record Scope : Type 0 where
  pub scope_type : ScopeType
  pub parent : Option ℕ
  pub imports : List (ℕ × (ℕ × ResolvedName))

pub record ScopeGraph : Type 0 where
  pub declarations : List (ResolvedName × Declaration)
  pub scopes : List Scope

pub data Result (E A : Type 0) : Type 0 where
  ok : A → Result E A
  err : E → Result E A

-- `BTreeMap::get` on declarations and on imports, and the two ways to fill an entry.
unfoldable pub get : List (ResolvedName × Declaration) → ResolvedName → Option Declaration
get [] n = none
get ((k, d) ∷ ds) n = if name_eq k n then some d else get ds n

unfoldable pub get_import : List (ℕ × (ℕ × ResolvedName)) → ℕ → Option (ℕ × ResolvedName)
get_import [] x = none
get_import ((k, i) ∷ is) x = if k == x then some i else get_import is x

unfoldable pub put :
    List (ResolvedName × Declaration)
    → ResolvedName
    → Declaration
    → List (ResolvedName × Declaration)
put [] n d = (n, d) ∷ []
put ((k, e) ∷ ds) n d = if name_eq k n then (k, d) ∷ ds else (k, e) ∷ put ds n d

-- `ScopeGraph::new`
abbrev pub new : ScopeGraph
new = record {
  declarations = [];
  scopes = record { scope_type = ScopeType.root; parent = none; imports = [] } ∷ [];
}

-- `ScopeGraph::wrap`
abbrev pub wrap : ScopeGraph → ℕ → ScopeType → ScopeGraph × ℕ
wrap g parent scope_type = (
  record g {
    scopes =
        g.scopes ++ record { scope_type = scope_type; parent = some parent; imports = [] } ∷ [];
  },
  length g.scopes,
)

-- `ScopeGraph::parent`, where the outer `none` is a panic.
abbrev pub parent : ScopeGraph → ℕ → Option (Option ℕ)
parent g scope = do s ← get_elem? g.scopes scope; some s.parent

-- What a search ends with.
pub data Search : Type 0 where
  found : Declaration → Search
  missing panicked out_of_fuel : Search

abbrev pub or_panic : Option Declaration → Search
or_panic (some d) = found d
or_panic none = panicked

-- `ScopeGraph::resolve_name`
unfoldable pub resolve_name : ℕ → ScopeGraph → ℕ → ℕ → Bool → Search
unfolding get get_import
resolve_name zero g scope ident recurse = out_of_fuel
resolve_name (suc fuel) g scope ident recurse =
    elim (get g.declarations (record { scope = scope; ident = ident })) [
      | some d ↦ found d
      | none ↦
          if recurse
          then elim (get_elem? g.scopes scope) [
            | none ↦ panicked
            | some s ↦ elim (get_import s.imports ident) [
              | some i ↦ or_panic (get g.declarations i.1)
              | none ↦ elim s.parent [
                | none ↦ missing
                | some p ↦ resolve_name fuel g p ident recurse
              ]
            ]
          ]
          else missing
    ]

abbrev pub fill_import :
    ScopeGraph
    → ℕ
    → Scope
    → ℕ
    → ResolvedName
    → Option (ℕ × ResolvedName)
    → ScopeGraph × Result ℕ (Unit {0})
fill_import g scope s id name (some i) = (g, Result.err i.0)
fill_import g scope s id name none = (
  record g {
    scopes = set g.scopes scope (record s { imports = s.imports ++ (name.ident, (id, name)) ∷ [] });
  },
  Result.ok tt,
)

-- `ScopeGraph::insert_import`
pub insert_import : ScopeGraph → ℕ → ℕ → ResolvedName → Option (ScopeGraph × Result ℕ (Unit {0}))
unfolding get_import
insert_import g scope id name = do
  s ← get_elem? g.scopes scope
  some (fill_import g scope s id name (get_import s.imports name.ident))

abbrev pub with_declaration : ScopeGraph → ResolvedName → Declaration → ScopeGraph
with_declaration g name d = record g { declarations = put g.declarations name d }

abbrev pub fill_entry :
    ScopeGraph
    → ResolvedName
    → DeclarationKind
    → ℕ
    → List ℕ
    → (DeclarationKind → Bool)
    → Option Declaration
    → ScopeGraph × Result ℕ Declaration
fill_entry g name kind id doc update_if none =
    let d : Declaration = record { name = name; kind = kind; id = id; scope = none; doc = doc } in
    (with_declaration g name d, Result.ok d)
fill_entry g name kind id doc update_if (some old) =
    if update_if old.kind
    then (
      with_declaration g name (record old { kind = kind }),
      Result.ok (record old { kind = kind }),
    )
    else (g, Result.err old.id)

-- `ScopeGraph::insert_declaration`: what it returns a reference to stands in the graph under its
-- name.
unfoldable pub insert_declaration :
    ScopeGraph
    → ℕ
    → ℕ
    → ℕ
    → DeclarationKind
    → List ℕ
    → (DeclarationKind → Bool)
    → ScopeGraph × Result ℕ Declaration
unfolding get put
insert_declaration g scope ident id kind doc update_if =
    let name : ResolvedName = record { scope = scope; ident = ident } in
    fill_entry g name kind id doc update_if (get g.declarations name)
