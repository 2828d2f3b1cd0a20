-- ===== src/Typechecker/Scope/Operations.antt =====
-- src/typechecker/scope.rs: the operations as steps, and what an insertion makes of a search.
use roto.Prelude.{
  ℕ, suc, ◌≡◌, ◌≢◌, ◌∙◌, refl, sym, ap, subst, Bool, Option, some, none, List, some_inj,
}
use roto.Typechecker.{ResolvedName}
use roto.Typechecker.Scope.{
  Declaration, DeclarationKind, ScopeGraph, Result, get, with_declaration, insert_declaration,
  resolve_name, found,
}
use roto.Typechecker.Scope.Entries.{get-put_self, get-put_ne}
use roto.Typechecker.Scope.Lookup.{IsGraph}
use roto.Typechecker.Scope.Graph.{
  with_declaration-IsGraph, Inserted, filled, updated, refused, insert_declaration-Inserted,
}

-- An insertion leaves a graph in order, and what it gives is the declaration of the name.
pub record IsEntered (name : ResolvedName) (kind : DeclarationKind) (g : ScopeGraph)
    (q : ScopeGraph × Result ℕ Declaration) : Type 0 where
  pub graph : IsGraph q.0
  pub entry :
      (d : Declaration)
      → q.1 ≡ Result.ok d
      → (get q.0.declarations name ≡ some d) × (d.kind ≡ kind) × (d.name ≡ name)
  pub others : (m : ResolvedName) → name ≢ m → get q.0.declarations m ≡ get g.declarations m
  pub scopes : q.0.scopes ≡ g.scopes
  pub refusal :
      (id : ℕ)
      → q.1 ≡ Result.err id
      → (q.0 ≡ g) × (old : Declaration) × (get g.declarations name ≡ some old) × (old.id ≡ id)

abbrev ok_of : Result ℕ Declaration → Option Declaration
ok_of (Result.ok d) = some d
ok_of (Result.err id) = none

abbrev err_of : Result ℕ Declaration → Option ℕ
err_of (Result.ok d) = none
err_of (Result.err id) = some id

with-IsEntered :
    (name : ResolvedName) (kind : DeclarationKind) (g : ScopeGraph) (d : Declaration)
    → IsGraph g
    → d.name ≡ name
    → d.kind ≡ kind
    → IsEntered name kind g (with_declaration g name d, Result.ok d)
with-IsEntered name kind g d v e k = record {
  graph = with_declaration-IsGraph g name d v e;
  entry = λ d' h.
      let same : d ≡ d' = some_inj (ap ok_of h) in
      (
        get-put_self g.declarations name d ∙ ap some same,
        ap (λ x. x.kind) (sym same) ∙ k,
        ap (λ x. x.name) (sym same) ∙ e,
      );
  others = λ m ne. get-put_ne g.declarations name m d ne;
  scopes = refl;
  refusal = λ id h. let bad : none ≡ some id = ap err_of h in cc;
}

Inserted-IsEntered :
    (name : ResolvedName) (kind : DeclarationKind) (update_if : DeclarationKind → Bool)
    (g : ScopeGraph) (q : ScopeGraph × Result ℕ Declaration)
    → IsGraph g
    → Inserted g name kind update_if q
    → IsEntered name kind g q
Inserted-IsEntered name kind update_if g _ v (filled d vacant e k) =
    with-IsEntered name kind g d v e k
Inserted-IsEntered name kind update_if g _ v (updated old e t) =
    with-IsEntered name kind g (record old { kind = kind }) v (v.names name old e) refl
Inserted-IsEntered name kind update_if g _ v (refused old e f) = record {
  graph = v;
  entry = λ d h. let bad : none ≡ some d = ap ok_of h in cc;
  others = λ m ne. refl;
  scopes = refl;
  refusal = λ id h. (refl, old, e, some_inj (ap err_of h));
}

pub insert_declaration-IsEntered :
    (g : ScopeGraph) (scope ident id : ℕ) (kind : DeclarationKind) (doc : List ℕ)
    (update_if : DeclarationKind → Bool)
    → IsGraph g
    → IsEntered
        (record { scope = scope; ident = ident })
        kind
        g
        (insert_declaration g scope ident id kind doc update_if)
insert_declaration-IsEntered g scope ident id kind doc update_if v =
    Inserted-IsEntered (record { scope = scope; ident = ident }) kind update_if g _ v
      (insert_declaration-Inserted g scope ident id kind doc update_if)

-- What is inserted is what a search for the name in its scope finds, with the kind that was asked
-- for, and every other name is declared as before; where an insertion is refused, nothing has
-- changed and the id is that of the declaration that the name has.
pub insert_declaration_lem :
    (g : ScopeGraph) (scope ident id : ℕ) (kind : DeclarationKind) (doc : List ℕ)
    (update_if : DeclarationKind → Bool) (g' : ScopeGraph) (r : Result ℕ Declaration)
    → IsGraph g
    → insert_declaration g scope ident id kind doc update_if ≡ (g', r)
    → ((fuel : ℕ) (recurse : Bool) (d : Declaration)
        → r ≡ Result.ok d
        → (resolve_name (suc fuel) g' scope ident recurse ≡ found d) × (d.kind ≡ kind))
      × ((m : ResolvedName)
          → record { scope = scope; ident = ident } ≢ m
          → get g'.declarations m ≡ get g.declarations m)
      × ((old : ℕ)
          → r ≡ Result.err old
          → (g' ≡ g)
            × (d : Declaration) × (get g.declarations (record { scope = scope; ident = ident })
                ≡ some d)
            × (d.id ≡ old))
unfolding resolve_name
insert_declaration_lem g scope ident id kind doc update_if g' r v h =
    let e : IsEntered (record { scope = scope; ident = ident }) kind g (g', r) =
      subst (IsEntered (record { scope = scope; ident = ident }) kind g) h
        (insert_declaration-IsEntered g scope ident id kind doc update_if v) in
    (
      λ fuel recurse d p. let (at, k, _) = e.entry d p in (rw (resolve_name, at) refl, k),
      e.others,
      e.refusal,
    )
