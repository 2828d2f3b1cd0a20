-- ===== src/Typechecker/Scope/Graph.antt =====
-- src/typechecker/scope.rs: the invariant of the graph at its basic operations.
use roto.Prelude.{
  ℕ, zero, suc, ◌<◌, ◌≡◌, ◌⊎◌, ◌∙◌, refl, sym, ap, subst, Bool, true, false, some, none, List, [],
  ◌∷◌, ◌++◌, length, get_elem?, get_elem?-lt, set, get_elem?-set_self, get_elem?-set_ne, length-set,
  length-append, inl, inr, some_inj, Option-cases, Bool-cases, arith, ◌==◌, >>=-eq-some, ==→≡, ==→≢,
}
use roto.Typechecker.{ResolvedName}
use roto.Typechecker.Scope.{
  Declaration, DeclarationKind, Scope, ScopeGraph, ScopeType, Result, get, get_import, put, wrap,
  with_declaration, fill_import, insert_import, fill_entry, insert_declaration,
}
use roto.Typechecker.Scope.Entries.{get-put_self, get-put_ne, same_name, get_import-append}
use roto.Typechecker.Scope.Lookup.{IsGraph}

pub with_declaration-IsGraph :
    (g : ScopeGraph) (n : ResolvedName) (d : Declaration)
    → IsGraph g
    → d.name ≡ n
    → IsGraph (with_declaration g n d)
with_declaration-IsGraph g n d v e = record {
  has_root = v.has_root;
  parents = v.parents;
  imports = λ i x s j at h.
      let (old, p) = v.imports i x s j at h in
      elim (same_name n j.1) [
        | inl same ↦ (
          d,
          subst (λ m. get (put g.declarations n d) m ≡ some d) same
              (get-put_self g.declarations n d),
        )
        | inr ne ↦ (old, get-put_ne g.declarations n j.1 d ne ∙ p)
      ];
  names = λ m d' h. elim (same_name n m) [
    | inl same ↦
        let there : get (put g.declarations n d) m ≡ some d =
          subst (λ m. get (put g.declarations n d) m ≡ some d) same
            (get-put_self g.declarations n d) in
        ap (λ x. x.name) (some_inj (sym h ∙ there)) ∙ e ∙ same
    | inr ne ↦ v.names m d' (sym (get-put_ne g.declarations n m d ne) ∙ h)
  ];
}

abbrev fresh_scope : ℕ → ScopeType → Scope
fresh_scope parent t = record { scope_type = t; parent = some parent; imports = [] }

abbrev with_import : Scope → ℕ → ResolvedName → Scope
with_import s id name = record s { imports = s.imports ++ (name.ident, (id, name)) ∷ [] }

-- An index of a list with one element more.
append_one-cases :
    (xs : List Scope) (x : Scope) (i : ℕ) {y : Scope}
    → get_elem? (xs ++ x ∷ []) i ≡ some y
    → (get_elem? xs i ≡ some y) ⊎ ((i ≡ length xs) × (x ≡ y))
append_one-cases [] x zero h = inr (refl, some_inj h)
append_one-cases [] x (suc i) h = cc
append_one-cases (z ∷ xs) x zero h = inl h
append_one-cases (z ∷ xs) x (suc i) h = elim (append_one-cases xs x i h) [
  | inl e ↦ inl e
  | inr (p, q) ↦ inr (ap suc p, q)
]

pub wrap-IsGraph :
    (g : ScopeGraph) (parent : ℕ) (t : ScopeType)
    → IsGraph g
    → parent < length g.scopes
    → IsGraph (wrap g parent t).0
unfolding get_import
wrap-IsGraph g parent t v lt = record {
  has_root = ground (arith, v.has_root, length-append g.scopes (fresh_scope parent t ∷ []));
  parents = λ i p s at h. elim (append_one-cases g.scopes (fresh_scope parent t) i at) [
    | inl old ↦ v.parents i p s old h
    | inr (last, new) ↦
        let same : parent ≡ p = some_inj (ap (λ x. x.parent) new ∙ h) in rw last (omega arith)
  ];
  imports = λ i x s j at h. elim (append_one-cases g.scopes (fresh_scope parent t) i at) [
    | inl old ↦ v.imports i x s j old h
    | inr (last, new) ↦ let bad : none ≡ some j = ap (λ y. get_import y.imports x) new ∙ h in cc
  ];
  names = v.names;
}

-- What a list holds behind a write.
set-cases :
    (xs : List Scope) (k i : ℕ) (x y : Scope)
    → k < length xs
    → get_elem? (set xs k x) i ≡ some y
    → ((k ≡ i) × (x ≡ y)) ⊎ (get_elem? xs i ≡ some y)
set-cases xs k i x y lt h = elim (Bool-cases (k == i)) [
  | inl t ↦
      let same = ==→≡ k i t in
      inl (
        same,
        some_inj (
            sym (get_elem?-set_self xs k x lt)
            ∙ subst (λ j. get_elem? (set xs k x) j ≡ some y) (sym same) h),
      )
  | inr f ↦ inr (sym (get_elem?-set_ne xs {i = k} {j = i} x (==→≢ k i f)) ∙ h)
]

with_import-IsGraph :
    (g : ScopeGraph) (scope : ℕ) (s : Scope) (id : ℕ) (name : ResolvedName) (d : Declaration)
    → IsGraph g
    → get_elem? g.scopes scope ≡ some s
    → get g.declarations name ≡ some d
    → IsGraph (record g { scopes = set g.scopes scope (with_import s id name) })
with_import-IsGraph g scope s id name d v at known = record {
  has_root = rw (length-set g.scopes scope (with_import s id name)) v.has_root;
  parents = λ i p s' at' h.
      elim (set-cases g.scopes scope i (with_import s id name) s' (get_elem?-lt g.scopes scope at)
        at') [
          | inl (same, new) ↦
              subst (λ k. p < k) same (v.parents scope p s at (ap (λ x. x.parent) new ∙ h))
          | inr old ↦ v.parents i p s' old h
        ];
  imports = λ i x s' j at' h.
      elim (set-cases g.scopes scope i (with_import s id name) s' (get_elem?-lt g.scopes scope at)
        at') [
          | inl (_, new) ↦
              elim (get_import-append s.imports name.ident x (id, name) j
                (ap (λ y. get_import y.imports x) new ∙ h)) [
                  | inl old ↦ v.imports scope x s j at old
                  | inr e ↦ (d, subst (λ q. get g.declarations q ≡ some d) (ap (λ q. q.1) e) known)
                ]
          | inr old ↦ v.imports i x s' j old h
        ];
  names = v.names;
}

pub insert_import-IsGraph :
    (g : ScopeGraph) (scope id : ℕ) (name : ResolvedName) (d : Declaration) (g' : ScopeGraph)
    (r : Result ℕ (Unit {0}))
    → IsGraph g
    → get g.declarations name ≡ some d
    → insert_import g scope id name ≡ some (g', r)
    → IsGraph g'
unfolding insert_import
insert_import-IsGraph g scope id name d g' r v known h =
    let (s, at, q) = >>=-eq-some (get_elem? g.scopes scope) _ h in
    let filled : fill_import g scope s id name (get_import s.imports name.ident) ≡ (g', r) =
      some_inj q in
    elim (Option-cases (get_import s.imports name.ident)) [
      | inr (i, e) ↦
          subst IsGraph (ap (λ x. x.0) (sym (ap (fill_import g scope s id name) e) ∙ filled)) v
      | inl e ↦
          subst IsGraph (ap (λ x. x.0) (sym (ap (fill_import g scope s id name) e) ∙ filled))
            (with_import-IsGraph g scope s id name d v at known)
    ]

-- What `insert_declaration` does: a vacant entry is filled, the kind of a stub that may be updated
-- is replaced, and else nothing changes.
pub data Inserted (g : ScopeGraph) (name : ResolvedName) (kind : DeclarationKind)
    (update_if : DeclarationKind → Bool) : ScopeGraph × Result ℕ Declaration → Type 0 where
  filled :
      (d : Declaration)
      → get g.declarations name ≡ none
      → d.name ≡ name
      → d.kind ≡ kind
      → Inserted g name kind update_if (with_declaration g name d, Result.ok d)
  updated :
      (old : Declaration)
      → get g.declarations name ≡ some old
      → update_if old.kind ≡ true
      → Inserted g name kind update_if (
        with_declaration g name (record old { kind = kind }),
        Result.ok (record old { kind = kind }),
      )
  refused :
      (old : Declaration)
      → get g.declarations name ≡ some old
      → update_if old.kind ≡ false
      → Inserted g name kind update_if (g, Result.err old.id)

pub insert_declaration-Inserted :
    (g : ScopeGraph) (scope ident id : ℕ) (kind : DeclarationKind) (doc : List ℕ)
    (update_if : DeclarationKind → Bool)
    → Inserted g
        (record { scope = scope; ident = ident })
        kind
        update_if
        (insert_declaration g scope ident id kind doc update_if)
unfolding insert_declaration
insert_declaration-Inserted g scope ident id kind doc update_if =
    elim (Option-cases (get g.declarations name)) [
      | inl e ↦
          subst (Inserted g name kind update_if)
            (sym (ap (fill_entry g name kind id doc update_if) e)) (filled _ e refl refl)
      | inr (old, e) ↦
          subst (Inserted g name kind update_if)
            (sym (ap (fill_entry g name kind id doc update_if) e))
            (elim (Bool-cases (update_if old.kind)) [
              | inl t ↦ rw t (updated old e t)
              | inr f ↦ rw f (refused old e f)
            ])
    ]
  where
    name : ResolvedName
    name = record { scope = scope; ident = ident }
