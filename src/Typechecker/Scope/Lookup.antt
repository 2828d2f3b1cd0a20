-- ===== src/Typechecker/Scope/Lookup.antt =====
-- src/typechecker/scope.rs, `resolve_name`: the search for a name, and the rules of scoping.
use roto.Prelude.{
  ℕ, zero, suc, ◌<◌, ◌≡◌, ◌⊎◌, ◌∙◌, refl, sym, ap, true, Option, subst, some, none, List, [], ◌∷◌,
  length, get_elem?, inl, inr, some_inj, Option-cases, arith,
}
use roto.Typechecker.{ResolvedName}
use roto.Typechecker.Scope.{
  Declaration, Scope, ScopeGraph, get, get_import, resolve_name, found, missing,
}

abbrev pub declared : ScopeGraph → ℕ → ℕ → Option Declaration
declared g scope ident = get g.declarations (record { scope = scope; ident = ident })

-- The name stands for the declaration: it is declared in the scope, or it is imported there and not
-- declared, or neither and it stands for that in the scope around.
pub data Resolves (g : ScopeGraph) (ident : ℕ) (d : Declaration) : ℕ → Type 0 where
  here : (scope : ℕ) → declared g scope ident ≡ some d → Resolves g ident d scope
  imported :
      (scope : ℕ) (s : Scope) (i : ℕ × ResolvedName)
      → declared g scope ident ≡ none
      → get_elem? g.scopes scope ≡ some s
      → get_import s.imports ident ≡ some i
      → get g.declarations i.1 ≡ some d
      → Resolves g ident d scope
  outer :
      (scope : ℕ) (s : Scope) (p : ℕ)
      → declared g scope ident ≡ none
      → get_elem? g.scopes scope ≡ some s
      → get_import s.imports ident ≡ none
      → s.parent ≡ some p
      → Resolves g ident d p
      → Resolves g ident d scope

-- A scope is made after its parent, what is imported is declared, and a declaration has its own
-- name.
pub record IsGraph (g : ScopeGraph) : Type 0 where
  pub has_root : 0 < length g.scopes
  pub parents : (i p : ℕ) (s : Scope) → get_elem? g.scopes i ≡ some s → s.parent ≡ some p → p < i
  pub imports :
      (i x : ℕ) (s : Scope) (j : ℕ × ResolvedName)
      → get_elem? g.scopes i ≡ some s
      → get_import s.imports x ≡ some j
      → (d : Declaration) × (get g.declarations j.1 ≡ some d)
  pub names : (n : ResolvedName) (d : Declaration) → get g.declarations n ≡ some d → d.name ≡ n

none-Resolves :
    (g : ScopeGraph) (scope ident : ℕ) (s : Scope)
    → declared g scope ident ≡ none
    → get_elem? g.scopes scope ≡ some s
    → get_import s.imports ident ≡ none
    → ((p : ℕ) → s.parent ≡ some p → (d : Declaration) → Resolves g ident d p → ⊥)
    → (d : Declaration) → Resolves g ident d scope
    → ⊥
none-Resolves g scope ident s e at i up d (here _ h) = let bad : none ≡ some d = sym e ∙ h in cc
none-Resolves g scope ident s e at i up d (imported _ s' j _ at' h _) =
    let same : s' ≡ s = some_inj (sym at' ∙ at) in
    let bad : some j ≡ none = sym h ∙ ap (λ x. get_import x.imports ident) same ∙ i in cc
none-Resolves g scope ident s e at i up d (outer _ s' p _ at' _ h r) =
    let same : s' ≡ s = some_inj (sym at' ∙ at) in up p (ap (λ x. x.parent) (sym same) ∙ h) d r

get_scope : (xs : List Scope) (k : ℕ) → k < length xs → (s : Scope) × (get_elem? xs k ≡ some s)
get_scope xs k lt = elim (Option-cases (get_elem? xs k)) [
  | inr r ↦ r
  | inl e ↦ absurd (inside xs k lt e)
]
  where
    inside : (xs : List Scope) (k : ℕ) → k < length xs → get_elem? xs k ≡ none → ⊥
    inside [] k lt e = omega arith
    inside (x ∷ xs) zero lt e = cc
    inside (x ∷ xs) (suc k) lt e = inside xs k (omega arith) e

-- In a graph in order, a search from a scope of it, with one round more than the number of the
-- scope, ends: it finds a declaration that the name stands for, or there is none.
pub resolve_name_lem :
    (fuel : ℕ) (g : ScopeGraph) (scope ident : ℕ)
    → IsGraph g
    → scope < length g.scopes
    → scope < fuel
    → ((d : Declaration) × (resolve_name fuel g scope ident true ≡ found d)
        × Resolves g ident d scope)
      ⊎ ((resolve_name fuel g scope ident true ≡ missing)
          × ((d : Declaration) → Resolves g ident d scope → ⊥))
unfolding resolve_name
resolve_name_lem zero g scope ident v lt enough = absurd (omega arith)
resolve_name_lem (suc fuel) g scope ident v lt enough =
    elim (Option-cases (declared g scope ident)) [
      | inr (d, e) ↦ inl (d, rw (resolve_name, e) refl, here scope e)
      | inl e ↦
          let (s, at) = get_scope g.scopes scope lt in
          elim (Option-cases (get_import s.imports ident)) [
            | inr (j, i) ↦
                let (d, h) = v.imports scope ident s j at i in
                inl (d, rw (resolve_name, e, at, i, h) refl, imported scope s j e at i h)
            | inl i ↦ elim (Option-cases s.parent) [
              | inl p ↦ inr (
                rw (resolve_name, e, at, i, p) refl,
                none-Resolves g scope ident s e at i
                    (λ q h. let bad : none ≡ some q = sym p ∙ h in cc),
              )
              | inr (q, p) ↦
                  let below = v.parents scope q s at p in
                  let step : resolve_name (suc fuel) g scope ident true
                      ≡ resolve_name fuel g q ident true =
                    rw (resolve_name, e, at, i, p) refl in
                  elim (resolve_name_lem fuel g q ident v (omega arith) (omega arith)) [
                    | inl (d, h, r) ↦ inl (d, step ∙ h, outer scope s q e at i p r)
                    | inr (h, none_there) ↦ inr (
                      step ∙ h,
                      none-Resolves g scope ident s e at i (λ q' h' d r.
                          let same : q ≡ q' = some_inj (sym p ∙ h') in
                          none_there d (subst (Resolves g ident d) (sym same) r)),
                    )
                  ]
            ]
          ]
    ]
