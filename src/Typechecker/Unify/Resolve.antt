-- ===== src/Typechecker/Unify/Resolve.antt =====
-- src/typechecker/mod.rs, `resolve_type`: the type that a type stands for.
use roto.Prelude.{
  ℕ, ◌≡◌, ◌<◌, ◌⊎◌, refl, sym, ap, ◌∙◌, subst, List, none, some, Option-cases, inl, inr,
}
use roto.Typechecker.Types.{RotoType}
use roto.Typechecker.UnionFind.{returned, var_index}
use roto.Typechecker.UnionFind.Chains.{Resolves, Root, root_of, IsUnionFind, Resolves-var}
use roto.Typechecker.UnionFind.Compress.{Same, Same-refl}
use roto.Typechecker.UnionFind.Height.{find-Resolves}
use roto.Typechecker.UnionFind.Binding.{IsSettled}
use roto.Typechecker.Unify.{resolve_type, find_variable}

-- The type `t` stands for the type `u`: it is `u` and no variable, or a variable that leads to `u`.
abbrev pub ResolvesTo : List RotoType → RotoType → RotoType → Type 0
ResolvesTo uf t u =
    ((var_index t ≡ none) × (u ≡ t)) ⊎ ((i : ℕ) × (var_index t ≡ some i) × Resolves uf u i)

pub Same-ResolvesTo :
    (uf uf' : List RotoType) (t u : RotoType) → Same uf uf' → ResolvesTo uf t u → ResolvesTo uf' t u
Same-ResolvesTo uf uf' t u s (inl h) = inl h
Same-ResolvesTo uf uf' t u s (inr (i, e, r)) = inr (i, e, s.forward u i r)

pub Same-IsUnionFind : (uf uf' : List RotoType) → Same uf uf' → IsUnionFind uf → IsUnionFind uf'
Same-IsUnionFind uf uf' s h i lt =
    let (t, r) = h i (subst (λ n. i < n) s.as_long lt) in (t, s.forward t i r)

pub resolve_type_lem :
    (uf : List RotoType) (t u : RotoType)
    → ResolvesTo uf t u
    → (uf' : List RotoType) × (resolve_type uf t ≡ returned u uf') × Same uf uf'
unfolding find_variable
resolve_type_lem uf t u (inl (concrete, same)) =
    (uf, ap (find_variable uf t) concrete ∙ ap (λ v. returned v uf) (sym same), Same-refl uf)
resolve_type_lem uf t u (inr (i, variable, r)) =
    let (uf', found, s) = find-Resolves uf i r in (uf', ap (find_variable uf t) variable ∙ found, s)

-- What a type stands for needs no further variable to be looked up.
pub ResolvesTo-IsSettled :
    (uf : List RotoType) (t u : RotoType) → ResolvesTo uf t u → IsSettled uf u
ResolvesTo-IsSettled uf t u (inl (concrete, same)) = inl (ap var_index same ∙ concrete)
ResolvesTo-IsSettled uf t u (inr (i, variable, r)) = inr (root_of uf i r)

-- A type that is settled stands for itself.
pub IsSettled-ResolvesTo : (uf : List RotoType) (u : RotoType) → IsSettled uf u → ResolvesTo uf u u
IsSettled-ResolvesTo uf u (inl concrete) = inl (concrete, refl)
IsSettled-ResolvesTo uf u (inr r) = elim (Option-cases (var_index u)) [
  | inl concrete ↦ inl (concrete, refl)
  | inr (k, variable) ↦ inr (k, variable, Resolves-var uf r variable)
]

-- A variable that is settled is within the list.
pub IsSettled-Root :
    (uf : List RotoType) (u : RotoType) {i : ℕ} → IsSettled uf u → var_index u ≡ some i → Root uf u
IsSettled-Root uf u {i = i} (inl concrete) h = let bad : none ≡ some i = sym concrete ∙ h in cc
IsSettled-Root uf u (inr r) h = r
