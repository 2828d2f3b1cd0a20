-- ===== src/Typechecker/UnionFind/Binding.antt =====
-- src/typechecker/unionfind.rs, `set`, on a type variable that is not set.
use roto.Prelude.{
  ℕ, ◌≡◌, ◌≢◌, ◌<◌, ◌⊎◌, refl, sym, ap, ◌∙◌, subst, List, get_elem?, set, none, some, some_inj,
  Bool-cases, inl, inr, get_elem?-set_self, get_elem?-set_ne, get_elem?-lt, length-set, ≡→==, true,
  false,
}
use roto.Typechecker.Types.{RotoType}
use roto.Typechecker.Types.Equal.{type_eq, type_eq→≡, type_eq_self}
use roto.Typechecker.UnionFind.{link, var_index, not_itself}
use roto.Typechecker.UnionFind.Chains.{
  Resolves, here, there, Root, Root-index, to_root, IsUnionFind,
}

-- A type that needs no further variable to be looked up.
abbrev pub IsSettled : List RotoType → RotoType → Type 0
IsSettled uf u = (var_index u ≡ none) ⊎ Root uf u

itself : (j : ℕ) → not_itself j (some j) ≡ none
itself j = rw (≡→== j j refl) refl

-- The variable `a`, whose entry is `t`, is set to the type `u`.
module _ (uf : List RotoType) (a : ℕ) (t u : RotoType) (entry : get_elem? uf a ≡ some t)
    (variable : var_index t ≡ some a) (settled : IsSettled uf u) (other : u ≢ t) where
  pub set-bound : Resolves (set uf a u) u a
  set-bound = elim settled [
    | inl concrete ↦
        here a (get_elem?-set_self uf a u (get_elem?-lt uf a entry)) (ap (not_itself a) concrete)
    | inr r ↦
        to_root uf a (get_elem?-lt uf a entry) r
          (λ q. other (some_inj (sym (subst (λ k. get_elem? uf k ≡ some u) q r.entry) ∙ entry)))
  ]

  at_end : (j : ℕ) (v : RotoType) {k : ℕ} → get_elem? uf j ≡ some v → link j v ≡ some k → j ≢ a
  at_end j v {k = k} e l q =
      let same : t ≡ v = some_inj (sym entry ∙ ap (get_elem? uf) (sym q) ∙ e) in
      let unset : link j t ≡ none = ap (not_itself j) (variable ∙ ap some (sym q)) ∙ itself j in
      let bad : none ≡ some k = sym unset ∙ ap (link j) same ∙ l in cc

  -- The indices that led to the variable now lead to the type.
  pub set-moved : (j : ℕ) → Resolves uf t j → Resolves (set uf a u) u j
  set-moved j (here _ e l) =
      subst (Resolves (set uf a u) u)
        (Root-index uf (record { index = j; entry = e; unset = l }) variable) set-bound
  set-moved j (there _ k v e l r) =
      there j k v (get_elem?-set_ne uf u (λ q. at_end j v e l (sym q)) ∙ e) l (set-moved k r)

  -- The indices that led to another entry still do.
  pub set-kept : (v : RotoType) (j : ℕ) → v ≢ t → Resolves uf v j → Resolves (set uf a u) v j
  set-kept v j ne (here _ e l) =
      here j
        (get_elem?-set_ne uf u (λ q. ne (some_inj (sym e ∙ ap (get_elem? uf) (sym q) ∙ entry))) ∙ e)
        l
  set-kept v j ne (there _ k w e l r) =
      there j k w (get_elem?-set_ne uf u (λ q. at_end j w e l (sym q)) ∙ e) l (set-kept v k ne r)

  pub set-IsUnionFind : IsUnionFind uf → IsUnionFind (set uf a u)
  set-IsUnionFind h i lt =
      let (v, r) = h i (subst (λ n. i < n) (length-set uf a u) lt) in
      elim (Bool-cases (type_eq v t)) [
        | inl same ↦ (u, set-moved i (subst (λ w. Resolves uf w i) (type_eq→≡ v t same) r))
        | inr differs ↦ (
          v,
          set-kept v i
              (λ q.
                let bad : type_eq v t ≡ true = subst (λ w. type_eq v w ≡ true) q (type_eq_self v) in
                let clash : true ≡ false = sym bad ∙ differs in cc)
              r,
        )
      ]
