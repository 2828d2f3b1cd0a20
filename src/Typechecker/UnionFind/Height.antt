-- ===== src/Typechecker/UnionFind/Height.antt =====
-- src/typechecker/unionfind.rs: the length of the chains of type variables, the fuel of `find` and
-- `find_ref`, and the two against each other.
use roto.Prelude.{
  ℕ, zero, suc, ◌+◌, ◌≤◌, ◌<◌, ◌≡◌, refl, sym, ap, ◌∙◌, subst, List, [], ◌∷◌, length, get_elem?,
  set, none, some, some_inj, arith,
}
use roto.Prelude.Distinct.{Distinct, Distinct-length}
use roto.Typechecker.Types.{RotoType}
use roto.Typechecker.UnionFind.{returned, link, find, find_ref}
use roto.Typechecker.UnionFind.Chains.{Resolves, here, there, Resolves-lt, IsUnionFind}
use roto.Typechecker.UnionFind.Compress.{Same, find-Same}

-- The indices of a chain.
abbrev path : {uf : List RotoType} {t : RotoType} {i : ℕ} → Resolves uf t i → List ℕ
path (here i e l) = i ∷ []
path (there i j u e l r) = i ∷ path r

module _ (uf : List RotoType) {t : RotoType} where
  path_unique : (i : ℕ) (r s : Resolves uf t i) → length (path r) ≡ length (path s)
  path_unique i (here _ e l) (here _ e' l') = refl
  path_unique i (here _ e l) (there _ j v e' l' s) =
      let same = some_inj (sym e ∙ e') in
      let bad : none ≡ some j = sym l ∙ ap (link i) same ∙ l' in cc
  path_unique i (there _ j v e l r) (here _ e' l') =
      let same = some_inj (sym e' ∙ e) in
      let bad : none ≡ some j = sym l' ∙ ap (link i) same ∙ l in cc
  path_unique i (there _ j v e l r) (there _ j' v' e' l' s) =
      let same = some_inj (sym e ∙ e') in
      let next : j ≡ j' = some_inj (sym l ∙ ap (link i) same ∙ l') in
      ap suc (
        subst (λ k. (s' : Resolves uf t k) → length (path r) ≡ length (path s')) next
          (path_unique j r) s)

  path_from :
      (i : ℕ) (r : Resolves uf t i) (k x : ℕ)
      → get_elem? (path r) k ≡ some x
      → (s : Resolves uf t x) × (k + length (path s) ≡ length (path r))
  path_from i (here _ e l) zero x h =
      subst (λ y. (s : Resolves uf t y) × (0 + length (path s) ≡ 1)) (some_inj h) (here i e l, refl)
  path_from i (here _ e l) (suc k) x h = cc
  path_from i (there _ j v e l r) zero x h =
      subst (λ y. (s : Resolves uf t y) × (0 + length (path s) ≡ suc (length (path r))))
        (some_inj h) (there i j v e l r, omega arith)
  path_from i (there _ j v e l r) (suc k) x h =
      let (s, p) = path_from j r k x h in (s, omega (arith, p))

  path-Distinct : (i : ℕ) (r : Resolves uf t i) → Distinct (path r)
  path-Distinct i r j k x hj hk =
      let (s, p) = path_from i r j x hj in
      let (s', p') = path_from i r k x hk in omega (arith, path_unique x s s', p, p')

  -- A chain has no more entries than there are variables.
  path-le : (i : ℕ) (r : Resolves uf t i) → length (path r) ≤ length uf
  path-le i r =
      Distinct-length (path r) (length uf) (path-Distinct i r)
        (λ x (k, e). let (s, p) = path_from i r k x e in Resolves-lt uf x s)

  find-returned :
      (fuel i : ℕ) (r : Resolves uf t i)
      → length (path r) ≤ fuel
      → (uf' : List RotoType) × (find fuel uf i ≡ returned t uf')
  unfolding find
  find-returned zero i (here _ e l) h = absurd (omega arith)
  find-returned zero i (there _ j v e l r) h = absurd (omega arith)
  find-returned (suc fuel) i (here _ e l) h = (uf, rw (find, e, l) refl)
  find-returned (suc fuel) i (there _ j v e l r) h =
      let (uf', found) = find-returned fuel j r (omega arith) in
      (set uf' i t, rw (find, e, l, found) refl)

  find_ref-returned :
      (fuel i : ℕ) (r : Resolves uf t i)
      → length (path r) ≤ fuel
      → find_ref fuel uf i ≡ returned t uf
  unfolding find_ref
  find_ref-returned zero i (here _ e l) h = absurd (omega arith)
  find_ref-returned zero i (there _ j v e l r) h = absurd (omega arith)
  find_ref-returned (suc fuel) i (here _ e l) h = rw (find_ref, e, l) refl
  find_ref-returned (suc fuel) i (there _ j v e l r) h =
      rw (find_ref, e, l, find_ref-returned fuel j r (omega arith)) refl

  pub find-Resolves :
      (i : ℕ)
      → Resolves uf t i
      → (uf' : List RotoType) × (find (length uf) uf i ≡ returned t uf') × Same uf uf'
  find-Resolves i r =
      let (uf', found) = find-returned (length uf) i r (path-le i r) in
      let (at, same) = find-Same (length uf) uf i found in (uf', found, same)

  pub find_ref-Resolves : (i : ℕ) → Resolves uf t i → find_ref (length uf) uf i ≡ returned t uf
  find_ref-Resolves i r = find_ref-returned (length uf) i r (path-le i r)

-- Where every variable leads to an entry, `find` and `find_ref` return one entry for each index,
-- with as much fuel as there are variables. `find` writes to the list, but `find_ref` then returns
-- for every index the entry that it returned before.
pub find-find_ref :
    (uf : List RotoType) (i : ℕ)
    → IsUnionFind uf
    → i < length uf
    → (t : RotoType) × (uf' : List RotoType) × (find (length uf) uf i ≡ returned t uf')
      × (find_ref (length uf) uf i ≡ returned t uf)
      × (length uf' ≡ length uf)
      × ((j : ℕ)
          → j < length uf
          → (u : RotoType) × (find_ref (length uf) uf j ≡ returned u uf)
            × (find_ref (length uf') uf' j ≡ returned u uf'))
find-find_ref uf i h lt =
    let (t, r) = h i lt in
    let (uf', found, same) = find-Resolves uf i r in
    (
      t,
      uf',
      found,
      find_ref-Resolves uf i r,
      same.as_long,
      λ j lt_j.
          let (u, s) = h j lt_j in
          (u, find_ref-Resolves uf j s, find_ref-Resolves uf' j (same.forward u j s)),
    )
