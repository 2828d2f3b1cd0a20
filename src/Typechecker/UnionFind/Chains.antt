-- ===== src/Typechecker/UnionFind/Chains.antt =====
-- src/typechecker/unionfind.rs: the chains of type variables that `find` and `find_ref` follow.
use roto.Prelude.{
  ℕ, ◌==◌, ◌≡◌, ◌≢◌, ◌<◌, refl, sym, ap, ◌∙◌, subst, List, length, get_elem?, set, Option, none,
  some, some_inj, Option-cases, Bool-cases, inl, inr, ==→≡, get_elem?-set_self, get_elem?-set_ne,
  get_elem?-lt, ==→≢,
}
use roto.Typechecker.Types.{RotoType}
use roto.Typechecker.UnionFind.{link, var_index, not_itself}

-- The variables from an index on lead to an entry that is no further variable.
pub data Resolves (uf : List RotoType) (t : RotoType) : ℕ → Type 0 where
  here : (i : ℕ) → get_elem? uf i ≡ some t → link i t ≡ none → Resolves uf t i
  there :
      (i j : ℕ) (u : RotoType)
      → get_elem? uf i ≡ some u
      → link i u ≡ some j
      → Resolves uf t j
      → Resolves uf t i

-- Every variable leads to an entry: no chain leaves the list, and none runs in a circle.
abbrev pub IsUnionFind : List RotoType → Type 0
IsUnionFind uf = (i : ℕ) → i < length uf → (t : RotoType) × Resolves uf t i

pub Resolves-unique :
    (uf : List RotoType) {t u : RotoType} (i : ℕ) → Resolves uf t i → Resolves uf u i → t ≡ u
Resolves-unique uf i (here _ e l) (here _ e' l') = some_inj (sym e ∙ e')
Resolves-unique uf i (here _ e l) (there _ j v e' l' r) =
    let same = some_inj (sym e ∙ e') in
    let bad : none ≡ some j = sym l ∙ ap (link i) same ∙ l' in cc
Resolves-unique uf i (there _ j v e l r) (here _ e' l') =
    let same = some_inj (sym e' ∙ e) in
    let bad : none ≡ some j = sym l' ∙ ap (link i) same ∙ l in cc
Resolves-unique uf i (there _ j v e l r) (there _ j' v' e' l' r') =
    let same = some_inj (sym e ∙ e') in
    let next : j ≡ j' = some_inj (sym l ∙ ap (link i) same ∙ l') in
    Resolves-unique uf j r (subst (Resolves uf _) (sym next) r')

-- A variable that is found is one that is not set: it stands at its own index.
not_itself-some : (i : ℕ) (o : Option ℕ) {j : ℕ} → not_itself i o ≡ some j → (o ≡ some j) × (j ≢ i)
not_itself-some i none h = cc
not_itself-some i (some k) {j = j} h = elim (Bool-cases (k == i)) [
  | inl same ↦ let bad : none ≡ some j = (rw same at h) in cc
  | inr other ↦
      let e : some k ≡ some j = (rw other at h) in (e, λ q. ==→≢ k i other (some_inj e ∙ q))
]

not_itself-none : (i : ℕ) (o : Option ℕ) {j : ℕ} → not_itself i o ≡ none → o ≡ some j → j ≡ i
not_itself-none i none h e = cc
not_itself-none i (some k) {j = j} h e = elim (Bool-cases (k == i)) [
  | inl same ↦ sym (some_inj e) ∙ ==→≡ k i same
  | inr other ↦ let bad : some k ≡ none = (rw other at h) in cc
]

not_itself-ne : (i j : ℕ) → j ≢ i → not_itself i (some j) ≡ some j
not_itself-ne i j h = elim (Bool-cases (j == i)) [
  | inl same ↦ absurd (h (==→≡ j i same))
  | inr other ↦ rw other refl
]

pub link-some :
    (i : ℕ) (t : RotoType) {j : ℕ} → link i t ≡ some j → (var_index t ≡ some j) × (j ≢ i)
link-some i t h = not_itself-some i (var_index t) h

-- The entry that a chain ends at: a type that is no variable, or the variable that stands there.
pub record Root (uf : List RotoType) (t : RotoType) : Type 0 where
  pub index : ℕ
  pub entry : get_elem? uf index ≡ some t
  pub unset : link index t ≡ none

pub root_of : (uf : List RotoType) {t : RotoType} (i : ℕ) → Resolves uf t i → Root uf t
root_of uf i (here _ e l) = record { index = i; entry = e; unset = l }
root_of uf i (there _ j v e l r) = root_of uf j r

-- A variable that is not set stands at its own index.
pub Root-index :
    (uf : List RotoType) {t : RotoType} (r : Root uf t) {k : ℕ} → var_index t ≡ some k → k ≡ r.index
Root-index uf {t} r h = not_itself-none r.index (var_index t) r.unset h

pub Resolves-var :
    (uf : List RotoType) {t : RotoType} (r : Root uf t) {k : ℕ}
    → var_index t ≡ some k
    → Resolves uf t k
Resolves-var uf {t} r h =
    subst (Resolves uf t) (sym (Root-index uf r h)) (here r.index r.entry r.unset)

pub Resolves-lt : (uf : List RotoType) {t : RotoType} (i : ℕ) → Resolves uf t i → i < length uf
Resolves-lt uf i (here _ e l) = get_elem?-lt uf i e
Resolves-lt uf i (there _ j v e l r) = get_elem?-lt uf i e

-- The chain from an entry that is overwritten by a type that a chain ends at.
pub to_root :
    (uf : List RotoType) {t : RotoType} (i : ℕ)
    → i < length uf
    → (r : Root uf t) → r.index ≢ i
    → Resolves (set uf i t) t i
to_root uf {t} i lt r ne = elim (Option-cases (var_index t)) [
  | inl concrete ↦ here i (get_elem?-set_self uf i t lt) (ap (not_itself i) concrete)
  | inr (k, variable) ↦
      let at : k ≡ r.index = Root-index uf r variable in
      there i r.index t (get_elem?-set_self uf i t lt)
        (ap (not_itself i) (variable ∙ ap some at) ∙ not_itself-ne i r.index ne)
        (here r.index (get_elem?-set_ne uf t (λ q. ne (sym q)) ∙ r.entry) r.unset)
]
