-- ===== src/Typechecker/UnionFind/Compress.antt =====
-- src/typechecker/unionfind.rs, `find`: what its writes do to the chains of type variables.
use roto.Prelude.{
  ℕ, zero, suc, ◌==◌, ◌≡◌, ◌≢◌, refl, sym, ap, ◌∙◌, subst, List, [], ◌∷◌, length, get_elem?, set,
  some, some_inj, Option-cases, Bool-cases, inl, inr, ==→≡, ==→≢, get_elem?-set_ne, length-set,
}
use roto.Typechecker.Types.{RotoType}
use roto.Typechecker.UnionFind.{
  Outcome, returned, mismatch, panicked, out_of_fuel, and_then, link, find,
}
use roto.Typechecker.UnionFind.Chains.{
  Resolves, here, there, Resolves-unique, Root, root_of, to_root, Resolves-lt,
}

-- Two lists of variables in which every index leads to the same entry.
pub record Same (uf uf' : List RotoType) : Type 0 where
  pub forward : (t : RotoType) (i : ℕ) → Resolves uf t i → Resolves uf' t i
  pub backward : (t : RotoType) (i : ℕ) → Resolves uf' t i → Resolves uf t i
  pub as_long : length uf' ≡ length uf

pub Same-refl : (uf : List RotoType) → Same uf uf
Same-refl uf = record { forward = λ t i r. r; backward = λ t i r. r; as_long = refl }

pub Same-trans : (uf uf' uf'' : List RotoType) → Same uf uf' → Same uf' uf'' → Same uf uf''
Same-trans uf uf' uf'' p q = record {
  forward = λ t i r. q.forward t i (p.forward t i r);
  backward = λ t i r. p.backward t i (q.backward t i r);
  as_long = q.as_long ∙ p.as_long;
}

set_same : (uf : List RotoType) (i : ℕ) {t : RotoType} → get_elem? uf i ≡ some t → set uf i t ≡ uf
set_same [] i e = cc
set_same (x ∷ uf) zero e = ap (λ y. y ∷ uf) (sym (some_inj e))
set_same (x ∷ uf) (suc i) e = ap (λ ys. x ∷ ys) (set_same uf i e)

module _ (uf : List RotoType) (t : RotoType) (i : ℕ) (r : Resolves uf t i) (root : Root uf t)
    (ne : root.index ≢ i) where
  written : Resolves (set uf i t) t i
  written = to_root uf i (Resolves-lt uf i r) root ne

  write_forward : (u : RotoType) (j : ℕ) → Resolves uf u j → Resolves (set uf i t) u j
  write_forward u j (here _ e l) = elim (Bool-cases (j == i)) [
    | inl at ↦
        let same : j ≡ i = ==→≡ j i at in
        let equal : u ≡ t =
          Resolves-unique uf j (here j e l) (subst (Resolves uf t) (sym same) r) in
        rw (same, equal) written
    | inr away ↦ here j (get_elem?-set_ne uf t (λ q. ==→≢ j i away (sym q)) ∙ e) l
  ]
  write_forward u j (there _ k v e l s) = elim (Bool-cases (j == i)) [
    | inl at ↦
        let same : j ≡ i = ==→≡ j i at in
        let equal : u ≡ t =
          Resolves-unique uf j (there j k v e l s) (subst (Resolves uf t) (sym same) r) in
        rw (same, equal) written
    | inr away ↦
        there j k v (get_elem?-set_ne uf t (λ q. ==→≢ j i away (sym q)) ∙ e) l (write_forward u k s)
  ]

  write_backward : (u : RotoType) (j : ℕ) → Resolves (set uf i t) u j → Resolves uf u j
  write_backward u j (here _ e l) = elim (Bool-cases (j == i)) [
    | inl at ↦
        let same : j ≡ i = ==→≡ j i at in
        let equal : u ≡ t =
          Resolves-unique (set uf i t) j (here j e l)
            (subst (Resolves (set uf i t) t) (sym same) written) in
        rw (same, equal) r
    | inr away ↦ here j (sym (get_elem?-set_ne uf t (λ q. ==→≢ j i away (sym q))) ∙ e) l
  ]
  write_backward u j (there _ k v e l s) = elim (Bool-cases (j == i)) [
    | inl at ↦
        let same : j ≡ i = ==→≡ j i at in
        let equal : u ≡ t =
          Resolves-unique (set uf i t) j (there j k v e l s)
            (subst (Resolves (set uf i t) t) (sym same) written) in
        rw (same, equal) r
    | inr away ↦
        there j k v (sym (get_elem?-set_ne uf t (λ q. ==→≢ j i away (sym q))) ∙ e) l
          (write_backward u k s)
  ]

-- To write at an index the entry that it leads to changes nothing of where any index leads.
pub write_lem : (uf : List RotoType) (t : RotoType) (i : ℕ) → Resolves uf t i → Same uf (set uf i t)
write_lem uf t i r =
    let root = root_of uf i r in
    elim (Bool-cases (root.index == i)) [
      | inl at ↦
          let same : get_elem? uf i ≡ some t =
            subst (λ k. get_elem? uf k ≡ some t) (==→≡ root.index i at) root.entry in
          rw (set_same uf i same) (Same-refl uf)
      | inr away ↦
          let ne = ==→≢ root.index i away in
          record {
            forward = write_forward uf t i r root ne;
            backward = write_backward uf t i r root ne;
            as_long = length-set uf i t;
          }
    ]

pub returned_inj :
    {A : Type 0} {a b : A} {uf uf' : List RotoType}
    → returned a uf ≡ returned b uf'
    → (a ≡ b) × (uf ≡ uf')
returned_inj h = (cc, cc)

pub and_then-returned :
    {A B : Type 0} (m : Outcome A) (f : A → List RotoType → Outcome B) {b : B} {uf' : List RotoType}
    → and_then m f ≡ returned b uf'
    → (a : A) × ((uf : List RotoType) × (m ≡ returned a uf) × (f a uf ≡ returned b uf'))
and_then-returned (returned a uf) f h = (a, (uf, refl, h))
and_then-returned (mismatch uf) f h = cc
and_then-returned panicked f h = cc
and_then-returned out_of_fuel f h = cc

-- What `find` finds is the entry that the index leads to, and although `find` writes on its way
-- back, every index leads afterwards where it led before.
pub find-Same :
    (fuel : ℕ) (uf : List RotoType) (i : ℕ) {t : RotoType} {uf' : List RotoType}
    → find fuel uf i ≡ returned t uf'
    → Resolves uf t i × Same uf uf'
unfolding find
find-Same zero uf i h = cc
find-Same (suc fuel) uf i {t} {uf'} h = elim (Option-cases (get_elem? uf i)) [
  | inl e ↦ let bad : panicked ≡ returned t uf' = (rw (e, find) at h) in cc
  | inr (u, e) ↦ elim (Option-cases (link i u)) [
    | inl l ↦
        let out : returned u uf ≡ returned t uf' = (rw (e, l, find) at h) in
        let (same, same_uf) = returned_inj out in
        (subst (λ v. Resolves uf v i) same (here i e l), subst (Same uf) same_uf (Same-refl uf))
    | inr (k, l) ↦
        let out : and_then (find fuel uf k) (λ new_t uf₁. returned new_t (set uf₁ i new_t))
            ≡ returned t uf' =
          (rw (e, l, find) at h) in
        let (new_t, (uf₁, found, last)) = and_then-returned (find fuel uf k) _ out in
        let (same, same_uf) = returned_inj last in
        let (r, s) = find-Same fuel uf k found in
        let here_too : Resolves uf new_t i = there i k u e l r in
        (
          subst (λ v. Resolves uf v i) same here_too,
          subst (Same uf) same_uf (
              Same-trans uf uf₁ (set uf₁ i new_t) s
                (write_lem uf₁ new_t i (s.forward new_t i here_too))),
        )
  ]
]
