-- ===== src/Mir/Types/Interned.antt =====
-- src/mir/ty.rs, `Pool`: the references that `intern` gives out.
use roto.Prelude.{
  ℕ, zero, suc, true, false, ◌==◌, ◌≡◌, ◌<◌, refl, ap, sym, ◌∙◌, subst, List, [], ◌∷◌, ◌++◌, length,
  All, get_elem?, none, some, some_inj, Bool-cases, inl, inr, ◌⊎◌, arith, get_elem?-lt, ◌≢◌, ◌↔◌,
  ◌≤◌, ◌+◌, assert, >>=-eq-some, ==→≡, get_elem?-append_end, get_elem?-append_left, length-append,
}
use roto.Mir.Types.{Ty, field_types, ty_eq, insert_full, intern, intern_known, get, new, well_known}
use roto.Mir.Types.Equal.{ty_eq→≡, ty_eq_self}

-- No type stands at two places.
abbrev pub IsPool : List Ty → Type 0
IsPool pool = (r r' : ℕ) (t : Ty) → get pool r ≡ some t → get pool r' ≡ some t → r ≡ r'

absent_cons :
    (u : Ty) (us : List Ty) (t : Ty)
    → ty_eq u t ≡ false
    → ((r : ℕ) → get us r ≢ some t)
    → (r : ℕ) → get (u ∷ us) r ≢ some t
absent_cons u us t differs absent zero q =
    let bad : ty_eq u t ≡ true = subst (λ v. ty_eq v t ≡ true) (sym (some_inj q)) (ty_eq_self t) in
    let clash : true ≡ false = sym bad ∙ differs in cc
absent_cons u us t differs absent (suc r) q = absent r q

-- What `intern` returns, by whether the type is in the pool.
insert_full-cases :
    (pool : List Ty) (t : Ty)
    → ((r : ℕ) × (get pool r ≡ some t) × (insert_full pool t ≡ (pool, r)))
      ⊎ (((r : ℕ) → get pool r ≢ some t) × (insert_full pool t ≡ (pool ++ t ∷ [], length pool)))
unfolding insert_full
insert_full-cases [] t = inr (λ r e. let bad : none ≡ some t = e in cc, refl)
insert_full-cases (u ∷ us) t = elim (Bool-cases (ty_eq u t)) [
  | inl same ↦ inl (0, ap some (ty_eq→≡ u t same), rw (insert_full, same) refl)
  | inr differs ↦ elim (insert_full-cases us t) [
    | inl (r, at, e) ↦ inl (suc r, at, rw (insert_full, differs, e) refl)
    | inr (absent, e) ↦ inr (absent_cons u us t differs absent, rw (insert_full, differs, e) refl)
  ]
]

-- What stands in a pool that a type was put at the end of.
append-cases :
    (pool : List Ty) (t : Ty) (r : ℕ) {u : Ty}
    → get (pool ++ t ∷ []) r ≡ some u
    → (get pool r ≡ some u) ⊎ ((r ≡ length pool) × (u ≡ t))
append-cases [] t zero h = inr (refl, sym (some_inj h))
append-cases [] t (suc r) h = cc
append-cases (x ∷ xs) t zero h = inl h
append-cases (x ∷ xs) t (suc r) h = elim (append-cases xs t r h) [
  | inl old ↦ inl old
  | inr (at, same) ↦ inr (ap suc at, same)
]

-- A pool after `intern`: the reference leads to the type, every earlier reference leads where it
-- led, and still no type stands at two places.
pub record Interned (pool : List Ty) (t : Ty) (pool' : List Ty) (r : ℕ) : Type 0 where
  pub found : get pool' r ≡ some t
  pub kept : (q : ℕ) (u : Ty) → get pool q ≡ some u → get pool' q ≡ some u
  pub distinct : IsPool pool'
  pub added : (q : ℕ) (u : Ty) → get pool' q ≡ some u → (get pool q ≡ some u) ⊎ ((q ≡ r) × (u ≡ t))
  pub as_long : length pool ≤ length pool'

append-IsPool :
    (pool : List Ty) (t : Ty)
    → IsPool pool
    → ((r : ℕ) → get pool r ≢ some t)
    → IsPool (pool ++ t ∷ [])
append-IsPool pool t h absent r r' u e e' = elim (append-cases pool t r e) [
  | inl old ↦ elim (append-cases pool t r' e') [
    | inl old' ↦ h r r' u old old'
    | inr (at', same') ↦ absurd (absent r (old ∙ ap some same'))
  ]
  | inr (at, same) ↦ elim (append-cases pool t r' e') [
    | inl old' ↦ absurd (absent r' (old' ∙ ap some same))
    | inr (at', same') ↦ at ∙ sym at'
  ]
]

-- Interning a type gives a reference to it, and leaves each earlier reference with its type; it
-- adds nothing but the type, and no type twice.
pub intern-Interned :
    (pool : List Ty) (t : Ty) → IsPool pool → Interned pool t (intern pool t).0 (intern pool t).1
unfolding intern
intern-Interned pool t h = elim (insert_full-cases pool t) [
  | inl (r, at, e) ↦ rw e (record {
    found = at;
    kept = λ q u g. g;
    distinct = h;
    added = λ q u g. inl g;
    as_long = omega arith;
  })
  | inr (absent, e) ↦ rw e (record {
    found = get_elem?-append_end pool t (length pool) refl;
    kept = λ q u g. get_elem?-append_left pool (t ∷ []) q (get_elem?-lt pool q g) ∙ g;
    distinct = append-IsPool pool t h absent;
    added = append-cases pool t;
    as_long = omega (arith, length-append pool (t ∷ []));
  })
]

-- Two types that are interned one after the other get one reference exactly when they are equal.
pub intern-same_iff :
    (pool : List Ty) (t u : Ty)
    → IsPool pool
    → let first : List Ty × ℕ = intern pool t in (first.1 ≡ (intern first.0 u).1) ↔ (t ≡ u)
intern-same_iff pool t u h =
    let a = intern-Interned pool t h in
    let b = intern-Interned (intern pool t).0 u a.distinct in
    let old = b.kept (intern pool t).1 t a.found in
    (
      λ same. some_inj (sym old ∙ ap (get (intern (intern pool t).0 u).0) same ∙ b.found),
      λ same. b.distinct _ _ u (old ∙ ap some same) b.found,
    )

empty-IsPool : IsPool []
empty-IsPool r r' t h h' = let bad : none ≡ some t = h in cc

asserted : (a b : ℕ) {x : Unit {0}} → assert (a == b) ≡ some x → a ≡ b
asserted a b h = elim (Bool-cases (a == b)) [
  | inl same ↦ ==→≡ a b same
  | inr differs ↦ let bad : none ≡ some tt = (rw differs at h) in cc
]

known_at :
    (expected : ℕ) (pool : List Ty) (t : Ty) (ts : List Ty)
    → get pool expected ≡ some t
    → ((k : ℕ) (u : Ty) → get_elem? ts k ≡ some u → get pool (suc expected + k) ≡ some u)
    → (k : ℕ) (u : Ty) → get_elem? (t ∷ ts) k ≡ some u
    → get pool (expected + k) ≡ some u
known_at expected pool t ts h rest zero u e =
    let same : expected + 0 ≡ expected = omega arith in rw same (h ∙ e)
known_at expected pool t ts h rest (suc k) u e =
    let same : expected + suc k ≡ suc expected + k = omega arith in rw same (rest k u e)

intern_known-IsPool :
    (pool : List Ty) (expected : ℕ) (ts : List Ty) (pool' : List Ty)
    → IsPool pool
    → intern_known pool expected ts ≡ some pool'
    → IsPool pool'
      × ((q : ℕ) (u : Ty) → get pool q ≡ some u → get pool' q ≡ some u)
      × ((k : ℕ) (u : Ty) → get_elem? ts k ≡ some u → get pool' (expected + k) ≡ some u)
unfolding intern_known
intern_known-IsPool pool expected [] pool' h e =
    let same = some_inj e in
    (subst IsPool same h, λ q u g. subst (λ p. get p q ≡ some u) same g, λ k u g. cc)
intern_known-IsPool pool expected (t ∷ ts) pool' h e =
    let (_, tested, rest) = >>=-eq-some (assert (expected == (intern pool t).1)) _ e in
    let at : expected ≡ (intern pool t).1 = asserted expected (intern pool t).1 tested in
    let i = intern-Interned pool t h in
    let (valid, kept, known) =
      intern_known-IsPool (intern pool t).0 (suc expected) ts pool' i.distinct rest in
    (
      valid,
      λ q u g. kept q u (i.kept q u g),
      λ k u g.
          known_at expected pool' t ts
            (kept expected t (subst (λ r. get (intern pool t).0 r ≡ some t) (sym at) i.found)) known
            k u g,
    )

-- The new pool: it exists, since no assertion fails, and in it the constants of `TyRef` refer to
-- the types that they are named after; no type stands at two places.
pub new-IsPool :
    (pool : List Ty) × (new ≡ some pool)
    × IsPool pool
    × ((k : ℕ) (u : Ty) → get_elem? well_known k ≡ some u → get pool k ≡ some u)
unfolding new intern_known insert_full
new-IsPool = (
  well_known,
  refl,
  (intern_known-IsPool [] 0 well_known well_known empty-IsPool refl).0,
  λ k u e. e,
)

-- A type refers to types in front of an index only; what a list holds is of no account for its
-- layout.
abbrev pub RefersBelow : ℕ → Ty → Type 0
RefersBelow n (Ty.record_type fs) = All (λ t. t < n) (field_types fs)
RefersBelow n (Ty.enum vs) = All (λ v. All (λ t. t < n) v.1) vs
RefersBelow n _ = Unit

-- Each type refers to types in front of it only.
abbrev pub IsOrdered : List Ty → Type 0
IsOrdered pool = (r : ℕ) (t : Ty) → get pool r ≡ some t → RefersBelow r t

-- A type that refers to the types of the pool only keeps the pool in order.
pub intern-IsOrdered :
    (pool : List Ty) (t : Ty)
    → IsOrdered pool
    → RefersBelow (length pool) t
    → IsOrdered (intern pool t).0
unfolding intern
intern-IsOrdered pool t h below = elim (insert_full-cases pool t) [
  | inl (r, at, e) ↦ rw e h
  | inr (absent, e) ↦ rw e (λ r u g. elim (append-cases pool t r g) [
    | inl old ↦ h r u old
    | inr (at, same) ↦ rw (at, same) below
  ])
]
