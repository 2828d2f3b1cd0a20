-- ===== src/Typechecker/Scope/Entries.antt =====
-- src/typechecker/scope.rs: the maps of declarations and imports.
use roto.Prelude.{
  ℕ, ◌≡◌, ◌≢◌, ◌⊎◌, ◌∙◌, refl, sym, ap, true, false, some, none, List, [], ◌∷◌, ◌++◌, ◌==◌,
  if◌then◌else◌, Bool-cases, inl, inr, some_inj, arith,
}
use roto.Typechecker.{ResolvedName}
use roto.Typechecker.Scope.{Declaration, name_eq, get, get_import, put}

abbrev pub Entries : Type 0
Entries = List (ResolvedName × Declaration)

name_eq-≡ : (a b : ResolvedName) → name_eq a b ≡ true → a ≡ b
name_eq-≡ a b h = ground arith

name_eq_refl : (a : ResolvedName) → name_eq a a ≡ true
name_eq_refl a = ground arith

pub get-put_self : (ds : Entries) (n : ResolvedName) (d : Declaration) → get (put ds n d) n ≡ some d
unfolding get put
get-put_self [] n d = rw (name_eq_refl n) refl
get-put_self ((k, e) ∷ ds) n d = elim (Bool-cases (name_eq k n)) [
  | inl t ↦ rw (t, get) (rw t refl)
  | inr f ↦ rw (f, get) (rw f (get-put_self ds n d))
]

pub get-put_ne :
    (ds : Entries) (n m : ResolvedName) (d : Declaration) → n ≢ m → get (put ds n d) m ≡ get ds m
unfolding get put
get-put_ne [] n m d ne = elim (Bool-cases (name_eq n m)) [
  | inl t ↦ absurd (ne (name_eq-≡ n m t))
  | inr f ↦ rw f refl
]
get-put_ne ((k, e) ∷ ds) n m d ne = elim (Bool-cases (name_eq k n)) [
  | inl t ↦ elim (Bool-cases (name_eq k m)) [
    | inl t' ↦ absurd (ne (sym (name_eq-≡ k n t) ∙ name_eq-≡ k m t'))
    | inr f' ↦ rw (t, get) (rw f' refl)
  ]
  | inr f ↦ rw (f, get) (ap (λ o. if name_eq k m then some e else o) (get-put_ne ds n m d ne))
]

-- Whether two names are one.
pub same_name : (n m : ResolvedName) → (n ≡ m) ⊎ (n ≢ m)
same_name n m = elim (Bool-cases (name_eq n m)) [
  | inl t ↦ inl (name_eq-≡ n m t)
  | inr f ↦
      inr (λ e. let bad : true ≡ false = sym (ap (λ x. name_eq x m) e ∙ name_eq_refl m) ∙ f in cc)
]

pub get_import-append :
    (is : List (ℕ × (ℕ × ResolvedName))) (k x : ℕ) (i j : ℕ × ResolvedName)
    → get_import (is ++ (k, i) ∷ []) x ≡ some j
    → (get_import is x ≡ some j) ⊎ (i ≡ j)
unfolding get_import
get_import-append [] k x i j h = elim (Bool-cases (k == x)) [
  | inl t ↦ inr (some_inj (rw t at h))
  | inr f ↦ let bad : none ≡ some j = rw f at h in cc
]
get_import-append ((k', i') ∷ is) k x i j h = elim (Bool-cases (k' == x)) [
  | inl t ↦ inl (rw t (rw t at h))
  | inr f ↦ elim (get_import-append is k x i j (rw f at h)) [ inl e ↦ inl (rw f e) | inr e ↦ inr e ]
]
