-- ===== src/Typechecker/Types/Instance.antt =====
-- src/typechecker/types.rs: the instance of a signature.
use roto.Prelude.{
  ◌⊎◌, ℕ, true, ◌==◌, ◌≡◌, ap, Bool-cases, inl, inr, List, [], ◌∷◌, All, Option, some, ◌>>=◌, ≡→==,
  >>=-eq-some, some_inj, subst,
}
use roto.Typechecker.Types.{RotoType, Types, Fields}
use roto.Typechecker.Types.Substitute.{Signature, instantiate_params, signature_instantiate}
use roto.Typechecker.Types.Simultaneous.{
  lookup, replace, replace_fields, replace_types, EachVar, EachVarTypes, EachVarFields, IsClosed,
  AreClosed, IsSubstitution, substitute_many_lem,
}
use roto.Typechecker.Types.Definitions.{types_substitute_many_lem}

mutual
  unfolding replace EachVar

  replace-IsClosed :
      (subs : List (RotoType × RotoType)) (t : RotoType)
      → EachVar (λ x. IsClosed (lookup subs x)) t
      → IsClosed (replace subs t)
  replace-IsClosed subs (RotoType.explicit_var x) h = h
  replace-IsClosed subs (RotoType.record_var i fs) h = replace_fields-IsClosed subs fs h
  replace-IsClosed subs (RotoType.record_type fs) h = replace_fields-IsClosed subs fs h
  replace-IsClosed subs (RotoType.named n ts) h = replace_types-IsClosed subs ts h
  replace-IsClosed subs (RotoType.var a) h = tt
  replace-IsClosed subs (RotoType.int_var a s) h = tt
  replace-IsClosed subs (RotoType.float_var a) h = tt
  replace-IsClosed subs RotoType.unit h = tt
  replace-IsClosed subs RotoType.never h = tt
  replace-IsClosed subs (RotoType.function ps r) h = tt

  replace_types-IsClosed :
      (subs : List (RotoType × RotoType)) (ts : Types)
      → EachVarTypes (λ x. IsClosed (lookup subs x)) ts
      → AreClosed (replace_types subs ts)
  replace_types-IsClosed subs Types.nil h = tt
  replace_types-IsClosed subs (Types.cons t ts) (h, hs) =
      (replace-IsClosed subs t h, replace_types-IsClosed subs ts hs)

  replace_fields-IsClosed :
      (subs : List (RotoType × RotoType)) (fs : Fields)
      → EachVarFields (λ x. IsClosed (lookup subs x)) fs
      → EachVarFields (λ x. ⊥) (replace_fields subs fs)
  replace_fields-IsClosed subs Fields.end h = tt
  replace_fields-IsClosed subs (Fields.field k t fs) (h, hs) =
      (replace-IsClosed subs t h, replace_fields-IsClosed subs fs hs)

-- The explicit variable is one of the types.
abbrev pub Among : Types → ℕ → Type 0
Among Types.nil x = ⊥
Among (Types.cons (RotoType.explicit_var a) ts) x = (a ≡ x) ⊎ Among ts x
Among (Types.cons t ts) x = Among ts x

module _ {P Q : ℕ → Type 0} where
  mutual
    unfolding EachVar

    each : ((x : ℕ) → P x → Q x) → (t : RotoType) → EachVar P t → EachVar Q t
    each f (RotoType.explicit_var x) h = f x h
    each f (RotoType.record_var i fs) h = each_fields f fs h
    each f (RotoType.record_type fs) h = each_fields f fs h
    each f (RotoType.named n ts) h = each_types f ts h
    each f (RotoType.var a) h = tt
    each f (RotoType.int_var a s) h = tt
    each f (RotoType.float_var a) h = tt
    each f RotoType.unit h = tt
    each f RotoType.never h = tt
    each f (RotoType.function ps r) h = tt

    each_types : ((x : ℕ) → P x → Q x) → (ts : Types) → EachVarTypes P ts → EachVarTypes Q ts
    each_types f Types.nil h = tt
    each_types f (Types.cons t ts) (h, hs) = (each f t h, each_types f ts hs)

    each_fields : ((x : ℕ) → P x → Q x) → (fs : Fields) → EachVarFields P fs → EachVarFields Q fs
    each_fields f Fields.end h = tt
    each_fields f (Fields.field k t fs) (h, hs) = (each f t h, each_fields f fs hs)

-- What `instantiate` learns from a list of types: substitutions, for each variable of the list.
abbrev Instance : Types → List (RotoType × RotoType) → Type 0
Instance ts subs = All IsSubstitution subs × ((x : ℕ) → Among ts x → IsClosed (lookup subs x))

abbrev with_type :
    RotoType
    → Types × (List (RotoType × RotoType) × List RotoType)
    → Option (Types × (List (RotoType × RotoType) × List RotoType))
with_type t r = some (Types.cons t r.0, r.1)

-- A type that is no explicit variable adds nothing.
kept :
    (t : RotoType) (ts : Types) (vs : List RotoType) {us : Types}
    {subs : List (RotoType × RotoType)} {left : List RotoType}
    → ((us' : Types) (subs' : List (RotoType × RotoType)) (left' : List RotoType)
        → instantiate_params ts vs ≡ some (us', (subs', left'))
        → Instance ts subs')
    → (instantiate_params ts vs >>= with_type t) ≡ some (us, (subs, left))
    → Instance ts subs
kept t ts vs ih e =
    let ((us', (subs', left')), rest, out) =
      >>=-eq-some (instantiate_params ts vs) (with_type t) e in
    subst (Instance ts) (ap (λ r. (r.1).0) (some_inj out)) (ih us' subs' left' rest)

instantiate_params-Instance :
    (ts : Types) (vs : List RotoType) (us : Types) (subs : List (RotoType × RotoType))
    (left : List RotoType)
    → All IsClosed vs
    → instantiate_params ts vs ≡ some (us, (subs, left))
    → Instance ts subs
unfolding instantiate_params
instantiate_params-Instance Types.nil vs us subs left h e =
    subst (Instance Types.nil) (ap (λ r. (r.1).0) (some_inj e)) (tt, λ x m. absurd m)
instantiate_params-Instance (Types.cons (RotoType.explicit_var a) ts) [] us subs left h e = cc
instantiate_params-Instance (Types.cons (RotoType.explicit_var a) ts) (v ∷ vs) us subs left
      (hv, hvs) e =
    let ((us', (subs', left')), rest, out) = >>=-eq-some (instantiate_params ts vs) _ e in
    let (valid, binds) = instantiate_params-Instance ts vs us' subs' left' hvs rest in
    subst (Instance (Types.cons (RotoType.explicit_var a) ts)) (ap (λ r. (r.1).0) (some_inj out)) (
      (hv, valid),
      λ x m. elim (Bool-cases (a == x)) [
        | inl hit ↦ rw hit hv
        | inr miss ↦ rw miss (elim m [
          | inl equal ↦ let bad : (a == x) ≡ true = ≡→== a x equal in cc
          | inr there ↦ binds x there
        ])
      ],
    )
instantiate_params-Instance (Types.cons (RotoType.var b) ts) vs us subs left h e =
    kept (RotoType.var b) ts vs
      (λ us' subs' left' e'. instantiate_params-Instance ts vs us' subs' left' h e') e
instantiate_params-Instance (Types.cons (RotoType.int_var b s) ts) vs us subs left h e =
    kept (RotoType.int_var b s) ts vs
      (λ us' subs' left' e'. instantiate_params-Instance ts vs us' subs' left' h e') e
instantiate_params-Instance (Types.cons (RotoType.float_var b) ts) vs us subs left h e =
    kept (RotoType.float_var b) ts vs
      (λ us' subs' left' e'. instantiate_params-Instance ts vs us' subs' left' h e') e
instantiate_params-Instance (Types.cons (RotoType.record_var i fs) ts) vs us subs left h e =
    kept (RotoType.record_var i fs) ts vs
      (λ us' subs' left' e'. instantiate_params-Instance ts vs us' subs' left' h e') e
instantiate_params-Instance (Types.cons RotoType.unit ts) vs us subs left h e =
    kept RotoType.unit ts vs
      (λ us' subs' left' e'. instantiate_params-Instance ts vs us' subs' left' h e') e
instantiate_params-Instance (Types.cons RotoType.never ts) vs us subs left h e =
    kept RotoType.never ts vs
      (λ us' subs' left' e'. instantiate_params-Instance ts vs us' subs' left' h e') e
instantiate_params-Instance (Types.cons (RotoType.record_type fs) ts) vs us subs left h e =
    kept (RotoType.record_type fs) ts vs
      (λ us' subs' left' e'. instantiate_params-Instance ts vs us' subs' left' h e') e
instantiate_params-Instance (Types.cons (RotoType.function ps r) ts) vs us subs left h e =
    kept (RotoType.function ps r) ts vs
      (λ us' subs' left' e'. instantiate_params-Instance ts vs us' subs' left' h e') e
instantiate_params-Instance (Types.cons (RotoType.named n ps) ts) vs us subs left h e =
    kept (RotoType.named n ps) ts vs
      (λ us' subs' left' e'. instantiate_params-Instance ts vs us' subs' left' h e') e

-- Types of functions aside, which a substitution leaves as they are: an instance of a signature at
-- fresh types without explicit variables has no explicit variable in its parameter and return
-- types, where each one in those of the signature is among the signature's types.
pub signature_instantiate-IsClosed :
    (s : Signature) (vs : List RotoType) (s' : Signature) (left : List RotoType)
    → All IsClosed vs
    → EachVarTypes (Among s.types) s.parameter_types
    → EachVar (Among s.types) s.return_type
    → signature_instantiate s vs ≡ some (s', left)
    → AreClosed s'.parameter_types × IsClosed s'.return_type
unfolding signature_instantiate
signature_instantiate-IsClosed s vs s' left h hp hr e =
    let ((ts, (subs, left')), params, out) = >>=-eq-some (instantiate_params s.types vs) _ e in
    let (valid, binds) = instantiate_params-Instance s.types vs ts subs left' h params in
    let same = ap (λ r. r.0) (some_inj out) in
    subst (λ r. AreClosed r.parameter_types × IsClosed r.return_type) same
      (
        rw (types_substitute_many_lem subs s.parameter_types valid)
            (replace_types-IsClosed subs s.parameter_types (each_types binds s.parameter_types hp)),
        rw (substitute_many_lem subs s.return_type valid)
            (replace-IsClosed subs s.return_type (each binds s.return_type hr)),
      )
