-- ===== src/Typechecker/Types/Simultaneous.antt =====
-- src/typechecker/types.rs, `substitute_many`, against a substitution of all the explicit
-- variables at once.
use roto.Prelude.{
  ℕ, true, ◌==◌, ◌≡◌, refl, sym, ap, ◌∙◌, Bool-cases, inl, inr, if◌then◌else◌, List, [], ◌∷◌, All,
  ≡→==, ==→≡,
}
use roto.Typechecker.Types.{RotoType, Types, Fields}
use roto.Typechecker.Types.Equal.{type_eq}
use roto.Typechecker.Types.Substitute.{
  substitute, substitute_types, substitute_fields, substitute_many,
}

-- What stands for an explicit variable.
abbrev pub lookup : List (RotoType × RotoType) → ℕ → RotoType
lookup [] x = RotoType.explicit_var x
lookup ((RotoType.explicit_var a, u) ∷ subs) x = if a == x then u else lookup subs x
lookup ((t, u) ∷ subs) x = lookup subs x

unfoldable mutual
  -- All the explicit variables of a type are replaced at once; the types of functions are left as
  -- they are, as `substitute` leaves them.
  pub replace : List (RotoType × RotoType) → RotoType → RotoType
  replace subs (RotoType.explicit_var x) = lookup subs x
  replace subs (RotoType.record_var i fs) = RotoType.record_var i (replace_fields subs fs)
  replace subs (RotoType.record_type fs) = RotoType.record_type (replace_fields subs fs)
  replace subs (RotoType.named n ts) = RotoType.named n (replace_types subs ts)
  replace subs t = t

  pub replace_types : List (RotoType × RotoType) → Types → Types
  replace_types subs Types.nil = Types.nil
  replace_types subs (Types.cons t ts) = Types.cons (replace subs t) (replace_types subs ts)

  pub replace_fields : List (RotoType × RotoType) → Fields → Fields
  replace_fields subs Fields.end = Fields.end
  replace_fields subs (Fields.field k t fs) =
      Fields.field k (replace subs t) (replace_fields subs fs)

-- Each explicit variable of a type, but within the type of a function, has a property.
unfoldable mutual
  pub EachVar : (ℕ → Type 0) → RotoType → Type 0
  EachVar P (RotoType.explicit_var x) = P x
  EachVar P (RotoType.record_var i fs) = EachVarFields P fs
  EachVar P (RotoType.record_type fs) = EachVarFields P fs
  EachVar P (RotoType.named n ts) = EachVarTypes P ts
  EachVar P t = Unit

  pub EachVarTypes : (ℕ → Type 0) → Types → Type 0
  EachVarTypes P Types.nil = Unit
  EachVarTypes P (Types.cons t ts) = EachVar P t × EachVarTypes P ts

  pub EachVarFields : (ℕ → Type 0) → Fields → Type 0
  EachVarFields P Fields.end = Unit
  EachVarFields P (Fields.field k t fs) = EachVar P t × EachVarFields P fs

-- No explicit variable stands in the type, but within the type of a function.
abbrev pub IsClosed : RotoType → Type 0
unfolding EachVar
IsClosed = EachVar (λ x. ⊥)

abbrev pub AreClosed : Types → Type 0
unfolding EachVar
AreClosed = EachVarTypes (λ x. ⊥)

abbrev pub AreClosedFields : Fields → Type 0
unfolding EachVar
AreClosedFields = EachVarFields (λ x. ⊥)

mutual
  unfolding replace EachVar

  closed_lem : (subs : List (RotoType × RotoType)) (t : RotoType) → IsClosed t → replace subs t ≡ t
  closed_lem subs (RotoType.explicit_var x) h = absurd h
  closed_lem subs (RotoType.record_var i fs) h =
      ap (RotoType.record_var i) (closed_fields_lem subs fs h)
  closed_lem subs (RotoType.record_type fs) h =
      ap RotoType.record_type (closed_fields_lem subs fs h)
  closed_lem subs (RotoType.named n ts) h = ap (RotoType.named n) (closed_types_lem subs ts h)
  closed_lem subs (RotoType.var a) h = refl
  closed_lem subs (RotoType.int_var a s) h = refl
  closed_lem subs (RotoType.float_var a) h = refl
  closed_lem subs RotoType.unit h = refl
  closed_lem subs RotoType.never h = refl
  closed_lem subs (RotoType.function ps r) h = refl

  closed_types_lem :
      (subs : List (RotoType × RotoType)) (ts : Types) → AreClosed ts → replace_types subs ts ≡ ts
  closed_types_lem subs Types.nil h = refl
  closed_types_lem subs (Types.cons t ts) (h, hs) =
      rw (closed_lem subs t h, closed_types_lem subs ts hs) refl

  closed_fields_lem :
      (subs : List (RotoType × RotoType)) (fs : Fields)
      → AreClosedFields fs
      → replace_fields subs fs ≡ fs
  closed_fields_lem subs Fields.end h = refl
  closed_fields_lem subs (Fields.field k t fs) (h, hs) =
      rw (closed_lem subs t h, closed_fields_lem subs fs hs) refl

mutual
  unfolding replace EachVar substitute type_eq

  first_lem :
      (a : ℕ) (u : RotoType) (subs : List (RotoType × RotoType)) (t : RotoType)
      → IsClosed u
      → replace ((RotoType.explicit_var a, u) ∷ subs) t
        ≡ replace subs (substitute t (RotoType.explicit_var a) u)
  first_lem a u subs (RotoType.explicit_var x) h = elim (Bool-cases (a == x)) [
    | inl same ↦
        let back : (x == a) ≡ true = ≡→== x a (sym (==→≡ a x same)) in
        rw (same, back) (sym (closed_lem subs u h))
    | inr other ↦ elim (Bool-cases (x == a)) [
      | inl back ↦ let bad : (a == x) ≡ true = ≡→== a x (sym (==→≡ x a back)) in cc
      | inr away ↦ rw (other, away) refl
    ]
  ]
  first_lem a u subs (RotoType.record_var i fs) h =
      ap (RotoType.record_var i) (first_fields_lem a u subs fs h)
  first_lem a u subs (RotoType.record_type fs) h =
      ap RotoType.record_type (first_fields_lem a u subs fs h)
  first_lem a u subs (RotoType.named n ts) h = ap (RotoType.named n) (first_types_lem a u subs ts h)
  first_lem a u subs (RotoType.var b) h = refl
  first_lem a u subs (RotoType.int_var b s) h = refl
  first_lem a u subs (RotoType.float_var b) h = refl
  first_lem a u subs RotoType.unit h = refl
  first_lem a u subs RotoType.never h = refl
  first_lem a u subs (RotoType.function ps r) h = refl

  first_types_lem :
      (a : ℕ) (u : RotoType) (subs : List (RotoType × RotoType)) (ts : Types)
      → IsClosed u
      → replace_types ((RotoType.explicit_var a, u) ∷ subs) ts
        ≡ replace_types subs (substitute_types ts (RotoType.explicit_var a) u)
  first_types_lem a u subs Types.nil h = refl
  first_types_lem a u subs (Types.cons t ts) h =
      rw (first_lem a u subs t h, first_types_lem a u subs ts h) refl

  first_fields_lem :
      (a : ℕ) (u : RotoType) (subs : List (RotoType × RotoType)) (fs : Fields)
      → IsClosed u
      → replace_fields ((RotoType.explicit_var a, u) ∷ subs) fs
        ≡ replace_fields subs (substitute_fields fs (RotoType.explicit_var a) u)
  first_fields_lem a u subs Fields.end h = refl
  first_fields_lem a u subs (Fields.field k t fs) h =
      rw (first_lem a u subs t h, first_fields_lem a u subs fs h) refl

mutual
  unfolding replace

  none_lem : (t : RotoType) → replace [] t ≡ t
  none_lem (RotoType.explicit_var x) = refl
  none_lem (RotoType.record_var i fs) = ap (RotoType.record_var i) (none_fields_lem fs)
  none_lem (RotoType.record_type fs) = ap RotoType.record_type (none_fields_lem fs)
  none_lem (RotoType.named n ts) = ap (RotoType.named n) (none_types_lem ts)
  none_lem (RotoType.var b) = refl
  none_lem (RotoType.int_var b s) = refl
  none_lem (RotoType.float_var b) = refl
  none_lem RotoType.unit = refl
  none_lem RotoType.never = refl
  none_lem (RotoType.function ps r) = refl

  none_types_lem : (ts : Types) → replace_types [] ts ≡ ts
  none_types_lem Types.nil = refl
  none_types_lem (Types.cons t ts) = rw (none_lem t, none_types_lem ts) refl

  none_fields_lem : (fs : Fields) → replace_fields [] fs ≡ fs
  none_fields_lem Fields.end = refl
  none_fields_lem (Fields.field k t fs) = rw (none_lem t, none_fields_lem fs) refl

-- An explicit variable, and the closed type that stands for it.
abbrev pub IsSubstitution : RotoType × RotoType → Type 0
IsSubstitution (RotoType.explicit_var a, u) = IsClosed u
IsSubstitution _ = ⊥

-- When each substitution replaces an explicit variable by a type without explicit variables (those
-- within types of functions aside), to make them one after the other is to replace all the
-- variables outside types of functions at once, each by the first type that is given for it, and
-- to leave the types of functions as they are.
pub substitute_many_lem :
    (subs : List (RotoType × RotoType)) (t : RotoType)
    → All IsSubstitution subs
    → substitute_many t subs ≡ replace subs t
unfolding substitute_many
substitute_many_lem [] t h = sym (none_lem t)
substitute_many_lem ((RotoType.explicit_var a, u) ∷ subs) t (h, hs) =
    substitute_many_lem subs (substitute t (RotoType.explicit_var a) u) hs
    ∙ sym (first_lem a u subs t h)
substitute_many_lem ((t', u) ∷ subs) t (h, hs) = absurd h
