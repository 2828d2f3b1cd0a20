-- ===== src/Typechecker/Unify/Scalars.antt =====
-- src/typechecker/mod.rs, `unify_inner` where one of the types is an unbound type variable, an
-- integer variable or a float variable.
use roto.Prelude.{
  ℕ, Bool, ◌≡◌, ◌<◌, ◌⊎◌, refl, List, length, set, some, Bool-cases, inl, inr, arith, lt→ltb,
}
use roto.Typechecker.{ResolvedName}
use roto.Typechecker.Types.{RotoType, Types, MustBeSigned, TypeDefinition, is_float}
use roto.Typechecker.UnionFind.{Outcome, returned, mismatch, var_index}
use roto.Typechecker.Unify.{TypeInfo, resolve_type_name, set_to, unify_number, fits, unify_resolved}

abbrev pub IsScalar : RotoType → Type 0
IsScalar (RotoType.var i) = Unit
IsScalar (RotoType.int_var i s) = Unit
IsScalar (RotoType.float_var i) = Unit
IsScalar _ = ⊥

-- Neither an explicit variable, at which unification panics, nor the type `!`, which it takes for
-- any type.
abbrev pub IsPlain : RotoType → Type 0
IsPlain (RotoType.explicit_var x) = ⊥
IsPlain RotoType.never = ⊥
IsPlain _ = Unit

-- A name has a definition.
unfoldable pub IsDefined : TypeInfo → RotoType → Type 0
unfolding resolve_type_name
IsDefined info (RotoType.named n ts) = (d : TypeDefinition) × (resolve_type_name info n ≡ some d)
IsDefined info _ = Unit

-- One of the two types is a variable, which is set to the other one, and that is the result.
abbrev pub Sets : List RotoType → RotoType → RotoType → RotoType → List RotoType → Type 0
Sets uf a b t uf' =
    ((i : ℕ) × (var_index a ≡ some i) × (t ≡ b) × (uf' ≡ set uf i b))
    ⊎ ((i : ℕ) × (var_index b ≡ some i) × (t ≡ a) × (uf' ≡ set uf i a))

abbrev pub SetsOrNot : List RotoType → RotoType → RotoType → Outcome RotoType → Type 0
SetsOrNot uf a b o =
    ((t : RotoType) × (uf' : List RotoType) × (o ≡ returned t uf') × Sets uf a b t uf')
    ⊎ (o ≡ mismatch uf)

-- What unification relies on: the types are plain, their variables exist, and so do the
-- definitions of names.
pub record Ready (info : TypeInfo) (uf : List RotoType) (a b : RotoType) : Type 0 where
  pub plain_left : IsPlain a
  pub plain_right : IsPlain b
  pub left : (i : ℕ) → var_index a ≡ some i → i < length uf
  pub right : (i : ℕ) → var_index b ≡ some i → i < length uf
  pub defined_left : IsDefined info a
  pub defined_right : IsDefined info b

set_to_lem :
    (uf : List RotoType) (i : ℕ) (t : RotoType)
    → i < length uf
    → set_to uf i t ≡ returned t (set uf i t)
set_to_lem uf i t h = rw (lt→ltb i (length uf) h) refl

module _ {info : TypeInfo} (uf : List RotoType) {a b : RotoType} where
  set_left : {i : ℕ} → var_index a ≡ some i → Ready info uf a b → SetsOrNot uf a b (set_to uf i b)
  set_left {i} e h = inl (b, set uf i b, set_to_lem uf i b (h.left i e), inl (i, e, refl, refl))

  set_right : {i : ℕ} → var_index b ≡ some i → Ready info uf a b → SetsOrNot uf a b (set_to uf i a)
  set_right {i} e h = inl (a, set uf i a, set_to_lem uf i a (h.right i e), inr (i, e, refl, refl))

number_lem :
    (info : TypeInfo) (uf : List RotoType) (i : ℕ) (n : ResolvedName) (ts : Types)
    (correct : TypeDefinition → Bool)
    → IsDefined info (RotoType.named n ts)
    → (unify_number info uf i n ts correct ≡ set_to uf i (RotoType.named n ts))
      ⊎ (unify_number info uf i n ts correct ≡ mismatch uf)
unfolding unify_number IsDefined
number_lem info uf i n Types.nil correct (d, e) = elim (Bool-cases (correct d)) [
  | inl good ↦ inl (rw (e, good) refl)
  | inr bad ↦ inr (rw (e, bad) refl)
]
number_lem info uf i n (Types.cons t ts) correct h = inr refl

number_left :
    (info : TypeInfo) (uf : List RotoType) (i : ℕ) (n : ResolvedName) (ts : Types)
    (correct : TypeDefinition → Bool) {a : RotoType}
    → var_index a ≡ some i
    → Ready info uf a (RotoType.named n ts)
    → SetsOrNot uf a (RotoType.named n ts) (unify_number info uf i n ts correct)
number_left info uf i n ts correct {a} e h =
    elim (number_lem info uf i n ts correct h.defined_right) [
      | inl sets ↦ rw sets (set_left uf e h)
      | inr bad ↦ inr bad
    ]

number_right :
    (info : TypeInfo) (uf : List RotoType) (i : ℕ) (n : ResolvedName) (ts : Types)
    (correct : TypeDefinition → Bool) {b : RotoType}
    → var_index b ≡ some i
    → Ready info uf (RotoType.named n ts) b
    → SetsOrNot uf (RotoType.named n ts) b (unify_number info uf i n ts correct)
number_right info uf i n ts correct {b} e h =
    elim (number_lem info uf i n ts correct h.defined_left) [
      | inl sets ↦ rw sets (set_right uf e h)
      | inr bad ↦ inr bad
    ]

pub resolved_outcome :
    (u : List RotoType → RotoType → RotoType → Outcome RotoType) (info : TypeInfo)
    (uf : List RotoType) (a b : RotoType)
    → Ready info uf a b
    → IsScalar a ⊎ IsScalar b
    → SetsOrNot uf a b (unify_resolved u info uf a b)
unfolding unify_resolved
resolved_outcome u info uf (RotoType.var i) (RotoType.var j) h v = set_left uf refl h
resolved_outcome u info uf (RotoType.var i) (RotoType.int_var j q) h v = set_left uf refl h
resolved_outcome u info uf (RotoType.var i) (RotoType.float_var j) h v = set_left uf refl h
resolved_outcome u info uf (RotoType.var i) (RotoType.record_var j gs) h v = set_left uf refl h
resolved_outcome u info uf (RotoType.var i) RotoType.unit h v = set_left uf refl h
resolved_outcome u info uf (RotoType.var i) (RotoType.record_type gs) h v = set_left uf refl h
resolved_outcome u info uf (RotoType.var i) (RotoType.function qs w) h v = set_left uf refl h
resolved_outcome u info uf (RotoType.var i) (RotoType.named m us) h v = set_left uf refl h
resolved_outcome u info uf (RotoType.int_var i s) (RotoType.var j) h v = set_right uf refl h
resolved_outcome u info uf (RotoType.int_var i MustBeSigned.yes)
      (RotoType.int_var j MustBeSigned.yes) h v =
    set_left uf refl h
resolved_outcome u info uf (RotoType.int_var i MustBeSigned.yes)
      (RotoType.int_var j MustBeSigned.no) h v =
    set_right uf refl h
resolved_outcome u info uf (RotoType.int_var i MustBeSigned.no)
      (RotoType.int_var j MustBeSigned.yes) h v =
    set_left uf refl h
resolved_outcome u info uf (RotoType.int_var i MustBeSigned.no) (RotoType.int_var j MustBeSigned.no)
      h v =
    set_left uf refl h
resolved_outcome u info uf (RotoType.int_var i s) (RotoType.float_var j) h v = inr refl
resolved_outcome u info uf (RotoType.int_var i s) (RotoType.record_var j gs) h v = inr refl
resolved_outcome u info uf (RotoType.int_var i s) RotoType.unit h v = inr refl
resolved_outcome u info uf (RotoType.int_var i s) (RotoType.record_type gs) h v = inr refl
resolved_outcome u info uf (RotoType.int_var i s) (RotoType.function qs w) h v = inr refl
resolved_outcome u info uf (RotoType.int_var i s) (RotoType.named m us) h v =
    number_left info uf i m us (fits s) refl h
resolved_outcome u info uf (RotoType.float_var i) (RotoType.var j) h v = set_right uf refl h
resolved_outcome u info uf (RotoType.float_var i) (RotoType.int_var j q) h v = inr refl
resolved_outcome u info uf (RotoType.float_var i) (RotoType.float_var j) h v = set_left uf refl h
resolved_outcome u info uf (RotoType.float_var i) (RotoType.record_var j gs) h v = inr refl
resolved_outcome u info uf (RotoType.float_var i) RotoType.unit h v = inr refl
resolved_outcome u info uf (RotoType.float_var i) (RotoType.record_type gs) h v = inr refl
resolved_outcome u info uf (RotoType.float_var i) (RotoType.function qs w) h v = inr refl
resolved_outcome u info uf (RotoType.float_var i) (RotoType.named m us) h v =
    number_left info uf i m us is_float refl h
resolved_outcome u info uf (RotoType.record_var i fs) (RotoType.var j) h v = set_right uf refl h
resolved_outcome u info uf (RotoType.record_var i fs) (RotoType.int_var j q) h v = inr refl
resolved_outcome u info uf (RotoType.record_var i fs) (RotoType.float_var j) h v = inr refl
resolved_outcome u info uf RotoType.unit (RotoType.var j) h v = set_right uf refl h
resolved_outcome u info uf RotoType.unit (RotoType.int_var j q) h v = inr refl
resolved_outcome u info uf RotoType.unit (RotoType.float_var j) h v = inr refl
resolved_outcome u info uf (RotoType.record_type fs) (RotoType.var j) h v = set_right uf refl h
resolved_outcome u info uf (RotoType.record_type fs) (RotoType.int_var j q) h v = inr refl
resolved_outcome u info uf (RotoType.record_type fs) (RotoType.float_var j) h v = inr refl
resolved_outcome u info uf (RotoType.function ps r) (RotoType.var j) h v = set_right uf refl h
resolved_outcome u info uf (RotoType.function ps r) (RotoType.int_var j q) h v = inr refl
resolved_outcome u info uf (RotoType.function ps r) (RotoType.float_var j) h v = inr refl
resolved_outcome u info uf (RotoType.named n ts) (RotoType.var j) h v = set_right uf refl h
resolved_outcome u info uf (RotoType.named n ts) (RotoType.int_var j q) h v =
    number_right info uf j n ts (fits q) refl h
resolved_outcome u info uf (RotoType.named n ts) (RotoType.float_var j) h v =
    number_right info uf j n ts is_float refl h
resolved_outcome u info uf a b h v = let p = h.plain_left in let q = h.plain_right in ground arith
