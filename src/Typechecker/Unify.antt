-- ===== src/Typechecker/Unify.antt =====
-- src/typechecker/mod.rs, the unification of types, and src/typechecker/info.rs, `TypeInfo`. The
-- type information that unification only reads is a record: the graph of scopes, and the
-- definitions that the numbers in it stand for. The type variables that it changes are passed on.
-- The recursion of `unify_inner` is on fuel, since types may contain themselves.
pub mod Resolve
pub mod Scalars
pub mod Binds
mod Tests
use roto.Prelude.{
  ℕ, zero, suc, Bool, true, false, not, ◌==◌, ltb, if◌then◌else◌, List, [], ◌∷◌, ◌++◌, length,
  get_elem?, set, Option, none, some, ◌>>=◌,
}
use roto.Typechecker.{ResolvedName}
use roto.Typechecker.Scope.{ScopeGraph, Declaration, DeclarationKind, TypeOrStub, name_eq}
use roto.Typechecker.Scope.Inserts.{get_declaration}
use roto.Typechecker.Types.{
  RotoType, Types, Fields, MetaIdentifier, MustBeSigned, TypeDefinition, is_int, is_signed_int,
  is_float,
}
use roto.Typechecker.Types.Equal.{type_eq, signed_eq}
use roto.Typechecker.Types.Substitute.{record_fields}
use roto.Typechecker.UnionFind.{
  Outcome, returned, mismatch, panicked, out_of_fuel, and_then, var_index, find,
}

-- `TypeInfo`
pub record TypeInfo : Type 0 where
  pub scope_graph : ScopeGraph
  pub definitions : List TypeDefinition

abbrev definition_of : List TypeDefinition → DeclarationKind → Option TypeDefinition
definition_of ds (DeclarationKind.type (TypeOrStub.definition d)) = get_elem? ds d.body
definition_of ds _ = none

-- `TypeInfo::resolve_type_name`, which panics where the name is no type.
unfoldable pub resolve_type_name : TypeInfo → ResolvedName → Option TypeDefinition
unfolding get_declaration
resolve_type_name info n = do
  d ← get_declaration info.scope_graph n
  definition_of info.definitions d.kind

-- `TypeChecker::resolve_type`
abbrev pub find_variable : List RotoType → RotoType → Option ℕ → Outcome RotoType
unfolding find
find_variable uf t none = returned t uf
find_variable uf t (some i) = find (length uf) uf i

abbrev pub resolve_type : List RotoType → RotoType → Outcome RotoType
resolve_type uf t = find_variable uf t (var_index t)

-- `UnionFind::set`, which panics out of range, and the type that the variable is set to.
abbrev pub set_to : List RotoType → ℕ → RotoType → Outcome RotoType
set_to uf i t = if ltb i (length uf) then returned t (set uf i t) else panicked

-- `TypeChecker::unify_intvars`
abbrev pub unify_intvars : List RotoType → ℕ → MustBeSigned → ℕ → MustBeSigned → Outcome RotoType
unify_intvars uf a MustBeSigned.yes b MustBeSigned.no =
    set_to uf b (RotoType.int_var a MustBeSigned.yes)
unify_intvars uf a s b r = set_to uf a (RotoType.int_var b r)

-- The arms of a number variable and a name.
abbrev is_nil : Types → Bool
is_nil Types.nil = true
is_nil (Types.cons t ts) = false

abbrev pub fits : MustBeSigned → TypeDefinition → Bool
fits MustBeSigned.yes d = is_signed_int d
fits MustBeSigned.no d = is_int d

abbrev pub set_if :
    List RotoType
    → ℕ
    → RotoType
    → (TypeDefinition → Bool)
    → Option TypeDefinition
    → Outcome RotoType
set_if uf i t correct none = panicked
set_if uf i t correct (some d) = if correct d then set_to uf i t else mismatch uf

abbrev pub unify_number :
    TypeInfo → List RotoType → ℕ → ResolvedName → Types → (TypeDefinition → Bool) → Outcome RotoType
unfolding resolve_type_name
unify_number info uf i n args correct =
    if is_nil args
    then set_if uf i (RotoType.named n args) correct (resolve_type_name info n)
    else mismatch uf

-- The field of a name, and the fields without it.
abbrev take_field : ℕ → Fields → Option (RotoType × Fields)
take_field n Fields.end = none
take_field n (Fields.field k t fs) =
    let rest = take_field n fs in
    if k.node == n then some (t, fs) else (rest >>= λ (u, gs). some (u, Fields.field k t gs))

abbrev num_fields : Fields → ℕ
num_fields Fields.end = 0
num_fields (Fields.field k t fs) = suc (num_fields fs)

-- A computation on the type variables: the recursive call, on two types.
abbrev Recursion : Type 0
Recursion = List RotoType → RotoType → RotoType → Outcome RotoType

-- The loop of `TypeChecker::unify_fields`
unfoldable pub unify_each : Recursion → List RotoType → Fields → Fields → Outcome Fields
unify_each u uf Fields.end bs = returned Fields.end uf
unify_each u uf (Fields.field k t fs) bs = elim (take_field k.node bs) [
  | none ↦ mismatch uf
  | some (t', rest) ↦
      and_then (u uf t t')
        λ v uf₁. and_then (unify_each u uf₁ fs rest) λ vs uf₂. returned (Fields.field k v vs) uf₂
]

-- `TypeChecker::unify_fields`
unfoldable pub unify_fields : Recursion → List RotoType → Fields → Fields → Outcome Fields
unfolding unify_each
unify_fields u uf fs gs =
    if num_fields fs == num_fields gs then unify_each u uf fs gs else mismatch uf

-- The loop over the arguments of two names, and over the parameters of two functions
unfoldable pub unify_zipped : Recursion → List RotoType → Types → Types → Outcome (Unit {0})
unify_zipped u uf Types.nil us = returned tt uf
unify_zipped u uf (Types.cons t ts) Types.nil = returned tt uf
unify_zipped u uf (Types.cons t ts) (Types.cons t' ts') =
    and_then (u uf t t') λ v uf₁. unify_zipped u uf₁ ts ts'

-- The arm of a record variable and a name.
unfoldable pub unify_record_name :
    Recursion → List RotoType → ℕ → Fields → RotoType → Option (Option Fields) → Outcome RotoType
unfolding unify_fields
unify_record_name u uf i fs t none = panicked
unify_record_name u uf i fs t (some none) = mismatch uf
unify_record_name u uf i fs t (some (some gs)) =
    and_then (unify_fields u uf fs gs) λ vs uf₁. set_to uf₁ i t

abbrev pub named_fields : TypeInfo → ResolvedName → Types → Option (Option Fields)
unfolding resolve_type_name record_fields
named_fields info n args = do d ← resolve_type_name info n; record_fields d args

-- The arms of `TypeChecker::unify_inner` behind the first, on types that are resolved and differ.
unfoldable pub unify_resolved :
    Recursion → TypeInfo → List RotoType → RotoType → RotoType → Outcome RotoType
unfolding unify_fields unify_zipped unify_record_name
unify_resolved u info uf (RotoType.explicit_var x) b = panicked
unify_resolved u info uf a (RotoType.explicit_var x) = panicked
unify_resolved u info uf RotoType.never b = returned b uf
unify_resolved u info uf a RotoType.never = returned a uf
unify_resolved u info uf (RotoType.int_var i s) (RotoType.int_var j r) = unify_intvars uf i s j r
unify_resolved u info uf (RotoType.int_var i s) (RotoType.named n ts) =
    unify_number info uf i n ts (fits s)
unify_resolved u info uf (RotoType.named n ts) (RotoType.int_var i s) =
    unify_number info uf i n ts (fits s)
unify_resolved u info uf (RotoType.float_var i) (RotoType.float_var j) =
    set_to uf i (RotoType.float_var j)
unify_resolved u info uf (RotoType.float_var i) (RotoType.named n ts) =
    unify_number info uf i n ts is_float
unify_resolved u info uf (RotoType.named n ts) (RotoType.float_var i) =
    unify_number info uf i n ts is_float
unify_resolved u info uf (RotoType.var i) b = set_to uf i b
unify_resolved u info uf a (RotoType.var j) = set_to uf j a
unify_resolved u info uf (RotoType.record_var i fs) (RotoType.record_var j gs) =
    and_then (unify_fields u uf fs gs) λ vs uf₁. set_to uf₁ i (RotoType.record_var j gs)
unify_resolved u info uf (RotoType.record_var i fs) (RotoType.record_type gs) =
    and_then (unify_fields u uf fs gs) λ vs uf₁. set_to uf₁ i (RotoType.record_type gs)
unify_resolved u info uf (RotoType.record_type fs) (RotoType.record_var j gs) =
    and_then (unify_fields u uf fs gs) λ vs uf₁. set_to uf₁ j (RotoType.record_type fs)
unify_resolved u info uf (RotoType.record_var i fs) (RotoType.named n ts) =
    unify_record_name u uf i fs (RotoType.named n ts) (named_fields info n ts)
unify_resolved u info uf (RotoType.named n ts) (RotoType.record_var i fs) =
    unify_record_name u uf i fs (RotoType.named n ts) (named_fields info n ts)
unify_resolved u info uf (RotoType.named n ts) (RotoType.named m us) =
    if name_eq n m
    then (and_then (unify_zipped u uf ts us) λ v uf₁. returned (RotoType.named m us) uf₁)
    else mismatch uf
unify_resolved u info uf (RotoType.function ps r) (RotoType.function qs s) =
    and_then (unify_zipped u uf ps qs)
      λ v uf₁. and_then (u uf₁ r s) λ w uf₂. returned (RotoType.function qs s) uf₂
unify_resolved u info uf a b = mismatch uf

-- `TypeChecker::unify_inner`
unfoldable pub unify_inner : ℕ → TypeInfo → List RotoType → RotoType → RotoType → Outcome RotoType
unfolding type_eq unify_resolved
unify_inner zero info uf a b = out_of_fuel
unify_inner (suc fuel) info uf a b = and_then (resolve_type uf a) λ a' uf₁.
    and_then (resolve_type uf₁ b) λ b' uf₂.
      if type_eq a' b'
      then returned a' uf₂
      else unify_resolved (unify_inner fuel info) info uf₂ a' b'
