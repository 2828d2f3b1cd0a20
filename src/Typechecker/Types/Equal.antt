-- ===== src/Typechecker/Types/Equal.antt =====
-- src/typechecker/types.rs: the equality of types that is derived for them.
use roto.Prelude.{ℕ, Bool, true, false, ◌&&◌, ◌==◌, ◌≡◌, refl, ap, ==→≡, ≡→==}
use roto.Typechecker.{ResolvedName}
use roto.Typechecker.Scope.{name_eq}
use roto.Typechecker.Types.{
  RotoType, var, explicit_var, int_var, float_var, record_var, unit, never, record_type, function,
  named, Types, nil, cons, Fields, end, field, MustBeSigned, yes, no, MetaIdentifier,
}

abbrev pub signed_eq : MustBeSigned → MustBeSigned → Bool
signed_eq yes yes = true
signed_eq no no = true
signed_eq _ _ = false

abbrev meta_eq : MetaIdentifier → MetaIdentifier → Bool
meta_eq a b = a.node == b.node && a.id == b.id

unfoldable mutual
  pub type_eq : RotoType → RotoType → Bool
  type_eq (var a) (var b) = a == b
  type_eq (explicit_var a) (explicit_var b) = a == b
  type_eq (int_var a s) (int_var b r) = a == b && signed_eq s r
  type_eq (float_var a) (float_var b) = a == b
  type_eq (record_var a fs) (record_var b gs) = a == b && fields_eq fs gs
  type_eq unit unit = true
  type_eq never never = true
  type_eq (record_type fs) (record_type gs) = fields_eq fs gs
  type_eq (function ps r) (function qs s) = types_eq ps qs && type_eq r s
  type_eq (named n ps) (named m qs) = name_eq n m && types_eq ps qs
  type_eq _ _ = false

  pub types_eq : Types → Types → Bool
  types_eq nil nil = true
  types_eq (cons t ts) (cons u us) = type_eq t u && types_eq ts us
  types_eq _ _ = false

  pub fields_eq : Fields → Fields → Bool
  fields_eq end end = true
  fields_eq (field k t fs) (field l u gs) = meta_eq k l && (type_eq t u && fields_eq fs gs)
  fields_eq _ _ = false

and_split : (a b : Bool) → (a && b) ≡ true → (a ≡ true) × (b ≡ true)
and_split true b h = (refl, h)
and_split false b h = cc

signed_eq→≡ : (s r : MustBeSigned) → signed_eq s r ≡ true → s ≡ r
signed_eq→≡ yes yes h = refl
signed_eq→≡ no no h = refl
signed_eq→≡ s r h = cc

meta_eq→≡ : (a b : MetaIdentifier) → meta_eq a b ≡ true → a ≡ b
meta_eq→≡ a b h =
    let (hn, hi) = and_split (a.node == b.node) (a.id == b.id) h in
    let en = ==→≡ a.node b.node hn in let ei = ==→≡ a.id b.id hi in cc

pub name_eq→≡ : (a b : ResolvedName) → name_eq a b ≡ true → a ≡ b
name_eq→≡ a b h =
    let (hn, hi) = and_split (a.scope == b.scope) (a.ident == b.ident) h in
    let en = ==→≡ a.scope b.scope hn in let ei = ==→≡ a.ident b.ident hi in cc

mutual
  unfolding type_eq

  eq→≡ : (t u : RotoType) → type_eq t u ≡ true → t ≡ u
  eq→≡ (var a) (var b) h = ap var (==→≡ a b h)
  eq→≡ (explicit_var a) (explicit_var b) h = ap explicit_var (==→≡ a b h)
  eq→≡ (int_var a s) (int_var b r) h =
      let (ha, hs) = and_split _ _ h in let ea = ==→≡ a b ha in let es = signed_eq→≡ s r hs in cc
  eq→≡ (float_var a) (float_var b) h = ap float_var (==→≡ a b h)
  eq→≡ (record_var a fs) (record_var b gs) h =
      let (ha, hf) = and_split (a == b) (fields_eq fs gs) h in
      let ea = ==→≡ a b ha in let ef = fields_eq→≡ fs gs hf in cc
  eq→≡ unit unit h = refl
  eq→≡ never never h = refl
  eq→≡ (record_type fs) (record_type gs) h = ap record_type (fields_eq→≡ fs gs h)
  eq→≡ (function ps r) (function qs s) h =
      let (hp, hr) = and_split (types_eq ps qs) (type_eq r s) h in
      let ep = types_eq→≡ ps qs hp in let er = eq→≡ r s hr in cc
  eq→≡ (named n ps) (named m qs) h =
      let (hn, hp) = and_split (name_eq n m) (types_eq ps qs) h in
      let en = name_eq→≡ n m hn in let ep = types_eq→≡ ps qs hp in cc
  eq→≡ t u h = cc

  types_eq→≡ : (ts us : Types) → types_eq ts us ≡ true → ts ≡ us
  types_eq→≡ nil nil h = refl
  types_eq→≡ (cons t ts) (cons u us) h =
      let (ht, hs) = and_split (type_eq t u) (types_eq ts us) h in
      let et = eq→≡ t u ht in let es = types_eq→≡ ts us hs in cc
  types_eq→≡ ts us h = cc

  fields_eq→≡ : (fs gs : Fields) → fields_eq fs gs ≡ true → fs ≡ gs
  fields_eq→≡ end end h = refl
  fields_eq→≡ (field k t fs) (field l u gs) h =
      let (hk, hr) = and_split (meta_eq k l) (type_eq t u && fields_eq fs gs) h in
      let (ht, hs) = and_split (type_eq t u) (fields_eq fs gs) hr in
      let ek = meta_eq→≡ k l hk in let et = eq→≡ t u ht in let es = fields_eq→≡ fs gs hs in cc
  fields_eq→≡ fs gs h = cc

pub type_eq→≡ : (t u : RotoType) → type_eq t u ≡ true → t ≡ u
type_eq→≡ = eq→≡

pub eq_self : (n : ℕ) → (n == n) ≡ true
eq_self n = ≡→== n n refl

mutual
  unfolding type_eq

  type_refl : (t : RotoType) → type_eq t t ≡ true
  type_refl (var a) = eq_self a
  type_refl (explicit_var a) = eq_self a
  type_refl (int_var a yes) = rw (eq_self a) refl
  type_refl (int_var a no) = rw (eq_self a) refl
  type_refl (float_var a) = eq_self a
  type_refl (record_var a fs) = rw (eq_self a, fields_refl fs) refl
  type_refl unit = refl
  type_refl never = refl
  type_refl (record_type fs) = fields_refl fs
  type_refl (function ps r) = rw (types_refl ps, type_refl r) refl
  type_refl (named n ps) = rw (eq_self n.scope, eq_self n.ident, types_refl ps) refl

  types_refl : (ts : Types) → types_eq ts ts ≡ true
  types_refl nil = refl
  types_refl (cons t ts) = rw (type_refl t, types_refl ts) refl

  fields_refl : (fs : Fields) → fields_eq fs fs ≡ true
  fields_refl end = refl
  fields_refl (field k t fs) = rw (eq_self k.node, eq_self k.id, type_refl t, fields_refl fs) refl

pub type_eq_self : (t : RotoType) → type_eq t t ≡ true
type_eq_self = type_refl
