-- ===== src/Mir/Types/Equal.antt =====
-- src/mir/ty.rs: the equality that is derived for the types of the mid-level IR.
use roto.Prelude.{ℕ, Bool, true, false, ◌==◌, ◌&&◌, ◌≡◌, refl, ap, List, [], ◌∷◌, ==→≡, ≡→==}
use roto.Typechecker.Types.{Primitive, IntKind, IntSize, FloatSize}
use roto.Mir.Types.{
  Ty, kind_eq, size_eq, float_size_eq, primitive_eq, refs_eq, fields_eq, variants_eq, ty_eq,
}

and_split : (a b : Bool) → (a && b) ≡ true → (a ≡ true) × (b ≡ true)
and_split true b h = (refl, h)
and_split false b h = cc

kind_eq→≡ : (k l : IntKind) → kind_eq k l ≡ true → k ≡ l
kind_eq→≡ IntKind.unsigned IntKind.unsigned h = refl
kind_eq→≡ IntKind.signed IntKind.signed h = refl
kind_eq→≡ k l h = cc

size_eq→≡ : (s r : IntSize) → size_eq s r ≡ true → s ≡ r
size_eq→≡ IntSize.i8 IntSize.i8 h = refl
size_eq→≡ IntSize.i16 IntSize.i16 h = refl
size_eq→≡ IntSize.i32 IntSize.i32 h = refl
size_eq→≡ IntSize.i64 IntSize.i64 h = refl
size_eq→≡ s r h = cc

float_size_eq→≡ : (s r : FloatSize) → float_size_eq s r ≡ true → s ≡ r
float_size_eq→≡ FloatSize.f32 FloatSize.f32 h = refl
float_size_eq→≡ FloatSize.f64 FloatSize.f64 h = refl
float_size_eq→≡ s r h = cc

primitive_eq→≡ : (p q : Primitive) → primitive_eq p q ≡ true → p ≡ q
primitive_eq→≡ (Primitive.int k s) (Primitive.int l r) h =
    let (hk, hs) = and_split (kind_eq k l) (size_eq s r) h in
    let ek = kind_eq→≡ k l hk in let es = size_eq→≡ s r hs in cc
primitive_eq→≡ (Primitive.float s) (Primitive.float r) h =
    ap Primitive.float (float_size_eq→≡ s r h)
primitive_eq→≡ Primitive.string Primitive.string h = refl
primitive_eq→≡ Primitive.char Primitive.char h = refl
primitive_eq→≡ Primitive.bool Primitive.bool h = refl
primitive_eq→≡ Primitive.asn Primitive.asn h = refl
primitive_eq→≡ Primitive.ip_addr Primitive.ip_addr h = refl
primitive_eq→≡ Primitive.prefix Primitive.prefix h = refl
primitive_eq→≡ p q h = cc

refs_eq→≡ : (xs ys : List ℕ) → refs_eq xs ys ≡ true → xs ≡ ys
refs_eq→≡ [] [] h = refl
refs_eq→≡ (x ∷ xs) (y ∷ ys) h =
    let (hx, hs) = and_split (x == y) (refs_eq xs ys) h in
    let ex = ==→≡ x y hx in let es = refs_eq→≡ xs ys hs in cc
refs_eq→≡ xs ys h = cc

fields_eq→≡ : (fs gs : List (ℕ × ℕ)) → fields_eq fs gs ≡ true → fs ≡ gs
fields_eq→≡ [] [] h = refl
fields_eq→≡ ((n, t) ∷ fs) ((m, u) ∷ gs) h =
    let (hn, hr) = and_split (n == m) (t == u && fields_eq fs gs) h in
    let (ht, hs) = and_split (t == u) (fields_eq fs gs) hr in
    let en = ==→≡ n m hn in let et = ==→≡ t u ht in let es = fields_eq→≡ fs gs hs in cc
fields_eq→≡ fs gs h = cc

variants_eq→≡ : (vs ws : List (ℕ × List ℕ)) → variants_eq vs ws ≡ true → vs ≡ ws
variants_eq→≡ [] [] h = refl
variants_eq→≡ ((n, ts) ∷ vs) ((m, us) ∷ ws) h =
    let (hn, hr) = and_split (n == m) (refs_eq ts us && variants_eq vs ws) h in
    let (ht, hs) = and_split (refs_eq ts us) (variants_eq vs ws) hr in
    let en = ==→≡ n m hn in let et = refs_eq→≡ ts us ht in let es = variants_eq→≡ vs ws hs in cc
variants_eq→≡ vs ws h = cc

pub ty_eq→≡ : (t u : Ty) → ty_eq t u ≡ true → t ≡ u
ty_eq→≡ Ty.unit Ty.unit h = refl
ty_eq→≡ Ty.never Ty.never h = refl
ty_eq→≡ (Ty.record_type fs) (Ty.record_type gs) h = ap Ty.record_type (fields_eq→≡ fs gs h)
ty_eq→≡ (Ty.enum vs) (Ty.enum ws) h = ap Ty.enum (variants_eq→≡ vs ws h)
ty_eq→≡ (Ty.primitive p) (Ty.primitive q) h = ap Ty.primitive (primitive_eq→≡ p q h)
ty_eq→≡ (Ty.list t) (Ty.list u) h = ap Ty.list (==→≡ t u h)
ty_eq→≡ (Ty.runtime a) (Ty.runtime b) h = ap Ty.runtime (==→≡ a b h)
ty_eq→≡ t u h = cc

eq_self : (n : ℕ) → (n == n) ≡ true
eq_self n = ≡→== n n refl

primitive_eq_self : (p : Primitive) → primitive_eq p p ≡ true
primitive_eq_self (Primitive.int IntKind.unsigned IntSize.i8) = refl
primitive_eq_self (Primitive.int IntKind.unsigned IntSize.i16) = refl
primitive_eq_self (Primitive.int IntKind.unsigned IntSize.i32) = refl
primitive_eq_self (Primitive.int IntKind.unsigned IntSize.i64) = refl
primitive_eq_self (Primitive.int IntKind.signed IntSize.i8) = refl
primitive_eq_self (Primitive.int IntKind.signed IntSize.i16) = refl
primitive_eq_self (Primitive.int IntKind.signed IntSize.i32) = refl
primitive_eq_self (Primitive.int IntKind.signed IntSize.i64) = refl
primitive_eq_self (Primitive.float FloatSize.f32) = refl
primitive_eq_self (Primitive.float FloatSize.f64) = refl
primitive_eq_self Primitive.string = refl
primitive_eq_self Primitive.char = refl
primitive_eq_self Primitive.bool = refl
primitive_eq_self Primitive.asn = refl
primitive_eq_self Primitive.ip_addr = refl
primitive_eq_self Primitive.prefix = refl

refs_eq_self : (xs : List ℕ) → refs_eq xs xs ≡ true
refs_eq_self [] = refl
refs_eq_self (x ∷ xs) = rw (eq_self x, refs_eq_self xs) refl

fields_eq_self : (fs : List (ℕ × ℕ)) → fields_eq fs fs ≡ true
fields_eq_self [] = refl
fields_eq_self ((n, t) ∷ fs) = rw (eq_self n, eq_self t, fields_eq_self fs) refl

variants_eq_self : (vs : List (ℕ × List ℕ)) → variants_eq vs vs ≡ true
variants_eq_self [] = refl
variants_eq_self ((n, ts) ∷ vs) = rw (eq_self n, refs_eq_self ts, variants_eq_self vs) refl

pub ty_eq_self : (t : Ty) → ty_eq t t ≡ true
ty_eq_self Ty.unit = refl
ty_eq_self Ty.never = refl
ty_eq_self (Ty.record_type fs) = fields_eq_self fs
ty_eq_self (Ty.enum vs) = variants_eq_self vs
ty_eq_self (Ty.primitive p) = primitive_eq_self p
ty_eq_self (Ty.list t) = eq_self t
ty_eq_self (Ty.runtime a) = eq_self a
