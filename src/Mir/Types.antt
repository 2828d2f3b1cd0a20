-- ===== src/Mir/Types.antt =====
-- src/mir/ty.rs: the types of the mid-level IR and the pool that gives out references to them. A
-- `TyRef` is the index that it holds; a `Pool` is the list of its types, in which `intern` finds a
-- type or puts it at the end, as an `IndexSet` does. Identifiers and `TypeId`s are numbers.
pub mod Equal
pub mod Interned
pub mod Layouts
mod Tests
use roto.Prelude.{
  ℕ, zero, suc, Bool, true, false, ◌==◌, ◌&&◌, if◌then◌else◌, List, [], ◌∷◌, ◌++◌, length,
  get_elem?, Option, none, some, ◌>>=◌, ◌>>◌, assert,
}
use roto.Typechecker.Types.{Primitive, IntKind, IntSize, FloatSize}

pub data Ty : Type 0 where
  unit never : Ty
  record_type : List (ℕ × ℕ) → Ty
  enum : List (ℕ × List ℕ) → Ty
  primitive : Primitive → Ty
  list : ℕ → Ty
  runtime : ℕ → Ty

-- The equality that is derived for types
abbrev pub kind_eq : IntKind → IntKind → Bool
kind_eq IntKind.unsigned IntKind.unsigned = true
kind_eq IntKind.signed IntKind.signed = true
kind_eq _ _ = false

abbrev pub size_eq : IntSize → IntSize → Bool
size_eq IntSize.i8 IntSize.i8 = true
size_eq IntSize.i16 IntSize.i16 = true
size_eq IntSize.i32 IntSize.i32 = true
size_eq IntSize.i64 IntSize.i64 = true
size_eq _ _ = false

abbrev pub float_size_eq : FloatSize → FloatSize → Bool
float_size_eq FloatSize.f32 FloatSize.f32 = true
float_size_eq FloatSize.f64 FloatSize.f64 = true
float_size_eq _ _ = false

abbrev pub primitive_eq : Primitive → Primitive → Bool
primitive_eq (Primitive.int k s) (Primitive.int l r) = kind_eq k l && size_eq s r
primitive_eq (Primitive.float s) (Primitive.float r) = float_size_eq s r
primitive_eq Primitive.string Primitive.string = true
primitive_eq Primitive.char Primitive.char = true
primitive_eq Primitive.bool Primitive.bool = true
primitive_eq Primitive.asn Primitive.asn = true
primitive_eq Primitive.ip_addr Primitive.ip_addr = true
primitive_eq Primitive.prefix Primitive.prefix = true
primitive_eq _ _ = false

abbrev pub refs_eq : List ℕ → List ℕ → Bool
refs_eq [] [] = true
refs_eq (x ∷ xs) (y ∷ ys) = x == y && refs_eq xs ys
refs_eq _ _ = false

abbrev pub fields_eq : List (ℕ × ℕ) → List (ℕ × ℕ) → Bool
fields_eq [] [] = true
fields_eq ((n, t) ∷ fs) ((m, u) ∷ gs) = n == m && (t == u && fields_eq fs gs)
fields_eq _ _ = false

abbrev pub variants_eq : List (ℕ × List ℕ) → List (ℕ × List ℕ) → Bool
variants_eq [] [] = true
variants_eq ((n, ts) ∷ vs) ((m, us) ∷ ws) = n == m && (refs_eq ts us && variants_eq vs ws)
variants_eq _ _ = false

abbrev pub ty_eq : Ty → Ty → Bool
ty_eq Ty.unit Ty.unit = true
ty_eq Ty.never Ty.never = true
ty_eq (Ty.record_type fs) (Ty.record_type gs) = fields_eq fs gs
ty_eq (Ty.enum vs) (Ty.enum ws) = variants_eq vs ws
ty_eq (Ty.primitive p) (Ty.primitive q) = primitive_eq p q
ty_eq (Ty.list t) (Ty.list u) = t == u
ty_eq (Ty.runtime a) (Ty.runtime b) = a == b
ty_eq _ _ = false

-- The types of the fields of a record
abbrev pub field_types : List (ℕ × ℕ) → List ℕ
field_types [] = []
field_types ((n, t) ∷ fs) = t ∷ field_types fs

-- `IndexSet::insert_full`: the types after it, and the index of the type.
unfoldable pub insert_full : List Ty → Ty → List Ty × ℕ
insert_full [] t = (t ∷ [], 0)
insert_full (u ∷ us) t =
    let rest = insert_full us t in if ty_eq u t then (u ∷ us, 0) else (u ∷ rest.0, suc rest.1)

-- `Pool::intern`
abbrev pub intern : List Ty → Ty → List Ty × ℕ
unfolding insert_full
intern pool t = insert_full pool t

-- `Pool::get`, which panics out of range.
abbrev pub get : List Ty → ℕ → Option Ty
get pool t = get_elem? pool t

-- `TyRef`'s constants, in their order from `UNIT`, which is 0, on.
abbrev pub well_known : List Ty
well_known =
    Ty.unit
    ∷ Ty.never
    ∷ Ty.primitive Primitive.bool
    ∷ Ty.primitive (Primitive.int IntKind.unsigned IntSize.i8)
    ∷ Ty.primitive (Primitive.int IntKind.unsigned IntSize.i16)
    ∷ Ty.primitive (Primitive.int IntKind.unsigned IntSize.i32)
    ∷ Ty.primitive (Primitive.int IntKind.unsigned IntSize.i64)
    ∷ Ty.primitive (Primitive.int IntKind.signed IntSize.i8)
    ∷ Ty.primitive (Primitive.int IntKind.signed IntSize.i16)
    ∷ Ty.primitive (Primitive.int IntKind.signed IntSize.i32)
    ∷ Ty.primitive (Primitive.int IntKind.signed IntSize.i64)
    ∷ Ty.primitive (Primitive.float FloatSize.f32)
    ∷ Ty.primitive (Primitive.float FloatSize.f64)
    ∷ Ty.primitive Primitive.string
    ∷ []

-- The types are interned one by one, and each is asserted to get the next reference.
abbrev pub intern_known : List Ty → ℕ → List Ty → Option (List Ty)
unfolding insert_full
intern_known pool expected [] = some pool
intern_known pool expected (t ∷ ts) = do
  assert (expected == (intern pool t).1)
  intern_known (intern pool t).0 (suc expected) ts

-- `Pool::new`
pub new : Option (List Ty)
unfolding intern_known
new = intern_known [] 0 well_known
