-- ===== src/Typechecker/Types.antt =====
-- src/typechecker/types.rs: the types of the type checker and their definitions. Identifiers, the
-- ids of syntax nodes and Rust's `TypeId`s are numbers. `RotoType` is the enum `Type`; a `Name` is
-- written with the two fields of its `TypeName`, and the lists of types and of fields that a type
-- holds are data types of their own.
pub mod Equal
pub mod Substitute
pub mod Simultaneous
pub mod Definitions
pub mod Instance
mod Tests
use roto.Prelude.{ℕ, Bool, true, false, ◌&&◌, List, Option}
use roto.Typechecker.{ResolvedName}

-- `MustBeSigned`
pub data MustBeSigned : Type 0 where
  yes no : MustBeSigned

-- `Meta<Identifier>` (src/parser/meta.rs)
pub record MetaIdentifier : Type 0 where
  pub node : ℕ
  pub id : ℕ

mutual
  -- `Type`
  pub data RotoType : Type 0 where
    var : ℕ → RotoType
    explicit_var : ℕ → RotoType
    int_var : ℕ → MustBeSigned → RotoType
    float_var : ℕ → RotoType
    record_var : ℕ → Fields → RotoType
    unit never : RotoType
    record_type : Fields → RotoType
    function : Types → RotoType → RotoType
    named : ResolvedName → Types → RotoType

  pub data Types : Type 0 where
    nil : Types
    cons : RotoType → Types → Types

  pub data Fields : Type 0 where
    end : Fields
    field : MetaIdentifier → RotoType → Fields → Fields

-- `TypeName`
pub record TypeName : Type 0 where
  pub name : ResolvedName
  pub arguments : Types

-- `EnumVariant`
pub record EnumVariant : Type 0 where
  pub name : ℕ
  pub fields : Types

-- `IntSize`
pub data IntSize : Type 0 where
  i8 i16 i32 i64 : IntSize

-- `IntKind`
pub data IntKind : Type 0 where
  unsigned signed : IntKind

-- `FloatSize`
pub data FloatSize : Type 0 where
  f32 f64 : FloatSize

-- `Primitive`
pub data Primitive : Type 0 where
  int : IntKind → IntSize → Primitive
  float : FloatSize → Primitive
  string char bool asn ip_addr prefix : Primitive

-- `TypeDefinition`
pub data TypeDefinition : Type 0 where
  enum : TypeName → List EnumVariant → TypeDefinition
  record_definition : TypeName → Fields → TypeDefinition
  runtime : ResolvedName → ℕ → TypeDefinition
  primitive : Primitive → TypeDefinition
  list : TypeName → TypeDefinition

-- `TypeDefinition::is_signed_int`
abbrev pub is_signed_int : TypeDefinition → Bool
is_signed_int (primitive (int signed s)) = true
is_signed_int _ = false

-- `TypeDefinition::is_int`
abbrev pub is_int : TypeDefinition → Bool
is_int (primitive (int k s)) = true
is_int _ = false

-- `TypeDefinition::is_float`
abbrev pub is_float : TypeDefinition → Bool
is_float (primitive (float s)) = true
is_float _ = false
