-- ===== src/Lir/Var.antt =====
-- src/lir/mod.rs, `Var`: the places of the low-level IR. An identifier is an interned symbol, which
-- is a number here, and so is a scope.
use roto.Prelude.{ℕ, Bool, true, false, ◌&&◌, ◌==◌}

pub data VarKind : Type 0 where
  explicit : ℕ → VarKind
  tmp : ℕ → VarKind
  return context : VarKind

pub record Var : Type 0 where
  pub scope : ℕ
  pub kind : VarKind

unfoldable pub kind_eq : VarKind → VarKind → Bool
kind_eq (explicit a) (explicit b) = a == b
kind_eq (tmp a) (tmp b) = a == b
kind_eq return return = true
kind_eq context context = true
kind_eq _ _ = false

-- The derived `PartialEq` of `Var`.
unfoldable pub var_eq : Var → Var → Bool
unfolding kind_eq
var_eq a b = a.scope == b.scope && kind_eq a.kind b.kind
