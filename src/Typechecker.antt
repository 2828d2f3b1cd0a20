-- ===== src/Typechecker.antt =====
-- src/typechecker: the scopes of the type checker. Identifiers and scopes are numbers.
pub mod Scope
pub mod Types
pub mod UnionFind
pub mod Unify
pub mod TypeCycle
pub mod ValueCycle
use roto.Prelude.{ℕ}

-- `ResolvedName` (src/typechecker/scope.rs)
pub record ResolvedName : Type 0 where
  pub scope : ℕ
  pub ident : ℕ
