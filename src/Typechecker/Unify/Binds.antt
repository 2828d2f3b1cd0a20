-- ===== src/Typechecker/Unify/Binds.antt =====
-- src/typechecker/mod.rs, `unify_inner` on type variables: what the two types stand for afterwards.
use roto.Prelude.{ℕ, ◌≡◌, ◌≢◌, ◌⊎◌, List}
use roto.Typechecker.Types.{RotoType}
use roto.Typechecker.UnionFind.{Outcome, returned, mismatch}
use roto.Typechecker.UnionFind.Chains.{Resolves, IsUnionFind}
use roto.Typechecker.UnionFind.Compress.{Same}
use roto.Typechecker.Unify.Resolve.{ResolvesTo}

-- The types `a` and `b`, which stood for `ra` and `rb`, both stand for `t`; what stood for another
-- type still does.
pub record Bound (uf : List RotoType) (a b ra rb t : RotoType) (uf' : List RotoType) : Type 0 where
  pub valid : IsUnionFind uf'
  pub left : ResolvesTo uf' a t
  pub right : ResolvesTo uf' b t
  pub others : (j : ℕ) (v : RotoType) → v ≢ ra → v ≢ rb → Resolves uf v j → Resolves uf' v j

-- How the unification of two types ends: they stand for the result, or nothing changes.
abbrev pub BoundOrNot :
    List RotoType → RotoType → RotoType → RotoType → RotoType → Outcome RotoType → Type 0
BoundOrNot uf a b ra rb o =
    ((t : RotoType) × (uf' : List RotoType) × (o ≡ returned t uf') × Bound uf a b ra rb t uf')
    ⊎ ((uf' : List RotoType) × (o ≡ mismatch uf') × Same uf uf')
