-- ===== src/Typechecker/UnionFind/Tests.antt =====
-- Examples for src/typechecker/unionfind.rs.
use roto.Prelude.{ℕ, zero, suc, ◌<◌, ◌≡◌, refl, List, [], ◌∷◌, length, arith}
use roto.Typechecker.Types.{RotoType, MustBeSigned}
use roto.Typechecker.UnionFind.{returned, find, find_ref}
use roto.Typechecker.UnionFind.Chains.{here, there, IsUnionFind}
use roto.Typechecker.UnionFind.Height.{find-find_ref}

abbrev number : RotoType
number = RotoType.int_var 2 MustBeSigned.yes

-- 0 leads to 1, which leads to 2, a variable that is not set; 3 is set to `()`.
abbrev variables : List RotoType
variables = RotoType.var 1 ∷ RotoType.int_var 2 MustBeSigned.no ∷ number ∷ RotoType.unit ∷ []

variables-IsUnionFind : IsUnionFind variables
variables-IsUnionFind zero h =
    (number, there 0 1 _ refl refl (there 1 2 _ refl refl (here 2 refl refl)))
variables-IsUnionFind (suc zero) h = (number, there 1 2 _ refl refl (here 2 refl refl))
variables-IsUnionFind (suc (suc zero)) h = (number, here 2 refl refl)
variables-IsUnionFind (suc (suc (suc zero))) h = (RotoType.unit, here 3 refl refl)
variables-IsUnionFind (suc (suc (suc (suc i)))) h = absurd (omega arith)

find_compresses :
    find 4 variables 0 ≡ returned number (number ∷ number ∷ number ∷ RotoType.unit ∷ [])
unfolding find
find_compresses = refl

find-find_ref_example :
    (t : RotoType) × (uf' : List RotoType) × (find 4 variables 0 ≡ returned t uf')
    × (find_ref 4 variables 0 ≡ returned t variables)
    × (length uf' ≡ 4)
    × ((j : ℕ)
        → j < 4
        → (u : RotoType) × (find_ref 4 variables j ≡ returned u variables)
          × (find_ref (length uf') uf' j ≡ returned u uf'))
find-find_ref_example = find-find_ref variables 0 variables-IsUnionFind (omega arith)
