-- ===== src/Mir/Types/Tests.antt =====
-- Examples for the pool of src/mir/ty.rs.
use roto.Prelude.{zero, suc, ◌≡◌, ◌↔◌, refl, List, [], ◌∷◌, ◌++◌}
use roto.Typechecker.Types.{Primitive}
use roto.Mir.Types.{Ty, insert_full, intern}
use roto.Mir.Types.Interned.{IsPool, Interned, intern-Interned, intern-same_iff}

abbrev pool : List Ty
pool = Ty.unit ∷ Ty.primitive Primitive.bool ∷ []

pool-IsPool : IsPool pool
pool-IsPool zero zero t h h' = refl
pool-IsPool zero (suc zero) t h h' = cc
pool-IsPool (suc zero) zero t h h' = cc
pool-IsPool (suc zero) (suc zero) t h h' = refl
pool-IsPool r r' t h h' = cc

-- `{ a: bool, b: () }`
abbrev pair : Ty
pair = Ty.record_type ((1, 1) ∷ (2, 0) ∷ [])

intern-Interned_example : Interned pool pair (pool ++ pair ∷ []) 2
unfolding insert_full
intern-Interned_example = intern-Interned pool pair pool-IsPool

intern-same_iff_example :
    ((intern pool pair).1 ≡ (intern (intern pool pair).0 (Ty.list 1)).1) ↔ (pair ≡ Ty.list 1)
intern-same_iff_example = intern-same_iff pool pair (Ty.list 1) pool-IsPool
