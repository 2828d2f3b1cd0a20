-- ===== src/Typechecker/UnionFind.antt =====
-- src/typechecker/unionfind.rs: the types that the type variables stand for. A `UnionFind` is its
-- list `inner`. The recursion of `find`, which follows variables, is on fuel.
pub mod Chains
pub mod Compress
pub mod Height
pub mod Binding
mod Tests
use roto.Prelude.{
  ℕ, zero, suc, ◌==◌, if◌then◌else◌, List, [], ◌∷◌, ◌++◌, length, get_elem?, set, Option, none,
  some, ◌>>=◌,
}
use roto.Typechecker.Types.{RotoType}

-- How a computation on the type variables ends: a result and the variables after it, a mismatch of
-- types (the changes made so far stay), a panic, or no fuel left.
pub data Outcome (A : Type 0) : Type 0 where
  returned : A → List RotoType → Outcome A
  mismatch : List RotoType → Outcome A
  panicked out_of_fuel : Outcome A

abbrev pub and_then : {A B : Type 0} → Outcome A → (A → List RotoType → Outcome B) → Outcome B
and_then (returned a uf) f = f a uf
and_then (mismatch uf) f = mismatch uf
and_then panicked f = panicked
and_then out_of_fuel f = out_of_fuel

-- The type variable that a type is.
abbrev pub var_index : RotoType → Option ℕ
var_index (RotoType.var i) = some i
var_index (RotoType.int_var i s) = some i
var_index (RotoType.float_var i) = some i
var_index (RotoType.record_var i fs) = some i
var_index _ = none

-- Where `find` goes on from the type at an index: a variable that is mapped to itself is not set.
abbrev pub not_itself : ℕ → Option ℕ → Option ℕ
not_itself index none = none
not_itself index (some i) = if i == index then none else some i

abbrev pub link : ℕ → RotoType → Option ℕ
link index t = not_itself index (var_index t)

-- `UnionFind::find`
unfoldable pub find : ℕ → List RotoType → ℕ → Outcome RotoType
find zero uf index = out_of_fuel
find (suc fuel) uf index = elim (get_elem? uf index) [
  | none ↦ panicked
  | some t ↦ elim (link index t) [
    | none ↦ returned t uf
    | some i ↦ and_then (find fuel uf i) (λ new_t uf'. returned new_t (set uf' index new_t))
  ]
]

-- `UnionFind::find_ref`
unfoldable pub find_ref : ℕ → List RotoType → ℕ → Outcome RotoType
find_ref zero uf index = out_of_fuel
find_ref (suc fuel) uf index = elim (get_elem? uf index) [
  | none ↦ panicked
  | some t ↦ elim (link index t) [ none ↦ returned t uf | some i ↦ find_ref fuel uf i ]
]

-- `UnionFind::fresh`
abbrev pub fresh : List RotoType → (ℕ → RotoType) → RotoType × List RotoType
fresh uf f = (f (length uf), uf ++ f (length uf) ∷ [])
