-- ===== src/Typechecker/ValueCycle/Compile/Tests.antt =====
-- Examples for `find_compilation_order` of src/typechecker/value_cycle.rs.
use roto.Prelude.{ℕ, ◌≡◌, ◌≢◌, refl, List, [], ◌∷◌, ◌++◌, none, inl}
use roto.Typechecker.{ResolvedName}
use roto.Typechecker.Scope.{ScopeGraph, DeclarationKind, ValueKind, Declaration}
use roto.Typechecker.Scope.{get}
use roto.Typechecker.Scope.Inserts.{get_declaration}
use roto.Typechecker.ValueCycle.{
  RefGraph, targets, tarjan, visit_keys, strongly_connect, connect_each, pop_until,
}
use roto.Typechecker.ValueCycle.Stack.{Member}
use roto.Typechecker.ValueCycle.Total.{IsKey}
use roto.Typechecker.ValueCycle.Compile.{
  Check, ordered, rejected, check_self, check_members, check_components, any_uses,
  determine_uses_context, check_each, context_check, find_compilation_order,
}
use roto.Typechecker.ValueCycle.Compile.Before.{find_compilation_order_lem}
use roto.Typechecker.ValueCycle.Compile.Passed.{IsConstant}
use roto.Typechecker.ValueCycle.Compile.Context.{find_compilation_order-Reaches}
use roto.Typechecker.ValueCycle.Compile.Explored.{IsContext, Reaches, at_once, along}
use roto.Typechecker.ValueCycle.Compile.Justified.{context_check-uses_context}
use roto.Typechecker.ValueCycle.Compile.Fuel.{find_compilation_order-fuel}

abbrev nm : ℕ → ResolvedName
nm i = record { scope = 0; ident = i }

abbrev declared : ℕ → DeclarationKind → ResolvedName × Declaration
declared i k = (nm i, record { name = nm i; kind = k; id = i; scope = none; doc = [] })

-- The constant 1, the functions 2, 3 and 5, and the context value 4
abbrev values : ScopeGraph
values = record {
  declarations =
      declared 1 (DeclarationKind.value ValueKind.constant none)
      ∷ declared 2 (DeclarationKind.function none)
      ∷ declared 3 (DeclarationKind.function none)
      ∷ declared 4 (DeclarationKind.value (ValueKind.context 0) none)
      ∷ declared 5 (DeclarationKind.function none)
      ∷ [];
  scopes = [];
}

-- The constant calls a function of a circle, and another function uses the context.
abbrev accepted : RefGraph
accepted = (nm 1, nm 2 ∷ []) ∷ (nm 2, nm 3 ∷ []) ∷ (nm 3, nm 2 ∷ []) ∷ (nm 5, nm 4 ∷ []) ∷ []

abbrev order : List ResolvedName
order = nm 3 ∷ nm 2 ∷ nm 1 ∷ nm 4 ∷ nm 5 ∷ []

accepted_run : find_compilation_order values accepted ≡ ordered order
unfolding find_compilation_order check_self check_components check_members check_each
    determine_uses_context any_uses get_declaration get tarjan visit_keys strongly_connect
    connect_each pop_until roto.Typechecker.TypeCycle.get
accepted_run = refl

-- The functions of the circle use the context through one of them.
abbrev through_circle : RefGraph
through_circle = (nm 1, nm 2 ∷ []) ∷ (nm 2, nm 3 ∷ []) ∷ (nm 3, nm 2 ∷ nm 4 ∷ []) ∷ []

through_circle_run :
    find_compilation_order values through_circle ≡ rejected (Check.uses_context (nm 1))
unfolding find_compilation_order check_self check_components check_members check_each
    determine_uses_context any_uses get_declaration get tarjan visit_keys strongly_connect
    connect_each pop_until roto.Typechecker.TypeCycle.get
through_circle_run = refl

-- The constant stands on a circle.
abbrev constant_circle : RefGraph
constant_circle = (nm 1, nm 2 ∷ []) ∷ (nm 2, nm 1 ∷ []) ∷ []

constant_circle_run :
    find_compilation_order values constant_circle ≡ rejected (Check.recursive (nm 1))
unfolding find_compilation_order check_self check_components check_members check_each
    determine_uses_context any_uses get_declaration get tarjan visit_keys strongly_connect
    connect_each pop_until roto.Typechecker.TypeCycle.get
constant_circle_run = refl

one-IsConstant : IsConstant values (nm 1)
unfolding get_declaration get
one-IsConstant = (DeclarationKind.value ValueKind.constant none, refl, refl)

circle_reference : Member (nm 2) (targets accepted (nm 1))
unfolding roto.Typechecker.TypeCycle.get
circle_reference = inl refl

circle_back : Member (nm 3) (targets accepted (nm 2))
unfolding roto.Typechecker.TypeCycle.get
circle_back = inl refl

find_compilation_order_lem_example :
    ((v : ResolvedName) → IsKey accepted v → Member v order)
    × ((c w : ResolvedName)
        → IsConstant values c
        → Member w (targets accepted c)
        → (pre : List ResolvedName) × (post : List ResolvedName) × (order ≡ pre ++ c ∷ post)
          × Member w pre)
find_compilation_order_lem_example = find_compilation_order_lem values accepted order accepted_run

find_compilation_order-Reaches_example : ¬ IsContext values (nm 3)
find_compilation_order-Reaches_example =
    find_compilation_order-Reaches values accepted order (nm 1) (nm 3) accepted_run (inl refl)
      one-IsConstant
      (along (nm 1) (nm 2) (nm 3) circle_reference
        (along (nm 2) (nm 3) (nm 3) circle_back (at_once (nm 3))))

find_compilation_order-fuel_example :
    find_compilation_order values constant_circle ≢ rejected Check.out_of_fuel
find_compilation_order-fuel_example = find_compilation_order-fuel values constant_circle

context_check_run : context_check values through_circle ≡ Check.uses_context (nm 1)
unfolding check_each determine_uses_context any_uses get_declaration get
    roto.Typechecker.TypeCycle.get
context_check_run = refl

context_check-uses_context_example :
    IsKey through_circle (nm 1)
    × IsConstant values (nm 1)
    × ((x : ResolvedName) × Reaches through_circle (nm 1) x × IsContext values x)
context_check-uses_context_example =
    context_check-uses_context values through_circle (nm 1) context_check_run
