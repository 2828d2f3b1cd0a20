-- ===== src/Typechecker/ValueCycle/Tests.antt =====
-- Examples for `tarjan` of src/typechecker/value_cycle.rs: the graphs of its own tests.
use roto.Prelude.{ℕ, suc, ◌≡◌, refl, List, [], ◌∷◌, length}
use roto.Typechecker.{ResolvedName}
use roto.Typechecker.TypeCycle.{get}
use roto.Typechecker.ValueCycle.{
  RefGraph, State, Outcome, done, tarjan, visit_keys, strongly_connect, connect_each, pop_until,
}
use roto.Typechecker.ValueCycle.Stack.{Placed, Closed}
use roto.Typechecker.ValueCycle.References
use roto.Typechecker.ValueCycle.References.{add_node, add_edge, update_entry, insert_name}
use roto.Typechecker.ValueCycle.Total.{IsKey, tarjan_lem}
use roto.Typechecker.ValueCycle.Unvisited.{names}

abbrev nm : ℕ → ResolvedName
nm i = record { scope = 0; ident = i }

abbrev components_of : Outcome → List (List ResolvedName)
components_of (done st) = st.components
components_of o = []

-- `one_two_three_four`
abbrev one_two_three_four : RefGraph
one_two_three_four =
    (nm 1, nm 2 ∷ []) ∷ (nm 2, nm 3 ∷ nm 4 ∷ []) ∷ (nm 3, nm 2 ∷ nm 4 ∷ []) ∷ (nm 4, []) ∷ []

one_two_three_four_run :
    components_of (tarjan 9 one_two_three_four)
    ≡ (nm 4 ∷ []) ∷ (nm 3 ∷ nm 2 ∷ []) ∷ (nm 1 ∷ []) ∷ []
unfolding tarjan visit_keys strongly_connect connect_each pop_until get
one_two_three_four_run = refl

-- `cycle`
abbrev circle : RefGraph
circle = (nm 1, nm 2 ∷ []) ∷ (nm 2, nm 3 ∷ []) ∷ (nm 3, nm 4 ∷ []) ∷ (nm 4, nm 1 ∷ []) ∷ []

circle_run : components_of (tarjan 9 circle) ≡ (nm 4 ∷ nm 3 ∷ nm 2 ∷ nm 1 ∷ []) ∷ []
unfolding tarjan visit_keys strongly_connect connect_each pop_until get
circle_run = refl

-- `boop`
abbrev boop : RefGraph
boop =
    (nm 1, nm 3 ∷ [])
    ∷ (nm 2, [])
    ∷ (nm 3, nm 4 ∷ nm 5 ∷ [])
    ∷ (nm 4, nm 2 ∷ [])
    ∷ (nm 5, nm 2 ∷ [])
    ∷ []

boop_run :
    components_of (tarjan 11 boop)
    ≡ (nm 2 ∷ []) ∷ (nm 4 ∷ []) ∷ (nm 5 ∷ []) ∷ (nm 3 ∷ []) ∷ (nm 1 ∷ []) ∷ []
unfolding tarjan visit_keys strongly_connect connect_each pop_until get
boop_run = refl

tarjan_lem_example :
    (st : State) × (tarjan (suc (length (names one_two_three_four))) one_two_three_four ≡ done st)
    × ((v : ResolvedName) → IsKey one_two_three_four v → Placed st.components v)
    × Closed one_two_three_four st.components
tarjan_lem_example = tarjan_lem one_two_three_four

-- The order in which references are added does not matter.
boop_built :
    add_edge
      (add_edge
        (add_edge
          (add_node (add_edge (add_edge References.new (nm 5) (nm 2)) (nm 3) (nm 5)) (nm 2))
          (nm 4)
          (nm 2))
        (nm 3)
        (nm 4))
      (nm 1)
      (nm 3)
    ≡ boop
unfolding update_entry insert_name
boop_built = refl
