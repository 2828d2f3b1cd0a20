-- ===== src/Typechecker/ValueCycle.antt =====
-- src/typechecker/value_cycle.rs: the graph of references between values and the strongly
-- connected components of it (`tarjan`). A map is a list of entries in the order that a loop over
-- it takes; the map of vertices has the latest entry first. The stack has its top first. A missing
-- entry panics, and the recursion of `strongly_connect` is on fuel.
pub mod Stack
pub mod Connect
pub mod Loop
pub mod Rounds
pub mod Order
pub mod Unvisited
pub mod Total
pub mod Compile
pub mod References
mod Tests
use roto.Prelude.{
  ℕ, zero, suc, ◌+◌, ◌==◌, min, Bool, true, false, ◌||◌, if◌then◌else◌, List, [], ◌∷◌, ◌++◌, length,
  Option, none, some,
}
use roto.Typechecker.{ResolvedName}
use roto.Typechecker.Scope.{name_eq}
use roto.Typechecker.TypeCycle.{get}

-- `RefGraph`
abbrev pub RefGraph : Type 0
RefGraph = List (ResolvedName × List ResolvedName)

pub record VertexState : Type 0 where
  pub index : ℕ
  pub lowlink : ℕ

-- `State`
pub record State : Type 0 where
  pub stack : List ResolvedName
  pub vertices : List (ResolvedName × VertexState)
  pub next_index : ℕ
  pub components : List (List ResolvedName)

pub data Outcome : Type 0 where
  done : State → Outcome
  panicked out_of_fuel : Outcome

abbrev pub and_then : Outcome → (State → Outcome) → Outcome
and_then (done st) f = f st
and_then panicked f = panicked
and_then out_of_fuel f = out_of_fuel

abbrev pub contains : List ResolvedName → ResolvedName → Bool
contains [] n = false
contains (x ∷ xs) n = name_eq x n || contains xs n

-- `references.get(&v).into_iter().flatten()`
abbrev pub or_empty : Option (List ResolvedName) → List ResolvedName
or_empty none = []
or_empty (some ws) = ws

abbrev pub targets : RefGraph → ResolvedName → List ResolvedName
targets edges v = or_empty (get edges v)

-- `State::new`
abbrev pub new : State
new = record { stack = []; vertices = []; next_index = 0; components = [] }

abbrev pub set_vertex : State → ResolvedName → VertexState → State
set_vertex st v s = record st { vertices = (v, s) ∷ st.vertices }

-- `State::update_lowlink`
abbrev pub lower : State → ResolvedName → ℕ → Option VertexState → Outcome
lower st v n none = panicked
lower st v n (some s) = done (set_vertex st v (record s { lowlink = min s.lowlink n }))

abbrev pub update_lowlink : State → ResolvedName → ℕ → Outcome
update_lowlink st v n = lower st v n (get st.vertices v)

-- The first lines of `strongly_connect`: the vertex gets the next index and is put on the stack.
abbrev pub begin : State → ResolvedName → State
begin st v = record {
  stack = v ∷ st.stack;
  vertices = (v, record { index = st.next_index; lowlink = st.next_index }) ∷ st.vertices;
  next_index = st.next_index + 1;
  components = st.components;
}

abbrev pub lower_to : State → ResolvedName → Option VertexState → Outcome
lower_to st v none = panicked
lower_to st v (some s) = update_lowlink st v s.lowlink

-- A round of the loop over the references of a vertex, with the recursive call.
abbrev pub connect_one :
    (State → ResolvedName → Outcome)
    → ResolvedName
    → State
    → ResolvedName
    → Option VertexState
    → Outcome
connect_one u v st w none = and_then (u st w) λ st'. lower_to st' v (get st'.vertices w)
connect_one u v st w (some s) = if contains st.stack w then update_lowlink st v s.index else done st

unfoldable pub connect_each :
    (State → ResolvedName → Outcome) → ResolvedName → State → List ResolvedName → Outcome
connect_each u v st [] = done st
connect_each u v st (w ∷ ws) =
    and_then (connect_one u v st w (get st.vertices w)) λ st'. connect_each u v st' ws

-- The loop that pops a component off the stack: the component and the rest.
unfoldable pub pop_until : ResolvedName → List ResolvedName → List ResolvedName × List ResolvedName
pop_until v [] = ([], [])
pop_until v (w ∷ ws) =
    let rest = pop_until v ws in if name_eq w v then (w ∷ [], ws) else (w ∷ rest.0, rest.1)

-- The last lines of `strongly_connect`
abbrev pub pop_component : State → List ResolvedName × List ResolvedName → State
pop_component st r = record st { stack = r.1; components = st.components ++ r.0 ∷ [] }

abbrev pub close : State → ResolvedName → Option VertexState → Outcome
close st v none = panicked
close st v (some s) =
    if s.index == s.lowlink then done (pop_component st (pop_until v st.stack)) else done st

-- `strongly_connect`
unfoldable pub strongly_connect : ℕ → RefGraph → State → ResolvedName → Outcome
strongly_connect zero edges st v = out_of_fuel
strongly_connect (suc fuel) edges st v =
    and_then (connect_each (strongly_connect fuel edges) v (begin st v) (targets edges v))
      λ st'. close st' v (get st'.vertices v)

-- The loop of `tarjan` over the keys
abbrev pub visit_key : ℕ → RefGraph → State → ResolvedName → Option VertexState → Outcome
visit_key fuel edges st v none = strongly_connect fuel edges st v
visit_key fuel edges st v (some s) = done st

unfoldable pub visit_keys : ℕ → RefGraph → State → RefGraph → Outcome
visit_keys fuel edges st [] = done st
visit_keys fuel edges st ((v, ws) ∷ es) =
    and_then (visit_key fuel edges st v (get st.vertices v)) λ st'. visit_keys fuel edges st' es

-- `tarjan`; the components are those of the state that it ends in.
unfoldable pub tarjan : ℕ → RefGraph → Outcome
tarjan fuel edges = visit_keys fuel edges new edges
