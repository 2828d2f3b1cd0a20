-- ===== src/Typechecker/ValueCycle/Connect.antt =====
-- src/typechecker/value_cycle.rs, `strongly_connect`: the stack and the components after it.
use roto.Prelude.{
  ℕ, ◌<◌, ◌≤◌, min, ◌≡◌, ◌⊎◌, inl, inr, refl, sym, ap, ◌∙◌, subst, List, [], ◌∷◌, ◌++◌, none, some,
  arith,
}
use roto.Typechecker.{ResolvedName}
use roto.Typechecker.TypeCycle.{get}
use roto.Typechecker.TypeCycle.Acyclic.{get_head, get_cons}
use roto.Typechecker.ValueCycle.{RefGraph, VertexState, State, targets, set_vertex}
use roto.Typechecker.ValueCycle.Stack.{
  Member, Visited, index_in, index_of, Placed, Decreasing, Inv, Member-append, Member-right,
  lowered, set_index, set-Inv,
}

-- A reference leads to a component, or to a vertex on the stack whose index is not below a bound.
abbrev pub Leads : State → ℕ → ResolvedName → Type 0
Leads st b w = Placed st.components w ⊎ (Member w st.stack × (b ≤ index_of st w))

abbrev pub Frontier : RefGraph → State → ℕ → List ResolvedName → Type 0
Frontier edges st b us =
    (x w : ResolvedName) → Member x us → Member w (targets edges x) → Leads st b w

-- What does not change while vertices are added: the states of those that were there, the
-- components, and the stack below.
pub record Grows (st st' : State) : Type 0 where
  pub index : (x : ResolvedName) → Visited st x → index_of st' x ≡ index_of st x
  pub placed : (x : ResolvedName) → Placed st.components x → Placed st'.components x
  pub stays : (x : ResolvedName) → Member x st.stack → Member x st'.stack

pub Leads-Grows :
    {edges : RefGraph} (st st' : State) (b b' : ℕ) (w : ResolvedName)
    → Inv edges st
    → Grows st st'
    → b' ≤ b
    → Leads st b w
    → Leads st' b' w
Leads-Grows st st' b b' w h g le (inl p) = inl (g.placed w p)
Leads-Grows st st' b b' w h g le (inr (m, low)) =
    inr (g.stays w m, omega (arith, g.index w (h.on_stack w m)))

-- What `strongly_connect` does with a vertex that is new: it has popped it with all above it, or
-- left it on the stack.
abbrev pub Ends : RefGraph → State → ResolvedName → State → VertexState → Type 0
Ends edges st v st' s =
    ((st'.stack ≡ st.stack) × Placed st'.components v × (s.index ≡ s.lowlink))
    ⊎ ((above : List ResolvedName) × (st'.stack ≡ above ++ v ∷ st.stack)
        × Frontier edges st' s.lowlink (above ++ v ∷ [])
        × ((y : ResolvedName) × Member y st.stack × (index_of st y ≤ s.lowlink)))

pub record Connected (edges : RefGraph) (st : State) (v : ResolvedName) (st' : State) : Type 0 where
  pub inv : Inv edges st'
  pub kept :
      (x : ResolvedName) (s : VertexState)
      → get st.vertices x ≡ some s
      → get st'.vertices x ≡ some s
  pub placed : (x : ResolvedName) → Placed st.components x → Placed st'.components x
  pub state : VertexState
  pub found : get st'.vertices v ≡ some state
  pub fresh_index : st.next_index ≤ state.index
  pub ends : Ends edges st v st' state

-- While the references of `v` are visited: `v` lies on the stack that was there before it, with
-- the vertices above it that were left on the stack.
pub record Working (edges : RefGraph) (st₀ : State) (v : ResolvedName) (st : State)
    (state : VertexState) : Type 0 where
  pub inv : Inv edges st
  pub kept :
      (x : ResolvedName) (s : VertexState)
      → get st₀.vertices x ≡ some s
      → get st.vertices x ≡ some s
  pub placed : (x : ResolvedName) → Placed st₀.components x → Placed st.components x
  pub found : get st.vertices v ≡ some state
  pub fresh_index : st₀.next_index ≤ state.index
  pub above : List ResolvedName
  pub stack : st.stack ≡ above ++ v ∷ st₀.stack
  pub frontier : Frontier edges st state.lowlink above
  pub bottom :
      (state.index ≤ state.lowlink)
      ⊎ ((y : ResolvedName) × Member y st₀.stack × (index_of st₀ y ≤ state.lowlink))

pub append_assoc : (xs ys zs : List ResolvedName) → (xs ++ ys) ++ zs ≡ xs ++ (ys ++ zs)
append_assoc [] ys zs = refl
append_assoc (x ∷ xs) ys zs = ap (λ l. x ∷ l) (append_assoc xs ys zs)

-- The indices above a vertex on the stack are larger, and those below it smaller.
pub Decreasing-split :
    (st : State) (above : List ResolvedName) (v : ResolvedName) (rest : List ResolvedName)
    → Decreasing st (above ++ v ∷ rest)
    → ((x : ResolvedName) → Member x above → index_of st v < index_of st x)
      × ((x : ResolvedName) → Member x rest → index_of st x < index_of st v)
      × Decreasing st rest
Decreasing-split st [] v rest (less, d) = (λ x m. absurd m, less, d)
Decreasing-split st (z ∷ above) v rest (less, d) =
    let (larger, smaller, d') = Decreasing-split st above v rest d in
    (
      λ x m. elim m [
        | inl same ↦
            subst (λ y. index_of st v < index_of st y) same
              (less v (Member-right v above (v ∷ rest) (inl refl)))
        | inr m' ↦ larger x m'
      ],
      smaller,
      d',
    )

module _ (edges : RefGraph) (st₀ : State) (v : ResolvedName) where
  -- The indices of the vertices that were there before.
  pub index_before :
      (st : State)
      → ((x : ResolvedName) (s : VertexState)
          → get st₀.vertices x ≡ some s
          → get st.vertices x ≡ some s)
      → (x : ResolvedName) → Visited st₀ x
      → index_of st x ≡ index_of st₀ x
  index_before st kept x (s, e) = ap index_in (kept x s e) ∙ sym (ap index_in e)

  -- A lowlink that comes from the stack above `v` is not below the index of `v`; any other one
  -- comes from the stack below it.
  pub bottom_of :
      (st : State) (s : VertexState) (w : Working edges st₀ v st s) (inv₀ : Inv edges st₀)
      (y : ResolvedName) (n : ℕ)
      → Member y st.stack
      → index_of st y ≤ n
      → (s.index ≤ n) ⊎ ((z : ResolvedName) × Member z st₀.stack × (index_of st₀ z ≤ n))
  bottom_of st s w inv₀ y n m le =
      let at_v : index_of st v ≡ s.index = ap index_in w.found in
      let (larger, smaller, d) =
        Decreasing-split st w.above v st₀.stack (subst (Decreasing st) w.stack w.inv.decreasing) in
      elim (Member-append y w.above (v ∷ st₀.stack) (subst (Member y) w.stack m)) [
        | inl up ↦ inl (omega (arith, larger y up, at_v))
        | inr (inl same) ↦ inl (omega (arith, at_v, ap (index_of st) same))
        | inr (inr down) ↦
            inr (y, down, omega (arith, index_before st w.kept y (inv₀.on_stack y down)))
      ]

  -- The lowlink of `v` is lowered in a state in which more vertices may lie above it.
  pub lower_lem :
      (st : State) (s : VertexState) (n : ℕ) (above : List ResolvedName)
      → Inv edges st
      → ((x : ResolvedName) (t : VertexState)
          → get st₀.vertices x ≡ some t
          → get st.vertices x ≡ some t)
      → ((x : ResolvedName) → Placed st₀.components x → Placed st.components x)
      → get st₀.vertices v ≡ none
      → (found : get st.vertices v ≡ some s) → st₀.next_index ≤ s.index
      → st.stack ≡ above ++ v ∷ st₀.stack
      → Frontier edges st (min s.lowlink n) above
      → (s.index ≤ min s.lowlink n)
        ⊎ ((y : ResolvedName) × Member y st₀.stack × (index_of st₀ y ≤ min s.lowlink n))
      → Working edges st₀ v (set_vertex st v (lowered st v s n found)) (lowered st v s n found)
  lower_lem st s n above inv kept placed new found fresh stack frontier bottom =
      let st' = set_vertex st v (lowered st v s n found) in
      let grows : Grows st st' = record {
        index = set_index st v s n found;
        placed = λ x p. p;
        stays = λ x m. m;
      } in
      record {
        inv = set-Inv st v s n found edges inv;
        kept = λ x t e. elim (get_cons v (lowered st v s n found) st.vertices x) [
          | inl (same, _) ↦
              let bad : none ≡ some t = sym (subst (λ y. get st₀.vertices y ≡ none) same new) ∙ e in
              cc
          | inr e' ↦ e' ∙ kept x t e
        ];
        placed = placed;
        found = get_head v (lowered st v s n found) st.vertices;
        fresh_index = fresh;
        above = above;
        stack = stack;
        frontier = λ x w mx mw.
            Leads-Grows st st' (min s.lowlink n) (min s.lowlink n) w inv grows (omega arith)
              (frontier x w mx mw);
        bottom = bottom;
      }
