-- ===== src/Typechecker/ValueCycle/Rounds.antt =====
-- src/typechecker/value_cycle.rs, `strongly_connect`: the loop over the references of a vertex.
use roto.Prelude.{◌≡◌, inl, inr, subst, List, [], ◌∷◌, none, Option-cases}
use roto.Typechecker.{ResolvedName}
use roto.Typechecker.TypeCycle.{get}
use roto.Typechecker.ValueCycle.{
  RefGraph, VertexState, State, Outcome, done, connect_one, connect_each,
}
use roto.Typechecker.ValueCycle.Stack.{Member, Inv}
use roto.Typechecker.ValueCycle.Connect.{Leads, Working}
use roto.Typechecker.ValueCycle.Loop.{
  and_then-done, done_inj, Connects, Round, visited-Round, connected-Round,
}

module _ (edges : RefGraph) (u : State → ResolvedName → Outcome) (connects : Connects edges u) where
  pub round :
      (st₀ : State) (inv₀ : Inv edges st₀) (v : ResolvedName) (new : get st₀.vertices v ≡ none)
      (st : State) (s : VertexState) (w : Working edges st₀ v st s) (x : ResolvedName) (st' : State)
      → connect_one u v st x (get st.vertices x) ≡ done st'
      → Round edges st₀ inv₀ v new st s x st'
  round st₀ inv₀ v new st s w x st' h = elim (Option-cases (get st.vertices x)) [
    | inl absent ↦
        let (st₂, called, last) =
          and_then-done (u st x) _ (subst (λ o. connect_one u v st x o ≡ done st') absent h) in
        connected-Round edges st₀ inv₀ v new st s w x st₂ st'
          (connects st x st₂ w.inv absent called) last
    | inr (t, e) ↦
        visited-Round edges st₀ inv₀ v new st s w x t st' e
          (subst (λ o. connect_one u v st x o ≡ done st') e h)
  ]

  -- The loop: `v` is still on the stack, and all its references lead where they may.
  pub each_lem :
      (st₀ : State) (inv₀ : Inv edges st₀) (v : ResolvedName) (new : get st₀.vertices v ≡ none)
      (st : State) (s : VertexState) (w : Working edges st₀ v st s) (ws : List ResolvedName)
      (st' : State)
      → connect_each u v st ws ≡ done st'
      → (s' : VertexState) × Working edges st₀ v st' s'
        × ((x : ResolvedName) → Member x ws → Leads st' s'.lowlink x)
        × ((x : ResolvedName) → Leads st s.lowlink x → Leads st' s'.lowlink x)
  unfolding connect_each
  each_lem st₀ inv₀ v new st s w [] st' h =
      let same = done_inj h in
      subst
        (λ st'.
          (s' : VertexState) × Working edges st₀ v st' s'
          × ((x : ResolvedName) → Member x [] → Leads st' s'.lowlink x)
          × ((x : ResolvedName) → Leads st s.lowlink x → Leads st' s'.lowlink x))
        same (s, w, λ x m. absurd m, λ x l. l)
  each_lem st₀ inv₀ v new st s w (x ∷ xs) st' h =
      let (st₁, one, rest) = and_then-done (connect_one u v st x (get st.vertices x)) _ h in
      let r = round st₀ inv₀ v new st s w x st₁ one in
      let (s', w', leads, earlier) = each_lem st₀ inv₀ v new st₁ r.state r.working xs st' rest in
      (
        s',
        w',
        λ y m. elim m [
          | inl same ↦ subst (Leads st' s'.lowlink) same (earlier x r.leads)
          | inr m' ↦ leads y m'
        ],
        λ y l. earlier y (r.earlier y l),
      )
