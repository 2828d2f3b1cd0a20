-- ===== src/Typechecker/ValueCycle/Unvisited.antt =====
-- src/typechecker/value_cycle.rs, `strongly_connect`: the number of vertices that are not visited, and
-- the loop over the references of a vertex.
use roto.Prelude.{
  ℕ, ◌+◌, ◌<◌, ◌≤◌, min, ◌≡◌, inl, inr, refl, sym, ap, ◌∙◌, subst, List, [], ◌∷◌, ◌++◌, length,
  Option, none, some, some_inj, Option-cases, Bool-cases, arith,
}
use roto.Typechecker.{ResolvedName}
use roto.Typechecker.Scope.{name_eq}
use roto.Typechecker.TypeCycle.{get}
use roto.Typechecker.TypeCycle.Acyclic.{get_cons}
use roto.Typechecker.ValueCycle.{
  RefGraph, VertexState, State, Outcome, done, and_then, contains, targets, or_empty, set_vertex,
  lower, lower_to, update_lowlink, connect_one, connect_each, strongly_connect,
}
use roto.Typechecker.ValueCycle.Stack.{Member, Visited, Inv, Member-left, Member-right}
use roto.Typechecker.ValueCycle.Connect.{Working}
use roto.Typechecker.ValueCycle.Loop.{and_then-done, done_inj}
use roto.Typechecker.ValueCycle.Order.{strongly_connect-Connects}
use roto.Typechecker.ValueCycle.Rounds.{round}

-- The names of a graph: its keys, and what they refer to.
abbrev pub names : RefGraph → List ResolvedName
names [] = []
names ((v, ws) ∷ es) = v ∷ ws ++ names es

abbrev one_if_none : Option VertexState → ℕ
one_if_none none = 1
one_if_none (some s) = 0

-- The number of names that are not visited.
abbrev unvisited : State → List ResolvedName → ℕ
unvisited st [] = 0
unvisited st (x ∷ l) = one_if_none (get st.vertices x) + unvisited st l

abbrev pub Keeps : State → State → Type 0
Keeps st st' = (x : ResolvedName) → Visited st x → Visited st' x

one-le : (o : Option VertexState) → one_if_none o ≤ 1
one-le none = omega arith
one-le (some s) = omega arith

one-Keeps :
    (st st' : State) (x : ResolvedName)
    → Keeps st st'
    → one_if_none (get st'.vertices x) ≤ one_if_none (get st.vertices x)
one-Keeps st st' x k = elim (Option-cases (get st.vertices x)) [
  | inl e ↦ rw e (one-le (get st'.vertices x))
  | inr (s, e) ↦ let (s', e') = k x (s, e) in rw (e, e') (omega arith)
]

unvisited-le :
    (st st' : State) (l : List ResolvedName) → Keeps st st' → unvisited st' l ≤ unvisited st l
unvisited-le st st' [] k = omega arith
unvisited-le st st' (x ∷ l) k = omega (arith, one-Keeps st st' x k, unvisited-le st st' l k)

pub unvisited-lt :
    (st st' : State) (v : ResolvedName) (l : List ResolvedName)
    → Keeps st st'
    → Member v l
    → get st.vertices v ≡ none
    → Visited st' v
    → unvisited st' l < unvisited st l
unvisited-lt st st' v [] k m absent now = absurd m
unvisited-lt st st' v (x ∷ l) k (inl same) absent (s, e) =
    let before : one_if_none (get st.vertices x) ≡ 1 =
      ap one_if_none (subst (λ y. get st.vertices y ≡ none) (sym same) absent) in
    let after : one_if_none (get st'.vertices x) ≡ 0 =
      ap one_if_none (subst (λ y. get st'.vertices y ≡ some s) (sym same) e) in
    omega (arith, before, after, unvisited-le st st' l k)
unvisited-lt st st' v (x ∷ l) k (inr m) absent now =
    omega (arith, one-Keeps st st' x k, unvisited-lt st st' v l k m absent now)

pub unvisited-length : (st : State) (l : List ResolvedName) → unvisited st l ≤ length l
unvisited-length st [] = omega arith
unvisited-length st (x ∷ l) = omega (arith, one-le (get st.vertices x), unvisited-length st l)

-- The computation ends in a state.
abbrev pub Returns : Outcome → Type 0
Returns o = (st : State) × (o ≡ done st)

get-names :
    (edges : RefGraph) (v : ResolvedName) {ws : List ResolvedName} (x : ResolvedName)
    → get edges v ≡ some ws
    → Member x ws
    → Member x (names edges)
unfolding get
get-names [] v x h m = cc
get-names ((k, us) ∷ es) v {ws = ws} x h m = elim (Bool-cases (name_eq k v)) [
  | inl same ↦
      let out : some us ≡ some ws = (rw (get, same) at h) in
      inr (Member-left x us (names es) (subst (Member x) (sym (some_inj out)) m))
  | inr other ↦ inr (Member-right x us (names es) (get-names es v x (rw (get, other) at h) m))
]

pub targets-names :
    (edges : RefGraph) (v x : ResolvedName) → Member x (targets edges v) → Member x (names edges)
targets-names edges v x m = elim (Option-cases (get edges v)) [
  | inl e ↦ absurd (subst (λ o. Member x (or_empty o)) e m)
  | inr (ws, e) ↦ get-names edges v x e (subst (λ o. Member x (or_empty o)) e m)
]

update-Returns :
    (st : State) (v : ResolvedName) (n : ℕ) → Visited st v → Returns (update_lowlink st v n)
update-Returns st v n (s, e) =
    (set_vertex st v (record s { lowlink = min s.lowlink n }), ap (lower st v n) e)

-- The recursive call ends while so many names are not visited.
abbrev pub Ends : RefGraph → ℕ → (State → ResolvedName → Outcome) → Type 0
Ends edges bound u =
    (st : State) (w : ResolvedName)
    → Inv edges st
    → get st.vertices w ≡ none
    → Member w (names edges)
    → unvisited st (names edges) < bound
    → Returns (u st w)

module _ (edges : RefGraph) (fuel : ℕ) (ends : Ends edges fuel (strongly_connect fuel edges)) where
  abbrev call : State → ResolvedName → Outcome
  call = strongly_connect fuel edges

  one_lem :
      (st₀ : State) (v : ResolvedName) (st : State) (s : VertexState) (w : Working edges st₀ v st s)
      (x : ResolvedName)
      → Member x (names edges)
      → unvisited st (names edges) < fuel
      → Returns (connect_one call v st x (get st.vertices x))
  one_lem st₀ v st s w x m bound = elim (Option-cases (get st.vertices x)) [
    | inl e ↦
        let (st₂, called) = ends st x w.inv e m bound in
        let c = strongly_connect-Connects fuel edges st x st₂ w.inv e called in
        let (st', last) = update-Returns st₂ v c.state.lowlink (s, c.kept v s w.found) in
        (
          st',
          ap (connect_one call v st x) e
              ∙ ap (λ o. and_then o (λ st'. lower_to st' v (get st'.vertices x))) called
              ∙ ap (lower_to st₂ v) c.found
              ∙ last,
        )
    | inr (t, e) ↦ elim (Bool-cases (contains st.stack x)) [
      | inl on ↦
          let (st', last) = update-Returns st v t.index (s, w.found) in
          (st', ap (connect_one call v st x) e ∙ rw on last)
      | inr off ↦ (st, ap (connect_one call v st x) e ∙ rw off refl)
    ]
  ]

  update-Keeps :
      (st : State) (v : ResolvedName) (n : ℕ) (st' : State)
      → Visited st v
      → update_lowlink st v n ≡ done st'
      → Keeps st st'
  update-Keeps st v n st' (s, e) h x (t, at) =
      let low : VertexState = record s { lowlink = min s.lowlink n } in
      let out : done (set_vertex st v low) ≡ done st' = sym (ap (lower st v n) e) ∙ h in
      subst (λ r. Visited r x) (done_inj out)
        (elim (get_cons v low st.vertices x) [ inl (same, e') ↦ (low, e') | inr e' ↦ (t, e' ∙ at) ])

  one-Keeps_state :
      (st₀ : State) (v : ResolvedName) (st : State) (s : VertexState) (w : Working edges st₀ v st s)
      (x : ResolvedName) (st' : State)
      → connect_one call v st x (get st.vertices x) ≡ done st'
      → Keeps st st'
  one-Keeps_state st₀ v st s w x st' h = elim (Option-cases (get st.vertices x)) [
    | inl e ↦
        let (st₂, called, last) =
          and_then-done (call st x) _ (subst (λ o. connect_one call v st x o ≡ done st') e h) in
        let c = strongly_connect-Connects fuel edges st x st₂ w.inv e called in
        let last' : update_lowlink st₂ v c.state.lowlink ≡ done st' =
          sym (ap (lower_to st₂ v) c.found) ∙ last in
        λ y (t, at).
          update-Keeps st₂ v c.state.lowlink st' (s, c.kept v s w.found) last' y (t, c.kept y t at)
    | inr (t, e) ↦
        let h' = subst (λ o. connect_one call v st x o ≡ done st') e h in
        elim (Bool-cases (contains st.stack x)) [
          | inl on ↦ update-Keeps st v t.index st' (s, w.found) (rw on at h')
          | inr off ↦
              let out : done st ≡ done st' = (rw off at h') in
              λ y k. subst (λ r. Visited r y) (done_inj out) k
        ]
  ]

  pub each-Returns :
      (st₀ : State) (inv₀ : Inv edges st₀) (v : ResolvedName) (absent : get st₀.vertices v ≡ none)
      (st : State) (s : VertexState) (w : Working edges st₀ v st s) (ws : List ResolvedName)
      → ((x : ResolvedName) → Member x ws → Member x (names edges))
      → unvisited st (names edges) < fuel
      → Returns (connect_each call v st ws)
  unfolding connect_each
  each-Returns st₀ inv₀ v absent st s w [] known bound = (st, refl)
  each-Returns st₀ inv₀ v absent st s w (x ∷ xs) known bound =
      let (st₁, one) = one_lem st₀ v st s w x (known x (inl refl)) bound in
      let r =
        round edges call (strongly_connect-Connects fuel edges) st₀ inv₀ v absent st s w x st₁
          one in
      let keeps = one-Keeps_state st₀ v st s w x st₁ one in
      let (st', rest) =
        each-Returns st₀ inv₀ v absent st₁ r.state r.working xs (λ y m. known y (inr m))
          (omega (arith, unvisited-le st st₁ (names edges) keeps)) in
      (st', ap (λ o. and_then o (λ st'. connect_each call v st' xs)) one ∙ rest)
