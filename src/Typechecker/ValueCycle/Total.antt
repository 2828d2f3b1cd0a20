-- ===== src/Typechecker/ValueCycle/Total.antt =====
-- src/typechecker/value_cycle.rs, `tarjan`: the depth of the recursion of `strongly_connect`, and the
-- entries that it relies on.
use roto.Prelude.{
  ℕ, zero, suc, ◌<◌, ◌==◌, ◌≡◌, ◌⊎◌, inl, inr, refl, ap, ◌∙◌, subst, [], ◌∷◌, length, none, some,
  Option-cases, Bool-cases, arith,
}
use roto.Typechecker.{ResolvedName}
use roto.Typechecker.TypeCycle.{get}
use roto.Typechecker.TypeCycle.Acyclic.{get_head}
use roto.Typechecker.ValueCycle.{
  RefGraph, VertexState, State, done, and_then, targets, begin, pop_until, pop_component, close,
  strongly_connect, visit_key, visit_keys, tarjan, new,
}
use roto.Typechecker.ValueCycle.Stack.{
  Member, Visited, Placed, Closed, Inv, Member-right, fresh_get,
}
use roto.Typechecker.ValueCycle.Order.{start_Working, strongly_connect-Connects}
use roto.Typechecker.ValueCycle.Rounds.{each_lem}
use roto.Typechecker.ValueCycle.Unvisited.{
  each-Returns, names, Keeps, unvisited-lt, unvisited-length, Returns, targets-names, Ends,
}

close-Returns :
    (st : State) (v : ResolvedName) → Visited st v → Returns (close st v (get st.vertices v))
close-Returns st v (s, e) = elim (Bool-cases (s.index == s.lowlink)) [
  | inl same ↦ (pop_component st (pop_until v st.stack), ap (close st v) e ∙ rw same refl)
  | inr differs ↦ (st, ap (close st v) e ∙ rw differs refl)
]

strongly_connect-Ends :
    (fuel : ℕ) (edges : RefGraph) → Ends edges fuel (strongly_connect fuel edges)
unfolding strongly_connect
strongly_connect-Ends zero edges st v inv absent m bound = absurd (omega arith)
strongly_connect-Ends (suc fuel) edges st v inv absent m bound =
    let s₀ : VertexState = record { index = st.next_index; lowlink = st.next_index } in
    let start = start_Working edges st v inv absent in
    let keeps : Keeps st (begin st v) = λ x (s, e). (s, fresh_get st v s₀ absent x s e) in
    let less =
      unvisited-lt st (begin st v) v (names edges) keeps m absent (s₀, get_head v s₀ st.vertices) in
    let (st₁, loop) =
      each-Returns edges fuel (strongly_connect-Ends fuel edges) st inv v absent (begin st v) s₀
        start (targets edges v) (λ x. targets-names edges v x) (omega arith) in
    let (s, w, leads, _) =
      each_lem edges (strongly_connect fuel edges) (strongly_connect-Connects fuel edges) st inv v
        absent (begin st v) s₀ start (targets edges v) st₁ loop in
    let (st', last) = close-Returns st₁ v (s, w.found) in
    (st', ap (λ o. and_then o (λ st'. close st' v (get st'.vertices v))) loop ∙ last)

new-Inv : (edges : RefGraph) → Inv edges new
unfolding get
new-Inv edges = record {
  on_stack = λ x m. absurd m;
  located = λ x (s, e). let bad : none ≡ some s = e in cc;
  decreasing = tt;
  bounded = λ x s e. let bad : none ≡ some s = e in cc;
  low_le = λ x s e. let bad : none ≡ some s = e in cc;
  closed = λ i c x w at m mw. cc;
}

abbrev pub IsKey : RefGraph → ResolvedName → Type 0
IsKey [] x = ⊥
IsKey ((v, ws) ∷ es) x = (v ≡ x) ⊎ IsKey es x

-- What the loop over the keys ends with: an empty stack, and each key in a component.
record Finished (edges : RefGraph) (st : State) (es : RefGraph) (st' : State) : Type 0 where
  inv : Inv edges st'
  empty : st'.stack ≡ []
  placed : (x : ResolvedName) → Placed st.components x → Placed st'.components x
  keys : (x : ResolvedName) → IsKey es x → Placed st'.components x

-- A vertex that is visited while the stack is empty is popped.
key_lem :
    (fuel : ℕ) (edges : RefGraph) (st : State) (v : ResolvedName)
    → Inv edges st
    → st.stack ≡ []
    → Member v (names edges)
    → length (names edges) < fuel
    → (st' : State) × (visit_key fuel edges st v (get st.vertices v) ≡ done st')
      × Finished edges st ((v, []) ∷ []) st'
key_lem fuel edges st v inv empty m bound = elim (Option-cases (get st.vertices v)) [
  | inl e ↦
      let (st', called) =
        strongly_connect-Ends fuel edges st v inv e m
          (omega (arith, unvisited-length st (names edges))) in
      let c = strongly_connect-Connects fuel edges st v st' inv e called in
      elim c.ends [
        | inl (stack, placed, _) ↦ (
          st',
          ap (visit_key fuel edges st v) e ∙ called,
          record {
            inv = c.inv;
            empty = stack ∙ empty;
            placed = c.placed;
            keys = λ x k. elim k [
              | inl same ↦ subst (Placed st'.components) same placed
              | inr none_left ↦ absurd none_left
            ];
          },
        )
        | inr (above, stack, frontier, (y, my, le)) ↦ absurd (subst (Member y) empty my)
      ]
  | inr (s, e) ↦ (
    st,
    ap (visit_key fuel edges st v) e,
    record {
      inv = inv;
      empty = empty;
      placed = λ x p. p;
      keys = λ x k. elim k [
        | inl same ↦ subst (Placed st.components) same (elim (inv.located v (s, e)) [
          | inl on ↦ absurd (subst (Member v) empty on)
          | inr p ↦ p
        ])
        | inr none_left ↦ absurd none_left
      ];
    },
  )
]

keys_lem :
    (fuel : ℕ) (edges : RefGraph) (st : State) (es : RefGraph)
    → Inv edges st
    → st.stack ≡ []
    → ((x : ResolvedName) → IsKey es x → Member x (names edges))
    → length (names edges) < fuel
    → (st' : State) × (visit_keys fuel edges st es ≡ done st') × Finished edges st es st'
unfolding visit_keys
keys_lem fuel edges st [] inv empty known bound =
    (st, refl, record { inv = inv; empty = empty; placed = λ x p. p; keys = λ x k. absurd k })
keys_lem fuel edges st ((v, ws) ∷ es) inv empty known bound =
    let (st₁, one, f) = key_lem fuel edges st v inv empty (known v (inl refl)) bound in
    let (st', rest, f') = keys_lem fuel edges st₁ es f.inv f.empty (λ x k. known x (inr k)) bound in
    (
      st',
      ap (λ o. and_then o (λ st'. visit_keys fuel edges st' es)) one ∙ rest,
      record {
        inv = f'.inv;
        empty = f'.empty;
        placed = λ x p. f'.placed x (f.placed x p);
        keys =
            λ x k. elim k [ inl same ↦ f'.placed x (f.keys x (inl same)) | inr k' ↦ f'.keys x k' ];
      },
    )

pub IsKey-names : (edges : RefGraph) (x : ResolvedName) → IsKey edges x → Member x (names edges)
IsKey-names [] x k = k
IsKey-names ((v, ws) ∷ es) x (inl same) = inl same
IsKey-names ((v, ws) ∷ es) x (inr k) = inr (Member-right x ws (names es) (IsKey-names es x k))

-- Tarjan's algorithm ends for every graph, with fuel of one more than there are names in it, and
-- without a panic. Each key of the graph then stands in a component, and so does what a vertex of
-- a component refers to: in that component or in an earlier one.
pub tarjan_lem :
    (edges : RefGraph)
    → (st : State) × (tarjan (suc (length (names edges))) edges ≡ done st)
      × ((v : ResolvedName) → IsKey edges v → Placed st.components v)
      × Closed edges st.components
unfolding tarjan
tarjan_lem edges =
    let (st, run, f) =
      keys_lem (suc (length (names edges))) edges new edges (new-Inv edges) refl (IsKey-names edges)
        (omega arith) in
    (st, run, f.keys, f.inv.closed)
