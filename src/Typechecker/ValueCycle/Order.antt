-- ===== src/Typechecker/ValueCycle/Order.antt =====
-- src/typechecker/value_cycle.rs, `strongly_connect` and `tarjan`: the order of the components.
use roto.Prelude.{
  ℕ, zero, suc, ◌==◌, ◌≡◌, ◌≢◌, ◌⊎◌, inl, inr, refl, sym, ap, ◌∙◌, subst, List, [], ◌∷◌, ◌++◌,
  length, get_elem?, none, some, some_inj, Bool-cases, arith, get_elem?-append_left, get_elem?-lt,
  get_elem?-append_end, ==→≡, ==→≢,
}
use roto.Typechecker.{ResolvedName}
use roto.Typechecker.Scope.{name_eq}
use roto.Typechecker.Types.Equal.{name_eq→≡}
use roto.Typechecker.TypeCycle.{get}
use roto.Typechecker.TypeCycle.Acyclic.{get_head}
use roto.Typechecker.TypeCycle.Marks.{name_eq_self}
use roto.Typechecker.ValueCycle.{
  RefGraph, VertexState, State, done, targets, begin, connect_each, pop_until, pop_component, close,
  strongly_connect,
}
use roto.Typechecker.ValueCycle.Stack.{
  Member, index_in, index_of, Placed, Closed, Decreasing, Inv, Member-append, Member-left,
  Member-right, fresh_get, begin-Inv,
}
use roto.Typechecker.ValueCycle.Connect.{Decreasing-split, Leads, Frontier, Connected, Working}
use roto.Typechecker.ValueCycle.Loop.{and_then-done, done_inj, Connects}
use roto.Typechecker.ValueCycle.Rounds.{each_lem}

-- The loop pops the vertices above the vertex, and the vertex.
pop_until_lem :
    (v : ResolvedName) (above rest : List ResolvedName)
    → ((x : ResolvedName) → Member x above → x ≢ v)
    → pop_until v (above ++ v ∷ rest) ≡ (above ++ v ∷ [], rest)
unfolding pop_until
pop_until_lem v [] rest h = rw (pop_until, name_eq_self v) refl
pop_until_lem v (x ∷ above) rest h = elim (Bool-cases (name_eq x v)) [
  | inl same ↦ absurd (h x (inl refl) (name_eq→≡ x v same))
  | inr other ↦ rw (pop_until, other, pop_until_lem v above rest (λ y m. h y (inr m))) refl
]

append-cases :
    (cs : List (List ResolvedName)) (c : List ResolvedName) (i : ℕ) {d : List ResolvedName}
    → get_elem? (cs ++ c ∷ []) i ≡ some d
    → (get_elem? cs i ≡ some d) ⊎ ((i ≡ length cs) × (d ≡ c))
append-cases [] c zero h = inr (refl, sym (some_inj h))
append-cases [] c (suc i) h = cc
append-cases (x ∷ cs) c zero h = inl h
append-cases (x ∷ cs) c (suc i) h = elim (append-cases cs c i h) [
  | inl old ↦ inl old
  | inr (at, same) ↦ inr (ap suc at, same)
]

-- A component at the end, whose references lead to it or to earlier ones.
Closed-append :
    (edges : RefGraph) (cs : List (List ResolvedName)) (c : List ResolvedName)
    → Closed edges cs
    → ((x w : ResolvedName) → Member x c → Member w (targets edges x) → Placed cs w ⊎ Member w c)
    → Closed edges (cs ++ c ∷ [])
Closed-append edges cs c closed h i c' x w at mx mw = elim (append-cases cs c i at) [
  | inl old ↦
      let (j, d, le, at', m) = closed i c' x w old mx mw in
      (j, d, le, get_elem?-append_left cs (c ∷ []) j (get_elem?-lt cs j at') ∙ at', m)
  | inr (last, same) ↦ elim (h x w (subst (Member x) same mx) mw) [
    | inl (j, d, at', m) ↦
        let lt = get_elem?-lt cs j at' in
        (j, d, omega arith, get_elem?-append_left cs (c ∷ []) j lt ∙ at', m)
    | inr m ↦ (length cs, c, omega arith, get_elem?-append_end cs c (length cs) refl, m)
  ]
]

module _ (edges : RefGraph) (st₀ : State) (v : ResolvedName) (st : State) (s : VertexState)
    (w : Working edges st₀ v st s)
    (leads : (x : ResolvedName) → Member x (targets edges v) → Leads st s.lowlink x) where
  whole : Frontier edges st s.lowlink (w.above ++ v ∷ [])
  whole x y m my = elim (Member-append x w.above (v ∷ []) m) [
    | inl up ↦ w.frontier x y up my
    | inr (inl same) ↦ leads y (subst (λ z. Member y (targets edges z)) (sym same) my)
    | inr (inr none_left) ↦ absurd none_left
  ]

  -- The vertex is left on the stack.
  left : s.lowlink ≢ s.index → Connected edges st₀ v st
  left differs = record {
    inv = w.inv;
    kept = w.kept;
    placed = w.placed;
    state = s;
    found = w.found;
    fresh_index = w.fresh_index;
    ends = inr (
      w.above,
      w.stack,
      whole,
      elim w.bottom [
        | inl le ↦ absurd (differs (omega (arith, w.inv.low_le v s w.found)))
        | inr y ↦ y
      ],
    );
  }

  abbrev component : List ResolvedName
  component = w.above ++ v ∷ []

  abbrev popped_state : State
  popped_state = pop_component st (component, st₀.stack)

  split_stack : (x : ResolvedName) → Member x st.stack → Member x component ⊎ Member x st₀.stack
  split_stack x m = elim (Member-append x w.above (v ∷ st₀.stack) (subst (Member x) w.stack m)) [
    | inl up ↦ inl (Member-left x w.above (v ∷ []) up)
    | inr (inl same) ↦ inl (Member-right x w.above (v ∷ []) (inl same))
    | inr (inr down) ↦ inr down
  ]

  Placed-last : (x : ResolvedName) → Member x component → Placed popped_state.components x
  Placed-last x m = (
    length st.components,
    component,
    get_elem?-append_end st.components component (length st.components) refl,
    m,
  )

  Placed-earlier : (x : ResolvedName) → Placed st.components x → Placed popped_state.components x
  Placed-earlier x (i, c, at, m) = (
    i,
    c,
    get_elem?-append_left st.components (component ∷ []) i (get_elem?-lt st.components i at) ∙ at,
    m,
  )

  -- The vertex is popped, with all that lies above it.
  popped : s.lowlink ≡ s.index → Connected edges st₀ v popped_state
  popped equal =
      let at_v : index_of st v ≡ s.index = ap index_in w.found in
      let (larger, smaller, d) =
        Decreasing-split st w.above v st₀.stack (subst (Decreasing st) w.stack w.inv.decreasing) in
      record {
        inv = record {
          on_stack = λ x m.
              w.inv.on_stack x
                (subst (Member x) (sym w.stack) (Member-right x w.above (v ∷ st₀.stack) (inr m)));
          located = λ x visited. elim (w.inv.located x visited) [
            | inl m ↦ elim (split_stack x m) [ inl c ↦ inr (Placed-last x c) | inr down ↦ inl down ]
            | inr p ↦ inr (Placed-earlier x p)
          ];
          decreasing = d;
          bounded = w.inv.bounded;
          low_le = w.inv.low_le;
          closed = Closed-append edges st.components component w.inv.closed (λ x y m my.
              elim (whole x y m my) [
                | inl p ↦ inl p
                | inr (on, le) ↦ elim (split_stack y on) [
                  | inl c ↦ inr c
                  | inr down ↦ absurd (omega (arith, smaller y down))
                ]
              ]);
        };
        kept = w.kept;
        placed = λ x p. Placed-earlier x (w.placed x p);
        state = s;
        found = w.found;
        fresh_index = w.fresh_index;
        ends = inl (refl, Placed-last v (Member-right v w.above (v ∷ []) (inl refl)), sym equal);
      }

  close_lem : (st' : State) → close st v (get st.vertices v) ≡ done st' → Connected edges st₀ v st'
  close_lem st' h =
      let h' = subst (λ o. close st v o ≡ done st') w.found h in
      elim (Bool-cases (s.index == s.lowlink)) [
        | inl same ↦
            let equal = ==→≡ s.index s.lowlink same in
            let at_v : index_of st v ≡ s.index = ap index_in w.found in
            let (larger, smaller, d) =
              Decreasing-split st w.above v st₀.stack
                (subst (Decreasing st) w.stack w.inv.decreasing) in
            let split : pop_until v st.stack ≡ (component, st₀.stack) =
              ap (pop_until v) w.stack
              ∙ pop_until_lem v w.above st₀.stack
                  (λ x m q. let less = larger x m in omega (arith, ap (index_of st) q)) in
            let out : done (pop_component st (pop_until v st.stack)) ≡ done st' = (rw same at h') in
            subst (Connected edges st₀ v)
              (done_inj (ap (λ r. done (pop_component st r)) (sym split) ∙ out))
              (popped (sym equal))
        | inr differs ↦
            let out : done st ≡ done st' = (rw differs at h') in
            subst (Connected edges st₀ v) (done_inj out)
              (left (λ q. ==→≢ s.index s.lowlink differs (sym q)))
      ]

-- Before the loop, the vertex alone is new.
pub start_Working :
    (edges : RefGraph) (st : State) (v : ResolvedName)
    → Inv edges st
    → get st.vertices v ≡ none
    → Working edges st v (begin st v) (record { index = st.next_index; lowlink = st.next_index })
start_Working edges st v inv new =
    let s₀ : VertexState = record { index = st.next_index; lowlink = st.next_index } in
    record {
      inv = begin-Inv edges st v inv new;
      kept = fresh_get st v s₀ new;
      placed = λ x p. p;
      found = get_head v s₀ st.vertices;
      fresh_index = omega arith;
      above = [];
      stack = refl;
      frontier = λ x w m mw. absurd m;
      bottom = inl (omega arith);
    }

pub strongly_connect-Connects :
    (fuel : ℕ) (edges : RefGraph) → Connects edges (strongly_connect fuel edges)
unfolding strongly_connect
strongly_connect-Connects zero edges st v st' inv new h = cc
strongly_connect-Connects (suc fuel) edges st v st' inv new h =
    let (st₁, loop, last) =
      and_then-done (connect_each (strongly_connect fuel edges) v (begin st v) (targets edges v)) _
        h in
    let s₀ : VertexState = record { index = st.next_index; lowlink = st.next_index } in
    let start = start_Working edges st v inv new in
    let (s, w, leads, _) =
      each_lem edges (strongly_connect fuel edges) (strongly_connect-Connects fuel edges) st inv v
        new (begin st v) s₀ start (targets edges v) st₁ loop in
    close_lem edges st v st₁ s w leads st' last
