-- ===== src/Typechecker/ValueCycle/Loop.antt =====
-- src/typechecker/value_cycle.rs, `strongly_connect`: the loop over the references of a vertex.
use roto.Prelude.{
  ℕ, ◌≤◌, min, true, false, ◌≡◌, ◌⊎◌, inl, inr, refl, sym, ap, ◌∙◌, leb, subst, List, [], ◌∷◌, ◌++◌,
  none, some, Bool-cases, arith, if◌then◌else◌,
}
use roto.Typechecker.{ResolvedName}
use roto.Typechecker.TypeCycle.{get}
use roto.Typechecker.ValueCycle.{
  RefGraph, VertexState, State, Outcome, done, panicked, out_of_fuel, and_then, contains,
  set_vertex, lower, lower_to, update_lowlink,
}
use roto.Typechecker.ValueCycle.Stack.{
  Member, index_in, index_of, Placed, Inv, Member-append, Member-left, Member-right,
  contains-Member, Member-contains, lowered, set_index,
}
use roto.Typechecker.ValueCycle.Connect.{
  Leads, Frontier, Grows, Leads-Grows, Connected, Working, append_assoc, bottom_of, lower_lem,
}

pub and_then-done :
    (o : Outcome) (f : State → Outcome) {st : State}
    → and_then o f ≡ done st
    → (st' : State) × (o ≡ done st') × (f st' ≡ done st)
and_then-done (done st') f h = (st', refl, h)
and_then-done panicked f h = cc
and_then-done out_of_fuel f h = cc

pub done_inj : {st st' : State} → done st ≡ done st' → st ≡ st'
done_inj h = cc

-- What the recursive call is known to do.
abbrev pub Connects : RefGraph → (State → ResolvedName → Outcome) → Type 0
Connects edges u =
    (st : State) (w : ResolvedName) (st' : State)
    → Inv edges st
    → get st.vertices w ≡ none
    → u st w ≡ done st'
    → Connected edges st w st'

weaken : (st : State) (b b' : ℕ) (z : ResolvedName) → b' ≤ b → Leads st b z → Leads st b' z
weaken st b b' z le (inl p) = inl p
weaken st b b' z le (inr (m, low)) = inr (m, omega arith)

module _ (edges : RefGraph) (st₀ : State) (inv₀ : Inv edges st₀) (v : ResolvedName)
    (new : get st₀.vertices v ≡ none) where
  -- Of two lowlinks that come from the stack below `v`, or are not below its index, so does the
  -- smaller.
  min-bottom :
      (i l n : ℕ)
      → st₀.next_index ≤ i
      → l ≤ i
      → (i ≤ l) ⊎ ((y : ResolvedName) × Member y st₀.stack × (index_of st₀ y ≤ l))
      → (i ≤ n) ⊎ ((y : ResolvedName) × Member y st₀.stack × (index_of st₀ y ≤ n))
      → (i ≤ min l n) ⊎ ((y : ResolvedName) × Member y st₀.stack × (index_of st₀ y ≤ min l n))
  min-bottom i l n fresh le (inl a) (inl b) = inl (omega arith)
  min-bottom i l n fresh le (inl a) (inr (z, m, b)) =
      let (t, e) = inv₀.on_stack z m in inr (z, m, omega (arith, ap index_in e, inv₀.bounded z t e))
  min-bottom i l n fresh le (inr (y, m, a)) (inl b) = inr (y, m, omega arith)
  min-bottom i l n fresh le (inr (y, m, a)) (inr (z, m', b)) = elim (Bool-cases (leb l n)) [
    | inl small ↦ inr (y, m, ground arith)
    | inr large ↦ inr (z, m', ground arith)
  ]

  -- A round of the loop: `v` is where it was, and the reference leads where it may.
  pub record Round (st : State) (s : VertexState) (x : ResolvedName) (st' : State) : Type 0 where
    pub state : VertexState
    pub working : Working edges st₀ v st' state
    pub leads : Leads st' state.lowlink x
    pub earlier : (y : ResolvedName) → Leads st s.lowlink y → Leads st' state.lowlink y

  -- The lowlink is lowered, in a state in which more vertices may lie above `v`.
  lowered-Round :
      (st : State) (s : VertexState) (w : Working edges st₀ v st s) (x : ResolvedName) (st₂ : State)
      (n : ℕ) (above : List ResolvedName) (st' : State)
      → Inv edges st₂
      → ((y : ResolvedName) (t : VertexState)
          → get st.vertices y ≡ some t
          → get st₂.vertices y ≡ some t)
      → Grows st st₂
      → st₂.stack ≡ above ++ v ∷ st₀.stack
      → Frontier edges st₂ (min s.lowlink n) above
      → (s.index ≤ n) ⊎ ((z : ResolvedName) × Member z st₀.stack × (index_of st₀ z ≤ n))
      → Leads st₂ (min s.lowlink n) x
      → update_lowlink st₂ v n ≡ done st'
      → Round st s x st'
  lowered-Round st s w x st₂ n above st' inv kept g stack frontier bottom leads h =
      let found = kept v s w.found in
      let out : done (set_vertex st₂ v (lowered st₂ v s n found)) ≡ done st' =
        sym (ap (lower st₂ v n) found) ∙ h in
      let st₁ = set_vertex st₂ v (lowered st₂ v s n found) in
      let g₁ : Grows st₂ st₁ = record {
        index = set_index st₂ v s n found;
        placed = λ y p. p;
        stays = λ y m. m;
      } in
      subst (Round st s x) (done_inj out) (record {
        state = lowered st₂ v s n found;
        working =
            lower_lem edges st₀ v st₂ s n above inv (λ y t e. kept y t (w.kept y t e))
              (λ y p. g.placed y (w.placed y p)) new found w.fresh_index stack frontier
              (min-bottom s.index s.lowlink n w.fresh_index (w.inv.low_le v s w.found) w.bottom
                bottom);
        leads =
            Leads-Grows {edges = edges} st₂ st₁ (min s.lowlink n) (min s.lowlink n) x inv g₁
              (omega arith) leads;
        earlier = λ y l.
            Leads-Grows {edges = edges} st₂ st₁ (min s.lowlink n) (min s.lowlink n) y inv g₁
              (omega arith)
              (Leads-Grows {edges = edges} st st₂ s.lowlink (min s.lowlink n) y w.inv g
                (omega arith) l);
      })

  itself : (st : State) → Grows st st
  itself st = record { index = λ x h. refl; placed = λ x p. p; stays = λ x m. m }

  -- A reference to a vertex that was visited before.
  pub visited-Round :
      (st : State) (s : VertexState) (w : Working edges st₀ v st s) (x : ResolvedName)
      (t : VertexState) (st' : State)
      → get st.vertices x ≡ some t
      → (if contains st.stack x then update_lowlink st v t.index else done st) ≡ done st'
      → Round st s x st'
  visited-Round st s w x t st' e h = elim (Bool-cases (contains st.stack x)) [
    | inl on ↦
        let m = contains-Member st.stack x on in
        let at_x : index_of st x ≡ t.index = ap index_in e in
        lowered-Round st s w x st t.index w.above st' w.inv (λ y t e. e) (itself st) w.stack
          (λ y z my mz.
            Leads-Grows {edges = edges} st st s.lowlink (min s.lowlink t.index) z w.inv (itself st)
              (omega arith) (w.frontier y z my mz))
          (bottom_of edges st₀ v st s w inv₀ x t.index m (omega arith)) (inr (m, omega arith))
          (rw on at h)
    | inr off ↦
        let same : done st ≡ done st' = (rw off at h) in
        let placed : Placed st.components x = elim (w.inv.located x (t, e)) [
          | inl m ↦ let bad : true ≡ false = sym (Member-contains st.stack x m) ∙ off in cc
          | inr p ↦ p
        ] in
        subst (Round st s x) (done_inj same)
          (record { state = s; working = w; leads = inl placed; earlier = λ y l. l })
  ]

  -- A reference to a vertex that is visited now.
  pub connected-Round :
      (st : State) (s : VertexState) (w : Working edges st₀ v st s) (x : ResolvedName)
      (st₂ st' : State)
      → Connected edges st x st₂
      → lower_to st₂ v (get st₂.vertices x) ≡ done st'
      → Round st s x st'
  connected-Round st s w x st₂ st' c h =
      let n = c.state.lowlink in
      let at_x : index_of st₂ x ≡ c.state.index = ap index_in c.found in
      let low = c.inv.low_le x c.state c.found in
      let old = w.inv.bounded v s w.found in
      let h' : update_lowlink st₂ v n ≡ done st' = sym (ap (lower_to st₂ v) c.found) ∙ h in
      elim c.ends [
        | inl (stack, placed, popped) ↦
            let g : Grows st st₂ = record {
              index = λ y (t, e). ap index_in (c.kept y t e) ∙ sym (ap index_in e);
              placed = c.placed;
              stays = λ y m. subst (Member y) (sym stack) m;
            } in
            lowered-Round st s w x st₂ n w.above st' c.inv c.kept g (stack ∙ w.stack)
              (λ y z my mz.
                Leads-Grows {edges = edges} st st₂ s.lowlink (min s.lowlink n) z w.inv g
                  (omega arith) (w.frontier y z my mz))
              (let fresh = c.fresh_index in inl (omega arith)) (inl placed) h'
        | inr (up, stack, frontier, (y, my, le)) ↦
            let g : Grows st st₂ = record {
              index = λ y (t, e). ap index_in (c.kept y t e) ∙ sym (ap index_in e);
              placed = c.placed;
              stays =
                  λ y m. subst (Member y) (sym stack) (Member-right y up (x ∷ st.stack) (inr m));
            } in
            let on : Member x st₂.stack =
              subst (Member x) (sym stack) (Member-right x up (x ∷ st.stack) (inl refl)) in
            lowered-Round st s w x st₂ n (up ++ x ∷ w.above) st' c.inv c.kept g
              (stack
                ∙ ap (λ l. up ++ x ∷ l) w.stack
                ∙ sym (append_assoc up (x ∷ w.above) (v ∷ st₀.stack)))
              (λ y z m mz. elim (Member-append y up (x ∷ w.above) m) [
                | inl in_up ↦
                    weaken st₂ n (min s.lowlink n) z (omega arith)
                      (frontier y z (Member-left y up (x ∷ []) in_up) mz)
                | inr (inl same) ↦
                    weaken st₂ n (min s.lowlink n) z (omega arith)
                      (frontier y z (Member-right y up (x ∷ []) (inl same)) mz)
                | inr (inr in_above) ↦
                    Leads-Grows {edges = edges} st st₂ s.lowlink (min s.lowlink n) z w.inv g
                      (omega arith) (w.frontier y z in_above mz)
              ])
              (bottom_of edges st₀ v st s w inv₀ y n my le) (inr (on, omega arith)) h'
      ]
