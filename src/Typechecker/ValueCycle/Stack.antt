-- ===== src/Typechecker/ValueCycle/Stack.antt =====
-- src/typechecker/value_cycle.rs: the invariant of Tarjan's algorithm, and the changes of a state
-- that keep it.
use roto.Prelude.{
  ℕ, ◌<◌, ◌≤◌, min, true, ◌≡◌, ◌⊎◌, inl, inr, refl, sym, ap, ◌∙◌, subst, List, [], ◌∷◌, ◌++◌,
  get_elem?, Option, none, some, some_inj, Bool-cases, arith,
}
use roto.Typechecker.{ResolvedName}
use roto.Typechecker.Scope.{name_eq}
use roto.Typechecker.Types.Equal.{name_eq→≡}
use roto.Typechecker.TypeCycle.{get}
use roto.Typechecker.TypeCycle.Acyclic.{get_head, get_cons}
use roto.Typechecker.TypeCycle.Marks.{name_eq_self}
use roto.Typechecker.ValueCycle.{RefGraph, VertexState, State, contains, targets, set_vertex, begin}

abbrev pub Member : ResolvedName → List ResolvedName → Type 0
Member x [] = ⊥
Member x (y ∷ ys) = (y ≡ x) ⊎ Member x ys

abbrev pub Visited : State → ResolvedName → Type 0
Visited st x = (s : VertexState) × (get st.vertices x ≡ some s)

abbrev pub index_in : Option VertexState → ℕ
index_in none = 0
index_in (some s) = s.index

abbrev low_in : Option VertexState → ℕ
low_in none = 0
low_in (some s) = s.lowlink

abbrev pub index_of : State → ResolvedName → ℕ
index_of st x = index_in (get st.vertices x)

-- The vertex stands in a component.
abbrev pub Placed : List (List ResolvedName) → ResolvedName → Type 0
Placed cs x = (i : ℕ) × (c : List ResolvedName) × (get_elem? cs i ≡ some c) × Member x c

-- The references of a component lead to the component itself or to earlier ones.
abbrev pub Closed : RefGraph → List (List ResolvedName) → Type 0
Closed edges cs =
    (i : ℕ) (c : List ResolvedName) (x w : ResolvedName)
    → get_elem? cs i ≡ some c
    → Member x c
    → Member w (targets edges x)
    → (j : ℕ) × (c' : List ResolvedName) × (j ≤ i) × (get_elem? cs j ≡ some c') × Member w c'

-- The indices on the stack decrease from its top.
abbrev pub Decreasing : State → List ResolvedName → Type 0
Decreasing st [] = Unit
Decreasing st (x ∷ l) =
    ((y : ResolvedName) → Member y l → index_of st y < index_of st x) × Decreasing st l

pub record Inv (edges : RefGraph) (st : State) : Type 0 where
  pub on_stack : (x : ResolvedName) → Member x st.stack → Visited st x
  pub located : (x : ResolvedName) → Visited st x → Member x st.stack ⊎ Placed st.components x
  pub decreasing : Decreasing st st.stack
  pub bounded :
      (x : ResolvedName) (s : VertexState) → get st.vertices x ≡ some s → s.index < st.next_index
  pub low_le :
      (x : ResolvedName) (s : VertexState) → get st.vertices x ≡ some s → s.lowlink ≤ s.index
  pub closed : Closed edges st.components

pub Member-append :
    (x : ResolvedName) (xs ys : List ResolvedName) → Member x (xs ++ ys) → Member x xs ⊎ Member x ys
Member-append x [] ys m = inr m
Member-append x (z ∷ xs) ys (inl same) = inl (inl same)
Member-append x (z ∷ xs) ys (inr m) = elim (Member-append x xs ys m) [
  | inl l ↦ inl (inr l)
  | inr r ↦ inr r
]

pub Member-left : (x : ResolvedName) (xs ys : List ResolvedName) → Member x xs → Member x (xs ++ ys)
Member-left x [] ys m = absurd m
Member-left x (z ∷ xs) ys (inl same) = inl same
Member-left x (z ∷ xs) ys (inr m) = inr (Member-left x xs ys m)

pub Member-right :
    (x : ResolvedName) (xs ys : List ResolvedName) → Member x ys → Member x (xs ++ ys)
Member-right x [] ys m = m
Member-right x (z ∷ xs) ys m = inr (Member-right x xs ys m)

pub contains-Member : (l : List ResolvedName) (x : ResolvedName) → contains l x ≡ true → Member x l
contains-Member [] x h = cc
contains-Member (y ∷ l) x h = elim (Bool-cases (name_eq y x)) [
  | inl same ↦ inl (name_eq→≡ y x same)
  | inr other ↦ inr (contains-Member l x (rw other at h))
]

pub Member-contains : (l : List ResolvedName) (x : ResolvedName) → Member x l → contains l x ≡ true
Member-contains [] x m = absurd m
Member-contains (y ∷ l) x (inl same) =
    rw (subst (λ z. name_eq y z ≡ true) same (name_eq_self y)) refl
Member-contains (y ∷ l) x (inr m) = elim (Bool-cases (name_eq y x)) [
  | inl same ↦ rw same refl
  | inr other ↦ rw other (Member-contains l x m)
]

Decreasing-same :
    (st st' : State) (l : List ResolvedName)
    → ((x : ResolvedName) → Member x l → index_of st' x ≡ index_of st x)
    → Decreasing st l
    → Decreasing st' l
Decreasing-same st st' [] h d = tt
Decreasing-same st st' (x ∷ l) h (less, d) = (
  λ y m. rw (h y (inr m), h x (inl refl)) (less y m),
  Decreasing-same st st' l (λ y m. h y (inr m)) d,
)

-- A vertex that is not yet visited.
module _ (st : State) (v : ResolvedName) (s₀ : VertexState) (new : get st.vertices v ≡ none) where
  pub fresh_get :
      (x : ResolvedName) (s : VertexState)
      → get st.vertices x ≡ some s
      → get ((v, s₀) ∷ st.vertices) x ≡ some s
  fresh_get x s h = elim (get_cons v s₀ st.vertices x) [
    | inl (same, e) ↦
        let bad : none ≡ some s = sym (subst (λ y. get st.vertices y ≡ none) same new) ∙ h in cc
    | inr e ↦ e ∙ h
  ]

pub begin-Inv :
    (edges : RefGraph) (st : State) (v : ResolvedName)
    → Inv edges st
    → get st.vertices v ≡ none
    → Inv edges (begin st v)
begin-Inv edges st v h new =
    let s₀ : VertexState = record { index = st.next_index; lowlink = st.next_index } in
    let head = get_head v s₀ st.vertices in
    record {
      on_stack = λ x m. elim m [
        | inl same ↦ (s₀, subst (λ y. get ((v, s₀) ∷ st.vertices) y ≡ some s₀) same head)
        | inr m' ↦ let (s, e) = h.on_stack x m' in (s, fresh_get st v s₀ new x s e)
      ];
      located = λ x (s, e). elim (get_cons v s₀ st.vertices x) [
        | inl (same, _) ↦ inl (inl same)
        | inr e' ↦ elim (h.located x (s, sym e' ∙ e)) [ inl m ↦ inl (inr m) | inr p ↦ inr p ]
      ];
      decreasing = (
        λ y m.
            let (s, e) = h.on_stack y m in
            omega
              (arith, ap index_in head, ap index_in (fresh_get st v s₀ new y s e), h.bounded y s e),
        Decreasing-same st (begin st v) st.stack
            (λ x m.
              let (s, e) = h.on_stack x m in
              ap index_in (fresh_get st v s₀ new x s e) ∙ sym (ap index_in e))
            h.decreasing,
      );
      bounded = λ x s e. elim (get_cons v s₀ st.vertices x) [
        | inl (same, e') ↦
            let q : s₀ ≡ s = some_inj (sym e' ∙ e) in omega (arith, ap (λ r. r.index) q)
        | inr e' ↦ omega (arith, h.bounded x s (sym e' ∙ e))
      ];
      low_le = λ x s e. elim (get_cons v s₀ st.vertices x) [
        | inl (same, e') ↦
            let q : s₀ ≡ s = some_inj (sym e' ∙ e) in
            omega (arith, ap (λ r. r.index) q, ap (λ r. r.lowlink) q)
        | inr e' ↦ h.low_le x s (sym e' ∙ e)
      ];
      closed = h.closed;
    }

-- A visited vertex whose lowlink is lowered.
module _ (st : State) (v : ResolvedName) (s : VertexState) (n : ℕ)
    (at : get st.vertices v ≡ some s) where
  abbrev pub lowered : VertexState
  lowered = record s { lowlink = min s.lowlink n }

  set_get :
      (x : ResolvedName) (t : VertexState)
      → get st.vertices x ≡ some t
      → (t' : VertexState) × (get ((v, lowered) ∷ st.vertices) x ≡ some t') × (t'.index ≡ t.index)
  set_get x t e = elim (get_cons v lowered st.vertices x) [
    | inl (same, e') ↦
        let q : s ≡ t = some_inj (sym at ∙ ap (get st.vertices) same ∙ e) in
        (lowered, e', ap (λ r. r.index) q)
    | inr e' ↦ (t, e' ∙ e, refl)
  ]

  pub set_index :
      (x : ResolvedName) → Visited st x → index_of (set_vertex st v lowered) x ≡ index_of st x
  set_index x (t, e) =
      let (t', e', same) = set_get x t e in ap index_in e' ∙ same ∙ sym (ap index_in e)

  pub set-Inv : (edges : RefGraph) → Inv edges st → Inv edges (set_vertex st v lowered)
  set-Inv edges h = record {
    on_stack = λ x m. let (t, e) = h.on_stack x m in let (t', e', same) = set_get x t e in (t', e');
    located = λ x (t, e). elim (get_cons v lowered st.vertices x) [
      | inl (same, _) ↦ h.located x (s, subst (λ y. get st.vertices y ≡ some s) same at)
      | inr e' ↦ h.located x (t, sym e' ∙ e)
    ];
    decreasing =
        Decreasing-same st (set_vertex st v lowered) st.stack (λ x m. set_index x (h.on_stack x m))
          h.decreasing;
    bounded = λ x t e. elim (get_cons v lowered st.vertices x) [
      | inl (same, e') ↦
          let q : lowered ≡ t = some_inj (sym e' ∙ e) in
          omega (arith, ap (λ r. r.index) q, h.bounded v s at)
      | inr e' ↦ h.bounded x t (sym e' ∙ e)
    ];
    low_le = λ x t e. elim (get_cons v lowered st.vertices x) [
      | inl (same, e') ↦
          let q : lowered ≡ t = some_inj (sym e' ∙ e) in
          omega (arith, ap (λ r. r.index) q, ap (λ r. r.lowlink) q, h.low_le v s at)
      | inr e' ↦ h.low_le x t (sym e' ∙ e)
    ];
    closed = h.closed;
  }
