-- ===== src/Typechecker/ValueCycle/Compile/Before.antt =====
-- src/typechecker/value_cycle.rs, `find_compilation_order`: where a constant stands in the order.
use roto.Prelude.{
  ℕ, zero, suc, ◌<◌, ◌≡◌, ◌≢◌, inl, inr, sym, ap, ◌∙◌, subst, List, [], ◌∷◌, ◌++◌, get_elem?, some,
  some_inj, Option-cases, Bool-cases, arith, ◌==◌, ==→≡, ==→≢,
}
use roto.Typechecker.{ResolvedName}
use roto.Typechecker.Scope.{ScopeGraph, name_eq}
use roto.Typechecker.Types.Equal.{name_eq→≡}
use roto.Typechecker.TypeCycle.{get}
use roto.Typechecker.ValueCycle.{RefGraph, done, targets, or_empty}
use roto.Typechecker.ValueCycle.Stack.{
  Member, Member-left, Member-right, Placed, Closed, Member-contains,
}
use roto.Typechecker.ValueCycle.Connect.{append_assoc}
use roto.Typechecker.ValueCycle.Total.{IsKey, tarjan_lem}
use roto.Typechecker.ValueCycle.Compile.{
  passed, ordered, check_self, check_components, context_check, flatten, check_order,
  find_compilation_order,
}
use roto.Typechecker.ValueCycle.Compile.Passed.{
  IsConstant, if_passed-ordered, ordered_inj, check_self-passed, check_components-passed,
}

flatten_split :
    (cs : List (List ResolvedName)) (i : ℕ) (c : List ResolvedName) (x : ResolvedName)
    → get_elem? cs i ≡ some c
    → Member x c
    → Member x (flatten cs)
flatten_split [] i c x at m = cc
flatten_split (d ∷ cs) zero c x at m =
    Member-left x d (flatten cs) (subst (Member x) (sym (some_inj at)) m)
flatten_split (d ∷ cs) (suc i) c x at m =
    Member-right x d (flatten cs) (flatten_split cs i c x at m)

-- What precedes a name that is alone in its component
flatten_at :
    (cs : List (List ResolvedName)) (i : ℕ) (x : ResolvedName)
    → get_elem? cs i ≡ some (x ∷ [])
    → (pre : List ResolvedName) × (post : List ResolvedName) × (flatten cs ≡ pre ++ x ∷ post)
      × ((j : ℕ) (d : List ResolvedName) (w : ResolvedName)
          → get_elem? cs j ≡ some d
          → Member w d
          → j < i
          → Member w pre)
flatten_at [] i x at = cc
flatten_at (e ∷ cs) zero x at = (
  [],
  flatten cs,
  ap (λ z. z ++ flatten cs) (some_inj at),
  λ j d w at' m before. absurd (omega arith),
)
flatten_at (e ∷ cs) (suc i) x at =
    let (pre, post, split, earlier) = flatten_at cs i x at in
    (
      e ++ pre,
      post,
      ap (λ z. e ++ z) split ∙ sym (append_assoc e pre (x ∷ post)),
      λ j d w at' m before. in_first pre earlier j d w at' m before,
    )
  where
    in_first :
        (pre : List ResolvedName)
        → ((j : ℕ) (d : List ResolvedName) (w : ResolvedName)
            → get_elem? cs j ≡ some d
            → Member w d
            → j < i
            → Member w pre)
        → (j : ℕ) (d : List ResolvedName) (w : ResolvedName) → get_elem? (e ∷ cs) j ≡ some d
        → Member w d
        → j < suc i
        → Member w (e ++ pre)
    in_first pre earlier zero d w at' m before =
        Member-left w e pre (subst (Member w) (sym (some_inj at')) m)
    in_first pre earlier (suc j) d w at' m before =
        Member-right w e pre (earlier j d w at' m (omega arith))

pub get-IsKey :
    (es : RefGraph) (n : ResolvedName) (refs : List ResolvedName)
    → get es n ≡ some refs
    → IsKey es n
unfolding get
get-IsKey [] n refs at = cc
get-IsKey ((m, us) ∷ es) n refs at = elim (Bool-cases (name_eq m n)) [
  | inl same ↦ inl (name_eq→≡ m n same)
  | inr other ↦ inr (get-IsKey es n refs (rw (get, other) at at))
]

-- A reference comes from an entry of the graph.
targets-get :
    (edges : RefGraph) (c w : ResolvedName)
    → Member w (targets edges c)
    → (refs : List ResolvedName) × (get edges c ≡ some refs) × Member w refs
targets-get edges c w m = elim (Option-cases (get edges c)) [
  | inl missing ↦ absurd (subst (λ o. Member w (or_empty o)) missing m)
  | inr (refs, at) ↦ (refs, at, subst (λ o. Member w (or_empty o)) at m)
]

-- A constant does not refer to itself.
no_self_reference :
    (g : ScopeGraph) (edges : RefGraph) (c w : ResolvedName)
    → check_self g edges ≡ passed
    → IsConstant g c
    → Member w (targets edges c)
    → c ≢ w
no_self_reference g edges c w checked constant m same =
    let (refs, at, m') = targets-get edges c w m in
    let found = Member-contains refs c (subst (λ z. Member z refs) (sym same) m') in
    let missing = check_self-passed g edges c refs checked at constant in cc

-- Where the components pass the checks, what a constant refers to comes before it.
components_order :
    (g : ScopeGraph) (edges : RefGraph) (cs : List (List ResolvedName)) (c w : ResolvedName)
    → check_self g edges ≡ passed
    → check_components g cs ≡ passed
    → Closed edges cs
    → Placed cs c
    → IsConstant g c
    → Member w (targets edges c)
    → (pre : List ResolvedName) × (post : List ResolvedName) × (flatten cs ≡ pre ++ c ∷ post)
      × Member w pre
components_order g edges cs c w self checked closed (i, d, at, m) constant reference =
    let alone = check_components-passed g cs i d c checked at m constant in
    let (j, d', below, at', m') = closed i d c w at m reference in
    let (pre, post, split, earlier) = flatten_at cs i c (at ∙ ap some alone) in
    elim (Bool-cases (j == i)) [
      | inl equal_indices ↦
          let same = ==→≡ j i equal_indices in
          let d≡d' : d' ≡ d = some_inj (sym at' ∙ ap (get_elem? cs) same ∙ at) in
          elim (subst (Member w) (d≡d' ∙ alone) m') [
            | inl equal ↦ absurd (no_self_reference g edges c w self constant reference equal)
            | inr none_left ↦ absurd none_left
          ]
      | inr unequal ↦
          let differ = ==→≢ j i unequal in (pre, post, split, earlier j d' w at' m' (omega arith))
    ]

-- If the values have a compilation order, then every key of the graph of references is in it, and
-- every value that a constant refers to comes before the constant.
pub find_compilation_order_lem :
    (g : ScopeGraph) (edges : RefGraph) (order : List ResolvedName)
    → find_compilation_order g edges ≡ ordered order
    → ((v : ResolvedName) → IsKey edges v → Member v order)
      × ((c w : ResolvedName)
          → IsConstant g c
          → Member w (targets edges c)
          → (pre : List ResolvedName) × (post : List ResolvedName) × (order ≡ pre ++ c ∷ post)
            × Member w pre)
unfolding find_compilation_order
find_compilation_order_lem g edges order h =
    let (st, run, placed, closed) = tarjan_lem edges in
    let (self, h₁) = if_passed-ordered (check_self g edges) _ h in
    let h₂ : check_order g edges (done st) ≡ ordered order =
      ap (check_order g edges) (sym run) ∙ h₁ in
    let (checked, h₃) = if_passed-ordered (check_components g st.components) _ h₂ in
    let (context, h₄) = if_passed-ordered (context_check g edges) _ h₃ in
    let flat : flatten st.components ≡ order = ordered_inj h₄ in
    (
      λ v key.
          let (i, c, at, m) = placed v key in
          subst (Member v) flat (flatten_split st.components i c v at m),
      λ c w constant reference.
          let (refs, at, _) = targets-get edges c w reference in
          let (pre, post, split, earlier) =
            components_order g edges st.components c w self checked closed
              (placed c (get-IsKey edges c refs at)) constant reference in
          (pre, post, sym flat ∙ split, earlier),
    )
