-- ===== src/Typechecker/ValueCycle/Compile/Context.antt =====
-- src/typechecker/value_cycle.rs, `context_check` and `determine_uses_context`: what a constant
-- reaches. After an answer of false the visited names are closed under references.
use roto.Prelude.{
  ℕ, suc, true, false, ◌≡◌, inl, inr, refl, sym, ap, ◌∙◌, subst, List, [], ◌∷◌, length, some_inj,
  Bool-cases,
}
use roto.Typechecker.{ResolvedName}
use roto.Typechecker.Scope.{ScopeGraph}
use roto.Typechecker.TypeCycle.{get}
use roto.Typechecker.ValueCycle.{RefGraph}
use roto.Typechecker.ValueCycle.Stack.{Member}
use roto.Typechecker.ValueCycle.Total.{IsKey, tarjan_lem}
use roto.Typechecker.ValueCycle.Unvisited.{names}
use roto.Typechecker.ValueCycle.Compile.{
  Check, passed, ordered, kind_of, is_constant, Answers, Answer, returned, determine_uses_context,
  on_answer, check_each, context_check, check_self, check_components, check_order,
  find_compilation_order,
}
use roto.Typechecker.ValueCycle.Compile.Passed.{IsConstant, if_passed-ordered, by_kind-passed}
use roto.Typechecker.ValueCycle.Compile.Explored.{
  at_once, along, IsContext, Reaches, Known, Settled, Explored, Explored-refl, Explored-trans,
  Explores, determine_uses_context-Explored,
}

on_answer-passed :
    (n : ResolvedName) (rest : Answers → Check) (r : Answer)
    → on_answer n rest r ≡ passed
    → (a : Answers) × (r ≡ returned false a) × (rest a ≡ passed)
on_answer-passed n rest (returned false a) h = (a, refl, h)
on_answer-passed n rest r h = cc

-- Where the loop over the keys passes, it has visited the constants among them.
check_each-Explored :
    (fuel : ℕ) (g : ScopeGraph) (edges : RefGraph) (a : Answers) (es : RefGraph)
    → Known a
    → check_each fuel g edges a es ≡ passed
    → (a' : Answers) × Explored g edges a a'
      × ((c : ResolvedName) → IsKey es c → IsConstant g c → Member c a'.visited)
unfolding check_each Explores
check_each-Explored fuel g edges a [] known h =
    (a, Explored-refl g edges a known, λ c key constant. absurd key)
check_each-Explored fuel g edges a ((n, refs) ∷ es) known h =
    let (k, kind, tested) = by_kind-passed (kind_of g n) _ h in
    elim (Bool-cases (is_constant k)) [
      | inl constant ↦
          let asked : on_answer n (λ a'. check_each fuel g edges a' es)
                (determine_uses_context fuel g edges a n)
              ≡ passed =
            (rw constant at tested) in
          let (a₁, answered, rest) = on_answer-passed n _ _ asked in
          let (first, visited) =
            determine_uses_context-Explored fuel g edges a n a₁ known answered in
          let (a', second, others) = check_each-Explored fuel g edges a₁ es first.known rest in
          (
            a',
            Explored-trans g edges a a₁ a' first second,
            λ c key is. elim key [
              | inl same ↦ subst (λ z. Member z a'.visited) same (second.grows n visited)
              | inr key' ↦ others c key' is
            ],
          )
      | inr other ↦
          let (a', explored, others) =
            check_each-Explored fuel g edges a es known (rw other at tested) in
          (
            a',
            explored,
            λ c key is. elim key [
              | inl same ↦
                  let kinds : k ≡ is.0 = some_inj (sym kind ∙ ap (kind_of g) same ∙ is.1) in
                  let bad : false ≡ true = sym other ∙ ap is_constant kinds ∙ is.2 in cc
              | inr key' ↦ others c key' is
            ],
          )
    ]

-- What is reached from a visited name is visited, where all visited names are settled.
Reaches-visited :
    (g : ScopeGraph) (edges : RefGraph) (visited : List ResolvedName) {n x : ResolvedName}
    → ((y : ResolvedName) → Member y visited → Settled g edges visited y)
    → Member n visited
    → Reaches edges n x
    → Member x visited
unfolding Settled
Reaches-visited g edges visited settled m (at_once n) = m
Reaches-visited g edges visited settled m (along n w x r more) =
    Reaches-visited g edges visited settled ((settled n m).1 w r) more

-- If the values have a compilation order, then no constant of the graph of references reaches a
-- value of the context, by itself or through what it refers to.
pub find_compilation_order-Reaches :
    (g : ScopeGraph) (edges : RefGraph) (order : List ResolvedName) (c x : ResolvedName)
    → find_compilation_order g edges ≡ ordered order
    → IsKey edges c
    → IsConstant g c
    → Reaches edges c x
    → ¬ IsContext g x
unfolding find_compilation_order Known Settled get
find_compilation_order-Reaches g edges order c x h key constant reaches =
    let (st, run, _, _) = tarjan_lem edges in
    let (self, h₁) = if_passed-ordered (check_self g edges) _ h in
    let h₂ = ap (check_order g edges) (sym run) ∙ h₁ in
    let (components, h₃) = if_passed-ordered (check_components g st.components) _ h₂ in
    let (checked, _) = if_passed-ordered (context_check g edges) _ h₃ in
    let start : Answers = record { uses_context = []; visited = [] } in
    let (a, explored, visited) =
      check_each-Explored (suc (length (names edges))) g edges start edges (λ y e. cc) checked in
    let settled : (y : ResolvedName) → Member y a.visited → Settled g edges a.visited y =
      λ y m. elim (explored.settled y m) [ inl none_left ↦ absurd none_left | inr s ↦ s ] in
    let m = Reaches-visited g edges a.visited settled (visited c key constant) reaches in
    (settled x m).0
