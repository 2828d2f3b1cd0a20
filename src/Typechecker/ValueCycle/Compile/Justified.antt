-- ===== src/Typechecker/ValueCycle/Compile/Justified.antt =====
-- src/typechecker/value_cycle.rs, `context_check` and `determine_uses_context`: what stands behind an
-- answer of true.
use roto.Prelude.{
  ℕ, zero, suc, Bool, true, false, ◌≡◌, ◌⊎◌, inl, inr, refl, ap, ◌∙◌, subst, List, [], ◌∷◌, length,
  Option, none, some, some_inj, Option-cases, Bool-cases,
}
use roto.Typechecker.{ResolvedName}
use roto.Typechecker.Scope.{ScopeGraph, DeclarationKind, name_eq}
use roto.Typechecker.Types.Equal.{name_eq→≡}
use roto.Typechecker.TypeCycle.{get}
use roto.Typechecker.ValueCycle.{RefGraph, contains, targets}
use roto.Typechecker.ValueCycle.Stack.{Member}
use roto.Typechecker.ValueCycle.Unvisited.{names}
use roto.Typechecker.ValueCycle.Total.{IsKey}
use roto.Typechecker.ValueCycle.Compile.{
  Check, kind_of, is_constant, is_context, by_kind, Answers, Answer, returned, and_then,
  with_answer, any_uses, unanswered, determine_uses_context, on_answer, check_each, context_check,
}
use roto.Typechecker.ValueCycle.Compile.Passed.{IsConstant}
use roto.Typechecker.ValueCycle.Compile.Explored.{IsContext, Reaches, at_once, along}

named : ResolvedName → Check → ResolvedName
named m (Check.uses_context n) = n
named m c = m

-- The name reaches a value of the context.
abbrev pub Uses : ScopeGraph → RefGraph → ResolvedName → Type 0
Uses g edges n = (x : ResolvedName) × Reaches edges n x × IsContext g x

-- The stored answers of true are right.
Sound : ScopeGraph → RefGraph → Answers → Type 0
Sound g edges a = (x : ResolvedName) → get a.uses_context x ≡ some true → Uses g edges x

-- What holds of an answer, where there is one
After : (Bool → Answers → Type 0) → Answer → Type 0
After Q (returned b a) = Q b a
After Q r = Unit

After-map :
    {Q R : Bool → Answers → Type 0} (r : Answer)
    → After Q r
    → ((b : Bool) (a : Answers) → Q b a → R b a)
    → After R r
unfolding After
After-map (returned b a) q f = f b a q
After-map Answer.panicked q f = tt
After-map Answer.out_of_fuel q f = tt

and_then-After :
    (Q R : Bool → Answers → Type 0) (r : Answer) (f : Bool → Answers → Answer)
    → After Q r
    → ((b : Bool) (a : Answers) → Q b a → After R (f b a))
    → After R (and_then r f)
unfolding After
and_then-After Q R (returned b a) f q g = g b a q
and_then-After Q R Answer.panicked f q g = tt
and_then-After Q R Answer.out_of_fuel f q g = tt

-- An answer about a name that satisfies the predicate, where it is true
AnswersFor : ScopeGraph → RefGraph → Type 0 → Bool → Answers → Type 0
AnswersFor g edges P b a = Sound g edges a × (b ≡ true → P)

IsSound : ScopeGraph → RefGraph → (Answers → ResolvedName → Answer) → Type 0
IsSound g edges u =
    (a : Answers) (n : ResolvedName)
    → Sound g edges a
    → After (AnswersFor g edges (Uses g edges n)) (u a n)

any_uses-After :
    (g : ScopeGraph) (edges : RefGraph) (u : Answers → ResolvedName → Answer)
    → IsSound g edges u
    → (a : Answers) (rs : List ResolvedName) → Sound g edges a
    → After
        (AnswersFor g edges ((r : ResolvedName) × Member r rs × Uses g edges r))
        (any_uses u a rs)
unfolding any_uses IsSound After AnswersFor
any_uses-After g edges u each a [] sound = (sound, λ h. absurd (let h' : false ≡ true = h in cc))
any_uses-After g edges u each a (r ∷ rs) sound =
    and_then-After _ _ (u a r) _ (each a r sound) λ b a' (sound', uses). elim (Bool-cases b) [
      | inl e ↦ rw e (sound', λ h. (r, inl refl, uses e))
      | inr e ↦ rw e (
          After-map (any_uses u a' rs) (any_uses-After g edges u each a' rs sound')
            λ b' a'' (s, f). (s, λ h. let (x, m, used) = f h in (x, inr m, used)))
    ]

-- Storing an answer that is right
with_answer-Sound :
    (g : ScopeGraph) (edges : RefGraph) (a : Answers) (n : ResolvedName) (b : Bool)
    → Sound g edges a
    → (b ≡ true → Uses g edges n)
    → After (AnswersFor g edges (Uses g edges n)) (with_answer a n b)
unfolding After AnswersFor Sound get
with_answer-Sound g edges a n b sound uses = (
  λ x at. elim (Bool-cases (name_eq n x)) [
    | inl same ↦
        let stored : some b ≡ some true = (rw (get, same) at at) in
        subst (Uses g edges) (name_eq→≡ n x same) (uses (some_inj stored))
    | inr other ↦ sound x (rw (get, other) at at)
  ],
  uses,
)

unanswered-After :
    (g : ScopeGraph) (edges : RefGraph) (u : Answers → ResolvedName → Answer)
    → IsSound g edges u
    → (a : Answers) (n : ResolvedName) (o : Option DeclarationKind) → kind_of g n ≡ o
    → Sound g edges a
    → After (AnswersFor g edges (Uses g edges n)) (unanswered u edges a n o)
unfolding After Sound AnswersFor
unanswered-After g edges u each a n none kind sound = tt
unanswered-After g edges u each a n (some k) kind sound = elim (Bool-cases (is_context k)) [
  | inl context ↦
      rw context
        (with_answer-Sound g edges a n true sound (λ h. (n, at_once n, (k, kind, context))))
  | inr other ↦
      let a₁ : Answers = record a { visited = n ∷ a.visited } in
      rw other (
        and_then-After _ _ (any_uses u a₁ (targets edges n)) _
          (any_uses-After g edges u each a₁ (targets edges n) sound)
          λ b a' (sound', uses).
            with_answer-Sound g edges a' n b sound' λ h.
              let (w, m, (x, reaches, context)) = uses h in (x, along n w x m reaches, context))
]

determine_uses_context-IsSound :
    (fuel : ℕ) (g : ScopeGraph) (edges : RefGraph)
    → IsSound g edges (determine_uses_context fuel g edges)
unfolding determine_uses_context IsSound After AnswersFor Sound
determine_uses_context-IsSound zero g edges a n sound = tt
determine_uses_context-IsSound (suc fuel) g edges a n sound =
    elim (Option-cases (get a.uses_context n)) [
      | inr (b, answered) ↦ rw answered (sound, λ h. sound n (answered ∙ ap some h))
      | inl missing ↦ elim (Bool-cases (contains a.visited n)) [
        | inl before ↦ rw (missing, before) (sound, λ h. absurd (let h' : false ≡ true = h in cc))
        | inr fresh ↦
            rw (missing, fresh)
              (unanswered-After g edges (determine_uses_context fuel g edges)
                (determine_uses_context-IsSound fuel g edges) a n (kind_of g n) refl sound)
      ]
    ]

on_answer-After :
    (Q : Bool → Answers → Type 0) (m n : ResolvedName) (rest : Answers → Check) (r : Answer)
    → After Q r
    → on_answer m rest r ≡ Check.uses_context n
    → ((m ≡ n) × (a : Answers) × Q true a)
      ⊎ ((a : Answers) × Q false a × (rest a ≡ Check.uses_context n))
unfolding After named
on_answer-After Q m n rest (returned true a) q h = inl (ap (named m) h, a, q)
on_answer-After Q m n rest (returned false a) q h = inr (a, q, h)
on_answer-After Q m n rest Answer.panicked q h = cc
on_answer-After Q m n rest Answer.out_of_fuel q h = cc

by_kind-uses_context :
    (o : Option DeclarationKind) (f : DeclarationKind → Check) {n : ResolvedName}
    → by_kind o f ≡ Check.uses_context n
    → (k : DeclarationKind) × (o ≡ some k) × (f k ≡ Check.uses_context n)
by_kind-uses_context none f h = cc
by_kind-uses_context (some k) f h = (k, refl, h)

check_each-uses_context :
    (fuel : ℕ) (g : ScopeGraph) (edges : RefGraph) (a : Answers) (es : RefGraph) (n : ResolvedName)
    → Sound g edges a
    → check_each fuel g edges a es ≡ Check.uses_context n
    → IsKey es n × IsConstant g n × Uses g edges n
unfolding check_each IsSound AnswersFor
check_each-uses_context fuel g edges a [] n sound h = cc
check_each-uses_context fuel g edges a ((m, refs) ∷ es) n sound h =
    let (k, kind, tested) = by_kind-uses_context (kind_of g m) _ h in
    elim (Bool-cases (is_constant k)) [
      | inl constant ↦
          elim (on_answer-After (AnswersFor g edges (Uses g edges m)) m n _ _
            (determine_uses_context-IsSound fuel g edges a m sound) (rw constant at tested)) [
              | inl (same, a', (sound', uses)) ↦
                  subst (λ z. IsKey ((m, refs) ∷ es) z × IsConstant g z × Uses g edges z) same
                    (inl refl, (k, kind, constant), uses refl)
              | inr (a', (sound', uses), rest) ↦
                  let (key, is, used) = check_each-uses_context fuel g edges a' es n sound' rest in
                  (inr key, is, used)
            ]
      | inr other ↦
          let (key, is, used) =
            check_each-uses_context fuel g edges a es n sound (rw other at tested) in
          (inr key, is, used)
    ]

-- If the check of the context reports a name, then the name is a constant and a key of the graph of
-- references, and it reaches a value of the context through what it refers to.
pub context_check-uses_context :
    (g : ScopeGraph) (edges : RefGraph) (n : ResolvedName)
    → context_check g edges ≡ Check.uses_context n
    → IsKey edges n × IsConstant g n × ((x : ResolvedName) × Reaches edges n x × IsContext g x)
unfolding Sound get
context_check-uses_context g edges n h =
    check_each-uses_context (suc (length (names edges))) g edges _ edges n (λ x at. cc) h
