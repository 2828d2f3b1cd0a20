-- ===== src/Typechecker/ValueCycle/Compile/Unseen.antt =====
-- src/typechecker/value_cycle.rs, `determine_uses_context`: the depth of its recursion, by the number
-- of names that have not been visited.
use roto.Prelude.{
  ℕ, zero, suc, ◌+◌, ◌<◌, ◌≤◌, Bool, true, false, ◌≡◌, inl, inr, refl, sym, ap, subst, List, [],
  ◌∷◌, length, Option, none, some, Option-cases, Bool-cases, arith, if◌then◌else◌,
}
use roto.Typechecker.{ResolvedName}
use roto.Typechecker.Scope.{ScopeGraph, DeclarationKind}
use roto.Typechecker.TypeCycle.{get}
use roto.Typechecker.ValueCycle.{RefGraph, contains, targets}
use roto.Typechecker.ValueCycle.Stack.{Member, Member-contains, contains-Member}
use roto.Typechecker.ValueCycle.Unvisited.{names, targets-names}
use roto.Typechecker.ValueCycle.Compile.{
  kind_of, is_context, Answers, Answer, returned, and_then, any_uses, unanswered,
  determine_uses_context,
}

unfoldable pub one_if_not : Bool → ℕ
one_if_not true = 0
one_if_not false = 1

-- The number of names that are not visited.
pub unseen : List ResolvedName → List ResolvedName → ℕ
unseen visited [] = 0
unseen visited (x ∷ l) = one_if_not (contains visited x) + unseen visited l

unfoldable pub Keeps : List ResolvedName → List ResolvedName → Type 0
Keeps xs ys = (x : ResolvedName) → Member x xs → Member x ys

one-Keeps :
    (xs ys : List ResolvedName) (x : ResolvedName)
    → Keeps xs ys
    → one_if_not (contains ys x) ≤ one_if_not (contains xs x)
unfolding one_if_not Keeps
one-Keeps xs ys x k = elim (Bool-cases (contains xs x)) [
  | inl e ↦ rw (e, Member-contains ys x (k x (contains-Member xs x e))) (omega arith)
  | inr e ↦ elim (Bool-cases (contains ys x)) [
    | inl e' ↦ rw (e, e') (omega arith)
    | inr e' ↦ rw (e, e') (omega arith)
  ]
]

unseen-le : (xs ys l : List ResolvedName) → Keeps xs ys → unseen ys l ≤ unseen xs l
unfolding unseen
unseen-le xs ys [] k = omega arith
unseen-le xs ys (x ∷ l) k = omega (arith, one-Keeps xs ys x k, unseen-le xs ys l k)

unseen-lt :
    (xs : List ResolvedName) (v : ResolvedName) (l : List ResolvedName)
    → Member v l
    → contains xs v ≡ false
    → unseen (v ∷ xs) l < unseen xs l
unfolding unseen one_if_not Keeps
unseen-lt xs v [] m fresh = absurd m
unseen-lt xs v (x ∷ l) (inl same) fresh =
    let before : one_if_not (contains xs x) ≡ 1 =
      ap one_if_not (subst (λ y. contains xs y ≡ false) (sym same) fresh) in
    let after : one_if_not (contains (v ∷ xs) x) ≡ 0 =
      ap one_if_not (Member-contains (v ∷ xs) x (inl (sym same))) in
    omega (arith, before, after, unseen-le xs (v ∷ xs) l (λ y m. inr m))
unseen-lt xs v (x ∷ l) (inr m) fresh =
    omega (arith, one-Keeps xs (v ∷ xs) x (λ y m. inr m), unseen-lt xs v l m fresh)

pub unseen-length : (xs l : List ResolvedName) → unseen xs l ≤ length l
unfolding unseen one_if_not
unseen-length xs [] = omega arith
unseen-length xs (x ∷ l) = elim (Bool-cases (contains xs x)) [
  | inl e ↦ rw e (omega (arith, unseen-length xs l))
  | inr e ↦ rw e (omega (arith, unseen-length xs l))
]

-- The fuel is enough: an answer keeps the visited names.
unfoldable pub Ends : List ResolvedName → Answer → Type 0
Ends visited (returned b a) = Keeps visited a.visited
Ends visited Answer.panicked = Unit
Ends visited Answer.out_of_fuel = ⊥

Ends-trans : (xs ys : List ResolvedName) (r : Answer) → Keeps xs ys → Ends ys r → Ends xs r
unfolding Ends Keeps
Ends-trans xs ys (returned b a) k e = λ x m. e x (k x m)
Ends-trans xs ys Answer.panicked k e = tt
Ends-trans xs ys Answer.out_of_fuel k e = e

and_then-Ends :
    (xs : List ResolvedName) (r : Answer) (f : Bool → Answers → Answer)
    → Ends xs r
    → ((b : Bool) (a : Answers) → Keeps xs a.visited → Ends a.visited (f b a))
    → Ends xs (and_then r f)
unfolding Ends
and_then-Ends xs (returned b a) f e g = Ends-trans xs a.visited (f b a) e (g b a e)
and_then-Ends xs Answer.panicked f e g = tt
and_then-Ends xs Answer.out_of_fuel f e g = e

-- With enough fuel for the names that are left, each question about a name of the graph ends.
unfoldable pub HasFuel : ℕ → RefGraph → (Answers → ResolvedName → Answer) → Type 0
HasFuel fuel edges u =
    (a : Answers) (n : ResolvedName)
    → Member n (names edges)
    → unseen a.visited (names edges) < fuel
    → Ends a.visited (u a n)

any_uses-Ends :
    (fuel : ℕ) (edges : RefGraph) (u : Answers → ResolvedName → Answer)
    → HasFuel fuel edges u
    → (a : Answers) (rs : List ResolvedName)
    → ((r : ResolvedName) → Member r rs → Member r (names edges))
    → unseen a.visited (names edges) < fuel
    → Ends a.visited (any_uses u a rs)
unfolding any_uses HasFuel Ends Keeps
any_uses-Ends fuel edges u each a [] known left = λ x m. m
any_uses-Ends fuel edges u each a (r ∷ rs) known left =
    and_then-Ends a.visited (u a r) _ (each a r (known r (inl refl)) left) λ b a' k.
      elim b as (λ c. Ends a'.visited (if c then returned true a' else any_uses u a' rs)) [
        | true ↦ λ x m. m
        | false ↦
            any_uses-Ends fuel edges u each a' rs (λ x m. known x (inr m))
              (omega (arith, unseen-le a.visited a'.visited (names edges) k, left))
      ]

unanswered-Ends :
    (fuel : ℕ) (edges : RefGraph) (u : Answers → ResolvedName → Answer)
    → HasFuel fuel edges u
    → (a : Answers) (n : ResolvedName) (o : Option DeclarationKind) → Member n (names edges)
    → contains a.visited n ≡ false
    → unseen a.visited (names edges) < suc fuel
    → Ends a.visited (unanswered u edges a n o)
unfolding Ends Keeps
unanswered-Ends fuel edges u each a n none known fresh left = tt
unanswered-Ends fuel edges u each a n (some k) known fresh left = elim (Bool-cases (is_context k)) [
  | inl context ↦ rw context (λ x m. m)
  | inr other ↦
      let a₁ : Answers = record a { visited = n ∷ a.visited } in
      let below = unseen-lt a.visited n (names edges) known fresh in
      let loop =
        any_uses-Ends fuel edges u each a₁ (targets edges n) (targets-names edges n)
          (omega (arith, below, left)) in
      rw other (
        Ends-trans a.visited a₁.visited _ (λ x m. inr m)
          (and_then-Ends a₁.visited (any_uses u a₁ (targets edges n)) _ loop (λ b a' k x m. m)))
]

pub determine_uses_context-HasFuel :
    (fuel : ℕ) (g : ScopeGraph) (edges : RefGraph)
    → HasFuel fuel edges (determine_uses_context fuel g edges)
unfolding determine_uses_context HasFuel Ends Keeps
determine_uses_context-HasFuel zero g edges a n known left = absurd (omega arith)
determine_uses_context-HasFuel (suc fuel) g edges a n known left =
    elim (Option-cases (get a.uses_context n)) [
      | inr (b, answered) ↦ rw answered (λ x m. m)
      | inl missing ↦ elim (Bool-cases (contains a.visited n)) [
        | inl before ↦ rw (missing, before) (λ x m. m)
        | inr fresh ↦
            rw (missing, fresh)
              (unanswered-Ends fuel edges (determine_uses_context fuel g edges)
                (determine_uses_context-HasFuel fuel g edges) a n (kind_of g n) known fresh left)
      ]
    ]
