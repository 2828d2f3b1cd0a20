-- ===== src/Typechecker/ValueCycle/Compile/Explored.antt =====
-- src/typechecker/value_cycle.rs, `determine_uses_context`: what an answer of false has explored. The
-- names that it has visited are closed under references.
use roto.Prelude.{
  ℕ, zero, suc, Bool, true, false, ◌≡◌, ◌⊎◌, inl, inr, refl, sym, ap, ◌∙◌, subst, List, [], ◌∷◌,
  Option, none, some, some_inj, Bool-cases, if◌then◌else◌,
}
use roto.Typechecker.{ResolvedName}
use roto.Typechecker.Scope.{ScopeGraph, DeclarationKind, name_eq}
use roto.Typechecker.Types.Equal.{name_eq→≡}
use roto.Typechecker.TypeCycle.{get}
use roto.Typechecker.ValueCycle.{RefGraph, contains, targets}
use roto.Typechecker.ValueCycle.Stack.{Member, contains-Member}
use roto.Typechecker.ValueCycle.Compile.{
  kind_of, is_context, Answers, Answer, returned, and_then, with_answer, any_uses, unanswered,
  by_answer, determine_uses_context,
}

-- The name is declared as a value of the context.
abbrev pub IsContext : ScopeGraph → ResolvedName → Type 0
IsContext g n = (k : DeclarationKind) × (kind_of g n ≡ some k) × (is_context k ≡ true)

-- A value refers to another one, in any number of steps.
pub data Reaches (edges : RefGraph) : ResolvedName → ResolvedName → Type 0 where
  at_once : (n : ResolvedName) → Reaches edges n n
  along :
      (n w x : ResolvedName) → Member w (targets edges n) → Reaches edges w x → Reaches edges n x

-- A name that is known not to use the context has been visited.
unfoldable pub Known : Answers → Type 0
Known a = (x : ResolvedName) → get a.uses_context x ≡ some false → Member x a.visited

-- The name is not of the context, and what it refers to has been visited.
unfoldable pub Settled : ScopeGraph → RefGraph → List ResolvedName → ResolvedName → Type 0
Settled g edges visited x =
    (IsContext g x → ⊥) × ((w : ResolvedName) → Member w (targets edges x) → Member w visited)

-- What happens between two states: the names that were visited since are settled.
pub record Explored (g : ScopeGraph) (edges : RefGraph) (a a' : Answers) : Type 0 where
  pub known : Known a'
  pub grows : (x : ResolvedName) → Member x a.visited → Member x a'.visited
  pub settled :
      (x : ResolvedName) → Member x a'.visited → Member x a.visited ⊎ Settled g edges a'.visited x

pub Explored-refl :
    (g : ScopeGraph) (edges : RefGraph) (a : Answers) → Known a → Explored g edges a a
Explored-refl g edges a known = record { known = known; grows = λ x m. m; settled = λ x m. inl m }

pub Explored-trans :
    (g : ScopeGraph) (edges : RefGraph) (a b c : Answers)
    → Explored g edges a b
    → Explored g edges b c
    → Explored g edges a c
unfolding Settled
Explored-trans g edges a b c first second = record {
  known = second.known;
  grows = λ x m. second.grows x (first.grows x m);
  settled = λ x m. elim (second.settled x m) [
    | inl earlier ↦ elim (first.settled x earlier) [
      | inl start ↦ inl start
      | inr (not_context, inside) ↦ inr (not_context, λ w r. second.grows w (inside w r))
    ]
    | inr s ↦ inr s
  ];
}

and_then-returned :
    (r : Answer) (f : Bool → Answers → Answer) (b : Bool) (a : Answers)
    → and_then r f ≡ returned b a
    → (b' : Bool) × (a' : Answers) × (r ≡ returned b' a') × (f b' a' ≡ returned b a)
and_then-returned (returned b' a') f b a h = (b', a', refl, h)
and_then-returned r f b a h = cc

answers_of : Answers → Answer → Answers
answers_of a (returned b a') = a'
answers_of a r = a

answers_inj : {b b' : Bool} {a a' : Answers} → returned b a ≡ returned b' a' → a ≡ a'
unfolding answers_of
answers_inj {a = a} h = ap (answers_of a) h

answer_of : Answer → Bool
answer_of (returned b a) = b
answer_of r = true

answer_inj : {b b' : Bool} {a a' : Answers} → returned b a ≡ returned b' a' → b ≡ b'
unfolding answer_of
answer_inj h = ap answer_of h

-- The loop goes on only after an answer of false.
goes_on :
    (b : Bool) (more : Answer) (a a' : Answers)
    → (if b then returned true a else more) ≡ returned false a'
    → (b ≡ false) × (more ≡ returned false a')
goes_on true more a a' h = absurd (subst (λ z. if z then Dec ℕ else ⊥) (answer_inj h) (yes 0))
goes_on false more a a' h = (refl, h)

-- An answer of false explores, and what was asked for is visited after it.
unfoldable pub Explores : ScopeGraph → RefGraph → (Answers → ResolvedName → Answer) → Type 0
Explores g edges u =
    (a : Answers) (n : ResolvedName) (a' : Answers)
    → Known a
    → u a n ≡ returned false a'
    → Explored g edges a a' × Member n a'.visited

any_uses-Explored :
    (g : ScopeGraph) (edges : RefGraph) (u : Answers → ResolvedName → Answer)
    → Explores g edges u
    → (a : Answers) (rs : List ResolvedName) (a' : Answers) → Known a
    → any_uses u a rs ≡ returned false a'
    → Explored g edges a a' × ((r : ResolvedName) → Member r rs → Member r a'.visited)
unfolding any_uses Explores
any_uses-Explored g edges u each a [] a' known h =
    let same : a ≡ a' = answers_inj h in
    (subst (λ z. Explored g edges a z) same (Explored-refl g edges a known), λ r m. absurd m)
any_uses-Explored g edges u each a (r ∷ rs) a' known h =
    let (b, a₁, one, rest) = and_then-returned (u a r) _ false a' h in
    let (unused, rest') = goes_on b (any_uses u a₁ rs) a₁ a' rest in
    let (first, visited) = each a r a₁ known (one ∙ ap (λ z. returned z a₁) unused) in
    let (second, others) = any_uses-Explored g edges u each a₁ rs a' first.known rest' in
    (
      Explored-trans g edges a a₁ a' first second,
      λ x m. elim m [
        | inl same ↦ subst (λ z. Member z a'.visited) same (second.grows r visited)
        | inr m' ↦ others x m'
      ],
    )

by_answer-false :
    (a : Answers) (otherwise : Answer) (o : Option Bool) (a' : Answers)
    → by_answer a otherwise o ≡ returned false a'
    → ((o ≡ some false) × (a ≡ a')) ⊎ (otherwise ≡ returned false a')
by_answer-false a otherwise none a' h = inr h
by_answer-false a otherwise (some b) a' h = inl (ap some (answer_inj h), answers_inj h)

-- A name that is neither answered nor visited
unanswered-Explored :
    (g : ScopeGraph) (edges : RefGraph) (u : Answers → ResolvedName → Answer)
    → Explores g edges u
    → (a : Answers) (n : ResolvedName) (a' : Answers) (o : Option DeclarationKind) → kind_of g n ≡ o
    → Known a
    → unanswered u edges a n o ≡ returned false a'
    → Explored g edges a a' × Member n a'.visited
unfolding Known Settled get
unanswered-Explored g edges u each a n a' none kind known h = cc
unanswered-Explored g edges u each a n a' (some k) kind known h =
    let a₁ : Answers = record a { visited = n ∷ a.visited } in
    let (not_context, h₁) = goes_on (is_context k) _ _ a' h in
    let (b, a₂, all, last) = and_then-returned (any_uses u a₁ (targets edges n)) _ false a' h₁ in
    let unused : b ≡ false = answer_inj last in
    let same : with_answer a₂ n false ≡ returned false a' =
      subst (λ z. with_answer a₂ n z ≡ returned false a') unused last in
    let (inner, inside) =
      any_uses-Explored g edges u each a₁ (targets edges n) a₂ (λ x e. inr (known x e))
        (all ∙ ap (λ z. returned z a₂) unused) in
    let result : Explored g edges a (record a₂ { uses_context = (n, false) ∷ a₂.uses_context }) =
      record {
        known = λ x e. elim (Bool-cases (name_eq n x)) [
          | inl equal ↦
              subst (λ z. Member z a₂.visited) (name_eq→≡ n x equal) (inner.grows n (inl refl))
          | inr other ↦ inner.known x (rw (get, other) at e)
        ];
        grows = λ x m. inner.grows x (inr m);
        settled = λ x m. elim (inner.settled x m) [
          | inl (inl now) ↦ inr (
            λ c.
                let kinds : k ≡ c.0 = some_inj (sym kind ∙ ap (kind_of g) now ∙ c.1) in
                let bad : false ≡ true = sym not_context ∙ ap is_context kinds ∙ c.2 in cc,
            λ w r. inside w (subst (λ z. Member w (targets edges z)) (sym now) r),
          )
          | inl (inr earlier) ↦ inl earlier
          | inr s ↦ inr s
        ];
      } in
    subst (λ z. Explored g edges a z × Member n z.visited) (answers_inj same)
      (result, inner.grows n (inl refl))

pub determine_uses_context-Explored :
    (fuel : ℕ) (g : ScopeGraph) (edges : RefGraph)
    → Explores g edges (determine_uses_context fuel g edges)
unfolding determine_uses_context Explores Known
determine_uses_context-Explored zero g edges a n a' known h = cc
determine_uses_context-Explored (suc fuel) g edges a n a' known h =
    elim (by_answer-false a _ (get a.uses_context n) a' h) [
      | inl (answered, same) ↦
          subst (λ z. Explored g edges a z × Member n z.visited) same
            (Explored-refl g edges a known, known n answered)
      | inr other ↦ elim (Bool-cases (contains a.visited n)) [
        | inl before ↦
            let same : returned false a ≡ returned false a' = (rw before at other) in
            subst (λ z. Explored g edges a z × Member n z.visited) (answers_inj same)
              (Explored-refl g edges a known, contains-Member a.visited n before)
        | inr fresh ↦
            unanswered-Explored g edges (determine_uses_context fuel g edges)
              (determine_uses_context-Explored fuel g edges) a n a' (kind_of g n) refl known
              (rw fresh at other)
      ]
    ]
