-- ===== src/Typechecker/TypeCycle/Acyclic.antt =====
-- src/typechecker/type_cycle.rs: the order of the types that the permanent marks are in.
use roto.Prelude.{
  ℕ, zero, suc, ◌<◌, ◌≤◌, Bool, true, false, ◌≡◌, ◌⊎◌, inl, inr, refl, sym, ◌∙◌, subst, List, [],
  ◌∷◌, length, none, some, some_inj, Option-cases, Bool-cases, if◌then◌else◌, arith, ◌||◌,
}
use roto.Typechecker.{ResolvedName}
use roto.Typechecker.Scope.{name_eq}
use roto.Typechecker.Types.{TypeDefinition}
use roto.Typechecker.Types.Equal.{name_eq→≡}
use roto.Typechecker.TypeCycle.{
  Marks, TypeMap, Outcome, ok, cycle, panicked, get, visit_definition, visit_unmarked, visit_name,
  visit_each, detect_type_cycles,
}
use roto.Typechecker.TypeCycle.Marks.{
  DefinitionMentions, Edge, Done, name_eq_self, get-Done, IsTopological, Visited, ok_inj,
  and_then-ok, VisitsNames, visit_definition_lem, Visited-none, Visited-both,
}

pub get_head :
    {A : Type 0} (n : ResolvedName) (a : A) (v : List (ResolvedName × A))
    → get ((n, a) ∷ v) n ≡ some a
unfolding get
get_head n a v = rw (get, name_eq_self n) refl

-- The entries of another name are passed over.
pub get_cons :
    {A : Type 0} (n : ResolvedName) (a : A) (v : List (ResolvedName × A)) (m : ResolvedName)
    → ((n ≡ m) × (get ((n, a) ∷ v) m ≡ some a)) ⊎ (get ((n, a) ∷ v) m ≡ get v m)
unfolding get
get_cons n a v m = elim (Bool-cases (name_eq n m)) [
  | inl same ↦ inl (name_eq→≡ n m same, rw (get, same) refl)
  | inr other ↦ inr (rw (get, other) refl)
]

-- A name without a mark is marked, its definition is visited, and it is marked again.
visit_unmarked-Visited :
    (types : TypeMap) (u : Marks → ResolvedName → Outcome) (v : Marks) (n : ResolvedName)
    (d : TypeDefinition) (v' : Marks)
    → VisitsNames types u
    → get types n ≡ some d
    → get v n ≡ none
    → visit_unmarked u v n (some d) ≡ ok v'
    → Visited types v v' (λ m. n ≡ m)
visit_unmarked-Visited types u v n d v' names at unmarked h =
    let (v₁, e, last) = and_then-ok (visit_definition u ((n, false) ∷ v) d) _ h in
    let r = visit_definition_lem types u names ((n, false) ∷ v) d v₁ e in
    subst (λ w. Visited types v w (λ m. n ≡ m)) (ok_inj last)
      (record {
        in_order = λ o. (
          λ m (d', at', mentions).
              r.done m (subst (λ x. DefinitionMentions x m) (some_inj (sym at' ∙ at)) mentions),
          r.in_order o,
        );
        kept = λ m done. inr (r.kept m done);
        marked = λ m {b} g. elim (get_cons n true v₁ m) [
          | inl (same, e') ↦ (true, e')
          | inr e' ↦ elim (get_cons n false v m) [
            | inl (same, e'') ↦ let (b', g') = r.marked m e'' in (b', e' ∙ g')
            | inr e'' ↦ let (b', g') = r.marked m (e'' ∙ g) in (b', e' ∙ g')
          ]
        ];
        temporary = λ m g. elim (get_cons n true v₁ m) [
          | inl (same, e') ↦ let bad : some true ≡ some false = sym e' ∙ g in cc
          | inr e' ↦
              let before = r.temporary m (sym e' ∙ g) in
              elim (get_cons n false v m) [
                | inl (same, e'') ↦
                    let here =
                      subst (λ x. get ((n, true) ∷ v₁) x ≡ some true) same (get_head n true v₁) in
                    let bad : some true ≡ some false = sym here ∙ g in cc
                | inr e'' ↦ sym e'' ∙ before
              ]
        ];
        done = λ m same. inl same;
      })

pub visit_name-Visited : (fuel : ℕ) (types : TypeMap) → VisitsNames types (visit_name fuel types)
unfolding visit_name
visit_name-Visited zero types v n v' h = cc
visit_name-Visited (suc fuel) types v n v' h = elim (Option-cases (get v n)) [
  | inl unmarked ↦ elim (Option-cases (get types n)) [
    | inl e ↦ let bad : panicked ≡ ok v' = (rw (visit_name, unmarked, e) at h) in cc
    | inr (d, e) ↦
        visit_unmarked-Visited types (visit_name fuel types) v n d v'
          (visit_name-Visited fuel types) e unmarked (rw (visit_name, unmarked, e) at h)
  ]
  | inr (true, e) ↦
      let out : ok v ≡ ok v' = (rw (visit_name, e) at h) in
      subst (λ w. Visited types v w (λ m. n ≡ m)) (ok_inj out)
        (record {
          in_order = λ o. o;
          kept = λ m d. d;
          marked = λ m {b} g. (b, g);
          temporary = λ m g. g;
          done = λ m same. subst (Done v) same (get-Done v n e);
        })
  | inr (false, e) ↦ let bad : cycle ≡ ok v' = (rw (visit_name, e) at h) in cc
]

-- The names of a list of types.
abbrev pub IsKey : TypeMap → ResolvedName → Type 0
IsKey [] m = ⊥
IsKey ((n, d) ∷ es) m = (n ≡ m) ⊎ IsKey es m

pub get-IsKey :
    (types : TypeMap) (m : ResolvedName) {d : TypeDefinition} → get types m ≡ some d → IsKey types m
unfolding get
get-IsKey [] m h = cc
get-IsKey ((n, d') ∷ es) m h = elim (Bool-cases (name_eq n m)) [
  | inl same ↦ inl (name_eq→≡ n m same)
  | inr other ↦ inr (get-IsKey es m (rw (get, other) at h))
]

visit_each-Visited :
    (fuel : ℕ) (types : TypeMap) (v : Marks) (es : TypeMap) (v' : Marks)
    → visit_each fuel types v es ≡ ok v'
    → Visited types v v' (IsKey es)
unfolding visit_each
visit_each-Visited fuel types v [] v' h = Visited-none h (λ m p. p)
visit_each-Visited fuel types v ((n, d) ∷ es) v' h =
    let (v₁, e, rest) = and_then-ok (visit_name fuel types v n) _ h in
    Visited-both (visit_name-Visited fuel types v n v₁ e)
      (visit_each-Visited fuel types v₁ es v' rest)

abbrev has : Marks → ResolvedName → Bool
has [] m = false
has ((k, true) ∷ v) m = name_eq k m || has v m
has ((k, false) ∷ v) m = has v m

has-Done : (v : Marks) (m : ResolvedName) → has v m ≡ true → Done v m
has-Done [] m h = cc
has-Done ((k, true) ∷ v) m h = elim (Bool-cases (name_eq k m)) [
  | inl same ↦ inl (name_eq→≡ k m same)
  | inr other ↦ inr (has-Done v m (rw other at h))
]
has-Done ((k, false) ∷ v) m h = has-Done v m h

Done-has : (v : Marks) (m : ResolvedName) → Done v m → has v m ≡ true
Done-has [] m d = absurd d
Done-has ((k, true) ∷ v) m (inl same) =
    rw (subst (λ x. name_eq k x ≡ true) same (name_eq_self k)) refl
Done-has ((k, true) ∷ v) m (inr d) = elim (Bool-cases (name_eq k m)) [
  | inl same ↦ rw same refl
  | inr other ↦ rw other (Done-has v m d)
]
Done-has ((k, false) ∷ v) m d = Done-has v m d

-- The place of the oldest permanent mark of a name, counted from the oldest entry.
abbrev rank : Marks → ResolvedName → ℕ
rank [] m = 0
rank (e ∷ v) m = let rest = rank v m in if has v m then rest else suc (length v)

rank-le : (v : Marks) (m : ResolvedName) → rank v m ≤ length v
rank-le [] m = omega arith
rank-le (e ∷ v) m = elim (Bool-cases (has v m)) [
  | inl h ↦ rw h (omega (arith, rank-le v m))
  | inr h ↦ rw h (omega arith)
]

-- Below an entry that is not the first permanent mark of a name, the rank stays.
rank-cons :
    (e : ResolvedName × Bool) (v : Marks) (m : ResolvedName) → Done v m → rank (e ∷ v) m ≡ rank v m
rank-cons e v m d = rw (Done-has v m d) refl

rank-lt :
    (types : TypeMap) (v : Marks) (n m : ResolvedName)
    → IsTopological types v
    → Done v n
    → Edge types n m
    → Done v m × (rank v m < rank v n)
rank-lt types [] n m o d edge = absurd d
rank-lt types ((k, false) ∷ v) n m o d edge =
    let (dm, lt) = rank-lt types v n m o d edge in
    (dm, rw (rank-cons (k, false) v m dm, rank-cons (k, false) v n d) lt)
rank-lt types ((k, true) ∷ v) n m (before, o) d edge = elim (Bool-cases (has v n)) [
  | inl h ↦
      let dn = has-Done v n h in
      let (dm, lt) = rank-lt types v n m o dn edge in
      (inr dm, rw (rank-cons (k, true) v m dm, rank-cons (k, true) v n dn) lt)
  | inr h ↦ elim d [
    | inl same ↦
        let dm = before m (subst (λ x. Edge types x m) (sym same) edge) in
        (inr dm, rw (rank-cons (k, true) v m dm, h) (omega (arith, rank-le v m)))
    | inr dn ↦ let bad : true ≡ false = sym (Done-has v n dn) ∙ h in cc
  ]
]

-- Types that pass the check can be ordered: there is a number for each name such that every type
-- refers, but in the arguments of a name and in the types of functions, to types of smaller
-- numbers only. So none refers to itself that way, directly or through others.
pub detect_type_cycles-ok :
    (types : TypeMap) (v : Marks)
    → detect_type_cycles types ≡ ok v
    → (rank : ResolvedName → ℕ) × ((n m : ResolvedName) → Edge types n m → rank m < rank n)
unfolding detect_type_cycles
detect_type_cycles-ok types v h =
    let r = visit_each-Visited (suc (length types)) types [] types v h in
    (
      rank v,
      λ n m edge.
          (rank-lt types v n m (r.in_order tt) (r.done n (get-IsKey types n edge.1)) edge).1,
    )
