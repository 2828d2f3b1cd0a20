-- ===== src/Typechecker/ValueCycle/Compile/Passed.antt =====
-- src/typechecker/value_cycle.rs, `find_compilation_order`: what the checks on the constants rule out.
use roto.Prelude.{
  ℕ, zero, suc, Bool, true, false, ◌&&◌, ◌≡◌, inl, inr, refl, sym, ap, ◌∙◌, subst, List, [], ◌∷◌,
  length, get_elem?, Option, none, some, some_inj, Bool-cases, arith, if◌then◌else◌, ltb,
}
use roto.Typechecker.{ResolvedName}
use roto.Typechecker.Scope.{ScopeGraph, DeclarationKind, name_eq}
use roto.Typechecker.Types.Equal.{name_eq→≡}
use roto.Typechecker.TypeCycle.{get}
use roto.Typechecker.ValueCycle.{RefGraph, contains}
use roto.Typechecker.ValueCycle.Stack.{Member}
use roto.Typechecker.ValueCycle.Compile.{
  Check, passed, and_also, Order, ordered, rejected, if_passed, kind_of, is_constant, by_kind,
  check_self, check_members, check_components,
}

-- The name is declared as a constant.
abbrev pub IsConstant : ScopeGraph → ResolvedName → Type 0
IsConstant g n = (k : DeclarationKind) × (kind_of g n ≡ some k) × (is_constant k ≡ true)

pub if_passed-ordered :
    (c : Check) (o : Order) {l : List ResolvedName}
    → if_passed c o ≡ ordered l
    → (c ≡ passed) × (o ≡ ordered l)
if_passed-ordered passed o h = (refl, h)
if_passed-ordered c o h = cc

order_of : Order → List ResolvedName
order_of (ordered l) = l
order_of (rejected c) = []

pub ordered_inj : {l m : List ResolvedName} → ordered l ≡ ordered m → l ≡ m
unfolding order_of
ordered_inj h = ap order_of h

and_also-passed : (c d : Check) → and_also c d ≡ passed → (c ≡ passed) × (d ≡ passed)
and_also-passed passed d h = (refl, h)
and_also-passed c d h = cc

pub by_kind-passed :
    (o : Option DeclarationKind) (f : DeclarationKind → Check)
    → by_kind o f ≡ passed
    → (k : DeclarationKind) × (o ≡ some k) × (f k ≡ passed)
by_kind-passed none f h = cc
by_kind-passed (some k) f h = (k, refl, h)

-- A test that passes goes on, where it could only fail with an error.
if-passed :
    (b : Bool) (n : ResolvedName) (c : Check)
    → (if b then Check.recursive n else c) ≡ passed
    → (b ≡ false) × (c ≡ passed)
if-passed true n c h = cc
if-passed false n c h = (refl, h)

pub check_self-passed :
    (g : ScopeGraph) (es : RefGraph) (n : ResolvedName) (refs : List ResolvedName)
    → check_self g es ≡ passed
    → get es n ≡ some refs
    → IsConstant g n
    → contains refs n ≡ false
unfolding check_self get
check_self-passed g [] n refs h at c = cc
check_self-passed g ((m, us) ∷ es) n refs h at (k, kind, constant) =
    let (k', kind', tested) = by_kind-passed (kind_of g m) _ h in
    let (no_self, rest) = if-passed (is_constant k' && contains us m) m (check_self g es) tested in
    elim (Bool-cases (name_eq m n)) [
      | inl same ↦
          let equal = name_eq→≡ m n same in
          let out : some us ≡ some refs = (rw (get, same) at at) in
          let kinds : k ≡ k' = some_inj (sym kind ∙ ap (kind_of g) (sym equal) ∙ kind') in
          let constant' : is_constant k' ≡ true = sym (ap is_constant kinds) ∙ constant in
          let not_in : contains us m ≡ false = (rw constant' at no_self) in
          rw (← some_inj out, ← equal) not_in
      | inr other ↦ check_self-passed g es n refs rest (rw (get, other) at at) (k, kind, constant)
    ]

check_members-passed :
    (g : ScopeGraph) (c : List ResolvedName) (x : ResolvedName)
    → check_members g c ≡ passed
    → Member x c
    → IsConstant g x
    → ⊥
unfolding check_members
check_members-passed g [] x h m constant = m
check_members-passed g (n ∷ ns) x h m (k, kind, constant) =
    let (k', kind', tested) = by_kind-passed (kind_of g n) _ h in
    let (not_constant, rest) = if-passed (is_constant k') n (check_members g ns) tested in
    elim m [
      | inl same ↦
          let kinds : k ≡ k' = some_inj (sym kind ∙ ap (kind_of g) (sym same) ∙ kind') in
          let bad : true ≡ false = sym constant ∙ ap is_constant kinds ∙ not_constant in cc
      | inr m' ↦ check_members-passed g ns x rest m' (k, kind, constant)
    ]

single :
    (c : List ResolvedName) (x : ResolvedName) → ltb 1 (length c) ≡ false → Member x c → c ≡ x ∷ []
single [] x h m = absurd m
single (y ∷ []) x h (inl same) = ap (λ z. z ∷ []) same
single (y ∷ []) x h (inr m) = absurd m
single (y ∷ z ∷ c) x h m = absurd (ground arith)

-- A constant is alone in its component.
pub check_components-passed :
    (g : ScopeGraph) (cs : List (List ResolvedName)) (i : ℕ) (c : List ResolvedName)
    (x : ResolvedName)
    → check_components g cs ≡ passed
    → get_elem? cs i ≡ some c
    → Member x c
    → IsConstant g x
    → c ≡ x ∷ []
unfolding check_components
check_components-passed g [] i c x h at m constant = cc
check_components-passed g (d ∷ cs) zero c x h at m constant =
    let same = some_inj at in
    sym same ∙ elim (Bool-cases (ltb 1 (length d))) [
      | inl many ↦
          let h' : and_also (check_members g d) (check_components g cs) ≡ passed = (rw many at h) in
          let (members, rest) = and_also-passed (check_members g d) (check_components g cs) h' in
          absurd (check_members-passed g d x members (subst (Member x) (sym same) m) constant)
      | inr few ↦ single d x few (subst (Member x) (sym same) m)
    ]
check_components-passed g (d ∷ cs) (suc i) c x h at m constant =
    let rest : check_components g cs ≡ passed = elim (Bool-cases (ltb 1 (length d))) [
      | inl many ↦
          let h' : and_also (check_members g d) (check_components g cs) ≡ passed = (rw many at h) in
          (and_also-passed (check_members g d) (check_components g cs) h').1
      | inr few ↦ (rw few at h)
    ] in
    check_components-passed g cs i c x rest at m constant
