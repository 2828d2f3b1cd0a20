-- ===== src/Typechecker/ValueCycle/Compile/Fuel.antt =====
-- src/typechecker/value_cycle.rs, `determine_uses_context`: the depth of its recursion, by the
-- number of names that have not been visited.
use roto.Prelude.{
  suc, ltb, ◌&&◌, true, false, ◌≡◌, ◌≢◌, inl, inr, refl, sym, subst, List, [], ◌∷◌, length, Option,
  none, some, Bool-cases, arith,
}
use roto.Typechecker.{ResolvedName}
use roto.Typechecker.Scope.{ScopeGraph, DeclarationKind}
use roto.Typechecker.ValueCycle.{RefGraph, done, contains}
use roto.Typechecker.ValueCycle.Stack.{Member}
use roto.Typechecker.ValueCycle.Total.{IsKey, IsKey-names, tarjan_lem}
use roto.Typechecker.ValueCycle.Unvisited.{names}
use roto.Typechecker.ValueCycle.Compile.{
  Check, passed, and_also, Order, rejected, if_passed, kind_of, is_constant, by_kind, Answers,
  Answer, returned, on_answer, check_self, check_members, check_components, check_each,
  context_check, check_order, find_compilation_order,
}
use roto.Typechecker.ValueCycle.Compile.Unseen.{
  unseen-length, Ends, HasFuel, determine_uses_context-HasFuel,
}

by_kind-enough :
    (o : Option DeclarationKind) (f : DeclarationKind → Check)
    → ((k : DeclarationKind) → f k ≢ Check.out_of_fuel)
    → by_kind o f ≢ Check.out_of_fuel
by_kind-enough none f enough h = cc
by_kind-enough (some k) f enough h = enough k h

check_self-enough : (g : ScopeGraph) (es : RefGraph) → check_self g es ≢ Check.out_of_fuel
unfolding check_self
check_self-enough g [] h = cc
check_self-enough g ((n, refs) ∷ es) h =
    by_kind-enough (kind_of g n) _
      (λ k h'. elim (Bool-cases (is_constant k && contains refs n)) [
        | inl found ↦ let bad : Check.recursive n ≡ Check.out_of_fuel = (rw found at h') in cc
        | inr other ↦ check_self-enough g es (rw other at h')
      ])
      h

check_members-enough :
    (g : ScopeGraph) (ns : List ResolvedName) → check_members g ns ≢ Check.out_of_fuel
unfolding check_members
check_members-enough g [] h = cc
check_members-enough g (n ∷ ns) h =
    by_kind-enough (kind_of g n) _
      (λ k h'. elim (Bool-cases (is_constant k)) [
        | inl constant ↦ let bad : Check.recursive n ≡ Check.out_of_fuel = (rw constant at h') in cc
        | inr other ↦ check_members-enough g ns (rw other at h')
      ])
      h

and_also-enough :
    (c d : Check) → c ≢ Check.out_of_fuel → d ≢ Check.out_of_fuel → and_also c d ≢ Check.out_of_fuel
and_also-enough passed d first second h = second h
and_also-enough c d first second h = first h

check_components-enough :
    (g : ScopeGraph) (cs : List (List ResolvedName)) → check_components g cs ≢ Check.out_of_fuel
unfolding check_components
check_components-enough g [] h = cc
check_components-enough g (c ∷ cs) h = elim (Bool-cases (ltb 1 (length c))) [
  | inl many ↦
      and_also-enough (check_members g c) (check_components g cs) (check_members-enough g c)
        (check_components-enough g cs) (rw many at h)
  | inr few ↦ check_components-enough g cs (rw few at h)
]

on_answer-enough :
    (visited : List ResolvedName) (n : ResolvedName) (rest : Answers → Check) (r : Answer)
    → Ends visited r
    → ((a : Answers) → rest a ≢ Check.out_of_fuel)
    → on_answer n rest r ≢ Check.out_of_fuel
unfolding Ends
on_answer-enough visited n rest (returned true a) e enough h = cc
on_answer-enough visited n rest (returned false a) e enough h = enough a h
on_answer-enough visited n rest Answer.panicked e enough h = cc
on_answer-enough visited n rest Answer.out_of_fuel e enough h = e

check_each-enough :
    (g : ScopeGraph) (edges : RefGraph) (a : Answers) (es : RefGraph)
    → ((x : ResolvedName) → IsKey es x → Member x (names edges))
    → check_each (suc (length (names edges))) g edges a es ≢ Check.out_of_fuel
unfolding check_each HasFuel
check_each-enough g edges a [] known h = cc
check_each-enough g edges a ((n, refs) ∷ es) known h =
    let rest : (a' : Answers)
        → check_each (suc (length (names edges))) g edges a' es ≢ Check.out_of_fuel =
      λ a'. check_each-enough g edges a' es (λ x key. known x (inr key)) in
    by_kind-enough (kind_of g n) _
      (λ k h'. elim (Bool-cases (is_constant k)) [
        | inl constant ↦
            on_answer-enough a.visited n _ _
              (determine_uses_context-HasFuel (suc (length (names edges))) g edges a n
                (known n (inl refl)) (omega (arith, unseen-length a.visited (names edges))))
              rest (rw constant at h')
        | inr other ↦ rest a (rw other at h')
      ])
      h

if_passed-enough :
    (c : Check) (o : Order)
    → c ≢ Check.out_of_fuel
    → o ≢ rejected Check.out_of_fuel
    → if_passed c o ≢ rejected Check.out_of_fuel
if_passed-enough passed o first second h = second h
if_passed-enough Check.panicked o first second h = cc
if_passed-enough Check.out_of_fuel o first second h = first refl
if_passed-enough (Check.recursive n) o first second h = cc
if_passed-enough (Check.uses_context n) o first second h = cc

-- The search for a compilation order ends for every graph of references, with fuel of one more
-- than the number of names in the graph: with an order, with an error, or with a panic.
pub find_compilation_order-fuel :
    (g : ScopeGraph) (edges : RefGraph)
    → find_compilation_order g edges ≢ rejected Check.out_of_fuel
unfolding find_compilation_order
find_compilation_order-fuel g edges =
    let (st, run, _, _) = tarjan_lem edges in
    let last : check_order g edges (done st) ≢ rejected Check.out_of_fuel =
      if_passed-enough (check_components g st.components) _
        (check_components-enough g st.components)
        (if_passed-enough (context_check g edges) _
          (check_each-enough g edges _ edges (IsKey-names edges)) (λ h. cc)) in
    if_passed-enough (check_self g edges) _ (check_self-enough g edges)
      (subst (λ o. check_order g edges o ≢ rejected Check.out_of_fuel) (sym run) last)
