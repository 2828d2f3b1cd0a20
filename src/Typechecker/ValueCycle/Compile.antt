-- ===== src/Typechecker/ValueCycle/Compile.antt =====
-- src/typechecker/value_cycle.rs, `find_compilation_order` and `context_check`: the checks on
-- constants. What the loops keep of the context is a map of answers, with the latest entry first,
-- and the list of visited names. An error carries the name of the constant that it is about.
pub mod Passed
pub mod Before
pub mod Explored
pub mod Context
pub mod Justified
pub mod Unseen
pub mod Fuel
mod Tests
use roto.Prelude.{
  ℕ, zero, suc, Bool, true, false, ◌&&◌, ltb, if◌then◌else◌, List, [], ◌∷◌, ◌++◌, length, Option,
  none, some, ◌>>=◌,
}
use roto.Typechecker.{ResolvedName}
use roto.Typechecker.Scope.{ScopeGraph, DeclarationKind, ValueKind}
use roto.Typechecker.Scope.Inserts.{get_declaration}
use roto.Typechecker.TypeCycle.{get}
use roto.Typechecker.ValueCycle.{RefGraph, State, Outcome, done, contains, targets, tarjan}
use roto.Typechecker.ValueCycle.Unvisited.{names}

pub data Check : Type 0 where
  passed panicked out_of_fuel : Check
  recursive uses_context : ResolvedName → Check

-- The first check, and the second if the first passes.
abbrev pub and_also : Check → Check → Check
and_also passed c = c
and_also c d = c

-- `Ok` with the order, or how a check ended that did not pass.
pub data Order : Type 0 where
  ordered : List ResolvedName → Order
  rejected : Check → Order

abbrev pub if_passed : Check → Order → Order
if_passed passed o = o
if_passed c o = rejected c

abbrev pub kind_of : ScopeGraph → ResolvedName → Option DeclarationKind
kind_of g n = get_declaration g n >>= λ d. some d.kind

abbrev pub is_constant : DeclarationKind → Bool
is_constant (DeclarationKind.value ValueKind.constant t) = true
is_constant _ = false

abbrev pub is_context : DeclarationKind → Bool
is_context (DeclarationKind.value (ValueKind.context c) t) = true
is_context _ = false

-- `get_declaration` panics where there is no declaration.
abbrev pub by_kind : Option DeclarationKind → (DeclarationKind → Check) → Check
by_kind none f = panicked
by_kind (some k) f = f k

-- The first loop: no constant refers to itself.
unfoldable pub check_self : ScopeGraph → RefGraph → Check
check_self g [] = passed
check_self g ((n, refs) ∷ es) =
    let rest = check_self g es in
    by_kind (kind_of g n) λ k. if is_constant k && contains refs n then recursive n else rest

-- The second loop: a component of more than one value has no constant.
unfoldable pub check_members : ScopeGraph → List ResolvedName → Check
check_members g [] = passed
check_members g (n ∷ ns) =
    let rest = check_members g ns in
    by_kind (kind_of g n) λ k. if is_constant k then recursive n else rest

unfoldable pub check_components : ScopeGraph → List (List ResolvedName) → Check
check_components g [] = passed
check_components g (c ∷ cs) =
    let rest = check_components g cs in
    if ltb 1 (length c) then and_also (check_members g c) rest else rest

-- What `determine_uses_context` keeps between its calls.
pub record Answers : Type 0 where
  pub uses_context : List (ResolvedName × Bool)
  pub visited : List ResolvedName

pub data Answer : Type 0 where
  returned : Bool → Answers → Answer
  panicked out_of_fuel : Answer

abbrev pub and_then : Answer → (Bool → Answers → Answer) → Answer
and_then (returned b a) f = f b a
and_then panicked f = panicked
and_then out_of_fuel f = out_of_fuel

abbrev pub with_answer : Answers → ResolvedName → Bool → Answer
with_answer a n b = returned b (record a { uses_context = (n, b) ∷ a.uses_context })

-- The loop over the references of a name
unfoldable pub any_uses : (Answers → ResolvedName → Answer) → Answers → List ResolvedName → Answer
any_uses u a [] = returned false a
any_uses u a (r ∷ rs) = and_then (u a r) λ b a'. if b then returned true a' else any_uses u a' rs

abbrev pub unanswered :
    (Answers → ResolvedName → Answer)
    → RefGraph
    → Answers
    → ResolvedName
    → Option DeclarationKind
    → Answer
unanswered u edges a n none = panicked
unanswered u edges a n (some k) =
    if is_context k
    then with_answer a n true
    else (and_then (any_uses u (record a { visited = n ∷ a.visited }) (targets edges n))
        λ b a'. with_answer a' n b)

abbrev pub by_answer : Answers → Answer → Option Bool → Answer
by_answer a otherwise (some b) = returned b a
by_answer a otherwise none = otherwise

-- `determine_uses_context`
unfoldable pub determine_uses_context : ℕ → ScopeGraph → RefGraph → Answers → ResolvedName → Answer
determine_uses_context zero g edges a n = out_of_fuel
determine_uses_context (suc fuel) g edges a n =
    by_answer a
      (if contains a.visited n
        then returned false a
        else unanswered (determine_uses_context fuel g edges) edges a n (kind_of g n))
      (get a.uses_context n)

-- The loop of `context_check`, and the whole of it
abbrev pub on_answer : ResolvedName → (Answers → Check) → Answer → Check
on_answer n rest (returned true a) = uses_context n
on_answer n rest (returned false a) = rest a
on_answer n rest panicked = panicked
on_answer n rest out_of_fuel = out_of_fuel

unfoldable pub check_each : ℕ → ScopeGraph → RefGraph → Answers → RefGraph → Check
check_each fuel g edges a [] = passed
check_each fuel g edges a ((n, refs) ∷ es) = by_kind (kind_of g n) λ k.
    if is_constant k
    then on_answer n (λ a'. check_each fuel g edges a' es) (determine_uses_context fuel g edges a n)
    else check_each fuel g edges a es

abbrev pub context_check : ScopeGraph → RefGraph → Check
context_check g edges =
    check_each (suc (length (names edges))) g edges (record { uses_context = []; visited = [] })
      edges

abbrev pub flatten : List (List ResolvedName) → List ResolvedName
flatten [] = []
flatten (c ∷ cs) = c ++ flatten cs

abbrev pub check_order : ScopeGraph → RefGraph → Outcome → Order
check_order g edges (done st) =
    if_passed (check_components g st.components)
      (if_passed (context_check g edges) (ordered (flatten st.components)))
check_order g edges Outcome.panicked = rejected panicked
check_order g edges Outcome.out_of_fuel = rejected out_of_fuel

-- `find_compilation_order`
unfoldable pub find_compilation_order : ScopeGraph → RefGraph → Order
find_compilation_order g edges =
    if_passed (check_self g edges) (check_order g edges (tarjan (suc (length (names edges))) edges))
