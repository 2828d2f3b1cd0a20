-- ===== src/Typechecker/ValueCycle/References.antt =====
-- src/typechecker/value_cycle.rs, `RefGraph::new`, `add_node` and `add_edge`: how the graph of
-- references is built. The map and its sets are in the order of names: by scope, then by identifier.
use roto.Prelude.{
  ltb, ◌==◌, Bool, true, false, ◌&&◌, ◌||◌, ◌≡◌, ◌⊎◌, inl, inr, refl, sym, ap, ◌∙◌, subst, List, [],
  ◌∷◌, Option, none, some, Bool-cases, arith, if◌then◌else◌,
}
use roto.Typechecker.{ResolvedName}
use roto.Typechecker.Scope.{name_eq}
use roto.Typechecker.Types.Equal.{name_eq→≡}
use roto.Typechecker.TypeCycle.{get}
use roto.Typechecker.TypeCycle.Marks.{name_eq_self}
use roto.Typechecker.ValueCycle.{RefGraph, targets, or_empty}
use roto.Typechecker.ValueCycle.Stack.{Member}
use roto.Typechecker.ValueCycle.Total.{IsKey}

-- `Ord` of `ResolvedName`
abbrev pub name_lt : ResolvedName → ResolvedName → Bool
name_lt a b = ltb a.scope b.scope || (a.scope == b.scope && ltb a.ident b.ident)

-- `BTreeSet::insert`
unfoldable pub insert_name : ResolvedName → List ResolvedName → List ResolvedName
insert_name n [] = n ∷ []
insert_name n (x ∷ xs) =
    let rest = insert_name n xs in
    if name_lt n x then n ∷ x ∷ xs else (if name_eq x n then x ∷ xs else x ∷ rest)

-- `entry(from).or_default()`, and what is done with the entry
unfoldable pub update_entry :
    (List ResolvedName → List ResolvedName) → ResolvedName → RefGraph → RefGraph
update_entry f from [] = (from, f []) ∷ []
update_entry f from ((v, ws) ∷ es) =
    let rest = update_entry f from es in
    if name_lt from v
    then (from, f []) ∷ (v, ws) ∷ es
    else (if name_eq v from then (v, f ws) ∷ es else (v, ws) ∷ rest)

-- `RefGraph::new`
abbrev pub new : RefGraph
new = []

-- `RefGraph::add_node`
abbrev pub add_node : RefGraph → ResolvedName → RefGraph
add_node g from = update_entry (λ ws. ws) from g

-- `RefGraph::add_edge`
abbrev pub add_edge : RefGraph → ResolvedName → ResolvedName → RefGraph
add_edge g from to = update_entry (insert_name to) from g

-- The order of names, as a proposition
abbrev Below : ResolvedName → ResolvedName → Type 0
Below a b = name_lt a b ≡ true

Below-trans : (a b c : ResolvedName) → Below a b → Below b c → Below a c
Below-trans a b c h k = ground arith

Below-not_eq : (a b : ResolvedName) → Below a b → name_eq b a ≡ false
Below-not_eq a b h = ground arith

-- Two names are in one order or the other, or equal.
Below-other : (a b : ResolvedName) → name_lt a b ≡ false → name_eq b a ≡ false → Below b a
Below-other a b h k = ground arith

name_eq-other :
    (a b n : ResolvedName) → name_eq a n ≡ true → name_eq a b ≡ false → name_eq b n ≡ false
name_eq-other a b n h k = ground arith

-- The keys of the map are in order.
abbrev Above : ResolvedName → RefGraph → Type 0
Above v es = (x : ResolvedName) → IsKey es x → Below v x

abbrev pub IsMap : RefGraph → Type 0
IsMap [] = Unit
IsMap ((v, ws) ∷ es) = ((x : ResolvedName) → IsKey es x → name_lt v x ≡ true) × IsMap es

-- The keys after an update
update_entry-IsKey :
    (f : List ResolvedName → List ResolvedName) (from : ResolvedName) (es : RefGraph)
    (x : ResolvedName)
    → IsKey (update_entry f from es) x
    → (from ≡ x) ⊎ IsKey es x
unfolding update_entry
update_entry-IsKey f from [] x key = key
update_entry-IsKey f from ((v, ws) ∷ es) x key = elim (Bool-cases (name_lt from v)) [
  | inl before ↦ (rw before at key)
  | inr after ↦ elim (Bool-cases (name_eq v from)) [
    | inl same ↦ let key' : IsKey ((v, f ws) ∷ es) x = (rw (after, same) at key) in inr key'
    | inr other ↦
        let key' : IsKey ((v, ws) ∷ update_entry f from es) x = (rw (after, other) at key) in
        elim key' [
          | inl first ↦ inr (inl first)
          | inr later ↦ elim (update_entry-IsKey f from es x later) [
            | inl new_key ↦ inl new_key
            | inr old ↦ inr (inr old)
          ]
        ]
  ]
]

-- An update keeps the keys in order.
pub update_entry-IsMap :
    (f : List ResolvedName → List ResolvedName) (from : ResolvedName) (es : RefGraph)
    → IsMap es
    → IsMap (update_entry f from es)
unfolding update_entry
update_entry-IsMap f from [] map = (λ x key. absurd key, tt)
update_entry-IsMap f from ((v, ws) ∷ es) (above, map) = elim (Bool-cases (name_lt from v)) [
  | inl before ↦ rw before (
    λ x key. elim key [
      | inl same ↦ subst (Below from) same before
      | inr later ↦ Below-trans from v x before (above x later)
    ],
    (above, map),
  )
  | inr after ↦ elim (Bool-cases (name_eq v from)) [
    | inl same ↦ rw (after, same) (above, map)
    | inr other ↦
        rw (after, other)
          (
            λ x key. elim (update_entry-IsKey f from es x key) [
              | inl new_key ↦ subst (Below v) new_key (Below-other from v after other)
              | inr old ↦ above x old
            ],
            update_entry-IsMap f from es map,
          )
  ]
]

absent : (n : ResolvedName) (es : RefGraph) → Above n es → get es n ≡ none
unfolding get
absent n [] above = refl
absent n ((v, ws) ∷ es) above =
    rw (get, Below-not_eq n v (above v (inl refl))) (absent n es (λ x key. above x (inr key)))

abbrev pub updated :
    (List ResolvedName → List ResolvedName)
    → ResolvedName
    → RefGraph
    → ResolvedName
    → Option (List ResolvedName)
updated f from es n = if name_eq from n then some (f (or_empty (get es from))) else get es n

-- In a map whose keys are in order, an update changes the entry of its key and no other; where there
-- is no entry, it starts from the empty one.
pub update_entry_lem :
    (f : List ResolvedName → List ResolvedName) (from : ResolvedName) (es : RefGraph)
    (n : ResolvedName)
    → IsMap es
    → get (update_entry f from es) n ≡ updated f from es n
unfolding update_entry get
update_entry_lem f from [] n map = refl
update_entry_lem f from ((v, ws) ∷ es) n (above, map) = elim (Bool-cases (name_lt from v)) [
  | inl before ↦
      let missing : get ((v, ws) ∷ es) from ≡ none = absent from ((v, ws) ∷ es) (λ x key. elim key [
        | inl same ↦ subst (Below from) same before
        | inr later ↦ Below-trans from v x before (above x later)
      ]) in
      rw before (
        ap (λ o. if name_eq from n then some (f (or_empty o)) else get ((v, ws) ∷ es) n)
          (sym missing))
  | inr after ↦ elim (Bool-cases (name_eq v from)) [
    | inl same ↦
        let equal = name_eq→≡ v from same in
        elim (Bool-cases (name_eq v n)) [
          | inl here ↦
              let here' = subst (λ z. name_eq z n ≡ true) equal here in
              rw (after, same, here, here') refl
          | inr there ↦
              let there' = subst (λ z. name_eq z n ≡ false) equal there in
              rw (after, same, there, there') refl
        ]
    | inr other ↦ elim (Bool-cases (name_eq v n)) [
      | inl here ↦ rw (after, other, here, name_eq-other v from n here other) refl
      | inr there ↦ rw (after, other, there) (update_entry_lem f from es n map)
    ]
  ]
]

insert_name-Member :
    (n : ResolvedName) (xs : List ResolvedName) (x : ResolvedName)
    → (Member x (insert_name n xs) → (n ≡ x) ⊎ Member x xs)
      × ((n ≡ x) ⊎ Member x xs → Member x (insert_name n xs))
unfolding insert_name
insert_name-Member n [] x = (λ m. m, λ m. m)
insert_name-Member n (y ∷ xs) x = elim (Bool-cases (name_lt n y)) [
  | inl before ↦ rw before (λ m. m, λ m. m)
  | inr after ↦ elim (Bool-cases (name_eq y n)) [
    | inl same ↦
        rw (after, same)
          (λ m. inr m, λ m. elim m [ inl first ↦ inl (name_eq→≡ y n same ∙ first) | inr old ↦ old ])
    | inr other ↦
        let (out, into) = insert_name-Member n xs x in
        rw (after, other)
          (
            λ m. elim m [
              | inl first ↦ inr (inl first)
              | inr later ↦ elim (out later) [
                | inl new_name ↦ inl new_name
                | inr old ↦ inr (inr old)
              ]
            ],
            λ m. elim m [
              | inl new_name ↦ inr (into (inl new_name))
              | inr (inl first) ↦ inl first
              | inr (inr later) ↦ inr (into (inr later))
            ],
          )
  ]
]

-- In a map whose keys are in order, adding an edge adds one reference and no other.
pub add_edge_lem :
    (g : RefGraph) (from to n w : ResolvedName)
    → IsMap g
    → (Member w (targets (add_edge g from to) n) → ((from ≡ n) × (to ≡ w)) ⊎ Member w (targets g n))
      × (((from ≡ n) × (to ≡ w)) ⊎ Member w (targets g n)
          → Member w (targets (add_edge g from to) n))
add_edge_lem g from to n w map =
    let entry = update_entry_lem (insert_name to) from g n map in
    elim (Bool-cases (name_eq from n)) [
      | inl same ↦
          let equal = name_eq→≡ from n same in
          let now : targets (add_edge g from to) n ≡ insert_name to (targets g n) =
            ap or_empty entry ∙ (rw same (ap (λ z. insert_name to (targets g z)) equal)) in
          let (out, into) = insert_name-Member to (targets g n) w in
          (
            λ m. elim (out (subst (Member w) now m)) [
              | inl new_name ↦ inl (equal, new_name)
              | inr old ↦ inr old
            ],
            λ m.
                subst (Member w) (sym now)
                  (elim m [ inl (_, new_name) ↦ into (inl new_name) | inr old ↦ into (inr old) ]),
          )
      | inr other ↦
          let now : targets (add_edge g from to) n ≡ targets g n =
            ap or_empty entry ∙ (rw other refl) in
          (
            λ m. inr (subst (Member w) now m),
            λ m. subst (Member w) (sym now) (elim m [
              | inl (equal, _) ↦
                  let bad = subst (λ z. name_eq from z ≡ true) equal (name_eq_self from) in
                  absurd (let bad' : true ≡ false = sym bad ∙ other in cc)
              | inr old ↦ old
            ]),
          )
    ]
