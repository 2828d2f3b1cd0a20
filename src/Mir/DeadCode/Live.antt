-- ===== src/Mir/DeadCode/Live.antt =====
-- src/mir/dead_code.rs: the blocks that stay, against the flow of control between blocks as the
-- instructions of src/mir/mod.rs mean it.
use roto.Prelude.{
  ℕ, suc, true, false, ◌==◌, ◌≡◌, ◌≢◌, ◌↔◌, ◌⊎◌, inl, inr, refl, sym, ap, ◌∙◌, subst, List, [], ◌∷◌,
  ◌++◌, Option, none, some, some_inj, Bool-cases, ==→≡, ≡→==,
}
use roto.Mir.{Instruction, Block}
use roto.Prelude.Distinct.{In, In-cons, In-none}
use roto.Mir.DeadCode.{State, done, process_blocks, branch_labels, default_label}
use roto.Mir.DeadCode.Round.{exits, exits_of, labels, Reachable, entry, exit}
use roto.Mir.DeadCode.Reach.{process_blocks-Reachable}

-- A branch of a switch has the label.
abbrev pub HasBranch : List (ℕ × ℕ) → ℕ → Type 0
HasBranch [] l = ⊥
HasBranch ((n, m) ∷ bs) l = (m ≡ l) ⊎ HasBranch bs l

abbrev pub IsDefault : Option ℕ → ℕ → Type 0
IsDefault none l = ⊥
IsDefault (some d) l = d ≡ l

-- Instructions that are run in sequence can go to the label: by a jump, or by a branch or the default
-- of a switch, whichever ends the block.
abbrev pub GoesTo : List Instruction → ℕ → Type 0
GoesTo [] l = ⊥
GoesTo (Instruction.jump m ∷ is) l = m ≡ l
GoesTo (Instruction.switch v bs d ∷ is) l = HasBranch bs l ⊎ IsDefault d l
GoesTo (Instruction.return v ∷ is) l = ⊥
GoesTo (Instruction.assign p t v ∷ is) l = GoesTo is l
GoesTo (Instruction.set_discriminant v t k ∷ is) l = GoesTo is l
GoesTo (Instruction.drop p t ∷ is) l = GoesTo is l

-- Control goes from the block with the one label, the first with it, to the other label.
abbrev pub Edge : List Block → ℕ → ℕ → Type 0
Edge [] l l' = ⊥
Edge (b ∷ bs) l l' = ((b.label ≡ l) × GoesTo b.instructions l') ⊎ ((b.label ≢ l) × Edge bs l l')

-- The labels that control can come to from the first one
pub data IsLive (bs : List Block) (first : ℕ) : ℕ → Type 0 where
  at_first : IsLive bs first first
  onwards : (l l' : ℕ) → IsLive bs first l → Edge bs l l' → IsLive bs first l'

-- The labels that the pass collects
abbrev Collected : Option (List ℕ) → ℕ → Type 0
Collected o l = (ls : List ℕ) × (o ≡ some ls) × In l ls

In-head : (x l : ℕ) (ls : List ℕ) → x ≡ l → In l (x ∷ ls)
In-head x l ls same = (0, ap some same)

In-tail : (x l : ℕ) (ls : List ℕ) → In l ls → In l (x ∷ ls)
In-tail x l ls (k, e) = (suc k, e)

In-one : (x l : ℕ) → In l (x ∷ []) → x ≡ l
In-one x l m = elim (In-cons x l [] m) [
  | inl same ↦ same
  | inr none_left ↦ absurd (In-none l none_left)
]

IsDefault-In : (d : Option ℕ) (l : ℕ) → In l (default_label d) ↔ IsDefault d l
IsDefault-In none l = (In-none l, λ b. absurd b)
IsDefault-In (some x) l = (In-one x l, In-head x l [])

switch-In :
    (bs : List (ℕ × ℕ)) (d : Option ℕ) (l : ℕ)
    → In l (branch_labels bs ++ default_label d) ↔ (HasBranch bs l ⊎ IsDefault d l)
switch-In [] d l = (
  λ m. inr ((IsDefault-In d l).0 m),
  λ g. elim g [ inl b ↦ absurd b | inr e ↦ (IsDefault-In d l).1 e ],
)
switch-In ((n, x) ∷ bs) d l =
    let (out, into) = switch-In bs d l in
    (
      λ m. elim (In-cons x l (branch_labels bs ++ default_label d) m) [
        | inl same ↦ inl (inl same)
        | inr later ↦ elim (out later) [ inl b ↦ inl (inr b) | inr e ↦ inr e ]
      ],
      λ g. elim g [
        | inl (inl same) ↦ In-head x l (branch_labels bs ++ default_label d) same
        | inl (inr b) ↦ In-tail x l (branch_labels bs ++ default_label d) (into (inl b))
        | inr e ↦ In-tail x l (branch_labels bs ++ default_label d) (into (inr e))
      ],
    )

-- What an instruction that ends a block gives
collected : (xs : List ℕ) (l : ℕ) → Collected (some xs) l ↔ In l xs
collected xs l = (λ (ls, same, m). subst (In l) (sym (some_inj same)) m, λ m. (xs, refl, m))

exits-GoesTo : (is : List Instruction) (l : ℕ) → Collected (exits is) l ↔ GoesTo is l
exits-GoesTo [] l = (λ (ls, h, m). cc, λ g. absurd g)
exits-GoesTo (Instruction.jump x ∷ is) l = (
  λ c. In-one x l ((collected (x ∷ []) l).0 c),
  λ same. (collected (x ∷ []) l).1 (In-head x l [] same),
)
exits-GoesTo (Instruction.switch v bs d ∷ is) l = (
  λ c. (switch-In bs d l).0 ((collected (branch_labels bs ++ default_label d) l).0 c),
  λ g. (collected (branch_labels bs ++ default_label d) l).1 ((switch-In bs d l).1 g),
)
exits-GoesTo (Instruction.return v ∷ is) l = (λ c. In-none l ((collected [] l).0 c), λ g. absurd g)
exits-GoesTo (Instruction.assign p t v ∷ is) l = exits-GoesTo is l
exits-GoesTo (Instruction.set_discriminant v t k ∷ is) l = exits-GoesTo is l
exits-GoesTo (Instruction.drop p t ∷ is) l = exits-GoesTo is l

exits_of-Edge : (bs : List Block) (l l' : ℕ) → Collected (exits_of bs l) l' ↔ Edge bs l l'
exits_of-Edge [] l l' = (λ (ls, h, m). cc, λ e. absurd e)
exits_of-Edge (b ∷ bs) l l' = elim (Bool-cases (b.label == l)) [
  | inl same ↦
      let equal = ==→≡ b.label l same in
      rw same (
        λ c. inl (equal, (exits-GoesTo b.instructions l').0 c),
        λ e. elim e [
          | inl (_, g) ↦ (exits-GoesTo b.instructions l').1 g
          | inr (differ, _) ↦ absurd (differ equal)
        ],
      )
  | inr other ↦
      let differ : b.label ≢ l =
        λ equal. let bad : true ≡ false = sym (≡→== b.label l equal) ∙ other in cc in
      rw other (
        λ c. inr (differ, (exits_of-Edge bs l l').0 c),
        λ e. elim e [
          | inl (equal, _) ↦ absurd (differ equal)
          | inr (_, later) ↦ (exits_of-Edge bs l l').1 later
        ],
      )
]

Reachable-IsLive : (bs : List Block) (first l : ℕ) → Reachable bs first l → IsLive bs first l
Reachable-IsLive bs first _ entry = at_first
Reachable-IsLive bs first _ (exit l ls l' r e m) =
    onwards l l' (Reachable-IsLive bs first l r) ((exits_of-Edge bs l l').0 (ls, e, m))

IsLive-Reachable : (bs : List Block) (first l : ℕ) → IsLive bs first l → Reachable bs first l
IsLive-Reachable bs first _ at_first = entry
IsLive-Reachable bs first _ (onwards l l' r edge) =
    let (ls, e, m) = (exits_of-Edge bs l l').1 edge in
    exit l ls l' (IsLive-Reachable bs first l r) e m

-- Where the pass goes through, the labels of the blocks that stay are the labels of the blocks that
-- control can come to from the first one, and from each of those it goes where it went before: by
-- jumps and by the branches and defaults of switches.
pub process_blocks_lem :
    (b : Block) (bs : List Block) (st : State) (bs' : List Block)
    → process_blocks (b ∷ bs) ≡ done st bs'
    → ((l : ℕ) → In l (labels bs') ↔ (In l (labels (b ∷ bs)) × IsLive (b ∷ bs) b.label l))
      × ((l l' : ℕ) → IsLive (b ∷ bs) b.label l → Edge bs' l l' ↔ Edge (b ∷ bs) l l')
process_blocks_lem b bs st bs' h =
    let (stay, same_exits) = process_blocks-Reachable b bs st bs' h in
    (
      λ l. (
        λ m. let (n, r) = (stay l).0 m in (n, Reachable-IsLive (b ∷ bs) b.label l r),
        λ (n, r). (stay l).1 (n, IsLive-Reachable (b ∷ bs) b.label l r),
      ),
      λ l l' live.
          let same = same_exits l (IsLive-Reachable (b ∷ bs) b.label l live) in
          (
            λ e.
                (exits_of-Edge (b ∷ bs) l l').0
                  (subst (λ o. Collected o l') same ((exits_of-Edge bs' l l').1 e)),
            λ e.
                (exits_of-Edge bs' l l').0
                  (subst (λ o. Collected o l') (sym same) ((exits_of-Edge (b ∷ bs) l l').1 e)),
          ),
    )
