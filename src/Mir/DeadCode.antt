-- ===== src/Mir/DeadCode.antt =====
-- src/mir/dead_code.rs: the elimination of dead code. A panic is `panicked`; the loop over the
-- labels, which grow while it runs, gives up when its fuel is used up.
pub mod Labels
pub mod Round
pub mod Reach
pub mod Live
pub mod Finite
pub mod Fuel
mod Tests
use roto.Prelude.{
  ℕ, zero, suc, ◌+◌, Bool, true, false, Option, some, none, List, [], ◌∷◌, ◌++◌, length, get_elem?,
  ◌==◌, ◌||◌, ltb, if◌then◌else◌, ◌>>=◌, map,
}
use roto.Mir.{Instruction, Block, Item}

-- `State`: the labels that are found to be reachable, in the order they were found in.
abbrev pub State : Type 0
State = List ℕ

-- `State::contains`
abbrev pub contains : State → ℕ → Bool
contains [] l = false
contains (x ∷ xs) l = x == l || contains xs l

-- `State::add`
pub add : State → ℕ → State
add st l = if contains st l then st else st ++ l ∷ []

pub add_each : State → List ℕ → State
unfolding add
add_each st [] = st
add_each st (l ∷ ls) = add_each (add st l) ls

abbrev pub default_label : Option ℕ → List ℕ
default_label none = []
default_label (some l) = l ∷ []

abbrev pub branch_labels : List (ℕ × ℕ) → List ℕ
branch_labels [] = []
branch_labels ((n, l) ∷ bs) = l ∷ branch_labels bs

-- The labels that an instruction goes to where it ends its block, in the order they are added in.
abbrev pub targets : Instruction → Option (List ℕ)
targets (Instruction.jump l) = some (l ∷ [])
targets (Instruction.switch examinee branches default) =
    some (branch_labels branches ++ default_label default)
targets (Instruction.return var) = some []
targets _ = none

-- The loop of `process_block`: the labels are added, and what is behind the first instruction that
-- ends a block is cut off. A block without one is malformed.
pub process_instructions : State → List Instruction → Option (State × List Instruction)
unfolding add_each
process_instructions st [] = none
process_instructions st (i ∷ is) =
    let rest = process_instructions st is in
    elim (targets i) [
      | some ls ↦ some (add_each st ls, i ∷ [])
      | none ↦ rest >>= λ (st', is'). some (st', i ∷ is')
    ]

-- `process_block`
pub process_block : State → Block → Option (State × Block)
unfolding process_instructions
process_block st b = do
  (st', is) ← process_instructions st b.instructions
  some (st', record b { instructions = is })

-- `process_block` of the first block that has the label, in its place.
pub process_label : State → List Block → ℕ → Option (State × List Block)
unfolding process_block
process_label st [] l = none
process_label st (b ∷ bs) l =
    let rest = process_label st bs l in
    if b.label == l
    then (process_block st b >>= λ (st', b'). some (st', b' ∷ bs))
    else (rest >>= λ (st', bs'). some (st', b ∷ bs'))

abbrev pub retain : State → List Block → List Block
retain st [] = []
retain st (b ∷ bs) = if contains st b.label then b ∷ retain st bs else retain st bs

pub data Outcome : Type 0 where
  done : State → List Block → Outcome
  panicked out_of_fuel : Outcome

-- The loop of `process_item`, which stands before the label of index `i`.
pub process_labels : ℕ → ℕ → State → List Block → Outcome
unfolding process_label
process_labels zero i st bs = if ltb i (length st) then out_of_fuel else done st bs
process_labels (suc fuel) i st bs = elim (get_elem? st i) [
  | none ↦ done st bs
  | some l ↦ elim (process_label st bs l) [
    | none ↦ panicked
    | some (st', bs') ↦ process_labels fuel (suc i) st' bs'
  ]
]

-- `process_item` on the blocks of an item, with one round more than there are blocks.
pub process_blocks : List Block → Outcome
unfolding process_labels
process_blocks [] = panicked
process_blocks (b ∷ bs) = elim (process_labels (suc (length (b ∷ bs))) 0 (b.label ∷ []) (b ∷ bs)) [
  | done st bs' ↦ done st (retain st bs')
  | panicked ↦ panicked
  | out_of_fuel ↦ out_of_fuel
]

-- `process_item`; `none` where the pass panics or gives up.
pub process_item : Item → Option Item
unfolding process_blocks
process_item item = elim (process_blocks item.blocks) [
  | done st bs ↦ some (record item { blocks = bs })
  | panicked ↦ none
  | out_of_fuel ↦ none
]

-- `Mir::eliminate_dead_code`
pub eliminate_dead_code : List Item → Option (List Item)
unfolding process_item
eliminate_dead_code [] = some []
eliminate_dead_code (i ∷ is) = do some ((← process_item i) ∷ (← eliminate_dead_code is))
