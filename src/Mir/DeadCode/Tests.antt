-- ===== src/Mir/DeadCode/Tests.antt =====
-- An item with a loop, a block that nothing goes to, and instructions behind a jump.
use roto.Prelude.{ℕ, ◌≡◌, ◌↔◌, refl, some, List, [], ◌∷◌}
use roto.Mir.{Instruction, Block, Var, VarKind}
use roto.Mir.DeadCode.{
  process_blocks, process_labels, process_label, process_block, process_instructions, add_each, add,
  State, done,
}
use roto.Prelude.Distinct.{In}
use roto.Mir.DeadCode.Round.{labels}
use roto.Mir.DeadCode.Live.{IsLive, Edge, process_blocks_lem}
use roto.Mir.DeadCode.Fuel.{IsWellFormed, process_blocks_total}

abbrev flag : Var
flag = record { scope = 0; kind = VarKind.tmp 0 }

abbrev first_block : Block
first_block = record { label = 1; instructions = Instruction.jump 3 ∷ Instruction.return flag ∷ [] }

abbrev unused_block : Block
unused_block = record { label = 2; instructions = Instruction.jump 1 ∷ [] }

abbrev loop_block : Block
loop_block = record {
  label = 3;
  instructions = Instruction.switch flag ((0, 4) ∷ []) (some 3) ∷ [];
}

abbrev last_block : Block
last_block = record { label = 4; instructions = Instruction.return flag ∷ [] }

abbrev other_blocks : List Block
other_blocks = unused_block ∷ loop_block ∷ last_block ∷ []

abbrev blocks_left : List Block
blocks_left =
    record first_block { instructions = Instruction.jump 3 ∷ [] } ∷ loop_block ∷ last_block ∷ []

process_blocks-example :
    process_blocks (first_block ∷ other_blocks) ≡ done (1 ∷ 3 ∷ 4 ∷ []) blocks_left
unfolding process_blocks process_labels process_label process_block process_instructions add_each
    add
process_blocks-example = refl

process_blocks_lem_example :
    ((l : ℕ)
      → In l (labels blocks_left)
        ↔ (In l (labels (first_block ∷ other_blocks)) × IsLive (first_block ∷ other_blocks) 1 l))
    × ((l l' : ℕ)
        → IsLive (first_block ∷ other_blocks) 1 l
        → Edge blocks_left l l' ↔ Edge (first_block ∷ other_blocks) l l')
process_blocks_lem_example =
    process_blocks_lem first_block other_blocks (1 ∷ 3 ∷ 4 ∷ []) blocks_left process_blocks-example

blocks-IsWellFormed : IsWellFormed (first_block ∷ other_blocks)
blocks-IsWellFormed = (
  (3 ∷ [], refl, ((2, refl), tt)),
  (
    (1 ∷ [], refl, ((0, refl), tt)),
    ((4 ∷ 3 ∷ [], refl, ((3, refl), ((2, refl), tt))), (([], refl, tt), tt)),
  ),
)

process_blocks_total_example :
    (st : State) × (bs' : List Block) × (process_blocks (first_block ∷ other_blocks) ≡ done st bs')
process_blocks_total_example = process_blocks_total first_block other_blocks blocks-IsWellFormed
