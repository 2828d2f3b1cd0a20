-- ===== src/Lir/Machine/Tests.antt =====
-- Blocks and parameters at concrete programs.
use roto.Prelude.{ℕ, ◌≡◌, refl, none, some, List, [], ◌∷◌}
use roto.Lir.Value.{IrValue, IrType}
use roto.Lir.Var.{var_eq}
use roto.Lir.Program.{Operand, Instruction, Block}
use roto.Lir.Machine.{Vars, insert, eval_operand, block_index, bind_args}
use roto.Lir.Machine.Binding.{parameter}

abbrev stop : Instruction
stop = Instruction.return none

abbrev block_of_two : Block
block_of_two = record { label = 4; instructions = Instruction.jump 9 ∷ stop ∷ [] }

abbrev last_block : Block
last_block = record { label = 9; instructions = stop ∷ [] }

block_index-last : block_index (block_of_two ∷ last_block ∷ []) 0 9 ≡ some 2
unfolding block_index
block_index-last = refl

abbrev pair_values : Vars
pair_values =
    insert (parameter 0 0) (IrValue.u8 10) (insert (parameter 0 1) (IrValue.u8 20) (λ _. none))

abbrev constants_bound : Vars
constants_bound =
    insert (parameter 3 1) (IrValue.u8 10) (insert (parameter 3 0) (IrValue.u8 7) pair_values)

abbrev two_parameters : List (ℕ × IrType)
two_parameters = (0, IrType.u8) ∷ (1, IrType.u8) ∷ []

bind_args-pair :
    bind_args 3 two_parameters
      (Operand.value (IrValue.u8 7) ∷ Operand.place (parameter 0 0) ∷ [])
      pair_values
    ≡ some constants_bound
unfolding bind_args eval_operand var_eq
bind_args-pair = refl

abbrev overwritten : Vars
overwritten =
    insert (parameter 0 1) (IrValue.u8 20) (insert (parameter 0 0) (IrValue.u8 20) pair_values)

bind_args-exchanged :
    bind_args 0 two_parameters
      (Operand.place (parameter 0 1) ∷ Operand.place (parameter 0 0) ∷ [])
      pair_values
    ≡ some overwritten
unfolding bind_args eval_operand var_eq
bind_args-exchanged = refl
