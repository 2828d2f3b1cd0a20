-- ===== src/Lir/Eval.antt =====
-- src/lir/eval.rs, `eval`: one round of its loop as a step, and the loop on fuel. A panic is `none`.
pub mod Calls
pub mod Keeps
pub mod Runs
pub mod Store
mod Tests
use roto.Prelude.{
  ℕ, zero, suc, ◌+◌, ◌-◌, ◌≤◌, Bool, true, false, Option, some, none, List, [], ◌∷◌, ◌++◌, length,
  get_elem?, leb, ◌==◌, if◌then◌else◌, ◌>>=◌, ◌>>◌, assert,
}
use roto.Layout.{Layout}
use roto.Lir.Value
use roto.Lir.Value.{IrValue, IrType}
use roto.Lir.Var.{Var, VarKind}
use roto.Lir.Memory
use roto.Lir.Memory.{Memory, Pointer, StackFrame}
use roto.Lir.Program.{Operand, Instruction, Item}
use roto.Lir.Arith
use roto.Lir.Machine.{
  Host, Vars, Machine, insert, eval_operand, eval_pointer, block_index, find_item, branch_label,
  allocate_slots, bind_values, eval_call, instructions_of, all_blocks, parameters_of, return_ptr_of,
}
use roto.Lir.Instructions.{
  compare_by, Outcome, advance, assign, binary, eval_all, eval_call_runtime, eval_clone,
  eval_constant_address, eval_copy, eval_drop, eval_eq, eval_init_string, eval_initialize,
  eval_jump, eval_offset, eval_optional, eval_read, eval_return, eval_switch, eval_write, goto,
  resume, return_to, returned, running,
}

-- How a run ends.
pub data Run : Type 0 where
  finished : Option IrValue → Memory → Run
  panicked out_of_fuel : Run

-- The check of the number of arguments, and the pointer for the return value, which comes first
-- where the item takes one.
abbrev pub split_return : Bool → ℕ → ℕ → List IrValue → Vars → Option (List IrValue × Vars)
split_return false n scope args vars = do assert (n == length args); some (args, vars)
split_return true n scope [] vars = none
split_return true n scope (a ∷ args) vars = do
  assert (n == length args)
  some (args, insert (record { scope = scope; kind = VarKind.return }) a vars)

module _ (host : Host) (p : List Item) where
  -- The arms of the `match` on the instruction. `Not` stores the operand as it is.
  pub eval_instruction : Instruction → Machine → Option Outcome
  unfolding eval_operand eval_pointer eval_call eval_return eval_drop branch_label block_index
  eval_instruction (Instruction.jump b) m = eval_jump p b m
  eval_instruction (Instruction.switch examinee branches default) m =
      eval_switch p examinee branches default m
  eval_instruction (Instruction.assign to val ty) m = do
    v ← eval_operand m.vars val
    some (assign to v m.mem m)
  eval_instruction (Instruction.function_address to name) m = none
  eval_instruction (Instruction.constant_address to name) m = eval_constant_address host to name m
  eval_instruction (Instruction.call to ctx func args return_ptr) m = do
    m' ← eval_call p to ctx func args return_ptr m
    some (running m')
  eval_instruction (Instruction.call_runtime func args) m = eval_call_runtime host func args m
  eval_instruction (Instruction.return ret) m = eval_return ret m
  eval_instruction (Instruction.int_cmp to cmp left right) m =
      compare_by (Arith.eval_int_cmp cmp) to left right m
  eval_instruction (Instruction.float_cmp to cmp left right) m =
      compare_by (Arith.eval_float_cmp host.floats cmp) to left right m
  eval_instruction (Instruction.not to val) m = do
    v ← eval_operand m.vars val
    b ← Value.as_bool v
    some (assign to (IrValue.bool b) m.mem m)
  eval_instruction (Instruction.negate to val) m = do
    v ← eval_operand m.vars val
    w ← Arith.eval_negate v
    some (assign to w m.mem m)
  eval_instruction (Instruction.add to left right) m = binary Arith.eval_add to left right m
  eval_instruction (Instruction.sub to left right) m = binary Arith.eval_sub to left right m
  eval_instruction (Instruction.mul to left right) m = binary Arith.eval_mul to left right m
  eval_instruction (Instruction.div to signed left right) m = binary Arith.eval_div to left right m
  eval_instruction (Instruction.modulo to signed left right) m =
      binary Arith.eval_mod to left right m
  eval_instruction (Instruction.fdiv to left right) m =
      binary (Arith.eval_fdiv host.floats) to left right m
  eval_instruction (Instruction.offset to from offset) m = eval_offset host to from offset m
  eval_instruction (Instruction.initialize to bytes layout) m =
      eval_initialize host to bytes layout m
  eval_instruction (Instruction.write to val) m = eval_write host to val m
  eval_instruction (Instruction.read to from ty) m = eval_read host to from ty m
  eval_instruction (Instruction.copy to from size) m = eval_copy host to from size m
  eval_instruction (Instruction.clone to from clone_fn) m = eval_clone host to from clone_fn m
  eval_instruction (Instruction.drop var d) m = eval_drop host var d m
  eval_instruction (Instruction.eq to left right eq_fn) m = eval_eq host to left right eq_fn m
  eval_instruction (Instruction.init_string to string init_func) m =
      eval_init_string host to string m

  -- One round of the loop.
  pub step : Machine → Option Outcome
  unfolding eval_instruction
  step m = do i ← get_elem? (instructions_of (all_blocks p)) m.program_counter; eval_instruction i m

  -- The loop: a panic, a return, or no fuel.
  pub run_from : ℕ → Option Outcome → Run
  unfolding step
  run_from fuel none = panicked
  run_from fuel (some (returned v mem)) = finished v mem
  run_from zero (some (running m)) = out_of_fuel
  run_from (suc fuel) (some (running m)) = run_from fuel (step m)

  -- The state that the loop starts in.
  pub start : ℕ → Memory → IrValue → List IrValue → Option Machine
  unfolding find_item allocate_slots bind_values block_index
  start name mem ctx args = do
    item ← find_item p name
    let by_ptr = return_ptr_of item.kind
    let context = insert (record { scope = item.scope; kind = VarKind.context }) ctx (λ _. none)
    (values, vars) ← split_return by_ptr (length (parameters_of item.kind)) item.scope args context
    (vars', mem') ←
        allocate_slots item.variables (bind_values item.scope (parameters_of item.kind) values vars)
          mem
    pc ← block_index (all_blocks p) 0 item.entry_block
    some (record { vars = vars'; mem = mem'; program_counter = pc })

  -- `eval` with a number of rounds after which it gives up.
  pub eval : ℕ → ℕ → Memory → IrValue → List IrValue → Run
  unfolding start run_from
  eval fuel name mem ctx args = run_from fuel (start name mem ctx args >>= λ m. some (running m))
