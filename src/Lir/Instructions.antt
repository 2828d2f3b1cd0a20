-- ===== src/Lir/Instructions.antt =====
-- src/lir/eval.rs: the arms of the `match` on the instruction in `eval`. A panic is `none`.
use roto.Prelude.{
  ℕ, ◌+◌, Bool, Option, some, none, List, [], ◌∷◌, length, leb, ◌==◌, ◌>>=◌, ◌>>◌, assert,
}
use roto.Layout.{Layout}
use roto.Lir.Value
use roto.Lir.Value.{IrValue, IrType}
use roto.Lir.Var.{Var}
use roto.Lir.Memory
use roto.Lir.Memory.{Memory, Pointer, StackFrame}
use roto.Lir.Program.{Operand, Item}
use roto.Typechecker.{ResolvedName}
use roto.Lir.Machine.{
  Host, Vars, Machine, insert, eval_operand, eval_pointer, block_index, branch_label, all_blocks,
}

pub data Outcome : Type 0 where
  running : Machine → Outcome
  returned : Option IrValue → Memory → Outcome

-- The end of the loop's body, `program_counter += 1`, alone and behind `vars.insert`.
abbrev pub advance : Memory → Machine → Outcome
advance mem m =
    running (record { vars = m.vars; mem = mem; program_counter = m.program_counter + 1 })

abbrev pub assign : Var → IrValue → Memory → Machine → Outcome
assign v x mem m =
    running
      (record { vars = insert v x m.vars; mem = mem; program_counter = m.program_counter + 1 })

abbrev pub goto : ℕ → Machine → Outcome
goto i m = running (record m { program_counter = i })

abbrev pub eval_optional : Vars → Option Operand → Option (Option IrValue)
eval_optional vars none = some none
eval_optional vars (some op) = do some (some (← eval_operand vars op))

abbrev pub eval_all : Vars → List Operand → Option (List IrValue)
eval_all vars [] = some []
eval_all vars (op ∷ ops) = do some ((← eval_operand vars op) ∷ (← eval_all vars ops))

-- The caller goes on behind its call, with the result in the place that it named.
unfoldable pub resume : Option IrValue → StackFrame → Vars → Memory → Option Outcome
resume none f vars mem =
    some (running (record { vars = vars; mem = mem; program_counter = f.return_address + 1 }))
resume (some v) f vars mem = do
  place ← f.return_place
  some (
      running
        (record { vars = insert place v vars; mem = mem; program_counter = f.return_address + 1 }))

abbrev pub return_to : Option IrValue → Machine → Option (StackFrame × Memory) → Option Outcome
return_to val m none = some (returned val m.mem)
return_to val m (some (f, mem)) = resume val f m.vars mem

-- `Instruction::Return`
unfoldable pub eval_return : Option Operand → Machine → Option Outcome
unfolding resume eval_operand
eval_return ret m = do val ← eval_optional m.vars ret; return_to val m (Memory.pop_frame m.mem)

-- The instructions that compute a value from two values.
abbrev pub binary :
    (IrValue → IrValue → Option IrValue) → Var → Operand → Operand → Machine → Option Outcome
binary f to left right m = do
  l ← eval_operand m.vars left
  r ← eval_operand m.vars right
  v ← f l r
  some (assign to v m.mem m)

abbrev pub compare_by :
    (IrValue → IrValue → Option Bool) → Var → Operand → Operand → Machine → Option Outcome
compare_by f to left right m = binary (λ l r. f l r >>= λ b. some (IrValue.bool b)) to left right m

-- The arms that go to a block of the program.
module _ (p : List Item) where
  abbrev pub eval_jump : ℕ → Machine → Option Outcome
  eval_jump b m = do i ← block_index (all_blocks p) 0 b; some (goto i m)

  abbrev pub eval_switch : Operand → List (ℕ × ℕ) → ℕ → Machine → Option Outcome
  eval_switch examinee branches default m = do
    val ← eval_operand m.vars examinee
    x ← Value.switch_on val
    i ← block_index (all_blocks p) 0 (branch_label branches x default)
    some (goto i m)

-- The arms that use the memory, the constants or the functions of the host.
module _ (host : Host) where
  abbrev pub eval_constant_address : Var → ResolvedName → Machine → Option Outcome
  eval_constant_address to name m = do
    a ← host.constant name
    let (ptr, mem) = Memory.push_global m.mem a
    some (assign to (IrValue.pointer ptr) mem m)

  abbrev pub eval_call_runtime : ℕ → List Operand → Machine → Option Outcome
  eval_call_runtime func args m = do
    vs ← eval_all m.vars args
    n ← host.arity func
    assert (n + 1 == length vs)
    mem ← host.run func m.mem vs
    some (advance mem m)

  abbrev pub eval_offset : Var → Operand → ℕ → Machine → Option Outcome
  eval_offset to from offset m = do
    q ← eval_pointer m.vars from
    (new, mem) ← Memory.offset_by m.mem q offset
    some (assign to (IrValue.pointer new) mem m)

  abbrev pub eval_initialize : Var → List ℕ → Layout → Machine → Option Outcome
  eval_initialize to bytes layout m = do
    assert (leb (length bytes) layout.size)
    (ptr, mem) ← Memory.allocate m.mem layout.size
    mem' ← Memory.write mem ptr bytes
    some (assign to (IrValue.pointer ptr) mem' m)

  abbrev pub eval_write : Operand → Operand → Machine → Option Outcome
  eval_write to val m = do
    q ← eval_pointer m.vars to
    v ← eval_operand m.vars val
    mem ← Memory.write m.mem q (Value.as_vec host.endian v)
    some (advance mem m)

  abbrev pub eval_read : Var → Operand → IrType → Machine → Option Outcome
  eval_read to from ty m = do
    q ← eval_pointer m.vars from
    res ← Memory.read_slice host.bytes m.mem q (Value.bytes ty)
    v ← Value.from_slice host.endian ty res
    some (assign to v m.mem m)

  abbrev pub eval_copy : Operand → Operand → ℕ → Machine → Option Outcome
  eval_copy to from size m = do
    t ← eval_pointer m.vars to
    f ← eval_pointer m.vars from
    mem ← Memory.copy host.bytes m.mem t f size
    some (advance mem m)

  abbrev pub eval_clone : Operand → Operand → ℕ → Machine → Option Outcome
  eval_clone to from clone_fn m = do
    t ← eval_pointer m.vars to
    f ← eval_pointer m.vars from
    a ← Memory.get m.mem t
    b ← Memory.get m.mem f
    mem ← host.clone clone_fn a b m.mem
    some (advance mem m)

  abbrev pub eval_eq : Var → Operand → Operand → ℕ → Machine → Option Outcome
  eval_eq to left right eq_fn m = do
    l ← eval_pointer m.vars left
    r ← eval_pointer m.vars right
    a ← Memory.get m.mem l
    b ← Memory.get m.mem r
    res ← host.eq eq_fn a b m.mem
    some (assign to (IrValue.bool res) m.mem m)

  abbrev pub eval_init_string : Var → List ℕ → Machine → Option Outcome
  eval_init_string to string m = do
    (ptr, mem) ← Memory.allocate m.mem host.string_layout.size
    a ← Memory.get mem ptr
    mem' ← host.write_string string a mem
    some (assign to (IrValue.pointer ptr) mem' m)

  unfoldable pub eval_drop : Operand → Option ℕ → Machine → Option Outcome
  unfolding eval_pointer
  eval_drop var none m = some (advance m.mem m)
  eval_drop var (some d) m = do
    v ← eval_pointer m.vars var
    a ← Memory.get m.mem v
    mem ← host.drop d a m.mem
    some (advance mem m)
