-- ===== src/Lir/Eval/Runs.antt =====
-- src/lir/eval.rs: the memory of a run, instruction by instruction.
use roto.Prelude.{
  ℕ, zero, suc, ◌+◌, ◌≡◌, refl, ap, subst, Option, some, none, List, length, leb, ◌==◌, ◌>>=◌,
  >>=-eq-some, some_inj, get_elem?, assert,
}
use roto.Lir.Value
use roto.Lir.Value.{IrValue, IrType}
use roto.Lir.Var.{Var}
use roto.Lir.Memory
use roto.Lir.Memory.{Memory, Pointer, StackFrame}
use roto.Lir.Memory.Invariant.{IsMemory, written, moved, allocated, shared}
use roto.Lir.Memory.Stale.{Step-IsMemory, copy-IsMemory}
use roto.Lir.Program.{Operand, Instruction, Item}
use roto.Lir.Machine.{
  Host, Machine, eval_operand, eval_pointer, find_item, allocate_slots, bind_values, block_index,
  eval_call, parameters_of, all_blocks, branch_label, instructions_of, return_ptr_of,
}
use roto.Lir.Arith
use roto.Lir.Eval.Keeps.{
  KeepsMemory, IsKept, leaves, allocate_slots-IsMemory, eval_call-IsMemory, eval_return-IsMemory,
}
use roto.Lir.Instructions.{
  Outcome, goto, running, returned, advance, assign, eval_drop, eval_all, binary, eval_all,
}
use roto.Lir.Eval.{
  Run, finished, panicked, out_of_fuel, eval_instruction, step, run_from, start, eval, split_return,
}

binary-IsMemory :
    (f : IrValue → IrValue → Option IrValue) (to : Var) (left right : Operand) (m : Machine)
    (out : Outcome)
    → IsMemory m.mem
    → binary f to left right m ≡ some out
    → IsKept out
binary-IsMemory f to left right m out v h =
    let (l, _, q) = >>=-eq-some (eval_operand m.vars left) _ h in
    let (r, _, q') = >>=-eq-some (eval_operand m.vars right) _ q in
    let (x, _, q'') = >>=-eq-some (f l r) _ q' in leaves (assign to x m.mem m) v q''

abbrev memory_end : Run → Option Memory
memory_end (finished v mem) = some mem
memory_end panicked = none
memory_end out_of_fuel = none

module _ (host : Host) (p : List Item) (keeps : KeepsMemory host) where
  eval_drop-IsMemory :
      (var : Operand) (d : Option ℕ) (m : Machine) (out : Outcome)
      → IsMemory m.mem
      → eval_drop host var d m ≡ some out
      → IsKept out
  unfolding eval_drop
  eval_drop-IsMemory var none m out v h = leaves (advance m.mem m) v h
  eval_drop-IsMemory var (some d) m out v h =
      let (q, _, r) = >>=-eq-some (eval_pointer m.vars var) _ h in
      let (a, _, r') = >>=-eq-some (Memory.get m.mem q) _ r in
      let (mem, e, r'') = >>=-eq-some (host.drop d a m.mem) _ r' in
      leaves (advance mem m) (keeps.drop d a m.mem mem v e) r''

  -- Where the functions of the host keep the invariant of the memory, every instruction that does
  -- not panic does, and a return that ends the run leaves the root frame alone.
  pub eval_instruction-IsMemory :
      (i : Instruction) (m : Machine) (out : Outcome)
      → IsMemory m.mem
      → eval_instruction host p i m ≡ some out
      → IsKept out
  unfolding eval_instruction
  eval_instruction-IsMemory (Instruction.jump b) m out v h =
      let (i, _, r) = >>=-eq-some (block_index (all_blocks p) 0 b) _ h in leaves (goto i m) v r
  eval_instruction-IsMemory (Instruction.switch examinee branches default) m out v h =
      let (val, _, r) = >>=-eq-some (eval_operand m.vars examinee) _ h in
      let (x, _, r') = >>=-eq-some (Value.switch_on val) _ r in
      let (i, _, r'') =
        >>=-eq-some (block_index (all_blocks p) 0 (branch_label branches x default)) _ r' in
      leaves (goto i m) v r''
  eval_instruction-IsMemory (Instruction.assign to val ty) m out v h =
      let (x, _, r) = >>=-eq-some (eval_operand m.vars val) _ h in leaves (assign to x m.mem m) v r
  eval_instruction-IsMemory (Instruction.function_address to name) m out v h = cc
  eval_instruction-IsMemory (Instruction.constant_address to name) m out v h =
      let (a, _, r) = >>=-eq-some (host.constant name) _ h in
      let (ptr, mem) = Memory.push_global m.mem a in
      leaves (assign to (IrValue.pointer ptr) mem m) (Step-IsMemory v (shared a ptr refl)) r
  eval_instruction-IsMemory (Instruction.call to ctx func args return_ptr) m out v h =
      let (m', e, r) = >>=-eq-some (eval_call p to ctx func args return_ptr m) _ h in
      leaves (running m') (eval_call-IsMemory p to ctx func args return_ptr m m' v e) r
  eval_instruction-IsMemory (Instruction.call_runtime func args) m out v h =
      let (vs, _, r) = >>=-eq-some (eval_all m.vars args) _ h in
      let (n, _, r') = >>=-eq-some (host.arity func) _ r in
      let (_, _, r'') = >>=-eq-some (assert (n + 1 == length vs)) _ r' in
      let (mem, e, r''') = >>=-eq-some (host.run func m.mem vs) _ r'' in
      leaves (advance mem m) (keeps.run func m.mem vs mem v e) r'''
  eval_instruction-IsMemory (Instruction.return ret) m out v h = eval_return-IsMemory ret m out v h
  eval_instruction-IsMemory (Instruction.int_cmp to cmp left right) m out v h =
      binary-IsMemory _ to left right m out v h
  eval_instruction-IsMemory (Instruction.float_cmp to cmp left right) m out v h =
      binary-IsMemory _ to left right m out v h
  eval_instruction-IsMemory (Instruction.not to val) m out v h =
      let (x, _, r) = >>=-eq-some (eval_operand m.vars val) _ h in
      let (b, _, r') = >>=-eq-some (Value.as_bool x) _ r in
      leaves (assign to (IrValue.bool b) m.mem m) v r'
  eval_instruction-IsMemory (Instruction.negate to val) m out v h =
      let (x, _, r) = >>=-eq-some (eval_operand m.vars val) _ h in
      let (w, _, r') = >>=-eq-some (Arith.eval_negate x) _ r in leaves (assign to w m.mem m) v r'
  eval_instruction-IsMemory (Instruction.add to left right) m out v h =
      binary-IsMemory _ to left right m out v h
  eval_instruction-IsMemory (Instruction.sub to left right) m out v h =
      binary-IsMemory _ to left right m out v h
  eval_instruction-IsMemory (Instruction.mul to left right) m out v h =
      binary-IsMemory _ to left right m out v h
  eval_instruction-IsMemory (Instruction.div to signed left right) m out v h =
      binary-IsMemory _ to left right m out v h
  eval_instruction-IsMemory (Instruction.modulo to signed left right) m out v h =
      binary-IsMemory _ to left right m out v h
  eval_instruction-IsMemory (Instruction.fdiv to left right) m out v h =
      binary-IsMemory _ to left right m out v h
  eval_instruction-IsMemory (Instruction.offset to from offset) m out v h =
      let (q, _, r) = >>=-eq-some (eval_pointer m.vars from) _ h in
      let ((new, mem), e, r') = >>=-eq-some (Memory.offset_by m.mem q offset) _ r in
      leaves (assign to (IrValue.pointer new) mem m) (Step-IsMemory v (moved q offset new e)) r'
  eval_instruction-IsMemory (Instruction.initialize to bytes layout) m out v h =
      let (_, _, r) = >>=-eq-some (assert (leb (length bytes) layout.size)) _ h in
      let ((ptr, mem), e, r') = >>=-eq-some (Memory.allocate m.mem layout.size) _ r in
      let (mem', e', r'') = >>=-eq-some (Memory.write mem ptr bytes) _ r' in
      leaves (assign to (IrValue.pointer ptr) mem' m)
        (Step-IsMemory (Step-IsMemory v (allocated layout.size ptr e)) (written ptr bytes e')) r''
  eval_instruction-IsMemory (Instruction.write to val) m out v h =
      let (q, _, r) = >>=-eq-some (eval_pointer m.vars to) _ h in
      let (x, _, r') = >>=-eq-some (eval_operand m.vars val) _ r in
      let (mem, e, r'') = >>=-eq-some (Memory.write m.mem q (Value.as_vec host.endian x)) _ r' in
      leaves (advance mem m) (Step-IsMemory v (written q _ e)) r''
  eval_instruction-IsMemory (Instruction.read to from ty) m out v h =
      let (q, _, r) = >>=-eq-some (eval_pointer m.vars from) _ h in
      let (res, _, r') = >>=-eq-some (Memory.read_slice host.bytes m.mem q (Value.bytes ty)) _ r in
      let (x, _, r'') = >>=-eq-some (Value.from_slice host.endian ty res) _ r' in
      leaves (assign to x m.mem m) v r''
  eval_instruction-IsMemory (Instruction.copy to from size) m out v h =
      let (t, _, r) = >>=-eq-some (eval_pointer m.vars to) _ h in
      let (f, _, r') = >>=-eq-some (eval_pointer m.vars from) _ r in
      let (mem, e, r'') = >>=-eq-some (Memory.copy host.bytes m.mem t f size) _ r' in
      leaves (advance mem m) (copy-IsMemory host.bytes m.mem t f size mem v e) r''
  eval_instruction-IsMemory (Instruction.clone to from clone_fn) m out v h =
      let (t, _, r) = >>=-eq-some (eval_pointer m.vars to) _ h in
      let (f, _, r') = >>=-eq-some (eval_pointer m.vars from) _ r in
      let (a, _, r'') = >>=-eq-some (Memory.get m.mem t) _ r' in
      let (b, _, r''') = >>=-eq-some (Memory.get m.mem f) _ r'' in
      let (mem, e, end) = >>=-eq-some (host.clone clone_fn a b m.mem) _ r''' in
      leaves (advance mem m) (keeps.clone clone_fn a b m.mem mem v e) end
  eval_instruction-IsMemory (Instruction.drop var d) m out v h = eval_drop-IsMemory var d m out v h
  eval_instruction-IsMemory (Instruction.eq to left right eq_fn) m out v h =
      let (l, _, q) = >>=-eq-some (eval_pointer m.vars left) _ h in
      let (r, _, q') = >>=-eq-some (eval_pointer m.vars right) _ q in
      let (a, _, q'') = >>=-eq-some (Memory.get m.mem l) _ q' in
      let (b, _, q''') = >>=-eq-some (Memory.get m.mem r) _ q'' in
      let (res, _, end) = >>=-eq-some (host.eq eq_fn a b m.mem) _ q''' in
      leaves (assign to (IrValue.bool res) m.mem m) v end
  eval_instruction-IsMemory (Instruction.init_string to string init_func) m out v h =
      let ((ptr, mem), e, r) = >>=-eq-some (Memory.allocate m.mem host.string_layout.size) _ h in
      let (a, _, r') = >>=-eq-some (Memory.get mem ptr) _ r in
      let (mem', e', r'') = >>=-eq-some (host.write_string string a mem) _ r' in
      leaves (assign to (IrValue.pointer ptr) mem' m)
        (keeps.write_string string a mem mem'
          (Step-IsMemory v (allocated host.string_layout.size ptr e)) e')
        r''

  step-IsMemory :
      (m : Machine) (out : Outcome) → IsMemory m.mem → step host p m ≡ some out → IsKept out
  unfolding step
  step-IsMemory m out v h =
      let (i, _, r) =
        >>=-eq-some (get_elem? (instructions_of (all_blocks p)) m.program_counter) _ h in
      eval_instruction-IsMemory i m out v r

  run_from-IsMemory :
      (fuel : ℕ) (o : Option Outcome) (val : Option IrValue) (mem : Memory)
      → ((out : Outcome) → o ≡ some out → IsKept out)
      → run_from host p fuel o ≡ finished val mem
      → IsMemory mem × (length mem.stack ≡ 1)
  unfolding run_from
  run_from-IsMemory fuel none val mem v h = cc
  run_from-IsMemory fuel (some (returned w mem')) val mem v h =
      let end : memory_end (finished w mem') ≡ memory_end (finished val mem) = ap memory_end h in
      subst (λ x. IsMemory x × (length x.stack ≡ 1)) (some_inj end) (v (returned w mem') refl)
  run_from-IsMemory zero (some (running m)) val mem v h = cc
  run_from-IsMemory (suc fuel) (some (running m)) val mem v h =
      run_from-IsMemory fuel (step host p m) val mem
        (λ out. step-IsMemory m out (v (running m) refl)) h

  start-IsMemory :
      (name : ℕ) (mem : Memory) (ctx : IrValue) (args : List IrValue) (m : Machine)
      → IsMemory mem
      → start host p name mem ctx args ≡ some m
      → IsMemory m.mem
  unfolding start
  start-IsMemory name mem ctx args m v h =
      let (item, _, r) = >>=-eq-some (find_item p name) _ h in
      let ((values, vars), _, r') =
        >>=-eq-some
          (split_return (return_ptr_of item.kind) (length (parameters_of item.kind)) item.scope args
            _)
          _ r in
      let ((vars', mem'), e, r'') =
        >>=-eq-some
          (allocate_slots item.variables
            (bind_values item.scope (parameters_of item.kind) values vars) mem)
          _ r' in
      let (pc, _, end) = >>=-eq-some (block_index (all_blocks p) 0 item.entry_block) _ r'' in
      subst IsMemory (ap (λ x. x.mem) (some_inj end))
        (allocate_slots-IsMemory item.variables _ mem vars' mem' v e)

  -- Where the functions of the host keep the invariant of the memory, a run of `eval` that starts
  -- in a memory with that invariant and finishes ends in one, with the root frame alone: every
  -- frame that a call pushed has been popped.
  pub eval-IsMemory :
      (fuel name : ℕ) (mem : Memory) (ctx : IrValue) (args : List IrValue) (val : Option IrValue)
      (mem' : Memory)
      → IsMemory mem
      → eval host p fuel name mem ctx args ≡ finished val mem'
      → IsMemory mem' × (length mem'.stack ≡ 1)
  unfolding eval
  eval-IsMemory fuel name mem ctx args val mem' v h =
      run_from-IsMemory fuel (start host p name mem ctx args >>= λ m. some (running m)) val mem'
        (λ out e.
          let (m, at, r) = >>=-eq-some (start host p name mem ctx args) _ e in
          leaves (running m) (start-IsMemory name mem ctx args m v at) r)
        h
