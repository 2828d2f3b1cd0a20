-- ===== src/Lir/Eval/Store.antt =====
-- src/lir/eval.rs: what the instructions `Write` and `Read` store and load.
use roto.Prelude.{◌+◌, ◌≡◌, ◌∙◌, sym, subst, some, List, >>=-eq-some, some_inj}
use roto.Lir.Value
use roto.Lir.Value.{IrValue, IsValue, variant}
use roto.Lir.Value.RoundTrip.{from_slice-as_vec}
use roto.Lir.Var.{Var}
use roto.Lir.Memory
use roto.Lir.Memory.{Memory}
use roto.Lir.Memory.Frames.{read_slice-write}
use roto.Lir.Program.{Operand, Instruction, Item}
use roto.Lir.Machine.{Host, Machine, eval_operand, eval_pointer}
use roto.Lir.Instructions.{Outcome, running, assign}
use roto.Lir.Eval.{eval_instruction}

module _ (host : Host) (p : List Item) where
  -- Where a `Write` of a value goes through, a `Read` through the same pointer at the type of the
  -- value goes through in the state that the `Write` leaves, and binds the variable to that value.
  pub read-write :
      (to val : Operand) (x : Var) (v : IrValue) (m : Machine) (out : Outcome)
      → eval_operand m.vars val ≡ some v
      → IsValue v
      → eval_instruction host p (Instruction.write to val) m ≡ some out
      → (m' : Machine) × (out ≡ running m')
        × (eval_instruction host p (Instruction.read x to (variant v)) m'
            ≡ some (assign x v m'.mem m'))
  unfolding eval_instruction
  read-write to val x v m out e valid h =
      let (q, at, r) = >>=-eq-some (eval_pointer m.vars to) _ h in
      let (w, e', r') = >>=-eq-some (eval_operand m.vars val) _ r in
      let (mem, stored, end) =
        >>=-eq-some (Memory.write m.mem q (Value.as_vec host.endian w)) _ r' in
      let same : w ≡ v = some_inj (sym e' ∙ e) in
      let (decoded, size) = from_slice-as_vec host.endian v valid in
      let loaded : Memory.read_slice host.bytes mem q (Value.bytes (variant v))
          ≡ some (Value.as_vec host.endian v) =
        subst (λ n. Memory.read_slice host.bytes mem q n ≡ some (Value.as_vec host.endian v)) size
          (read_slice-write host.bytes m.mem q (Value.as_vec host.endian v) mem (
            subst (λ y. Memory.write m.mem q (Value.as_vec host.endian y) ≡ some mem) same
              stored)) in
      (
        record { vars = m.vars; mem = mem; program_counter = m.program_counter + 1 },
        sym (some_inj end),
        rw (at, loaded, decoded),
      )
