-- ===== src/Lir/Eval/Tests.antt =====
-- Runs of small programs.
use roto.Prelude.{
  ℕ, ◌≡◌, ◌+◌, refl, subst, some_inj, true, false, none, some, Option, List, [], ◌∷◌, length,
  replicate, arith,
}
use roto.Prelude.Bytes.{little, to_ne_bytes, from_ne_bytes}
use roto.Lir.Value
use roto.Lir.Value.{IrValue, IrType, variant, IsValue}
use roto.Lir.Var.{Var, VarKind, var_eq}
use roto.Lir.Memory
use roto.Lir.Memory.{Memory, Pointer, StackFrame}
use roto.Lir.Memory.Invariant.{IsMemory}
use roto.Lir.Memory.Ends.{IsTop}
use roto.Lir.Program.{Operand, Instruction, ItemKind, Item, ValueOrSlot}
use roto.Lir.Arith
use roto.Lir.Machine.{
  Host, Vars, Machine, insert, eval_operand, find_item, block_index, allocate_slots, bind_values,
  bind_args, eval_call, eval_pointer, all_blocks, place_of,
}
use roto.Lir.Instructions.{running, eval_return, assign, resume, eval_optional, eval_optional}
use roto.Lir.Eval.{finished, eval, eval_instruction, start, step, run_from}
use roto.Lir.Eval.Calls.{eval_call_lem, eval_return_lem, Bound}
use roto.Lir.Eval.Keeps.{KeepsMemory}
use roto.Lir.Eval.Runs.{eval-IsMemory}
use roto.Lir.Eval.Store.{read-write}

-- A host without constants and functions.
abbrev host : Host
host = record {
  endian = little;
  floats = record {
    widen = λ x. x;
    div_32 = λ x y. x;
    div_64 = λ x y. x;
    lt = λ x y. false;
    le = λ x y. true;
  };
  bytes = λ address size. replicate size 0;
  constant = λ name. none;
  arity = λ f. some 0;
  run = λ f mem args. some mem;
  clone = λ f to from mem. some mem;
  drop = λ f p mem. some mem;
  eq = λ f a b mem. some true;
  write_string = λ s p mem. some mem;
  string_layout = record { size = 16; align = 3 };
}

host-KeepsMemory : KeepsMemory host
host-KeepsMemory = record {
  run = λ f m args m' v e. subst IsMemory (some_inj e) v;
  clone = λ f to from m m' v e. subst IsMemory (some_inj e) v;
  drop = λ f p m m' v e. subst IsMemory (some_inj e) v;
  write_string = λ s p m m' v e. subst IsMemory (some_inj e) v;
}

abbrev temporary : ℕ → ℕ → Var
temporary scope n = record { scope = scope; kind = VarKind.tmp n }

abbrev argument : Var
argument = record { scope = 1; kind = VarKind.explicit 0 }

-- `next(x)`, which keeps `x` in a slot of its frame, loads it again and gives `x + 1`.
abbrev next_item : Item
next_item = record {
  name = 1;
  scope = 1;
  kind = ItemKind.function (record {
    parameters = (0, IrType.u64) ∷ [];
    context = false;
    return_ptr = false;
    return_type = some IrType.u64;
  });
  entry_block = 20;
  variables =
      (argument, ValueOrSlot.val IrType.u64)
      ∷ (temporary 1 0, ValueOrSlot.stack_slot (record { size = 8; align = 3 }))
      ∷ [];
  blocks =
      record {
        label = 20;
        instructions =
            Instruction.write (Operand.place (temporary 1 0)) (Operand.place argument)
            ∷ Instruction.read (temporary 1 1) (Operand.place (temporary 1 0)) IrType.u64
            ∷ Instruction.add (temporary 1 2) (Operand.place (temporary 1 1))
                (Operand.value (IrValue.u64 1))
            ∷ Instruction.return (some (Operand.place (temporary 1 2)))
            ∷ [];
      }
      ∷ [];
}

abbrev main_item : Item
main_item = record {
  name = 0;
  scope = 0;
  kind = ItemKind.function (record {
    parameters = [];
    context = false;
    return_ptr = false;
    return_type = some IrType.u64;
  });
  entry_block = 10;
  variables = [];
  blocks =
      record {
        label = 10;
        instructions =
            Instruction.call (some (temporary 0 0, IrType.u64)) none 1
              (Operand.value (IrValue.u64 41) ∷ []) none
            ∷ Instruction.return (some (Operand.place (temporary 0 0)))
            ∷ [];
      }
      ∷ [];
}

abbrev program : List Item
program = main_item ∷ next_item ∷ []

-- What the run leaves: the root frame, a counter that has moved on, and a pointer into a dead frame.
abbrev memory_after : Memory
memory_after = record {
  id_counter = 2;
  stack = record { id = 0; return_address = 0; return_place = none; allocations = [] } ∷ [];
  pointers =
      Pointer.local
        (record { stack_index = 1; stack_id = 1; allocation_index = 0; allocation_offset = 0 })
      ∷ [];
}

eval-program :
    eval host program 6 0 Memory.new (IrValue.pointer 0) []
    ≡ finished (some (IrValue.u64 42)) memory_after
unfolding eval start run_from step eval_instruction eval_call eval_return resume eval_operand
    eval_pointer find_item block_index allocate_slots bind_args bind_values var_eq Memory.write
    Memory.push_frame Memory.pop_frame Memory.allocate Memory.read_slice Memory.frame_of
    Memory.frame_write Memory.frame_read Memory.allocation_write Memory.allocation_read Value.as_vec
    Value.from_slice Value.bytes to_ne_bytes from_ne_bytes Arith.eval_add Arith.int_op
eval-program = refl

new-IsMemory : IsMemory Memory.new
new-IsMemory = omega arith

eval-IsMemory_example : IsMemory memory_after × (length memory_after.stack ≡ 1)
eval-IsMemory_example =
    eval-IsMemory host program host-KeepsMemory 6 0 Memory.new (IrValue.pointer 0) []
      (some (IrValue.u64 42)) memory_after new-IsMemory eval-program

-- The machine before the call, in the callee before its `Write`, and before its `Return`.
abbrev at_call : Machine
at_call = record { vars = λ _. none; mem = Memory.new; program_counter = 0 }

abbrev slot : List ℕ → StackFrame
slot bytes = record {
  id = 1;
  return_address = 0;
  return_place = some (temporary 0 0);
  allocations = record { inner = bytes } ∷ [];
}

abbrev memory_within : List ℕ → Memory
memory_within bytes = record {
  id_counter = 2;
  stack =
      record { id = 0; return_address = 0; return_place = none; allocations = [] }
      ∷ slot bytes
      ∷ [];
  pointers = memory_after.pointers;
}

abbrev vars_within : Vars
vars_within =
    insert argument (IrValue.u64 41) (insert (temporary 1 0) (IrValue.pointer 0) (λ _. none))

abbrev at_write : Machine
at_write = record { vars = vars_within; mem = memory_within (replicate 8 0); program_counter = 2 }

abbrev at_read : Machine
at_read = record {
  vars = vars_within;
  mem = memory_within (41 ∷ 0 ∷ 0 ∷ 0 ∷ 0 ∷ 0 ∷ 0 ∷ 0 ∷ []);
  program_counter = 3;
}

eval_call-next :
    eval_call program
      (some (temporary 0 0, IrType.u64))
      none
      1
      (Operand.value (IrValue.u64 41) ∷ [])
      none
      at_call
    ≡ some at_write
unfolding eval_call find_item Memory.push_frame allocate_slots Memory.allocate bind_args
    eval_operand block_index
eval_call-next = refl

eval_call_lem_example :
    IsTop Memory.new.stack 0 (place_of (some (temporary 0 0, IrType.u64))) at_write.mem
    × ((f : Item) × (find_item program 1 ≡ some f)
        × (block_index (all_blocks program) 0 f.entry_block ≡ some 2))
eval_call_lem_example =
    eval_call_lem program (some (temporary 0 0, IrType.u64)) none 1
      (Operand.value (IrValue.u64 41) ∷ []) none at_call at_write eval_call-next

abbrev store : Instruction
store = Instruction.write (Operand.place (temporary 1 0)) (Operand.place argument)

eval_instruction-store : eval_instruction host program store at_write ≡ some (running at_read)
unfolding eval_instruction eval_pointer eval_operand var_eq Memory.write Memory.frame_of
    Memory.frame_write Memory.allocation_write Value.as_vec to_ne_bytes
eval_instruction-store = refl

at_write-IsMemory : IsMemory at_write.mem
at_write-IsMemory = omega arith

argument-is_41 : eval_operand vars_within (Operand.place argument) ≡ some (IrValue.u64 41)
unfolding eval_operand var_eq
argument-is_41 = refl

read-write_example :
    (m : Machine) × (running at_read ≡ running m)
    × (eval_instruction host program
          (Instruction.read (temporary 1 1) (Operand.place (temporary 1 0)) IrType.u64)
          m
        ≡ some (assign (temporary 1 1) (IrValue.u64 41) m.mem m))
read-write_example =
    read-write host program (Operand.place (temporary 1 0)) (Operand.place argument) (temporary 1 1)
      (IrValue.u64 41) at_write (running at_read) argument-is_41 (omega arith)
      eval_instruction-store

abbrev resumed : Machine
resumed = record {
  vars = insert (temporary 0 0) (IrValue.u64 41) vars_within;
  mem = record (at_read.mem) { stack = Memory.new.stack };
  program_counter = 1;
}

eval_return-argument : eval_return (some (Operand.place argument)) at_read ≡ some (running resumed)
unfolding eval_return eval_operand var_eq Memory.pop_frame resume
eval_return-argument = refl

at_read-IsTop : IsTop Memory.new.stack 0 (some (temporary 0 0)) at_read.mem
at_read-IsTop = record { frame = _; stack = refl; address_kept = refl; place_kept = refl }

eval_return_lem_example :
    (m : Machine) × (running resumed ≡ running m)
    × (m.mem ≡ record (at_read.mem) { stack = Memory.new.stack })
    × (m.program_counter ≡ 0 + 1)
    × ((val : Option IrValue) × (eval_optional vars_within (some (Operand.place argument))
          ≡ some val)
        × Bound val (some (temporary 0 0)) vars_within m.vars)
eval_return_lem_example =
    eval_return_lem Memory.new.stack 0 (some (temporary 0 0)) (some (Operand.place argument))
      at_read (running resumed) (omega arith) at_read-IsTop eval_return-argument
