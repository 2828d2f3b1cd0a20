-- ===== src/Lir/Eval/Keeps.antt =====
-- src/lir/eval.rs: the memory of a run at calls and returns.
use roto.Prelude.{
  ℕ, ◌≡◌, ◌∙◌, sym, ap, subst, Option, some, none, List, [], ◌∷◌, length, >>=-eq-some, some_inj,
  Option-cases, inl, inr,
}
use roto.Lir.Value.{IrValue, IrType}
use roto.Lir.Var.{Var, VarKind}
use roto.Lir.Memory
use roto.Lir.Memory.{Memory, Pointer, StackFrame}
use roto.Lir.Memory.Invariant.{IsMemory, pushed, popped, allocated}
use roto.Lir.Memory.Stale.{Step-IsMemory, pop_frame-none}
use roto.Lir.Program.{Operand, ValueOrSlot, Item}
use roto.Lir.Machine.{
  Host, Vars, Machine, insert, find_item, allocate_slots, block_index, eval_call, place_of,
  bind_optional, as_operand, bind_args, parameters_of, all_blocks,
}
use roto.Lir.Instructions.{
  Outcome, running, returned, eval_return, resume, return_to, eval_optional, eval_optional,
}

-- What the machine relies on: the functions of the host leave a memory in order.
pub record KeepsMemory (host : Host) : Type 0 where
  pub run :
      (f : ℕ) (m : Memory) (args : List IrValue) (m' : Memory)
      → IsMemory m
      → host.run f m args ≡ some m'
      → IsMemory m'
  pub clone :
      (f : ℕ) (to from : Pointer) (m m' : Memory)
      → IsMemory m
      → host.clone f to from m ≡ some m'
      → IsMemory m'
  pub drop :
      (f : ℕ) (p : Pointer) (m m' : Memory) → IsMemory m → host.drop f p m ≡ some m' → IsMemory m'
  pub write_string :
      (s : List ℕ) (p : Pointer) (m m' : Memory)
      → IsMemory m
      → host.write_string s p m ≡ some m'
      → IsMemory m'

-- The memory is in order, and a return out of the run leaves the root frame alone.
abbrev pub IsKept : Outcome → Type 0
IsKept (running m) = IsMemory m.mem
IsKept (returned v mem) = IsMemory mem × (length mem.stack ≡ 1)

pub leaves : (o : Outcome) {out : Outcome} → IsKept o → some o ≡ some out → IsKept out
leaves o v h = subst IsKept (some_inj h) v

pub allocate_slots-IsMemory :
    (vs : List (Var × ValueOrSlot)) (vars : Vars) (mem : Memory) (vars' : Vars) (mem' : Memory)
    → IsMemory mem
    → allocate_slots vs vars mem ≡ some (vars', mem')
    → IsMemory mem'
unfolding allocate_slots
allocate_slots-IsMemory [] vars mem vars' mem' v h = subst IsMemory (ap (λ x. x.1) (some_inj h)) v
allocate_slots-IsMemory ((w, ValueOrSlot.val ty) ∷ vs) vars mem vars' mem' v h =
    allocate_slots-IsMemory vs vars mem vars' mem' v h
allocate_slots-IsMemory ((w, ValueOrSlot.stack_slot l) ∷ vs) vars mem vars' mem' v h =
    let ((ptr, next), e, r) = >>=-eq-some (Memory.allocate mem l.size) _ h in
    allocate_slots-IsMemory vs (insert w (IrValue.pointer ptr) vars) next vars' mem'
      (Step-IsMemory v (allocated l.size ptr e)) r

pub eval_call-IsMemory :
    (p : List Item) (to : Option (Var × IrType)) (ctx : Option Operand) (func : ℕ)
    (args : List Operand) (return_ptr : Option Var) (m m' : Machine)
    → IsMemory m.mem
    → eval_call p to ctx func args return_ptr m ≡ some m'
    → IsMemory m'.mem
unfolding eval_call
eval_call-IsMemory p to ctx func args return_ptr m m' v h =
    let (f, found, r₀) = >>=-eq-some (find_item p func) _ h in
    let (mem₁, push, r₁) =
      >>=-eq-some (Memory.push_frame m.mem m.program_counter (place_of to)) _ r₀ in
    let ((vars₁, mem₂), slots, r₂) = >>=-eq-some (allocate_slots f.variables m.vars mem₁) _ r₁ in
    let (vars₂, _, r₃) =
      >>=-eq-some
        (bind_optional (record { scope = f.scope; kind = VarKind.return }) (as_operand return_ptr)
          vars₁)
        _ r₂ in
    let (vars₃, _, r₄) =
      >>=-eq-some (bind_optional (record { scope = f.scope; kind = VarKind.context }) ctx vars₂) _
        r₃ in
    let (vars₄, _, r₅) = >>=-eq-some (bind_args f.scope (parameters_of f.kind) args vars₃) _ r₄ in
    let (pc, _, r₆) = >>=-eq-some (block_index (all_blocks p) 0 f.entry_block) _ r₅ in
    let w : IsMemory mem₂ =
      allocate_slots-IsMemory f.variables m.vars mem₁ vars₁ mem₂
        (Step-IsMemory v (pushed m.program_counter (place_of to) push)) slots in
    subst IsMemory (ap (λ x. x.mem) (some_inj r₆)) w

resume-IsMemory :
    (val : Option IrValue) (f : StackFrame) (vars : Vars) (mem : Memory) (out : Outcome)
    → IsMemory mem
    → resume val f vars mem ≡ some out
    → IsKept out
unfolding resume
resume-IsMemory none f vars mem out v h = leaves _ v h
resume-IsMemory (some x) f vars mem out v h =
    let (place, e, r) = >>=-eq-some f.return_place _ h in leaves _ v r

pub eval_return-IsMemory :
    (ret : Option Operand) (m : Machine) (out : Outcome)
    → IsMemory m.mem
    → eval_return ret m ≡ some out
    → IsKept out
unfolding eval_return
eval_return-IsMemory ret m out v h =
    let (val, e, r) = >>=-eq-some (eval_optional m.vars ret) _ h in
    elim (Option-cases (Memory.pop_frame m.mem)) [
      | inl root ↦
          let q : some (returned val m.mem) ≡ some out = sym (ap (return_to val m) root) ∙ r in
          leaves (returned val m.mem) (v, pop_frame-none m.mem v root) q
      | inr ((f, mem), top) ↦
          let q : resume val f m.vars mem ≡ some out = sym (ap (return_to val m) top) ∙ r in
          resume-IsMemory val f m.vars mem out (Step-IsMemory v (popped f top)) q
    ]
