-- ===== src/Lir/Eval/Calls.antt =====
-- src/lir/eval.rs: a call and its return.
use roto.Prelude.{
  ℕ, ◌+◌, ◌<◌, ◌≡◌, ◌≢◌, ◌∙◌, refl, sym, ap, subst, Option, some, none, List, [], ◌∷◌, length,
  >>=-eq-some, some_inj,
}
use roto.Lir.Value.{IrValue, IrType}
use roto.Lir.Var.{Var, VarKind}
use roto.Lir.Memory
use roto.Lir.Memory.{Memory, StackFrame, with_allocation}
use roto.Lir.Memory.Ends.{IsTop, push_frame-IsTop, allocate-IsTop, pop_frame-IsTop}
use roto.Lir.Program.{Operand, ValueOrSlot, Item}
use roto.Lir.Machine.{
  Vars, Machine, insert, find_item, allocate_slots, eval_call, place_of, bind_optional, as_operand,
  bind_args, block_index, parameters_of, all_blocks,
}
use roto.Lir.Machine.Binding.{insert_self, insert-ne}
use roto.Lir.Instructions.{
  Outcome, running, eval_return, resume, return_to, eval_optional, eval_optional,
}

allocate_slots-IsTop :
    (below : List StackFrame) (address : ℕ) (place : Option Var) (vs : List (Var × ValueOrSlot))
    (vars : Vars) (mem : Memory) (vars' : Vars) (mem' : Memory)
    → IsTop below address place mem
    → allocate_slots vs vars mem ≡ some (vars', mem')
    → IsTop below address place mem'
unfolding allocate_slots
allocate_slots-IsTop below address place [] vars mem vars' mem' t h =
    subst (IsTop below address place) (ap (λ x. x.1) (some_inj h)) t
allocate_slots-IsTop below address place ((v, ValueOrSlot.val ty) ∷ vs) vars mem vars' mem' t h =
    allocate_slots-IsTop below address place vs vars mem vars' mem' t h
allocate_slots-IsTop below address place ((v, ValueOrSlot.stack_slot l) ∷ vs) vars mem vars' mem' t
      h =
    let ((ptr, next), e, r) = >>=-eq-some (Memory.allocate mem l.size) _ h in
    allocate_slots-IsTop below address place vs (insert v (IrValue.pointer ptr) vars) next vars'
      mem' (allocate-IsTop below address place mem l.size ptr next t e) r

-- A call that does not panic leaves the frames of its callers as they are, with one frame on top
-- that remembers the position of the call and the place of the result, and goes on at the entry
-- block of the item that has the name.
pub eval_call_lem :
    (p : List Item) (to : Option (Var × IrType)) (ctx : Option Operand) (func : ℕ)
    (args : List Operand) (return_ptr : Option Var) (m m' : Machine)
    → eval_call p to ctx func args return_ptr m ≡ some m'
    → IsTop m.mem.stack m.program_counter (place_of to) m'.mem
      × ((f : Item) × (find_item p func ≡ some f)
          × (block_index (all_blocks p) 0 f.entry_block ≡ some m'.program_counter))
unfolding eval_call
eval_call_lem p to ctx func args return_ptr m m' h =
    let (f, found, r₀) = >>=-eq-some (find_item p func) _ h in
    let (mem₁, pushed, r₁) =
      >>=-eq-some (Memory.push_frame m.mem m.program_counter (place_of to)) _ r₀ in
    let ((vars₁, mem₂), slots, r₂) = >>=-eq-some (allocate_slots f.variables m.vars mem₁) _ r₁ in
    let (vars₂, _, r₃) =
      >>=-eq-some
        (bind_optional (record { scope = f.scope; kind = VarKind.return }) (as_operand return_ptr)
          vars₁)
        _ r₂ in
    let (vars₃, _, r₄) =
      >>=-eq-some (bind_optional (record { scope = f.scope; kind = VarKind.context }) ctx vars₂) _
        r₃ in
    let (vars₄, _, r₅) = >>=-eq-some (bind_args f.scope (parameters_of f.kind) args vars₃) _ r₄ in
    let (start, found_block, r₆) = >>=-eq-some (block_index (all_blocks p) 0 f.entry_block) _ r₅ in
    let result = some_inj r₆ in
    let top : IsTop m.mem.stack m.program_counter (place_of to) mem₁ =
      push_frame-IsTop m.mem m.program_counter (place_of to) mem₁ pushed in
    (
      subst (IsTop m.mem.stack m.program_counter (place_of to)) (ap (λ x. x.mem) result) (
          allocate_slots-IsTop m.mem.stack m.program_counter (place_of to) f.variables m.vars mem₁
            vars₁ mem₂ top slots),
      (f, found, found_block ∙ ap (λ x. some x.program_counter) result),
    )

-- What a return makes of a machine: with a result, its place holds it and no other variable
-- changes; without one, none changes.
abbrev pub Bound : Option IrValue → Option Var → Vars → Vars → Type 0
Bound none place vars vars' = vars' ≡ vars
Bound (some v) none vars vars' = ⊥
Bound (some v) (some w) vars vars' = (vars' w ≡ some v) × ((x : Var) → w ≢ x → vars' x ≡ vars x)

resume_lem :
    (val : Option IrValue) (f : StackFrame) (vars : Vars) (mem : Memory) (out : Outcome)
    → resume val f vars mem ≡ some out
    → (m : Machine) × (out ≡ running m)
      × (m.mem ≡ mem)
      × (m.program_counter ≡ f.return_address + 1)
      × Bound val f.return_place vars m.vars
unfolding resume
resume_lem none f vars mem out h = (_, sym (some_inj h), refl, refl, refl)
resume_lem (some v) f vars mem out h =
    let (place, e, r) = >>=-eq-some f.return_place _ h in
    (
      record { vars = insert place v vars; mem = mem; program_counter = f.return_address + 1 },
      sym (some_inj r),
      refl,
      refl,
      rw e (insert_self place v vars, λ x ne. insert-ne place x v vars ne),
    )

-- Behind a call, a return that does not panic takes the frame of the call away and no other, goes
-- on one instruction behind the call, and puts its result into the place that the call named.
pub eval_return_lem :
    (below : List StackFrame) (address : ℕ) (place : Option Var) (ret : Option Operand)
    (m : Machine) (out : Outcome)
    → 0 < length below
    → IsTop below address place m.mem
    → eval_return ret m ≡ some out
    → (m' : Machine) × (out ≡ running m')
      × (m'.mem ≡ record (m.mem) { stack = below })
      × (m'.program_counter ≡ address + 1)
      × ((val : Option IrValue) × (eval_optional m.vars ret ≡ some val)
          × Bound val place m.vars m'.vars)
unfolding eval_return
eval_return_lem below address place ret m out some_left t h =
    let (val, e, r) = >>=-eq-some (eval_optional m.vars ret) _ h in
    let resumed : resume val t.frame m.vars (record (m.mem) { stack = below }) ≡ some out =
      sym (ap (return_to val m) (pop_frame-IsTop below address place m.mem some_left t)) ∙ r in
    let (m', p, mem, pc, b) = resume_lem val t.frame m.vars _ out resumed in
    (
      m',
      p,
      mem,
      pc ∙ ap (λ a. a + 1) t.address_kept,
      (val, e, subst (λ w. Bound val w m.vars m'.vars) t.place_kept b),
    )
