-- ===== src/Lir/Memory/Stale.antt =====
-- src/lir/eval.rs, `Memory`: the invariant over steps, and pointers into frames that are popped.
use roto.Prelude.{
  ◌∙◌, ℕ, zero, suc, ◌≤◌, ◌<◌, ◌≡◌, ◌≢◌, ap, sym, subst, some, none, List, [], ◌∷◌, ◌++◌, get_elem?,
  set, >>=-eq-some, length-set, length-append, some_inj, arith, Bool-cases, length, ◌==◌, All,
  All-get_elem?, Option-cases, inl, inr,
}
use roto.Lir.Memory.{
  Memory, Pointer, LocalPointer, StackFrame, local, global, write, pop_frame, push_global, copy,
  read_slice, read_pointer, local_write, frame_of, pop,
}
use roto.Lir.Memory.Frames.{frame_of-IsFrame}
use roto.Lir.Memory.Invariant.{
  Ordered, Ordered-le, Remembers, IsMemory, Step, written, pushed, popped, moved, allocated, shared,
  Steps, here, next, StackChange, replaced, grown, shrunk, same, write-StackChange,
  push_frame-StackChange, pop_frame-StackChange, offset_by-StackChange, allocate-StackChange,
  All-append_one, pop-none,
}

Ordered-weaken :
    (lo : ℕ) (fs : List StackFrame) (hi hi' : ℕ) → hi ≤ hi' → Ordered lo fs hi → Ordered lo fs hi'
Ordered-weaken lo [] hi hi' le h = omega arith
Ordered-weaken lo (f ∷ fs) hi hi' le (a, b) = (a, Ordered-weaken (suc f.id) fs hi hi' le b)

Ordered-set :
    (lo : ℕ) (fs : List StackFrame) (hi i : ℕ) (f f' : StackFrame)
    → get_elem? fs i ≡ some f
    → f'.id ≡ f.id
    → Ordered lo fs hi
    → Ordered lo (set fs i f') hi
Ordered-set lo [] hi i f f' e p h = h
Ordered-set lo (g ∷ fs) hi zero f f' e p (a, b) =
    let q : f'.id ≡ g.id = p ∙ sym (ap (λ x. x.id) (some_inj e)) in rw q (a, b)
Ordered-set lo (g ∷ fs) hi (suc i) f f' e p (a, b) = (a, Ordered-set (suc g.id) fs hi i f f' e p b)

Ordered-append :
    (lo : ℕ) (fs : List StackFrame) (hi : ℕ) (f : StackFrame)
    → f.id ≡ hi
    → Ordered lo fs hi
    → Ordered lo (fs ++ f ∷ []) (suc hi)
Ordered-append lo [] hi f e h = (omega arith, omega arith)
Ordered-append lo (g ∷ fs) hi f e (a, b) = (a, Ordered-append (suc g.id) fs hi f e b)

-- The ids before the last frame lie below its id, and its id below the bound.
Ordered-init :
    (lo : ℕ) (fs : List StackFrame) (hi : ℕ) (f : StackFrame)
    → Ordered lo (fs ++ f ∷ []) hi
    → Ordered lo fs f.id × (f.id < hi)
Ordered-init lo [] hi f (a, b) = (a, b)
Ordered-init lo (g ∷ fs) hi f (a, b) = let (c, d) = Ordered-init (suc g.id) fs hi f b in ((a, c), d)

All-Remembers :
    (ps : List Pointer) (n n' : ℕ) → n ≤ n' → All (Remembers n) ps → All (Remembers n') ps
All-Remembers [] n n' le h = tt
All-Remembers (local p ∷ ps) n n' le (a, b) = (omega arith, All-Remembers ps n n' le b)
All-Remembers (global g ∷ ps) n n' le (a, b) = (tt, All-Remembers ps n n' le b)

change-IsMemory :
    {m m' : Memory}
    → IsMemory m
    → StackChange m m'
    → All (Remembers m.id_counter) m'.pointers
    → IsMemory m'
change-IsMemory {m} {m'} v (replaced i f f' at id stack counter) ps = record {
  root = rw (stack, length-set m.stack i f') v.root;
  ordered = rw (stack, counter) (Ordered-set 0 m.stack m.id_counter i f f' at id v.ordered);
  remembers = rw counter ps;
}
change-IsMemory {m} {m'} v (grown f id stack counter) ps = record {
  root = rw (stack, length-append m.stack (f ∷ [])) (omega arith);
  ordered = rw (stack, counter) (Ordered-append 0 m.stack m.id_counter f id v.ordered);
  remembers =
      rw counter (All-Remembers m'.pointers m.id_counter (suc m.id_counter) (omega arith) ps);
}
change-IsMemory {m} {m'} v (shrunk f stack some_left counter) ps =
    let (below, lt) =
      Ordered-init 0 m'.stack m.id_counter f
        (subst (λ s. Ordered 0 s m.id_counter) stack v.ordered) in
    record {
      root = some_left;
      ordered = rw counter (Ordered-weaken 0 m'.stack f.id m.id_counter (omega arith) below);
      remembers = rw counter ps;
    }
change-IsMemory {m} {m'} v (same stack counter) ps = record {
  root = rw stack v.root;
  ordered = rw (stack, counter) v.ordered;
  remembers = rw counter ps;
}

-- The change that a step makes, and the pointers after it.
Step-StackChange :
    {m m' : Memory}
    → IsMemory m
    → Step m m'
    → StackChange m m' × All (Remembers m.id_counter) m'.pointers
unfolding push_global
Step-StackChange {m} v (written p val h) =
    let (c, e) = write-StackChange m p val h in (c, rw e v.remembers)
Step-StackChange {m} v (pushed address place h) =
    let (c, e) = push_frame-StackChange m address place h in (c, rw e v.remembers)
Step-StackChange {m} {m'} v (popped f h) =
    let (c, e, _, _) = pop_frame-StackChange m f m' h in (c, rw e v.remembers)
Step-StackChange {m} {m'} v (moved p offset q h) = offset_by-StackChange m p offset q m' v h
Step-StackChange {m} {m'} v (allocated bytes p h) = allocate-StackChange m bytes p m' v h
Step-StackChange {m} {m'} v (shared address p h) =
    let end = sym h in
    (
      same (ap (λ x. x.1.stack) end) (ap (λ x. x.1.id_counter) end),
      rw (ap (λ x. x.1.pointers) end)
          (All-append_one (Remembers m.id_counter) m.pointers (global address) v.remembers tt),
    )

-- Every operation that does not panic keeps the memory in order: the ids of the frames grow along
-- the stack and lie below the counter, as do the ids in the pointers.
pub Step-IsMemory : {m m' : Memory} → IsMemory m → Step m m' → IsMemory m'
Step-IsMemory v s = let (c, ps) = Step-StackChange v s in change-IsMemory v c ps

pub copy-IsMemory :
    (host : ℕ → ℕ → List ℕ) (m : Memory) (to from size : ℕ) (m' : Memory)
    → IsMemory m
    → copy host m to from size ≡ some m'
    → IsMemory m'
unfolding copy
copy-IsMemory host m to from size m' v h =
    let (bytes, _, r) = >>=-eq-some (read_slice host m from size) _ h in
    Step-IsMemory v (written to bytes r)

-- The root frame is all that is never popped.
pub pop_frame-none : (m : Memory) → IsMemory m → pop_frame m ≡ none → length m.stack ≡ 1
unfolding pop_frame
pop_frame-none m v h = elim (Bool-cases (length m.stack == 1)) [
  | inl one ↦ ground arith
  | inr more ↦ elim (Option-cases (pop m.stack)) [
    | inl e ↦ let empty = ap length (pop-none m.stack e) in omega (arith, v.root, empty)
    | inr (q, e) ↦
        let bad : some (q.1, record m { stack = q.0 }) ≡ none = sym (rw (more, e)) ∙ h in cc
  ]
]

-- No frame of the stack has this id, and none ever will.
pub record IsDead (m : Memory) (id : ℕ) : Type 0 where
  pub absent : All (λ (f : StackFrame). f.id ≢ id) m.stack
  pub past : id < m.id_counter

All-set :
    (P : StackFrame → Type 0) (fs : List StackFrame) (i : ℕ) (f' : StackFrame)
    → P f'
    → All P fs
    → All P (set fs i f')
All-set P [] i f' p h = h
All-set P (g ∷ fs) zero f' p (a, b) = (p, b)
All-set P (g ∷ fs) (suc i) f' p (a, b) = (a, All-set P fs i f' p b)

All-init :
    (P : StackFrame → Type 0) (fs : List StackFrame) (f : StackFrame)
    → All P (fs ++ f ∷ [])
    → All P fs
All-init P [] f h = tt
All-init P (g ∷ fs) f (a, b) = (a, All-init P fs f b)

change-IsDead : {m m' : Memory} {id : ℕ} → IsDead m id → StackChange m m' → IsDead m' id
change-IsDead {m} {m'} {id} d (replaced i f f' at e stack counter) = record {
  absent = rw stack (
      All-set (λ g. g.id ≢ id) m.stack i f'
        (rw e (All-get_elem? (λ g. g.id ≢ id) m.stack i d.absent at)) d.absent);
  past = rw counter d.past;
}
change-IsDead {m} {m'} {id} d (grown f e stack counter) = record {
  absent = rw stack (All-append_one (λ g. g.id ≢ id) m.stack f d.absent (omega (arith, d.past)));
  past = rw counter (omega (arith, d.past));
}
change-IsDead {m} {m'} {id} d (shrunk f stack some_left counter) = record {
  absent =
      All-init (λ g. g.id ≢ id) m'.stack f
        (subst (λ s. All (λ (g : StackFrame). g.id ≢ id) s) stack d.absent);
  past = rw counter d.past;
}
change-IsDead {m} {m'} {id} d (same stack counter) = record {
  absent = rw stack d.absent;
  past = rw counter d.past;
}

Steps-IsDead :
    {m m' : Memory} {id : ℕ} → IsMemory m → IsDead m id → Steps m m' → IsMemory m' × IsDead m' id
Steps-IsDead v d here = (v, d)
Steps-IsDead v d (next r s) =
    let (v', d') = Steps-IsDead v d r in
    (Step-IsMemory v' s, change-IsDead d' (Step-StackChange v' s).0)

Ordered-absent :
    (lo : ℕ) (fs : List StackFrame) (id : ℕ)
    → Ordered lo fs id
    → All (λ (g : StackFrame). g.id ≢ id) fs
Ordered-absent lo [] id h = tt
Ordered-absent lo (g ∷ fs) id (a, b) =
    (omega (arith, Ordered-le (suc g.id) fs id b), Ordered-absent (suc g.id) fs id b)

-- The id of a frame that is popped is dead.
popped-IsDead :
    (m : Memory) (f : StackFrame) (m' : Memory)
    → IsMemory m
    → pop_frame m ≡ some (f, m')
    → IsDead m' f.id
popped-IsDead m f m' v h =
    let (_, _, whole, counter) = pop_frame-StackChange m f m' h in
    let (below, lt) =
      Ordered-init 0 m'.stack m.id_counter f
        (subst (λ s. Ordered 0 s m.id_counter) whole v.ordered) in
    record { absent = Ordered-absent 0 m'.stack f.id below; past = rw counter lt }

dead-frame_of : (m : Memory) (p : LocalPointer) → IsDead m p.stack_id → frame_of m p ≡ none
dead-frame_of m p d = elim (Option-cases (frame_of m p)) [
  | inl e ↦ e
  | inr (f, e) ↦
      let at = frame_of-IsFrame m p e in
      absurd (All-get_elem? (λ g. g.id ≢ p.stack_id) m.stack p.stack_index d.absent at.at at.id)
]

-- No use after free, from a memory in order: once a frame has been popped, no later reading or writing through a pointer
-- into it goes through, whatever the evaluator pushes, allocates and writes in between.
pub no_use_after_free :
    (host : ℕ → ℕ → List ℕ) (m m' m'' : Memory) (f : StackFrame) (p : ℕ) (q : LocalPointer)
    → IsMemory m
    → pop_frame m ≡ some (f, m')
    → Steps m' m''
    → get_elem? m''.pointers p ≡ some (local q)
    → q.stack_id ≡ f.id
    → ((n : ℕ) → read_slice host m'' p n ≡ none) × ((val : List ℕ) → write m'' p val ≡ none)
unfolding read_slice read_pointer write local_write
no_use_after_free host m m' m'' f p q v h steps at id =
    let d = popped-IsDead m f m' v h in
    let v' = Step-IsMemory v (popped f h) in
    let (_, dead) = Steps-IsDead v' d steps in
    let gone = dead-frame_of m'' q (rw id dead) in (λ n. rw (at, gone), λ val. rw (at, gone))
