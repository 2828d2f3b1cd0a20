-- ===== src/Lir/Memory/Invariant.antt =====
-- src/lir/eval.rs, `Memory`: the operations as steps, and what it is for a memory to be in order: the
-- ids of the frames grow along the stack and lie below the counter, as do the ids in the pointers.
use roto.Prelude.{
  ◌∙◌, ℕ, zero, suc, ◌+◌, ◌-◌, ◌≤◌, ◌<◌, ◌≡◌, ap, sym, refl, Option, some, none, List, [], ◌∷◌,
  ◌++◌, length, get_elem?, set, length-append, >>=-eq-some, some_inj, arith, All, All-get_elem?,
  add_usize, Bool-cases, inl, inr, lt→ltb, Option-cases, ◌==◌,
}
use roto.Lir.Var.{Var}
use roto.Lir.Memory.{
  Memory, Pointer, StackFrame, local, global, write, push_frame, pop, pop_frame, offset_by,
  offset_pointer, pointer_offset_by, allocate, with_allocation, push_global,
}
use roto.Lir.Memory.Frames.{write-IsWrite}

-- The ids of the frames are at least `lo`, grow, and lie below `hi`.
abbrev pub Ordered : ℕ → List StackFrame → ℕ → Type 0
Ordered lo [] hi = lo ≤ hi
Ordered lo (f ∷ fs) hi = (lo ≤ f.id) × Ordered (suc f.id) fs hi

abbrev pub Remembers : ℕ → Pointer → Type 0
Remembers hi (local p) = p.stack_id < hi
Remembers hi (global _) = Unit

pub Ordered-le : (lo : ℕ) (fs : List StackFrame) (hi : ℕ) → Ordered lo fs hi → lo ≤ hi
Ordered-le lo [] hi h = h
Ordered-le lo (f ∷ fs) hi (a, b) = omega (arith, Ordered-le (suc f.id) fs hi b)

pub record IsMemory (m : Memory) : Type 0 where
  pub root : 0 < length m.stack
  pub ordered : Ordered 0 m.stack m.id_counter
  pub remembers : All (Remembers m.id_counter) m.pointers

-- One operation on the memory that does not panic.
pub data Step (m : Memory) : Memory → Type 0 where
  written : {m' : Memory} (p : ℕ) (val : List ℕ) → write m p val ≡ some m' → Step m m'
  pushed :
      {m' : Memory} (address : ℕ) (place : Option Var)
      → push_frame m address place ≡ some m'
      → Step m m'
  popped : {m' : Memory} (f : StackFrame) → pop_frame m ≡ some (f, m') → Step m m'
  moved : {m' : Memory} (p offset q : ℕ) → offset_by m p offset ≡ some (q, m') → Step m m'
  allocated : {m' : Memory} (bytes p : ℕ) → allocate m bytes ≡ some (p, m') → Step m m'
  shared : {m' : Memory} (address p : ℕ) → push_global m address ≡ (p, m') → Step m m'

pub data Steps (m : Memory) : Memory → Type 0 where
  here : Steps m m
  next : {m' m'' : Memory} → Steps m m' → Step m' m'' → Steps m m''

-- What each operation does to the stack and to the pointers: a frame is replaced by one of the
-- same id, pushed with the counter for its id, or taken off the end; and pointers are added.
pub data StackChange (m : Memory) : Memory → Type 0 where
  replaced :
      {m' : Memory} (i : ℕ) (f f' : StackFrame)
      → get_elem? m.stack i ≡ some f
      → f'.id ≡ f.id
      → m'.stack ≡ set m.stack i f'
      → m'.id_counter ≡ m.id_counter
      → StackChange m m'
  grown :
      {m' : Memory} (f : StackFrame)
      → f.id ≡ m.id_counter
      → m'.stack ≡ m.stack ++ f ∷ []
      → m'.id_counter ≡ suc m.id_counter
      → StackChange m m'
  shrunk :
      {m' : Memory} (f : StackFrame)
      → m.stack ≡ m'.stack ++ f ∷ []
      → 0 < length m'.stack
      → m'.id_counter ≡ m.id_counter
      → StackChange m m'
  same : {m' : Memory} → m'.stack ≡ m.stack → m'.id_counter ≡ m.id_counter → StackChange m m'

pub pop-none {ℓ} : {A : Type ℓ} (xs : List A) → pop xs ≡ none → xs ≡ []
unfolding pop
pop-none [] h = refl
pop-none (x ∷ xs) h = ground arith

pub pop-append {ℓ} :
    {A : Type ℓ} (xs ys : List A) (y : A) → pop xs ≡ some (ys, y) → xs ≡ ys ++ y ∷ []
unfolding pop
pop-append [] ys y h = cc
pop-append (x ∷ xs) ys y h = elim (Option-cases (pop xs)) [
  | inl e ↦
      let end : ([], x) ≡ (ys, y) = some_inj (rw (e, pop) at h) in
      rw (pop-none xs e) (ap (λ q. q.0 ++ q.1 ∷ []) end)
  | inr ((zs, z), e) ↦
      let end : (x ∷ zs, z) ≡ (ys, y) = some_inj (rw (e, pop) at h) in
      rw (pop-append xs zs z e) (ap (λ q. q.0 ++ q.1 ∷ []) end)
]

pub write-StackChange :
    (m : Memory) (p : ℕ) (val : List ℕ) {m' : Memory}
    → write m p val ≡ some m'
    → StackChange m m' × (m'.pointers ≡ m.pointers)
write-StackChange m p val h =
    let (q, _, w) = write-IsWrite m p val h in
    (
      replaced q.stack_index w.frame _ w.is_frame.at refl (ap (λ x. x.stack) w.result)
          (ap (λ x. x.id_counter) w.result),
      ap (λ x. x.pointers) w.result,
    )

pub push_frame-StackChange :
    (m : Memory) (address : ℕ) (place : Option Var) {m' : Memory}
    → push_frame m address place ≡ some m'
    → StackChange m m' × (m'.pointers ≡ m.pointers)
unfolding push_frame
push_frame-StackChange m address place h =
    let (n, e, r) = >>=-eq-some (add_usize m.id_counter 1) _ h in
    let same = sym (some_inj r) in
    let counter : n ≡ suc m.id_counter = ground arith in
    (
      grown _ refl (ap (λ x. x.stack) same) (ap (λ x. x.id_counter) same ∙ counter),
      ap (λ x. x.pointers) same,
    )

pub pop_frame-StackChange :
    (m : Memory) (f : StackFrame) (m' : Memory)
    → pop_frame m ≡ some (f, m')
    → StackChange m m'
      × (m'.pointers ≡ m.pointers)
      × (m.stack ≡ m'.stack ++ f ∷ [])
      × (m'.id_counter ≡ m.id_counter)
unfolding pop_frame
pop_frame-StackChange m f m' h = elim (Bool-cases (length m.stack == 1)) [
  | inl one ↦ let bad : none ≡ some (f, m') = rw one at h in cc
  | inr more ↦
      let ((rest, g), e, r) = >>=-eq-some (pop m.stack) _ (rw more at h) in
      let end : (g, record m { stack = rest }) ≡ (f, m') = some_inj r in
      let whole : m.stack ≡ m'.stack ++ f ∷ [] =
        pop-append m.stack rest g e ∙ ap (λ x. x.1.stack ++ x.0 ∷ []) end in
      let size : length m.stack ≡ length m'.stack + 1 =
        ap length whole ∙ length-append m'.stack (f ∷ []) in
      (
        shrunk f whole (ground arith) (ap (λ x. x.1.id_counter) (sym end)),
        ap (λ x. x.1.pointers) (sym end),
        whole,
        ap (λ x. x.1.id_counter) (sym end),
      )
]

pub All-append_one {ℓ κ} :
    {A : Type ℓ} (P : A → Type κ) (xs : List A) (y : A) → All P xs → P y → All P (xs ++ y ∷ [])
All-append_one P [] y h k = (k, tt)
All-append_one P (x ∷ xs) y (h, hs) k = (h, All-append_one P xs y hs k)

offset_pointer-StackChange :
    (m : Memory) (p : Pointer) (offset q : ℕ) (m' : Memory)
    → All (Remembers m.id_counter) m.pointers
    → Remembers m.id_counter p
    → offset_pointer m p offset ≡ some (q, m')
    → StackChange m m' × All (Remembers m.id_counter) m'.pointers
unfolding offset_pointer pointer_offset_by
offset_pointer-StackChange m (global _) offset q m' v w h = cc
offset_pointer-StackChange m (local p) offset q m' v w h =
    let (n, e, r) = >>=-eq-some (pointer_offset_by p offset) _ h in
    let end = sym (some_inj r) in
    let (sum, e', r') = >>=-eq-some (add_usize p.allocation_offset offset) _ e in
    let id : p.stack_id ≡ n.stack_id = ap (λ x. x.stack_id) (some_inj r') in
    (
      same (ap (λ x. x.1.stack) end) (ap (λ x. x.1.id_counter) end),
      rw (ap (λ x. x.1.pointers) end)
          (All-append_one (Remembers m.id_counter) m.pointers (local n) v (rw (← id) w)),
    )

pub offset_by-StackChange :
    (m : Memory) (p offset q : ℕ) (m' : Memory)
    → IsMemory m
    → offset_by m p offset ≡ some (q, m')
    → StackChange m m' × All (Remembers m.id_counter) m'.pointers
unfolding offset_by
offset_by-StackChange m p offset q m' v h =
    let (l, e, r) = >>=-eq-some (get_elem? m.pointers p) _ h in
    offset_pointer-StackChange m l offset q m' v.remembers
      (All-get_elem? (Remembers m.id_counter) m.pointers p v.remembers e) r

Ordered-get_elem? :
    (lo : ℕ) (fs : List StackFrame) (hi i : ℕ) {f : StackFrame}
    → Ordered lo fs hi
    → get_elem? fs i ≡ some f
    → f.id < hi
Ordered-get_elem? lo [] hi i h e = cc
Ordered-get_elem? lo (g ∷ fs) hi zero h e =
    let le = Ordered-le (suc g.id) fs hi h.1 in rw (← ap (λ x. x.id) (some_inj e)) (omega arith)
Ordered-get_elem? lo (g ∷ fs) hi (suc i) h e = Ordered-get_elem? (suc g.id) fs hi i h.1 e

pub allocate-StackChange :
    (m : Memory) (bytes q : ℕ) (m' : Memory)
    → IsMemory m
    → allocate m bytes ≡ some (q, m')
    → StackChange m m' × All (Remembers m.id_counter) m'.pointers
unfolding allocate
allocate-StackChange m bytes q m' v h =
    let i = length m.stack - 1 in
    let (f, e, r) =
      >>=-eq-some (get_elem? m.stack i) _ (rw (lt→ltb 0 (length m.stack) v.root) at h) in
    let end = sym (some_inj r) in
    (
      replaced i f (with_allocation f bytes) e refl (ap (λ x. x.1.stack) end)
          (ap (λ x. x.1.id_counter) end),
      rw (ap (λ x. x.1.pointers) end) (
          All-append_one (Remembers m.id_counter) m.pointers _ v.remembers
            (Ordered-get_elem? 0 m.stack m.id_counter i v.ordered e)),
    )
