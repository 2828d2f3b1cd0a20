-- ===== src/Lir/Memory/Frames.antt =====
-- src/lir/eval.rs, `Memory::write` and `Memory::read_slice`: what a write changes, and what not.
use native.Mathlib.Decide.{ℕ_discrete}
use roto.Prelude.{
  ◌∙◌, ℕ, ◌+◌, ◌≤◌, ◌≡◌, ◌≢◌, ◌⊎◌, inl, inr, ap, sym, subst, refl, some, none, List, length,
  get_elem?, set, get_elem?-set_self, get_elem?-set_ne, get_elem?-lt, ◌>>=◌, >>=-eq-some, some_inj,
  Bool-cases, ==→≡, ≡→==, ◌==◌,
}
use roto.Lir.Memory.{
  Memory, Pointer, LocalPointer, StackFrame, Allocation, local, global, frame_of, frame_write,
  frame_read, local_write, write, read_pointer, read_slice, allocation_write,
}
use roto.Lir.Memory.Bytes.{allocation_read-write, allocation_read-write_apart}

-- The frame that a local pointer names, with the id that the pointer remembers.
pub record IsFrame (m : Memory) (p : LocalPointer) (f : StackFrame) : Type 0 where
  pub at : get_elem? m.stack p.stack_index ≡ some f
  pub id : f.id ≡ p.stack_id

pub frame_of-IsFrame :
    (m : Memory) (p : LocalPointer) {f : StackFrame} → frame_of m p ≡ some f → IsFrame m p f
unfolding frame_of
frame_of-IsFrame m p {f} h =
    let (g, e, r) = >>=-eq-some (get_elem? m.stack p.stack_index) _ h in
    elim (Bool-cases (g.id == p.stack_id)) [
      | inl t ↦
          let same : g ≡ f = some_inj (rw t at r) in
          rw (← same) (record { at = e; id = ==→≡ g.id p.stack_id t })
      | inr n ↦ let bad : none ≡ some f = rw n at r in cc
    ]

pub IsFrame-frame_of :
    (m : Memory) (p : LocalPointer) {f : StackFrame} → IsFrame m p f → frame_of m p ≡ some f
unfolding frame_of
IsFrame-frame_of m p {f} h = rw (h.at, ≡→== f.id p.stack_id h.id)

-- What a successful write has done.
pub record IsWrite (m : Memory) (p : LocalPointer) (val : List ℕ) (m' : Memory) : Type 0 where
  pub frame : StackFrame
  pub old : Allocation
  pub new : Allocation
  pub is_frame : IsFrame m p frame
  pub at : get_elem? frame.allocations p.allocation_index ≡ some old
  pub written : allocation_write old p.allocation_offset val ≡ some new
  pub result : m' ≡ record m {
    stack =
        set m.stack p.stack_index
          (record frame { allocations = set frame.allocations p.allocation_index new });
  }

frame_write-inv :
    (f : StackFrame) (p : LocalPointer) (val : List ℕ) {f' : StackFrame}
    → frame_write f p val ≡ some f'
    → (a a' : Allocation) × (get_elem? f.allocations p.allocation_index ≡ some a)
      × (allocation_write a p.allocation_offset val ≡ some a')
      × (f' ≡ record f { allocations = set f.allocations p.allocation_index a' })
unfolding frame_write
frame_write-inv f p val h =
    let (a, e, r) = >>=-eq-some (get_elem? f.allocations p.allocation_index) _ h in
    let (a', e', r') = >>=-eq-some (allocation_write a p.allocation_offset val) _ r in
    (a, a', e, e', sym (some_inj r'))

local_write-IsWrite :
    (m : Memory) (p : Pointer) (val : List ℕ) {m' : Memory}
    → local_write m p val ≡ some m'
    → (q : LocalPointer) × (p ≡ local q) × IsWrite m q val m'
unfolding local_write
local_write-IsWrite m (local p) val h =
    let (f, e, r) = >>=-eq-some (frame_of m p) _ h in
    let (f', e', r') = >>=-eq-some (frame_write f p val) _ r in
    let (a, a', at, written, same) = frame_write-inv f p val e' in
    (
      p,
      refl,
      record {
        frame = f;
        old = a;
        new = a';
        is_frame = frame_of-IsFrame m p e;
        at = at;
        written = written;
        result =
            sym (some_inj r') ∙ ap (λ g. record m { stack = set m.stack p.stack_index g }) same;
      },
    )
local_write-IsWrite m (global _) val h = cc

pub write-IsWrite :
    (m : Memory) (p : ℕ) (val : List ℕ) {m' : Memory}
    → write m p val ≡ some m'
    → (q : LocalPointer) × (get_elem? m.pointers p ≡ some (local q)) × IsWrite m q val m'
unfolding write
write-IsWrite m p val h =
    let (q, e, r) = >>=-eq-some (get_elem? m.pointers p) _ h in
    let (l, same, w) = local_write-IsWrite m q val r in (l, e ∙ ap some same, w)

-- Two pointers that name different allocations, or ranges of one allocation that do not meet.
abbrev pub IsApart : LocalPointer → ℕ → LocalPointer → ℕ → Type 0
IsApart p size q n =
    (p.stack_index ≢ q.stack_index)
    ⊎ (p.allocation_index ≢ q.allocation_index)
    ⊎ (q.allocation_offset + n ≤ p.allocation_offset)
    ⊎ (p.allocation_offset + size ≤ q.allocation_offset)

module _ (m m' : Memory) (p : LocalPointer) (val : List ℕ) (w : IsWrite m p val m') where
  new_frame : StackFrame
  new_frame = record (w.frame) { allocations = set w.frame.allocations p.allocation_index w.new }

  new_frame-at : get_elem? m'.stack p.stack_index ≡ some new_frame
  unfolding new_frame
  new_frame-at = rw (ap (λ x. x.stack) w.result) (
      get_elem?-set_self m.stack p.stack_index _ (get_elem?-lt m.stack p.stack_index w.is_frame.at))

  new_frame-allocation : get_elem? new_frame.allocations p.allocation_index ≡ some w.new
  unfolding new_frame
  new_frame-allocation =
      get_elem?-set_self w.frame.allocations p.allocation_index w.new
        (get_elem?-lt w.frame.allocations p.allocation_index w.at)

  pub read-IsWrite :
      (f : StackFrame) × (frame_of m' p ≡ some f) × (frame_read f p (length val) ≡ some val)
  unfolding frame_read new_frame
  read-IsWrite = (
    new_frame,
    IsFrame-frame_of m' p (record { at = new_frame-at; id = w.is_frame.id }),
    rw new_frame-allocation (allocation_read-write w.old w.new p.allocation_offset val w.written),
  )

  frame_read-new_frame :
      (q : LocalPointer) (n : ℕ)
      → (p.allocation_index ≢ q.allocation_index)
        ⊎ (q.allocation_offset + n ≤ p.allocation_offset)
        ⊎ (p.allocation_offset + length val ≤ q.allocation_offset)
      → frame_read new_frame q n ≡ frame_read w.frame q n
  unfolding frame_read new_frame
  frame_read-new_frame q n d = elim (ℕ_discrete p.allocation_index q.allocation_index) [
    | yes same ↦
        let at : get_elem? w.frame.allocations q.allocation_index ≡ some w.old = rw (← same) w.at in
        let at' : get_elem? new_frame.allocations q.allocation_index ≡ some w.new =
          rw (← same) new_frame-allocation in
        let range : (q.allocation_offset + n ≤ p.allocation_offset)
            ⊎ (p.allocation_offset + length val ≤ q.allocation_offset) =
          elim d [ inl ne ↦ absurd (ne same) | inr r ↦ r ] in
        rw (at, at')
          (allocation_read-write_apart w.old w.new p.allocation_offset val q.allocation_offset n
            w.written range)
    | no ne ↦ rw (get_elem?-set_ne w.frame.allocations w.new ne)
  ]

  same_frame :
      (q : LocalPointer) (n : ℕ)
      → p.stack_index ≡ q.stack_index
      → frame_read new_frame q n ≡ frame_read w.frame q n
      → (frame_of m' q >>= λ f. frame_read f q n) ≡ (frame_of m q >>= λ f. frame_read f q n)
  unfolding frame_of new_frame
  same_frame q n same h =
      let at : get_elem? m.stack q.stack_index ≡ some w.frame = rw (← same) w.is_frame.at in
      let at' : get_elem? m'.stack q.stack_index ≡ some new_frame = rw (← same) new_frame-at in
      elim (Bool-cases (w.frame.id == q.stack_id)) [
        | inl t ↦ rw (at, at', t) h
        | inr f ↦ rw (at, at', f)
      ]

  other_frame : (q : LocalPointer) → p.stack_index ≢ q.stack_index → frame_of m' q ≡ frame_of m q
  unfolding frame_of
  other_frame q ne =
      let at : get_elem? m'.stack q.stack_index ≡ get_elem? m.stack q.stack_index =
        ap (λ x. get_elem? x.stack q.stack_index) w.result ∙ get_elem?-set_ne m.stack _ ne in
      rw at

  pub read-IsWrite_apart :
      (q : LocalPointer) (n : ℕ)
      → IsApart p (length val) q n
      → (frame_of m' q >>= λ f. frame_read f q n) ≡ (frame_of m q >>= λ f. frame_read f q n)
  read-IsWrite_apart q n d = elim (ℕ_discrete p.stack_index q.stack_index) [
    | yes same ↦
        same_frame q n same
          (frame_read-new_frame q n (elim d [ inl ne ↦ absurd (ne same) | inr r ↦ r ]))
    | no ne ↦ ap (λ o. o >>= λ f. frame_read f q n) (other_frame q ne)
  ]

local_inj : {a b : LocalPointer} → local a ≡ local b → a ≡ b
local_inj h = cc

module _ (host : ℕ → ℕ → List ℕ) where
  -- What is read through the pointer of a write is what was written.
  pub read_slice-write :
      (m : Memory) (p : ℕ) (val : List ℕ) (m' : Memory)
      → write m p val ≡ some m'
      → read_slice host m' p (length val) ≡ some val
  unfolding read_slice read_pointer
  read_slice-write m p val m' h =
      let (q, e, w) = write-IsWrite m p val h in
      let (f, a, b) = read-IsWrite m m' q val w in
      let at : get_elem? m'.pointers p ≡ some (local q) =
        ap (λ x. get_elem? x.pointers p) w.result ∙ e in
      rw (at, a, b)

  -- A write is seen through no pointer to another allocation, and through no range of the same
  -- allocation that does not meet the written one: reads there give what they gave, panics
  -- included.
  pub read_slice-write_apart :
      (m : Memory) (p : ℕ) (val : List ℕ) (m' : Memory) (q n : ℕ) (a b : LocalPointer)
      → write m p val ≡ some m'
      → get_elem? m.pointers p ≡ some (local a)
      → get_elem? m.pointers q ≡ some (local b)
      → IsApart a (length val) b n
      → read_slice host m' q n ≡ read_slice host m q n
  unfolding read_slice read_pointer
  read_slice-write_apart m p val m' q n a b h ea eb d =
      let (c, ec, w) = write-IsWrite m p val h in
      let same : c ≡ a = local_inj (some_inj (sym ec ∙ ea)) in
      let w' : IsWrite m a val m' = subst (λ x. IsWrite m x val m') same w in
      let at : get_elem? m'.pointers q ≡ some (local b) =
        ap (λ x. get_elem? x.pointers q) w'.result ∙ eb in
      rw (at, eb) (read-IsWrite_apart m m' a val w' b n d)
