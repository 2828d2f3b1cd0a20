-- ===== src/Lir/Memory/Fresh.antt =====
-- src/lir/eval.rs, `Memory::allocate` and `Memory::get`.
use roto.Prelude.{
  ◌∙◌, ℕ, zero, suc, ◌-◌, ◌<◌, ◌≡◌, ◌≢◌, ap, sym, refl, some, none, List, [], ◌∷◌, length,
  get_elem?, set, get_elem?-lt, get_elem?-set_self, get_elem?-append_end, length-replicate,
  replicate, take, >>=-eq-some, some_inj, arith, false, ◌==◌, lt→ltb, le→leb, usize_mod,
}
use native.Mathlib.Nat.{zero-mod, zero-add}
use roto.Lir.Memory.{
  Memory, LocalPointer, StackFrame, Allocation, local, allocate, with_allocation, read_slice,
  read_pointer, frame_of, frame_read, allocation_read, get, get_place,
}
use roto.Lir.Memory.Frames.{IsFrame-frame_of}
use roto.Lir.Memory.Invariant.{IsMemory}

-- What `allocate` does where it does not panic.
allocate-inv :
    (m : Memory) (bytes p : ℕ) (m' : Memory)
    → IsMemory m
    → allocate m bytes ≡ some (p, m')
    → (f : StackFrame) × (get_elem? m.stack (length m.stack - 1) ≡ some f)
      × (m'.stack ≡ set m.stack (length m.stack - 1) (with_allocation f bytes))
      × (get_elem? m'.pointers p
          ≡ some (
              local (record {
                stack_index = length m.stack - 1;
                stack_id = f.id;
                allocation_index = length f.allocations;
                allocation_offset = 0;
              })))
unfolding allocate
allocate-inv m bytes p m' v h =
    let (f, e, r) =
      >>=-eq-some (get_elem? m.stack (length m.stack - 1)) _
        (rw (lt→ltb 0 (length m.stack) v.root) at h) in
    let end = sym (some_inj r) in
    (
      f,
      e,
      ap (λ x. x.1.stack) end,
      ap (λ x. get_elem? x.1.pointers x.0) end
          ∙ get_elem?-append_end m.pointers _ (length m.pointers) refl,
    )

take_all {ℓ} : {A : Type ℓ} (xs : List A) (n : ℕ) → n ≡ length xs → take n xs ≡ xs
take_all [] zero h = refl
take_all [] (suc n) h = refl
take_all (x ∷ xs) zero h = absurd (omega arith)
take_all (x ∷ xs) (suc n) h = ap (λ r. x ∷ r) (take_all xs n (omega arith))

read_zeros :
    (n : ℕ)
    → n < usize_mod
    → allocation_read (record { inner = replicate n 0 }) 0 n ≡ some (replicate n 0)
unfolding allocation_read
read_zeros n h =
    let size = length-replicate n (let z : ℕ = 0 in z) in
    rw (zero-add n, lt→ltb n usize_mod h, size, le→leb n n (omega arith), zero-mod n)
      (ap some (take_all (replicate n 0) n (sym size)))

-- A new allocation is all zeros, and its pointer reads the whole of it.
pub read_slice-allocate :
    (host : ℕ → ℕ → List ℕ) (m : Memory) (bytes p : ℕ) (m' : Memory)
    → IsMemory m
    → bytes < usize_mod
    → allocate m bytes ≡ some (p, m')
    → read_slice host m' p bytes ≡ some (replicate bytes 0)
unfolding read_slice read_pointer frame_read
read_slice-allocate host m bytes p m' v lt h =
    let (f, e, stack, at) = allocate-inv m bytes p m' v h in
    let q : LocalPointer = record {
      stack_index = length m.stack - 1;
      stack_id = f.id;
      allocation_index = length f.allocations;
      allocation_offset = 0;
    } in
    let top : get_elem? m'.stack (length m.stack - 1) ≡ some (with_allocation f bytes) =
      rw stack (get_elem?-set_self m.stack (length m.stack - 1) _ (get_elem?-lt m.stack _ e)) in
    let frame =
      IsFrame-frame_of m' q {f = with_allocation f bytes} (record { at = top; id = refl }) in
    rw
      (
        at,
        frame,
        get_elem?-append_end f.allocations (record { inner = replicate bytes 0 })
            (length f.allocations) refl,
      )
      (read_zeros bytes lt)

-- Where the frame at a pointer's index is another than the pointer was made for, reading panics
-- and `get` still gives the address, of a byte in an allocation of that other frame.
pub get_unchecked :
    (host : ℕ → ℕ → List ℕ) (m : Memory) (p : ℕ) (q : LocalPointer) (f : StackFrame)
    (a : Allocation)
    → get_elem? m.pointers p ≡ some (local q)
    → get_elem? m.stack q.stack_index ≡ some f
    → f.id ≢ q.stack_id
    → get_elem? f.allocations q.allocation_index ≡ some a
    → q.allocation_offset < length a.inner
    → (get m p ≡ some (local q)) × ((n : ℕ) → read_slice host m p n ≡ none)
unfolding get get_place read_slice read_pointer frame_of
get_unchecked host m p q f a at top ne alloc lt =
    let differs : (f.id == q.stack_id) ≡ false = ground arith in
    (
      rw (at, top, alloc, lt→ltb q.allocation_offset (length a.inner) lt),
      λ n. rw (at, top, differs),
    )
