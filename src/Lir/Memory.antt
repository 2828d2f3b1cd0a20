-- ===== src/Lir/Memory.antt =====
-- src/lir/eval.rs, `Memory`: the stack frames, allocations and pointers of the evaluator. A panic
-- is `none`. The bytes behind a global pointer belong to the host, which is a parameter.
pub mod Bytes
pub mod Frames
pub mod Invariant
pub mod Stale
pub mod Fresh
pub mod Ends
mod Tests
use roto.Prelude.{
  ℕ, zero, suc, ◌+◌, ◌-◌, ◌%◌, ◌≡◌, Bool, true, false, Option, some, none, List, [], ◌∷◌, ◌++◌,
  length, get_elem?, set, take, drop, replicate, leb, ltb, ◌==◌, ◌>>=◌, ◌>>◌, assert, add_usize,
  if◌then◌else◌,
}
use roto.Lir.Var.{Var}

-- `GlobalPointer` holds an address of the host.
pub record LocalPointer : Type 0 where
  pub stack_index : ℕ
  pub stack_id : ℕ
  pub allocation_index : ℕ
  pub allocation_offset : ℕ

pub data Pointer : Type 0 where
  global : ℕ → Pointer
  local : LocalPointer → Pointer

pub record Allocation : Type 0 where
  pub inner : List ℕ

pub record StackFrame : Type 0 where
  pub id : ℕ
  pub return_address : ℕ
  pub return_place : Option Var
  pub allocations : List Allocation

pub record Memory : Type 0 where
  pub id_counter : ℕ
  pub stack : List StackFrame
  pub pointers : List Pointer

-- `Memory::new`
abbrev pub new : Memory
new = record {
  id_counter = 1;
  stack = record { id = 0; return_address = 0; return_place = none; allocations = [] } ∷ [];
  pointers = [];
}

-- `LocalPointer::offset_by`
pub pointer_offset_by : LocalPointer → ℕ → Option LocalPointer
pointer_offset_by p offset = do
  sum ← add_usize p.allocation_offset offset
  some (record p { allocation_offset = sum })

-- The access checks of `Allocation::write` and `Allocation::read`. `n.is_multiple_of(0)` holds of 0
-- alone, as `n % 0 ≡ n` has it here.
abbrev pub check_access : ℕ → ℕ → Allocation → Option (Unit {0})
check_access offset size a = do
  end ← add_usize offset size
  assert (leb end (length a.inner))
  assert (offset % size == 0)

-- `Allocation::write`
unfoldable pub allocation_write : Allocation → ℕ → List ℕ → Option Allocation
allocation_write a offset val = do
  check_access offset (length val) a
  some (record { inner = take offset a.inner ++ (val ++ drop (offset + length val) a.inner) })

-- `Allocation::read`
unfoldable pub allocation_read : Allocation → ℕ → ℕ → Option (List ℕ)
allocation_read a offset size = do
  check_access offset size a
  some (take size (drop offset a.inner))

-- `StackFrame::write`
unfoldable pub frame_write : StackFrame → LocalPointer → List ℕ → Option StackFrame
frame_write f p val = do
  a ← get_elem? f.allocations p.allocation_index
  a' ← allocation_write a p.allocation_offset val
  some (record f { allocations = set f.allocations p.allocation_index a' })

-- `StackFrame::read`
unfoldable pub frame_read : StackFrame → LocalPointer → ℕ → Option (List ℕ)
frame_read f p size = do
  a ← get_elem? f.allocations p.allocation_index
  allocation_read a p.allocation_offset size

-- The frame of a pointer, with the check of its id.
unfoldable pub frame_of : Memory → LocalPointer → Option StackFrame
frame_of m p = do f ← get_elem? m.stack p.stack_index; assert (f.id == p.stack_id); some f

local_write : Memory → Pointer → List ℕ → Option Memory
local_write m (local p) val = do
  f ← frame_of m p
  f' ← frame_write f p val
  some (record m { stack = set m.stack p.stack_index f' })
local_write m (global _) val = none

-- `Memory::write`
unfoldable pub write : Memory → ℕ → List ℕ → Option Memory
unfolding local_write
write m p val = get_elem? m.pointers p >>= λ q. local_write m q val

-- `Memory::push_frame`
unfoldable pub push_frame : Memory → ℕ → Option Var → Option Memory
push_frame m return_address return_place = do
  next ← add_usize m.id_counter 1
  some (record {
    id_counter = next;
    stack =
        m.stack
        ++ record {
          id = m.id_counter;
          return_address = return_address;
          return_place = return_place;
          allocations = [];
        }
          ∷ [];
    pointers = m.pointers;
  })

-- `Vec::pop`: the rest and the last element.
pub pop {ℓ} : {A : Type ℓ} → List A → Option (List A × A)
pop [] = none
pop (x ∷ xs) = elim (pop xs) [ none ↦ some ([], x) | some (ys, y) ↦ some (x ∷ ys, y) ]

-- `Memory::pop_frame`, which keeps the root.
unfoldable pub pop_frame : Memory → Option (StackFrame × Memory)
unfolding pop
pop_frame m =
    if length m.stack == 1
    then none
    else (pop m.stack >>= λ (rest, f). some (f, record m { stack = rest }))

offset_pointer : Memory → Pointer → ℕ → Option (ℕ × Memory)
unfolding pointer_offset_by
offset_pointer m (local p) offset = do
  q ← pointer_offset_by p offset
  some (length m.pointers, record m { pointers = m.pointers ++ local q ∷ [] })
offset_pointer m (global _) offset = none

-- `Memory::offset_by`: the new pointer, and the memory with it.
pub offset_by : Memory → ℕ → ℕ → Option (ℕ × Memory)
unfolding offset_pointer
offset_by m p offset = get_elem? m.pointers p >>= λ q. offset_pointer m q offset

-- The last stack frame gets a new allocation of zeros.
abbrev pub with_allocation : StackFrame → ℕ → StackFrame
with_allocation f bytes = record f {
  allocations = f.allocations ++ record { inner = replicate bytes 0 } ∷ [];
}

-- `Memory::allocate`: the new pointer, and the memory with it.
unfoldable pub allocate : Memory → ℕ → Option (ℕ × Memory)
allocate m bytes = do
  assert (ltb 0 (length m.stack))
  let stack_index = length m.stack - 1
  f ← get_elem? m.stack stack_index
  let p : LocalPointer = record {
    stack_index = stack_index;
    stack_id = f.id;
    allocation_index = length f.allocations;
    allocation_offset = 0;
  }
  some (
    length m.pointers,
    record m {
      stack = set m.stack stack_index (with_allocation f bytes);
      pointers = m.pointers ++ local p ∷ [];
    },
  )

-- The evaluator hands out a pointer to a constant of the host.
pub push_global : Memory → ℕ → ℕ × Memory
push_global m address =
    (length m.pointers, record m { pointers = m.pointers ++ global address ∷ [] })

-- `Memory::get` gives the host address of a place: an address of the host already, or a byte of
-- an allocation. It does not check the id of the frame.
get_place : Memory → Pointer → Option Pointer
get_place m (global a) = some (global a)
get_place m (local p) = do
  f ← get_elem? m.stack p.stack_index
  a ← get_elem? f.allocations p.allocation_index
  assert (ltb p.allocation_offset (length a.inner))
  some (local p)

pub get : Memory → ℕ → Option Pointer
unfolding get_place
get m p = get_elem? m.pointers p >>= get_place m

-- `host address size` is what `slice::from_raw_parts` gives for memory of the host.
module _ (host : ℕ → ℕ → List ℕ) where
  read_pointer : Memory → Pointer → ℕ → Option (List ℕ)
  read_pointer m (local p) size = do f ← frame_of m p; frame_read f p size
  read_pointer m (global a) size = some (host a size)

  -- `Memory::read_slice`
  unfoldable pub read_slice : Memory → ℕ → ℕ → Option (List ℕ)
  unfolding read_pointer
  read_slice m p size = get_elem? m.pointers p >>= λ q. read_pointer m q size

  -- `Memory::read_array`
  pub read_array : ℕ → Memory → ℕ → Option (List ℕ)
  unfolding read_slice
  read_array n m p = do slice ← read_slice m p n; assert (length slice == n); some slice

  -- `Memory::copy`
  pub copy : Memory → ℕ → ℕ → ℕ → Option Memory
  unfolding read_slice
  copy m to from size = do slice ← read_slice m from size; write m to slice
