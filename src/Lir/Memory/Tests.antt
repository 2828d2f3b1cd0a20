-- ===== src/Lir/Memory/Tests.antt =====
-- A memory with a frame above the root: written, read, popped, and read again.
use roto.Prelude.{ℕ, ◌≡◌, refl, some, none, List, [], ◌∷◌, ◌++◌, replicate, arith, inl, inr}
use roto.Lir.Memory.{
  Memory, LocalPointer, StackFrame, local, write, read_slice, push_frame, pop_frame, allocate,
  frame_of, frame_read, frame_write, allocation_read, allocation_write,
}
use roto.Lir.Memory.Frames.{read_slice-write_apart}
use roto.Lir.Memory.Invariant.{IsMemory, Steps, here, next, allocated, pushed}
use roto.Lir.Memory.Stale.{Step-IsMemory, no_use_after_free}

abbrev host : ℕ → ℕ → List ℕ
host address size = replicate size 0

-- The frame of a call, with one allocation of eight bytes.
abbrev callee : List ℕ → StackFrame
callee bytes = record {
  id = 1;
  return_address = 7;
  return_place = none;
  allocations = record { inner = bytes } ∷ [];
}

abbrev root_frame : StackFrame
root_frame = record { id = 0; return_address = 0; return_place = none; allocations = [] }

abbrev start_pointer : LocalPointer
start_pointer = record {
  stack_index = 1;
  stack_id = 1;
  allocation_index = 0;
  allocation_offset = 0;
}

abbrev later_pointer : LocalPointer
later_pointer = record start_pointer { allocation_offset = 4 }

abbrev with_bytes : List ℕ → Memory
with_bytes bytes = record {
  id_counter = 2;
  stack = root_frame ∷ callee bytes ∷ [];
  pointers = local start_pointer ∷ local later_pointer ∷ [];
}

abbrev before : Memory
before = with_bytes (replicate 8 0)

abbrev after : Memory
after = with_bytes (0 ∷ 0 ∷ 0 ∷ 0 ∷ 1 ∷ 2 ∷ 3 ∷ 4 ∷ [])

abbrev popped_memory : Memory
popped_memory = record before { stack = root_frame ∷ [] }

before-IsMemory : IsMemory before
before-IsMemory = omega arith

write-before : write before 1 (1 ∷ 2 ∷ 3 ∷ 4 ∷ []) ≡ some after
unfolding write frame_of frame_write allocation_write
write-before = refl

-- An access that is in bounds and not a multiple of its size panics.
read_slice-unaligned : read_slice host after 1 8 ≡ none
unfolding read_slice frame_of frame_read allocation_read
read_slice-unaligned = refl

pop_frame-before : pop_frame before ≡ some (callee (replicate 8 0), popped_memory)
unfolding pop_frame
pop_frame-before = refl

read_slice-write_apart_example : read_slice host after 0 4 ≡ read_slice host before 0 4
read_slice-write_apart_example =
    read_slice-write_apart host before 1 (1 ∷ 2 ∷ 3 ∷ 4 ∷ []) after 0 4 later_pointer start_pointer
      write-before refl refl (inr (inr (inl (omega arith))))

-- The root calls again: the new frame stands where the popped one stood, under a new id.
abbrev recalled : Memory
recalled = record {
  id_counter = 3;
  stack =
      root_frame
      ∷ record { id = 2; return_address = 9; return_place = none; allocations = [] }
      ∷ [];
  pointers = before.pointers;
}

push_frame-popped : push_frame popped_memory 9 none ≡ some recalled
unfolding push_frame
push_frame-popped = refl

abbrev refilled : Memory
refilled = record recalled {
  stack =
      root_frame
      ∷ record {
        id = 2;
        return_address = 9;
        return_place = none;
        allocations = record { inner = replicate 8 0 } ∷ [];
      }
      ∷ [];
  pointers =
      before.pointers
      ++ local
          (record { stack_index = 1; stack_id = 2; allocation_index = 0; allocation_offset = 0 })
        ∷ [];
}

allocate-recalled : allocate recalled 8 ≡ some (2, refilled)
unfolding allocate
allocate-recalled = refl

recall : Steps popped_memory refilled
recall = next (next here (pushed 9 none push_frame-popped)) (allocated 8 2 allocate-recalled)

no_use_after_free_example :
    ((n : ℕ) → read_slice host refilled 0 n ≡ none) × ((val : List ℕ) → write refilled 0 val ≡ none)
no_use_after_free_example =
    no_use_after_free host before popped_memory refilled (callee (replicate 8 0)) 0 start_pointer
      before-IsMemory pop_frame-before recall refl refl

recalled-IsMemory : IsMemory recalled
recalled-IsMemory = omega arith

Step-IsMemory_example : IsMemory refilled
Step-IsMemory_example = Step-IsMemory recalled-IsMemory (allocated 8 2 allocate-recalled)
