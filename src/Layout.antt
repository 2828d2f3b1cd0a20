-- ===== src/Layout.antt =====
-- src/runtime/layout.rs, `Layout`: the size and the alignment of a type.
pub mod Builder
pub mod Multiple
pub mod Valid
use roto.Prelude.{
  ℕ, zero, suc, ◌%◌, ◌^◌, ◌<◌, ◌≡◌, Bool, ◌||◌, false, Option, some, max, ltb, ◌==◌, if◌then◌else◌,
  ◌>>=◌, ◌>>◌, assert, next_multiple_of, usize_mod,
}

pub record Layout : Type 0 where
  pub size : ℕ
  pub align : ℕ

-- Whether `n` is `2 ^ k` for a `k` below the given number.
unfoldable pub is_power_below : ℕ → ℕ → Bool
is_power_below zero n = false
is_power_below (suc k) n = n == 2 ^ k || is_power_below k n

-- `usize::is_power_of_two`
abbrev pub is_power_of_two : ℕ → Bool
is_power_of_two = is_power_below 64

-- `Layout::new`, which panics where its conditions fail.
unfoldable pub new : ℕ → ℕ → Option Layout
new size align = do
  assert (ltb 0 align)
  assert (is_power_of_two align)
  assert (size % align == 0)
  some (record { size = size; align = align })

pub is_zero_sized : Layout → Bool
is_zero_sized l = l.size == 0

-- The largest `k` below the given number with `2 ^ k ≤ n`, or 0.
pub log_below : ℕ → ℕ → ℕ
log_below zero n = 0
log_below (suc k) n = let rest = log_below k n in if ltb n (2 ^ k) then rest else k

-- `usize::ilog2` of the alignment, which panics at 0.
pub align_shift : Layout → Option ℕ
align_shift l = do assert (ltb 0 l.align); some (log_below 64 l.align)

-- `Layout::union`: room for either of two layouts.
unfoldable pub union : Layout → Layout → Option Layout
union l other = do
  let align = max l.align other.align
  size ← next_multiple_of (max l.size other.size) align
  some (record { size = size; align = align })

-- `n` is a power of two that a `usize` can hold.
abbrev pub IsPowerOfTwo : ℕ → Type 0
IsPowerOfTwo n = (k : ℕ) × (k < 64) × (n ≡ 2 ^ k)

-- What the documentation of `Layout` asks for, and that the fields are `usize`s.
pub record IsValid (l : Layout) : Type 0 where
  pub power : IsPowerOfTwo l.align
  pub multiple : l.size % l.align ≡ 0
  pub fits : l.size < usize_mod
