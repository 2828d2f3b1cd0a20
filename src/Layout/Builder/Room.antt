-- ===== src/Layout/Builder/Room.antt =====
-- src/runtime/layout.rs: when the builder does not overflow, and what `offset_by` computes.
use native.Mathlib.Nat.{mod-one, zero-add}
use roto.Prelude.{
  ℕ, ◌+◌, ◌*◌, ◌^◌, ◌≤◌, ◌<◌, ◌≡◌, refl, some, arith, List, [], ◌∷◌, All, max, next_multiple_of,
  usize_mod, lt→ltb,
}
use roto.Layout.{Layout, IsValid}
use roto.Layout.Builder
use roto.Layout.Builder.{LayoutBuilder, add, add_all, finish, concat, offset_by}
use roto.Layout.Builder.Fields.{new-IsBuilder, add_all-IsLaidOut, finish_lem}
use roto.Layout.Multiple.{next_multiple_of_total, next_multiple_of_bounds}
use roto.Layout.Valid.{IsPowerOfTwo-pos, new_valid}

-- Bytes that are enough for the fields and their padding.
abbrev pub room : List Layout → ℕ
room [] = 0
room (l ∷ ls) = l.size + l.align + room ls

add_total :
    (b : LayoutBuilder) (l : Layout)
    → IsValid l
    → b.size + l.align + l.size < usize_mod
    → (o : ℕ) × (b' : LayoutBuilder) × (add b l ≡ some (o, b'))
      × (b'.size ≤ b.size + l.align + l.size)
      × (b'.align ≡ max b.align l.align)
unfolding add
add_total b l v h =
    let pos = IsPowerOfTwo-pos l.align v.power in
    let (o, e) = next_multiple_of_total b.size l.align pos (omega arith) (omega arith) in
    let (_, le, lt, _) = next_multiple_of_bounds b.size l.align e in
    (
      o,
      record { size = o + l.size; align = max b.align l.align },
      rw (e, lt→ltb (o + l.size) usize_mod (omega arith)),
      omega arith,
      refl,
    )

add_all_total :
    (b : LayoutBuilder) (ls : List Layout)
    → All IsValid ls
    → b.size + room ls < usize_mod
    → (os : List ℕ) × (b' : LayoutBuilder) × (add_all b ls ≡ some (os, b'))
      × (b'.size ≤ b.size + room ls)
      × (b'.align ≤ b.align + room ls)
unfolding add_all
add_all_total b [] v h = ([], b, refl, omega arith, omega arith)
add_all_total b (l ∷ ls) (v, vs) h =
    let (o, b₁, p, le, e) = add_total b l v (omega arith) in
    let (os, b', q, le', a) = add_all_total b₁ ls vs (omega arith) in
    (o ∷ os, b', rw (p, q), omega arith, omega arith)

-- No assertion fails and nothing overflows where the valid fields and their padding take less
-- than half of the address space: `concat` gives a layout, of at most that many bytes and one
-- alignment more.
pub concat_total :
    (ls : List Layout)
    → All IsValid ls
    → room ls < 2 ^ 63
    → (l : Layout) × (concat ls ≡ some l) × (l.size ≤ 2 * room ls + 1)
unfolding concat
concat_total ls v h =
    let (os, b, p, le, a) = add_all_total Builder.new ls v (omega arith) in
    let r = add_all-IsLaidOut Builder.new ls os b new-IsBuilder v p in
    let pos = IsPowerOfTwo-pos b.align r.builder.power in
    let (n, e) = next_multiple_of_total b.size b.align pos (omega arith) (omega arith) in
    let (_, _, lt, _) = next_multiple_of_bounds b.size b.align e in
    (record { size = n; align = b.align }, rw (p, finish_lem b r.builder, e), omega arith)

-- A field behind `n` bytes begins at the next multiple of its alignment.
pub offset_by_lem :
    (l : Layout) (n : ℕ)
    → IsValid l
    → n + l.align + l.size < usize_mod
    → offset_by l n ≡ next_multiple_of n l.align
unfolding offset_by add
offset_by_lem l n v h =
    let (r, e) =
      next_multiple_of_total n l.align (IsPowerOfTwo-pos l.align v.power) (omega arith)
        (omega arith) in
    let (_, _, lt, _) = next_multiple_of_bounds n l.align e in
    let padding : IsValid (record { size = n; align = 1 }) = record {
      power = (0, omega arith, refl);
      multiple = mod-one n;
      fits = omega arith;
    } in
    rw (
      new_valid _ padding,
      zero-add n,
      lt→ltb n usize_mod (omega arith),
      e,
      lt→ltb (r + l.size) usize_mod (omega arith),
    )
