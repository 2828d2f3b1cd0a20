-- ===== src/Layout/Builder/Fields.antt =====
-- src/runtime/layout.rs: where the builder places the fields of a type.
use native.Mathlib.Nat.{mod_self}
use roto.Prelude.{
  some_inj, ℕ, ◌+◌, ◌%◌, ◌≤◌, ◌<◌, ◌≡◌, refl, inl, inr, some, max, arith, next_multiple_of,
  usize_mod, Option-cases, ◌>>=◌, >>=-eq-some, List, [], ◌∷◌, All,
}
use roto.Layout.{Layout, IsValid, IsPowerOfTwo}
use roto.Layout.Builder
use roto.Layout.Builder.{LayoutBuilder, add, add_all, finish, concat, offset_by}
use roto.Layout.Multiple.{next_multiple_of_bounds, mod_trans}
use roto.Layout.Valid.{new_valid, next_multiple_of-lt, max-mod, IsPowerOfTwo-max}

-- The builder's alignment is a power of two, and its size is a `usize`.
pub record IsBuilder (b : LayoutBuilder) : Type 0 where
  pub power : IsPowerOfTwo b.align
  pub fits : b.size < usize_mod

pub new-IsBuilder : IsBuilder Builder.new
new-IsBuilder = record { power = (0, omega arith, refl); fits = omega arith }

-- The offset of a new field is the first multiple of its alignment behind the earlier fields, and
-- the builder then ends with the field.
pub record IsPlaced (b : LayoutBuilder) (l : Layout) (offset : ℕ) (b' : LayoutBuilder)
    : Type 0 where
  pub behind : b.size ≤ offset
  pub close : offset < b.size + l.align
  pub aligned : offset % l.align ≡ 0
  pub end : b'.size ≡ offset + l.size
  pub align : b'.align ≡ max b.align l.align

pub add-IsPlaced :
    (b : LayoutBuilder) (l : Layout) (offset : ℕ) (b' : LayoutBuilder)
    → add b l ≡ some (offset, b')
    → IsPlaced b l offset b' × (b'.size < usize_mod)
unfolding add
add-IsPlaced b l offset b' h =
    let (o, p, q) = >>=-eq-some (next_multiple_of b.size l.align) _ h in
    ground (arith, next_multiple_of_bounds b.size l.align {r = o})

pub add-IsBuilder :
    (b : LayoutBuilder) (l : Layout) (offset : ℕ) (b' : LayoutBuilder)
    → IsBuilder b
    → IsValid l
    → add b l ≡ some (offset, b')
    → IsBuilder b'
add-IsBuilder b l offset b' v w h =
    let (p, fits) = add-IsPlaced b l offset b' h in
    record { power = rw p.align (IsPowerOfTwo-max b.align l.align v.power w.power); fits = fits }

-- Fields at these offsets, in order and each aligned, lie between `start` and `end`, and each
-- begins where the one before it has ended, or later.
abbrev pub Laid : ℕ → List Layout → List ℕ → ℕ → Type 0
Laid start [] [] end = start ≤ end
Laid start [] (o ∷ os) end = ⊥
Laid start (l ∷ ls) [] end = ⊥
Laid start (l ∷ ls) (o ∷ os) end = (start ≤ o) × (o % l.align ≡ 0) × Laid (o + l.size) ls os end

abbrev pub Divides : ℕ → Layout → Type 0
Divides n l = n % l.align ≡ 0

pub Laid-le :
    (start : ℕ) (ls : List Layout) (os : List ℕ) (end end' : ℕ)
    → end ≤ end'
    → Laid start ls os end
    → Laid start ls os end'
Laid-le start [] [] end end' le h = omega arith
Laid-le start [] (o ∷ os) end end' le h = h
Laid-le start (l ∷ ls) [] end end' le h = h
Laid-le start (l ∷ ls) (o ∷ os) end end' le (a, b, c) =
    (a, b, Laid-le (o + l.size) ls os end end' le c)

add_all_inv :
    (b : LayoutBuilder) (l : Layout) (ls : List Layout) (os : List ℕ) (b' : LayoutBuilder)
    → add_all b (l ∷ ls) ≡ some (os, b')
    → (o : ℕ) × (b₁ : LayoutBuilder) × (os' : List ℕ) × (add b l ≡ some (o, b₁))
      × (add_all b₁ ls ≡ some (os', b'))
      × (os ≡ o ∷ os')
unfolding add_all
add_all_inv b l ls os b' h =
    let ((o, b₁), p, q) = >>=-eq-some (add b l) _ h in
    let ((os', b₂), p', q') = >>=-eq-some (add_all b₁ ls) _ q in
    let e : b₂ ≡ b' = cc in (o, b₁, os', p, rw (← e) p', cc)

-- Where `add_all` starts and ends, and what it gives.
pub record IsLaidOut (b : LayoutBuilder) (ls : List Layout) (os : List ℕ) (b' : LayoutBuilder)
    : Type 0 where
  pub laid : Laid b.size ls os b'.size
  pub builder : IsBuilder b'
  pub divides : b'.align % b.align ≡ 0
  pub all_divide : All (Divides b'.align) ls

IsLaidOut-cons :
    (b : LayoutBuilder) (l : Layout) (ls : List Layout) (o : ℕ) (os : List ℕ)
    (b₁ b' : LayoutBuilder)
    → IsBuilder b
    → IsValid l
    → IsPlaced b l o b₁
    → IsLaidOut b₁ ls os b'
    → IsLaidOut b (l ∷ ls) (o ∷ os) b'
IsLaidOut-cons b l ls o os b₁ b' v w p r =
    let (mb, ml) = max-mod b.align l.align v.power w.power in
    let e : b'.align % max b.align l.align ≡ 0 = rw (← p.align) r.divides in
    record {
      laid = (p.behind, p.aligned, rw (← p.end) r.laid);
      builder = r.builder;
      divides = mod_trans b'.align b.align (max b.align l.align) mb e;
      all_divide = (mod_trans b'.align l.align (max b.align l.align) ml e, r.all_divide);
    }

pub add_all-IsLaidOut :
    (b : LayoutBuilder) (ls : List Layout) (os : List ℕ) (b' : LayoutBuilder)
    → IsBuilder b
    → All IsValid ls
    → add_all b ls ≡ some (os, b')
    → IsLaidOut b ls os b'
unfolding add_all
add_all-IsLaidOut b [] os b' v w h =
    let p : [] ≡ os = cc in
    let q : b ≡ b' = cc in
    rw (← p, ← q)
      (record { laid = omega arith; builder = v; divides = mod_self b.align; all_divide = tt })
add_all-IsLaidOut b (l ∷ ls) os b' v (w, ws) h =
    let (o, b₁, os', p, q, e) = add_all_inv b l ls os b' h in
    let (placed, fits) = add-IsPlaced b l o b₁ p in
    rw e (
      IsLaidOut-cons b l ls o os' b₁ b' v w placed
        (add_all-IsLaidOut b₁ ls os' b' (add-IsBuilder b l o b₁ v w p) ws q))

-- The assertions of `finish` never fail on a builder: it panics only where the size overflows.
pub finish_lem :
    (b : LayoutBuilder)
    → IsBuilder b
    → finish b
      ≡ (next_multiple_of b.size b.align >>= λ size. some (record { size = size; align = b.align }))
unfolding finish
finish_lem b v = elim (Option-cases (next_multiple_of b.size b.align)) [
  | inl e ↦ rw e
  | inr (r, e) ↦ rw e (
      new_valid (record { size = r; align = b.align })
        (record {
          power = v.power;
          multiple = (next_multiple_of_bounds b.size b.align e).3;
          fits = next_multiple_of-lt b.size b.align v.fits e;
        }))
]

pub finish-IsValid :
    (b : LayoutBuilder) (l : Layout)
    → IsBuilder b
    → finish b ≡ some l
    → IsValid l × (b.size ≤ l.size) × (l.align ≡ b.align)
finish-IsValid b l v h =
    let (r, e, p) = >>=-eq-some (next_multiple_of b.size b.align) _ (rw (finish_lem b v) at h) in
    let (pos, le, lt, mult) = next_multiple_of_bounds b.size b.align e in
    let same : record { size = r; align = b.align } ≡ l = some_inj p in
    rw (← same) (
      record {
        power = v.power;
        multiple = mult;
        fits = next_multiple_of-lt b.size b.align v.fits e;
      },
      le,
      refl,
    )

-- The layout of a sequence of valid fields is valid. The offsets that the builder gave them are
-- aligned, in order and apart, and end within the size; and the alignment of the whole is a
-- multiple of the alignment of each field, so that an aligned whole has aligned fields.
pub concat_lem :
    (ls : List Layout) (l : Layout)
    → All IsValid ls
    → concat ls ≡ some l
    → IsValid l
      × ((os : List ℕ) × (b : LayoutBuilder) × (add_all Builder.new ls ≡ some (os, b))
          × Laid 0 ls os l.size)
      × All (Divides l.align) ls
unfolding concat
concat_lem ls l w h =
    let ((os, b), p, q) = >>=-eq-some (add_all Builder.new ls) _ h in
    let r = add_all-IsLaidOut Builder.new ls os b new-IsBuilder w p in
    let (v, le, e) = finish-IsValid b l r.builder q in
    (v, (os, b, p, Laid-le 0 ls os b.size l.size le r.laid), rw e r.all_divide)
