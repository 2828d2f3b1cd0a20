-- ===== src/Layout/Builder.antt =====
-- src/runtime/layout.rs, `LayoutBuilder`, and the methods of `Layout` that run one.
pub mod Fields
pub mod Apart
pub mod Room
mod Tests
use roto.Prelude.{ℕ, Option, some, List, [], ◌∷◌, max, ◌>>=◌, add_usize, next_multiple_of}
use roto.Layout
use roto.Layout.{Layout}

pub record LayoutBuilder : Type 0 where
  pub size : ℕ
  pub align : ℕ

-- `LayoutBuilder::new`
abbrev pub new : LayoutBuilder
new = record { size = 0; align = 1 }

-- `LayoutBuilder::add`: the offset of the new field, and the builder after it.
unfoldable pub add : LayoutBuilder → Layout → Option (ℕ × LayoutBuilder)
add b l = do
  offset ← next_multiple_of b.size l.align
  size ← add_usize offset l.size
  some (offset, record { size = size; align = max b.align l.align })

-- `LayoutBuilder::finish`
unfoldable pub finish : LayoutBuilder → Option Layout
finish b = do size ← next_multiple_of b.size b.align; Layout.new size b.align

-- The loop of callers that keep the offsets of the fields.
unfoldable pub add_all : LayoutBuilder → List Layout → Option (List ℕ × LayoutBuilder)
add_all b [] = some ([], b)
add_all b (l ∷ ls) = do
  (offset, b₁) ← add b l
  (offsets, b₂) ← add_all b₁ ls
  some (offset ∷ offsets, b₂)

-- `Layout::concat`
unfoldable pub concat : List Layout → Option Layout
concat ls = do (_, b) ← add_all new ls; finish b

-- `Layout::offset_by`
pub offset_by : Layout → ℕ → Option ℕ
offset_by l n = do
  padding ← Layout.new n 1
  (_, b) ← add new padding
  (offset, _) ← add b l
  some offset
