-- ===== src/Layout/Builder/Tests.antt =====
-- Concrete layouts: `repr(C)` structs of a byte, a word and a byte, and the like.
use roto.Prelude.{ℕ, ◌≡◌, refl, some, none, List, [], ◌∷◌, All, arith}
use roto.Layout
use roto.Layout.{Layout, IsValid, union, align_shift, log_below, is_power_below}
use roto.Layout.Builder
use roto.Layout.Builder.{LayoutBuilder, add, add_all, finish, concat, offset_by}
use roto.Layout.Builder.Fields.{Laid, Divides, concat_lem}

abbrev byte : Layout
byte = record { size = 1; align = 1 }

abbrev word : Layout
word = record { size = 4; align = 4 }

abbrev halves : Layout
halves = record { size = 6; align = 2 }

-- `struct { u8, u32, u8 }`
abbrev mixed : List Layout
mixed = byte ∷ word ∷ byte ∷ []

abbrev mixed_layout : Layout
mixed_layout = record { size = 12; align = 4 }

byte-IsValid : IsValid byte
byte-IsValid = record { power = (0, omega arith, refl); multiple = refl; fits = omega arith }

word-IsValid : IsValid word
word-IsValid = record { power = (2, omega arith, refl); multiple = refl; fits = omega arith }

halves-IsValid : IsValid halves
halves-IsValid = record { power = (1, omega arith, refl); multiple = refl; fits = omega arith }

mixed-IsValid : All IsValid mixed
mixed-IsValid = (byte-IsValid, (word-IsValid, (byte-IsValid, tt)))

concat-mixed : concat mixed ≡ some mixed_layout
unfolding concat add_all add finish Layout.new is_power_below
concat-mixed = refl

-- The offsets of the fields, in front of the padding at the end.
add_all-mixed : add_all Builder.new mixed ≡ some (0 ∷ 4 ∷ 8 ∷ [], record { size = 9; align = 4 })
unfolding add_all add
add_all-mixed = refl

-- The case of the comment in `union`: 6 bytes aligned to 2, and 4 bytes aligned to 4.
union-halves : union halves word ≡ some (record { size = 8; align = 4 })
unfolding union
union-halves = refl

new-rejects_three : Layout.new 6 3 ≡ none
unfolding Layout.new is_power_below
new-rejects_three = refl

new-rejects_part : Layout.new 6 4 ≡ none
unfolding Layout.new is_power_below
new-rejects_part = refl

abbrev eight : Layout
eight = record { size = 8; align = 4 }

concat_lem_example :
    IsValid mixed_layout
    × ((os : List ℕ) × (b : LayoutBuilder) × (add_all Builder.new mixed ≡ some (os, b))
        × Laid 0 mixed os mixed_layout.size)
    × All (Divides mixed_layout.align) mixed
concat_lem_example = concat_lem mixed mixed_layout mixed-IsValid concat-mixed
