-- ===== src/Lir/Machine/Blocks.antt =====
-- src/lir/eval.rs: the map from labels to positions, and the blocks.
use roto.Prelude.{
  ℕ, zero, suc, ◌+◌, ◌-◌, ◌≤◌, ◌<◌, ◌≡◌, ◌∙◌, refl, sym, ap, some, none, List, [], ◌∷◌, ◌++◌,
  length, get_elem?, length-append, get_elem?-append_left, ◌==◌, ==→≡, ≡→==, Bool-cases,
  Option-cases, inl, inr, some_inj, arith, if◌then◌else◌,
}
use mathlib.Core.List.{append_assoc}
use roto.Lir.Program.{Block, Instruction}
use roto.Lir.Machine.{block_index, instructions_of}

-- A block that stands in the list, with the instructions before and behind it.
pub record IsBlockAt (bs : List Block) (l : ℕ) (i : ℕ) : Type 0 where
  pub block : Block
  pub position : ℕ
  pub before : List Instruction
  pub behind : List Instruction
  pub at : get_elem? bs position ≡ some block
  pub label : block.label ≡ l
  pub split : instructions_of bs ≡ before ++ (block.instructions ++ behind)
  pub index : i ≡ length before

block_index-IsBlockAt :
    (bs : List Block) (start l i : ℕ)
    → block_index bs start l ≡ some i
    → (start ≤ i) × IsBlockAt bs l (i - start)
unfolding block_index
block_index-IsBlockAt [] start l i h = cc
block_index-IsBlockAt (b ∷ bs) start l i h =
    elim (Option-cases (block_index bs (start + length b.instructions) l)) [
      | inr (j, e) ↦
          let same : j ≡ i = some_inj (rw (e, block_index) at h) in
          let (le, r) = block_index-IsBlockAt bs (start + length b.instructions) l j e in
          (
            omega arith,
            record {
              block = r.block;
              position = suc r.position;
              before = b.instructions ++ r.before;
              behind = r.behind;
              at = r.at;
              label = r.label;
              split =
                  ap (λ is. b.instructions ++ is) r.split
                  ∙ sym (append_assoc b.instructions r.before _);
              index = omega (arith, length-append b.instructions r.before, r.index);
            },
          )
      | inl e ↦
          let q : (if b.label == l then some start else none) ≡ some i = rw (e, block_index) at h in
          elim (Bool-cases (b.label == l)) [
            | inl t ↦
                let same : start ≡ i = some_inj (rw t at q) in
                (
                  omega arith,
                  record {
                    block = b;
                    position = 0;
                    before = [];
                    behind = instructions_of bs;
                    at = refl;
                    label = ==→≡ b.label l t;
                    split = refl;
                    index = omega arith;
                  },
                )
            | inr f ↦ let bad : none ≡ some i = rw f at q in cc
          ]
    ]

get_elem?-append_behind {ℓ} :
    {A : Type ℓ} (xs ys : List A) (i k : ℕ)
    → i ≡ length xs + k
    → get_elem? (xs ++ ys) i ≡ get_elem? ys k
get_elem?-append_behind [] ys i k h = let e : i ≡ k = omega arith in rw e
get_elem?-append_behind (x ∷ xs) ys zero k h = absurd (omega arith)
get_elem?-append_behind (x ∷ xs) ys (suc i) k h = get_elem?-append_behind xs ys i k (omega arith)

block_index-some :
    (bs : List Block) (start n : ℕ) (b : Block)
    → get_elem? bs n ≡ some b
    → (i : ℕ) × (block_index bs start b.label ≡ some i)
unfolding block_index
block_index-some [] start n b h = cc
block_index-some (c ∷ bs) start zero b h =
    let same : c ≡ b = some_inj h in
    elim (Option-cases (block_index bs (start + length c.instructions) b.label)) [
      | inr (j, e) ↦ (j, rw (e, block_index))
      | inl e ↦ (start, rw (e, block_index) (rw (≡→== c.label b.label (ap (λ x. x.label) same))))
    ]
block_index-some (c ∷ bs) start (suc n) b h =
    let (j, e) = block_index-some bs (start + length c.instructions) n b h in
    (j, rw (e, block_index))

-- A jump to a label finds a place in the program exactly where a block has the label, and from
-- there the instructions of a block with that label follow one another.
pub block_index_lem :
    (bs : List Block) (l : ℕ)
    → ((n : ℕ) (b : Block)
        → get_elem? bs n ≡ some b
        → b.label ≡ l
        → (i : ℕ) × (block_index bs 0 l ≡ some i))
      × ((i : ℕ)
          → block_index bs 0 l ≡ some i
          → (n : ℕ) × (b : Block) × (get_elem? bs n ≡ some b)
            × (b.label ≡ l)
            × ((k : ℕ)
                → k < length b.instructions
                → get_elem? (instructions_of bs) (i + k) ≡ get_elem? b.instructions k))
block_index_lem bs l = (
  λ n b at e. let (i, p) = block_index-some bs 0 n b at in (i, rw (← e) p),
  λ i h.
      let (_, r) = block_index-IsBlockAt bs 0 l i h in
      (
        r.position,
        r.block,
        r.at,
        r.label,
        λ k lt. rw (r.split) (
            get_elem?-append_behind r.before (r.block.instructions ++ r.behind) (i + k) k
              (omega (arith, r.index))
            ∙ get_elem?-append_left r.block.instructions r.behind k lt),
      ),
)
