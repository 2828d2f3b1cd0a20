-- ===== src/Mir/DeadCode/Fuel.antt =====
-- src/mir/dead_code.rs: the end of the loop over the labels, and well-formed items.
use roto.Prelude.{
  All, All-get_elem?, true, false, ≡→==, ℕ, zero, suc, ◌+◌, ◌<◌, ◌≡◌, ◌⊎◌, inl, inr, ◌∙◌, refl, sym,
  ap, subst, some, none, List, [], ◌∷◌, length, ◌≢◌, get_elem?, ◌==◌, arith, some_inj, Bool-cases,
  Option-cases, ltb,
}
use roto.Mir.{Instruction, Block}
use roto.Mir.DeadCode.{
  State, add_each, targets, process_instructions, process_block, process_label, retain, Outcome,
  done, panicked, out_of_fuel, process_labels, process_blocks,
}
use roto.Prelude.Distinct.{In, In-cons, In-none}
use roto.Mir.DeadCode.Labels.{IsAdded, add_each-IsAdded}
use roto.Mir.DeadCode.Reach.{start-IsFrontier}
use roto.Mir.DeadCode.Round.{
  or_else, exits, exits_of, labels, process_label-IsProcessed, IsFrontier, next-IsFrontier,
}
use roto.Mir.DeadCode.Finite.{IsRunning, IsRunning-le, next-IsRunning}

-- The block ends with an instruction that returns, or goes to these labels alone.
abbrev pub Ends : List ℕ → Block → Type 0
Ends ls b = (out : List ℕ) × (exits b.instructions ≡ some out) × All (λ x. In x ls) out

-- Each block ends, and goes to blocks alone.
abbrev pub IsWellFormed : List Block → Type 0
IsWellFormed bs = All (Ends (labels bs)) bs

exits_of-some :
    (ls : List ℕ) (bs : List Block) (l : ℕ)
    → All (Ends ls) bs
    → In l (labels bs)
    → (out : List ℕ) × (exits_of bs l ≡ some out) × All (λ x. In x ls) out
exits_of-some ls [] l w m = absurd (In-none l m)
exits_of-some ls (b ∷ bs) l ((out, e, a), w) m = elim (Bool-cases (b.label == l)) [
  | inl t ↦ (out, rw t e, a)
  | inr f ↦ elim (In-cons b.label l (labels bs) m) [
    | inl p ↦ let bad : true ≡ false = sym (≡→== b.label l p) ∙ f in cc
    | inr p ↦ let (out', e', a') = exits_of-some ls bs l w p in (out', rw f e', a')
  ]
]

process_instructions-cons :
    (st : State) (i : Instruction) (is : List Instruction) (q : State × List Instruction)
    → targets i ≡ none
    → process_instructions st is ≡ some q
    → process_instructions st (i ∷ is) ≡ some (q.0, i ∷ q.1)
unfolding process_instructions
process_instructions-cons st i is q e p = rw (process_instructions, e, p) refl

process_instructions-some :
    (st : State) (is : List Instruction) (ls : List ℕ)
    → exits is ≡ some ls
    → (q : State × List Instruction) × (process_instructions st is ≡ some q)
unfolding process_instructions
process_instructions-some st [] ls h = cc
process_instructions-some st (i ∷ is) ls h = elim (Option-cases (targets i)) [
  | inr (ls', e) ↦ ((add_each st ls', i ∷ []), rw (process_instructions, e) refl)
  | inl e ↦
      let (q, p) =
        process_instructions-some st is ls (sym (ap (λ o. or_else o (exits is)) e) ∙ h) in
      ((q.0, i ∷ q.1), process_instructions-cons st i is q e p)
]

process_label-some :
    (st : State) (bs : List Block) (l : ℕ) (ls : List ℕ)
    → exits_of bs l ≡ some ls
    → (q : State × List Block) × (process_label st bs l ≡ some q)
unfolding process_label process_block
process_label-some st [] l ls h = cc
process_label-some st (b ∷ bs) l ls h = elim (Bool-cases (b.label == l)) [
  | inl t ↦
      let ((st', is), p) = process_instructions-some st b.instructions ls (rw t at h) in
      ((st', record b { instructions = is } ∷ bs), rw (t, p) refl)
  | inr f ↦
      let ((st', bs'), p) = process_label-some st bs l ls (rw f at h) in
      ((st', b ∷ bs'), rw (f, p) refl)
]

-- All labels, and not only those before the index, are labels of blocks.
abbrev Stays : List Block → State → Type 0
Stays bs st = (l : ℕ) → In l st → In l (labels bs)

process_labels-not_out_of_fuel :
    (fuel i : ℕ) (st : State) (bs : List Block)
    → IsRunning (labels bs) i st
    → length (labels bs) < fuel + i
    → process_labels fuel i st bs ≢ out_of_fuel
unfolding process_labels
process_labels-not_out_of_fuel zero i st bs r lt h =
    absurd (omega (arith, IsRunning-le (labels bs) i st r))
process_labels-not_out_of_fuel (suc fuel) i st bs r lt h = elim (Option-cases (get_elem? st i)) [
  | inl e ↦ let bad : done st bs ≡ out_of_fuel = rw (e, process_labels) at h in cc
  | inr (l, e) ↦ elim (Option-cases (process_label st bs l)) [
    | inl p ↦ let bad : panicked ≡ out_of_fuel = rw (e, p, process_labels) at h in cc
    | inr ((st₁, bs₁), p) ↦
        let same = (process_label-IsProcessed st bs l st₁ bs₁ p).same_labels in
        process_labels-not_out_of_fuel fuel (suc i) st₁ bs₁ (next-IsRunning bs i st l st₁ bs₁ r e p)
          (rw same (omega arith)) (rw (e, p, process_labels) at h)
  ]
]

process_labels-not_panicked :
    (blocks : List Block) (first fuel i : ℕ) (st : State) (bs : List Block)
    → IsWellFormed blocks
    → IsFrontier blocks first i st bs
    → Stays blocks st
    → process_labels fuel i st bs ≢ panicked
unfolding process_labels
process_labels-not_panicked blocks first zero i st bs w v s h =
    elim (Bool-cases (ltb i (length st))) [
      | inl t ↦ let bad : out_of_fuel ≡ panicked = rw t at h in cc
      | inr f ↦ let bad : done st bs ≡ panicked = rw f at h in cc
    ]
process_labels-not_panicked blocks first (suc fuel) i st bs w v s h =
    elim (Option-cases (get_elem? st i)) [
      | inl e ↦ let bad : done st bs ≡ panicked = rw (e, process_labels) at h in cc
      | inr (l, e) ↦
          let (ls, ends, targets_stay) = exits_of-some (labels blocks) blocks l w (s l (i, e)) in
          let ((st₁, bs₁), p) = process_label-some st bs l ls (v.same_exits l ∙ ends) in
          let r = process_label-IsProcessed st bs l st₁ bs₁ p in
          let a : IsAdded st r.found st₁ = rw r.added (add_each-IsAdded st r.found) in
          let stays : Stays blocks st₁ = λ x m. elim (a.only x m) [
            | inl old ↦ s x old
            | inr (k, at) ↦
                let found : r.found ≡ ls = some_inj (sym r.exits_found ∙ v.same_exits l ∙ ends) in
                All-get_elem? (λ y. In y (labels blocks)) ls k targets_stay
                  (subst (λ q. get_elem? q k ≡ some x) found at)
          ] in
          process_labels-not_panicked blocks first fuel (suc i) st₁ bs₁ w
            (next-IsFrontier blocks first i st bs l st₁ bs₁ v e p) stays
            (rw (e, p, process_labels) at h)
    ]

length-labels : (bs : List Block) → length (labels bs) ≡ length bs
length-labels [] = refl
length-labels (b ∷ bs) = ap suc (length-labels bs)

process_run : Block → List Block → Outcome
unfolding process_labels
process_run b bs = process_labels (suc (length (b ∷ bs))) 0 (b.label ∷ []) (b ∷ bs)

Outcome-cases :
    (o : Outcome)
    → (o ≡ out_of_fuel) ⊎ ((o ≡ panicked) ⊎ ((st : State) × (bs' : List Block) × (o ≡ done st bs')))
Outcome-cases (done st bs') = inr (inr (st, bs', refl))
Outcome-cases panicked = inr (inl refl)
Outcome-cases out_of_fuel = inl refl

start-IsRunning : (b : Block) (bs : List Block) → IsRunning (labels (b ∷ bs)) 0 (b.label ∷ [])
start-IsRunning b bs = record {
  within = omega arith;
  distinct = λ j k l ej ek. one j k ej ek;
  are_blocks = λ k l lt. absurd (omega arith);
}
  where
    one :
        (j k : ℕ) {l : ℕ}
        → get_elem? (b.label ∷ []) j ≡ some l
        → get_elem? (b.label ∷ []) k ≡ some l
        → j ≡ k
    one zero zero ej ek = refl
    one (suc j) k ej ek = cc
    one zero (suc k) ej ek = cc

process_run-not_out_of_fuel : (b : Block) (bs : List Block) → process_run b bs ≢ out_of_fuel
unfolding process_run
process_run-not_out_of_fuel b bs =
    process_labels-not_out_of_fuel (suc (length (b ∷ bs))) 0 (b.label ∷ []) (b ∷ bs)
      (start-IsRunning b bs) (rw (length-labels (b ∷ bs)) (omega arith))

-- On every item with a block, the loop ends within one round more than there are blocks.
pub process_blocks-not_out_of_fuel :
    (b : Block) (bs : List Block) → process_blocks (b ∷ bs) ≢ out_of_fuel
unfolding process_blocks process_run
process_blocks-not_out_of_fuel b bs h = elim (Outcome-cases (process_run b bs)) [
  | inl e ↦ process_run-not_out_of_fuel b bs e
  | inr (inl e) ↦ let bad : panicked ≡ out_of_fuel = rw (e, process_blocks) at h in cc
  | inr (inr (st, bs', e)) ↦
      let bad : done st (retain st bs') ≡ out_of_fuel = rw (e, process_blocks) at h in cc
]

-- Where each block of an item ends with a return or goes to labels of its blocks, the pass goes
-- through: it neither panics nor uses up its rounds.
pub process_blocks_total :
    (b : Block) (bs : List Block)
    → IsWellFormed (b ∷ bs)
    → (st : State) × (bs' : List Block) × (process_blocks (b ∷ bs) ≡ done st bs')
unfolding process_blocks process_run
process_blocks_total b bs w = elim (Outcome-cases (process_run b bs)) [
  | inl e ↦ absurd (process_run-not_out_of_fuel b bs e)
  | inr (inl e) ↦ absurd (
      process_labels-not_panicked (b ∷ bs) b.label (suc (length (b ∷ bs))) 0 (b.label ∷ []) (b ∷ bs)
        w (start-IsFrontier b bs)
        (λ l m. elim (In-cons b.label l [] m) [
          | inl p ↦ (0, ap some p)
          | inr p ↦ absurd (In-none l p)
        ])
        e)
  | inr (inr (st, bs', e)) ↦ (st, retain st bs', rw (process_blocks, e) refl)
]
