-- ===== src/Mir/DeadCode/Round.antt =====
-- src/mir/dead_code.rs: what one round of the loop over the labels does.
use roto.Prelude.{
  ℕ, zero, suc, ◌<◌, ◌≡◌, inl, inr, ◌∙◌, refl, sym, ap, subst, Option, some, none, List, [], ◌∷◌,
  length, get_elem?, ◌==◌, if◌then◌else◌, >>=-eq-some, arith, some_inj, Bool-cases, Option-cases,
  get_elem?-lt, ==→≡, ltb,
}
use roto.Mir.{Instruction, Block}
use roto.Mir.DeadCode.{State, add_each, targets, process_instructions, process_block, process_label}
use roto.Prelude.Distinct.{In}
use roto.Mir.DeadCode.Labels.{IsAdded, add_each-IsAdded}

abbrev pub or_else : Option (List ℕ) → Option (List ℕ) → Option (List ℕ)
or_else (some ls) rest = some ls
or_else none rest = rest

-- Where the first instruction that ends a block goes to.
abbrev pub exits : List Instruction → Option (List ℕ)
exits [] = none
exits (i ∷ is) = or_else (targets i) (exits is)

-- The same for the first block with a label.
abbrev pub exits_of : List Block → ℕ → Option (List ℕ)
exits_of [] l = none
exits_of (b ∷ bs) l = if b.label == l then exits b.instructions else exits_of bs l

abbrev pub labels : List Block → List ℕ
labels [] = []
labels (b ∷ bs) = b.label ∷ labels bs

-- The labels of the blocks that control can come to.
pub data Reachable (bs : List Block) (first : ℕ) : ℕ → Type 0 where
  entry : Reachable bs first first
  exit :
      (l : ℕ) (ls : List ℕ) (l' : ℕ)
      → Reachable bs first l
      → exits_of bs l ≡ some ls
      → In l' ls
      → Reachable bs first l'

process_instructions-exits :
    (st : State) (is : List Instruction) (st' : State) (is' : List Instruction)
    → process_instructions st is ≡ some (st', is')
    → (ls : List ℕ) × (exits is ≡ some ls) × (exits is' ≡ some ls) × (st' ≡ add_each st ls)
unfolding process_instructions
process_instructions-exits st [] st' is' h = cc
process_instructions-exits st (i ∷ is) st' is' h = elim (Option-cases (targets i)) [
  | inr (ls, e) ↦
      let end : (add_each st ls, i ∷ []) ≡ (st', is') =
        some_inj (rw (e, process_instructions) at h) in
      (
        ls,
        ap (λ o. or_else o (exits is)) e,
        rw (← ap (λ q. q.1) end) (ap (λ o. or_else o none) e),
        sym (ap (λ q. q.0) end),
      )
  | inl e ↦
      let ((st₁, is₁), p, q) =
        >>=-eq-some (process_instructions st is) (λ (s, x). some (s, i ∷ x))
          (rw (e, process_instructions) at h) in
      let (ls, a, b, c) = process_instructions-exits st is st₁ is₁ p in
      let end : (st₁, i ∷ is₁) ≡ (st', is') = some_inj q in
      (
        ls,
        ap (λ o. or_else o (exits is)) e ∙ a,
        rw (← ap (λ q. q.1) end) (ap (λ o. or_else o (exits is₁)) e ∙ b),
        sym (ap (λ q. q.0) end) ∙ c,
      )
]

-- What a round of the loop does to the blocks and the labels.
pub record IsProcessed (st : State) (bs : List Block) (l : ℕ) (st' : State) (bs' : List Block)
    : Type 0 where
  pub found : List ℕ
  pub exits_found : exits_of bs l ≡ some found
  pub added : st' ≡ add_each st found
  pub same_exits : (x : ℕ) → exits_of bs' x ≡ exits_of bs x
  pub same_labels : labels bs' ≡ labels bs
  pub is_block : In l (labels bs)

pub process_label-IsProcessed :
    (st : State) (bs : List Block) (l : ℕ) (st' : State) (bs' : List Block)
    → process_label st bs l ≡ some (st', bs')
    → IsProcessed st bs l st' bs'
unfolding process_label process_block
process_label-IsProcessed st [] l st' bs' h = cc
process_label-IsProcessed st (b ∷ bs) l st' bs' h = elim (Bool-cases (b.label == l)) [
  | inl t ↦
      let ((st₁, b₁), p, q) =
        >>=-eq-some (process_block st b) (λ (s, x). some (s, x ∷ bs)) (rw t at h) in
      let ((st₂, is), p', q') = >>=-eq-some (process_instructions st b.instructions) _ p in
      let (ls, before, after, c) = process_instructions-exits st b.instructions st₂ is p' in
      let block : record b { instructions = is } ≡ b₁ = ap (λ x. x.1) (some_inj q') in
      let state : st₂ ≡ st₁ = ap (λ x. x.0) (some_inj q') in
      let end : (st₁, b₁ ∷ bs) ≡ (st', bs') = some_inj q in
      record {
        found = ls;
        exits_found = rw (t, before) refl;
        added = sym (ap (λ x. x.0) end) ∙ sym state ∙ c;
        same_exits = λ x.
            rw (← ap (λ q. q.1) end, ← block)
              (ap (λ o. if b.label == x then o else exits_of bs x) (after ∙ sym before));
        same_labels = rw (← ap (λ q. q.1) end, ← block) refl;
        is_block = (0, ap some (==→≡ b.label l t));
      }
  | inr f ↦
      let ((st₁, bs₁), p, q) =
        >>=-eq-some (process_label st bs l) (λ (s, x). some (s, b ∷ x)) (rw f at h) in
      let r = process_label-IsProcessed st bs l st₁ bs₁ p in
      let end : (st₁, b ∷ bs₁) ≡ (st', bs') = some_inj q in
      record {
        found = r.found;
        exits_found = rw f r.exits_found;
        added = sym (ap (λ x. x.0) end) ∙ r.added;
        same_exits = λ x.
            rw (← ap (λ q. q.1) end)
              (ap (λ o. if b.label == x then exits b.instructions else o) (r.same_exits x));
        same_labels = rw (← ap (λ q. q.1) end) (ap (λ ls. b.label ∷ ls) r.same_labels);
        is_block = (suc r.is_block.0, r.is_block.1);
      }
]

pub get_some : (xs : List ℕ) (k : ℕ) → k < length xs → (y : ℕ) × (get_elem? xs k ≡ some y)
get_some [] k lt = absurd (omega arith)
get_some (x ∷ xs) zero lt = (x, refl)
get_some (x ∷ xs) (suc k) lt = get_some xs k (omega arith)

-- Before the label of index `i`: all labels are reachable, and the exits of those before `i` are
-- among them.
pub record IsFrontier (blocks : List Block) (first i : ℕ) (st : State) (bs : List Block)
    : Type 0 where
  pub has_entry : In first st
  pub sound : (l : ℕ) → In l st → Reachable blocks first l
  pub closed :
      (k l : ℕ) (ls : List ℕ) (l' : ℕ)
      → k < i
      → get_elem? st k ≡ some l
      → exits_of blocks l ≡ some ls
      → In l' ls
      → In l' st
  pub same_exits : (x : ℕ) → exits_of bs x ≡ exits_of blocks x
  pub same_labels : labels bs ≡ labels blocks

pub next-IsFrontier :
    (blocks : List Block) (first i : ℕ) (st : State) (bs : List Block) (l : ℕ) (st' : State)
    (bs' : List Block)
    → IsFrontier blocks first i st bs
    → get_elem? st i ≡ some l
    → process_label st bs l ≡ some (st', bs')
    → IsFrontier blocks first (suc i) st' bs'
next-IsFrontier blocks first i st bs l st' bs' v at h =
    let p = process_label-IsProcessed st bs l st' bs' h in
    let a : IsAdded st p.found st' = rw p.added (add_each-IsAdded st p.found) in
    let exits_here : exits_of blocks l ≡ some p.found = sym (v.same_exits l) ∙ p.exits_found in
    record {
      has_entry = (v.has_entry.0, a.grows v.has_entry.0 first v.has_entry.1);
      sound = λ x h. elim (a.only x h) [
        | inl old ↦ v.sound x old
        | inr new ↦ exit l p.found x (v.sound l (i, at)) exits_here new
      ];
      closed = λ k x ls x' lt e e' m. elim (Bool-cases (ltb k i)) [
        | inl before ↦
            let (y, ey) = get_some st k (ground (arith, get_elem?-lt st i at)) in
            let same : y ≡ x = some_inj (sym (a.grows k y ey) ∙ e) in
            let (j, ej) = v.closed k y ls x' (ground arith) ey (rw same e') m in
            (j, a.grows j x' ej)
        | inr here ↦
            let k_is : k ≡ i = ground arith in
            let same : l ≡ x =
              some_inj (sym (a.grows i l at) ∙ subst (λ j. get_elem? st' j ≡ some x) k_is e) in
            let found : p.found ≡ ls = some_inj (sym exits_here ∙ rw same e') in
            a.has x' (rw found m)
      ];
      same_exits = λ x. p.same_exits x ∙ v.same_exits x;
      same_labels = p.same_labels ∙ v.same_labels;
    }
