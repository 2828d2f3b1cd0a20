-- ===== src/Mir/DeadCode/Finite.antt =====
-- src/mir/dead_code.rs: the number of labels that the loop comes to.
use roto.Prelude.{
  ℕ, zero, suc, ◌<◌, ◌≤◌, ◌≡◌, inl, inr, ◌∙◌, sym, subst, some, List, [], ◌∷◌, length, take,
  length-take, get_elem?, arith, some_inj, Bool-cases, get_elem?-lt, ltb,
}
use roto.Mir.{Block}
use roto.Mir.DeadCode.{State, process_label}
use roto.Mir.DeadCode.Labels.{IsAdded, add_each-IsAdded}
use roto.Prelude.Distinct.{In, Distinct, pigeonhole}
use roto.Mir.DeadCode.Round.{get_some, labels, process_label-IsProcessed}

get_elem?-take :
    (n : ℕ) (xs : List ℕ) (k : ℕ) {l : ℕ}
    → get_elem? (take n xs) k ≡ some l
    → (k < n) × (get_elem? xs k ≡ some l)
get_elem?-take zero [] k h = cc
get_elem?-take zero (x ∷ xs) k h = cc
get_elem?-take (suc n) [] k h = cc
get_elem?-take (suc n) (x ∷ xs) zero h = (omega arith, h)
get_elem?-take (suc n) (x ∷ xs) (suc k) h =
    let (lt, e) = get_elem?-take n xs k h in (omega arith, e)

-- The labels before index `i` are distinct labels of blocks.
pub record IsRunning (blocks : List ℕ) (i : ℕ) (st : State) : Type 0 where
  pub within : i ≤ length st
  pub distinct : Distinct st
  pub are_blocks : (k l : ℕ) → k < i → get_elem? st k ≡ some l → In l blocks

pub IsRunning-le :
    (blocks : List ℕ) (i : ℕ) (st : State) → IsRunning blocks i st → i ≤ length blocks
IsRunning-le blocks i st r =
    let le =
      pigeonhole (take i st) blocks
        (λ j k l ej ek. r.distinct j k l (get_elem?-take i st j ej).1 (get_elem?-take i st k ek).1)
        (λ l (k, e). let (lt, e') = get_elem?-take i st k e in r.are_blocks k l lt e') in
    let within = r.within in ground (arith, length-take i st, le)

pub next-IsRunning :
    (bs : List Block) (i : ℕ) (st : State) (l : ℕ) (st' : State) (bs' : List Block)
    → IsRunning (labels bs) i st
    → get_elem? st i ≡ some l
    → process_label st bs l ≡ some (st', bs')
    → IsRunning (labels bs') (suc i) st'
next-IsRunning bs i st l st' bs' r at h =
    let p = process_label-IsProcessed st bs l st' bs' h in
    let a : IsAdded st p.found st' = rw p.added (add_each-IsAdded st p.found) in
    record {
      within = get_elem?-lt st' i (a.grows i l at);
      distinct = a.distinct r.distinct;
      are_blocks = λ k x lt e. rw (p.same_labels) (elim (Bool-cases (ltb k i)) [
        | inl before ↦
            let (y, ey) = get_some st k (ground (arith, get_elem?-lt st i at)) in
            let same : y ≡ x = some_inj (sym (a.grows k y ey) ∙ e) in
            subst (λ z. In z (labels bs)) same (r.are_blocks k y (ground arith) ey)
        | inr here ↦
            let k_is : k ≡ i = ground arith in
            let same : l ≡ x =
              some_inj (sym (a.grows i l at) ∙ subst (λ j. get_elem? st' j ≡ some x) k_is e) in
            subst (λ z. In z (labels bs)) same p.is_block
      ]);
    }
