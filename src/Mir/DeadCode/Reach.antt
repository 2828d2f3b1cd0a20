-- ===== src/Mir/DeadCode/Reach.antt =====
-- src/mir/dead_code.rs: the blocks that stay, and the ones that can be reached.
use roto.Prelude.{
  ℕ, zero, suc, ◌≤◌, ◌≡◌, ◌↔◌, inl, inr, ◌∙◌, refl, sym, ap, subst, true, false, Option, some, none,
  List, [], ◌∷◌, length, get_elem?, ◌==◌, if◌then◌else◌, arith, some_inj, Bool-cases, Option-cases,
  get_elem?-lt, ==→≡, ltb,
}
use roto.Mir.{Block}
use roto.Mir.DeadCode.{
  State, contains, process_label, retain, Outcome, done, panicked, out_of_fuel, process_labels,
  process_blocks,
}
use roto.Prelude.Distinct.{In, In-cons, In-none}
use roto.Mir.DeadCode.Labels.{contains-In, In-contains}
use roto.Mir.DeadCode.Round.{
  exits, exits_of, labels, Reachable, entry, exit, IsFrontier, next-IsFrontier,
}

-- What the loop ends with.
pub record IsClosed (blocks : List Block) (first : ℕ) (st : State) (bs : List Block) : Type 0 where
  pub has_entry : In first st
  pub sound : (l : ℕ) → In l st → Reachable blocks first l
  pub closed :
      (l : ℕ) (ls : List ℕ) (l' : ℕ) → In l st → exits_of blocks l ≡ some ls → In l' ls → In l' st
  pub same_exits : (x : ℕ) → exits_of bs x ≡ exits_of blocks x
  pub same_labels : labels bs ≡ labels blocks

abbrev end_of : Outcome → Option (State × List Block)
end_of (done st bs) = some (st, bs)
end_of panicked = none
end_of out_of_fuel = none

end-IsClosed :
    (blocks : List Block) (first i : ℕ) (st : State) (bs : List Block) (st' : State)
    (bs' : List Block)
    → IsFrontier blocks first i st bs
    → length st ≤ i
    → done st bs ≡ done st' bs'
    → IsClosed blocks first st' bs'
end-IsClosed blocks first i st bs st' bs' v le h =
    let end : (st, bs) ≡ (st', bs') = some_inj (ap end_of h) in
    subst (λ q. IsClosed blocks first q.0 q.1) end
      (record {
        has_entry = v.has_entry;
        sound = v.sound;
        closed =
            λ l ls l' (k, e) p m. v.closed k l ls l' (omega (arith, get_elem?-lt st k e)) e p m;
        same_exits = v.same_exits;
        same_labels = v.same_labels;
      })

get_elem?-none : (xs : List ℕ) (k : ℕ) → get_elem? xs k ≡ none → length xs ≤ k
get_elem?-none [] k h = omega arith
get_elem?-none (x ∷ xs) zero h = cc
get_elem?-none (x ∷ xs) (suc k) h = omega (arith, get_elem?-none xs k h)

process_labels-IsClosed :
    (blocks : List Block) (first fuel i : ℕ) (st : State) (bs : List Block) (st' : State)
    (bs' : List Block)
    → IsFrontier blocks first i st bs
    → process_labels fuel i st bs ≡ done st' bs'
    → IsClosed blocks first st' bs'
unfolding process_labels
process_labels-IsClosed blocks first zero i st bs st' bs' v h =
    elim (Bool-cases (ltb i (length st))) [
      | inl t ↦ let bad : out_of_fuel ≡ done st' bs' = rw t at h in cc
      | inr f ↦ end-IsClosed blocks first i st bs st' bs' v (ground arith) (rw f at h)
    ]
process_labels-IsClosed blocks first (suc fuel) i st bs st' bs' v h =
    elim (Option-cases (get_elem? st i)) [
      | inl e ↦
          end-IsClosed blocks first i st bs st' bs' v (get_elem?-none st i e)
            (rw (e, process_labels) at h)
      | inr (l, e) ↦ elim (Option-cases (process_label st bs l)) [
        | inl p ↦ let bad : panicked ≡ done st' bs' = rw (e, p, process_labels) at h in cc
        | inr ((st₁, bs₁), p) ↦
            process_labels-IsClosed blocks first fuel (suc i) st₁ bs₁ st' bs'
              (next-IsFrontier blocks first i st bs l st₁ bs₁ v e p)
              (rw (e, p, process_labels) at h)
      ]
    ]

-- Everything that is reachable is among the labels that the loop ends with.
IsClosed-complete :
    (blocks : List Block) (first : ℕ) (st : State) (bs : List Block)
    → IsClosed blocks first st bs
    → (l : ℕ) → Reachable blocks first l
    → In l st
IsClosed-complete blocks first st bs c l entry = c.has_entry
IsClosed-complete blocks first st bs c _ (exit l ls l' r e m) =
    c.closed l ls l' (IsClosed-complete blocks first st bs c l r) e m

exits_of-retain :
    (st : State) (bs : List Block) (l : ℕ)
    → contains st l ≡ true
    → exits_of (retain st bs) l ≡ exits_of bs l
exits_of-retain st [] l h = refl
exits_of-retain st (b ∷ bs) l h = elim (Bool-cases (contains st b.label)) [
  | inl t ↦
      rw t (ap (λ o. if b.label == l then exits b.instructions else o) (exits_of-retain st bs l h))
  | inr f ↦ elim (Bool-cases (b.label == l)) [
    | inl same ↦
        let bad : true ≡ false = sym h ∙ sym (ap (contains st) (==→≡ b.label l same)) ∙ f in cc
    | inr other ↦ rw (f, other) (exits_of-retain st bs l h)
  ]
]

In-retain :
    (st : State) (bs : List Block) (l : ℕ)
    → In l (labels (retain st bs)) ↔ (In l (labels bs) × In l st)
In-retain st bs l = (kept bs, λ (m, s). keeps bs m s)
  where
    kept : (bs : List Block) → In l (labels (retain st bs)) → In l (labels bs) × In l st
    kept [] h = absurd (In-none l h)
    kept (b ∷ bs) h = elim (Bool-cases (contains st b.label)) [
      | inl t ↦ elim (In-cons b.label l (labels (retain st bs)) (rw t at h)) [
        | inl e ↦ ((0, ap some e), subst (λ x. In x st) e (contains-In st b.label t))
        | inr m ↦ let ((k, e), s) = kept bs m in ((suc k, e), s)
      ]
      | inr f ↦ let ((k, e), s) = kept bs (rw f at h) in ((suc k, e), s)
    ]

    keeps : (bs : List Block) → In l (labels bs) → In l st → In l (labels (retain st bs))
    keeps [] m s = absurd (In-none l m)
    keeps (b ∷ bs) m s = elim (Bool-cases (contains st b.label)) [
      | inl t ↦ elim (In-cons b.label l (labels bs) m) [
        | inl e ↦ rw t (0, ap some e)
        | inr m' ↦ let (k, e) = keeps bs m' s in rw t (suc k, e)
      ]
      | inr f ↦ elim (In-cons b.label l (labels bs) m) [
        | inl e ↦
            let bad : true ≡ false = sym (In-contains st l s) ∙ sym (ap (contains st) e) ∙ f in cc
        | inr m' ↦ rw f (keeps bs m' s)
      ]
    ]

-- What holds before the first round.
pub start-IsFrontier :
    (b : Block) (bs : List Block) → IsFrontier (b ∷ bs) b.label 0 (b.label ∷ []) (b ∷ bs)
start-IsFrontier b bs = record {
  has_entry = (0, refl);
  sound = λ l m. elim (In-cons b.label l [] m) [
    | inl e ↦ subst (Reachable (b ∷ bs) b.label) e entry
    | inr none_left ↦ absurd (In-none l none_left)
  ];
  closed = λ k l ls l' lt. absurd (omega arith);
  same_exits = λ x. refl;
  same_labels = refl;
}

-- The blocks that stay, by the labels that the pass itself collects from an instruction.
pub process_blocks-Reachable :
    (b : Block) (bs : List Block) (st : State) (bs' : List Block)
    → process_blocks (b ∷ bs) ≡ done st bs'
    → ((l : ℕ) → In l (labels bs') ↔ (In l (labels (b ∷ bs)) × Reachable (b ∷ bs) b.label l))
      × ((l : ℕ) → Reachable (b ∷ bs) b.label l → exits_of bs' l ≡ exits_of (b ∷ bs) l)
unfolding process_blocks
process_blocks-Reachable b bs st bs' h =
    run (process_labels (suc (length (b ∷ bs))) 0 (b.label ∷ []) (b ∷ bs)) refl h
  where
    run :
        (o : Outcome)
        → process_labels (suc (length (b ∷ bs))) 0 (b.label ∷ []) (b ∷ bs) ≡ o
        → elim o [
          | done st bs' ↦ done st (retain st bs')
          | panicked ↦ panicked
          | out_of_fuel ↦ out_of_fuel
        ]
          ≡ done st bs'
        → ((l : ℕ) → In l (labels bs') ↔ (In l (labels (b ∷ bs)) × Reachable (b ∷ bs) b.label l))
          × ((l : ℕ) → Reachable (b ∷ bs) b.label l → exits_of bs' l ≡ exits_of (b ∷ bs) l)
    run panicked e h = cc
    run out_of_fuel e h = cc
    run (done st₁ bs₁) e h =
        let c =
          process_labels-IsClosed (b ∷ bs) b.label (suc (length (b ∷ bs))) 0 (b.label ∷ []) (b ∷ bs)
            st₁ bs₁ (start-IsFrontier b bs) e in
        let end : retain st₁ bs₁ ≡ bs' = ap (λ x. x.1) (some_inj (ap end_of h)) in
        (
          λ l. (
            λ m.
                let (n, s) = (In-retain st₁ bs₁ l).0 (rw end m) in
                (subst (In l) c.same_labels n, c.sound l s),
            λ (m, r). rw (← end) (
                (In-retain st₁ bs₁ l).1 (
                  subst (In l) (sym c.same_labels) m,
                  IsClosed-complete (b ∷ bs) b.label st₁ bs₁ c l r,
                )),
          ),
          λ l r. rw (← end) (
              exits_of-retain st₁ bs₁ l
                (In-contains st₁ l (IsClosed-complete (b ∷ bs) b.label st₁ bs₁ c l r))
              ∙ c.same_exits l),
        )
