-- ===== src/Mir/DeadCode/Labels.antt =====
-- src/mir/dead_code.rs, `State`: positions in the list of labels, and what adding labels does.
use roto.Prelude.{
  ℕ, zero, suc, ◌≡◌, ◌⊎◌, inl, inr, ◌∙◌, refl, sym, ap, subst, true, false, some, List, [], ◌∷◌,
  ◌++◌, length, get_elem?, ◌==◌, some_inj, Bool-cases, get_elem?-lt, get_elem?-append_left,
  get_elem?-append_end, ==→≡, ≡→==,
}
use roto.Prelude.Distinct.{In, Distinct, In-cons, In-none}
use roto.Mir.DeadCode.{State, contains, add, add_each}

-- One list begins with the other.
abbrev pub Extends : List ℕ → List ℕ → Type 0
Extends st st' = (k l : ℕ) → get_elem? st k ≡ some l → get_elem? st' k ≡ some l

pub contains-In : (st : State) (l : ℕ) → contains st l ≡ true → In l st
contains-In [] l h = cc
contains-In (x ∷ xs) l h = elim (Bool-cases (x == l)) [
  | inl t ↦ (0, ap some (==→≡ x l t))
  | inr f ↦ let (k, e) = contains-In xs l (rw f at h) in (suc k, e)
]

pub In-contains : (st : State) (l : ℕ) → In l st → contains st l ≡ true
In-contains [] l (k, e) = cc
In-contains (x ∷ xs) l (zero, e) = rw (≡→== x l (some_inj e)) refl
In-contains (x ∷ xs) l (suc k, e) = elim (Bool-cases (x == l)) [
  | inl t ↦ rw t refl
  | inr f ↦ rw f (In-contains xs l (k, e))
]

pub Extends-append : (st ls : List ℕ) → Extends st (st ++ ls)
Extends-append st ls k l e = get_elem?-append_left st ls k (get_elem?-lt st k e) ∙ e

-- What stands in a list behind whose end one element was put.
append_one-cases :
    (st : List ℕ) (x k l : ℕ)
    → get_elem? (st ++ x ∷ []) k ≡ some l
    → (get_elem? st k ≡ some l) ⊎ ((l ≡ x) × (k ≡ length st))
append_one-cases [] x zero l e = inr (sym (some_inj e), refl)
append_one-cases [] x (suc k) l e = cc
append_one-cases (y ∷ st) x zero l e = inl e
append_one-cases (y ∷ st) x (suc k) l e = elim (append_one-cases st x k l e) [
  | inl h ↦ inl h
  | inr (h, p) ↦ inr (h, ap suc p)
]

-- What `State::add` does.
pub record IsAdded (st : State) (new : List ℕ) (st' : State) : Type 0 where
  pub grows : Extends st st'
  pub has : (l : ℕ) → In l new → In l st'
  pub only : (l : ℕ) → In l st' → In l st ⊎ In l new
  pub distinct : Distinct st → Distinct st'

append_one-Distinct :
    (st : State) (x : ℕ) → contains st x ≡ false → Distinct st → Distinct (st ++ x ∷ [])
append_one-Distinct st x f d j k l ej ek = elim (append_one-cases st x j l ej) [
  | inl hj ↦ elim (append_one-cases st x k l ek) [
    | inl hk ↦ d j k l hj hk
    | inr (p, _) ↦ let bad : true ≡ false = sym (In-contains st x (j, rw (← p) hj)) ∙ f in cc
  ]
  | inr (p, q) ↦ elim (append_one-cases st x k l ek) [
    | inl hk ↦ let bad : true ≡ false = sym (In-contains st x (k, rw (← p) hk)) ∙ f in cc
    | inr (_, q') ↦ q ∙ sym q'
  ]
]

pub add-IsAdded : (st : State) (x : ℕ) → IsAdded st (x ∷ []) (add st x)
unfolding add
add-IsAdded st x = elim (Bool-cases (contains st x)) [
  | inl t ↦ rw t record {
    grows = λ k l e. e;
    has = λ l h. elim (In-cons x l [] h) [
      | inl e ↦ subst (λ y. In y st) e (contains-In st x t)
      | inr e ↦ absurd (In-none l e)
    ];
    only = λ l h. inl h;
    distinct = λ d. d;
  }
  | inr f ↦ rw f record {
    grows = Extends-append st (x ∷ []);
    has = λ l h. elim (In-cons x l [] h) [
      | inl e ↦ (length st, get_elem?-append_end st x (length st) refl ∙ ap some e)
      | inr e ↦ absurd (In-none l e)
    ];
    only = λ l h. elim (append_one-cases st x h.0 l h.1) [
      | inl e ↦ inl (h.0, e)
      | inr (p, _) ↦ inr (0, ap some (sym p))
    ];
    distinct = append_one-Distinct st x f;
  }
]

pub add_each-IsAdded : (st : State) (ls : List ℕ) → IsAdded st ls (add_each st ls)
unfolding add_each
add_each-IsAdded st [] = record {
  grows = λ k l e. e;
  has = λ l h. absurd (In-none l h);
  only = λ l h. inl h;
  distinct = λ d. d;
}
add_each-IsAdded st (x ∷ ls) =
    let one = add-IsAdded st x in
    let rest = add_each-IsAdded (add st x) ls in
    record {
      grows = λ k l e. rest.grows k l (one.grows k l e);
      has = λ l h. elim (In-cons x l ls h) [
        | inl e ↦ let (k, p) = one.has l (0, ap some e) in (k, rest.grows k l p)
        | inr e ↦ rest.has l e
      ];
      only = λ l h. elim (rest.only l h) [
        | inl old ↦ elim (one.only l old) [
          | inl older ↦ inl older
          | inr new ↦ elim (In-cons x l [] new) [
            | inl e ↦ inr (0, ap some e)
            | inr e ↦ absurd (In-none l e)
          ]
        ]
        | inr (k, e) ↦ inr (suc k, e)
      ];
      distinct = λ d. rest.distinct (one.distinct d);
    }
