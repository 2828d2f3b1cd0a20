-- ===== src/Prelude/Distinct.antt =====
-- Lists of distinct numbers, and the pigeonhole principle for them.
use Prim.Native.Nat.{ℕ, zero, suc, ◌≤◌, ◌<◌}
use mathlib.Core.Path.{◌≡◌, refl, sym, ap, ◌∙◌}
use mathlib.Core.Logic.{◌≢◌, ◌⊎◌, inl, inr}
use mathlib.Core.List.{List, [], ◌∷◌}
use mathlib.Core.Option.{some}
use native.Mathlib.Omega.{arith}
use roto.Prelude.Lists.{length, get_elem?}
use roto.Prelude.Checked.{some_inj}

-- The element stands somewhere in the list.
abbrev pub In : ℕ → List ℕ → Type 0
In l ls = (k : ℕ) × (get_elem? ls k ≡ some l)

-- No number stands at two places.
abbrev pub Distinct : List ℕ → Type 0
Distinct st = (j k l : ℕ) → get_elem? st j ≡ some l → get_elem? st k ≡ some l → j ≡ k

pub In-cons : (x l : ℕ) (ls : List ℕ) → In l (x ∷ ls) → (x ≡ l) ⊎ In l ls
In-cons x l ls (zero, e) = inl (some_inj e)
In-cons x l ls (suc k, e) = inr (k, e)

pub In-none : (l : ℕ) → In l [] → ⊥
In-none l (k, e) = cc

abbrev delete : List ℕ → ℕ → List ℕ
delete [] k = []
delete (x ∷ xs) zero = xs
delete (x ∷ xs) (suc k) = x ∷ delete xs k

length-delete :
    (xs : List ℕ) (k : ℕ) {x : ℕ} → get_elem? xs k ≡ some x → length xs ≡ suc (length (delete xs k))
length-delete [] k h = cc
length-delete (x ∷ xs) zero h = refl
length-delete (x ∷ xs) (suc k) h = ap suc (length-delete xs k h)

delete-In : (xs : List ℕ) (k j l : ℕ) → get_elem? xs j ≡ some l → j ≢ k → In l (delete xs k)
delete-In [] k j l h ne = cc
delete-In (x ∷ xs) zero zero l h ne = absurd (ne refl)
delete-In (x ∷ xs) zero (suc j) l h ne = (j, h)
delete-In (x ∷ xs) (suc k) zero l h ne = (0, h)
delete-In (x ∷ xs) (suc k) (suc j) l h ne =
    let (i, e) = delete-In xs k j l h (λ p. ne (ap suc p)) in (suc i, e)

-- A list of distinct numbers that all stand in another list is no longer than that.
pub pigeonhole :
    (xs ys : List ℕ) → Distinct xs → ((l : ℕ) → In l xs → In l ys) → length xs ≤ length ys
pigeonhole [] ys d h = omega arith
pigeonhole (x ∷ xs) ys d h =
    let (p, at) = h x (0, refl) in
    let rest : length xs ≤ length (delete ys p) =
      pigeonhole xs (delete ys p) (λ j k l ej ek. ground (arith, d (suc j) (suc k) l ej ek))
        (λ l (k, e).
          let (q, at') = h l (suc k, e) in
          delete-In ys p q l at' (λ same.
            let equal : x ≡ l = some_inj (sym at ∙ ap (get_elem? ys) (sym same) ∙ at') in
            let clash : 0 ≡ suc k = d 0 (suc k) l (ap some equal) e in omega arith)) in
    omega (arith, length-delete ys p at)

abbrev below : ℕ → List ℕ
below zero = []
below (suc n) = n ∷ below n

length-below : (n : ℕ) → length (below n) ≡ n
length-below zero = refl
length-below (suc n) = ap suc (length-below n)

eq_or_lt : (n i : ℕ) → i ≤ n → (n ≡ i) ⊎ (i < n)
eq_or_lt n i h = ground arith

below-In : (n i : ℕ) → i < n → In i (below n)
below-In zero i h = absurd (omega arith)
below-In (suc n) i h = elim (eq_or_lt n i (omega arith)) [
  | inl same ↦ (0, ap some same)
  | inr less ↦ let (k, e) = below-In n i less in (suc k, e)
]

-- There are no more distinct numbers below a number than that number.
pub Distinct-length :
    (xs : List ℕ) (n : ℕ) → Distinct xs → ((x : ℕ) → In x xs → x < n) → length xs ≤ n
Distinct-length xs n d h =
    let le = pigeonhole xs (below n) d (λ x m. below-In n x (h x m)) in
    ground (arith, length-below n, le)
