-- ===== src/Lir/Memory/Ends.antt =====
-- src/lir/eval.rs, `Memory`: the frame on top of the stack, from the call that pushes it to the
-- return that pops it.
use roto.Prelude.{
  ℕ, zero, suc, ◌+◌, ◌-◌, ◌<◌, ◌≡◌, ◌∙◌, refl, sym, ap, Option, some, List, [], ◌∷◌, ◌++◌, length,
  get_elem?, set, length-append, >>=-eq-some, some_inj, arith, false, ◌==◌, lt→ltb, add_usize,
  get_elem?-append_end,
}
use roto.Lir.Var.{Var}
use roto.Lir.Memory.{Memory, StackFrame, push_frame, pop, pop_frame, allocate, with_allocation}

-- The frame of a call on top of the stack `below`.
pub record IsTop (below : List StackFrame) (address : ℕ) (place : Option Var) (m : Memory)
    : Type 0 where
  pub frame : StackFrame
  pub stack : m.stack ≡ below ++ frame ∷ []
  pub address_kept : frame.return_address ≡ address
  pub place_kept : frame.return_place ≡ place

pub push_frame-IsTop :
    (m : Memory) (address : ℕ) (place : Option Var) (m' : Memory)
    → push_frame m address place ≡ some m'
    → IsTop m.stack address place m'
unfolding push_frame
push_frame-IsTop m address place m' h =
    let (n, e, r) = >>=-eq-some (add_usize m.id_counter 1) _ h in
    record {
      frame = record {
        id = m.id_counter;
        return_address = address;
        return_place = place;
        allocations = [];
      };
      stack = ap (λ x. x.stack) (sym (some_inj r));
      address_kept = refl;
      place_kept = refl;
    }

set-append_end {ℓ} :
    {A : Type ℓ} (xs : List A) (x y : A) (n : ℕ)
    → n ≡ length xs
    → set (xs ++ x ∷ []) n y ≡ xs ++ y ∷ []
set-append_end [] x y zero h = refl
set-append_end [] x y (suc n) h = absurd (omega arith)
set-append_end (z ∷ xs) x y zero h = absurd (omega arith)
set-append_end (z ∷ xs) x y (suc n) h = ap (λ r. z ∷ r) (set-append_end xs x y n (omega arith))

pub allocate-IsTop :
    (below : List StackFrame) (address : ℕ) (place : Option Var) (m : Memory) (bytes p : ℕ)
    (m' : Memory)
    → IsTop below address place m
    → allocate m bytes ≡ some (p, m')
    → IsTop below address place m'
unfolding allocate
allocate-IsTop below address place m bytes p m' t h =
    let size : length m.stack ≡ length below + 1 =
      ap length t.stack ∙ length-append below (t.frame ∷ []) in
    let last : length m.stack - 1 ≡ length below = omega arith in
    let top : get_elem? m.stack (length m.stack - 1) ≡ some t.frame =
      rw (last, t.stack) (get_elem?-append_end below t.frame (length below) refl) in
    let (f, e, r) =
      >>=-eq-some (get_elem? m.stack (length m.stack - 1)) _
        (rw (lt→ltb 0 (length m.stack) (omega arith)) at h) in
    let same : f ≡ t.frame = some_inj (sym e ∙ top) in
    let result : m'.stack ≡ set m.stack (length m.stack - 1) (with_allocation f bytes) =
      ap (λ x. x.1.stack) (sym (some_inj r)) in
    record {
      frame = with_allocation f bytes;
      stack =
          result
          ∙ ap (λ s. set s (length m.stack - 1) (with_allocation f bytes)) t.stack
          ∙ set-append_end below t.frame (with_allocation f bytes) (length m.stack - 1) last;
      address_kept = ap (λ x. x.return_address) same ∙ t.address_kept;
      place_kept = ap (λ x. x.return_place) same ∙ t.place_kept;
    }

pop-append_end {ℓ} : {A : Type ℓ} (xs : List A) (x : A) → pop (xs ++ x ∷ []) ≡ some (xs, x)
unfolding pop
pop-append_end [] x = refl
pop-append_end (y ∷ xs) x = rw (pop-append_end xs x, pop)

pub pop_frame-IsTop :
    (below : List StackFrame) (address : ℕ) (place : Option Var) (m : Memory)
    → 0 < length below
    → (t : IsTop below address place m) → pop_frame m ≡ some (t.frame, record m { stack = below })
unfolding pop_frame
pop_frame-IsTop below address place m some_left t =
    let size : length m.stack ≡ length below + 1 =
      ap length t.stack ∙ length-append below (t.frame ∷ []) in
    let more : (length m.stack == 1) ≡ false = ground arith in
    let popped : pop m.stack ≡ some (below, t.frame) =
      ap pop t.stack ∙ pop-append_end below t.frame in
    rw (more, popped)
