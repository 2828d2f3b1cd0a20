-- ===== src/Lir/Machine/Binding.antt =====
-- src/lir/eval.rs: how a call binds the parameters of the called item.
use roto.Prelude.{
  ℕ, zero, suc, ◌≡◌, ◌≢◌, ◌∙◌, refl, sym, ap, true, false, some, List, [], ◌∷◌, get_elem?, All,
  All-get_elem?, Bool-cases, inl, inr, some_inj, arith, >>=-eq-some,
}
use roto.Lir.Value.{IrValue, IrType}
use roto.Lir.Var.{Var, explicit, var_eq}
use roto.Lir.Program.{Operand}
use roto.Lir.Machine.{Vars, insert, eval_operand, bind_args}

pub var_eq_iff : (a b : Var) → (var_eq a b ≡ true) → a ≡ b
unfolding var_eq
var_eq_iff a b h = ground arith

pub var_eq_refl : (a : Var) → var_eq a a ≡ true
unfolding var_eq
var_eq_refl a = ground arith

pub var_eq-ne : (a b : Var) → a ≢ b → var_eq a b ≡ false
var_eq-ne a b h = elim (Bool-cases (var_eq a b)) [
  | inl t ↦ absurd (h (var_eq_iff a b t))
  | inr f ↦ f
]

pub insert_self : (v : Var) (x : IrValue) (vars : Vars) → insert v x vars v ≡ some x
insert_self v x vars = rw (var_eq_refl v)

pub insert-ne : (v w : Var) (x : IrValue) (vars : Vars) → v ≢ w → insert v x vars w ≡ vars w
insert-ne v w x vars h = rw (var_eq-ne v w h)

abbrev pub parameter : ℕ → ℕ → Var
parameter scope x = record { scope = scope; kind = explicit x }

-- None of the parameters is the variable.
abbrev pub NoParameter : ℕ → List (ℕ × IrType) → Var → Type 0
NoParameter scope ps w = All (λ (p : ℕ × IrType). parameter scope p.0 ≢ w) ps

-- The operand reads none of the parameters.
abbrev pub Independent : ℕ → List (ℕ × IrType) → Operand → Type 0
Independent scope ps (Operand.place v) = NoParameter scope ps v
Independent scope ps (Operand.value v) = Unit

abbrev pub Distinct : List (ℕ × IrType) → Type 0
Distinct [] = Unit
Distinct (p ∷ ps) = All (λ (q : ℕ × IrType). q.0 ≢ p.0) ps × Distinct ps

bind_args-other :
    (scope : ℕ) (ps : List (ℕ × IrType)) (args : List Operand) (vars vars' : Vars) (w : Var)
    → bind_args scope ps args vars ≡ some vars'
    → NoParameter scope ps w
    → vars' w ≡ vars w
unfolding bind_args
bind_args-other scope [] args vars vars' w h free = ap (λ f. f w) (sym (some_inj h))
bind_args-other scope (p ∷ ps) [] vars vars' w h free = ap (λ f. f w) (sym (some_inj h))
bind_args-other scope ((x, t) ∷ ps) (a ∷ args) vars vars' w h (ne, free) =
    let (v, _, q) = >>=-eq-some (eval_operand vars a) _ h in
    bind_args-other scope ps args (insert (parameter scope x) v vars) vars' w q free
    ∙ insert-ne (parameter scope x) w v vars ne

eval_operand-insert :
    (scope x : ℕ) (t : IrType) (ps : List (ℕ × IrType)) (v : IrValue) (vars : Vars) (a : Operand)
    → Independent scope ((x, t) ∷ ps) a
    → eval_operand (insert (parameter scope x) v vars) a ≡ eval_operand vars a
unfolding eval_operand
eval_operand-insert scope x t ps v vars (Operand.place w) h =
    insert-ne (parameter scope x) w v vars h.0
eval_operand-insert scope x t ps v vars (Operand.value c) h = refl

Independent-rest :
    (scope : ℕ) (p : ℕ × IrType) (ps : List (ℕ × IrType)) (args : List Operand)
    → All (Independent scope (p ∷ ps)) args
    → All (Independent scope ps) args
Independent-rest scope p ps [] h = tt
Independent-rest scope p ps (Operand.place v ∷ args) (a, b) =
    (a.1, Independent-rest scope p ps args b)
Independent-rest scope p ps (Operand.value v ∷ args) (a, b) =
    (tt, Independent-rest scope p ps args b)

other_parameters :
    (scope x : ℕ) (ps : List (ℕ × IrType))
    → All (λ (q : ℕ × IrType). q.0 ≢ x) ps
    → NoParameter scope ps (parameter scope x)
other_parameters scope x [] h = tt
other_parameters scope x ((y, t) ∷ ps) (ne, h) =
    (λ e. ne (explicit_inj (ap (λ v. v.kind) e)), other_parameters scope x ps h)
  where
    explicit_inj : explicit y ≡ explicit x → y ≡ x
    explicit_inj e = cc

bind_args-parameter :
    (scope : ℕ) (ps : List (ℕ × IrType)) (args : List Operand) (vars vars' : Vars)
    → Distinct ps
    → All (Independent scope ps) args
    → bind_args scope ps args vars ≡ some vars'
    → (k x : ℕ) (t : IrType) (a : Operand) → get_elem? ps k ≡ some (x, t)
    → get_elem? args k ≡ some a
    → vars' (parameter scope x) ≡ eval_operand vars a
unfolding bind_args
bind_args-parameter scope [] args vars vars' d i h k x t a p q = cc
bind_args-parameter scope (p ∷ ps) [] vars vars' d i h k x t a e q = cc
bind_args-parameter scope ((y, u) ∷ ps) (b ∷ args) vars vars' (d, ds) (i, is) h zero x t a p q =
    let (v, e, r) = >>=-eq-some (eval_operand vars b) _ h in
    let name : y ≡ x = ap (λ z. z.0) (some_inj p) in
    let arg : b ≡ a = some_inj q in
    rw (← name, ← arg)
      (bind_args-other scope ps args (insert (parameter scope y) v vars) vars' (parameter scope y) r
          (other_parameters scope y ps d)
        ∙ insert_self (parameter scope y) v vars
        ∙ sym e)
bind_args-parameter scope ((y, u) ∷ ps) (b ∷ args) vars vars' (d, ds) (i, is) h (suc k) x t a p q =
    let (v, e, r) = >>=-eq-some (eval_operand vars b) _ h in
    bind_args-parameter scope ps args (insert (parameter scope y) v vars) vars' ds
      (Independent-rest scope (y, u) ps args is) r k x t a p q
    ∙ eval_operand-insert scope y u ps v vars a
        (All-get_elem? (Independent scope ((y, u) ∷ ps)) args k is q)

-- Where no argument reads a parameter of the called item, and the parameters have different
-- names, each parameter is bound to what its argument was before the call, and no other variable
-- changes.
pub bind_args_lem :
    (scope : ℕ) (ps : List (ℕ × IrType)) (args : List Operand) (vars vars' : Vars)
    → Distinct ps
    → All (Independent scope ps) args
    → bind_args scope ps args vars ≡ some vars'
    → ((k x : ℕ) (t : IrType) (a : Operand)
        → get_elem? ps k ≡ some (x, t)
        → get_elem? args k ≡ some a
        → vars' (parameter scope x) ≡ eval_operand vars a)
      × ((w : Var) → NoParameter scope ps w → vars' w ≡ vars w)
bind_args_lem scope ps args vars vars' d i h = (
  bind_args-parameter scope ps args vars vars' d i h,
  λ w free. bind_args-other scope ps args vars vars' w h free,
)

-- Where an item calls itself with its two parameters exchanged, both end with the value that the
-- second one had: the first is overwritten before the second argument is read.
pub bind_args_exchanged :
    (scope x y : ℕ) (t u : IrType) (vars vars' : Vars)
    → x ≢ y
    → bind_args scope
        ((x, t) ∷ (y, u) ∷ [])
        (Operand.place (parameter scope y) ∷ Operand.place (parameter scope x) ∷ [])
        vars
      ≡ some vars'
    → (vars' (parameter scope x) ≡ vars (parameter scope y))
      × (vars' (parameter scope y) ≡ vars (parameter scope y))
unfolding bind_args eval_operand
bind_args_exchanged scope x y t u vars vars' ne h =
    let (v, e, r) = >>=-eq-some (vars (parameter scope y)) _ h in
    let known : insert (parameter scope x) v vars (parameter scope x) ≡ some v =
      insert_self (parameter scope x) v vars in
    let (w, e', r') = >>=-eq-some (insert (parameter scope x) v vars (parameter scope x)) _ r in
    let same : v ≡ w = some_inj (sym known ∙ e') in
    let differ : parameter scope y ≢ parameter scope x =
      (other_parameters scope x ((y, u) ∷ []) (λ p. ne (sym p), tt)).0 in
    let result = some_inj r' in
    (
      ap (λ f. f (parameter scope x)) (sym result)
          ∙ insert-ne (parameter scope y) (parameter scope x) w (insert (parameter scope x) v vars)
              differ
          ∙ known
          ∙ sym e,
      ap (λ f. f (parameter scope y)) (sym result)
          ∙ insert_self (parameter scope y) w (insert (parameter scope x) v vars)
          ∙ ap some (sym same)
          ∙ sym e,
    )
