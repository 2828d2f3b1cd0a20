-- ===== src/Lir.antt =====
-- src/lir: the low-level intermediate representation and the machine that evaluates it.
pub mod Value
pub mod Var
pub mod Memory
pub mod Program
pub mod Arith
pub mod Machine
pub mod Instructions
pub mod Eval
