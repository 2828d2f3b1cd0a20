-- ===== src/Lib.antt =====
-- Roto is a scripting language that is embedded in Rust programs. A script is parsed, checked, and
-- lowered to the mid-level IR (src/mir) and from there to the low-level IR (src/lir), which is
-- compiled to machine code (src/codegen) or, in tests, interpreted (src/lir/eval.rs). This
-- development models the memory layout of values, the low-level IR with its interpreter, and the
-- passes listed below.
--
-- Parts, and the files that model them:
--
-- + Prelude, Prelude/*: the shared names: Boolean tests on numbers, lists over the native numbers,
--   checked arithmetic of `usize`, the integers of the fixed-width types, and the bytes of a word.
--   A panic of the program is `none` in `Option`, and `>>=` goes on where there was none.
-- + Layout, Layout/*: `Layout` and `LayoutBuilder` of src/runtime/layout.rs, all but the
--   layout that the Rust compiler gives a Rust type.
-- + Lir.Value: `IrValue` and `IrType` of src/lir/value.rs. A word is a number below its bound, a
--   signed word an integer, a float and an address the bits that it has; `IsValue` is the range.
--   The byte order of the machine is an argument.
-- + Lir.Var, Lir.Program: variables, instructions, blocks and items of src/lir/mod.rs.
-- + Lir.Memory: `Memory`, `StackFrame`, `Allocation` and the pointers of src/lir/eval.rs, one
--   function per method. The modules below it are about reads and writes (Bytes, Frames, Fresh), the
--   invariant (Invariant, Stale) and the top of the stack (Ends).
-- + Lir.Arith: the arms of `eval` that compute a value from values. Overflow panics, as it does
--   with the overflow checks that tests are built with.
-- + Lir.Machine: the state of the loop of `eval`, the map of blocks, and `Instruction::Call`.
-- + Lir.Instructions, Lir.Eval: the other arms, the round of the loop (`step`), the state it starts
--   in (`start`), and the whole of `eval`. The modules below Lir.Eval are about calls and
--   returns (Calls), the memory over a run (Keeps, Runs) and storing and loading (Store).
-- + Ast, Mir: the binary operators of src/ast.rs and the mid-level IR of src/mir/mod.rs, with labels,
--   types and literals as numbers.
-- + Mir.DeadCode: the pass of src/mir/dead_code.rs. The modules below it are about adding labels
--   (Labels), a round of the loop (Round), the labels that it collects (Reach), the flow of control
--   between blocks (Live) and the end of the loop (Finite, Fuel).
-- + Typechecker, Typechecker.Scope: the graph of scopes of src/typechecker/scope.rs, with its
--   operations (Inserts), the invariant (Graph, Operations, Steps) and the search for a name
--   (Lookup).
-- + Parser.Precedence: src/parser/precedence.rs. Parser.Binop: the function binop_expr of
--   src/parser/expr.rs on tokens that are operands and operators. The modules below it are about
--   the grouping of the result, by the table of the parser (Grouping) and by strengths (Strength),
--   the fuel (Enough), and the way back from an expression to its tokens (Complete).
-- + Typechecker.Types: the types of src/typechecker/types.rs with their substitution (Substitute)
--   and the comparison with a substitution of all variables at once (Simultaneous).
--   Typechecker.UnionFind: src/typechecker/unionfind.rs, the chains of variables (Chains), what
--   path compression does to them (Compress), their length (Height) and setting a variable
--   (Binding). Typechecker.Unify: unify_inner and what it calls in src/typechecker/mod.rs, on
--   the graph of scopes for the definitions of names.
-- + Typechecker.TypeCycle: src/typechecker/type_cycle.rs, with the order of the types behind a
--   success (Acyclic), the cycle behind an error (Cyclic) and the depth of the recursion (Fuel).
-- + Mir.Types: src/mir/ty.rs, the pool of types (Interned) and the layouts of types (Layouts; the
--   variants of enums are in Layouts.Variants), on the component Layout.
-- + Typechecker.ValueCycle: src/typechecker/value_cycle.rs, Tarjan's algorithm with its stack
--   (Stack), the loop over the references (Connect, Loop, Rounds), the components (Order) and its
--   end (Unvisited, Total). Compile has the checks on constants that build on it: what they rule out
--   (Passed, Before), the use of the context (Explored, Context, Justified) and the depth of the
--   recursion (Unseen, Fuel). It looks declarations up in the graph of scopes. References builds
--   the graph of references.
--
-- How they interact: the interpreter reads the program (Lir.Program) through the map of blocks,
-- keeps variables in one map for all activations, and keeps everything else in the memory, whose
-- frames are pushed by calls and popped by returns. What belongs to Rust code is a record `Host`
-- of parameters: the bytes behind an address, registered constants and functions, the clone, drop
-- and equality functions, the floating point unit and the byte order. Theorems on runs assume of it
-- only that its functions keep the invariant of the memory (`KeepsMemory`).
--
-- Bounds and fuel: the loop of `eval` need not end, since a program need not; `eval` takes a number
-- of rounds and says `out_of_fuel` when they are used up. The theorems on runs speak of those that
-- finish, and those on calls, returns and instructions of single rounds. A `usize` has 64 bits.
-- The loop of the dead code pass has one round more than an item has blocks, and the search for a
-- name one more than the number of its scope: each round has another block, or a smaller scope.
-- The parsing of a binary expression takes fuel of more than twice the number of tokens.
-- find and find_ref follow at most as many variables as there are; detect_type_cycles is given
-- one more than the number of types, and layout_of needs one more than the reference that it is
-- asked for. unify_inner has no bound, since a type may come to contain itself.
-- tarjan and determine_uses_context are given one more than the number of names in the graph.
--
-- Not modelled: the parser and the type checker, but for what is listed above; the lowering passes;
-- code generation, which calls Cranelift; registration of Rust types and functions, which works by
-- Rust generics and macros; the values behind raw pointers; printing, files and the command line.
pub mod Prelude
pub mod Ast
pub mod Layout
pub mod Lir
pub mod Mir
pub mod Parser
pub mod Typechecker
