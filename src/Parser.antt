-- ===== src/Parser.antt =====
-- src/parser: the precedence of operators, and the parsing of binary expressions.
pub mod Precedence
pub mod Binop
