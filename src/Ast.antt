-- ===== src/Ast.antt =====
-- src/ast.rs: the binary operators of the syntax tree.

pub data BinOp : Type 0 where
  and or eq ne lt le gt ge add sub mul div modulo : BinOp
