-- ===== src/Parser.antt =====
-- parser/: from the text of a workflow to its tokens.
pub mod Lexer
pub mod Edges
