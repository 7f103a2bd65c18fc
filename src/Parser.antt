-- ===== src/Parser.antt =====
-- src/parser/: expressions, by the shunting-yard algorithm.
pub mod Cst
pub mod Maps
pub mod Shunting
pub mod Grammar
pub mod Yard
pub mod Stack
pub mod Expressions
pub mod Errors
pub mod Tests
