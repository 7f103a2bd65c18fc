-- ===== src/Lexer.antt =====
-- src/lexer/lexer.hpp, src/lexer/lexer.cpp, src/lexer/lexer_maps.hpp and src/lexer/number_parser.hpp: the lexer.
pub mod Token
pub mod Maps
pub mod State
pub mod Scan
pub mod Number
pub mod Step
pub mod Analyze
mod Tests
pub mod Moves
pub mod Advances
pub mod Total
pub mod Terminates
pub mod Stuck
pub mod Decimal
pub mod Numbers
pub mod Literals
pub mod Typenames
pub mod Comments
